-- ===== src/Queue/Order.antt =====
-- What holds of a queue after any steps of its threads: the order of the values, and that the thread
-- that takes them out does not sleep while there are any.
use application_aware_resour.Prelude.{
  ◌≡◌, refl, sym, ap, ◌∙◌, List, [], ◌∷◌, ◌++◌, append_assoc, Bool, true, false, not, ◌&&◌,
}
use application_aware_resour.Queue.{
  Consumer, System, fresh, notified, enqueue, dequeue, empty, Step, enqueues, calls, tests, wakes,
  Reach, here, next,
}

abbrev pub is_asleep : Consumer → Bool
is_asleep Consumer.asleep = true
is_asleep _ = false

notified-awake : (c : Consumer) → is_asleep (notified c) ≡ false
unfolding notified
notified-awake Consumer.outside = refl
notified-awake Consumer.asleep = refl
notified-awake Consumer.awake = refl

module _ {T : Type 0} where
  -- What was taken and what is left is what was put in, in its order; and no value waits for a thread
  -- that sleeps.
  pub record IsOrdered (s : System T) : Type 0 where
    pub first_in_first_out : s.taken ++ s.safe_queue ≡ s.put_in
    pub no_lost_value : is_asleep s.consumer && not (empty s) ≡ false

  enqueue-IsOrdered : (value : T) (s : System T) → IsOrdered s → IsOrdered (enqueue value s)
  unfolding enqueue empty
  enqueue-IsOrdered value s v = record {
    first_in_first_out =
        sym (append_assoc s.taken s.safe_queue (value ∷ []))
        ∙ ap (λ l. l ++ value ∷ []) v.first_in_first_out;
    no_lost_value = ap (λ b. b && not (empty (enqueue value s))) (notified-awake s.consumer);
  }

  dequeue-IsOrdered : (s : System T) → IsOrdered s → IsOrdered (dequeue s)
  dequeue-IsOrdered s v = by_queue s.safe_queue s.consumer s.put_in s.taken v
    where
      by_queue :
          (queue : List T) (consumer : Consumer) (put_in taken : List T)
          → IsOrdered
              (record { safe_queue = queue; consumer = consumer; put_in = put_in; taken = taken })
          → IsOrdered (
              dequeue (record {
                safe_queue = queue;
                consumer = consumer;
                put_in = put_in;
                taken = taken;
              }))
      by_queue [] consumer put_in taken u =
          unfold dequeue empty in
          record { first_in_first_out = u.first_in_first_out; no_lost_value = refl }
      by_queue (val ∷ rest) consumer put_in taken u =
          unfold dequeue empty in
          record {
            first_in_first_out = append_assoc taken (val ∷ []) rest ∙ u.first_in_first_out;
            no_lost_value = refl;
          }

  Step-IsOrdered : {s t : System T} → Step s t → IsOrdered s → IsOrdered t
  Step-IsOrdered (enqueues s value) v = enqueue-IsOrdered value s v
  Step-IsOrdered (calls s e) v = dequeue-IsOrdered s v
  Step-IsOrdered (tests s e) v = dequeue-IsOrdered s v
  Step-IsOrdered (wakes s e) v = record {
    first_in_first_out = v.first_in_first_out;
    no_lost_value = refl;
  }

  Reach-IsOrdered : {s t : System T} → IsOrdered s → Reach s t → IsOrdered t
  Reach-IsOrdered v here = v
  Reach-IsOrdered v (next r step) = Step-IsOrdered step (Reach-IsOrdered v r)

  -- After any steps of the threads from a fresh queue, wakings without a notification included,
  -- what was taken and what is left is what was put in, in its order, and the thread that takes
  -- values out does not sleep while there are any.
  pub fresh-IsOrdered : {t : System T} → Reach fresh t → IsOrdered t
  fresh-IsOrdered r = Reach-IsOrdered (record { first_in_first_out = refl; no_lost_value = refl }) r
