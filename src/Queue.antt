-- ===== src/Queue.antt =====
-- `SafeQueue` (include/rscmng/data_sharing/safe_queue.hpp) between the threads that put values in and
-- the one thread that takes them out, as every queue of the program is used. A step is what happens
-- while the lock is held; the steps of the threads come in any order.
pub mod Order
mod Tests
use application_aware_resour.Prelude.{
  ℕ, ◌≡◌, refl, List, [], ◌∷◌, ◌++◌, Bool, true, false, Option, some, none,
}

-- Where the thread is that takes values out: not in `dequeue`, asleep in the wait for the event, or
-- awake in it and about to test again.
pub data Consumer : Type 0 where
  outside asleep awake : Consumer

-- `put_in` and `taken` are the values of all calls so far, the first at the front.
pub record System (T : Type 0) : Type 0 where
  pub safe_queue : List T
  pub consumer : Consumer
  pub put_in : List T
  pub taken : List T

abbrev pub fresh : {T : Type 0} → System T
fresh = record { safe_queue = []; consumer = Consumer.outside; put_in = []; taken = [] }

-- `notify_one`
unfoldable pub notified : Consumer → Consumer
notified Consumer.asleep = Consumer.awake
notified Consumer.outside = Consumer.outside
notified Consumer.awake = Consumer.awake

module _ {T : Type 0} where
  unfoldable pub enqueue : T → System T → System T
  unfolding notified
  enqueue value s = record {
    safe_queue = s.safe_queue ++ value ∷ [];
    consumer = notified s.consumer;
    put_in = s.put_in ++ value ∷ [];
    taken = s.taken;
  }

  -- `dequeue` from the test of its loop on: it goes to sleep, or takes the front and returns.
  unfoldable pub dequeue : System T → System T
  dequeue s = elim s.safe_queue [
    | [] ↦ record s { consumer = Consumer.asleep }
    | ◌∷◌ val rest ↦ record s {
      safe_queue = rest;
      consumer = Consumer.outside;
      taken = s.taken ++ val ∷ [];
    }
  ]

  unfoldable pub empty : System T → Bool
  empty s = elim s.safe_queue [ [] ↦ true | ◌∷◌ _ _ ↦ false ]

  -- A step of any thread; the wait may end without a notification.
  pub data Step : System T → System T → Type 0 where
    enqueues : (s : System T) (value : T) → Step s (enqueue value s)
    calls : (s : System T) → s.consumer ≡ Consumer.outside → Step s (dequeue s)
    tests : (s : System T) → s.consumer ≡ Consumer.awake → Step s (dequeue s)
    wakes :
        (s : System T)
        → s.consumer ≡ Consumer.asleep
        → Step s (record s { consumer = Consumer.awake })

  pub data Reach (s : System T) : System T → Type 0 where
    here : Reach s s
    next : {t u : System T} → Reach s t → Step t u → Reach s u
