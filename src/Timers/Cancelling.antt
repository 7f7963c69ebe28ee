-- ===== src/Timers/Cancelling.antt =====
-- What a cancelled timer leaves behind.
use application_aware_resour.Prelude.{
  ℕ, ◌+◌, ◌≡◌, refl, sym, ap, ◌∙◌, subst, arith, List, [], ◌∷◌, ◌++◌, Option, some, none, Bool,
  true, false, ◌==◌, ◌&&◌, not, if◌then◌else◌, ◌>>=◌, Bool-cases, inl, inr, some_inj, ==_self,
  append_assoc,
}
use application_aware_resour.Uuid.{Uuid, equal}
use application_aware_resour.Uuid.Order.{equal_self}
use application_aware_resour.Timers.{
  Timers, Wait, Registration, Status, Event, is_waiting, find_id, erase_id, register_timer,
  register_all, abort_wait, cancel, take_queued, run_task, timer_handler, step, run,
}

find_id-erase_id :
    {V : Type 0} (id : Uuid) (m : List (Uuid × V)) → find_id id (erase_id id m) ≡ none
unfolding find_id erase_id
find_id-erase_id id [] = refl
find_id-erase_id id ((k, v) ∷ m) = elim (Bool-cases (equal k id)) [
  | inl e ↦ rw e (find_id-erase_id id m)
  | inr e ↦ rw e (rw (e, find_id) (find_id-erase_id id m))
]

and_false : (b : Bool) → (b && false) ≡ false
and_false true = refl
and_false false = refl

module _ {Task : Type 0} where
  -- The state after a call of cancel that is defined.
  cancel-cases :
      (id : Uuid) (flag : Bool) (st : Timers Task) (n : ℕ)
      → find_id id st.m_timers ≡ some n
      → cancel id flag st
        ≡ some (record st {
          timer_repeat = erase_id id st.timer_repeat;
          waits = abort_wait n st.waits;
        })
  unfolding cancel
  cancel-cases id flag st n e = rw (e, cancel) refl

  module _ (calls : Task → List (Registration Task)) where
    run_task-unflagged :
        (w : Wait Task) (st : Timers Task)
        → calls w.function ≡ []
        → find_id w.id st.timer_repeat ≡ none
        → run_task calls w st ≡ none
    unfolding run_task register_all
    run_task-unflagged w st silent missing = rw (silent, run_task) (rw (missing, run_task) refl)

    -- The executor takes a wait that stands first and has expired.
    handle_first :
        (st : Timers Task) (w : Wait Task) (ws : List (Wait Task))
        → st.waits ≡ w ∷ ws
        → w.status ≡ Status.expired
        → st.joinable ≡ true
        → st.halted ≡ false
        → step calls (Event.handle w.timer) st ≡ run_task calls w (record st { waits = ws })
    unfolding step take_queued timer_handler
    handle_first st w ws first late joined running =
        ap (λ b. if b then handled (take_queued w.timer st.waits) else some st) runs
        ∙ ap handled (ap (take_queued w.timer) first ∙ ap found queued)
        ∙ ap by_status late
      where
        by_status : Status → Option (Timers Task)
        by_status status = elim status [
          | Status.aborted ↦ some (record st { waits = ws })
          | _ ↦ run_task calls w (record st { waits = ws })
        ]

        handled : Option (Wait Task × List (Wait Task)) → Option (Timers Task)
        handled o = elim o [
          | none ↦ some st
          | some (v, vs) ↦ timer_handler calls v (record st { waits = vs })
        ]

        found : Bool → Option (Wait Task × List (Wait Task))
        found b =
            if◌then◌else◌ {A = Option (Wait Task × List (Wait Task))} b (some (w, ws))
              (take_queued w.timer ws >>= λ (v, vs). some (v, w ∷ vs))

        runs : (st.joinable && not st.halted) ≡ true
        runs = ap (λ b. b && not st.halted) joined ∙ ap not running

        queued : (w.timer == w.timer && not (is_waiting w.status)) ≡ true
        queued =
            ap (λ b. b && not (is_waiting w.status)) (==_self w.timer)
            ∙ ap (λ s. not (is_waiting s)) late

    -- A timer that is cancelled when its time has passed, but before the executor has taken its
    -- handler, makes the handler read the flag behind the end of the map, which is undefined
    -- behaviour. The wait stands first, and its task registers no timer.
    pub cancel_expired :
        (st : Timers Task) (w : Wait Task) (ws : List (Wait Task)) (n : ℕ) (flag : Bool)
        → st.waits ≡ w ∷ ws
        → w.status ≡ Status.expired
        → calls w.function ≡ []
        → find_id w.id st.m_timers ≡ some n
        → st.joinable ≡ true
        → st.halted ≡ false
        → run calls (Event.cancelled w.id flag ∷ Event.handle w.timer ∷ []) st ≡ none
    unfolding run step abort_wait
    cancel_expired st w ws n flag first late silent there joined running =
        ap (λ (o : Option (Timers Task)). o >>= run calls (Event.handle w.timer ∷ []))
          (cancel-cases w.id flag st n there)
        ∙ ap (λ (o : Option (Timers Task)). o >>= run calls [])
            (handle_first (cancelled_state) w (abort_wait n ws) waits late joined running
              ∙ run_task-unflagged w (record cancelled_state { waits = abort_wait n ws }) silent
                  (find_id-erase_id w.id st.timer_repeat))
      where
        cancelled_state : Timers Task
        cancelled_state = record st {
          timer_repeat = erase_id w.id st.timer_repeat;
          waits = abort_wait n st.waits;
        }

        stays :
            (if w.timer == n && is_waiting w.status
              then record w { status = Status.aborted }
              else w)
            ≡ w
        stays =
            ap (λ b. if b then record w { status = Status.aborted } else w)
              (ap (λ s. w.timer == n && is_waiting s) late ∙ and_false (w.timer == n))

        waits : abort_wait n st.waits ≡ w ∷ abort_wait n ws
        waits = ap (abort_wait n) first ∙ ap (λ v. v ∷ abort_wait n ws) stays

  abort_wait-append :
      (n : ℕ) (ws vs : List (Wait Task))
      → abort_wait n (ws ++ vs) ≡ abort_wait n ws ++ abort_wait n vs
  unfolding abort_wait
  abort_wait-append n [] vs = refl
  abort_wait-append n (w ∷ ws) vs = simp (abort_wait-append n ws vs)

  waiting_for : ℕ → Registration Task → Wait Task
  waiting_for n r = record {
    timer = n;
    id = r.id;
    duration = r.duration;
    function = r.function;
    status = Status.waiting;
  }

  abort_both :
      (n : ℕ) (first second : Registration Task)
      → abort_wait (n + 1) (waiting_for n first ∷ waiting_for (n + 1) second ∷ [])
        ≡ waiting_for n first ∷ record (waiting_for (n + 1) second) { status = Status.aborted } ∷ []
  unfolding abort_wait waiting_for
  abort_both n first second =
      let other : (n == n + 1) ≡ false = ground arith in
      let own : (n + 1 == n + 1) ≡ true = ==_self (n + 1) in rw other (rw own refl)

  -- Of two timers that are registered under one identifier, cancel reaches the second: the wait of the
  -- first goes on.
  pub cancel-newest :
      (first second : Registration Task) (flag : Bool) (st st' : Timers Task)
      → first.id ≡ second.id
      → cancel first.id flag (register_timer second (register_timer first st)) ≡ some st'
      → st'.waits
        ≡ abort_wait (st.created + 1) st.waits
          ++ record {
            timer = st.created;
            id = first.id;
            duration = first.duration;
            function = first.function;
            status = Status.waiting;
          }
            ∷ record {
              timer = st.created + 1;
              id = second.id;
              duration = second.duration;
              function = second.function;
              status = Status.aborted;
            }
            ∷ []
  unfolding register_timer waiting_for
  cancel-newest first second flag st st' same cancelled =
      ap (λ (s : Timers Task). s.waits)
        (some_inj (sym cancelled ∙ cancel-cases first.id flag both (st.created + 1) newest))
      ∙ ap (abort_wait (st.created + 1)) (
          append_assoc st.waits (waiting_for st.created first ∷ [])
            (waiting_for (st.created + 1) second ∷ []))
      ∙ abort_wait-append (st.created + 1) st.waits
          (waiting_for st.created first ∷ waiting_for (st.created + 1) second ∷ [])
      ∙ ap (λ l. abort_wait (st.created + 1) st.waits ++ l) (abort_both st.created first second)
    where
      both : Timers Task
      both = register_timer second (register_timer first st)

      newest : find_id first.id both.m_timers ≡ some (st.created + 1)
      newest =
          subst (λ id. find_id id both.m_timers ≡ some (st.created + 1)) (sym same)
            (rw (equal_self second.id, find_id) refl)
