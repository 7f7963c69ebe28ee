-- ===== src/Timers/Safety.antt =====
-- Without a cancelled timer nothing goes wrong, and no timer is lost.
use application_aware_resour.Prelude.{
  ℕ, ◌+◌, ◌≡◌, ◌≢◌, refl, arith, List, [], ◌∷◌, ◌++◌, Option, some, none, Bool, true, false, All,
  ◌==◌, ◌&&◌, not, if◌then◌else◌, ◌>>=◌, some_inj, subst,
}
use application_aware_resour.Uuid.{Uuid}
use application_aware_resour.Timers.{
  Timers, Wait, Registration, Status, Event, find_id, is_waiting, register_timer, register_all,
  expire_wait, take_queued, run_task, timer_handler, step, run,
}
use application_aware_resour.Timers.Flags.{
  Flagged, IsLive, IsSound, register_timer-IsSound, register_all-IsSound, register_all-Flagged,
  expire_wait-IsLive, count_waits, count_ran-append, once, count_waits-expire_wait,
}

module _ {Task : Type 0} where
  -- The wait that is taken is one of them, and the others stay.
  record Taken (m : List (Uuid × Bool)) (ws : List (Wait Task)) (w : Wait Task)
      (rest : List (Wait Task)) : Type 0 where
    one : IsLive m w
    others : All (IsLive m) rest
    fewer : (k : ℕ) → count_waits k ws ≡ once (w.timer == k) + count_waits k rest

  take_queued-Taken :
      (m : List (Uuid × Bool)) (n : ℕ) (ws : List (Wait Task)) (w : Wait Task)
      (rest : List (Wait Task))
      → All (IsLive m) ws
      → take_queued n ws ≡ some (w, rest)
      → Taken m ws w rest
  unfolding take_queued count_waits
  take_queued-Taken m n [] w rest h e = cc
  take_queued-Taken m n (v ∷ ws) w rest (first, others) e =
      by_test (v.timer == n && not (is_waiting v.status)) (take_queued n ws)
        (λ w' rest'. take_queued-Taken m n ws w' rest' others) e
    where
      by_test :
          (test : Bool) (o : Option (Wait Task × List (Wait Task)))
          → ((w' : Wait Task) (rest' : List (Wait Task))
              → o ≡ some (w', rest')
              → Taken m ws w' rest')
          → (if◌then◌else◌ {A = Option (Wait Task × List (Wait Task))} test
              (some (v, ws))
              (o >>= λ (u, us). some (u, v ∷ us)))
            ≡ some (w, rest)
          → Taken m (v ∷ ws) w rest
      by_test true o ih e =
          subst (λ (q : Wait Task × List (Wait Task)). Taken m (v ∷ ws) q.0 q.1) (some_inj e)
            (record { one = first; others = others; fewer = λ k. refl })
      by_test false none ih e = cc
      by_test false (some (u, us)) ih e =
          let t = ih u us refl in
          subst (λ (q : Wait Task × List (Wait Task)). Taken m (v ∷ ws) q.0 q.1) (some_inj e)
            (record {
              one = t.one;
              others = (first, t.others);
              fewer = λ k. omega (arith, t.fewer k);
            })

  module _ (calls : Task → List (Registration Task)) where
    -- A handler that runs its task, from a state whose waits and whose runs are one short.
    run_task-IsSound :
        (w : Wait Task) (st : Timers Task)
        → Flagged w.id st.timer_repeat
        → IsSound (record st { ran = st.ran ++ (w.timer, w.function) ∷ [] })
        → (st' : Timers Task) × (run_task calls w st ≡ some st') × IsSound st'
    unfolding run_task
    run_task-IsSound w st f s =
        let st0 : Timers Task = record st { ran = st.ran ++ (w.timer, w.function) ∷ [] } in
        let st1 = register_all (calls w.function) st0 in
        let s1 = register_all-IsSound (calls w.function) st0 s in
        let again : Registration Task = record {
          id = w.id;
          duration = w.duration;
          repeat = true;
          function = w.function;
        } in
        by_flag st1 s1 again (register_all-Flagged (calls w.function) w.id st0 f)
      where
        by_flag :
            (st1 : Timers Task)
            → IsSound st1
            → (again : Registration Task) → Flagged w.id st1.timer_repeat
            → (st' : Timers Task) × ((elim (find_id w.id st1.timer_repeat) [
              | none ↦ none
              | some true ↦ some (register_timer again st1)
              | some false ↦ some st1
            ])
                ≡ some st')
              × IsSound st'
        by_flag st1 s1 again (true, e) =
            (register_timer again st1, rw e refl, register_timer-IsSound again st1 s1)
        by_flag st1 s1 again (false, e) = (st1, rw e refl, s1)

    timer_handler-IsSound :
        (w : Wait Task) (st : Timers Task)
        → IsLive st.timer_repeat w
        → IsSound (record st { ran = st.ran ++ (w.timer, w.function) ∷ [] })
        → (st' : Timers Task) × (timer_handler calls w st ≡ some st') × IsSound st'
    unfolding timer_handler
    timer_handler-IsSound w st (live, f) s = by_status w.status live
      where
        by_status :
            (status : Status)
            → status ≢ Status.aborted
            → (st' : Timers Task) × ((elim status [
              | Status.aborted ↦ some st
              | _ ↦ run_task calls w st
            ])
                ≡ some st')
              × IsSound st'
        by_status Status.waiting h = run_task-IsSound w st f s
        by_status Status.expired h = run_task-IsSound w st f s
        by_status Status.aborted h = absurd (h refl)

    -- The time passes, handlers run and timers are registered, but none is cancelled and the executor
    -- is not started again or stopped.
    abbrev pub IsPlain : Event Task → Type 0
    IsPlain (Event.expire n) = Unit {0}
    IsPlain (Event.handle n) = Unit {0}
    IsPlain (Event.registered r) = Unit {0}
    IsPlain _ = ⊥

    handle-IsSound :
        (n : ℕ) (st : Timers Task)
        → IsSound st
        → (st' : Timers Task) × (step calls (Event.handle n) st ≡ some st') × IsSound st'
    unfolding step
    handle-IsSound n st s = by_executor (st.joinable && not st.halted)
      where
        by_taken :
            (o : Option (Wait Task × List (Wait Task)))
            → take_queued n st.waits ≡ o
            → (st' : Timers Task) × ((elim o [
              | none ↦ some st
              | some (w, ws) ↦ timer_handler calls w (record st { waits = ws })
            ])
                ≡ some st')
              × IsSound st'
        by_taken none e = (st, refl, s)
        by_taken (some (w, ws)) e =
            let t = take_queued-Taken st.timer_repeat n st.waits w ws s.live e in
            timer_handler-IsSound w (record st { waits = ws }) t.one
              (record {
                live = t.others;
                counted = λ k.
                    omega
                      (arith, t.fewer k, s.counted k, count_ran-append k w.timer w.function st.ran);
              })

        by_executor :
            (runs : Bool)
            → (st' : Timers Task) × ((if runs
                  then (elim (take_queued n st.waits) [
                    | none ↦ some st
                    | some (w, ws) ↦ timer_handler calls w (record st { waits = ws })
                  ])
                  else some st)
                ≡ some st')
              × IsSound st'
        by_executor true = by_taken (take_queued n st.waits) refl
        by_executor false = (st, refl, s)

    step-IsSound :
        (e : Event Task) (st : Timers Task)
        → IsPlain e
        → IsSound st
        → (st' : Timers Task) × (step calls e st ≡ some st') × IsSound st'
    unfolding step
    step-IsSound (Event.expire n) st plain s = (
      record st { waits = expire_wait n st.waits },
      refl,
      record {
        live = expire_wait-IsLive st.timer_repeat n st.waits s.live;
        counted = λ k. omega (arith, count_waits-expire_wait k n st.waits, s.counted k);
      },
    )
    step-IsSound (Event.handle n) st plain s = handle-IsSound n st s
    step-IsSound (Event.registered r) st plain s =
        (register_timer r st, refl, register_timer-IsSound r st s)
    step-IsSound (Event.cancelled id flag) st plain s = absurd plain
    step-IsSound Event.started st plain s = absurd plain
    step-IsSound Event.stopped st plain s = absurd plain

    -- However the times of the timers pass, their handlers run and timers are registered, by the
    -- tasks too, as long as none is cancelled and the executor is neither started again nor
    -- stopped: no handler reads a flag that is missing, and every timer that was created is waited
    -- for once or its task has run once, never both or neither, and no other timer is waited for or
    -- has run. The state before is one in which that holds.
    pub run-IsSound :
        (es : List (Event Task)) (st : Timers Task)
        → All IsPlain es
        → IsSound st
        → (st' : Timers Task) × (run calls es st ≡ some st') × IsSound st'
    unfolding run
    run-IsSound [] st plain s = (st, refl, s)
    run-IsSound (e ∷ es) st (first, rest) s =
        let (st', stepped, s') = step-IsSound e st first s in
        let (st2, ran, s2) = run-IsSound es st' rest s' in (st2, rw stepped ran, s2)
