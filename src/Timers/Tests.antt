-- ===== src/Timers/Tests.antt =====
-- Timers as the resource manager sets them: the first task registers the second under its identifier.
use application_aware_resour.Prelude.{ℕ, arith, ◌≡◌, refl, List, [], ◌∷◌, some, none, true, false}
use application_aware_resour.Uuid.{equal, default_uuid}
use application_aware_resour.Timers.{
  Timers, Wait, Registration, Status, Event, initial_timers, find_id, run,
}
use application_aware_resour.Timers.Flags.{IsSound, count_waits, count_ran}
use application_aware_resour.Timers.Safety.{run-IsSound}
use application_aware_resour.Timers.Cancelling.{cancel_expired}

data Job : Type 0 where
  first_task second_task : Job

abbrev registration : Job → Registration Job
registration f = record { id = default_uuid; duration = 5; repeat = false; function = f }

abbrev calls : Job → List (Registration Job)
calls first_task = registration second_task ∷ []
calls second_task = []

abbrev waiting_for : ℕ → Job → Status → Wait Job
waiting_for n f status = record {
  timer = n;
  id = default_uuid;
  duration = 5;
  function = f;
  status = status;
}

-- The executor runs, with the first timer.
abbrev began : Timers Job
began = record initial_timers {
  joinable = true;
  timer_repeat = (default_uuid, false) ∷ [];
  m_timers = (default_uuid, 0) ∷ [];
  waits = waiting_for 0 first_task Status.waiting ∷ [];
  created = 1;
}

began_run :
    run calls (Event.started ∷ Event.registered (registration first_task) ∷ []) initial_timers
    ≡ some began
unfolding run initial_timers equal default_uuid
began_run = refl

began-IsSound : IsSound began
unfolding find_id initial_timers equal default_uuid count_waits count_ran
began-IsSound = record { live = (((λ h. cc), (false, refl)), tt); counted = λ n. ground arith }

abbrev both_fire : List (Event Job)
both_fire = Event.expire 0 ∷ Event.handle 0 ∷ Event.expire 1 ∷ Event.handle 1 ∷ Event.handle 1 ∷ []

both_ran :
    run calls both_fire began
    ≡ some (record began {
      m_timers = (default_uuid, 1) ∷ [];
      waits = [];
      created = 2;
      ran = (0, first_task) ∷ (1, second_task) ∷ [];
    })
unfolding run initial_timers equal default_uuid
both_ran = refl

run-IsSound_example : (st' : Timers Job) × (run calls both_fire began ≡ some st') × IsSound st'
run-IsSound_example =
    run-IsSound calls both_fire began (tt, (tt, (tt, (tt, (tt, tt))))) began-IsSound

-- The second task has expired when its timer is cancelled.
abbrev late : Timers Job
late = record began { waits = waiting_for 0 second_task Status.expired ∷ [] }

cancel_expired_example :
    run calls (Event.cancelled default_uuid false ∷ Event.handle 0 ∷ []) late ≡ none
unfolding find_id initial_timers equal default_uuid
cancel_expired_example =
    cancel_expired calls late (waiting_for 0 second_task Status.expired) [] 0 false refl refl refl
      refl refl refl
