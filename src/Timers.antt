-- ===== src/Timers.antt =====
-- `TimerManager` (include/rscmng/utils/timer_events.hpp and timer_events.tpp). The waits of the timers
-- are the environment of `boost::asio`: a wait goes on until its time has passed or it is cancelled, and
-- then its handler is queued, with an error only if it was cancelled. The executor runs the handlers
-- one after the other. A function that is registered, with its arguments, is a task, of which only the
-- timers count that it registers. Both maps are searched with the equality of the identifiers. `none`
-- is undefined behaviour or the end of the program.
pub mod Flags
pub mod Safety
pub mod Cancelling
mod Tests
use application_aware_resour.Prelude.{
  ℕ, ◌+◌, List, [], ◌∷◌, ◌++◌, Option, some, none, Bool, true, false, ◌==◌, ◌&&◌, not,
  if◌then◌else◌, ◌>>=◌,
}
use application_aware_resour.Uuid.{Uuid, equal}

pub data Status : Type 0 where
  waiting expired aborted : Status

abbrev pub is_waiting : Status → Bool
is_waiting Status.waiting = true
is_waiting Status.expired = false
is_waiting Status.aborted = false

-- A call of `registerTimer`.
pub record Registration (Task : Type 0) : Type 0 where
  pub id : Uuid
  pub duration : ℕ
  pub repeat : Bool
  pub function : Task

-- A wait with the timer that it belongs to.
pub record Wait (Task : Type 0) : Type 0 where
  pub timer : ℕ
  pub id : Uuid
  pub duration : ℕ
  pub function : Task
  pub status : Status

-- `m_timers` has the numbers of the timers; `created` counts the timers and `ran` is what the executor
-- has run, each task with the number of its timer. `joinable` says that the executor has its thread, `halted` that the service was stopped.
pub record Timers (Task : Type 0) : Type 0 where
  pub timer_repeat : List (Uuid × Bool)
  pub m_timers : List (Uuid × ℕ)
  pub waits : List (Wait Task)
  pub created : ℕ
  pub ran : List (ℕ × Task)
  pub joinable : Bool
  pub halted : Bool

module _ {V : Type 0} where
  unfoldable pub find_id : Uuid → List (Uuid × V) → Option V
  find_id id [] = none
  find_id id ((k, v) ∷ m) = if equal k id then some v else find_id id m

  -- `if (map.find(id) == map.end()) map.insert({id, v})`
  unfoldable pub insert_missing : Uuid → V → List (Uuid × V) → List (Uuid × V)
  unfolding find_id
  insert_missing id v m = elim (find_id id m) [ none ↦ (id, v) ∷ m | some w ↦ m ]

  unfoldable pub erase_id : Uuid → List (Uuid × V) → List (Uuid × V)
  erase_id id [] = []
  erase_id id ((k, v) ∷ m) = let rest = erase_id id m in if equal k id then rest else (k, v) ∷ rest

module _ {Task : Type 0} where
  unfoldable pub initial_timers : Timers Task
  initial_timers = record {
    timer_repeat = [];
    m_timers = [];
    waits = [];
    created = 0;
    ran = [];
    joinable = false;
    halted = false;
  }

  -- A thread that is joinable cannot be assigned to.
  unfoldable pub start : Timers Task → Option (Timers Task)
  start st = if st.joinable then none else some (record st { joinable = true })

  unfoldable pub stop : Timers Task → Option (Timers Task)
  stop st = if st.joinable then some (record st { joinable = false; halted = true }) else none

  -- `registerTimer`: the flag of an identifier that is there stays, and so does the wait of a timer
  -- that the new one takes the place of, since its handler holds the timer.
  unfoldable pub register_timer : Registration Task → Timers Task → Timers Task
  unfolding insert_missing erase_id
  register_timer r st = record st {
    timer_repeat = insert_missing r.id r.repeat st.timer_repeat;
    m_timers = (r.id, st.created) ∷ erase_id r.id st.m_timers;
    waits =
        st.waits
        ++ record {
          timer = st.created;
          id = r.id;
          duration = r.duration;
          function = r.function;
          status = Status.waiting;
        }
          ∷ [];
    created = st.created + 1;
  }

  unfoldable pub register_all : List (Registration Task) → Timers Task → Timers Task
  unfolding register_timer
  register_all [] st = st
  register_all (r ∷ rs) st = register_all rs (register_timer r st)

  -- A wait whose time has passed is not cancelled any more.
  unfoldable pub abort_wait : ℕ → List (Wait Task) → List (Wait Task)
  abort_wait n [] = []
  abort_wait n (w ∷ ws) =
      (if w.timer == n && is_waiting w.status then record w { status = Status.aborted } else w)
      ∷ abort_wait n ws

  -- An identifier without a timer gets a null pointer, which is read through.
  unfoldable pub cancel : Uuid → Bool → Timers Task → Option (Timers Task)
  unfolding find_id erase_id abort_wait
  cancel id repeat st = elim (find_id id st.m_timers) [
    | some n ↦
        some
          (record st { timer_repeat = erase_id id st.timer_repeat; waits = abort_wait n st.waits })
    | none ↦ none
  ]

-- What the environment and the threads do: a time passes, the executor takes the handler of a timer
-- from its queue, and the methods are called.
pub data Event (Task : Type 0) : Type 0 where
  expire : ℕ → Event Task
  handle : ℕ → Event Task
  registered : Registration Task → Event Task
  cancelled : Uuid → Bool → Event Task
  started : Event Task
  stopped : Event Task

module _ {Task : Type 0} where
  unfoldable pub expire_wait : ℕ → List (Wait Task) → List (Wait Task)
  expire_wait n [] = []
  expire_wait n (w ∷ ws) =
      (if w.timer == n && is_waiting w.status then record w { status = Status.expired } else w)
      ∷ expire_wait n ws

  -- The wait whose handler is queued, and the others.
  unfoldable pub take_queued : ℕ → List (Wait Task) → Option (Wait Task × List (Wait Task))
  take_queued n [] = none
  take_queued n (w ∷ ws) =
      let rest = take_queued n ws in
      if w.timer == n && not (is_waiting w.status)
      then some (w, ws)
      else (rest >>= λ (v, vs). some (v, w ∷ vs))

  module _ (calls : Task → List (Registration Task)) where
    -- The handler of a wait without an error: the task, and the next registration if the flag is set.
    -- An identifier without a flag is read behind the end of the map.
    unfoldable pub run_task : Wait Task → Timers Task → Option (Timers Task)
    unfolding register_all register_timer find_id
    run_task w st =
        let st1 =
          register_all (calls w.function)
            (record st { ran = st.ran ++ (w.timer, w.function) ∷ [] }) in
        elim (find_id w.id st1.timer_repeat) [
          | none ↦ none
          | some true ↦ some (
              register_timer
                (record { id = w.id; duration = w.duration; repeat = true; function = w.function })
                st1)
          | some false ↦ some st1
        ]

    -- The handler that `async_wait` is given.
    unfoldable pub timer_handler : Wait Task → Timers Task → Option (Timers Task)
    unfolding run_task
    timer_handler w st = elim w.status [ Status.aborted ↦ some st | _ ↦ run_task w st ]

    -- What an event does; a handler that is not queued, or that no executor takes, is no event.
    unfoldable pub step : Event Task → Timers Task → Option (Timers Task)
    unfolding expire_wait take_queued timer_handler register_timer cancel start stop
    step (expire n) st = some (record st { waits = expire_wait n st.waits })
    step (handle n) st =
        if st.joinable && not st.halted
        then (elim (take_queued n st.waits) [
          | none ↦ some st
          | some (w, ws) ↦ timer_handler w (record st { waits = ws })
        ])
        else some st
    step (registered r) st = some (register_timer r st)
    step (cancelled id repeat) st = cancel id repeat st
    step started st = start st
    step stopped st = stop st

    unfoldable pub run : List (Event Task) → Timers Task → Option (Timers Task)
    unfolding step
    run [] st = some st
    run (e ∷ es) st = step e st >>= run es
