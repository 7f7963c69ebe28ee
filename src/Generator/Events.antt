-- ===== src/Generator/Events.antt =====
-- The generator among its callers: every call and every step of the sending thread is an event, and
-- the events come in any order. A `notify_` method sets its members while it holds the lock.
use application_aware_resour.Prelude.{ℕ, Bool, List, [], ◌∷◌, Option, some, ◌>>=◌}
use application_aware_resour.Codec.{Timespec}
use application_aware_resour.Channel.{Endpoint}
use application_aware_resour.Generator.{
  Generator, Parameters, Reading, initial_thread, send_objects_dynamic_change,
}
use application_aware_resour.Generator.Notify.{
  TrafficSourceControl, initial_control, notify_generator, notify_generator_mode_change,
  notify_generator_timestamp, stop,
}

pub data Event : Type 0 where
  notifies : TrafficSourceControl → Event
  changes : TrafficSourceControl → ℕ → Event
  restarts : TrafficSourceControl → Timespec → ℕ → Bool → Event
  stops : Event
  runs : Reading → Event

unfoldable pub react : Parameters → Event → Generator → Option Generator
unfolding notify_generator notify_generator_mode_change notify_generator_timestamp stop
react p (Event.notifies state) g = some (record g { control = notify_generator state g.control })
react p (Event.changes state mode) g =
    some (record g { control = notify_generator_mode_change state mode g.control })
react p (Event.restarts state timestamp mode update_period) g =
    some (record g {
      control = notify_generator_timestamp state timestamp mode update_period g.control;
    })
react p Event.stops g = some (record g { control = stop g.control })
react p (Event.runs reading) g = send_objects_dynamic_change p reading g

unfoldable pub run : Parameters → List Event → Generator → Option Generator
unfolding react
run p [] g = some g
run p (event ∷ events) g = react p event g >>= run p events

-- The object and its thread before the first step
unfoldable pub initial_generator : TrafficSourceControl → Timespec → Endpoint → Generator
unfolding initial_control initial_thread
initial_generator state garbage endpoint = record {
  control = initial_control state;
  thread = initial_thread garbage endpoint;
}
