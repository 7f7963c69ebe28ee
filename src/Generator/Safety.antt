-- ===== src/Generator/Safety.antt =====
-- The sending thread never meets undefined behaviour of the model, whatever it is told and when.
use application_aware_resour.Prelude.{
  ◌<◌, ◌≡◌, refl, List, [], ◌∷◌, Option, none, some, arith, All, ◌>>=◌,
}
use application_aware_resour.Codec.{Timespec}
use application_aware_resour.Channel.{Endpoint}
use application_aware_resour.Generator.Events.{Event, react, run, initial_generator}
use application_aware_resour.Generator.{initial_thread, Generator, Parameters}
use application_aware_resour.Generator.Notify.{
  notify_generator, notify_generator_mode_change, notify_generator_timestamp, stop, initial_control,
  TrafficSourceControl,
}
use application_aware_resour.Generator.Invariant.{no_mode, IsGenerator, Safe, step-Safe}

-- What an event tells is a mode of the configuration, or nothing.
abbrev pub IsEvent : Event → Type 0
IsEvent (Event.notifies state) = Unit
IsEvent (Event.changes state mode) = mode < no_mode
IsEvent (Event.restarts state timestamp mode update_period) = mode < no_mode
IsEvent Event.stops = Unit
IsEvent (Event.runs reading) = Unit

react-Safe :
    (p : Parameters) (event : Event) (g : Generator)
    → IsEvent event
    → IsGenerator g
    → Safe (react p event g)
unfolding react notify_generator notify_generator_mode_change notify_generator_timestamp stop
react-Safe p (Event.notifies state) g m v = record { mode = v.mode; place = v.place }
react-Safe p (Event.changes state mode) g m v = record { mode = m; place = v.place }
react-Safe p (Event.restarts state timestamp mode update_period) g m v = record {
  mode = m;
  place = v.place;
}
react-Safe p Event.stops g m v = record { mode = v.mode; place = v.place }
react-Safe p (Event.runs reading) g m v = step-Safe p reading g v

continues-Safe :
    (f : Generator → Option Generator)
    → ((g : Generator) → IsGenerator g → Safe (f g))
    → (o : Option Generator) → Safe o
    → Safe (o >>= f)
continues-Safe f keeps none h = h
continues-Safe f keeps (some g) h = keeps g h

run-Safe :
    (p : Parameters) (events : List Event) (g : Generator)
    → All IsEvent events
    → IsGenerator g
    → Safe (run p events g)
unfolding run
run-Safe p [] g m v = v
run-Safe p (event ∷ events) g m v =
    continues-Safe (run p events) (λ g' v'. run-Safe p events g' m.1 v') (react p event g)
      (react-Safe p event g m.0 v)

pub defined : (o : Option Generator) → Safe o → (g : Generator) × (o ≡ some g) × IsGenerator g
defined none h = absurd h
defined (some g) h = (g, refl, h)

-- From the start of its thread on, the generator never reads settings through a null pointer nor
-- bytes behind the payload of a message, whatever it is told, by whichever calls and in whatever
-- order with the steps of the thread, if no mode that it is told is the number 2^32 - 1.
pub run-defined :
    (p : Parameters) (events : List Event) (state : TrafficSourceControl) (garbage : Timespec)
    (endpoint : Endpoint)
    → All IsEvent events
    → (g : Generator) × (run p events (initial_generator state garbage endpoint) ≡ some g)
      × IsGenerator g
unfolding initial_generator initial_control initial_thread
run-defined p events state garbage endpoint m = defined _ (
    run-Safe p events (initial_generator state garbage endpoint) m
      (record { mode = omega arith; place = refl }))
