-- ===== src/Generator/Tests.antt =====
-- Examples for the traffic generator (src/rscmng/traffic_generator.cpp).
use application_aware_resour.Prelude.{ℕ, ◌+◌, ◌≡◌, refl, arith, true, List, [], ◌∷◌, some, length}
use application_aware_resour.Map.{find}
use application_aware_resour.DataMessage.{DataMessage, data_to_net, set_timestamp}
use application_aware_resour.Generator.{
  Generator, Place, count_packets, packets_of, object_bytes, begin_object,
}
use application_aware_resour.Generator.Notify.{TrafficSourceControl}
use application_aware_resour.Generator.Events.{Event, run, initial_generator}
use application_aware_resour.Generator.Safety.{run-defined}
use application_aware_resour.Generator.Invariant.{IsGenerator}
use application_aware_resour.Generator.Objects.{SendsWhole, turns, new_mode-SendsWhole}
use application_aware_resour.Generator.Overflow.{begin_object_overflow}
use application_aware_resour.Generator.Stopped.{steps, quiet-sends_nothing, stop-blocks}
use application_aware_resour.Generator.Unknown.{unknown_mode-closes}
use application_aware_resour.Generator.Example.{
  settings, parameters, nowhere, at_second, reading, told, adopted, paused,
}

counts : count_packets ((1, record settings { number_packets = 0 }) ∷ []) ≡ (1, settings) ∷ []
unfolding count_packets packets_of
counts = refl

new_mode-SendsWhole_example :
    SendsWhole parameters 1101 settings (at_second 102 ∷ at_second 104 ∷ []) (told 1) (
      run parameters
        (Event.runs (reading 101)
          ∷ turns ((reading 102, reading 103) ∷ (reading 104, reading 105) ∷ []))
        (told 1))
unfolding find
new_mode-SendsWhole_example =
    new_mode-SendsWhole parameters (reading 101)
      ((reading 102, reading 103) ∷ (reading 104, reading 105) ∷ []) (told 1) settings refl refl
      refl refl refl refl (omega arith) (omega arith)

begin_object_overflow_example :
    (g' : Generator) × (m : DataMessage) × (image : List ℕ) × (begin_object parameters 1000 adopted
      ≡ some g')
    × (g'.thread.place ≡ Place.sending m (object_bytes settings) 0)
    × (data_to_net (set_timestamp (at_second 101) m) ≡ some image)
    × (length image ≡ length g'.thread.data_message_buffer + 8)
begin_object_overflow_example =
    begin_object_overflow parameters 1000 adopted settings (at_second 101) refl (omega arith)

run-defined_example :
    (g : Generator) × (run parameters
        (Event.restarts TrafficSourceControl.thread_transmission (at_second 100) 1 true
          ∷ Event.runs (reading 101)
          ∷ Event.notifies TrafficSourceControl.thread_paused
          ∷ Event.runs (reading 102)
          ∷ [])
        (initial_generator TrafficSourceControl.thread_start (at_second 0) nowhere)
      ≡ some g)
    × IsGenerator g
run-defined_example =
    run-defined parameters
      (Event.restarts TrafficSourceControl.thread_transmission (at_second 100) 1 true
        ∷ Event.runs (reading 101)
        ∷ Event.notifies TrafficSourceControl.thread_paused
        ∷ Event.runs (reading 102)
        ∷ [])
      TrafficSourceControl.thread_start (at_second 0) nowhere (omega arith, (tt, (tt, (tt, tt))))

quiet-sends_nothing_example :
    (g' : Generator) × (run parameters (steps (reading 101 ∷ reading 102 ∷ [])) paused ≡ some g')
    × (g'.thread.sent ≡ [])
quiet-sends_nothing_example =
    quiet-sends_nothing parameters (reading 101 ∷ reading 102 ∷ []) paused
      (record { mode = omega arith; place = refl }) refl

stop-blocks_example :
    (g' : Generator) × (run parameters
        (Event.stops ∷ steps (reading 101 ∷ reading 102 ∷ []))
        (told 1)
      ≡ some g')
    × (g'.thread.place ≡ Place.waiting)
    × (g'.control.stop_thread ≡ true)
stop-blocks_example = stop-blocks parameters (reading 101 ∷ reading 102 ∷ []) (told 1) refl

unknown_mode-closes_example :
    (g' : Generator) × (run parameters (steps (reading 101 ∷ reading 102 ∷ [])) (told 2) ≡ some g')
    × (g'.thread.place ≡ Place.closed)
    × (g'.thread.sent ≡ [])
unfolding find
unknown_mode-closes_example =
    unknown_mode-closes parameters (reading 101) (reading 102 ∷ []) (told 2) refl refl refl refl
