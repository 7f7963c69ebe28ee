-- ===== src/Generator/Asynchron.antt =====
-- `TrafficGenerator::send_objects_dynamic_change_asynchron`, the sending thread that looks for a new
-- mode before every packet, and `thread_type_select`. The text of the source is that of the
-- synchronous thread but for the loop of the packets.
use application_aware_resour.Prelude.{
  ℕ, Bool, true, false, Option, none, some, ltb, ◌==◌, if◌then◌else◌,
}
use application_aware_resour.Codec.{Timespec}
use application_aware_resour.Map.{find}
use application_aware_resour.Config.{ServiceSettings}
use application_aware_resour.DataMessage.{DataMessage}
use application_aware_resour.Generator.{
  Generator, Parameters, Place, Reading, adopt, finish_object, send_packet,
  send_objects_dynamic_change,
}
use application_aware_resour.Generator.Notify.{may_send}

-- `asks` is whether the thread is at the wait for the permission to send, behind the test of the
-- loop and the look for a new mode.
pub record Asynchron : Type 0 where
  pub generator : Generator
  pub asks : Bool

abbrev pub with_asks : Bool → Option Generator → Option Asynchron
with_asks asks none = none
with_asks asks (some g) = some (record { generator = g; asks = asks })

-- A mode without settings ends the loop of the packets, with the settings that were there; the
-- thread takes the number of the mode over all the same.
unfoldable pub look_for_mode : Parameters → ServiceSettings → Generator → Asynchron
unfolding adopt finish_object
look_for_mode p s g =
    let mode = g.control.mode_global in
    if g.thread.current_mode == mode
    then record { generator = g; asks = true }
    else elim (find mode p.service_settings_struct) [
      | none ↦ record {
        generator =
            finish_object p s (record g { thread = record g.thread { current_mode = mode } });
        asks = false;
      }
      | some s' ↦ record { generator = adopt p mode s' g; asks = true }
    ]

-- The test of the loop of the packets and the look for a new mode
unfoldable pub before_packet : Parameters → ℕ → Generator → Option Asynchron
unfolding look_for_mode finish_object
before_packet p number g = elim g.thread.current_settings_ptr [
  | none ↦ none
  | some s ↦ some (
      if ltb number s.number_packets
      then look_for_mode p s g
      else record { generator = finish_object p s g; asks = false })
]

unfoldable pub ask : Timespec → DataMessage → ℕ → ℕ → Generator → Option Asynchron
unfolding send_packet
ask time_send message remaining number g =
    if may_send g.control.traffic_generator_control
    then with_asks false (send_packet time_send message remaining number g)
    else some (record { generator = g; asks = true })

-- A step of `send_objects_dynamic_change_asynchron`.
unfoldable pub send_objects_dynamic_change_asynchron :
    Parameters → Reading → Asynchron → Option Asynchron
unfolding before_packet ask send_objects_dynamic_change
send_objects_dynamic_change_asynchron p reading a = elim a.generator.thread.place [
  | Place.sending message remaining number ↦
      if a.asks
      then ask reading.time_now message remaining number a.generator
      else before_packet p number a.generator
  | _ ↦ with_asks false (send_objects_dynamic_change p reading a.generator)
]

-- Which of the two the thread runs, by `synchronous_start_mode`
unfoldable pub thread_type_select : Bool → Parameters → Reading → Asynchron → Option Asynchron
unfolding send_objects_dynamic_change_asynchron send_objects_dynamic_change
thread_type_select synchronous_start_mode p reading a =
    if synchronous_start_mode
    then with_asks false (send_objects_dynamic_change p reading a.generator)
    else send_objects_dynamic_change_asynchron p reading a
