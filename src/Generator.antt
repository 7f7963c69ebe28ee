-- ===== src/Generator.antt =====
-- `TrafficGenerator`, the source of the data traffic of an end node
-- (include/rscmng/traffic_generator.hpp, src/rscmng/traffic_generator.cpp). The program controls it
-- by the members of `Control`, which every notification sets under the lock; the sending thread is
-- a state machine that a step takes from one wait or loop test to the next. `none` stands for
-- undefined behaviour. The resolver of host names is a parameter; what is printed, the pause between
-- two packets and the members that are only printed are left out.
pub mod Notify
pub mod Events
pub mod Target
pub mod Invariant
pub mod Safety
pub mod Packets
pub mod Objects
pub mod Overflow
pub mod Stopped
pub mod Asynchron
pub mod Unknown
pub mod Example
mod Tests
use application_aware_resour.Prelude.{
  ℕ, ◌+◌, ◌-◌, ◌*◌, ◌/◌, ◌%◌, ◌^◌, min, String, Bool, true, false, ◌&&◌, ◌||◌, List, [], ◌∷◌, ◌++◌,
  Option, none, some, length, take, drop, replicate, ltb, ◌==◌, if◌then◌else◌, ℤ, pos, pos_part,
  ◌+ℤ◌, ltb_ℤ, leb_ℤ, eqb_ℤ,
}
use application_aware_resour.Codec.{Timespec}
use application_aware_resour.Clock.{billion, million}
use application_aware_resour.Channel.{Endpoint, Datagram}
use application_aware_resour.Map.{Map, find}
use application_aware_resour.Config.{ServiceSettings}
use application_aware_resour.DataMessage.{
  DataMessage, timed_data_message, data_to_net, set_timestamp, set_payload_size, set_packet_number,
}
use application_aware_resour.Generator.Notify.{
  Control, TrafficSourceControl, is_transmission, is_finish_object, may_send,
}

-- `demonstrator::MAX_PROTOCOL_MESSAGE_LENGTH`
abbrev pub max_protocol_message_length : ℕ
max_protocol_message_length = 1427

-- Where the thread is: at the wait before an object, before a packet of an object, behind a packet,
-- in the loop that waits for the target time, or behind its outer loop.
pub data Place : Type 0 where
  waiting : Place
  sending : DataMessage → ℕ → ℕ → Place
  checking : DataMessage → ℕ → ℕ → Place
  pacing : Timespec → Place
  closed : Place

-- The variables of the sending thread; `sent` is what went to the socket.
pub record Thread : Type 0 where
  pub current_mode : ℕ
  pub current_settings_ptr : Option ServiceSettings
  pub traffic_endpoint_target_new : Endpoint
  pub local_timestamp : Timespec
  pub number_object : ℕ
  pub data_message_buffer : List ℕ
  pub time_send : Timespec
  pub place : Place
  pub sent : List Datagram

pub record Generator : Type 0 where
  pub control : Control
  pub thread : Thread

-- What the constructor is given and the outer loop only reads; the settings are those that
-- `count_packets` leaves.
pub record Parameters : Type 0 where
  pub service_settings_struct : Map ServiceSettings
  pub client_id : ℕ
  pub auto_traffic_termination : ℤ
  pub resolve : String → ℕ → Endpoint

-- The sums are taken in `uint32_t`.
abbrev pub object_bytes : ServiceSettings → ℕ
object_bytes s = s.object_size * 1024 % 2 ^ 32

unfoldable pub packets_of : ServiceSettings → ℕ
packets_of s =
    (s.object_size * 1024 + max_protocol_message_length - 1) % 2 ^ 32 / max_protocol_message_length

-- The loop over the modes before the outer loop.
unfoldable pub count_packets : Map ServiceSettings → Map ServiceSettings
unfolding packets_of
count_packets [] = []
count_packets ((mode, s) ∷ rest) =
    (mode, record s { number_packets = packets_of s }) ∷ count_packets rest

-- The variables before the outer loop; nothing initialises `local_timestamp` and the endpoint.
unfoldable pub initial_thread : Timespec → Endpoint → Thread
initial_thread garbage endpoint = record {
  current_mode = 0xffff_ffff;
  current_settings_ptr = none;
  traffic_endpoint_target_new = endpoint;
  local_timestamp = garbage;
  number_object = 1;
  data_message_buffer = [];
  time_send = record { tv_sec = pos 0; tv_nsec = pos 0 };
  place = Place.waiting;
  sent = [];
}

-- `resize` if the message is longer than the buffer
unfoldable pub grow : ℕ → List ℕ → List ℕ
grow size buffer =
    if ltb (length buffer) size then buffer ++ replicate (size - length buffer) 0 else buffer

-- What is in the vector after a write from its start; bytes behind its end are lost to it.
abbrev pub overwrite : List ℕ → List ℕ → List ℕ
overwrite image buffer = take (length buffer) (image ++ drop (length image) buffer)

-- The start of the period behind `local_timestamp`
unfoldable pub target_time : Timespec → ℕ → Timespec
target_time local_timestamp deadline =
    let nsec = local_timestamp.tv_nsec +ℤ pos (deadline * million) in
    if leb_ℤ (pos billion) nsec
    then record {
      tv_sec = local_timestamp.tv_sec +ℤ pos (pos_part nsec / billion);
      tv_nsec = pos (pos_part nsec % billion);
    }
    else record { tv_sec = local_timestamp.tv_sec; tv_nsec = nsec }

-- The clock has come to the target.
abbrev pub reached : Timespec → Timespec → Bool
reached time_now target =
    ltb_ℤ target.tv_sec time_now.tv_sec
    || (eqb_ℤ time_now.tv_sec target.tv_sec && leb_ℤ target.tv_nsec time_now.tv_nsec)

abbrev pub at : Place → Generator → Generator
at place g = record g { thread = record g.thread { place = place } }

-- The message of an object
unfoldable pub object_message : Parameters → ℕ → ServiceSettings → Generator → DataMessage
unfolding timed_data_message
object_message p stamp s g =
    timed_data_message stamp (s.service_priority % 2 ^ 8) p.client_id s.service_id
      (g.thread.number_object % 2 ^ 32) 0 s.number_packets
      (min (object_bytes s) max_protocol_message_length) g.thread.time_send

unfoldable pub begin_object : Parameters → ℕ → Generator → Option Generator
unfolding object_message grow
begin_object p stamp g = elim g.thread.current_settings_ptr [
  | none ↦ none
  | some s ↦
      let message = object_message p stamp s g in
      some (record g {
        thread = record g.thread {
          data_message_buffer = grow message.length g.thread.data_message_buffer;
          place = Place.sending message (object_bytes s) 0;
        };
      })
]

-- A mode whose settings are there: the settings, the endpoint, and the period if that was told.
unfoldable pub adopt : Parameters → ℕ → ServiceSettings → Generator → Generator
adopt p mode s g =
    let period =
      if g.control.global_update_period
      then g.control.global_period_timestamp
      else g.thread.local_timestamp in
    record {
      control = record g.control { global_update_period = false };
      thread = record g.thread {
        current_mode = mode;
        current_settings_ptr = some s;
        traffic_endpoint_target_new = p.resolve s.ip_address s.port;
        local_timestamp = period;
      };
    }

-- A mode without settings ends the outer loop.
unfoldable pub enter_mode : Parameters → ℕ → Generator → Option Generator
unfolding adopt begin_object
enter_mode p stamp g =
    let mode = g.control.mode_global in
    elim (find mode p.service_settings_struct) [
      | none ↦
          some (at Place.closed (record g { thread = record g.thread { current_mode = mode } }))
      | some s ↦ begin_object p stamp (adopt p mode s g)
    ]

unfoldable pub leave_wait : Parameters → ℕ → Generator → Option Generator
unfolding begin_object enter_mode
leave_wait p stamp g =
    if is_transmission g.control.traffic_generator_control
    then if g.thread.current_mode == g.control.mode_global
      then begin_object p stamp g
      else enter_mode p stamp g
    else some g

-- Behind the packets of an object
unfoldable pub finish_object : Parameters → ServiceSettings → Generator → Generator
unfolding target_time
finish_object p s g =
    let n = g.thread.number_object in
    let next = record g { thread = record g.thread { number_object = n + 1 } } in
    if ltb_ℤ (pos 0) p.auto_traffic_termination && leb_ℤ p.auto_traffic_termination (pos n)
    then at Place.closed g
    else if g.control.stop_thread
    then at Place.closed next
    else at (Place.pacing (target_time g.thread.local_timestamp s.deadline)) next

-- One packet goes to the socket; the size of the payload for the next one is set from what was
-- left before this one, and the members `length` and with it the datagram keep their size.
unfoldable pub send_packet : Timespec → DataMessage → ℕ → ℕ → Generator → Option Generator
unfolding set_timestamp data_to_net set_payload_size set_packet_number grow
send_packet time_send message remaining number g =
    let stamped = set_timestamp time_send message in
    elim (data_to_net stamped) [
      | none ↦ none
      | some image ↦
          let buffer = overwrite image g.thread.data_message_buffer in
          let payload_size = min remaining max_protocol_message_length in
          let next_number = (number + 1) % 2 ^ 32 in
          let next = set_packet_number next_number (set_payload_size payload_size stamped) in
          some (record g {
            thread = record g.thread {
              time_send = time_send;
              data_message_buffer = grow next.length buffer;
              place = Place.checking next (remaining - payload_size) next_number;
              sent =
                  g.thread.sent
                  ++ record {
                    target = g.thread.traffic_endpoint_target_new;
                    bytes = take stamped.length buffer;
                  }
                    ∷ [];
            };
          })
    ]

-- Before a packet: the test of the loop, and the wait for the permission to send.
unfoldable pub next_packet :
    Parameters → Timespec → DataMessage → ℕ → ℕ → Generator → Option Generator
unfolding finish_object send_packet
next_packet p time_send message remaining number g = elim g.thread.current_settings_ptr [
  | none ↦ none
  | some s ↦
      if ltb number s.number_packets
      then if may_send g.control.traffic_generator_control
        then send_packet time_send message remaining number g
        else some g
      else some (finish_object p s g)
]

-- Behind a packet: the test of `stop_thread`.
unfoldable pub check_stop : Parameters → DataMessage → ℕ → ℕ → Generator → Option Generator
unfolding finish_object
check_stop p message remaining number g = elim g.thread.current_settings_ptr [
  | none ↦ none
  | some s ↦
      if g.control.stop_thread
      then some (finish_object p s g)
      else some (at (Place.sending message remaining number) g)
]

-- One turn of the loop that waits for the target time.
unfoldable pub pace : Timespec → Timespec → Generator → Generator
pace time_now target g =
    let resumed = record g {
      thread = record g.thread { local_timestamp = target; place = Place.waiting };
    } in
    if is_finish_object g.control.traffic_generator_control
    then resumed
    else if reached time_now target
    then resumed
    else g

-- The readings of the clocks: `CLOCK_REALTIME` and the system clock of a new message.
pub record Reading : Type 0 where
  pub time_now : Timespec
  pub stamp : ℕ

-- A step of `send_objects_dynamic_change`.
unfoldable pub send_objects_dynamic_change : Parameters → Reading → Generator → Option Generator
unfolding leave_wait next_packet check_stop pace
send_objects_dynamic_change p reading g = elim g.thread.place [
  | Place.waiting ↦ leave_wait p reading.stamp g
  | Place.sending message remaining number ↦
      next_packet p reading.time_now message remaining number g
  | Place.checking message remaining number ↦ check_stop p message remaining number g
  | Place.pacing target ↦ some (pace reading.time_now target g)
  | Place.closed ↦ some g
]
