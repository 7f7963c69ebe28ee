-- ===== src/Sink.antt =====
-- `TrafficSink`, the receiver of the data traffic (src/rscmng/traffic_sink_statistic.cpp). The socket
-- is the environment: what arrives is a list of bytes. What is written to the two log files are lists of
-- lines, which every turn opens and closes; `none` is undefined behaviour.
pub mod Reception
pub mod Objects
mod Tests
use application_aware_resour.Prelude.{
  ℕ, List, [], ◌∷◌, ◌++◌, Option, some, none, length, take, replicate, ◌>>=◌, String, map, Bool,
  true, ◌&&◌, ◌==◌, if◌then◌else◌,
}
use text.Mathlib.Text.{◌==◌ as str_eq}
use application_aware_resour.Buffer.{splice}
use application_aware_resour.Codec.{Timespec}
use application_aware_resour.DataMessage.{DataMessage, empty_data_message, net_to_data, clear}
use application_aware_resour.Generator.{max_protocol_message_length}

-- The variables that are logged of a datagram
pub record Frame : Type 0 where
  pub received_object_number : ℕ
  pub received_packet_number : ℕ
  pub service_id : ℕ
  pub time_start : Timespec
  pub time_received : Timespec

unfoldable pub frame_of : DataMessage → Timespec → Frame
frame_of m time_received = record {
  received_object_number = m.object_number;
  received_packet_number = m.fragment_number;
  service_id = m.service_id;
  time_start = m.timestamp;
  time_received = time_received;
}

pub data Label : Type 0 where
  frame_started frame_received : Label

-- A line of the file of every datagram
pub record Line : Type 0 where
  pub label : Label
  pub local_endpoint_str : String
  pub received_object_number : ℕ
  pub received_packet_number : ℕ
  pub service_id : ℕ
  pub time : Timespec

-- The two lines of a datagram
unfoldable pub lines_of : String → Frame → List Line
lines_of local_endpoint_str f =
    line Label.frame_started f.time_start ∷ line Label.frame_received f.time_received ∷ []
  where
    line : Label → Timespec → Line
    line label time = record {
      label = label;
      local_endpoint_str = local_endpoint_str;
      received_object_number = f.received_object_number;
      received_packet_number = f.received_packet_number;
      service_id = f.service_id;
      time = time;
    }

abbrev pub logging : Bool
logging = true

-- The variables of `handle_message`, and what is in its files: `log` is the file of every datagram,
-- `log_all` the one whose name ends in _all.log.
pub record Sink : Type 0 where
  pub local_endpoint_str : String
  pub data_message : DataMessage
  pub data_message_buffer : List ℕ
  pub log : List Line
  pub log_all : List String

unfoldable pub initial_sink : ℕ → String → Sink
unfolding empty_data_message
initial_sink garbage local_endpoint_str = record {
  local_endpoint_str = local_endpoint_str;
  data_message = empty_data_message garbage;
  data_message_buffer = replicate max_protocol_message_length 0;
  log = [];
  log_all = [];
}

-- The constructor starts a thread for each port, unless the address or the ports are missing.
unfoldable pub sink_threads : String → List ℕ → List (String × ℕ)
sink_threads local_ip_address client_local_port =
    if str_eq local_ip_address ""
    then []
    else map (λ port. (local_ip_address, port)) client_local_port

-- The line for a packet of number 1 gets objects of std::string for %c and %i: `print_all` is what the
-- platform makes of that call, with the addresses of the socket and of the source, and `none` if it does
-- not get through it.
module _ (print_all : Frame → Option String) where
  unfoldable pub log_first_packet : Frame → Sink → Option Sink
  log_first_packet f s =
      if f.received_packet_number == 1 && logging
      then (print_all f >>= λ text. some (record s { log_all = s.log_all ++ text ∷ [] }))
      else some s

  -- One turn of the loop of `handle_message`: a datagram is cut off at the size of the buffer, and the
  -- message is read with that size, whatever the size of the datagram.
  unfoldable pub receive_frame : List ℕ → Timespec → Sink → Option Sink
  unfolding net_to_data clear frame_of lines_of log_first_packet
  receive_frame bytes time_received s =
      let buffer = splice s.data_message_buffer 0 (take (length s.data_message_buffer) bytes) in
      elim (net_to_data buffer (length buffer) s.data_message) [
        | none ↦ none
        | some m ↦ log_first_packet (frame_of m time_received) s >>= λ s1. some (record s1 {
          data_message = clear m;
          data_message_buffer = buffer;
          log = s1.log ++ lines_of s1.local_endpoint_str (frame_of m time_received);
        })
      ]

  unfoldable pub receive_frames : List (List ℕ × Timespec) → Sink → Option Sink
  unfolding receive_frame
  receive_frames [] s = some s
  receive_frames ((bytes, time) ∷ rest) s = receive_frame bytes time s >>= receive_frames rest
