-- ===== src/Manager/Commands.antt =====
-- The commands with timestamps that the resource manager sends, and when a datagram delivers one
-- (include/rscmng/rm/net_layer_rm.tpp, send_synchronous_start, send_synchronous_reconfigure,
-- send_time_triggered_synchronous_reconfigure_type, send_synchronous_stop).
use application_aware_resour.Prelude.{
  ℕ, ◌%◌, ◌^◌, ◌<◌, ◌≡◌, refl, List, [], ◌∷◌, ◌++◌, Option, some, length, arith,
}
use application_aware_resour.Types.{
  MessageType, RmCommand, IsMessageType, IsRmCommand, message_type_code, message_type_of,
  rm_command_code, rm_command_of,
}
use application_aware_resour.Codec.{Timespec, IsTimespec}
use application_aware_resour.Payload.Command.{RmPayload, request_size, zero_time, command_payload}
use application_aware_resour.Payload.RoundTrip.{IsPayload}
use application_aware_resour.Message.{Message}
use application_aware_resour.Channel.{Endpoint, Datagram}
use application_aware_resour.Channel.Delivery.{IsMemory}
use application_aware_resour.Channel.Commands.{Arrives}
use application_aware_resour.Manager.{Manager, Platform, Send, rm_id}

-- A client that receives: the memory of its buffers, and the objects that it receives into.
pub record Receiver : Type 0 where
  pub raw_in : List ℕ
  pub raw_payload : List ℕ
  pub raw_copy : List ℕ
  pub old : Message
  pub blank : RmPayload

pub record IsReceiver (r : Receiver) : Type 0 where
  pub memory_in : IsMemory r.raw_in
  pub memory_payload : IsMemory r.raw_payload
  pub memory_copy : IsMemory r.raw_copy

pub record IsSend (e : Send) : Type 0 where
  pub memory_payload : IsMemory e.raw_payload
  pub memory : IsMemory e.raw
  pub request : length e.garbage ≡ request_size
  pub stamp : e.stamp < 2 ^ 64

abbrev pub IsPlatform : Platform → Type 0
IsPlatform platform = (n : ℕ) → IsSend (platform.send n)

-- What a client is told.
pub record Command : Type 0 where
  pub type : MessageType
  pub target : Endpoint
  pub destination_id : ℕ
  pub service_id : ℕ
  pub mode : ℕ
  pub action : RmCommand
  pub stop : Timespec
  pub reconfig : Timespec
  pub start : Timespec

pub record IsCommand (c : Command) : Type 0 where
  pub type : IsMessageType c.type
  pub destination : c.destination_id < 2 ^ 32
  pub service : c.service_id < 2 ^ 64
  pub action : IsRmCommand c.action
  pub stop : IsTimespec c.stop
  pub reconfig : IsTimespec c.reconfig
  pub start : IsTimespec c.start

-- The datagram goes to the target and is read there as the command, with the low eight bits of its
-- mode, which is a uint8_t in the message. `garbage` is what the request in
-- the payload happens to hold.
pub record Delivers (r : Receiver) (c : Command) (datagram : Datagram) : Type 0 where
  pub raw : List ℕ
  pub garbage : List ℕ
  pub arrives :
      Arrives raw r.raw_in r.raw_payload r.raw_copy c.type c.target c.destination_id c.service_id
        c.mode r.old r.blank
        (command_payload garbage c.action c.stop c.reconfig c.start)
        (some datagram)

-- The step sends one datagram, which delivers the command, and changes nothing else.
pub record Issues (r : Receiver) (c : Command) (st : Manager) (result : Option Manager)
    : Type 0 where
  pub datagram : Datagram
  pub returns : result ≡ some (record st { sent = st.sent ++ datagram ∷ [] })
  pub delivers : Delivers r c datagram

pub command_payload-IsPayload :
    (garbage : List ℕ) (c : Command)
    → length garbage ≡ request_size
    → IsCommand c
    → IsPayload (command_payload garbage c.action c.stop c.reconfig c.start)
unfolding command_payload
command_payload-IsPayload garbage c request v = record {
  base = record { size = omega arith; deadline = (omega arith, omega arith) };
  priority = omega arith;
  measurement = omega arith;
  action = v.action;
  stop = v.stop;
  reconfig = v.reconfig;
  start = v.start;
  request = request;
}

abbrev pub start_command : Timespec → Endpoint → ℕ → ℕ → Command
start_command target_time target service_id mode = record {
  type = MessageType.sync_timestamp_start;
  target = target;
  destination_id = rm_id;
  service_id = service_id;
  mode = mode;
  action = RmCommand.sync_timestamp_start;
  stop = zero_time;
  reconfig = zero_time;
  start = target_time;
}

-- A mode change names the service as the destination and the iteration as the service.
abbrev pub reconfigure_command :
    MessageType → Timespec → Timespec → Timespec → Endpoint → ℕ → ℕ → ℕ → Command
reconfigure_command type stop reconfig start target service_id mode iterator = record {
  type = type;
  target = target;
  destination_id = service_id % 2 ^ 32;
  service_id = iterator;
  mode = mode;
  action = RmCommand.sync_timestamp_reconfgure;
  stop = stop;
  reconfig = reconfig;
  start = start;
}

abbrev pub stop_command : Timespec → Timespec → Timespec → Endpoint → ℕ → ℕ → Command
stop_command stop reconfig start target service_id mode = record {
  type = MessageType.sync_timestamp_exit;
  target = target;
  destination_id = rm_id;
  service_id = service_id;
  mode = mode;
  action = RmCommand.sync_timestamp_reconfgure;
  stop = stop;
  reconfig = reconfig;
  start = start;
}

pub zero_time-IsTimespec : IsTimespec zero_time
zero_time-IsTimespec = ((omega arith, omega arith), (omega arith, omega arith))

pub start_command-IsCommand :
    (target_time : Timespec) (target : Endpoint) (service_id mode : ℕ)
    → IsTimespec target_time
    → service_id < 2 ^ 64
    → IsCommand (start_command target_time target service_id mode)
unfolding message_type_code message_type_of rm_command_code rm_command_of
start_command-IsCommand target_time target service_id mode time service = record {
  type = (omega arith, refl);
  destination = omega arith;
  service = service;
  action = (omega arith, refl);
  stop = zero_time-IsTimespec;
  reconfig = zero_time-IsTimespec;
  start = time;
}

pub reconfigure_command-IsCommand :
    (type : MessageType) (stop reconfig start : Timespec) (target : Endpoint)
    (service_id mode iterator : ℕ)
    → IsMessageType type
    → IsTimespec stop
    → IsTimespec reconfig
    → IsTimespec start
    → iterator < 2 ^ 8
    → IsCommand (reconfigure_command type stop reconfig start target service_id mode iterator)
unfolding rm_command_code rm_command_of
reconfigure_command-IsCommand type stop reconfig start target service_id mode iterator t a b c low =
    record {
      type = t;
      destination = omega arith;
      service = omega arith;
      action = (omega arith, refl);
      stop = a;
      reconfig = b;
      start = c;
    }

pub stop_command-IsCommand :
    (stop reconfig start : Timespec) (target : Endpoint) (service_id mode : ℕ)
    → IsTimespec stop
    → IsTimespec reconfig
    → IsTimespec start
    → service_id < 2 ^ 64
    → IsCommand (stop_command stop reconfig start target service_id mode)
unfolding message_type_code message_type_of rm_command_code rm_command_of
stop_command-IsCommand stop reconfig start target service_id mode a b c service = record {
  type = (omega arith, refl);
  destination = omega arith;
  service = service;
  action = (omega arith, refl);
  stop = a;
  reconfig = b;
  start = c;
}
