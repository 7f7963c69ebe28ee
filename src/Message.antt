-- ===== src/Message.antt =====
-- `wired::RMMessage`, the control message (include/rscmng/messages.hpp, src/rscmng/messages.cpp).
-- `none` stands for undefined behaviour: a write behind the array `payload`, or a null pointer.
-- Printing is left out. `time_stamp` is the 64-bit pattern of the clock's count; it is only copied.
pub mod RoundTrip
pub mod Overflow
use application_aware_resour.Prelude.{
  ℕ, ◌+◌, ◌-◌, ◌%◌, ◌^◌, List, Option, none, some, length, take, replicate, leb, if◌then◌else◌,
}
use application_aware_resour.Types.{
  MessageType, ProtocolId, message_type_code, message_type_of, protocol_id_code, protocol_id_of,
}
use application_aware_resour.Buffer.{Buffer, splice, read}
use application_aware_resour.Codec.{encode, decode, put, Reader, ◌>>=◌, return, read_as, read_uint}

-- `RMConfig::max_payload`
abbrev pub max_payload : ℕ
max_payload = 1024

pub record Message : Type 0 where
  pub message_type : MessageType
  pub priority : ℕ
  pub source_id : ℕ
  pub destination_id : ℕ
  pub service_id : ℕ
  pub mode : ℕ
  pub time_stamp : ℕ
  pub protocol_id : ProtocolId
  pub payload_size : ℕ
  pub payload : List ℕ
  pub length : ℕ

-- the sum of the `sizeof`s in the initialiser of `length`
abbrev pub header_size : ℕ
header_size = 34

-- `RMMessage()`
unfoldable pub empty_message : Message
empty_message = record {
  message_type = MessageType.noop;
  priority = 0xff;
  source_id = 0;
  destination_id = 0;
  service_id = 0xffff_ffff_ffff_ffff;
  mode = 0xff;
  time_stamp = 0;
  protocol_id = ProtocolId.protocol_none;
  payload_size = 0;
  payload = replicate max_payload 0;
  length = header_size;
}

-- The constructor with a mode and no payload; `now` is the reading of the system clock.
unfoldable pub basic_message : ℕ → MessageType → ℕ → ℕ → ℕ → ℕ → ℕ → Message
basic_message now type priority source_id destination_id service_id mode = record {
  message_type = type;
  priority = priority;
  source_id = source_id;
  destination_id = destination_id;
  service_id = service_id;
  mode = mode;
  time_stamp = now;
  protocol_id = ProtocolId.protocol_none;
  payload_size = 0;
  payload = replicate max_payload 0;
  length = header_size;
}

-- The constructor without a mode
unfoldable pub modeless_message : ℕ → MessageType → ℕ → ℕ → ℕ → ℕ → Message
unfolding basic_message
modeless_message now type priority source_id destination_id service_id =
    basic_message now type priority source_id destination_id service_id 0xff

-- `memcpy` of `size` bytes to the start of the array `payload`
unfoldable pub fill : Message → List ℕ → Option Message
fill m bytes =
    if leb (length bytes) max_payload
    then some (record m { payload = splice m.payload 0 bytes })
    else none

-- The constructor that takes its payload from a buffer; `payload_size` is a `uint16_t`.
unfoldable pub specific_message :
    ℕ → MessageType → ℕ → ℕ → ℕ → ℕ → ℕ → ProtocolId → Option Buffer → Option Message
unfolding fill basic_message
specific_message now type priority source_id destination_id service_id mode protocol none = none
specific_message now type priority source_id destination_id service_id mode protocol (some b) =
    let size = b.length % 2 ^ 16 in
    let fresh = basic_message now type priority source_id destination_id service_id mode in
    fill (record fresh { protocol_id = protocol; payload_size = size; length = header_size + size })
      (take size b.buffer)

unfoldable pub rm_to_network : Message → Buffer → Buffer
rm_to_network m b =
    let b1 = put (encode 4 (message_type_code m.message_type)) b in
    let b2 = put (encode 1 m.priority) b1 in
    let b3 = put (encode 4 m.source_id) b2 in
    let b4 = put (encode 4 m.destination_id) b3 in
    let b5 = put (encode 8 m.service_id) b4 in
    let b6 = put (encode 1 m.mode) b5 in
    let b7 = put (encode 8 m.time_stamp) b6 in
    let b8 = put (encode 4 (protocol_id_code m.protocol_id)) b7 in
    put (take m.payload_size m.payload) b8

unfoldable pub read_header : Message → Reader Message
read_header m = do
  type ← read_as (λ bytes. message_type_of (decode bytes)) 4 m.message_type
  priority ← read_uint 1 m.priority
  source ← read_uint 4 m.source_id
  destination ← read_uint 4 m.destination_id
  service ← read_uint 8 m.service_id
  mode ← read_uint 1 m.mode
  stamp ← read_uint 8 m.time_stamp
  protocol ← read_as (λ bytes. protocol_id_of (decode bytes)) 4 m.protocol_id
  return (record m {
    message_type = type;
    priority = priority;
    source_id = source;
    destination_id = destination;
    service_id = service;
    mode = mode;
    time_stamp = stamp;
    protocol_id = protocol;
  })

-- The bytes that a `read` copies to `payload`; a failed `read` copies none.
unfoldable pub accept : Message → Option (List ℕ) → Option Message
unfolding fill
accept m none = some m
accept m (some bytes) = fill m bytes

-- `payload_size = message->length - message->pos; message->read(payload, payload_size)`
unfoldable pub read_payload : Message → Buffer → Option Message
unfolding accept
read_payload m b =
    let size = (b.length + 2 ^ 32 - b.pos) % 2 ^ 32 % 2 ^ 16 in
    accept (record m { payload_size = size }) (read b size).0

unfoldable pub network_to_rm : Message → Buffer → Option Message
unfolding read_header read_payload
network_to_rm m b = let (m', b') = read_header m b in read_payload m' b'

unfoldable pub change_id : ℕ → Message → Message
change_id new_id m = record m { destination_id = new_id }

unfoldable pub change_service : ℕ → Message → Message
change_service new_id m = record m { service_id = new_id }

unfoldable pub set_timestamp : ℕ → Message → Message
set_timestamp tp m = record m { time_stamp = tp }

unfoldable pub size : Message → ℕ
size m = m.length

-- `length` keeps its value.
unfoldable pub clear : Message → Message
clear m = record m {
  message_type = MessageType.noop;
  priority = 0xff;
  source_id = 0xffff;
  destination_id = 0xffff;
  mode = 0xff;
  service_id = 0xffff_ffff_ffff_ffff;
  time_stamp = 0;
  protocol_id = ProtocolId.protocol_none;
  payload = replicate max_payload 0;
  payload_size = 0;
}
