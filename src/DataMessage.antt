-- ===== src/DataMessage.antt =====
-- `wired::DataMessage`, a fragment of an object of the data traffic (include/rscmng/messages.hpp,
-- src/rscmng/messages.cpp). `none` stands for undefined behaviour: an access outside the array
-- `payload` or outside the memory that a pointer names. Printing is left out. `now` is the reading
-- of the system clock. `memcpy(payload, payload, size)` in the constructors and in `set_payload`
-- copies the parameter onto itself, so that parameter has no effect and is left out.
pub mod Header
pub mod Fragments
pub mod Example
mod Tests
use application_aware_resour.Prelude.{
  ℕ, ◌+◌, ◌-◌, ◌%◌, ◌^◌, List, ◌++◌, Option, none, some, length, take, drop, replicate, leb,
  if◌then◌else◌, pos,
}
use application_aware_resour.Buffer.{max_length, splice}
use application_aware_resour.Codec.{Timespec, encode, decode, encode_timespec, decode_timespec}

pub record DataMessage : Type 0 where
  pub priority : ℕ
  pub source_id : ℕ
  pub service_id : ℕ
  pub object_number : ℕ
  pub fragment_number : ℕ
  pub total_fragments : ℕ
  pub timestamp : Timespec
  pub time_stamp : ℕ
  pub payload_length : ℕ
  pub header_length : ℕ
  pub length : ℕ
  pub payload : List ℕ

-- `rscmng::max_length - 21`, the size of the array `payload`
abbrev pub payload_capacity : ℕ
payload_capacity = max_length - 21

-- `DataMessage()`: the initialisers of the class give the lengths; nothing initialises
-- `object_number`.
unfoldable pub empty_data_message : ℕ → DataMessage
empty_data_message garbage = record {
  priority = 0xff;
  source_id = 0;
  service_id = 0xffff_ffff_ffff_ffff;
  object_number = garbage;
  fragment_number = 0xffff_ffff;
  total_fragments = 0xffff_ffff;
  timestamp = record { tv_sec = pos 0; tv_nsec = pos 0 };
  time_stamp = 0;
  payload_length = 0;
  header_length = 49;
  length = 49;
  payload = replicate payload_capacity 0;
}

-- The constructor with a timestamp: the sums of `length` and `header_length` leave out `time_stamp`.
unfoldable pub timed_data_message : ℕ → ℕ → ℕ → ℕ → ℕ → ℕ → ℕ → ℕ → Timespec → DataMessage
timed_data_message now priority client_id service_id object_number fragment_number total_number
      payload_size timestamp =
    record {
      priority = priority;
      source_id = client_id;
      service_id = service_id;
      object_number = object_number;
      fragment_number = fragment_number;
      total_fragments = total_number;
      timestamp = timestamp;
      time_stamp = now;
      payload_length = payload_size % 2 ^ 32;
      header_length = 41;
      length = (41 + payload_size % 2 ^ 32) % 2 ^ 32;
      payload = replicate payload_capacity 0;
    }

-- The constructor without a timestamp
unfoldable pub untimed_data_message : ℕ → ℕ → ℕ → ℕ → ℕ → ℕ → ℕ → ℕ → DataMessage
unfolding timed_data_message
untimed_data_message now priority client_id service_id object_number fragment_number total_number
      payload_size =
    timed_data_message now priority client_id service_id object_number fragment_number total_number
      payload_size (record { tv_sec = pos 0; tv_nsec = pos 0 })

-- The bytes in front of the payload
abbrev pub data_header : DataMessage → List ℕ
data_header m =
    encode 1 m.priority
    ++ encode 4 m.source_id
    ++ encode 8 m.service_id
    ++ encode 4 m.object_number
    ++ encode 4 m.fragment_number
    ++ encode 4 m.total_fragments
    ++ encode_timespec m.timestamp
    ++ encode 8 m.time_stamp

-- The bytes that are written from the pointer on.
unfoldable pub data_to_net : DataMessage → Option (List ℕ)
data_to_net m =
    if leb m.payload_length payload_capacity
    then some (data_header m ++ take m.payload_length m.payload)
    else none

abbrev pub bytes_at : ℕ → ℕ → List ℕ → List ℕ
bytes_at offset size bytes = take size (drop offset bytes)

-- The members, with `size` bytes of payload
unfoldable pub read_members : List ℕ → ℕ → ℕ → DataMessage → DataMessage
read_members message new_length size m = record {
  priority = decode (bytes_at 0 1 message);
  source_id = decode (bytes_at 1 4 message);
  service_id = decode (bytes_at 5 8 message);
  object_number = decode (bytes_at 13 4 message);
  fragment_number = decode (bytes_at 17 4 message);
  total_fragments = decode (bytes_at 21 4 message);
  timestamp = decode_timespec (bytes_at 25 16 message);
  time_stamp = decode (bytes_at 41 8 message);
  payload_length = size;
  header_length = m.header_length;
  length = new_length;
  payload = splice m.payload 0 (bytes_at 49 size message);
}

-- `message` is the memory that the pointer names.
unfoldable pub net_to_data : List ℕ → ℕ → DataMessage → Option DataMessage
unfolding read_members
net_to_data message size m =
    let new_length = size % 2 ^ 32 in
    let new_payload_length = (new_length + 2 ^ 32 - m.header_length) % 2 ^ 32 in
    if leb (49 + new_payload_length) (length message)
    then if leb new_payload_length payload_capacity
      then some (read_members message new_length new_payload_length m)
      else none
    else none

-- Both `set_payload`s: an assignment of a parameter to itself leaves the member as it is, and the
-- sum of `length` leaves out both times.
unfoldable pub set_payload : ℕ → ℕ → DataMessage → DataMessage
set_payload total_number size m = record m {
  payload_length = size % 2 ^ 32;
  length = (25 + size % 2 ^ 32) % 2 ^ 32;
  total_fragments = total_number;
}

unfoldable pub set_timestamp : Timespec → DataMessage → DataMessage
set_timestamp new_timestamp m = record m { timestamp = new_timestamp }

unfoldable pub set_packet_number : ℕ → DataMessage → DataMessage
set_packet_number packet_number m = record m { fragment_number = packet_number }

unfoldable pub set_payload_size : ℕ → DataMessage → DataMessage
set_payload_size payload_size m = record m { payload_length = payload_size % 2 ^ 32 }

unfoldable pub change_source_id : ℕ → DataMessage → DataMessage
change_source_id new_id m = record m { source_id = new_id }

unfoldable pub change_service : ℕ → DataMessage → DataMessage
change_service new_id m = record m { service_id = new_id }

unfoldable pub size : DataMessage → ℕ
size m = m.length

unfoldable pub header_size : DataMessage → ℕ
header_size m = m.header_length

-- Of the payload only the first byte is cleared.
unfoldable pub clear : DataMessage → DataMessage
clear m = record m {
  priority = 0xff;
  source_id = 0xffff;
  service_id = 0xffff_ffff_ffff_ffff;
  object_number = 0xffff_ffff;
  fragment_number = 0xffff_ffff;
  total_fragments = 0xffff_ffff;
  payload = splice m.payload 0 (replicate 1 0);
  payload_length = 0;
  length = m.header_length;
}
