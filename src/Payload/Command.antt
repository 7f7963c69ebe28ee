-- ===== src/Payload/Command.antt =====
-- `rm_wired_basic_protocol::RMPayload`, the payload of the resource manager's commands.
use application_aware_resour.Prelude.{ℕ, List, ℤ, pos}
use application_aware_resour.Buffer.{Buffer}
use application_aware_resour.Codec.{
  Timespec, encode, decode, encode_timespec, put, Reader, ◌>>=◌, return, read_as, read_uint,
  read_timespec, read_raw,
}
use application_aware_resour.Types.{RmCommand, rm_command_code, rm_command_of}
use application_aware_resour.Payload.Basic
use application_aware_resour.Payload.Basic.{BasicPayload, empty_payload, sized_payload}

abbrev pub zero_time : Timespec
zero_time = record { tv_sec = pos 0; tv_nsec = pos 0 }

-- `sizeof(network_resource_request)`: three `uint32_t`, a `double`, a duration, a `std::vector` of
-- three pointers and a `bool`, with their padding.
abbrev pub request_size : ℕ
request_size = 64

-- `resource_request_struct` is kept as the bytes of the object, which is how it is sent: of the
-- vector `data_path` these are the sender's pointers, not its elements.
pub record RmPayload : Type 0 where
  pub base : BasicPayload
  pub data_connection_priority : ℕ
  pub measurement_id : ℕ
  pub rm_client_action : RmCommand
  pub timestamp_stop : Timespec
  pub timestamp_reconfig : Timespec
  pub timestamp_start : Timespec
  pub resource_request_struct : List ℕ

-- `RMPayload(rm_client_action, timestamp_stop, timestamp_reconfig, timestamp_start)`; the request is
-- default-initialised, its bytes are the `garbage` of the fresh object.
unfoldable pub command_payload : List ℕ → RmCommand → Timespec → Timespec → Timespec → RmPayload
command_payload garbage action stop reconfig start = record {
  base = empty_payload;
  data_connection_priority = 0;
  measurement_id = 0;
  rm_client_action = action;
  timestamp_stop = stop;
  timestamp_reconfig = reconfig;
  timestamp_start = start;
  resource_request_struct = garbage;
}

-- `RMPayload(rm_client_action, resource_request_struct)`
unfoldable pub request_payload : RmCommand → List ℕ → RmPayload
request_payload action request = record {
  base = empty_payload;
  data_connection_priority = 0;
  measurement_id = 0;
  rm_client_action = action;
  timestamp_stop = zero_time;
  timestamp_reconfig = zero_time;
  timestamp_start = zero_time;
  resource_request_struct = request;
}

-- `RMPayload()`; `blank` is the request of zeros, as the bytes of the object.
unfoldable pub default_payload : List ℕ → RmPayload
unfolding request_payload
default_payload blank = request_payload RmCommand.idle blank

-- The constructor with every member
unfoldable pub full_payload :
    ℕ → ℤ → ℕ → ℕ → RmCommand → Timespec → Timespec → Timespec → List ℕ → RmPayload
unfolding sized_payload
full_payload object_size object_deadline stream_priority measurement action stop reconfig start
      request =
    record {
      base = sized_payload object_size object_deadline;
      data_connection_priority = stream_priority;
      measurement_id = measurement;
      rm_client_action = action;
      timestamp_stop = stop;
      timestamp_reconfig = reconfig;
      timestamp_start = start;
      resource_request_struct = request;
    }

-- The constructor without an identifier for the measurement: the members that it does not
-- initialise are those of the object `garbage`.
unfoldable pub stream_payload : RmPayload → ℕ → ℤ → ℕ → RmPayload
unfolding sized_payload
stream_payload garbage object_size object_deadline stream_priority = record garbage {
  base = sized_payload object_size object_deadline;
  data_connection_priority = stream_priority;
}

-- The constructor with a command, which it does not take over.
unfoldable pub measured_payload : RmPayload → ℕ → ℤ → ℕ → ℕ → RmCommand → RmPayload
unfolding stream_payload
measured_payload garbage object_size object_deadline stream_priority measurement action =
    record (stream_payload garbage object_size object_deadline stream_priority) {
      measurement_id = measurement;
    }

unfoldable pub get_data_connection_priority : RmPayload → ℕ
get_data_connection_priority p = p.data_connection_priority

unfoldable pub get_measurement_id : RmPayload → ℕ
get_measurement_id p = p.measurement_id

unfoldable pub get_timestamp_stop : RmPayload → Timespec
get_timestamp_stop p = p.timestamp_stop

unfoldable pub get_timestamp_reconfig : RmPayload → Timespec
get_timestamp_reconfig p = p.timestamp_reconfig

unfoldable pub get_timestamp_start : RmPayload → Timespec
get_timestamp_start p = p.timestamp_start

unfoldable pub get_resource_request_payload : RmPayload → List ℕ
get_resource_request_payload p = p.resource_request_struct

unfoldable pub serialize : RmPayload → Buffer → Buffer
serialize p b =
    let b1 = Basic.serialize p.base b in
    let b2 = put (encode 4 p.data_connection_priority) b1 in
    let b3 = put (encode 4 p.measurement_id) b2 in
    let b4 = put (encode 4 (rm_command_code p.rm_client_action)) b3 in
    let b5 = put (encode_timespec p.timestamp_stop) b4 in
    let b6 = put (encode_timespec p.timestamp_reconfig) b5 in
    let b7 = put (encode_timespec p.timestamp_start) b6 in put p.resource_request_struct b7

unfoldable pub deserialize : RmPayload → Reader RmPayload
deserialize p = do
  base ← Basic.deserialize p.base
  priority ← read_uint 4 p.data_connection_priority
  measurement ← read_uint 4 p.measurement_id
  action ← read_as (λ bytes. rm_command_of (decode bytes)) 4 p.rm_client_action
  stop ← read_timespec p.timestamp_stop
  reconfig ← read_timespec p.timestamp_reconfig
  start ← read_timespec p.timestamp_start
  request ← read_raw request_size p.resource_request_struct
  return (record {
    base = base;
    data_connection_priority = priority;
    measurement_id = measurement;
    rm_client_action = action;
    timestamp_stop = stop;
    timestamp_reconfig = reconfig;
    timestamp_start = start;
    resource_request_struct = request;
  })

unfoldable pub set_data_connection_priority : ℕ → RmPayload → RmPayload
set_data_connection_priority priority p = record p { data_connection_priority = priority }

-- The parameter hides the member: `measurement_id = measurement_id` changes nothing.
unfoldable pub set_measurement_id : ℕ → RmPayload → RmPayload
set_measurement_id measurement_id p = p

unfoldable pub set_timestamp_stop : Timespec → RmPayload → RmPayload
set_timestamp_stop timestamp p = record p { timestamp_stop = timestamp }

unfoldable pub set_timestamp_reconfig : Timespec → RmPayload → RmPayload
set_timestamp_reconfig timestamp p = record p { timestamp_reconfig = timestamp }

unfoldable pub set_timestamp_start : Timespec → RmPayload → RmPayload
set_timestamp_start timestamp p = record p { timestamp_start = timestamp }

-- The parameter hides the member here too.
unfoldable pub set_resource_request_payload : List ℕ → RmPayload → RmPayload
set_resource_request_payload resource_request_struct p = p
