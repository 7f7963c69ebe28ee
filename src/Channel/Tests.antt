-- ===== src/Channel/Tests.antt =====
-- Examples for the path of a command: payload, message, channel (src/rscmng/messages.cpp,
-- src/rscmng/rm_communication.cpp).
use application_aware_resour.Prelude.{
  ℕ, ◌<◌, ◌≡◌, refl, arith, List, ◌∷◌, ◌++◌, some, none, replicate, length-replicate, pos,
}
use application_aware_resour.Types.{
  MessageType, ProtocolId, RmCommand, message_type_code, message_type_of, protocol_id_code,
  protocol_id_of, rm_command_code, rm_command_of,
}
use application_aware_resour.Buffer.{Buffer, max_length, create, construct}
use application_aware_resour.Buffer.Stream.{Unread}
use application_aware_resour.Codec.{encode}
use application_aware_resour.Payload.Basic.{PeriodicPayload}
use application_aware_resour.Payload.Command
use application_aware_resour.Payload.Command.{
  RmPayload, request_size, zero_time, command_payload, request_payload,
}
use application_aware_resour.Payload.RoundTrip.{IsPayload}
use application_aware_resour.Message.{Message, empty_message, network_to_rm}
use application_aware_resour.Message.RoundTrip.{IsMessage, header_image, used_payload}
use application_aware_resour.Message.Overflow.{network_to_rm_overflow}
use application_aware_resour.Channel.{Endpoint, post}
use application_aware_resour.Channel.Delivery.{IsMemory, create-Holds}
use application_aware_resour.Channel.Commands.{Arrives, command-Arrives}

abbrev memory : List ℕ
memory = replicate max_length 0

memory-IsMemory : IsMemory memory
memory-IsMemory = length-replicate {A = ℕ} max_length 0

abbrev endnode : Endpoint
endnode = record { address = "10.0.0.1"; port = 4000 }

abbrev start_payload : RmPayload
start_payload = record {
  base = record { object_size = 64; object_deadline = pos 100 };
  data_connection_priority = 3;
  measurement_id = 1;
  rm_client_action = RmCommand.sync_timestamp_start;
  timestamp_stop = zero_time;
  timestamp_reconfig = record { tv_sec = pos 5000; tv_nsec = pos 20 };
  timestamp_start = record { tv_sec = pos 5001; tv_nsec = pos 30 };
  resource_request_struct = replicate request_size 7;
}

start_payload-IsPayload : IsPayload start_payload
unfolding rm_command_code rm_command_of
start_payload-IsPayload = record {
  base = record { size = omega arith; deadline = (omega arith, omega arith) };
  priority = omega arith;
  measurement = omega arith;
  action = (omega arith, refl);
  stop = ((omega arith, omega arith), (omega arith, omega arith));
  reconfig = ((omega arith, omega arith), (omega arith, omega arith));
  start = ((omega arith, omega arith), (omega arith, omega arith));
  request = length-replicate {A = ℕ} request_size 7;
}

abbrev blank : RmPayload
blank = request_payload RmCommand.idle (replicate request_size 0)

create-room : (n : ℕ) → n < max_length → n < (create memory).max_size
unfolding create construct
create-room n h = omega (arith, h)

abbrev sampling : PeriodicPayload
sampling = record { base = start_payload.base; sample_period = pos 40 }

abbrev message : Message
message = record empty_message {
  message_type = MessageType.start;
  source_id = 99;
  service_id = 7;
  mode = 2;
  protocol_id = ProtocolId.rm_basic;
  payload_size = 3;
  payload = 1 ∷ 2 ∷ 3 ∷ replicate 1021 0;
}

message-IsMessage : IsMessage message
unfolding message_type_code message_type_of protocol_id_code protocol_id_of empty_message
message-IsMessage = record {
  type = (omega arith, refl);
  priority = omega arith;
  source = omega arith;
  destination = omega arith;
  service = omega arith;
  mode = omega arith;
  stamp = omega arith;
  protocol = (omega arith, refl);
  bounded = omega arith;
  array = omega (arith, length-replicate {A = ℕ} 1021 0);
}

abbrev datagram : Buffer
datagram = record {
  buffer = header_image message ++ used_payload message;
  pos = 0;
  max_size = 37;
  length = 37;
}

datagram-Unread : Unread datagram (header_image message ++ used_payload message)
unfolding message_type_code protocol_id_code encode
datagram-Unread = record {
  valid = record { memory = refl; small = omega arith; filled = omega arith; head = omega arith };
  content = refl;
}

abbrev long_datagram : Buffer
long_datagram = record { buffer = memory; pos = 0; max_size = max_length; length = 1059 }

network_to_rm_overflow_example : network_to_rm empty_message long_datagram ≡ none
network_to_rm_overflow_example =
    network_to_rm_overflow empty_message long_datagram
      (record {
        memory = omega (arith, length-replicate {A = ℕ} max_length 0);
        small = omega arith;
        filled = omega arith;
        head = omega arith;
      })
      refl (omega arith) (omega arith)

command-Arrives_example :
    Arrives memory memory memory memory MessageType.sync_timestamp_start endnode 99 7 2
      empty_message blank start_payload
      (post memory 0 MessageType.sync_timestamp_start endnode 99 99 7 2
        (some (Command.serialize start_payload (create memory))))
unfolding message_type_code message_type_of
command-Arrives_example =
    command-Arrives memory memory memory memory 0 MessageType.sync_timestamp_start endnode 99 99 7 2
      (create memory) empty_message blank start_payload memory-IsMemory memory-IsMemory
      memory-IsMemory memory-IsMemory (create-Holds memory memory-IsMemory)
      (create-room 136 (omega arith)) start_payload-IsPayload (omega arith, refl)
      (record {
        stamp = omega arith;
        source = omega arith;
        destination = omega arith;
        service = omega arith;
      })
