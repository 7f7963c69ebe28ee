-- ===== src/Channel/Delivery.antt =====
-- From a `send_` method through the network to the receiver.
use application_aware_resour.Prelude.{
  ℕ, ◌+◌, ◌%◌, ◌^◌, ◌≤◌, ◌<◌, ◌≡◌, refl, ap, List, [], ◌++◌, some, arith, length, take, drop,
  replicate, take-append, take_all,
}
use application_aware_resour.Types.{MessageType, ProtocolId}
use application_aware_resour.Buffer.{max_length, construct, create, splice}
use application_aware_resour.Buffer.Bounds.{length-splice}
use application_aware_resour.Buffer.Stream.{Holds, Unread, construct-Holds}
use application_aware_resour.Message.{Message, max_payload, header_size}
use application_aware_resour.Message.RoundTrip.{
  IsMessage, header_image, used_payload, Writes-message, received, network_to_rm-reads,
}
use application_aware_resour.Channel.{
  Endpoint, Datagram, landed, receive_control_message, sendout_control_message, rm_priority,
}

-- Memory for a buffer of the default size.
abbrev pub IsMemory : List ℕ → Type 0
IsMemory raw = length raw ≡ max_length

pub create-Holds : (raw : List ℕ) → IsMemory raw → Holds (create raw) []
unfolding create
create-Holds raw h = construct-Holds max_length raw (omega arith) (omega arith)

abbrev pub message_image : Message → List ℕ
message_image m = header_image m ++ used_payload m

-- A message is sent as its bytes, to its target.
sendout-image :
    (raw : List ℕ) (now : ℕ) (m : Message) (target : Endpoint)
    → IsMemory raw
    → IsMessage m
    → sendout_control_message raw now m target ≡ record { target = target; bytes = message_image m }
unfolding sendout_control_message create construct
sendout-image raw now m target memory v =
    let (h, _) =
      (Writes-message m v).run (construct max_length raw) []
        (construct-Holds max_length raw (omega arith) (omega arith)) (omega (arith, v.bounded)) in
    ap (λ bytes. record { target = target; bytes = bytes }) h.content

landed-at :
    (n : ℕ) (raw bytes : List ℕ)
    → n < 2 ^ 32
    → length raw ≡ n
    → length bytes ≤ n
    → Unread
        (record (construct n raw) {
          buffer = splice (construct n raw).buffer 0 (take n bytes);
          length = length (take n bytes);
        })
        bytes
unfolding construct
landed-at n raw bytes small memory fits =
    rw (take_all bytes n fits, take_all raw n (omega arith))
      (record {
        valid = omega (arith, length-splice raw 0 bytes);
        content = take-append bytes (drop (0 + length bytes) raw) (length bytes) refl;
      })

landed-Unread :
    (raw bytes : List ℕ)
    → IsMemory raw
    → length bytes ≤ max_length
    → Unread (landed raw bytes) bytes
unfolding landed create
landed-Unread raw bytes memory fits = landed-at max_length raw bytes (omega arith) memory fits

-- A message whose members fit their types and whose payload fits its array is received as it was
-- sent, into any message object.
pub receive-sendout :
    (raw raw' : List ℕ) (now : ℕ) (old m : Message) (target : Endpoint)
    → IsMemory raw
    → IsMemory raw'
    → IsMessage m
    → receive_control_message raw' (sendout_control_message raw now m target).bytes old
      ≡ some (received old m)
unfolding receive_control_message
receive-sendout raw raw' now old m target memory memory' v =
    let sent : (sendout_control_message raw now m target).bytes ≡ message_image m =
      ap (λ (d : Datagram). d.bytes) (sendout-image raw now m target memory v) in
    let count = (Writes-message m v).count in
    rw sent (
      network_to_rm-reads old m (landed raw' (message_image m)) v
        (landed-Unread raw' (message_image m) memory' (omega (arith, count, v.bounded))))

-- The message that a `send_` method builds from a payload of these bytes.
abbrev pub sent_message : ℕ → MessageType → ℕ → ℕ → ℕ → ℕ → List ℕ → Message
sent_message now type source_id destination_id service_id mode bytes = record {
  message_type = type;
  priority = rm_priority;
  source_id = source_id;
  destination_id = destination_id;
  service_id = service_id;
  mode = mode % 2 ^ 8;
  time_stamp = now;
  protocol_id = ProtocolId.rm_basic;
  payload_size = length bytes;
  payload = splice (replicate max_payload 0) 0 bytes;
  length = header_size + length bytes;
}
