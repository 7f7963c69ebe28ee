-- ===== src/Channel/Commands.antt =====
-- Commands from the resource manager to a client, end to end: payload, message, datagram and back.
use application_aware_resour.Prelude.{
  ℕ, ◌%◌, ◌^◌, ◌≤◌, ◌<◌, ◌≡◌, refl, ap, sym, ◌∙◌, List, [], Option, some, append-nil, arith, length,
  take, replicate, length-replicate, take-append, le→leb,
}
use application_aware_resour.Types.{
  MessageType, ProtocolId, IsMessageType, IsProtocolId, protocol_id_code, protocol_id_of,
}
use application_aware_resour.Buffer.{Buffer, max_length, create, construct, splice, copy, reset}
use application_aware_resour.Buffer.Bounds.{length-splice}
use application_aware_resour.Buffer.Stream.{Holds, Holds-length, Unread, reset-Unread, copy-Unread}
use application_aware_resour.Codec.{put}
use application_aware_resour.Codec.Laws.{Writes-put}
use application_aware_resour.Message.{Message, max_payload, basic_message, fill, specific_message}
use application_aware_resour.Message.RoundTrip.{IsMessage, used_payload, received}
use application_aware_resour.Channel.{
  Endpoint, Datagram, receive_control_message, sendout_control_message, post, rm_priority,
}
use application_aware_resour.Payload.Command.{RmPayload, serialize, deserialize}
use application_aware_resour.Payload.RoundTrip.{
  IsPayload, payload_image, Writes-payload, Reads-payload,
}
use application_aware_resour.Channel.Delivery.{
  IsMemory, create-Holds, sent_message, receive-sendout,
}

-- The identifiers that a `send_` method is called with fit their types.
pub record IsAddressed (now source_id destination_id service_id : ℕ) : Type 0 where
  pub stamp : now < 2 ^ 64
  pub source : source_id < 2 ^ 32
  pub destination : destination_id < 2 ^ 32
  pub service : service_id < 2 ^ 64

rm_basic-IsProtocolId : IsProtocolId ProtocolId.rm_basic
unfolding protocol_id_code protocol_id_of
rm_basic-IsProtocolId = (omega arith, refl)

module _ (now : ℕ) (type : MessageType) (source_id destination_id service_id mode : ℕ)
    (bytes : List ℕ) (fits : length bytes ≤ max_payload) where
  abbrev sent : Message
  sent = sent_message now type source_id destination_id service_id mode bytes

  pub specific_message-sent :
      (b : Buffer)
      → Holds b bytes
      → specific_message now type rm_priority source_id destination_id service_id
          (mode % 2 ^ 8)
          ProtocolId.rm_basic
          (some b)
        ≡ some sent
  unfolding specific_message fill basic_message
  specific_message-sent b h =
      let n : b.length ≡ length bytes = Holds-length b bytes h in
      let size : b.length % 2 ^ 16 ≡ length bytes = omega arith in
      let front : take (length bytes) b.buffer ≡ bytes =
        ap (λ k. take k b.buffer) (sym n) ∙ h.content in
      rw (size, front, le→leb _ _ fits)

  pub sent-IsMessage :
      IsMessageType type → IsAddressed now source_id destination_id service_id → IsMessage sent
  sent-IsMessage t a = record {
    type = t;
    priority = omega arith;
    source = a.source;
    destination = a.destination;
    service = a.service;
    mode = omega arith;
    stamp = a.stamp;
    protocol = rm_basic-IsProtocolId;
    bounded = fits;
    array = zeros max_payload fits;
  }
    where
      zeros : (n : ℕ) → length bytes ≤ n → length (splice (replicate n 0) 0 bytes) ≡ n
      zeros n h = omega (arith, length-splice (replicate n 0) 0 bytes, length-replicate {A = ℕ} n 0)

-- `rm_payload_received.add(message.payload, message.payload_size); rm_payload_received.reset();`
unfoldable pub rm_payload_received : List ℕ → Message → Buffer
unfolding create
rm_payload_received raw m = reset (put (take m.payload_size m.payload) (create raw))

rm_payload_received-Unread :
    (raw bytes : List ℕ) (old : Message) (m : Message)
    → IsMemory raw
    → length bytes ≤ max_payload
    → m.payload_size ≡ length bytes
    → used_payload m ≡ bytes
    → Unread (rm_payload_received raw (received old m)) bytes
      × ((rm_payload_received raw (received old m)).max_size ≡ max_length)
unfolding rm_payload_received create construct
rm_payload_received-Unread raw bytes old m memory fits n e =
    let front : take m.payload_size (splice old.payload 0 (used_payload m)) ≡ bytes =
      take-append (used_payload m) _ m.payload_size (ap length e ∙ sym n) ∙ e in
    let (h, size) =
      (Writes-put (length bytes) bytes refl).run (construct max_length raw) []
        (create-Holds raw memory) (omega (arith, fits)) in
    rw front (unfold reset in (reset-Unread _ bytes h, size))

used-sent :
    (now : ℕ) (type : MessageType) (source_id destination_id service_id mode : ℕ) (bytes : List ℕ)
    → used_payload (sent_message now type source_id destination_id service_id mode bytes) ≡ bytes
used-sent now type source_id destination_id service_id mode bytes =
    take-append bytes _ (length bytes) refl

-- What a client gets of a command: the datagram goes to the target, the message that is received
-- from it has the type, the service and the low eight bits of the mode, and the handler reads the
-- payload that was serialised.
pub record Arrives (raw raw_in raw_payload raw_copy : List ℕ) (type : MessageType)
    (target : Endpoint) (destination_id service_id mode : ℕ) (old : Message) (blank p : RmPayload)
    (sent : Option Datagram) : Type 0 where
  pub datagram : Datagram
  pub was_sent : sent ≡ some datagram
  pub goes_to : datagram.target ≡ target
  pub message : Message
  pub was_received : receive_control_message raw_in datagram.bytes old ≡ some message
  pub of_type : message.message_type ≡ type
  pub for_destination : message.destination_id ≡ destination_id
  pub for_service : message.service_id ≡ service_id
  pub with_mode : message.mode ≡ mode % 2 ^ 8
  pub reads : (deserialize blank (copy raw_copy (rm_payload_received raw_payload message))).0 ≡ p

-- A command that is serialised into an empty buffer and sent by the body that the send_ methods
-- share goes to the target and is received there with its type, destination, service, the low eight
-- bits of its mode and its payload, whatever the memory and the objects of the receiver held. The
-- identifiers fit their types.
pub command-Arrives :
    (raw raw_in raw_payload raw_copy : List ℕ) (now : ℕ) (type : MessageType) (target : Endpoint)
    (source_id destination_id service_id mode : ℕ) (b : Buffer) (old : Message)
    (blank p : RmPayload)
    → IsMemory raw
    → IsMemory raw_in
    → IsMemory raw_payload
    → IsMemory raw_copy
    → Holds b []
    → 136 < b.max_size
    → IsPayload p
    → IsMessageType type
    → IsAddressed now source_id destination_id service_id
    → Arrives raw raw_in raw_payload raw_copy type target destination_id service_id mode old blank p
        (post raw now type target source_id destination_id service_id mode (some (serialize p b)))
unfolding post
command-Arrives raw raw_in raw_payload raw_copy now type target source_id destination_id service_id
      mode b old blank p memory memory_in memory_payload memory_copy h room v t a =
    let bytes : List ℕ = payload_image p in
    let count : length bytes ≡ 136 = (Writes-payload p v).count in
    let fits : length bytes ≤ max_payload = omega arith in
    let (h', _) = (Writes-payload p v).run b [] h (omega arith) in
    let m : Message = sent_message now type source_id destination_id service_id mode bytes in
    let (u, size) =
      rm_payload_received-Unread raw_payload bytes old m memory_payload fits refl
        (used-sent now type source_id destination_id service_id mode bytes) in
    let u' =
      copy-Unread raw_copy (rm_payload_received raw_payload (received old m)) bytes u
        (memory_copy ∙ sym size) in
    record {
      datagram = sendout_control_message raw now m target;
      was_sent = rw (
          specific_message-sent now type source_id destination_id service_id mode bytes fits
            (serialize p b) h');
      goes_to = unfold sendout_control_message in refl;
      message = received old m;
      was_received =
          receive-sendout raw raw_in now old m target memory memory_in
            (sent-IsMessage now type source_id destination_id service_id mode bytes fits t a);
      of_type = refl;
      for_destination = refl;
      for_service = refl;
      with_mode = refl;
      reads =
          ap (λ (r : RmPayload × Buffer). r.0)
            ((Reads-payload blank p v).run _ [] (rw append-nil u')).0;
    }

-- What arrives, arrives from the datagram alone.
pub from_datagram :
    (raw raw_in raw_payload raw_copy : List ℕ) (type : MessageType) (target : Endpoint)
    (destination_id service_id mode : ℕ) (old : Message) (blank p : RmPayload) (o : Option Datagram)
    (a : Arrives raw raw_in raw_payload raw_copy type target destination_id service_id mode old
      blank p o)
    → Arrives raw raw_in raw_payload raw_copy type target destination_id service_id mode old blank p
        (some a.datagram)
from_datagram raw raw_in raw_payload raw_copy type target destination_id service_id mode old blank p
      o a =
    record {
      datagram = a.datagram;
      was_sent = refl;
      goes_to = a.goes_to;
      message = a.message;
      was_received = a.was_received;
      of_type = a.of_type;
      for_destination = a.for_destination;
      for_service = a.for_service;
      with_mode = a.with_mode;
      reads = a.reads;
    }
