-- ===== src/Message/RoundTrip.antt =====
-- A control message that fits its datagram arrives as it was sent.
use application_aware_resour.Prelude.{
  ℕ, ◌+◌, ◌-◌, ◌%◌, ◌^◌, ◌≤◌, ◌<◌, ◌≡◌, ap, ◌∙◌, List, [], ◌++◌, some, append_assoc, append-nil,
  arith, length, take, length-take, le→leb,
}
use application_aware_resour.Types.{
  IsMessageType, IsProtocolId, message_type_code, message_type_of, protocol_id_code, protocol_id_of,
}
use application_aware_resour.Buffer.{Buffer, splice}
use application_aware_resour.Buffer.Stream.{Unread, Unread-room, advance, read-advance}
use application_aware_resour.Codec.{encode, decode, length-encode, decode-encode, put}
use application_aware_resour.Codec.Laws.{
  Reads, Writes, Reads-as, Reads-uint, Reads-bind, Reads-last, Writes-put, Writes-then,
}
use application_aware_resour.Message.{
  Message, max_payload, fill, accept, rm_to_network, read_header, read_payload, network_to_rm,
}

-- The members hold values of their types, and the payload fits its array.
pub record IsMessage (m : Message) : Type 0 where
  pub type : IsMessageType m.message_type
  pub priority : m.priority < 2 ^ 8
  pub source : m.source_id < 2 ^ 32
  pub destination : m.destination_id < 2 ^ 32
  pub service : m.service_id < 2 ^ 64
  pub mode : m.mode < 2 ^ 8
  pub stamp : m.time_stamp < 2 ^ 64
  pub protocol : IsProtocolId m.protocol_id
  pub bounded : m.payload_size ≤ max_payload
  pub array : length m.payload ≡ max_payload

abbrev pub used_payload : Message → List ℕ
used_payload m = take m.payload_size m.payload

abbrev pub header_image : Message → List ℕ
header_image m =
    encode 4 (message_type_code m.message_type)
    ++ encode 1 m.priority
    ++ encode 4 m.source_id
    ++ encode 4 m.destination_id
    ++ encode 8 m.service_id
    ++ encode 1 m.mode
    ++ encode 8 m.time_stamp
    ++ encode 4 (protocol_id_code m.protocol_id)

Writes-uint : (w v : ℕ) → Writes (put (encode w v)) w (encode w v)
Writes-uint w v = Writes-put w (encode w v) (length-encode w v)

pub length-used : (m : Message) → IsMessage m → length (used_payload m) ≡ m.payload_size
length-used m v = omega (arith, v, length-take m.payload_size m.payload)

pub Writes-message :
    (m : Message)
    → IsMessage m
    → Writes (rm_to_network m) (34 + m.payload_size) (header_image m ++ used_payload m)
unfolding rm_to_network
Writes-message m v =
    Writes-then _ _
      (Writes-then _ _
        (Writes-then _ _
          (Writes-then _ _
            (Writes-then _ _
              (Writes-then _ _
                (Writes-then _ _
                  (Writes-then _ _ (Writes-uint 4 (message_type_code m.message_type))
                    (Writes-uint 1 m.priority))
                  (Writes-uint 4 m.source_id))
                (Writes-uint 4 m.destination_id))
              (Writes-uint 8 m.service_id))
            (Writes-uint 1 m.mode))
          (Writes-uint 8 m.time_stamp))
        (Writes-uint 4 (protocol_id_code m.protocol_id)))
      (Writes-put m.payload_size (used_payload m) (length-used m v))

-- What the header of `m` makes of the message `old` that it is read into.
abbrev pub with_header : Message → Message → Message
with_header old m = record m {
  payload_size = old.payload_size;
  payload = old.payload;
  length = old.length;
}

Reads-header :
    (old m : Message)
    → IsMessage m
    → Reads (read_header old) (with_header old m) 34 (header_image m)
unfolding read_header
Reads-header old m v =
    let type : Reads _ m.message_type 4 (encode 4 (message_type_code m.message_type)) =
      Reads-as (λ bytes. message_type_of (decode bytes)) 4 old.message_type m.message_type _
        (length-encode 4 _) (ap message_type_of (decode-encode 4 _ v.type.0) ∙ v.type.1) in
    let protocol : Reads _ m.protocol_id 4 (encode 4 (protocol_id_code m.protocol_id)) =
      Reads-as (λ bytes. protocol_id_of (decode bytes)) 4 old.protocol_id m.protocol_id _
        (length-encode 4 _) (ap protocol_id_of (decode-encode 4 _ v.protocol.0) ∙ v.protocol.1) in
    simp append_assoc (
      Reads-bind _ type (
        Reads-bind _ (Reads-uint 1 _ m.priority v.priority) (
          Reads-bind _ (Reads-uint 4 _ m.source_id v.source) (
            Reads-bind _ (Reads-uint 4 _ m.destination_id v.destination) (
              Reads-bind _ (Reads-uint 8 _ m.service_id v.service) (
                Reads-bind _ (Reads-uint 1 _ m.mode v.mode)
                  (Reads-bind _ (Reads-uint 8 _ m.time_stamp v.stamp) (Reads-last _ protocol))))))))

-- What arrives: the message with its payload at the start of the array of `old`.
abbrev pub received : Message → Message → Message
received old m = record m { payload = splice old.payload 0 (used_payload m); length = old.length }

read_payload-all :
    (m : Message) (b : Buffer) (ys : List ℕ)
    → Unread b ys
    → length ys ≤ max_payload
    → read_payload m b
      ≡ some (record m { payload_size = length ys; payload = splice m.payload 0 ys })
unfolding read_payload
read_payload-all m b ys u h =
    let room : b.pos + length ys ≡ b.length = Unread-room b ys u in
    let size : (b.length + 2 ^ 32 - b.pos) % 2 ^ 32 % 2 ^ 16 ≡ length ys = omega (arith, u.valid) in
    rw (size, read-advance b ys [] (rw append-nil u), accept, fill, le→leb _ _ h, size)

-- Reading the bytes of a message whose members fit their types, and nothing behind them, gives the
-- message back: the header, the size of the payload, and the payload at the start of the array.
pub network_to_rm-reads :
    (old m : Message) (b : Buffer)
    → IsMessage m
    → Unread b (header_image m ++ used_payload m)
    → network_to_rm old b ≡ some (received old m)
unfolding network_to_rm
network_to_rm-reads old m b v u =
    let (e, u') = (Reads-header old m v).run b (used_payload m) u in
    rw e (
      read_payload-all (with_header old m) (advance b 34) (used_payload m) u'
        (omega (arith, v.bounded, length-used m v))
      ∙ ap (λ k. some (record (received old m) { payload_size = k })) (length-used m v))
