-- ===== src/Sink/Reception.antt =====
-- What the sink makes of the datagrams, those of the generator among them.
use application_aware_resour.Prelude.{
  ℕ, ◌+◌, ◌-◌, ◌%◌, ◌^◌, ◌≤◌, ◌≡◌, refl, ap, ◌∙◌, List, [], ◌∷◌, ◌++◌, Option, some, arith, length,
  take, drop, length-append, length-take, length-drop, append_assoc, le→leb, replicate,
  length-replicate, ◌>>=◌, String, Bool, true, false, ◌&&◌, ◌==◌, if◌then◌else◌, sym, append-nil,
}
use application_aware_resour.Buffer.{splice}
use application_aware_resour.Buffer.Bounds.{length-splice}
use application_aware_resour.Codec.{Timespec}
use application_aware_resour.DataMessage.{
  DataMessage, payload_capacity, data_header, net_to_data, read_members, clear, empty_data_message,
  bytes_at,
}
use application_aware_resour.DataMessage.Fragments.{fragment_read, net_to_data-header}
use application_aware_resour.DataMessage.Header.{IsDataMessage, length-data_header}
use application_aware_resour.Generator.{max_protocol_message_length}
use application_aware_resour.Generator.Packets.{take_behind}
use application_aware_resour.Sink.{
  Sink, Frame, frame_of, lines_of, logging, initial_sink, log_first_packet, receive_frame,
}

-- The sizes that make every access of the sink stay inside its arrays.
pub record IsSink (s : Sink) : Type 0 where
  pub fresh : s.data_message.header_length ≡ 49
  pub array : length s.data_message.payload ≡ payload_capacity
  pub buffer : length s.data_message_buffer ≡ max_protocol_message_length

pub initial_sink-IsSink : (garbage : ℕ) (name : String) → IsSink (initial_sink garbage name)
unfolding initial_sink empty_data_message
initial_sink-IsSink garbage name = record {
  fresh = refl;
  array = length-replicate {A = ℕ} payload_capacity 0;
  buffer = length-replicate {A = ℕ} max_protocol_message_length 0;
}

-- Reading a message of the size of the buffer is defined, and keeps the sizes.
record Read (buffer : List ℕ) (m : DataMessage) : Type 0 where
  result : DataMessage
  returns : net_to_data buffer (length buffer) m ≡ some result
  fresh : result.header_length ≡ 49
  array : length result.payload ≡ payload_capacity

net_to_data-Read :
    (buffer : List ℕ) (m : DataMessage)
    → length buffer ≡ max_protocol_message_length
    → m.header_length ≡ 49
    → length m.payload ≡ payload_capacity
    → Read buffer m
unfolding net_to_data read_members
net_to_data-Read buffer m n fresh array =
    let size : length buffer % 2 ^ 32 ≡ 1427 = omega arith in
    let count : (1427 + 2 ^ 32 - m.header_length) % 2 ^ 32 ≡ 1378 = omega arith in
    let whole : 49 + 1378 ≤ length buffer = omega arith in
    record {
      result = read_members buffer 1427 1378 m;
      returns = rw (size, count, le→leb _ _ whole) refl;
      fresh = fresh;
      array = omega (
        arith,
        length-splice m.payload 0 (bytes_at 49 1378 buffer),
        length-take 1378 (drop 49 buffer),
        length-drop 49 buffer,
        array,
      );
    }

-- The buffer after a datagram.
abbrev pub landed_in : List ℕ → List ℕ → List ℕ
landed_in buffer bytes = splice buffer 0 (take (length buffer) bytes)

length-landed_in : (buffer bytes : List ℕ) → length (landed_in buffer bytes) ≡ length buffer
length-landed_in buffer bytes =
    omega (
      arith,
      length-splice buffer 0 (take (length buffer) bytes),
      length-take (length buffer) bytes,
    )

-- What the buffer holds of a datagram that starts with a header.
landed_in-header :
    (m : DataMessage) (rest buffer : List ℕ)
    → length buffer ≡ max_protocol_message_length
    → landed_in buffer (data_header m ++ rest)
      ≡ data_header m
        ++ (take 1378 rest
            ++ drop (0 + length (take (length buffer) (data_header m ++ rest))) buffer)
landed_in-header m rest buffer n =
    let size : length buffer ≡ 49 + 1378 = omega arith in
    let tail = drop (0 + length (take (length buffer) (data_header m ++ rest))) buffer in
    ap (λ k. take k (data_header m ++ rest) ++ tail) size
    ∙ ap (λ xs. xs ++ tail) (take_behind (data_header m) rest 49 1378 (length-data_header m))
    ∙ append_assoc (data_header m) (take 1378 rest) tail

clear-sizes :
    (m : DataMessage)
    → length m.payload ≡ payload_capacity
    → length (clear m).payload ≡ payload_capacity
unfolding clear
clear-sizes m array = omega (arith, array, length-splice m.payload 0 (replicate 1 0))

-- A platform that gets through the line for a packet of number 1.
abbrev pub Prints : (Frame → Option String) → Type 0
Prints print_all = (f : Frame) → (text : String) × (print_all f ≡ some text)

module _ (print_all : Frame → Option String) (prints : Prints print_all) where
  -- What a datagram adds to the file for the packets of number 1.
  abbrev pub first_packet_lines : Frame → List String
  first_packet_lines f = if f.received_packet_number == 1 && logging then (prints f).0 ∷ [] else []

  log_first_packet-lines :
      (f : Frame) (s : Sink)
      → log_first_packet print_all f s
        ≡ some (record s { log_all = s.log_all ++ first_packet_lines f })
  unfolding log_first_packet
  log_first_packet-lines f s = by_number (f.received_packet_number == 1 && logging)
    where
      by_number :
          (first : Bool)
          → (if first
              then (print_all f >>= λ text. some (record s { log_all = s.log_all ++ text ∷ [] }))
              else some s)
            ≡ some (record s { log_all = s.log_all ++ (if first then (prints f).0 ∷ [] else []) })
      by_number true = rw (prints f).1 refl
      by_number false = ap (λ l. some (record s { log_all = l })) (sym (append-nil s.log_all))

  -- A turn of the sink and what it writes to its files.
  pub record Receives (s : Sink) (result : Option Sink) : Type 0 where
    pub after : Sink
    pub returns : result ≡ some after
    pub valid : IsSink after
    pub frame : Frame
    pub logs : after.log ≡ s.log ++ lines_of s.local_endpoint_str frame
    pub logs_all : after.log_all ≡ s.log_all ++ first_packet_lines frame

  abbrev read_as : List ℕ → Timespec → Sink → DataMessage → Sink
  read_as bytes time s m = record s {
    data_message = clear m;
    data_message_buffer = landed_in s.data_message_buffer bytes;
    log = s.log ++ lines_of s.local_endpoint_str (frame_of m time);
    log_all = s.log_all ++ first_packet_lines (frame_of m time);
  }

  receive_frame-reads :
      (bytes : List ℕ) (time : Timespec) (s : Sink) (m : DataMessage)
      → net_to_data
          (landed_in s.data_message_buffer bytes)
          (length (landed_in s.data_message_buffer bytes))
          s.data_message
        ≡ some m
      → receive_frame print_all bytes time s ≡ some (read_as bytes time s m)
  unfolding receive_frame
  receive_frame-reads bytes time s m e =
      rw (e, receive_frame) (rw (log_first_packet-lines (frame_of m time) s) refl)

  pub receive_frame-Receives :
      (bytes : List ℕ) (time : Timespec) (s : Sink)
      → IsSink s
      → Receives s (receive_frame print_all bytes time s)
  receive_frame-Receives bytes time s v =
      let buffer = landed_in s.data_message_buffer bytes in
      let size : length buffer ≡ max_protocol_message_length =
        length-landed_in s.data_message_buffer bytes ∙ v.buffer in
      let read = net_to_data-Read buffer s.data_message size v.fresh v.array in
      record {
        after = read_as bytes time s read.result;
        returns = receive_frame-reads bytes time s read.result read.returns;
        valid = record {
          fresh = unfold clear in read.fresh;
          array = clear-sizes read.result read.array;
          buffer = size;
        };
        frame = frame_of read.result time;
        logs = refl;
        logs_all = refl;
      }

  -- A datagram that starts with the header of a data message whose members fit their types is
  -- logged with the numbers of its object and its fragment, its service and its time of sending,
  -- into a sink whatever its buffer held before.
  pub receive_frame-logs :
      (m : DataMessage) (rest : List ℕ) (time : Timespec) (s : Sink)
      → IsDataMessage m
      → IsSink s
      → (s' : Sink) × (receive_frame print_all (data_header m ++ rest) time s ≡ some s')
        × (s'.log ≡ s.log ++ lines_of s.local_endpoint_str (frame_of m time))
        × (s'.log_all ≡ s.log_all ++ first_packet_lines (frame_of m time))
        × (s'.local_endpoint_str ≡ s.local_endpoint_str)
  unfolding frame_of
  receive_frame-logs m rest time s v sink =
      let buffer : List ℕ = s.data_message_buffer in
      let bytes = data_header m ++ rest in
      let tail = take 1378 rest ++ drop (0 + length (take (length buffer) bytes)) buffer in
      let size : length (landed_in buffer bytes) ≡ 1427 =
        length-landed_in buffer bytes ∙ sink.buffer in
      let whole = landed_in-header m rest buffer sink.buffer in
      let there : 1378 ≤ length tail =
        omega (
          arith,
          length-append (data_header m) tail,
          length-data_header m,
          size,
          ap length whole,
        ) in
      let read : net_to_data (landed_in buffer bytes) (length (landed_in buffer bytes))
            s.data_message
          ≡ some (fragment_read m tail s.data_message 1378) =
        ap (λ n. net_to_data (landed_in buffer bytes) n s.data_message) size
        ∙ ap (λ xs. net_to_data xs 1427 s.data_message) whole
        ∙ net_to_data-header m v tail s.data_message 1378 sink.fresh (omega arith) there in
      (_, receive_frame-reads bytes time s _ read, refl, refl, refl)
