-- ===== src/Generator/Packets.antt =====
-- One packet: what the generator puts on the socket, and what it keeps.
use application_aware_resour.Prelude.{
  ℕ, zero, suc, ◌+◌, ◌-◌, ◌%◌, ◌^◌, ◌≤◌, ◌<◌, ◌≡◌, refl, ap, ◌∙◌, sym, min, true, false, List, [],
  ◌∷◌, ◌++◌, Option, some, arith, length, take, drop, length-append, length-take, length-drop,
  length-replicate, take-take, append_assoc, lt→ltb, replicate,
}
use application_aware_resour.Codec.{Timespec}
use application_aware_resour.Config.{ServiceSettings}
use application_aware_resour.Channel.{Endpoint, Datagram}
use application_aware_resour.DataMessage.{
  DataMessage, payload_capacity, data_header, set_timestamp, set_payload_size, set_packet_number,
}
use application_aware_resour.DataMessage.Fragments.{data_to_net-image}
use application_aware_resour.DataMessage.Header.{length-data_header}
use application_aware_resour.Generator.{
  Generator, Parameters, Place, Reading, send_packet, next_packet, check_stop, leave_wait, pace,
  send_objects_dynamic_change, grow, overwrite, max_protocol_message_length, at,
}
use application_aware_resour.Generator.Notify.{may_send}

pub grow-room : (size : ℕ) (buffer : List ℕ) → size ≤ length (grow size buffer)
unfolding grow
grow-room size buffer = ground (
  arith,
  length-append buffer (replicate (size - length buffer) 0),
  length-replicate {A = ℕ} (size - length buffer) 0,
)

length-overwrite : (image buffer : List ℕ) → length (overwrite image buffer) ≡ length buffer
length-overwrite image buffer = omega (
  arith,
  length-take (length buffer) (image ++ drop (length image) buffer),
  length-append image (drop (length image) buffer),
  length-drop (length image) buffer,
)

pub take_behind :
    (xs ys : List ℕ) (n k : ℕ) → length xs ≡ n → take (n + k) (xs ++ ys) ≡ xs ++ take k ys
take_behind [] ys n k e = let e' : n + k ≡ k = omega arith in ap (λ j. take j ys) e'
take_behind (x ∷ xs) ys zero k e = absurd (omega arith)
take_behind (x ∷ xs) ys (suc n) k e =
    let e' : suc n + k ≡ suc (n + k) = omega arith in
    ap (λ j. take j (x ∷ (xs ++ ys))) e' ∙ ap (λ zs. x ∷ zs) (take_behind xs ys n k (omega arith))

-- The first `49 + k` bytes of what the vector holds after the write are the header and `k` more.
datagram-header :
    (m : DataMessage) (used buffer : List ℕ) (k : ℕ)
    → 49 + k ≤ length buffer
    → take (49 + k) (overwrite (data_header m ++ used) buffer)
      ≡ data_header m ++ take k (used ++ drop (length (data_header m ++ used)) buffer)
datagram-header m used buffer k room =
    let rest = used ++ drop (length (data_header m ++ used)) buffer in
    take-take (49 + k) (length buffer) _ room
    ∙ ap (take (49 + k)) (append_assoc (data_header m) used _)
    ∙ take_behind (data_header m) rest 49 k (length-data_header m)

-- A message in work: its payload lies in its array, its datagrams hold the header, and the buffer
-- holds the datagram.
pub record InWork (m : DataMessage) (buffer : List ℕ) : Type 0 where
  pub bounded : m.payload_length ≤ payload_capacity
  pub header : 49 ≤ m.length
  pub room : m.length ≤ length buffer

-- The datagram of the fragment `i` of the message: the header with that number and the time of
-- sending, and bytes behind it; it is as long as the message says.
pub record IsFragment (m : DataMessage) (endpoint : Endpoint) (i : ℕ) (time_send : Timespec)
    (d : Datagram) : Type 0 where
  pub goes_to : d.target ≡ endpoint
  pub rest : List ℕ
  pub bytes :
      d.bytes ≡ data_header (record m { fragment_number = i; timestamp = time_send }) ++ rest
  pub count : length d.bytes ≡ m.length

-- The fragments from `i` on, in this order, with the times of their sending.
abbrev pub Fragments : DataMessage → Endpoint → ℕ → List Timespec → List Datagram → Type 0
Fragments m endpoint i [] [] = Unit
Fragments m endpoint i (t ∷ ts) (d ∷ ds) =
    IsFragment m endpoint i t d × Fragments m endpoint (i + 1) ts ds
Fragments m endpoint i [] (d ∷ ds) = ⊥
Fragments m endpoint i (t ∷ ts) [] = ⊥

-- The message after a packet
abbrev pub next_message : Timespec → ℕ → ℕ → DataMessage → DataMessage
next_message t remaining number m = record m {
  timestamp = t;
  payload_length = min remaining max_protocol_message_length % 2 ^ 32;
  fragment_number = number;
}

-- What sending the packet `i` leaves.
pub record Sends (t : Timespec) (m : DataMessage) (remaining i : ℕ) (g : Generator)
    (result : Option Generator) : Type 0 where
  pub buffer : List ℕ
  pub datagram : Datagram
  pub returns :
      result
      ≡ some (record g {
        thread = record g.thread {
          time_send = t;
          data_message_buffer = buffer;
          place =
              Place.checking
                (next_message t remaining (i + 1) m)
                (remaining - min remaining max_protocol_message_length)
                (i + 1);
          sent = g.thread.sent ++ datagram ∷ [];
        };
      })
  pub fragment : IsFragment m g.thread.traffic_endpoint_target_new i t datagram
  pub works : InWork (next_message t remaining (i + 1) m) buffer

pub send_packet-Sends :
    (t : Timespec) (m : DataMessage) (remaining i : ℕ) (g : Generator)
    → i < 2 ^ 32 - 1
    → m.fragment_number ≡ i
    → InWork m g.thread.data_message_buffer
    → Sends t m remaining i g (send_packet t m remaining i g)
unfolding send_packet set_timestamp set_payload_size set_packet_number
send_packet-Sends t m remaining i g small here w =
    let stamped = record m { timestamp = t } in
    let old = g.thread.data_message_buffer in
    let used = take m.payload_length m.payload in
    let buffer = overwrite (data_header stamped ++ used) old in
    let number : (i + 1) % 2 ^ 32 ≡ i + 1 = omega arith in
    let k = m.length - 49 in
    let rest = take k (used ++ drop (length (data_header stamped ++ used)) old) in
    let count : 49 + k ≡ m.length = omega (arith, w.header) in
    let room : length buffer ≡ length old = length-overwrite (data_header stamped ++ used) old in
    record {
      buffer = grow m.length buffer;
      datagram = record {
        target = g.thread.traffic_endpoint_target_new;
        bytes = take m.length buffer;
      };
      returns = rw (send_packet, data_to_net-image stamped w.bounded, number) refl;
      fragment = record {
        goes_to = refl;
        rest = rest;
        bytes =
            ap (λ j. take j buffer) (sym count)
            ∙ datagram-header stamped used old k (omega (arith, w.room))
            ∙ ap (λ j. data_header (record stamped { fragment_number = j }) ++ rest) here;
        count = omega (arith, length-take m.length buffer, w.room);
      };
      works = record { bounded = omega arith; header = w.header; room = grow-room m.length buffer };
    }

pub next_packet-sends :
    (p : Parameters) (t : Timespec) (m : DataMessage) (remaining i : ℕ) (g : Generator)
    (s : ServiceSettings)
    → g.thread.current_settings_ptr ≡ some s
    → i < s.number_packets
    → may_send g.control.traffic_generator_control ≡ true
    → next_packet p t m remaining i g ≡ send_packet t m remaining i g
unfolding next_packet
next_packet-sends p t m remaining i g s e more permitted =
    simp (next_packet, e, lt→ltb _ _ more, permitted)

pub check_stop-goes_on :
    (p : Parameters) (m : DataMessage) (remaining i : ℕ) (g : Generator) (s : ServiceSettings)
    → g.thread.current_settings_ptr ≡ some s
    → g.control.stop_thread ≡ false
    → check_stop p m remaining i g ≡ some (at (Place.sending m remaining i) g)
unfolding check_stop
check_stop-goes_on p m remaining i g s e stopped = simp (check_stop, e, stopped)

pub step-sending :
    (p : Parameters) (reading : Reading) (g : Generator) (m : DataMessage) (remaining i : ℕ)
    → g.thread.place ≡ Place.sending m remaining i
    → send_objects_dynamic_change p reading g ≡ next_packet p reading.time_now m remaining i g
unfolding send_objects_dynamic_change
step-sending p reading g m remaining i e = simp (send_objects_dynamic_change, e)

pub step-checking :
    (p : Parameters) (reading : Reading) (g : Generator) (m : DataMessage) (remaining i : ℕ)
    → g.thread.place ≡ Place.checking m remaining i
    → send_objects_dynamic_change p reading g ≡ check_stop p m remaining i g
unfolding send_objects_dynamic_change
step-checking p reading g m remaining i e = simp (send_objects_dynamic_change, e)

pub step-waiting :
    (p : Parameters) (reading : Reading) (g : Generator)
    → g.thread.place ≡ Place.waiting
    → send_objects_dynamic_change p reading g ≡ leave_wait p reading.stamp g
unfolding send_objects_dynamic_change
step-waiting p reading g e = simp (send_objects_dynamic_change, e)

pub step-pacing :
    (p : Parameters) (reading : Reading) (g : Generator) (target : Timespec)
    → g.thread.place ≡ Place.pacing target
    → send_objects_dynamic_change p reading g ≡ some (pace reading.time_now target g)
unfolding send_objects_dynamic_change
step-pacing p reading g target e = simp (send_objects_dynamic_change, e)

pub step-closed :
    (p : Parameters) (reading : Reading) (g : Generator)
    → g.thread.place ≡ Place.closed
    → send_objects_dynamic_change p reading g ≡ some g
unfolding send_objects_dynamic_change
step-closed p reading g e = simp (send_objects_dynamic_change, e)
