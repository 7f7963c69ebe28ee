-- ===== src/Generator/Objects.antt =====
-- The packets of one object, from the wait before it to the test that ends it.
use application_aware_resour.Prelude.{
  ℕ, ◌+◌, ◌-◌, ◌^◌, ◌≤◌, ◌<◌, ◌≡◌, refl, ap, ◌∙◌, sym, min, true, false, List, [], ◌∷◌, ◌++◌,
  Option, some, arith, length, append_assoc, append-nil, ◌>>=◌, ◌==◌,
}
use application_aware_resour.Codec.{Timespec}
use application_aware_resour.Map.{find}
use application_aware_resour.Config.{ServiceSettings}
use application_aware_resour.Channel.{Endpoint, Datagram}
use application_aware_resour.DataMessage.{DataMessage, timed_data_message}
use application_aware_resour.Generator.{
  Generator, Parameters, Place, object_message, adopt, enter_mode, leave_wait, Reading,
  begin_object, send_packet, grow, object_bytes, max_protocol_message_length, at,
}
use application_aware_resour.Generator.Notify.{TrafficSourceControl, is_transmission, may_send}
use application_aware_resour.Generator.Events.{Event, react, run}
use application_aware_resour.Generator.Packets.{
  InWork, Fragments, next_message, send_packet-Sends, next_packet-sends, check_stop-goes_on,
  step-sending, step-checking, step-waiting, grow-room,
}

-- Two steps for a packet: before it and behind it.
unfoldable pub turns : List (Reading × Reading) → List Event
turns [] = []
turns ((before, behind) ∷ rest) = Event.runs before ∷ Event.runs behind ∷ turns rest

-- The readings in front of the packets
abbrev pub times_of : List (Reading × Reading) → List Timespec
times_of [] = []
times_of ((before, behind) ∷ rest) = before.time_now ∷ times_of rest

same-Fragments :
    (t : Timespec) (m : DataMessage) (remaining number : ℕ) (endpoint : Endpoint) (i : ℕ)
    (ts : List Timespec) (ds : List Datagram)
    → Fragments (next_message t remaining number m) endpoint i ts ds
    → Fragments m endpoint i ts ds
same-Fragments t m remaining number endpoint i [] [] f = f
same-Fragments t m remaining number endpoint i [] (d ∷ ds) f = f
same-Fragments t m remaining number endpoint i (time ∷ ts) [] f = f
same-Fragments t m remaining number endpoint i (time ∷ ts) (d ∷ ds) (f, fs) = (
  record { goes_to = f.goes_to; rest = f.rest; bytes = f.bytes; count = f.count },
  same-Fragments t m remaining number endpoint (i + 1) ts ds fs,
)

-- The generator has put the fragments from `i` to the last one on the socket, and is in front of
-- the test that ends the object; nothing else but its message and its buffer has changed.
pub record SendsObject (m : DataMessage) (i n : ℕ) (times : List Timespec) (g : Generator)
    (result : Option Generator) : Type 0 where
  pub after : Generator
  pub returns : result ≡ some after
  pub packets : List Datagram
  pub sends : after.thread.sent ≡ g.thread.sent ++ packets
  pub count : i + length packets ≡ n
  pub fragments : Fragments m g.thread.traffic_endpoint_target_new i times packets
  pub last : DataMessage
  pub left : ℕ
  pub place : after.thread.place ≡ Place.sending last left n
  pub control : after.control ≡ g.control
  pub settings : after.thread.current_settings_ptr ≡ g.thread.current_settings_ptr

packet_turn :
    (p : Parameters) (before behind : Reading) (events : List Event) (g : Generator)
    (m : DataMessage) (remaining i : ℕ) (s : ServiceSettings) (g' : Generator) (m' : DataMessage)
    (remaining' i' : ℕ)
    → g.thread.place ≡ Place.sending m remaining i
    → g.thread.current_settings_ptr ≡ some s
    → may_send g.control.traffic_generator_control ≡ true
    → i < s.number_packets
    → send_packet before.time_now m remaining i g ≡ some g'
    → g'.thread.place ≡ Place.checking m' remaining' i'
    → g'.thread.current_settings_ptr ≡ some s
    → g'.control.stop_thread ≡ false
    → run p (Event.runs before ∷ Event.runs behind ∷ events) g
      ≡ run p events (at (Place.sending m' remaining' i') g')
unfolding run react
packet_turn p before behind events g m remaining i s g' m' remaining' i' here e permitted more sends
      there e' goes =
    let first : react p (Event.runs before) g ≡ some g' =
      step-sending p before g m remaining i here
      ∙ next_packet-sends p before.time_now m remaining i g s e more permitted
      ∙ sends in
    let second : react p (Event.runs behind) g' ≡ some (at (Place.sending m' remaining' i') g') =
      step-checking p behind g' m' remaining' i' there
      ∙ check_stop-goes_on p m' remaining' i' g' s e' goes in
    ap (λ o. o >>= run p (Event.runs behind ∷ events)) first ∙ ap (λ o. o >>= run p events) second

turns-SendsObject :
    (p : Parameters) (s : ServiceSettings) (rs : List (Reading × Reading)) (m : DataMessage)
    (remaining i : ℕ) (g : Generator)
    → s.number_packets < 2 ^ 32
    → i + length rs ≡ s.number_packets
    → g.thread.place ≡ Place.sending m remaining i
    → g.thread.current_settings_ptr ≡ some s
    → may_send g.control.traffic_generator_control ≡ true
    → g.control.stop_thread ≡ false
    → m.fragment_number ≡ i
    → InWork m g.thread.data_message_buffer
    → SendsObject m i s.number_packets (times_of rs) g (run p (turns rs) g)
unfolding turns run
turns-SendsObject p s [] m remaining i g small n here e permitted goes number w = record {
  after = g;
  returns = refl;
  packets = [];
  sends = sym (append-nil g.thread.sent);
  count = n;
  fragments = tt;
  last = m;
  left = remaining;
  place = here ∙ ap (Place.sending m remaining) (omega arith);
  control = refl;
  settings = refl;
}
turns-SendsObject p s ((before, behind) ∷ rs) m remaining i g small n here e permitted goes number
      w =
    let one = send_packet-Sends before.time_now m remaining i g (omega arith) number w in
    let m' = next_message before.time_now remaining (i + 1) m in
    let left = remaining - min remaining max_protocol_message_length in
    let g' = record g {
      thread = record g.thread {
        time_send = before.time_now;
        data_message_buffer = one.buffer;
        place = Place.sending m' left (i + 1);
        sent = g.thread.sent ++ one.datagram ∷ [];
      };
    } in
    let rest =
      turns-SendsObject p s rs m' left (i + 1) g' small (omega arith) refl e permitted goes refl
        one.works in
    record {
      after = rest.after;
      returns =
          packet_turn p before behind (turns rs) g m remaining i s _ m' left (i + 1) here e
            permitted (omega arith) one.returns refl e goes
          ∙ rest.returns;
      packets = one.datagram ∷ rest.packets;
      sends = rest.sends ∙ append_assoc g.thread.sent (one.datagram ∷ []) rest.packets;
      count = omega (arith, rest.count);
      fragments = (
        one.fragment,
        same-Fragments before.time_now m remaining (i + 1) g.thread.traffic_endpoint_target_new
            (i + 1) (times_of rs) rest.packets rest.fragments,
      );
      last = rest.last;
      left = rest.left;
      place = rest.place;
      control = rest.control;
      settings = rest.settings;
    }

pub begin_object-begins :
    (p : Parameters) (stamp : ℕ) (g : Generator) (s : ServiceSettings)
    → g.thread.current_settings_ptr ≡ some s
    → begin_object p stamp g
      ≡ some (record g {
        thread = record g.thread {
          data_message_buffer =
              grow (object_message p stamp s g).length g.thread.data_message_buffer;
          place = Place.sending (object_message p stamp s g) (object_bytes s) 0;
        };
      })
unfolding begin_object
begin_object-begins p stamp g s e = simp (begin_object, e)

object_message-InWork :
    (p : Parameters) (stamp : ℕ) (s : ServiceSettings) (g : Generator)
    → 8 ≤ object_bytes s
    → InWork
        (object_message p stamp s g)
        (grow (object_message p stamp s g).length g.thread.data_message_buffer)
unfolding object_message timed_data_message
object_message-InWork p stamp s g full = record {
  bounded = omega arith;
  header = omega (arith, full);
  room = grow-room (object_message p stamp s g).length g.thread.data_message_buffer;
}

leave_wait-new_mode :
    (p : Parameters) (stamp : ℕ) (g : Generator) (s : ServiceSettings)
    → is_transmission g.control.traffic_generator_control ≡ true
    → (g.thread.current_mode == g.control.mode_global) ≡ false
    → find g.control.mode_global p.service_settings_struct ≡ some s
    → leave_wait p stamp g ≡ begin_object p stamp (adopt p g.control.mode_global s g)
unfolding leave_wait enter_mode find
leave_wait-new_mode p stamp g s sends new e = simp (leave_wait, sends, new, enter_mode, e)

transmission-may_send : (c : TrafficSourceControl) → is_transmission c ≡ true → may_send c ≡ true
transmission-may_send TrafficSourceControl.thread_transmission e = refl
transmission-may_send TrafficSourceControl.thread_start e = e
transmission-may_send TrafficSourceControl.thread_stop e = e
transmission-may_send TrafficSourceControl.thread_paused e = e
transmission-may_send TrafficSourceControl.thread_transmission_finish_object e = refl
transmission-may_send TrafficSourceControl.thread_reconfigure e = e

-- A whole object of the settings went out, and the generator is in front of the test that ends it.
pub record SendsWhole (p : Parameters) (stamp : ℕ) (s : ServiceSettings) (times : List Timespec)
    (g : Generator) (result : Option Generator) : Type 0 where
  pub after : Generator
  pub returns : result ≡ some after
  pub packets : List Datagram
  pub sends : after.thread.sent ≡ g.thread.sent ++ packets
  pub count : length packets ≡ s.number_packets
  pub fragments :
      Fragments (object_message p stamp s g) (p.resolve s.ip_address s.port) 0 times packets
  pub last : DataMessage
  pub left : ℕ
  pub place : after.thread.place ≡ Place.sending last left s.number_packets

-- A generator that waits and is told to transmit in another mode than its last one, and is told
-- nothing else meanwhile, sends an object of that mode: to the address of the mode, with as many
-- packets as the mode has, numbered from 0 on without a gap, each with the reading of the clock in
-- front of it as the time of its sending and of the size that the message says. The object has at
-- least 8 bytes and fewer than 2^32 packets.
pub new_mode-SendsWhole :
    (p : Parameters) (reading : Reading) (rs : List (Reading × Reading)) (g : Generator)
    (s : ServiceSettings)
    → g.thread.place ≡ Place.waiting
    → is_transmission g.control.traffic_generator_control ≡ true
    → g.control.stop_thread ≡ false
    → (g.thread.current_mode == g.control.mode_global) ≡ false
    → find g.control.mode_global p.service_settings_struct ≡ some s
    → length rs ≡ s.number_packets
    → s.number_packets < 2 ^ 32
    → 8 ≤ object_bytes s
    → SendsWhole p reading.stamp s (times_of rs) g (run p (Event.runs reading ∷ turns rs) g)
unfolding run react adopt object_message timed_data_message
new_mode-SendsWhole p reading rs g s here sends goes new e n small full =
    let g1 = adopt p g.control.mode_global s g in
    let m = object_message p reading.stamp s g in
    let g2 = record g1 {
      thread = record g1.thread {
        data_message_buffer = grow m.length g.thread.data_message_buffer;
        place = Place.sending m (object_bytes s) 0;
      };
    } in
    let begun : react p (Event.runs reading) g ≡ some g2 =
      step-waiting p reading g here
      ∙ leave_wait-new_mode p reading.stamp g s sends new e
      ∙ begin_object-begins p reading.stamp g1 s refl in
    let rest =
      turns-SendsObject p s rs m (object_bytes s) 0 g2 small (omega (arith, n)) refl refl
        (transmission-may_send _ sends) goes refl
        (object_message-InWork p reading.stamp s g full) in
    record {
      after = rest.after;
      returns = ap (λ o. o >>= run p (turns rs)) begun ∙ rest.returns;
      packets = rest.packets;
      sends = rest.sends;
      count = omega (arith, rest.count);
      fragments = rest.fragments;
      last = rest.last;
      left = rest.left;
      place = rest.place;
    }
