-- ===== src/Generator/Invariant.antt =====
-- The invariant of the generator, and that every step of the sending thread is defined and keeps it.
use application_aware_resour.Prelude.{
  ℕ, ◌+◌, ◌≤◌, ◌<◌, ◌≡◌, refl, subst, Bool, true, false, Option, none, some, arith, le→leb, if_both,
  ltb_ℤ, leb_ℤ, pos, ◌&&◌, ==_iff, ltb, ◌==◌, if◌then◌else◌,
}
use application_aware_resour.Codec.{Timespec}
use application_aware_resour.Map.{find}
use application_aware_resour.Config.{ServiceSettings}
use application_aware_resour.DataMessage.{
  DataMessage, payload_capacity, timed_data_message, data_to_net, set_timestamp, set_payload_size,
  set_packet_number,
}
use application_aware_resour.Generator.{
  Generator, Place, Parameters, Reading, begin_object, enter_mode, adopt, at, leave_wait,
  finish_object, send_packet, next_packet, check_stop, pace, send_objects_dynamic_change, reached,
  object_message, target_time,
}
use application_aware_resour.Generator.Notify.{may_send, is_transmission, is_finish_object}

-- No mode has the number that the thread starts with.
abbrev pub no_mode : ℕ
no_mode = 0xffff_ffff

-- Settings are missing only at the first wait and behind the loop, and the payload of a message in
-- work fits its array.
abbrev pub IsPlace : ℕ → Option ServiceSettings → Place → Type 0
IsPlace mode none Place.waiting = mode ≡ no_mode
IsPlace mode none (Place.sending m remaining number) = ⊥
IsPlace mode none (Place.checking m remaining number) = ⊥
IsPlace mode none (Place.pacing target) = ⊥
IsPlace mode none Place.closed = Unit
IsPlace mode (some s) Place.waiting = Unit
IsPlace mode (some s) (Place.sending m remaining number) = m.payload_length ≤ payload_capacity
IsPlace mode (some s) (Place.checking m remaining number) = m.payload_length ≤ payload_capacity
IsPlace mode (some s) (Place.pacing target) = Unit
IsPlace mode (some s) Place.closed = Unit

pub record IsGenerator (g : Generator) : Type 0 where
  pub mode : g.control.mode_global < no_mode
  pub place : IsPlace g.thread.current_mode g.thread.current_settings_ptr g.thread.place

-- The step is defined, and keeps the invariant.
abbrev pub Safe : Option Generator → Type 0
Safe none = ⊥
Safe (some g) = IsGenerator g

begin_object-Safe :
    (p : Parameters) (stamp : ℕ) (g : Generator) (s : ServiceSettings)
    → g.control.mode_global < no_mode
    → g.thread.current_settings_ptr ≡ some s
    → Safe (begin_object p stamp g)
unfolding begin_object object_message timed_data_message
begin_object-Safe p stamp g s m e = rw e (record { mode = m; place = omega arith })

closed-IsPlace : (mode : ℕ) (o : Option ServiceSettings) → IsPlace mode o Place.closed
closed-IsPlace mode none = tt
closed-IsPlace mode (some s) = tt

enter_mode-Safe :
    (p : Parameters) (stamp : ℕ) (g : Generator)
    → g.control.mode_global < no_mode
    → Safe (enter_mode p stamp g)
unfolding enter_mode adopt find
enter_mode-Safe p stamp g m =
    by_settings (find g.control.mode_global p.service_settings_struct) refl
  where
    by_settings :
        (o : Option ServiceSettings)
        → find g.control.mode_global p.service_settings_struct ≡ o
        → Safe (enter_mode p stamp g)
    by_settings none e =
        rw (Safe, e) (record { mode = m; place = closed-IsPlace _ g.thread.current_settings_ptr })
    by_settings (some s) e =
        rw (Safe, e) (begin_object-Safe p stamp (adopt p g.control.mode_global s g) s m refl)

some_settings :
    (mode : ℕ) (o : Option ServiceSettings)
    → IsPlace mode o Place.waiting
    → mode < no_mode
    → (s : ServiceSettings) × (o ≡ some s)
some_settings mode none e m = absurd (omega arith)
some_settings mode (some s) e m = (s, refl)

leave_wait-Safe :
    (p : Parameters) (stamp : ℕ) (g : Generator)
    → IsGenerator g
    → g.thread.place ≡ Place.waiting
    → Safe (leave_wait p stamp g)
unfolding leave_wait
leave_wait-Safe p stamp g v here =
    by_tests (is_transmission g.control.traffic_generator_control)
      (g.thread.current_mode == g.control.mode_global) refl refl
  where
    by_tests :
        (sends same : Bool)
        → is_transmission g.control.traffic_generator_control ≡ sends
        → (g.thread.current_mode == g.control.mode_global) ≡ same
        → Safe (leave_wait p stamp g)
    by_tests false same e f = rw (Safe, e) v
    by_tests true false e f = rw (Safe, e, f) (enter_mode-Safe p stamp g v.mode)
    by_tests true true e f =
        let there =
          subst (IsPlace g.thread.current_mode g.thread.current_settings_ptr) here v.place in
        let (s, h) = some_settings _ _ there (omega (arith, (==_iff _ _).0 f, v.mode)) in
        rw (Safe, e, f) (begin_object-Safe p stamp g s v.mode h)

finish_object-IsGenerator :
    (p : Parameters) (s : ServiceSettings) (g : Generator)
    → g.control.mode_global < no_mode
    → g.thread.current_settings_ptr ≡ some s
    → IsGenerator (finish_object p s g)
unfolding finish_object
finish_object-IsGenerator p s g m e =
    let n = g.thread.number_object in
    let next = record g { thread = record g.thread { number_object = n + 1 } } in
    let target = target_time g.thread.local_timestamp s.deadline in
    let ends = closed-IsPlace g.thread.current_mode g.thread.current_settings_ptr in
    let last : IsGenerator (at Place.closed g) = record { mode = m; place = ends } in
    let stopped : IsGenerator (at Place.closed next) = record { mode = m; place = ends } in
    let paced : IsGenerator (at (Place.pacing target) next) = record {
      mode = m;
      place = rw e tt;
    } in
    if_both IsGenerator
      (ltb_ℤ (pos 0) p.auto_traffic_termination && leb_ℤ p.auto_traffic_termination (pos n)) last
      (if_both IsGenerator g.control.stop_thread stopped paced)

send_packet-Safe :
    (time_send : Timespec) (message : DataMessage) (remaining number : ℕ) (g : Generator)
    (s : ServiceSettings)
    → g.control.mode_global < no_mode
    → g.thread.current_settings_ptr ≡ some s
    → message.payload_length ≤ payload_capacity
    → Safe (send_packet time_send message remaining number g)
unfolding send_packet data_to_net set_timestamp set_payload_size set_packet_number
send_packet-Safe time_send message remaining number g s m e fits =
    rw (le→leb _ _ fits, Safe) (record { mode = m; place = rw e (omega arith) })

next_packet-Safe :
    (p : Parameters) (time_send : Timespec) (message : DataMessage) (remaining number : ℕ)
    (g : Generator) (s : ServiceSettings)
    → IsGenerator g
    → g.thread.current_settings_ptr ≡ some s
    → message.payload_length ≤ payload_capacity
    → Safe (next_packet p time_send message remaining number g)
unfolding next_packet
next_packet-Safe p time_send message remaining number g s v e fits =
    rw (Safe, e)
      (if_both Safe (ltb number s.number_packets)
        {x = if may_send g.control.traffic_generator_control
          then send_packet time_send message remaining number g
          else some g}
        {y = some (finish_object p s g)}
        (if_both Safe (may_send g.control.traffic_generator_control)
          {x = send_packet time_send message remaining number g} {y = some g}
          (send_packet-Safe time_send message remaining number g s v.mode e fits) v)
        (finish_object-IsGenerator p s g v.mode e))

check_stop-Safe :
    (p : Parameters) (message : DataMessage) (remaining number : ℕ) (g : Generator)
    (s : ServiceSettings)
    → IsGenerator g
    → g.thread.current_settings_ptr ≡ some s
    → message.payload_length ≤ payload_capacity
    → Safe (check_stop p message remaining number g)
unfolding check_stop
check_stop-Safe p message remaining number g s v e fits =
    rw (Safe, e)
      (if_both Safe g.control.stop_thread {x = some (finish_object p s g)}
        {y = some (at (Place.sending message remaining number) g)}
        (finish_object-IsGenerator p s g v.mode e) (record { mode = v.mode; place = rw e fits }))

pace-IsGenerator :
    (time_now target : Timespec) (g : Generator)
    → IsGenerator g
    → g.thread.place ≡ Place.pacing target
    → IsGenerator (pace time_now target g)
unfolding pace
pace-IsGenerator time_now target g v here =
    let there = subst (IsPlace g.thread.current_mode g.thread.current_settings_ptr) here v.place in
    let resumed : IsGenerator (record g {
      thread = record g.thread { local_timestamp = target; place = Place.waiting };
    }) =
      record { mode = v.mode; place = resumes g.thread.current_settings_ptr there } in
    if_both IsGenerator (is_finish_object g.control.traffic_generator_control) resumed
      (if_both IsGenerator (reached time_now target) resumed v)
  where
    resumes :
        (o : Option ServiceSettings)
        → IsPlace g.thread.current_mode o (Place.pacing target)
        → IsPlace g.thread.current_mode o Place.waiting
    resumes none h = absurd h
    resumes (some s) h = tt

sending_settings :
    (mode : ℕ) (o : Option ServiceSettings) (m : DataMessage) (remaining number : ℕ)
    → IsPlace mode o (Place.sending m remaining number)
    → (s : ServiceSettings) × (o ≡ some s) × (m.payload_length ≤ payload_capacity)
sending_settings mode none m remaining number h = absurd h
sending_settings mode (some s) m remaining number h = (s, refl, h)

checking_settings :
    (mode : ℕ) (o : Option ServiceSettings) (m : DataMessage) (remaining number : ℕ)
    → IsPlace mode o (Place.checking m remaining number)
    → (s : ServiceSettings) × (o ≡ some s) × (m.payload_length ≤ payload_capacity)
checking_settings mode none m remaining number h = absurd h
checking_settings mode (some s) m remaining number h = (s, refl, h)

pub step-Safe :
    (p : Parameters) (reading : Reading) (g : Generator)
    → IsGenerator g
    → Safe (send_objects_dynamic_change p reading g)
unfolding send_objects_dynamic_change
step-Safe p reading g v = by_place g.thread.place refl
  where
    mode : ℕ
    mode = g.thread.current_mode

    settings : Option ServiceSettings
    settings = g.thread.current_settings_ptr

    by_place :
        (place : Place) → g.thread.place ≡ place → Safe (send_objects_dynamic_change p reading g)
    by_place Place.waiting e = rw (e, Safe) (leave_wait-Safe p reading.stamp g v e)
    by_place (Place.sending message remaining number) e =
        let there = subst (IsPlace mode settings) e v.place in
        let (s, f, fits) = sending_settings mode settings message remaining number there in
        rw (e, Safe) (next_packet-Safe p reading.time_now message remaining number g s v f fits)
    by_place (Place.checking message remaining number) e =
        let there = subst (IsPlace mode settings) e v.place in
        let (s, f, fits) = checking_settings mode settings message remaining number there in
        rw (e, Safe) (check_stop-Safe p message remaining number g s v f fits)
    by_place (Place.pacing target) e = rw (e, Safe) (pace-IsGenerator reading.time_now target g v e)
    by_place Place.closed e = rw (e, Safe) v
