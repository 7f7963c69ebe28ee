-- ===== src/Generator/Stopped.antt =====
-- A generator without permission to send.
use application_aware_resour.Prelude.{
  ℕ, ◌≡◌, refl, ap, sym, subst, ◌∙◌, true, false, List, [], ◌∷◌, Option, none, some, ◌>>=◌, if_both,
  ltb, if◌then◌else◌, ltb_ℤ, leb_ℤ, pos, ◌&&◌, ◌+◌,
}
use application_aware_resour.Codec.{Timespec}
use application_aware_resour.Config.{ServiceSettings}
use application_aware_resour.DataMessage.{DataMessage}
use application_aware_resour.Generator.{
  Generator, Parameters, Place, Reading, reached, leave_wait, finish_object, next_packet,
  check_stop, pace, send_objects_dynamic_change, target_time, at,
}
use application_aware_resour.Generator.Notify.{
  TrafficSourceControl, stop, may_send, is_transmission, is_finish_object,
}
use application_aware_resour.Generator.Events.{Event, react, run}
use application_aware_resour.Generator.Packets.{
  step-waiting, step-sending, step-checking, step-pacing, step-closed,
}
use application_aware_resour.Generator.Safety.{defined}
use application_aware_resour.Generator.Invariant.{IsGenerator, step-Safe}

-- The step, if it is defined, puts nothing on the socket and leaves the permission as it is.
abbrev Silent : Generator → Option Generator → Type 0
Silent g none = Unit
Silent g (some g') =
    (g'.thread.sent ≡ g.thread.sent)
    × (g'.control.traffic_generator_control ≡ g.control.traffic_generator_control)

finish_object-Silent :
    (p : Parameters) (s : ServiceSettings) (g : Generator) → Silent g (some (finish_object p s g))
unfolding finish_object
finish_object-Silent p s g =
    let n = g.thread.number_object in
    let next = record g { thread = record g.thread { number_object = n + 1 } } in
    let target = target_time g.thread.local_timestamp s.deadline in
    let kept : Silent g (some g) = (refl, refl) in
    if_both (λ g'. Silent g (some g'))
      (ltb_ℤ (pos 0) p.auto_traffic_termination && leb_ℤ p.auto_traffic_termination (pos n))
      {x = at Place.closed g} kept
      (if_both (λ g'. Silent g (some g')) g.control.stop_thread {x = at Place.closed next}
        {y = at (Place.pacing target) next} kept kept)

not_transmission : (c : TrafficSourceControl) → may_send c ≡ false → is_transmission c ≡ false
not_transmission TrafficSourceControl.thread_transmission e = e
not_transmission TrafficSourceControl.thread_start e = refl
not_transmission TrafficSourceControl.thread_stop e = refl
not_transmission TrafficSourceControl.thread_paused e = refl
not_transmission TrafficSourceControl.thread_transmission_finish_object e = refl
not_transmission TrafficSourceControl.thread_reconfigure e = refl

leave_wait-blocked :
    (p : Parameters) (stamp : ℕ) (g : Generator)
    → may_send g.control.traffic_generator_control ≡ false
    → leave_wait p stamp g ≡ some g
unfolding leave_wait
leave_wait-blocked p stamp g quiet = simp (leave_wait, not_transmission _ quiet)

next_packet-Silent :
    (p : Parameters) (t : Timespec) (m : DataMessage) (remaining number : ℕ) (g : Generator)
    → may_send g.control.traffic_generator_control ≡ false
    → (o : Option ServiceSettings) → g.thread.current_settings_ptr ≡ o
    → Silent g (next_packet p t m remaining number g)
unfolding next_packet
next_packet-Silent p t m remaining number g quiet none e =
    let none_left : next_packet p t m remaining number g ≡ none = simp (next_packet, e) in
    subst (Silent g) (sym none_left) tt
next_packet-Silent p t m remaining number g quiet (some s) e =
    let waits : next_packet p t m remaining number g
        ≡ (if ltb number s.number_packets then some g else some (finish_object p s g)) =
      simp (next_packet, e, quiet) in
    subst (Silent g) (sym waits) (
      if_both (Silent g) (ltb number s.number_packets) {x = some g} {y = some (finish_object p s g)}
        (refl, refl) (finish_object-Silent p s g))

check_stop-Silent :
    (p : Parameters) (m : DataMessage) (remaining number : ℕ) (g : Generator)
    (o : Option ServiceSettings)
    → g.thread.current_settings_ptr ≡ o
    → Silent g (check_stop p m remaining number g)
unfolding check_stop
check_stop-Silent p m remaining number g none e =
    let none_left : check_stop p m remaining number g ≡ none = simp (check_stop, e) in
    subst (Silent g) (sym none_left) tt
check_stop-Silent p m remaining number g (some s) e =
    let goes_on = at (Place.sending m remaining number) g in
    let tests : check_stop p m remaining number g
        ≡ (if g.control.stop_thread then some (finish_object p s g) else some goes_on) =
      simp (check_stop, e) in
    subst (Silent g) (sym tests) (
      if_both (Silent g) g.control.stop_thread {x = some (finish_object p s g)} {y = some goes_on}
        (finish_object-Silent p s g) (refl, refl))

pace-Silent :
    (time_now target : Timespec) (g : Generator) → Silent g (some (pace time_now target g))
unfolding pace
pace-Silent time_now target g =
    let resumed = record g {
      thread = record g.thread { local_timestamp = target; place = Place.waiting };
    } in
    if_both (λ g'. Silent g (some g')) (is_finish_object g.control.traffic_generator_control)
      {x = resumed} (refl, refl)
      (if_both (λ g'. Silent g (some g')) (reached time_now target) {x = resumed} {y = g}
        (refl, refl) (refl, refl))

step-Silent :
    (p : Parameters) (reading : Reading) (g : Generator)
    → may_send g.control.traffic_generator_control ≡ false
    → Silent g (send_objects_dynamic_change p reading g)
unfolding send_objects_dynamic_change
step-Silent p reading g quiet = by_place g.thread.place refl
  where
    step : Option Generator
    step = send_objects_dynamic_change p reading g

    as_step : (o : Option Generator) → step ≡ o → Silent g o → Silent g step
    as_step o e h = subst (Silent g) (sym e) h

    by_place : (place : Place) → g.thread.place ≡ place → Silent g step
    by_place Place.waiting e =
        as_step _ (step-waiting p reading g e ∙ leave_wait-blocked p reading.stamp g quiet)
          (refl, refl)
    by_place (Place.sending m remaining number) e =
        as_step _ (step-sending p reading g m remaining number e)
          (next_packet-Silent p reading.time_now m remaining number g quiet _ refl)
    by_place (Place.checking m remaining number) e =
        as_step _ (step-checking p reading g m remaining number e)
          (check_stop-Silent p m remaining number g _ refl)
    by_place (Place.pacing target) e =
        as_step _ (step-pacing p reading g target e) (pace-Silent reading.time_now target g)
    by_place Place.closed e = as_step _ (step-closed p reading g e) (refl, refl)

-- The steps of the thread, one for each reading of the clock.
unfoldable pub steps : List Reading → List Event
steps [] = []
steps (reading ∷ rs) = Event.runs reading ∷ steps rs

-- A generator that may neither transmit nor finish its object, which is the case when it is paused
-- or stopped, puts nothing on the socket, however long its thread runs, wherever its thread is, and
-- the thread does go on running.
pub quiet-sends_nothing :
    (p : Parameters) (rs : List Reading) (g : Generator)
    → IsGenerator g
    → may_send g.control.traffic_generator_control ≡ false
    → (g' : Generator) × (run p (steps rs) g ≡ some g') × (g'.thread.sent ≡ g.thread.sent)
unfolding steps run react
quiet-sends_nothing p [] g v quiet = (g, refl, refl)
quiet-sends_nothing p (reading ∷ rs) g v quiet =
    let (g1, e, v1) = defined _ (step-Safe p reading g v) in
    let (same, kept) = subst (Silent g) e (step-Silent p reading g quiet) in
    let (g', run_rest, sent) = quiet-sends_nothing p rs g1 v1 (ap may_send kept ∙ quiet) in
    (g', ap (λ o. o >>= run p (steps rs)) e ∙ run_rest, sent ∙ same)

waits :
    (p : Parameters) (rs : List Reading) (g : Generator)
    → g.thread.place ≡ Place.waiting
    → may_send g.control.traffic_generator_control ≡ false
    → run p (steps rs) g ≡ some g
unfolding steps run react
waits p [] g here quiet = refl
waits p (reading ∷ rs) g here quiet =
    ap (λ o. o >>= run p (steps rs))
      (step-waiting p reading g here ∙ leave_wait-blocked p reading.stamp g quiet)
    ∙ waits p rs g here quiet

-- A thread that waits for an object when stop is called never gets to its end, however long it
-- runs: stop takes the permission away that the wait is for, so that its join does not return.
pub stop-blocks :
    (p : Parameters) (rs : List Reading) (g : Generator)
    → g.thread.place ≡ Place.waiting
    → (g' : Generator) × (run p (Event.stops ∷ steps rs) g ≡ some g')
      × (g'.thread.place ≡ Place.waiting)
      × (g'.control.stop_thread ≡ true)
unfolding run react stop
stop-blocks p rs g here =
    let g' = record g { control = stop g.control } in (g', waits p rs g' here refl, here, refl)
