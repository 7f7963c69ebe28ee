-- ===== src/Generator/Unknown.antt =====
-- A mode without settings.
use application_aware_resour.Prelude.{
  ℕ, ◌≡◌, refl, ap, ◌∙◌, true, false, List, [], ◌∷◌, none, some, ◌==◌, ◌>>=◌,
}
use application_aware_resour.Map.{find}
use application_aware_resour.Generator.{
  Generator, Parameters, Place, Reading, at, enter_mode, leave_wait,
}
use application_aware_resour.Generator.Notify.{is_transmission}
use application_aware_resour.Generator.Events.{react, run}
use application_aware_resour.Generator.Packets.{step-waiting, step-closed}
use application_aware_resour.Generator.Stopped.{steps}

leave_wait-unknown :
    (p : Parameters) (stamp : ℕ) (g : Generator)
    → is_transmission g.control.traffic_generator_control ≡ true
    → (g.thread.current_mode == g.control.mode_global) ≡ false
    → find g.control.mode_global p.service_settings_struct ≡ none
    → leave_wait p stamp g
      ≡ some (
          at Place.closed
            (record g { thread = record g.thread { current_mode = g.control.mode_global } }))
unfolding leave_wait enter_mode find
leave_wait-unknown p stamp g sends new e = simp (leave_wait, sends, new, enter_mode, e)

stays_closed :
    (p : Parameters) (rs : List Reading) (g : Generator)
    → g.thread.place ≡ Place.closed
    → run p (steps rs) g ≡ some g
unfolding run react steps
stays_closed p [] g here = refl
stays_closed p (reading ∷ rs) g here =
    ap (λ o. o >>= run p (steps rs)) (step-closed p reading g here) ∙ stays_closed p rs g here

-- A synchronous generator that waits and is told to transmit in a mode without settings leaves its
-- loop for good: it has sent nothing, and sends nothing afterwards, however long it runs.
pub unknown_mode-closes :
    (p : Parameters) (reading : Reading) (rs : List Reading) (g : Generator)
    → g.thread.place ≡ Place.waiting
    → is_transmission g.control.traffic_generator_control ≡ true
    → (g.thread.current_mode == g.control.mode_global) ≡ false
    → find g.control.mode_global p.service_settings_struct ≡ none
    → (g' : Generator) × (run p (steps (reading ∷ rs)) g ≡ some g')
      × (g'.thread.place ≡ Place.closed)
      × (g'.thread.sent ≡ g.thread.sent)
unfolding run react steps
unknown_mode-closes p reading rs g here sends new e =
    let g' =
      at Place.closed
        (record g { thread = record g.thread { current_mode = g.control.mode_global } }) in
    (
      g',
      ap (λ o. o >>= run p (steps rs))
            (step-waiting p reading g here ∙ leave_wait-unknown p reading.stamp g sends new e)
          ∙ stays_closed p rs g' refl,
      refl,
      refl,
    )
