-- ===== src/Manager/Loops.antt =====
-- When the loop over the iterations of an experiment ends (include/rscmng/rm/net_layer_rm.tpp, the
-- experiment_mode_change methods).
use application_aware_resour.Prelude.{
  ℕ, zero, suc, ◌+◌, ◌%◌, ◌^◌, ◌≤◌, ◌<◌, ◌≡◌, ◌∙◌, ap, refl, arith, Option, some, none, inl, inr,
  Bool, true, false, Bool-cases, Option-cases, ltb, ltb→lt, lt→ltb,
}
use application_aware_resour.Config.{ExperimentParameter, UnitSettings}
use application_aware_resour.Map.{Map}
use application_aware_resour.Manager.{Manager, Platform, Callback}
use application_aware_resour.Manager.Experiment.{Outcome, iterations, after, experiment}

iterations-stop :
    (body : ℕ → Manager → Option Manager) (limit fuel i : ℕ) (st : Manager)
    → ltb i limit ≡ false
    → iterations body limit (suc fuel) i st ≡ Outcome.finished st
unfolding iterations
iterations-stop body limit fuel i st e = rw (e, iterations) refl

iterations-undefined :
    (body : ℕ → Manager → Option Manager) (limit fuel i : ℕ) (st : Manager)
    → ltb i limit ≡ true
    → body i st ≡ none
    → iterations body limit (suc fuel) i st ≡ Outcome.undefined
unfolding iterations
iterations-undefined body limit fuel i st e run = rw (e, run, iterations) refl

iterations-step :
    (body : ℕ → Manager → Option Manager) (limit fuel i : ℕ) (st st' : Manager)
    → ltb i limit ≡ true
    → body i st ≡ some st'
    → iterations body limit (suc fuel) i st ≡ iterations body limit fuel ((i + 1) % 2 ^ 8) st'
unfolding iterations
iterations-step body limit fuel i st st' e run = rw (e, run, iterations) refl

module _ (P : Manager → Type 0) (body : ℕ → Manager → Option Manager)
    (total : (i : ℕ) (st : Manager)
      → i < 2 ^ 8
      → P st
      → (st' : Manager) × (body i st ≡ some st') × P st') where
  pub iterations_from :
      (limit fuel i : ℕ) (st : Manager)
      → limit < 2 ^ 8
      → i ≤ limit
      → limit < i + fuel
      → P st
      → (st' : Manager) × (iterations body limit fuel i st ≡ Outcome.finished st') × P st'
  unfolding iterations
  iterations_from limit zero i st small low enough p = absurd (omega arith)
  iterations_from limit (suc fuel) i st small low enough p = elim (Bool-cases (ltb i limit)) [
    | inr e ↦ (st, iterations-stop body limit fuel i st e, p)
    | inl e ↦
        let (st', run, p') = total i st (omega (arith, ltb→lt i limit e)) p in
        let next : (i + 1) % 2 ^ 8 ≡ i + 1 = omega (arith, ltb→lt i limit e) in
        let (last, ends, q) =
          iterations_from limit fuel (i + 1) st' small (omega (arith, ltb→lt i limit e))
            (omega arith) p' in
        (
          last,
          iterations-step body limit fuel i st st' e run
              ∙ ap (λ k. iterations body limit fuel k st') next
              ∙ ends,
          q,
        )
  ]

abbrev pub is_finished : Outcome → Bool
is_finished (Outcome.finished _) = true
is_finished _ = false

iterations_endless :
    (body : ℕ → Manager → Option Manager) (limit fuel i : ℕ) (st : Manager)
    → 2 ^ 8 ≤ limit
    → i < 2 ^ 8
    → is_finished (iterations body limit fuel i st) ≡ false
unfolding iterations
iterations_endless body limit zero i st big low = refl
iterations_endless body limit (suc fuel) i st big low =
    let e : ltb i limit ≡ true = lt→ltb i limit (omega arith) in
    elim (Option-cases (body i st)) [
      | inl run ↦ ap is_finished (iterations-undefined body limit fuel i st e run)
      | inr (st', run) ↦
          ap is_finished (iterations-step body limit fuel i st st' e run)
          ∙ iterations_endless body limit fuel ((i + 1) % 2 ^ 8) st' big (omega arith)
    ]

after-is_finished : (f : Manager → Manager) (o : Outcome) → is_finished (after f o) ≡ is_finished o
unfolding after
after-is_finished f (Outcome.finished st) = refl
after-is_finished f Outcome.undefined = refl
after-is_finished f Outcome.unfinished = refl

-- An experiment of more than 255 iterations does not finish, whatever its rounds do and whatever
-- the fuel: the counter of the iterations is a uint8_t.
pub experiment_endless :
    (platform : Platform) (config : Map UnitSettings) (parameters : ExperimentParameter)
    (round : ℕ → ℕ → Manager → Option Manager) (callback : Callback) (fuel : ℕ) (st : Manager)
    → 2 ^ 8 ≤ parameters.experiment_iterations
    → is_finished (experiment platform config parameters round callback fuel st) ≡ false
unfolding experiment
experiment_endless platform config parameters round callback fuel st big =
    after-is_finished _ _
    ∙ iterations_endless _ parameters.experiment_iterations fuel 0 st big (omega arith)
