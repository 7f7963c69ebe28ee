-- ===== src/Endnode/Windows.antt =====
-- The polling loops for two targets: stop or finish, and restart.
use application_aware_resour.Prelude.{
  ◌≡◌, ◌∙◌, Bool, true, false, List, [], ◌∷◌, ◌++◌, Option, some, arith, if◌then◌else◌, eqb_ℤ, ◌≤ℤ◌,
  ◌<ℤ◌, All,
}
use application_aware_resour.Codec.{Timespec}
use application_aware_resour.Clock.{total_ns}
use application_aware_resour.Clock.Sums.{IsNormal}
use application_aware_resour.Endnode.Polling.{Check, check, turn_second, turn_both, poll_both}
use application_aware_resour.Endnode.Deadlines.{
  IsTarget, IsEarly, check-waits, check-fires, late-check,
}

IsEarly-later :
    (first second now : Timespec)
    → total_ns first ≤ℤ total_ns second
    → IsEarly first now
    → IsEarly second now
IsEarly-later first second now order e = (e.0, omega (arith, order, e.1))

IsEarly-check :
    (target now : Timespec) → IsTarget target → IsEarly target now → check target now ≡ Check.waits
IsEarly-check target now t e = (check-waits target now t.0 e.0).1 (t.1, e.1)

module _ {A : Type 0} (first : Timespec) (act_first : A → A) (second : Timespec)
    (act_second : A → A) where
  abbrev loop : List Timespec → Bool → A → Option A
  loop = poll_both first act_first second act_second

  both-wait :
      (now : Timespec) (readings : List Timespec) (a : A)
      → check first now ≡ Check.waits
      → check second now ≡ Check.waits
      → loop (now ∷ readings) false a ≡ loop readings false a
  unfolding poll_both turn_both turn_second check
  both-wait now readings a e f = simp (poll_both, turn_both, turn_second, e, f)

  first-fires :
      (now : Timespec) (readings : List Timespec) (a : A)
      → check first now ≡ Check.fires
      → check second now ≡ Check.waits
      → loop (now ∷ readings) false a ≡ loop readings true (act_first a)
  unfolding poll_both turn_both turn_second check
  first-fires now readings a e f = simp (poll_both, turn_both, turn_second, e, f)

  second-waits :
      (now : Timespec) (readings : List Timespec) (a : A)
      → check second now ≡ Check.waits
      → loop (now ∷ readings) true a ≡ loop readings true a
  unfolding poll_both turn_both turn_second check
  second-waits now readings a f = simp (poll_both, turn_both, turn_second, f)

  second-late :
      (now : Timespec) (readings : List Timespec) (a : A) (same : Bool)
      → check second now ≡ (if same then Check.fires else Check.invalid)
      → loop (now ∷ readings) true a ≡ some (if same then act_second a else a)
  unfolding poll_both turn_both turn_second check
  second-late now readings a true f = simp (poll_both, turn_both, turn_second, f)
  second-late now readings a false f = simp (poll_both, turn_both, turn_second, f)

  after_first :
      (mid : List Timespec) (now : Timespec) (later : List Timespec) (a : A)
      → IsTarget second
      → All (IsEarly second) mid
      → IsNormal now
      → total_ns second <ℤ total_ns now
      → loop (mid ++ now ∷ later) true a
        ≡ some (if eqb_ℤ now.tv_sec second.tv_sec then act_second a else a)
  after_first [] now later a t e n late =
      second-late now later a (eqb_ℤ now.tv_sec second.tv_sec) (late-check second now t n late)
  after_first (r ∷ mid) now later a t (e, es) n late =
      second-waits r (mid ++ now ∷ later) a (IsEarly-check second r t e)
      ∙ after_first mid now later a t es n late

  -- A loop that polls for two targets, the first not behind the second, with a reading in the
  -- second of the first target behind it and not behind the second target: it acts on the first
  -- target, and ends at the first reading behind the second target, on which it acts if that
  -- reading is in the second of that target, and does nothing otherwise. The readings and both
  -- targets are normal, and the seconds of the targets are not 0.
  pub poll_both-window :
      (early : List Timespec) (between : Timespec) (mid : List Timespec) (now : Timespec)
      (later : List Timespec) (a : A)
      → IsTarget first
      → IsTarget second
      → total_ns first ≤ℤ total_ns second
      → All (IsEarly first) early
      → IsEarly second between
      → first.tv_sec ≡ between.tv_sec
      → total_ns first <ℤ total_ns between
      → All (IsEarly second) mid
      → IsNormal now
      → total_ns second <ℤ total_ns now
      → loop (early ++ between ∷ (mid ++ now ∷ later)) false a
        ≡ some (if eqb_ℤ now.tv_sec second.tv_sec then act_second (act_first a) else act_first a)
  poll_both-window [] between mid now later a t t' order e b same gone es n late =
      first-fires between (mid ++ now ∷ later) a
        ((check-fires first between t.0 b.0).1 (t.1, same, gone))
        (IsEarly-check second between t' b)
      ∙ after_first mid now later (act_first a) t' es n late
  poll_both-window (r ∷ early) between mid now later a t t' order (e, es) b same gone ms n late =
      both-wait r (early ++ between ∷ (mid ++ now ∷ later)) a (IsEarly-check first r t e)
        (IsEarly-check second r t' (IsEarly-later first second r order e))
      ∙ poll_both-window early between mid now later a t t' order es b same gone ms n late
