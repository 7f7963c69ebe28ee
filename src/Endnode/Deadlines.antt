-- ===== src/Endnode/Deadlines.antt =====
-- When the polling loops act, and that they come to an end.
use application_aware_resour.Prelude.{
  refl, not, ◌&&◌, Bool-cases, inl, inr, ◌≡◌, ◌≢◌, ◌↔◌, ◌⊎◌, ◌∙◌, Bool, true, false, List, [], ◌∷◌,
  ◌++◌, some, arith, if◌then◌else◌, pos, ◌≤ℤ◌, ◌<ℤ◌, eqb_ℤ, All,
}
use application_aware_resour.Codec.{Timespec}
use application_aware_resour.Clock.{total_ns}
use application_aware_resour.Clock.Sums.{IsNormal, total_ns-parts}
use application_aware_resour.Endnode.Polling.{Check, check, poll}

pub check-waits :
    (target now : Timespec)
    → IsNormal target
    → IsNormal now
    → (check target now ≡ Check.waits)
      ↔ ((target.tv_sec ≢ pos 0) × (total_ns now ≤ℤ total_ns target))
unfolding check
check-waits target now t n = ground (arith, total_ns-parts target, total_ns-parts now)

check-invalid :
    (target now : Timespec)
    → IsNormal target
    → IsNormal now
    → (check target now ≡ Check.invalid) ↔ ((target.tv_sec ≡ pos 0) ⊎ (target.tv_sec <ℤ now.tv_sec))
unfolding check
check-invalid target now t n = ground (arith, total_ns-parts target, total_ns-parts now)

pub check-fires :
    (target now : Timespec)
    → IsNormal target
    → IsNormal now
    → (check target now ≡ Check.fires)
      ↔ ((target.tv_sec ≢ pos 0) × (target.tv_sec ≡ now.tv_sec) × (total_ns target <ℤ total_ns now))
unfolding check
check-fires target now t n = ground (arith, total_ns-parts target, total_ns-parts now)

-- A turn of the polling loops waits exactly while the clock has not passed the target, acts exactly
-- when the clock has passed it and is still in the same second, and takes the target for invalid
-- exactly when its seconds are 0 or lie behind the clock. The target and the reading are normal.
pub check-cases :
    (target now : Timespec)
    → IsNormal target
    → IsNormal now
    → ((check target now ≡ Check.waits)
        ↔ ((target.tv_sec ≢ pos 0) × (total_ns now ≤ℤ total_ns target)))
      × ((check target now ≡ Check.fires) ↔ (
          (target.tv_sec ≢ pos 0)
          × (target.tv_sec ≡ now.tv_sec)
          × (total_ns target <ℤ total_ns now)))
      × ((check target now ≡ Check.invalid)
          ↔ ((target.tv_sec ≡ pos 0) ⊎ (target.tv_sec <ℤ now.tv_sec)))
check-cases target now t n =
    (check-waits target now t n, check-fires target now t n, check-invalid target now t n)

-- A target that a command names: a normal timestamp whose seconds are not 0.
abbrev pub IsTarget : Timespec → Type 0
IsTarget target = IsNormal target × (target.tv_sec ≢ pos 0)

-- A reading of the clock that is not behind the target.
abbrev pub IsEarly : Timespec → Timespec → Type 0
IsEarly target now = IsNormal now × (total_ns now ≤ℤ total_ns target)

pub late-check :
    (target now : Timespec)
    → IsTarget target
    → IsNormal now
    → total_ns target <ℤ total_ns now
    → check target now ≡ (if eqb_ℤ now.tv_sec target.tv_sec then Check.fires else Check.invalid)
unfolding check
late-check target now t n late = ground (arith, total_ns-parts target, total_ns-parts now)

module _ {A : Type 0} where
  poll-waits :
      (target : Timespec) (action : A → A) (now : Timespec) (readings : List Timespec) (a : A)
      → check target now ≡ Check.waits
      → poll target action (now ∷ readings) a ≡ poll target action readings a
  unfolding poll check
  poll-waits target action now readings a e = simp (poll, e)

  poll-late :
      (target : Timespec) (action : A → A) (now : Timespec) (readings : List Timespec) (a : A)
      → (same : Bool) → check target now ≡ (if same then Check.fires else Check.invalid)
      → poll target action (now ∷ readings) a ≡ some (if same then action a else a)
  unfolding poll check
  poll-late target action now readings a true e = simp (poll, e)
  poll-late target action now readings a false e = simp (poll, e)

  -- A loop that polls for one target ends at the first reading behind the target: it acts if that
  -- reading is in the second of the target, and does nothing otherwise. The readings are
  -- normal, and so is the target, whose seconds are not 0.
  pub poll-first_late :
      (target : Timespec) (action : A → A) (early : List Timespec) (now : Timespec)
      (later : List Timespec) (a : A)
      → IsTarget target
      → All (IsEarly target) early
      → IsNormal now
      → total_ns target <ℤ total_ns now
      → poll target action (early ++ now ∷ later) a
        ≡ some (if eqb_ℤ now.tv_sec target.tv_sec then action a else a)
  poll-first_late target action [] now later a t e n late =
      poll-late target action now later a (eqb_ℤ now.tv_sec target.tv_sec)
        (late-check target now t n late)
  poll-first_late target action (r ∷ early) now later a t (e, es) n late =
      poll-waits target action r (early ++ now ∷ later) a
        ((check-waits target r t.0 e.0).1 (t.1, e.1))
      ∙ poll-first_late target action early now later a t es n late

  -- A target of second 0 ends the loop at its first reading.
  poll-zero :
      (target : Timespec) (action : A → A) (r : Timespec) (readings : List Timespec) (a : A)
      → eqb_ℤ target.tv_sec (pos 0) ≡ true
      → poll target action (r ∷ readings) a ≡ some a
  unfolding poll check
  poll-zero target action r readings a zero = rw (zero, poll) refl

  poll-zero_any :
      (target : Timespec) (action : A → A) (early : List Timespec) (now : Timespec)
      (later : List Timespec) (a : A)
      → eqb_ℤ target.tv_sec (pos 0) ≡ true
      → poll target action (early ++ now ∷ later) a ≡ some a
  poll-zero_any target action [] now later a zero = poll-zero target action now later a zero
  poll-zero_any target action (r ∷ early) now later a zero =
      poll-zero target action r (early ++ now ∷ later) a zero

  -- A loop that polls for one target comes to its end by the first reading behind the target, at
  -- the latest: it acts if that reading is in the second of the target and that second is not 0,
  -- and does nothing otherwise. The target and the readings are normal.
  pub poll-ends :
      (target : Timespec) (action : A → A) (early : List Timespec) (now : Timespec)
      (later : List Timespec) (a : A)
      → IsNormal target
      → All (IsEarly target) early
      → IsNormal now
      → total_ns target <ℤ total_ns now
      → poll target action (early ++ now ∷ later) a
        ≡ some (
            if not (eqb_ℤ target.tv_sec (pos 0)) && eqb_ℤ now.tv_sec target.tv_sec
            then action a
            else a)
  poll-ends target action early now later a t es n late =
      elim (Bool-cases (eqb_ℤ target.tv_sec (pos 0))) [
        | inl zero ↦ rw zero (poll-zero_any target action early now later a zero)
        | inr other ↦
            rw other (
              poll-first_late target action early now later a (t, λ e. ground (arith, e)) es n late)
      ]
