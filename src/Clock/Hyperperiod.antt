-- ===== src/Clock/Hyperperiod.antt =====
-- When the next hyperperiod begins, for a clock that has not gone back behind the last one.
use application_aware_resour.Prelude.{
  ℕ, ◌+◌, ◌-◌, ◌*◌, ◌/◌, ◌%◌, ◌^◌, ◌≤◌, ◌<◌, ◌≡◌, arith, some, pos, ◌+ℤ◌, ◌-ℤ◌, ◌*ℤ◌, to_word, ◌==◌,
  false,
}
use application_aware_resour.Codec.{Timespec}
use application_aware_resour.Clock.{
  billion, million, subtract_timespec, number_hyperperiods_past, number_hyperperiod_distribution,
  target_hyperperiod,
}

-- An instant after the epoch.
abbrev pub at : ℕ → ℕ → Timespec
at s n = record { tv_sec = pos s; tv_nsec = pos n }

pos-sub : (a b : ℕ) → b ≤ a → pos a -ℤ pos b ≡ pos (a - b)
unfolding ◌-ℤ◌
pos-sub a b h = ground arith

pos-add : (a b : ℕ) → pos a +ℤ pos b ≡ pos (a + b)
unfolding ◌+ℤ◌
pos-add a b = ground arith

pos-mul : (a b : ℕ) → pos a *ℤ pos b ≡ pos (a * b)
unfolding ◌*ℤ◌
pos-mul a b = ground arith

abbrev elapsed_sec : ℕ → ℕ → ℕ → ℕ → ℕ
elapsed_sec s n s' n' = ((s' * billion + n') - (s * billion + n)) / billion

abbrev elapsed_nsec : ℕ → ℕ → ℕ → ℕ → ℕ
elapsed_nsec s n s' n' = ((s' * billion + n') - (s * billion + n)) % billion

module _ (s n s' n' : ℕ) (normal : n < billion) (normal' : n' < billion)
    (ahead : s * billion + n ≤ s' * billion + n') where
  subtract-at :
      subtract_timespec (at s' n') (at s n) ≡ at (elapsed_sec s n s' n') (elapsed_nsec s n s' n')
  unfolding subtract_timespec ◌+ℤ◌ ◌-ℤ◌
  subtract-at = ground arith

pub past-at :
    (h ds dn : ℕ)
    → number_hyperperiods_past h (at ds dn) ≡ ((ds * 1000 + dn / million) / h + 1) % 2 ^ 32
unfolding number_hyperperiods_past to_word
past-at h ds dn = rw (pos-mul, pos-add, pos-add) (omega arith)

-- The milliseconds that have gone by since the last hyperperiod.
abbrev pub elapsed_ms : ℕ → ℕ → ℕ → ℕ → ℕ
elapsed_ms s n s' n' = elapsed_sec s n s' n' * 1000 + elapsed_nsec s n s' n' / million

-- The milliseconds from the last hyperperiod to the target, if the sums do not wrap.
abbrev pub step_ms : ℕ → ℕ → ℕ → ℕ
step_ms h distribution e = (e / h + distribution / h + 2) * 100

div_long : (h x : ℕ) → 200 ≤ h → x / h * 200 ≤ x
div_long h x long = grind arith

module _ (h distribution s n s' n' : ℕ) (positive : 0 < h) (normal : n < billion)
    (normal' : n' < billion) (ahead : s * billion + n ≤ s' * billion + n')
    (small : step_ms h distribution (elapsed_ms s n s' n') < 2 ^ 32) where
  -- For a clock not before the last target and sums that do not wrap, the target is a number of
  -- hundreds of milliseconds behind the last one, with the nanoseconds never carried to the
  -- seconds.
  pub target_hyperperiod-at :
      let ms = step_ms h distribution (elapsed_ms s n s' n') in
      target_hyperperiod h distribution (at s' n') (at s n)
      ≡ some (at (s + ms / 1000) (n + ms % 1000 * million))
  unfolding target_hyperperiod number_hyperperiod_distribution
  target_hyperperiod-at =
      let e : ℕ = elapsed_ms s n s' n' in
      let a : ℕ = e / h in
      let b : ℕ = distribution / h in
      let bound : (a + b + 2) * 100 < 2 ^ 32 = small in
      let sum : ((a + 1) % 2 ^ 32 + (b + 1) % 2 ^ 32) % 2 ^ 32 * 100 % 2 ^ 32 ≡ (a + b + 2) * 100 =
        omega (arith, bound) in
      let nonzero : (h == 0) ≡ false = ground arith in
      rw (subtract-at s n s' n' normal normal' ahead, past-at, nonzero, sum, pos-add, pos-add)

  -- With hyperperiods of 200 ms or more, a reading of the clock and a last target that are normal,
  -- the reading not before the last target, and sums that do not wrap, the target lies before the
  -- present as soon as more time has gone by than the distribution phase and 400 ms.
  pub target_hyperperiod-behind :
      200 ≤ h
      → distribution + 400 < elapsed_ms s n s' n'
      → (sec : ℕ) × (nsec : ℕ) × (target_hyperperiod h distribution (at s' n') (at s n)
          ≡ some (at sec nsec))
        × (sec * billion + nsec < s' * billion + n')
  target_hyperperiod-behind long late =
      let e : ℕ = elapsed_ms s n s' n' in
      let ms : ℕ = step_ms h distribution e in
      let halved : ms < e = omega (arith, div_long h e long, div_long h distribution long, late) in
      (s + ms / 1000, n + ms % 1000 * million, target_hyperperiod-at, omega (arith, halved))

-- With hyperperiods of 100 ms, a reading of the clock and a last target that are normal, the
-- reading not before the last target, and sums that do not wrap, the target lies behind the present
-- by more than the distribution phase and at most 200 ms more, a whole number of hyperperiods
-- behind the last one.
pub target_hyperperiod-ahead :
    (distribution s n s' n' : ℕ)
    → n < billion
    → n' < billion
    → s * billion + n ≤ s' * billion + n'
    → step_ms 100 distribution (elapsed_ms s n s' n') < 2 ^ 32
    → (sec : ℕ) × (nsec : ℕ) × (k : ℕ) × (target_hyperperiod 100 distribution (at s' n') (at s n)
        ≡ some (at sec nsec))
      × (s' * billion + n' + distribution * million < sec * billion + nsec)
      × (sec * billion + nsec ≤ s' * billion + n' + (distribution + 200) * million)
      × (sec * billion + nsec ≡ s * billion + n + k * (100 * million))
target_hyperperiod-ahead distribution s n s' n' normal normal' ahead small =
    let e : ℕ = elapsed_ms s n s' n' in
    let ms : ℕ = step_ms 100 distribution e in
    (
      s + ms / 1000,
      n + ms % 1000 * million,
      e / 100 + distribution / 100 + 2,
      target_hyperperiod-at 100 distribution s n s' n' (omega arith) normal normal' ahead small,
      omega arith,
      omega arith,
      omega arith,
    )
