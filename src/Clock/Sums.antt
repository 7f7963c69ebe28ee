-- ===== src/Clock/Sums.antt =====
-- What the timestamp functions compute, as one count of nanoseconds.
use application_aware_resour.Prelude.{
  ℕ, suc, ◌+◌, ◌*◌, ◌/◌, ◌%◌, ◌≤◌, ◌<◌, ◌≡◌, ◌↔◌, arith, ℤ, pos, negsuc, pos_part, ◌+ℤ◌, ◌-ℤ◌, ◌*ℤ◌,
  ◌≤ℤ◌, ◌<ℤ◌, +ℤ_parts, -ℤ_parts, *ℤ_parts, eq_of_parts, ltb, ltb→lt, ltb→le, Bool-cases, inl, inr,
  ltb_ℤ, neg_part, parts_eq, refl, ap₂, ap,
}
use application_aware_resour.Codec.{Timespec}
use application_aware_resour.Clock.{
  billion, million, total_ns, prepare_timestamp_add, prepare_timestamp_sub, subtract_timespec,
  get_round_timestamp,
}

abbrev pub IsNormal : Timespec → Type 0
IsNormal t = (pos 0 ≤ℤ t.tv_nsec) × (t.tv_nsec <ℤ pos billion)

pub total_ns-parts :
    (t : Timespec)
    → pos_part (total_ns t) + neg_part t.tv_sec * billion + neg_part t.tv_nsec
      ≡ neg_part (total_ns t) + pos_part t.tv_sec * billion + pos_part t.tv_nsec
unfolding total_ns
total_ns-parts t = omega (arith, +ℤ_parts, *ℤ_parts)

pub ruleset clock_laws = (arith, +ℤ_parts, -ℤ_parts, total_ns-parts, ltb→lt, ltb→le)

-- prepare_timestamp_add adds the delay to the whole seconds of the timestamp and leaves its
-- nanoseconds out; the result is normal.
pub prepare_timestamp_add-total :
    (t : Timespec) (delay : ℕ)
    → (total_ns (prepare_timestamp_add t delay) +ℤ t.tv_nsec ≡ total_ns t +ℤ pos (delay * million))
      × IsNormal (prepare_timestamp_add t delay)
unfolding prepare_timestamp_add
prepare_timestamp_add-total t delay = elim (Bool-cases (ltb (delay * million / billion) 1)) [
  | inl small ↦ rw small (eq_of_parts _ _ (omega clock_laws), omega clock_laws)
  | inr large ↦ rw large (eq_of_parts _ _ (omega clock_laws), omega clock_laws)
]

-- prepare_timestamp_add is exact exactly for a timestamp of no nanoseconds.
pub prepare_timestamp_add-exact :
    (t : Timespec) (delay : ℕ)
    → (total_ns (prepare_timestamp_add t delay) ≡ total_ns t +ℤ pos (delay * million))
      ↔ (t.tv_nsec ≡ pos 0)
prepare_timestamp_add-exact t delay = (
  λ e.
      eq_of_parts _ _
        (omega (clock_laws, parts_eq (prepare_timestamp_add-total t delay).0, parts_eq e)),
  λ e.
      eq_of_parts _ _
        (omega (clock_laws, parts_eq (prepare_timestamp_add-total t delay).0, parts_eq e)),
)

-- prepare_timestamp_sub subtracts the delay, nanoseconds included, and stops at the epoch; the
-- result is normal.
pub prepare_timestamp_sub-total :
    (t : Timespec) (delay : ℕ)
    → (total_ns (prepare_timestamp_sub t delay)
        ≡ pos (pos_part (total_ns t -ℤ pos (delay * million))))
      × IsNormal (prepare_timestamp_sub t delay)
unfolding prepare_timestamp_sub
prepare_timestamp_sub-total t delay = (eq_of_parts _ _ (omega clock_laws), omega clock_laws)

-- The difference of two normal timestamps is exact and normal, on both branches.
pub subtract_timespec-total :
    (end start : Timespec)
    → IsNormal end
    → IsNormal start
    → (total_ns (subtract_timespec end start) ≡ total_ns end -ℤ total_ns start)
      × IsNormal (subtract_timespec end start)
unfolding subtract_timespec
subtract_timespec-total end start e s =
    elim (Bool-cases (ltb_ℤ (end.tv_nsec -ℤ start.tv_nsec) (pos 0))) [
      | inl borrow ↦ rw borrow (eq_of_parts _ _ (omega clock_laws), omega clock_laws)
      | inr plain ↦ rw plain (eq_of_parts _ _ (omega clock_laws), omega clock_laws)
    ]

-- The rounded timestamp of a normal reading is the first whole second that is not before it.
pub get_round_timestamp-ceil :
    (t : Timespec)
    → IsNormal t
    → ((get_round_timestamp t).tv_nsec ≡ pos 0)
      × (total_ns t ≤ℤ total_ns (get_round_timestamp t))
      × (total_ns (get_round_timestamp t) <ℤ total_ns t +ℤ pos billion)
unfolding get_round_timestamp
get_round_timestamp-ceil t n = elim (Bool-cases (ltb_ℤ (pos 0) t.tv_nsec)) [
  | inl up ↦ rw up (refl, omega clock_laws, omega clock_laws)
  | inr whole ↦ rw whole (eq_of_parts _ _ (omega clock_laws), omega clock_laws, omega clock_laws)
]

-- The instant `delay` milliseconds behind the start of the second of a timestamp.
abbrev pub behind_second : Timespec → ℕ → Timespec
behind_second t delay = record {
  tv_sec = t.tv_sec +ℤ pos (delay / 1000);
  tv_nsec = pos (delay % 1000 * million);
}

pub prepare_timestamp_add-seconds_only :
    (t : Timespec) (delay : ℕ) → prepare_timestamp_add t delay ≡ behind_second t delay
unfolding prepare_timestamp_add
prepare_timestamp_add-seconds_only t delay =
    let seconds : delay * million / billion ≡ delay / 1000 = omega arith in
    let rest : delay * million % billion ≡ delay % 1000 * million = omega arith in
    elim (Bool-cases (ltb (delay * million / billion) 1)) [
      | inl small ↦ rw small (
          ap₂ (λ s n. record { tv_sec = s; tv_nsec = n })
            (eq_of_parts t.tv_sec (t.tv_sec +ℤ pos (delay / 1000)) (omega clock_laws))
            (eq_of_parts (pos (delay * million)) (pos (delay % 1000 * million)) (omega clock_laws)))
      | inr large ↦
          rw large
            (ap₂ (λ s n. record { tv_sec = t.tv_sec +ℤ pos s; tv_nsec = pos n }) seconds rest)
    ]

-- Adding two durations one after the other, as the start does with the distribution phase and the
-- slot, loses the nanoseconds of the timestamp and the part of the first duration that makes no
-- whole second, and nothing else.
pub prepare_timestamp_add-twice :
    (t : Timespec) (first second : ℕ)
    → total_ns (prepare_timestamp_add (prepare_timestamp_add t first) second)
        +ℤ t.tv_nsec
        +ℤ pos (first % 1000 * million)
      ≡ total_ns t +ℤ pos ((first + second) * million)
prepare_timestamp_add-twice t first second =
    let once = prepare_timestamp_add t first in
    let nanoseconds : once.tv_nsec ≡ pos (first % 1000 * million) =
      ap (λ (u : Timespec). u.tv_nsec) (prepare_timestamp_add-seconds_only t first) in
    eq_of_parts _ _ (
      omega (
        clock_laws,
        parts_eq (prepare_timestamp_add-total t first).0,
        parts_eq (prepare_timestamp_add-total once second).0,
        parts_eq nanoseconds,
      ))
