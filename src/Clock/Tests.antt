-- ===== src/Clock/Tests.antt =====
-- Examples for the arithmetic on timestamps (include/rscmng/rm/net_layer_rm.tpp).
use application_aware_resour.Prelude.{ℕ, ◌+◌, ◌*◌, ◌≤◌, ◌<◌, ◌≡◌, arith, some, pos, ◌+ℤ◌}
use application_aware_resour.Codec.{Timespec}
use application_aware_resour.Clock.{
  billion, million, total_ns, prepare_timestamp_add, target_hyperperiod,
}
use application_aware_resour.Clock.Sums.{
  IsNormal, prepare_timestamp_add-total, prepare_timestamp_add-twice,
}
use application_aware_resour.Clock.Hyperperiod.{
  at, target_hyperperiod-behind, target_hyperperiod-ahead,
}

abbrev early : Timespec
early = at 10 700_000_000

abbrev late : Timespec
late = at 12 300_000_000

early-IsNormal : IsNormal early
early-IsNormal = (omega arith, omega arith)

late-IsNormal : IsNormal late
late-IsNormal = (omega arith, omega arith)

prepare_timestamp_add-total_example :
    (total_ns (prepare_timestamp_add early 1500) +ℤ early.tv_nsec
      ≡ total_ns early +ℤ pos (1500 * million))
    × IsNormal (prepare_timestamp_add early 1500)
prepare_timestamp_add-total_example = prepare_timestamp_add-total early 1500

prepare_timestamp_add-twice_example :
    total_ns (prepare_timestamp_add (prepare_timestamp_add early 1500) 15)
      +ℤ early.tv_nsec
      +ℤ pos (500 * million)
    ≡ total_ns early +ℤ pos (1515 * million)
prepare_timestamp_add-twice_example = prepare_timestamp_add-twice early 1500 15

target_hyperperiod-behind_example :
    (sec : ℕ) × (nsec : ℕ) × (target_hyperperiod 500 100 late early ≡ some (at sec nsec))
    × (sec * billion + nsec < 12 * billion + 300_000_000)
target_hyperperiod-behind_example =
    target_hyperperiod-behind 500 100 10 700_000_000 12 300_000_000 (omega arith) (omega arith)
      (omega arith) (omega arith) (omega arith) (omega arith) (omega arith)

target_hyperperiod-ahead_example :
    (sec : ℕ) × (nsec : ℕ) × (k : ℕ) × (target_hyperperiod 100 500 late early ≡ some (at sec nsec))
    × (12 * billion + 300_000_000 + 500 * million < sec * billion + nsec)
    × (sec * billion + nsec ≤ 12 * billion + 300_000_000 + (500 + 200) * million)
    × (sec * billion + nsec ≡ 10 * billion + 700_000_000 + k * (100 * million))
target_hyperperiod-ahead_example =
    target_hyperperiod-ahead 500 10 700_000_000 12 300_000_000 (omega arith) (omega arith)
      (omega arith) (omega arith)
