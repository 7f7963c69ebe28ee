-- ===== src/Clock.antt =====
-- The arithmetic on `struct timespec` of the resource manager (include/rscmng/rm/net_layer_rm.tpp).
-- Durations are counts of milliseconds; the configuration holds them as `uint32_t`. Sums of signed
-- 64-bit counts are taken without overflow, which is undefined in the source.
pub mod Sums
pub mod Hyperperiod
mod Tests
use application_aware_resour.Prelude.{
  ℕ, ◌+◌, ◌*◌, ◌/◌, ◌%◌, ◌^◌, Option, none, some, ltb, ◌==◌, if◌then◌else◌, ℤ, pos, negsuc,
  pos_part, sub_ℕ, ◌+ℤ◌, ◌-ℤ◌, ◌*ℤ◌, ltb_ℤ, to_word,
}
use application_aware_resour.Codec.{Timespec}

abbrev pub billion : ℕ
billion = 1_000_000_000

-- nanoseconds in a millisecond
abbrev pub million : ℕ
million = 1_000_000

-- The instant as one count of nanoseconds.
unfoldable pub total_ns : Timespec → ℤ
total_ns t = t.tv_sec *ℤ pos billion +ℤ t.tv_nsec

unfoldable pub prepare_timestamp_add : Timespec → ℕ → Timespec
prepare_timestamp_add time_stamp delay =
    let delay_ns = delay * million in
    if ltb (delay_ns / billion) 1
    then record { tv_sec = time_stamp.tv_sec; tv_nsec = pos delay_ns }
    else record {
      tv_sec = time_stamp.tv_sec +ℤ pos (delay_ns / billion);
      tv_nsec = pos (delay_ns % billion);
    }

-- `pos_part` is the clamp of a negative result to 0.
unfoldable pub prepare_timestamp_sub : Timespec → ℕ → Timespec
prepare_timestamp_sub time_stamp delay =
    let result_ns = pos_part (total_ns time_stamp -ℤ pos (delay * million)) in
    record { tv_sec = pos (result_ns / billion); tv_nsec = pos (result_ns % billion) }

unfoldable pub subtract_timespec : Timespec → Timespec → Timespec
subtract_timespec end start =
    if ltb_ℤ (end.tv_nsec -ℤ start.tv_nsec) (pos 0)
    then record {
      tv_sec = end.tv_sec -ℤ start.tv_sec -ℤ pos 1;
      tv_nsec = end.tv_nsec -ℤ start.tv_nsec +ℤ pos billion;
    }
    else record { tv_sec = end.tv_sec -ℤ start.tv_sec; tv_nsec = end.tv_nsec -ℤ start.tv_nsec }

-- `current_time` is what `clock_gettime` returns.
unfoldable pub get_round_timestamp : Timespec → Timespec
get_round_timestamp current_time =
    if ltb_ℤ (pos 0) current_time.tv_nsec
    then record { tv_sec = current_time.tv_sec +ℤ pos 1; tv_nsec = pos 0 }
    else current_time

-- Signed division by a positive number, towards 0.
abbrev pub quot : ℤ → ℕ → ℤ
quot (pos n) k = pos (n / k)
quot (negsuc n) k = sub_ℕ 0 ((n + 1) / k)

-- `static_cast<uint32_t>` of a `long`
abbrev pub to_uint32 : ℤ → ℕ
to_uint32 z = to_word z % 2 ^ 32

unfoldable pub number_hyperperiods_past : ℕ → Timespec → ℕ
number_hyperperiods_past hyperperiod time_diff =
    to_uint32
      (quot (time_diff.tv_sec *ℤ pos 1000 +ℤ quot time_diff.tv_nsec million) hyperperiod +ℤ pos 1)

unfoldable pub number_hyperperiod_distribution : ℕ → ℕ → ℕ
number_hyperperiod_distribution hyperperiod distribution = (distribution / hyperperiod + 1) % 2 ^ 32

-- The next hyperperiod for a mode change: the sum is taken in `uint32_t`, and counts hyperperiods of
-- 100 ms whatever their duration is. `none` is the division by a duration of 0.
unfoldable pub target_hyperperiod : ℕ → ℕ → Timespec → Timespec → Option Timespec
target_hyperperiod hyperperiod distribution current_time last =
    let past = number_hyperperiods_past hyperperiod (subtract_timespec current_time last) in
    let ms =
      (past + number_hyperperiod_distribution hyperperiod distribution) % 2 ^ 32 * 100 % 2 ^ 32 in
    if hyperperiod == 0
    then none
    else some (record {
      tv_sec = last.tv_sec +ℤ pos (ms / 1000);
      tv_nsec = last.tv_nsec +ℤ pos (ms % 1000 * million);
    })
