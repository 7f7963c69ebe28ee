-- ===== src/Generator/Target.antt =====
-- The pace of the generator and the number of packets of an object, as numbers.
use application_aware_resour.Prelude.{
  ℕ, ◌+◌, ◌-◌, ◌*◌, ◌^◌, ◌≤◌, ◌<◌, ◌≡◌, ◌↔◌, true, arith, pos, ◌+ℤ◌, ◌≤ℤ◌, eq_of_parts, leb_ℤ,
  Bool-cases, inl, inr, leb→le, leb→gt, neg_part-zero,
}
use application_aware_resour.Codec.{Timespec}
use application_aware_resour.Clock.{billion, million, total_ns}
use application_aware_resour.Clock.Sums.{IsNormal, clock_laws, total_ns-parts}
use application_aware_resour.Config.{ServiceSettings}
use application_aware_resour.Generator.{
  max_protocol_message_length, object_bytes, packets_of, target_time, reached,
}

-- The start of the next period is the start of the last one and the deadline in milliseconds later,
-- exactly, and is a normal timestamp. The start of the last one is normal.
pub target_time-total :
    (t : Timespec) (deadline : ℕ)
    → IsNormal t
    → (total_ns (target_time t deadline) ≡ total_ns t +ℤ pos (deadline * million))
      × IsNormal (target_time t deadline)
unfolding target_time
target_time-total t deadline n =
    let nsec = t.tv_nsec +ℤ pos (deadline * million) in
    let unsigned = neg_part-zero nsec (omega clock_laws) in
    elim (Bool-cases (leb_ℤ (pos billion) nsec)) [
      | inl carry ↦ rw carry (
        eq_of_parts _ _ (omega (clock_laws, leb→le _ _ carry)),
        omega (clock_laws, leb→le _ _ carry),
      )
      | inr plain ↦
          rw plain (eq_of_parts _ _ (omega clock_laws), omega (clock_laws, leb→gt _ _ plain))
    ]

-- The generator's test of the clock is the order of the instants, for normal timestamps.
pub reached_iff :
    (time_now target : Timespec)
    → IsNormal time_now
    → IsNormal target
    → (reached time_now target ≡ true) ↔ (total_ns target ≤ℤ total_ns time_now)
reached_iff time_now target n t = ground (arith, total_ns-parts time_now, total_ns-parts target)

-- The packets of an object are enough for it, and one packet less is not, if the sum in uint32_t
-- does not wrap and the object is not empty.
pub packets_of-covers :
    (s : ServiceSettings)
    → s.object_size * 1024 + max_protocol_message_length ≤ 2 ^ 32
    → 0 < s.object_size
    → (object_bytes s ≤ packets_of s * max_protocol_message_length)
      × ((packets_of s - 1) * max_protocol_message_length < object_bytes s)
unfolding packets_of
packets_of-covers s small full = (omega arith, omega arith)
