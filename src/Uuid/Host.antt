-- ===== src/Uuid/Host.antt =====
-- The parts of an identifier that say where it is from.
use application_aware_resour.Prelude.{
  ℕ, ◌<◌, ◌≡◌, refl, arith, [], ◌∷◌, ◌==◌, ◌*◌, ◌+◌, ◌%◌, ◌^◌, List, All, length, take, drop,
  get_or, zero, suc,
}
use application_aware_resour.Uuid.{Uuid, memcmp, is_on_same_host_as, get_host, is_zero, uuid_size}
use application_aware_resour.Uuid.Order.{IsUuid}

memcmp_two :
    (a b c d : ℕ)
    → a < 256
    → b < 256
    → c < 256
    → d < 256
    → is_zero (memcmp (a ∷ b ∷ []) (c ∷ d ∷ []))
      ≡ ((a * 2 ^ 8 + b) % 2 ^ 16 == (c * 2 ^ 8 + d) % 2 ^ 16)
unfolding memcmp
memcmp_two a b c d p q r s = ground arith

host_bytes :
    (xs : List ℕ) → length xs ≡ uuid_size → take 2 (drop 2 xs) ≡ get_or xs 2 0 ∷ get_or xs 3 0 ∷ []
host_bytes [] n = absurd (omega arith)
host_bytes (a ∷ []) n = absurd (omega arith)
host_bytes (a ∷ b ∷ []) n = absurd (omega arith)
host_bytes (a ∷ b ∷ c ∷ []) n = absurd (omega arith)
host_bytes (a ∷ b ∷ c ∷ d ∷ xs) n = refl

get_or_below : (xs : List ℕ) (i : ℕ) → All (λ b. b < 256) xs → get_or xs i 0 < 256
get_or_below [] i h = omega arith
get_or_below (x ∷ xs) zero (first, rest) = first
get_or_below (x ∷ xs) (suc i) (first, rest) = get_or_below xs i rest

-- Two identifiers are on one host exactly if the numbers of their hosts are the same.
pub is_on_same_host_as-get_host :
    (u v : Uuid) → IsUuid u → IsUuid v → is_on_same_host_as u v ≡ (get_host u == get_host v)
unfolding is_on_same_host_as get_host
is_on_same_host_as-get_host u v hu hv = rw (host_bytes u.value hu.size) (
    rw (host_bytes v.value hv.size) (
      memcmp_two (get_or u.value 2 0) (get_or u.value 3 0) (get_or v.value 2 0) (get_or v.value 3 0)
        (get_or_below u.value 2 hu.bytes) (get_or_below u.value 3 hu.bytes)
        (get_or_below v.value 2 hv.bytes) (get_or_below v.value 3 hv.bytes)))
