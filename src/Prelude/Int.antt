-- ===== src/Prelude/Int.antt =====
-- Signed integers over the native numbers, under the library's names, and the 64-bit words that
-- hold them in two's complement.
use Prim.Native.Nat.{ℕ, suc, ◌+◌, ◌-◌, ◌*◌, ◌%◌, ◌^◌, ◌≤◌, ◌<◌}
use mathlib.Core.Path.{◌≡◌}
use mathlib.Core.Bool.{Bool}
use native.Mathlib.Omega.{arith}
use application_aware_resour.Prelude.Tests.{ltb, leb, if◌then◌else◌}

-- `negsuc n` is -(n + 1).
pub data ℤ : Type 0 where
  pos : ℕ → ℤ
  negsuc : ℕ → ℤ

abbrev pub pos_part : ℤ → ℕ
pos_part (pos n) = n
pos_part (negsuc n) = 0

abbrev pub neg_part : ℤ → ℕ
neg_part (pos n) = 0
neg_part (negsuc n) = suc n

-- a - b, as an integer.
abbrev pub sub_ℕ : ℕ → ℕ → ℤ
sub_ℕ a b = if leb b a then pos (a - b) else negsuc (b - a - 1)

infixl 65 ◌+ℤ◌ ◌-ℤ◌
infixl 70 ◌*ℤ◌
infix 50 ◌≤ℤ◌ ◌<ℤ◌
unfoldable pub ◌+ℤ◌ : ℤ → ℤ → ℤ
a +ℤ b = sub_ℕ (pos_part a + pos_part b) (neg_part a + neg_part b)

unfoldable pub ◌-ℤ◌ : ℤ → ℤ → ℤ
a -ℤ b = sub_ℕ (pos_part a + neg_part b) (neg_part a + pos_part b)

unfoldable pub ◌*ℤ◌ : ℤ → ℤ → ℤ
a *ℤ b =
    sub_ℕ (pos_part a * pos_part b + neg_part a * neg_part b)
      (pos_part a * neg_part b + neg_part a * pos_part b)

abbrev pub ◌≤ℤ◌ : ℤ → ℤ → Type 0
a ≤ℤ b = pos_part a + neg_part b ≤ pos_part b + neg_part a

abbrev pub ◌<ℤ◌ : ℤ → ℤ → Type 0
a <ℤ b = pos_part a + neg_part b < pos_part b + neg_part a

abbrev pub ltb_ℤ : ℤ → ℤ → Bool
ltb_ℤ a b = ltb (pos_part a + neg_part b) (pos_part b + neg_part a)

abbrev pub leb_ℤ : ℤ → ℤ → Bool
leb_ℤ a b = leb (pos_part a + neg_part b) (pos_part b + neg_part a)

abbrev pub eqb_ℤ : ℤ → ℤ → Bool
eqb_ℤ a b = if leb_ℤ a b then leb_ℤ b a else leb_ℤ a b

pub +ℤ_parts :
    (a b : ℤ)
    → pos_part (a +ℤ b) + neg_part a + neg_part b ≡ neg_part (a +ℤ b) + pos_part a + pos_part b
unfolding ◌+ℤ◌
+ℤ_parts a b = ground arith

pub -ℤ_parts :
    (a b : ℤ)
    → pos_part (a -ℤ b) + neg_part a + pos_part b ≡ neg_part (a -ℤ b) + pos_part a + neg_part b
unfolding ◌-ℤ◌
-ℤ_parts a b = ground arith

sub_ℕ_parts : (a b : ℕ) → pos_part (sub_ℕ a b) + b ≡ neg_part (sub_ℕ a b) + a
sub_ℕ_parts a b = ground arith

pub *ℤ_parts :
    (a b : ℤ)
    → pos_part (a *ℤ b) + (pos_part a * neg_part b + neg_part a * pos_part b)
      ≡ neg_part (a *ℤ b) + (pos_part a * pos_part b + neg_part a * neg_part b)
unfolding ◌*ℤ◌
*ℤ_parts a b =
    let p = pos_part a * pos_part b + neg_part a * neg_part b in
    let n = pos_part a * neg_part b + neg_part a * pos_part b in omega (arith, sub_ℕ_parts p n)

pub eq_of_parts : (a b : ℤ) → pos_part a + neg_part b ≡ pos_part b + neg_part a → a ≡ b
eq_of_parts a b h = ground arith

pub parts_eq : {a b : ℤ} → a ≡ b → pos_part a + neg_part b ≡ pos_part b + neg_part a
parts_eq {a} {b} e = rw e

pub ruleset int_laws = (arith, +ℤ_parts, -ℤ_parts, eq_of_parts)

-- The bit pattern of an `int64_t`.
unfoldable pub to_word : ℤ → ℕ
to_word (pos n) = n % 2 ^ 64
to_word (negsuc n) = 2 ^ 64 - 1 - n % 2 ^ 64

unfoldable pub of_word : ℕ → ℤ
of_word w = if ltb w (2 ^ 63) then pos w else negsuc (2 ^ 64 - 1 - w)

abbrev pub IsInt64 : ℤ → Type 0
IsInt64 z = (negsuc (2 ^ 63 - 1) ≤ℤ z) × (z ≤ℤ pos (2 ^ 63 - 1))

pub to_word-lt : (z : ℤ) → to_word z < 2 ^ 64
unfolding to_word
to_word-lt (pos n) = omega arith
to_word-lt (negsuc n) = omega arith

pub of_word-to_word : (z : ℤ) → IsInt64 z → of_word (to_word z) ≡ z
unfolding of_word to_word
of_word-to_word (pos n) h = ground arith
of_word-to_word (negsuc n) h = ground arith

-- The positive part of a sum or a difference is not more than what is added to it.
pub +ℤ-pos_part : (a b : ℤ) → pos_part (a +ℤ b) ≤ pos_part a + pos_part b
unfolding ◌+ℤ◌
+ℤ-pos_part a b = ground arith

pub -ℤ-pos_part : (a b : ℤ) → pos_part (a -ℤ b) ≤ pos_part a + neg_part b
unfolding ◌-ℤ◌
-ℤ-pos_part a b = ground arith

pub *ℤ-pos_part : (a b : ℤ) → pos_part (a *ℤ b) ≤ pos_part a * pos_part b + neg_part a * neg_part b
unfolding ◌*ℤ◌
*ℤ-pos_part a b = ground arith

pub pos_part-le : (z : ℤ) (n : ℕ) → z ≤ℤ pos n → pos_part z ≤ n
pos_part-le (pos m) n h = omega arith
pos_part-le (negsuc m) n h = omega arith

pub neg_part-zero : (z : ℤ) → pos 0 ≤ℤ z → neg_part z ≡ 0
neg_part-zero (pos m) h = omega arith
neg_part-zero (negsuc m) h = omega arith
