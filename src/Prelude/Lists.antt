-- ===== src/Prelude/Lists.antt =====
-- Lists measured and cut by native numbers, under the library's names.
use Prim.Native.Nat.{ℕ, zero, suc, ◌+◌, ◌-◌, ◌≤◌, min}
use mathlib.Core.Path.{◌≡◌, refl, sym, ap}
use mathlib.Core.List.{List, [], ◌∷◌, ◌++◌}
use mathlib.Core.Option.{Option, none, some}
use native.Mathlib.Omega.{arith}

module _ {ℓ} {A : Type ℓ} where
  abbrev pub length : List A → ℕ
  length [] = 0
  length (x ∷ xs) = suc (length xs)

  abbrev pub get_elem? : List A → ℕ → Option A
  get_elem? [] i = none
  get_elem? (x ∷ xs) zero = some x
  get_elem? (x ∷ xs) (suc i) = get_elem? xs i

  abbrev pub get_or : List A → ℕ → A → A
  get_or [] i d = d
  get_or (x ∷ xs) zero d = x
  get_or (x ∷ xs) (suc i) d = get_or xs i d

  abbrev pub take : ℕ → List A → List A
  take zero xs = []
  take (suc n) [] = []
  take (suc n) (x ∷ xs) = x ∷ take n xs

  abbrev pub drop : ℕ → List A → List A
  drop zero xs = xs
  drop (suc n) [] = []
  drop (suc n) (x ∷ xs) = drop n xs

  abbrev pub replicate : ℕ → A → List A
  replicate zero a = []
  replicate (suc n) a = a ∷ replicate n a

  abbrev pub All {κ} : (A → Type κ) → List A → Type κ
  All P [] = Unit {κ}
  All P (x ∷ xs) = P x × All P xs

module _ {ℓ} {A : Type ℓ} where
  pub length-append : (xs ys : List A) → length (xs ++ ys) ≡ length xs + length ys
  length-append [] ys = omega arith
  length-append (x ∷ xs) ys = omega (arith, length-append xs ys)

  pub length-take : (n : ℕ) (xs : List A) → length (take n xs) ≡ min n (length xs)
  length-take zero xs = omega arith
  length-take (suc n) [] = omega arith
  length-take (suc n) (x ∷ xs) = omega (arith, length-take n xs)

  pub length-drop : (n : ℕ) (xs : List A) → length (drop n xs) ≡ length xs - n
  length-drop zero xs = omega arith
  length-drop (suc n) [] = omega arith
  length-drop (suc n) (x ∷ xs) = omega (arith, length-drop n xs)

  pub length-replicate : (n : ℕ) (a : A) → length (replicate n a) ≡ n
  length-replicate zero a = refl
  length-replicate (suc n) a = ap suc (length-replicate n a)

  pub take-append : (xs ys : List A) (n : ℕ) → length xs ≡ n → take n (xs ++ ys) ≡ xs
  take-append [] ys zero e = refl
  take-append [] ys (suc n) e = absurd (omega arith)
  take-append (x ∷ xs) ys zero e = absurd (omega arith)
  take-append (x ∷ xs) ys (suc n) e = ap (λ zs. x ∷ zs) (take-append xs ys n (omega arith))

  pub drop-append : (xs ys : List A) (n : ℕ) → length xs ≡ n → drop n (xs ++ ys) ≡ ys
  drop-append [] ys zero e = refl
  drop-append [] ys (suc n) e = absurd (omega arith)
  drop-append (x ∷ xs) ys zero e = absurd (omega arith)
  drop-append (x ∷ xs) ys (suc n) e = drop-append xs ys n (omega arith)

  pub take_all : (xs : List A) (n : ℕ) → length xs ≤ n → take n xs ≡ xs
  take_all [] zero h = refl
  take_all [] (suc n) h = refl
  take_all (x ∷ xs) zero h = absurd (omega arith)
  take_all (x ∷ xs) (suc n) h = ap (λ zs. x ∷ zs) (take_all xs n (omega arith))

  pub take-append-drop : (n : ℕ) (xs : List A) → take n xs ++ drop n xs ≡ xs
  take-append-drop zero xs = refl
  take-append-drop (suc n) [] = refl
  take-append-drop (suc n) (x ∷ xs) = ap (λ zs. x ∷ zs) (take-append-drop n xs)

  pub take-take : (m n : ℕ) (xs : List A) → m ≤ n → take m (take n xs) ≡ take m xs
  take-take zero n xs h = refl
  take-take (suc m) zero xs h = absurd (omega arith)
  take-take (suc m) (suc n) [] h = refl
  take-take (suc m) (suc n) (x ∷ xs) h = ap (λ zs. x ∷ zs) (take-take m n xs (omega arith))

  pub take-nil : (n : ℕ) → take {A = A} n [] ≡ []
  take-nil zero = refl
  take-nil (suc n) = refl

  pub drop-nil : (n : ℕ) → drop {A = A} n [] ≡ []
  drop-nil zero = refl
  drop-nil (suc n) = refl

  pub drop-drop : (m n k : ℕ) (xs : List A) → k ≡ m + n → drop n (drop m xs) ≡ drop k xs
  drop-drop zero n k xs e = let e' : n ≡ k = omega arith in ap (λ j. drop j xs) e'
  drop-drop (suc m) n zero xs e = absurd (omega arith)
  drop-drop (suc m) n (suc k) [] e = drop-nil n
  drop-drop (suc m) n (suc k) (x ∷ xs) e = drop-drop m n k xs (omega arith)

  -- What lies between two positions, cut off on either side first.
  pub drop-take : (m k n : ℕ) (xs : List A) → n ≡ m + k → drop m (take n xs) ≡ take k (drop m xs)
  drop-take zero k n xs e = let e' : n ≡ k = omega arith in ap (λ j. take j xs) e'
  drop-take (suc m) k zero xs e = absurd (omega arith)
  drop-take (suc m) k (suc n) [] e = sym (take-nil k)
  drop-take (suc m) k (suc n) (x ∷ xs) e = drop-take m k n xs (omega arith)
