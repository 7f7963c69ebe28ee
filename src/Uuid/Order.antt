-- ===== src/Uuid/Order.antt =====
-- The comparisons of identifiers, by which the maps of the timers are ordered.
use application_aware_resour.Prelude.{
  ℕ, ◌<◌, ◌≡◌, ◌≢◌, refl, sym, ap, arith, List, [], ◌∷◌, true, false, ◌⊎◌, ◌∙◌, inl, inr, length,
  All,
}
use application_aware_resour.Uuid.{Uuid, memcmp, equal, less, uuid_size}
use Prim.Native.Nat.{Ordering}

-- The array has its 16 bytes.
pub record IsUuid (u : Uuid) : Type 0 where
  pub size : length u.value ≡ uuid_size
  pub bytes : All (λ b. b < 256) u.value

memcmp_self : (xs : List ℕ) → memcmp xs xs ≡ Ordering.eq
unfolding memcmp
memcmp_self [] = refl
memcmp_self (x ∷ xs) = ground (arith, memcmp_self xs)

pub equal_self : (u : Uuid) → equal u u ≡ true
unfolding equal
equal_self u = rw (memcmp_self u.value) refl

memcmp-eq : (xs ys : List ℕ) → length xs ≡ length ys → memcmp xs ys ≡ Ordering.eq → xs ≡ ys
unfolding memcmp
memcmp-eq [] [] n e = refl
memcmp-eq [] (y ∷ ys) n e = absurd (omega arith)
memcmp-eq (x ∷ xs) [] n e = absurd (omega arith)
memcmp-eq (x ∷ xs) (y ∷ ys) n e = ground (arith, memcmp-eq xs ys)

abbrev flip : Ordering → Ordering
flip Ordering.lt = Ordering.gt
flip Ordering.eq = Ordering.eq
flip Ordering.gt = Ordering.lt

memcmp-flip : (xs ys : List ℕ) → memcmp ys xs ≡ flip (memcmp xs ys)
unfolding memcmp
memcmp-flip [] [] = refl
memcmp-flip [] (y ∷ ys) = refl
memcmp-flip (x ∷ xs) [] = refl
memcmp-flip (x ∷ xs) (y ∷ ys) = ground (arith, memcmp-flip xs ys)

memcmp_trans :
    (xs ys zs : List ℕ)
    → length xs ≡ length ys
    → length ys ≡ length zs
    → memcmp xs ys ≡ Ordering.lt
    → memcmp ys zs ≡ Ordering.lt
    → memcmp xs zs ≡ Ordering.lt
unfolding memcmp
memcmp_trans [] ys zs n m h k = cc
memcmp_trans (x ∷ xs) [] zs n m h k = cc
memcmp_trans (x ∷ xs) (y ∷ ys) [] n m h k = cc
memcmp_trans (x ∷ xs) (y ∷ ys) (z ∷ zs) n m h k = ground (arith, memcmp_trans xs ys zs)

module _ (u v : Uuid) (hu : IsUuid u) (hv : IsUuid v) where
  -- Of two identifiers of 16 bytes, exactly one of these holds: the first is less, they are equal
  -- by both operators and are the same, or the second is less.
  pub less-cases :
      ((less u v ≡ true) × (less v u ≡ false) × (equal u v ≡ false) × (u ≢ v))
      ⊎ ((less u v ≡ false) × (less v u ≡ false) × (equal u v ≡ true) × (u ≡ v))
      ⊎ ((less u v ≡ false) × (less v u ≡ true) × (equal u v ≡ false) × (u ≢ v))
  unfolding less equal
  less-cases = by_order (memcmp u.value v.value) refl (memcmp-flip u.value v.value)
    where
      differ : memcmp u.value v.value ≢ Ordering.eq → u ≢ v
      differ other same =
          other (ap (λ (w : Uuid). memcmp u.value w.value) (sym same) ∙ memcmp_self u.value)

      by_order :
          (o : Ordering)
          → memcmp u.value v.value ≡ o
          → memcmp v.value u.value ≡ flip (memcmp u.value v.value)
          → ((less u v ≡ true) × (less v u ≡ false) × (equal u v ≡ false) × (u ≢ v))
            ⊎ ((less u v ≡ false) × (less v u ≡ false) × (equal u v ≡ true) × (u ≡ v))
            ⊎ ((less u v ≡ false) × (less v u ≡ true) × (equal u v ≡ false) × (u ≢ v))
      by_order Ordering.lt e f = inl (ground arith, ground arith, ground arith, differ (λ h. cc))
      by_order Ordering.eq e f = inr (
          inl (
            ground arith,
            ground arith,
            ground arith,
            ap (λ xs. record { value = xs }) (memcmp-eq u.value v.value (omega arith) e),
          ))
      by_order Ordering.gt e f =
          inr (inr (ground arith, ground arith, ground arith, differ (λ h. cc)))

-- The order of the identifiers of 16 bytes is transitive.
pub less_trans :
    (u v w : Uuid)
    → IsUuid u
    → IsUuid v
    → IsUuid w
    → less u v ≡ true
    → less v w ≡ true
    → less u w ≡ true
unfolding less
less_trans u v w hu hv hw h k = ground (arith, memcmp_trans u.value v.value w.value)
