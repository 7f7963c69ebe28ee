-- ===== src/Map/Index.antt =====
-- What `operator[]` reads and what it leaves (include/rscmng/rm/net_layer_rm.tpp uses it on the maps of
-- the configuration): a missing key gets an entry, which changes no reading.
use application_aware_resour.Prelude.{
  ℕ, ◌≡◌, refl, subst, sym, ap, ◌∙◌, Option-cases, arith, some, none, inl, inr,
}
use application_aware_resour.Map.{Map, find, index, insert}
use application_aware_resour.Map.Laws.{or_else, IsSorted, find-insert_sorted, insert-IsSorted}

module _ {V : Type 0} (initial : V) where
  index-missing :
      (key : ℕ) (m : Map V)
      → find key m ≡ none
      → index initial key m ≡ (initial, insert key initial m)
  unfolding index
  index-missing key m e = rw (e, index) refl

  index-present : (key : ℕ) (v : V) (m : Map V) → find key m ≡ some v → index initial key m ≡ (v, m)
  unfolding index
  index-present key v m e = rw (e, index) refl

  pub index-value : (key : ℕ) (m : Map V) → (index initial key m).0 ≡ or_else (find key m) initial
  index-value key m = elim (Option-cases (find key m)) [
    | inl e ↦ rw (index-missing key m e, e) refl
    | inr (v, e) ↦ rw (index-present key v m e, e) refl
  ]

  -- Reading with `operator[]` changes no reading.
  pub index-find :
      (j key : ℕ) (m : Map V)
      → IsSorted m
      → or_else (find j (index initial key m).1) initial ≡ or_else (find j m) initial
  index-find j key m sorted = elim (Option-cases (find key m)) [
    | inl e ↦
        ap (λ (r : V × Map V). or_else (find j r.1) initial) (index-missing key m e) ∙ missing e
    | inr (v, e) ↦ ap (λ (r : V × Map V). or_else (find j r.1) initial) (index-present key v m e)
  ]
    where
      missing :
          find key m ≡ none
          → or_else (find j (insert key initial m)) initial ≡ or_else (find j m) initial
      missing e = ground (arith, find-insert_sorted j key initial m sorted, e)

  pub index-IsSorted : (key : ℕ) (m : Map V) → IsSorted m → IsSorted (index initial key m).1
  index-IsSorted key m sorted = elim (Option-cases (find key m)) [
    | inl e ↦
        subst (λ (r : V × Map V). IsSorted r.1) (sym (index-missing key m e))
          (insert-IsSorted key initial m sorted)
    | inr (v, e) ↦ subst (λ (r : V × Map V). IsSorted r.1) (sym (index-present key v m e)) sorted
  ]
