-- ===== src/Map/Laws.antt =====
-- A map is the function from its keys: what each operation does to it, and the order of the keys.
use application_aware_resour.Prelude.{
  ℕ, ◌<◌, ◌≤◌, ◌≡◌, refl, arith, [], ◌∷◌, Option, none, some, ◌==◌, if◌then◌else◌,
}
use application_aware_resour.Map.{Map, find, insert, assign, erase}

abbrev pub or_else : {V : Type 0} → Option V → V → V
or_else none v = v
or_else (some w) v = w

-- The keys rise, from above `lo` on.
abbrev pub Above : {V : Type 0} → ℕ → Map V → Type 0
Above lo [] = Unit {0}
Above lo ((k, v) ∷ m) = (lo < k) × Above k m

abbrev pub IsSorted : {V : Type 0} → Map V → Type 0
IsSorted [] = Unit {0}
IsSorted ((k, v) ∷ m) = Above k m

module _ {V : Type 0} where
  Above-below : (lo lo' : ℕ) (m : Map V) → lo' ≤ lo → Above lo m → Above lo' m
  Above-below lo lo' [] below above = above
  Above-below lo lo' ((k, v) ∷ m) below (first, above) = (omega arith, above)

  -- A key below the first is missing.
  find-Above : (lo key : ℕ) (m : Map V) → key ≤ lo → Above lo m → find key m ≡ none
  unfolding find
  find-Above lo key [] below above = refl
  find-Above lo key ((k, v) ∷ m) below (first, above) =
      ground (arith, find-Above k key m (omega arith) above)

  -- `insert` adds an entry for a key that is missing and changes no other.
  find-insert :
      (lo j key : ℕ) (value : V) (m : Map V)
      → Above lo m
      → find j (insert key value m)
        ≡ (if key == j then some (or_else (find key m) value) else find j m)
  unfolding find insert
  find-insert lo j key value [] above = refl
  find-insert lo j key value ((k, v) ∷ m) (first, above) =
      ground (arith, find-insert k j key value m above, find-Above k key m)

  find-assign :
      (lo j key : ℕ) (value : V) (m : Map V)
      → Above lo m
      → find j (assign key value m) ≡ (if key == j then some value else find j m)
  unfolding find assign
  find-assign lo j key value [] above = refl
  find-assign lo j key value ((k, v) ∷ m) (first, above) =
      ground (arith, find-assign k j key value m above)

  find-erase :
      (lo j key : ℕ) (m : Map V)
      → Above lo m
      → find j (erase key m).1 ≡ (if key == j then none else find j m)
  unfolding find erase
  find-erase lo j key [] above = ground arith
  find-erase lo j key ((k, v) ∷ m) (first, above) =
      ground (arith, find-erase k j key m above, find-Above k key m)

  insert-Above :
      (lo key : ℕ) (value : V) (m : Map V) → lo < key → Above lo m → Above lo (insert key value m)
  unfolding insert
  insert-Above lo key value [] low above = (low, tt)
  insert-Above lo key value ((k, v) ∷ m) low (first, above) =
      ground (arith, insert-Above k key value m)

  Above-IsSorted : (lo : ℕ) (m : Map V) → Above lo m → IsSorted m
  Above-IsSorted lo [] above = tt
  Above-IsSorted lo ((k, v) ∷ m) (first, above) = above

  -- In a map whose keys rise, insert adds the entry of a missing key, keeps the entry of a key that
  -- is there and changes no other key.
  pub find-insert_sorted :
      (j key : ℕ) (value : V) (m : Map V)
      → IsSorted m
      → find j (insert key value m)
        ≡ (if key == j then some (or_else (find key m) value) else find j m)
  unfolding find insert
  find-insert_sorted j key value [] sorted = refl
  find-insert_sorted j key value ((k, v) ∷ m) sorted =
      ground (arith, find-insert k j key value m sorted, find-Above k key m)

  -- In a map whose keys rise, assigning through operator[] gives the key its value and changes no
  -- other key.
  pub find-assign_sorted :
      (j key : ℕ) (value : V) (m : Map V)
      → IsSorted m
      → find j (assign key value m) ≡ (if key == j then some value else find j m)
  unfolding find assign
  find-assign_sorted j key value [] sorted = refl
  find-assign_sorted j key value ((k, v) ∷ m) sorted =
      ground (arith, find-assign k j key value m sorted)

  -- In a map whose keys rise, erase takes the key out and leaves every other.
  pub find-erase_sorted :
      (j key : ℕ) (m : Map V)
      → IsSorted m
      → find j (erase key m).1 ≡ (if key == j then none else find j m)
  unfolding find erase
  find-erase_sorted j key [] sorted = ground arith
  find-erase_sorted j key ((k, v) ∷ m) sorted =
      ground (arith, find-erase k j key m sorted, find-Above k key m)

  -- Insert keeps the keys of a map rising.
  pub insert-IsSorted :
      (key : ℕ) (value : V) (m : Map V) → IsSorted m → IsSorted (insert key value m)
  unfolding insert
  insert-IsSorted key value [] sorted = tt
  insert-IsSorted key value ((k, v) ∷ m) sorted = ground (arith, insert-Above k key value m)

  assign-Above :
      (lo key : ℕ) (value : V) (m : Map V) → lo < key → Above lo m → Above lo (assign key value m)
  unfolding assign
  assign-Above lo key value [] low above = (low, tt)
  assign-Above lo key value ((k, v) ∷ m) low (first, above) =
      ground (arith, assign-Above k key value m)

  pub assign-IsSorted :
      (key : ℕ) (value : V) (m : Map V) → IsSorted m → IsSorted (assign key value m)
  unfolding assign
  assign-IsSorted key value [] sorted = tt
  assign-IsSorted key value ((k, v) ∷ m) sorted = ground (arith, assign-Above k key value m)

  erase-Above : (lo key : ℕ) (m : Map V) → Above lo m → Above lo (erase key m).1
  unfolding erase
  erase-Above lo key [] above = tt
  erase-Above lo key ((k, v) ∷ m) (first, above) =
      ground (arith, erase-Above k key m above, Above-below k lo m)

  pub erase-IsSorted : (key : ℕ) (m : Map V) → IsSorted m → IsSorted (erase key m).1
  unfolding erase
  erase-IsSorted key [] sorted = tt
  erase-IsSorted key ((k, v) ∷ m) sorted =
      ground (arith, erase-Above k key m sorted, Above-IsSorted k m)
