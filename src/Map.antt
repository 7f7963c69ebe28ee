-- ===== src/Map.antt =====
-- `SharedMap` (include/rscmng/data_sharing/safe_map.hpp) and the `std::map`s with `uint32_t` and
-- `uint64_t` keys: the entries in the order of their keys, which is the order of iteration. Every
-- method holds the lock, so a call is one step.
pub mod Laws
pub mod Index
mod Tests
use application_aware_resour.Prelude.{
  ℕ, List, [], ◌∷◌, Option, none, some, length, ltb, ◌==◌, if◌then◌else◌,
}

abbrev pub Map : Type 0 → Type 0
Map V = List (ℕ × V)

module _ {V : Type 0} where
  unfoldable pub find : ℕ → Map V → Option V
  find key [] = none
  find key ((k, v) ∷ m) = if k == key then some v else find key m

  -- `insert` leaves the entry of a key that is there.
  unfoldable pub insert : ℕ → V → Map V → Map V
  insert key value [] = (key, value) ∷ []
  insert key value ((k, v) ∷ m) =
      if key == k
      then (k, v) ∷ m
      else if ltb key k
      then (key, value) ∷ (k, v) ∷ m
      else (k, v) ∷ insert key value m

  -- `map[key] = value`
  unfoldable pub assign : ℕ → V → Map V → Map V
  assign key value [] = (key, value) ∷ []
  assign key value ((k, v) ∷ m) =
      if key == k
      then (k, value) ∷ m
      else if ltb key k
      then (key, value) ∷ (k, v) ∷ m
      else (k, v) ∷ assign key value m

  -- `map[key]`, read: a key that is missing is inserted with a value-initialised entry.
  unfoldable pub index : V → ℕ → Map V → V × Map V
  unfolding find insert
  index initial key m = elim (find key m) [
    | some v ↦ (v, m)
    | none ↦ (initial, insert key initial m)
  ]

  unfoldable pub erase : ℕ → Map V → ℕ × Map V
  erase key [] = (0, [])
  erase key ((k, v) ∷ m) =
      let (n, m') = erase key m in if k == key then (1, m) else (n, (k, v) ∷ m')

  unfoldable pub size : Map V → ℕ
  size m = length m
