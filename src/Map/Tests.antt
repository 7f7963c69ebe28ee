-- ===== src/Map/Tests.antt =====
-- Examples for the maps (include/rscmng/data_sharing/safe_map.hpp).
use application_aware_resour.Prelude.{ℕ, ◌≡◌, refl, [], ◌∷◌}
use application_aware_resour.Map.{Map, insert, assign, erase}

abbrev two : Map ℕ
two = (3, 30) ∷ (7, 70) ∷ []

-- `insert` keeps the entry that is there, an assignment does not.
insert-two : insert 3 31 (assign 7 71 two) ≡ (3, 30) ∷ (7, 71) ∷ []
unfolding insert assign
insert-two = refl

erase-two : erase 3 two ≡ (1, (7, 70) ∷ [])
unfolding erase
erase-two = refl
