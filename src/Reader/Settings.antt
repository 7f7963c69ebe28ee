-- ===== src/Reader/Settings.antt =====
-- The map of the services that is read: which entry of the file it has for a service and a mode, that
-- its keys rise, and the ranges of its settings.
use application_aware_resour.Prelude.{
  ℕ, ◌≡◌, refl, subst, sym, ap, ◌∙◌, arith, List, [], ◌∷◌, Option, some, none, Bool, true, false,
  ◌==◌, ◌&&◌, if◌then◌else◌,
}
use application_aware_resour.Map.{Map, find, index, assign}
use application_aware_resour.Map.Laws.{or_else, IsSorted, find-assign_sorted, assign-IsSorted}
use application_aware_resour.Map.Index.{index-value, index-find, index-IsSorted}
use application_aware_resour.Config.{ServiceSettings}
use application_aware_resour.Manager.Slots.{IsServices}
use application_aware_resour.Reader.Services.{assign_mode}

-- What the map has for a service and a mode.
unfoldable pub entry : ℕ → ℕ → Map (Map ServiceSettings) → Option ServiceSettings
entry j k m = find k (or_else (find j m) [])

module _ (service_id mode : ℕ) (settings : ServiceSettings) (m : Map (Map ServiceSettings))
    (v : IsServices m) where
  abbrev modes : Map ServiceSettings
  modes = (index [] service_id m).0

  modes_lem : modes ≡ or_else (find service_id m) []
  modes_lem = index-value [] service_id m

  modes-IsSorted : IsSorted modes
  modes-IsSorted = subst IsSorted (sym modes_lem) (v.inner service_id)

  assigned :
      (j : ℕ)
      → or_else (find j (assign_mode service_id mode settings m)) []
        ≡ (if service_id == j then assign mode settings modes else or_else (find j m) [])
  unfolding assign_mode
  assigned j = ground (
    arith,
    find-assign_sorted j service_id (assign mode settings modes) (index [] service_id m).1
        (index-IsSorted [] service_id m v.sorted),
    index-find [] j service_id m v.sorted,
  )

  pub assign_mode-IsServices : IsServices (assign_mode service_id mode settings m)
  unfolding assign_mode
  assign_mode-IsServices = record {
    sorted =
        assign-IsSorted service_id (assign mode settings modes) (index [] service_id m).1
          (index-IsSorted [] service_id m v.sorted);
    inner = λ j. subst IsSorted (sym (assigned j)) (by_test j (service_id == j));
  }
    where
      by_test :
          (j : ℕ) (test : Bool)
          → IsSorted (if test then assign mode settings modes else or_else (find j m) [])
      by_test j true = assign-IsSorted mode settings modes modes-IsSorted
      by_test j false = v.inner j

  pub entry-assign_mode :
      (j k : ℕ)
      → entry j k (assign_mode service_id mode settings m)
        ≡ (if service_id == j && mode == k then some settings else entry j k m)
  unfolding entry
  entry-assign_mode j k = ap (find k) (assigned j) ∙ by_test (service_id == j) refl
    where
      by_test :
          (test : Bool)
          → (service_id == j) ≡ test
          → find k (if test then assign mode settings modes else or_else (find j m) [])
            ≡ (if test && mode == k then some settings else find k (or_else (find j m) []))
      by_test false e = refl
      by_test true e =
          find-assign_sorted k mode settings modes modes-IsSorted
          ∙ ap (λ o. if mode == k then some settings else find k o)
              (modes_lem ∙ ap (λ i. or_else (find i m) []) (ground arith))

-- An entry of the file: its service, its mode and its settings.
abbrev pub Entry : Type 0
Entry = ℕ × ℕ × ServiceSettings

-- The map after the entries, one after the other.
unfoldable pub settle : List Entry → Map (Map ServiceSettings) → Map (Map ServiceSettings)
settle [] m = m
settle ((service_id, mode, settings) ∷ es) m = settle es (assign_mode service_id mode settings m)

-- The last of the entries for a service and a mode.
unfoldable pub last_entry : ℕ → ℕ → List Entry → Option ServiceSettings
last_entry j k [] = none
last_entry j k ((service_id, mode, settings) ∷ es) = elim (last_entry j k es) [
  | some s ↦ some s
  | none ↦ if service_id == j && mode == k then some settings else none
]

abbrev or_entry : Option ServiceSettings → Option ServiceSettings → Option ServiceSettings
or_entry (some s) o = some s
or_entry none o = o

pub settle-IsServices :
    (es : List Entry) (m : Map (Map ServiceSettings)) → IsServices m → IsServices (settle es m)
unfolding settle
settle-IsServices [] m v = v
settle-IsServices ((a, b, s) ∷ es) m v =
    settle-IsServices es (assign_mode a b s m) (assign_mode-IsServices a b s m v)

entry-settle_from :
    (j k : ℕ) (es : List Entry) (m : Map (Map ServiceSettings))
    → IsServices m
    → entry j k (settle es m) ≡ or_entry (last_entry j k es) (entry j k m)
unfolding settle last_entry
entry-settle_from j k [] m v = refl
entry-settle_from j k ((a, b, s) ∷ es) m v =
    entry-settle_from j k es (assign_mode a b s m) (assign_mode-IsServices a b s m v)
    ∙ ap (or_entry (last_entry j k es)) (entry-assign_mode a b s m v j k)
    ∙ by_last (last_entry j k es) (a == j && b == k)
  where
    by_last :
        (o : Option ServiceSettings) (test : Bool)
        → or_entry o (if test then some s else entry j k m)
          ≡ or_entry
              (elim o [ some x ↦ some x | none ↦ if test then some s else none ])
              (entry j k m)
    by_last (some x) test = refl
    by_last none true = refl
    by_last none false = refl

pub nothing-IsServices : IsServices []
unfolding find
nothing-IsServices = record { sorted = tt; inner = λ j. tt }

-- What the map has is the last entry of the file.
pub entry-settle : (es : List Entry) (j k : ℕ) → entry j k (settle es []) ≡ last_entry j k es
unfolding entry last_entry find
entry-settle es j k = entry-settle_from j k es [] nothing-IsServices ∙ by_last (last_entry j k es)
  where
    by_last : (o : Option ServiceSettings) → or_entry o none ≡ o
    by_last (some s) = refl
    by_last none = refl
