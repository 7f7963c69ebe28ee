-- ===== src/Manager/Slots.antt =====
-- The slots of the clients: what `rm_client_service_map[service][mode].slot_offset` reads and what it
-- leaves in the map (include/rscmng/rm/net_layer_rm.tpp).
use application_aware_resour.Prelude.{
  ℕ, ◌≡◌, Bool, true, false, refl, subst, sym, ap, ◌∙◌, [], ◌==◌, if◌then◌else◌, arith,
}
use application_aware_resour.Map.{Map, find, index, assign}
use application_aware_resour.Map.Index.{index-value, index-find, index-IsSorted}
use application_aware_resour.Map.Laws.{or_else, IsSorted, find-assign_sorted, assign-IsSorted}
use application_aware_resour.Config.{ServiceSettings, no_settings}
use application_aware_resour.Manager.{Manager}
use application_aware_resour.Manager.Start.{slot_offset}

abbrev Services : Type 0
Services = Map (Map ServiceSettings)

-- The slot that the configuration has for a service in a mode; 0 where it has none.
unfoldable pub slot_of : Services → ℕ → ℕ → ℕ
slot_of services service_id mode =
    (or_else (find mode (or_else (find service_id services) [])) no_settings).slot_offset

-- The keys of the map rise, and so do those of every map in it.
pub record IsServices (services : Services) : Type 0 where
  pub sorted : IsSorted services
  pub inner : (j : ℕ) → IsSorted (or_else (find j services) [])

module _ (service_id mode : ℕ) (st : Manager) (v : IsServices st.rm_client_service_map) where
  abbrev modes : Map ServiceSettings
  modes = (index [] service_id st.rm_client_service_map).0

  abbrev services : Services
  services = (index [] service_id st.rm_client_service_map).1

  abbrev modes' : Map ServiceSettings
  modes' = (index no_settings mode modes).1

  abbrev left : Services
  left = assign service_id modes' services

  modes-configured : modes ≡ or_else (find service_id st.rm_client_service_map) []
  modes-configured = index-value [] service_id st.rm_client_service_map

  modes-IsSorted : IsSorted modes
  modes-IsSorted = subst IsSorted (sym modes-configured) (v.inner service_id)

  services-IsSorted : IsSorted services
  services-IsSorted = index-IsSorted [] service_id st.rm_client_service_map v.sorted

  left-modes :
      (j : ℕ)
      → or_else (find j left) []
        ≡ (if service_id == j then modes' else or_else (find j st.rm_client_service_map) [])
  left-modes j = ground (
    arith,
    find-assign_sorted j service_id modes' services services-IsSorted,
    index-find [] j service_id st.rm_client_service_map v.sorted,
  )

  left-entry :
      (j k : ℕ)
      → or_else (find k (or_else (find j left) [])) no_settings
        ≡ or_else (find k (or_else (find j st.rm_client_service_map) [])) no_settings
  left-entry j k =
      ap (λ m. or_else (find k m) no_settings) (left-modes j) ∙ by_test (service_id == j) refl
    where
      by_test :
          (test : Bool)
          → service_id == j ≡ test
          → or_else
              (find k (if test then modes' else or_else (find j st.rm_client_service_map) []))
              no_settings
            ≡ or_else (find k (or_else (find j st.rm_client_service_map) [])) no_settings
      by_test false e = refl
      by_test true e =
          index-find no_settings k mode modes modes-IsSorted
          ∙ ap (λ m. or_else (find k m) no_settings)
              (modes-configured
                ∙ ap (λ i. or_else (find i st.rm_client_service_map) []) (ground arith))

  -- `slot_offset` reads the slot, and what it leaves in the map reads as before.
  pub slot_offset-reads :
      (slot_offset service_id mode st).0 ≡ slot_of st.rm_client_service_map service_id mode
  unfolding slot_offset slot_of
  slot_offset-reads =
      ap (λ (s : ServiceSettings). s.slot_offset)
        (index-value no_settings mode modes
          ∙ ap (λ m. or_else (find mode m) no_settings) modes-configured)

  pub slot_offset-keeps :
      (j k : ℕ)
      → slot_of (slot_offset service_id mode st).1.rm_client_service_map j k
        ≡ slot_of st.rm_client_service_map j k
  unfolding slot_offset slot_of
  slot_offset-keeps j k = ap (λ (s : ServiceSettings). s.slot_offset) (left-entry j k)

  pub slot_offset-IsServices : IsServices (slot_offset service_id mode st).1.rm_client_service_map
  unfolding slot_offset
  slot_offset-IsServices = record {
    sorted = assign-IsSorted service_id modes' services services-IsSorted;
    inner = λ j. subst IsSorted (sym (left-modes j)) (by_test j (service_id == j));
  }
    where
      by_test :
          (j : ℕ) (test : Bool)
          → IsSorted (if test then modes' else or_else (find j st.rm_client_service_map) [])
      by_test j true = index-IsSorted no_settings mode modes modes-IsSorted
      by_test j false = v.inner j
