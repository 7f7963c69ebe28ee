-- ===== src/WiredRm/Sinks.antt =====
-- The addresses that the program needs (examples/wired_basic/wired_rm.cpp, main).
use application_aware_resour.Prelude.{
  ℕ, zero, suc, ◌+◌, ◌≤◌, ◌<◌, ◌≡◌, ◌⊎◌, ◌↔◌, refl, arith, List, [], ◌∷◌, ◌++◌, Option, some, none,
  length, get_elem?, inl, inr, String,
}
use application_aware_resour.Codec.{Timespec}
use application_aware_resour.Map.{Map}
use application_aware_resour.Config.{UnitSettings, ServiceSettings, ExperimentParameter}
use application_aware_resour.Reader.Tree.{PropertyTree, ok, holds, Ensures-ok, bind-Ensures}
use application_aware_resour.Reader.Services.{load_rm_client_services}
use application_aware_resour.Reader.Units.{NameMap, load_rm_client_addresses, load_unit_settings}
use application_aware_resour.Reader.Experiment.{load_experiment_settings}
use application_aware_resour.Sink.{sink_threads}
use application_aware_resour.WiredRm.Start.{Program, start_sinks, start_program}
use application_aware_resour.WiredRm.{main, host_name_of, default_config}

get_elem?-none : (xs : List String) (i : ℕ) → get_elem? xs i ≡ none → length xs ≤ i
get_elem?-none [] i e = omega arith
get_elem?-none (x ∷ xs) zero e = cc
get_elem?-none (x ∷ xs) (suc i) e = omega (arith, get_elem?-none xs i e)

get_elem?-some : (xs : List String) (i : ℕ) (x : String) → get_elem? xs i ≡ some x → i < length xs
get_elem?-some [] i x e = cc
get_elem?-some (y ∷ xs) zero x e = omega arith
get_elem?-some (y ∷ xs) (suc i) x e = omega (arith, get_elem?-some xs i x e)

-- The sinks start, or an address is missing.
start_sinks-cases :
    (n from : ℕ) (unit : UnitSettings)
    → ((l : List (String × ℕ)) × (start_sinks n from unit ≡ some l)
        × ((n ≡ 0) ⊎ (from + n ≤ length unit.service_local_ip)))
      ⊎ ((start_sinks n from unit ≡ none) × (length unit.service_local_ip < from + n))
unfolding start_sinks
start_sinks-cases zero from unit = inl ([], refl, inl refl)
start_sinks-cases (suc n) from unit =
    by_address (get_elem? unit.service_local_ip from) refl (start_sinks-cases n (suc from) unit)
  where
    by_address :
        (o : Option String)
        → get_elem? unit.service_local_ip from ≡ o
        → ((l : List (String × ℕ)) × (start_sinks n (suc from) unit ≡ some l)
            × ((n ≡ 0) ⊎ (suc from + n ≤ length unit.service_local_ip)))
          ⊎ ((start_sinks n (suc from) unit ≡ none) × (length unit.service_local_ip < suc from + n))
        → ((l : List (String × ℕ)) × (start_sinks (suc n) from unit ≡ some l)
            × ((suc n ≡ 0) ⊎ (from + suc n ≤ length unit.service_local_ip)))
          ⊎ ((start_sinks (suc n) from unit ≡ none) × (length unit.service_local_ip < from + suc n))
    by_address none e rest =
        let missing = get_elem?-none unit.service_local_ip from e in
        inr (rw (e, start_sinks) refl, omega arith)
    by_address (some address) e (inr (stuck, few)) =
        inr (rw (e, start_sinks) (rw (stuck, start_sinks) refl), omega arith)
    by_address (some address) e (inl (l, started, inl last)) =
        let there = get_elem?-some unit.service_local_ip from address e in
        inl (
          sink_threads address unit.service_local_port ++ l,
          rw (e, start_sinks) (rw (started, start_sinks) refl),
          inr (omega arith),
        )
    by_address (some address) e (inl (l, started, inr more)) = inl (
      sink_threads address unit.service_local_port ++ l,
      rw (e, start_sinks) (rw (started, start_sinks) refl),
      inr (omega arith),
    )

-- The end of `main` on the configuration that was read.
abbrev Starts : UnitSettings → Option Program → Type 0
Starts unit result = (result ≡ none) ↔ (length unit.service_local_ip < 5)

start_program-Starts :
    (last : Timespec) (unit : UnitSettings) (services : Map (Map ServiceSettings))
    (clients : Map UnitSettings) (experiment : ExperimentParameter)
    → Starts unit (start_program last unit services clients experiment)
unfolding start_program
start_program-Starts last unit services clients experiment = by_sinks (start_sinks-cases 5 0 unit)
  where
    by_sinks :
        ((l : List (String × ℕ)) × (start_sinks 5 0 unit ≡ some l)
            × ((◌≡◌ {A = ℕ} 5 0) ⊎ (5 ≤ length unit.service_local_ip)))
          ⊎ ((start_sinks 5 0 unit ≡ none) × (length unit.service_local_ip < 5))
        → Starts unit (start_program last unit services clients experiment)
    by_sinks (inl (l, e, inl zero_sinks)) = absurd (omega arith)
    by_sinks (inl (l, e, inr enough)) =
        rw (e, start_program) ((λ h. cc), (λ h. absurd (omega arith)))
    by_sinks (inr (e, few)) = rw (e, start_program) ((λ _. few), (λ _. refl))

-- The main program of the resource manager, if it gets through its reading, reads an address behind
-- the end of the vector exactly if the unit of its host has fewer than five service addresses.
pub main-Starts :
    (p : PropertyTree) (memory_of : p.Tree → ℕ) (memory : ℕ) (last : Timespec) (args : List String)
    (unit : UnitSettings) (names : NameMap UnitSettings) (result : Option Program)
    → load_unit_settings p (host_name_of args) default_config ≡ ok (unit, names)
    → main p memory_of memory last args ≡ ok result
    → (result ≡ none) ↔ (length unit.service_local_ip < 5)
unfolding main
main-Starts p memory_of memory last args unit names result loaded ended =
    Ensures-ok {P = Starts unit}
      (rw loaded (
        bind-Ensures (load_rm_client_services p memory_of default_config) _ λ services.
          bind-Ensures (load_rm_client_addresses p default_config) _ λ clients.
            bind-Ensures (load_experiment_settings p memory default_config) _ λ experiment.
              holds (start_program last unit services clients experiment)
                (start_program-Starts last unit services clients experiment)))
      ended
