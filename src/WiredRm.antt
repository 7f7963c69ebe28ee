-- ===== src/WiredRm.antt =====
-- The program of the resource manager (examples/wired_basic/wired_rm.cpp): what `main` reads and what
-- it starts. The threads that it joins never end.
pub mod Start
pub mod Sinks
pub mod Ready
mod Tests
use application_aware_resour.Prelude.{ℕ, List, [], ◌∷◌, Option, String}
use application_aware_resour.Codec.{Timespec}
use application_aware_resour.Map.{Map}
use application_aware_resour.Config.{ServiceSettings, UnitSettings, ExperimentParameter}
use application_aware_resour.Reader.Tree.{PropertyTree, Result, ok, ◌>>=◌}
use application_aware_resour.Reader.Services.{load_rm_client_services}
use application_aware_resour.Reader.Units.{load_rm_client_addresses, load_unit_settings}
use application_aware_resour.Reader.Experiment.{load_experiment_settings}
use application_aware_resour.WiredRm.Start.{Program, start_program}

-- `DEFAULT_CONFIG`
abbrev pub default_config : String
default_config = "demonstrator_configuration.json"

-- The name of the host: the first argument behind the name of the program.
abbrev pub host_name_of : List String → String
host_name_of [] = "SENSORFUSION"
host_name_of (name ∷ _) = name

-- `main`: a fault of the reader ends the program, and `none` is undefined behaviour. The memory is that
-- of the records that are read and of the timestamp.
unfoldable pub main :
    (p : PropertyTree) → (p.Tree → ℕ) → ℕ → Timespec → List String → Result (Option Program)
unfolding start_program load_unit_settings load_rm_client_services load_rm_client_addresses
    load_experiment_settings
main p memory_of memory last args =
    load_unit_settings p (host_name_of args) default_config >>= λ (local, names).
    load_rm_client_services p memory_of default_config >>= λ services.
    load_rm_client_addresses p default_config >>= λ clients.
    load_experiment_settings p memory default_config >>= λ experiment.
    ok (start_program last local services clients experiment)
