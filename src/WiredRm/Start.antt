-- ===== src/WiredRm/Start.antt =====
-- What the program of the resource manager starts (examples/wired_basic/wired_rm.cpp, main): the manager
-- and five sinks.
use application_aware_resour.Prelude.{
  ℕ, zero, suc, List, [], ◌++◌, Option, some, String, get_elem?, ◌>>=◌,
}
use application_aware_resour.Codec.{Timespec}
use application_aware_resour.Map.{Map}
use application_aware_resour.Config.{ServiceSettings, UnitSettings, ExperimentParameter}
use application_aware_resour.Manager.{Manager, initial_manager}
use application_aware_resour.Sink.{sink_threads}

-- What runs: the manager with the configuration of the clients and the parameters of the experiment,
-- and the addresses and ports of the sinks.
pub record Program : Type 0 where
  pub manager : Manager
  pub rm_client_config_map : Map UnitSettings
  pub experiment_parameter : ExperimentParameter
  pub sinks : List (String × ℕ)

-- The sinks of the addresses `from` to `from + n - 1`; an address that is missing is read behind the
-- end of its vector.
unfoldable pub start_sinks : ℕ → ℕ → UnitSettings → Option (List (String × ℕ))
unfolding sink_threads
start_sinks zero from local_rm_configuration = some []
start_sinks (suc n) from local_rm_configuration = do
  address ← get_elem? local_rm_configuration.service_local_ip from
  rest ← start_sinks n (suc from) local_rm_configuration
  some (sink_threads address local_rm_configuration.service_local_port ++ rest)

unfoldable pub start_program :
    Timespec
    → UnitSettings
    → Map (Map ServiceSettings)
    → Map UnitSettings
    → ExperimentParameter
    → Option Program
unfolding start_sinks initial_manager
start_program last local_rm_configuration service_configuration_map endnode_configuration_map
      experiment_1_parameter =
    do
      sinks ← start_sinks 5 0 local_rm_configuration
      some (record {
        manager = initial_manager last service_configuration_map experiment_1_parameter;
        rm_client_config_map = endnode_configuration_map;
        experiment_parameter = experiment_1_parameter;
        sinks = sinks;
      })
