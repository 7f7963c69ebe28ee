-- ===== src/WiredRm/Tests.antt =====
-- The program on the configuration of the example.
use application_aware_resour.Prelude.{
  ℕ, ◌<◌, ◌≡◌, ◌↔◌, refl, arith, [], ◌∷◌, some, none, length, ◌==◌, if◌then◌else◌,
}
use application_aware_resour.Payload.Command.{zero_time}
use application_aware_resour.Channel.{Endpoint}
use application_aware_resour.Clock.{get_round_timestamp}
use application_aware_resour.Map.{find}
use application_aware_resour.Uuid.{default_uuid}
use application_aware_resour.Config.{UnitSettings}
use application_aware_resour.Manager.{Manager, get_client_address, handle_messages, initial_manager}
use application_aware_resour.Manager.Start.{start_network_traffic_synchronous}
use application_aware_resour.Manager.Telling.{Runs, told}
use application_aware_resour.Manager.StartCommands.{ReadsAs, start_of}
use application_aware_resour.Manager.Example.{
  memory, platform, platform-IsPlatform, receiver, receiver-IsReceiver, request, instants,
}
use application_aware_resour.Reader.Tree.{ok}
use application_aware_resour.Reader.Units.{load_unit_settings, load_rm_client_addresses}
use application_aware_resour.Reader.Services.{load_rm_client_services}
use application_aware_resour.Reader.Experiment.{load_experiment_settings}
use application_aware_resour.Reader.Example.{configuration, settings, parameters}
use application_aware_resour.WiredRm.Start.{Program}
use application_aware_resour.Clock.Sums.{behind_second}
use application_aware_resour.WiredRm.{main}
use application_aware_resour.WiredRm.Sinks.{main-Starts}
use application_aware_resour.WiredRm.Ready.{start-Runs}

abbrev unit : UnitSettings
unit = record {
  host_name = "SENSORFUSION";
  client_uuid = default_uuid;
  client_id = 1;
  rm_control_local_ip = "10.0.0.1" ∷ [];
  rm_control_local_port = 4000;
  rm_control_rm_ip = "10.0.0.9" ∷ [];
  rm_control_rm_port = 4001;
  service_local_ip = "a" ∷ "b" ∷ "c" ∷ "d" ∷ "e" ∷ [];
  service_local_port = 5100 ∷ [];
  client_priority = 2;
}

abbrev program : Program
program = record {
  manager = initial_manager zero_time ((7, (2, settings) ∷ []) ∷ []) parameters;
  rm_client_config_map = (1, unit) ∷ [];
  experiment_parameter = parameters;
  sinks = ("a", 5100) ∷ ("b", 5100) ∷ ("c", 5100) ∷ ("d", 5100) ∷ ("e", 5100) ∷ [];
}

unit_read :
    load_unit_settings configuration "SENSORFUSION" "demonstrator_configuration.json"
    ≡ ok (unit, ("SENSORFUSION", unit) ∷ [])
unfolding load_unit_settings
unit_read = refl

program_started : main configuration (λ t. 9) 3 zero_time [] ≡ ok (some program)
unfolding main
program_started = refl

main-Starts_example : (some program ≡ none) ↔ (length unit.service_local_ip < 5)
main-Starts_example =
    main-Starts configuration (λ t. 9) 3 zero_time [] unit (("SENSORFUSION", unit) ∷ [])
      (some program) unit_read program_started

abbrev address : ℕ → Endpoint
address client =
    if 1 == client
    then record { address = "10.0.0.1"; port = 4000 }
    else record { address = "127.0.0.1"; port = 25525 }

known :
    (client : ℕ) → get_client_address program.rm_client_config_map client ≡ some (address client)
unfolding get_client_address find
known client = ground arith

start-Runs_example :
    (load_rm_client_services configuration (λ t. 9) "demonstrator_configuration.json"
      ≡ ok program.manager.rm_client_service_map)
    × (load_rm_client_addresses configuration "demonstrator_configuration.json"
        ≡ ok program.rm_client_config_map)
    × (load_experiment_settings configuration 3 "demonstrator_configuration.json" ≡ ok parameters)
    × (st : Manager) × (handle_messages ((memory, memory, request) ∷ []) program.manager ≡ some st)
    × Runs receiver
        (ReadsAs program.manager.rm_client_service_map)
        (told parameters.startup_mode_map parameters.startup_mode
          (start_of receiver receiver-IsReceiver platform platform-IsPlatform
            program.rm_client_config_map address known parameters
            program.manager.rm_client_service_map behind_second
            (behind_second
              (get_round_timestamp (platform.clock st.readings))
              parameters.mc_distribution_phase_duration))
          st.service_list)
        st
        (start_network_traffic_synchronous platform program.rm_client_config_map parameters st)
start-Runs_example =
    start-Runs configuration (λ t. 9) 3 zero_time [] program program_started receiver
      receiver-IsReceiver platform platform-IsPlatform address known
      ((memory, memory, request) ∷ []) (omega arith, tt) (instants 0)
