-- ===== src/WiredRm/Ready.antt =====
-- From the file to the clients: what is read puts the manager into the state in which it can start
-- the traffic, whatever messages are handled before (examples/wired_basic/wired_rm.cpp,
-- include/rscmng/rm/net_layer_rm.tpp).
use application_aware_resour.Prelude.{
  ℕ, ◌^◌, ◌<◌, ◌≡◌, refl, sym, subst, ap, ◌∙◌, arith, List, [], ◌∷◌, Option, some, none, String,
  All, Bool, true, false, if◌then◌else◌, ◌==◌, ltb, inl, inr, Option-cases, some_inj,
}
use application_aware_resour.Prelude
use application_aware_resour.Codec.{Timespec}
use application_aware_resour.Message.{Message}
use application_aware_resour.Channel.{Endpoint}
use application_aware_resour.Clock.{get_round_timestamp}
use application_aware_resour.Clock.Sums.{behind_second}
use application_aware_resour.Map.{Map, insert}
use application_aware_resour.Config.{ServiceSettings, UnitSettings, ExperimentParameter}
use application_aware_resour.Manager.{
  Manager, Platform, get_client_address, handle_messages, initial_manager, register_timer,
}
use application_aware_resour.Manager.Start.{start_network_traffic_synchronous}
use application_aware_resour.Manager.Registration.{
  emptied, registered, handle_message-request, handle_message-other, request-or-other,
}
use application_aware_resour.Manager.Commands.{Receiver, IsReceiver, IsPlatform}
use application_aware_resour.Manager.Telling.{Runs, told, HasService}
use application_aware_resour.Manager.StartCommands.{
  IsInstant, ReadsAs, start_of, start_network_traffic_synchronous-Runs,
}
use application_aware_resour.Manager.Slots.{IsServices, slot_of}
use application_aware_resour.Reader.Tree.{
  PropertyTree, ok, Ensures, holds, Ensures-ok, Ensures-of, bind-Ensures, then-Ensures,
}
use application_aware_resour.Reader.Services.{load_rm_client_services, parsed_file}
use application_aware_resour.Reader.Units.{load_rm_client_addresses, load_unit_settings}
use application_aware_resour.Reader.Experiment.{load_experiment_settings}
use application_aware_resour.Reader.Ranges.{
  IsConfigured, check_service_settings-IsConfigured, slot_of-fits,
}
use application_aware_resour.Reader.Parameters.{FitsParameters, check_experiment_settings-Fits}
use application_aware_resour.WiredRm.Start.{Program, start_sinks, start_program}
use application_aware_resour.WiredRm.{main, host_name_of, default_config}

-- The state of the manager before the start: nothing but the services has changed, and they are in
-- range.
record IsWaiting (services : Map (Map ServiceSettings)) (st : Manager) : Type 0 where
  configured : st.rm_client_service_map ≡ services
  unread : st.readings ≡ 0
  bounded : All HasService st.service_list

insert-HasService :
    (key : ℕ) (m : Message) (l : Map Message)
    → key < 2 ^ 64
    → All HasService l
    → All HasService (insert key m l)
unfolding insert
insert-HasService key m [] low h = (low, tt)
insert-HasService key m ((k, v) ∷ l) low (first, rest) =
    ground (arith, insert-HasService key m l low rest)

registered-IsWaiting :
    (services : Map (Map ServiceSettings)) (m : Message) (st : Manager)
    → m.service_id < 2 ^ 64
    → IsWaiting services st
    → IsWaiting services (registered m st)
unfolding registered
registered-IsWaiting services m st low w = record {
  configured = w.configured;
  unread = w.unread;
  bounded = insert-HasService m.service_id (emptied m) st.service_list low w.bounded;
}

abbrev pub IsBounded : List ℕ × List ℕ × Message → Type 0
IsBounded (raw, raw', m) = m.service_id < 2 ^ 64

handle_messages-IsWaiting :
    (services : Map (Map ServiceSettings)) (l : List (List ℕ × List ℕ × Message)) (st : Manager)
    → All IsBounded l
    → IsWaiting services st
    → (st' : Manager) × (handle_messages l st ≡ some st') × IsWaiting services st'
unfolding handle_messages
handle_messages-IsWaiting services [] st h w = (st, refl, w)
handle_messages-IsWaiting services ((raw, raw', m) ∷ l) st (low, rest) w =
    elim (request-or-other m.message_type) [
      | inl e ↦ rw (handle_message-request raw raw' m st e) (
          handle_messages-IsWaiting services l (registered m st) rest
            (registered-IsWaiting services m st low w))
      | inr e ↦
          rw (handle_message-other raw raw' m st e) (handle_messages-IsWaiting services l st rest w)
    ]

module _ (p : PropertyTree) (memory_of : p.Tree → ℕ) (memory : ℕ) (last : Timespec)
    (args : List String) where
  -- What the file gives a program that starts.
  record IsReady (program : Program) : Type 0 where
    services : IsConfigured program.manager.rm_client_service_map
    parameters : FitsParameters program.experiment_parameter
    waiting : IsWaiting program.manager.rm_client_service_map program.manager
    services_read :
        load_rm_client_services p memory_of default_config
        ≡ ok program.manager.rm_client_service_map
    clients_read : load_rm_client_addresses p default_config ≡ ok program.rm_client_config_map
    experiment_read :
        load_experiment_settings p memory default_config ≡ ok program.experiment_parameter

  start_program-IsReady :
      (unit : UnitSettings) (services : Map (Map ServiceSettings)) (clients : Map UnitSettings)
      (experiment : ExperimentParameter) (program : Program)
      → IsConfigured services × (load_rm_client_services p memory_of default_config ≡ ok services)
      → load_rm_client_addresses p default_config ≡ ok clients
      → FitsParameters experiment
        × (load_experiment_settings p memory default_config ≡ ok experiment)
      → start_program last unit services clients experiment ≡ some program
      → IsReady program
  unfolding start_program initial_manager register_timer
  start_program-IsReady unit services clients experiment program (v, e1) e2 (f, e3) started =
      by_sinks (start_sinks 5 0 unit) started
    where
      started_with : List (String × ℕ) → Program
      started_with sinks = record {
        manager = initial_manager last services experiment;
        rm_client_config_map = clients;
        experiment_parameter = experiment;
        sinks = sinks;
      }

      by_sinks :
          (o : Option (List (String × ℕ)))
          → (Prelude.◌>>=◌ o λ sinks. some (started_with sinks)) ≡ some program
          → IsReady program
      by_sinks none e = cc
      by_sinks (some sinks) e = subst IsReady (some_inj e) (record {
        services = v;
        parameters = f;
        waiting = record { configured = refl; unread = refl; bounded = tt };
        services_read = e1;
        clients_read = e2;
        experiment_read = e3;
      })

  services-Ensures :
      Ensures
        (λ services.
          IsConfigured services
          × (load_rm_client_services p memory_of default_config ≡ ok services))
        (load_rm_client_services p memory_of default_config)
  unfolding load_rm_client_services
  services-Ensures = Ensures-of _ λ services e. (Ensures-ok configured e, e)
    where
      configured : Ensures IsConfigured (load_rm_client_services p memory_of default_config)
      configured =
          bind-Ensures (parsed_file p default_config) _
            λ t. Ensures-of _ (check_service_settings-IsConfigured p memory_of t)

  experiment-Ensures :
      Ensures
        (λ experiment.
          FitsParameters experiment
          × (load_experiment_settings p memory default_config ≡ ok experiment))
        (load_experiment_settings p memory default_config)
  unfolding load_experiment_settings
  experiment-Ensures = Ensures-of _ λ experiment e. (Ensures-ok fits e, e)
    where
      fits : Ensures FitsParameters (load_experiment_settings p memory default_config)
      fits =
          bind-Ensures (parsed_file p default_config) _
            λ t. Ensures-of _ (check_experiment_settings-Fits p memory t)

  main-Ensures :
      Ensures
        (λ result. (program : Program) → result ≡ some program → IsReady program)
        (main p memory_of memory last args)
  unfolding main
  main-Ensures =
      bind-Ensures (load_unit_settings p (host_name_of args) default_config) _ λ (unit, names).
        then-Ensures _ services-Ensures λ services v.
          then-Ensures _ (Ensures-of _ (λ clients e. e)) λ clients e.
            then-Ensures _ experiment-Ensures λ experiment f.
              holds (start_program last unit services clients experiment)
                λ program. start_program-IsReady unit services clients experiment program v e f

  module _ (program : Program) (ended : main p memory_of memory last args ≡ ok (some program))
      (r : Receiver) (receiver : IsReceiver r) (platform : Platform) (behaves : IsPlatform platform)
      (address : ℕ → Endpoint)
      (known : (client : ℕ)
        → get_client_address program.rm_client_config_map client ≡ some (address client)) where
    ready : IsReady program
    ready = Ensures-ok main-Ensures ended program refl

    -- If the main program of the resource manager starts, then its services, its clients and its
    -- parameters are those that are read from the configuration file, its handler handles whatever
    -- messages arrive before the start, and the synchronous start after them returns and tells
    -- every registered service of a client that has a start mode of the file, in the order of the
    -- services, to start in the low eight bits of that mode. The time it is told is that of a slot:
    -- of the one that the file has for the low 32 bits of the service and the mode. The whole
    -- seconds of the distribution phase and of the slot are added to the next whole second, and
    -- then the rest of the slot in milliseconds; the rest of the phase is left out. The services of
    -- the messages fit their type, every client has an address, the buffers have their memory, and
    -- the clock is in range; of the numbers in the file nothing is assumed but the type they are
    -- read as.
    pub start-Runs :
        (messages : List (List ℕ × List ℕ × Message))
        → All IsBounded messages
        → IsInstant (2 ^ 61) (platform.clock 0)
        → (load_rm_client_services p memory_of default_config
            ≡ ok program.manager.rm_client_service_map)
          × (load_rm_client_addresses p default_config ≡ ok program.rm_client_config_map)
          × (load_experiment_settings p memory default_config ≡ ok program.experiment_parameter)
          × (st : Manager) × (handle_messages messages program.manager ≡ some st)
          × Runs r
              (ReadsAs program.manager.rm_client_service_map)
              (told program.experiment_parameter.startup_mode_map
                program.experiment_parameter.startup_mode
                (start_of r receiver platform behaves program.rm_client_config_map address known
                  program.experiment_parameter program.manager.rm_client_service_map behind_second
                  (behind_second
                    (get_round_timestamp (platform.clock st.readings))
                    program.experiment_parameter.mc_distribution_phase_duration))
                st.service_list)
              st
              (start_network_traffic_synchronous platform program.rm_client_config_map
                program.experiment_parameter st)
    start-Runs messages low instant =
        let services = program.manager.rm_client_service_map in
        let (st, handled, w) =
          handle_messages-IsWaiting services messages program.manager low ready.waiting in
        (
          ready.services_read,
          ready.clients_read,
          ready.experiment_read,
          st,
          handled,
          start_network_traffic_synchronous-Runs r receiver platform behaves
              program.rm_client_config_map address known program.experiment_parameter services st
              (subst (λ k. IsInstant (2 ^ 61) (platform.clock k)) (sym w.unread) instant)
              ready.parameters.mc_distribution_phase_duration (slot_of-fits services ready.services)
              w.bounded
              (record {
                well_formed = subst IsServices (sym w.configured) ready.services.well_formed;
                slots = λ j k. ap (λ m. slot_of m j k) w.configured;
              }),
        )
