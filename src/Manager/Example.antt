-- ===== src/Manager/Example.antt =====
-- A small system for the examples: one client that has one service, the platform and the state of
-- the resource manager (include/rscmng/rm/net_layer_rm.tpp).
use application_aware_resour.Prelude.{
  ℕ, ◌^◌, ◌<◌, ◌≡◌, refl, arith, List, [], ◌∷◌, some, replicate, length-replicate, pos, true, ◌==◌,
  if◌then◌else◌,
}
use application_aware_resour.Types.{MessageType}
use application_aware_resour.Payload.Command.{request_size, request_payload}
use application_aware_resour.Types.{RmCommand}
use application_aware_resour.Buffer.{max_length}
use application_aware_resour.Message.{Message, empty_message}
use application_aware_resour.Channel.{Endpoint}
use application_aware_resour.Map.{Map, find}
use application_aware_resour.Uuid.{default_uuid}
use application_aware_resour.Config.{
  UnitSettings, ExperimentParameter, ServiceSettings, no_settings,
}
use application_aware_resour.Manager.{Manager, Platform, get_client_address}
use application_aware_resour.Manager.Commands.{Receiver, IsReceiver, IsPlatform}
use application_aware_resour.Manager.Slots.{slot_of, IsServices}
use application_aware_resour.Manager.StartCommands.{IsInstant, ReadsAs}

abbrev pub memory : List ℕ
memory = replicate max_length 0

abbrev pub platform : Platform
platform = record {
  send = λ n. record {
    raw_payload = memory;
    raw = memory;
    garbage = replicate request_size 7;
    stamp = 1000;
  };
  clock = λ n. record { tv_sec = pos 5000; tv_nsec = pos 250 };
}

pub platform-IsPlatform : IsPlatform platform
platform-IsPlatform n = record {
  memory_payload = length-replicate {A = ℕ} max_length 0;
  memory = length-replicate {A = ℕ} max_length 0;
  request = length-replicate {A = ℕ} request_size 7;
  stamp = omega arith;
}

abbrev pub receiver : Receiver
receiver = record {
  raw_in = memory;
  raw_payload = memory;
  raw_copy = memory;
  old = empty_message;
  blank = request_payload RmCommand.idle (replicate request_size 0);
}

pub receiver-IsReceiver : IsReceiver receiver
receiver-IsReceiver = record {
  memory_in = length-replicate {A = ℕ} max_length 0;
  memory_payload = length-replicate {A = ℕ} max_length 0;
  memory_copy = length-replicate {A = ℕ} max_length 0;
}

abbrev pub config : Map UnitSettings
config =
    (
      1,
      record {
        host_name = "endnode";
        client_uuid = default_uuid;
        client_id = 1;
        rm_control_local_ip = "10.0.0.1" ∷ [];
        rm_control_local_port = 4000;
        rm_control_rm_ip = [];
        rm_control_rm_port = 4001;
        service_local_ip = [];
        service_local_port = [];
        client_priority = 0;
      },
    )
    ∷ []

abbrev pub address : ℕ → Endpoint
address client =
    if 1 == client
    then record { address = "10.0.0.1"; port = 4000 }
    else record { address = "127.0.0.1"; port = 25525 }

pub known : (client : ℕ) → get_client_address config client ≡ some (address client)
unfolding get_client_address find
known client = ground arith

abbrev pub services : Map (Map ServiceSettings)
services = (7, (2, record no_settings { slot_offset = 15 }) ∷ []) ∷ []

abbrev pub parameters : ExperimentParameter
parameters = record {
  experiment_number = 1;
  client_init_time = 1000;
  experiment_begin_offset = 2000;
  experiment_end_offset = 3000;
  experiment_iterations = 3;
  synchronous_start_mode = true;
  mc_distribution_phase_duration = 500;
  mc_client_stop_offset = 0;
  mc_client_reconfig_offset = 20;
  mc_client_start_offset = 30;
  inter_mc_gap_min = 1000;
  inter_mc_gap_max = 2000;
  hyperperiod_duration = 100;
  hyperperiod_slots = 10;
  startup_mode = 1;
  startup_mode_map = (1, (1, 2) ∷ []) ∷ [];
  reconfiguration_order = 1 ∷ 2 ∷ [];
  reconfiguration_map = (1, (1, 2) ∷ []) ∷ [];
}

abbrev pub request : Message
request = record empty_message {
  message_type = MessageType.sync_request;
  source_id = 1;
  service_id = 7;
}

abbrev pub manager : Manager
manager = record {
  service_list = (7, request) ∷ [];
  rm_active_timestamp_last = record { tv_sec = pos 4990; tv_nsec = pos 0 };
  rm_client_service_map = services;
  sent = [];
  timers = [];
  readings = 0;
}

pub instants : (n : ℕ) → IsInstant (2 ^ 61) (platform.clock n)
instants n = (omega arith, omega arith, (omega arith, omega arith))

pub slots : (j k : ℕ) → slot_of services j k < 2 ^ 32
unfolding slot_of find
slots j k = ground arith

services-IsServices : IsServices services
unfolding find
services-IsServices = record { sorted = tt; inner = λ j. ground arith }

pub manager-ReadsAs : ReadsAs services manager
manager-ReadsAs = record { well_formed = services-IsServices; slots = λ j k. refl }
