-- ===== src/Config.antt =====
-- The records of the configuration file (include/rscmng/utils/config_reader.hpp) and what the
-- resource manager is given of them (`network_device_configs`, include/rscmng/rm/net_layer_rm.hpp).
-- Durations are counts of their unit, which the reader takes from a `uint32_t`. The `double` that is
-- only printed is left out.
use application_aware_resour.Prelude.{ℕ, String, Bool, List, []}
use application_aware_resour.Map.{Map}
use application_aware_resour.Uuid.{Uuid, default_uuid}

pub record ServiceSettings : Type 0 where
  pub service_id : ℕ
  pub ip_address : String
  pub port : ℕ
  pub data_path : List ℕ
  pub object_size : ℕ
  pub deadline : ℕ
  pub service_priority : ℕ
  pub slot_offset : ℕ
  pub slot_length : ℕ
  pub inter_packet_gap : ℕ
  pub inter_object_gap : ℕ
  pub number_packets : ℕ

-- The entry that `operator[]` makes for a missing key: every field is zero or empty.
abbrev pub no_settings : ServiceSettings
no_settings = record {
  service_id = 0;
  ip_address = "";
  port = 0;
  data_path = [];
  object_size = 0;
  deadline = 0;
  service_priority = 0;
  slot_offset = 0;
  slot_length = 0;
  inter_packet_gap = 0;
  inter_object_gap = 0;
  number_packets = 0;
}

pub record UnitSettings : Type 0 where
  pub host_name : String
  pub client_uuid : Uuid
  pub client_id : ℕ
  pub rm_control_local_ip : List String
  pub rm_control_local_port : ℕ
  pub rm_control_rm_ip : List String
  pub rm_control_rm_port : ℕ
  pub service_local_ip : List String
  pub service_local_port : List ℕ
  pub client_priority : ℕ

-- The entry that `operator[]` makes for a missing name.
unfoldable pub no_unit : UnitSettings
no_unit = record {
  host_name = "";
  client_uuid = default_uuid;
  client_id = 0;
  rm_control_local_ip = [];
  rm_control_local_port = 0;
  rm_control_rm_ip = [];
  rm_control_rm_port = 0;
  service_local_ip = [];
  service_local_port = [];
  client_priority = 0;
}

pub record ExperimentParameter : Type 0 where
  pub experiment_number : ℕ
  pub client_init_time : ℕ
  pub experiment_begin_offset : ℕ
  pub experiment_end_offset : ℕ
  pub experiment_iterations : ℕ
  pub synchronous_start_mode : Bool
  pub mc_distribution_phase_duration : ℕ
  pub mc_client_stop_offset : ℕ
  pub mc_client_reconfig_offset : ℕ
  pub mc_client_start_offset : ℕ
  pub inter_mc_gap_min : ℕ
  pub inter_mc_gap_max : ℕ
  pub hyperperiod_duration : ℕ
  pub hyperperiod_slots : ℕ
  pub startup_mode : ℕ
  pub startup_mode_map : Map (Map ℕ)
  pub reconfiguration_order : List ℕ
  pub reconfiguration_map : Map (Map ℕ)
