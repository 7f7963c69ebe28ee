-- ===== src/Reader/Experiment.antt =====
-- The experiment of the configuration (src/rscmng/config_reader.cpp: check_experiment_settings,
-- load_experiment_settings), and the conversion of hexadecimal numbers, which nothing calls. What is
-- printed is left out.
use application_aware_resour.Prelude.{
  ℕ, ◌-◌, ◌%◌, ◌^◌, List, [], ◌∷◌, ◌==◌, ◌&&◌, ◌||◌, ltb, if◌then◌else◌, none, some, String,
}
use application_aware_resour.Config.{ExperimentParameter}
use application_aware_resour.Uuid.Hex.{skip_spaces, read_signed}
use application_aware_resour.Reader.Tree.{
  PropertyTree, Result, Fault, ok, fault, or_fault, ◌>>=◌, get_child, get_uint32, get_list,
  values_of, read_outer_map,
}
use application_aware_resour.Reader.Services.{parsed_file}

module _ (p : PropertyTree) where
  open p use {Tree, children, child_at, uint32_value, bool_value, good, read_json}

  -- `memory` is what the record held: `hyperperiod_slots` is not read from the file.
  unfoldable pub check_experiment_settings : ℕ → Tree → Result ExperimentParameter
  unfolding values_of read_outer_map
  check_experiment_settings memory config_parsed_file = do
    experiment_tree ← get_child p "EXPERIMENT_SETTINGS" config_parsed_file
    experiment_number ← get_uint32 p "EXPERIMENT_NUMBER" experiment_tree
    client_init_time ← get_uint32 p "CLIENT_INIT_TIME[ms]" experiment_tree
    experiment_begin_offset ← get_uint32 p "EXPERIMENT_BEGIN_OFFSET[ms]" experiment_tree
    experiment_end_offset ← get_uint32 p "EXPERIMENT_END_OFFSET[ms]" experiment_tree
    experiment_iterations ← get_uint32 p "EXPERIMENT_ITERATIONS" experiment_tree
    synchronous_start_mode ←
        get_child p "EXPERIMENT_SYNCHRONOUS_START_FLAG" experiment_tree >>= λ c.
        or_fault Fault.bad_data (bool_value c)
    mc_distribution_phase_duration ←
        get_uint32 p "MC_DISTRIBUTION_PHASE_DURATION[ms]" experiment_tree
    mc_client_stop_offset ← get_uint32 p "MC_CLIENT_STOP_OFFSET[ms]" experiment_tree
    mc_client_reconfig_offset ← get_uint32 p "MC_CLIENT_RECONFIG_OFFSET[ms]" experiment_tree
    mc_client_start_offset ← get_uint32 p "MC_CLIENT_START_OFFSET[ms]" experiment_tree
    inter_mc_gap_min ← get_uint32 p "INTER_MC_GAP_MIN[ms]" experiment_tree
    inter_mc_gap_max ← get_uint32 p "INTER_MC_GAP_MAX[ms]" experiment_tree
    hyperperiod_duration ← get_uint32 p "HYPERPERIOD_DURATION[ms]" experiment_tree
    startup_mode ← get_uint32 p "EXPERIMENT_STARTUP_MODE" experiment_tree
    modes ← get_child p "EXPERIMENT_STARTUP_MODE_MAP" experiment_tree
    startup_mode_map ← read_outer_map p (children modes) []
    reconfiguration_order ←
        get_list p uint32_value "EXPERIMENT_RECONFIGURATION_ORDER" experiment_tree
    changes ← get_child p "EXPERIMENT_RECONFIGURATION_MAP" experiment_tree
    reconfiguration_map ← read_outer_map p (children changes) []
    ok (record {
      experiment_number = experiment_number;
      client_init_time = client_init_time;
      experiment_begin_offset = experiment_begin_offset;
      experiment_end_offset = experiment_end_offset;
      experiment_iterations = experiment_iterations;
      synchronous_start_mode = synchronous_start_mode;
      mc_distribution_phase_duration = mc_distribution_phase_duration;
      mc_client_stop_offset = mc_client_stop_offset;
      mc_client_reconfig_offset = mc_client_reconfig_offset;
      mc_client_start_offset = mc_client_start_offset;
      inter_mc_gap_min = inter_mc_gap_min;
      inter_mc_gap_max = inter_mc_gap_max;
      hyperperiod_duration = hyperperiod_duration;
      hyperperiod_slots = memory;
      startup_mode = startup_mode;
      startup_mode_map = startup_mode_map;
      reconfiguration_order = reconfiguration_order;
      reconfiguration_map = reconfiguration_map;
    })

  unfoldable pub load_experiment_settings : ℕ → String → Result ExperimentParameter
  unfolding parsed_file check_experiment_settings
  load_experiment_settings memory config_file_path =
      parsed_file p config_file_path >>= check_experiment_settings memory

-- A text without its prefix. The empty text makes a `std::string` of a null pointer, which throws.
unfoldable pub remove_hex_prefix_string : List ℕ → Result (List ℕ)
remove_hex_prefix_string [] = fault Fault.invalid_argument
remove_hex_prefix_string (a ∷ []) = ok (a ∷ [])
remove_hex_prefix_string (a ∷ b ∷ cs) =
    if a == b'0' && (b == b'x' || b == b'X') then ok cs else ok (a ∷ b ∷ cs)

-- `std::stoul(text, nullptr, 16)` as a `uint32_t`: the number fits 64 bits, and a negative one wraps.
abbrev pub stoul_hex : List ℕ → Result ℕ
stoul_hex text = elim (read_signed (skip_spaces text)) [
  | none ↦ fault Fault.invalid_argument
  | some (negative, n, rest) ↦
      if ltb n (2 ^ 64)
      then ok ((if negative then (2 ^ 64 - n) % 2 ^ 64 else n) % 2 ^ 32)
      else fault Fault.out_of_range
]

unfoldable pub convert_hex_to_int : List ℕ → Result ℕ
unfolding remove_hex_prefix_string skip_spaces read_signed
convert_hex_to_int [] = ok 0
convert_hex_to_int (c ∷ cs) = remove_hex_prefix_string (c ∷ cs) >>= stoul_hex
