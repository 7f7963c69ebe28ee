-- ===== src/Reader/Example.antt =====
-- A tree as `boost::property_tree` makes it of a file, and a small configuration.
use application_aware_resour.Prelude.{
  ℕ, ◌^◌, ◌<◌, ◌≡◌, arith, List, [], ◌∷◌, Option, some, none, String, Bool, true, ltb,
  if◌then◌else◌,
}
use application_aware_resour.Config.{ServiceSettings, ExperimentParameter}
use application_aware_resour.Reader.Tree.{PropertyTree}
use text.Mathlib.Text.{◌==◌}

mutual
  pub data Node : Type 0 where
    number : ℕ → Node
    word : String → Node
    flag : Bool → Node
    object : Fields → Node

  pub data Fields : Type 0 where
    end : Fields
    field : String → Node → Fields → Fields

abbrev fields_of : Fields → List (String × Node)
fields_of end = []
fields_of (field k v r) = (k, v) ∷ fields_of r

abbrev children_of : Node → List (String × Node)
children_of (object fs) = fields_of fs
children_of _ = []

abbrev lookup_field : String → List (String × Node) → Option Node
lookup_field k [] = none
lookup_field k ((j, v) ∷ l) = if j == k then some v else lookup_field k l

abbrev number_below : ℕ → Node → Option ℕ
number_below bound (number n) = if ltb n bound then some n else none
number_below bound _ = none

pub number_below-lt : (bound : ℕ) (t : Node) (n : ℕ) → number_below bound t ≡ some n → n < bound
number_below-lt bound (number m) n h = ground arith
number_below-lt bound (word s) n h = cc
number_below-lt bound (flag b) n h = cc
number_below-lt bound (object fs) n h = cc

abbrev text_of : Node → Option String
text_of (word s) = some s
text_of _ = none

abbrev flag_of : Node → Option Bool
flag_of (flag b) = some b
flag_of _ = none

-- The trees of a file that holds `root`.
abbrev pub tree : Node → PropertyTree
tree root = record {
  Tree = Node;
  children = children_of;
  child_at = λ k t. lookup_field k (children_of t);
  uint32_value = number_below (2 ^ 32);
  uint64_value = number_below (2 ^ 64);
  bool_value = flag_of;
  string_value = text_of;
  uint32_fits = number_below-lt (2 ^ 32);
  uint64_fits = number_below-lt (2 ^ 64);
  good = λ path. true;
  read_json = λ path. some root;
}

abbrev list_of : List Node → Fields
list_of [] = end
list_of (t ∷ l) = field "" t (list_of l)

abbrev service : ℕ → Node
service slot_offset = object (
    field "SERVICE_ID" (number 7) (
      field "SERVICE_IP" (word "10.0.0.9") (
        field "PORT" (number 5001) (
          field "PATH" (object (list_of (number 1 ∷ number 2 ∷ []))) (
            field "OBJECT_SIZE [KByte]" (number 100) (
              field "DEADLINE [ms]" (number 100) (
                field "PRIORITY" (number 1) (
                  field "SLOT_OFFSET [ms]" (number slot_offset) (
                    field "SLOT_LENGTH [ms]" (number 10) (
                      field "INTER_PACKET_GAP[us]" (number 0)
                        (field "INTER_OBJECT_GAP[us]" (number 0) end)))))))))))

abbrev client_unit : Node
client_unit = object (
    field "CLIENT_ID" (number 1) (
      field "RM_CONTROL_LOCAL_IP" (object (list_of (word "10.0.0.1" ∷ []))) (
        field "RM_CONTROL_LOCAL_PORT" (number 4000) (
          field "RM_CONTROL_RM_IP" (object (list_of (word "10.0.0.9" ∷ []))) (
            field "RM_CONTROL_RM_PORT" (number 4001) (
              field "SERVICE_LOCAL_IP"
                (object (list_of (word "a" ∷ word "b" ∷ word "c" ∷ word "d" ∷ word "e" ∷ [])))
                (field "SERVICE_LOCAL_PORT" (object (list_of (number 5100 ∷ [])))
                  (field "CLIENT_PRIORITY" (number 2) end))))))))

abbrev experiment_node : Node
experiment_node = object (
    field "EXPERIMENT_NUMBER" (number 0) (
      field "CLIENT_INIT_TIME[ms]" (number 15000) (
        field "EXPERIMENT_BEGIN_OFFSET[ms]" (number 15000) (
          field "EXPERIMENT_END_OFFSET[ms]" (number 15000) (
            field "EXPERIMENT_ITERATIONS" (number 5) (
              field "EXPERIMENT_SYNCHRONOUS_START_FLAG" (flag true) (
                field "MC_DISTRIBUTION_PHASE_DURATION[ms]" (number 10000) (
                  field "MC_CLIENT_STOP_OFFSET[ms]" (number 0) (
                    field "MC_CLIENT_RECONFIG_OFFSET[ms]" (number 0) (
                      field "MC_CLIENT_START_OFFSET[ms]" (number 0) (
                        field "INTER_MC_GAP_MIN[ms]" (number 10000) (
                          field "INTER_MC_GAP_MAX[ms]" (number 12000) (
                            field "HYPERPERIOD_DURATION[ms]" (number 100) (
                              field "EXPERIMENT_STARTUP_MODE" (number 1) (
                                field "EXPERIMENT_STARTUP_MODE_MAP"
                                  (object (field "1" (object (field "1" (number 2) end)) end))
                                  (field "EXPERIMENT_RECONFIGURATION_ORDER"
                                    (object (list_of (number 1 ∷ [])))
                                    (field "EXPERIMENT_RECONFIGURATION_MAP" (object end)
                                      end)))))))))))))))))

-- One unit, one service in mode 2, twice, and the experiment.
abbrev pub root : Node
root = object (
    field "UNIT_SETTINGS" (object (field "SENSORFUSION" client_unit end)) (
      field "SERVICE_SETTINGS"
        (object (field "7" (object (field "2" (service 40) (field "2" (service 15) end))) end))
        (field "EXPERIMENT_SETTINGS" experiment_node end)))

abbrev pub configuration : PropertyTree
configuration = tree root

-- What is read of it: the later entry is kept.
abbrev pub settings : ServiceSettings
settings = record {
  service_id = 7;
  ip_address = "10.0.0.9";
  port = 5001;
  data_path = 1 ∷ 2 ∷ [];
  object_size = 100;
  deadline = 100;
  service_priority = 1;
  slot_offset = 15;
  slot_length = 10;
  inter_packet_gap = 0;
  inter_object_gap = 0;
  number_packets = 9;
}

abbrev pub parameters : ExperimentParameter
parameters = record {
  experiment_number = 0;
  client_init_time = 15000;
  experiment_begin_offset = 15000;
  experiment_end_offset = 15000;
  experiment_iterations = 5;
  synchronous_start_mode = true;
  mc_distribution_phase_duration = 10000;
  mc_client_stop_offset = 0;
  mc_client_reconfig_offset = 0;
  mc_client_start_offset = 0;
  inter_mc_gap_min = 10000;
  inter_mc_gap_max = 12000;
  hyperperiod_duration = 100;
  hyperperiod_slots = 3;
  startup_mode = 1;
  startup_mode_map = (1, (1, 2) ∷ []) ∷ [];
  reconfiguration_order = 1 ∷ [];
  reconfiguration_map = [];
}
