-- ===== src/Reader/Units.antt =====
-- The units of the configuration (src/rscmng/config_reader.cpp: check_unit_settings,
-- check_unit_settings_string, parse_unit_settings, load_unit_settings, load_rm_client_addresses). What
-- is printed is left out. The map by names is only searched, so its order is that of the insertions.
use application_aware_resour.Prelude.{ℕ, List, [], ◌∷◌, Option, some, none, String, if◌then◌else◌}
use application_aware_resour.Map.{Map, assign}
use application_aware_resour.Uuid.{default_uuid}
use application_aware_resour.Config.{UnitSettings, no_unit}
use application_aware_resour.Reader.Tree.{
  PropertyTree, Result, ok, ◌>>=◌, get_child, get_uint32, get_list, values_of,
}
use application_aware_resour.Reader.Services.{parsed_file}
use text.Mathlib.Text.{◌==◌}

-- A `std::map` whose keys are texts.
abbrev pub NameMap : Type 0 → Type 0
NameMap V = List (String × V)

module _ {V : Type 0} where
  unfoldable pub find_name : String → NameMap V → Option V
  find_name name [] = none
  find_name name ((n, v) ∷ m) = if n == name then some v else find_name name m

  unfoldable pub assign_name : String → V → NameMap V → NameMap V
  assign_name name value [] = (name, value) ∷ []
  assign_name name value ((n, v) ∷ m) =
      if n == name then (n, value) ∷ m else (n, v) ∷ assign_name name value m

  -- `map[name]`, read: a name that is missing is inserted with a value-initialised entry.
  unfoldable pub index_name : V → String → NameMap V → V × NameMap V
  unfolding find_name
  index_name initial name m = elim (find_name name m) [
    | some v ↦ (v, m)
    | none ↦ (initial, (name, initial) ∷ m)
  ]

module _ (p : PropertyTree) where
  open p use {Tree, children, child_at, uint32_value, string_value, good, read_json}

  unfoldable pub parse_unit_settings : Tree → Result UnitSettings
  unfolding values_of default_uuid
  parse_unit_settings unit_tree = do
    client_id ← get_uint32 p "CLIENT_ID" unit_tree
    rm_control_local_ip ← get_list p string_value "RM_CONTROL_LOCAL_IP" unit_tree
    rm_control_local_port ← get_uint32 p "RM_CONTROL_LOCAL_PORT" unit_tree
    rm_control_rm_ip ← get_list p string_value "RM_CONTROL_RM_IP" unit_tree
    rm_control_rm_port ← get_uint32 p "RM_CONTROL_RM_PORT" unit_tree
    service_local_ip ← get_list p string_value "SERVICE_LOCAL_IP" unit_tree
    service_local_port ← get_list p uint32_value "SERVICE_LOCAL_PORT" unit_tree
    client_priority ← get_uint32 p "CLIENT_PRIORITY" unit_tree
    ok (record {
      host_name = "";
      client_uuid = default_uuid;
      client_id = client_id;
      rm_control_local_ip = rm_control_local_ip;
      rm_control_local_port = rm_control_local_port;
      rm_control_rm_ip = rm_control_rm_ip;
      rm_control_rm_port = rm_control_rm_port;
      service_local_ip = service_local_ip;
      service_local_port = service_local_port;
      client_priority = client_priority;
    })

  -- The turn that both loops over the units share: the identifier, and the unit with its name.
  unfoldable pub read_unit : String → Tree → Result (ℕ × UnitSettings)
  unfolding parse_unit_settings
  read_unit name_id unit_instance_tree =
      get_uint32 p "CLIENT_ID" unit_instance_tree >>= λ client_id.
      parse_unit_settings unit_instance_tree >>= λ unit_parameters.
      ok (client_id, record unit_parameters { host_name = name_id })

  unfoldable pub read_units : List (String × Tree) → Map UnitSettings → Result (Map UnitSettings)
  unfolding read_unit assign
  read_units [] rm_client_unit_map = ok rm_client_unit_map
  read_units ((name_id, unit_tree) ∷ l) rm_client_unit_map =
      read_unit name_id unit_tree >>= λ (client_id, unit).
      read_units l (assign client_id unit rm_client_unit_map)

  unfoldable pub check_unit_settings : Tree → Result (Map UnitSettings)
  unfolding read_units
  check_unit_settings config_parsed_file =
      get_child p "UNIT_SETTINGS" config_parsed_file >>= λ c. read_units (children c) []

  unfoldable pub read_units_string :
      List (String × Tree) → NameMap UnitSettings → Result (NameMap UnitSettings)
  unfolding read_unit assign_name
  read_units_string [] rm_client_unit_map = ok rm_client_unit_map
  read_units_string ((name_id, unit_tree) ∷ l) rm_client_unit_map =
      read_unit name_id unit_tree >>= λ (client_id, unit).
      read_units_string l (assign_name name_id unit rm_client_unit_map)

  unfoldable pub check_unit_settings_string : Tree → Result (NameMap UnitSettings)
  unfolding read_units_string
  check_unit_settings_string config_parsed_file =
      get_child p "UNIT_SETTINGS" config_parsed_file >>= λ c. read_units_string (children c) []

  unfoldable pub load_rm_client_addresses : String → Result (Map UnitSettings)
  unfolding parsed_file check_unit_settings
  load_rm_client_addresses config_file_path = parsed_file p config_file_path >>= check_unit_settings

  -- The unit of a name, and the map that the reader keeps.
  unfoldable pub load_unit_settings : String → String → Result (UnitSettings × NameMap UnitSettings)
  unfolding parsed_file check_unit_settings_string index_name no_unit
  load_unit_settings client_name config_file_path = parsed_file p config_file_path >>= λ t.
      check_unit_settings_string t >>= λ rm_client_unit_string_map.
      ok (index_name no_unit client_name rm_client_unit_string_map)
