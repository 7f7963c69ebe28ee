-- ===== src/Reader/Services.antt =====
-- The services of the configuration (src/rscmng/config_reader.cpp: check_service_settings,
-- parse_service_settings, load_service_settings, load_rm_client_services). What is printed is left
-- out.
use application_aware_resour.Prelude.{ℕ, List, [], ◌∷◌, String, if◌then◌else◌}
use application_aware_resour.Map.{Map, index, assign}
use application_aware_resour.Config.{ServiceSettings}
use application_aware_resour.Reader.Tree.{
  PropertyTree, Result, Fault, ok, fault, or_fault, ◌>>=◌, stoi, get_child, get_uint32, get_list,
  values_of,
}

-- `map[service_id][mode] = settings`
unfoldable pub assign_mode :
    ℕ → ℕ → ServiceSettings → Map (Map ServiceSettings) → Map (Map ServiceSettings)
unfolding index assign
assign_mode service_id mode settings m =
    let (modes, m') = index [] service_id m in assign service_id (assign mode settings modes) m'

module _ (p : PropertyTree) where
  open p use {Tree, children, child_at, uint32_value, uint64_value, string_value, good, read_json}

  -- `memory` is what the record held: `number_packets` is not read from the file.
  unfoldable pub parse_service_settings : ℕ → Tree → Result ServiceSettings
  unfolding values_of
  parse_service_settings memory service_tree = do
    service_id ←
        get_child p "SERVICE_ID" service_tree >>= λ c. or_fault Fault.bad_data (uint64_value c)
    ip_address ←
        get_child p "SERVICE_IP" service_tree >>= λ c. or_fault Fault.bad_data (string_value c)
    port ← get_uint32 p "PORT" service_tree
    data_path ← get_list p uint32_value "PATH" service_tree
    object_size ← get_uint32 p "OBJECT_SIZE [KByte]" service_tree
    deadline ← get_uint32 p "DEADLINE [ms]" service_tree
    service_priority ← get_uint32 p "PRIORITY" service_tree
    slot_offset ← get_uint32 p "SLOT_OFFSET [ms]" service_tree
    slot_length ← get_uint32 p "SLOT_LENGTH [ms]" service_tree
    inter_packet_gap ← get_uint32 p "INTER_PACKET_GAP[us]" service_tree
    inter_object_gap ← get_uint32 p "INTER_OBJECT_GAP[us]" service_tree
    ok (record {
      service_id = service_id;
      ip_address = ip_address;
      port = port;
      data_path = data_path;
      object_size = object_size;
      deadline = deadline;
      service_priority = service_priority;
      slot_offset = slot_offset;
      slot_length = slot_length;
      inter_packet_gap = inter_packet_gap;
      inter_object_gap = inter_object_gap;
      number_packets = memory;
    })

  -- The loop over the modes of a service.
  unfoldable pub read_modes :
      (Tree → ℕ)
      → ℕ
      → List (String × Tree)
      → Map (Map ServiceSettings)
      → Result (Map (Map ServiceSettings))
  unfolding parse_service_settings assign_mode stoi
  read_modes memory service_id [] m = ok m
  read_modes memory service_id ((mode_key, mode_tree) ∷ l) m =
      parse_service_settings (memory mode_tree) mode_tree >>= λ settings. stoi mode_key >>= λ mode.
      read_modes memory service_id l (assign_mode service_id mode settings m)

  -- The loop over the services.
  unfoldable pub read_services :
      (Tree → ℕ)
      → List (String × Tree)
      → Map (Map ServiceSettings)
      → Result (Map (Map ServiceSettings))
  unfolding read_modes stoi
  read_services memory [] m = ok m
  read_services memory ((service_id_str, service_tree) ∷ l) m =
      stoi service_id_str >>= λ service_id.
      read_modes memory service_id (children service_tree) m >>= λ m'. read_services memory l m'

  unfoldable pub check_service_settings : (Tree → ℕ) → Tree → Result (Map (Map ServiceSettings))
  unfolding read_services
  check_service_settings memory config_parsed_file =
      get_child p "SERVICE_SETTINGS" config_parsed_file >>= λ c.
      read_services memory (children c) []

  -- The start of every load method: the file is there and holds a tree.
  unfoldable pub parsed_file : String → Result Tree
  parsed_file config_file_path =
      if good config_file_path
      then or_fault Fault.no_json (read_json config_file_path)
      else fault Fault.no_file

  unfoldable pub load_rm_client_services : (Tree → ℕ) → String → Result (Map (Map ServiceSettings))
  unfolding parsed_file check_service_settings
  load_rm_client_services memory config_file_path =
      parsed_file config_file_path >>= check_service_settings memory

  -- The modes of one service, of which there are none if the service is missing, and the map that the
  -- reader keeps.
  unfoldable pub load_service_settings :
      (Tree → ℕ) → ℕ → String → Result (Map ServiceSettings × Map (Map ServiceSettings))
  unfolding parsed_file check_service_settings index
  load_service_settings memory service_id config_file_path = parsed_file config_file_path >>= λ t.
      check_service_settings memory t >>= λ rm_client_service_map.
      ok (index [] service_id rm_client_service_map)
