-- ===== src/Manager/Start.antt =====
-- The start of the traffic (include/rscmng/rm/net_layer_rm.tpp, initial_start_handler and the
-- start_network_traffic_ methods).
use application_aware_resour.Prelude.{
  ℕ, ◌+◌, ◌%◌, ◌^◌, [], ◌∷◌, Option, none, some, ◌>>=◌, if◌then◌else◌,
}
use application_aware_resour.Clock.{get_round_timestamp, prepare_timestamp_add}
use application_aware_resour.Codec.{Timespec}
use application_aware_resour.Buffer.{create}
use application_aware_resour.Message.{Message}
use application_aware_resour.Channel.{send_start}
use application_aware_resour.Map.{Map, find, index, assign}
use application_aware_resour.Config.{UnitSettings, ExperimentParameter, no_settings}
use application_aware_resour.Manager.{
  Manager, Platform, Callback, rm_id, next_send, emit, register_timer, get_client_address,
  send_synchronous_start,
}

-- The body that the loops over `service_list` run for a client that has a mode: its service, the
-- registered message, the mode.
abbrev pub Step : Type 0
Step = ℕ → Message → ℕ → Manager → Option Manager

-- The mode of a client in a network mode, if the configuration has one.
unfoldable pub mode_of : Map (Map ℕ) → ℕ → ℕ → Option ℕ
mode_of modes network_mode client_id = do clients ← find network_mode modes; find client_id clients

-- The loop over `service_list`: clients without a mode are passed over.
unfoldable pub for_services : Map (Map ℕ) → ℕ → Step → Map Message → Manager → Option Manager
for_services modes network_mode step [] st = some st
for_services modes network_mode step ((service_id, message) ∷ l) st =
    elim (mode_of modes network_mode message.source_id) [
      | none ↦ for_services modes network_mode step l st
      | some mode ↦ do
        st' ← step service_id message mode st
        for_services modes network_mode step l st'
    ]

-- `rm_client_service_map[service][mode].slot_offset`: what is missing is made.
unfoldable pub slot_offset : ℕ → ℕ → Manager → ℕ × Manager
slot_offset service_id mode st =
    let (modes, services) = index [] service_id st.rm_client_service_map in
    let (settings, modes') = index no_settings mode modes in
    (settings.slot_offset, record st { rm_client_service_map = assign service_id modes' services })

-- `clock_gettime(CLOCK_REALTIME, …)`
unfoldable pub clock_gettime : Platform → Manager → Timespec × Manager
clock_gettime platform st = (platform.clock st.readings, record st { readings = st.readings + 1 })

module _ (platform : Platform) (rm_client_config_map : Map UnitSettings)
    (parameters : ExperimentParameter) where
  unfoldable pub start_synchronous : Timespec → Step
  start_synchronous target_time_client_start service_id message mode st =
      let (service_offset, st1) = slot_offset (service_id % 2 ^ 32) mode st in
      let target_time = prepare_timestamp_add target_time_client_start service_offset in
      let st2 = record st1 { rm_active_timestamp_last = target_time } in
      do
        target_address ← get_client_address rm_client_config_map message.source_id
        send_synchronous_start platform target_time target_address service_id mode st2

  unfoldable pub start_network_traffic_synchronous : Manager → Option Manager
  start_network_traffic_synchronous st =
      let (now, st1) = clock_gettime platform st in
      let target_time =
        prepare_timestamp_add (get_round_timestamp now) parameters.mc_distribution_phase_duration in
      for_services parameters.startup_mode_map parameters.startup_mode
        (start_synchronous target_time) st.service_list
        (record st1 { rm_active_timestamp_last = target_time })

  -- The buffer is empty.
  unfoldable pub start_asynchronous : Step
  start_asynchronous service_id message mode st =
      let e = next_send platform st in
      do
        target_address ← get_client_address rm_client_config_map message.source_id
        emit
            (send_start e.raw e.stamp target_address rm_id mode service_id
              (some (create e.raw_payload)))
            st

  unfoldable pub start_network_traffic_asynchronous : Manager → Option Manager
  start_network_traffic_asynchronous st =
      for_services parameters.startup_mode_map parameters.startup_mode start_asynchronous
        st.service_list st

  unfoldable pub initial_start_handler : Manager → Option Manager
  initial_start_handler st = do
    st' ←
        if parameters.synchronous_start_mode
        then start_network_traffic_synchronous st
        else start_network_traffic_asynchronous st
    some (register_timer parameters.experiment_begin_offset Callback.experiment_selection st')
