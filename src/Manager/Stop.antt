-- ===== src/Manager/Stop.antt =====
-- The end of an experiment (include/rscmng/rm/net_layer_rm.tpp, the stopping_experiment_ methods).
use application_aware_resour.Prelude.{ℕ, [], ◌∷◌, Option, some, ◌>>=◌}
use application_aware_resour.Clock.{get_round_timestamp, prepare_timestamp_add}
use application_aware_resour.Codec.{Timespec}
use application_aware_resour.Message.{Message}
use application_aware_resour.Map.{Map}
use application_aware_resour.Config.{UnitSettings, ExperimentParameter}
use application_aware_resour.Manager.{
  Manager, Platform, get_client_address, send_synchronous_stop, send_asynchronous_stop,
}
use application_aware_resour.Manager.Start.{clock_gettime}

-- `network_mode`, which no client's configuration has
abbrev pub stop_mode : ℕ
stop_mode = 10

-- The loop over `service_list`: every service is told.
unfoldable pub for_all :
    (ℕ → Message → Manager → Option Manager) → Map Message → Manager → Option Manager
for_all step [] st = some st
for_all step ((service_id, message) ∷ l) st = do
  st' ← step service_id message st
  for_all step l st'

module _ (platform : Platform) (rm_client_config_map : Map UnitSettings)
    (parameters : ExperimentParameter) where
  unfoldable pub stop_synchronous : Timespec → ℕ → Message → Manager → Option Manager
  stop_synchronous target_time_mc_begin service_id message st =
      let stop = prepare_timestamp_add target_time_mc_begin 10 in
      let reconfig = prepare_timestamp_add target_time_mc_begin 20 in
      let start = prepare_timestamp_add target_time_mc_begin 20 in
      do
        target_address ← get_client_address rm_client_config_map message.source_id
        send_synchronous_stop platform stop reconfig start target_address service_id stop_mode st

  -- Then the process exits.
  unfoldable pub stopping_experiment_synchronous : Manager → Option Manager
  stopping_experiment_synchronous st =
      let (now, st1) = clock_gettime platform st in
      let target_time =
        prepare_timestamp_add (get_round_timestamp now) parameters.mc_distribution_phase_duration in
      for_all (stop_synchronous target_time) st.service_list st1

  unfoldable pub stop_asynchronous : ℕ → Message → Manager → Option Manager
  stop_asynchronous service_id message st = do
    target_address ← get_client_address rm_client_config_map message.source_id
    send_asynchronous_stop platform target_address service_id stop_mode st

  unfoldable pub stopping_experiment_asynchronous : Manager → Option Manager
  stopping_experiment_asynchronous st = for_all stop_asynchronous st.service_list st
