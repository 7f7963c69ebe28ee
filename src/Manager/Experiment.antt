-- ===== src/Manager/Experiment.antt =====
-- The mode changes of an experiment (include/rscmng/rm/net_layer_rm.tpp, experiment_selection and
-- the experiment_mode_change methods). The sleep between two mode changes only lets the clock
-- advance; its random duration is left out.
use application_aware_resour.Prelude.{
  ℕ, ◌+◌, ◌/◌, ◌%◌, ◌^◌, List, [], ◌∷◌, Option, none, some, ◌>>=◌, true, false, ltb, zero, suc,
  ◌==◌, if◌then◌else◌, pos, ◌+ℤ◌,
}
use application_aware_resour.Types.{MessageType}
use application_aware_resour.Clock.{
  prepare_timestamp_add, prepare_timestamp_sub, target_hyperperiod,
}
use application_aware_resour.Codec.{Timespec}
use application_aware_resour.Payload.Command.{zero_time}
use application_aware_resour.Map.{Map}
use application_aware_resour.Config.{UnitSettings, ExperimentParameter}
use application_aware_resour.Manager.{
  Manager, Platform, Callback, register_timer, get_client_address, send_asynchronous_reconfigure,
  send_time_triggered_synchronous_reconfigure_type,
}
use application_aware_resour.Manager.Start.{Step, for_services, slot_offset, clock_gettime}

-- How a run of an experiment ends: it returns, it meets undefined behaviour, or it is still running
-- when the fuel is used up.
pub data Outcome : Type 0 where
  finished : Manager → Outcome
  undefined : Outcome
  unfinished : Outcome

-- The loop over `reconfiguration_order`
unfoldable pub rounds : (ℕ → Manager → Option Manager) → List ℕ → Manager → Option Manager
rounds round [] st = some st
rounds round (network_mode ∷ order) st = do st' ← round network_mode st; rounds round order st'

-- The loop over the experiment's iterations. Its counter is a `uint8_t`, so it wraps at 256.
unfoldable pub iterations : (ℕ → Manager → Option Manager) → ℕ → ℕ → ℕ → Manager → Outcome
iterations body limit zero iterator st = Outcome.unfinished
iterations body limit (suc fuel) iterator st = elim (ltb iterator limit) [
  | false ↦ Outcome.finished st
  | true ↦ elim (body iterator st) [
    | none ↦ Outcome.undefined
    | some st' ↦ iterations body limit fuel ((iterator + 1) % 2 ^ 8) st'
  ]
]

unfoldable pub after : (Manager → Manager) → Outcome → Outcome
after f (Outcome.finished st) = Outcome.finished (f st)
after f Outcome.undefined = Outcome.undefined
after f Outcome.unfinished = Outcome.unfinished

module _ (platform : Platform) (rm_client_config_map : Map UnitSettings)
    (parameters : ExperimentParameter) where
  -- What the five experiments share: a round for every mode of the order, the iterations of that,
  -- and the timer for the end.
  unfoldable pub experiment : (ℕ → ℕ → Manager → Option Manager) → Callback → ℕ → Manager → Outcome
  experiment round callback fuel st =
      after (register_timer parameters.experiment_end_offset callback) (
        iterations (λ iterator. rounds (round iterator) parameters.reconfiguration_order)
          parameters.experiment_iterations fuel 0 st)

  unfoldable pub for_clients : ℕ → Step → Manager → Option Manager
  for_clients network_mode step st =
      for_services parameters.reconfiguration_map network_mode step st.service_list st

  unfoldable pub reconfigure_now : ℕ → Step
  reconfigure_now iterator service_id message mode st = do
    target_address ← get_client_address rm_client_config_map message.source_id
    send_asynchronous_reconfigure platform target_address service_id mode iterator st

  unfoldable pub experiment_mode_change : ℕ → Manager → Outcome
  experiment_mode_change =
      experiment (λ iterator network_mode. for_clients network_mode (reconfigure_now iterator))
        Callback.stopping_experiment_synchronous

  unfoldable pub reconfigure_at : MessageType → Timespec → Timespec → Timespec → ℕ → Step
  reconfigure_at type stop reconfig start iterator service_id message mode st = do
    target_address ← get_client_address rm_client_config_map message.source_id
    send_time_triggered_synchronous_reconfigure_type platform stop reconfig start target_address
        service_id mode type iterator st

  -- `target_mc_begin`: whole seconds of the distribution phase are added to the clock's reading.
  unfoldable pub mc_begin : Timespec → Timespec
  mc_begin current_time = record current_time {
    tv_sec = current_time.tv_sec +ℤ pos (parameters.mc_distribution_phase_duration / 1000);
  }

  unfoldable pub asynchonous_round_hw : ℕ → ℕ → Manager → Option Manager
  asynchonous_round_hw iterator network_mode st =
      let (current_time, st1) = clock_gettime platform st in
      let target = mc_begin current_time in
      let reconfig = prepare_timestamp_add target parameters.mc_client_reconfig_offset in
      let start =
        prepare_timestamp_add target
          (parameters.mc_client_start_offset + parameters.mc_client_reconfig_offset) in
      for_clients network_mode
        (reconfigure_at MessageType.sync_timestamp_reconfigure_hw target reconfig start iterator)
        st1

  unfoldable pub experiment_mode_change_time_triggered_asynchonous_objects_hw :
      ℕ → Manager → Outcome
  experiment_mode_change_time_triggered_asynchonous_objects_hw =
      experiment asynchonous_round_hw Callback.stopping_experiment_asynchronous

  unfoldable pub asynchonous_round_sw : ℕ → ℕ → Manager → Option Manager
  asynchonous_round_sw iterator network_mode st =
      let (current_time, st1) = clock_gettime platform st in
      let reconfig =
        prepare_timestamp_add (mc_begin current_time) parameters.mc_client_reconfig_offset in
      for_clients network_mode
        (reconfigure_at MessageType.sync_timestamp_reconfigure_sw zero_time reconfig zero_time
          iterator)
        st1

  unfoldable pub experiment_mode_change_time_triggered_asynchonous_objects_sw :
      ℕ → Manager → Outcome
  experiment_mode_change_time_triggered_asynchonous_objects_sw =
      experiment asynchonous_round_sw Callback.stopping_experiment_asynchronous

  -- A client starts in its slot of the hyperperiod and reconfigures ahead of that. The slot is
  -- looked up by the service in the message.
  unfoldable pub reconfigure_slot : MessageType → Timespec → ℕ → Step
  reconfigure_slot type hyperperiod iterator service_id message mode st = do
    target_address ← get_client_address rm_client_config_map message.source_id
    let (service_offset, st1) = slot_offset (message.service_id % 2 ^ 32) mode st in
        let start = prepare_timestamp_add hyperperiod service_offset in
        let reconfig = prepare_timestamp_sub start parameters.mc_client_reconfig_offset in
        send_time_triggered_synchronous_reconfigure_type platform zero_time reconfig start
          target_address service_id mode type iterator st1

  -- `hyperperiod_duration` is the parameter of that name.
  unfoldable pub synchronous_round : MessageType → ℕ → ℕ → Manager → Option Manager
  synchronous_round type iterator network_mode st =
      let (current_time, st1) = clock_gettime platform st in
      do
        target ←
            target_hyperperiod parameters.hyperperiod_duration
              parameters.mc_distribution_phase_duration current_time st1.rm_active_timestamp_last
        for_clients network_mode (reconfigure_slot type target iterator)
            (record st1 { rm_active_timestamp_last = target })

  unfoldable pub experiment_mode_change_time_triggered_synchronous_objects_hw :
      ℕ → Manager → Outcome
  experiment_mode_change_time_triggered_synchronous_objects_hw =
      experiment (synchronous_round MessageType.sync_timestamp_reconfigure_sync_object_hw)
        Callback.stopping_experiment_synchronous

  unfoldable pub experiment_mode_change_time_triggered_synchronous_objects_sw :
      ℕ → Manager → Outcome
  experiment_mode_change_time_triggered_synchronous_objects_sw =
      experiment (synchronous_round MessageType.sync_timestamp_reconfigure_sync_object_sw)
        Callback.stopping_experiment_synchronous

  -- Another number starts none.
  unfoldable pub experiment_selection : ℕ → Manager → Outcome
  experiment_selection fuel st =
      let number = parameters.experiment_number in
      if number == 0
      then experiment_mode_change fuel st
      else if number == 1
      then experiment_mode_change_time_triggered_asynchonous_objects_hw fuel st
      else if number == 2
      then experiment_mode_change_time_triggered_synchronous_objects_hw fuel st
      else if number == 3
      then experiment_mode_change_time_triggered_asynchonous_objects_sw fuel st
      else if number == 4
      then experiment_mode_change_time_triggered_synchronous_objects_sw fuel st
      else if number == 5
      then experiment_mode_change_time_triggered_synchronous_objects_sw fuel st
      else if number == 6
      then experiment_mode_change_time_triggered_synchronous_objects_sw fuel st
      else if number == 7
      then experiment_mode_change_time_triggered_synchronous_objects_sw fuel st
      else Outcome.finished st
