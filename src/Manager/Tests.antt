-- ===== src/Manager/Tests.antt =====
-- Examples for the resource manager (include/rscmng/rm/net_layer_rm.tpp).
use application_aware_resour.Prelude.{
  ℕ, zero, suc, ◌+◌, ◌^◌, ◌<◌, ◌≡◌, arith, List, [], ◌∷◌, Option, some, replicate, length-replicate,
  pos, true, false, ◌==◌, if◌then◌else◌,
}
use application_aware_resour.Codec.{Timespec}
use application_aware_resour.Clock.{prepare_timestamp_add, get_round_timestamp}
use application_aware_resour.Manager.{Manager, Callback, handle_message, register_timer}
use application_aware_resour.Manager.Start.{start_network_traffic_synchronous}
use application_aware_resour.Manager.Experiment.{
  Outcome, experiment, asynchonous_round_hw,
  experiment_mode_change_time_triggered_asynchonous_objects_hw,
}
use application_aware_resour.Clock.Sums.{behind_second}
use application_aware_resour.Manager.Registration.{Handled, handle_message-Handled}
use application_aware_resour.Manager.Telling.{Runs, told}
use application_aware_resour.Manager.StartCommands.{
  ReadsAs, start_of, start_network_traffic_synchronous-Runs,
}
use application_aware_resour.Manager.RoundCommands.{
  commands_hw, seconds_later, asynchonous_round_hw-Runs,
}
use application_aware_resour.Manager.Loops.{is_finished, experiment_endless}
use application_aware_resour.Manager.Termination.{asynchonous_objects_hw-finishes}
use application_aware_resour.Manager.Example.{
  memory, platform, platform-IsPlatform, receiver, receiver-IsReceiver, config, address, known,
  services, parameters, request, manager, instants, slots, manager-ReadsAs,
}

start_network_traffic_synchronous-Runs_example :
    Runs receiver
      (ReadsAs services)
      (told parameters.startup_mode_map parameters.startup_mode
        (start_of receiver receiver-IsReceiver platform platform-IsPlatform config address known
          parameters services behind_second
          (behind_second
            (get_round_timestamp (platform.clock manager.readings))
            parameters.mc_distribution_phase_duration))
        manager.service_list)
      manager
      (start_network_traffic_synchronous platform config parameters manager)
start_network_traffic_synchronous-Runs_example =
    start_network_traffic_synchronous-Runs receiver receiver-IsReceiver platform platform-IsPlatform
      config address known parameters services manager (instants 0) (omega arith) slots
      (omega arith, tt) manager-ReadsAs

abbrev mc_target : Timespec
mc_target =
    seconds_later (platform.clock manager.readings) parameters.mc_distribution_phase_duration

asynchonous_round_hw-Runs_example :
    Runs receiver
      (λ st. st.service_list ≡ manager.service_list)
      (told parameters.reconfiguration_map 1
        (commands_hw receiver receiver-IsReceiver platform platform-IsPlatform config address known
          parameters behind_second mc_target 2)
        manager.service_list)
      manager
      (asynchonous_round_hw platform config parameters 2 1 manager)
asynchonous_round_hw-Runs_example =
    asynchonous_round_hw-Runs receiver receiver-IsReceiver platform platform-IsPlatform config
      address known parameters 2 1 manager (instants 0) (omega arith) (omega arith) (omega arith)
      (omega arith, tt)

-- 101 hyperperiods to the reading of the clock, and 6 for the distribution phase.
abbrev target : Timespec
target = record { tv_sec = pos 5000; tv_nsec = pos 700_000_000 }

handle_message-Handled_example :
    (after : Manager) × (handle_message memory memory request manager ≡ some after)
    × Handled request manager after
handle_message-Handled_example = handle_message-Handled memory memory request manager tt

experiment_endless_example :
    is_finished (
      experiment platform config
        (record parameters { experiment_iterations = 300 })
        (asynchonous_round_hw platform config (record parameters { experiment_iterations = 300 }))
        Callback.stopping_experiment_asynchronous
        400
        manager)
    ≡ false
experiment_endless_example =
    experiment_endless platform config (record parameters { experiment_iterations = 300 })
      (asynchonous_round_hw platform config (record parameters { experiment_iterations = 300 }))
      Callback.stopping_experiment_asynchronous 400 manager (omega arith)

asynchonous_objects_hw-finishes_example :
    (last : Manager) × (experiment_mode_change_time_triggered_asynchonous_objects_hw platform config
        parameters 4 manager
      ≡ Outcome.finished (
          register_timer parameters.experiment_end_offset Callback.stopping_experiment_asynchronous
            last))
    × (last.service_list ≡ manager.service_list)
asynchonous_objects_hw-finishes_example =
    asynchonous_objects_hw-finishes receiver receiver-IsReceiver platform platform-IsPlatform config
      address known parameters instants (omega arith) (omega arith) 4 manager (omega arith)
      (omega arith) (omega arith, tt)
