-- ===== src/Manager/Termination.antt =====
-- The experiments end (include/rscmng/rm/net_layer_rm.tpp, the experiment_mode_change methods).
use application_aware_resour.Prelude.{
  ℕ, ◌+◌, ◌^◌, ◌<◌, ◌≡◌, List, [], ◌∷◌, Option, some, refl, arith, All, ◌∙◌, sym, subst,
}
use application_aware_resour.Channel.{Endpoint}
use application_aware_resour.Map.{Map}
use application_aware_resour.Message.{Message}
use application_aware_resour.Config.{UnitSettings, ExperimentParameter}
use application_aware_resour.Manager.{
  Manager, Platform, Callback, get_client_address, register_timer,
}
use application_aware_resour.Manager.Experiment.{
  Outcome, rounds, after, experiment, asynchonous_round_hw,
  experiment_mode_change_time_triggered_asynchonous_objects_hw,
}
use application_aware_resour.Manager.Commands.{Receiver, IsReceiver, IsPlatform}
use application_aware_resour.Manager.Telling.{HasService}
use application_aware_resour.Manager.StartCommands.{IsInstant}
use application_aware_resour.Manager.RoundCommands.{asynchonous_round_hw-Runs}
use application_aware_resour.Manager.Loops.{iterations_from}

module _ (P : Manager → Type 0) (round : ℕ → Manager → Option Manager)
    (total : (network_mode : ℕ) (st : Manager)
      → P st
      → (st' : Manager) × (round network_mode st ≡ some st') × P st') where
  rounds-total :
      (order : List ℕ) (st : Manager)
      → P st
      → (st' : Manager) × (rounds round order st ≡ some st') × P st'
  unfolding rounds
  rounds-total [] st p = (st, refl, p)
  rounds-total (network_mode ∷ order) st p =
      let (st1, run, q) = total network_mode st p in
      let (st2, run', q') = rounds-total order st1 q in (st2, rw run run', q')

module _ (platform : Platform) (config : Map UnitSettings) (parameters : ExperimentParameter)
    (P : Manager → Type 0) (round : ℕ → ℕ → Manager → Option Manager)
    (total : (iterator network_mode : ℕ) (st : Manager)
      → iterator < 2 ^ 8
      → P st
      → (st' : Manager) × (round iterator network_mode st ≡ some st') × P st') where
  -- An experiment of at most 255 iterations, whose rounds return, gets to the timer for its end; the
  -- fuel is enough if it is more than the iterations.
  experiment-finishes :
      (callback : Callback) (fuel : ℕ) (st : Manager)
      → parameters.experiment_iterations < 2 ^ 8
      → parameters.experiment_iterations < fuel
      → P st
      → (st' : Manager) × (experiment platform config parameters round callback fuel st
          ≡ Outcome.finished (register_timer parameters.experiment_end_offset callback st'))
        × P st'
  unfolding experiment after
  experiment-finishes callback fuel st small enough p =
      let (st', run, q) =
        iterations_from P (λ iterator. rounds (round iterator) parameters.reconfiguration_order)
          (λ iterator before low.
            rounds-total P (round iterator)
              (λ network_mode st1. total iterator network_mode st1 low)
              parameters.reconfiguration_order before)
          parameters.experiment_iterations fuel 0 st small (omega arith) (omega arith) p in
      (st', rw run refl, q)

module _ (r : Receiver) (receiver : IsReceiver r) (platform : Platform)
    (behaves : IsPlatform platform) (config : Map UnitSettings) (address : ℕ → Endpoint)
    (known : (client : ℕ) → get_client_address config client ≡ some (address client))
    (parameters : ExperimentParameter) (instants : (n : ℕ) → IsInstant (2 ^ 61) (platform.clock n))
    (phase : parameters.mc_distribution_phase_duration < 2 ^ 32)
    (offsets : parameters.mc_client_start_offset + parameters.mc_client_reconfig_offset
      < 2 ^ 32) where
  asynchonous_round_hw-total :
      (l : Map Message)
      → All HasService l
      → (iterator network_mode : ℕ) (st : Manager) → iterator < 2 ^ 8
      → st.service_list ≡ l
      → (st' : Manager) × (asynchonous_round_hw platform config parameters iterator network_mode st
          ≡ some st')
        × (st'.service_list ≡ l)
  asynchonous_round_hw-total l bounded iterator network_mode st low e =
      let run =
        asynchonous_round_hw-Runs r receiver platform behaves config address known parameters
          iterator network_mode st (instants st.readings) phase offsets low
          (subst (All HasService) (sym e) bounded) in
      (run.after, run.returns, run.keeps ∙ e)

  -- The experiment for asynchronous objects in hardware, of at most 255 iterations and with more
  -- fuel than iterations, ends: it gets to the timer for the asynchronous stop, with the services
  -- that were registered. The clock, the durations and the services are in range, every client has
  -- an address, and the buffers have their memory.
  pub asynchonous_objects_hw-finishes :
      (fuel : ℕ) (st : Manager)
      → parameters.experiment_iterations < 2 ^ 8
      → parameters.experiment_iterations < fuel
      → All HasService st.service_list
      → (st' : Manager) × (experiment_mode_change_time_triggered_asynchonous_objects_hw platform
            config parameters fuel st
          ≡ Outcome.finished (
              register_timer parameters.experiment_end_offset
                Callback.stopping_experiment_asynchronous st'))
        × (st'.service_list ≡ st.service_list)
  unfolding experiment_mode_change_time_triggered_asynchonous_objects_hw
  asynchonous_objects_hw-finishes fuel st small enough bounded =
      experiment-finishes platform config parameters (λ st'. st'.service_list ≡ st.service_list)
        (asynchonous_round_hw platform config parameters)
        (asynchonous_round_hw-total st.service_list bounded)
        Callback.stopping_experiment_asynchronous fuel st small enough refl
