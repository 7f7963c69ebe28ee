-- ===== src/Reader/Parameters.antt =====
-- The ranges of the parameters of the experiment that are read.
use application_aware_resour.Prelude.{ℕ, ◌^◌, ◌<◌, ◌≡◌, []}
use application_aware_resour.Config.{ExperimentParameter}
use application_aware_resour.Reader.Tree.{
  PropertyTree, Fault, or_fault, get_child, get_uint32, get_list, read_outer_map, ok, ◌>>=◌,
  Ensures, holds, Ensures-ok, bind-Ensures, then-Ensures, get_uint32-Ensures,
}
use application_aware_resour.Reader.Experiment.{check_experiment_settings}

-- The times of an experiment fit the `uint32_t` that they are read as.
pub record FitsParameters (x : ExperimentParameter) : Type 0 where
  pub client_init_time : x.client_init_time < 2 ^ 32
  pub experiment_begin_offset : x.experiment_begin_offset < 2 ^ 32
  pub experiment_end_offset : x.experiment_end_offset < 2 ^ 32
  pub experiment_iterations : x.experiment_iterations < 2 ^ 32
  pub mc_distribution_phase_duration : x.mc_distribution_phase_duration < 2 ^ 32
  pub mc_client_stop_offset : x.mc_client_stop_offset < 2 ^ 32
  pub mc_client_reconfig_offset : x.mc_client_reconfig_offset < 2 ^ 32
  pub mc_client_start_offset : x.mc_client_start_offset < 2 ^ 32
  pub inter_mc_gap_min : x.inter_mc_gap_min < 2 ^ 32
  pub inter_mc_gap_max : x.inter_mc_gap_max < 2 ^ 32
  pub hyperperiod_duration : x.hyperperiod_duration < 2 ^ 32

module _ (p : PropertyTree) where
  check_experiment_settings-Ensures :
      (memory : ℕ) (t : p.Tree) → Ensures FitsParameters (check_experiment_settings p memory t)
  unfolding check_experiment_settings
  check_experiment_settings-Ensures memory t =
      bind-Ensures (get_child p "EXPERIMENT_SETTINGS" t) _ λ x.
        bind-Ensures (get_uint32 p "EXPERIMENT_NUMBER" x) _ λ number.
          then-Ensures _ (get_uint32-Ensures p "CLIENT_INIT_TIME[ms]" x) λ init h0.
            then-Ensures _ (get_uint32-Ensures p "EXPERIMENT_BEGIN_OFFSET[ms]" x) λ begin h1.
              then-Ensures _ (get_uint32-Ensures p "EXPERIMENT_END_OFFSET[ms]" x) λ end h2.
                then-Ensures _ (get_uint32-Ensures p "EXPERIMENT_ITERATIONS" x) λ iterations h3.
                  bind-Ensures
                    (get_child p "EXPERIMENT_SYNCHRONOUS_START_FLAG" x >>= λ c.
                      or_fault Fault.bad_data (p.bool_value c))
                    _
                    λ flag.
                      then-Ensures _ (get_uint32-Ensures p "MC_DISTRIBUTION_PHASE_DURATION[ms]" x)
                        λ phase h4.
                          then-Ensures _ (get_uint32-Ensures p "MC_CLIENT_STOP_OFFSET[ms]" x)
                            λ stop h5.
                              then-Ensures _
                                (get_uint32-Ensures p "MC_CLIENT_RECONFIG_OFFSET[ms]" x)
                                λ reconfig h6.
                                  then-Ensures _
                                    (get_uint32-Ensures p "MC_CLIENT_START_OFFSET[ms]" x)
                                    λ start h7.
                                      then-Ensures _ (get_uint32-Ensures p "INTER_MC_GAP_MIN[ms]" x)
                                        λ least h8.
                                          then-Ensures _
                                            (get_uint32-Ensures p "INTER_MC_GAP_MAX[ms]" x)
                                            λ most h9.
                                              then-Ensures _
                                                (get_uint32-Ensures p "HYPERPERIOD_DURATION[ms]" x)
                                                λ period h10.
                                                  bind-Ensures
                                                    (get_uint32 p "EXPERIMENT_STARTUP_MODE" x) _
                                                    λ mode.
                                                      bind-Ensures
                                                        (get_child p "EXPERIMENT_STARTUP_MODE_MAP"
                                                          x)
                                                        _
                                                        λ modes.
                                                          bind-Ensures
                                                            (read_outer_map p (p.children modes) [])
                                                            _
                                                            λ mode_map.
                                                            bind-Ensures
                                                            (get_list p p.uint32_value
                                                            "EXPERIMENT_RECONFIGURATION_ORDER" x)
                                                            _
                                                            λ order.
                                                            bind-Ensures
                                                            (get_child p
                                                            "EXPERIMENT_RECONFIGURATION_MAP" x)
                                                            _
                                                            λ changes.
                                                            bind-Ensures
                                                            (read_outer_map p (p.children changes)
                                                            [])
                                                            _
                                                            λ change_map. holds _ (record {
                                                            client_init_time = h0;
                                                            experiment_begin_offset = h1;
                                                            experiment_end_offset = h2;
                                                            experiment_iterations = h3;
                                                            mc_distribution_phase_duration = h4;
                                                            mc_client_stop_offset = h5;
                                                            mc_client_reconfig_offset = h6;
                                                            mc_client_start_offset = h7;
                                                            inter_mc_gap_min = h8;
                                                            inter_mc_gap_max = h9;
                                                            hyperperiod_duration = h10;
                                                            })

  -- The times of an experiment that is read fit their type.
  pub check_experiment_settings-Fits :
      (memory : ℕ) (t : p.Tree) (x : ExperimentParameter)
      → check_experiment_settings p memory t ≡ ok x
      → FitsParameters x
  check_experiment_settings-Fits memory t x e =
      Ensures-ok (check_experiment_settings-Ensures memory t) e
