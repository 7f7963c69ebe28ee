-- ===== src/Manager/StopCommands.antt =====
-- What the clients are told when an experiment ends (include/rscmng/rm/net_layer_rm.tpp,
-- stopping_experiment_synchronous).
use application_aware_resour.Prelude.{ℕ, ◌≡◌, List, [], ◌∷◌, some}
use application_aware_resour.Codec.{Timespec}
use application_aware_resour.Message.{Message}
use application_aware_resour.Channel.{Endpoint}
use application_aware_resour.Map.{Map}
use application_aware_resour.Config.{UnitSettings, ExperimentParameter}
use application_aware_resour.Manager.{Manager, Platform, get_client_address}
use application_aware_resour.Manager.Stop.{stop_mode}
use application_aware_resour.Manager.Commands.{
  Receiver, IsReceiver, IsPlatform, Command, stop_command,
}

-- The commands for all services, in their order.
unfoldable pub all_told : (ℕ → Message → Command) → Map Message → List Command
all_told command [] = []
all_told command ((service_id, message) ∷ l) = command service_id message ∷ all_told command l

module _ (r : Receiver) (receiver : IsReceiver r) (platform : Platform)
    (behaves : IsPlatform platform) (config : Map UnitSettings) (address : ℕ → Endpoint)
    (known : (client : ℕ) → get_client_address config client ≡ some (address client))
    (parameters : ExperimentParameter) where
  -- The command that a service gets: to stop 10 ms after the instant, and the payload's other times.
  abbrev pub stop_of : (Timespec → ℕ → Timespec) → Timespec → ℕ → Message → Command
  stop_of add target_time service_id message =
      stop_command (add target_time 10) (add target_time 20) (add target_time 20)
        (address message.source_id) service_id stop_mode
