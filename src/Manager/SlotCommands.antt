-- ===== src/Manager/SlotCommands.antt =====
-- What the clients are told in a round of the experiments for synchronous objects
-- (include/rscmng/rm/net_layer_rm.tpp, the bodies of
-- experiment_mode_change_time_triggered_synchronous_objects_hw and _sw).
use application_aware_resour.Prelude.{ℕ, ◌≡◌, some}
use application_aware_resour.Types.{MessageType}
use application_aware_resour.Codec.{Timespec}
use application_aware_resour.Payload.Command.{zero_time}
use application_aware_resour.Message.{Message}
use application_aware_resour.Channel.{Endpoint}
use application_aware_resour.Clock.{prepare_timestamp_sub}
use application_aware_resour.Map.{Map}
use application_aware_resour.Config.{UnitSettings, ExperimentParameter, ServiceSettings}
use application_aware_resour.Manager.{Manager, Platform, get_client_address}
use application_aware_resour.Manager.Commands.{
  Receiver, IsReceiver, IsPlatform, Command, reconfigure_command,
}
use application_aware_resour.Manager.StartCommands.{slot_start}

module _ (r : Receiver) (receiver : IsReceiver r) (platform : Platform)
    (behaves : IsPlatform platform) (config : Map UnitSettings) (address : ℕ → Endpoint)
    (known : (client : ℕ) → get_client_address config client ≡ some (address client))
    (parameters : ExperimentParameter) (services : Map (Map ServiceSettings)) where
  -- The command that a service gets: to start in its slot after the target, and to reconfigure ahead
  -- of that.
  abbrev pub slot_command :
      (Timespec → ℕ → Timespec) → MessageType → Timespec → ℕ → ℕ → Message → ℕ → Command
  slot_command add type target iterator service_id message mode =
      let start = slot_start add services target message.service_id mode in
      reconfigure_command type zero_time
        (prepare_timestamp_sub start parameters.mc_client_reconfig_offset) start
        (address message.source_id) service_id mode iterator
