-- ===== src/Manager.antt =====
-- `NetLayerRM`, the resource manager (include/rscmng/rm/net_layer_rm.hpp and net_layer_rm.tpp): its
-- state, the registration of clients and the methods that send. The handler thread and the timer
-- thread share only `service_list`, behind a lock; the functions run one after the other. Logging
-- is left out, and so are the readings of the clock that are only logged. `none` is undefined
-- behaviour.
pub mod Registration
pub mod Start
pub mod Experiment
pub mod Stop
pub mod Commands
pub mod Issues
pub mod Loops
pub mod Telling
pub mod Slots
pub mod StartCommands
pub mod StopCommands
pub mod RoundCommands
pub mod SlotCommands
pub mod Termination
pub mod Example
mod Tests
use application_aware_resour.Prelude.{
  ℕ, ◌+◌, ◌%◌, ◌^◌, List, [], ◌∷◌, ◌++◌, Option, none, some, length, String, ◌>>=◌, Bool, true,
  false, ◌==◌, if◌then◌else◌,
}
use application_aware_resour.Types.{MessageType, RmCommand}
use application_aware_resour.Buffer.{Buffer, create}
use application_aware_resour.Codec.{Timespec}
use application_aware_resour.Payload.Command.{RmPayload, command_payload, serialize, zero_time}
use application_aware_resour.Message.{Message, network_to_rm}
use application_aware_resour.Channel.{
  Endpoint, Datagram, send_start, send_start_sync, send_reconfig, send_sync_reconfig,
  send_sync_reconfig_type, send_sync_stop_exit, send_stop_exit,
}
use application_aware_resour.Map.{Map, find, insert}
use application_aware_resour.Config.{ServiceSettings, UnitSettings, ExperimentParameter}

-- The methods that `registerTimer` is given.
pub data Callback : Type 0 where
  initial_start_handler experiment_selection stopping_experiment_synchronous : Callback
  stopping_experiment_asynchronous : Callback

-- `sent` is what went out on the control channel and `timers` what was registered, with the delay in
-- milliseconds; `readings` counts the readings of the clock.
pub record Manager : Type 0 where
  pub service_list : Map Message
  pub rm_active_timestamp_last : Timespec
  pub rm_client_service_map : Map (Map ServiceSettings)
  pub sent : List Datagram
  pub timers : List (ℕ × Callback)
  pub readings : ℕ

-- What a send meets: the memory of the payload's buffer and of the datagram's, the bytes of the
-- payload object's request, and the clock's count.
pub record Send : Type 0 where
  pub raw_payload : List ℕ
  pub raw : List ℕ
  pub garbage : List ℕ
  pub stamp : ℕ

-- The environment: what each send meets, and what each reading of the clock returns.
pub record Platform : Type 0 where
  pub send : ℕ → Send
  pub clock : ℕ → Timespec

-- `demonstrator::RM_ID`
abbrev pub rm_id : ℕ
rm_id = 99

unfoldable pub get_client_address : Map UnitSettings → ℕ → Option Endpoint
get_client_address rm_client_config_map endnode_id = elim (find endnode_id rm_client_config_map) [
  | none ↦ some (record { address = "127.0.0.1"; port = 25525 })
  | some unit ↦ elim unit.rm_control_local_ip [
    | [] ↦ none
    | ◌∷◌ ip _ ↦ some (record { address = ip; port = unit.rm_control_local_port % 2 ^ 16 })
  ]
]

-- `buffer` is the empty buffer that the message is filled from again.
unfoldable pub handle_sync_messages : List ℕ → Message → Manager → Option Manager
handle_sync_messages raw message st = do
  m ← network_to_rm message (create raw)
  some (record st { service_list = insert message.service_id m st.service_list })

-- One turn of the handler's loop; the payload object that it fills is not used.
unfoldable pub handle_message : List ℕ → List ℕ → Message → Manager → Option Manager
handle_message raw raw' dequeued_message st = do
  m ← network_to_rm dequeued_message (create raw)
  elim m.message_type [ MessageType.sync_request ↦ handle_sync_messages raw' m st | _ ↦ some st ]

-- The handler's loop over the messages of its queue, each with the memory that it meets.
unfoldable pub handle_messages : List (List ℕ × List ℕ × Message) → Manager → Option Manager
unfolding handle_message
handle_messages [] st = some st
handle_messages ((raw, raw', m) ∷ l) st = handle_message raw raw' m st >>= handle_messages l

unfoldable pub emit : Option Datagram → Manager → Option Manager
emit datagram st = do d ← datagram; some (record st { sent = st.sent ++ d ∷ [] })

unfoldable pub register_timer : ℕ → Callback → Manager → Manager
register_timer delay callback st = record st { timers = st.timers ++ (delay, callback) ∷ [] }

-- The constructor registers the timer of the start; `last` is what the memory of the timestamp held.
unfoldable pub initial_manager :
    Timespec → Map (Map ServiceSettings) → ExperimentParameter → Manager
unfolding register_timer
initial_manager last service_configuration_map experiment_parameter =
    register_timer experiment_parameter.client_init_time Callback.initial_start_handler (record {
      service_list = [];
      rm_active_timestamp_last = last;
      rm_client_service_map = service_configuration_map;
      sent = [];
      timers = [];
      readings = 0;
    })

-- The buffer with the payload of a command
abbrev pub command_buffer : Send → RmCommand → Timespec → Timespec → Timespec → Buffer
command_buffer e command stop reconfig start =
    serialize (command_payload e.garbage command stop reconfig start) (create e.raw_payload)

module _ (platform : Platform) where
  -- What the next send meets.
  abbrev pub next_send : Manager → Send
  next_send st = platform.send (length st.sent)

  -- `send_sync_reconfig` takes the service as the destination and the iterator as the service.
  unfoldable pub send_synchronous_reconfigure :
      Timespec → Timespec → Timespec → Endpoint → ℕ → ℕ → ℕ → Manager → Option Manager
  send_synchronous_reconfigure stop_time reconfig_time start_time target_address service_id
        network_mode mc_iterator st =
      let e = next_send st in
      emit
        (send_sync_reconfig e.raw e.stamp target_address rm_id (service_id % 2 ^ 32) mc_iterator
          network_mode
          (some (
            command_buffer e RmCommand.sync_timestamp_reconfgure stop_time reconfig_time
              start_time)))
        st

  unfoldable pub send_time_triggered_synchronous_reconfigure_type :
      Timespec → Timespec → Timespec → Endpoint → ℕ → ℕ → MessageType → ℕ → Manager → Option Manager
  send_time_triggered_synchronous_reconfigure_type stop_time reconfig_time start_time target_address
        service_id network_mode message_type mc_iterator st =
      let e = next_send st in
      emit
        (send_sync_reconfig_type e.raw e.stamp target_address rm_id (service_id % 2 ^ 32)
          mc_iterator network_mode message_type
          (some (
            command_buffer e RmCommand.sync_timestamp_reconfgure stop_time reconfig_time
              start_time)))
        st

  unfoldable pub send_asynchronous_reconfigure : Endpoint → ℕ → ℕ → ℕ → Manager → Option Manager
  send_asynchronous_reconfigure target_address service_id network_mode mc_iterator st =
      let e = next_send st in
      emit
        (send_reconfig e.raw e.stamp target_address rm_id (service_id % 2 ^ 32) mc_iterator
          network_mode (some (create e.raw_payload)))
        st

  unfoldable pub send_synchronous_start : Timespec → Endpoint → ℕ → ℕ → Manager → Option Manager
  send_synchronous_start target_time target_address service_id network_mode st =
      let e = next_send st in
      emit
        (send_start_sync e.raw e.stamp target_address rm_id network_mode service_id
          (some (command_buffer e RmCommand.sync_timestamp_start zero_time zero_time target_time)))
        st

  -- The payload says `SYNC_TIMESTAMP_RECONFGURE` here too.
  unfoldable pub send_synchronous_stop :
      Timespec → Timespec → Timespec → Endpoint → ℕ → ℕ → Manager → Option Manager
  send_synchronous_stop stop_time reconfig_time start_time target_address service_id network_mode
        st =
      let e = next_send st in
      emit
        (send_sync_stop_exit e.raw e.stamp target_address rm_id service_id network_mode (
          some (
            command_buffer e RmCommand.sync_timestamp_reconfgure stop_time reconfig_time
              start_time)))
        st

  unfoldable pub send_asynchronous_stop : Endpoint → ℕ → ℕ → Manager → Option Manager
  send_asynchronous_stop target_address service_id network_mode st =
      let e = next_send st in
      emit
        (send_stop_exit e.raw e.stamp target_address rm_id service_id network_mode
          (some (create e.raw_payload)))
        st
