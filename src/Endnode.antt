-- ===== src/Endnode.antt =====
-- The client of an end node (examples/wired_basic/wired_rm_client_endnode.cpp): the loop of `main`
-- that takes the control messages, and their handlers. What is logged is left out, and so are the
-- readings of the clock that are only logged and `timespec_to_steady`, whose result nothing uses.
pub mod Polling
pub mod Deadlines
pub mod Windows
pub mod Commands
pub mod Startup
pub mod Answered
pub mod Answers
pub mod Ignored
mod Tests
use application_aware_resour.Prelude.{
  ℕ, ◌%◌, ◌^◌, Bool, true, false, List, [], ◌∷◌, ◌++◌, Option, none, some, if◌then◌else◌, pos,
}
use application_aware_resour.Types.{MessageType, RmCommand}
use application_aware_resour.Buffer.{Buffer, create, copy, reset}
use application_aware_resour.Codec.{Timespec}
use application_aware_resour.Payload.Command.{
  RmPayload, zero_time, full_payload, serialize, deserialize,
}
use application_aware_resour.Message.{Message}
use application_aware_resour.Channel.{Datagram}
use application_aware_resour.Channel.Commands.{rm_payload_received}
use application_aware_resour.Client.{
  Client, sync_request, sync_ack_receive, sync_ack_reconfigure_done,
}
use application_aware_resour.Generator.Notify.{
  Control, TrafficSourceControl, notify_generator, notify_generator_mode_change,
  notify_generator_timestamp,
}
use application_aware_resour.Endnode.Polling.{Handling, poll, poll_both}

-- The globals and the variables of `main` that the handling of a message touches; `sent` is what the
-- client put on the control channel, `generator` the shared members of the traffic generator.
pub record Endnode : Type 0 where
  pub active : Bool
  pub generator : Control
  pub rm_client : Client
  pub service_id : ℕ
  pub rm_payload_sendout : Buffer
  pub sent : List Datagram

-- The payload of the first request; `request` is the bytes of `network_resource_request`.
unfoldable pub clients_request : ℕ → List ℕ → RmPayload
unfolding full_payload
clients_request client_priority request =
    full_payload 2000 (pos 100_000_000) client_priority 0 RmCommand.idle zero_time zero_time
      zero_time request

-- `main` from the first request to the loop: the payload stays in the buffer for the answers.
unfoldable pub startup : List ℕ → List ℕ → ℕ → ℕ → List ℕ → Control → Client → ℕ → Option Endnode
unfolding clients_request create sync_request
startup raw_payload raw_sent stamp client_priority request generator rm_client service_id =
    let sendout = serialize (clients_request client_priority request) (create raw_payload) in
    elim (sync_request raw_sent stamp rm_client (some sendout) service_id) [
      | none ↦ none
      | some datagram ↦ some (record {
        active = true;
        generator = generator;
        rm_client = rm_client;
        service_id = service_id;
        rm_payload_sendout = sendout;
        sent = datagram ∷ [];
      })
    ]

-- What the handling of a message meets: indeterminate memory, the readings of the clock, and the
-- counts of the system clock for the answers.
pub record Surroundings : Type 0 where
  pub raw_payload : List ℕ
  pub raw_copy : List ℕ
  pub blank : RmPayload
  pub raw_sent : List ℕ
  pub stamp_received : ℕ
  pub stamp_done : ℕ
  pub time_now : Timespec
  pub readings : List Timespec

-- The payload that a handler reads from its copy of the buffer.
unfoldable pub payload_of : Surroundings → Message → RmPayload
unfolding rm_payload_received copy
payload_of env m =
    (deserialize env.blank (copy env.raw_copy (rm_payload_received env.raw_payload m))).0

-- The same, for a handler that calls `reset` first.
unfoldable pub payload_after_reset : Surroundings → Message → RmPayload
unfolding rm_payload_received copy reset
payload_after_reset env m =
    (deserialize env.blank (reset (copy env.raw_copy (rm_payload_received env.raw_payload m)))).0

module _ (env : Surroundings) (m : Message) where
  unfoldable pub handle_start_message : Control → Control
  unfolding notify_generator_timestamp
  handle_start_message =
      notify_generator_timestamp TrafficSourceControl.thread_transmission env.time_now m.mode true

  unfoldable pub handle_stop_message : Control → Control
  unfolding notify_generator
  handle_stop_message = notify_generator TrafficSourceControl.thread_stop

  unfoldable pub handle_reconfigure_message : Control → Control
  unfolding notify_generator_mode_change
  handle_reconfigure_message =
      notify_generator_mode_change TrafficSourceControl.thread_transmission m.mode

  unfoldable pub handle_sync_reconfigure_hw_message : Control → Option Control
  unfolding payload_of poll_both notify_generator
  handle_sync_reconfigure_hw_message =
      poll_both (payload_of env m).timestamp_stop
        (notify_generator TrafficSourceControl.thread_paused) (payload_of env m).timestamp_start
        (notify_generator TrafficSourceControl.thread_transmission) env.readings false

  unfoldable pub handle_sync_reconfigure_sw_message : Control → Option Control
  unfolding payload_of poll notify_generator_mode_change
  handle_sync_reconfigure_sw_message =
      poll (payload_of env m).timestamp_reconfig
        (notify_generator_mode_change TrafficSourceControl.thread_transmission m.mode) env.readings

  unfoldable pub handle_sync_start_message : Control → Option Control
  unfolding payload_of poll notify_generator_timestamp
  handle_sync_start_message =
      let target = (payload_of env m).timestamp_start in
      poll target
        (notify_generator_timestamp TrafficSourceControl.thread_transmission target m.mode true)
        env.readings

  unfoldable pub handle_sync_stop_message : Control → Option Control
  unfolding payload_after_reset poll notify_generator
  handle_sync_stop_message =
      poll (payload_after_reset env m).timestamp_stop
        (notify_generator TrafficSourceControl.thread_stop) env.readings

  unfoldable pub handle_sync_reconfigure_sync_object_sw_message : Control → Option Control
  unfolding payload_of poll_both notify_generator notify_generator_timestamp
  handle_sync_reconfigure_sync_object_sw_message =
      let restart = (payload_of env m).timestamp_start in
      poll_both (payload_of env m).timestamp_reconfig
        (notify_generator TrafficSourceControl.thread_transmission_finish_object) restart
        (notify_generator_timestamp TrafficSourceControl.thread_transmission restart m.mode true)
        env.readings false

  -- The handler reads the payload and does nothing with it.
  unfoldable pub handle_sync_reconfigure_sync_object_hw_message : Control → Control
  handle_sync_reconfigure_sync_object_hw_message generator = generator

  unfoldable pub handle_exit_message : Endnode → Endnode
  unfolding notify_generator
  handle_exit_message st = record st {
    active = false;
    generator = notify_generator TrafficSourceControl.thread_stop st.generator;
  }

  -- Stopping the generator and clearing `active` happen together, in the turn that fires.
  unfoldable pub handle_sync_exit_message : Endnode → Option Endnode
  unfolding payload_after_reset poll handle_exit_message
  handle_sync_exit_message =
      poll (payload_after_reset env m).timestamp_stop handle_exit_message env.readings

  -- `sync_ack_receive` and `sync_ack_reconfigure_done`: the answer that is sent, before what follows.
  unfoldable pub answer :
      Option Datagram → (Endnode → Handling Endnode) → Endnode → Handling Endnode
  answer none next st = Handling.undefined
  answer (some datagram) next st = next (record st { sent = st.sent ++ datagram ∷ [] })

  unfoldable pub ack_receive : (Endnode → Handling Endnode) → Endnode → Handling Endnode
  unfolding answer sync_ack_receive
  ack_receive next st =
      answer
        (sync_ack_receive env.raw_sent env.stamp_received st.rm_client (some st.rm_payload_sendout)
          st.service_id)
        next st

  unfoldable pub ack_reconfigure_done : Endnode → Handling Endnode
  unfolding answer sync_ack_reconfigure_done
  ack_reconfigure_done st =
      answer
        (sync_ack_reconfigure_done env.raw_sent env.stamp_done st.rm_client
          (some st.rm_payload_sendout) st.service_id)
        Handling.finished st

  -- A handler that acts on the generator, and what follows it.
  abbrev pub acts : (Control → Control) → (Endnode → Handling Endnode) → Endnode → Handling Endnode
  acts handler next st = next (record st { generator = handler st.generator })

  abbrev pub polls :
      (Control → Option Control) → (Endnode → Handling Endnode) → Endnode → Handling Endnode
  polls handler next st = elim (handler st.generator) [
    | none ↦ Handling.polling
    | some generator ↦ next (record st { generator = generator })
  ]

  abbrev pub exits : Endnode → Handling Endnode
  exits st = elim (handle_sync_exit_message st) [
    | none ↦ Handling.polling
    | some st' ↦ Handling.finished st'
  ]

  -- The `switch` on the type of the message
  unfoldable pub handle_control_message : MessageType → Endnode → Handling Endnode
  unfolding ack_receive ack_reconfigure_done
  handle_control_message MessageType.start = acts handle_start_message Handling.finished
  handle_control_message MessageType.stop = ack_receive (acts handle_stop_message Handling.finished)
  handle_control_message MessageType.reconfigure_sw =
      ack_receive (acts handle_reconfigure_message ack_reconfigure_done)
  handle_control_message MessageType.sync_timestamp_start =
      ack_receive (polls handle_sync_start_message Handling.finished)
  handle_control_message MessageType.sync_timestamp_stop =
      ack_receive (polls handle_sync_stop_message Handling.finished)
  handle_control_message MessageType.sync_timestamp_reconfigure_hw =
      ack_receive (polls handle_sync_reconfigure_hw_message ack_reconfigure_done)
  handle_control_message MessageType.sync_timestamp_reconfigure_sw =
      ack_receive (polls handle_sync_reconfigure_sw_message ack_reconfigure_done)
  handle_control_message MessageType.sync_timestamp_reconfigure_sync_object_hw =
      ack_receive (acts handle_sync_reconfigure_sync_object_hw_message ack_reconfigure_done)
  handle_control_message MessageType.sync_timestamp_reconfigure_sync_object_sw =
      ack_receive (polls handle_sync_reconfigure_sync_object_sw_message ack_reconfigure_done)
  handle_control_message MessageType.sync_timestamp_exit = ack_receive exits
  handle_control_message MessageType.exit =
      ack_receive (λ st. Handling.finished (handle_exit_message st))
  handle_control_message _ = Handling.finished

-- The loop of `main` over the messages in the order of their arrival; it ends with `active`. The test
-- for a next message is left out: what it returns is the value of an uninitialised variable.
unfoldable pub handle_control_messages : List (Surroundings × Message) → Endnode → Handling Endnode
unfolding handle_control_message
handle_control_messages [] st = Handling.finished st
handle_control_messages ((env, m) ∷ rest) st =
    if st.active
    then elim (handle_control_message env m m.message_type st) [
      | Handling.finished st' ↦ handle_control_messages rest st'
      | Handling.polling ↦ Handling.polling
      | Handling.undefined ↦ Handling.undefined
    ]
    else Handling.finished st
