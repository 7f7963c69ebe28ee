-- ===== src/Switch.antt =====
-- The client of a switch (examples/wired_basic/wired_rm_client_switch.cpp): the loop of `main` that
-- takes the control messages, and their handlers. The scripts that `system` starts are recorded. The
-- payload is taken out of a message as at the end node. What is logged is left out, and so is
-- `check_interfaces`, whose result is only logged.
pub mod Commands
mod Tests
use application_aware_resour.Prelude.{
  ℕ, ◌%◌, ◌^◌, Bool, true, false, String, List, [], ◌∷◌, ◌++◌, Option, none, some, ◌==◌,
  if◌then◌else◌,
}
use application_aware_resour.Types.{MessageType}
use application_aware_resour.Buffer.{Buffer}
use application_aware_resour.Codec.{Timespec}
use application_aware_resour.Message.{Message}
use application_aware_resour.Channel.{Datagram}
use application_aware_resour.Client.{Client, sync_ack_receive, sync_ack_reconfigure_done}
use application_aware_resour.Endnode.{Surroundings, payload_of, payload_after_reset}
use application_aware_resour.Endnode.Polling.{Handling, poll}

-- The command `sh ./scripts/experiment_<number><suffix>.sh`
pub record Script : Type 0 where
  pub experiment_number : ℕ
  pub suffix : String

-- The variables of `main` and the globals that the handling of a message touches; `scripts` are the
-- commands that were started.
pub record Switch : Type 0 where
  pub active : Bool
  pub rm_client : Client
  pub client_id : ℕ
  pub experiment_number : ℕ
  pub rm_payload_sendout : Buffer
  pub sent : List Datagram
  pub scripts : List Script

unfoldable pub script_suffix : ℕ → Option String
script_suffix mode =
    if mode == 0
    then some "_switch_m0"
    else if mode == 1
    then some "_switch_m0_m1"
    else if mode == 10
    then some "_switch_m1_m0"
    else none

-- The commands that a mode starts; a mode without a script is only logged.
unfoldable pub commands_of : ℕ → ℕ → List Script
unfolding script_suffix
commands_of mode experiment_number = elim (script_suffix mode) [
  | none ↦ []
  | some suffix ↦ record { experiment_number = experiment_number % 2 ^ 8; suffix = suffix } ∷ []
]

unfoldable pub reconfigure_sw_to_mode : ℕ → Switch → Switch
unfolding commands_of
reconfigure_sw_to_mode mode st = record st {
  scripts = st.scripts ++ commands_of mode st.experiment_number;
}

module _ (env : Surroundings) (m : Message) where
  unfoldable pub handle_start_message : Switch → Switch
  unfolding reconfigure_sw_to_mode
  handle_start_message = reconfigure_sw_to_mode m.mode

  unfoldable pub handle_reconfigure_message : Switch → Switch
  unfolding reconfigure_sw_to_mode
  handle_reconfigure_message = reconfigure_sw_to_mode m.mode

  unfoldable pub handle_sync_start_message : Switch → Option Switch
  unfolding payload_of poll reconfigure_sw_to_mode
  handle_sync_start_message =
      poll (payload_of env m).timestamp_start (reconfigure_sw_to_mode m.mode) env.readings

  unfoldable pub handle_sync_reconfigure_message : Switch → Option Switch
  unfolding payload_of poll reconfigure_sw_to_mode
  handle_sync_reconfigure_message =
      poll (payload_of env m).timestamp_reconfig (reconfigure_sw_to_mode m.mode) env.readings

  unfoldable pub handle_exit_message : Switch → Switch
  handle_exit_message st = record st { active = false }

  unfoldable pub handle_sync_exit_message : Switch → Option Switch
  unfolding payload_after_reset poll handle_exit_message
  handle_sync_exit_message =
      poll (payload_after_reset env m).timestamp_stop handle_exit_message env.readings

  -- The answer that is sent, before what follows.
  unfoldable pub answer : Option Datagram → (Switch → Handling Switch) → Switch → Handling Switch
  answer none next st = Handling.undefined
  answer (some datagram) next st = next (record st { sent = st.sent ++ datagram ∷ [] })

  unfoldable pub ack_receive : (Switch → Handling Switch) → Switch → Handling Switch
  unfolding answer sync_ack_receive
  ack_receive next st =
      answer
        (sync_ack_receive env.raw_sent env.stamp_received st.rm_client (some st.rm_payload_sendout)
          st.client_id)
        next st

  unfoldable pub ack_reconfigure_done : Switch → Handling Switch
  unfolding answer sync_ack_reconfigure_done
  ack_reconfigure_done st =
      answer
        (sync_ack_reconfigure_done env.raw_sent env.stamp_done st.rm_client
          (some st.rm_payload_sendout) st.client_id)
        Handling.finished st

  abbrev pub polls :
      (Switch → Option Switch) → (Switch → Handling Switch) → Switch → Handling Switch
  polls handler next st = elim (handler st) [ none ↦ Handling.polling | some st' ↦ next st' ]

  -- The `switch` on the type of the message
  unfoldable pub handle_control_message : MessageType → Switch → Handling Switch
  unfolding ack_receive ack_reconfigure_done
  handle_control_message MessageType.start = λ st. Handling.finished (handle_start_message st)
  handle_control_message MessageType.reconfigure_hw =
      ack_receive (λ st. ack_reconfigure_done (handle_reconfigure_message st))
  handle_control_message MessageType.sync_timestamp_start =
      ack_receive (polls handle_sync_start_message Handling.finished)
  handle_control_message MessageType.sync_timestamp_reconfigure_hw =
      ack_receive (polls handle_sync_reconfigure_message ack_reconfigure_done)
  handle_control_message MessageType.sync_timestamp_reconfigure_sync_object_hw =
      ack_receive (polls handle_sync_reconfigure_message ack_reconfigure_done)
  handle_control_message MessageType.sync_timestamp_exit =
      ack_receive (polls handle_sync_exit_message Handling.finished)
  handle_control_message MessageType.exit =
      ack_receive (λ st. Handling.finished (handle_exit_message st))
  handle_control_message _ = Handling.finished

-- The loop of `main` over the messages in the order of their arrival; it ends with `active`. The test
-- for a next message is left out: what it returns is the value of an uninitialised variable.
unfoldable pub handle_control_messages : List (Surroundings × Message) → Switch → Handling Switch
unfolding handle_control_message
handle_control_messages [] st = Handling.finished st
handle_control_messages ((env, m) ∷ rest) st =
    if st.active
    then elim (handle_control_message env m m.message_type st) [
      | Handling.finished st' ↦ handle_control_messages rest st'
      | Handling.polling ↦ Handling.polling
      | Handling.undefined ↦ Handling.undefined
    ]
    else Handling.finished st
