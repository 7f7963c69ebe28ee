-- ===== src/Switch/Commands.antt =====
-- What the switch makes of the mode changes of the resource manager.
use application_aware_resour.Prelude.{
  ℕ, ◌%◌, ◌^◌, ◌≤◌, ◌≡◌, refl, ap, sym, ◌∙◌, Bool, true, false, List, [], ◌∷◌, ◌++◌, some, length,
  append-nil, if◌then◌else◌, eqb_ℤ, ◌<ℤ◌, All,
}
use application_aware_resour.Types.{MessageType}
use application_aware_resour.Buffer.{Buffer}
use application_aware_resour.Buffer.Stream.{Holds}
use application_aware_resour.Codec.{Timespec}
use application_aware_resour.Clock.{total_ns}
use application_aware_resour.Clock.Sums.{IsNormal}
use application_aware_resour.Message.{Message, max_payload}
use application_aware_resour.Channel.{
  Endpoint, Datagram, post, send_sync_reconfigure_done, sendout_control_message,
}
use application_aware_resour.Channel.Delivery.{sent_message}
use application_aware_resour.Channel.Commands.{specific_message-sent}
use application_aware_resour.Client.{Client, sync_ack_receive, sync_ack_reconfigure_done}
use application_aware_resour.Payload.Command.{RmPayload, command_payload}
use application_aware_resour.Manager.Commands.{Receiver, Delivers, reconfigure_command}
use application_aware_resour.Endnode.{Surroundings, payload_of}
use application_aware_resour.Endnode.Polling.{Handling, poll}
use application_aware_resour.Endnode.Deadlines.{IsTarget, IsEarly, poll-first_late}
use application_aware_resour.Endnode.Commands.{surroundings, sync_ack_receive-sent}
use application_aware_resour.Switch.{
  Switch, Script, commands_of, reconfigure_sw_to_mode, answer, ack_receive, ack_reconfigure_done,
  polls, handle_sync_reconfigure_message, handle_control_message,
}

sync_ack_reconfigure_done-sent :
    (raw : List ℕ) (now : ℕ) (c : Client) (b : Buffer) (bytes : List ℕ) (service_id : ℕ)
    → Holds b bytes
    → length bytes ≤ max_payload
    → (datagram : Datagram) × (sync_ack_reconfigure_done raw now c (some b) service_id
        ≡ some datagram)
      × (datagram.target ≡ c.central_rm_address)
unfolding sync_ack_reconfigure_done send_sync_reconfigure_done post sendout_control_message
sync_ack_reconfigure_done-sent raw now c b bytes service_id h fits =
    let id = c.rm_client_id in
    let m = sent_message now MessageType.sync_reconfigure_done id id service_id 0 bytes in
    (
      sendout_control_message raw now m c.central_rm_address,
      rw
          (specific_message-sent now MessageType.sync_reconfigure_done id id service_id 0 bytes fits
            b h)
          refl,
      refl,
    )

-- Both answers were sent to the resource manager, and these commands were started.
pub record Reconfigures (st : Switch) (commands : List Script) (handling : Handling Switch)
    : Type 0 where
  pub ack : Datagram
  pub done : Datagram
  pub ack_to_manager : ack.target ≡ st.rm_client.central_rm_address
  pub done_to_manager : done.target ≡ st.rm_client.central_rm_address
  pub finishes :
      handling
      ≡ Handling.finished (record st {
        sent = (st.sent ++ ack ∷ []) ++ done ∷ [];
        scripts = st.scripts ++ commands;
      })

sync_reconfigure-polls :
    (env : Surroundings) (m : Message) (st : Switch) (ack done : Datagram) (commands : List Script)
    → sync_ack_receive env.raw_sent env.stamp_received st.rm_client
        (some st.rm_payload_sendout)
        st.client_id
      ≡ some ack
    → sync_ack_reconfigure_done env.raw_sent env.stamp_done st.rm_client
        (some st.rm_payload_sendout)
        st.client_id
      ≡ some done
    → handle_sync_reconfigure_message env m (record st { sent = st.sent ++ ack ∷ [] })
      ≡ some (record st { sent = st.sent ++ ack ∷ []; scripts = st.scripts ++ commands })
    → handle_control_message env m MessageType.sync_timestamp_reconfigure_hw st
      ≡ Handling.finished (record st {
        sent = (st.sent ++ ack ∷ []) ++ done ∷ [];
        scripts = st.scripts ++ commands;
      })
unfolding handle_control_message ack_receive ack_reconfigure_done answer
sync_reconfigure-polls env m st ack done commands e d f =
    simp (ack_receive, ack_reconfigure_done, e, d, answer, polls, f)

-- The outcome of the loop, as the commands that it started.
outcome-commands :
    (mode : ℕ) (same : Bool) (st : Switch)
    → some (if same then reconfigure_sw_to_mode mode st else st)
      ≡ some (record st {
        scripts = st.scripts ++ (if same then commands_of mode st.experiment_number else []);
      })
unfolding reconfigure_sw_to_mode
outcome-commands mode true st = refl
outcome-commands mode false st =
    ap (λ l. some (record st { scripts = l })) (sym (append-nil st.scripts))

-- A mode change for synchronised hardware that the resource manager has sent and that is delivered
-- to a switch is answered twice to the manager, and the handler polls the clock until it has passed
-- the time of the reconfiguration: if that reading is in the second of that time, the script of the
-- mode, in its low eight bits, is started for the experiment of the configuration, where the mode
-- has one, and otherwise nothing is started. The answers fit a message, the readings and the time
-- are normal, and the seconds of the time are not 0.
pub sync_reconfigure-Reconfigures :
    (r : Receiver) (raw_sent : List ℕ) (stamp_received stamp_done : ℕ) (time_now : Timespec)
    (early : List Timespec) (now : Timespec) (later : List Timespec)
    (stop reconfig start : Timespec) (address : Endpoint) (service_id mode iterator : ℕ)
    (datagram : Datagram) (st : Switch) (bytes : List ℕ)
    (d : Delivers r
      (reconfigure_command MessageType.sync_timestamp_reconfigure_hw stop reconfig start address
        service_id mode iterator)
      datagram)
    → Holds st.rm_payload_sendout bytes
    → length bytes ≤ max_payload
    → IsTarget reconfig
    → All (IsEarly reconfig) early
    → IsNormal now
    → total_ns reconfig <ℤ total_ns now
    → Reconfigures st
        (if eqb_ℤ now.tv_sec reconfig.tv_sec
          then commands_of (mode % 2 ^ 8) st.experiment_number
          else [])
        (handle_control_message
          (surroundings r raw_sent stamp_received stamp_done time_now (early ++ now ∷ later))
          d.arrives.message
          d.arrives.message.message_type
          st)
unfolding payload_of command_payload handle_sync_reconfigure_message
sync_reconfigure-Reconfigures r raw_sent stamp_received stamp_done time_now early now later stop
      reconfig start address service_id mode iterator datagram st bytes d h fits t es n late =
    let a = d.arrives in
    let env : Surroundings =
      surroundings r raw_sent stamp_received stamp_done time_now (early ++ now ∷ later) in
    let b = st.rm_payload_sendout in
    let (ack, ack_sent, ack_to) =
      sync_ack_receive-sent raw_sent stamp_received st.rm_client b bytes st.client_id h fits in
    let (done, done_sent, done_to) =
      sync_ack_reconfigure_done-sent raw_sent stamp_done st.rm_client b bytes st.client_id h fits in
    let st1 : Switch = record st { sent = st.sent ++ ack ∷ [] } in
    let same = eqb_ℤ now.tv_sec reconfig.tv_sec in
    let polled : handle_sync_reconfigure_message env a.message st1
        ≡ some (record st1 {
          scripts =
              st.scripts ++ (if same then commands_of (mode % 2 ^ 8) st.experiment_number else []);
        }) =
      ap
        (λ (p : RmPayload).
          poll p.timestamp_reconfig (reconfigure_sw_to_mode a.message.mode) env.readings st1)
        a.reads
      ∙ ap (λ k. poll reconfig (reconfigure_sw_to_mode k) env.readings st1) a.with_mode
      ∙ poll-first_late reconfig (reconfigure_sw_to_mode (mode % 2 ^ 8)) early now later st1 t es n
          late
      ∙ outcome-commands (mode % 2 ^ 8) same st1 in
    record {
      ack = ack;
      done = done;
      ack_to_manager = ack_to;
      done_to_manager = done_to;
      finishes =
          ap (λ type. handle_control_message env a.message type st) a.of_type
          ∙ sync_reconfigure-polls env a.message st ack done _ ack_sent done_sent polled;
    }
