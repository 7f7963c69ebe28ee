-- ===== src/Endnode/Commands.antt =====
-- What the end node makes of the commands of the resource manager.
use application_aware_resour.Prelude.{
  ℕ, ◌%◌, ◌^◌, ◌≤◌, ◌≡◌, refl, ap, ◌∙◌, true, List, [], ◌∷◌, ◌++◌, some, length, if◌then◌else◌,
  eqb_ℤ, ◌<ℤ◌, All,
}
use application_aware_resour.Types.{MessageType}
use application_aware_resour.Buffer.{Buffer}
use application_aware_resour.Buffer.Stream.{Holds}
use application_aware_resour.Codec.{Timespec}
use application_aware_resour.Clock.{total_ns}
use application_aware_resour.Clock.Sums.{IsNormal}
use application_aware_resour.Message.{Message, max_payload}
use application_aware_resour.Channel.{
  Endpoint, Datagram, post, send_sync_receive, sendout_control_message,
}
use application_aware_resour.Channel.Delivery.{sent_message}
use application_aware_resour.Channel.Commands.{specific_message-sent}
use application_aware_resour.Client.{Client, sync_ack_receive}
use application_aware_resour.Payload.Command.{RmPayload, command_payload}
use application_aware_resour.Generator.Notify.{
  Control, TrafficSourceControl, notify_generator_timestamp,
}
use application_aware_resour.Manager.Commands.{Receiver, Delivers, start_command}
use application_aware_resour.Endnode.{
  Endnode, Surroundings, payload_of, answer, ack_receive, polls, handle_sync_start_message,
  handle_control_message,
}
use application_aware_resour.Endnode.Polling.{Handling, poll}
use application_aware_resour.Endnode.Deadlines.{IsTarget, IsEarly, poll-first_late}

-- The surroundings in which a receiver handles what it received.
abbrev pub surroundings : Receiver → List ℕ → ℕ → ℕ → Timespec → List Timespec → Surroundings
surroundings r raw_sent stamp_received stamp_done time_now readings = record {
  raw_payload = r.raw_payload;
  raw_copy = r.raw_copy;
  blank = r.blank;
  raw_sent = raw_sent;
  stamp_received = stamp_received;
  stamp_done = stamp_done;
  time_now = time_now;
  readings = readings;
}

-- The answer is sent, to the address of the resource manager.
pub sync_ack_receive-sent :
    (raw : List ℕ) (now : ℕ) (c : Client) (b : Buffer) (bytes : List ℕ) (service_id : ℕ)
    → Holds b bytes
    → length bytes ≤ max_payload
    → (datagram : Datagram) × (sync_ack_receive raw now c (some b) service_id ≡ some datagram)
      × (datagram.target ≡ c.central_rm_address)
unfolding sync_ack_receive send_sync_receive post sendout_control_message
sync_ack_receive-sent raw now c b bytes service_id h fits =
    let id = c.rm_client_id in
    let m = sent_message now MessageType.sync_receive id id service_id 0 bytes in
    (
      sendout_control_message raw now m c.central_rm_address,
      rw (specific_message-sent now MessageType.sync_receive id id service_id 0 bytes fits b h)
          refl,
      refl,
    )

-- The handler tells the generator to transmit, with the timestamp and the mode of the command.
started : Timespec → ℕ → Control → Control
started target mode =
    notify_generator_timestamp TrafficSourceControl.thread_transmission target mode true

handle_sync_start-polls :
    (env : Surroundings) (m : Message) (target : Timespec) (g : Control)
    → (payload_of env m).timestamp_start ≡ target
    → handle_sync_start_message env m g ≡ poll target (started target m.mode) env.readings g
unfolding handle_sync_start_message started
handle_sync_start-polls env m target g e = ap (λ t. poll t (started t m.mode) env.readings g) e

-- The end node has answered the command and its generator is as it says.
pub record Handles (st : Endnode) (generator : Control) (handling : Handling Endnode) : Type 0 where
  pub ack : Datagram
  pub to_manager : ack.target ≡ st.rm_client.central_rm_address
  pub finishes :
      handling ≡ Handling.finished (record st { generator = generator; sent = st.sent ++ ack ∷ [] })

sync_start-polls :
    (env : Surroundings) (m : Message) (st : Endnode) (ack : Datagram) (g : Control)
    → sync_ack_receive env.raw_sent env.stamp_received st.rm_client
        (some st.rm_payload_sendout)
        st.service_id
      ≡ some ack
    → handle_sync_start_message env m st.generator ≡ some g
    → handle_control_message env m MessageType.sync_timestamp_start st
      ≡ Handling.finished (record st { generator = g; sent = st.sent ++ ack ∷ [] })
unfolding handle_control_message ack_receive answer
sync_start-polls env m st ack g e f = simp (ack_receive, e, answer, polls, f)

-- A start command that the resource manager has sent and that is delivered to an end node is
-- answered to the manager, and the handler polls the clock until it has passed the start: if that
-- reading is in the second of the start, the traffic generator is told to transmit with the start
-- time and the low eight bits of the mode of the command, and otherwise it is told nothing. The
-- answer fits a message, the readings and the start are normal, and the seconds of the start are
-- not 0.
pub sync_start-Handles :
    (r : Receiver) (raw_sent : List ℕ) (stamp_received stamp_done : ℕ) (time_now : Timespec)
    (early : List Timespec) (now : Timespec) (later : List Timespec) (target_time : Timespec)
    (address : Endpoint) (service_id mode : ℕ) (datagram : Datagram) (st : Endnode) (bytes : List ℕ)
    (d : Delivers r (start_command target_time address service_id mode) datagram)
    → Holds st.rm_payload_sendout bytes
    → length bytes ≤ max_payload
    → IsTarget target_time
    → All (IsEarly target_time) early
    → IsNormal now
    → total_ns target_time <ℤ total_ns now
    → Handles st
        (if eqb_ℤ now.tv_sec target_time.tv_sec
          then notify_generator_timestamp TrafficSourceControl.thread_transmission target_time
              (mode % 2 ^ 8)
              true
              st.generator
          else st.generator)
        (handle_control_message
          (surroundings r raw_sent stamp_received stamp_done time_now (early ++ now ∷ later))
          d.arrives.message
          d.arrives.message.message_type
          st)
unfolding payload_of command_payload started
sync_start-Handles r raw_sent stamp_received stamp_done time_now early now later target_time address
      service_id mode datagram st bytes d h fits t es n late =
    let a = d.arrives in
    let env : Surroundings =
      surroundings r raw_sent stamp_received stamp_done time_now (early ++ now ∷ later) in
    let (ack, sent, to_manager) =
      sync_ack_receive-sent raw_sent stamp_received st.rm_client st.rm_payload_sendout bytes
        st.service_id h fits in
    let told =
      handle_sync_start-polls env a.message target_time st.generator
        (ap (λ (p : RmPayload). p.timestamp_start) a.reads)
      ∙ poll-first_late target_time (started target_time a.message.mode) early now later
          st.generator t es n late
      ∙ ap
          (λ k. some (
            if eqb_ℤ now.tv_sec target_time.tv_sec
            then started target_time k st.generator
            else st.generator))
          a.with_mode in
    record {
      ack = ack;
      to_manager = to_manager;
      finishes =
          ap (λ type. handle_control_message env a.message type st) a.of_type
          ∙ sync_start-polls env a.message st ack _ sent told;
    }
