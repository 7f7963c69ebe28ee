-- ===== src/Endnode/Tests.antt =====
-- Examples for the end node: a start command of the resource manager
-- (examples/wired_basic/wired_rm_client_endnode.cpp).
use application_aware_resour.Prelude.{
  length, List, ◌++◌, ℕ, ◌+◌, ◌*◌, ◌≡◌, refl, arith, true, false, [], ◌∷◌, some, pos, ◌+ℤ◌, ◌*ℤ◌,
}
use application_aware_resour.Types.{MessageType}
use application_aware_resour.Buffer.{Buffer}
use application_aware_resour.Buffer.Stream.{Holds}
use application_aware_resour.Codec.{Timespec}
use application_aware_resour.Clock.{total_ns}
use application_aware_resour.Message.{Message, empty_message}
use application_aware_resour.Channel.{Endpoint, Datagram}
use application_aware_resour.Payload.Command.{zero_time}
use application_aware_resour.Client.{Client, sync_ack_receive}
use application_aware_resour.Queue.{fresh}
use application_aware_resour.Generator.Notify.{
  Control, TrafficSourceControl, notify_generator_timestamp,
}
use application_aware_resour.Manager.Commands.{Issues, start_command}
use application_aware_resour.Manager.{send_synchronous_start}
use application_aware_resour.Manager.Issues.{send_synchronous_start-Issues}
use application_aware_resour.Manager.Example.{
  memory, platform, platform-IsPlatform, receiver, receiver-IsReceiver, manager,
}
use application_aware_resour.Endnode.{
  Endnode, Surroundings, handle_control_message, handle_exit_message, ack_receive, answer,
}
use application_aware_resour.Endnode.Polling.{Handling, poll, poll_both}
use application_aware_resour.Endnode.Deadlines.{poll-ends}
use application_aware_resour.Endnode.Windows.{poll_both-window}
use application_aware_resour.Endnode.Commands.{
  Handles, surroundings, sync_ack_receive-sent, sync_start-Handles,
}
use application_aware_resour.Endnode.Answered.{Answer, AreAnswers}
use application_aware_resour.Endnode.Answers.{handle_control_message-answers}

abbrev at_ns : ℕ → ℕ → Timespec
at_ns sec ns = record { tv_sec = pos sec; tv_nsec = pos ns }

poll-ends_example :
    poll (at_ns 100 5) (λ n. n + 1) (at_ns 100 3 ∷ at_ns 100 5 ∷ at_ns 100 6 ∷ at_ns 101 0 ∷ []) 0
    ≡ some 1
unfolding total_ns ◌+ℤ◌ ◌*ℤ◌
poll-ends_example =
    poll-ends (at_ns 100 5) (λ n. n + 1) (at_ns 100 3 ∷ at_ns 100 5 ∷ []) (at_ns 100 6)
      (at_ns 101 0 ∷ []) 0 (omega arith, omega arith)
      (((omega arith, omega arith), omega arith), (((omega arith, omega arith), omega arith), tt))
      (omega arith, omega arith) (omega arith)

poll_both-window_example :
    poll_both
      (at_ns 100 5)
      (λ n. n + 1)
      (at_ns 101 5)
      (λ n. n * 10)
      (at_ns 100 3 ∷ at_ns 100 6 ∷ (at_ns 101 2 ∷ at_ns 101 9 ∷ []))
      false
      0
    ≡ some 10
unfolding total_ns ◌+ℤ◌ ◌*ℤ◌
poll_both-window_example =
    poll_both-window (at_ns 100 5) (λ n. n + 1) (at_ns 101 5) (λ n. n * 10) (at_ns 100 3 ∷ [])
      (at_ns 100 6) (at_ns 101 2 ∷ []) (at_ns 101 9) [] 0
      ((omega arith, omega arith), λ e. ground (arith, e))
      ((omega arith, omega arith), λ e. ground (arith, e)) (omega arith)
      (((omega arith, omega arith), omega arith), tt) ((omega arith, omega arith), omega arith) refl
      (omega arith) (((omega arith, omega arith), omega arith), tt) (omega arith, omega arith)
      (omega arith)

abbrev client : Client
client = record {
  rm_client_id = 1;
  central_rm_address = record { address = "10.0.0.9"; port = 4001 };
  rm_client_out_queue = fresh;
}

abbrev answer_payload : Buffer
answer_payload = record { buffer = 5 ∷ 6 ∷ 0 ∷ []; pos = 2; max_size = 3; length = 2 }

answer_payload-Holds : Holds answer_payload (5 ∷ 6 ∷ [])
answer_payload-Holds = record {
  valid = record { memory = refl; small = omega arith; filled = omega arith; head = omega arith };
  at_end = refl;
  content = refl;
}

abbrev idle : Control
idle = record {
  traffic_generator_control = TrafficSourceControl.thread_start;
  mode_global = 0;
  stop_thread = false;
  global_period_timestamp = zero_time;
  global_update_period = false;
}

abbrev endnode : Endnode
endnode = record {
  active = true;
  generator = idle;
  rm_client = client;
  service_id = 7;
  rm_payload_sendout = answer_payload;
  sent = [];
}

abbrev address : Endpoint
address = record { address = "10.0.0.1"; port = 4000 }

-- The start command of the manager, for second 100 and mode 2
start_command-Issues :
    Issues receiver
      (start_command (at_ns 100 5) address 7 2)
      manager
      (send_synchronous_start platform (at_ns 100 5) address 7 2 manager)
start_command-Issues =
    send_synchronous_start-Issues receiver receiver-IsReceiver platform platform-IsPlatform manager
      (at_ns 100 5) address 7 2 ((omega arith, omega arith), (omega arith, omega arith))
      (omega arith)

sync_start-Handles_example :
    Handles endnode
      (notify_generator_timestamp TrafficSourceControl.thread_transmission
        (at_ns 100 5)
        2
        true
        idle)
      (handle_control_message
        (surroundings receiver memory 1000 1001 zero_time (at_ns 100 3 ∷ at_ns 100 6 ∷ []))
        start_command-Issues.delivers.arrives.message
        start_command-Issues.delivers.arrives.message.message_type
        endnode)
unfolding total_ns ◌+ℤ◌ ◌*ℤ◌
sync_start-Handles_example =
    sync_start-Handles receiver memory 1000 1001 zero_time (at_ns 100 3 ∷ []) (at_ns 100 6) []
      (at_ns 100 5) address 7 2 start_command-Issues.datagram endnode (5 ∷ 6 ∷ [])
      start_command-Issues.delivers answer_payload-Holds (omega arith)
      ((omega arith, omega arith), λ e. ground (arith, e))
      (((omega arith, omega arith), omega arith), tt) (omega arith, omega arith) (omega arith)

abbrev exit_message : Message
exit_message = record empty_message { message_type = MessageType.exit }

abbrev env : Surroundings
env = surroundings receiver memory 1000 1001 zero_time []

answer-sent :
    (datagram : Datagram) × (sync_ack_receive memory 1000 client (some answer_payload) 7
      ≡ some datagram)
    × (datagram.target ≡ client.central_rm_address)
answer-sent =
    sync_ack_receive-sent memory 1000 client answer_payload (5 ∷ 6 ∷ []) 7 answer_payload-Holds
      (omega arith)

abbrev stopped : Endnode
stopped = handle_exit_message env exit_message (record endnode { sent = answer-sent.0 ∷ [] })

exits-stopped :
    handle_control_message env exit_message MessageType.exit endnode ≡ Handling.finished stopped
unfolding handle_control_message ack_receive answer
exits-stopped = simp (ack_receive, answer-sent.1, answer)

handle_control_message-answers_example :
    (datagrams : List Datagram) × (stopped.sent ≡ endnode.sent ++ datagrams)
    × AreAnswers env client answer_payload 7 (Answer.received ∷ []) datagrams
    × (stopped.rm_client ≡ client)
    × (stopped.service_id ≡ 7)
    × (stopped.rm_payload_sendout ≡ answer_payload)
handle_control_message-answers_example =
    handle_control_message-answers env exit_message MessageType.exit endnode stopped exits-stopped
