-- ===== src/Switch/Tests.antt =====
-- An example for the switch: a mode change of the resource manager
-- (examples/wired_basic/wired_rm_client_switch.cpp).
use application_aware_resour.Prelude.{ℕ, refl, arith, true, [], ◌∷◌, pos, ◌+ℤ◌, ◌*ℤ◌, ◌≡◌}
use application_aware_resour.Types.{MessageType, message_type_code, message_type_of}
use application_aware_resour.Buffer.{Buffer}
use application_aware_resour.Buffer.Stream.{Holds}
use application_aware_resour.Codec.{Timespec}
use application_aware_resour.Clock.{total_ns}
use application_aware_resour.Channel.{Endpoint}
use application_aware_resour.Client.{Client}
use application_aware_resour.Payload.Command.{zero_time}
use application_aware_resour.Queue.{fresh}
use application_aware_resour.Manager.{send_time_triggered_synchronous_reconfigure_type}
use application_aware_resour.Manager.Commands.{Issues, reconfigure_command}
use application_aware_resour.Manager.Issues.{
  send_time_triggered_synchronous_reconfigure_type-Issues,
}
use application_aware_resour.Manager.Example.{
  memory, platform, platform-IsPlatform, receiver, receiver-IsReceiver, manager,
}
use application_aware_resour.Endnode.Commands.{surroundings}
use application_aware_resour.Switch.{Switch, script_suffix, commands_of, handle_control_message}
use application_aware_resour.Switch.Commands.{Reconfigures, sync_reconfigure-Reconfigures}

abbrev at_ns : ℕ → ℕ → Timespec
at_ns sec ns = record { tv_sec = pos sec; tv_nsec = pos ns }

abbrev client : Client
client = record {
  rm_client_id = 3;
  central_rm_address = record { address = "10.0.0.9"; port = 4001 };
  rm_client_out_queue = fresh;
}

abbrev answer_payload : Buffer
answer_payload = record { buffer = 5 ∷ 6 ∷ 0 ∷ []; pos = 2; max_size = 3; length = 2 }

answer_payload-Holds : Holds answer_payload (5 ∷ 6 ∷ [])
answer_payload-Holds = record {
  valid = record { memory = refl; small = omega arith; filled = omega arith; head = omega arith };
  at_end = refl;
  content = refl;
}

abbrev switch : Switch
switch = record {
  active = true;
  rm_client = client;
  client_id = 3;
  experiment_number = 1;
  rm_payload_sendout = answer_payload;
  sent = [];
  scripts = [];
}

-- Mode 1 has a script, mode 2 has none.
scripts-known : commands_of 1 4 ≡ record { experiment_number = 4; suffix = "_switch_m0_m1" } ∷ []
unfolding commands_of script_suffix
scripts-known = refl

scripts-unknown : commands_of 2 4 ≡ []
unfolding commands_of script_suffix
scripts-unknown = refl

abbrev address : Endpoint
address = record { address = "10.0.0.1"; port = 4000 }

-- To stop in second 100, reconfigure in second 101 and start in second 102, for mode 1
reconfigure_command-Issues :
    Issues receiver
      (reconfigure_command MessageType.sync_timestamp_reconfigure_hw
        (at_ns 100 5)
        (at_ns 101 5)
        (at_ns 102 5)
        address
        3
        1
        0)
      manager
      (send_time_triggered_synchronous_reconfigure_type platform
        (at_ns 100 5)
        (at_ns 101 5)
        (at_ns 102 5)
        address
        3
        1
        MessageType.sync_timestamp_reconfigure_hw
        0
        manager)
unfolding message_type_code message_type_of
reconfigure_command-Issues =
    send_time_triggered_synchronous_reconfigure_type-Issues receiver receiver-IsReceiver platform
      platform-IsPlatform manager MessageType.sync_timestamp_reconfigure_hw (at_ns 100 5)
      (at_ns 101 5) (at_ns 102 5) address 3 1 0 (omega arith, refl)
      ((omega arith, omega arith), (omega arith, omega arith))
      ((omega arith, omega arith), (omega arith, omega arith))
      ((omega arith, omega arith), (omega arith, omega arith)) (omega arith)

sync_reconfigure-Reconfigures_example : Reconfigures switch (commands_of 1 1) (
    handle_control_message
      (surroundings receiver memory 1000 1001 zero_time (at_ns 101 3 ∷ at_ns 101 6 ∷ []))
      reconfigure_command-Issues.delivers.arrives.message
      reconfigure_command-Issues.delivers.arrives.message.message_type
      switch)
unfolding total_ns ◌+ℤ◌ ◌*ℤ◌
sync_reconfigure-Reconfigures_example =
    sync_reconfigure-Reconfigures receiver memory 1000 1001 zero_time (at_ns 101 3 ∷ [])
      (at_ns 101 6) [] (at_ns 100 5) (at_ns 101 5) (at_ns 102 5) address 3 1 0
      reconfigure_command-Issues.datagram switch (5 ∷ 6 ∷ []) reconfigure_command-Issues.delivers
      answer_payload-Holds (omega arith) ((omega arith, omega arith), λ e. ground (arith, e))
      (((omega arith, omega arith), omega arith), tt) (omega arith, omega arith) (omega arith)
