-- ===== src/Manager/Issues.antt =====
-- The methods of the resource manager that send a command with timestamps
-- (include/rscmng/rm/net_layer_rm.tpp, the send_ methods) deliver it.
use application_aware_resour.Prelude.{ℕ, ◌^◌, ◌<◌, refl, some, length, arith}
use application_aware_resour.Types.{MessageType, IsMessageType}
use application_aware_resour.Codec.{Timespec, IsTimespec}
use application_aware_resour.Buffer.{create, construct}
use application_aware_resour.Payload.Command.{command_payload}
use application_aware_resour.Channel.{
  Endpoint, post, send_start_sync, send_sync_reconfig_type, send_sync_stop_exit,
}
use application_aware_resour.Channel.Delivery.{create-Holds}
use application_aware_resour.Channel.Commands.{command-Arrives, from_datagram}
use application_aware_resour.Manager.{
  Manager, Platform, rm_id, next_send, emit, command_buffer, send_synchronous_start,
  send_time_triggered_synchronous_reconfigure_type, send_synchronous_stop,
}
use application_aware_resour.Manager.Commands.{
  Receiver, IsReceiver, IsPlatform, Command, IsCommand, Issues, command_payload-IsPayload,
  start_command, start_command-IsCommand, reconfigure_command, reconfigure_command-IsCommand,
  stop_command, stop_command-IsCommand,
}

module _ (r : Receiver) (receiver : IsReceiver r) (platform : Platform)
    (behaves : IsPlatform platform) (st : Manager) where
  -- Sending a command from the resource manager delivers it.
  post-Issues :
      (c : Command)
      → IsCommand c
      → Issues r c st (
          emit
            (post
              (next_send platform st).raw
              (next_send platform st).stamp
              c.type
              c.target
              rm_id
              c.destination_id
              c.service_id
              c.mode
              (some (command_buffer (next_send platform st) c.action c.stop c.reconfig c.start)))
            st)
  unfolding emit
  post-Issues c v =
      let e = next_send platform st in
      let ok = behaves (length st.sent) in
      let arrives =
        command-Arrives e.raw r.raw_in r.raw_payload r.raw_copy e.stamp c.type c.target rm_id
          c.destination_id c.service_id c.mode (create e.raw_payload) r.old r.blank
          (command_payload e.garbage c.action c.stop c.reconfig c.start) ok.memory
          receiver.memory_in receiver.memory_payload receiver.memory_copy
          (create-Holds e.raw_payload ok.memory_payload) (unfold create construct in omega arith)
          (command_payload-IsPayload e.garbage c ok.request v) v.type
          (record {
            stamp = ok.stamp;
            source = omega arith;
            destination = v.destination;
            service = v.service;
          }) in
      record {
        datagram = arrives.datagram;
        returns = rw arrives.was_sent refl;
        delivers = record {
          raw = e.raw;
          garbage = e.garbage;
          arrives = from_datagram _ _ _ _ _ _ _ _ _ _ _ _ _ arrives;
        };
      }

  -- The start at a time is told to the service, in its mode.
  pub send_synchronous_start-Issues :
      (target_time : Timespec) (target : Endpoint) (service_id mode : ℕ)
      → IsTimespec target_time
      → service_id < 2 ^ 64
      → Issues r
          (start_command target_time target service_id mode)
          st
          (send_synchronous_start platform target_time target service_id mode st)
  unfolding send_synchronous_start send_start_sync
  send_synchronous_start-Issues target_time target service_id mode time service =
      post-Issues (start_command target_time target service_id mode)
        (start_command-IsCommand target_time target service_id mode time service)

  -- A mode change of any type is told to the client, for the service and at the times given.
  pub send_time_triggered_synchronous_reconfigure_type-Issues :
      (type : MessageType) (stop reconfig start : Timespec) (target : Endpoint)
      (service_id mode iterator : ℕ)
      → IsMessageType type
      → IsTimespec stop
      → IsTimespec reconfig
      → IsTimespec start
      → iterator < 2 ^ 8
      → Issues r (reconfigure_command type stop reconfig start target service_id mode iterator) st (
          send_time_triggered_synchronous_reconfigure_type platform stop reconfig start target
            service_id mode type iterator st)
  unfolding send_time_triggered_synchronous_reconfigure_type send_sync_reconfig_type
  send_time_triggered_synchronous_reconfigure_type-Issues type stop reconfig start target service_id
        mode iterator t a b c low =
      post-Issues (reconfigure_command type stop reconfig start target service_id mode iterator) (
        reconfigure_command-IsCommand type stop reconfig start target service_id mode iterator t a b
          c low)

  pub send_synchronous_stop-Issues :
      (stop reconfig start : Timespec) (target : Endpoint) (service_id mode : ℕ)
      → IsTimespec stop
      → IsTimespec reconfig
      → IsTimespec start
      → service_id < 2 ^ 64
      → Issues r
          (stop_command stop reconfig start target service_id mode)
          st
          (send_synchronous_stop platform stop reconfig start target service_id mode st)
  unfolding send_synchronous_stop send_sync_stop_exit
  send_synchronous_stop-Issues stop reconfig start target service_id mode a b c service =
      post-Issues (stop_command stop reconfig start target service_id mode)
        (stop_command-IsCommand stop reconfig start target service_id mode a b c service)
