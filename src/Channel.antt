-- ===== src/Channel.antt =====
-- `RMCommunication`, the control channel (include/rscmng/rm_communication.hpp,
-- src/rscmng/rm_communication.cpp). The socket is the environment: what is sent is a datagram, what
-- arrives is a list of bytes. `raw` is the indeterminate memory of a fresh buffer, `now` the reading
-- of the system clock, and `none` undefined behaviour.
pub mod Delivery
pub mod Commands
mod Tests
use application_aware_resour.Prelude.{
  ℕ, ◌%◌, ◌^◌, String, List, Option, none, some, length, take, ◌>>=◌,
}
use application_aware_resour.Types.{MessageType, ProtocolId}
use application_aware_resour.Buffer.{Buffer, max_length, create, splice}
use application_aware_resour.Buffer.Stream.{contents}
use application_aware_resour.Message.{
  Message, modeless_message, specific_message, rm_to_network, network_to_rm,
}

-- `udp::endpoint`
pub record Endpoint : Type 0 where
  pub address : String
  pub port : ℕ

pub record Datagram : Type 0 where
  pub target : Endpoint
  pub bytes : List ℕ

-- `demonstrator::RM_PRIORITY`
abbrev pub rm_priority : ℕ
rm_priority = 0

-- What `receive_from` leaves in a fresh buffer: a datagram is cut off at `max_size`.
unfoldable pub landed : List ℕ → List ℕ → Buffer
unfolding create
landed raw bytes =
    let b = create raw in
    let got = take b.max_size bytes in
    record b { buffer = splice b.buffer 0 got; length = length got }

unfoldable pub receive_control_message : List ℕ → List ℕ → Message → Option Message
unfolding landed
receive_control_message raw bytes message = network_to_rm message (landed raw bytes)

module _ (raw : List ℕ) (now : ℕ) where
  unfoldable pub sendout_control_message : Message → Endpoint → Datagram
  unfolding create
  sendout_control_message message target = record {
    target = target;
    bytes = contents (rm_to_network message (create raw));
  }

  -- The body that the `send_` methods share: the message is built from the payload and sent. The
  -- constructor takes the mode as a `uint8_t`.
  unfoldable pub post : MessageType → Endpoint → ℕ → ℕ → ℕ → ℕ → Option Buffer → Option Datagram
  unfolding sendout_control_message
  post type target source_id destination_id service_id mode payload = do
    message ←
        specific_message now type rm_priority source_id destination_id service_id (mode % 2 ^ 8)
          ProtocolId.rm_basic payload
    some (sendout_control_message message target)

  -- The call passes `mode` where the constructor takes the service and `service_id` where it takes
  -- the mode.
  unfoldable pub send_rm_message :
      Endpoint → ℕ → ℕ → ℕ → ℕ → ProtocolId → MessageType → Option Buffer → Option Datagram
  unfolding sendout_control_message
  send_rm_message target priority source_id mode service_id protocol type payload = do
    message ←
        specific_message now type priority source_id source_id mode (service_id % 2 ^ 8) protocol
          payload
    some (sendout_control_message message target)

  unfoldable pub send_start : Endpoint → ℕ → ℕ → ℕ → Option Buffer → Option Datagram
  unfolding post
  send_start target source_id mode service_id =
      post MessageType.start target source_id source_id service_id mode

  unfoldable pub send_start_sync : Endpoint → ℕ → ℕ → ℕ → Option Buffer → Option Datagram
  unfolding post
  send_start_sync target source_id mode service_id =
      post MessageType.sync_timestamp_start target source_id source_id service_id mode

  unfoldable pub send_sync_request : Endpoint → ℕ → ℕ → ℕ → Option Buffer → Option Datagram
  unfolding post
  send_sync_request target source_id mode service_id =
      post MessageType.sync_request target source_id source_id service_id mode

  unfoldable pub send_sync_receive : Endpoint → ℕ → ℕ → ℕ → Option Buffer → Option Datagram
  unfolding post
  send_sync_receive target source_id mode service_id =
      post MessageType.sync_receive target source_id source_id service_id mode

  unfoldable pub send_sync_reconfigure_done : Endpoint → ℕ → ℕ → ℕ → Option Buffer → Option Datagram
  unfolding post
  send_sync_reconfigure_done target source_id mode service_id =
      post MessageType.sync_reconfigure_done target source_id source_id service_id mode

  unfoldable pub send_reconfig : Endpoint → ℕ → ℕ → ℕ → ℕ → Option Buffer → Option Datagram
  unfolding post
  send_reconfig target source_id destination_id service_id mode =
      post MessageType.reconfigure_hw target source_id destination_id service_id mode

  unfoldable pub send_sync_reconfig : Endpoint → ℕ → ℕ → ℕ → ℕ → Option Buffer → Option Datagram
  unfolding post
  send_sync_reconfig target source_id destination_id service_id mode =
      post MessageType.sync_timestamp_reconfigure target source_id destination_id service_id mode

  unfoldable pub send_sync_reconfig_type :
      Endpoint → ℕ → ℕ → ℕ → ℕ → MessageType → Option Buffer → Option Datagram
  unfolding post
  send_sync_reconfig_type target source_id destination_id service_id mode type =
      post type target source_id destination_id service_id mode

  unfoldable pub send_sync_stop : Endpoint → ℕ → ℕ → ℕ → Option Buffer → Option Datagram
  unfolding post
  send_sync_stop target source_id service_id mode =
      post MessageType.sync_timestamp_stop target source_id source_id service_id mode

  unfoldable pub send_stop : Endpoint → ℕ → ℕ → ℕ → Option Buffer → Option Datagram
  unfolding post
  send_stop target source_id service_id mode =
      post MessageType.stop target source_id source_id service_id mode

  unfoldable pub send_sync_stop_exit : Endpoint → ℕ → ℕ → ℕ → Option Buffer → Option Datagram
  unfolding post
  send_sync_stop_exit target source_id service_id mode =
      post MessageType.sync_timestamp_exit target source_id source_id service_id mode

  unfoldable pub send_stop_exit : Endpoint → ℕ → ℕ → ℕ → Option Buffer → Option Datagram
  unfolding post
  send_stop_exit target source_id service_id mode =
      post MessageType.exit target source_id source_id service_id mode

  -- The payload is the null pointer.
  unfoldable pub send_error : Endpoint → ℕ → ℕ → ℕ → Option Datagram
  unfolding post
  send_error target source_id destination_id mode =
      post MessageType.error_interface target source_id destination_id 0 mode none

  unfoldable pub send_release : Endpoint → ℕ → ℕ → Datagram
  unfolding sendout_control_message modeless_message
  send_release target source_id service_id =
      sendout_control_message
        (modeless_message now MessageType.release rm_priority source_id source_id service_id) target
