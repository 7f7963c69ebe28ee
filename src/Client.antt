-- ===== src/Client.antt =====
-- `RMAbstraction`, a client's side of the control channel (src/rscmng/rm_abstraction.cpp). The thread
-- that receives and the program that takes the messages share the queue only. Logging and the
-- notification of the program are left out.
pub mod Registration
mod Tests
use application_aware_resour.Prelude.{ℕ, Bool, List, Option, some, ◌>>=◌}
use application_aware_resour.Buffer.{Buffer}
use application_aware_resour.Message.{Message}
use application_aware_resour.Queue.{System, enqueue, dequeue}
use application_aware_resour.Channel
use application_aware_resour.Channel.{
  Endpoint, Datagram, receive_control_message, send_sync_request, send_sync_receive,
  send_sync_reconfigure_done, send_release,
}

pub record Client : Type 0 where
  pub rm_client_id : ℕ
  pub central_rm_address : Endpoint
  pub rm_client_out_queue : System Message

module _ (raw : List ℕ) (now : ℕ) where
  unfoldable pub sync_request : Client → Option Buffer → ℕ → Option Datagram
  sync_request c rm_payload service_id =
      send_sync_request raw now c.central_rm_address c.rm_client_id 0 service_id rm_payload

  unfoldable pub sync_ack_receive : Client → Option Buffer → ℕ → Option Datagram
  sync_ack_receive c rm_payload service_id =
      send_sync_receive raw now c.central_rm_address c.rm_client_id 0 service_id rm_payload

  unfoldable pub sync_ack_reconfigure_done : Client → Option Buffer → ℕ → Option Datagram
  sync_ack_reconfigure_done c rm_payload service_id =
      send_sync_reconfigure_done raw now c.central_rm_address c.rm_client_id 0 service_id rm_payload

  unfoldable pub resource_release : Client → ℕ → Datagram
  resource_release c service_id =
      send_release raw now c.central_rm_address c.rm_client_id service_id

  unfoldable pub send_error : Client → ℕ → ℕ → Option Datagram
  send_error c interface_id interface_speed =
      Channel.send_error raw now c.central_rm_address c.rm_client_id interface_id interface_speed

-- One turn of the receiving thread, for the bytes of a datagram; `rm_message` is the object of the
-- turn before.
unfoldable pub rm_handler : List ℕ → List ℕ → Message → Client → Option (Message × Client)
rm_handler raw bytes rm_message c = do
  m ← receive_control_message raw bytes rm_message
  some (m, record c { rm_client_out_queue = enqueue m c.rm_client_out_queue })

unfoldable pub get_next_control_message : Client → Client
get_next_control_message c = record c { rm_client_out_queue = dequeue c.rm_client_out_queue }

-- Both branches compare the variable that is returned (`==`) instead of assigning it, so that the
-- result is the `garbage` of the uninitialised variable.
unfoldable pub check_next_control_message_aviable : Bool → Client → Bool
check_next_control_message_aviable garbage c = garbage
