-- ===== src/Client/Registration.antt =====
-- A client's request for synchronisation, from the client to the list of services of the resource
-- manager (src/rscmng/rm_abstraction.cpp, include/rscmng/rm/net_layer_rm.tpp).
use application_aware_resour.Prelude.{
  ℕ, ◌≤◌, ◌≡◌, refl, ◌∙◌, List, Option, some, none, length, arith, ◌==◌, if◌then◌else◌,
}
use application_aware_resour.Types.{MessageType, message_type_code, message_type_of}
use application_aware_resour.Buffer.{Buffer}
use application_aware_resour.Buffer.Stream.{Holds}
use application_aware_resour.Message.{Message, max_payload}
use application_aware_resour.Message.RoundTrip.{received}
use application_aware_resour.Channel.{
  Datagram, receive_control_message, sendout_control_message, post, send_sync_request,
}
use application_aware_resour.Channel.Delivery.{IsMemory, sent_message, receive-sendout}
use application_aware_resour.Channel.Commands.{IsAddressed, specific_message-sent, sent-IsMessage}
use application_aware_resour.Map.{find}
use application_aware_resour.Map.Laws.{IsSorted, or_else}
use application_aware_resour.Manager.{Manager, handle_message}
use application_aware_resour.Manager.Registration.{emptied, handle_message-Handled}
use application_aware_resour.Client.{Client, sync_request}

-- The request goes to the manager's address; the manager receives a message of the client, and its
-- handler registers the service with that message.
pub record Registers (raw_in raw raw' : List ℕ) (c : Client) (service_id : ℕ) (old : Message)
    (st : Manager) (request : Option Datagram) : Type 0 where
  pub datagram : Datagram
  pub was_sent : request ≡ some datagram
  pub goes_to : datagram.target ≡ c.central_rm_address
  pub message : Message
  pub was_received : receive_control_message raw_in datagram.bytes old ≡ some message
  pub of_client : message.source_id ≡ c.rm_client_id
  pub after : Manager
  pub handled : handle_message raw raw' message st ≡ some after
  pub registered : find service_id after.service_list ≡ some (emptied message)

first_entry :
    (key : ℕ) (entry : Option Message) (m : Message)
    → entry ≡ none
    → (if key == key then some (or_else entry m) else entry) ≡ some m
first_entry key entry m missing = ground (arith, missing)

-- A request for synchronisation of a client, with a payload that fits and identifiers that fit
-- their types, goes to the address of the manager, is received there as a message of that client,
-- and its handler registers the service with that message, if the service is not registered yet.
pub sync_request-Registers :
    (raw_out raw_in raw raw' : List ℕ) (now : ℕ) (c : Client) (b : Buffer) (bytes : List ℕ)
    (service_id : ℕ) (old : Message) (st : Manager)
    → IsMemory raw_out
    → IsMemory raw_in
    → Holds b bytes
    → length bytes ≤ max_payload
    → IsAddressed now c.rm_client_id c.rm_client_id service_id
    → IsSorted st.service_list
    → find service_id st.service_list ≡ none
    → Registers raw_in raw raw' c service_id old st (sync_request raw_out now c (some b) service_id)
unfolding sync_request send_sync_request post message_type_code message_type_of
sync_request-Registers raw_out raw_in raw raw' now c b bytes service_id old st memory memory' h fits
      addressed sorted new =
    let id = c.rm_client_id in
    let m : Message = sent_message now MessageType.sync_request id id service_id 0 bytes in
    let (st', run, handled) = handle_message-Handled raw raw' (received old m) st sorted in
    record {
      datagram = sendout_control_message raw_out now m c.central_rm_address;
      was_sent =
          rw (specific_message-sent now MessageType.sync_request id id service_id 0 bytes fits b h);
      goes_to = unfold sendout_control_message in refl;
      message = received old m;
      was_received = receive-sendout raw_out raw_in now old m c.central_rm_address memory memory' (
          sent-IsMessage now MessageType.sync_request id id service_id 0 bytes fits
            (omega arith, refl) addressed);
      of_client = refl;
      after = st';
      handled = run;
      registered =
          handled.registers service_id
          ∙ first_entry service_id (find service_id st.service_list) _ new;
    }
