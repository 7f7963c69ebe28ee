-- ===== src/Endnode/Answers.antt =====
-- The answers of the end node.
use application_aware_resour.Prelude.{◌≡◌, refl, subst, List, [], ◌∷◌, ◌++◌}
use application_aware_resour.Types.{MessageType}
use application_aware_resour.Message.{Message}
use application_aware_resour.Channel.{Datagram}
use application_aware_resour.Endnode.{
  Endnode, Surroundings, ack_receive, ack_reconfigure_done, handle_control_message,
  handle_start_message, handle_stop_message, handle_reconfigure_message, handle_sync_start_message,
  handle_sync_stop_message, handle_sync_reconfigure_hw_message, handle_sync_reconfigure_sw_message,
  handle_sync_reconfigure_sync_object_hw_message, handle_sync_reconfigure_sync_object_sw_message,
}
use application_aware_resour.Endnode.Polling.{Handling}
use application_aware_resour.Endnode.Answered.{
  Answer, answers, AreAnswers, Answered, Sends, answer-Sends, acts-Sends, polls-Sends,
  exit-Answered, exits-Sends, finished-Sends,
}

module _ (env : Surroundings) (m : Message) where
  received_and :
      (next : Endnode → Handling Endnode) (l : List Answer)
      → ((st : Endnode) → Sends env st l (next st))
      → (st : Endnode) → Sends env st (Answer.received ∷ l) (ack_receive env m next st)
  unfolding ack_receive
  received_and next l h st = answer-Sends env m Answer.received next l st _ refl h

  and_done :
      (st : Endnode) → Sends env st (Answer.reconfigure_done ∷ []) (ack_reconfigure_done env m st)
  unfolding ack_reconfigure_done
  and_done st =
      answer-Sends env m Answer.reconfigure_done Handling.finished [] st _ refl (finished-Sends env)

  command-Sends :
      (type : MessageType) (st : Endnode)
      → Sends env st (answers type) (handle_control_message env m type st)
  unfolding handle_control_message
  command-Sends MessageType.start st =
      acts-Sends env m (handle_start_message env m) Handling.finished [] st (finished-Sends env)
  command-Sends MessageType.stop st =
      received_and _ []
        (λ s.
          acts-Sends env m (handle_stop_message env m) Handling.finished [] s (finished-Sends env))
        st
  command-Sends MessageType.reconfigure_sw st =
      received_and _ (Answer.reconfigure_done ∷ [])
        (λ s.
          acts-Sends env m (handle_reconfigure_message env m) _ (Answer.reconfigure_done ∷ []) s
            and_done)
        st
  command-Sends MessageType.exit st = received_and _ [] (λ s. exit-Answered env m s) st
  command-Sends MessageType.sync_timestamp_start st =
      received_and _ []
        (λ s.
          polls-Sends env m (handle_sync_start_message env m) Handling.finished [] s
            (finished-Sends env))
        st
  command-Sends MessageType.sync_timestamp_stop st =
      received_and _ []
        (λ s.
          polls-Sends env m (handle_sync_stop_message env m) Handling.finished [] s
            (finished-Sends env))
        st
  command-Sends MessageType.sync_timestamp_reconfigure_hw st =
      received_and _ (Answer.reconfigure_done ∷ [])
        (λ s.
          polls-Sends env m (handle_sync_reconfigure_hw_message env m) _
            (Answer.reconfigure_done ∷ []) s and_done)
        st
  command-Sends MessageType.sync_timestamp_reconfigure_sw st =
      received_and _ (Answer.reconfigure_done ∷ [])
        (λ s.
          polls-Sends env m (handle_sync_reconfigure_sw_message env m) _
            (Answer.reconfigure_done ∷ []) s and_done)
        st
  command-Sends MessageType.sync_timestamp_reconfigure_sync_object_hw st =
      received_and _ (Answer.reconfigure_done ∷ [])
        (λ s.
          acts-Sends env m (handle_sync_reconfigure_sync_object_hw_message env m) _
            (Answer.reconfigure_done ∷ []) s and_done)
        st
  command-Sends MessageType.sync_timestamp_reconfigure_sync_object_sw st =
      received_and _ (Answer.reconfigure_done ∷ [])
        (λ s.
          polls-Sends env m (handle_sync_reconfigure_sync_object_sw_message env m) _
            (Answer.reconfigure_done ∷ []) s and_done)
        st
  command-Sends MessageType.sync_timestamp_exit st = received_and _ [] (exits-Sends env m) st
  command-Sends MessageType.noop st = finished-Sends env st
  command-Sends MessageType.error_interface st = finished-Sends env st
  command-Sends MessageType.pause st = finished-Sends env st
  command-Sends MessageType.reconfigure_hw st = finished-Sends env st
  command-Sends MessageType.sync_timestamp_pause st = finished-Sends env st
  command-Sends MessageType.sync_timestamp_reconfigure st = finished-Sends env st
  command-Sends MessageType.sync_request st = finished-Sends env st
  command-Sends MessageType.sync_receive st = finished-Sends env st
  command-Sends MessageType.sync_reconfigure_done st = finished-Sends env st
  command-Sends MessageType.release st = finished-Sends env st
  command-Sends (MessageType.other n) st = finished-Sends env st

-- The handling of a message of any type, if it comes to its end, has sent the answers that are due
-- to that type, one for one and in their order, each as the client sends it for its service with
-- its payload: that the message was received to an exit and a stop, with a timestamp or without,
-- and to a start with a timestamp; that it was received and that the reconfiguration is done to the
-- mode change in software without timestamps, to the two for asynchronous and the two for
-- synchronous objects with timestamps; and nothing to all others, a start without a timestamp and
-- the pauses among them. The client, its service and its payload are the same.
pub handle_control_message-answers :
    (env : Surroundings) (m : Message) (type : MessageType) (st st' : Endnode)
    → handle_control_message env m type st ≡ Handling.finished st'
    → (datagrams : List Datagram) × (st'.sent ≡ st.sent ++ datagrams)
      × AreAnswers env st.rm_client st.rm_payload_sendout st.service_id (answers type) datagrams
      × (st'.rm_client ≡ st.rm_client)
      × (st'.service_id ≡ st.service_id)
      × (st'.rm_payload_sendout ≡ st.rm_payload_sendout)
handle_control_message-answers env m type st st' e =
    let s : Answered env st (answers type) st' =
      subst (Sends env st (answers type)) e (command-Sends env m type st) in
    (s.datagrams, s.sends, s.answered, s.client, s.service, s.payload)
