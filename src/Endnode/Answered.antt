-- ===== src/Endnode/Answered.antt =====
-- What an answer of the end node is, and that the parts of its handlers send theirs
-- (examples/wired_basic/wired_rm_client_endnode.cpp, the calls of sync_ack_receive and
-- sync_ack_reconfigure_done in main).
use application_aware_resour.Prelude.{
  ℕ, sym, ◌∙◌, append_assoc, append-nil, ◌≡◌, refl, List, [], ◌∷◌, ◌++◌, Option, none, some,
}
use application_aware_resour.Types.{MessageType}
use application_aware_resour.Codec.{Timespec}
use application_aware_resour.Message.{Message}
use application_aware_resour.Channel.{Datagram}
use application_aware_resour.Buffer.{Buffer}
use application_aware_resour.Client.{Client, sync_ack_receive, sync_ack_reconfigure_done}
use application_aware_resour.Generator.Notify.{Control}
use application_aware_resour.Endnode.{
  Endnode, Surroundings, answer, acts, polls, exits, payload_after_reset, handle_sync_exit_message,
  handle_exit_message,
}
use application_aware_resour.Endnode.Polling.{Handling, Check, check, poll}

-- What a client tells the resource manager of a command.
pub data Answer : Type 0 where
  received reconfigure_done : Answer

-- The answers to a command, in their order.
abbrev pub answers : MessageType → List Answer
answers MessageType.stop = Answer.received ∷ []
answers MessageType.reconfigure_sw = Answer.received ∷ Answer.reconfigure_done ∷ []
answers MessageType.exit = Answer.received ∷ []
answers MessageType.sync_timestamp_start = Answer.received ∷ []
answers MessageType.sync_timestamp_stop = Answer.received ∷ []
answers MessageType.sync_timestamp_reconfigure_hw = Answer.received ∷ Answer.reconfigure_done ∷ []
answers MessageType.sync_timestamp_reconfigure_sw = Answer.received ∷ Answer.reconfigure_done ∷ []
answers MessageType.sync_timestamp_reconfigure_sync_object_hw =
    Answer.received ∷ Answer.reconfigure_done ∷ []
answers MessageType.sync_timestamp_reconfigure_sync_object_sw =
    Answer.received ∷ Answer.reconfigure_done ∷ []
answers MessageType.sync_timestamp_exit = Answer.received ∷ []
answers _ = []

module _ (env : Surroundings) (c : Client) (b : Buffer) (service_id : ℕ) where
  abbrev pub answer_datagram : Answer → Option Datagram
  answer_datagram Answer.received =
      sync_ack_receive env.raw_sent env.stamp_received c (some b) service_id
  answer_datagram Answer.reconfigure_done =
      sync_ack_reconfigure_done env.raw_sent env.stamp_done c (some b) service_id

  -- The datagrams are these answers of the client for its service, one for one.
  unfoldable pub AreAnswers : List Answer → List Datagram → Type 0
  AreAnswers [] [] = Unit {0}
  AreAnswers [] (_ ∷ _) = ⊥
  AreAnswers (_ ∷ _) [] = ⊥
  AreAnswers (a ∷ l) (d ∷ ds) = (answer_datagram a ≡ some d) × AreAnswers l ds

-- The client sent these answers, and it, its service and its payload are the same.
pub record Answered (env : Surroundings) (st : Endnode) (l : List Answer) (st' : Endnode)
    : Type 0 where
  pub datagrams : List Datagram
  pub sends : st'.sent ≡ st.sent ++ datagrams
  pub answered : AreAnswers env st.rm_client st.rm_payload_sendout st.service_id l datagrams
  pub client : st'.rm_client ≡ st.rm_client
  pub service : st'.service_id ≡ st.service_id
  pub payload : st'.rm_payload_sendout ≡ st.rm_payload_sendout

-- If the handling comes to its end, these answers were sent.
abbrev pub Sends : Surroundings → Endnode → List Answer → Handling Endnode → Type 0
Sends env st l (Handling.finished st') = Answered env st l st'
Sends env st l Handling.polling = Unit
Sends env st l Handling.undefined = Unit

pub answer-Sends :
    (env : Surroundings) (m : Message) (a : Answer) (next : Endnode → Handling Endnode)
    (l : List Answer) (st : Endnode) (o : Option Datagram)
    → answer_datagram env st.rm_client st.rm_payload_sendout st.service_id a ≡ o
    → ((st' : Endnode) → Sends env st' l (next st'))
    → Sends env st (a ∷ l) (answer env m o next st)
unfolding answer AreAnswers
answer-Sends env m a next l st none e h = tt
answer-Sends env m a next l st (some datagram) e h = one_more (next st1) (h st1)
  where
    st1 : Endnode
    st1 = record st { sent = st.sent ++ datagram ∷ [] }

    one_more :
        (handling : Handling Endnode) → Sends env st1 l handling → Sends env st (a ∷ l) handling
    one_more (Handling.finished st') s = record {
      datagrams = datagram ∷ s.datagrams;
      sends = s.sends ∙ append_assoc st.sent (datagram ∷ []) s.datagrams;
      answered = (e, s.answered);
      client = s.client;
      service = s.service;
      payload = s.payload;
    }
    one_more Handling.polling s = tt
    one_more Handling.undefined s = tt

-- A handler that only changes the generator.
pub changed-Sends :
    (env : Surroundings) (st : Endnode) (g : Control) (l : List Answer)
    (handling : Handling Endnode)
    → Sends env (record st { generator = g }) l handling
    → Sends env st l handling
changed-Sends env st g l (Handling.finished st') s = record {
  datagrams = s.datagrams;
  sends = s.sends;
  answered = s.answered;
  client = s.client;
  service = s.service;
  payload = s.payload;
}
changed-Sends env st g l Handling.polling s = tt
changed-Sends env st g l Handling.undefined s = tt

pub unanswered : (env : Surroundings) (st : Endnode) → Answered env st [] st
unfolding AreAnswers
unanswered env st = record {
  datagrams = [];
  sends = sym (append-nil st.sent);
  answered = tt;
  client = refl;
  service = refl;
  payload = refl;
}

pub acts-Sends :
    (env : Surroundings) (m : Message) (handler : Control → Control)
    (next : Endnode → Handling Endnode) (k : List Answer) (st : Endnode)
    → ((st' : Endnode) → Sends env st' k (next st'))
    → Sends env st k (acts env m handler next st)
acts-Sends env m handler next k st h =
    changed-Sends env st (handler st.generator) k _
      (h (record st { generator = handler st.generator }))

pub polls-Sends :
    (env : Surroundings) (m : Message) (handler : Control → Option Control)
    (next : Endnode → Handling Endnode) (k : List Answer) (st : Endnode)
    → ((st' : Endnode) → Sends env st' k (next st'))
    → Sends env st k (polls env m handler next st)
polls-Sends env m handler next k st h = by_result (handler st.generator)
  where
    by_result :
        (o : Option Control)
        → Sends env st k
            (elim o [ none ↦ Handling.polling | some g ↦ next (record st { generator = g }) ])
    by_result none = tt
    by_result (some g) = changed-Sends env st g k _ (h (record st { generator = g }))

-- What a loop that polls leaves was left alone or acted on once.
abbrev IfSome : {A : Type 0} → (A → Type 0) → Option A → Type 0
IfSome P none = Unit
IfSome P (some a) = P a

poll-keeps :
    {A : Type 0} (P : A → Type 0) (target : Timespec) (action : A → A) (readings : List Timespec)
    (a : A)
    → P a
    → P (action a)
    → IfSome P (poll target action readings a)
unfolding poll check
poll-keeps P target action [] a h k = tt
poll-keeps P target action (now ∷ readings) a h k =
    by_check (check target now) (poll-keeps P target action readings a h k)
  where
    by_check :
        (c : Check)
        → IfSome P (poll target action readings a)
        → IfSome P (elim c [
          | Check.fires ↦ some (action a)
          | Check.waits ↦ poll target action readings a
          | Check.invalid ↦ some a
        ])
    by_check Check.fires rest = k
    by_check Check.waits rest = rest
    by_check Check.invalid rest = h

pub exit-Answered :
    (env : Surroundings) (m : Message) (st : Endnode)
    → Answered env st [] (handle_exit_message env m st)
unfolding handle_exit_message AreAnswers
exit-Answered env m st = record {
  datagrams = [];
  sends = sym (append-nil st.sent);
  answered = tt;
  client = refl;
  service = refl;
  payload = refl;
}

pub exits-Sends :
    (env : Surroundings) (m : Message) (st : Endnode) → Sends env st [] (exits env m st)
unfolding handle_sync_exit_message handle_exit_message
exits-Sends env m st = by_result (handle_sync_exit_message env m st) (
    poll-keeps (λ st'. Answered env st [] st') (payload_after_reset env m).timestamp_stop
      (handle_exit_message env m) env.readings st (unanswered env st) (exit-Answered env m st))
  where
    by_result :
        (o : Option Endnode)
        → IfSome (λ st'. Answered env st [] st') o
        → Sends env st [] (elim o [ none ↦ Handling.polling | some st' ↦ Handling.finished st' ])
    by_result none h = tt
    by_result (some st') h = h

pub finished-Sends : (env : Surroundings) (st : Endnode) → Sends env st [] (Handling.finished st)
finished-Sends env st = unanswered env st
