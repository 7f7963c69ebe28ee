-- ===== src/Manager/Registration.antt =====
-- What the handler of the resource manager does to the registered clients
-- (include/rscmng/rm/net_layer_rm.tpp, handle_message and handle_sync_messages).
use application_aware_resour.Prelude.{
  ℕ, ◌≡◌, refl, ap, ◌∙◌, ◌⊎◌, inl, inr, arith, List, Option, some, Bool, true, false, ◌&&◌, ◌==◌,
  if◌then◌else◌,
}
use application_aware_resour.Types.{MessageType}
use application_aware_resour.Buffer.{create, read}
use application_aware_resour.Message.{Message, network_to_rm, read_payload, fill}
use application_aware_resour.Map.{find, insert}
use application_aware_resour.Map.Laws.{IsSorted, or_else, find-insert_sorted, insert-IsSorted}
use application_aware_resour.Manager.{Manager, handle_message, handle_sync_messages}

abbrev pub is_request : MessageType → Bool
is_request MessageType.sync_request = true
is_request _ = false

-- A message that is filled from an empty buffer keeps its header and its array.
abbrev pub emptied : Message → Message
emptied m = record m { payload_size = 0 }

network_to_rm-empty : (raw : List ℕ) (m : Message) → network_to_rm m (create raw) ≡ some (emptied m)
unfolding network_to_rm create read read_payload fill application_aware_resour.Codec.◌>>=◌
    application_aware_resour.Codec.return application_aware_resour.Codec.read_as
network_to_rm-empty raw m = refl

-- What the handler makes of a message: it ends, a request registers its service with the emptied
-- message unless the service is registered already, and nothing else of the state changes.
pub record Handled (m : Message) (before after : Manager) : Type 0 where
  pub registers :
      (j : ℕ)
      → find j after.service_list ≡ (
          if is_request m.message_type && m.service_id == j
          then some (or_else (find m.service_id before.service_list) (emptied m))
          else find j before.service_list)
  pub sorted : IsSorted after.service_list
  pub keeps : after ≡ record before { service_list = after.service_list }

unfoldable pub registered : Message → Manager → Manager
registered m st = record st { service_list = insert m.service_id (emptied m) st.service_list }

handle_sync_messages-registered :
    (raw : List ℕ) (m : Message) (st : Manager)
    → handle_sync_messages raw (emptied m) st ≡ some (registered m st)
unfolding handle_sync_messages registered
handle_sync_messages-registered raw m st = rw (network_to_rm-empty raw (emptied m)) refl

registered-Handled :
    (m : Message) (st : Manager)
    → is_request m.message_type ≡ true
    → IsSorted st.service_list
    → Handled m st (registered m st)
unfolding registered
registered-Handled m st request sorted = record {
  registers =
      λ j. rw request (find-insert_sorted j m.service_id (emptied m) st.service_list sorted);
  sorted = insert-IsSorted m.service_id (emptied m) st.service_list sorted;
  keeps = refl;
}

unregistered-Handled :
    (m : Message) (st : Manager)
    → is_request m.message_type ≡ false
    → IsSorted st.service_list
    → Handled m st st
unregistered-Handled m st other sorted = record {
  registers = λ j. rw other refl;
  sorted = sorted;
  keeps = refl;
}

pub handle_message-request :
    (raw raw' : List ℕ) (m : Message) (st : Manager)
    → m.message_type ≡ MessageType.sync_request
    → handle_message raw raw' m st ≡ some (registered m st)
unfolding handle_message
handle_message-request raw raw' m st e =
    rw (network_to_rm-empty raw m) (by_type m.message_type e)
    ∙ handle_sync_messages-registered raw' m st
  where
    by_type :
        (t : MessageType)
        → t ≡ MessageType.sync_request
        → (elim t as (λ x. Option Manager) [
          | MessageType.sync_request ↦ handle_sync_messages raw' (emptied m) st
          | _ ↦ some st
        ])
          ≡ handle_sync_messages raw' (emptied m) st
    by_type t request = ground (arith)

pub request-or-other : (t : MessageType) → (t ≡ MessageType.sync_request) ⊎ (is_request t ≡ false)
request-or-other MessageType.sync_request = inl refl
request-or-other _ = inr refl

pub handle_message-other :
    (raw raw' : List ℕ) (m : Message) (st : Manager)
    → is_request m.message_type ≡ false
    → handle_message raw raw' m st ≡ some st
unfolding handle_message
handle_message-other raw raw' m st e = rw (network_to_rm-empty raw m) (by_type m.message_type e)
  where
    by_type :
        (t : MessageType)
        → is_request t ≡ false
        → (elim t as (λ x. Option Manager) [
          | MessageType.sync_request ↦ handle_sync_messages raw' (emptied m) st
          | _ ↦ some st
        ])
          ≡ some st
    by_type t other = ground (arith)

-- The handler of a message returns; a request for synchronisation registers its service with the
-- message, its payload emptied, unless the service is registered already; nothing else of the state
-- changes, no other message changes anything, and the keys of the services keep rising.
pub handle_message-Handled :
    (raw raw' : List ℕ) (m : Message) (st : Manager)
    → IsSorted st.service_list
    → (st' : Manager) × (handle_message raw raw' m st ≡ some st') × Handled m st st'
handle_message-Handled raw raw' m st sorted = elim (request-or-other m.message_type) [
  | inl e ↦ (
    registered m st,
    handle_message-request raw raw' m st e,
    registered-Handled m st (ap is_request e) sorted,
  )
  | inr e ↦ (st, handle_message-other raw raw' m st e, unregistered-Handled m st e sorted)
]
