-- ===== src/Messenger/Acks.antt =====
-- `handleAcknowledgment` of internal/network/messenger.go.
use p2p_folder_sync.Prelude.{
  ◌≡◌, refl, sym, ◌≢◌, ◌↔◌, ◌⊎◌, inl, inr, true, Option, none, some, [], ◌∷◌, Str, list_eq, nat_eq,
  arith, subst,
}
use p2p_folder_sync.Prelude.Dict.{lookup, lookup-insert}
use p2p_folder_sync.Messages.{AckMessage, Payload, operation_ack, chunk_ack, json_object, Message}
use p2p_folder_sync.Messenger.{PendingAcks, ack_result, offer, handle_acknowledgment}

-- What a typed acknowledgment says, the waiting sender is told.
ack_result_typed :
    (a : AckMessage) (payload : Payload)
    → (payload ≡ operation_ack a) ⊎ (payload ≡ chunk_ack a)
    → (ack_result payload ≡ none) ↔ (a.success ≡ true)
unfolding ack_result
ack_result_typed a payload (inl e) =
    subst (λ p. (ack_result p ≡ none) ↔ (a.success ≡ true)) (sym e) (ground arith)
ack_result_typed a payload (inr e) =
    subst (λ p. (ack_result p ≡ none) ↔ (a.success ≡ true)) (sym e) (ground arith)

ack_result_json : (payload : Payload) → payload ≡ json_object → ack_result payload ≡ none
unfolding ack_result
ack_result_json payload e = subst (λ p. ack_result p ≡ none) (sym e) refl

-- An acknowledgment that names a message which is waited for, and which has no result yet, gives that
-- message, and no other, one result. A payload that was decoded as an acknowledgment gives
-- success exactly if it says so. One that is still a JSON object gives success whatever it says.
pub handle_acknowledgment_delivers :
    (ack : Message) (pending : PendingAcks) (id : Str)
    → ack.correlation_id ≡ some id
    → id ≢ []
    → lookup id pending ≡ some []
    → let after = (handle_acknowledgment ack pending).1 in
      ((handle_acknowledgment ack pending).0 ≡ none)
      × (result : Option Str) × (lookup id after ≡ some (result ∷ []))
      × ((a : AckMessage)
          → (ack.payload ≡ operation_ack a) ⊎ (ack.payload ≡ chunk_ack a)
          → (result ≡ none) ↔ (a.success ≡ true))
      × (ack.payload ≡ json_object → result ≡ none)
      × ((j : Str) → j ≢ id → lookup j after ≡ lookup j pending)
unfolding handle_acknowledgment offer
handle_acknowledgment_delivers ack pending id names nonempty waiting = (
  ground (arith, names, nonempty, waiting),
  ack_result ack.payload,
  ground
      (arith, names, nonempty, waiting, lookup-insert id id (ack_result ack.payload ∷ []) pending),
  λ a kind. ack_result_typed a ack.payload kind,
  λ e. ack_result_json ack.payload e,
  λ j other. ground (
    arith,
    names,
    nonempty,
    waiting,
    other,
    lookup-insert j id (ack_result ack.payload ∷ []) pending,
  ),
)
