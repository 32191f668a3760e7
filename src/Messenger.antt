-- ===== src/Messenger.antt =====
-- internal/network/messenger.go. The channel of a pending acknowledgment holds one result at most,
-- and is a list. What a transport, a timer and the state of the connections do during the attempts
-- of a call is its argument `attempts`.
pub mod Retries
pub mod Acks
pub mod Sending
use p2p_folder_sync.Prelude.{
  ℕ, zero, suc, ◌+◌, Bool, not, Option, none, some, List, [], ◌∷◌, ◌++◌, length, Str, bytes,
  list_eq, nat_eq, int_eq, ◌==◌, if◌then◌else◌, or_else,
}
use p2p_folder_sync.Prelude.Dict.{Dict, lookup, insert, erase}
use p2p_folder_sync.Prelude.Fallible.{Fallible, returned, failed}
use p2p_folder_sync.Connection.{Connection, Connections}
use p2p_folder_sync.Messages.{
  EncryptedMessage, Payload, operation_ack, chunk_ack, encrypted, Message,
}

-- What is in a channel of type `chan error`: the results sent and not yet read.
abbrev pub PendingAcks : Type 0
PendingAcks = Dict Str (List (Option Str))

unfoldable pub track_acknowledgment : Str → PendingAcks → PendingAcks
track_acknowledgment message_id pending = insert message_id [] pending

unfoldable pub untrack_acknowledgment : Str → PendingAcks → PendingAcks
untrack_acknowledgment message_id pending = erase message_id pending

-- One round of the loop of `sendMessage`: whether the peer has a connection, the error of the
-- transport, and what the channel gives before the timer (`none`: the timer is first).
pub record Attempt : Type 0 where
  pub connected : Bool
  pub send_error : Option Str
  pub ack : Option (Option Str)

-- Why an attempt failed.
pub data Failure : Type 0 where
  ack_timeout : Failure
  send_failed ack_error : Str → Failure

pub data SendError : Type 0 where
  not_connected no_connection_info : SendError
  encrypt_failed : Str → SendError
  gave_up : Option Failure → SendError

-- The result of `sendMessage`, the pending acknowledgments after it, and how often the transport was
-- called.
pub record Sent : Type 0 where
  pub error : Option SendError
  pub pending : PendingAcks
  pub transmissions : ℕ

module _ (attempts : ℕ → Attempt) (message_id : Str) where
  -- The loop from attempt `i`, with `rounds` rounds left.
  retry_loop : ℕ → ℕ → Option Failure → ℕ → PendingAcks → Sent
  unfolding track_acknowledgment untrack_acknowledgment
  retry_loop zero i last_error transmissions pending = record {
    error = some (gave_up last_error);
    pending = untrack_acknowledgment message_id pending;
    transmissions = transmissions;
  }
  retry_loop (suc rounds) i last_error transmissions pending =
      let tracked = track_acknowledgment message_id pending in
      let next = λ (e : Failure). retry_loop rounds (suc i) (some e) (suc transmissions) tracked in
      if not (attempts i).connected
      then record {
        error = some no_connection_info;
        pending = tracked;
        transmissions = transmissions;
      }
      else elim (attempts i).send_error [
        | some e ↦ next (send_failed e)
        | none ↦ elim (attempts i).ack [
          | none ↦ next ack_timeout
          | some result ↦ elim result [
            | some e ↦ next (ack_error e)
            | none ↦ record {
              error = none;
              pending = untrack_acknowledgment message_id tracked;
              transmissions = suc transmissions;
            }
          ]
        ]
      ]

-- `Encrypt` of the crypto package, behind `EncodePayload`.
pub encrypt_message_payload :
    (List ℕ → Payload → Fallible EncryptedMessage) → Message → List ℕ → Fallible EncryptedMessage
encrypt_message_payload encrypt msg session_key =
    if length session_key == 0
    then failed (bytes "no session key available")
    else encrypt session_key msg.payload

abbrev pub retry_count : ℕ
retry_count = 3

-- `sendMessage`; the connections are those at the start of the call.
unfoldable pub send_message :
    (List ℕ → Payload → Fallible EncryptedMessage)
    → (Message → ℕ → Attempt)
    → Connections
    → Str
    → Message
    → PendingAcks
    → Sent
unfolding retry_loop encrypt_message_payload
send_message encrypt network connections peer_id msg pending = elim (lookup peer_id connections) [
  | none ↦ record { error = some not_connected; pending = pending; transmissions = 0 }
  | some conn ↦ elim (encrypt_message_payload encrypt msg conn.session_key) [
    | failed e ↦ record { error = some (encrypt_failed e); pending = pending; transmissions = 0 }
    | returned sealed ↦
        retry_loop (network (record msg { payload = encrypted sealed })) msg.id retry_count 0 none 0
          pending
  ]
]

-- The error that an acknowledgment carries. A payload of another type carries none.
ack_result : Payload → Option Str
ack_result (operation_ack a) =
    if a.success then none else some (bytes "operation failed: " ++ a.error)
ack_result (chunk_ack a) =
    if a.success then none else some (bytes "chunk operation failed: " ++ a.error)
ack_result _ = none

-- A send to a channel that is full is dropped.
offer : Option Str → List (Option Str) → List (Option Str)
offer result [] = result ∷ []
offer result (r ∷ rest) = r ∷ rest

unfoldable pub handle_acknowledgment : Message → PendingAcks → Option Str × PendingAcks
unfolding ack_result offer
handle_acknowledgment msg pending =
    let original = or_else msg.correlation_id [] in
    if original == []
    then (some (bytes "acknowledgment message missing correlation ID"), pending)
    else elim (lookup original pending) [
      | none ↦ (none, pending)
      | some channel ↦ (none, insert original (offer (ack_result msg.payload) channel) pending)
    ]
