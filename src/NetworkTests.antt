-- ===== src/NetworkTests.antt =====
-- Inputs at which the theorems on the message handler and the messenger apply.
use mathlib.Core.List.{Permᴰ}
use p2p_folder_sync.Prelude.{
  ℕ, ◌≡◌, refl, ◌≢◌, ◌⊎◌, ◌↔◌, inl, true, false, Option, none, some, List, [], ◌∷◌, Str, bytes, pos,
  list_eq, nat_eq, int_eq, arith, ◌==◌, if◌then◌else◌,
}
use p2p_folder_sync.Prelude.Dict.{lookup, insert, erase}
use p2p_folder_sync.Prelude.Fallible.{Fallible, returned}
use p2p_folder_sync.Chunking.{Chunk, chunk_file}
use p2p_folder_sync.Connection.{Connection, Connections, connected}
use p2p_folder_sync.Operation.{SyncOperation, zero_operation, op_create}
use p2p_folder_sync.Messages.{
  AckMessage, EncryptedMessage, Payload, operation_ack, chunk_ack, raw_bytes, log_entry,
  json_object, Message, Stamp, type_sync_operation,
}
use p2p_folder_sync.Messenger.{
  PendingAcks, Attempt, send_message, handle_acknowledgment, not_connected,
}
use p2p_folder_sync.Messenger.Sending.{log_entry_of}
use p2p_folder_sync.Messenger.Retries.{Unsent, Over, send_message-Ended}
use p2p_folder_sync.Messenger.Acks.{handle_acknowledgment_delivers}
use p2p_folder_sync.Handler.{Env, Handler, handle_message, plain_data}
use p2p_folder_sync.Handler.Receiving.{receive_all, received}
use p2p_folder_sync.Handler.Delivery.{transfer, chunked_file_delivered}
use p2p_folder_sync.Handler.Answers.{Acknowledges, handle_message_answers}

-- An engine that keeps what it is given, and libraries that do nothing.
abbrev keeping : Env (List (List ℕ))
keeping = record {
  incoming_file = λ contents op files. (none, contents ∷ files);
  incoming_rename = λ op files. (none, files);
  hash = λ b. b;
  decompress = λ algorithm level b. returned b;
  decode_payload = λ kind b. returned (raw_bytes b);
  send = λ peer msg. none;
  error_text = λ e. bytes "error";
}

abbrev alice : Str
alice = bytes "alice"

abbrev to_alice : Connection
to_alice = record {
  peer_id = alice;
  address = bytes "10.0.0.2";
  port = 8080;
  state = connected;
  connected_at = 1;
  last_seen = 1;
  last_heartbeat = 1;
  session_key = 7 ∷ [];
  retry_count = 0;
  last_retry_at = 0;
}

abbrev peers : Connections
peers = (alice, to_alice) ∷ []

abbrev idle : Handler (List (List ℕ))
idle = record {
  conn_manager = some peers;
  transport = true;
  sync_engine = some [];
  heartbeat_manager = false;
  assembled_chunks = [];
  chunk_metadata = [];
  peer_id = bytes "bob";
  sent = [];
  heartbeats = [];
}

abbrev creation : SyncOperation
creation = record zero_operation {
  id = bytes "op";
  type = op_create;
  path = bytes "a.txt";
  file_id = bytes "f";
  checksum = 7 ∷ 8 ∷ 9 ∷ [];
  size = pos 3;
  peer_id = alice;
  compressed = some false;
}

abbrev noon : Stamp
noon = record { fresh_id = bytes "msg-12"; now = pos 12 }

abbrev head_chunk : Chunk
head_chunk = record {
  file_id = bytes "f";
  chunk_id = pos 0;
  offset = 0;
  len = 2;
  data_bytes = 7 ∷ 8 ∷ [];
  hash = 7 ∷ 8 ∷ [];
  file_hash = [];
  is_last = false;
  total_chunks = pos 2;
}

abbrev tail_chunk : Chunk
tail_chunk = record head_chunk {
  chunk_id = pos 1;
  offset = 2;
  len = 1;
  data_bytes = 9 ∷ [];
  hash = 9 ∷ [];
  is_last = true;
}

abbrev sent_backwards : List (Stamp × Message)
sent_backwards =
    transfer keeping alice (λ c. noon) (λ c. noon) noon noon (7 ∷ 8 ∷ 9 ∷ []) creation
      (tail_chunk ∷ head_chunk ∷ [])

chunked_file_delivered_example :
    (h' : Handler (List (List ℕ))) × (receive_all keeping sent_backwards idle ≡ some h')
    × (h'.sync_engine ≡ some ((7 ∷ 8 ∷ 9 ∷ []) ∷ []))
    × (lookup (bytes "f") h'.assembled_chunks ≡ none)
    × (lookup (bytes "f") h'.chunk_metadata ≡ none)
unfolding chunk_file nat_eq plain_data
chunked_file_delivered_example =
    chunked_file_delivered keeping 2 creation (7 ∷ 8 ∷ 9 ∷ []) (7 ∷ 8 ∷ 9 ∷ [])
      (head_chunk ∷ tail_chunk ∷ []) (tail_chunk ∷ head_chunk ∷ []) alice (λ c. noon) (λ c. noon)
      noon noon idle [] (omega arith) (omega arith) (inl refl) refl ∣ Permᴰ.swap refl refl ∣₁ refl
      refl

abbrev asked : Message
asked = record {
  id = bytes "msg-1";
  type = type_sync_operation;
  timestamp = pos 1;
  sender_id = alice;
  payload = log_entry (log_entry_of [] creation);
  correlation_id = none;
}

abbrev answered : Handler (List (List ℕ))
answered = record idle {
  chunk_metadata = (bytes "f", received creation) ∷ [];
  sent =
      (
        alice,
        record {
          id = bytes "msg-12";
          type = bytes "operation_ack";
          timestamp = pos 12;
          sender_id = bytes "bob";
          payload = operation_ack (record { success = true; error = [] });
          correlation_id = some (bytes "msg-1");
        },
      )
      ∷ [];
}

sender_known : lookup asked.sender_id peers ≡ some to_alice
unfolding lookup list_eq nat_eq
sender_known = refl

handle_message_answers_example :
    (ack : Message) × (answered.sent ≡ (alice, ack) ∷ [])
    × Acknowledges keeping asked peers to_alice sender_known idle ack
unfolding handle_message lookup insert erase list_eq nat_eq log_entry_of
handle_message_answers_example =
    handle_message_answers keeping asked peers to_alice sender_known idle noon answered (inl refl)
      refl refl refl

-- The first attempt times out, the second is acknowledged.
abbrev late : Message → ℕ → Attempt
late msg i = record {
  connected = true;
  send_error = none;
  ack = if i == 0 then none else some none;
}

abbrev no_cipher : List ℕ → Payload → Fallible EncryptedMessage
no_cipher key payload = returned (record { iv = []; ciphertext = []; tag = [] })

send_message-Ended_example :
    let s = send_message no_cipher late peers alice asked [] in
    ((lookup alice peers ≡ none) × Unsent no_cipher late [] not_connected s)
    ⊎ ((conn : Connection) × (lookup alice peers ≡ some conn)
        × Over no_cipher late conn.session_key asked [] s)
send_message-Ended_example = send_message-Ended no_cipher late peers alice asked []

abbrev rejection : Message
rejection = record asked {
  type = bytes "operation_ack";
  payload = json_object;
  correlation_id = some (bytes "msg-1");
}

abbrev one_waiting : PendingAcks
one_waiting = (bytes "msg-1", []) ∷ []

handle_acknowledgment_delivers_example :
    let after = (handle_acknowledgment rejection one_waiting).1 in
    ((handle_acknowledgment rejection one_waiting).0 ≡ none)
    × (result : Option Str) × (lookup (bytes "msg-1") after ≡ some (result ∷ []))
    × ((a : AckMessage)
        → (json_object ≡ operation_ack a) ⊎ (json_object ≡ chunk_ack a)
        → (result ≡ none) ↔ (a.success ≡ true))
    × (json_object ≡ json_object → result ≡ none)
    × ((j : Str) → j ≢ bytes "msg-1" → lookup j after ≡ lookup j one_waiting)
unfolding lookup list_eq nat_eq
handle_acknowledgment_delivers_example =
    handle_acknowledgment_delivers rejection one_waiting (bytes "msg-1") refl (λ e. cc) refl
