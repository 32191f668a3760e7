-- ===== src/Messages.antt =====
-- internal/network/messages: message.go and types.go. The texts of the message types are those of
-- the constants. A payload is one of the types that the program puts into a message; one sent by
-- value and one sent by a pointer are the same here. `json_object` is what encoding/json gives a
-- payload that was not encrypted: a map with the fields named by their tags.
use p2p_folder_sync.Prelude.{ℕ, Bool, Option, none, List, Str, bytes, ℤ, list_eq, nat_eq}
use p2p_folder_sync.VectorClock.{VectorClock}
use p2p_folder_sync.Reconcile.{ManifestEntry}

abbrev pub type_discovery : Str
type_discovery = bytes "discovery"

abbrev pub type_discovery_response : Str
type_discovery_response = bytes "discovery_response"

abbrev pub type_handshake : Str
type_handshake = bytes "handshake"

abbrev pub type_handshake_ack : Str
type_handshake_ack = bytes "handshake_ack"

abbrev pub type_handshake_complete : Str
type_handshake_complete = bytes "handshake_complete"

abbrev pub type_state_declaration : Str
type_state_declaration = bytes "state_declaration"

abbrev pub type_file_request : Str
type_file_request = bytes "file_request"

abbrev pub type_sync_operation : Str
type_sync_operation = bytes "sync_operation"

abbrev pub type_chunk : Str
type_chunk = bytes "chunk"

abbrev pub type_chunk_request : Str
type_chunk_request = bytes "chunk_request"

abbrev pub type_operation_ack : Str
type_operation_ack = bytes "operation_ack"

abbrev pub type_chunk_ack : Str
type_chunk_ack = bytes "chunk_ack"

abbrev pub type_heartbeat : Str
type_heartbeat = bytes "heartbeat"

pub record LogEntryPayload : Type 0 where
  pub operation_id : Str
  pub timestamp : ℤ
  pub type : Str
  pub peer_id : Str
  pub vector_clock : Option VectorClock
  pub file_id : Option Str
  pub path : Str
  pub from_path : Option Str
  pub checksum : Option Str
  pub size : Option ℤ
  pub mtime : Option ℤ
  pub mode : Option ℕ
  pub data_bytes : List ℕ
  pub compressed : Option Bool
  pub original_size : Option ℤ
  pub compression_algorithm : Option Str

pub record ChunkMessage : Type 0 where
  pub file_id : Str
  pub file_hash : Str
  pub chunk_id : ℤ
  pub total_chunks : ℤ
  pub offset : ℕ
  pub len : ℕ
  pub chunk_hash : Str
  pub data_bytes : List ℕ
  pub is_last : Bool

-- `OperationAckMessage` and `ChunkAckMessage`, whose ids the handler leaves empty.
pub record AckMessage : Type 0 where
  pub success : Bool
  pub error : Str

pub record RequestedFile : Type 0 where
  pub file_id : Str
  pub priority : Str

pub record EncryptedMessage : Type 0 where
  pub iv : List ℕ
  pub ciphertext : List ℕ
  pub tag : List ℕ

pub data Payload : Type 0 where
  log_entry : LogEntryPayload → Payload
  chunk_message : ChunkMessage → Payload
  operation_ack chunk_ack : AckMessage → Payload
  state_declaration : Str → List ManifestEntry → Payload
  file_request : List RequestedFile → Payload
  encrypted : EncryptedMessage → Payload
  raw_bytes : List ℕ → Payload
  json_object other_payload : Payload

pub record Message : Type 0 where
  pub id : Str
  pub type : Str
  pub timestamp : ℤ
  pub sender_id : Str
  pub payload : Payload
  pub correlation_id : Option Str

-- What `GenerateMessageID` and the clock give for one message.
pub record Stamp : Type 0 where
  pub fresh_id : Str
  pub now : ℤ

unfoldable pub new_message : Stamp → Str → Str → Payload → Message
new_message stamp msg_type sender_id payload = record {
  id = stamp.fresh_id;
  type = msg_type;
  timestamp = stamp.now;
  sender_id = sender_id;
  payload = payload;
  correlation_id = none;
}
