-- ===== src/Handler.antt =====
-- internal/network/handler.go. A panic is a value of its own. The Go program prints what it does;
-- that is left out. Each method is one step: the mutex `assemblerMu` guards the two maps alone, and
-- the messages of one connection are handled one after the other.
pub mod Receiving
pub mod Delivery
pub mod Answers
use p2p_folder_sync.Prelude.{
  ℕ, ◌+◌, Bool, true, false, not, ◌||◌, Option, none, some, List, [], ◌∷◌, ◌++◌, length, ltb, Str,
  bytes, ℤ, pos, ltb_ℤ, list_eq, nat_eq, int_eq, ◌==◌, if◌then◌else◌, or_else,
}
use p2p_folder_sync.Prelude.Dict.{Dict, lookup, insert, erase}
use p2p_folder_sync.Prelude.Fallible.{Fallible, returned, failed}
use p2p_folder_sync.Chunking.{Chunk, AssemblyError, assemble_chunks, verify_chunk_hash}
use p2p_folder_sync.Chunking as Chunking
use p2p_folder_sync.Connection.{Connections}
use p2p_folder_sync.Operation.{
  SyncOperation, zero_operation, op_create, op_update, op_delete, op_rename,
}
use p2p_folder_sync.Messages.{
  LogEntryPayload, ChunkMessage, AckMessage, Payload, log_entry, chunk_message, operation_ack,
  chunk_ack, raw_bytes, Message, Stamp, new_message, type_discovery, type_discovery_response,
  type_handshake, type_handshake_ack, type_handshake_complete, type_state_declaration,
  type_file_request, type_sync_operation, type_chunk, type_chunk_request, type_operation_ack,
  type_chunk_ack, type_heartbeat,
}

-- What the handler calls: the sync engine, whose state is an `S`, the digest, the decompressors
-- by name and level, `DecodePayload`, the transport, and the texts of the assembler's errors.
pub record Env (S : Type 0) : Type 0 where
  pub incoming_file : List ℕ → SyncOperation → S → Option Str × S
  pub incoming_rename : SyncOperation → S → Option Str × S
  pub hash : List ℕ → Str
  pub decompress : Str → ℤ → List ℕ → Fallible (List ℕ)
  pub decode_payload : Str → List ℕ → Fallible Payload
  pub send : Str → Message → Option Str
  pub error_text : AssemblyError → Str

-- A NetworkMessageHandler, with the state of its engine, the messages it has sent and the heartbeats
-- it has passed on. `none` is a nil pointer.
pub record Handler (S : Type 0) : Type 0 where
  pub conn_manager : Option Connections
  pub transport : Bool
  pub sync_engine : Option S
  pub heartbeat_manager : Bool
  pub assembled_chunks : Dict Str (List Chunk)
  pub chunk_metadata : Dict Str SyncOperation
  pub peer_id : Str
  pub sent : List (Str × Message)
  pub heartbeats : List Str

-- A method's end: an error, where there is one, and the new state, or a panic.
pub data Outcome (S : Type 0) : Type 0 where
  returns : Option Str → Handler S → Outcome S
  panics : Outcome S

-- `none` is the dereference of a nil pointer.
unfoldable pub to_operation : LogEntryPayload → Option SyncOperation
to_operation p = elim p.file_id [
  | none ↦ none
  | some file_id ↦ elim p.checksum [
    | none ↦ none
    | some checksum ↦ elim p.size [
      | none ↦ none
      | some size ↦ elim p.mtime [
        | none ↦ none
        | some mtime ↦ some (record zero_operation {
          id = p.operation_id;
          type = p.type;
          path = p.path;
          file_id = file_id;
          checksum = checksum;
          size = size;
          timestamp = p.timestamp;
          peer_id = p.peer_id;
          source = bytes "remote";
          mtime = mtime;
          from_path = p.from_path;
          mode = p.mode;
          compressed = p.compressed;
          original_size = p.original_size;
          compression_algorithm = p.compression_algorithm;
          vector_clock = p.vector_clock;
        })
      ]
    ]
  ]
]

unfoldable pub to_chunk : ChunkMessage → Chunk
to_chunk p = record {
  file_id = p.file_id;
  chunk_id = p.chunk_id;
  offset = p.offset;
  len = p.len;
  data_bytes = p.data_bytes;
  hash = p.chunk_hash;
  file_hash = [];
  is_last = p.is_last;
  total_chunks = p.total_chunks;
}

module _ {S : Type 0} (env : Env S) where
  ack_payload : Str → Bool → Str → Stamp → Str → Message
  unfolding new_message
  ack_payload msg_type success error stamp peer_id =
      let ack : AckMessage = record { success = success; error = error } in
      if msg_type == type_chunk
      then new_message stamp type_chunk_ack peer_id (chunk_ack ack)
      else new_message stamp type_operation_ack peer_id (operation_ack ack)

  no_connection : Str → Str
  no_connection sender_id =
      bytes "no connection for sender "
      ++ (sender_id ++ (bytes ": connection not found: " ++ sender_id))

  unfoldable pub send_acknowledgment : Stamp → Message → Bool → Str → Handler S → Outcome S
  unfolding ack_payload no_connection
  send_acknowledgment stamp msg success error h = elim h.conn_manager [
    | none ↦ returns none h
    | some connections ↦
        if not h.transport then returns none h else elim (lookup msg.sender_id connections) [
          | none ↦ returns (some (no_connection msg.sender_id)) h
          | some conn ↦
              let ack = record (ack_payload msg.type success error stamp h.peer_id) {
                correlation_id = some msg.id;
              } in
              let h' = record h { sent = (msg.sender_id, ack) ∷ h.sent } in
              elim (env.send msg.sender_id ack) [
                | none ↦ returns none h'
                | some e ↦ returns (some (bytes "failed to send acknowledgment: " ++ e)) h'
              ]
        ]
  ]

  -- The levels that the handler passes are nil.
  decompress_file_data : List ℕ → Option Str → Option ℤ → Fallible (List ℕ)
  decompress_file_data contents algorithm level = elim algorithm [
    | none ↦ returned contents
    | some a ↦
        let given = or_else level (pos 0) in
        env.decompress a (if ltb_ℤ (pos 0) given then given else pos 3) contents
  ]

  -- `if syncOp.Compressed != nil && *syncOp.Compressed { … }`
  unfoldable pub plain_data : List ℕ → SyncOperation → Fallible (List ℕ)
  unfolding decompress_file_data
  plain_data contents op =
      if or_else op.compressed false
      then decompress_file_data contents op.compression_algorithm op.compression_level
      else returned contents

  -- The acknowledgment after a call of the engine.
  pub report : Stamp → Message → Str → Option Str → Handler S → Outcome S
  unfolding send_acknowledgment
  report stamp msg complaint none h = send_acknowledgment stamp msg true [] h
  report stamp msg complaint (some e) h = send_acknowledgment stamp msg false (complaint ++ e) h

  -- `HandleIncomingFile` on a nil engine dereferences it.
  hand_over : Stamp → Message → Str → List ℕ → SyncOperation → Handler S → Outcome S
  unfolding report
  hand_over stamp msg complaint contents op h = elim h.sync_engine [
    | none ↦ panics
    | some s ↦
        let (error, s') = env.incoming_file contents op s in
        report stamp msg complaint error (record h { sync_engine = some s' })
  ]

  -- Metadata is kept for the chunks to come, and the chunks of an older version are dropped.
  pub expect_chunks : SyncOperation → Handler S → Handler S
  expect_chunks op h = record h {
    assembled_chunks = erase op.file_id h.assembled_chunks;
    chunk_metadata = insert op.file_id op h.chunk_metadata;
  }

  handle_write : Stamp → Message → List ℕ → SyncOperation → Handler S → Outcome S
  unfolding expect_chunks plain_data hand_over send_acknowledgment
  handle_write stamp msg contents op h =
      if length contents == 0
      then send_acknowledgment stamp msg true [] (expect_chunks op h)
      else elim (plain_data contents op) [
        | failed e ↦ send_acknowledgment stamp msg false (bytes "decompression failed: " ++ e) h
        | returned plain ↦ elim h.sync_engine [
          | none ↦ send_acknowledgment stamp msg false (bytes "sync engine not available") h
          | some s ↦ hand_over stamp msg (bytes "file handling failed: ") plain op h
        ]
      ]

  -- A rename with no `FromPath` is an error of the engine; a nil engine is dereferenced behind that
  -- test, or in it.
  handle_rename : Stamp → Message → SyncOperation → Handler S → Outcome S
  unfolding report send_acknowledgment
  handle_rename stamp msg op h = elim h.sync_engine [
    | none ↦ elim op.from_path [
      | none ↦
          send_acknowledgment stamp msg false
            (bytes "rename handling failed: rename operation missing FromPath") h
      | some _ ↦ panics
    ]
    | some s ↦
        let (error, s') = env.incoming_rename op s in
        report stamp msg (bytes "rename handling failed: ") error
          (record h { sync_engine = some s' })
  ]

  unfoldable pub handle_sync_operation : Stamp → Message → LogEntryPayload → Handler S → Outcome S
  unfolding to_operation handle_write handle_rename hand_over send_acknowledgment
  handle_sync_operation stamp msg p h = elim (to_operation p) [
    | none ↦ panics
    | some op ↦
        if op.type == op_create || op.type == op_update
        then handle_write stamp msg p.data_bytes op h
        else if op.type == op_delete
        then hand_over stamp msg (bytes "delete handling failed: ") [] op h
        else if op.type == op_rename
        then handle_rename stamp msg op h
        else send_acknowledgment stamp msg true [] h
  ]

  -- The operation for an assembled file.
  assembled_operation : Message → ChunkMessage → List ℕ → Handler S → SyncOperation
  assembled_operation msg p contents h = elim (lookup p.file_id h.chunk_metadata) [
    | some stored ↦ record stored { size = pos (length contents) }
    | none ↦ record zero_operation {
      type = op_create;
      file_id = p.file_id;
      checksum = p.file_hash;
      size = pos (length contents);
      peer_id = msg.sender_id;
      source = bytes "remote";
    }
  ]

  forget_chunks : Str → Handler S → Handler S
  forget_chunks file_id h = record h {
    assembled_chunks = erase file_id h.assembled_chunks;
    chunk_metadata = erase file_id h.chunk_metadata;
  }

  handle_assembled : Stamp → Message → ChunkMessage → List ℕ → Handler S → Outcome S
  unfolding assembled_operation forget_chunks plain_data hand_over send_acknowledgment
  handle_assembled stamp msg p contents h =
      let op = assembled_operation msg p contents h in
      let h' = forget_chunks p.file_id h in
      elim (plain_data contents op) [
        | failed e ↦ send_acknowledgment stamp msg false (bytes "decompression failed: " ++ e) h'
        | returned plain ↦
            hand_over stamp msg (bytes "assembled file handling failed: ") plain op h'
      ]

  stored_chunks : ChunkMessage → Handler S → List Chunk
  unfolding to_chunk
  stored_chunks p h = or_else (lookup p.file_id h.assembled_chunks) [] ++ to_chunk p ∷ []

  unfoldable pub handle_chunk : Stamp → Message → ChunkMessage → Handler S → Outcome S
  unfolding to_chunk stored_chunks handle_assembled send_acknowledgment
  handle_chunk stamp msg p h = elim (verify_chunk_hash env.hash (to_chunk p)) [
    | Chunking.err e ↦
        send_acknowledgment stamp msg false
          (bytes "chunk hash verification failed: " ++ env.error_text e) h
    | Chunking.ok _ ↦
        let chunks = stored_chunks p h in
        let h' = record h { assembled_chunks = insert p.file_id chunks h.assembled_chunks } in
        if pos (length chunks) == p.total_chunks
        then elim (assemble_chunks env.hash chunks p.file_hash) [
          | Chunking.err e ↦
              send_acknowledgment stamp msg false
                (bytes "file assembly failed: " ++ env.error_text e) h'
          | Chunking.ok contents ↦ handle_assembled stamp msg p contents h'
        ]
        else send_acknowledgment stamp msg true [] h'
  ]

  -- `DecodePayload` returns a pointer, and the assertion after it asks for a value.
  unfoldable pub handle_state_declaration : Stamp → Message → Handler S → Outcome S
  unfolding send_acknowledgment
  handle_state_declaration stamp msg h = elim h.sync_engine [
    | none ↦ send_acknowledgment stamp msg false (bytes "sync engine not available") h
    | some s ↦ elim msg.payload [
      | raw_bytes encoded ↦ elim (env.decode_payload msg.type encoded) [
        | failed e ↦
            send_acknowledgment stamp msg false (bytes "failed to decode state message: " ++ e) h
        | returned decoded ↦ panics
      ]
      | _ ↦ panics
    ]
  ]

  unfoldable pub handle_heartbeat : Message → Handler S → Outcome S
  handle_heartbeat msg h =
      if h.heartbeat_manager
      then returns none (record h { heartbeats = msg.sender_id ∷ h.heartbeats })
      else returns none h

  -- The type assertions of the two handlers that read a payload.
  with_log_entry : Stamp → Message → Payload → Handler S → Outcome S
  unfolding handle_sync_operation
  with_log_entry stamp msg (log_entry p) h = handle_sync_operation stamp msg p h
  with_log_entry stamp msg _ h = returns (some (bytes "invalid sync operation payload")) h

  with_chunk : Stamp → Message → Payload → Handler S → Outcome S
  unfolding handle_chunk
  with_chunk stamp msg (chunk_message p) h = handle_chunk stamp msg p h
  with_chunk stamp msg _ h = returns (some (bytes "invalid chunk payload")) h

  unfoldable pub handle_message : Stamp → Message → Handler S → Outcome S
  unfolding handle_state_declaration with_log_entry with_chunk handle_heartbeat send_acknowledgment
  handle_message stamp msg h =
      if msg.type == type_discovery || msg.type == type_discovery_response
      then returns none h
      else if msg.type == type_handshake
      then returns (some (bytes "handshake handling not implemented yet")) h
      else if msg.type == type_handshake_ack
      then returns (some (bytes "handshake ack handling not implemented yet")) h
      else if msg.type == type_handshake_complete
      then returns (some (bytes "handshake complete handling not implemented yet")) h
      else if msg.type == type_state_declaration
      then handle_state_declaration stamp msg h
      else if msg.type == type_file_request
      then send_acknowledgment stamp msg true [] h
      else if msg.type == type_sync_operation
      then with_log_entry stamp msg msg.payload h
      else if msg.type == type_chunk
      then with_chunk stamp msg msg.payload h
      else if msg.type == type_chunk_request
      then send_acknowledgment stamp msg true [] h
      else if msg.type == type_operation_ack || msg.type == type_chunk_ack
      then returns none h
      else if msg.type == type_heartbeat
      then handle_heartbeat msg h
      else returns (some (bytes "unknown message type: " ++ msg.type)) h
