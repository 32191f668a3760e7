-- ===== src/Messenger/Sending.antt =====
-- internal/network/messenger.go: what is sent for an operation, a file and a broadcast. A wait of the
-- flow control ends, with an error or without. The chunk numbers in the texts of errors are left out.
use p2p_folder_sync.Prelude.{
  ℕ, Bool, true, false, ◌&&◌, ◌||◌, Option, none, some, List, [], ◌∷◌, ◌++◌, length, ltb, Str,
  bytes, ℤ, pos, list_eq, nat_eq, int_eq, ◌==◌, if◌then◌else◌,
}
use p2p_folder_sync.Prelude.Dict.{lookup}
use p2p_folder_sync.Prelude.Fallible.{Fallible, returned, failed}
use p2p_folder_sync.Chunking.{Chunk, chunk_file}
use p2p_folder_sync.Connection.{Connections}
use p2p_folder_sync.Operation.{SyncOperation, op_create, op_update}
use p2p_folder_sync.Messages.{
  LogEntryPayload, ChunkMessage, log_entry, chunk_message, Message, Stamp, new_message,
  type_sync_operation, type_chunk,
}

-- The payload of `sendSyncOperation`. The mode and the previous path are not set.
unfoldable pub log_entry_of : List ℕ → SyncOperation → LogEntryPayload
log_entry_of contents metadata = record {
  operation_id = metadata.id;
  timestamp = metadata.timestamp;
  type = metadata.type;
  peer_id = metadata.peer_id;
  vector_clock = metadata.vector_clock;
  file_id = some metadata.file_id;
  path = metadata.path;
  from_path = none;
  checksum = some metadata.checksum;
  size = some metadata.size;
  mtime = some metadata.mtime;
  mode = none;
  data_bytes = contents;
  compressed = metadata.compressed;
  original_size = metadata.original_size;
  compression_algorithm = metadata.compression_algorithm;
}

unfoldable pub chunk_message_of : Str → Chunk → ChunkMessage
chunk_message_of file_hash c = record {
  file_id = c.file_id;
  file_hash = file_hash;
  chunk_id = c.chunk_id;
  total_chunks = c.total_chunks;
  offset = c.offset;
  len = c.len;
  chunk_hash = c.hash;
  data_bytes = c.data_bytes;
  is_last = c.is_last;
}

-- What `SendFile` calls: `sendMessage`, on a state `S` that holds what it changes, the wait of the
-- flow control, the digest, the compressor, and the stamps of new messages.
pub record Sender (S : Type 0) : Type 0 where
  pub send : Str → Message → S → Option Str × S
  pub wait : Str → ℕ → S → Option Str × S
  pub hash : List ℕ → Str
  pub compress : List ℕ → Fallible (List ℕ)
  pub stamp : S → Stamp

-- The fields of the configuration that `SendFile` reads.
pub record SendConfig : Type 0 where
  pub chunk_size : ℕ
  pub compression_enabled : Bool
  pub file_size_threshold : ℕ
  pub algorithm : Str
  pub level : ℤ

module _ {S : Type 0} (sender : Sender S) (peer_id : Str) where
  -- `none` is success.
  unfoldable pub send_sync_operation : List ℕ → SyncOperation → S → Option Str × S
  unfolding log_entry_of new_message
  send_sync_operation contents metadata s =
      let msg =
        new_message (sender.stamp s) type_sync_operation metadata.peer_id
          (log_entry (log_entry_of contents metadata)) in
      let (error, s') = sender.wait metadata.file_id (length contents) s in
      let limited : Option Str × S = elim error [
        | some e ↦ (some (bytes "flow control failed: " ++ e), s')
        | none ↦ sender.send peer_id msg s'
      ] in
      if ltb 0 (length contents) then limited else sender.send peer_id msg s

  unfoldable pub send_chunk : Str → SyncOperation → Chunk → S → Option Str × S
  unfolding chunk_message_of new_message
  send_chunk file_hash metadata c s =
      let (error, s') = sender.wait metadata.file_id c.len s in
      elim error [
        | some e ↦ (some (bytes "flow control failed for chunk: " ++ e), s')
        | none ↦
            sender.send peer_id
              (new_message (sender.stamp s') type_chunk metadata.peer_id
                (chunk_message (chunk_message_of file_hash c)))
              s'
      ]

  send_chunks : Str → SyncOperation → List Chunk → S → Option Str × S
  unfolding send_chunk
  send_chunks file_hash metadata [] s = (none, s)
  send_chunks file_hash metadata (c ∷ cs) s =
      let (error, s') = send_chunk file_hash metadata c s in
      elim error [ some e ↦ (some e, s') | none ↦ send_chunks file_hash metadata cs s' ]

  -- The division by a chunk size of 0 panics, and is the error here.
  unfoldable pub send_chunked_file : ℕ → List ℕ → SyncOperation → S → Option Str × S
  unfolding send_sync_operation send_chunks
  send_chunked_file chunk_size contents metadata s =
      elim (chunk_file sender.hash chunk_size metadata.file_id contents) [
        | none ↦ (some (bytes "integer divide by zero"), s)
        | some chunks ↦
            let (error, s') = send_sync_operation [] metadata s in
            elim error [
              | some e ↦ (some (bytes "failed to send sync operation: " ++ e), s')
              | none ↦ send_chunks (sender.hash contents) metadata chunks s'
            ]
      ]

  -- The metadata after the compression, and the bytes to send.
  prepare : SendConfig → List ℕ → SyncOperation → Fallible (List ℕ × SyncOperation)
  prepare config contents metadata =
      if config.compression_enabled && ltb config.file_size_threshold (length contents)
      then elim (sender.compress contents) [
        | failed e ↦ failed (bytes "compression failed: " ++ e)
        | returned packed ↦ returned (
          packed,
          record metadata {
            compressed = some true;
            original_size = some (pos (length contents));
            compression_algorithm = some config.algorithm;
            compression_level = some config.level;
          },
        )
      ]
      else returned (contents, record metadata { compressed = some false })

  -- `SendFile` between taking a transfer slot and giving it back.
  unfoldable pub send_with_slot :
      SendConfig → Connections → List ℕ → SyncOperation → S → Option Str × S
  unfolding prepare send_chunked_file send_sync_operation
  send_with_slot config connections contents metadata s = elim (lookup peer_id connections) [
    | none ↦ (some (bytes "peer not connected: " ++ peer_id), s)
    | some conn ↦
        if length conn.session_key == 0
        then (some (bytes "no session key for peer: " ++ peer_id), s)
        else elim (prepare config contents metadata) [
          | failed e ↦ (some e, s)
          | returned (packed, metadata') ↦
              if ltb config.chunk_size (length contents)
              then send_chunked_file config.chunk_size packed metadata' s
              else send_sync_operation packed metadata' s
        ]
  ]

-- The goroutine of `BroadcastOperation` for one peer: a file that cannot be read is an error.
pub record Broadcaster (S : Type 0) : Type 0 where
  pub file_path : Str → Str
  pub read_file : Str → S → Fallible (List ℕ)
  pub send_file : Str → List ℕ → SyncOperation → S → Option Str × S
  pub send_operation : Str → SyncOperation → S → Option Str × S

module _ {S : Type 0} (b : Broadcaster S) (op : SyncOperation) where
  to_peer : Str → Option Str × S → Option Str × S
  to_peer pid (none, s) = (none, s)
  to_peer pid (some e, s) =
      (some (bytes "failed to send to peer " ++ (pid ++ (bytes ": " ++ e))), s)

  broadcast_to : Str → S → Option Str × S
  unfolding to_peer
  broadcast_to pid s =
      if op.type == op_create || op.type == op_update
      then elim (b.read_file (b.file_path op.path) s) [
        | failed e ↦
            (some (bytes "failed to read file " ++ (b.file_path op.path ++ (bytes ": " ++ e))), s)
        | returned contents ↦ to_peer pid (b.send_file pid contents op s)
      ]
      else to_peer pid (b.send_operation pid op s)

  -- The goroutines, in the order in which they end. The last error is kept.
  unfoldable pub broadcast_operation : List Str → Option Str → S → Option Str × S
  unfolding broadcast_to
  broadcast_operation [] last_error s = (last_error, s)
  broadcast_operation (pid ∷ pids) last_error s =
      let (error, s') = broadcast_to pid s in
      let kept : Option Str = elim error [ none ↦ last_error | some e ↦ some e ] in
      if pid == op.peer_id
      then broadcast_operation pids last_error s
      else broadcast_operation pids kept s'
