-- ===== src/Engine/Direct.antt =====
-- internal/sync/engine.go: `HandleMessage`, which takes sync operations without the network's handler.
use p2p_folder_sync.Prelude.{
  ℕ, ◌||◌, Option, none, some, [], ◌++◌, Str, bytes, ℤ, pos, list_eq, nat_eq, ◌==◌, ◌!=◌, or_else,
  if◌then◌else◌,
}
use p2p_folder_sync.Operation.{
  SyncOperation, zero_operation, op_create, op_update, op_delete, op_rename,
}
use p2p_folder_sync.Messages.{LogEntryPayload, Message, Payload, log_entry, type_sync_operation}
use p2p_folder_sync.Engine.{World, Engine}
use p2p_folder_sync.Engine.Receiving.{handle_incoming_file, handle_incoming_rename}

-- The vector clock and the data of the payload are not copied.
unfoldable pub operation_of_payload : LogEntryPayload → SyncOperation
operation_of_payload p = record zero_operation {
  id = p.operation_id;
  type = p.type;
  path = p.path;
  peer_id = p.peer_id;
  source = bytes "remote";
  timestamp = p.timestamp;
  file_id = or_else p.file_id [];
  checksum = or_else p.checksum [];
  size = or_else p.size (pos 0);
  mtime = or_else p.mtime (pos 0);
  from_path = p.from_path;
  mode = p.mode;
  compressed = p.compressed;
  original_size = p.original_size;
  compression_algorithm = p.compression_algorithm;
}

log_entry_payload : Payload → Option LogEntryPayload
log_entry_payload (log_entry p) = some p
log_entry_payload _ = none

module _ {W : Type 0} (os : World W) where
  -- The times, the fresh id and the time of a merge are those of `HandleIncomingFile`.
  direct_operation : ℕ → Str → ℤ → LogEntryPayload → Engine W → Option Str × Engine W
  unfolding operation_of_payload
  direct_operation clock fresh_id now p e =
      let op = operation_of_payload p in
      if op.type == op_create || op.type == op_update
      then handle_incoming_file os clock fresh_id now p.data_bytes op e
      else if op.type == op_delete
      then handle_incoming_file os clock fresh_id now [] op e
      else if op.type == op_rename
      then handle_incoming_rename os op e
      else (some (bytes "unsupported operation type: " ++ op.type), e)

  unfoldable pub handle_message : ℕ → Str → ℤ → Message → Engine W → Option Str × Engine W
  unfolding direct_operation log_entry_payload
  handle_message clock fresh_id now msg e =
      if msg.type != type_sync_operation then (none, e) else elim (log_entry_payload msg.payload) [
        | none ↦ (some (bytes "invalid sync operation payload"), e)
        | some p ↦ direct_operation clock fresh_id now p e
      ]
