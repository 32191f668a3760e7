-- ===== src/Engine/Replay.antt =====
-- internal/sync/engine.go: what the engine does with its log of operations when it starts.
pub mod Waits
pub mod Survival
use p2p_folder_sync.Prelude.{
  ℕ, Bool, true, false, Option, none, some, List, [], ◌∷◌, ◌++◌, Str, bytes, ℤ, pos, list_eq,
  nat_eq, ◌==◌, or_else, if◌then◌else◌, map,
}
use p2p_folder_sync.Prelude.Fallible.{Fallible, returned, failed, ◌>>=◌}
use p2p_folder_sync.Operation.{SyncOperation}
use p2p_folder_sync.Reconcile.{ManifestEntry}
use p2p_folder_sync.Rows.{FileMetadata, LogEntry, unix}
use p2p_folder_sync.Engine.{World, Engine, send_out}

-- `getStringValue` and `getInt64Value` are `or_else` at the zero value.
unfoldable pub get_time_int64_value : Option ℤ → ℤ
get_time_int64_value none = pos 0
get_time_int64_value (some t) = unix t

-- The times of the operation are seconds here. The error is always nil.
unfoldable pub log_entry_to_sync_operation : LogEntry → SyncOperation
unfolding get_time_int64_value
log_entry_to_sync_operation entry = record {
  id = entry.operation_id;
  type = entry.operation_type;
  path = entry.path;
  from_path = entry.from_path;
  file_id = or_else entry.file_id [];
  checksum = or_else entry.checksum [];
  size = or_else entry.size (pos 0);
  timestamp = unix entry.timestamp;
  vector_clock = entry.vector_clock;
  peer_id = entry.peer_id;
  source = bytes "local";
  mtime = get_time_int64_value entry.mtime;
  mode = entry.mode;
  data_bytes = entry.data_bytes;
  chunk_id = none;
  is_last = none;
  compressed = some entry.compressed;
  original_size = entry.original_size;
  compression_algorithm = entry.compression_algorithm;
  compression_level = none;
}

module _ {W : Type 0} (os : World W) where
  -- Operations of this peer are broadcast again; those of others count as applied.
  unfoldable pub replay_operations : List LogEntry → Engine W → Engine W
  unfolding send_out
  replay_operations [] e = e
  replay_operations (entry ∷ entries) e =
      replay_operations entries (
        if entry.peer_id == e.peer_id then send_out os (log_entry_to_sync_operation entry) e else e)

  unfoldable pub replay_unacknowledged_operations : Engine W → Option Str × Engine W
  unfolding replay_operations
  replay_unacknowledged_operations e = elim (os.unacknowledged e.world) [
    | failed cause ↦ (some (bytes "failed to get unacknowledged operations: " ++ cause), e)
    | returned entries ↦ (none, replay_operations entries e)
  ]
