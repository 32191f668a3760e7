-- ===== src/Engine.antt =====
-- internal/sync/engine.go. The engine's own fields are a record; what it does to the disk, to the
-- database, and to its peers through the messenger are operations on a world `W`, a parameter. The
-- lock of the database makes each of its operations one step. Log lines are left out, and so are
-- the calls that switch the watcher off and on for a path.
pub mod Receiving
pub mod Events
pub mod Replay
pub mod Direct
pub mod Machine
use p2p_folder_sync.Prelude.{
  ℕ, ◌+◌, Bool, false, not, Option, none, some, List, [], ◌∷◌, ltb, Str, bytes, ℤ, pos, list_eq,
  nat_eq, int_eq, option_eq, ◌==◌, ◌!=◌, if◌then◌else◌,
}
use p2p_folder_sync.Prelude.Dict.{Dict, lookup, insert}
use p2p_folder_sync.Prelude.Fallible.{Fallible}
use p2p_folder_sync.VectorClock.{VectorClock, increment}
use p2p_folder_sync.Queue.{Queues, enqueue}
use p2p_folder_sync.Conflict as Conflict
use p2p_folder_sync.Registry.{Deletes}
use p2p_folder_sync.Operation.{SyncOperation}
use p2p_folder_sync.Rows.{FileMetadata, LogEntry, zero_time}

-- The disk, the database, the ids of files and the other peers.
pub record World (W : Type 0) : Type 0 where
  -- `filepath.Join(FolderPath, ·)` and `filepath.Rel(FolderPath, ·)`
  pub join : Str → Str
  pub rel : Str → Fallible Str
  pub hash : List ℕ → Str
  pub read_file : Str → W → Fallible (List ℕ)
  -- `atomicWriteFile` and `os.Rename`
  pub write_file : Str → List ℕ → W → Option Str × W
  pub rename_file : Str → Str → W → Option Str × W
  -- `os.Remove`, where a missing file is no error
  pub remove_file : Str → W → Option Str × W
  pub file_size : Str → W → Fallible ℤ
  -- `GetFileID`, with the empty text for an error, `GenerateFileID` and `SetFileID`
  pub get_file_id : Str → W → Str
  pub generate_file_id : Str → Str → W → Fallible Str
  pub set_file_id : Str → Str → W → W
  pub get_file_by_id : Str → W → Fallible FileMetadata
  pub get_file_by_path : Str → W → Fallible FileMetadata
  pub insert_file : FileMetadata → W → Option Str × W
  pub delete_file : Str → W → Option Str × W
  pub append_operation : LogEntry → W → Option Str × W
  pub unacknowledged : W → Fallible (List LogEntry)
  pub broadcast : SyncOperation → W → Option Str × W

pub record Engine (W : Type 0) : Type 0 where
  pub resolution_strategy : Str
  pub peer_id : Str
  pub messenger : Bool
  pub vector_clock : VectorClock
  pub recent_writes : Dict Str ℕ
  pub operation_queue : Queues SyncOperation
  pub rename_detector : Deletes
  pub world : W

-- `recentWritesTTL`, 5 seconds, in nanoseconds.
abbrev pub recent_writes_ttl : ℕ
recent_writes_ttl = 5_000_000_000

-- The loop over the map that deletes what has expired.
unfresh : ℕ → Dict Str ℕ → Dict Str ℕ
unfresh now [] = []
unfresh now ((checksum, write_time) ∷ writes) =
    let rest = unfresh now writes in
    if ltb (write_time + recent_writes_ttl) now then rest else (checksum, write_time) ∷ rest

module _ {W : Type 0} where
  unfoldable pub add_recent_write : ℕ → Str → Engine W → Engine W
  add_recent_write now path e = record e { recent_writes = insert path now e.recent_writes }

  unfoldable pub is_recent_write : ℕ → Str → Engine W → Bool
  is_recent_write now checksum e = elim (lookup checksum e.recent_writes) [
    | none ↦ false
    | some write_time ↦ not (ltb (write_time + recent_writes_ttl) now)
  ]

  unfoldable pub cleanup_recent_writes : ℕ → Engine W → Engine W
  unfolding unfresh
  cleanup_recent_writes now e = record e { recent_writes = unfresh now e.recent_writes }

module _ {W : Type 0} (os : World W) where
  -- Its error is ignored everywhere.
  send_out : SyncOperation → Engine W → Engine W
  send_out op e = if e.messenger then record e { world = (os.broadcast op e.world).1 } else e

  -- Without a time of its own the entry has the zero time.
  unfoldable pub log_entry_of_operation : SyncOperation → LogEntry
  log_entry_of_operation op = record {
    sequence = 0;
    operation_id = op.id;
    timestamp = op.timestamp;
    operation_type = op.type;
    peer_id = op.peer_id;
    vector_clock = op.vector_clock;
    acknowledged = false;
    persisted = false;
    file_id = some op.file_id;
    path = op.path;
    from_path = op.from_path;
    checksum = some op.checksum;
    size = some op.size;
    mtime = some (if op.mtime != pos 0 then op.mtime else zero_time);
    mode = none;
    chunk_count = pos 0;
    data_bytes = op.data_bytes;
    compressed = false;
    original_size = none;
    compression_algorithm = none;
  }

  -- A local operation gets the engine's clock, after the engine has counted it.
  unfoldable pub stamped : SyncOperation → Engine W → SyncOperation × Engine W
  stamped op e =
      let vc = increment e.vector_clock e.peer_id in
      if op.source == bytes "local"
      then (record op { vector_clock = some vc }, record e { vector_clock = vc })
      else (op, e)

  -- The operation is queued, logged and broadcast; an error of the log is ignored.
  unfoldable pub queue_operation : SyncOperation → Engine W → Engine W
  unfolding stamped log_entry_of_operation send_out
  queue_operation op e =
      let (op', e') = stamped op e in
      send_out op' (record e' {
        operation_queue = enqueue e'.operation_queue op'.file_id op';
        world = (os.append_operation (log_entry_of_operation op') e'.world).1;
      })
