-- ===== src/Engine/Receiving.antt =====
-- internal/sync/engine.go: an operation that another peer sends, and the conflict it may meet.
-- The calls that switch the watcher off and on for a path are left out.
pub mod Incoming
pub mod Clocks
use p2p_folder_sync.Prelude.{
  ℕ, ◌+◌, false, ◌&&◌, ◌||◌, Option, none, some, List, [], ◌++◌, Str, bytes, ℤ, list_eq, nat_eq,
  int_eq, option_eq, ◌==◌, ◌!=◌, if◌then◌else◌, or_else,
}
use p2p_folder_sync.Prelude.Dict.{insert}
use p2p_folder_sync.Prelude.Fallible.{returned, failed}
use p2p_folder_sync.VectorClock.{VectorClock, merge}
use p2p_folder_sync.Conflict.{resolve_conflict}
use p2p_folder_sync.Conflict as Conflict
use p2p_folder_sync.Operation.{SyncOperation, zero_operation, op_create, op_update, op_delete}
use p2p_folder_sync.Rows.{FileMetadata, zero_time}
use p2p_folder_sync.Engine.{World, Engine, add_recent_write, send_out}

module _ {W : Type 0} (os : World W) where
  -- The merge of the remote clock at the head of `processIncomingFileAsync`.
  merge_clock : SyncOperation → Engine W → Engine W
  merge_clock op e = elim op.vector_clock [
    | none ↦ e
    | some vc ↦ record e { vector_clock = merge e.vector_clock vc }
  ]

  local_operation : FileMetadata → List ℕ → Conflict.SyncOperation
  local_operation file contents = record {
    id = [];
    type = [];
    path = file.path;
    from_path = none;
    file_id = file.file_id;
    checksum = file.checksum;
    size = file.size;
    timestamp = file.mtime;
    peer_id = file.peer_id;
    data_bytes = contents;
  }

  remote_operation : SyncOperation → List ℕ → Conflict.SyncOperation
  remote_operation op contents = record {
    id = [];
    type = [];
    path = op.path;
    from_path = none;
    file_id = op.file_id;
    checksum = op.checksum;
    size = op.size;
    timestamp = op.mtime;
    peer_id = op.peer_id;
    data_bytes = contents;
  }

  -- The row for a remote operation.
  unfoldable pub row_of : SyncOperation → FileMetadata
  row_of op = record {
    file_id = op.file_id;
    path = op.path;
    checksum = op.checksum;
    size = op.size;
    mtime = op.mtime;
    mode = op.mode;
    peer_id = op.peer_id;
    vector_clock = op.vector_clock;
    compressed = or_else op.compressed false;
    original_size = op.original_size;
    compression_algorithm = op.compression_algorithm;
    created_at = zero_time;
    updated_at = zero_time;
  }

  -- The write of the file and of its row; a failure ends it.
  apply_write : List ℕ → SyncOperation → Engine W → Engine W
  unfolding row_of
  apply_write contents op e =
      let path = os.join op.path in
      let (error, w) = os.write_file path contents e.world in
      elim error [
        | some _ ↦ record e { world = w }
        | none ↦ record e {
          world = (os.insert_file (row_of op) (os.set_file_id path op.file_id w)).1;
        }
      ]

  local_version : Str → FileMetadata → SyncOperation → VectorClock → Str → List ℕ → SyncOperation
  local_version fresh_id file op local_vc peer_id contents = record zero_operation {
    id = fresh_id;
    type = op_update;
    path = op.path;
    file_id = file.file_id;
    checksum = file.checksum;
    size = file.size;
    mtime = file.mtime;
    peer_id = peer_id;
    source = bytes "local";
    data_bytes = contents;
    vector_clock = some local_vc;
  }

  -- The broadcast of the local version, which is read once more.
  broadcast_local : Str → FileMetadata → SyncOperation → VectorClock → Engine W → Engine W
  unfolding send_out local_version
  broadcast_local fresh_id file op local_vc e = elim (os.read_file (os.join op.path) e.world) [
    | failed _ ↦ e
    | returned contents ↦ send_out os (local_version fresh_id file op local_vc e.peer_id contents) e
  ]

  merged_operation : Conflict.SyncOperation → SyncOperation → SyncOperation
  merged_operation winner op = record op {
    data_bytes = winner.data_bytes;
    checksum = winner.checksum;
    size = winner.size;
  }

  merged_version : Str → ℤ → Conflict.SyncOperation → SyncOperation → Str → SyncOperation
  merged_version fresh_id now winner op peer_id = record zero_operation {
    id = fresh_id;
    type = op_update;
    path = op.path;
    file_id = op.file_id;
    checksum = winner.checksum;
    size = winner.size;
    mtime = now;
    peer_id = peer_id;
    source = bytes "local";
    data_bytes = winner.data_bytes;
    vector_clock = op.vector_clock;
  }

  -- A merge result is written, and then broadcast, whether the write failed or not.
  apply_merge : Str → ℤ → Conflict.SyncOperation → SyncOperation → Engine W → Engine W
  unfolding apply_write send_out merged_operation merged_version
  apply_merge fresh_id now winner op e =
      send_out os (merged_version fresh_id now winner op e.peer_id)
        (apply_write winner.data_bytes (merged_operation winner op) e)

  -- The winner of a conflict is told by its file id and its checksum.
  settle :
      Str → ℤ → List ℕ → FileMetadata → SyncOperation → Conflict.SyncOperation → Engine W → Engine W
  unfolding broadcast_local apply_write apply_merge
  settle fresh_id now contents file op winner e =
      if winner.file_id == file.file_id && winner.checksum == file.checksum
      then broadcast_local fresh_id file op (or_else file.vector_clock []) e
      else if winner.file_id == op.file_id && winner.checksum == op.checksum
      then apply_write contents op e
      else apply_merge fresh_id now winner op e

  winner_of : List ℕ → FileMetadata → SyncOperation → Engine W → Conflict.SyncOperation
  unfolding local_operation remote_operation
  winner_of contents file op e =
      let on_disk : List ℕ = elim (os.read_file (os.join op.path) e.world) [
        | returned b ↦ b
        | failed _ ↦ []
      ] in
      resolve_conflict e.resolution_strategy (local_operation file on_disk)
        (remote_operation op contents) (or_else file.vector_clock []) (or_else op.vector_clock [])

  incoming_write : Str → ℤ → List ℕ → SyncOperation → Engine W → Engine W
  unfolding apply_write settle winner_of
  incoming_write fresh_id now contents op e = elim (os.get_file_by_id op.file_id e.world) [
    | failed _ ↦ apply_write contents op e
    | returned file ↦
        if file.checksum != op.checksum
        then settle fresh_id now contents file op (winner_of contents file op e) e
        else apply_write contents op e
  ]

  incoming_delete : SyncOperation → Engine W → Engine W
  incoming_delete op e =
      let (error, w) = os.remove_file (os.join op.path) e.world in
      elim error [
        | some _ ↦ record e { world = w }
        | none ↦ record e { world = (os.delete_file op.file_id w).1 }
      ]

  unfoldable pub process_incoming_file : Str → ℤ → List ℕ → SyncOperation → Engine W → Engine W
  unfolding merge_clock incoming_write incoming_delete
  process_incoming_file fresh_id now contents op e =
      let e' = merge_clock op e in
      if op.type == op_create || op.type == op_update
      then incoming_write fresh_id now contents op e'
      else if op.type == op_delete
      then incoming_delete op e'
      else e'

  -- `HandleIncomingFile` with the goroutine that it starts run to its end. The error is always nil.
  unfoldable pub handle_incoming_file :
      ℕ → Str → ℤ → List ℕ → SyncOperation → Engine W → Option Str × Engine W
  unfolding process_incoming_file add_recent_write
  handle_incoming_file clock fresh_id now contents op e =
      let op' = record op { source = bytes "remote" } in
      let e' = if op.checksum != [] then add_recent_write clock op.checksum e else e in
      (none, process_incoming_file fresh_id now contents op' e')

  rename_row : SyncOperation → FileMetadata
  unfolding row_of
  rename_row op = record (row_of op) { mode = none; vector_clock = none }

  unfoldable pub handle_incoming_rename : SyncOperation → Engine W → Option Str × Engine W
  unfolding rename_row
  handle_incoming_rename op e = elim op.from_path [
    | none ↦ (some (bytes "rename operation missing FromPath"), e)
    | some from_path ↦
        let to_path = os.join op.path in
        let (error, w) = os.rename_file (os.join from_path) to_path e.world in
        elim error [
          | some cause ↦ (some (bytes "failed to rename file: " ++ cause), record e { world = w })
          | none ↦
              let (failure, w') =
                os.insert_file (rename_row op) (os.set_file_id to_path op.file_id w) in
              let complaint : Option Str = elim failure [
                | none ↦ none
                | some cause ↦ some (bytes "failed to update database: " ++ cause)
              ] in
              (complaint, record e { world = w' })
        ]
  ]
