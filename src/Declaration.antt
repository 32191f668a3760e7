-- ===== src/Declaration.antt =====
-- internal/state/declaration.go: what a peer declares of its tables.
pub mod Clock
pub mod Exchange
use p2p_folder_sync.Prelude.{Option, none, some, List, [], ◌∷◌, Str}
use p2p_folder_sync.Prelude.Fallible.{Fallible, returned, failed, ◌>>=◌}
use p2p_folder_sync.VectorClock.{VectorClock, new_vector_clock, merge}
use p2p_folder_sync.Messages.{LogEntryPayload}
use p2p_folder_sync.Reconcile.{ManifestEntry, StateDeclaration}
use p2p_folder_sync.Rows.{FileMetadata, LogEntry, unix}
use p2p_folder_sync.Database.{Codec, Database}
use p2p_folder_sync.Database.Files.{get_all_files}
use p2p_folder_sync.Database.Log.{get_unacknowledged_operations, map_option}

unfoldable pub manifest_entry : FileMetadata → ManifestEntry
manifest_entry file = record {
  file_id = file.file_id;
  path = file.path;
  hash = file.checksum;
  size = file.size;
  mtime = unix file.mtime;
  last_modified_by = file.peer_id;
}

unfoldable pub manifest_of : List FileMetadata → List ManifestEntry
unfolding manifest_entry
manifest_of [] = []
manifest_of (file ∷ files) = manifest_entry file ∷ manifest_of files

unfoldable pub pending_payload : LogEntry → LogEntryPayload
pending_payload op = record {
  operation_id = op.operation_id;
  timestamp = unix op.timestamp;
  type = op.operation_type;
  peer_id = op.peer_id;
  vector_clock = op.vector_clock;
  file_id = op.file_id;
  path = op.path;
  from_path = op.from_path;
  checksum = op.checksum;
  size = op.size;
  mtime = map_option unix op.mtime;
  mode = op.mode;
  data_bytes = op.data_bytes;
  compressed = some op.compressed;
  original_size = op.original_size;
  compression_algorithm = op.compression_algorithm;
}

unfoldable pub pending_of : List LogEntry → List LogEntryPayload
unfolding pending_payload
pending_of [] = []
pending_of (op ∷ ops) = pending_payload op ∷ pending_of ops

-- A nil clock has nothing to merge.
abbrev pub merged_with : Option VectorClock → VectorClock → VectorClock
merged_with none vc = vc
merged_with (some other) vc = merge vc other

unfoldable pub merged_clocks : List LogEntry → VectorClock → VectorClock
merged_clocks [] vc = vc
merged_clocks (op ∷ ops) vc = merged_clocks ops (merged_with op.vector_clock vc)

-- The faults are those of the two queries.
unfoldable pub build_state_declaration :
    Codec → Option Str → Option Str → Str → Database → Fallible (StateDeclaration LogEntryPayload)
unfolding manifest_of pending_of merged_clocks
build_state_declaration codec files_fault log_fault peer_id db =
    get_all_files codec files_fault db >>= λ files.
    get_unacknowledged_operations codec log_fault db >>= λ operations. returned (record {
      peer_id = peer_id;
      vector_clock = merged_clocks operations new_vector_clock;
      file_manifest = manifest_of files;
      pending_operations = pending_of operations;
    })
