-- ===== src/Database/Log.antt =====
-- internal/database/operations.go.
pub mod Waiting
pub mod Durable
use p2p_folder_sync.Prelude.{
  ℕ, suc, zero, ◌+◌, ◌-◌, Bool, true, false, not, Option, none, some, List, [], ◌∷◌, ◌++◌, length,
  leb, Str, bytes, ℤ, list_eq, nat_eq, option_eq, ◌==◌, if◌then◌else◌,
}
use p2p_folder_sync.Prelude.Fallible.{Fallible, returned, failed, ◌>>=◌}
use p2p_folder_sync.VectorClock.{VectorClock}
use p2p_folder_sync.Rows.{LogEntry, unix, of_unix, as_float}
use p2p_folder_sync.Database.{Codec, LogRow, Database, because, exec, query}

abbrev pub map_option {ℓ κ} : {A : Type ℓ} {B : Type κ} → (A → B) → Option A → Option B
map_option f none = none
map_option f (some a) = some (f a)

unfoldable pub logged_row : ℕ → Str → LogEntry → LogRow
logged_row sequence vc_json entry = record {
  sequence = sequence;
  operation_id = entry.operation_id;
  timestamp = unix entry.timestamp;
  operation_type = entry.operation_type;
  peer_id = entry.peer_id;
  vector_clock = vc_json;
  acknowledged = entry.acknowledged;
  persisted = entry.persisted;
  file_id = entry.file_id;
  path = entry.path;
  from_path = entry.from_path;
  checksum = entry.checksum;
  size = entry.size;
  mtime = map_option unix entry.mtime;
  mode = entry.mode;
  chunk_count = entry.chunk_count;
  data_bytes = entry.data_bytes;
  compressed = entry.compressed;
  original_size = entry.original_size;
  compression_algorithm = entry.compression_algorithm;
}

unfoldable pub has_operation : Str → List LogRow → Bool
has_operation operation_id [] = false
has_operation operation_id (r ∷ rs) =
    let rest = has_operation operation_id rs in
    if r.operation_id == operation_id then true else rest

-- The operation id is unique, and the engine numbers the row.
unfoldable pub append_operation : Codec → Option Str → LogEntry → Database → Option Str × Database
unfolding logged_row
append_operation codec fault entry db = elim (codec.marshal entry.vector_clock) [
  | failed e ↦ (some (bytes "failed to marshal vector clock: " ++ e), db)
  | returned vc_json ↦
      exec (bytes "failed to append operation: ") fault
        (if has_operation entry.operation_id db.operations
          then some (bytes "UNIQUE constraint failed: operations.operation_id")
          else none)
        (record db {
          operations = db.operations ++ logged_row db.next_sequence vc_json entry ∷ [];
          next_sequence = db.next_sequence + 1;
        })
        db
]

unfoldable pub acknowledge_rows : Str → List LogRow → List LogRow
acknowledge_rows operation_id [] = []
acknowledge_rows operation_id (r ∷ rs) =
    (if r.operation_id == operation_id then record r { acknowledged = true } else r)
    ∷ acknowledge_rows operation_id rs

unfoldable pub mark_operation_acknowledged : Option Str → Str → Database → Option Str × Database
mark_operation_acknowledged fault operation_id db =
    exec (bytes "failed to mark operation acknowledged: ") fault none
      (record db { operations = acknowledge_rows operation_id db.operations }) db

unfoldable pub persist_rows : Str → List LogRow → List LogRow
persist_rows operation_id [] = []
persist_rows operation_id (r ∷ rs) =
    (if r.operation_id == operation_id then record r { persisted = true } else r)
    ∷ persist_rows operation_id rs

unfoldable pub mark_operation_persisted : Option Str → Str → Database → Option Str × Database
unfolding persist_rows
mark_operation_persisted fault operation_id db =
    exec (bytes "failed to mark operation persisted: ") fault none
      (record db { operations = persist_rows operation_id db.operations }) db

unfoldable pub entry_of_row : Option VectorClock → LogRow → LogEntry
entry_of_row vc row = record {
  sequence = row.sequence;
  operation_id = row.operation_id;
  timestamp = of_unix (as_float row.timestamp);
  operation_type = row.operation_type;
  peer_id = row.peer_id;
  vector_clock = vc;
  acknowledged = row.acknowledged;
  persisted = row.persisted;
  file_id = row.file_id;
  path = row.path;
  from_path = row.from_path;
  checksum = row.checksum;
  size = map_option as_float row.size;
  mtime = map_option of_unix (map_option as_float row.mtime);
  mode = row.mode;
  chunk_count = row.chunk_count;
  data_bytes = row.data_bytes;
  compressed = row.compressed;
  original_size = row.original_size;
  compression_algorithm = row.compression_algorithm;
}

unfoldable pub scan_log_entry : Codec → LogRow → Fallible LogEntry
unfolding entry_of_row
scan_log_entry codec row =
    because (bytes "failed to unmarshal vector clock: ") (codec.unmarshal row.vector_clock)
    >>= λ vc. returned (entry_of_row vc row)

unfoldable pub scan_log_entries : Codec → List LogRow → Fallible (List LogEntry)
unfolding scan_log_entry
scan_log_entries codec [] = returned []
scan_log_entries codec (r ∷ rs) = scan_log_entry codec r >>= λ entry.
    scan_log_entries codec rs >>= λ entries. returned (entry ∷ entries)

-- `WHERE acknowledged = 0`.
unfoldable pub unacknowledged_rows : List LogRow → List LogRow
unacknowledged_rows [] = []
unacknowledged_rows (r ∷ rs) =
    let rest = unacknowledged_rows rs in if r.acknowledged then rest else r ∷ rest

unfoldable pub get_unacknowledged_operations :
    Codec → Option Str → Database → Fallible (List LogEntry)
unfolding scan_log_entries
get_unacknowledged_operations codec fault db =
    query (bytes "failed to query unacknowledged operations: ") fault
      (scan_log_entries codec (unacknowledged_rows db.operations))

-- `WHERE file_id = ?`.
rows_of_file : Str → List LogRow → List LogRow
rows_of_file file_id [] = []
rows_of_file file_id (r ∷ rs) =
    let rest = rows_of_file file_id rs in if r.file_id == some file_id then r ∷ rest else rest

unfoldable pub get_operations_by_file_id :
    Codec → Option Str → Str → Database → Fallible (List LogEntry)
unfolding rows_of_file scan_log_entries
get_operations_by_file_id codec fault file_id db =
    query (bytes "failed to query operations by file_id: ") fault
      (scan_log_entries codec (rows_of_file file_id db.operations))

unfoldable pub get_all_operations : Codec → Option Str → Database → Fallible (List LogEntry)
unfolding scan_log_entries
get_all_operations codec fault db =
    query (bytes "failed to query all operations: ") fault (scan_log_entries codec db.operations)

-- The deletion of the oldest acknowledged rows, at most `n` of them.
unfoldable pub delete_oldest : ℕ → List LogRow → List LogRow
delete_oldest zero rs = rs
delete_oldest (suc n) [] = []
delete_oldest (suc n) (r ∷ rs) =
    let without = delete_oldest n rs in
    let further = delete_oldest (suc n) rs in if r.acknowledged then without else r ∷ further

-- The faults of the count and of the deletion.
unfoldable pub compact_log : Option Str → Option Str → ℕ → Database → Option Str × Database
compact_log count_fault fault max_entries db = elim count_fault [
  | some cause ↦ (some (bytes "failed to count operations: " ++ cause), db)
  | none ↦
      let count = length db.operations in
      if leb count max_entries
      then (none, db)
      else exec (bytes "failed to compact log: ") fault none
          (record db { operations = delete_oldest (count - max_entries) db.operations }) db
]
