-- ===== src/DatabaseTests.antt =====
-- Inputs at which the theorems on the database and on the engine over it apply.
use p2p_folder_sync.Prelude.{
  ℤ, ◌+◌, ◌^◌, ◌&&◌, int_eq, not, contains, All, zero, suc, ◌≡◌, refl, ap, sym, inl, true, false,
  Option, none, some, List, [], ◌∷◌, ◌++◌, Str, bytes, pos, negsuc, map, Any, list_eq, nat_eq,
  arith,
}
use p2p_folder_sync.Prelude.Dict.{lookup, insert}
use p2p_folder_sync.Prelude.Fallible.{Fallible, returned, failed, ◌>>=◌}
use p2p_folder_sync.VectorClock.{VectorClock, merge, increment, get}
use p2p_folder_sync.Operation.{SyncOperation, zero_operation, op_create}
use p2p_folder_sync.Rows.{as_float, FileMetadata, LogEntry, zero_time, unix, of_unix}
use p2p_folder_sync.Database.{Codec, Database, exec, query}
use p2p_folder_sync.Database.Files.{written_row, insert_file, get_file_by_id, get_all_files}
use p2p_folder_sync.Database.Files.Stored.{kept}
use p2p_folder_sync.Database.Chunks.{
  ChunkInfo, scan_chunks, by_id, missing_of_file, upsert, is_chunk, chunk_row, receive_rows,
  mark_chunk_received, insert_or_update_chunk, get_missing_chunks,
}
use p2p_folder_sync.Database.Chunks.Missing.{chunk_ids, marks, missing_after_marks}
use p2p_folder_sync.Database.Log.{
  append_operation, has_operation, get_unacknowledged_operations, unacknowledged_rows,
}
use p2p_folder_sync.Database.Log.Waiting.{Call, appends, acknowledges, compacts, run, effects}
use p2p_folder_sync.Database.Log.Durable.{Faithful, log_durable, append_read_back}
use p2p_folder_sync.Messages.{LogEntryPayload}
use p2p_folder_sync.Reconcile.{StateDeclaration, reconcile_states}
use p2p_folder_sync.Reconcile.Differences.{file_ids}
use p2p_folder_sync.VectorClock.Order.{Leq}
use p2p_folder_sync.Declaration.{manifest_of, pending_of, build_state_declaration}
use p2p_folder_sync.Declaration.Exchange.{declared_missing}
use p2p_folder_sync.Declaration.Clock.{clock_of, declared_clock_upper}
use p2p_folder_sync.Engine.{Engine, queue_operation, stamped, log_entry_of_operation}
use p2p_folder_sync.Engine.Receiving.{row_of, process_incoming_file}
use p2p_folder_sync.Engine.Receiving.Incoming.{unknown}
use p2p_folder_sync.Engine.Machine.{Outside, machine}
use p2p_folder_sync.Engine.Machine.Recorded.{incoming_recorded}
use p2p_folder_sync.Engine.Replay.{replay_unacknowledged_operations}
use p2p_folder_sync.Engine.Replay.Survival.{Repeats, send_all, operation_survives}

-- A text for clocks of at most one counter.
abbrev write_clock : Option VectorClock → Fallible Str
write_clock none = returned (0 ∷ [])
write_clock (some []) = returned (1 ∷ [])
write_clock (some ((peer_id, pos n) ∷ [])) = returned (2 ∷ n ∷ peer_id)
write_clock (some ((peer_id, negsuc n) ∷ [])) = failed (bytes "negative")
write_clock (some (_ ∷ _ ∷ _)) = failed (bytes "too long")

abbrev read_clock : Str → Fallible (Option VectorClock)
read_clock (zero ∷ _) = returned none
read_clock (suc zero ∷ _) = returned (some [])
read_clock (suc (suc _) ∷ n ∷ peer_id) = returned (some ((peer_id, pos n) ∷ []))
read_clock _ = failed (bytes "no clock")

abbrev codec : Codec
codec = record { marshal = write_clock; unmarshal = read_clock }

faithful : Faithful codec
faithful none vc_json h = ap (λ m. m >>= read_clock) (sym h)
faithful (some []) vc_json h = ap (λ m. m >>= read_clock) (sym h)
faithful (some ((peer_id, pos n) ∷ [])) vc_json h = ap (λ m. m >>= read_clock) (sym h)
faithful (some ((peer_id, negsuc n) ∷ [])) vc_json h = absurd (ground (arith, h))
faithful (some (_ ∷ _ ∷ _)) vc_json h = absurd (ground (arith, h))

abbrev empty : Database
empty = record { files = []; operations = []; next_sequence = 1; chunks = [] }

abbrev entry : Str → LogEntry
entry id = record {
  sequence = 0;
  operation_id = id;
  timestamp = pos 2500;
  operation_type = op_create;
  peer_id = bytes "alice";
  vector_clock = some ((bytes "alice", pos 1) ∷ []);
  acknowledged = false;
  persisted = false;
  file_id = some (bytes "f");
  path = bytes "a.txt";
  from_path = none;
  checksum = some (9 ∷ []);
  size = some (pos 1);
  mtime = some (pos 1700);
  mode = none;
  chunk_count = pos 0;
  data_bytes = [];
  compressed = false;
  original_size = none;
  compression_algorithm = none;
}

abbrev two_then_one : List Call
two_then_one =
    appends none (entry (bytes "x"))
    ∷ appends none (entry (bytes "y"))
    ∷ appends (some (bytes "disk full")) (entry (bytes "z"))
    ∷ acknowledges none (bytes "x")
    ∷ compacts none none 0
    ∷ []

log_durable_example :
    (entries : List LogEntry) × (get_unacknowledged_operations codec none
        (run codec two_then_one empty)
      ≡ returned entries)
    × (map (λ (e : LogEntry). e.operation_id) entries ≡ effects codec two_then_one empty [])
log_durable_example = log_durable codec faithful two_then_one empty refl

abbrev logged : Database
logged = (append_operation codec none (entry (bytes "x")) empty).1

-- A size that no float64 holds.
abbrev odd_size : LogEntry
odd_size = record (entry (bytes "x")) { size = some (pos (2 ^ 53 + 1)) }

append_read_back_example :
    get_unacknowledged_operations codec none (append_operation codec none odd_size empty).1
    ≡ returned (
        record odd_size {
          sequence = 1;
          timestamp = pos 2000;
          mtime = some (pos 1000);
          size = some (pos (2 ^ 53));
        }
        ∷ [])
unfolding append_operation get_unacknowledged_operations unix of_unix exec query has_operation
    unacknowledged_rows as_float nat_eq
append_read_back_example = append_read_back codec faithful odd_size empty [] refl refl refl

abbrev photo : FileMetadata
photo = record {
  file_id = bytes "f";
  path = bytes "a.txt";
  checksum = 9 ∷ [];
  size = pos 1;
  mtime = pos 1700;
  mode = none;
  peer_id = bytes "alice";
  vector_clock = some ((bytes "alice", pos 1) ∷ []);
  compressed = false;
  original_size = none;
  compression_algorithm = none;
  created_at = zero_time;
  updated_at = zero_time;
}

-- A disk that keeps nothing but what was broadcast.
abbrev out : Outside (List SyncOperation)
out = record {
  join = λ path. bytes "/s/" ++ path;
  rel = λ path. returned path;
  hash = λ b. b;
  read_file = λ path d. failed (bytes "no such file");
  write_file = λ path b d. (none, d);
  rename_file = λ from_path path d. (none, d);
  remove_file = λ path d. (none, d);
  file_size = λ path d. returned (pos 1);
  get_file_id = λ path d. [];
  generate_file_id = λ path peer d. returned path;
  set_file_id = λ path file_id d. d;
  broadcast = λ op d. (none, op ∷ d);
  epoch = λ d. pos 50;
}

abbrev engine : Str → Engine (List SyncOperation × Database)
engine peer_id = record {
  resolution_strategy = bytes "last_write_wins";
  peer_id = peer_id;
  messenger = true;
  vector_clock = [];
  recent_writes = [];
  operation_queue = [];
  rename_detector = [];
  world = ([], empty);
}

abbrev sent_by_alice : SyncOperation
sent_by_alice = record zero_operation {
  id = bytes "x";
  type = op_create;
  path = bytes "a.txt";
  file_id = bytes "f";
  checksum = 9 ∷ [];
  peer_id = bytes "alice";
  source = bytes "local";
  mtime = pos 1700;
  vector_clock = some ((bytes "alice", pos 1) ∷ []);
}

incoming_recorded_example :
    let os = machine codec out in
    get_file_by_id codec none
      (bytes "f")
      (process_incoming_file os [] (pos 9) (9 ∷ []) sent_by_alice (engine (bytes "bob"))).world.1
    ≡ returned (kept (pos 50) none (row_of os sent_by_alice))
unfolding machine get_file_by_id query lookup list_eq nat_eq
incoming_recorded_example =
    incoming_recorded codec out [] (pos 9) (9 ∷ []) sent_by_alice (engine (bytes "bob")) [] _
      (bytes "f") faithful (inl refl) (unknown _ refl) refl refl (λ h. absurd (ground (arith, h)))

abbrev restarted : Engine (List SyncOperation × Database)
restarted =
    let os = machine codec out in
    let db = (queue_operation os sent_by_alice (engine (bytes "alice"))).world.1 in
    record (engine (bytes "alice")) {
      world = (
        [],
        run codec (appends none (entry (bytes "y")) ∷ acknowledges none (bytes "y") ∷ []) db,
      );
    }

operation_survives_example :
    let os = machine codec out in
    (sent : List SyncOperation) × (replay_unacknowledged_operations os restarted
      ≡ (none, send_all os sent restarted))
    × Any (Repeats sent_by_alice) sent
unfolding append_operation exec has_operation stamped machine log_entry_of_operation list_eq nat_eq
    increment insert get lookup
operation_survives_example =
    operation_survives codec out sent_by_alice (engine (bytes "alice")) restarted
      (appends none (entry (bytes "y")) ∷ acknowledges none (bytes "y") ∷ []) faithful tt refl refl
      (tt, (λ h. absurd (ground (arith, h)), tt)) refl

abbrev bob_declares : StateDeclaration LogEntryPayload
bob_declares = record {
  peer_id = bytes "bob";
  vector_clock = [];
  file_manifest = [];
  pending_operations = [];
}

abbrev with_photo : Database
with_photo = (insert_file codec none (pos 50) photo empty).1

abbrev alice_declares : StateDeclaration LogEntryPayload
alice_declares = record {
  peer_id = bytes "alice";
  vector_clock = [];
  file_manifest = manifest_of (kept (pos 50) none photo ∷ []);
  pending_operations = [];
}

declared_missing_example :
    contains
      (file_ids
        (reconcile_states
          (λ (p : LogEntryPayload). p.operation_id)
          bob_declares
          alice_declares).missing_files)
      (bytes "f")
    ≡ true
unfolding build_state_declaration get_all_files query get_unacknowledged_operations
    unacknowledged_rows insert_file exec insert written_row kept of_unix lookup list_eq nat_eq
declared_missing_example =
    declared_missing codec codec (bytes "bob") (bytes "alice") empty with_photo bob_declares
      alice_declares (bytes "f") refl refl

declared_clock_upper_example :
    All
      (λ op. Leq (clock_of op) ((bytes "alice", pos 1) ∷ []))
      (record (entry (bytes "x")) { sequence = 1; timestamp = pos 2000; mtime = some (pos 1000) }
        ∷ [])
unfolding build_state_declaration get_unacknowledged_operations query unacknowledged_rows
    append_operation exec has_operation get_all_files merge of_unix get unix lookup insert as_float
    nat_eq
declared_clock_upper_example =
    declared_clock_upper codec (bytes "alice") logged _
      (record {
        peer_id = bytes "alice";
        vector_clock = (bytes "alice", pos 1) ∷ [];
        file_manifest = [];
        pending_operations = pending_of (
            record (entry (bytes "x")) {
              sequence = 1;
              timestamp = pos 2000;
              mtime = some (pos 1000);
            }
            ∷ []);
      })
      refl refl ((record { distinct = (refl, tt); nonneg = λ p. ground arith }), tt)

abbrev chunk : ℤ → ChunkInfo
chunk i = record {
  file_id = bytes "f";
  chunk_id = i;
  chunk_hash = 9 ∷ [];
  offset = pos 0;
  len = pos 1;
  received = false;
  received_at = none;
}

abbrev two_chunks : Database
two_chunks =
    (insert_or_update_chunk none (chunk (pos 1))
      (insert_or_update_chunk none (chunk (pos 0)) with_photo).1).1

missing_after_marks_example : contains (chunk_ids (chunk (pos 1) ∷ [])) (pos 0) ≡ (
    contains (chunk_ids (chunk (pos 0) ∷ chunk (pos 1) ∷ [])) (pos 0)
    && not (contains (pos 0 ∷ pos 0 ∷ []) (pos 0)))
unfolding get_missing_chunks query scan_chunks by_id missing_of_file insert_or_update_chunk exec
    lookup insert_file insert list_eq nat_eq upsert is_chunk chunk_row int_eq marks
    mark_chunk_received receive_rows
missing_after_marks_example =
    missing_after_marks (pos 0 ∷ pos 0 ∷ []) (pos 60) (bytes "f") two_chunks
      (chunk (pos 0) ∷ chunk (pos 1) ∷ []) (chunk (pos 1) ∷ []) (pos 0) refl refl
