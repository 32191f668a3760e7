-- ===== src/EngineTests.antt =====
-- Inputs at which the theorems on the engine and the configuration apply.
use p2p_folder_sync.Prelude.{
  ℕ, ◌≡◌, refl, ◌⊎◌, ◌↔◌, inr, true, false, none, some, List, [], ◌∷◌, ◌++◌, Str, bytes, pos,
  negsuc, list_eq, nat_eq, int_eq, arith,
}
use p2p_folder_sync.Prelude.Dict.{Dict, lookup, insert, erase}
use p2p_folder_sync.Prelude.Fallible.{Fallible, returned, failed}
use p2p_folder_sync.VectorClock.{VectorClock, get, merge, increment, compare}
use p2p_folder_sync.VectorClock.Order.{Leq}
use p2p_folder_sync.VectorClock.Merge.{IsClock}
use p2p_folder_sync.Queue.{queue_of, enqueue}
use p2p_folder_sync.Operation.{SyncOperation, zero_operation, op_update}
use p2p_folder_sync.Rows.{FileMetadata, zero_time}
use p2p_folder_sync.Engine.{World, Engine, queue_operation}
use p2p_folder_sync.Engine.Receiving.{row_of, process_incoming_file}
use p2p_folder_sync.Engine.Receiving.Incoming.{process_incoming_causal}
use p2p_folder_sync.Engine.Receiving.Clocks.{local_after_remote}
use p2p_folder_sync.Engine.Events.{handle_file_event}
use p2p_folder_sync.Engine.Events.Local.{handle_file_event_counts}
use p2p_folder_sync.Config.{Folder, found, default_config, validate}
use p2p_folder_sync.Config.Valid.{IsValid, validate-iff-IsValid}

-- A disk, a table of files and what was broadcast.
record Machine : Type 0 where
  files : Dict Str (List ℕ)
  rows : Dict Str FileMetadata
  sent : List SyncOperation

abbrev found_in {ℓ} : {A : Type ℓ} → Str → Dict Str A → Fallible A
found_in key d = elim (lookup key d) [ none ↦ failed (bytes "not found") | some v ↦ returned v ]

abbrev machine : World Machine
machine = record {
  join = λ path. bytes "/s/" ++ path;
  rel = λ path. returned path;
  hash = λ b. b;
  read_file = λ path m. found_in path m.files;
  write_file = λ path b m. (none, record m { files = insert path b m.files });
  rename_file = λ from_path path m. (none, m);
  remove_file = λ path m. (none, record m { files = erase path m.files });
  file_size = λ path m. returned (pos 1);
  get_file_id = λ path m. [];
  generate_file_id = λ path peer m. returned path;
  set_file_id = λ path file_id m. m;
  get_file_by_id = λ file_id m. found_in file_id m.rows;
  get_file_by_path = λ path m. failed (bytes "not found");
  insert_file = λ row m. (none, record m { rows = insert row.file_id row m.rows });
  delete_file = λ file_id m. (none, record m { rows = erase file_id m.rows });
  append_operation = λ entry m. (none, m);
  unacknowledged = λ m. returned [];
  broadcast = λ op m. (none, record m { sent = op ∷ m.sent });
}

abbrev row : FileMetadata
row = record {
  file_id = bytes "f";
  path = bytes "a.txt";
  checksum = 0 ∷ [];
  size = pos 1;
  mtime = pos 5;
  mode = none;
  peer_id = bytes "bob";
  vector_clock = some ((bytes "alice", pos 1) ∷ []);
  compressed = false;
  original_size = none;
  compression_algorithm = none;
  created_at = zero_time;
  updated_at = zero_time;
}

abbrev before : Machine
before = record { files = (bytes "/s/a.txt", 1 ∷ []) ∷ []; rows = (bytes "f", row) ∷ []; sent = [] }

abbrev bob : Engine Machine
bob = record {
  resolution_strategy = bytes "last_write_wins";
  peer_id = bytes "bob";
  messenger = true;
  vector_clock = (bytes "bob", pos 3) ∷ [];
  recent_writes = [];
  operation_queue = [];
  rename_detector = [];
  world = before;
}

abbrev newer : SyncOperation
newer = record zero_operation {
  type = op_update;
  path = bytes "a.txt";
  file_id = bytes "f";
  checksum = 1 ∷ [];
  peer_id = bytes "alice";
  vector_clock = some ((bytes "alice", pos 2) ∷ []);
}

abbrev local_edit : SyncOperation
local_edit = record zero_operation {
  type = op_update;
  file_id = bytes "f";
  source = bytes "local";
  peer_id = bytes "bob";
}

process_incoming_causal_example :
    let local_vc : VectorClock = (bytes "alice", pos 1) ∷ [] in
    let remote_vc : VectorClock = (bytes "alice", pos 2) ∷ [] in
    let after = process_incoming_file machine [] (pos 9) (2 ∷ []) newer bob in
    ((w : Machine)
      → Leq local_vc remote_vc
      → (¬ Leq remote_vc local_vc)
      → machine.write_file (machine.join newer.path) (2 ∷ []) before ≡ (none, w)
      → after.world
        ≡ (machine.insert_file
            (row_of machine newer)
            (machine.set_file_id (machine.join newer.path) newer.file_id w)).1)
    × (Leq remote_vc local_vc
        → (¬ Leq local_vc remote_vc)
        → (after.world ≡ before)
          ⊎ ((out : SyncOperation) × (out.checksum ≡ row.checksum)
              × (after.world ≡ (machine.broadcast out before).1)))
unfolding lookup list_eq nat_eq
process_incoming_causal_example =
    process_incoming_causal machine [] (pos 9) (2 ∷ []) newer row bob (inr refl) refl (λ e. cc)

bob-IsClock : IsClock ((bytes "bob", pos 3) ∷ [])
unfolding get lookup list_eq nat_eq
bob-IsClock = record { distinct = (refl, tt); nonneg = λ p. ground arith }

newer-IsClock : IsClock ((bytes "alice", pos 2) ∷ [])
unfolding get lookup list_eq nat_eq
newer-IsClock = record { distinct = (refl, tt); nonneg = λ p. ground arith }

local_after_remote_example :
    let after =
      queue_operation machine local_edit
        (process_incoming_file machine [] (pos 9) (2 ∷ []) newer bob) in
    (queue_of after.operation_queue (bytes "f")
      ≡ (record local_edit { vector_clock = some after.vector_clock }) ∷ [])
    × (compare bob.vector_clock after.vector_clock ≡ negsuc 0)
    × (compare ((bytes "alice", pos 2) ∷ []) after.vector_clock ≡ negsuc 0)
unfolding get merge lookup insert list_eq nat_eq
local_after_remote_example =
    local_after_remote machine [] (pos 9) (2 ∷ []) newer local_edit bob refl bob-IsClock
      newer-IsClock (omega arith)

handle_file_event_counts_example :
    let after =
      handle_file_event machine 1
        (λ t. 0)
        (bytes "id")
        (pos 9)
        (bytes "update")
        (bytes "/s/a.txt")
        bob in
    ((after.vector_clock ≡ bob.vector_clock) × (after.operation_queue ≡ bob.operation_queue))
    ⊎ ((op : SyncOperation) × (op.source ≡ bytes "local")
        × (op.peer_id ≡ bytes "bob")
        × (op.vector_clock ≡ some after.vector_clock)
        × (after.vector_clock ≡ increment bob.vector_clock (bytes "bob"))
        × (after.operation_queue ≡ enqueue bob.operation_queue op.file_id op))
handle_file_event_counts_example =
    handle_file_event_counts machine 1 (λ t. 0) (bytes "id") (pos 9) (bytes "update")
      (bytes "/s/a.txt") bob

abbrev plain_folder : Folder
plain_folder = record {
  stat = λ path. found true;
  mkdir_error = λ path. none;
  write_error = λ path. none;
}

validate-iff-IsValid_example :
    (validate plain_folder false default_config ≡ none) ↔ IsValid plain_folder false default_config
validate-iff-IsValid_example = validate-iff-IsValid plain_folder false default_config
