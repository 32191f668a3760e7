-- ===== src/Engine/Events.antt =====
-- internal/sync/engine.go: what the engine does with an event of the file system.
pub mod Local
use p2p_folder_sync.Prelude.{
  ℕ, false, ◌||◌, Option, none, some, [], Str, bytes, ℤ, list_eq, nat_eq, int_eq, ◌==◌, ◌!=◌,
  if◌then◌else◌,
}
use p2p_folder_sync.Prelude.Fallible.{returned, failed}
use p2p_folder_sync.Registry.{check_rename, record_delete}
use p2p_folder_sync.Operation.{new_sync_operation, op_create, op_update, op_delete, op_rename}
use p2p_folder_sync.Rows.{FileMetadata, zero_time}
use p2p_folder_sync.Engine.{World, Engine, queue_operation}

-- What the handlers find out about a file.
pub record Probe : Type 0 where
  pub file_id : Str
  pub checksum : Str
  pub size : ℤ
  pub rel_path : Str

module _ {W : Type 0} (os : World W) where
  -- The id stored with the file, or a new one, which is stored.
  identify : Str → Engine W → Option Str × Engine W
  identify path e =
      let existing = os.get_file_id path e.world in
      if existing != []
      then (some existing, e)
      else elim (os.generate_file_id path e.peer_id e.world) [
        | failed _ ↦ (none, e)
        | returned file_id ↦
            (some file_id, record e { world = os.set_file_id path file_id e.world })
      ]

  -- Checksum, size and relative path; any failure ends the handler.
  measure : Str → Str → Engine W → Option Probe
  measure file_id path e = elim (os.read_file path e.world) [
    | failed _ ↦ none
    | returned contents ↦ elim (os.file_size path e.world) [
      | failed _ ↦ none
      | returned size ↦ elim (os.rel path) [
        | failed _ ↦ none
        | returned rel_path ↦ some (record {
          file_id = file_id;
          checksum = os.hash contents;
          size = size;
          rel_path = rel_path;
        })
      ]
    ]
  ]

  probe : Str → Engine W → Option Probe × Engine W
  unfolding identify measure
  probe path e =
      let (identified, e') = identify path e in
      elim identified [ none ↦ (none, e') | some file_id ↦ (measure file_id path e', e') ]

  -- The row of a local file. It has no vector clock.
  pub local_row : ℤ → Str → Probe → FileMetadata
  local_row now peer_id p = record {
    file_id = p.file_id;
    path = p.rel_path;
    checksum = p.checksum;
    size = p.size;
    mtime = now;
    mode = none;
    peer_id = peer_id;
    vector_clock = none;
    compressed = false;
    original_size = none;
    compression_algorithm = none;
    created_at = zero_time;
    updated_at = zero_time;
  }

  -- The row is inserted, and then the operation is queued.
  record_local : Str → ℤ → Str → Probe → Engine W → Engine W
  unfolding local_row
  record_local fresh_id now op_type p e =
      let (error, w) = os.insert_file (local_row now e.peer_id p) e.world in
      let e' = record e { world = w } in
      let op = record (new_sync_operation fresh_id now op_type p.rel_path p.file_id e.peer_id) {
        checksum = p.checksum;
        size = p.size;
      } in
      elim error [ some _ ↦ e' | none ↦ queue_operation os op e' ]

  -- The path of a row with the same id at another path.
  moved_from : Probe → Engine W → Option Str
  moved_from p e =
      if p.file_id != []
      then elim (os.get_file_by_id p.file_id e.world) [
        | failed _ ↦ none
        | returned row ↦ if row.path != p.rel_path then some row.path else none
      ]
      else none

  -- What the rename detector answers is lost: its answer is bound to a new variable of the same name.
  asked_detector : Probe → Engine W → Engine W
  asked_detector p e = record e {
    rename_detector = (check_rename p.file_id p.checksum p.size e.rename_detector).1;
  }

  create_file : Str → ℤ → Probe → Engine W → Engine W
  unfolding moved_from asked_detector record_local
  create_file fresh_id now p e = elim (moved_from p e) [
    | none ↦ record_local fresh_id now op_create p (asked_detector p e)
    | some old_path ↦
        queue_operation os
          (record (new_sync_operation fresh_id now op_rename p.rel_path p.file_id e.peer_id) {
            from_path = some old_path;
            checksum = p.checksum;
            size = p.size;
          })
          e
  ]

  unfoldable pub handle_create : Str → ℤ → Str → Engine W → Engine W
  unfolding probe create_file
  handle_create fresh_id now path e =
      let (probed, e') = probe path e in
      elim probed [ none ↦ e' | some p ↦ create_file fresh_id now p e' ]

  unfoldable pub handle_update : Str → ℤ → Str → Engine W → Engine W
  unfolding probe record_local
  handle_update fresh_id now path e =
      let (probed, e') = probe path e in
      elim probed [ none ↦ e' | some p ↦ record_local fresh_id now op_update p e' ]

  -- `clock` is the time in the unit of the rename detector.
  unfoldable pub handle_delete : ℕ → (ℤ → ℕ) → Str → ℤ → Str → Engine W → Engine W
  handle_delete clock mtime_of fresh_id now path e = elim (os.rel path) [
    | failed _ ↦ e
    | returned rel_path ↦ elim (os.get_file_by_path rel_path e.world) [
      | failed _ ↦ elim (os.generate_file_id path e.peer_id e.world) [
        | failed _ ↦ e
        | returned file_id ↦
            queue_operation os
              (new_sync_operation fresh_id now op_delete rel_path file_id e.peer_id) e
      ]
      | returned file ↦
          queue_operation os
            (new_sync_operation fresh_id now op_delete rel_path file.file_id e.peer_id)
            (record e {
              rename_detector =
                  record_delete clock file.file_id file.checksum path file.size
                    (mtime_of file.mtime) e.rename_detector;
            })
    ]
  ]

  unfoldable pub handle_file_event : ℕ → (ℤ → ℕ) → Str → ℤ → Str → Str → Engine W → Engine W
  unfolding handle_create handle_update handle_delete
  handle_file_event clock mtime_of fresh_id now operation path e =
      if operation == bytes "create" || operation == bytes "rename"
      then handle_create fresh_id now path e
      else if operation == bytes "update"
      then handle_update fresh_id now path e
      else if operation == bytes "delete"
      then handle_delete clock mtime_of fresh_id now path e
      else e
