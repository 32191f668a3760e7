-- ===== src/Engine/Machine/Recorded.antt =====
-- internal/sync/engine.go with internal/database/files.go: what an incoming version leaves in the tables.
use p2p_folder_sync.Prelude.{
  ◌==◌, if◌then◌else◌, ◌≡◌, ◌∙◌, ap, ◌≢◌, ◌⊎◌, none, List, [], ℕ, Str, ℤ, list_eq, nat_eq, int_eq,
  arith,
}
use p2p_folder_sync.Prelude.Dict.{lookup}
use p2p_folder_sync.Prelude.Fallible.{returned}
use p2p_folder_sync.Operation.{SyncOperation, op_create, op_update}
use p2p_folder_sync.Rows.{FileMetadata}
use p2p_folder_sync.Database.{Codec, Database, exec}
use p2p_folder_sync.Database.Files.{insert_file, get_file_by_id}
use p2p_folder_sync.Database.Files.Stored.{kept, get_file_by_id-insert_file}
use p2p_folder_sync.Database.Log.Durable.{Faithful}
use p2p_folder_sync.Engine.{Engine}
use p2p_folder_sync.Engine.Receiving.{row_of, process_incoming_file}
use p2p_folder_sync.Engine.Receiving.Incoming.{Applies, incoming_applied}
use p2p_folder_sync.Engine.Machine.{Outside, machine}

marshalled :
    (codec : Codec) (now : ℤ) (fm : FileMetadata) (db : Database) (vc_json : Str)
    → codec.marshal fm.vector_clock ≡ returned vc_json
    → (insert_file codec none now fm db).0 ≡ none
unfolding insert_file exec
marshalled codec now fm db vc_json good = ground (arith, good)

-- An incoming creation or update that does not conflict with the table, and which the disk takes,
-- is recorded: its file is found by its id with what is kept of the operation's row, and any other
-- file is found as before. It is assumed that a clock is read as it was written, and that the
-- operation's clock can be written, as a text that is not empty.
pub incoming_recorded :
    {D : Type 0} (codec : Codec) (out : Outside D) (fresh_id : Str) (now : ℤ) (contents : List ℕ)
    (op : SyncOperation) (e : Engine (D × Database)) (d : D) (vc_json id : Str)
    → Faithful codec
    → (op.type ≡ op_create) ⊎ (op.type ≡ op_update)
    → Applies (machine codec out) op e.world
    → out.write_file (out.join op.path) contents e.world.0 ≡ (none, d)
    → codec.marshal op.vector_clock ≡ returned vc_json
    → vc_json ≢ []
    → let before = e.world.1 in
      get_file_by_id codec none id
        (process_incoming_file (machine codec out) fresh_id now contents op e).world.1
      ≡ (if id == op.file_id
          then returned (
              kept
                (out.epoch (out.set_file_id (out.join op.path) op.file_id d))
                (lookup op.file_id before.files)
                (row_of (machine codec out) op))
          else get_file_by_id codec none id before)
unfolding machine row_of
incoming_recorded codec out fresh_id now contents op e d vc_json id law kind applies ok good
      nonempty =
    let os = machine codec out in
    let d' = out.set_file_id (out.join op.path) op.file_id d in
    let db = e.world.1 in
    let fm = row_of os op in
    let same : (process_incoming_file os fresh_id now contents op e).world.1
        ≡ (insert_file codec none (out.epoch d') fm db).1 =
      ap (λ (w : _ × Database). w.1)
        (incoming_applied os fresh_id now contents op e (d, db) kind applies
          (ground (arith, ok))) in
    ap (get_file_by_id codec none id) same
    ∙ get_file_by_id-insert_file codec (out.epoch d') fm db id law
        (λ empty. nonempty (ground (arith, good, empty)))
        (marshalled codec (out.epoch d') fm db vc_json good)
