-- ===== src/Engine/Replay/Survival.antt =====
-- internal/sync/engine.go with internal/database/operations.go: a local operation over a restart.
use p2p_folder_sync.Prelude.{
  ℕ, ◌≡◌, refl, sym, ◌∙◌, ap, subst, inl, inr, Bool-cases, Option, none, some, List, [], ◌∷◌, Str,
  bytes, list_eq, nat_eq, int_eq, ◌==◌, arith, or_else, if◌then◌else◌, All, Any, Any-append_right,
}
use p2p_folder_sync.Prelude.Fallible.{returned, Fallible-cases}
use p2p_folder_sync.VectorClock.{VectorClock, increment}
use p2p_folder_sync.Operation.{SyncOperation}
use p2p_folder_sync.Rows.{LogEntry}
use p2p_folder_sync.Database.{Codec, LogRow, Database, exec, query}
use p2p_folder_sync.Database.Log.{
  logged_row, append_operation, entry_of_row, scan_log_entry, scan_log_entries, has_operation,
  unacknowledged_rows, get_unacknowledged_operations,
}
use p2p_folder_sync.Database.Log.Waiting.{Call, run}
use p2p_folder_sync.Database.Log.Durable.{
  Faithful, AllReadable, Readable-run, Readable-unacknowledged, Readable-append,
}
use p2p_folder_sync.Engine.{
  World, Engine, send_out, stamped, queue_operation, log_entry_of_operation,
}
use p2p_folder_sync.Engine.Machine.{Outside, machine}
use p2p_folder_sync.Engine.Replay.{
  log_entry_to_sync_operation, replay_operations, replay_unacknowledged_operations,
}
use p2p_folder_sync.Engine.Replay.Waits.{Spares, Waits, Waits-run, Waits-unacknowledged}

module _ (op : SyncOperation) where
  pub record Repeats (sent : SyncOperation) : Type 0 where
    pub id : sent.id ≡ op.id
    pub kind : sent.type ≡ op.type
    pub path : sent.path ≡ op.path
    pub from_path : sent.from_path ≡ op.from_path
    pub peer_id : sent.peer_id ≡ op.peer_id
    pub file_id : sent.file_id ≡ op.file_id
    pub checksum : sent.checksum ≡ op.checksum

  module _ (codec : Codec) where
    abbrev Again : LogEntry → Type 0
    Again entry = Repeats (log_entry_to_sync_operation entry)

    Waits-Again : (vc : Option VectorClock) (r : LogRow) → Waits op r → Again (entry_of_row vc r)
    unfolding entry_of_row log_entry_to_sync_operation
    Waits-Again vc r w = record {
      id = w.id;
      kind = w.kind;
      path = w.path;
      from_path = w.from_path;
      peer_id = w.peer_id;
      file_id = ap (λ o. or_else o []) w.file_id;
      checksum = ap (λ o. or_else o []) w.checksum;
    }

    scanned :
        (rs : List LogRow)
        → AllReadable codec rs
        → (entries : List LogEntry) × (scan_log_entries codec rs ≡ returned entries)
          × (Any (Waits op) rs → Any Again entries)
    unfolding scan_log_entries scan_log_entry
    scanned [] h = ([], refl, λ none_there. none_there)
    scanned (r ∷ rs) h =
        let (entries, read_rest, rest) = scanned rs h.1 in
        let (vc, read) = h.0 in
        (
          entry_of_row vc r ∷ entries,
          ground (arith, read, read_rest),
          λ there. elim there [ inl w ↦ inl (Waits-Again vc r w) | inr later ↦ inr (rest later) ],
        )

    appended :
        (entry : LogEntry) (db : Database)
        → (append_operation codec none entry db).0 ≡ none
        → Faithful codec
        → AllReadable codec db.operations
        → ((r : LogRow) (vc_json : Str)
            → r ≡ logged_row db.next_sequence vc_json entry
            → Waits op r)
        → let after = (append_operation codec none entry db).1 in
          Any (Waits op) after.operations × AllReadable codec after.operations
    unfolding append_operation exec
    appended entry db accepted law readable waits =
        elim (Fallible-cases (codec.marshal entry.vector_clock)) [
          | inl (_, bad) ↦ absurd (ground (arith, accepted, bad))
          | inr (vc_json, good) ↦
              elim (Bool-cases (has_operation entry.operation_id db.operations)) [
                | inl there ↦ absurd (ground (arith, accepted, good, there))
                | inr fresh ↦
                    let r = logged_row db.next_sequence vc_json entry in
                    let stored : r.vector_clock ≡ vc_json = unfold logged_row in refl in
                    let read : codec.unmarshal r.vector_clock ≡ returned entry.vector_clock =
                      ap codec.unmarshal stored ∙ law entry.vector_clock vc_json good in
                    let there =
                      Any-append_right (Waits op) db.operations (r ∷ [])
                        (inl (waits r vc_json refl)) in
                    let all =
                      Readable-append codec db.operations r readable (entry.vector_clock, read) in
                    ground (arith, good, fresh, there, all)
              ]
        ]

    logged-Waits :
        {W : Type 0} (os : World W) (vc : Option VectorClock) (r : LogRow) (n : ℕ) (vc_json : Str)
        → r ≡ logged_row n vc_json (log_entry_of_operation os (record op { vector_clock = vc }))
        → Waits op r
    unfolding logged_row log_entry_of_operation
    logged-Waits os vc r n vc_json same = rw same (record {
      waiting = refl;
      id = refl;
      kind = refl;
      path = refl;
      from_path = refl;
      peer_id = refl;
      file_id = refl;
      checksum = refl;
    })

-- What is sent again, of a peer's entries.
unfoldable own_operations : Str → List LogEntry → List SyncOperation
own_operations peer_id [] = []
own_operations peer_id (entry ∷ entries) =
    let rest = own_operations peer_id entries in
    if entry.peer_id == peer_id then log_entry_to_sync_operation entry ∷ rest else rest

module _ {W : Type 0} (os : World W) where
  -- The operations are given to the messenger one after the other, if the engine has one.
  unfoldable pub send_all : List SyncOperation → Engine W → Engine W
  unfolding send_out
  send_all [] e = e
  send_all (sent ∷ rest) e = send_all rest (send_out os sent e)

  send_out-peer_id :
      (sent : SyncOperation) (e : Engine W) → (send_out os sent e).peer_id ≡ e.peer_id
  unfolding send_out
  send_out-peer_id sent e = ground arith

  replayed :
      (entries : List LogEntry) (e : Engine W)
      → replay_operations os entries e ≡ send_all (own_operations e.peer_id entries) e
  unfolding replay_operations send_all own_operations
  replayed [] e = refl
  replayed (entry ∷ entries) e =
      let sent = log_entry_to_sync_operation entry in
      let skipped = replayed entries e in
      let again = replayed entries (send_out os sent e) in
      let same = send_out-peer_id sent e in
      elim (Bool-cases (entry.peer_id == e.peer_id)) [
        | inl mine ↦ ground (arith, mine, again, same)
        | inr other ↦ ground (arith, other, skipped)
      ]

  replay_sends :
      (entries : List LogEntry) (e : Engine W)
      → os.unacknowledged e.world ≡ returned entries
      → replay_unacknowledged_operations os e
        ≡ (none, send_all (own_operations e.peer_id entries) e)
  unfolding replay_unacknowledged_operations
  replay_sends entries e read = ground (arith, read, replayed entries e)

module _ (op : SyncOperation) where
  own-Repeats :
      (peer_id : Str) (entries : List LogEntry)
      → op.peer_id ≡ peer_id
      → Any (λ entry. Repeats op (log_entry_to_sync_operation entry)) entries
      → Any (Repeats op) (own_operations peer_id entries)
  unfolding own_operations log_entry_to_sync_operation
  own-Repeats peer_id [] mine there = absurd there
  own-Repeats peer_id (entry ∷ entries) mine (inl again) =
      let same : entry.peer_id ≡ peer_id = again.peer_id ∙ mine in ground (arith, same, again)
  own-Repeats peer_id (entry ∷ entries) mine (inr later) =
      ground (arith, own-Repeats peer_id entries mine later)

module _ {D : Type 0} (codec : Codec) (out : Outside D) where
  abbrev os : World (D × Database)
  os = machine codec out

  -- The entry of the log that `queue_operation` makes.
  abbrev entry_of : SyncOperation → Engine (D × Database) → LogEntry
  entry_of op e = log_entry_of_operation os (stamped os op e).0

  queued_world :
      (op : SyncOperation) (e : Engine (D × Database))
      → (queue_operation os op e).world.1
        ≡ (append_operation codec none (entry_of op e) e.world.1).1
  unfolding queue_operation stamped send_out machine
  queued_world op e = ground (arith)

  stamped_clock :
      (op : SyncOperation) (e : Engine (D × Database))
      → (vc : Option VectorClock) × ((stamped os op e).0 ≡ record op { vector_clock = vc })
  unfolding stamped
  stamped_clock op e = elim (Bool-cases (op.source == bytes "local")) [
    | inl here ↦ (some (increment e.vector_clock e.peer_id), ground (arith, here))
    | inr there ↦ (op.vector_clock, ground (arith, there))
  ]

  logged_entry :
      (op : SyncOperation) (e : Engine (D × Database)) (r : LogRow) (vc_json : Str)
      → r ≡ logged_row e.world.1.next_sequence vc_json (entry_of op e)
      → Waits op r
  logged_entry op e r vc_json same =
      let n = e.world.1.next_sequence in
      let (vc, stamp) = stamped_clock op e in
      logged-Waits op codec os vc r n vc_json
        (same ∙ ap (λ sent. logged_row n vc_json (log_entry_of_operation os sent)) stamp)

  -- A local operation outlives a restart of the engine. When its append to the log succeeded, then
  -- after any calls on the log, whichever of them fail, that do not acknowledge it, an engine of the
  -- same peer which starts on the tables gives the messenger a list of operations with one of the
  -- same id, type, paths, peer, file and checksum. It is assumed that a clock is read as it was
  -- written and that the rows of the log before were read without error.
  pub operation_survives :
      (op : SyncOperation) (e restarted : Engine (D × Database)) (cs : List Call)
      → Faithful codec
      → AllReadable codec e.world.1.operations
      → op.peer_id ≡ restarted.peer_id
      → (append_operation codec none (log_entry_of_operation os (stamped os op e).0) e.world.1).0
        ≡ none
      → All (Spares op.id) cs
      → restarted.world.1 ≡ run codec cs (queue_operation os op e).world.1
      → (sent : List SyncOperation) × (replay_unacknowledged_operations os restarted
          ≡ (none, send_all os sent restarted))
        × Any (Repeats op) sent
  unfolding machine get_unacknowledged_operations query
  operation_survives op e restarted cs law readable mine accepted spare later =
      let db = (queue_operation os op e).world.1 in
      let (there, fine) =
        appended op codec (entry_of op e) e.world.1 accepted law readable (logged_entry op e) in
      let end = run codec cs db in
      let waits =
        Waits-run op codec cs db spare
          (subst (λ db. Any (Waits op) db.operations) (sym (queued_world op e)) there) in
      let fine_end =
        Readable-run codec law cs db
          (subst (λ db. AllReadable codec db.operations) (sym (queued_world op e)) fine) in
      let rows = unacknowledged_rows end.operations in
      let (entries, read, again) =
        scanned op codec rows (Readable-unacknowledged codec end.operations fine_end) in
      let found = again (Waits-unacknowledged op codec end.operations waits) in
      (
        own_operations restarted.peer_id entries,
        replay_sends os entries restarted
            (ap (get_unacknowledged_operations codec none) later ∙ read),
        own-Repeats op restarted.peer_id entries mine found,
      )
