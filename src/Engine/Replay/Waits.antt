-- ===== src/Engine/Replay/Waits.antt =====
-- internal/sync/engine.go with internal/database/operations.go: a row of the log that waits.
use p2p_folder_sync.Prelude.{
  ℕ, suc, zero, ◌-◌, ◌≡◌, ◌≢◌, inl, inr, true, false, Bool-cases, Option-cases, none, some, List,
  [], ◌∷◌, length, Str, list_eq, nat_eq, int_eq, arith, All, Any, Any-append_left,
}
use p2p_folder_sync.Prelude.Fallible.{Fallible-cases}
use p2p_folder_sync.Operation.{SyncOperation}
use p2p_folder_sync.Database.{Codec, LogRow, Database, exec}
use p2p_folder_sync.Database.Log.{
  logged_row, append_operation, acknowledge_rows, mark_operation_acknowledged, persist_rows,
  mark_operation_persisted, has_operation, unacknowledged_rows, delete_oldest, compact_log,
}
use p2p_folder_sync.Database.Log.Waiting.{
  Call, appends, acknowledges, persists, compacts, call, run,
}

-- No call acknowledges the operation.
abbrev pub Spares : Str → Call → Type 0
Spares id (acknowledges fault j) = j ≢ id
Spares id (appends fault entry) = Unit
Spares id (persists fault j) = Unit
Spares id (compacts count_fault fault n) = Unit

module _ (op : SyncOperation) where
  -- What makes a row, or an operation made of it, that of `op`.
  pub record Waits (r : LogRow) : Type 0 where
    pub waiting : r.acknowledged ≡ false
    pub id : r.operation_id ≡ op.id
    pub kind : r.operation_type ≡ op.type
    pub path : r.path ≡ op.path
    pub from_path : r.from_path ≡ op.from_path
    pub peer_id : r.peer_id ≡ op.peer_id
    pub file_id : r.file_id ≡ some op.file_id
    pub checksum : r.checksum ≡ some op.checksum

  Waits-acknowledge :
      (j : Str) (rs : List LogRow) → j ≢ op.id → Any Waits rs → Any Waits (acknowledge_rows j rs)
  unfolding acknowledge_rows
  Waits-acknowledge j [] other h = absurd h
  Waits-acknowledge j (r ∷ rs) other (inl w) = inl (ground (arith, w, w.id, other))
  Waits-acknowledge j (r ∷ rs) other (inr h) = inr (Waits-acknowledge j rs other h)

  persisted-Waits : (r : LogRow) → Waits r → Waits (record r { persisted = true })
  persisted-Waits r w = record {
    waiting = w.waiting;
    id = w.id;
    kind = w.kind;
    path = w.path;
    from_path = w.from_path;
    peer_id = w.peer_id;
    file_id = w.file_id;
    checksum = w.checksum;
  }

  Waits-persist : (j : Str) (rs : List LogRow) → Any Waits rs → Any Waits (persist_rows j rs)
  unfolding persist_rows
  Waits-persist j [] h = absurd h
  Waits-persist j (r ∷ rs) (inl w) = inl (ground (arith, w, persisted-Waits r w))
  Waits-persist j (r ∷ rs) (inr h) = inr (Waits-persist j rs h)

  Waits-delete_oldest : (n : ℕ) (rs : List LogRow) → Any Waits rs → Any Waits (delete_oldest n rs)
  unfolding delete_oldest
  Waits-delete_oldest zero rs h = h
  Waits-delete_oldest (suc n) [] h = absurd h
  Waits-delete_oldest (suc n) (r ∷ rs) (inl w) = let kept = w.waiting in ground (arith, kept, w)
  Waits-delete_oldest (suc n) (r ∷ rs) (inr h) =
      ground (arith, Waits-delete_oldest n rs h, Waits-delete_oldest (suc n) rs h)

  module _ (codec : Codec) where
    Waits-call :
        (c : Call) (db : Database)
        → Spares op.id c
        → Any Waits db.operations
        → Any Waits (call codec c db).1.operations
    unfolding call append_operation mark_operation_acknowledged mark_operation_persisted compact_log
        exec
    Waits-call (appends fault entry) db spares h =
        elim (Fallible-cases (codec.marshal entry.vector_clock)) [
          | inl (_, bad) ↦ ground (arith, bad, h)
          | inr (vc_json, good) ↦
              let r = logged_row db.next_sequence vc_json entry in
              let more = Any-append_left Waits db.operations (r ∷ []) h in
              elim (Option-cases fault) [
                | inr (_, broken) ↦ ground (arith, good, broken, h)
                | inl fine ↦ elim (Bool-cases (has_operation entry.operation_id db.operations)) [
                  | inl there ↦ ground (arith, good, fine, there, h)
                  | inr fresh ↦ ground (arith, good, fine, fresh, more)
                ]
              ]
        ]
    Waits-call (acknowledges none j) db other h = Waits-acknowledge j db.operations other h
    Waits-call (acknowledges (some e) j) db other h = h
    Waits-call (persists none j) db spares h = Waits-persist j db.operations h
    Waits-call (persists (some e) j) db spares h = h
    Waits-call (compacts count_fault fault n) db spares h =
        let fewer = Waits-delete_oldest (length db.operations - n) db.operations h in
        elim (Option-cases count_fault) [
          | inr (_, broken) ↦ ground (arith, broken, h)
          | inl fine ↦ elim (Option-cases fault) [
            | inr (_, broken) ↦ ground (arith, fine, broken, h)
            | inl good ↦ ground (arith, fine, good, h, fewer)
          ]
        ]

    pub Waits-run :
        (cs : List Call) (db : Database)
        → All (Spares op.id) cs
        → Any Waits db.operations
        → Any Waits (run codec cs db).operations
    unfolding run
    Waits-run [] db spare h = h
    Waits-run (c ∷ cs) db spare h =
        Waits-run cs (call codec c db).1 spare.1 (Waits-call c db spare.0 h)

    pub Waits-unacknowledged :
        (rs : List LogRow) → Any Waits rs → Any Waits (unacknowledged_rows rs)
    unfolding unacknowledged_rows
    Waits-unacknowledged [] h = absurd h
    Waits-unacknowledged (r ∷ rs) (inl w) = let kept = w.waiting in ground (arith, kept, w)
    Waits-unacknowledged (r ∷ rs) (inr h) = ground (arith, Waits-unacknowledged rs h)
