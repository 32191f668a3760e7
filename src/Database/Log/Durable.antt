-- ===== src/Database/Log/Durable.antt =====
-- internal/database/operations.go: what is read back from the log.
use p2p_folder_sync.Prelude.{
  ℕ, suc, zero, ◌-◌, ◌≤◌, ◌≡◌, refl, ◌∙◌, ap, ◌⊎◌, inl, inr, false, Bool-cases, Option,
  Option-cases, none, some, List, [], ◌∷◌, ◌++◌, length, Str, list_eq, nat_eq, arith, map, All,
}
use p2p_folder_sync.Prelude.Fallible.{returned, Fallible-cases}
use p2p_folder_sync.VectorClock.{VectorClock}
use p2p_folder_sync.Rows.{LogEntry, unix, of_unix, as_float}
use p2p_folder_sync.Database.{Codec, LogRow, Database, exec, query}
use p2p_folder_sync.Database.Log.{
  logged_row, append_operation, acknowledge_rows, mark_operation_acknowledged, persist_rows,
  mark_operation_persisted, entry_of_row, scan_log_entry, scan_log_entries, has_operation,
  unacknowledged_rows, get_unacknowledged_operations, delete_oldest, compact_log, map_option,
}
use p2p_folder_sync.Database.Log.Waiting.{
  Call, appends, acknowledges, persists, compacts, call, run, waiting, effects, run-waiting,
  length-delete_oldest, unacknowledged-delete_oldest, unacknowledged-append,
}

-- A clock is read as it was written.
abbrev pub Faithful : Codec → Type 0
Faithful codec =
    (vc : Option VectorClock) (vc_json : Str)
    → codec.marshal vc ≡ returned vc_json
    → codec.unmarshal vc_json ≡ returned vc

module _ (codec : Codec) where
  abbrev pub Readable : LogRow → Type 0
  Readable r = (vc : Option VectorClock) × (codec.unmarshal r.vector_clock ≡ returned vc)

  abbrev pub AllReadable : List LogRow → Type 0
  AllReadable = All Readable

  pub Readable-append :
      (rs : List LogRow) (r : LogRow) → AllReadable rs → Readable r → AllReadable (rs ++ r ∷ [])
  Readable-append [] r h k = (k, tt)
  Readable-append (q ∷ rs) r h k = (h.0, Readable-append rs r h.1 k)

  Readable-acknowledge :
      (id : Str) (rs : List LogRow) → AllReadable rs → AllReadable (acknowledge_rows id rs)
  unfolding acknowledge_rows
  Readable-acknowledge id [] h = tt
  Readable-acknowledge id (r ∷ rs) h = ground (arith, Readable-acknowledge id rs h.1)

  Readable-persist :
      (id : Str) (rs : List LogRow) → AllReadable rs → AllReadable (persist_rows id rs)
  unfolding persist_rows
  Readable-persist id [] h = tt
  Readable-persist id (r ∷ rs) h = ground (arith, Readable-persist id rs h.1)

  Readable-delete_oldest :
      (n : ℕ) (rs : List LogRow) → AllReadable rs → AllReadable (delete_oldest n rs)
  unfolding delete_oldest
  Readable-delete_oldest zero rs h = h
  Readable-delete_oldest (suc n) [] h = tt
  Readable-delete_oldest (suc n) (r ∷ rs) h =
      ground (arith, Readable-delete_oldest n rs h.1, Readable-delete_oldest (suc n) rs h.1)

  pub Readable-unacknowledged :
      (rs : List LogRow) → AllReadable rs → AllReadable (unacknowledged_rows rs)
  unfolding unacknowledged_rows
  Readable-unacknowledged [] h = tt
  Readable-unacknowledged (r ∷ rs) h = ground (arith, Readable-unacknowledged rs h.1)

  pub Readable-call :
      Faithful codec
      → (c : Call) (db : Database) → AllReadable db.operations
      → AllReadable (call codec c db).1.operations
  unfolding call append_operation mark_operation_acknowledged mark_operation_persisted compact_log
      exec
  Readable-call law (appends fault entry) db h =
      elim (Fallible-cases (codec.marshal entry.vector_clock)) [
        | inl (_, bad) ↦ ground (arith, bad, h)
        | inr (vc_json, good) ↦
            let r = logged_row db.next_sequence vc_json entry in
            let stored : r.vector_clock ≡ vc_json = unfold logged_row in refl in
            let read : codec.unmarshal r.vector_clock ≡ returned entry.vector_clock =
              ap codec.unmarshal stored ∙ law entry.vector_clock vc_json good in
            let more = Readable-append db.operations r h (entry.vector_clock, read) in
            elim (Option-cases fault) [
              | inr (_, broken) ↦ ground (arith, good, broken, h)
              | inl fine ↦ elim (Bool-cases (has_operation entry.operation_id db.operations)) [
                | inl there ↦ ground (arith, good, fine, there, h)
                | inr fresh ↦ ground (arith, good, fine, fresh, more)
              ]
            ]
      ]
  Readable-call law (acknowledges none id) db h = Readable-acknowledge id db.operations h
  Readable-call law (acknowledges (some e) id) db h = h
  Readable-call law (persists none id) db h = Readable-persist id db.operations h
  Readable-call law (persists (some e) id) db h = h
  Readable-call law (compacts count_fault fault n) db h =
      let less = Readable-delete_oldest (length db.operations - n) db.operations h in
      elim (Option-cases count_fault) [
        | inr (_, broken) ↦ ground (arith, broken, h)
        | inl fine ↦ elim (Option-cases fault) [
          | inr (_, broken) ↦ ground (arith, fine, broken, h)
          | inl good ↦ ground (arith, fine, good, h, less)
        ]
      ]

  pub Readable-run :
      Faithful codec
      → (cs : List Call) (db : Database) → AllReadable db.operations
      → AllReadable (run codec cs db).operations
  unfolding run
  Readable-run law [] db h = h
  Readable-run law (c ∷ cs) db h =
      Readable-run law cs (call codec c db).1 (Readable-call law c db h)

  scan_ids :
      (rs : List LogRow)
      → AllReadable rs
      → (entries : List LogEntry) × (scan_log_entries codec rs ≡ returned entries)
        × (map (λ (e : LogEntry). e.operation_id) entries ≡ map (λ (r : LogRow). r.operation_id) rs)
  unfolding scan_log_entries scan_log_entry entry_of_row
  scan_ids [] h = ([], refl, refl)
  scan_ids (r ∷ rs) h =
      let (entries, scanned_rest, same) = scan_ids rs h.1 in
      let (vc, read) = h.0 in
      (
        entry_of_row vc r ∷ entries,
        ground (arith, read, scanned_rest),
        ap (◌∷◌ r.operation_id) same,
      )

  -- The log of operations is durable: after any calls on an empty log, and whichever of them fail,
  -- reading the operations that are not acknowledged succeeds, and gives in the order of their
  -- appending exactly those whose append was reported as a success and which no successful call
  -- acknowledged later. It is assumed that a clock is read as it was written, and that the
  -- database engine does not fail in the final query.
  pub log_durable :
      Faithful codec
      → (cs : List Call) (db : Database) → db.operations ≡ []
      → (entries : List LogEntry) × (get_unacknowledged_operations codec none (run codec cs db)
          ≡ returned entries)
        × (map (λ (e : LogEntry). e.operation_id) entries ≡ effects codec cs db [])
  unfolding get_unacknowledged_operations query unacknowledged_rows
  log_durable law cs db empty =
      let readable = Readable-run law cs db (rw empty tt) in
      let after = run codec cs db in
      let (entries, read, same) =
        scan_ids (unacknowledged_rows after.operations)
          (Readable-unacknowledged after.operations readable) in
      let at_first : waiting db ≡ [] = rw empty in
      (entries, read, same ∙ run-waiting codec cs db ∙ ap (effects codec cs db) at_first)

  scan_append :
      (rs : List LogRow) (r : LogRow) (entries : List LogEntry) (vc : Option VectorClock)
      → scan_log_entries codec rs ≡ returned entries
      → codec.unmarshal r.vector_clock ≡ returned vc
      → scan_log_entries codec (rs ++ r ∷ []) ≡ returned (entries ++ entry_of_row vc r ∷ [])
  unfolding scan_log_entries scan_log_entry
  scan_append [] r entries vc before read = ground (arith, before, read)
  scan_append (q ∷ rs) r entries vc before read =
      elim (Fallible-cases (codec.unmarshal q.vector_clock)) [
        | inl (_, bad) ↦ absurd (ground (arith, before, bad))
        | inr (qvc, good) ↦ elim (Fallible-cases (scan_log_entries codec rs)) [
          | inl (_, bad) ↦ absurd (ground (arith, before, good, bad))
          | inr (rest, scanned_rest) ↦
              let later = scan_append rs r rest vc scanned_rest read in
              ground (arith, before, good, scanned_rest, later)
        ]
      ]

  -- An operation that is appended is read back, behind those that wait already: with the number of its
  -- row, its times in whole seconds, these seconds and its size as a float64 keeps them, and its other
  -- fields as they were.
  pub append_read_back :
      Faithful codec
      → (entry : LogEntry) (db : Database) (entries : List LogEntry) → entry.acknowledged ≡ false
      → (append_operation codec none entry db).0 ≡ none
      → get_unacknowledged_operations codec none db ≡ returned entries
      → get_unacknowledged_operations codec none (append_operation codec none entry db).1
        ≡ returned (
            entries
            ++ (record entry {
              sequence = db.next_sequence;
              timestamp = of_unix (as_float (unix entry.timestamp));
              mtime = map_option of_unix (map_option as_float (map_option unix entry.mtime));
              size = map_option as_float entry.size;
            })
              ∷ [])
  unfolding get_unacknowledged_operations query append_operation exec entry_of_row
  append_read_back law entry db entries waits accepted before =
      elim (Fallible-cases (codec.marshal entry.vector_clock)) [
        | inl (_, bad) ↦ absurd (ground (arith, accepted, bad))
        | inr (vc_json, good) ↦ elim (Bool-cases (has_operation entry.operation_id db.operations)) [
          | inl there ↦ absurd (ground (arith, accepted, good, there))
          | inr fresh ↦
              let r = logged_row db.next_sequence vc_json entry in
              let rows = unacknowledged_rows db.operations in
              let read = law entry.vector_clock vc_json good in
              let added : unacknowledged_rows (db.operations ++ r ∷ []) ≡ rows ++ r ∷ [] =
                unacknowledged-append db.operations r ∙ ground (arith, waits) in
              let stored : (append_operation codec none entry db).1.operations
                  ≡ db.operations ++ r ∷ [] =
                ground (arith, good, fresh) in
              ap (λ rs. scan_log_entries codec (unacknowledged_rows rs)) stored
              ∙ ap (scan_log_entries codec) added
              ∙ scan_append rows r entries entry.vector_clock before read
        ]
      ]

-- A compaction that reports success leaves no more rows than asked for, or only rows that wait.
compact_log_bound :
    (count_fault fault : Option Str) (max_entries : ℕ) (db : Database)
    → (compact_log count_fault fault max_entries db).0 ≡ none
    → let rows = (compact_log count_fault fault max_entries db).1.operations in
      (unacknowledged_rows rows ≡ unacknowledged_rows db.operations)
      × ((length rows ≤ max_entries) ⊎ (length rows ≡ length (unacknowledged_rows rows)))
unfolding compact_log exec
compact_log_bound count_fault fault max_entries db fine =
    let n = length db.operations - max_entries in
    let same = unacknowledged-delete_oldest n db.operations in
    let left = length-delete_oldest n db.operations in
    elim (Option-cases count_fault) [
      | inr (_, broken) ↦ absurd (ground (arith, fine, broken))
      | inl counted ↦ elim (Option-cases fault) [
        | inr (_, broken) ↦ ground (arith, fine, counted, broken, same, left)
        | inl good ↦ ground (arith, counted, good, same, left)
      ]
    ]
