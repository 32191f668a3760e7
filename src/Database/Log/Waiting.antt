-- ===== src/Database/Log/Waiting.antt =====
-- internal/database/operations.go: which operations wait for an acknowledgment.
use p2p_folder_sync.Prelude.{
  ℕ, suc, zero, ◌+◌, ◌-◌, ◌≤◌, ◌≡◌, refl, ◌∙◌, ap, ◌⊎◌, inl, inr, Bool-cases, Option, Option-cases,
  none, some, List, [], ◌∷◌, ◌++◌, append-nil, length, Str, list_eq, nat_eq, ◌==◌, arith, map,
  if◌then◌else◌,
}
use p2p_folder_sync.Prelude.Fallible.{Fallible-cases}
use p2p_folder_sync.Rows.{LogEntry}
use p2p_folder_sync.Database.{Codec, LogRow, Database, exec}
use p2p_folder_sync.Database.Log.{
  logged_row, append_operation, acknowledge_rows, mark_operation_acknowledged, persist_rows,
  mark_operation_persisted, has_operation, unacknowledged_rows, delete_oldest, compact_log,
}

-- A call, with what the database engine does to it.
pub data Call : Type 0 where
  appends : Option Str → LogEntry → Call
  acknowledges : Option Str → Str → Call
  persists : Option Str → Str → Call
  compacts : Option Str → Option Str → ℕ → Call

unfoldable pub call : Codec → Call → Database → Option Str × Database
call codec (appends fault entry) db = append_operation codec fault entry db
call codec (acknowledges fault id) db = mark_operation_acknowledged fault id db
call codec (persists fault id) db = mark_operation_persisted fault id db
call codec (compacts count_fault fault n) db = compact_log count_fault fault n db

unfoldable pub run : Codec → List Call → Database → Database
unfolding call
run codec [] db = db
run codec (c ∷ cs) db = run codec cs (call codec c db).1

-- The operations of `db` that wait, by id and in order.
abbrev ids : List LogRow → List Str
ids = map λ r. r.operation_id

abbrev pub waiting : Database → List Str
waiting db = ids (unacknowledged_rows db.operations)

unfoldable pub without : Str → List Str → List Str
without id [] = []
without id (j ∷ js) = let rest = without id js in if j == id then rest else j ∷ rest

-- What a call that reported success means for them; any other means nothing.
unfoldable pub effect : Call → Option Str → List Str → List Str
unfolding without
effect c (some error) js = js
effect (appends _ entry) none js = if entry.acknowledged then js else js ++ entry.operation_id ∷ []
effect (acknowledges _ id) none js = without id js
effect (persists _ _) none js = js
effect (compacts _ _ _) none js = js

unfoldable pub effects : Codec → List Call → Database → List Str → List Str
unfolding call effect
effects codec [] db js = js
effects codec (c ∷ cs) db js =
    let after = call codec c db in effects codec cs after.1 (effect c after.0 js)

ids-append : (rs ss : List LogRow) → ids (rs ++ ss) ≡ ids rs ++ ids ss
ids-append [] ss = refl
ids-append (r ∷ rs) ss = ap (◌∷◌ r.operation_id) (ids-append rs ss)

pub unacknowledged-append :
    (rs : List LogRow) (r : LogRow)
    → unacknowledged_rows (rs ++ r ∷ [])
      ≡ unacknowledged_rows rs ++ (if r.acknowledged then [] else r ∷ [])
unfolding unacknowledged_rows
unacknowledged-append [] r = ground arith
unacknowledged-append (q ∷ rs) r = ground (arith, unacknowledged-append rs r)

unacknowledged-acknowledge :
    (id : Str) (rs : List LogRow)
    → ids (unacknowledged_rows (acknowledge_rows id rs)) ≡ without id (ids (unacknowledged_rows rs))
unfolding unacknowledged_rows acknowledge_rows without
unacknowledged-acknowledge id [] = refl
unacknowledged-acknowledge id (r ∷ rs) = ground (arith, unacknowledged-acknowledge id rs)

unacknowledged-persist :
    (id : Str) (rs : List LogRow)
    → ids (unacknowledged_rows (persist_rows id rs)) ≡ ids (unacknowledged_rows rs)
unfolding unacknowledged_rows persist_rows
unacknowledged-persist id [] = refl
unacknowledged-persist id (r ∷ rs) = ground (arith, unacknowledged-persist id rs)

pub unacknowledged-delete_oldest :
    (n : ℕ) (rs : List LogRow) → unacknowledged_rows (delete_oldest n rs) ≡ unacknowledged_rows rs
unfolding unacknowledged_rows delete_oldest
unacknowledged-delete_oldest zero rs = refl
unacknowledged-delete_oldest (suc n) [] = refl
unacknowledged-delete_oldest (suc n) (r ∷ rs) =
    ground (arith, unacknowledged-delete_oldest n rs, unacknowledged-delete_oldest (suc n) rs)

append-effect :
    (codec : Codec) (fault : Option Str) (entry : LogEntry) (db : Database)
    → let r = append_operation codec fault entry db in
      waiting r.1 ≡ effect (appends fault entry) r.0 (waiting db)
unfolding append_operation exec effect
append-effect codec fault entry db = elim (Fallible-cases (codec.marshal entry.vector_clock)) [
  | inl (e, bad) ↦ ground (arith, bad)
  | inr (vc_json, good) ↦ elim (Option-cases fault) [
    | inr (cause, broken) ↦ ground (arith, good, broken)
    | inl fine ↦ elim (Bool-cases (has_operation entry.operation_id db.operations)) [
      | inl there ↦ ground (arith, good, fine, there)
      | inr fresh ↦
          let r = logged_row db.next_sequence vc_json entry in
          let rest = unacknowledged-append db.operations r in
          let kept = ids-append (unacknowledged_rows db.operations) (r ∷ []) in
          let same : r.acknowledged ≡ entry.acknowledged = unfold logged_row in refl in
          let named : r.operation_id ≡ entry.operation_id = unfold logged_row in refl in
          ground (
            arith,
            good,
            fine,
            fresh,
            rest,
            kept,
            same,
            named,
            append-nil (unacknowledged_rows db.operations),
          )
    ]
  ]
]

exec-cases :
    (text : Str) (fault : Option Str) (after db : Database)
    → ((e : Str) × (exec text fault none after db ≡ (some e, db)))
      ⊎ (exec text fault none after db ≡ (none, after))
unfolding exec
exec-cases text none after db = inr refl
exec-cases text (some cause) after db = inl (text ++ cause, refl)

compact-effect :
    (count_fault fault : Option Str) (n : ℕ) (db : Database)
    → waiting (compact_log count_fault fault n db).1 ≡ waiting db
unfolding compact_log exec
compact-effect count_fault fault n db =
    let rest = unacknowledged-delete_oldest (length db.operations - n) db.operations in
    elim (Option-cases count_fault) [
      | inr (_, broken) ↦ ground (arith, broken)
      | inl fine ↦ elim (Option-cases fault) [
        | inr (_, broken) ↦ ground (arith, fine, broken)
        | inl good ↦ ground (arith, fine, good, rest)
      ]
    ]

call-effect :
    (codec : Codec) (c : Call) (db : Database)
    → let r = call codec c db in waiting r.1 ≡ effect c r.0 (waiting db)
unfolding call effect mark_operation_acknowledged mark_operation_persisted exec
call-effect codec (appends fault entry) db = append-effect codec fault entry db
call-effect codec (acknowledges none id) db = unacknowledged-acknowledge id db.operations
call-effect codec (acknowledges (some e) id) db = refl
call-effect codec (persists none id) db = unacknowledged-persist id db.operations
call-effect codec (persists (some e) id) db = refl
call-effect codec (compacts count_fault fault n) db =
    elim (Option-cases (compact_log count_fault fault n db).0) [
      | inl fine ↦ ground (arith, fine, compact-effect count_fault fault n db)
      | inr (e, bad) ↦ ground (arith, bad, compact-effect count_fault fault n db)
    ]

-- Whatever calls are made on the log and whichever of them fail, the operations that wait for
-- an acknowledgment are, in the order of their appending, those whose append was reported as a
-- success and which no successful call acknowledged later. Marking as persisted and the compaction
-- of the log, with any bound, change nothing about them.
pub run-waiting :
    (codec : Codec) (cs : List Call) (db : Database)
    → waiting (run codec cs db) ≡ effects codec cs db (waiting db)
unfolding run effects
run-waiting codec [] db = refl
run-waiting codec (c ∷ cs) db =
    run-waiting codec cs (call codec c db).1
    ∙ ap (effects codec cs (call codec c db).1) (call-effect codec c db)

-- How many rows a deletion leaves: it stops at the number asked for, or when no row is acknowledged.
pub length-delete_oldest :
    (n : ℕ) (rs : List LogRow)
    → (length (delete_oldest n rs) + n ≡ length rs)
      ⊎ ((length (delete_oldest n rs) ≡ length (unacknowledged_rows rs))
          × (length rs ≤ length (delete_oldest n rs) + n))
unfolding delete_oldest unacknowledged_rows
length-delete_oldest zero rs = inl (omega arith)
length-delete_oldest (suc n) [] = inr (refl, omega arith)
length-delete_oldest (suc n) (r ∷ rs) =
    ground (arith, length-delete_oldest n rs, length-delete_oldest (suc n) rs)
