-- ===== src/Engine/Receiving/Incoming.antt =====
-- internal/sync/engine.go: which version of a file an incoming operation leaves.
use p2p_folder_sync.Prelude.{
  ◌==◌, ◌≡◌, refl, sym, ◌∙◌, ap, subst, ◌≢◌, Bool-cases, Option-cases, ◌⊎◌, inl, inr, none, List,
  [], ℕ, Str, ℤ, list_eq, nat_eq, int_eq, arith, or_else,
}
use p2p_folder_sync.Prelude.Fallible.{returned, Fallible-cases, failed}
use p2p_folder_sync.VectorClock.{VectorClock}
use p2p_folder_sync.VectorClock.Order.{Leq}
use p2p_folder_sync.Conflict.Resolve.{resolve_conflict_causal}
use p2p_folder_sync.Operation.{SyncOperation, op_create, op_update}
use p2p_folder_sync.Rows.{FileMetadata}
use p2p_folder_sync.Engine.{World, Engine, send_out}
use p2p_folder_sync.Engine.Receiving.{
  merge_clock, local_operation, remote_operation, row_of, apply_write, broadcast_local,
  local_version, settle, winner_of, incoming_write, process_incoming_file,
}

-- What a write leaves of the world, where the disk takes the file.
applied_at :
    {W : Type 0} (os : World W) (contents : List ℕ) (op : SyncOperation) (e : Engine W) (w : W)
    → os.write_file (os.join op.path) contents e.world ≡ (none, w)
    → (apply_write os contents op e).world
      ≡ (os.insert_file (row_of os op) (os.set_file_id (os.join op.path) op.file_id w)).1
unfolding apply_write
applied_at os contents op e w ok = ground (arith, ok)

module _ {W : Type 0} (os : World W) (fresh_id : Str) (now : ℤ) (contents : List ℕ)
    (op : SyncOperation) (file : FileMetadata) (e : Engine W) where
  abbrev local_clock : VectorClock
  local_clock = or_else file.vector_clock []

  abbrev remote_clock : VectorClock
  remote_clock = or_else op.vector_clock []

  newer_wins :
      Leq local_clock remote_clock
      → (¬ Leq remote_clock local_clock)
      → winner_of os contents file op e ≡ remote_operation os op contents
  unfolding winner_of
  newer_wins le not_ge =
      (resolve_conflict_causal e.resolution_strategy _ _ local_clock remote_clock le not_ge).0

  older_loses :
      Leq remote_clock local_clock
      → (¬ Leq local_clock remote_clock)
      → (on_disk : List ℕ) × (winner_of os contents file op e ≡ local_operation os file on_disk)
  unfolding winner_of
  older_loses le not_ge =
      (_, (resolve_conflict_causal e.resolution_strategy _ _ remote_clock local_clock le not_ge).1)

  -- The winner is known by its checksum.
  remote_settled :
      file.checksum ≢ op.checksum
      → settle os fresh_id now contents file op (remote_operation os op contents) e
        ≡ apply_write os contents op e
  unfolding settle remote_operation
  remote_settled differ = ground (arith, differ)

  local_settled :
      (on_disk : List ℕ)
      → settle os fresh_id now contents file op (local_operation os file on_disk) e
        ≡ broadcast_local os fresh_id file op local_clock e
  unfolding settle local_operation
  local_settled on_disk = ground arith

  written :
      os.get_file_by_id op.file_id e.world ≡ returned file
      → file.checksum ≢ op.checksum
      → incoming_write os fresh_id now contents op e
        ≡ settle os fresh_id now contents file op (winner_of os contents file op e) e
  unfolding incoming_write
  written known differ = ground (arith, known, differ)

  -- The local version is broadcast, if at all.
  abbrev Offered : W → Type 0
  Offered w =
      (w ≡ e.world)
      ⊎ ((out : SyncOperation) × (out.checksum ≡ file.checksum)
          × (w ≡ (os.broadcast out e.world).1))

  sent_out :
      (out : SyncOperation) → out.checksum ≡ file.checksum → Offered (send_out os out e).world
  unfolding send_out
  sent_out out same = elim (Bool-cases e.messenger) [
    | inl on ↦ inr (out, same, ground (arith, on))
    | inr off ↦ inl (ground (arith, off))
  ]

  offered : Offered (broadcast_local os fresh_id file op local_clock e).world
  unfolding broadcast_local
  offered = elim (Fallible-cases (os.read_file (os.join op.path) e.world)) [
    | inl (x, bad) ↦ inl (ground (arith, bad))
    | inr (b, good) ↦
        let out = local_version os fresh_id file op local_clock e.peer_id b in
        let same : broadcast_local os fresh_id file op local_clock e ≡ send_out os out e =
          ground (arith, good) in
        subst (λ (x : Engine W). Offered x.world) (sym same)
          (sent_out out (unfold local_version in refl))
  ]

merged_world :
    {W : Type 0} (os : World W) (op : SyncOperation) (e : Engine W)
    → (merge_clock os op e).world ≡ e.world
unfolding merge_clock
merged_world os op e = elim (Option-cases op.vector_clock) [
  | inl gone ↦ ground (arith, gone)
  | inr (vc, here) ↦ ground (arith, here)
]

processed :
    {W : Type 0} (os : World W) (fresh_id : Str) (now : ℤ) (contents : List ℕ) (op : SyncOperation)
    (e : Engine W)
    → (op.type ≡ op_create) ⊎ (op.type ≡ op_update)
    → process_incoming_file os fresh_id now contents op e
      ≡ incoming_write os fresh_id now contents op (merge_clock os op e)
unfolding process_incoming_file
processed os fresh_id now contents op e kind = ground (arith, kind)

-- An incoming version of a file that the database knows with another checksum: where the remote
-- clock is strictly after the local one, and the disk takes the file, the new contents and their row
-- are written; where it is strictly before, nothing is written, and at most the local version
-- is broadcast. This holds under every strategy, for creations and updates.
pub process_incoming_causal :
    {W : Type 0} (os : World W) (fresh_id : Str) (now : ℤ) (contents : List ℕ) (op : SyncOperation)
    (file : FileMetadata) (e : Engine W)
    → (op.type ≡ op_create) ⊎ (op.type ≡ op_update)
    → os.get_file_by_id op.file_id e.world ≡ returned file
    → file.checksum ≢ op.checksum
    → let local_vc = or_else file.vector_clock [] in
      let remote_vc = or_else op.vector_clock [] in
      let after = process_incoming_file os fresh_id now contents op e in
      ((w : W)
        → Leq local_vc remote_vc
        → (¬ Leq remote_vc local_vc)
        → os.write_file (os.join op.path) contents e.world ≡ (none, w)
        → after.world
          ≡ (os.insert_file (row_of os op) (os.set_file_id (os.join op.path) op.file_id w)).1)
      × (Leq remote_vc local_vc
          → (¬ Leq local_vc remote_vc)
          → (after.world ≡ e.world)
            ⊎ ((out : SyncOperation) × (out.checksum ≡ file.checksum)
                × (after.world ≡ (os.broadcast out e.world).1)))
process_incoming_causal {W} os fresh_id now contents op file e kind known differ =
    let e' = merge_clock os op e in
    let same = merged_world os op e in
    let known' = subst (λ w. os.get_file_by_id op.file_id w ≡ returned file) (sym same) known in
    let settled =
      processed os fresh_id now contents op e kind
      ∙ written os fresh_id now contents op file e' known' differ in
    (
      λ w le not_ge ok.
          ap (λ (x : Engine W). x.world)
            (settled
              ∙ ap (λ winner. settle os fresh_id now contents file op winner e')
                  (newer_wins os fresh_id now contents op file e' le not_ge)
              ∙ remote_settled os fresh_id now contents op file e' differ)
          ∙ applied_at os contents op e' w
              (ap (os.write_file (os.join op.path) contents) same ∙ ok),
      λ le not_ge.
          let (on_disk, loses) = older_loses os fresh_id now contents op file e' le not_ge in
          let kept =
            settled
            ∙ ap (λ winner. settle os fresh_id now contents file op winner e') loses
            ∙ local_settled os fresh_id now contents op file e' on_disk in
          let Left : W → W → Type 0 = λ before w.
            (w ≡ before)
            ⊎ ((out : SyncOperation) × (out.checksum ≡ file.checksum)
                × (w ≡ (os.broadcast out before).1)) in
          subst (λ (x : Engine W). Left e.world x.world) (sym kept)
            (subst
              (λ v.
                Left v
                  (broadcast_local os fresh_id file op (or_else file.vector_clock []) e').world)
              same (offered os fresh_id now contents op file e')),
    )

-- A version that does not conflict with what the database has: there is no row for its file, or one
-- with the same checksum, or one whose clock is strictly before.
pub data Applies {W : Type 0} (os : World W) (op : SyncOperation) (w : W) : Type 0 where
  unknown : (error : Str) → os.get_file_by_id op.file_id w ≡ failed error → Applies os op w
  repeated :
      (file : FileMetadata)
      → os.get_file_by_id op.file_id w ≡ returned file
      → file.checksum ≡ op.checksum
      → Applies os op w
  newer :
      (file : FileMetadata)
      → os.get_file_by_id op.file_id w ≡ returned file
      → Leq (or_else file.vector_clock []) (or_else op.vector_clock [])
      → (¬ Leq (or_else op.vector_clock []) (or_else file.vector_clock []))
      → Applies os op w

applies_write :
    {W : Type 0} (os : World W) (fresh_id : Str) (now : ℤ) (contents : List ℕ) (op : SyncOperation)
    (e : Engine W)
    → Applies os op e.world
    → incoming_write os fresh_id now contents op e ≡ apply_write os contents op e
unfolding incoming_write
applies_write os fresh_id now contents op e (unknown error gone) = ground (arith, gone)
applies_write os fresh_id now contents op e (repeated file known same) = ground (arith, known, same)
applies_write os fresh_id now contents op e (newer file known le not_ge) =
    elim (Bool-cases (file.checksum == op.checksum)) [
      | inl same ↦ ground (arith, known, same)
      | inr differ ↦
          let apart : file.checksum ≢ op.checksum = ground (arith, differ) in
          written os fresh_id now contents op file e known apart
          ∙ ap (λ winner. settle os fresh_id now contents file op winner e)
              (newer_wins os fresh_id now contents op file e le not_ge)
          ∙ remote_settled os fresh_id now contents op file e apart
    ]

-- A version that does not conflict is written to the disk, and then its row to the database.
pub incoming_applied :
    {W : Type 0} (os : World W) (fresh_id : Str) (now : ℤ) (contents : List ℕ) (op : SyncOperation)
    (e : Engine W) (w : W)
    → (op.type ≡ op_create) ⊎ (op.type ≡ op_update)
    → Applies os op e.world
    → os.write_file (os.join op.path) contents e.world ≡ (none, w)
    → (process_incoming_file os fresh_id now contents op e).world
      ≡ (os.insert_file (row_of os op) (os.set_file_id (os.join op.path) op.file_id w)).1
incoming_applied os fresh_id now contents op e w kind applies ok =
    let e' = merge_clock os op e in
    let same = merged_world os op e in
    ap (λ (x : Engine _). x.world)
      (processed os fresh_id now contents op e kind
        ∙ applies_write os fresh_id now contents op e' (subst (Applies os op) (sym same) applies))
    ∙ applied_at os contents op e' w (ap (os.write_file (os.join op.path) contents) same ∙ ok)
