-- ===== src/Engine/Receiving/Clocks.antt =====
-- internal/sync/engine.go: the vector clock of the engine over its operations.
use p2p_folder_sync.Prelude.{
  ◌≡◌, sym, ◌∙◌, ap, subst, inl, inr, Bool-cases, Option-cases, some, List, [], ◌∷◌, ◌++◌, ℕ, Str,
  bytes, ℤ, negsuc, ◌<ℤ◌, list_eq, nat_eq, arith, or_else, int64_max,
}
use p2p_folder_sync.Prelude.Fallible.{Fallible-cases}
use p2p_folder_sync.VectorClock.{VectorClock, get, merge, increment, compare}
use p2p_folder_sync.VectorClock.Merge.{IsClock, receive_then_send}
use p2p_folder_sync.Queue.{Queues, enqueue, queue_of}
use p2p_folder_sync.Queue.Laws.{queue_of-enqueue}
use p2p_folder_sync.Conflict as Conflict
use p2p_folder_sync.Operation.{SyncOperation}
use p2p_folder_sync.Rows.{FileMetadata}
use p2p_folder_sync.Engine.{
  World, Engine, send_out, stamped, queue_operation, log_entry_of_operation,
}
use p2p_folder_sync.Engine.Receiving.{
  merge_clock, apply_write, apply_merge, broadcast_local, local_version, merged_version,
  merged_operation, settle, winner_of, incoming_write, incoming_delete, process_incoming_file,
}

-- What only a local operation or a received clock changes.
abbrev pub books : {W : Type 0} → Engine W → VectorClock × Queues SyncOperation × Str
books e = (e.vector_clock, e.operation_queue, e.peer_id)

module _ {W : Type 0} (os : World W) where
  books-send_out : (op : SyncOperation) (e : Engine W) → books (send_out os op e) ≡ books e
  unfolding send_out
  books-send_out op e = elim (Bool-cases e.messenger) [
    | inl on ↦ ground (arith, on)
    | inr off ↦ ground (arith, off)
  ]

  books-apply_write :
      (contents : List ℕ) (op : SyncOperation) (e : Engine W)
      → books (apply_write os contents op e) ≡ books e
  unfolding apply_write
  books-apply_write contents op e =
      elim (Option-cases (os.write_file (os.join op.path) contents e.world).0) [
        | inl good ↦ ground (arith, good)
        | inr (_, bad) ↦ ground (arith, bad)
      ]

  books-broadcast_local :
      (fresh_id : Str) (file : FileMetadata) (op : SyncOperation) (vc : VectorClock) (e : Engine W)
      → books (broadcast_local os fresh_id file op vc e) ≡ books e
  unfolding broadcast_local
  books-broadcast_local fresh_id file op vc e =
      elim (Fallible-cases (os.read_file (os.join op.path) e.world)) [
        | inl (_, bad) ↦ ground (arith, bad)
        | inr (b, good) ↦
            ground
              (arith, good, books-send_out (local_version os fresh_id file op vc e.peer_id b) e)
      ]

  books-apply_merge :
      (fresh_id : Str) (now : ℤ) (winner : Conflict.SyncOperation) (op : SyncOperation)
      (e : Engine W)
      → books (apply_merge os fresh_id now winner op e) ≡ books e
  unfolding apply_merge
  books-apply_merge fresh_id now winner op e =
      books-send_out (merged_version os fresh_id now winner op e.peer_id)
        (apply_write os winner.data_bytes (merged_operation os winner op) e)
      ∙ books-apply_write winner.data_bytes (merged_operation os winner op) e

  books-settle :
      (fresh_id : Str) (now : ℤ) (contents : List ℕ) (file : FileMetadata) (op : SyncOperation)
      (winner : Conflict.SyncOperation) (e : Engine W)
      → books (settle os fresh_id now contents file op winner e) ≡ books e
  unfolding settle
  books-settle fresh_id now contents file op winner e =
      let a = books-broadcast_local fresh_id file op (or_else file.vector_clock []) e in
      let b = books-apply_write contents op e in
      let c = books-apply_merge fresh_id now winner op e in ground (arith, a, b, c)

  books-incoming_write :
      (fresh_id : Str) (now : ℤ) (contents : List ℕ) (op : SyncOperation) (e : Engine W)
      → books (incoming_write os fresh_id now contents op e) ≡ books e
  unfolding incoming_write
  books-incoming_write fresh_id now contents op e =
      let a = books-apply_write contents op e in
      elim (Fallible-cases (os.get_file_by_id op.file_id e.world)) [
        | inl (_, bad) ↦ ground (arith, bad, a)
        | inr (file, good) ↦
            let b =
              books-settle fresh_id now contents file op (winner_of os contents file op e) e in
            ground (arith, good, a, b)
      ]

  books-incoming_delete :
      (op : SyncOperation) (e : Engine W) → books (incoming_delete os op e) ≡ books e
  unfolding incoming_delete
  books-incoming_delete op e = elim (Option-cases (os.remove_file (os.join op.path) e.world).0) [
    | inl good ↦ ground (arith, good)
    | inr (_, bad) ↦ ground (arith, bad)
  ]

  books-process :
      (fresh_id : Str) (now : ℤ) (contents : List ℕ) (op : SyncOperation) (e : Engine W)
      → books (process_incoming_file os fresh_id now contents op e) ≡ books (merge_clock os op e)
  unfolding process_incoming_file
  books-process fresh_id now contents op e =
      let a = books-incoming_write fresh_id now contents op (merge_clock os op e) in
      let b = books-incoming_delete op (merge_clock os op e) in ground (arith, a, b)

  clock_merged :
      (op : SyncOperation) (e : Engine W)
      → books (merge_clock os op e)
        ≡ (merge e.vector_clock (or_else op.vector_clock []), e.operation_queue, e.peer_id)
  unfolding merge_clock merge
  clock_merged op e = elim (Option-cases op.vector_clock) [
    | inl gone ↦ ground (arith, gone)
    | inr (_, here) ↦ ground (arith, here)
  ]

  stamped_local :
      (op : SyncOperation) (e : Engine W)
      → op.source ≡ bytes "local"
      → let vc = increment e.vector_clock e.peer_id in
        stamped os op e ≡ (record op { vector_clock = some vc }, record e { vector_clock = vc })
  unfolding stamped
  stamped_local op e local = ground (arith, local)

  -- The books after a local operation.
  unfoldable pub counted :
      SyncOperation
      → VectorClock × Queues SyncOperation × Str
      → VectorClock × Queues SyncOperation × Str
  counted op (vc, queues, peer_id) =
      let vc' = increment vc peer_id in
      (vc', enqueue queues op.file_id (record op { vector_clock = some vc' }), peer_id)

  pub queued :
      (op : SyncOperation) (e : Engine W)
      → op.source ≡ bytes "local"
      → books (queue_operation os op e) ≡ counted op (books e)
  unfolding queue_operation counted log_entry_of_operation
  queued op e local =
      let sent = stamped os op e in
      books-send_out sent.0 (record sent.1 {
        operation_queue = enqueue sent.1.operation_queue sent.0.file_id sent.0;
        world = (os.append_operation (log_entry_of_operation os sent.0) sent.1.world).1;
      })
      ∙ ap
          (λ (s : SyncOperation × Engine W).
            (s.1.vector_clock, enqueue s.1.operation_queue s.0.file_id s.0, s.1.peer_id))
          (stamped_local op e local)

-- A local operation after an incoming one: it is put at the end of the queue of its file, with a
-- clock that is the new clock of the engine, and that is strictly after both the clock the engine had
-- and the clock of the incoming operation. Both are assumed to be clocks of events (each peer once, no
-- counter below 0; a missing clock is an empty one), and the peer's own merged counter to be below
-- the int64 limit. Whether the incoming operation is applied, refused or fails does not matter.
pub local_after_remote :
    {W : Type 0} (os : World W) (fresh_id : Str) (now : ℤ) (contents : List ℕ)
    (incoming local : SyncOperation) (e : Engine W)
    → local.source ≡ bytes "local"
    → IsClock e.vector_clock
    → IsClock (or_else incoming.vector_clock [])
    → get (merge e.vector_clock (or_else incoming.vector_clock [])) e.peer_id <ℤ int64_max
    → let after =
        queue_operation os local (process_incoming_file os fresh_id now contents incoming e) in
      let f = local.file_id in
      (queue_of after.operation_queue f
        ≡ queue_of e.operation_queue f
          ++ (record local { vector_clock = some after.vector_clock }) ∷ [])
      × (compare e.vector_clock after.vector_clock ≡ negsuc 0)
      × (compare (or_else incoming.vector_clock []) after.vector_clock ≡ negsuc 0)
unfolding counted
local_after_remote {W} os fresh_id now contents incoming local e is_local mine theirs small =
    let e' = process_incoming_file os fresh_id now contents incoming e in
    let kept =
      queued os local e' is_local
      ∙ ap (counted os local)
          (books-process os fresh_id now contents incoming e ∙ clock_merged os incoming e) in
    let vc = increment (merge e.vector_clock (or_else incoming.vector_clock [])) e.peer_id in
    let later =
      receive_then_send e.vector_clock (or_else incoming.vector_clock []) e.peer_id mine theirs
        small in
    let f = local.file_id in
    let Good : VectorClock × Queues SyncOperation × Str → Type 0 = λ b.
      (queue_of b.1 f
        ≡ queue_of e.operation_queue f ++ (record local { vector_clock = some b.0 }) ∷ [])
      × (compare e.vector_clock b.0 ≡ negsuc 0)
      × (compare (or_else incoming.vector_clock []) b.0 ≡ negsuc 0) in
    subst Good (sym kept) (
      ground
          (arith, queue_of-enqueue e.operation_queue f f (record local { vector_clock = some vc })),
      later.0,
      later.1,
    )
