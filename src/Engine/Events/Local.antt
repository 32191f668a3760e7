-- ===== src/Engine/Events/Local.antt =====
-- internal/sync/engine.go: how many operations an event of the file system brings about.
use p2p_folder_sync.Prelude.{
  ◌≡◌, refl, sym, ◌∙◌, ap, subst, ◌⊎◌, inl, inr, Bool-cases, Option-cases, some, ℕ, Str, bytes, ℤ,
  list_eq, nat_eq, ◌==◌, ◌||◌, arith,
}
use p2p_folder_sync.Prelude.Fallible.{Fallible-cases}
use p2p_folder_sync.Operation.{
  SyncOperation, new_sync_operation, op_create, op_update, op_delete, op_rename,
}
use p2p_folder_sync.VectorClock.{increment}
use p2p_folder_sync.Queue.{enqueue}
use p2p_folder_sync.Registry.{record_delete}
use p2p_folder_sync.Engine.{World, Engine, queue_operation}
use p2p_folder_sync.Engine.Receiving.Clocks.{books, counted, queued}
use p2p_folder_sync.Engine.Events.{
  Probe, identify, probe, record_local, local_row, moved_from, asked_detector, create_file,
  handle_create, handle_update, handle_delete, handle_file_event,
}

module _ {W : Type 0} (os : World W) where
  -- Nothing is queued and the clock stays, or one operation of this peer is counted and queued.
  abbrev pub AtMostOne : Engine W → Engine W → Type 0
  AtMostOne e after =
      (books after ≡ books e)
      ⊎ ((op : SyncOperation) × (op.source ≡ bytes "local")
          × (op.peer_id ≡ e.peer_id)
          × (books after ≡ counted os op (books e)))

  -- The operation is queued by an engine whose books are those of `e`.
  one :
      (e e' : Engine W) (op : SyncOperation)
      → books e' ≡ books e
      → op.source ≡ bytes "local"
      → op.peer_id ≡ e.peer_id
      → AtMostOne e (queue_operation os op e')
  one e e' op same local mine =
      inr (op, local, mine, queued os op e' local ∙ ap (counted os op) same)

  same_peer : (e e' : Engine W) → books e' ≡ books e → e'.peer_id ≡ e.peer_id
  same_peer e e' same = ap (λ b. b.2) same

  one-record_local :
      (fresh_id : Str) (now : ℤ) (kind : Str) (p : Probe) (e e' : Engine W)
      → books e' ≡ books e
      → AtMostOne e (record_local os fresh_id now kind p e')
  unfolding record_local new_sync_operation
  one-record_local fresh_id now kind p e e' same =
      elim (Option-cases (os.insert_file (local_row os now e'.peer_id p) e'.world).0) [
        | inl good ↦
            let w = (os.insert_file (local_row os now e'.peer_id p) e'.world).1 in
            let op : SyncOperation =
              record (new_sync_operation fresh_id now kind p.rel_path p.file_id e'.peer_id) {
                checksum = p.checksum;
                size = p.size;
              } in
            let inserted : Engine W = record e' { world = w } in
            let queued_it : record_local os fresh_id now kind p e'
                ≡ queue_operation os op inserted =
              ground (arith, good) in
            subst (AtMostOne e) (sym queued_it) (one e inserted op same refl (same_peer e e' same))
        | inr (_, bad) ↦ inl (ground (arith, bad, same))
      ]

  books-identify : (path : Str) (e : Engine W) → books (identify os path e).1 ≡ books e
  unfolding identify
  books-identify path e = elim (Fallible-cases (os.generate_file_id path e.peer_id e.world)) [
    | inl (_, bad) ↦ ground (arith, bad)
    | inr (_, good) ↦ ground (arith, good)
  ]

  books-probe : (path : Str) (e : Engine W) → books (probe os path e).1 ≡ books e
  unfolding probe
  books-probe path e =
      let same = books-identify path e in
      elim (Option-cases (identify os path e).0) [
        | inl gone ↦ ground (arith, gone, same)
        | inr (_, here) ↦ ground (arith, here, same)
      ]

  one-create_file :
      (fresh_id : Str) (now : ℤ) (p : Probe) (e e' : Engine W)
      → books e' ≡ books e
      → AtMostOne e (create_file os fresh_id now p e')
  unfolding create_file new_sync_operation asked_detector
  one-create_file fresh_id now p e e' same = elim (Option-cases (moved_from os p e')) [
    | inl stayed ↦
        let step : create_file os fresh_id now p e'
            ≡ record_local os fresh_id now op_create p (asked_detector os p e') =
          ground (arith, stayed) in
        subst (AtMostOne e) (sym step)
          (one-record_local fresh_id now op_create p e (asked_detector os p e') same)
    | inr (old_path, moved) ↦
        let op : SyncOperation =
          record (new_sync_operation fresh_id now op_rename p.rel_path p.file_id e'.peer_id) {
            from_path = some old_path;
            checksum = p.checksum;
            size = p.size;
          } in
        let step : create_file os fresh_id now p e' ≡ queue_operation os op e' =
          ground (arith, moved) in
        subst (AtMostOne e) (sym step) (one e e' op same refl (same_peer e e' same))
  ]

  one-create :
      (fresh_id : Str) (now : ℤ) (path : Str) (e : Engine W)
      → AtMostOne e (handle_create os fresh_id now path e)
  unfolding handle_create
  one-create fresh_id now path e =
      let same = books-probe path e in
      let e' = (probe os path e).1 in
      elim (Option-cases (probe os path e).0) [
        | inl gone ↦ inl (ground (arith, gone, same))
        | inr (p, here) ↦
            let step : handle_create os fresh_id now path e ≡ create_file os fresh_id now p e' =
              ground (arith, here) in
            subst (AtMostOne e) (sym step) (one-create_file fresh_id now p e e' same)
      ]

  one-update :
      (fresh_id : Str) (now : ℤ) (path : Str) (e : Engine W)
      → AtMostOne e (handle_update os fresh_id now path e)
  unfolding handle_update
  one-update fresh_id now path e =
      let same = books-probe path e in
      let e' = (probe os path e).1 in
      elim (Option-cases (probe os path e).0) [
        | inl gone ↦ inl (ground (arith, gone, same))
        | inr (p, here) ↦
            let step : handle_update os fresh_id now path e
                ≡ record_local os fresh_id now op_update p e' =
              ground (arith, here) in
            subst (AtMostOne e) (sym step) (one-record_local fresh_id now op_update p e e' same)
      ]

  one-delete :
      (clock : ℕ) (mtime_of : ℤ → ℕ) (fresh_id : Str) (now : ℤ) (path : Str) (e : Engine W)
      → AtMostOne e (handle_delete os clock mtime_of fresh_id now path e)
  unfolding handle_delete new_sync_operation
  one-delete clock mtime_of fresh_id now path e = elim (Fallible-cases (os.rel path)) [
    | inl (_, bad) ↦ inl (ground (arith, bad))
    | inr (rel_path, good) ↦ elim (Fallible-cases (os.get_file_by_path rel_path e.world)) [
      | inr (file, known) ↦
          let noted : Engine W = record e {
            rename_detector =
                record_delete clock file.file_id file.checksum path file.size (mtime_of file.mtime)
                  e.rename_detector;
          } in
          let op = new_sync_operation fresh_id now op_delete rel_path file.file_id e.peer_id in
          let step : handle_delete os clock mtime_of fresh_id now path e
              ≡ queue_operation os op noted =
            ground (arith, good, known) in
          subst (AtMostOne e) (sym step) (one e noted op refl refl refl)
      | inl (_, unknown) ↦ elim (Fallible-cases (os.generate_file_id path e.peer_id e.world)) [
        | inl (_, no_id) ↦ inl (ground (arith, good, unknown, no_id))
        | inr (file_id, new_id) ↦
            let op = new_sync_operation fresh_id now op_delete rel_path file_id e.peer_id in
            let step : handle_delete os clock mtime_of fresh_id now path e
                ≡ queue_operation os op e =
              ground (arith, good, unknown, new_id) in
            subst (AtMostOne e) (sym step) (one e e op refl refl refl)
      ]
    ]
  ]

  written_out :
      (e after : Engine W)
      → AtMostOne e after
      → ((after.vector_clock ≡ e.vector_clock) × (after.operation_queue ≡ e.operation_queue))
        ⊎ ((op : SyncOperation) × (op.source ≡ bytes "local")
            × (op.peer_id ≡ e.peer_id)
            × (op.vector_clock ≡ some after.vector_clock)
            × (after.vector_clock ≡ increment e.vector_clock e.peer_id)
            × (after.operation_queue ≡ enqueue e.operation_queue op.file_id op))
  unfolding counted
  written_out e after (inl same) = inl (ap (λ b. b.0) same, ap (λ b. b.1) same)
  written_out e after (inr (op, local, mine, same)) =
      let vc = increment e.vector_clock e.peer_id in
      inr (
        record op { vector_clock = some vc },
        local,
        mine,
        ap (λ b. some b.0) (sym same),
        ap (λ b. b.0) same,
        ap (λ b. b.1) same,
      )

  -- Whatever the event and however the file system and the database answer, an event of the file
  -- system leaves the engine's clock and queues as they are, or it counts once for this peer
  -- and puts one operation at the end of the queue of its file: a local one, of this peer, with
  -- the engine's new clock.
  pub handle_file_event_counts :
      (clock : ℕ) (mtime_of : ℤ → ℕ) (fresh_id : Str) (now : ℤ) (operation path : Str)
      (e : Engine W)
      → let after = handle_file_event os clock mtime_of fresh_id now operation path e in
        ((after.vector_clock ≡ e.vector_clock) × (after.operation_queue ≡ e.operation_queue))
        ⊎ ((op : SyncOperation) × (op.source ≡ bytes "local")
            × (op.peer_id ≡ e.peer_id)
            × (op.vector_clock ≡ some after.vector_clock)
            × (after.vector_clock ≡ increment e.vector_clock e.peer_id)
            × (after.operation_queue ≡ enqueue e.operation_queue op.file_id op))
  unfolding handle_file_event
  handle_file_event_counts clock mtime_of fresh_id now operation path e =
      let created =
        written_out e (handle_create os fresh_id now path e) (one-create fresh_id now path e) in
      let updated =
        written_out e (handle_update os fresh_id now path e) (one-update fresh_id now path e) in
      let deleted =
        written_out e (handle_delete os clock mtime_of fresh_id now path e)
          (one-delete clock mtime_of fresh_id now path e) in
      elim (Bool-cases (operation == bytes "create" || operation == bytes "rename")) [
        | inl is_so ↦ rw is_so created
        | inr not_so ↦ rw not_so (elim (Bool-cases (operation == bytes "update")) [
          | inl is_so ↦ rw is_so updated
          | inr not_so ↦ rw not_so (elim (Bool-cases (operation == bytes "delete")) [
            | inl is_so ↦ rw is_so deleted
            | inr not_so ↦ rw not_so (inl (refl, refl))
          ])
        ])
      ]
