-- ===== src/Handler/Receiving.antt =====
-- internal/network/handler.go: messages handled one after the other, and what a call leaves alone.
use p2p_folder_sync.Prelude.{
  ◌≡◌, refl, sym, subst, ◌∙◌, ◌⊎◌, inl, inr, Bool, true, false, Option, none, some, List, [], ◌∷◌,
  ◌++◌, Str, list_eq, nat_eq, int_eq, arith, bytes, Option-cases,
}
use p2p_folder_sync.Prelude.Dict.{Dict, lookup, insert, erase, lookup-insert, lookup-erase}
use p2p_folder_sync.Operation.{SyncOperation, op_create, op_update}
use p2p_folder_sync.Messages.{
  ChunkMessage, LogEntryPayload, Message, Stamp, log_entry, chunk_message, new_message, type_chunk,
  type_sync_operation,
}
use p2p_folder_sync.Messenger.Sending.{log_entry_of}
use p2p_folder_sync.Handler.{
  Env, Handler, Outcome, returns, panics, send_acknowledgment, report, to_operation, expect_chunks,
  handle_write, handle_sync_operation, handle_chunk, with_log_entry, with_chunk, handle_message,
}

-- The operation that the receiver makes of a message's metadata.
abbrev pub received : SyncOperation → SyncOperation
received op = record op {
  source = bytes "remote";
  from_path = none;
  mode = none;
  data_bytes = [];
  chunk_id = none;
  is_last = none;
  compression_level = none;
}

received_lem : (op : SyncOperation) → to_operation (log_entry_of [] op) ≡ some (received op)
unfolding to_operation log_entry_of
received_lem op = refl

module _ {V : Type 0} where
  pub lookup_inserted : (k : Str) (v : V) (d : Dict Str V) → lookup k (insert k v d) ≡ some v
  lookup_inserted k v d = ground (arith, lookup-insert k k v d)

  pub lookup_erased : (k : Str) (d : Dict Str V) → lookup k (erase k d) ≡ none
  lookup_erased k d = ground (arith, lookup-erase k k d)

module _ {S : Type 0} (env : Env S) where
  -- Messages handled one after the other; a panic ends the program.
  unfoldable pub receive_all : List (Stamp × Message) → Handler S → Option (Handler S)
  receive_all [] h = some h
  receive_all ((stamp, msg) ∷ rest) h =
      let after = λ (h' : Handler S). receive_all rest h' in
      elim (handle_message env stamp msg h) [ panics ↦ none | returns e h' ↦ after h' ]

  -- The parts of a handler that decide what becomes of a file's chunks.
  pub record Same (g h : Handler S) : Type 0 where
    pub engine : g.sync_engine ≡ h.sync_engine
    pub chunks : g.assembled_chunks ≡ h.assembled_chunks
    pub metadata : g.chunk_metadata ≡ h.chunk_metadata

  -- A call that does not panic, and changes none of them.
  abbrev pub Quiet : Handler S → Outcome S → Type 0
  Quiet h (returns e h') = Same h' h
  Quiet h panics = ⊥

  pub acknowledged :
      (stamp : Stamp) (msg : Message) (success : Bool) (error : Str) (h : Handler S)
      → Quiet h (send_acknowledgment env stamp msg success error h)
  unfolding send_acknowledgment
  acknowledged stamp msg success error h = elim (Option-cases h.conn_manager) [
    | inl gone ↦ rw gone (record { engine = refl; chunks = refl; metadata = refl })
    | inr (connections, here) ↦ rw here (ground arith)
  ]

  pub reported :
      (stamp : Stamp) (msg : Message) (complaint : Str) (error : Option Str) (h : Handler S)
      → Quiet h (report env stamp msg complaint error h)
  unfolding report
  reported stamp msg complaint none h = acknowledged stamp msg true [] h
  reported stamp msg complaint (some e) h = acknowledged stamp msg false (complaint ++ e) h

  pub Quiet-returns :
      (h : Handler S) (o : Outcome S)
      → Quiet h o
      → (e : Option Str) × (h' : Handler S) × (o ≡ returns e h') × Same h' h
  Quiet-returns h (returns e h') q = (e, h', refl, q)
  Quiet-returns h panics q = absurd q

  pub receive_step :
      (stamp : Stamp) (msg : Message) (rest : List (Stamp × Message)) (e : Option Str)
      (h h' : Handler S)
      → handle_message env stamp msg h ≡ returns e h'
      → receive_all ((stamp, msg) ∷ rest) h ≡ receive_all rest h'
  unfolding receive_all
  receive_step stamp msg rest e h h' same = ground (arith, same)

  operation_dispatched :
      (stamp sent_at : Stamp) (sender : Str) (p : LogEntryPayload) (h : Handler S)
      → let msg = new_message sent_at type_sync_operation sender (log_entry p) in
        handle_message env stamp msg h ≡ handle_sync_operation env stamp msg p h
  unfolding handle_message with_log_entry new_message list_eq nat_eq
  operation_dispatched stamp sent_at sender p h = refl

  pub chunk_dispatched :
      (stamp sent_at : Stamp) (sender : Str) (p : ChunkMessage) (h : Handler S)
      → let msg = new_message sent_at type_chunk sender (chunk_message p) in
        handle_message env stamp msg h ≡ handle_chunk env stamp msg p h
  unfolding handle_message with_chunk new_message list_eq nat_eq
  chunk_dispatched stamp sent_at sender p h = refl

  -- The metadata message: the operation is kept for the chunks, and older chunks are dropped.
  pub metadata_kept :
      (stamp sent_at : Stamp) (sender : Str) (op : SyncOperation) (h : Handler S)
      → (op.type ≡ op_create) ⊎ (op.type ≡ op_update)
      → Quiet (expect_chunks env (received op) h) (
          handle_message env stamp
            (new_message sent_at type_sync_operation sender (log_entry (log_entry_of [] op)))
            h)
  unfolding handle_sync_operation handle_write
  metadata_kept stamp sent_at sender op h kind =
      let p = log_entry_of [] op in
      let msg = new_message sent_at type_sync_operation sender (log_entry p) in
      let kept = expect_chunks env (received op) h in
      let empty : p.data_bytes ≡ [] = unfold log_entry_of in refl in
      let same : handle_sync_operation env stamp msg p h
          ≡ send_acknowledgment env stamp msg true [] kept =
        ground (arith, received_lem op, kind, empty) in
      subst (Quiet kept) (sym same ∙ sym (operation_dispatched stamp sent_at sender p h))
        (acknowledged stamp msg true [] kept)
