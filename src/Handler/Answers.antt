-- ===== src/Handler/Answers.antt =====
-- internal/network/handler.go: the acknowledgment that answers a message.
use p2p_folder_sync.Prelude.{
  ◌≡◌, ◌≢◌, refl, ◌∙◌, sym, ap, subst, ◌⊎◌, inl, inr, Bool, true, false, Option, none, some, List,
  [], ◌∷◌, ◌++◌, length, Str, bytes, pos, list_eq, nat_eq, int_eq, ◌==◌, ◌||◌, arith, Bool-cases,
  Option-cases, ℕ,
}
use p2p_folder_sync.Prelude.Dict.{lookup, insert}
use p2p_folder_sync.Prelude.Fallible.{Fallible-cases}
use p2p_folder_sync.Chunking.{verify_chunk_hash, assemble_chunks, AssemblyError}
use p2p_folder_sync.Chunking as Chunking
use p2p_folder_sync.Connection.{Connection, Connections}
use p2p_folder_sync.Operation.{SyncOperation, op_create, op_update, op_delete, op_rename}
use p2p_folder_sync.Messages.{
  LogEntryPayload, ChunkMessage, AckMessage, Message, new_message, operation_ack, chunk_ack,
  type_chunk_ack, type_operation_ack, Stamp, Payload, log_entry, chunk_message, type_chunk,
  type_sync_operation,
}
use p2p_folder_sync.Handler.{
  Env, Handler, Outcome, returns, panics, send_acknowledgment, plain_data, hand_over, report,
  to_operation, expect_chunks, handle_write, handle_rename, handle_sync_operation, to_chunk,
  assembled_operation, forget_chunks, handle_assembled, stored_chunks, handle_chunk, with_log_entry,
  with_chunk, handle_message, ack_payload,
}

Result-cases :
    {A : Type 0} (m : Chunking.Result A)
    → ((e : AssemblyError) × (m ≡ Chunking.err e)) ⊎ ((a : A) × (m ≡ Chunking.ok a))
Result-cases (Chunking.ok a) = inr (a, refl)
Result-cases (Chunking.err e) = inl (e, refl)

module _ {S : Type 0} (env : Env S) (msg : Message) (connections : Connections) (conn : Connection)
    (here : lookup msg.sender_id connections ≡ some conn) (h : Handler S) where
  -- A report of a success has no error text, a report of a failure has one.
  abbrev Honest : Bool → Str → Type 0
  Honest success error = ((success ≡ true) × (error ≡ [])) ⊎ ((success ≡ false) × (error ≢ []))

  -- An acknowledgment of the message, a chunk's or an operation's as the message is.
  pub record Acknowledges (ack : Message) : Type 0 where
    pub names : ack.correlation_id ≡ some msg.id
    pub from_here : ack.sender_id ≡ h.peer_id
    pub reports :
        (report : AckMessage) × Honest report.success report.error
        × (((msg.type ≡ type_chunk)
              × (ack.type ≡ type_chunk_ack)
              × (ack.payload ≡ chunk_ack report))
            ⊎ ((msg.type ≢ type_chunk)
                × (ack.type ≡ type_operation_ack)
                × (ack.payload ≡ operation_ack report)))

  -- A call that ends without an error has sent one message more, to the sender, about the message.
  abbrev pub Answered : Outcome S → Type 0
  Answered (returns none h') =
      (ack : Message) × (h'.sent ≡ (msg.sender_id, ack) ∷ h.sent) × Acknowledges ack
  Answered (returns (some e) h') = Unit {0}
  Answered panics = Unit {0}

  -- Nothing was sent yet, and the sender can be answered.
  record Ready (g : Handler S) : Type 0 where
    quiet : g.sent ≡ h.sent
    manager : g.conn_manager ≡ some connections
    transport : g.transport ≡ true
    name : g.peer_id ≡ h.peer_id

  payload_reports :
      (stamp : Stamp) (success : Bool) (error : Str) (g : Handler S)
      → Honest success error
      → Ready g
      → Acknowledges (record (ack_payload env msg.type success error stamp g.peer_id) {
        correlation_id = some msg.id;
      })
  unfolding ack_payload new_message
  payload_reports stamp success error g honest r =
      let report : AckMessage = record { success = success; error = error } in
      elim (Bool-cases (msg.type == type_chunk)) [
        | inl chunk ↦ record {
          names = refl;
          from_here = ground (arith, chunk, r.name);
          reports = (
            report,
            honest,
            inl (ground (arith, chunk), ground (arith, chunk), ground (arith, chunk)),
          );
        }
        | inr other ↦ record {
          names = refl;
          from_here = ground (arith, other, r.name);
          reports = (
            report,
            honest,
            inr (ground (arith, other), ground (arith, other), ground (arith, other)),
          );
        }
      ]

  acknowledged :
      (stamp : Stamp) (success : Bool) (error : Str) (g : Handler S)
      → Honest success error
      → Ready g
      → Answered (send_acknowledgment env stamp msg success error g)
  unfolding send_acknowledgment
  acknowledged stamp success error g honest r =
      let ack = record (ack_payload env msg.type success error stamp g.peer_id) {
        correlation_id = some msg.id;
      } in
      rw (r.manager) (
        rw (r.transport) (
          rw here (elim (Option-cases (env.send msg.sender_id ack)) [
            | inl sent ↦ rw sent (
              ack,
              ap (λ l. (msg.sender_id, ack) ∷ l) r.quiet,
              payload_reports stamp success error g honest r,
            )
            | inr (e, bad) ↦ rw bad tt
          ])))

  accepted :
      (stamp : Stamp) (g : Handler S)
      → Ready g
      → Answered (send_acknowledgment env stamp msg true [] g)
  accepted stamp g r = acknowledged stamp true [] g (inl (refl, refl)) r

  refused :
      (stamp : Stamp) (complaint error : Str) (g : Handler S)
      → complaint ≢ []
      → Ready g
      → Answered (send_acknowledgment env stamp msg false (complaint ++ error) g)
  refused stamp [] error g said r = absurd (said refl)
  refused stamp (c ∷ complaint) error g said r =
      acknowledged stamp false (c ∷ (complaint ++ error)) g (inr (refl, λ e. cc)) r

  reported :
      (stamp : Stamp) (complaint : Str) (error : Option Str) (g : Handler S)
      → complaint ≢ []
      → Ready g
      → Answered (report env stamp msg complaint error g)
  unfolding report
  reported stamp complaint none g said r = accepted stamp g r
  reported stamp complaint (some e) g said r = refused stamp complaint e g said r

  handed_over :
      (stamp : Stamp) (complaint : Str) (contents : List ℕ) (op : SyncOperation) (g : Handler S)
      → complaint ≢ []
      → Ready g
      → Answered (hand_over env stamp msg complaint contents op g)
  unfolding hand_over
  handed_over stamp complaint contents op g said r = elim (Option-cases g.sync_engine) [
    | inl gone ↦ rw gone tt
    | inr (s, engine) ↦ rw engine (
        reported stamp complaint (env.incoming_file contents op s).0 _ said
          (record { quiet = r.quiet; manager = r.manager; transport = r.transport; name = r.name }))
  ]

  -- By the equation of the branch that is taken.
  by : {o o' : Outcome S} → o ≡ o' → Answered o' → Answered o
  by e a = subst Answered (sym e) a

  written :
      (stamp : Stamp) (contents : List ℕ) (op : SyncOperation) (g : Handler S)
      → Ready g
      → Answered (handle_write env stamp msg contents op g)
  unfolding handle_write expect_chunks
  written stamp contents op g r = elim (Bool-cases (length contents == 0)) [
    | inl large ↦ by (ground (arith, large)) (
        accepted stamp (expect_chunks env op g)
          (record { quiet = r.quiet; manager = r.manager; transport = r.transport; name = r.name }))
    | inr small ↦ elim (Fallible-cases (plain_data env contents op)) [
      | inl (e, bad) ↦
          by (ground (arith, small, bad))
            (refused stamp (bytes "decompression failed: ") (e) g (λ n. cc) r)
      | inr (plain, good) ↦ elim (Option-cases g.sync_engine) [
        | inl gone ↦
            by (ground (arith, small, good, gone)) (
              acknowledged stamp false (bytes "sync engine not available") g (inr (refl, λ n. cc))
                r)
        | inr (s, engine) ↦
            by (ground (arith, small, good, engine))
              (handed_over stamp (bytes "file handling failed: ") plain op g (λ n. cc) r)
      ]
    ]
  ]

  renamed :
      (stamp : Stamp) (op : SyncOperation) (g : Handler S)
      → Ready g
      → Answered (handle_rename env stamp msg op g)
  unfolding handle_rename
  renamed stamp op g r = elim (Option-cases g.sync_engine) [
    | inl gone ↦ elim (Option-cases op.from_path) [
      | inl missing ↦ by (ground (arith, gone, missing)) (
          acknowledged stamp false
            (bytes "rename handling failed: rename operation missing FromPath") g
            (inr (refl, λ n. cc)) r)
      | inr (p, given) ↦ by {o' = panics} (ground (arith, gone, given)) tt
    ]
    | inr (s, engine) ↦
        let (error, s') = env.incoming_rename op s in
        by (ground (arith, engine)) (
          reported stamp (bytes "rename handling failed: ") error
            (record g { sync_engine = some s' }) (λ n. cc)
            (record {
              quiet = r.quiet;
              manager = r.manager;
              transport = r.transport;
              name = r.name;
            }))
  ]

  operated :
      (stamp : Stamp) (p : LogEntryPayload)
      → Ready h
      → Answered (handle_sync_operation env stamp msg p h)
  unfolding handle_sync_operation
  operated stamp p r = elim (Option-cases (to_operation p)) [
    | inl gone ↦ by {o' = panics} (ground (arith, gone)) tt
    | inr (op, made) ↦ elim (Bool-cases (op.type == op_create || op.type == op_update)) [
      | inl write ↦ by (ground (arith, made, write)) (written stamp p.data_bytes op h r)
      | inr other ↦ elim (Bool-cases (op.type == op_delete)) [
        | inl delete ↦
            by (ground (arith, made, other, delete))
              (handed_over stamp (bytes "delete handling failed: ") [] op h (λ n. cc) r)
        | inr kept ↦ elim (Bool-cases (op.type == op_rename)) [
          | inl rename ↦ by (ground (arith, made, other, kept, rename)) (renamed stamp op h r)
          | inr unknown ↦ by (ground (arith, made, other, kept, unknown)) (accepted stamp h r)
        ]
      ]
    ]
  ]

  assembled :
      (stamp : Stamp) (p : ChunkMessage) (contents : List ℕ) (g : Handler S)
      → Ready g
      → Answered (handle_assembled env stamp msg p contents g)
  unfolding handle_assembled forget_chunks
  assembled stamp p contents g r =
      let op = assembled_operation env msg p contents g in
      let g' = forget_chunks env p.file_id g in
      let r' : Ready g' = record {
        quiet = r.quiet;
        manager = r.manager;
        transport = r.transport;
        name = r.name;
      } in
      elim (Fallible-cases (plain_data env contents op)) [
        | inl (e, bad) ↦
            by (ground (arith, bad))
              (refused stamp (bytes "decompression failed: ") (e) g' (λ n. cc) r')
        | inr (plain, good) ↦
            by (ground (arith, good)) (
              handed_over stamp (bytes "assembled file handling failed: ") plain op g' (λ n. cc) r')
      ]

  chunked : (stamp : Stamp) (p : ChunkMessage) → Ready h → Answered (handle_chunk env stamp msg p h)
  unfolding handle_chunk
  chunked stamp p r =
      let chunks = stored_chunks env p h in
      let h' : Handler S = record h {
        assembled_chunks = insert p.file_id chunks h.assembled_chunks;
      } in
      let r' : Ready h' = record {
        quiet = r.quiet;
        manager = r.manager;
        transport = r.transport;
        name = r.name;
      } in
      elim (Result-cases (verify_chunk_hash env.hash (to_chunk p))) [
        | inl (e, bad) ↦ by (ground (arith, bad)) (
            refused stamp (bytes "chunk hash verification failed: ") (env.error_text e) h (λ n. cc)
              r)
        | inr (_, good) ↦ elim (Bool-cases (pos (length chunks) == p.total_chunks)) [
          | inr some_left ↦ by (ground (arith, good, some_left)) (accepted stamp h' r')
          | inl all ↦ elim (Result-cases (assemble_chunks env.hash chunks p.file_hash)) [
            | inl (e, bad) ↦
                by (ground (arith, good, all, bad)) (
                  refused stamp (bytes "file assembly failed: ") (env.error_text e) h' (λ n. cc) r')
            | inr (contents, whole) ↦
                by (ground (arith, good, all, whole)) (assembled stamp p contents h' r')
          ]
        ]
      ]

  operation-Answered :
      (stamp : Stamp) (payload : Payload)
      → Ready h
      → Answered (with_log_entry env stamp msg payload h)
  unfolding with_log_entry
  operation-Answered stamp (log_entry p) r = operated stamp p r
  operation-Answered stamp _ r = tt

  chunk-Answered :
      (stamp : Stamp) (payload : Payload) → Ready h → Answered (with_chunk env stamp msg payload h)
  unfolding with_chunk
  chunk-Answered stamp (chunk_message p) r = chunked stamp p r
  chunk-Answered stamp _ r = tt

  operation_routed :
      (stamp : Stamp)
      → msg.type ≡ type_sync_operation
      → handle_message env stamp msg h ≡ with_log_entry env stamp msg msg.payload h
  unfolding handle_message list_eq nat_eq
  operation_routed stamp kind = rw (kind) refl

  chunk_routed :
      (stamp : Stamp)
      → msg.type ≡ type_chunk
      → handle_message env stamp msg h ≡ with_chunk env stamp msg msg.payload h
  unfolding handle_message list_eq nat_eq
  chunk_routed stamp kind = rw (kind) refl

  -- A message with an operation or a chunk is answered: where the sender has a connection, and there
  -- is a transport, handling it without an error and without a panic has sent exactly one message
  -- more, to the sender: an acknowledgment from this peer that names the message. It is a chunk's
  -- acknowledgment for a chunk and an operation's for an operation, by type and payload, and reports
  -- a success without an error text or a failure with one.
  pub handle_message_answers :
      (stamp : Stamp) (h' : Handler S)
      → (msg.type ≡ type_sync_operation) ⊎ (msg.type ≡ type_chunk)
      → h.conn_manager ≡ some connections
      → h.transport ≡ true
      → handle_message env stamp msg h ≡ returns none h'
      → (ack : Message) × (h'.sent ≡ (msg.sender_id, ack) ∷ h.sent) × Acknowledges ack
  handle_message_answers stamp h' kind manager transport done =
      let r : Ready h = record {
        quiet = refl;
        manager = manager;
        transport = transport;
        name = refl;
      } in
      elim kind [
        | inl op ↦
            subst Answered (sym (operation_routed stamp op) ∙ done)
              (operation-Answered stamp msg.payload r)
        | inr chunk ↦
            subst Answered (sym (chunk_routed stamp chunk) ∙ done)
              (chunk-Answered stamp msg.payload r)
      ]
