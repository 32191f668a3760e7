-- ===== src/Handler/Delivery.antt =====
-- internal/network/handler.go with messenger.go: a large file that is sent as chunks.
use mathlib.Core.List.{Perm}
use p2p_folder_sync.Prelude.{
  ℕ, suc, ◌+◌, ◌≡◌, refl, ap, sym, subst, ◌∙◌, ◌⊎◌, Bool, true, false, ◌&&◌, none, some, List, [],
  ◌∷◌, ◌++◌, length, Str, pos, list_eq, nat_eq, int_eq, arith, or_else, append_assoc, length-append,
  bytes, ◌<◌, ◌≤◌, ◌^◌, ◌≢◌,
}
use p2p_folder_sync.Prelude.Dict.{lookup, insert, erase}
use p2p_folder_sync.Prelude.Fallible.{returned}
use p2p_folder_sync.Chunking.{Chunk, AssemblyError, chunk_file, assemble_chunks, verify_chunk_hash}
use p2p_folder_sync.Chunking as Chunking
use p2p_folder_sync.Chunking.Made.{all_made, made, made-Perm, length-Perm, chunk_file-made}
use p2p_folder_sync.Chunking.Assembly.{assemble-chunk_file}
use p2p_folder_sync.Operation.{SyncOperation, op_create, op_update}
use p2p_folder_sync.Messages.{
  Message, Stamp, log_entry, chunk_message, new_message, type_chunk, type_sync_operation,
}
use p2p_folder_sync.Messenger.Sending.{log_entry_of, chunk_message_of}
use p2p_folder_sync.Handler.{
  Env, Handler, send_acknowledgment, plain_data, hand_over, report, expect_chunks, to_chunk,
  assembled_operation, forget_chunks, handle_assembled, stored_chunks, handle_chunk, handle_message,
}
use p2p_folder_sync.Handler.Receiving.{
  received, lookup_inserted, lookup_erased, receive_all, Quiet, acknowledged, reported,
  Quiet-returns, receive_step, chunk_dispatched, metadata_kept,
}

made_parts :
    (hash : List ℕ → Str) (f : Str) (n : ℕ) (c : Chunk) (cs : List Chunk)
    → all_made hash f n (c ∷ cs) ≡ true
    → (made hash f n c ≡ true) × (all_made hash f n cs ≡ true)
made_parts hash f n c cs e = and_parts (made hash f n c) (all_made hash f n cs) e
  where
    and_parts : (x y : Bool) → (x && y) ≡ true → (x ≡ true) × (y ≡ true)
    and_parts true y h = (refl, h)
    and_parts false y h = cc

assembled_nonempty :
    (hash : List ℕ → Str) (arrived : List Chunk) (contents : List ℕ)
    → assemble_chunks hash arrived (hash contents) ≡ Chunking.ok contents
    → arrived ≢ []
unfolding assemble_chunks
assembled_nonempty hash [] contents e = cc
assembled_nonempty hash (c ∷ cs) contents e = λ k. cc

module _ {S : Type 0} (env : Env S) where
  module _ (f : Str) (contents : List ℕ) where
    abbrev chunk_arrival : Str → Stamp → Chunk → Message
    chunk_arrival sender sent_at c =
        new_message sent_at type_chunk sender
          (chunk_message (chunk_message_of (env.hash contents) c))

    abbrev collected : Handler S → List Chunk
    collected h = or_else (lookup f h.assembled_chunks) []

    abbrev with_chunks : List Chunk → Handler S → Handler S
    with_chunks cs h = record h { assembled_chunks = insert f cs h.assembled_chunks }

    -- What the handler tests of a chunk that `ChunkFile` made.
    record Intact (n : ℕ) (c : Chunk) : Type 0 where
      whole : to_chunk (chunk_message_of (env.hash contents) c) ≡ c
      verified : verify_chunk_hash env.hash c ≡ Chunking.ok tt
      of_file : (chunk_message_of (env.hash contents) c).file_id ≡ f
      of_many : (chunk_message_of (env.hash contents) c).total_chunks ≡ pos n
      of_contents : (chunk_message_of (env.hash contents) c).file_hash ≡ env.hash contents

    made-Intact : (n : ℕ) (c : Chunk) → made env.hash f n c ≡ true → Intact n c
    unfolding to_chunk chunk_message_of verify_chunk_hash
    made-Intact n c good = ground (arith, good)

    -- A chunk that is not the last to come is stored behind the others.
    chunk_stored :
        (stamp sent_at : Stamp) (sender : Str) (n : ℕ) (c : Chunk) (h : Handler S)
        → Intact n c
        → suc (length (collected h)) ≢ n
        → Quiet env
            (with_chunks (collected h ++ c ∷ []) h)
            (handle_message env stamp (chunk_arrival sender sent_at c) h)
    unfolding handle_chunk stored_chunks
    chunk_stored stamp sent_at sender n c h i more =
        let p = chunk_message_of (env.hash contents) c in
        let msg = chunk_arrival sender sent_at c in
        let h' = with_chunks (collected h ++ c ∷ []) h in
        let same : handle_chunk env stamp msg p h ≡ send_acknowledgment env stamp msg true [] h' =
          ground (arith, i, more, length-append (collected h) (c ∷ [])) in
        subst (Quiet env h') (sym same ∙ sym (chunk_dispatched env stamp sent_at sender p h))
          (acknowledged env stamp msg true [] h')

    -- The last chunk: the file is assembled and handed to the engine, and its entries are deleted.
    file_completed :
        (stamp sent_at : Stamp) (sender : Str) (n : ℕ) (c : Chunk) (h : Handler S)
        (kept : SyncOperation) (plain : List ℕ) (s : S)
        → Intact n c
        → suc (length (collected h)) ≡ n
        → assemble_chunks env.hash (collected h ++ c ∷ []) (env.hash contents)
          ≡ Chunking.ok contents
        → lookup f h.chunk_metadata ≡ some kept
        → h.sync_engine ≡ some s
        → plain_data env contents (record kept { size = pos (length contents) }) ≡ returned plain
        → Quiet env
            (record h {
              sync_engine =
                  some (env.incoming_file plain (record kept { size = pos (length contents) }) s).1;
              assembled_chunks = erase f (insert f (collected h ++ c ∷ []) h.assembled_chunks);
              chunk_metadata = erase f h.chunk_metadata;
            })
            (handle_message env stamp (chunk_arrival sender sent_at c) h)
    unfolding handle_chunk stored_chunks handle_assembled assembled_operation forget_chunks
        hand_over
    file_completed stamp sent_at sender n c h kept plain s i last whole meta here unpacked =
        let p = chunk_message_of (env.hash contents) c in
        let msg = chunk_arrival sender sent_at c in
        let op = record kept { size = pos (length contents) } in
        let result = env.incoming_file plain op s in
        let h' : Handler S = record h {
          sync_engine = some result.1;
          assembled_chunks = erase f (insert f (collected h ++ c ∷ []) h.assembled_chunks);
          chunk_metadata = erase f h.chunk_metadata;
        } in
        let complaint = bytes "assembled file handling failed: " in
        let same : handle_chunk env stamp msg p h ≡ report env stamp msg complaint result.0 h' =
          ground
            (arith, i, last, whole, meta, here, unpacked, length-append (collected h) (c ∷ [])) in
        subst (Quiet env h') (sym same ∙ sym (chunk_dispatched env stamp sent_at sender p h))
          (reported env stamp msg complaint result.0 h')

    -- The stamps of the chunks' messages, and those of the acknowledgments.
    module _ (sender : Str) (sent_at at : Chunk → Stamp) (n : ℕ) (kept : SyncOperation) where
      abbrev arrivals : List Chunk → List (Stamp × Message)
      arrivals [] = []
      arrivals (c ∷ cs) = (at c, chunk_arrival sender (sent_at c) c) ∷ arrivals cs

      abbrev whole_operation : SyncOperation
      whole_operation = record kept { size = pos (length contents) }

      -- The engine was called once, with the file, and nothing of the file is left in the maps.
      record Delivered (plain : List ℕ) (s : S) (h : Handler S) : Type 0 where
        pub called : h.sync_engine ≡ some (env.incoming_file plain whole_operation s).1
        pub no_chunks : lookup f h.assembled_chunks ≡ none
        pub no_metadata : lookup f h.chunk_metadata ≡ none

      gather :
          (rest : List Chunk) (h : Handler S) (plain : List ℕ) (s : S)
          → rest ≢ []
          → all_made env.hash f n rest ≡ true
          → length (collected h) + length rest ≡ n
          → assemble_chunks env.hash (collected h ++ rest) (env.hash contents)
            ≡ Chunking.ok contents
          → lookup f h.chunk_metadata ≡ some kept
          → h.sync_engine ≡ some s
          → plain_data env contents whole_operation ≡ returned plain
          → (h' : Handler S) × (receive_all env (arrivals rest) h ≡ some h') × Delivered plain s h'
      unfolding receive_all
      gather [] h plain s nonempty good count whole meta here unpacked = absurd (nonempty refl)
      gather (c ∷ []) h plain s nonempty good count whole meta here unpacked =
          let intact = made-Intact n c (made_parts env.hash f n c [] good).0 in
          let (e, h', same, after) = Quiet-returns env _ _ (
            file_completed (at c) (sent_at c) sender n c h kept plain s intact (omega arith) whole
              meta here unpacked) in
          (
            h',
            receive_step env _ _ [] e h h' same,
            record {
              called = after.engine;
              no_chunks =
                  ap (lookup f) after.chunks
                  ∙ lookup_erased f (insert f (collected h ++ c ∷ []) h.assembled_chunks);
              no_metadata = ap (lookup f) after.metadata ∙ lookup_erased f h.chunk_metadata;
            },
          )
      gather (c ∷ d ∷ rest) h plain s nonempty good count whole meta here unpacked =
          let intact = made-Intact n c (made_parts env.hash f n c (d ∷ rest) good).0 in
          let (e, h', same, after) =
            Quiet-returns env _ _
              (chunk_stored (at c) (sent_at c) sender n c h intact (λ k. absurd (omega arith))) in
          let now : collected h' ≡ collected h ++ c ∷ [] =
            ap (λ m. or_else (lookup f m) []) after.chunks
            ∙ ap (λ o. or_else o [])
                (lookup_inserted f (collected h ++ c ∷ []) h.assembled_chunks) in
          let (h'', later, delivered) =
            gather (d ∷ rest) h' plain s (λ k. cc) (made_parts env.hash f n c (d ∷ rest) good).1
              (omega (arith, ap length now, length-append (collected h) (c ∷ [])))
              (subst (λ l. assemble_chunks env.hash l (env.hash contents) ≡ Chunking.ok contents)
                (sym (append_assoc (collected h) (c ∷ []) (d ∷ rest))
                  ∙ ap (λ l. l ++ d ∷ rest) (sym now))
                whole)
              (ap (lookup f) after.metadata ∙ meta) (after.engine ∙ here) unpacked in
          (h'', receive_step env _ _ (arrivals (d ∷ rest)) e h h' same ∙ later, delivered)

  -- The messages of `sendChunkedFile`, with the chunks in the order in which they arrive.
  abbrev pub transfer :
      Str
      → (Chunk → Stamp)
      → (Chunk → Stamp)
      → Stamp
      → Stamp
      → List ℕ
      → SyncOperation
      → List Chunk
      → List (Stamp × Message)
  transfer sender sent_at at first_sent first_at contents op arrived =
      (first_at, new_message first_sent type_sync_operation sender (log_entry (log_entry_of [] op)))
      ∷ arrivals op.file_id contents sender sent_at at (length arrived) (received op) arrived

  -- A file that is sent in chunks reaches the engine: after the message with the operation, and its
  -- chunks in any order, the engine was called once, with the whole file, decompressed where the
  -- operation says so, and with the operation, whose size is that of the bytes that were sent. The
  -- handler keeps nothing of the file. It holds for a creation or an update, an engine that is there,
  -- and a length of the bytes and a chunk size that add up to at most 2^63.
  pub chunked_file_delivered :
      (k : ℕ) (op : SyncOperation) (contents plain : List ℕ) (cs arrived : List Chunk)
      (sender : Str) (sent_at at : Chunk → Stamp) (first_sent first_at : Stamp) (h : Handler S)
      (s : S)
      → 0 < k
      → length contents + k ≤ 2 ^ 63
      → (op.type ≡ op_create) ⊎ (op.type ≡ op_update)
      → chunk_file env.hash k op.file_id contents ≡ some cs
      → Perm cs arrived
      → h.sync_engine ≡ some s
      → plain_data env contents (record (received op) { size = pos (length contents) })
        ≡ returned plain
      → (h' : Handler S) × (receive_all env
            (transfer sender sent_at at first_sent first_at contents op arrived)
            h
          ≡ some h')
        × (h'.sync_engine
            ≡ some
                (env.incoming_file plain
                  (record (received op) { size = pos (length contents) })
                  s).1)
        × (lookup op.file_id h'.assembled_chunks ≡ none)
        × (lookup op.file_id h'.chunk_metadata ≡ none)
  unfolding expect_chunks
  chunked_file_delivered k op contents plain cs arrived sender sent_at at first_sent first_at h s hk
        small kind made_of order here unpacked =
      let f = op.file_id in
      let n = length arrived in
      let kept = expect_chunks env (received op) h in
      let (e, h1, same, after) =
        Quiet-returns env kept _ (metadata_kept env first_at first_sent sender op h kind) in
      let fresh : lookup f h1.assembled_chunks ≡ none =
        ap (lookup f) after.chunks ∙ lookup_erased f h.assembled_chunks in
      let known : lookup f h1.chunk_metadata ≡ some (received op) =
        ap (lookup f) after.metadata ∙ lookup_inserted f (received op) h.chunk_metadata in
      let none_yet : collected f contents h1 ≡ [] = ap (λ o. or_else o []) fresh in
      let assembled = assemble-chunk_file env.hash k f contents cs arrived hk small made_of order in
      let good : all_made env.hash f n arrived ≡ true =
        sym (made-Perm env.hash f n cs arrived order)
        ∙ subst (λ m. all_made env.hash f m cs ≡ true) (length-Perm cs arrived order)
            (chunk_file-made env.hash k f contents cs made_of) in
      let (h', later, delivered) =
        gather f contents sender sent_at at n (received op) arrived h1 plain s
          (assembled_nonempty env.hash arrived contents assembled) good
          (omega (arith, ap length none_yet))
          (subst
            (λ l.
              assemble_chunks env.hash (l ++ arrived) (env.hash contents) ≡ Chunking.ok contents)
            (sym none_yet) assembled)
          known (after.engine ∙ here) unpacked in
      (
        h',
        receive_step env first_at _ _ e h h1 same ∙ later,
        delivered.called,
        delivered.no_chunks,
        delivered.no_metadata,
      )
