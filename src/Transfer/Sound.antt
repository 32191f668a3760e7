-- ===== src/Transfer/Sound.antt =====
-- internal/chunking/manager.go: what the manager's map of transfers keeps, and what a timeout means.
use p2p_folder_sync.Prelude.{
  ℕ, zero, suc, ◌+◌, ◌≤◌, ◌<◌, ◌≡◌, refl, true, some, List, [], Str, ℤ, pos, negsuc, ltb_ℤ, ◌==◌,
  list_eq, nat_eq, int_eq, arith, ℕ_discrete, subst, inl, inr, ◌⊎◌, sym, Eq, ==_iff, Option-cases,
  Bool-cases,
}
use p2p_folder_sync.Prelude.Dict.{Dict, lookup, insert, has, NodupKeys, lookup-insert}
use p2p_folder_sync.Chunking.{Chunk, verify_chunk_hash}
use p2p_folder_sync.Buffer.{rounds}
use p2p_folder_sync.Buffer.Invariant.{le-length}
use p2p_folder_sync.Transfer.{
  ChunkReceipt, FileTransfer, Transfers, ok, receive_chunk, receive_into, transfer_for,
  auto_created, store_receipt, learn_total, mark_complete, missing_receipts, get_missing_chunks,
  overdue, has_timed_out,
}

insert_found {ℓ κ} :
    {K : Type ℓ} {V : Type κ} ⦃e : Eq K⦄ (j k : K) (v w : V) (d : Dict K V)
    → lookup j (insert k v d) ≡ some w
    → ((j ≡ k) × (w ≡ v)) ⊎ (lookup j d ≡ some w)
insert_found j k v w d h = ground (arith, lookup-insert j k v d)

module _ (hash : List ℕ → Str) where
  -- A receipt filed under `k`: the chunk has that id, and its bytes have the digest it names.
  abbrev pub Filed : ℤ → ChunkReceipt → Type 0
  Filed k r = (r.chunk.chunk_id ≡ k) × (hash r.chunk.data_bytes ≡ r.chunk.hash)

  abbrev pub AllFiled : FileTransfer → Type 0
  AllFiled t = (k : ℤ) (r : ChunkReceipt) → lookup k t.received_chunks ≡ some r → Filed k r

  -- Every receipt of every transfer is for a chunk that was verified.
  abbrev pub Sound : Transfers → Type 0
  Sound ts = (f : Str) (t : FileTransfer) → lookup f ts ≡ some t → AllFiled t

  kept_receipts :
      (now : ℕ) (c : Chunk) (t : FileTransfer)
      → (mark_complete (learn_total c (store_receipt now c t))).received_chunks
        ≡ insert c.chunk_id
            (record { chunk = c; received_at = now; verified = true })
            t.received_chunks
  unfolding mark_complete learn_total store_receipt
  kept_receipts now c t = ground arith

  store-AllFiled :
      (now : ℕ) (c : Chunk) (t : FileTransfer)
      → AllFiled t
      → hash c.data_bytes ≡ c.hash
      → AllFiled (mark_complete (learn_total c (store_receipt now c t)))
  store-AllFiled now c t filed h k r e =
      let receipt : ChunkReceipt = record { chunk = c; received_at = now; verified = true } in
      let found : lookup k (insert c.chunk_id receipt t.received_chunks) ≡ some r =
        subst (λ d. lookup k d ≡ some r) (kept_receipts now c t) e in
      elim (insert_found k c.chunk_id receipt r t.received_chunks found) [
        | inl (at, new) ↦ subst (Filed k) (sym new) (sym at, h)
        | inr old ↦ filed k r old
      ]

  receive_into-AllFiled :
      (now : ℕ) (c : Chunk) (t : FileTransfer) → AllFiled t → AllFiled (receive_into hash now c t).1
  unfolding receive_into verify_chunk_hash
  receive_into-AllFiled now c t filed = elim (Bool-cases (has c.chunk_id t.received_chunks)) [
    | inl dup ↦
        let same : t ≡ (receive_into hash now c t).1 = ground arith in subst AllFiled same filed
    | inr fresh ↦ elim (Bool-cases (hash c.data_bytes == c.hash)) [
      | inl match ↦
          let stored = mark_complete (learn_total c (store_receipt now c t)) in
          let same : stored ≡ (receive_into hash now c t).1 = ground (arith, fresh, match) in
          subst AllFiled same
            (store-AllFiled now c t filed ((==_iff (hash c.data_bytes) c.hash).0 match))
      | inr differ ↦
          let same : t ≡ (receive_into hash now c t).1 = ground (arith, fresh, differ) in
          subst AllFiled same filed
    ]
  ]

  transfer_for-AllFiled :
      (now : ℕ) (f : Str) (ts : Transfers) → Sound ts → AllFiled (transfer_for now f ts)
  unfolding transfer_for auto_created lookup
  transfer_for-AllFiled now f ts sound = elim (Option-cases (lookup f ts)) [
    | inl gone ↦
        let same : auto_created now f ≡ transfer_for now f ts = ground arith in
        subst AllFiled same (λ k r e. cc)
    | inr (t, here) ↦
        let same : t ≡ transfer_for now f ts = ground arith in subst AllFiled same (sound f t here)
  ]

  -- Whatever chunk arrives, a manager that holds only verified chunks, each under its own id,
  -- goes on doing so.
  pub receive_chunk-Sound :
      (now : ℕ) (c : Chunk) (ts : Transfers) → Sound ts → Sound (receive_chunk hash now c ts).1
  unfolding receive_chunk
  receive_chunk-Sound now c ts sound f t e =
      let t' = transfer_for now c.file_id ts in
      elim (insert_found f c.file_id (receive_into hash now c t').1 t ts e) [
        | inl (at, new) ↦
            subst AllFiled (sym new)
              (receive_into-AllFiled now c t' (transfer_for-AllFiled now c.file_id ts sound))
        | inr old ↦ sound f t old
      ]

received_of_nil :
    (r : Dict ℤ ChunkReceipt) (n i j : ℕ)
    → missing_receipts r n i ≡ []
    → i ≤ j
    → j < i + n
    → has (pos j) r ≡ true
unfolding missing_receipts
received_of_nil r zero i j e a b = absurd (omega arith)
received_of_nil r (suc n) i j e a b = elim (ℕ_discrete i j) [
  | yes same ↦ subst (λ t. has (pos t) r ≡ true) same (ground arith)
  | no other ↦ received_of_nil r n (suc i) j (ground arith) (omega arith) (omega arith)
]

overdue_missing :
    (now n : ℕ) (t : FileTransfer)
    → NodupKeys t.received_chunks
    → t.total_chunks ≡ pos n
    → overdue now t ≡ true
    → ¬ (missing_receipts t.received_chunks n 0 ≡ [])
unfolding overdue
overdue_missing now n t u total late e =
    let low =
      le-length n t.received_chunks u
        (λ i h. received_of_nil t.received_chunks n 0 i e (omega arith) (omega arith)) in
    absurd (ground (arith, low))

rounds_pos : (x : ℤ) → ltb_ℤ (pos 0) x ≡ true → x ≡ pos (rounds x)
rounds_pos (pos n) h = refl
rounds_pos (negsuc n) h = absurd (ground (arith, h))

overdue_total :
    (now : ℕ) (t : FileTransfer)
    → overdue now t ≡ true
    → t.total_chunks ≡ pos (rounds t.total_chunks)
unfolding overdue
overdue_total now t late = rounds_pos t.total_chunks (ground (arith, late))

-- A transfer whose receipts have distinct ids, and which has timed out, lists a missing chunk.
timed_out_missing :
    (now : ℕ) (f : Str) (ts : Transfers) (t : FileTransfer)
    → lookup f ts ≡ some t
    → NodupKeys t.received_chunks
    → has_timed_out now f ts ≡ true
    → ¬ (get_missing_chunks f ts ≡ ok [])
unfolding has_timed_out get_missing_chunks
timed_out_missing now f ts t here u late e =
    let late' : overdue now t ≡ true = ground (arith, here, late) in
    let n = rounds t.total_chunks in
    let total : t.total_chunks ≡ pos n = overdue_total now t late' in
    let none_left : missing_receipts t.received_chunks n 0 ≡ [] =
      ground (arith, here, e, overdue_total now t late') in
    overdue_missing now n t u total late' none_left
