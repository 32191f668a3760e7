-- ===== src/Buffer/Invariant.antt =====
-- internal/chunking/buffer.go: a buffer is complete exactly when no chunk is missing.
use p2p_folder_sync.Prelude.{
  ℕ, zero, suc, ◌+◌, ◌≤◌, ◌<◌, ◌≡◌, refl, sym, ◌∙◌, ◌↔◌, inl, inr, Bool, true, false, some, List,
  [], ◌∷◌, length, Str, ℤ, pos, ltb_ℤ, eq_of_parts, ◌≤ℤ◌, ◌<ℤ◌, list_eq, nat_eq, int_eq, or_else,
  arith, Bool-cases, Option-cases, ℕ_discrete, subst,
}
use p2p_folder_sync.Prelude.Dict.{
  Dict, lookup, insert, erase, has, NodupKeys, lookup-insert, lookup-erase, insert-NodupKeys,
  erase-NodupKeys, length-insert, length-erase,
}
use p2p_folder_sync.Chunking.{Chunk}
use p2p_folder_sync.Buffer.{
  ChunkBuffer, ok, new_chunk_buffer, check_complete, store, add_chunk, missing_from,
  get_missing_chunks, collect, get_chunks,
}

module _ {ℓ} {V : Type ℓ} where
  -- Every key is an index below `n`.
  abbrev pub InRange : ℕ → Dict ℤ V → Type 0
  InRange n d = (k : ℤ) → has k d ≡ true → (pos 0 ≤ℤ k) × (k <ℤ pos n)

  erase-InRange : (n : ℕ) (d : Dict ℤ V) → InRange (suc n) d → InRange n (erase (pos n) d)
  erase-InRange n d r k h = ground (arith, lookup-erase k (pos n) d, r k, eq_of_parts k (pos n))

  has_head : (k : ℤ) (v : V) (d : Dict ℤ V) → has k ((k, v) ∷ d) ≡ true
  unfolding lookup
  has_head k v d = ground arith

  -- Distinct indices below `n` are at most `n`.
  length-le : (n : ℕ) (d : Dict ℤ V) → NodupKeys d → InRange n d → length d ≤ n
  length-le zero [] u r = omega arith
  length-le zero ((k, v) ∷ d) u r = absurd (let h = r k (has_head k v d) in omega (arith, h.0, h.1))
  length-le (suc n) d u r = ground (
    arith,
    length-le n (erase (pos n) d) (erase-NodupKeys (pos n) d u) (erase-InRange n d r),
    length-erase (pos n) d u,
  )

  -- As many distinct indices as there are leave none out.
  all_present :
      (n : ℕ) (d : Dict ℤ V)
      → NodupKeys d
      → InRange n d
      → length d ≡ n
      → (i : ℕ) → i < n
      → has (pos i) d ≡ true
  all_present zero d u r e i h = elim h [ ]
  all_present (suc n) d u r e i h = elim (Bool-cases (has (pos n) d)) [
    | inl here ↦ ground (
      arith,
      all_present n (erase (pos n) d) (erase-NodupKeys (pos n) d u) (erase-InRange n d r)
          (ground (arith, length-erase (pos n) d u)) i,
      lookup-erase (pos i) (pos n) d,
    )
    | inr gone ↦ absurd (
        ground (
          arith,
          length-erase (pos n) d u,
          length-le n (erase (pos n) d) (erase-NodupKeys (pos n) d u) (erase-InRange n d r),
        ))
  ]

  has-length-pos : (k : ℤ) (d : Dict ℤ V) → has k d ≡ true → 0 < length d
  unfolding lookup
  has-length-pos k [] h = cc
  has-length-pos k (_ ∷ d) h = omega arith

  pub le-length :
      (n : ℕ) (d : Dict ℤ V) → NodupKeys d → ((i : ℕ) → i < n → has (pos i) d ≡ true) → n ≤ length d
  le-length zero d u all = omega arith
  le-length (suc n) d u all =
      let ih =
        le-length n (erase (pos n) d) (erase-NodupKeys (pos n) d u)
          (λ i h. ground (arith, all i, lookup-erase (pos i) (pos n) d)) in
      ground (arith, ih, length-erase (pos n) d u, all n, has-length-pos (pos n) d)

missing_from_nil :
    (r : Dict ℤ Bool) (n i : ℕ)
    → ((j : ℕ) → i ≤ j → j < i + n → or_else (lookup (pos j) r) false ≡ true)
    → missing_from r n i ≡ []
unfolding missing_from
missing_from_nil r zero i h = refl
missing_from_nil r (suc n) i h =
    ground (arith, h i, missing_from_nil r n (suc i) (λ j a b. h j (omega arith) (omega arith)))

received_of_nil :
    (r : Dict ℤ Bool) (n i j : ℕ)
    → missing_from r n i ≡ []
    → i ≤ j
    → j < i + n
    → or_else (lookup (pos j) r) false ≡ true
unfolding missing_from
received_of_nil r zero i j e a b = absurd (omega arith)
received_of_nil r (suc n) i j e a b = elim (ℕ_discrete i j) [
  | yes same ↦ subst (λ t. or_else (lookup (pos t) r) false ≡ true) same (ground arith)
  | no other ↦ received_of_nil r n (suc i) j (ground arith) (omega arith) (omega arith)
]

-- What holds of a buffer for `n` chunks: the stored chunks have distinct ids from 0 to n - 1, the
-- map `received` agrees with them, and the buffer is complete when there are `n` of them.
pub record Valid (n : ℕ) (cb : ChunkBuffer) : Type 0 where
  pub total : cb.total_chunks ≡ pos n
  pub some_chunk : 0 < n
  pub distinct : NodupKeys cb.chunks
  pub in_range : InRange n cb.chunks
  pub agree : (k : ℤ) → or_else (lookup k cb.received) false ≡ has k cb.chunks
  pub finished : (cb.complete ≡ true) ↔ (length cb.chunks ≡ n)

pub new_chunk_buffer-Valid :
    (file_id : Str) (n now : ℕ) → 0 < n → Valid n (new_chunk_buffer file_id (pos n) now)
unfolding new_chunk_buffer lookup
new_chunk_buffer-Valid file_id n now h = record {
  total = refl;
  some_chunk = h;
  distinct = tt;
  in_range = λ k e. cc;
  agree = λ k. refl;
  finished = (λ e. cc, λ e. absurd (omega arith));
}

stored-InRange :
    (n : ℕ) (c : Chunk) (d : Dict ℤ Chunk)
    → InRange n d
    → ltb_ℤ c.chunk_id (pos 0) ≡ false
    → ltb_ℤ c.chunk_id (pos n) ≡ true
    → InRange n (insert c.chunk_id c d)
stored-InRange n c d r lo hi k h = ground (arith, lookup-insert k c.chunk_id c d, r k)

check_complete-chunks : (cb : ChunkBuffer) → (check_complete cb).chunks ≡ cb.chunks
unfolding check_complete
check_complete-chunks cb = ground arith

stored-Valid :
    (n now : ℕ) (c : Chunk) (cb : ChunkBuffer)
    → Valid n cb
    → ltb_ℤ c.chunk_id (pos 0) ≡ false
    → ltb_ℤ c.chunk_id (pos n) ≡ true
    → Valid n (check_complete (store now c cb))
unfolding check_complete store
stored-Valid n now c cb v lo hi =
    let chunks' = insert c.chunk_id c cb.chunks in
    let u = insert-NodupKeys c.chunk_id c cb.chunks v.distinct in
    let r = stored-InRange n c cb.chunks v.in_range lo hi in
    record {
      total = ground (arith, v.total);
      some_chunk = v.some_chunk;
      distinct = ground (arith, u);
      in_range = subst (InRange n) (sym (check_complete-chunks (store now c cb))) r;
      agree = λ k. ground (
        arith,
        lookup-insert k c.chunk_id c cb.chunks,
        lookup-insert k c.chunk_id true cb.received,
        v.agree k,
      );
      finished = ground (
        arith,
        v.total,
        v.finished,
        length-insert c.chunk_id c cb.chunks,
        length-le n chunks' u r,
      );
    }

-- A chunk that a valid buffer accepts, a new one or one under an id it already holds, leaves it
-- valid.
pub add_chunk-Valid :
    (n now : ℕ) (c : Chunk) (cb cb' : ChunkBuffer)
    → Valid n cb
    → add_chunk now c cb ≡ ok cb'
    → Valid n cb'
unfolding add_chunk
add_chunk-Valid n now c cb cb' v e =
    let lo : ltb_ℤ c.chunk_id (pos 0) ≡ false = ground (arith, e, v.total) in
    let hi : ltb_ℤ c.chunk_id (pos n) ≡ true = ground (arith, e, v.total) in
    let same : check_complete (store now c cb) ≡ cb' = ground (arith, e) in
    subst (Valid n) same (stored-Valid n now c cb v lo hi)

-- A valid buffer is complete exactly when it lists no missing chunk.
pub complete-iff-none_missing :
    (n : ℕ) (cb : ChunkBuffer) → Valid n cb → (cb.complete ≡ true) ↔ (get_missing_chunks cb ≡ [])
unfolding get_missing_chunks
complete-iff-none_missing n cb v = rw v.total (
  λ e. missing_from_nil cb.received n 0 (λ j a b.
      v.agree (pos j)
      ∙ all_present n cb.chunks v.distinct v.in_range (v.finished.0 e) j (omega arith)),
  λ e. v.finished.1 (
      let low = le-length n cb.chunks v.distinct (λ i h.
        sym (v.agree (pos i)) ∙ received_of_nil cb.received n 0 i e (omega arith) (omega arith)) in
      omega (arith, low, length-le n cb.chunks v.distinct v.in_range)),
)

-- The chunks are the stored ones, in the order of their ids.
abbrev pub InOrder : Dict ℤ Chunk → ℕ → List Chunk → Type 0
InOrder d i [] = Unit {0}
InOrder d i (c ∷ cs) = (lookup (pos i) d ≡ some c) × InOrder d (suc i) cs

collect_all :
    (d : Dict ℤ Chunk) (n i : ℕ)
    → ((j : ℕ) → i ≤ j → j < i + n → has (pos j) d ≡ true)
    → (cs : List Chunk) × (collect d n i ≡ ok cs) × (length cs ≡ n) × InOrder d i cs
unfolding collect
collect_all d zero i h = ([], refl, refl, tt)
collect_all d (suc n) i h =
    let (cs, e, len, ordered) =
      collect_all d n (suc i) (λ j a b. h j (omega arith) (omega arith)) in
    elim (Option-cases (lookup (pos i) d)) [
      | inl gone ↦ absurd (ground (arith, h i))
      | inr (c, here) ↦ (c ∷ cs, ground arith, omega arith, (here, ordered))
    ]

-- A complete valid buffer gives back all its chunks, one for each id from 0 up, in order.
pub get_chunks_complete :
    (n : ℕ) (cb : ChunkBuffer)
    → Valid n cb
    → cb.complete ≡ true
    → (cs : List Chunk) × (get_chunks cb ≡ ok cs) × (length cs ≡ n) × InOrder cb.chunks 0 cs
unfolding get_chunks
get_chunks_complete n cb v e =
    let (cs, got, len, ordered) =
      collect_all cb.chunks n 0
        (λ j a b. all_present n cb.chunks v.distinct v.in_range (v.finished.0 e) j (omega arith)) in
    (cs, ground (arith, v.total, got), len, ordered)
