-- ===== src/Chunking/Assembly.antt =====
-- `AssembleChunks` of internal/chunking/assembler.go after `ChunkFile`.
use native.Mathlib.Nat.{zero-add, suc-add}
use mathlib.Core.List.{Perm}
use mathlib.Core.List.Perm
use mathlib.Core.Option.{some-injective}
use p2p_folder_sync.Prelude.{
  ℕ, zero, suc, ◌^◌, ◌+◌, ◌-◌, ◌≤◌, ◌<◌, ◌≡◌, refl, ap, sym, subst, ◌∙◌, ◌≢◌, some, List, [], ◌∷◌,
  ◌++◌, length, take, drop, replicate, ltb, Str, list_eq, nat_eq, arith, length-append,
  length-replicate, append_assoc, take-append_self, drop-append_self, drop-append_add,
  take_of_length-le, Bool-cases, inl, inr,
}
use p2p_folder_sync.Chunking.{
  Chunk, ok, chunk_file, total_size, copy_at, assemble_loop, assemble_sorted, check_hash,
  assemble_chunks,
}
use p2p_folder_sync.Chunking.Split.{Covers, done, more, Numbered, chunk_file-Covers}
use p2p_folder_sync.Chunking.Sort.{sort_arrivals}

replicate-add {ℓ} :
    {A : Type ℓ} (m n : ℕ) (a : A) → replicate (m + n) a ≡ replicate m a ++ replicate n a
replicate-add zero n a = rw (zero-add n)
replicate-add (suc m) n a = rw (suc-add m n) (ap (◌∷◌ a) (replicate-add m n a))

copy_at-fits :
    (buf src : List ℕ) (offset : ℕ)
    → offset + length src ≤ length buf
    → copy_at buf offset src ≡ take offset buf ++ (src ++ drop (offset + length src) buf)
unfolding copy_at
copy_at-fits buf src offset h = elim (Bool-cases (ltb (length buf - offset) (length src))) [
  | inl e ↦ absurd (ground arith)
  | inr e ↦ rw e (rw (take_of_length-le (length src) src (omega arith)) refl)
]

-- Copying a chunk into the zeros behind what is written replaces as many zeros.
copy_at-zeros :
    (pre src : List ℕ) (n : ℕ)
    → copy_at (pre ++ replicate (length src + n) 0) (length pre) src ≡ (pre ++ src) ++ replicate n 0
copy_at-zeros pre src n =
    let zeros = replicate (length src + n) 0 in
    copy_at-fits (pre ++ zeros) src (length pre)
      (omega (arith, length-append pre zeros, length-replicate {A = ℕ} (length src + n) 0))
    ∙ rw (take-append_self pre zeros, drop-append_add pre zeros (length src))
        (ap (λ t. pre ++ (src ++ t))
            (ap (drop (length src)) (replicate-add (length src) n 0)
              ∙ ap (λ m. drop m (replicate (length src) 0 ++ replicate n 0))
                  (sym (length-replicate {A = ℕ} (length src) 0))
              ∙ drop-append_self (replicate (length src) 0) (replicate n 0))
          ∙ sym (append_assoc pre src (replicate n 0)))

assemble_loop-Covers :
    (pre : List ℕ) {o : ℕ} {cs : List Chunk} {d : List ℕ}
    → Covers o cs d
    → o ≡ length pre
    → assemble_loop cs (pre ++ replicate (total_size cs) 0) o ≡ ok (pre ++ d)
unfolding assemble_loop total_size
assemble_loop-Covers pre done e = refl
assemble_loop-Covers pre {o} (more {o'} {cs} {d} {d'} c at size next whole rest) e =
    let written = pre ++ c.data_bytes in
    let ih = assemble_loop-Covers written rest (omega (arith, length-append pre c.data_bytes)) in
    let copied : copy_at (pre ++ replicate (c.len + total_size cs) 0) o c.data_bytes
        ≡ written ++ replicate (total_size cs) 0 =
      rw (e, size) (copy_at-zeros pre c.data_bytes (total_size cs)) in
    let target : ok (written ++ d) ≡ ok (pre ++ d') =
      ap ok (append_assoc pre c.data_bytes d ∙ ap (λ t. pre ++ t) (sym whole)) in
    ground (arith, ih, copied, target)

module _ (hash : List ℕ → Str) (contents : List ℕ) where
  sorted_lem :
      (cs : List Chunk)
      → Covers 0 cs contents
      → assemble_sorted hash cs (hash contents) ≡ ok contents
  unfolding assemble_sorted check_hash
  sorted_lem cs covers = rw (assemble_loop-Covers [] covers refl) (ground arith)

  assembled :
      (cs arrived : List Chunk)
      → cs ≢ []
      → Numbered 0 cs
      → Covers 0 cs contents
      → Perm cs arrived
      → assemble_chunks hash arrived (hash contents) ≡ ok contents
  unfolding assemble_chunks
  assembled cs [] nonempty numbered covers p = absurd (nonempty (Perm.eq-nil p))
  assembled cs (a ∷ rest) nonempty numbered covers p =
      rw (sort_arrivals 0 cs (a ∷ rest) numbered p) (sorted_lem cs covers)

-- Splitting a file by a positive chunk size, where the length of the file and the chunk size add up
-- to at most 2^63, and assembling the chunks, in whatever order they arrive, gives the file back when
-- the expected hash is the file's.
pub assemble-chunk_file :
    (hash : List ℕ → Str) (k : ℕ) (file_id : Str) (contents : List ℕ) (cs arrived : List Chunk)
    → 0 < k
    → length contents + k ≤ 2 ^ 63
    → chunk_file hash k file_id contents ≡ some cs
    → Perm cs arrived
    → assemble_chunks hash arrived (hash contents) ≡ ok contents
assemble-chunk_file hash k file_id contents cs arrived hk small made p =
    let (ds, made', nonempty, numbered, covers) =
      chunk_file-Covers hash k file_id contents hk small in
    let same : ds ≡ cs = some-injective ds cs (sym made' ∙ made) in
    assembled hash contents ds arrived nonempty numbered covers
      (subst (λ l. Perm l arrived) (sym same) p)
