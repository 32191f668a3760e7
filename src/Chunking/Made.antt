-- ===== src/Chunking/Made.antt =====
-- `ChunkFile` of internal/chunking/chunker.go: what every chunk says of its file, however the chunks
-- are ordered.
use mathlib.Core.List.{Perm, Permᴰ}
use mathlib.Core.Logic.{∥∥₁_elim}
use mathlib.Core.Option.{some-injective}
use p2p_folder_sync.Prelude.{
  ℕ, zero, suc, pos_part, ◌≡◌, refl, ap, subst, ◌∙◌, Bool, true, false, ◌&&◌, some, List, [], ◌∷◌,
  length, Str, pos, list_eq, nat_eq, int_eq, ◌==◌, arith, ℕ_discrete, Bool-cases, inl, inr,
}
use p2p_folder_sync.Chunking.{Chunk, chunk_file, chunk_loop, chunk_at, empty_chunk, chunk_total}

and_swap : (x y z : Bool) → (x && (y && z)) ≡ (y && (x && z))
and_swap true true z = refl
and_swap true false z = refl
and_swap false true z = refl
and_swap false false z = refl

module _ (hash : List ℕ → Str) (file_id : Str) (total : ℕ) where
  -- The chunk is one of `total` chunks of the file, and its hash is the digest of its bytes.
  abbrev pub made : Chunk → Bool
  made c =
      (hash c.data_bytes == c.hash)
      && ((c.file_hash == []) && ((c.file_id == file_id) && (c.total_chunks == pos total)))

  abbrev pub all_made : List Chunk → Bool
  all_made [] = true
  all_made (c ∷ cs) = made c && all_made cs

  made_swap : (a b : Chunk) (cs : List Chunk) → all_made (a ∷ b ∷ cs) ≡ all_made (b ∷ a ∷ cs)
  made_swap a b cs = and_swap (made a) (made b) (all_made cs)

  made-Permᴰ : {xs ys : List Chunk} → Permᴰ xs ys → all_made xs ≡ all_made ys
  made-Permᴰ Permᴰ.nil = refl
  made-Permᴰ (Permᴰ.cons {a} {b} {l₁ = xs} {l₂ = ys} e p) =
      ap (λ c. all_made (c ∷ xs)) e ∙ ap (λ t. made b && t) (made-Permᴰ p)
  made-Permᴰ (Permᴰ.swap {a} {b} {a'} {b'} {l = xs} e f) =
      made_swap a b xs ∙ ap (λ c. all_made (c ∷ a ∷ xs)) f ∙ ap (λ c. all_made (a' ∷ c ∷ xs)) e
  made-Permᴰ (Permᴰ.trans {l₁ = xs} {l₂ = ys} p q) = made-Permᴰ p ∙ made-Permᴰ q

length-Permᴰ {ℓ} : {A : Type ℓ} {xs ys : List A} → Permᴰ xs ys → length xs ≡ length ys
length-Permᴰ Permᴰ.nil = refl
length-Permᴰ (Permᴰ.cons e p) = ap suc (length-Permᴰ p)
length-Permᴰ (Permᴰ.swap e f) = refl
length-Permᴰ (Permᴰ.trans p q) = length-Permᴰ p ∙ length-Permᴰ q

Bool-set : IsSet Bool
Bool-set = hlevel

ℕ-set : IsSet ℕ
ℕ-set = hlevel (ℕ_discrete)

pub made-Perm :
    (hash : List ℕ → Str) (file_id : Str) (total : ℕ) (xs ys : List Chunk)
    → Perm xs ys
    → all_made hash file_id total xs ≡ all_made hash file_id total ys
made-Perm hash file_id total xs ys p =
    ∥∥₁_elim p (Bool-set _ _) (λ q. made-Permᴰ hash file_id total q)

pub length-Perm : (xs ys : List Chunk) → Perm xs ys → length xs ≡ length ys
length-Perm xs ys p = ∥∥₁_elim p (ℕ-set _ _) (λ q. length-Permᴰ q)

module _ (hash : List ℕ → Str) (k : ℕ) (file_id : Str) (contents : List ℕ) (total : ℕ) where
  chunk_loop-made :
      (rounds i : ℕ)
      → all_made hash file_id total (chunk_loop hash k file_id contents total rounds i) ≡ true
  unfolding chunk_loop chunk_at
  chunk_loop-made zero i = refl
  chunk_loop-made (suc rounds) i = ground (arith, chunk_loop-made rounds (suc i))

  length-chunk_loop :
      (rounds i : ℕ) → length (chunk_loop hash k file_id contents total rounds i) ≡ rounds
  unfolding chunk_loop
  length-chunk_loop zero i = refl
  length-chunk_loop (suc rounds) i = ap suc (length-chunk_loop rounds (suc i))

-- Every chunk that `ChunkFile` makes names the file, the digest of its bytes and the number of
-- chunks.
pub chunk_file-made :
    (hash : List ℕ → Str) (k : ℕ) (file_id : Str) (contents : List ℕ) (cs : List Chunk)
    → chunk_file hash k file_id contents ≡ some cs
    → all_made hash file_id (length cs) cs ≡ true
unfolding chunk_file empty_chunk
chunk_file-made hash k file_id contents cs e =
    let Whole : List Chunk → Type 0 = λ l. all_made hash file_id (length l) l ≡ true in
    elim (Bool-cases (length contents == 0)) [
      | inl nothing ↦
          let same : some (empty_chunk hash file_id ∷ []) ≡ some cs = ground (arith, e, nothing) in
          subst Whole (some-injective (empty_chunk hash file_id ∷ []) cs same) (ground arith)
      | inr something ↦ elim (Bool-cases (k == 0)) [
        | inl nil ↦ absurd (ground (arith, e, something, nil))
        | inr positive ↦
            let total = pos_part (chunk_total k (length contents)) in
            let chunks = chunk_loop hash k file_id contents total total 0 in
            let same : some chunks ≡ some cs = ground (arith, e, something, positive) in
            subst Whole (some-injective chunks cs same) (
              rw (length-chunk_loop hash k file_id contents total total 0)
                (chunk_loop-made hash k file_id contents total total 0))
      ]
    ]
