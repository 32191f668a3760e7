-- ===== src/Chunking/Split.antt =====
-- `ChunkFile` of internal/chunking/chunker.go: what the chunks of a file hold.
use p2p_folder_sync.Prelude.{
  ℕ, zero, suc, ◌%◌, ◌^◌, true, false, ◌==◌, pos_part, ◌+◌, ◌-◌, ◌*◌, ◌/◌, ◌≤◌, ◌<◌, ◌≡◌, refl, ap,
  sym, subst, ◌∙◌, ◌≢◌, some, List, [], ◌∷◌, ◌++◌, length, take, drop, ltb, Str, pos, list_eq,
  nat_eq, arith, length-take, length-drop, take-append-drop, drop_of_length-le, take_of_length-le,
  Bool-cases, inl, inr,
}
use native.Mathlib.Nat.{div-add-mod, mod-lt, zero-add, suc-add}
use p2p_folder_sync.Chunking.{
  Chunk, chunk_at, chunk_loop, chunk_file, empty_chunk, chunk_total, wrap64, quotient,
}

-- The chunks hold `d` without a gap or an overlap, from `offset` on.
pub data Covers : ℕ → List Chunk → List ℕ → Type 0 where
  done : {o : ℕ} → Covers o [] []
  more :
      {o o' : ℕ} {cs : List Chunk} {d d' : List ℕ} (c : Chunk)
      → c.offset ≡ o
      → c.len ≡ length c.data_bytes
      → o' ≡ o + c.len
      → d' ≡ c.data_bytes ++ d
      → Covers o' cs d
      → Covers o (c ∷ cs) d'

-- Chunk ids count up from `i`.
abbrev pub Numbered : ℕ → List Chunk → Type 0
Numbered i [] = Unit {0}
Numbered i (c ∷ cs) = (c.chunk_id ≡ pos i) × Numbered (suc i) cs

ceil_mul : (q k : ℕ) → 0 < q → (q - 1) * k + k ≡ q * k
ceil_mul zero k h = absurd (omega arith)
ceil_mul (suc q) k h = grind arith

ceil_pos : (n k : ℕ) → 0 < k → 0 < n → 0 < (n + k - 1) / k
ceil_pos n k hk hn = grind (arith, div-add-mod (n + k - 1) k, mod-lt (n + k - 1) hk)

ceil_bounds :
    (n k : ℕ) → 0 < k → 0 < n → (n ≤ (n + k - 1) / k * k) × (((n + k - 1) / k - 1) * k ≤ n)
ceil_bounds n k hk hn = (
  grind (arith, div-add-mod (n + k - 1) k, mod-lt (n + k - 1) hk),
  omega (arith, div-add-mod (n + k - 1) k, ceil_mul ((n + k - 1) / k) k (ceil_pos n k hk hn)),
)

drop-nil {ℓ} : {A : Type ℓ} (n : ℕ) → ◌≡◌ {A = List A} (drop n []) []
drop-nil zero = refl
drop-nil (suc n) = refl

drop-drop {ℓ} : {A : Type ℓ} (m n : ℕ) (xs : List A) → drop m (drop n xs) ≡ drop (n + m) xs
drop-drop m zero xs = rw (zero-add m)
drop-drop m (suc n) [] = rw (drop-nil m, drop-nil (suc n + m))
drop-drop m (suc n) (x ∷ xs) = rw (suc-add n m) (drop-drop m n xs)

module _ (hash : List ℕ → Str) (k : ℕ) (file_id : Str) (contents : List ℕ) (total : ℕ) where
  abbrev nth : ℕ → Chunk
  nth i = chunk_at hash k file_id contents total i

  chunk_loop-Numbered :
      (rounds i : ℕ) → Numbered i (chunk_loop hash k file_id contents total rounds i)
  unfolding chunk_loop chunk_at
  chunk_loop-Numbered zero i = tt
  chunk_loop-Numbered (suc rounds) i = (refl, chunk_loop-Numbered rounds (suc i))

  -- A round takes `k` bytes, or what is left.
  chunk_at-bytes :
      (i : ℕ) → i * k ≤ length contents → (nth i).data_bytes ≡ take k (drop (i * k) contents)
  unfolding chunk_at
  chunk_at-bytes i h = elim (Bool-cases (ltb (length contents) (i * k + k))) [
    | inl e ↦ rw e (
        take_of_length-le (length contents - i * k) (drop (i * k) contents)
          (omega (arith, length-drop (i * k) contents))
        ∙ sym (
            take_of_length-le k (drop (i * k) contents)
              (ground (arith, length-drop (i * k) contents))))
    | inr e ↦ rw e (ap (λ n. take n (drop (i * k) contents)) (omega arith))
  ]

  chunk_at-len : (i : ℕ) → (nth i).len ≡ length (nth i).data_bytes
  unfolding chunk_at
  chunk_at-len i = refl

  chunk_at-offset : (i : ℕ) → (nth i).offset ≡ i * k
  unfolding chunk_at
  chunk_at-offset i = refl

  chunk_at-split :
      (i : ℕ)
      → i * k ≤ length contents
      → drop (i * k) contents ≡ (nth i).data_bytes ++ drop (i * k + k) contents
  chunk_at-split i h = rw (chunk_at-bytes i h) (
      sym (take-append-drop k (drop (i * k) contents))
      ∙ ap (λ t. take k (drop (i * k) contents) ++ t) (drop-drop k (i * k) contents))

  -- The rounds that are left start inside the file.
  abbrev Fits : ℕ → ℕ → Type 0
  Fits i zero = Unit {0}
  Fits i (suc rounds) = i * k + rounds * k ≤ length contents

  chunk_loop-Covers :
      (rounds i : ℕ)
      → length contents ≤ i * k + rounds * k
      → Fits i rounds
      → Covers (i * k) (chunk_loop hash k file_id contents total rounds i) (drop (i * k) contents)
  unfolding chunk_loop
  chunk_loop-Covers zero i h g = rw (drop_of_length-le (i * k) contents (omega arith)) done
  chunk_loop-Covers (suc zero) i h g =
      more {o' = i * k + (nth i).len} {d = []} (nth i) (chunk_at-offset i) (chunk_at-len i) refl
        (chunk_at-split i (omega arith)
          ∙ ap (λ t. (nth i).data_bytes ++ t)
              (drop_of_length-le (i * k + k) contents (omega arith)))
        done
  chunk_loop-Covers (suc (suc rounds)) i h g =
      more {o' = suc i * k} {d = drop (suc i * k) contents} (nth i) (chunk_at-offset i)
        (chunk_at-len i)
        (omega (
          arith,
          chunk_at-len i,
          ap length (chunk_at-bytes i (omega arith)),
          length-take k (drop (i * k) contents),
          length-drop (i * k) contents,
        ))
        (chunk_at-split i (omega arith)
          ∙ ap (λ n. (nth i).data_bytes ++ drop n contents) (omega arith))
        (chunk_loop-Covers (suc rounds) (suc i) (omega arith) (omega arith))

chunk_file_empty :
    (hash : List ℕ → Str) (k : ℕ) (file_id : Str)
    → chunk_file hash k file_id [] ≡ some (empty_chunk hash file_id ∷ [])
unfolding chunk_file
chunk_file_empty hash k file_id = ground arith

-- Below the int64 limit the number of chunks is the quotient, rounded up.
chunk_total-fits : (k n : ℕ) → 0 < n → n + k ≤ 2 ^ 63 → chunk_total k n ≡ pos ((n + k - 1) / k)
unfolding chunk_total wrap64 quotient
chunk_total-fits k n hn small =
    let s = n + k - 1 in
    let same : s % 2 ^ 64 ≡ s = omega arith in
    let low : ltb s (2 ^ 63) ≡ true = ground arith in rw same (rw low refl)

chunk_file_loop :
    (hash : List ℕ → Str) (k : ℕ) (file_id : Str) (contents : List ℕ)
    → 0 < k
    → 0 < length contents
    → length contents + k ≤ 2 ^ 63
    → let total = (length contents + k - 1) / k in
      chunk_file hash k file_id contents ≡ some (chunk_loop hash k file_id contents total total 0)
unfolding chunk_file
chunk_file_loop hash k file_id contents hk hn small =
    ground (arith, chunk_total-fits k (length contents) hn small)

-- A sum past the limit makes a total that is not positive.
wrapped_total :
    (k n : ℕ) → n < 2 ^ 63 → k < 2 ^ 63 → 2 ^ 63 < n + k → pos_part (chunk_total k n) ≡ 0
unfolding chunk_total wrap64 quotient
wrapped_total k n hn hk large =
    let s = n + k - 1 in
    let same : s % 2 ^ 64 ≡ s = omega arith in
    let high : ltb s (2 ^ 63) ≡ false = ground arith in
    rw same (
      rw high (elim (Bool-cases (suc (2 ^ 64 - 1 - s) / k == 0)) [
        | inl e ↦ rw e refl
        | inr e ↦ rw e refl
      ]))

-- Then a file that is not empty is split into no chunks, without an error.
chunk_file_wraps :
    (hash : List ℕ → Str) (k : ℕ) (file_id : Str) (contents : List ℕ)
    → length contents < 2 ^ 63
    → k < 2 ^ 63
    → 2 ^ 63 < length contents + k
    → chunk_file hash k file_id contents ≡ some []
unfolding chunk_file chunk_loop
chunk_file_wraps hash k file_id contents hn hk large =
    ground (arith, wrapped_total k (length contents) hn hk large)

-- Over a positive chunk size, and below the int64 limit, `ChunkFile` succeeds, numbers its chunks from 0, and the chunks cover
-- the file without a gap or an overlap.
pub chunk_file-Covers :
    (hash : List ℕ → Str) (k : ℕ) (file_id : Str) (contents : List ℕ)
    → 0 < k
    → length contents + k ≤ 2 ^ 63
    → (cs : List Chunk) × (chunk_file hash k file_id contents ≡ some cs)
      × (cs ≢ [])
      × Numbered 0 cs
      × Covers 0 cs contents
unfolding chunk_loop empty_chunk
chunk_file-Covers hash k file_id [] hk small = (
  empty_chunk hash file_id ∷ [],
  chunk_file_empty hash k file_id,
  λ e. cc,
  (refl, tt),
  more {o' = 0} {d = []} (empty_chunk hash file_id) refl refl refl refl done,
)
chunk_file-Covers hash k file_id (b ∷ bs) hk small =
    let contents = b ∷ bs in
    let n = length contents in
    let total = (n + k - 1) / k in
    let zero_mul : 0 * k ≡ 0 = omega arith in
    let bounds = ceil_bounds n k hk (omega arith) in
    let pos_total : total ≡ suc (total - 1) = omega (arith, ceil_pos n k hk (omega arith)) in
    (
      chunk_loop hash k file_id contents total total 0,
      chunk_file_loop hash k file_id contents hk (omega arith) small,
      rw pos_total (λ e. cc),
      chunk_loop-Numbered hash k file_id contents total total 0,
      subst (λ o. Covers o (chunk_loop hash k file_id contents total total 0) (drop o contents))
          zero_mul
          (chunk_loop-Covers hash k file_id contents total total 0 (omega (arith, bounds.0)) (
            subst (Fits hash k file_id contents total 0) (sym pos_total)
              (omega (arith, bounds.1)))),
    )
