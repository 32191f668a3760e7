-- ===== src/Chunking.antt =====
-- internal/chunking/chunker.go and assembler.go. Offsets, lengths and sizes are natural numbers,
-- chunk ids are signed. `hash` is hashing.HashString, whose digest comes from a library.
pub mod Split
pub mod Sort
pub mod Assembly
pub mod Made
use p2p_folder_sync.Prelude.{
  ℕ, zero, suc, ◌+◌, ◌-◌, ◌*◌, ◌/◌, Bool, true, Option, none, some, List, [], ◌∷◌, ◌++◌, length,
  take, drop, replicate, ltb, Str, ℤ, pos, negsuc, pos_part, ◌%◌, ◌^◌, ltb_ℤ, list_eq, nat_eq, ◌==◌,
  if◌then◌else◌,
}

pub record Chunk : Type 0 where
  pub file_id : Str
  pub chunk_id : ℤ
  pub offset : ℕ
  pub len : ℕ
  pub data_bytes : List ℕ
  pub hash : Str
  pub file_hash : Str
  pub is_last : Bool
  pub total_chunks : ℤ

-- `data[lo:hi]`, for lo ≤ hi ≤ len(data).
abbrev pub slice {ℓ} : {A : Type ℓ} → ℕ → ℕ → List A → List A
slice lo hi xs = take (hi - lo) (drop lo xs)

-- An int64 sum of two sizes, which wraps around.
unfoldable pub wrap64 : ℕ → ℤ
wrap64 s = let r = s % 2 ^ 64 in if ltb r (2 ^ 63) then pos r else negsuc (2 ^ 64 - 1 - r)

-- The division of Go, which cuts towards 0.
unfoldable pub quotient : ℤ → ℕ → ℤ
quotient (pos a) k = pos (a / k)
quotient (negsuc a) k = let q = suc a / k in if q == 0 then pos 0 else negsuc (q - 1)

-- `totalChunks`, for a positive size and a positive chunk size.
unfoldable pub chunk_total : ℕ → ℕ → ℤ
unfolding wrap64 quotient
chunk_total chunk_size size = quotient (wrap64 (size + chunk_size - 1)) chunk_size

module _ (hash : List ℕ → Str) where
  -- The body of the loop of `ChunkFile`.
  chunk_at : ℕ → Str → List ℕ → ℕ → ℕ → Chunk
  chunk_at chunk_size file_id contents total i =
      let offset = i * chunk_size in
      let end = offset + chunk_size in
      let end' = if ltb (length contents) end then length contents else end in
      let chunk_data = slice offset end' contents in
      record {
        file_id = file_id;
        chunk_id = pos i;
        offset = offset;
        len = length chunk_data;
        data_bytes = chunk_data;
        hash = hash chunk_data;
        file_hash = [];
        is_last = i == total - 1;
        total_chunks = pos total;
      }

  -- The loop from `i`, with `rounds` rounds left.
  chunk_loop : ℕ → Str → List ℕ → ℕ → ℕ → ℕ → List Chunk
  chunk_loop chunk_size file_id contents total zero i = []
  chunk_loop chunk_size file_id contents total (suc rounds) i =
      chunk_at chunk_size file_id contents total i
      ∷ chunk_loop chunk_size file_id contents total rounds (suc i)

  empty_chunk : Str → Chunk
  empty_chunk file_id = record {
    file_id = file_id;
    chunk_id = pos 0;
    offset = 0;
    len = 0;
    data_bytes = [];
    hash = hash [];
    file_hash = [];
    is_last = true;
    total_chunks = pos 1;
  }

  -- `none` is the run-time panic of the division by a chunk size of 0. The error is always nil. A
  -- total that is not positive makes no round of the loop.
  unfoldable pub chunk_file : ℕ → Str → List ℕ → Option (List Chunk)
  unfolding chunk_loop chunk_at empty_chunk chunk_total
  chunk_file chunk_size file_id contents =
      if length contents == 0
      then some (empty_chunk file_id ∷ [])
      else if chunk_size == 0
      then none
      else let total = pos_part (chunk_total chunk_size (length contents)) in
        some (chunk_loop chunk_size file_id contents total total 0)

-- `none` is the division by 0.
unfoldable pub calculate_chunk_count : ℕ → ℕ → Option ℤ
unfolding chunk_total
calculate_chunk_count chunk_size file_size =
    if file_size == 0
    then some (pos 1)
    else if chunk_size == 0
    then none
    else some (chunk_total chunk_size file_size)

-- `sort.Slice` by chunk id. Chunks with one id keep some order; here the order of arrival.
insert_chunk : Chunk → List Chunk → List Chunk
insert_chunk c [] = c ∷ []
insert_chunk c (d ∷ ds) =
    let rest = insert_chunk c ds in if ltb_ℤ d.chunk_id c.chunk_id then d ∷ rest else c ∷ d ∷ ds

unfoldable pub sort_chunks : List Chunk → List Chunk
unfolding insert_chunk
sort_chunks [] = []
sort_chunks (c ∷ cs) = insert_chunk c (sort_chunks cs)

total_size : List Chunk → ℕ
total_size [] = 0
total_size (c ∷ cs) = c.len + total_size cs

-- `copy(buf[offset:], src)`: as many bytes as fit.
copy_at : List ℕ → ℕ → List ℕ → List ℕ
copy_at buf offset src =
    let room = length buf - offset in
    let n = if ltb room (length src) then room else length src in
    take offset buf ++ (take n src ++ drop (offset + n) buf)

pub data AssemblyError : Type 0 where
  no_chunks : AssemblyError
  offset_mismatch : ℕ → ℕ → AssemblyError
  hash_mismatch : Str → Str → AssemblyError
  chunk_hash_mismatch : ℤ → Str → Str → AssemblyError

pub data Result {ℓ} (A : Type ℓ) : Type ℓ where
  ok : A → Result A
  err : AssemblyError → Result A

-- The loop that copies the chunks into `assembled`.
assemble_loop : List Chunk → List ℕ → ℕ → Result (List ℕ)
assemble_loop [] assembled offset = ok assembled
assemble_loop (c ∷ cs) assembled offset =
    let rest = assemble_loop cs (copy_at assembled offset c.data_bytes) (offset + c.len) in
    if c.offset == offset then rest else err (offset_mismatch offset c.offset)

module _ (hash : List ℕ → Str) where
  check_hash : Str → Result (List ℕ) → Result (List ℕ)
  check_hash expected (err e) = err e
  check_hash expected (ok assembled) =
      if hash assembled == expected
      then ok assembled
      else err (hash_mismatch expected (hash assembled))

  assemble_sorted : List Chunk → Str → Result (List ℕ)
  unfolding check_hash
  assemble_sorted sorted expected =
      check_hash expected (assemble_loop sorted (replicate (total_size sorted) 0) 0)

  unfoldable pub assemble_chunks : List Chunk → Str → Result (List ℕ)
  unfolding assemble_sorted assemble_loop total_size copy_at sort_chunks
  assemble_chunks [] expected = err no_chunks
  assemble_chunks (c ∷ cs) expected = assemble_sorted (sort_chunks (c ∷ cs)) expected

  unfoldable pub verify_chunk_hash : Chunk → Result (Unit {0})
  verify_chunk_hash c =
      if hash c.data_bytes == c.hash
      then ok tt
      else err (chunk_hash_mismatch c.chunk_id c.hash (hash c.data_bytes))

  unfoldable pub verify_all_chunks : List Chunk → Result (Unit {0})
  unfolding verify_chunk_hash
  verify_all_chunks [] = ok tt
  verify_all_chunks (c ∷ cs) =
      let rest = verify_all_chunks cs in elim (verify_chunk_hash c) [ ok _ ↦ rest | err e ↦ err e ]
