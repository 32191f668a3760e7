-- ===== src/Buffer.antt =====
-- internal/chunking/buffer.go. The time of a call is an argument; `signalled` is the one place of
-- the channel `completeCh`.
pub mod Invariant
use p2p_folder_sync.Prelude.{
  ℕ, zero, suc, ◌+◌, Bool, true, false, not, ◌&&◌, ◌||◌, Option, none, some, List, [], ◌∷◌, length,
  ltb, Str, ℤ, pos, negsuc, ltb_ℤ, list_eq, nat_eq, int_eq, ◌==◌, ◌!=◌, if◌then◌else◌, or_else,
}
use p2p_folder_sync.Prelude.Dict.{Dict, lookup, insert}
use p2p_folder_sync.Chunking.{Chunk}

pub record ChunkBuffer : Type 0 where
  pub file_id : Str
  pub total_chunks : ℤ
  pub chunks : Dict ℤ Chunk
  pub received : Dict ℤ Bool
  pub last_received : ℕ
  pub complete : Bool
  pub signalled : Bool

pub data BufferError : Type 0 where
  file_mismatch invalid_id hash_mismatch not_complete : BufferError
  chunk_missing : ℕ → BufferError

pub data Result {ℓ} (A : Type ℓ) : Type ℓ where
  ok : A → Result A
  err : BufferError → Result A

unfoldable pub new_chunk_buffer : Str → ℤ → ℕ → ChunkBuffer
new_chunk_buffer file_id total_chunks now = record {
  file_id = file_id;
  total_chunks = total_chunks;
  chunks = [];
  received = [];
  last_received = now;
  complete = false;
  signalled = false;
}

-- The test after a chunk is stored.
check_complete : ChunkBuffer → ChunkBuffer
check_complete cb =
    if pos (length cb.chunks) == cb.total_chunks
    then record cb { complete = true; signalled = true }
    else cb

store : ℕ → Chunk → ChunkBuffer → ChunkBuffer
store now c cb = record cb {
  chunks = insert c.chunk_id c cb.chunks;
  received = insert c.chunk_id true cb.received;
  last_received = now;
}

-- The hash is compared with itself, as in the source.
unfoldable pub add_chunk : ℕ → Chunk → ChunkBuffer → Result ChunkBuffer
unfolding check_complete store
add_chunk now c cb =
    if c.file_id != cb.file_id
    then err file_mismatch
    else if ltb_ℤ c.chunk_id (pos 0) || not (ltb_ℤ c.chunk_id cb.total_chunks)
    then err invalid_id
    else if c.hash != c.hash
    then err hash_mismatch
    else ok (check_complete (store now c cb))

-- The rounds of `for i := 0; i < n; i++` over an int.
abbrev pub rounds : ℤ → ℕ
rounds (pos n) = n
rounds (negsuc n) = 0

missing_from : Dict ℤ Bool → ℕ → ℕ → List ℕ
missing_from received zero i = []
missing_from received (suc n) i =
    let rest = missing_from received n (suc i) in
    if or_else (lookup (pos i) received) false then rest else i ∷ rest

unfoldable pub get_missing_chunks : ChunkBuffer → List ℕ
unfolding missing_from
get_missing_chunks cb = missing_from cb.received (rounds cb.total_chunks) 0

collect : Dict ℤ Chunk → ℕ → ℕ → Result (List Chunk)
collect chunks zero i = ok []
collect chunks (suc n) i =
    let rest = collect chunks n (suc i) in
    elim (lookup (pos i) chunks) [
      | none ↦ err (chunk_missing i)
      | some c ↦ elim rest [ ok cs ↦ ok (c ∷ cs) | err e ↦ err e ]
    ]

unfoldable pub get_chunks : ChunkBuffer → Result (List Chunk)
unfolding collect
get_chunks cb =
    if not cb.complete then err not_complete else collect cb.chunks (rounds cb.total_chunks) 0

-- `ChunkTimeout`, 30 seconds, in nanoseconds.
abbrev pub chunk_timeout : ℕ
chunk_timeout = 30_000_000_000

-- `now` is at or after the last chunk.
unfoldable pub should_request_retransmission : ℕ → ChunkBuffer → Bool
should_request_retransmission now cb =
    if cb.complete
    then false
    else ltb (cb.last_received + chunk_timeout) now
      && ltb_ℤ (pos (length cb.chunks)) cb.total_chunks
