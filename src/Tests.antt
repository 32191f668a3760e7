-- ===== src/Tests.antt =====
-- Inputs at which the theorems of the other modules apply, from the operations of each component.
use mathlib.Core.List.{Permᴰ}
use p2p_folder_sync.Prelude.{
  ◌≡◌, refl, ◌↔◌, ℕ, true, false, List, [], ◌∷◌, Str, bytes, pos, negsuc, list_eq, nat_eq, int_eq,
  arith,
}
use p2p_folder_sync.Prelude.Dict.{lookup, insert}
use p2p_folder_sync.VectorClock.{VectorClock, get, increment, merge, compare}
use p2p_folder_sync.VectorClock.Order.{Leq, compare_iff}
use p2p_folder_sync.VectorClock.Merge.{IsClock, receive_then_send}
use p2p_folder_sync.Chunking.{Chunk, ok, chunk_file, assemble_chunks}
use p2p_folder_sync.Chunking.Assembly.{assemble-chunk_file}

-- A stand-in for the digest: the bytes themselves.
abbrev same_bytes : List ℕ → Str
same_bytes b = b

abbrev three_bytes : List ℕ
three_bytes = 7 ∷ 8 ∷ 9 ∷ []

abbrev first_chunk : Chunk
first_chunk = record {
  file_id = bytes "f";
  chunk_id = pos 0;
  offset = 0;
  len = 2;
  data_bytes = 7 ∷ 8 ∷ [];
  hash = 7 ∷ 8 ∷ [];
  file_hash = [];
  is_last = false;
  total_chunks = pos 2;
}

abbrev last_chunk : Chunk
last_chunk = record {
  file_id = bytes "f";
  chunk_id = pos 1;
  offset = 2;
  len = 1;
  data_bytes = 9 ∷ [];
  hash = 9 ∷ [];
  file_hash = [];
  is_last = true;
  total_chunks = pos 2;
}

assemble-chunk_file_example :
    assemble_chunks same_bytes (last_chunk ∷ first_chunk ∷ []) three_bytes ≡ ok three_bytes
unfolding chunk_file nat_eq
assemble-chunk_file_example =
    assemble-chunk_file same_bytes 2 (bytes "f") three_bytes (first_chunk ∷ last_chunk ∷ [])
      (last_chunk ∷ first_chunk ∷ []) (omega arith) (omega arith) refl ∣ Permᴰ.swap refl refl ∣₁

abbrev peer_a : Str
peer_a = bytes "a"

abbrev peer_b : Str
peer_b = bytes "b"

abbrev clock_a : VectorClock
clock_a = (peer_a, pos 2) ∷ []

abbrev clock_b : VectorClock
clock_b = (peer_a, pos 1) ∷ (peer_b, pos 3) ∷ []

abbrev clock_c : VectorClock
clock_c = (peer_a, pos 2) ∷ (peer_b, pos 4) ∷ []

abbrev clock_d : VectorClock
clock_d = (peer_a, pos 5) ∷ (peer_b, pos 4) ∷ []

clock_a-IsClock : IsClock clock_a
unfolding get lookup
clock_a-IsClock = record { distinct = (refl, tt); nonneg = λ p. ground arith }

clock_b-IsClock : IsClock clock_b
unfolding get lookup list_eq nat_eq
clock_b-IsClock = record { distinct = (refl, (refl, tt)); nonneg = λ p. ground arith }

clock_c-IsClock : IsClock clock_c
unfolding get lookup list_eq nat_eq
clock_c-IsClock = record { distinct = (refl, (refl, tt)); nonneg = λ p. ground arith }

b-Leq-c : Leq clock_b clock_c
unfolding get lookup
b-Leq-c p = ground arith

a-Leq-c : Leq clock_a clock_c
unfolding get lookup
a-Leq-c p = ground arith

compare_iff_example :
    ((compare clock_a clock_b ≡ negsuc 0) ↔ (Leq clock_a clock_b × (¬ Leq clock_b clock_a)))
    × ((compare clock_a clock_b ≡ pos 1) ↔ (Leq clock_b clock_a × (¬ Leq clock_a clock_b)))
    × ((compare clock_a clock_b ≡ pos 0) ↔ (Leq clock_a clock_b ↔ Leq clock_b clock_a))
compare_iff_example = compare_iff clock_a clock_b

receive_then_send_example :
    (compare clock_a (increment (merge clock_a clock_b) peer_a) ≡ negsuc 0)
    × (compare clock_b (increment (merge clock_a clock_b) peer_a) ≡ negsuc 0)
unfolding merge get lookup insert list_eq nat_eq
receive_then_send_example =
    receive_then_send clock_a clock_b peer_a clock_a-IsClock clock_b-IsClock (omega arith)
