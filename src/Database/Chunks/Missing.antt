-- ===== src/Database/Chunks/Missing.antt =====
-- internal/database/chunks.go: which chunks of a file are missing after others came.
use p2p_folder_sync.Prelude.{
  ◌≡◌, refl, sym, ◌∙◌, ap, Bool-cases, inl, inr, false, not, ◌&&◌, ◌||◌, none, List, [], ◌∷◌, Str,
  ℤ, ltb_ℤ, list_eq, nat_eq, int_eq, ◌==◌, arith, contains,
}
use p2p_folder_sync.Prelude.Fallible.{returned}
use p2p_folder_sync.Database.{ChunkRow, Database, exec, query}
use p2p_folder_sync.Database.Chunks.{
  ChunkInfo, chunk_info, is_chunk, insert_by_id, by_id, missing_of_file, scan_chunks,
  get_missing_chunks, receive_rows, mark_chunk_received,
}

row_ids : List ChunkRow → List ℤ
row_ids [] = []
row_ids (c ∷ cs) = c.chunk_id ∷ row_ids cs

unfoldable pub chunk_ids : List ChunkInfo → List ℤ
chunk_ids [] = []
chunk_ids (c ∷ cs) = c.chunk_id ∷ chunk_ids cs

ids-scan_chunks : (cs : List ChunkRow) → chunk_ids (scan_chunks cs) ≡ row_ids cs
unfolding chunk_ids row_ids scan_chunks chunk_info
ids-scan_chunks [] = refl
ids-scan_chunks (c ∷ cs) = ap (◌∷◌ c.chunk_id) (ids-scan_chunks cs)

contains-insert_by_id :
    (c : ChunkRow) (ds : List ChunkRow) (j : ℤ)
    → contains (row_ids (insert_by_id c ds)) j ≡ (c.chunk_id == j || contains (row_ids ds) j)
unfolding row_ids insert_by_id
contains-insert_by_id c [] j = ground arith
contains-insert_by_id c (d ∷ ds) j =
    let later = contains-insert_by_id c ds j in
    elim (Bool-cases (ltb_ℤ d.chunk_id c.chunk_id)) [
      | inl before ↦ elim (Bool-cases (d.chunk_id == j)) [
        | inl here ↦ ground (arith, before, here)
        | inr elsewhere ↦ ground (arith, before, elsewhere, later)
      ]
      | inr after ↦ ground (arith, after)
    ]

contains-by_id :
    (cs : List ChunkRow) (j : ℤ) → contains (row_ids (by_id cs)) j ≡ contains (row_ids cs) j
unfolding row_ids by_id
contains-by_id [] j = refl
contains-by_id (c ∷ cs) j =
    ground (arith, contains-insert_by_id c (by_id cs) j, contains-by_id cs j)

missing_received :
    (now : ℤ) (file_id : Str) (i j : ℤ) (cs : List ChunkRow)
    → contains (row_ids (missing_of_file file_id (receive_rows now file_id i cs))) j
      ≡ (contains (row_ids (missing_of_file file_id cs)) j && not (i == j))
unfolding row_ids missing_of_file receive_rows is_chunk
missing_received now file_id i j [] = refl
missing_received now file_id i j (c ∷ cs) =
    let later = missing_received now file_id i j cs in
    elim (Bool-cases (c.file_id == file_id)) [
      | inr other ↦ ground (arith, other, later)
      | inl mine ↦ elim (Bool-cases (c.chunk_id == i)) [
        | inl came ↦
            let number : c.chunk_id ≡ i = ground (arith, came) in
            let same : (c.chunk_id == j) ≡ (i == j) = ap (λ k. k == j) number in
            ground (arith, mine, came, same, later)
        | inr still ↦ elim (Bool-cases (c.chunk_id == j)) [
          | inr differs ↦ ground (arith, mine, still, differs, later)
          | inl here ↦
              let number : c.chunk_id ≡ j = ground (arith, here) in
              let other : (i == j) ≡ false = ground (arith, still, number) in
              ground (arith, mine, still, here, other, later)
        ]
      ]
    ]

unfoldable pub marks : List ℤ → ℤ → Str → Database → Database
marks [] now file_id db = db
marks (i ∷ is) now file_id db = marks is now file_id (mark_chunk_received none now file_id i db).1

missing_marked :
    (is : List ℤ) (now : ℤ) (file_id : Str) (db : Database) (j : ℤ)
    → contains (row_ids (missing_of_file file_id (marks is now file_id db).chunks)) j
      ≡ (contains (row_ids (missing_of_file file_id db.chunks)) j && not (contains is j))
unfolding marks mark_chunk_received exec
missing_marked [] now file_id db j = ground arith
missing_marked (i ∷ is) now file_id db j =
    let first = missing_received now file_id i j db.chunks in
    let rest = missing_marked is now file_id (mark_chunk_received none now file_id i db).1 j in
    rest ∙ ground (arith, first)

read_ids :
    (file_id : Str) (db : Database) (chunks : List ChunkInfo) (j : ℤ)
    → get_missing_chunks none file_id db ≡ returned chunks
    → contains (chunk_ids chunks) j ≡ contains (row_ids (missing_of_file file_id db.chunks)) j
unfolding get_missing_chunks query
read_ids file_id db chunks j read =
    let rows = missing_of_file file_id db.chunks in
    let same : chunks ≡ scan_chunks (by_id rows) = ground (arith, read) in
    ap (λ cs. contains (chunk_ids cs) j) same
    ∙ ap (λ ids. contains ids j) (ids-scan_chunks (by_id rows))
    ∙ contains-by_id rows j

-- After any chunks of a file were marked as received, in any order and some of them more than once,
-- the chunks that are missing are those that were missing before and were not marked. The database
-- engine is assumed not to fail.
pub missing_after_marks :
    (is : List ℤ) (now : ℤ) (file_id : Str) (db : Database) (before after : List ChunkInfo) (j : ℤ)
    → get_missing_chunks none file_id db ≡ returned before
    → get_missing_chunks none file_id (marks is now file_id db) ≡ returned after
    → contains (chunk_ids after) j ≡ (contains (chunk_ids before) j && not (contains is j))
missing_after_marks is now file_id db before after j read read_after =
    read_ids file_id (marks is now file_id db) after j read_after
    ∙ missing_marked is now file_id db j
    ∙ ap (λ b. b && not (contains is j)) (sym (read_ids file_id db before j read))
