-- ===== src/Database/Chunks.antt =====
-- internal/database/chunks.go.
pub mod Missing
use p2p_folder_sync.Prelude.{
  Bool, true, not, ◌&&◌, Option, none, some, List, [], ◌∷◌, Str, bytes, ℤ, ltb_ℤ, list_eq, nat_eq,
  int_eq, ◌==◌, if◌then◌else◌,
}
use p2p_folder_sync.Prelude.Dict.{has}
use p2p_folder_sync.Prelude.Fallible.{Fallible, returned}
use p2p_folder_sync.Rows.{unix, of_unix}
use p2p_folder_sync.Database.{ChunkRow, Database, exec, query}

-- A time is its milliseconds here, and its seconds in the row.
pub record ChunkInfo : Type 0 where
  pub file_id : Str
  pub chunk_id : ℤ
  pub chunk_hash : Str
  pub offset : ℤ
  pub len : ℤ
  pub received : Bool
  pub received_at : Option ℤ

unfoldable pub chunk_row : ChunkInfo → ChunkRow
chunk_row c = record {
  file_id = c.file_id;
  chunk_id = c.chunk_id;
  chunk_hash = c.chunk_hash;
  offset = c.offset;
  len = c.len;
  received = c.received;
  received_at = elim c.received_at [ none ↦ none | some t ↦ some (unix t) ];
}

unfoldable pub chunk_info : ChunkRow → ChunkInfo
chunk_info c = record {
  file_id = c.file_id;
  chunk_id = c.chunk_id;
  chunk_hash = c.chunk_hash;
  offset = c.offset;
  len = c.len;
  received = c.received;
  received_at = elim c.received_at [ none ↦ none | some t ↦ some (of_unix t) ];
}

unfoldable pub is_chunk : Str → ℤ → ChunkRow → Bool
is_chunk file_id chunk_id c = c.file_id == file_id && c.chunk_id == chunk_id

unfoldable pub upsert : ChunkRow → List ChunkRow → List ChunkRow
upsert c [] = c ∷ []
upsert c (d ∷ ds) =
    let rest = upsert c ds in if is_chunk c.file_id c.chunk_id d then c ∷ ds else d ∷ rest

-- The file that a chunk refers to must be there.
unfoldable pub insert_or_update_chunk : Option Str → ChunkInfo → Database → Option Str × Database
insert_or_update_chunk fault chunk db =
    exec (bytes "failed to insert/update chunk: ") fault
      (if has chunk.file_id db.files then none else some (bytes "FOREIGN KEY constraint failed"))
      (record db { chunks = upsert (chunk_row chunk) db.chunks }) db

-- `ORDER BY chunk_id ASC`.
unfoldable pub insert_by_id : ChunkRow → List ChunkRow → List ChunkRow
insert_by_id c [] = c ∷ []
insert_by_id c (d ∷ ds) =
    let rest = insert_by_id c ds in if ltb_ℤ d.chunk_id c.chunk_id then d ∷ rest else c ∷ d ∷ ds

unfoldable pub by_id : List ChunkRow → List ChunkRow
unfolding insert_by_id
by_id [] = []
by_id (c ∷ cs) = insert_by_id c (by_id cs)

unfoldable pub chunks_of_file : Str → List ChunkRow → List ChunkRow
chunks_of_file file_id [] = []
chunks_of_file file_id (c ∷ cs) =
    let rest = chunks_of_file file_id cs in if c.file_id == file_id then c ∷ rest else rest

unfoldable pub missing_of_file : Str → List ChunkRow → List ChunkRow
missing_of_file file_id [] = []
missing_of_file file_id (c ∷ cs) =
    let rest = missing_of_file file_id cs in
    if c.file_id == file_id && not c.received then c ∷ rest else rest

unfoldable pub scan_chunks : List ChunkRow → List ChunkInfo
unfolding chunk_info
scan_chunks [] = []
scan_chunks (c ∷ cs) = chunk_info c ∷ scan_chunks cs

unfoldable pub get_chunks_for_file : Option Str → Str → Database → Fallible (List ChunkInfo)
get_chunks_for_file fault file_id db =
    query (bytes "failed to query chunks: ") fault
      (returned (scan_chunks (by_id (chunks_of_file file_id db.chunks))))

unfoldable pub get_missing_chunks : Option Str → Str → Database → Fallible (List ChunkInfo)
get_missing_chunks fault file_id db =
    query (bytes "failed to query missing chunks: ") fault
      (returned (scan_chunks (by_id (missing_of_file file_id db.chunks))))

-- `now` is `unixepoch()`.
unfoldable pub receive_rows : ℤ → Str → ℤ → List ChunkRow → List ChunkRow
receive_rows now file_id chunk_id [] = []
receive_rows now file_id chunk_id (c ∷ cs) =
    (if is_chunk file_id chunk_id c
      then record c { received = true; received_at = some now }
      else c)
    ∷ receive_rows now file_id chunk_id cs

unfoldable pub mark_chunk_received : Option Str → ℤ → Str → ℤ → Database → Option Str × Database
mark_chunk_received fault now file_id chunk_id db =
    exec (bytes "failed to mark chunk received: ") fault none
      (record db { chunks = receive_rows now file_id chunk_id db.chunks }) db

unfoldable pub without_file : Str → List ChunkRow → List ChunkRow
without_file file_id [] = []
without_file file_id (c ∷ cs) =
    let rest = without_file file_id cs in if c.file_id == file_id then rest else c ∷ rest

unfoldable pub delete_chunks_for_file : Option Str → Str → Database → Option Str × Database
delete_chunks_for_file fault file_id db =
    exec (bytes "failed to delete chunks: ") fault none
      (record db { chunks = without_file file_id db.chunks }) db
