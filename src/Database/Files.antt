-- ===== src/Database/Files.antt =====
-- internal/database/files.go.
pub mod Stored
use p2p_folder_sync.Prelude.{
  ℕ, Bool, true, false, not, Option, none, some, List, [], ◌∷◌, ◌++◌, Str, bytes, str_ltb, ℤ, ltb_ℤ,
  list_eq, nat_eq, ◌==◌, if◌then◌else◌,
}
use p2p_folder_sync.Prelude.Dict.{Dict, lookup, insert, erase}
use p2p_folder_sync.Prelude.Fallible.{Fallible, returned, failed, ◌>>=◌}
use p2p_folder_sync.Rows.{FileMetadata, unix, of_unix}
use p2p_folder_sync.Database.{Codec, FileRow, ChunkRow, Database, because, exec, query}

-- The row that the statement writes over what stands there.
unfoldable pub written_row : ℤ → Str → FileMetadata → Option FileRow → FileRow
written_row now vc_json fm old = record {
  path = fm.path;
  checksum = fm.checksum;
  size = fm.size;
  mtime = unix fm.mtime;
  mode = fm.mode;
  peer_id = fm.peer_id;
  vector_clock = vc_json;
  compressed = fm.compressed;
  original_size = fm.original_size;
  compression_algorithm = fm.compression_algorithm;
  created_at = elim old [ none ↦ now | some row ↦ row.created_at ];
  updated_at = now;
}

-- `now` is `unixepoch()`.
unfoldable pub insert_file :
    Codec → Option Str → ℤ → FileMetadata → Database → Option Str × Database
insert_file codec fault now fm db = elim (codec.marshal fm.vector_clock) [
  | failed e ↦ (some (bytes "failed to marshal vector clock: " ++ e), db)
  | returned vc_json ↦
      exec (bytes "failed to insert file: ") fault none
        (record db {
          files =
              insert fm.file_id (written_row now vc_json fm (lookup fm.file_id db.files)) db.files;
        })
        db
]

unfoldable pub scanned : Codec → Str → FileRow → Fallible FileMetadata
scanned codec file_id row =
    because (bytes "failed to unmarshal vector clock: ") (codec.unmarshal row.vector_clock)
    >>= λ vc. returned (record {
      file_id = file_id;
      path = row.path;
      checksum = row.checksum;
      size = row.size;
      mtime = of_unix row.mtime;
      mode = row.mode;
      peer_id = row.peer_id;
      vector_clock = vc;
      compressed = row.compressed;
      original_size = row.original_size;
      compression_algorithm = row.compression_algorithm;
      created_at = of_unix row.created_at;
      updated_at = of_unix row.updated_at;
    })

unfoldable pub get_file : Codec → Option Str → Str → Database → Fallible FileMetadata
unfolding scanned
get_file codec fault file_id db =
    query (bytes "failed to get file: ") fault (elim (lookup file_id db.files) [
      | none ↦ failed (bytes "file not found: " ++ file_id)
      | some row ↦ scanned codec file_id row
    ])

-- The rows of a path, the latest first to be found.
later : Str × FileRow → Option (Str × FileRow) → Option (Str × FileRow)
later row none = some row
later (file_id, row) (some (best_id, best)) =
    if ltb_ℤ row.updated_at best.updated_at then some (best_id, best) else some (file_id, row)

unfoldable pub latest_at : Str → Dict Str FileRow → Option (Str × FileRow)
unfolding later
latest_at path [] = none
latest_at path ((file_id, row) ∷ rows) =
    let rest = latest_at path rows in if row.path == path then later (file_id, row) rest else rest

unfoldable pub get_file_by_path : Codec → Option Str → Str → Database → Fallible FileMetadata
unfolding scanned latest_at
get_file_by_path codec fault path db =
    query (bytes "failed to get file by path: ") fault (elim (latest_at path db.files) [
      | none ↦ failed (bytes "file not found: " ++ path)
      | some (file_id, row) ↦ scanned codec file_id row
    ])

-- An empty column is a nil clock here.
unfoldable pub get_file_by_id : Codec → Option Str → Str → Database → Fallible FileMetadata
unfolding scanned
get_file_by_id codec fault file_id db =
    query (bytes "failed to get file by ID: ") fault (elim (lookup file_id db.files) [
      | none ↦ failed (bytes "file not found: " ++ file_id)
      | some row ↦
          if row.vector_clock == []
          then scanned (record codec { unmarshal = λ vc_json. returned none }) file_id row
          else scanned codec file_id row
    ])

has_chunks : Str → List ChunkRow → Bool
has_chunks file_id [] = false
has_chunks file_id (c ∷ cs) =
    let rest = has_chunks file_id cs in if c.file_id == file_id then true else rest

-- Chunks that refer to the file stop the deletion.
unfoldable pub delete_file : Option Str → Str → Database → Option Str × Database
unfolding has_chunks
delete_file fault file_id db =
    exec (bytes "failed to delete file: ") fault
      (if has_chunks file_id db.chunks then some (bytes "FOREIGN KEY constraint failed") else none)
      (record db { files = erase file_id db.files }) db

-- `ORDER BY path`.
unfoldable pub insert_by_path : Str × FileRow → Dict Str FileRow → Dict Str FileRow
insert_by_path row [] = row ∷ []
insert_by_path (file_id, row) ((other_id, other) ∷ rows) =
    let rest = insert_by_path (file_id, row) rows in
    if str_ltb other.path row.path
    then (other_id, other) ∷ rest
    else (file_id, row) ∷ (other_id, other) ∷ rows

unfoldable pub by_path : Dict Str FileRow → Dict Str FileRow
unfolding insert_by_path
by_path [] = []
by_path (row ∷ rows) = insert_by_path row (by_path rows)

unfoldable pub scan_files : Codec → Dict Str FileRow → Fallible (List FileMetadata)
unfolding scanned
scan_files codec [] = returned []
scan_files codec ((file_id, row) ∷ rows) =
    scanned codec file_id row >>= λ fm. scan_files codec rows >>= λ fms. returned (fm ∷ fms)

unfoldable pub get_all_files : Codec → Option Str → Database → Fallible (List FileMetadata)
unfolding scan_files by_path
get_all_files codec fault db =
    query (bytes "failed to query files: ") fault (scan_files codec (by_path db.files))
