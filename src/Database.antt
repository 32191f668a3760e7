-- ===== src/Database.antt =====
-- internal/database: the tables of db.go. A SQL statement is a function of the tables, or a fault of
-- the database engine, which is the argument `fault`: it leaves the tables as they are. A column
-- of 0 and 1 is a Bool, a REAL column of seconds an integer, as a float64 holds it below 2^53; the
-- reading of the log has the rounding of a float64. Rows of one sort key come in the order of the
-- table.
pub mod Files
pub mod Log
pub mod Chunks
use p2p_folder_sync.Prelude.{ℕ, Bool, Option, none, some, List, ◌++◌, Str, ℤ}
use p2p_folder_sync.Prelude.Dict.{Dict}
use p2p_folder_sync.Prelude.Fallible.{Fallible, returned, failed}
use p2p_folder_sync.VectorClock.{VectorClock}

-- `json.Marshal` and `json.Unmarshal` of a clock, where a nil map is null.
pub record Codec : Type 0 where
  pub marshal : Option VectorClock → Fallible Str
  pub unmarshal : Str → Fallible (Option VectorClock)

-- The table `files`, whose key is the file id.
pub record FileRow : Type 0 where
  pub path : Str
  pub checksum : Str
  pub size : ℤ
  pub mtime : ℤ
  pub mode : Option ℕ
  pub peer_id : Str
  pub vector_clock : Str
  pub compressed : Bool
  pub original_size : Option ℤ
  pub compression_algorithm : Option Str
  pub created_at : ℤ
  pub updated_at : ℤ

-- The table `operations`.
pub record LogRow : Type 0 where
  pub sequence : ℕ
  pub operation_id : Str
  pub timestamp : ℤ
  pub operation_type : Str
  pub peer_id : Str
  pub vector_clock : Str
  pub acknowledged : Bool
  pub persisted : Bool
  pub file_id : Option Str
  pub path : Str
  pub from_path : Option Str
  pub checksum : Option Str
  pub size : Option ℤ
  pub mtime : Option ℤ
  pub mode : Option ℕ
  pub chunk_count : ℤ
  pub data_bytes : List ℕ
  pub compressed : Bool
  pub original_size : Option ℤ
  pub compression_algorithm : Option Str

-- The table `chunks`, whose key is the file id with the chunk id.
pub record ChunkRow : Type 0 where
  pub file_id : Str
  pub chunk_id : ℤ
  pub chunk_hash : Str
  pub offset : ℤ
  pub len : ℤ
  pub received : Bool
  pub received_at : Option ℤ

-- The operations stand in the order of their sequence numbers, which the engine counts up.
pub record Database : Type 0 where
  pub files : Dict Str FileRow
  pub operations : List LogRow
  pub next_sequence : ℕ
  pub chunks : List ChunkRow

-- An error with the text of the code before its cause.
abbrev pub because {ℓ} : {A : Type ℓ} → Str → Fallible A → Fallible A
because text (returned a) = returned a
because text (failed cause) = failed (text ++ cause)

-- A statement that changes the tables: `error` is its constraint's, where one is broken.
unfoldable pub exec : Str → Option Str → Option Str → Database → Database → Option Str × Database
exec text (some cause) error after db = (some (text ++ cause), db)
exec text none (some cause) after db = (some (text ++ cause), db)
exec text none none after db = (none, after)

-- A query, whose rows are scanned.
unfoldable pub query {ℓ} : {A : Type ℓ} → Str → Option Str → Fallible A → Fallible A
query text (some cause) result = failed (text ++ cause)
query text none result = result
