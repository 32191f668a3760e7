-- ===== src/Operation.antt =====
-- internal/sync/operation.go. A pointer that may be nil, and a map that may be nil, is an Option.
-- The id that the clock makes is an argument. A mode is a natural number.
use p2p_folder_sync.Prelude.{ℕ, Bool, Option, none, some, List, [], Str, bytes, ℤ, pos}
use p2p_folder_sync.VectorClock.{VectorClock}

abbrev pub op_create : Str
op_create = bytes "create"

abbrev pub op_update : Str
op_update = bytes "update"

abbrev pub op_delete : Str
op_delete = bytes "delete"

abbrev pub op_rename : Str
op_rename = bytes "rename"

pub record SyncOperation : Type 0 where
  pub id : Str
  pub type : Str
  pub path : Str
  pub from_path : Option Str
  pub file_id : Str
  pub checksum : Str
  pub size : ℤ
  pub timestamp : ℤ
  pub vector_clock : Option VectorClock
  pub peer_id : Str
  pub source : Str
  pub mtime : ℤ
  pub mode : Option ℕ
  pub data_bytes : List ℕ
  pub chunk_id : Option ℤ
  pub is_last : Option Bool
  pub compressed : Option Bool
  pub original_size : Option ℤ
  pub compression_algorithm : Option Str
  pub compression_level : Option ℤ

-- An operation all of whose fields are zero values.
abbrev pub zero_operation : SyncOperation
zero_operation = record {
  id = [];
  type = [];
  path = [];
  from_path = none;
  file_id = [];
  checksum = [];
  size = pos 0;
  timestamp = pos 0;
  vector_clock = none;
  peer_id = [];
  source = [];
  mtime = pos 0;
  mode = none;
  data_bytes = [];
  chunk_id = none;
  is_last = none;
  compressed = none;
  original_size = none;
  compression_algorithm = none;
  compression_level = none;
}

unfoldable pub new_sync_operation : Str → ℤ → Str → Str → Str → Str → SyncOperation
new_sync_operation id now op_type path file_id peer_id = record zero_operation {
  id = id;
  type = op_type;
  path = path;
  file_id = file_id;
  peer_id = peer_id;
  source = bytes "local";
  timestamp = now;
  vector_clock = some [];
}
