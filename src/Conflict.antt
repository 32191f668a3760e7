-- ===== src/Conflict.antt =====
-- internal/sync/conflict: resolver.go and merge.go.
pub mod Diff
pub mod Resolve
use p2p_folder_sync.Prelude.{
  ℕ, Bool, true, false, not, ◌&&◌, Option, List, [], ◌∷◌, length, ltb, Str, bytes, str_ltb, ℤ, pos,
  ltb_ℤ, inc64, list_eq, nat_eq, int_eq, ◌==◌, ◌!=◌, if◌then◌else◌,
}
use p2p_folder_sync.Lines.{split_lines, join_lines}
use p2p_folder_sync.VectorClock.{VectorClock, compare}
use Diff.{merge_lines}

pub record SyncOperation : Type 0 where
  pub id : Str
  pub type : Str
  pub path : Str
  pub from_path : Option Str
  pub file_id : Str
  pub checksum : Str
  pub size : ℤ
  pub timestamp : ℤ
  pub peer_id : Str
  pub data_bytes : List ℕ

unfoldable pub last_write_wins : SyncOperation → SyncOperation → SyncOperation
last_write_wins op1 op2 =
    if ltb_ℤ op2.timestamp op1.timestamp
    then op1
    else if ltb_ℤ op1.timestamp op2.timestamp
    then op2
    else if str_ltb op1.peer_id op2.peer_id
    then op1
    else op2

-- A printable byte, a tab, a line feed or a carriage return.
abbrev text_byte : ℕ → Bool
text_byte b = not (ltb b 32 && (b != 9 && (b != 10 && b != 13)))

all_text : List ℕ → Bool
all_text [] = true
all_text (b ∷ bs) = let rest = all_text bs in if text_byte b then rest else false

unfoldable pub is_text_file : List ℕ → Bool
unfolding all_text
is_text_file [] = false
is_text_file (b ∷ bs) = all_text (b ∷ bs)

max_int64 : ℤ → ℤ → ℤ
max_int64 a b = if ltb_ℤ b a then a else b

-- The error is always nil.
unfoldable pub three_way_merge : SyncOperation → SyncOperation → SyncOperation
unfolding max_int64
three_way_merge op1 op2 =
    let lines1 = split_lines op1.data_bytes in
    let lines2 = split_lines op2.data_bytes in
    record op1 {
      data_bytes = join_lines (merge_lines lines1 lines2);
      checksum = [];
      timestamp = inc64 (max_int64 op1.timestamp op2.timestamp);
    }

unfoldable pub intelligent_merge : SyncOperation → SyncOperation → SyncOperation
unfolding last_write_wins three_way_merge
intelligent_merge op1 op2 =
    if ltb 0 (length op1.data_bytes)
      && (ltb 0 (length op2.data_bytes)
          && (is_text_file op1.data_bytes && is_text_file op2.data_bytes))
    then three_way_merge op1 op2
    else last_write_wins op1 op2

-- `compareVectorClocks` is a copy of `Compare` of internal/sync/vectorclock.go.
abbrev pub compare_vector_clocks : VectorClock → VectorClock → ℤ
compare_vector_clocks = compare

abbrev pub clocks_concurrent : VectorClock → VectorClock → Bool
clocks_concurrent vc1 vc2 = compare_vector_clocks vc1 vc2 == pos 0

-- `ResolveConflict` of a resolver with the given strategy.
unfoldable pub resolve_conflict :
    Str → SyncOperation → SyncOperation → VectorClock → VectorClock → SyncOperation
resolve_conflict strategy op1 op2 vc1 vc2 =
    if not (clocks_concurrent vc1 vc2)
    then if ltb_ℤ (compare_vector_clocks vc1 vc2) (pos 0) then op2 else op1
    else if strategy == bytes "intelligent_merge"
    then intelligent_merge op1 op2
    else last_write_wins op1 op2
