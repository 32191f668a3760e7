-- ===== src/Conflict/Diff.antt =====
-- internal/sync/conflict/merge.go: the merge of two lists of lines.
pub mod Repeat
pub mod Ends
pub mod Kept
use mathlib.Core.List.{reverse}
use p2p_folder_sync.Prelude.{
  ◌+◌, ◌-◌, Bool, true, false, not, ◌&&◌, ◌||◌, none, some, List, [], ◌∷◌, ◌++◌, length, take, drop,
  ltb, Str, bytes, list_eq, nat_eq, ◌==◌, if◌then◌else◌, contains,
}
use p2p_folder_sync.Lines.{before_colon, trim_space, has_prefix, has_space}

abbrev pub Lines : Type 0
Lines = List Str

unfoldable pub find_common_prefix : Lines → Lines → Lines
find_common_prefix [] ys = []
find_common_prefix (x ∷ xs) [] = []
find_common_prefix (x ∷ xs) (y ∷ ys) =
    let rest = find_common_prefix xs ys in if x == y then x ∷ rest else []

-- The loop from the ends of the lists: `xs` and `ys` are reversed.
suffix_loop : Lines → Lines → Lines → Lines
suffix_loop [] ys common = common
suffix_loop (x ∷ xs) [] common = common
suffix_loop (x ∷ xs) (y ∷ ys) common =
    let rest = suffix_loop xs ys (x ∷ common) in if x == y then rest else common

unfoldable pub find_common_suffix : Lines → Lines → Lines
unfolding suffix_loop
find_common_suffix lines1 lines2 = suffix_loop (reverse lines1) (reverse lines2) []

unfoldable pub get_line_prefix : Str → Str
get_line_prefix line = elim (before_colon line) [
  | none ↦ []
  | some part ↦
      let prefix = trim_space part in
      if has_prefix prefix (bytes "Line ") || has_space prefix then prefix ++ bytes ":" else []
]

has_line_prefix : Str → Lines → Bool
has_line_prefix prefix [] = false
has_line_prefix prefix (l ∷ ls) =
    let rest = has_line_prefix prefix ls in if get_line_prefix l == prefix then true else rest

unfoldable pub is_modification_of : Str → Lines → Bool
unfolding has_line_prefix
is_modification_of line lines =
    let prefix = get_line_prefix line in
    if prefix == [] then false else has_line_prefix prefix lines

unfoldable pub are_disjoint : Lines → Lines → Bool
are_disjoint lines1 [] = true
are_disjoint lines1 (l ∷ lines2) =
    let rest = are_disjoint lines1 lines2 in if contains lines1 l then false else rest

-- The lines of the first list that the loop over `beforeSuffix1` adds where the parts overlap.
unique_additions : Lines → Lines → Lines → Lines
unique_additions [] before2 middle_suffix = []
unique_additions (l ∷ ls) before2 middle_suffix =
    let rest = unique_additions ls before2 middle_suffix in
    if not (contains before2 l)
      && (not (contains middle_suffix l) && not (is_modification_of l before2))
    then l ∷ rest
    else rest

-- The lines that the loop adds where the parts are disjoint.
new_lines : Lines → Lines → Lines
new_lines [] before2 = []
new_lines (l ∷ ls) before2 =
    let rest = new_lines ls before2 in if contains before2 l then rest else l ∷ rest

is_nil : Lines → Bool
is_nil [] = true
is_nil (l ∷ ls) = false

-- Both parts before the suffix of the middles have lines.
merge_both : Lines → Lines → Lines → Lines → Lines
unfolding unique_additions new_lines is_nil
merge_both before1 before2 middle_suffix suffix =
    if not (are_disjoint before1 before2)
    then before2 ++ (middle_suffix ++ unique_additions before1 before2 middle_suffix)
    else if not (is_nil middle_suffix)
    then before2 ++ (middle_suffix ++ new_lines before1 before2)
    else if not (is_nil suffix)
    then bytes "<<<<<<< branch1"
      ∷ (before1 ++ (bytes "=======" ∷ (before2 ++ (bytes ">>>>>>> branch2" ∷ []))))
    else before1 ++ before2

-- The four cases of the parts before the suffix of the middles.
merge_before : Lines → Lines → Lines → Lines → Lines
unfolding merge_both
merge_before [] [] middle_suffix suffix = middle_suffix
merge_before [] (l ∷ before2) middle_suffix suffix = (l ∷ before2) ++ middle_suffix
merge_before (k ∷ before1) [] middle_suffix suffix = (k ∷ before1) ++ middle_suffix
merge_before (k ∷ before1) (l ∷ before2) middle_suffix suffix =
    merge_both (k ∷ before1) (l ∷ before2) middle_suffix suffix

-- The four cases of the middles.
merge_middle_parts : Lines → Lines → Lines → Lines
unfolding merge_before
merge_middle_parts [] [] suffix = []
merge_middle_parts [] (l ∷ middle2) suffix = l ∷ middle2
merge_middle_parts (k ∷ middle1) [] suffix = k ∷ middle1
merge_middle_parts (k ∷ middle1) (l ∷ middle2) suffix =
    let m1 = k ∷ middle1 in
    let m2 = l ∷ middle2 in
    let middle_suffix = find_common_suffix m1 m2 in
    let n = length middle_suffix in
    merge_before (take (length m1 - n) m1) (take (length m2 - n) m2) middle_suffix suffix

-- `lines[len(prefix):len(lines)-len(suffix)]`, or nil where the bounds cross.
pub middle : Lines → Lines → Lines → Lines
middle lines prefix suffix =
    let start = length prefix in
    let end = length lines - length suffix in
    if ltb start end then take (end - start) (drop start lines) else []

unfoldable pub merge_lines : Lines → Lines → Lines
unfolding middle merge_middle_parts
merge_lines lines1 lines2 =
    let prefix = find_common_prefix lines1 lines2 in
    let suffix = find_common_suffix lines1 lines2 in
    prefix
    ++ (merge_middle_parts (middle lines1 prefix suffix) (middle lines2 prefix suffix) suffix
        ++ suffix)
