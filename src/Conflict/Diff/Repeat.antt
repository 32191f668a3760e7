-- ===== src/Conflict/Diff/Repeat.antt =====
-- internal/sync/conflict/merge.go: a merge of a text with itself.
use mathlib.Core.List.{reverse, reverse-cons, reverse-reverse, append-nil}
use p2p_folder_sync.Prelude.{
  ◌≡◌, refl, ap, ◌∙◌, [], ◌∷◌, ◌++◌, append_assoc, list_eq, nat_eq, arith,
}
use p2p_folder_sync.Conflict.Diff.{
  Lines, find_common_prefix, suffix_loop, find_common_suffix, merge_middle_parts, middle,
  merge_lines,
}

find_common_prefix_self : (ls : Lines) → find_common_prefix ls ls ≡ ls
unfolding find_common_prefix
find_common_prefix_self [] = refl
find_common_prefix_self (l ∷ ls) = ground (arith, find_common_prefix_self ls)

suffix_loop_self : (ls common : Lines) → suffix_loop ls ls common ≡ reverse ls ++ common
unfolding suffix_loop
suffix_loop_self [] common = refl
suffix_loop_self (l ∷ ls) common = ground (
  arith,
  suffix_loop_self ls (l ∷ common),
  ap (λ t. t ++ common) (reverse-cons l ls),
  append_assoc (reverse ls) (l ∷ []) common,
)

find_common_suffix_self : (ls : Lines) → find_common_suffix ls ls ≡ ls
unfolding find_common_suffix
find_common_suffix_self ls =
    suffix_loop_self (reverse ls) [] ∙ append-nil (reverse (reverse ls)) ∙ reverse-reverse ls

middle_self : (ls : Lines) → middle ls ls ls ≡ []
unfolding middle
middle_self [] = refl
middle_self (l ∷ ls) = ground arith

-- Merging a text with itself repeats the text: the common prefix and the common suffix are both the
-- whole of it, and both are written out.
pub merge_lines_self : (ls : Lines) → merge_lines ls ls ≡ ls ++ ls
unfolding merge_lines merge_middle_parts
merge_lines_self ls =
    rw (find_common_prefix_self ls, find_common_suffix_self ls, middle_self ls) refl
