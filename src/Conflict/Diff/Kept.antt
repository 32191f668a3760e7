-- ===== src/Conflict/Diff/Kept.antt =====
-- internal/sync/conflict/merge.go: what a merge of lines keeps.
use mathlib.Core.List.{append-nil}
use p2p_folder_sync.Prelude.{
  ◌-◌, ◌≡◌, refl, ap, sym, ◌∙◌, subst, inl, inr, true, false, ◌||◌, [], ◌∷◌, ◌++◌, length, take,
  ltb, Str, bytes, list_eq, nat_eq, contains, arith, Bool-cases,
}
use p2p_folder_sync.Conflict.Diff.{
  Lines, find_common_prefix, find_common_suffix, get_line_prefix, has_line_prefix,
  is_modification_of, unique_additions, new_lines, is_nil, merge_both, merge_before,
  merge_middle_parts, middle, merge_lines,
}
use p2p_folder_sync.Conflict.Diff.Ends.{
  EndsWith, find_common_suffix_left, find_common_suffix_right, find_common_prefix_left,
  find_common_prefix_comm, contains-append, overlap, middle_between, middle_covers, take_front,
}

unique_additions-kept :
    (x : Str) (ls before2 ms : Lines)
    → contains ls x ≡ true
    → (contains before2 x
        || (contains ms x
            || (contains (unique_additions ls before2 ms) x || is_modification_of x before2)))
      ≡ true
unfolding unique_additions
unique_additions-kept x [] before2 ms h = cc
unique_additions-kept x (l ∷ ls) before2 ms h =
    ground (arith, unique_additions-kept x ls before2 ms)

new_lines-kept :
    (x : Str) (ls before2 : Lines)
    → contains ls x ≡ true
    → (contains before2 x || contains (new_lines ls before2) x) ≡ true
unfolding new_lines
new_lines-kept x [] before2 h = cc
new_lines-kept x (l ∷ ls) before2 h = ground (arith, new_lines-kept x ls before2)

-- `out` has every line of the second part, and of the first part every line that is not taken for
-- a modification of a line of the second.
abbrev Keeps : Str → Lines → Lines → Lines → Type 0
Keeps x first second out =
    (contains second x ≡ true → contains out x ≡ true)
    × (contains first x ≡ true → (contains out x || is_modification_of x second) ≡ true)

has_line_prefix-append :
    (p : Str) (xs ys : Lines)
    → has_line_prefix p (xs ++ ys) ≡ (has_line_prefix p xs || has_line_prefix p ys)
unfolding has_line_prefix
has_line_prefix-append p [] ys = refl
has_line_prefix-append p (x ∷ xs) ys = ground (arith, has_line_prefix-append p xs ys)

is_modification_of-append :
    (x : Str) (xs ys : Lines)
    → is_modification_of x (xs ++ ys) ≡ (is_modification_of x xs || is_modification_of x ys)
unfolding is_modification_of
is_modification_of-append x xs ys = ground (arith, has_line_prefix-append (get_line_prefix x) xs ys)

is_modification_of_nil : (x : Str) → is_modification_of x [] ≡ false
unfolding is_modification_of has_line_prefix
is_modification_of_nil x = ground arith

merge_both-Keeps :
    (x : Str) (b1 b2 ms suffix : Lines) → Keeps x (b1 ++ ms) (b2 ++ ms) (merge_both b1 b2 ms suffix)
unfolding merge_both is_nil
merge_both-Keeps x b1 b2 [] suffix =
    let u = unique_additions b1 b2 [] in
    let marked = bytes "=======" ∷ (b2 ++ (bytes ">>>>>>> branch2" ∷ [])) in
    let c1 = contains-append x b2 u in
    let c2 = contains-append x b1 b2 in
    let c3 = contains-append x b1 marked in
    let c4 = contains-append x b2 (bytes ">>>>>>> branch2" ∷ []) in
    let kept = unique_additions-kept x b1 b2 [] in
    rw (append-nil b1, append-nil b2)
      (ground (arith, c1, c2, c3, c4), ground (arith, c1, c2, c3, c4, kept))
merge_both-Keeps x b1 b2 (m ∷ ms) suffix =
    let mms = m ∷ ms in
    let u = unique_additions b1 b2 mms in
    let n = new_lines b1 b2 in
    let c1 = contains-append x b1 mms in
    let c2 = contains-append x b2 mms in
    let c3 = contains-append x b2 (mms ++ u) in
    let c4 = contains-append x mms u in
    let c5 = contains-append x b2 (mms ++ n) in
    let c6 = contains-append x mms n in
    (
      ground (arith, c2, c3, c4, c5, c6),
      ground (
        arith,
        c1,
        c2,
        c3,
        c4,
        c5,
        c6,
        unique_additions-kept x b1 b2 mms,
        new_lines-kept x b1 b2,
        is_modification_of-append x b2 mms,
      ),
    )

merge_before-Keeps :
    (x : Str) (b1 b2 ms suffix : Lines)
    → Keeps x (b1 ++ ms) (b2 ++ ms) (merge_before b1 b2 ms suffix)
unfolding merge_before
merge_before-Keeps x [] [] ms suffix = (λ h. h, λ h. ground arith)
merge_before-Keeps x [] (l ∷ b2) ms suffix =
    (λ h. h, λ h. ground (arith, contains-append x (l ∷ b2) ms))
merge_before-Keeps x (k ∷ b1) [] ms suffix =
    (λ h. ground (arith, contains-append x (k ∷ b1) ms), λ h. ground arith)
merge_before-Keeps x (k ∷ b1) (l ∷ b2) ms suffix = merge_both-Keeps x (k ∷ b1) (l ∷ b2) ms suffix

-- The split of a middle before the common suffix of the middles.
before_suffix : (ls s : Lines) → EndsWith ls s → take (length ls - length s) ls ++ s ≡ ls
before_suffix ls s (front, whole) = rw whole (ap (λ t. t ++ s) (take_front front s))

merge_middle_parts-Keeps :
    (x : Str) (m1 m2 suffix : Lines) → Keeps x m1 m2 (merge_middle_parts m1 m2 suffix)
unfolding merge_middle_parts
merge_middle_parts-Keeps x [] [] suffix = (λ h. h, λ h. cc)
merge_middle_parts-Keeps x [] (l ∷ m2) suffix = (λ h. h, λ h. cc)
merge_middle_parts-Keeps x (k ∷ m1) [] suffix = (λ h. cc, λ h. ground arith)
merge_middle_parts-Keeps x (k ∷ m1) (l ∷ m2) suffix =
    let ms = find_common_suffix (k ∷ m1) (l ∷ m2) in
    let n = length ms in
    let b1 = take (length (k ∷ m1) - n) (k ∷ m1) in
    let b2 = take (length (l ∷ m2) - n) (l ∷ m2) in
    subst (λ t. Keeps x t (l ∷ m2) (merge_before b1 b2 ms suffix))
      (before_suffix (k ∷ m1) ms (find_common_suffix_left (k ∷ m1) (l ∷ m2)))
      (subst (λ t. Keeps x (b1 ++ ms) t (merge_before b1 b2 ms suffix))
        (before_suffix (l ∷ m2) ms (find_common_suffix_right (k ∷ m1) (l ∷ m2)))
        (merge_before-Keeps x b1 b2 ms suffix))

-- A middle is a run of the list's lines.
middle_modified :
    (x : Str) (p r q s : Lines)
    → p ++ r ≡ q ++ s
    → is_modification_of x (middle (p ++ r) p s) ≡ true
    → is_modification_of x (p ++ r) ≡ true
middle_modified x p r q s e h = elim (Bool-cases (ltb (length p) (length q))) [
  | inl lt ↦ ground (
    arith,
    is_modification_of-append x p r,
    middle_between p r q s e,
    ap (is_modification_of x) (overlap p r q s e (ground arith)),
    is_modification_of-append x (take (length q - length p) r) s,
  )
  | inr ge ↦ ground (arith, middle_between p r q s e, is_modification_of_nil x)
]

-- `p` and `s` are a prefix and a suffix of `ls`.
abbrev Around : Lines → Lines → Lines → Type 0
Around ls p s = ((back : Lines) × (ls ≡ p ++ back)) × EndsWith ls s

Around-covers :
    (x : Str) (ls p s : Lines)
    → Around ls p s
    → contains ls x ≡ true
    → (contains p x || (contains (middle ls p s) x || contains s x)) ≡ true
Around-covers x ls p s ((r, e), (q, f)) h = rw e (middle_covers x p r q s (sym e ∙ f) (rw e at h))

Around-modified :
    (x : Str) (ls p s : Lines)
    → Around ls p s
    → is_modification_of x (middle ls p s) ≡ true
    → is_modification_of x ls ≡ true
Around-modified x ls p s ((r, e), (q, f)) h =
    rw e (middle_modified x p r q s (sym e ∙ f) (rw e at h))

module _ (x : Str) (lines1 lines2 : Lines) where
  abbrev p : Lines
  p = find_common_prefix lines1 lines2

  abbrev s : Lines
  s = find_common_suffix lines1 lines2

  abbrev m1 : Lines
  m1 = middle lines1 p s

  abbrev m2 : Lines
  m2 = middle lines2 p s

  around1 : Around lines1 p s
  around1 = (find_common_prefix_left lines1 lines2, find_common_suffix_left lines1 lines2)

  around2 : Around lines2 p s
  around2 = (
    rw (find_common_prefix_comm lines1 lines2) (find_common_prefix_left lines2 lines1),
    find_common_suffix_right lines1 lines2,
  )

  contains-merge_lines :
      contains (merge_lines lines1 lines2) x
      ≡ (contains p x || (contains (merge_middle_parts m1 m2 s) x || contains s x))
  unfolding merge_lines
  contains-merge_lines = ground (
    arith,
    contains-append x p (merge_middle_parts m1 m2 s ++ s),
    contains-append x (merge_middle_parts m1 m2 s) s,
  )

  -- Every line of the second list is in the merge.
  pub merge_lines_keeps_second :
      contains lines2 x ≡ true → contains (merge_lines lines1 lines2) x ≡ true
  merge_lines_keeps_second h = ground (
    arith,
    contains-merge_lines,
    Around-covers x lines2 p s around2 h,
    (merge_middle_parts-Keeps x m1 m2 s).0,
  )

  -- Every line of the first list is in the merge, or is taken for a modification of a line of the
  -- second list: one that has the same prefix up to its first colon.
  pub merge_lines_keeps_first :
      contains lines1 x ≡ true
      → (contains (merge_lines lines1 lines2) x || is_modification_of x lines2) ≡ true
  merge_lines_keeps_first h = ground (
    arith,
    contains-merge_lines,
    Around-covers x lines1 p s around1 h,
    (merge_middle_parts-Keeps x m1 m2 s).1,
    Around-modified x lines2 p s around2,
  )
