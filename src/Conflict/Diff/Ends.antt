-- ===== src/Conflict/Diff/Ends.antt =====
-- internal/sync/conflict/merge.go: the common ends of two texts, and what is left between them.
use mathlib.Core.List.{reverse, reverse-cons, reverse-reverse, append-nil}
use p2p_folder_sync.Prelude.{
  ◌+◌, ◌-◌, ◌≤◌, ◌≡◌, refl, ap, sym, ◌∙◌, inl, inr, true, ◌||◌, [], ◌∷◌, ◌++◌, append_assoc, length,
  take, drop, ltb, Str, list_eq, nat_eq, ◌==◌, if◌then◌else◌, contains, arith, Bool-cases,
  take-append-drop, drop-append_self, drop-append_add, take-append_self, length-append,
}
use p2p_folder_sync.Conflict.Diff.{
  Lines, find_common_prefix, suffix_loop, find_common_suffix, middle,
}

-- The lists of lines with a common end.
abbrev pub EndsWith : Lines → Lines → Type 0
EndsWith ls s = (front : Lines) × (ls ≡ front ++ s)

suffix_loop_left :
    (xs ys common : Lines) → EndsWith (reverse xs ++ common) (suffix_loop xs ys common)
unfolding suffix_loop
suffix_loop_left [] ys common = ([], refl)
suffix_loop_left (x ∷ xs) [] common = (reverse (x ∷ xs), refl)
suffix_loop_left (x ∷ xs) (y ∷ ys) common = elim (Bool-cases (x == y)) [
  | inl e ↦
      let (front, whole) = suffix_loop_left xs ys (x ∷ common) in
      (
        front,
        rw e (
            ap (λ t. t ++ common) (reverse-cons x xs)
            ∙ append_assoc (reverse xs) (x ∷ []) common
            ∙ whole),
      )
  | inr e ↦ (reverse (x ∷ xs), rw e)
]

suffix_loop_comm : (xs ys common : Lines) → suffix_loop xs ys common ≡ suffix_loop ys xs common
unfolding suffix_loop
suffix_loop_comm [] [] common = refl
suffix_loop_comm [] (y ∷ ys) common = refl
suffix_loop_comm (x ∷ xs) [] common = refl
suffix_loop_comm (x ∷ xs) (y ∷ ys) common = ground (arith, suffix_loop_comm xs ys (x ∷ common))

pub find_common_suffix_left : (xs ys : Lines) → EndsWith xs (find_common_suffix xs ys)
unfolding find_common_suffix
find_common_suffix_left xs ys =
    let (front, whole) = suffix_loop_left (reverse xs) (reverse ys) [] in
    (front, sym (reverse-reverse xs) ∙ sym (append-nil (reverse (reverse xs))) ∙ whole)

pub find_common_suffix_comm : (xs ys : Lines) → find_common_suffix xs ys ≡ find_common_suffix ys xs
unfolding find_common_suffix
find_common_suffix_comm xs ys = suffix_loop_comm (reverse xs) (reverse ys) []

pub find_common_suffix_right : (xs ys : Lines) → EndsWith ys (find_common_suffix xs ys)
find_common_suffix_right xs ys = rw (find_common_suffix_comm xs ys) (find_common_suffix_left ys xs)

pub find_common_prefix_left :
    (xs ys : Lines) → (back : Lines) × (xs ≡ find_common_prefix xs ys ++ back)
unfolding find_common_prefix
find_common_prefix_left [] ys = ([], refl)
find_common_prefix_left (x ∷ xs) [] = (x ∷ xs, refl)
find_common_prefix_left (x ∷ xs) (y ∷ ys) = elim (Bool-cases (x == y)) [
  | inl e ↦ let (back, whole) = find_common_prefix_left xs ys in (back, rw e (ap (◌∷◌ x) whole))
  | inr e ↦ (x ∷ xs, rw e)
]

pub find_common_prefix_comm : (xs ys : Lines) → find_common_prefix xs ys ≡ find_common_prefix ys xs
unfolding find_common_prefix
find_common_prefix_comm [] [] = refl
find_common_prefix_comm [] (y ∷ ys) = refl
find_common_prefix_comm (x ∷ xs) [] = refl
find_common_prefix_comm (x ∷ xs) (y ∷ ys) = ground (arith, find_common_prefix_comm xs ys)

pub contains-append :
    (x : Str) (xs ys : Lines) → contains (xs ++ ys) x ≡ (contains xs x || contains ys x)
contains-append x [] ys = refl
contains-append x (y ∷ xs) ys = ground (arith, contains-append x xs ys)

-- Where two splits of a list overlap, the longer rest ends with the shorter one.
pub overlap :
    (p r q s : Lines)
    → p ++ r ≡ q ++ s
    → length p ≤ length q
    → r ≡ take (length q - length p) r ++ s
overlap p r q s e h =
    let m = length q - length p in
    let len : length q ≡ length p + m = omega arith in
    let tail : drop m r ≡ s =
      sym (drop-append_add p r m)
      ∙ ap (λ n. drop n (p ++ r)) (sym len)
      ∙ ap (drop (length q)) e
      ∙ drop-append_self q s in
    sym (take-append-drop m r) ∙ ap (λ t. take m r ++ t) tail

pub middle_between :
    (p r q s : Lines)
    → p ++ r ≡ q ++ s
    → middle (p ++ r) p s ≡ (if ltb (length p) (length q) then take (length q - length p) r else [])
unfolding middle
middle_between p r q s e =
    let len : length (p ++ r) - length s ≡ length q =
      omega (arith, ap length e, length-append q s) in
    rw (len, drop-append_self p r) refl

-- With a prefix and a suffix of a list, every line is in the prefix, the middle or the suffix.
pub middle_covers :
    (x : Str) (p r q s : Lines)
    → p ++ r ≡ q ++ s
    → contains (p ++ r) x ≡ true
    → (contains p x || (contains (middle (p ++ r) p s) x || contains s x)) ≡ true
middle_covers x p r q s e h = elim (Bool-cases (ltb (length p) (length q))) [
  | inl lt ↦ ground (
    arith,
    contains-append x p r,
    middle_between p r q s e,
    ap (λ t. contains t x) (overlap p r q s e (ground arith)),
    contains-append x (take (length q - length p) r) s,
  )
  | inr ge ↦ ground (
    arith,
    contains-append x p r,
    ap (λ t. contains t x) (overlap q s p r (sym e) (ground arith)),
    contains-append x (take (length p - length q) s) r,
  )
]

-- The part before a common end, as the source slices it.
pub take_front : (front s : Lines) → take (length (front ++ s) - length s) (front ++ s) ≡ front
take_front front s =
    let len : length (front ++ s) - length s ≡ length front =
      omega (arith, length-append front s) in
    rw len (take-append_self front s)
