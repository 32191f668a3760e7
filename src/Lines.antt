-- ===== src/Lines.antt =====
-- What the conflict package uses of the package strings: Split and Join at newlines, SplitN at the
-- first colon, TrimSpace, HasPrefix and Contains.
use mathlib.Core.List.{reverse}
use p2p_folder_sync.Prelude.{
  ℕ, zero, suc, ◌≡◌, ◌≢◌, refl, Bool, true, false, Option, none, some, List, [], ◌∷◌, ◌++◌, map,
  length, Str, ◌==◌, if◌then◌else◌, nat_eq, list_eq, arith, is_some,
}

-- Adds a byte to the first line.
push_byte : ℕ → List Str → List Str
push_byte c [] = (c ∷ []) ∷ []
push_byte c (l ∷ ls) = (c ∷ l) ∷ ls

-- `strings.Split(s, "\n")`
unfoldable pub split_lines : Str → List Str
unfolding push_byte
split_lines [] = [] ∷ []
split_lines (c ∷ cs) = let rest = split_lines cs in if c == 10 then [] ∷ rest else push_byte c rest

-- `strings.Join(ls, "\n")`
unfoldable pub join_lines : List Str → Str
join_lines [] = []
join_lines (l ∷ []) = l
join_lines (l ∷ m ∷ ls) = l ++ (10 ∷ join_lines (m ∷ ls))

join-push_byte : (c : ℕ) (ls : List Str) → ls ≢ [] → join_lines (push_byte c ls) ≡ c ∷ join_lines ls
unfolding join_lines push_byte
join-push_byte c [] h = absurd (h refl)
join-push_byte c (l ∷ []) h = refl
join-push_byte c (l ∷ m ∷ ls) h = refl

split_lines-ne-nil : (s : Str) → split_lines s ≢ []
unfolding split_lines push_byte
split_lines-ne-nil [] = λ e. cc
split_lines-ne-nil (c ∷ cs) = go (split_lines cs)
  where
    go : (ls : List Str) → (if c == 10 then [] ∷ ls else push_byte c ls) ≢ []
    go [] = ground arith
    go (l ∷ ls) = ground arith

-- A text is its lines.
pub join-split_lines : (s : Str) → join_lines (split_lines s) ≡ s
unfolding split_lines
join-split_lines [] = unfold join_lines in refl
join-split_lines (c ∷ cs) = ground (
  arith,
  join-split_lines cs,
  join-push_byte c (split_lines cs) (split_lines-ne-nil cs),
  join_empty (split_lines cs) (split_lines-ne-nil cs),
)
  where
    join_empty : (ls : List Str) → ls ≢ [] → join_lines ([] ∷ ls) ≡ 10 ∷ join_lines ls
    join_empty [] h = absurd (h refl)
    join_empty (l ∷ ls) h = unfold join_lines in refl

-- What stands before the first colon, if there is one: `SplitN(line, ":", 2)[0]`.
unfoldable pub before_colon : Str → Option Str
before_colon [] = none
before_colon (c ∷ cs) =
    let rest = before_colon cs in
    if c == b':' then some [] else (elim rest [ none ↦ none | some s ↦ some (c ∷ s) ])

strip_prefix : Str → Str → Option Str
strip_prefix [] s = some s
strip_prefix (p ∷ ps) [] = none
strip_prefix (p ∷ ps) (c ∷ cs) = let rest = strip_prefix ps cs in if p == c then rest else none

unfoldable pub has_prefix : Str → Str → Bool
unfolding strip_prefix
has_prefix s prefix = is_some (strip_prefix prefix s)

-- `strings.Contains(s, " ")`
unfoldable pub has_space : Str → Bool
has_space [] = false
has_space (c ∷ cs) = let rest = has_space cs in if c == 32 then true else rest

-- The white space of Unicode, in UTF-8.
abbrev spaces : List Str
spaces =
    (9 ∷ [])
    ∷ (10 ∷ [])
    ∷ (11 ∷ [])
    ∷ (12 ∷ [])
    ∷ (13 ∷ [])
    ∷ (32 ∷ [])
    ∷ (0xc2 ∷ 0x85 ∷ [])
    ∷ (0xc2 ∷ 0xa0 ∷ [])
    ∷ (0xe1 ∷ 0x9a ∷ 0x80 ∷ [])
    ∷ (0xe2 ∷ 0x80 ∷ 0x80 ∷ [])
    ∷ (0xe2 ∷ 0x80 ∷ 0x81 ∷ [])
    ∷ (0xe2 ∷ 0x80 ∷ 0x82 ∷ [])
    ∷ (0xe2 ∷ 0x80 ∷ 0x83 ∷ [])
    ∷ (0xe2 ∷ 0x80 ∷ 0x84 ∷ [])
    ∷ (0xe2 ∷ 0x80 ∷ 0x85 ∷ [])
    ∷ (0xe2 ∷ 0x80 ∷ 0x86 ∷ [])
    ∷ (0xe2 ∷ 0x80 ∷ 0x87 ∷ [])
    ∷ (0xe2 ∷ 0x80 ∷ 0x88 ∷ [])
    ∷ (0xe2 ∷ 0x80 ∷ 0x89 ∷ [])
    ∷ (0xe2 ∷ 0x80 ∷ 0x8a ∷ [])
    ∷ (0xe2 ∷ 0x80 ∷ 0xa8 ∷ [])
    ∷ (0xe2 ∷ 0x80 ∷ 0xa9 ∷ [])
    ∷ (0xe2 ∷ 0x80 ∷ 0xaf ∷ [])
    ∷ (0xe2 ∷ 0x81 ∷ 0x9f ∷ [])
    ∷ (0xe3 ∷ 0x80 ∷ 0x80 ∷ [])
    ∷ []

strip_any : List Str → Str → Option Str
unfolding strip_prefix
strip_any [] s = none
strip_any (p ∷ ps) s =
    let rest = strip_any ps s in elim (strip_prefix p s) [ none ↦ rest | some r ↦ some r ]

-- Each round takes at least a byte, so the length of the text is fuel enough.
trim_loop : ℕ → List Str → Str → Str
trim_loop zero ps s = s
trim_loop (suc n) ps s = elim (strip_any ps s) [ none ↦ s | some r ↦ trim_loop n ps r ]

unfoldable pub trim_space : Str → Str
unfolding trim_loop strip_any
trim_space s =
    let left = trim_loop (length s) spaces s in
    reverse (trim_loop (length s) (map reverse spaces) (reverse left))
