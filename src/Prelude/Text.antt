-- ===== src/Prelude/Text.antt =====
-- Go strings as byte sequences, with Go's comparison.
use p2p_folder_sync.Prelude.Tests.{if◌then◌else◌, ltb}
use Prim.Native.Nat.{ℕ}
use Prim.Native.Char.{code}
use Prim.Native.String.{String}
use mathlib.Core.Path.{◌≡◌, refl}
use mathlib.Core.Bool.{Bool, true, false}
use mathlib.Core.List.{List, [], ◌∷◌}
use native.Mathlib.Omega.{arith}

abbrev pub Str : Type 0
Str = List ℕ

-- The bytes of an ASCII literal.
abbrev pub bytes : String → Str
bytes String.[] = []
bytes (String.◌∷◌ c s) = code c ∷ bytes s

-- `a < b` on strings: lexicographic by bytes.
pub str_ltb : Str → Str → Bool
str_ltb [] [] = false
str_ltb [] (y ∷ ys) = true
str_ltb (x ∷ xs) [] = false
str_ltb (x ∷ xs) (y ∷ ys) =
    let rest = str_ltb xs ys in if ltb x y then true else if ltb y x then false else rest

pub str_ltb_asymm : (a b : Str) → str_ltb a b ≡ true → str_ltb b a ≡ false
unfolding str_ltb
str_ltb_asymm [] [] h = refl
str_ltb_asymm [] (y ∷ ys) h = refl
str_ltb_asymm (x ∷ xs) [] h = cc
str_ltb_asymm (x ∷ xs) (y ∷ ys) h = ground (arith, str_ltb_asymm xs ys)

pub str_ltb_total : (a b : Str) → str_ltb a b ≡ false → str_ltb b a ≡ false → a ≡ b
unfolding str_ltb
str_ltb_total [] [] h k = refl
str_ltb_total [] (y ∷ ys) h k = cc
str_ltb_total (x ∷ xs) [] h k = cc
str_ltb_total (x ∷ xs) (y ∷ ys) h k = ground (arith, str_ltb_total xs ys)

pub str_ltb_trans : (a b c : Str) → str_ltb a b ≡ true → str_ltb b c ≡ true → str_ltb a c ≡ true
unfolding str_ltb
str_ltb_trans [] [] [] h k = cc
str_ltb_trans [] (y ∷ ys) [] h k = cc
str_ltb_trans [] b (z ∷ zs) h k = refl
str_ltb_trans (x ∷ xs) [] c h k = cc
str_ltb_trans (x ∷ xs) (y ∷ ys) [] h k = cc
str_ltb_trans (x ∷ xs) (y ∷ ys) (z ∷ zs) h k = ground (arith, str_ltb_trans xs ys zs)
