-- ===== src/Prelude/Int.antt =====
-- Signed integers over the native numbers, and the successor of a Go int64.
use p2p_folder_sync.Prelude.Tests.{Eq, if◌then◌else◌, ltb}
use Prim.Native.Nat.{ℕ, suc, ◌+◌, ◌-◌, ◌^◌, ◌≤◌, ◌<◌}
use mathlib.Core.Path.{◌≡◌}
use mathlib.Core.Bool.{Bool}
use native.Mathlib.Decide.{ℕ_discrete}
use native.Mathlib.Omega.{arith}

-- `negsuc n` is -(n + 1).
pub data ℤ : Type 0 where
  pos : ℕ → ℤ
  negsuc : ℕ → ℤ

ℤ-discrete : Discrete ℤ
ℤ-discrete = hlevel ℕ_discrete

instance unfoldable pub int_eq : Eq ℤ
unfolding ℤ-discrete ℕ_discrete
int_eq = record { dec = ℤ-discrete }

abbrev pub pos_part : ℤ → ℕ
pos_part (pos n) = n
pos_part (negsuc n) = 0

abbrev pub neg_part : ℤ → ℕ
neg_part (pos n) = 0
neg_part (negsuc n) = suc n

abbrev pub ltb_ℤ : ℤ → ℤ → Bool
ltb_ℤ a b = ltb (pos_part a + neg_part b) (pos_part b + neg_part a)

infix 50 ◌≤ℤ◌ ◌<ℤ◌
abbrev pub ◌≤ℤ◌ : ℤ → ℤ → Type 0
a ≤ℤ b = pos_part a + neg_part b ≤ pos_part b + neg_part a

abbrev pub ◌<ℤ◌ : ℤ → ℤ → Type 0
a <ℤ b = pos_part a + neg_part b < pos_part b + neg_part a

pub eq_of_parts : (a b : ℤ) → pos_part a + neg_part b ≡ pos_part b + neg_part a → a ≡ b
eq_of_parts a b h = ground arith

-- a + 1 with no bound.
abbrev pub suc_ℤ : ℤ → ℤ
suc_ℤ (pos n) = pos (n + 1)
suc_ℤ (negsuc n) = if ltb 0 n then negsuc (n - 1) else pos 0

-- a + 1 on int64: the largest value wraps to the least.
abbrev pub int64_max : ℤ
int64_max = pos (2 ^ 63 - 1)

abbrev pub int64_min : ℤ
int64_min = negsuc (2 ^ 63 - 1)

abbrev pub inc64 : ℤ → ℤ
inc64 a = if ltb_ℤ a int64_max then suc_ℤ a else int64_min

-- a - b and a - 1 with no bound.
abbrev pub sub_ℤ : ℤ → ℤ → ℤ
sub_ℤ a b =
    let x = pos_part a + neg_part b in
    let y = pos_part b + neg_part a in if ltb x y then negsuc (y - x - 1) else pos (x - y)

abbrev pub pred_ℤ : ℤ → ℤ
pred_ℤ (pos n) = if ltb 0 n then pos (n - 1) else negsuc 0
pred_ℤ (negsuc n) = negsuc (suc n)
