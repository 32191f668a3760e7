-- ===== src/VectorClock/Order.antt =====
-- `Compare` of internal/sync/vectorclock.go against the pointwise order of the counters.
use p2p_folder_sync.Prelude.{
  ◌≡◌, refl, ap, ◌↔◌, ◌⊎◌, inl, inr, Bool, true, false, ◌||◌, List, [], ◌∷◌, arith, Bool-cases,
  list_eq, nat_eq, int_eq, contains, Str, pos, negsuc, ltb_ℤ, ◌≤ℤ◌, ◌<ℤ◌,
}
use p2p_folder_sync.Prelude.Dict.{Dict, keys, lookup, insert, has, lookup-insert, contains-keys}
use p2p_folder_sync.VectorClock.{VectorClock, get, add_peers, all_peers, scan, verdict, compare}

-- `a` knows no event that `b` does not know.
abbrev pub Leq : VectorClock → VectorClock → Type 0
Leq a b = (p : Str) → get a p ≤ℤ get b p

some_less : VectorClock → VectorClock → List Str → Bool
some_less a b [] = false
some_less a b (p ∷ ps) = ltb_ℤ (get a p) (get b p) || some_less a b ps

scan-some_less :
    (a b : VectorClock) (ps : List Str) (l g : Bool)
    → scan a b ps l g ≡ (l || some_less a b ps, g || some_less b a ps)
unfolding scan some_less
scan-some_less a b [] l g = ground arith
scan-some_less a b (p ∷ ps) l g =
    ground
      (arith, scan-some_less a b ps l g, scan-some_less a b ps true g, scan-some_less a b ps l true)

has-add_peers :
    (p : Str) (ps : List Str) (s : Dict Str Bool)
    → has p (add_peers ps s) ≡ (contains ps p || has p s)
unfolding add_peers
has-add_peers p [] s = refl
has-add_peers p (q ∷ ps) s =
    ground (arith, has-add_peers p ps (insert q true s), lookup-insert p q true s)

get_outside :
    (a b : VectorClock) (p : Str)
    → contains (all_peers a b) p ≡ false
    → (get a p ≡ pos 0) × (get b p ≡ pos 0)
unfolding all_peers get lookup
get_outside a b p h = ground (
  arith,
  contains-keys p (add_peers (keys b) (add_peers (keys a) [])),
  has-add_peers p (keys b) (add_peers (keys a) []),
  has-add_peers p (keys a) [],
  contains-keys p a,
  contains-keys p b,
)

leq_of_not_less :
    (a b : VectorClock) (ps : List Str) (p : Str)
    → contains ps p ≡ true
    → some_less a b ps ≡ false
    → get b p ≤ℤ get a p
unfolding some_less
leq_of_not_less a b [] p m h = cc
leq_of_not_less a b (q ∷ ps) p m h = ground (arith, leq_of_not_less a b ps p)

some_less_witness :
    (a b : VectorClock) (ps : List Str) → some_less a b ps ≡ true → (p : Str) × (get a p <ℤ get b p)
unfolding some_less
some_less_witness a b [] h = absurd (cc)
some_less_witness a b (q ∷ ps) h = elim (Bool-cases (ltb_ℤ (get a q) (get b q))) [
  | inl e ↦ (q, ground arith)
  | inr e ↦ some_less_witness a b ps (ground arith)
]

below_of_flag :
    (a b c d : VectorClock)
    → ((p : Str) → contains (all_peers c d) p ≡ false → (get a p ≡ pos 0) × (get b p ≡ pos 0))
    → some_less a b (all_peers c d) ≡ false
    → Leq b a
below_of_flag a b c d outside h p = elim (Bool-cases (contains (all_peers c d) p)) [
  | inl e ↦ leq_of_not_less a b (all_peers c d) p e h
  | inr e ↦ ground (arith, outside p e)
]

flag_of_below : (a b : VectorClock) (ps : List Str) → Leq b a → some_less a b ps ≡ false
flag_of_below a b ps h = elim (Bool-cases (some_less a b ps)) [
  | inl e ↦ let (p, lt) = some_less_witness a b ps e in absurd (omega (arith, h p))
  | inr e ↦ e
]

abbrev less_flag : VectorClock → VectorClock → Bool
less_flag a b = some_less a b (all_peers a b)

abbrev greater_flag : VectorClock → VectorClock → Bool
greater_flag a b = some_less b a (all_peers a b)

less_flag_iff : (a b : VectorClock) → (less_flag a b ≡ false) ↔ Leq b a
less_flag_iff a b = (below_of_flag a b a b (get_outside a b), flag_of_below a b (all_peers a b))

greater_flag_iff : (a b : VectorClock) → (greater_flag a b ≡ false) ↔ Leq a b
greater_flag_iff a b = (
  below_of_flag b a a b (λ p h. let r = get_outside a b p h in (r.1, r.0)),
  flag_of_below b a (all_peers a b),
)

compare-verdict : (a b : VectorClock) → compare a b ≡ verdict (less_flag a b, greater_flag a b)
unfolding compare
compare-verdict a b = ap verdict (scan-some_less a b (all_peers a b) false false)

-- `Compare` answers -1 exactly when the first clock is strictly below the second at the counters,
-- 1 exactly when it is strictly above, and 0 exactly when each is below the other or neither is.
pub compare_iff :
    (a b : VectorClock)
    → ((compare a b ≡ negsuc 0) ↔ (Leq a b × (¬ Leq b a)))
      × ((compare a b ≡ pos 1) ↔ (Leq b a × (¬ Leq a b)))
      × ((compare a b ≡ pos 0) ↔ (Leq a b ↔ Leq b a))
unfolding verdict
compare_iff a b =
    let l = less_flag_iff a b in
    let g = greater_flag_iff a b in
    rw (compare-verdict a b) (ground (arith, l, g), ground (arith, l, g), ground (arith, l, g))

-- Nothing else is answered.
pub compare_cases :
    (a b : VectorClock) → (compare a b ≡ negsuc 0) ⊎ ((compare a b ≡ pos 0) ⊎ (compare a b ≡ pos 1))
unfolding verdict
compare_cases a b = rw (compare-verdict a b) (go (less_flag a b) (greater_flag a b))
  where
    go :
        (l g : Bool)
        → (verdict (l, g) ≡ negsuc 0) ⊎ ((verdict (l, g) ≡ pos 0) ⊎ (verdict (l, g) ≡ pos 1))
    go true true = inr (inl refl)
    go true false = inl refl
    go false true = inr (inr refl)
    go false false = inr (inl refl)

-- Swapping the clocks swaps the answers -1 and 1.
pub compare_swap : (a b : VectorClock) → (compare a b ≡ negsuc 0) ↔ (compare b a ≡ pos 1)
compare_swap a b =
    let l = (compare_iff a b).0 in
    let g = (compare_iff b a).1 in (λ e. g.1 (l.0 e), λ e. l.1 (g.0 e))

-- Happens-before is transitive.
compare_trans :
    (a b c : VectorClock) → compare a b ≡ negsuc 0 → compare b c ≡ negsuc 0 → compare a c ≡ negsuc 0
compare_trans a b c h k =
    let l = (compare_iff a b).0.0 h in
    let m = (compare_iff b c).0.0 k in
    (compare_iff a c).0.1
      (λ p. omega (arith, l.0 p, m.0 p), λ back. l.1 (λ p. omega (arith, m.0 p, back p)))
