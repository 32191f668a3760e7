-- ===== src/VectorClock/Merge.antt =====
-- `Merge` and `Increment` of internal/sync/vectorclock.go: the join of two clocks, and local events.
use p2p_folder_sync.Prelude.{
  ◌≡◌, refl, false, ◌&&◌, [], ◌∷◌, arith, list_eq, nat_eq, ◌==◌, if◌then◌else◌, Str, ℤ, pos, negsuc,
  ltb_ℤ, ◌≤ℤ◌, ◌<ℤ◌, inc64, int64_max, eq_of_parts,
}
use p2p_folder_sync.Prelude.Dict.{lookup, insert, has, NodupKeys, lookup-insert, insert-NodupKeys}
use p2p_folder_sync.VectorClock.{VectorClock, get, increment, merge, compare}
use p2p_folder_sync.VectorClock.Order.{Leq, compare_iff}

get-insert :
    (vc : VectorClock) (p q : Str) (v : ℤ)
    → get (insert q v vc) p ≡ (if p == q then v else get vc p)
unfolding get
get-insert vc p q v = ground (arith, lookup-insert p q v vc)

-- One round of the loop.
get_round :
    (vc : VectorClock) (p q : Str) (v : ℤ)
    → get (if ltb_ℤ (get vc q) v then insert q v vc else vc) p
      ≡ (if (p == q) && ltb_ℤ (get vc q) v then v else get vc p)
get_round vc p q v = ground (arith, get-insert vc p q v)

get-cons :
    (other : VectorClock) (p q : Str) (v : ℤ)
    → get ((q, v) ∷ other) p ≡ (if p == q then v else get other p)
unfolding get lookup
get-cons other p q v = ground arith

-- Merging raises a counter to the other clock's value where the other clock has an entry for the
-- peer and its value is larger, and leaves every other counter alone.
pub get-merge :
    (vc other : VectorClock) (p : Str)
    → NodupKeys other
    → get (merge vc other) p
      ≡ (if has p other && ltb_ℤ (get vc p) (get other p) then get other p else get vc p)
unfolding merge lookup
get-merge vc [] p u = refl
get-merge vc ((q, v) ∷ other) p u = ground (
  arith,
  get-merge (if ltb_ℤ (get vc q) v then insert q v vc else vc) other p u.1,
  get_round vc p q v,
  get-cons other p q v,
)

-- What `Increment` and `Merge` keep of a clock that counts events.
pub record IsClock (vc : VectorClock) : Type 0 where
  pub distinct : NodupKeys vc
  pub nonneg : (p : Str) → pos 0 ≤ℤ get vc p

round-NodupKeys :
    (vc : VectorClock) (q : Str) (v : ℤ)
    → NodupKeys vc
    → NodupKeys (if ltb_ℤ (get vc q) v then insert q v vc else vc)
round-NodupKeys vc q v u = ground (arith, insert-NodupKeys q v vc u)

merge-NodupKeys : (vc other : VectorClock) → NodupKeys vc → NodupKeys (merge vc other)
unfolding merge
merge-NodupKeys vc [] u = u
merge-NodupKeys vc ((q, v) ∷ other) u =
    merge-NodupKeys (if ltb_ℤ (get vc q) v then insert q v vc else vc) other
      (round-NodupKeys vc q v u)

get_absent : (vc : VectorClock) (p : Str) → has p vc ≡ false → get vc p ≡ pos 0
unfolding get
get_absent vc p h = ground arith

-- On clocks of events a merged counter is the larger of the two.
get-merge_max :
    (a b : VectorClock) (p : Str)
    → IsClock a
    → IsClock b
    → get (merge a b) p ≡ (if ltb_ℤ (get a p) (get b p) then get b p else get a p)
get-merge_max a b p ia ib = ground (arith, get-merge a b p ib.distinct, get_absent b p, ia.nonneg p)

-- The merge of two clocks of events is a clock of events, and it knows what each of them knows.
pub merge_upper :
    (a b : VectorClock)
    → IsClock a
    → IsClock b
    → IsClock (merge a b) × Leq a (merge a b) × Leq b (merge a b)
merge_upper a b ia ib = (
  record {
    distinct = merge-NodupKeys a b ia.distinct;
    nonneg = λ p. ground (arith, get-merge_max a b p ia ib, ia.nonneg p, ib.nonneg p);
  },
  λ p. ground (arith, get-merge_max a b p ia ib),
  λ p. ground (arith, get-merge_max a b p ia ib),
)

-- The merge of two clocks of events is below every clock that is above both.
merge_least : (a b c : VectorClock) → IsClock a → IsClock b → Leq a c → Leq b c → Leq (merge a b) c
merge_least a b c ia ib ha hb p = ground (arith, get-merge_max a b p ia ib, ha p, hb p)

-- The order in which clocks of events are merged, and how often, does not matter.
pub merge_comm_idem :
    (a b : VectorClock) (p : Str)
    → IsClock a
    → IsClock b
    → (get (merge a b) p ≡ get (merge b a) p) × (get (merge a a) p ≡ get a p)
merge_comm_idem a b p ia ib = (
  ground (
    arith,
    get-merge_max a b p ia ib,
    get-merge_max b a p ib ia,
    eq_of_parts (get a p) (get b p),
  ),
  ground (arith, get-merge_max a a p ia ia),
)

-- Merging three well-formed clocks gives the same counter for every peer, whichever two are merged first.
merge_assoc :
    (a b c : VectorClock) (p : Str)
    → IsClock a
    → IsClock b
    → IsClock c
    → get (merge (merge a b) c) p ≡ get (merge a (merge b c)) p
merge_assoc a b c p ia ib ic = ground (
  arith,
  get-merge_max (merge a b) c p (merge_upper a b ia ib).0 ic,
  get-merge_max a (merge b c) p ia (merge_upper b c ib ic).0,
  get-merge_max a b p ia ib,
  get-merge_max b c p ib ic,
)

get-increment :
    (vc : VectorClock) (p q : Str)
    → get (increment vc q) p ≡ (if p == q then inc64 (get vc q) else get vc p)
unfolding increment
get-increment vc p q = get-insert vc p q (inc64 (get vc q))

inc64_grows : (v : ℤ) → v <ℤ int64_max → v <ℤ inc64 v
inc64_grows v h = ground arith

-- A local event below the int64 limit moves the clock strictly forward.
pub increment_after :
    (a b : VectorClock) (q : Str)
    → Leq a b
    → get b q <ℤ int64_max
    → compare a (increment b q) ≡ negsuc 0
increment_after a b q h small = (compare_iff a (increment b q)).0.1 (
  λ p. ground (arith, get-increment b p q, inc64_grows (get b q) small, h p),
  λ back. ground (arith, get-increment b q q, inc64_grows (get b q) small, h q, back q),
)

-- A peer that merges a received clock into its own and then counts a local event is strictly after
-- its own old clock and after the received one, where both are clocks of events (each peer once, no
-- counter below 0) and the peer's merged counter is below the int64 limit.
pub receive_then_send :
    (mine theirs : VectorClock) (me : Str)
    → IsClock mine
    → IsClock theirs
    → get (merge mine theirs) me <ℤ int64_max
    → (compare mine (increment (merge mine theirs) me) ≡ negsuc 0)
      × (compare theirs (increment (merge mine theirs) me) ≡ negsuc 0)
receive_then_send mine theirs me im it small =
    let l = merge_upper mine theirs im it in
    (
      increment_after mine (merge mine theirs) me l.1 small,
      increment_after theirs (merge mine theirs) me l.2 small,
    )
