-- ===== src/Conflict/Resolve.antt =====
-- internal/sync/conflict/resolver.go: which operation wins.
use p2p_folder_sync.Prelude.{
  ◌≡◌, ◌≢◌, ◌⊎◌, inl, inr, arith, Str, bytes, str_ltb_asymm, str_ltb_total, str_ltb_trans, pos,
  eq_of_parts, list_eq, nat_eq, int_eq,
}
use p2p_folder_sync.VectorClock.{VectorClock, compare}
use p2p_folder_sync.VectorClock.Order.{Leq, compare_iff, compare_swap, compare_cases}
use p2p_folder_sync.Conflict.{SyncOperation, last_write_wins, resolve_conflict}

-- The operations differ in their timestamp or their peer, as those of different peers do.
abbrev pub Apart : SyncOperation → SyncOperation → Type 0
Apart a b = (a.timestamp ≢ b.timestamp) ⊎ (a.peer_id ≢ b.peer_id)

-- Last write wins picks the same winner in either order, unless both operations carry the same
-- timestamp and the same peer.
pub last_write_wins_comm :
    (a b : SyncOperation) → Apart a b → last_write_wins a b ≡ last_write_wins b a
unfolding last_write_wins
last_write_wins_comm a b h = ground (
  arith,
  eq_of_parts a.timestamp b.timestamp,
  str_ltb_asymm a.peer_id b.peer_id,
  str_ltb_total a.peer_id b.peer_id,
)

-- Of several operations the winner does not depend on how the comparisons are grouped.
last_write_wins_assoc :
    (a b c : SyncOperation)
    → last_write_wins (last_write_wins a b) c ≡ last_write_wins a (last_write_wins b c)
unfolding last_write_wins
last_write_wins_assoc a b c = ground (
  arith,
  str_ltb_trans a.peer_id b.peer_id c.peer_id,
  str_ltb_trans c.peer_id b.peer_id a.peer_id,
  str_ltb_asymm a.peer_id b.peer_id,
  str_ltb_asymm b.peer_id c.peer_id,
  str_ltb_asymm a.peer_id c.peer_id,
  str_ltb_total a.peer_id b.peer_id,
  str_ltb_total b.peer_id c.peer_id,
  str_ltb_total a.peer_id c.peer_id,
)

zero_swap : (va vb : VectorClock) → compare va vb ≡ pos 0 → compare vb va ≡ pos 0
zero_swap va vb e = let iff = (compare_iff va vb).2.0 e in (compare_iff vb va).2.1 (iff.1, iff.0)

-- Where the strategy is not the merge, and the operations differ in their timestamp or their peer,
-- the two peers of a conflict settle on the same operation: each gives its own operation and clock
-- first.
pub resolve_conflict_agrees :
    (strategy : Str) (a b : SyncOperation) (va vb : VectorClock)
    → strategy ≢ bytes "intelligent_merge"
    → Apart a b
    → resolve_conflict strategy a b va vb ≡ resolve_conflict strategy b a vb va
unfolding resolve_conflict
resolve_conflict_agrees strategy a b va vb other apart = elim (compare_cases va vb) [
  | inl e ↦ ground (arith, e, (compare_swap va vb).0 e)
  | inr (inl e) ↦
      let back = zero_swap va vb e in ground (arith, e, back, other, last_write_wins_comm a b apart)
  | inr (inr e) ↦ ground (arith, e, (compare_swap vb va).1 e)
]

-- Under every strategy the operation that happened before the other one loses.
pub resolve_conflict_causal :
    (strategy : Str) (a b : SyncOperation) (va vb : VectorClock)
    → Leq va vb
    → (¬ Leq vb va)
    → (resolve_conflict strategy a b va vb ≡ b) × (resolve_conflict strategy b a vb va ≡ b)
unfolding resolve_conflict
resolve_conflict_causal strategy a b va vb le not_ge =
    let e = (compare_iff va vb).0.1 (le, not_ge) in
    let f = (compare_swap va vb).0 e in (ground (arith, e), ground (arith, f))
