-- ===== src/VectorClock.antt =====
-- internal/sync/vectorclock.go. A clock is a map from peer ids to int64 counters; a missing peer
-- reads as 0. `increment` wraps as int64 does. The JSON methods only call encoding/json.
pub mod Order
pub mod Merge
use p2p_folder_sync.Prelude.{Str, ℤ, pos, negsuc, ltb_ℤ, inc64}
use p2p_folder_sync.Prelude.{
  Bool, true, false, not, ◌&&◌, List, [], ◌∷◌, ◌==◌, int_eq, list_eq, nat_eq, if◌then◌else◌,
  or_else,
}
use p2p_folder_sync.Prelude.Dict.{Dict, keys, lookup, insert}

abbrev pub VectorClock : Type 0
VectorClock = Dict Str ℤ

abbrev pub new_vector_clock : VectorClock
new_vector_clock = []

unfoldable pub get : VectorClock → Str → ℤ
get vc peer_id = or_else (lookup peer_id vc) (pos 0)

unfoldable pub set : VectorClock → Str → ℤ → VectorClock
set vc peer_id value = insert peer_id value vc

unfoldable pub increment : VectorClock → Str → VectorClock
increment vc peer_id = insert peer_id (inc64 (get vc peer_id)) vc

-- The `range` loop over `other`, in the order of its entries.
unfoldable pub merge : VectorClock → VectorClock → VectorClock
merge vc [] = vc
merge vc ((peer_id, value) ∷ other) =
    merge (if ltb_ℤ (get vc peer_id) value then insert peer_id value vc else vc) other

-- The loops that fill the set `allPeers`.
add_peers : List Str → Dict Str Bool → Dict Str Bool
add_peers [] s = s
add_peers (p ∷ ps) s = add_peers ps (insert p true s)

all_peers : VectorClock → VectorClock → List Str
unfolding add_peers
all_peers vc other = keys (add_peers (keys other) (add_peers (keys vc) []))

-- The loop that sets the flags `less` and `greater`.
scan : VectorClock → VectorClock → List Str → Bool → Bool → Bool × Bool
scan vc other [] less greater = (less, greater)
scan vc other (p ∷ ps) less greater =
    let v1 = get vc p in
    let v2 = get other p in
    scan vc other ps (if ltb_ℤ v1 v2 then true else less)
      (if ltb_ℤ v1 v2 then greater else if ltb_ℤ v2 v1 then true else greater)

verdict : Bool × Bool → ℤ
verdict (less, greater) =
    if less && not greater then negsuc 0 else if greater && not less then pos 1 else pos 0

unfoldable pub compare : VectorClock → VectorClock → ℤ
unfolding all_peers scan verdict
compare vc other = verdict (scan vc other (all_peers vc other) false false)

unfoldable pub is_concurrent : VectorClock → VectorClock → Bool
is_concurrent vc other = compare vc other == pos 0
