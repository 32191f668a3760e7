-- ===== src/Reconcile.antt =====
-- internal/state: reconciliation.go and loadbalance.go. The hash of hash/fnv is written out. In
-- `reconcile_states`, `O` is messages.LogEntryPayload, of which only the operation id is read.
pub mod Differences
pub mod Capacity
use Prim.Native.Nat.{bit_xor}
use p2p_folder_sync.Prelude.{
  ℕ, suc, ◌+◌, ◌*◌, ◌%◌, ◌^◌, Bool, true, false, Option, none, some, List, [], ◌∷◌, ◌++◌, length,
  ltb, Str, str_ltb, ℤ, pos, ltb_ℤ, sub_ℤ, pred_ℤ, list_eq, nat_eq, ◌!=◌, if◌then◌else◌, or_else,
  get_elem?,
}
use p2p_folder_sync.Prelude.Dict.{Dict, lookup, insert}
use p2p_folder_sync.VectorClock.{VectorClock}

-- messages.FileManifestEntry
pub record ManifestEntry : Type 0 where
  pub file_id : Str
  pub path : Str
  pub hash : Str
  pub size : ℤ
  pub mtime : ℤ
  pub last_modified_by : Str

pub record StateDeclaration (O : Type 0) : Type 0 where
  pub peer_id : Str
  pub vector_clock : VectorClock
  pub file_manifest : List ManifestEntry
  pub pending_operations : List O

pub record ReconciliationResult (O : Type 0) : Type 0 where
  pub missing_files : List ManifestEntry
  pub conflicting_files : List ManifestEntry
  pub pending_ops_to_apply : List O

local_files : List ManifestEntry → Dict Str ManifestEntry → Dict Str ManifestEntry
local_files [] m = m
local_files (f ∷ fs) m = local_files fs (insert f.file_id f m)

missing_in : Dict Str ManifestEntry → List ManifestEntry → List ManifestEntry
missing_in m [] = []
missing_in m (f ∷ fs) =
    let rest = missing_in m fs in elim (lookup f.file_id m) [ none ↦ f ∷ rest | some l ↦ rest ]

conflicting_in : Dict Str ManifestEntry → List ManifestEntry → List ManifestEntry
conflicting_in m [] = []
conflicting_in m (f ∷ fs) =
    let rest = conflicting_in m fs in
    elim (lookup f.file_id m) [ none ↦ rest | some l ↦ if l.hash != f.hash then f ∷ rest else rest ]

module _ {O : Type 0} (operation_id : O → Str) where
  local_ops : List O → Dict Str Bool → Dict Str Bool
  local_ops [] m = m
  local_ops (o ∷ os) m = local_ops os (insert (operation_id o) true m)

  ops_to_apply : Dict Str Bool → List O → List O
  ops_to_apply m [] = []
  ops_to_apply m (o ∷ os) =
      let rest = ops_to_apply m os in
      if or_else (lookup (operation_id o) m) false then rest else o ∷ rest

  unfoldable pub reconcile_states : StateDeclaration O → StateDeclaration O → ReconciliationResult O
  unfolding missing_in conflicting_in ops_to_apply local_files local_ops
  reconcile_states here there =
      let files = local_files here.file_manifest [] in
      record {
        missing_files = missing_in files there.file_manifest;
        conflicting_files = conflicting_in files there.file_manifest;
        pending_ops_to_apply =
            ops_to_apply (local_ops here.pending_operations []) there.pending_operations;
      }

-- `result[peerID] = append(result[peerID], file)`
abbrev pub assigned : Dict Str (List Str) → Str → List Str
assigned result peer_id = or_else (lookup peer_id result) []

append_to : Str → Str → Dict Str (List Str) → Dict Str (List Str)
append_to peer_id file result = insert peer_id (assigned result peer_id ++ file ∷ []) result

-- PeerCapabilities; the two other fields are not read.
pub record PeerCapabilities : Type 0 where
  pub max_concurrent_transfers : ℤ

empty_lists : Dict Str PeerCapabilities → Dict Str (List Str) → Dict Str (List Str)
empty_lists [] result = result
empty_lists ((p, c) ∷ cs) result = empty_lists cs (insert p [] result)

initial_capacity : Dict Str ℤ → Dict Str PeerCapabilities → Dict Str ℤ → Dict Str ℤ
initial_capacity current_load [] remaining = remaining
initial_capacity current_load ((p, c) ∷ cs) remaining = initial_capacity current_load cs (
    insert p (sub_ℤ c.max_concurrent_transfers (or_else (lookup p current_load) (pos 0))) remaining)

-- The first peer with capacity left, in the order of the loop.
first_free : Dict Str ℤ → Option Str
first_free [] = none
first_free ((p, n) ∷ d) = let rest = first_free d in if ltb_ℤ (pos 0) n then some p else rest

left : Dict Str ℤ → Str → ℤ
left remaining p = or_else (lookup p remaining) (pos 0)

-- `visit i` is the order in which round `i` happens to range over the map.
module _ (visit : ℕ → Dict Str ℤ → Dict Str ℤ) where
  assign_loop : ℕ → List Str → Dict Str ℤ → Dict Str (List Str) → Dict Str ℤ × Dict Str (List Str)
  assign_loop i [] remaining result = (remaining, result)
  assign_loop i (file ∷ files) remaining result = elim (first_free (visit i remaining)) [
    | none ↦ assign_loop (suc i) files remaining result
    | some p ↦
        assign_loop (suc i) files (insert p (pred_ℤ (left remaining p)) remaining)
          (append_to p file result)
  ]

  unfoldable pub assign_files_with_capacity :
      Dict Str PeerCapabilities → Dict Str ℤ → List Str → Dict Str (List Str)
  unfolding assign_loop empty_lists initial_capacity first_free left append_to
  assign_files_with_capacity peer_capabilities current_load files_to_sync =
      (assign_loop 0 files_to_sync (initial_capacity current_load peer_capabilities [])
        (empty_lists peer_capabilities [])).1

-- `sort.Strings`
insert_peer : Str → List Str → List Str
insert_peer p [] = p ∷ []
insert_peer p (q ∷ qs) = let rest = insert_peer p qs in if str_ltb q p then q ∷ rest else p ∷ q ∷ qs

unfoldable pub new_load_balancer : List Str → List Str
unfolding insert_peer
new_load_balancer [] = []
new_load_balancer (p ∷ ps) = insert_peer p (new_load_balancer ps)

-- fnv.New32a
fnv32a : ℕ → Str → ℕ
fnv32a h [] = h
fnv32a h (b ∷ bs) = fnv32a (bit_xor h b * 16777619 % 2 ^ 32) bs

unfoldable pub select_peer : List Str → Str → Str
unfolding fnv32a
select_peer [] file_id = []
select_peer (p ∷ []) file_id = p
select_peer (p ∷ q ∷ ps) file_id =
    or_else (get_elem? (p ∷ q ∷ ps) (fnv32a 2166136261 file_id % length (p ∷ q ∷ ps))) []
