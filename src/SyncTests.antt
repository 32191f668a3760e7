-- ===== src/SyncTests.antt =====
-- Inputs at which the theorems on conflicts, queues and states apply.
use p2p_folder_sync.Prelude.{
  ◌≡◌, refl, ap, inl, ℕ, ◌≤◌, true, ◌||◌, none, List, [], ◌∷◌, ◌++◌, length, Str, bytes, ℤ, pos,
  pos_part, list_eq, nat_eq, int_eq, contains, arith,
}
use p2p_folder_sync.Prelude.Dict.{Dict, lookup, insert, NodupKeys, lookup-insert, insert-NodupKeys}
use p2p_folder_sync.VectorClock.{VectorClock, get}
use p2p_folder_sync.VectorClock.Order.{Leq}
use p2p_folder_sync.Queue.{Queues, queue_of}
use p2p_folder_sync.Queue.Laws.{
  Call, enqueues, dequeues, IsTidy, run, all_accepted, all_handed_out, run_fifo,
}
use p2p_folder_sync.Conflict.{SyncOperation, resolve_conflict}
use p2p_folder_sync.Conflict.Resolve.{resolve_conflict_agrees}
use p2p_folder_sync.Conflict.Diff.{merge_lines, is_modification_of}
use p2p_folder_sync.Conflict.Diff.Kept.{merge_lines_keeps_second, merge_lines_keeps_first}
use p2p_folder_sync.Conflict.Diff.Repeat.{merge_lines_self}
use p2p_folder_sync.Reconcile.{
  ManifestEntry, StateDeclaration, PeerCapabilities, reconcile_states, assigned,
  assign_files_with_capacity,
}
use p2p_folder_sync.Reconcile.Differences.{
  keep_if, is_missing, is_conflicting, is_unknown, reconcile_states_exact,
}
use p2p_folder_sync.Reconcile.Capacity.{IsVisit, assigned_within_capacity}

abbrev op_of : Str → ℕ → SyncOperation
op_of peer time = record {
  id = bytes "op";
  type = bytes "update";
  path = bytes "notes.txt";
  from_path = none;
  file_id = bytes "f";
  checksum = peer;
  size = pos 4;
  timestamp = pos time;
  peer_id = peer;
  data_bytes = bytes "text";
}

abbrev op_a : SyncOperation
op_a = op_of (bytes "a") 10

abbrev op_b : SyncOperation
op_b = op_of (bytes "b") 10

abbrev op_c : SyncOperation
op_c = op_of (bytes "c") 12

abbrev before : VectorClock
before = (bytes "a", pos 1) ∷ []

abbrev after : VectorClock
after = (bytes "a", pos 1) ∷ (bytes "b", pos 1) ∷ []

before-Leq-after : Leq before after
unfolding get lookup
before-Leq-after p = ground arith

not-after-Leq-before : ¬ Leq after before
unfolding get lookup list_eq nat_eq
not-after-Leq-before all = absurd (omega (arith, all (bytes "b")))

resolve_conflict_agrees_example :
    resolve_conflict (bytes "lww") op_a op_c before ((bytes "b", pos 1) ∷ [])
    ≡ resolve_conflict (bytes "lww") op_c op_a ((bytes "b", pos 1) ∷ []) before
resolve_conflict_agrees_example =
    resolve_conflict_agrees (bytes "lww") op_a op_c before ((bytes "b", pos 1) ∷ []) (λ e. cc)
      (inl (λ e. absurd (omega (arith, ap pos_part e))))

abbrev ours : List Str
ours = bytes "title" ∷ bytes "Line 1: ours" ∷ bytes "extra" ∷ []

abbrev theirs : List Str
theirs = bytes "title" ∷ bytes "Line 1: theirs" ∷ []

merge_lines_keeps_second_example :
    contains (merge_lines ours theirs) (bytes "Line 1: theirs") ≡ true
unfolding list_eq nat_eq
merge_lines_keeps_second_example =
    merge_lines_keeps_second (bytes "Line 1: theirs") ours theirs refl

merge_lines_keeps_first_example :
    (contains (merge_lines ours theirs) (bytes "extra")
      || is_modification_of (bytes "extra") theirs)
    ≡ true
unfolding list_eq nat_eq
merge_lines_keeps_first_example = merge_lines_keeps_first (bytes "extra") ours theirs refl

merge_lines_self_example : merge_lines theirs theirs ≡ theirs ++ theirs
merge_lines_self_example = merge_lines_self theirs

abbrev one_queued : Queues ℕ
one_queued = (bytes "f", 1 ∷ []) ∷ []

abbrev calls : List (Call ℕ)
calls = enqueues (bytes "f") 2 ∷ dequeues (bytes "f") ∷ enqueues (bytes "g") 3 ∷ []

run_fifo_example :
    queue_of one_queued (bytes "f") ++ all_accepted (bytes "f") calls
    ≡ all_handed_out one_queued (bytes "f") calls ++ queue_of (run one_queued calls) (bytes "f")
run_fifo_example = run_fifo one_queued (bytes "f") calls

one_queued-IsTidy : IsTidy one_queued
unfolding lookup
one_queued-IsTidy f = ground arith

abbrev entry : Str → Str → ManifestEntry
entry id hash = record {
  file_id = id;
  path = id;
  hash = hash;
  size = pos 1;
  mtime = pos 1;
  last_modified_by = bytes "a";
}

abbrev declares : List ManifestEntry → List Str → StateDeclaration Str
declares fs ops = record {
  peer_id = bytes "a";
  vector_clock = [];
  file_manifest = fs;
  pending_operations = ops;
}

abbrev mine : StateDeclaration Str
mine = declares (entry (bytes "f") (bytes "1") ∷ []) (bytes "x" ∷ [])

abbrev yours : StateDeclaration Str
yours =
    declares (entry (bytes "f") (bytes "2") ∷ entry (bytes "g") (bytes "3") ∷ [])
      (bytes "x" ∷ bytes "y" ∷ [])

abbrev op_id : Str → Str
op_id o = o

reconcile_states_exact_example :
    ((reconcile_states op_id mine yours).missing_files
      ≡ keep_if (is_missing mine.file_manifest) yours.file_manifest)
    × ((reconcile_states op_id mine yours).conflicting_files
        ≡ keep_if (is_conflicting mine.file_manifest) yours.file_manifest)
    × ((reconcile_states op_id mine yours).pending_ops_to_apply
        ≡ keep_if (is_unknown op_id mine.pending_operations) yours.pending_operations)
reconcile_states_exact_example = reconcile_states_exact op_id mine yours

abbrev two_transfers : PeerCapabilities
two_transfers = record { max_concurrent_transfers = pos 2 }

-- A map that is visited in the order of its entries, once its repeated keys are gone.
distinct_keys : Dict Str ℤ → Dict Str ℤ
distinct_keys [] = []
distinct_keys ((p, n) ∷ d) = insert p n (distinct_keys d)

in_order : ℕ → Dict Str ℤ → Dict Str ℤ
in_order i d = distinct_keys d

lookup-distinct_keys : (d : Dict Str ℤ) (k : Str) → lookup k (distinct_keys d) ≡ lookup k d
unfolding distinct_keys lookup
lookup-distinct_keys [] k = refl
lookup-distinct_keys ((p, n) ∷ d) k =
    ground (arith, lookup-insert k p n (distinct_keys d), lookup-distinct_keys d k)

distinct_keys-NodupKeys : (d : Dict Str ℤ) → NodupKeys (distinct_keys d)
unfolding distinct_keys
distinct_keys-NodupKeys [] = tt
distinct_keys-NodupKeys ((p, n) ∷ d) =
    insert-NodupKeys p n (distinct_keys d) (distinct_keys-NodupKeys d)

in_order-IsVisit : IsVisit in_order
unfolding in_order
in_order-IsVisit = record {
  same = λ i d k. lookup-distinct_keys d k;
  once = λ i d. distinct_keys-NodupKeys d;
}

abbrev capabilities : Dict Str PeerCapabilities
capabilities = (bytes "a", two_transfers) ∷ []

abbrev load : Dict Str ℤ
load = (bytes "a", pos 1) ∷ []

abbrev wanted : List Str
wanted = bytes "f" ∷ bytes "g" ∷ []

assigned_within_capacity_example :
    length (assigned (assign_files_with_capacity in_order capabilities load wanted) (bytes "a")) ≤ 1
unfolding lookup list_eq nat_eq
assigned_within_capacity_example =
    assigned_within_capacity in_order in_order-IsVisit (bytes "a") capabilities load wanted
      two_transfers (refl, tt) refl
