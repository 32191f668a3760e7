-- ===== src/Reconcile/Differences.antt =====
-- `ReconcileStates` of internal/state/reconciliation.go: what one peer lacks of the other.
use p2p_folder_sync.Prelude.{
  ◌≡◌, refl, Bool, true, false, ◌||◌, not, is_some, Option, none, some, List, [], ◌∷◌, Str, list_eq,
  nat_eq, ◌==◌, ◌!=◌, if◌then◌else◌, or_else, arith, contains,
}
use p2p_folder_sync.Prelude.Dict.{Dict, lookup, insert, lookup-insert}
use p2p_folder_sync.Reconcile.{
  ManifestEntry, StateDeclaration, local_files, missing_in, conflicting_in, local_ops, ops_to_apply,
  reconcile_states,
}

abbrev pub keep_if {ℓ} : {A : Type ℓ} → (A → Bool) → List A → List A
keep_if p [] = []
keep_if p (x ∷ xs) = let rest = keep_if p xs in if p x then x ∷ rest else rest

unfoldable pub file_ids : List ManifestEntry → List Str
file_ids [] = []
file_ids (f ∷ fs) = f.file_id ∷ file_ids fs

-- The last entry of a manifest for a file.
newest : Str → List ManifestEntry → Option ManifestEntry
newest k [] = none
newest k (f ∷ fs) =
    let later = newest k fs in
    elim later [ none ↦ if k == f.file_id then some f else none | some g ↦ some g ]

unfoldable pub is_missing : List ManifestEntry → ManifestEntry → Bool
is_missing here f = not (contains (file_ids here) f.file_id)

pub is_conflicting : List ManifestEntry → ManifestEntry → Bool
is_conflicting here f = elim (newest f.file_id here) [ none ↦ false | some g ↦ g.hash != f.hash ]

lookup-local_files :
    (k : Str) (fs : List ManifestEntry) (m : Dict Str ManifestEntry)
    → lookup k (local_files fs m) ≡ (elim (newest k fs) [ none ↦ lookup k m | some g ↦ some g ])
unfolding local_files newest
lookup-local_files k [] m = refl
lookup-local_files k (f ∷ fs) m =
    ground (arith, lookup-local_files k fs (insert f.file_id f m), lookup-insert k f.file_id f m)

newest-contains :
    (k : Str) (fs : List ManifestEntry) → is_some (newest k fs) ≡ contains (file_ids fs) k
unfolding newest file_ids
newest-contains k [] = refl
newest-contains k (f ∷ fs) = ground (arith, newest-contains k fs)

module _ (here : List ManifestEntry) where
  found : Str → Option ManifestEntry
  found k = lookup k (local_files here [])

  found-newest : (k : Str) → found k ≡ newest k here
  unfolding found lookup
  found-newest k = ground (arith, lookup-local_files k here [])

  missing_in-keep_if :
      (fs : List ManifestEntry) → missing_in (local_files here []) fs ≡ keep_if (is_missing here) fs
  unfolding missing_in is_missing found
  missing_in-keep_if [] = refl
  missing_in-keep_if (f ∷ fs) =
      ground (arith, missing_in-keep_if fs, found-newest f.file_id, newest-contains f.file_id here)

  conflicting_in-keep_if :
      (fs : List ManifestEntry)
      → conflicting_in (local_files here []) fs ≡ keep_if (is_conflicting here) fs
  unfolding conflicting_in is_conflicting found
  conflicting_in-keep_if [] = refl
  conflicting_in-keep_if (f ∷ fs) =
      ground (arith, conflicting_in-keep_if fs, found-newest f.file_id)

module _ {O : Type 0} (operation_id : O → Str) where
  op_ids : List O → List Str
  op_ids [] = []
  op_ids (o ∷ os) = operation_id o ∷ op_ids os

  pub is_unknown : List O → O → Bool
  is_unknown here o = not (contains (op_ids here) (operation_id o))

  known_ops :
      (k : Str) (os : List O) (m : Dict Str Bool)
      → or_else (lookup k (local_ops operation_id os m)) false
        ≡ (contains (op_ids os) k || or_else (lookup k m) false)
  unfolding local_ops op_ids
  known_ops k [] m = refl
  known_ops k (o ∷ os) m = ground (
    arith,
    known_ops k os (insert (operation_id o) true m),
    lookup-insert k (operation_id o) true m,
  )

  ops_to_apply-keep_if :
      (here os : List O)
      → ops_to_apply operation_id (local_ops operation_id here []) os ≡ keep_if (is_unknown here) os
  unfolding ops_to_apply is_unknown lookup
  ops_to_apply-keep_if here [] = refl
  ops_to_apply-keep_if here (o ∷ os) =
      ground (arith, ops_to_apply-keep_if here os, known_ops (operation_id o) here [])

  -- Reconciling finds, in the order of the other peer's lists, exactly its files whose id the local
  -- manifest lacks, its files whose hash differs from the last local entry of that id, and its
  -- pending operations whose id is not among the local ones.
  pub reconcile_states_exact :
      (here there : StateDeclaration O)
      → ((reconcile_states operation_id here there).missing_files
          ≡ keep_if (is_missing here.file_manifest) there.file_manifest)
        × ((reconcile_states operation_id here there).conflicting_files
            ≡ keep_if (is_conflicting here.file_manifest) there.file_manifest)
        × ((reconcile_states operation_id here there).pending_ops_to_apply
            ≡ keep_if (is_unknown here.pending_operations) there.pending_operations)
  unfolding reconcile_states
  reconcile_states_exact here there = (
    missing_in-keep_if here.file_manifest there.file_manifest,
    conflicting_in-keep_if here.file_manifest there.file_manifest,
    ops_to_apply-keep_if here.pending_operations there.pending_operations,
  )
