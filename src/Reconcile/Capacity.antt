-- ===== src/Reconcile/Capacity.antt =====
-- internal/state: the limits of `AssignFilesWithCapacity`, and the peer that the load balancer picks.
use native.Mathlib.Nat.{mod-lt}
use p2p_folder_sync.Prelude.{
  ◌≡◌, ◌≢◌, refl, inl, inr, ℕ, zero, suc, ◌+◌, ◌%◌, ◌≤◌, ◌<◌, true, none, some, List, [], ◌∷◌, ◌++◌,
  length, length-append, Str, ℤ, pos, sub_ℤ, pred_ℤ, pos_part, list_eq, nat_eq, ◌==◌, if◌then◌else◌,
  or_else, arith, contains, get_elem?, Option-cases,
}
use p2p_folder_sync.Prelude.Dict.{Dict, lookup, insert, lookup-insert, NodupKeys}
use p2p_folder_sync.Reconcile.{
  PeerCapabilities, assigned, append_to, empty_lists, initial_capacity, first_free, left,
  assign_loop, assign_files_with_capacity, select_peer, fnv32a,
}

-- Where no peer is found, no peer has capacity left; a peer that is found has some.
first_free_lem :
    (d : Dict Str ℤ)
    → NodupKeys d
    → (p : Str)
    → (first_free d ≡ some p → 0 < pos_part (left d p))
      × (first_free d ≡ none → pos_part (left d p) ≡ 0)
unfolding first_free left lookup
first_free_lem [] u p = (λ e. cc, λ e. refl)
first_free_lem ((q, n) ∷ d) u p =
    (ground (arith, first_free_lem d u.1 p), ground (arith, first_free_lem d u.1 p))

left-insert :
    (p q : Str) (n : ℤ) (d : Dict Str ℤ) → left (insert q n d) p ≡ (if p == q then n else left d p)
unfolding left
left-insert p q n d = ground (arith, lookup-insert p q n d)

append_to-length :
    (p q file : Str) (r : Dict Str (List Str))
    → length (assigned (append_to q file r) p)
      ≡ (if p == q then length (assigned r p) + 1 else length (assigned r p))
unfolding append_to
append_to-length p q file r = ground (
  arith,
  lookup-insert p q (assigned r q ++ file ∷ []) r,
  length-append (assigned r q) (file ∷ []),
)

-- `visit` ranges over the map that it is given.
pub record IsVisit (visit : ℕ → Dict Str ℤ → Dict Str ℤ) : Type 0 where
  pub same : (i : ℕ) (d : Dict Str ℤ) (k : Str) → lookup k (visit i d) ≡ lookup k d
  pub once : (i : ℕ) (d : Dict Str ℤ) → NodupKeys (visit i d)

left-visit :
    (visit : ℕ → Dict Str ℤ → Dict Str ℤ)
    → IsVisit visit
    → (i : ℕ) (d : Dict Str ℤ) (p : Str) → left (visit i d) p ≡ left d p
unfolding left
left-visit visit v i d p = rw (v.same i d p) refl

module _ (visit : ℕ → Dict Str ℤ → Dict Str ℤ) (v : IsVisit visit) (p : Str) where
  -- Each file given to a peer takes one of its capacity.
  assign_loop-count :
      (i : ℕ) (files : List Str) (remaining : Dict Str ℤ) (result : Dict Str (List Str))
      → let out = assign_loop visit i files remaining result in
        length (assigned out.1 p) + pos_part (left out.0 p)
        ≡ length (assigned result p) + pos_part (left remaining p)
  unfolding assign_loop
  assign_loop-count i [] remaining result = refl
  assign_loop-count i (file ∷ files) remaining result =
      elim (Option-cases (first_free (visit i remaining))) [
        | inl e ↦ rw (e, assign_loop) (assign_loop-count (suc i) files remaining result)
        | inr (q, e) ↦
            let remaining' = insert q (pred_ℤ (left remaining q)) remaining in
            rw (e, assign_loop)
              (ground (
                arith,
                assign_loop-count (suc i) files remaining' (append_to q file result),
                append_to-length p q file result,
                left-insert p q (pred_ℤ (left remaining q)) remaining,
                (first_free_lem (visit i remaining) (v.once i remaining) q).0,
                left-visit visit v i remaining q,
              ))
      ]

  left-initial :
      (load : Dict Str ℤ) (caps : Dict Str PeerCapabilities) (d : Dict Str ℤ)
      → NodupKeys caps
      → left (initial_capacity load caps d) p ≡ (elim (lookup p caps) [
        | none ↦ left d p
        | some c ↦ sub_ℤ c.max_concurrent_transfers (or_else (lookup p load) (pos 0))
      ])
  unfolding initial_capacity lookup
  left-initial load [] d u = refl
  left-initial load ((q, c) ∷ caps) d u =
      let n = sub_ℤ c.max_concurrent_transfers (or_else (lookup q load) (pos 0)) in
      ground (arith, left-initial load caps (insert q n d) u.1, left-insert p q n d)

  assigned-empty :
      (caps : Dict Str PeerCapabilities) (r : Dict Str (List Str))
      → length (assigned r p) ≡ 0
      → length (assigned (empty_lists caps r) p) ≡ 0
  unfolding empty_lists
  assigned-empty [] r h = h
  assigned-empty ((q, c) ∷ caps) r h =
      assigned-empty caps (insert q [] r) (ground (arith, lookup-insert p q [] r))

  -- Whatever the order in which each round ranges over the peers, a peer is given at most as many
  -- files as its limit leaves over its current load, and none if the load is at or over the limit.
  pub assigned_within_capacity :
      (caps : Dict Str PeerCapabilities) (load : Dict Str ℤ) (files : List Str)
      (c : PeerCapabilities)
      → NodupKeys caps
      → lookup p caps ≡ some c
      → length (assigned (assign_files_with_capacity visit caps load files) p)
        ≤ pos_part (sub_ℤ c.max_concurrent_transfers (or_else (lookup p load) (pos 0)))
  unfolding assign_files_with_capacity lookup
  assigned_within_capacity caps load files c u e = ground (
    arith,
    assign_loop-count 0 files (initial_capacity load caps []) (empty_lists caps []),
    left-initial load caps [] u,
    assigned-empty caps [] refl,
  )

get_elem?-contains :
    (xs : List Str) (i : ℕ) → i < length xs → contains xs (or_else (get_elem? xs i) []) ≡ true
get_elem?-contains [] i h = elim h [ ]
get_elem?-contains (x ∷ xs) zero h = ground arith
get_elem?-contains (x ∷ xs) (suc i) h = ground (arith, get_elem?-contains xs i (omega arith))

-- With peers to choose from, every file is given to one of them.
select_peer-contains :
    (peers : List Str) (file_id : Str)
    → peers ≢ []
    → contains peers (select_peer peers file_id) ≡ true
unfolding select_peer
select_peer-contains [] f h = absurd (h refl)
select_peer-contains (p ∷ []) f h = ground arith
select_peer-contains (p ∷ q ∷ ps) f h =
    get_elem?-contains (p ∷ q ∷ ps) (fnv32a 2166136261 f % length (p ∷ q ∷ ps))
      (mod-lt (fnv32a 2166136261 f) (omega arith))
