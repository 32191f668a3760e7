-- ===== src/Declaration/Clock.antt =====
-- internal/state/declaration.go: the clock that a peer declares.
use p2p_folder_sync.Prelude.{
  ◌≡◌, subst, inl, inr, Option, none, some, List, [], ◌∷◌, Str, or_else, All, arith, list_eq,
  nat_eq,
}
use p2p_folder_sync.Prelude.Dict.{lookup}
use p2p_folder_sync.Prelude.Fallible.{returned, Fallible-cases}
use p2p_folder_sync.VectorClock.{VectorClock, get, new_vector_clock}
use p2p_folder_sync.VectorClock.Order.{Leq}
use p2p_folder_sync.VectorClock.Merge.{IsClock, merge_upper}
use p2p_folder_sync.Messages.{LogEntryPayload}
use p2p_folder_sync.Reconcile.{StateDeclaration}
use p2p_folder_sync.Rows.{LogEntry}
use p2p_folder_sync.Database.{Codec, Database}
use p2p_folder_sync.Database.Files.{get_all_files}
use p2p_folder_sync.Database.Log.{get_unacknowledged_operations}
use p2p_folder_sync.Declaration.{merged_with, merged_clocks, build_state_declaration}

abbrev pub clock_of : LogEntry → VectorClock
clock_of op = or_else op.vector_clock []

empty-Leq : (vc : VectorClock) → IsClock vc → Leq [] vc
unfolding get lookup
empty-Leq vc is p = is.nonneg p

merged_once :
    (clock : Option VectorClock) (vc : VectorClock)
    → IsClock vc
    → IsClock (or_else clock [])
    → let next = merged_with clock vc in IsClock next × Leq vc next × Leq (or_else clock []) next
merged_once none vc is other = (is, λ p. ground arith, empty-Leq vc is)
merged_once (some clock) vc is other = merge_upper vc clock is other

merged_upper :
    (ops : List LogEntry) (vc : VectorClock)
    → IsClock vc
    → All (λ op. IsClock (clock_of op)) ops
    → let merged = merged_clocks ops vc in
      IsClock merged × Leq vc merged × All (λ op. Leq (clock_of op) merged) ops
unfolding merged_clocks
merged_upper [] vc is clocks = (is, λ p. ground arith, tt)
merged_upper (op ∷ ops) vc is clocks =
    let next = merged_with op.vector_clock vc in
    let (next_is, below, mine) = merged_once op.vector_clock vc is clocks.0 in
    let (merged_is, rest, all) = merged_upper ops next next_is clocks.1 in
    (
      merged_is,
      (λ p. ground (arith, below p, rest p)),
      ((λ p. ground (arith, mine p, rest p)), all),
    )

empty-IsClock : IsClock new_vector_clock
unfolding get lookup
empty-IsClock = record { distinct = tt; nonneg = λ p. ground arith }

-- A declared clock knows what every pending operation knows: it is at or above the clock of each
-- operation that is not acknowledged. The clocks are assumed to be clocks of events: each peer
-- counted once, and not below 0.
pub declared_clock_upper :
    (codec : Codec) (peer_id : Str) (db : Database) (ops : List LogEntry)
    (declared : StateDeclaration LogEntryPayload)
    → get_unacknowledged_operations codec none db ≡ returned ops
    → build_state_declaration codec none none peer_id db ≡ returned declared
    → All (λ op. IsClock (clock_of op)) ops
    → All (λ op. Leq (clock_of op) declared.vector_clock) ops
unfolding build_state_declaration
declared_clock_upper codec peer_id db ops declared read built clocks =
    elim (Fallible-cases (get_all_files codec none db)) [
      | inl (_, bad) ↦ absurd (ground (arith, built, bad))
      | inr (files, got) ↦
          let same : merged_clocks ops new_vector_clock ≡ declared.vector_clock =
            ground (arith, built, got, read) in
          subst (λ vc. All (λ op. Leq (clock_of op) vc) ops) same
            (merged_upper ops new_vector_clock empty-IsClock clocks).2
    ]
