-- ===== src/FlowControl/Slots.antt =====
-- internal/network/flowcontrol/controller.go: the slots for concurrent transfers.
use p2p_folder_sync.Prelude.{
  ℕ, suc, ◌+◌, ◌≡◌, refl, inl, inr, Bool-cases, true, false, some, Option-cases, List, [], ◌∷◌,
  length, ltb, Str, list_eq, nat_eq, ◌==◌, contains, if◌then◌else◌, arith,
}
use p2p_folder_sync.Prelude.Dict.{lookup, erase, has, lookup-erase}
use p2p_folder_sync.FlowControl.{
  FlowController, new_flow_controller, acquire_transfer_slot, release_transfer_slot,
  set_per_file_limit, remove_per_file_limit, set_global_bandwidth, stop_all,
}

-- The slots that are held when one slot of `f` is given back.
pub without : Str → List Str → List Str
without f [] = []
without f (g ∷ gs) = let rest = without f gs in if f == g then gs else g ∷ rest

-- A flow controller that has gone through calls of its operations, with the file ids of the slots
-- that are acquired and not yet released. A file id may hold several slots; only a slot that is held
-- is released.
pub data Reached : List Str → FlowController → Type 0 where
  opened : (bandwidth max now : ℕ) → Reached [] (new_flow_controller bandwidth max now)
  acquired :
      {held : List Str} {fc fc' : FlowController} (f : Str)
      → Reached held fc
      → acquire_transfer_slot f fc ≡ some fc'
      → Reached (f ∷ held) fc'
  released :
      {held : List Str} {fc fc' : FlowController} (f : Str)
      → Reached held fc
      → contains held f ≡ true
      → release_transfer_slot f fc ≡ some fc'
      → Reached (without f held) fc'
  limited :
      {held : List Str} {fc : FlowController} (f : Str) (rate now : ℕ)
      → Reached held fc
      → Reached held (set_per_file_limit f rate now fc)
  unlimited :
      {held : List Str} {fc : FlowController} (f : Str)
      → Reached held fc
      → Reached held (remove_per_file_limit f fc)
  retuned :
      {held : List Str} {fc : FlowController} (bandwidth : ℕ)
      → Reached held fc
      → Reached held (set_global_bandwidth bandwidth fc)
  ended : {held : List Str} {fc : FlowController} → Reached held fc → Reached held (stop_all fc)

length-without :
    (f : Str) (held : List Str)
    → contains held f ≡ true
    → suc (length (without f held)) ≡ length held
unfolding without
length-without f [] h = absurd (ground (arith, h))
length-without f (g ∷ gs) h = ground (arith, length-without f gs)

limit_keeps :
    (f : Str) (rate now : ℕ) (fc : FlowController)
    → let fc' = set_per_file_limit f rate now fc in
      (fc'.available ≡ fc.available) × (fc'.max_concurrent ≡ fc.max_concurrent)
unfolding set_per_file_limit
limit_keeps f rate now fc = elim (Option-cases (lookup f fc.per_file_limiters)) [
  | inl e ↦ (ground (arith, e), ground (arith, e))
  | inr (rl, e) ↦ (ground (arith, e), ground (arith, e))
]

-- Every slot is free or held.
slots_held :
    {held : List Str} {fc : FlowController}
    → Reached held fc
    → length held + fc.available ≡ fc.max_concurrent
unfolding new_flow_controller acquire_transfer_slot release_transfer_slot remove_per_file_limit
    set_global_bandwidth stop_all
slots_held (opened bandwidth max now) = omega arith
slots_held (acquired {fc} f r e) = elim (Bool-cases (ltb 0 fc.available)) [
  | inl free ↦ ground (arith, slots_held r, e, free)
  | inr full ↦ absurd (ground (arith, e, full))
]
slots_held (released {held} {fc} f r h e) = elim (Bool-cases (ltb fc.available fc.max_concurrent)) [
  | inl room ↦ ground (arith, slots_held r, length-without f held h, e, room)
  | inr full ↦ absurd (ground (arith, e, full))
]
slots_held (limited {fc} f rate now r) = omega (arith, slots_held r, limit_keeps f rate now fc)
slots_held (unlimited f r) = slots_held r
slots_held (retuned bandwidth r) = slots_held r
slots_held (ended r) = slots_held r

-- In every state that calls lead to, where no slot is released that is not held, a slot that is held
-- is released without waiting, its file is then not active, one more slot is free, and the slots that
-- are free and those that are still held make up the maximum. A file may hold several slots.
pub release_held :
    (f : Str) (held : List Str) (fc : FlowController)
    → Reached held fc
    → contains held f ≡ true
    → (fc' : FlowController) × (release_transfer_slot f fc ≡ some fc')
      × (has f fc'.active_transfers ≡ false)
      × (fc'.available ≡ fc.available + 1)
      × (length (without f held) + fc'.available ≡ fc.max_concurrent)
unfolding release_transfer_slot
release_held f held fc r h =
    let slots = slots_held r in
    let fewer = length-without f held h in
    (
      record fc { active_transfers = erase f fc.active_transfers; available = fc.available + 1 },
      ground (arith, slots, fewer),
      ground (arith, lookup-erase f f fc.active_transfers),
      refl,
      omega (arith, slots, fewer),
    )
