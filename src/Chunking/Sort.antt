-- ===== src/Chunking/Sort.antt =====
-- The sort of internal/chunking/assembler.go: chunks with distinct ids come out in one order.
use mathlib.Core.List.{
  Mem, Nodup, Perm, Permᴰ, Nodup-cons, Nodup-nil, not-mem-nil, mem-cons, mem-cons_self,
}
use mathlib.Core.List.Perm
use mathlib.Core.Logic.{∥∥₁_elim}
use mathlib.Core.Logic.Or
use native.Mathlib.Bridge.{le_prop}
use p2p_folder_sync.Prelude.{
  ℕ, suc, ◌≡◌, refl, ap, sym, ◌∙◌, ◌≢◌, List, [], ◌∷◌, map, ℤ, pos, eq_of_parts, ◌≤ℤ◌, arith,
}
use p2p_folder_sync.Chunking.{Chunk, insert_chunk, sort_chunks}
use p2p_folder_sync.Chunking.Split.{Numbered}

abbrev ids : List Chunk → List ℤ
ids = map λ c. c.chunk_id

insert_insert :
    (a b : Chunk) (cs : List Chunk)
    → a.chunk_id ≢ b.chunk_id
    → insert_chunk a (insert_chunk b cs) ≡ insert_chunk b (insert_chunk a cs)
unfolding insert_chunk
insert_insert a b [] h = ground (arith, eq_of_parts a.chunk_id b.chunk_id)
insert_insert a b (c ∷ cs) h =
    ground (arith, eq_of_parts a.chunk_id b.chunk_id, insert_insert a b cs h)

Chunk-set : IsSet (List Chunk)
Chunk-set = hlevel

sort-Permᴰ : {xs ys : List Chunk} → Permᴰ xs ys → Nodup (ids xs) → sort_chunks xs ≡ sort_chunks ys
unfolding sort_chunks
sort-Permᴰ Permᴰ.nil u = refl
sort-Permᴰ (Permᴰ.cons {a} {b} {l₁ = xs} {l₂ = ys} e p) u =
    ap (λ c. insert_chunk c (sort_chunks xs)) e
    ∙ ap (insert_chunk b) (sort-Permᴰ p (Nodup-cons.0 u).1)
sort-Permᴰ (Permᴰ.swap {a} {b} {a'} {b'} {l = xs} e f) u =
    insert_insert a b (sort_chunks xs) (λ k. (Nodup-cons.0 u).0 (rw k mem-cons_self))
    ∙ ap (λ c. insert_chunk c (insert_chunk a (sort_chunks xs))) f
    ∙ ap (λ c. insert_chunk a' (insert_chunk c (sort_chunks xs))) e
sort-Permᴰ (Permᴰ.trans {l₁ = xs} {l₂ = ys} p q) u =
    sort-Permᴰ p u ∙ sort-Permᴰ q (Perm.nodup (Perm.map _ ∣ p ∣₁) u)

sort_of_Numbered : (i : ℕ) (cs : List Chunk) → Numbered i cs → sort_chunks cs ≡ cs
unfolding sort_chunks insert_chunk
sort_of_Numbered i [] h = refl
sort_of_Numbered i (c ∷ []) h = refl
sort_of_Numbered i (c ∷ d ∷ ds) h =
    ap (insert_chunk c) (sort_of_Numbered (suc i) (d ∷ ds) h.1) ∙ ground arith

ids_above : (x : ℤ) (i : ℕ) (cs : List Chunk) → Numbered i cs → Mem x (ids cs) → pos i ≤ℤ x
ids_above x i [] h m = absurd (not-mem-nil m)
ids_above x i (c ∷ cs) h m =
    Or.elim le_prop (mem-cons.0 m) (λ e. ground arith)
      (λ rest. omega (arith, ids_above x (suc i) cs h.1 rest))

Numbered-Nodup : (i : ℕ) (cs : List Chunk) → Numbered i cs → Nodup (ids cs)
Numbered-Nodup i [] h = Nodup-nil
Numbered-Nodup i (c ∷ cs) h =
    Nodup-cons.1
      (λ m. ground (arith, ids_above c.chunk_id (suc i) cs h.1 m), Numbered-Nodup (suc i) cs h.1)

-- However the numbered chunks of a file arrive, sorting restores their order.
pub sort_arrivals :
    (i : ℕ) (cs arrived : List Chunk) → Numbered i cs → Perm cs arrived → sort_chunks arrived ≡ cs
sort_arrivals i cs arrived h p =
    ∥∥₁_elim p (Chunk-set _ _)
      λ q. sym (sort-Permᴰ q (Numbered-Nodup i cs h)) ∙ sort_of_Numbered i cs h
