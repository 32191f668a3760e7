-- ===== src/Queue/Laws.antt =====
-- internal/sync/queue.go: each file's queue is first in, first out, and no file sees another's.
use p2p_folder_sync.Prelude.{
  ◌≡◌, refl, sym, ap, ◌∙◌, ◌↔◌, append-nil, append_assoc, ◌≢◌, ◌⊎◌, inl, inr, Option, none, some,
  true, List, [], ◌∷◌, ◌++◌, length, or_else, Str, list_eq, nat_eq, ◌==◌, if◌then◌else◌, arith,
}
use p2p_folder_sync.Prelude.Dict.{lookup, insert, lookup-insert, lookup-erase}
use p2p_folder_sync.Queue.{
  Queues, dequeue_entry, peek_entry, empty_entry, queue_of, enqueue, after_dequeue, dequeue, peek,
  is_empty, size,
}

pub data Call {ℓ} (A : Type ℓ) : Type ℓ where
  enqueues : Str → A → Call A
  dequeues : Str → Call A

module _ {ℓ} {A : Type ℓ} where
  -- No file has an entry with an empty queue.
  abbrev pub IsTidy : Queues A → Type ℓ
  IsTidy q = (f : Str) → lookup f q ≢ some []

  append-ne-nil : (xs : List A) (a : A) → xs ++ a ∷ [] ≢ []
  append-ne-nil [] a = λ e. cc
  append-ne-nil (x ∷ xs) a = λ e. cc

  pub queue_of-enqueue :
      (q : Queues A) (f g : Str) (op : A)
      → queue_of (enqueue q f op) g ≡ (if g == f then queue_of q f ++ op ∷ [] else queue_of q g)
  unfolding enqueue
  queue_of-enqueue q f g op = ground (arith, lookup-insert g f (queue_of q f ++ op ∷ []) q)

  lookup-after_dequeue :
      (q : Queues A) (f g : Str) (rest : List A)
      → lookup g (after_dequeue q f rest)
        ≡ (if g == f then (if length rest == 0 then none else some rest) else lookup g q)
  unfolding after_dequeue
  lookup-after_dequeue q f g [] =
      ground (arith, lookup-erase g f (insert f [] q), lookup-insert g f [] q)
  lookup-after_dequeue q f g (op ∷ rest) = ground (arith, lookup-insert g f (op ∷ rest) q)

  queue_of-after_dequeue :
      (q : Queues A) (f g : Str) (rest : List A)
      → queue_of (after_dequeue q f rest) g ≡ (if g == f then rest else queue_of q g)
  queue_of-after_dequeue q f g [] = ground (arith, lookup-after_dequeue q f g [])
  queue_of-after_dequeue q f g (op ∷ rest) = ground (arith, lookup-after_dequeue q f g (op ∷ rest))

  -- The front of a file's queue, and the state without it.
  abbrev Front : Queues A → Str → Option A × Queues A → Type ℓ
  Front q f r =
      ((queue_of q f ≡ []) × (r.0 ≡ none) × (r.1 ≡ q))
      ⊎ ((op : A) × (rest : List A) × (queue_of q f ≡ op ∷ rest)
          × (r.0 ≡ some op)
          × (r.1 ≡ after_dequeue q f rest))

  dequeue-Front : (q : Queues A) (f : Str) → Front q f (dequeue q f)
  unfolding dequeue
  dequeue-Front q f = go (lookup f q) refl
    where
      go : (o : Option (List A)) → lookup f q ≡ o → Front q f (dequeue_entry q f o)
      go none e = inl (rw e, refl, refl)
      go (some []) e = inl (rw e, refl, refl)
      go (some (op ∷ rest)) e = inr (op, rest, rw e, refl, refl)

  -- `Peek`, `IsEmpty` and `Size` agree with `Dequeue`: `Peek` shows what `Dequeue` would return, the
  -- queue is empty exactly when that is nil, and exactly when its size is 0.
  observers_agree :
      (q : Queues A) (f : Str)
      → (peek q f ≡ (dequeue q f).0)
        × ((is_empty q f ≡ true) ↔ (peek q f ≡ none))
        × ((is_empty q f ≡ true) ↔ (size q f ≡ 0))
  unfolding dequeue peek is_empty size
  observers_agree q f = go (lookup f q)
    where
      go :
          (o : Option (List A))
          → (peek_entry o ≡ (dequeue_entry q f o).0)
            × ((empty_entry o ≡ true) ↔ (peek_entry o ≡ none))
            × ((empty_entry o ≡ true) ↔ (length (or_else o []) ≡ 0))
      go none = (refl, ground arith, ground arith)
      go (some []) = (refl, ground arith, ground arith)
      go (some (op ∷ rest)) = (refl, ground arith, ground arith)

  -- The operations that a call puts into file `f`'s queue, and those that it hands out from it.
  abbrev accepted : Str → Call A → List A
  accepted f (enqueues g op) = if f == g then op ∷ [] else []
  accepted f (dequeues g) = []

  abbrev handed_out : Queues A → Str → Call A → List A
  handed_out q f (enqueues g op) = []
  handed_out q f (dequeues g) =
      if f == g then (elim ((dequeue q g).0) [ none ↦ [] | some op ↦ op ∷ [] ]) else []

  abbrev pub step : Queues A → Call A → Queues A
  step q (enqueues g op) = enqueue q g op
  step q (dequeues g) = (dequeue q g).1

  pub run : Queues A → List (Call A) → Queues A
  run q [] = q
  run q (c ∷ cs) = run (step q c) cs

  pub all_accepted : Str → List (Call A) → List A
  all_accepted f [] = []
  all_accepted f (c ∷ cs) = accepted f c ++ all_accepted f cs

  pub all_handed_out : Queues A → Str → List (Call A) → List A
  all_handed_out q f [] = []
  all_handed_out q f (c ∷ cs) = handed_out q f c ++ all_handed_out (step q c) f cs

  step_fifo :
      (q : Queues A) (f : Str) (c : Call A)
      → queue_of q f ++ accepted f c ≡ handed_out q f c ++ queue_of (step q c) f
  step_fifo q f (enqueues g op) =
      ground (arith, queue_of-enqueue q g f op, append-nil (queue_of q f))
  step_fifo q f (dequeues g) = elim (dequeue-Front q g) [
    | inl (e, out, same) ↦ ground (arith, e, out, same, append-nil (queue_of q f))
    | inr (op, rest, e, out, left) ↦
        ground (arith, e, out, left, append-nil (queue_of q f), queue_of-after_dequeue q g f rest)
  ]

  -- Over any history of calls, what was queued for a file together with what was accepted for it is,
  -- in the same order, what was handed out for it followed by what is still queued: nothing is lost,
  -- repeated, reordered or given to another file.
  pub run_fifo :
      (q : Queues A) (f : Str) (cs : List (Call A))
      → queue_of q f ++ all_accepted f cs ≡ all_handed_out q f cs ++ queue_of (run q cs) f
  unfolding run all_accepted all_handed_out
  run_fifo q f [] = append-nil (queue_of q f)
  run_fifo q f (c ∷ cs) =
      sym (append_assoc (queue_of q f) (accepted f c) (all_accepted f cs))
      ∙ ap (λ t. t ++ all_accepted f cs) (step_fifo q f c)
      ∙ append_assoc (handed_out q f c) (queue_of (step q c) f) (all_accepted f cs)
      ∙ ap (λ t. handed_out q f c ++ t) (run_fifo (step q c) f cs)
      ∙ sym (
          append_assoc (handed_out q f c) (all_handed_out (step q c) f cs)
            (queue_of (run (step q c) cs) f))

  -- Calls leave no entry with an empty queue behind.
  step-IsTidy : (q : Queues A) (c : Call A) → IsTidy q → IsTidy (step q c)
  unfolding enqueue
  step-IsTidy q (enqueues g op) t f =
      let nonempty = append-ne-nil (queue_of q g) op in
      ground (arith, lookup-insert f g (queue_of q g ++ op ∷ []) q, t f, nonempty)
  step-IsTidy q (dequeues g) t f = elim (dequeue-Front q g) [
    | inl (e, out, same) ↦ rw same (t f)
    | inr (op, rest, e, out, left) ↦ rw left (not_empty rest)
  ]
    where
      not_empty : (rest : List A) → lookup f (after_dequeue q g rest) ≢ some []
      not_empty [] = ground (arith, lookup-after_dequeue q g f [], t f)
      not_empty (x ∷ rest) = ground (arith, lookup-after_dequeue q g f (x ∷ rest), t f)
