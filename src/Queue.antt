-- ===== src/Queue.antt =====
-- internal/sync/queue.go: one queue of operations for each file id. The mutex makes each method
-- one step, so a method is a function of the map `queues`. `A` is the type of the operations.
pub mod Laws
use p2p_folder_sync.Prelude.{
  ℕ, Option, none, some, Bool, true, List, [], ◌∷◌, ◌++◌, length, or_else, Str, list_eq, nat_eq,
  ◌==◌,
}
use p2p_folder_sync.Prelude.Dict.{Dict, lookup, insert, erase}

abbrev pub Queues {ℓ} : Type ℓ → Type ℓ
Queues A = Dict Str (List A)

module _ {ℓ} {A : Type ℓ} where
  pub new_operation_queue : Queues A
  new_operation_queue = []

  -- `q.queues[fileID]`, nil where the key is missing
  abbrev pub queue_of : Queues A → Str → List A
  queue_of q file_id = or_else (lookup file_id q) []

  unfoldable pub enqueue : Queues A → Str → A → Queues A
  enqueue q file_id op = insert file_id (queue_of q file_id ++ op ∷ []) q

  -- The tail is stored, and an entry whose tail is empty is deleted.
  after_dequeue : Queues A → Str → List A → Queues A
  after_dequeue q file_id [] = erase file_id (insert file_id [] q)
  after_dequeue q file_id (op ∷ rest) = insert file_id (op ∷ rest) q

  dequeue_entry : Queues A → Str → Option (List A) → Option A × Queues A
  unfolding after_dequeue
  dequeue_entry q file_id none = (none, q)
  dequeue_entry q file_id (some []) = (none, q)
  dequeue_entry q file_id (some (op ∷ rest)) = (some op, after_dequeue q file_id rest)

  unfoldable pub dequeue : Queues A → Str → Option A × Queues A
  unfolding dequeue_entry
  dequeue q file_id = dequeue_entry q file_id (lookup file_id q)

  peek_entry : Option (List A) → Option A
  peek_entry none = none
  peek_entry (some []) = none
  peek_entry (some (op ∷ rest)) = some op

  unfoldable pub peek : Queues A → Str → Option A
  unfolding peek_entry
  peek q file_id = peek_entry (lookup file_id q)

  empty_entry : Option (List A) → Bool
  empty_entry none = true
  empty_entry (some queue) = length queue == 0

  unfoldable pub is_empty : Queues A → Str → Bool
  unfolding empty_entry
  is_empty q file_id = empty_entry (lookup file_id q)

  unfoldable pub size : Queues A → Str → ℕ
  size q file_id = length (queue_of q file_id)
