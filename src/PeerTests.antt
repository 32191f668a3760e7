-- ===== src/PeerTests.antt =====
-- Inputs at which the theorems on buffers, flow control, connections and discovery apply.
use p2p_folder_sync.Prelude.{
  ◌≡◌, refl, ◌↔◌, ℕ, ◌+◌, ◌*◌, ◌≤◌, true, false, some, List, [], ◌∷◌, length, Str, bytes, pos,
  list_eq, nat_eq, int_eq, arith,
}
use p2p_folder_sync.Prelude.Dict.{Dict, lookup, insert, has}
use p2p_folder_sync.Chunking.{Chunk}
use p2p_folder_sync.Buffer.{
  ChunkBuffer, ok, new_chunk_buffer, add_chunk, get_missing_chunks, get_chunks,
}
use p2p_folder_sync.Buffer.Invariant.{
  Valid, InOrder, new_chunk_buffer-Valid, add_chunk-Valid, complete-iff-none_missing,
  get_chunks_complete,
}
use p2p_folder_sync.FlowControl.{
  RateLimiter, FlowController, new_flow_controller, acquire_transfer_slot, release_transfer_slot,
}
use p2p_folder_sync.FlowControl.Bounds
use p2p_folder_sync.FlowControl.Bounds.{
  Event, consumes, ticks, sets_rate, run_budget, total_granted, entitled,
}
use p2p_folder_sync.FlowControl.Slots.{Reached, opened, acquired, without, release_held}
use p2p_folder_sync.Heartbeat.{check_connection_health}
use p2p_folder_sync.Heartbeat.Alive.{is_connected, is_connected-check_connection_health}
use p2p_folder_sync.Connection.{connected, second, disconnected, Connection, Connections}
use p2p_folder_sync.Registry.{Deletes}

abbrev only_chunk : Chunk
only_chunk = record {
  file_id = bytes "f";
  chunk_id = pos 0;
  offset = 0;
  len = 1;
  data_bytes = 7 ∷ [];
  hash = 7 ∷ [];
  file_hash = [];
  is_last = true;
  total_chunks = pos 1;
}

abbrev empty_buffer : ChunkBuffer
empty_buffer = record {
  file_id = bytes "f";
  total_chunks = pos 1;
  chunks = [];
  received = [];
  last_received = 0;
  complete = false;
  signalled = false;
}

abbrev full_buffer : ChunkBuffer
full_buffer = record {
  file_id = bytes "f";
  total_chunks = pos 1;
  chunks = (pos 0, only_chunk) ∷ [];
  received = (pos 0, true) ∷ [];
  last_received = 5;
  complete = true;
  signalled = true;
}

empty_buffer-Valid : Valid 1 empty_buffer
unfolding new_chunk_buffer
empty_buffer-Valid = new_chunk_buffer-Valid (bytes "f") 1 0 (omega arith)

add_chunk-Valid_example : Valid 1 full_buffer
unfolding add_chunk insert list_eq nat_eq int_eq
add_chunk-Valid_example =
    add_chunk-Valid 1 5 only_chunk empty_buffer full_buffer empty_buffer-Valid refl

complete-iff-none_missing_example :
    (empty_buffer.complete ≡ true) ↔ (get_missing_chunks empty_buffer ≡ [])
complete-iff-none_missing_example = complete-iff-none_missing 1 empty_buffer empty_buffer-Valid

full_buffer-Valid : Valid 1 full_buffer
unfolding add_chunk insert list_eq nat_eq int_eq
full_buffer-Valid = add_chunk-Valid 1 5 only_chunk empty_buffer full_buffer empty_buffer-Valid refl

get_chunks_complete_example :
    (cs : List Chunk) × (get_chunks full_buffer ≡ ok cs)
    × (length cs ≡ 1)
    × InOrder full_buffer.chunks 0 cs
get_chunks_complete_example = get_chunks_complete 1 full_buffer full_buffer-Valid refl

abbrev per_nano : ℕ → ℕ → ℕ
per_nano elapsed rate = elapsed * rate

abbrev small_limiter : RateLimiter
small_limiter = record { rate = 2; burst = 10; tokens = 10; last_refill = 0; stopped = false }

abbrev traffic : List Event
traffic = consumes 1 8 ∷ ticks 3 ∷ sets_rate 5 ∷ consumes 4 9 ∷ []

run_budget_example :
    total_granted per_nano small_limiter traffic
      + (Bounds.run per_nano small_limiter traffic).tokens
    ≤ small_limiter.tokens + entitled per_nano 0 2 traffic
run_budget_example = run_budget per_nano small_limiter traffic

-- Two slots, both taken for one file.
abbrev taken_twice : FlowController
taken_twice = record (new_flow_controller 5 2 0) {
  active_transfers = (bytes "f", true) ∷ [];
  available = 0;
}

taken_twice-Reached : Reached (bytes "f" ∷ bytes "f" ∷ []) taken_twice
unfolding acquire_transfer_slot new_flow_controller insert list_eq nat_eq
taken_twice-Reached =
    acquired
      {fc = record (new_flow_controller 5 2 0) {
        active_transfers = (bytes "f", true) ∷ [];
        available = 1;
      }}
      (bytes "f") (acquired (bytes "f") (opened 5 2 0) refl) refl

release_held_example :
    (fc' : FlowController) × (release_transfer_slot (bytes "f") taken_twice ≡ some fc')
    × (has (bytes "f") fc'.active_transfers ≡ false)
    × (fc'.available ≡ taken_twice.available + 1)
    × (length (without (bytes "f") (bytes "f" ∷ bytes "f" ∷ [])) + fc'.available
        ≡ taken_twice.max_concurrent)
unfolding list_eq nat_eq
release_held_example =
    release_held (bytes "f") (bytes "f" ∷ bytes "f" ∷ []) taken_twice taken_twice-Reached refl

abbrev lost : Connection
lost = record {
  peer_id = bytes "p";
  address = bytes "h";
  port = 8080;
  state = disconnected;
  connected_at = 1;
  last_seen = 1;
  last_heartbeat = 1;
  session_key = [];
  retry_count = 0;
  last_retry_at = 0;
}

abbrev peers : Connections
peers = (bytes "p", lost) ∷ []

abbrev ages : Dict Str ℕ
ages = (bytes "p", 3) ∷ []

abbrev age_of : ℕ → ℕ
age_of n = n

abbrev no_deletes : Deletes
no_deletes = []

abbrev heard_at : ℕ → Connection
heard_at t = record {
  peer_id = bytes "p";
  address = bytes "host";
  port = 1;
  state = connected;
  connected_at = 0;
  last_seen = t;
  last_heartbeat = t;
  session_key = [];
  retry_count = 0;
  last_retry_at = 0;
}

is_connected-check_connection_health_example :
    is_connected (
      lookup
        (bytes "q")
        (check_connection_health 30
          (100 * second)
          ((bytes "p", heard_at (90 * second)) ∷ (bytes "q", heard_at 1) ∷ [])).0)
    ≡ false
unfolding lookup list_eq nat_eq
is_connected-check_connection_health_example =
    is_connected-check_connection_health 30 (100 * second)
      ((bytes "p", heard_at (90 * second)) ∷ (bytes "q", heard_at 1) ∷ []) (bytes "q") (heard_at 1)
      (refl, (refl, tt)) refl refl
