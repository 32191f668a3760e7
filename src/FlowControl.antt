-- ===== src/FlowControl.antt =====
-- internal/network/flowcontrol: the token bucket of rate_limiter.go and controller.go. The product
-- of floats int64(elapsed.Seconds() * float64(rate)) is the parameter `accrued`, of the elapsed
-- nanoseconds and the rate. Sizes, rates and tokens are natural numbers. A mutex makes each method
-- one step; the clock is an argument.
pub mod Bounds
pub mod Slots
use p2p_folder_sync.Prelude.{
  ℕ, ◌+◌, ◌-◌, ◌*◌, Bool, true, false, Option, none, some, List, [], length, ltb, leb, Str, list_eq,
  nat_eq, if◌then◌else◌,
}
use p2p_folder_sync.Prelude.Dict.{Dict, lookup, insert, erase, keys}

pub record RateLimiter : Type 0 where
  pub rate : ℕ
  pub burst : ℕ
  pub tokens : ℕ
  pub last_refill : ℕ
  pub stopped : Bool

unfoldable pub new_rate_limiter : ℕ → ℕ → ℕ → RateLimiter
new_rate_limiter rate burst now = record {
  rate = rate;
  burst = burst;
  tokens = burst;
  last_refill = now;
  stopped = false;
}

abbrev pub capped : ℕ → ℕ → ℕ
capped burst n = if ltb burst n then burst else n

module _ (accrued : ℕ → ℕ → ℕ) where
  -- The refill that `tryConsume` and the ticker of `refillTokens` make.
  unfoldable pub refill : ℕ → RateLimiter → RateLimiter
  refill now rl =
      let to_add = accrued (now - rl.last_refill) rl.rate in
      if ltb 0 to_add
      then record rl { tokens = capped rl.burst (rl.tokens + to_add); last_refill = now }
      else rl

  unfoldable pub try_consume : ℕ → ℕ → RateLimiter → Bool × RateLimiter
  unfolding refill
  try_consume now n rl =
      let rl' = refill now rl in
      if leb n rl'.tokens then (true, record rl' { tokens = rl'.tokens - n }) else (false, rl')

unfoldable pub stop : RateLimiter → RateLimiter
stop rl = record rl { stopped = true }

unfoldable pub set_rate : ℕ → RateLimiter → RateLimiter
set_rate rate rl = record rl { rate = rate }

-- `available` is the number of tokens in the channel `transferSemaphore`.
pub record FlowController : Type 0 where
  pub global_limiter : RateLimiter
  pub per_file_limiters : Dict Str RateLimiter
  pub max_concurrent : ℕ
  pub active_transfers : Dict Str Bool
  pub available : ℕ

unfoldable pub new_flow_controller : ℕ → ℕ → ℕ → FlowController
unfolding new_rate_limiter
new_flow_controller global_bandwidth max_concurrent now = record {
  global_limiter = new_rate_limiter global_bandwidth (global_bandwidth * 2) now;
  per_file_limiters = [];
  max_concurrent = max_concurrent;
  active_transfers = [];
  available = max_concurrent;
}

-- `none`: the channel is empty and the call waits, until a slot comes or its context ends.
unfoldable pub acquire_transfer_slot : Str → FlowController → Option FlowController
acquire_transfer_slot file_id fc =
    if ltb 0 fc.available
    then some (record fc {
      active_transfers = insert file_id true fc.active_transfers;
      available = fc.available - 1;
    })
    else none

-- The entry is deleted; then the send puts a slot back, and waits (`none`) where the channel is full.
unfoldable pub release_transfer_slot : Str → FlowController → Option FlowController
release_transfer_slot file_id fc =
    if ltb fc.available fc.max_concurrent
    then some (record fc {
      active_transfers = erase file_id fc.active_transfers;
      available = fc.available + 1;
    })
    else none

unfoldable pub set_per_file_limit : Str → ℕ → ℕ → FlowController → FlowController
unfolding set_rate new_rate_limiter
set_per_file_limit file_id rate now fc = elim (lookup file_id fc.per_file_limiters) [
  | none ↦ record fc {
    per_file_limiters = insert file_id (new_rate_limiter rate (rate * 2) now) fc.per_file_limiters;
  }
  | some rl ↦ record fc {
    per_file_limiters = insert file_id (set_rate rate rl) fc.per_file_limiters;
  }
]

unfoldable pub remove_per_file_limit : Str → FlowController → FlowController
remove_per_file_limit file_id fc = record fc {
  per_file_limiters = erase file_id fc.per_file_limiters;
}

unfoldable pub set_global_bandwidth : ℕ → FlowController → FlowController
unfolding set_rate
set_global_bandwidth bandwidth fc = record fc {
  global_limiter = set_rate bandwidth fc.global_limiter;
}

abbrev pub active_transfer_count : FlowController → ℕ
active_transfer_count fc = length fc.active_transfers

abbrev pub get_active_transfers : FlowController → List Str
get_active_transfers fc = keys fc.active_transfers

unfoldable pub stop_all : FlowController → FlowController
unfolding stop
stop_all fc = record fc { global_limiter = stop fc.global_limiter; per_file_limiters = [] }
