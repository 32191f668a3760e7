-- ===== src/Connection/States.antt =====
use native.Mathlib.Nat.{pow-suc}
-- internal/network/connection/manager.go: states, events and the backoff.
use p2p_folder_sync.Prelude.{
  ◌≡◌, ◌≢◌, refl, ℕ, zero, suc, ◌+◌, ◌*◌, ◌^◌, ◌≤◌, ◌<◌, Bool, false, none, some, [], ◌∷◌, Str,
  list_eq, nat_eq, ◌==◌, if◌then◌else◌, arith, contains,
}
use p2p_folder_sync.Prelude.Dict.{lookup, insert, lookup-insert, NodupKeys}
use p2p_folder_sync.Connection.{
  ConnectionState, connected, Connection, Connections, event_disconnected, state_eq,
  update_connection_state, with_state, change_events, get_connected_peers,
  calculate_backoff_duration, attempt_reconnection, retry, second,
}

pow_pos : (n : ℕ) → 0 < 2 ^ n
pow_pos zero = omega arith
pow_pos (suc n) = omega (arith, pow_pos n, pow-suc 2 n)

-- The delay is 0 before the first retry. After it the delay never falls as the retries go on, and
-- stays between a second and five minutes.
backoff_bounds :
    (n : ℕ)
    → (calculate_backoff_duration n ≤ calculate_backoff_duration (suc n))
      × (second ≤ calculate_backoff_duration (suc n))
      × (calculate_backoff_duration (suc n) ≤ 300 * second)
unfolding calculate_backoff_duration
backoff_bounds zero = (omega arith, omega arith, omega arith)
backoff_bounds (suc n) =
    let p = pow_pos n in
    let q : 2 ^ suc n ≡ 2 * 2 ^ n = omega (arith, pow-suc 2 n) in
    (ground (arith, p, q), ground (arith, p, q), ground (arith, p, q))

-- Setting the state of a known peer gives it the new state, leaves every other connection as it was,
-- and sends an event exactly when the state changed: `connected` for the connected state,
-- `disconnected` for the others.
update_connection_state_lem :
    (now : ℕ) (p q : Str) (state : ConnectionState) (cs : Connections) (conn : Connection)
    → lookup p cs ≡ some conn
    → (cs' : Connections) × (update_connection_state now p state cs
        ≡ some (cs', change_events p conn.state state))
      × (lookup q cs' ≡ (if q == p then some (with_state now state conn) else lookup q cs))
      × ((with_state now state conn).state ≡ state)
unfolding update_connection_state with_state
update_connection_state_lem now p q state cs conn e = (
  insert p (with_state now state conn) cs,
  ground (arith, e),
  lookup-insert q p (with_state now state conn) cs,
  ground arith,
)

-- After a retry that went out, a further attempt before the next backoff has passed changes nothing
-- and tells nobody.
attempt_reconnection_waits :
    (now later : ℕ) (p : Str) (cs : Connections) (conn : Connection)
    → lookup p cs ≡ some conn
    → conn.state ≢ connected
    → conn.last_retry_at + calculate_backoff_duration conn.retry_count ≤ now
    → later < now + calculate_backoff_duration (conn.retry_count + 1)
    → (cs' : Connections) × (attempt_reconnection now p cs
        ≡ some (cs', (p, event_disconnected) ∷ []))
      × (lookup p cs' ≡ some (retry now conn))
      × (attempt_reconnection later p cs' ≡ some (cs', []))
unfolding attempt_reconnection
attempt_reconnection_waits now later p cs conn e down due early = (
  insert p (retry now conn) cs,
  ground (arith, e, down, due),
  ground (arith, lookup-insert p p (retry now conn) cs),
  ground (arith, lookup-insert p p (retry now conn) cs, early),
)

pub is_connected : Str → Connections → Bool
is_connected p cs = elim (lookup p cs) [ none ↦ false | some conn ↦ conn.state == connected ]

not_listed :
    (p : Str) (cs : Connections) → lookup p cs ≡ none → contains (get_connected_peers cs) p ≡ false
unfolding get_connected_peers lookup
not_listed p [] h = refl
not_listed p ((q, c) ∷ cs) h = ground (arith, not_listed p cs)

-- A peer is listed as connected exactly when it has a connection, in the connected state.
contains-get_connected_peers :
    (p : Str) (cs : Connections)
    → NodupKeys cs
    → contains (get_connected_peers cs) p ≡ is_connected p cs
unfolding get_connected_peers lookup is_connected
contains-get_connected_peers p [] u = refl
contains-get_connected_peers p ((q, c) ∷ cs) u =
    ground (arith, contains-get_connected_peers p cs u.1, not_listed p cs)
