-- ===== src/Heartbeat/Alive.antt =====
-- internal/network/connection/manager.go: which connections outlive a check of their health.
use p2p_folder_sync.Prelude.{
  ℕ, ◌+◌, ◌-◌, ◌*◌, ◌≡◌, refl, ◌∙◌, ap, inl, inr, Bool, Bool-cases, false, not, Option,
  Option-cases, none, some, [], ◌∷◌, ltb, Str, list_eq, nat_eq, ◌==◌, if◌then◌else◌, arith,
}
use p2p_folder_sync.Prelude.Dict.{lookup, insert, lookup-insert, lookup-insert_self, NodupKeys}
use p2p_folder_sync.Connection.{
  Connection, Connections, connected, disconnected, state_eq, second, with_state, retry,
  update_connection_state, attempt_reconnection, calculate_backoff_duration, event_disconnected,
}
use p2p_folder_sync.Heartbeat.{time_out, timed_out, check_loop, check_connection_health}

abbrev pub is_connected : Option Connection → Bool
is_connected none = false
is_connected (some conn) = conn.state == connected

attempt_lookup :
    (now : ℕ) (peer_id : Str) (cs : Connections) (conn : Connection)
    → lookup peer_id cs ≡ some conn
    → (conn.state == connected) ≡ false
    → (cs' : Connections) × (events : _) × (attempt_reconnection now peer_id cs
        ≡ some (cs', events))
      × (is_connected (lookup peer_id cs') ≡ false)
      × ((j : Str)
          → (if j == peer_id then some conn else lookup j cs')
            ≡ (if j == peer_id then some conn else lookup j cs))
unfolding attempt_reconnection retry
attempt_lookup now peer_id cs conn there down =
    elim (Bool-cases (ltb now (conn.last_retry_at + calculate_backoff_duration conn.retry_count))) [
      | inl early ↦
          (cs, [], ground (arith, there, down, early), ground (arith, there, down), λ j. refl)
      | inr due ↦ (
        insert peer_id (retry now conn) cs,
        (peer_id, event_disconnected) ∷ [],
        ground (arith, there, down, due),
        ground (arith, lookup-insert_self peer_id (retry now conn) cs),
        λ j. ground (arith, lookup-insert j peer_id (retry now conn) cs),
      )
    ]

-- What a time-out leaves of a connection that is there.
time_out-lookup :
    (now : ℕ) (peer_id : Str) (cs : Connections) (conn : Connection)
    → lookup peer_id cs ≡ some conn
    → (is_connected (lookup peer_id (time_out now peer_id cs).0) ≡ false)
      × ((j : Str) → (j == peer_id) ≡ false → lookup j (time_out now peer_id cs).0 ≡ lookup j cs)
unfolding time_out update_connection_state with_state
time_out-lookup now peer_id cs conn there =
    let down = with_state now disconnected conn in
    let cs1 = insert peer_id down cs in
    let (cs2, events, attempted, gone, others) =
      attempt_lookup now peer_id cs1 down (lookup-insert_self peer_id down cs) (ground arith) in
    (
      ground (arith, there, attempted, gone),
      λ j other. ground (arith, there, attempted, others j, other, lookup-insert j peer_id down cs),
    )

time_out_other :
    (now : ℕ) (peer_id j : Str) (cs : Connections)
    → (j == peer_id) ≡ false
    → lookup j (time_out now peer_id cs).0 ≡ lookup j cs
unfolding time_out update_connection_state
time_out_other now peer_id j cs other = elim (Option-cases (lookup peer_id cs)) [
  | inl absent ↦ ground (arith, absent)
  | inr (conn, there) ↦ (time_out-lookup now peer_id cs conn there).1 j other
]

-- The connections after the check of one copy.
step : ℕ → ℕ → Str → Connection → Connections → Connections
step timeout now peer_id conn cs =
    if timed_out timeout now conn then (time_out now peer_id cs).0 else cs

loop_step :
    (timeout now : ℕ) (peer_id : Str) (conn : Connection) (copies cs : Connections)
    → (check_loop timeout now ((peer_id, conn) ∷ copies) cs).0
      ≡ (check_loop timeout now copies (step timeout now peer_id conn cs)).0
unfolding check_loop step
loop_step timeout now peer_id conn copies cs = elim (Bool-cases (timed_out timeout now conn)) [
  | inl late ↦ ground (arith, late)
  | inr fine ↦ ground (arith, fine)
]

step_other :
    (timeout now : ℕ) (peer_id j : Str) (conn : Connection) (cs : Connections)
    → (j == peer_id) ≡ false
    → lookup j (step timeout now peer_id conn cs) ≡ lookup j cs
unfolding step
step_other timeout now peer_id j conn cs other =
    ground (arith, time_out_other now peer_id j cs other)

check_untouched :
    (timeout now : ℕ) (copies cs : Connections) (j : Str)
    → lookup j copies ≡ none
    → lookup j (check_loop timeout now copies cs).0 ≡ lookup j cs
unfolding lookup
check_untouched timeout now [] cs j absent = unfold check_loop in refl
check_untouched timeout now ((peer_id, conn) ∷ copies) cs j absent =
    let other : (j == peer_id) ≡ false = ground (arith, absent) in
    let later : lookup j copies ≡ none = ground (arith, absent, other) in
    ap (lookup j) (loop_step timeout now peer_id conn copies cs)
    ∙ check_untouched timeout now copies (step timeout now peer_id conn cs) j later
    ∙ step_other timeout now peer_id j conn cs other

step_self :
    (timeout now : ℕ) (peer_id : Str) (conn : Connection) (cs : Connections)
    → lookup peer_id cs ≡ some conn
    → conn.state ≡ connected
    → is_connected (lookup peer_id (step timeout now peer_id conn cs))
      ≡ not (ltb timeout (now - conn.last_heartbeat))
unfolding step timed_out
step_self timeout now peer_id conn cs there up =
    let late = (time_out-lookup now peer_id cs conn there).0 in
    elim (Bool-cases (ltb timeout (now - conn.last_heartbeat))) [
      | inl over ↦ ground (arith, there, up, over, late)
      | inr within ↦ ground (arith, there, up, within)
    ]

checked :
    (timeout now : ℕ) (copies cs : Connections) (j : Str) (conn : Connection)
    → NodupKeys copies
    → lookup j copies ≡ some conn
    → lookup j cs ≡ some conn
    → conn.state ≡ connected
    → is_connected (lookup j (check_loop timeout now copies cs).0)
      ≡ not (ltb timeout (now - conn.last_heartbeat))
unfolding lookup
checked timeout now [] cs j conn distinct copied there up = absurd (ground (arith, copied))
checked timeout now ((peer_id, c) ∷ copies) cs j conn distinct copied there up =
    let next = step timeout now peer_id c cs in
    elim (Bool-cases (j == peer_id)) [
      | inr other ↦
          let later : lookup j copies ≡ some conn = ground (arith, copied, other) in
          let kept = step_other timeout now peer_id j c cs other ∙ there in
          ap (λ ds. is_connected (lookup j ds)) (loop_step timeout now peer_id c copies cs)
          ∙ checked timeout now copies next j conn distinct.1 later kept up
      | inl here ↦
          let same : j ≡ peer_id = ground (arith, here) in
          let mine : c ≡ conn = ground (arith, copied, here) in
          let gone : lookup j copies ≡ none = ap (λ k. lookup k copies) same ∙ distinct.0 in
          let own : is_connected (lookup j next) ≡ not (ltb timeout (now - conn.last_heartbeat)) =
            ground (arith, same, mine, step_self timeout now j conn cs there up) in
          ap (λ ds. is_connected (lookup j ds)) (loop_step timeout now peer_id c copies cs)
          ∙ ap is_connected (check_untouched timeout now copies next j gone)
          ∙ own
    ]

-- A check of the connections' health leaves a connected peer connected exactly if its last
-- heartbeat is not older than twice the interval, whatever the order of the map and whatever else
-- times out. It is assumed that the map has each peer once.
pub is_connected-check_connection_health :
    (interval now : ℕ) (cs : Connections) (peer_id : Str) (conn : Connection)
    → NodupKeys cs
    → lookup peer_id cs ≡ some conn
    → conn.state ≡ connected
    → is_connected (lookup peer_id (check_connection_health interval now cs).0)
      ≡ not (ltb (interval * 2 * second) (now - conn.last_heartbeat))
unfolding check_connection_health
is_connected-check_connection_health interval now cs peer_id conn distinct there up =
    checked (interval * 2 * second) now cs cs peer_id conn distinct there there up
