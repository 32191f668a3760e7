-- ===== src/Connection.antt =====
-- internal/network/connection/manager.go. The mutexes make each method one step, the clock is an
-- argument, and the notifications that a method starts are the list beside its state. Times are
-- nanoseconds; a time that was never set is 0, and `now` is taken to be later by more than any
-- backoff.
pub mod States
use p2p_folder_sync.Prelude.{
  ℕ, zero, suc, ◌+◌, ◌*◌, ◌^◌, Option, none, some, List, [], ◌∷◌, ltb, Str, list_eq, nat_eq, Eq,
  ◌==◌, if◌then◌else◌,
}
use p2p_folder_sync.Prelude.Dict.{Dict, lookup, insert, erase}

pub data ConnectionState : Type 0 where
  disconnected connecting connected : ConnectionState

state_dec : Discrete ConnectionState
state_dec = hlevel

instance unfoldable pub state_eq : Eq ConnectionState
unfolding state_dec
state_eq = record { dec = state_dec }

pub data ConnectionEvent : Type 0 where
  event_connected event_disconnected event_heartbeat_timeout : ConnectionEvent

pub record Connection : Type 0 where
  pub peer_id : Str
  pub address : Str
  pub port : ℕ
  pub state : ConnectionState
  pub connected_at : ℕ
  pub last_seen : ℕ
  pub last_heartbeat : ℕ
  pub session_key : List ℕ
  pub retry_count : ℕ
  pub last_retry_at : ℕ

abbrev pub Connections : Type 0
Connections = Dict Str Connection

abbrev pub Events : Type 0
Events = List (Str × ConnectionEvent)

abbrev pub Outcome : Type 0
Outcome = Connections × Events

unfoldable pub add_connection : ℕ → Str → Str → ℕ → Connections → Outcome
add_connection now peer_id address port cs = (
  insert peer_id
      (record {
        peer_id = peer_id;
        address = address;
        port = port;
        state = connected;
        connected_at = now;
        last_seen = now;
        last_heartbeat = 0;
        session_key = [];
        retry_count = 0;
        last_retry_at = 0;
      })
      cs,
  (peer_id, event_connected) ∷ [],
)

abbrev pub get_connection : Str → Connections → Option Connection
get_connection = lookup

-- The assignments to the connection.
unfoldable pub with_state : ℕ → ConnectionState → Connection → Connection
with_state now state conn =
    if state == connected
    then record conn { state = state; last_seen = now; last_heartbeat = now }
    else record conn { state = state }

pub change_events : Str → ConnectionState → ConnectionState → Events
change_events peer_id old state =
    if old == state
    then []
    else (peer_id, if state == connected then event_connected else event_disconnected) ∷ []

-- `none` is the error "connection not found".
unfoldable pub update_connection_state : ℕ → Str → ConnectionState → Connections → Option Outcome
unfolding with_state change_events
update_connection_state now peer_id state cs = elim (lookup peer_id cs) [
  | none ↦ none
  | some conn ↦
      some (insert peer_id (with_state now state conn) cs, change_events peer_id conn.state state)
]

unfoldable pub remove_connection : Str → Connections → Outcome
remove_connection peer_id cs = (
  erase peer_id cs,
  elim (lookup peer_id cs) [ none ↦ [] | some conn ↦ (peer_id, event_disconnected) ∷ [] ],
)

unfoldable pub get_connected_peers : Connections → List Str
get_connected_peers [] = []
get_connected_peers ((peer_id, conn) ∷ cs) =
    let rest = get_connected_peers cs in if conn.state == connected then peer_id ∷ rest else rest

unfoldable pub update_heartbeat : ℕ → Str → Connections → Option Connections
update_heartbeat now peer_id cs = elim (lookup peer_id cs) [
  | none ↦ none
  | some conn ↦ some (insert peer_id (record conn { last_heartbeat = now; last_seen = now }) cs)
]

unfoldable pub set_session_key : Str → List ℕ → Connections → Option Connections
set_session_key peer_id key cs = elim (lookup peer_id cs) [
  | none ↦ none
  | some conn ↦ some (insert peer_id (record conn { session_key = key }) cs)
]

unfoldable pub get_session_key : Str → Connections → Option (List ℕ)
get_session_key peer_id cs = elim (lookup peer_id cs) [
  | none ↦ none
  | some conn ↦ some conn.session_key
]

abbrev pub second : ℕ
second = 1_000_000_000

-- The delay as a float is exact up to the cap, and above the cap it is the cap.
unfoldable pub calculate_backoff_duration : ℕ → ℕ
calculate_backoff_duration zero = 0
calculate_backoff_duration (suc n) =
    let delay = second * 2 ^ n in if ltb (300 * second) delay then 300 * second else delay

unfoldable pub retry : ℕ → Connection → Connection
retry now conn = record conn {
  retry_count = conn.retry_count + 1;
  last_retry_at = now;
  state = connecting;
}

unfoldable pub attempt_reconnection : ℕ → Str → Connections → Option Outcome
unfolding retry
attempt_reconnection now peer_id cs = elim (lookup peer_id cs) [
  | none ↦ none
  | some conn ↦
      if conn.state == connected
      then some (cs, [])
      else if ltb now (conn.last_retry_at + calculate_backoff_duration conn.retry_count)
      then some (cs, [])
      else some (insert peer_id (retry now conn) cs, (peer_id, event_disconnected) ∷ [])
]
