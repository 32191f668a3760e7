-- ===== src/Heartbeat.antt =====
-- internal/network/connection/heartbeat.go with `checkConnectionHealth` of manager.go. A goroutine
-- that the code starts is run at once. Times are nanoseconds; the transport is a parameter. A manager
-- without a configuration checks nothing.
pub mod Alive
use p2p_folder_sync.Prelude.{
  ℕ, ◌+◌, ◌-◌, ◌*◌, Bool, ◌&&◌, Option, none, some, List, [], ◌∷◌, ◌++◌, ltb, Str, list_eq, nat_eq,
  ◌==◌, if◌then◌else◌,
}
use p2p_folder_sync.Prelude.Dict.{lookup}
use p2p_folder_sync.Messages.{Message, Stamp, new_message, other_payload, type_heartbeat}
use p2p_folder_sync.Connection.{
  Connection, Connections, Events, Outcome, connected, disconnected, event_heartbeat_timeout,
  state_eq, second, update_connection_state, update_heartbeat, get_connected_peers,
  attempt_reconnection,
}

-- The interval of the configuration in seconds, where 0 stands for what is not positive.
unfoldable pub get_heartbeat_interval : ℕ → ℕ
get_heartbeat_interval seconds = if seconds == 0 then 30 * second else seconds * second

get_heartbeat_timeout : ℕ → ℕ
get_heartbeat_timeout seconds = get_heartbeat_interval seconds * 2

-- A connection that is gone when a step comes to it is left.
unfoldable pub time_out : ℕ → Str → Connections → Outcome
time_out now peer_id cs = elim (update_connection_state now peer_id disconnected cs) [
  | none ↦ (cs, [])
  | some (cs', events) ↦ elim (attempt_reconnection now peer_id cs') [
    | none ↦ (cs', events ++ (peer_id, event_heartbeat_timeout) ∷ [])
    | some (cs'', more) ↦ (cs'', events ++ (peer_id, event_heartbeat_timeout) ∷ more)
  ]
]

unfoldable pub timed_out : ℕ → ℕ → Connection → Bool
timed_out timeout now conn = conn.state == connected && ltb timeout (now - conn.last_heartbeat)

-- The loop over the copy of the map.
unfoldable pub check_loop : ℕ → ℕ → Connections → Connections → Outcome
unfolding timed_out time_out
check_loop timeout now [] cs = (cs, [])
check_loop timeout now ((peer_id, conn) ∷ copies) cs =
    let (cs', events) = if timed_out timeout now conn then time_out now peer_id cs else (cs, []) in
    let (cs'', more) = check_loop timeout now copies cs' in (cs'', events ++ more)

-- `interval` is the interval of the configuration in seconds.
unfoldable pub check_connection_health : ℕ → ℕ → Connections → Outcome
check_connection_health interval now cs = check_loop (interval * 2 * second) now cs cs

module _ {N : Type 0} (send_message : Str → Str → ℕ → Message → N → Option Str × N) where
  unfoldable pub send_heartbeat_to_peer : Stamp → ℕ → Str → Str → Connections × N → Connections × N
  unfolding new_message
  send_heartbeat_to_peer stamp now own_id peer_id (cs, net) = elim (lookup peer_id cs) [
    | none ↦ (cs, net)
    | some conn ↦
        let msg = new_message stamp type_heartbeat own_id other_payload in
        let (error, net') = send_message peer_id conn.address conn.port msg net in
        elim error [
          | some _ ↦ (cs, net')
          | none ↦ elim (update_heartbeat now peer_id cs) [
            | none ↦ (cs, net')
            | some cs' ↦ (cs', net')
          ]
        ]
  ]

  unfoldable pub send_to_each : Stamp → ℕ → Str → List Str → Connections × N → Connections × N
  unfolding send_heartbeat_to_peer
  send_to_each stamp now own_id [] w = w
  send_to_each stamp now own_id (peer_id ∷ peers) w =
      send_to_each stamp now own_id peers (send_heartbeat_to_peer stamp now own_id peer_id w)

  unfoldable pub send_heartbeat_to_all_peers : Stamp → ℕ → Str → Connections × N → Connections × N
  send_heartbeat_to_all_peers stamp now own_id (cs, net) =
      send_to_each stamp now own_id (get_connected_peers cs) (cs, net)
