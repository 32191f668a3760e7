-- ===== src/Tcp.antt =====
-- internal/network/transport/tcp.go. A socket is a number, and what is behind the sockets is a
-- parameter, with what the decoder of a socket gives. The lock of the map of sockets is not
-- reentrant: what takes it while its own caller holds it is blocked. The listener, keep-alives,
-- deadlines and log lines are left out, and so is the map payload of a handshake message.
pub mod Sending
pub mod Keys
pub mod Serving
pub mod Opening
use p2p_folder_sync.Prelude.{
  ℕ, Bool, true, false, not, ◌&&◌, ◌||◌, or_else, Option, none, some, List, [], ◌∷◌, ◌++◌, Str,
  bytes, str_ltb, ℤ, list_eq, nat_eq, ◌==◌, ◌!=◌, if◌then◌else◌,
}
use p2p_folder_sync.Prelude.Dict.{Dict, lookup, insert, erase, has}
use p2p_folder_sync.Prelude.Fallible.{Fallible, returned, failed}
use p2p_folder_sync.Messages.{
  Message, Stamp, new_message, json_object, operation_ack, type_operation_ack, type_handshake,
}
use p2p_folder_sync.Connection.{
  Connections, Events, Outcome, connected, add_connection, update_connection_state,
  remove_connection, get_connection, set_session_key,
}

-- `crypto/sha256` and `crypto.DeriveSessionKey`, which runs HKDF.
pub record Digests : Type 0 where
  pub sha256 : List ℕ → List ℕ
  pub hkdf : List ℕ → Str → Str → Fallible (List ℕ)

-- `net`, the JSON streams on its sockets, and the handler, whose state is in `N` too.
pub record Wire (N : Type 0) : Type 0 where
  pub resolve : Str → ℕ → Fallible Str
  pub dial : Str → N → Fallible ℕ × N
  pub encode : ℕ → Message → N → Option Str × N
  pub decode : ℕ → N → Fallible Message × N
  pub close : ℕ → N → N
  -- The host and the port of the other end: "unknown" and 0, where they cannot be told.
  pub remote : ℕ → Str × ℕ
  pub handler : Option (Message → N → Option Str × N)

-- A connection manager that is missing is `none`.
pub record Tcp (N : Type 0) : Type 0 where
  pub local_peer_id : Str
  pub connections : Dict Str ℕ
  pub handshakes_sent : Dict Str Bool
  pub conn_manager : Option Connections
  pub events : Events
  pub net : N

-- What a call meets of the clock.
pub record Moment : Type 0 where
  pub at : ℕ
  pub stamp : Stamp

-- A call that returns, or waits for a lock that is never released.
pub data Call {ℓ} (A : Type ℓ) : Type ℓ where
  done : A → Call A
  blocked : Call A

-- `sort.Strings` of the two ids.
unfoldable pub sorted_pair : Str → Str → Str × Str
sorted_pair a b = if str_ltb b a then (b, a) else (a, b)

unfoldable pub derive_session_key : Digests → Str → Str → List ℕ
unfolding sorted_pair
derive_session_key digests peer_id1 peer_id2 =
    let (first, second) = sorted_pair peer_id1 peer_id2 in
    let shared_secret = digests.sha256 (first ++ bytes ":" ++ second) in
    elim (digests.hkdf shared_secret (bytes "p2p-sync-session-salt")
      (bytes "p2p-sync-aes-gcm-key")) [ failed _ ↦ shared_secret | returned key ↦ key ]

module _ {N : Type 0} where
  -- `AddConnection`, then `UpdateConnectionState` to connected.
  unfoldable pub register : ℕ → Str → Str → ℕ → Tcp N → Tcp N
  register now peer_id address port t = elim t.conn_manager [
    | none ↦ t
    | some cs ↦
        let (added, events) = add_connection now peer_id address port cs in
        elim (update_connection_state now peer_id connected added) [
          | none ↦ record t { conn_manager = some added; events = t.events ++ events }
          | some (updated, more) ↦ record t {
            conn_manager = some updated;
            events = t.events ++ (events ++ more);
          }
        ]
  ]

  -- The error is that of a peer that the manager does not know. Where this is reached, there is a
  -- manager.
  unfoldable pub store_key : Digests → Str → Tcp N → Option Str × Tcp N
  store_key digests peer_id t = elim t.conn_manager [
    | none ↦ (none, t)
    | some cs ↦
        elim (set_session_key peer_id (derive_session_key digests t.local_peer_id peer_id) cs) [
          | none ↦ (some (bytes "connection not found: " ++ peer_id), t)
          | some cs' ↦ (none, record t { conn_manager = some cs' })
        ]
  ]

  -- A socket that is there already is kept.
  unfoldable pub keep_socket : Str → ℕ → Tcp N → Tcp N
  keep_socket peer_id conn t =
      if has peer_id t.connections
      then t
      else record t { connections = insert peer_id conn t.connections }

  move_socket : Str → Str → Tcp N → Tcp N
  move_socket old_id new_id t = elim (lookup old_id t.connections) [
    | none ↦ t
    | some conn ↦ record t { connections = insert new_id conn (erase old_id t.connections) }
  ]

  move_peer : ℕ → Str → Str → Tcp N → Tcp N
  unfolding register
  move_peer now old_id new_id t = elim t.conn_manager [
    | none ↦ t
    | some cs ↦ elim (get_connection old_id cs) [
      | none ↦ t
      | some old ↦
          let (removed, events) = remove_connection old_id cs in
          register now new_id old.address old.port
            (record t { conn_manager = some removed; events = t.events ++ events })
    ]
  ]

  has_manager : Tcp N → Bool
  has_manager t = elim t.conn_manager [ none ↦ false | some cs ↦ true ]

  -- `held` tells whether the caller holds the lock of the sockets.
  unfoldable pub update_peer_id : Bool → ℕ → Str → Str → Tcp N → Call (Tcp N)
  unfolding move_socket move_peer
  update_peer_id held now old_id new_id t =
      if held then blocked else done (move_peer now old_id new_id (move_socket old_id new_id t))

unfoldable pub handshake_message : Stamp → Str → Message
unfolding new_message
handshake_message stamp local_peer_id = new_message stamp type_handshake local_peer_id json_object

-- The id in the payload is the correlation id.
unfoldable pub acknowledgment : Stamp → Message → Option Str → Message
unfolding new_message
acknowledgment stamp msg error =
    record (new_message stamp type_operation_ack [] (
      operation_ack (elim error [
        | none ↦ record { success = true; error = [] }
        | some cause ↦ record { success = false; error = cause }
      ]))) { correlation_id = some msg.id }

-- What `handleConnection` keeps about its socket.
pub record Session : Type 0 where
  pub peer_id : Str
  pub registered : Bool

module _ {N : Type 0} (digests : Digests) (wire : Wire N) where
  unfoldable pub send_on : ℕ → Message → Tcp N → Option Str × Tcp N
  send_on conn msg t =
      let (error, net) = wire.encode conn msg t.net in (error, record t { net = net })

  -- The part for the first message of a peer that all such messages share.
  unfoldable pub register_remote : ℕ → ℕ → Str → Tcp N → Tcp N
  unfolding register
  register_remote now conn sender_id t =
      let (host, port) = wire.remote conn in register now sender_id host port t

  unfoldable pub accept_handshake : ℕ → Moment → Str → Tcp N → Tcp N
  unfolding register_remote store_key keep_socket send_on handshake_message
  accept_handshake conn moment sender_id t =
      let t1 = register_remote moment.at conn sender_id t in
      let t2 = if t.local_peer_id == [] then t1 else (store_key digests sender_id t1).1 in
      (send_on conn (handshake_message moment.stamp t.local_peer_id)
        (keep_socket sender_id conn t2)).1

  unfoldable pub later_handshake : Moment → Str → Session → Tcp N → Call (Session × Tcp N)
  unfolding update_peer_id store_key
  later_handshake moment sender_id s t =
      if sender_id != s.peer_id && not (t.local_peer_id == [])
      then elim (update_peer_id false moment.at s.peer_id sender_id t) [
        | blocked ↦ blocked
        | done t' ↦ done (record s { peer_id = sender_id }, (store_key digests sender_id t').1)
      ]
      else done (s, t)

  -- Without a handler the message is dropped.
  unfoldable pub deliver : ℕ → Moment → Message → Tcp N → Tcp N
  unfolding send_on acknowledgment
  deliver conn moment msg t = elim wire.handler [
    | none ↦ (send_on conn (acknowledgment moment.stamp msg none) t).1
    | some handle_message ↦
        let (error, net) = handle_message msg t.net in
        (send_on conn (acknowledgment moment.stamp msg error) (record t { net = net })).1
  ]

  -- What is done with one message that the decoder gives.
  unfoldable pub serve : ℕ → Moment → Message → Session → Tcp N → Call (Session × Tcp N)
  unfolding register_remote has_manager keep_socket accept_handshake later_handshake deliver
  serve conn moment msg s t =
      let sender_id = msg.sender_id in
      let now_known : Session = record { peer_id = sender_id; registered = true } in
      if not s.registered && (has_manager t && not (sender_id == []))
      then if msg.type == type_handshake
        then done (now_known, accept_handshake conn moment sender_id t)
        else done (
          now_known,
          deliver conn moment msg
              (keep_socket sender_id conn (register_remote moment.at conn sender_id t)),
        )
      else if msg.type == type_handshake && s.registered
      then later_handshake moment sender_id s t
      else done (s, deliver conn moment msg t)

  -- The messages of a socket until its decoder fails.
  unfoldable pub handle_connection :
      ℕ → List (Moment × Message) → Session → Tcp N → Call (Session × Tcp N)
  unfolding serve
  handle_connection conn [] s t = done (s, t)
  handle_connection conn ((moment, msg) ∷ msgs) s t = elim (serve conn moment msg s t) [
    | blocked ↦ blocked
    | done (s', t') ↦ handle_connection conn msgs s' t'
  ]
