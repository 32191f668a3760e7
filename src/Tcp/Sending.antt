-- ===== src/Tcp/Sending.antt =====
-- internal/network/transport/tcp.go: the connections that are opened, and what is sent on them.
use p2p_folder_sync.Prelude.{
  ℕ, true, false, not, ◌&&◌, ◌||◌, or_else, Option, none, some, [], ◌++◌, Str, bytes, list_eq,
  nat_eq, ◌==◌, if◌then◌else◌,
}
use p2p_folder_sync.Prelude.Dict.{lookup, insert, erase}
use p2p_folder_sync.Prelude.Fallible.{Fallible, returned, failed}
use p2p_folder_sync.Messages.{Message, type_handshake}
use p2p_folder_sync.Tcp.{
  Digests, Wire, Tcp, Moment, Call, done, blocked, register, store_key, update_peer_id,
  handshake_message, send_on,
}

module _ {N : Type 0} (digests : Digests) (wire : Wire N) where
  -- The lock of the sockets is held by the caller.
  unfoldable pub read_handshake_response : ℕ → ℕ → Str → Tcp N → Call (Option Str × Tcp N)
  unfolding update_peer_id store_key
  read_handshake_response now conn placeholder t =
      let (read, net) = wire.decode conn t.net in
      let t' = record t { net = net } in
      elim read [
        | failed cause ↦ done (some (bytes "failed to decode handshake response: " ++ cause), t')
        | returned msg ↦
            if msg.type == type_handshake && not (msg.sender_id == [])
            then elim (update_peer_id true now placeholder msg.sender_id t') [
              | blocked ↦ blocked
              | done known ↦
                  if t.local_peer_id == []
                  then done (none, known)
                  else let (error, t'') = store_key digests msg.sender_id known in
                    elim error [
                      | some cause ↦ done (some (bytes "failed to set session key: " ++ cause), t'')
                      | none ↦ done (none, t'')
                    ]
            ]
            else done (some (bytes "invalid handshake response from " ++ placeholder), t')
      ]

  -- The exchange of ids on a new socket.
  unfoldable pub introduce : Moment → ℕ → Str → Tcp N → Call (Fallible ℕ × Tcp N)
  unfolding send_on handshake_message read_handshake_response
  introduce moment conn peer_id t =
      if t.local_peer_id == [] || or_else (lookup peer_id t.handshakes_sent) false
      then done (returned conn, t)
      else let marked = record t { handshakes_sent = insert peer_id true t.handshakes_sent } in
        let (error, t') =
          send_on digests wire conn (handshake_message moment.stamp t.local_peer_id) marked in
        elim error [
          | some cause ↦ done (failed (bytes "failed to send handshake: " ++ cause), t')
          | none ↦ elim (read_handshake_response moment.at conn peer_id t') [
            | blocked ↦ blocked
            | done (some cause, t'') ↦
                done (failed (bytes "failed to complete handshake: " ++ cause), t'')
            | done (none, t'') ↦ done (returned conn, t'')
          ]
        ]

  -- The goroutine that reads from a new socket is `handle_connection` with an empty session.
  unfoldable pub get_or_create_connection :
      Moment → Str → Str → ℕ → Tcp N → Call (Fallible ℕ × Tcp N)
  unfolding register introduce
  get_or_create_connection moment peer_id address port t = elim (lookup peer_id t.connections) [
    | some conn ↦ done (returned conn, t)
    | none ↦ elim (wire.resolve address port) [
      | failed cause ↦ done (failed (bytes "failed to resolve address: " ++ cause), t)
      | returned addr ↦
          let (dialed, net) = wire.dial addr t.net in
          let t' = record t { net = net } in
          elim dialed [
            | failed cause ↦ done (failed cause, t')
            | returned conn ↦ introduce moment conn peer_id (
                register moment.at peer_id address port
                  (record t' { connections = insert peer_id conn t'.connections }))
          ]
    ]
  ]

  -- The address is left out of the text of an error.
  unfoldable pub send_message : Moment → Str → Str → ℕ → Message → Tcp N → Call (Option Str × Tcp N)
  unfolding get_or_create_connection send_on
  send_message moment peer_id address port msg t =
      elim (get_or_create_connection moment peer_id address port t) [
        | blocked ↦ blocked
        | done (failed cause, t') ↦ done (some (bytes "failed to get connection: " ++ cause), t')
        | done (returned conn, t') ↦
            let (error, t'') = send_on digests wire conn msg t' in
            elim error [
              | none ↦ done (none, t'')
              | some cause ↦ done (
                some (bytes "failed to encode message: " ++ cause),
                record t'' {
                  connections = erase peer_id t''.connections;
                  net = wire.close conn t''.net;
                },
              )
            ]
      ]

  unfoldable pub connect_to_peer : Moment → Str → Str → ℕ → Tcp N → Call (Option Str × Tcp N)
  unfolding get_or_create_connection
  connect_to_peer moment peer_id address port t =
      elim (get_or_create_connection moment peer_id address port t) [
        | blocked ↦ blocked
        | done (failed cause, t') ↦ done (some cause, t')
        | done (returned conn, t') ↦ done (none, t')
      ]
