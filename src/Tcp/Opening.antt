-- ===== src/Tcp/Opening.antt =====
-- internal/network/transport/tcp.go: a connection to a peer that is opened.
use p2p_folder_sync.Prelude.{
  ℕ, ◌≡◌, sym, ◌∙◌, ◌⊎◌, inl, inr, true, false, not, ◌&&◌, ◌||◌, or_else, Bool-cases, Option,
  Option-cases, none, some, [], ◌++◌, Str, bytes, list_eq, nat_eq, ◌==◌, arith,
}
use p2p_folder_sync.Prelude.Dict.{lookup, insert, lookup-insert_self}
use p2p_folder_sync.Prelude.Fallible.{Fallible, returned, failed, Fallible-cases}
use p2p_folder_sync.Messages.{type_handshake}
use p2p_folder_sync.Tcp.{
  Digests, Wire, Tcp, Moment, Call, done, blocked, register, update_peer_id, handshake_message,
  send_on,
}
use p2p_folder_sync.Tcp.Sending.{read_handshake_response, introduce, get_or_create_connection}

module _ {N : Type 0} (digests : Digests) (wire : Wire N) where
  -- A call that gives no connection: it waits forever, or returns an error.
  unfoldable pub Fruitless : Call (Fallible ℕ × Tcp N) → Type 0
  Fruitless c = (c ≡ blocked) ⊎ ((cause : Str) × (t' : Tcp N) × (c ≡ done (failed cause, t')))

  unanswered :
      (now conn : ℕ) (placeholder : Str) (t : Tcp N)
      → let c = read_handshake_response digests wire now conn placeholder t in
        (c ≡ blocked) ⊎ ((cause : Str) × (t' : Tcp N) × (c ≡ done (some cause, t')))
  unfolding read_handshake_response update_peer_id
  unanswered now conn placeholder t = elim (Fallible-cases (wire.decode conn t.net).0) [
    | inl (cause, bad) ↦ inr (
      bytes "failed to decode handshake response: " ++ cause,
      record t { net = (wire.decode conn t.net).1 },
      ground (arith, bad),
    )
    | inr (msg, read) ↦
        elim (Bool-cases (msg.type == type_handshake && not (msg.sender_id == []))) [
          | inl valid ↦ inl (ground (arith, read, valid))
          | inr invalid ↦ inr (
            bytes "invalid handshake response from " ++ placeholder,
            record t { net = (wire.decode conn t.net).1 },
            ground (arith, read, invalid),
          )
        ]
  ]

  response_keeps :
      (now conn : ℕ) (placeholder : Str) (t t' : Tcp N) (e : Option Str)
      → read_handshake_response digests wire now conn placeholder t ≡ done (e, t')
      → t'.connections ≡ t.connections
  unfolding read_handshake_response update_peer_id
  response_keeps now conn placeholder t t' e over =
      elim (Fallible-cases (wire.decode conn t.net).0) [
        | inl (cause, bad) ↦ ground (arith, over, bad)
        | inr (msg, read) ↦
            elim (Bool-cases (msg.type == type_handshake && not (msg.sender_id == []))) [
              | inl valid ↦ absurd (ground (arith, over, read, valid))
              | inr invalid ↦ ground (arith, over, read, invalid)
            ]
      ]

  introduce_keeps :
      (moment : Moment) (conn : ℕ) (peer_id : Str) (t t' : Tcp N) (r : Fallible ℕ)
      → introduce digests wire moment conn peer_id t ≡ done (r, t')
      → t'.connections ≡ t.connections
  unfolding introduce send_on
  introduce_keeps moment conn peer_id t t' r over =
      let marked = record t { handshakes_sent = insert peer_id true t.handshakes_sent } in
      let (error, t1) =
        send_on digests wire conn (handshake_message moment.stamp t.local_peer_id) marked in
      elim (Bool-cases
        (t.local_peer_id == [] || or_else (lookup peer_id t.handshakes_sent) false)) [
          | inl skipped ↦ ground (arith, over, skipped)
          | inr due ↦ elim (Option-cases error) [
            | inr (cause, bad) ↦ ground (arith, over, due, bad)
            | inl sent ↦ elim (unanswered moment.at conn peer_id t1) [
              | inl stuck ↦ absurd (ground (arith, over, due, sent, stuck))
              | inr (cause, t2, bad) ↦
                  let same = response_keeps moment.at conn peer_id t1 t2 (some cause) bad in
                  ground (arith, over, due, sent, bad, same)
            ]
          ]
        ]

  -- The transport before the exchange of ids.
  unfoldable with_socket : Moment → Str → Str → ℕ → Str → ℕ → Tcp N → Tcp N
  with_socket moment peer_id address port addr conn t =
      let dialed = record t { net = (wire.dial addr t.net).1 } in
      register moment.at peer_id address port
        (record dialed { connections = insert peer_id conn dialed.connections })

  opened :
      (moment : Moment) (peer_id address : Str) (port : ℕ) (t : Tcp N) (addr : Str) (conn : ℕ)
      → lookup peer_id t.connections ≡ none
      → wire.resolve address port ≡ returned addr
      → (wire.dial addr t.net).0 ≡ returned conn
      → get_or_create_connection digests wire moment peer_id address port t
        ≡ introduce digests wire moment conn peer_id
            (with_socket moment peer_id address port addr conn t)
  unfolding get_or_create_connection with_socket
  opened moment peer_id address port t addr conn absent resolved dialed =
      ground (arith, absent, resolved, dialed)

  -- Once the first call for a peer has opened a socket, the socket stays, whatever that call returns:
  -- the next call for the peer returns it, without a handshake.
  pub failed_socket_returned :
      (moment later : Moment) (peer_id address : Str) (port : ℕ) (t t' : Tcp N) (addr : Str)
      (conn : ℕ) (r : Fallible ℕ)
      → lookup peer_id t.connections ≡ none
      → wire.resolve address port ≡ returned addr
      → (wire.dial addr t.net).0 ≡ returned conn
      → get_or_create_connection digests wire moment peer_id address port t ≡ done (r, t')
      → get_or_create_connection digests wire later peer_id address port t'
        ≡ done (returned conn, t')
  unfolding get_or_create_connection with_socket register
  failed_socket_returned moment later peer_id address port t t' addr conn r absent resolved dialed
        over =
      let t2 = with_socket moment peer_id address port addr conn t in
      let kept =
        introduce_keeps moment conn peer_id t2 t' r
          (sym (opened moment peer_id address port t addr conn absent resolved dialed) ∙ over) in
      let there = lookup-insert_self peer_id conn t.connections in ground (arith, kept, there)
