-- ===== src/Tcp/Keys.antt =====
-- internal/network/transport/tcp.go: the session keys that both ends of a connection keep.
use p2p_folder_sync.Prelude.{
  ℕ, ◌≡◌, sym, ◌∙◌, ap, ◌≢◌, inl, inr, true, false, Bool-cases, none, some, [], Str, str_ltb,
  str_ltb_asymm, str_ltb_total, list_eq, nat_eq, arith,
}
use p2p_folder_sync.Prelude.Dict.{lookup, insert, lookup-insert_self}
use p2p_folder_sync.Messages.{Message, type_handshake}
use p2p_folder_sync.Connection.{
  Connections, Connection, connected, get_session_key, set_session_key, add_connection, with_state,
  update_connection_state,
}
use p2p_folder_sync.Tcp.{
  Digests, Wire, Tcp, Moment, done, Session, sorted_pair, derive_session_key, register, store_key,
  keep_socket, register_remote, accept_handshake, serve, has_manager, send_on,
}

sorted_pair_symm : (a b : Str) → sorted_pair a b ≡ sorted_pair b a
unfolding sorted_pair
sorted_pair_symm a b = elim (Bool-cases (str_ltb b a)) [
  | inl less ↦ ground (arith, less, str_ltb_asymm b a less)
  | inr not_less ↦ elim (Bool-cases (str_ltb a b)) [
    | inl more ↦ ground (arith, not_less, more)
    | inr not_more ↦
        let same = str_ltb_total b a not_less not_more in ground (arith, not_less, not_more, same)
  ]
]

pub derive_session_key_symm :
    (digests : Digests) (a b : Str)
    → derive_session_key digests a b ≡ derive_session_key digests b a
unfolding derive_session_key
derive_session_key_symm digests a b = ground (arith, sorted_pair_symm a b)

added_connection :
    (now : ℕ) (peer_id address : Str) (port : ℕ) (cs : Connections)
    → (new : Connection) × (lookup peer_id (add_connection now peer_id address port cs).0
        ≡ some new)
unfolding add_connection
added_connection now peer_id address port cs = (_, lookup-insert_self peer_id _ cs)

module _ {N : Type 0} where
  registered :
      (now : ℕ) (peer_id address : Str) (port : ℕ) (t : Tcp N) (cs : Connections)
      → t.conn_manager ≡ some cs
      → (cs' : Connections) × (conn : Connection) × ((register now peer_id address port
            t).conn_manager
          ≡ some cs')
        × (lookup peer_id cs' ≡ some conn)
        × ((register now peer_id address port t).local_peer_id ≡ t.local_peer_id)
  unfolding register update_connection_state
  registered now peer_id address port t cs known =
      let added = (add_connection now peer_id address port cs).0 in
      let (new, found) = added_connection now peer_id address port cs in
      let conn = with_state now connected new in
      (
        insert peer_id conn added,
        conn,
        ground (arith, known, found),
        lookup-insert_self peer_id conn added,
        ground (arith, known, found),
      )

  keyed :
      (digests : Digests) (peer_id : Str) (t : Tcp N) (cs : Connections) (conn : Connection)
      → t.conn_manager ≡ some cs
      → lookup peer_id cs ≡ some conn
      → (cs' : Connections) × ((store_key digests peer_id t).1.conn_manager ≡ some cs')
        × (get_session_key peer_id cs' ≡ some (derive_session_key digests t.local_peer_id peer_id))
  unfolding store_key set_session_key get_session_key
  keyed digests peer_id t cs conn managed known =
      let key = derive_session_key digests t.local_peer_id peer_id in
      let there = lookup-insert_self peer_id (record conn { session_key = key }) cs in
      (
        insert peer_id (record conn { session_key = key }) cs,
        ground (arith, managed, known),
        ground (arith, there),
      )

abbrev pub fresh : Session
fresh = record { peer_id = []; registered = false }

-- A handshake of the peer.
abbrev pub Greets : Message → Str → Type 0
Greets msg peer_id = (msg.type ≡ type_handshake) × (msg.sender_id ≡ peer_id)

module _ {N : Type 0} (digests : Digests) (wire : Wire N) where
  accepted :
      (conn : ℕ) (moment : Moment) (sender_id : Str) (t : Tcp N) (cs : Connections)
      → t.conn_manager ≡ some cs
      → t.local_peer_id ≢ []
      → (cs' : Connections) × ((accept_handshake digests wire conn moment sender_id t).conn_manager
          ≡ some cs')
        × (get_session_key sender_id cs'
            ≡ some (derive_session_key digests t.local_peer_id sender_id))
  unfolding accept_handshake register_remote keep_socket send_on
  accepted conn moment sender_id t cs managed named =
      let t1 = register_remote digests wire moment.at conn sender_id t in
      let (cs1, c, managed1, there, same) =
        registered moment.at sender_id (wire.remote conn).0 (wire.remote conn).1 t cs managed in
      let (cs2, managed2, key) = keyed digests sender_id t1 cs1 c managed1 there in
      (
        cs2,
        ground (arith, managed2, named),
        key ∙ ap (λ local. some (derive_session_key digests local sender_id)) same,
      )

  pub accepts_greeting :
      (conn : ℕ) (moment : Moment) (msg : Message) (peer_id : Str) (t : Tcp N) (cs : Connections)
      → t.conn_manager ≡ some cs
      → t.local_peer_id ≢ []
      → peer_id ≢ []
      → Greets msg peer_id
      → (s : Session) × (t' : Tcp N) × (cs' : Connections) × (serve digests wire conn moment msg
            fresh t
          ≡ done (s, t'))
        × (t'.conn_manager ≡ some cs')
        × (get_session_key peer_id cs' ≡ some (derive_session_key digests t.local_peer_id peer_id))
  unfolding serve has_manager
  accepts_greeting conn moment msg peer_id t cs managed named known (kind, sender) =
      let (cs', managed', key) = accepted conn moment peer_id t cs managed named in
      (
        record { peer_id = peer_id; registered = true },
        accept_handshake digests wire conn moment peer_id t,
        cs',
        ground (arith, managed, kind, sender, known),
        managed',
        key,
      )

-- Two peers with connection managers that each take the other's handshake for the first message on
-- a socket keep the same session key for each other, whatever the order and the times, and
-- whatever the digests are.
pub keys_agree :
    {N M : Type 0} (digests : Digests) (wire : Wire N) (far_wire : Wire M) (conn far_conn : ℕ)
    (moment far_moment : Moment) (msg far_msg : Message) (t : Tcp N) (u : Tcp M)
    (cs ds : Connections)
    → t.conn_manager ≡ some cs
    → u.conn_manager ≡ some ds
    → t.local_peer_id ≢ []
    → u.local_peer_id ≢ []
    → Greets msg u.local_peer_id
    → Greets far_msg t.local_peer_id
    → (s : Session) × (s' : Session) × (t' : Tcp N) × (u' : Tcp M) × (cs' : Connections)
      × (ds' : Connections) × (serve digests wire conn moment msg fresh t ≡ done (s, t'))
      × (serve digests far_wire far_conn far_moment far_msg fresh u ≡ done (s', u'))
      × (t'.conn_manager ≡ some cs')
      × (u'.conn_manager ≡ some ds')
      × (get_session_key u.local_peer_id cs' ≡ get_session_key t.local_peer_id ds')
      × (get_session_key u.local_peer_id cs' ≢ none)
keys_agree digests wire far_wire conn far_conn moment far_moment msg far_msg t u cs ds managed
      far_managed named far_named greets far_greets =
    let (s, t', cs', served, kept, key) =
      accepts_greeting digests wire conn moment msg u.local_peer_id t cs managed named far_named
        greets in
    let (s', u', ds', far_served, far_kept, far_key) =
      accepts_greeting digests far_wire far_conn far_moment far_msg t.local_peer_id u ds far_managed
        far_named named far_greets in
    let same = derive_session_key_symm digests t.local_peer_id u.local_peer_id in
    (
      s,
      s',
      t',
      u',
      cs',
      ds',
      served,
      far_served,
      kept,
      far_kept,
      key ∙ ap some same ∙ sym far_key,
      ground (arith, key),
    )
