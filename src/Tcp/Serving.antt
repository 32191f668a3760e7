-- ===== src/Tcp/Serving.antt =====
-- internal/network/transport/tcp.go: what a message on a socket is answered with.
use p2p_folder_sync.Prelude.{
  ℕ, ◌≡◌, refl, ◌≢◌, false, inl, inr, true, not, ◌&&◌, Bool-cases, Option, Option-cases, none, some,
  [], Str, list_eq, nat_eq, ◌==◌, arith,
}
use p2p_folder_sync.Messages.{
  AckMessage, Message, Stamp, new_message, operation_ack, type_operation_ack, type_handshake,
}
use p2p_folder_sync.Tcp.{
  Digests, Wire, Tcp, Moment, done, Session, register, acknowledgment, keep_socket, register_remote,
  serve, deliver, has_manager, send_on,
}

-- What the handler makes of a message: without one, nothing.
unfoldable pub handled : {N : Type 0} → Wire N → Message → N → Option Str × N
handled wire msg net = elim wire.handler [
  | none ↦ (none, net)
  | some handle_message ↦ handle_message msg net
]

-- A success where there is no error, and otherwise a failure with the error.
unfoldable pub verdict : Option Str → AckMessage
verdict none = record { success = true; error = [] }
verdict (some cause) = record { success = false; error = cause }

-- An acknowledgment of `msg` that reports `error`, without a sender.
abbrev pub reply : Stamp → Message → Option Str → Message
reply stamp msg error = record {
  id = stamp.fresh_id;
  type = type_operation_ack;
  timestamp = stamp.now;
  sender_id = [];
  payload = operation_ack (verdict error);
  correlation_id = some msg.id;
}

is_reply :
    (stamp : Stamp) (msg : Message) (error : Option Str)
    → acknowledgment stamp msg error ≡ reply stamp msg error
unfolding acknowledgment verdict new_message
is_reply stamp msg none = refl
is_reply stamp msg (some cause) = refl

module _ {N : Type 0} (digests : Digests) (wire : Wire N) where
  -- The socket carries the acknowledgment of what the handler made of the message.
  unfoldable pub Acknowledged : ℕ → Moment → Message → Tcp N → Tcp N → Type 0
  unfolding handled
  Acknowledged conn moment msg t t' =
      let (error, net) = handled wire msg t.net in
      t'.net ≡ (wire.encode conn (reply moment.stamp msg error) net).1

  deliver-Acknowledged :
      (conn : ℕ) (moment : Moment) (msg : Message) (t : Tcp N)
      → Acknowledged conn moment msg t (deliver digests wire conn moment msg t)
  unfolding Acknowledged handled deliver send_on
  deliver-Acknowledged conn moment msg t = elim (Option-cases wire.handler) [
    | inl missing ↦ ground (arith, missing, is_reply moment.stamp msg none)
    | inr (handle_message, there) ↦
        ground (arith, there, is_reply moment.stamp msg (handle_message msg t.net).0)
  ]

  unfoldable pub Answers : ℕ → Moment → Message → Session → Tcp N → Type 0
  Answers conn moment msg s t =
      (s' : Session) × (t' : Tcp N) × (serve digests wire conn moment msg s t ≡ done (s', t'))
      × Acknowledged conn moment msg t t'

  net_registered :
      (now conn : ℕ) (sender_id : Str) (t : Tcp N)
      → (keep_socket sender_id conn (register_remote digests wire now conn sender_id t)).net ≡ t.net
  unfolding keep_socket register_remote register
  net_registered now conn sender_id t = ground arith

  answers :
      (conn : ℕ) (moment : Moment) (msg : Message) (s : Session) (t : Tcp N)
      → msg.type ≢ type_handshake
      → Answers conn moment msg s t
  unfolding Answers Acknowledged serve
  answers conn moment msg s t other =
      let t1 =
        keep_socket msg.sender_id conn
          (register_remote digests wire moment.at conn msg.sender_id t) in
      let same = net_registered moment.at conn msg.sender_id t in
      elim (Bool-cases (not s.registered && (has_manager t && not (msg.sender_id == [])))) [
        | inl first ↦ (
          record { peer_id = msg.sender_id; registered = true },
          deliver digests wire conn moment msg t1,
          ground (arith, first, other),
          ground (arith, deliver-Acknowledged conn moment msg t1, same),
        )
        | inr later ↦ (
          s,
          deliver digests wire conn moment msg t,
          ground (arith, later, other),
          ground (arith, deliver-Acknowledged conn moment msg t),
        )
      ]

  -- Every message that is not a handshake is answered by one message on its socket: an
  -- acknowledgment that names the message and reports a success where the handler returned no error,
  -- or where there is no handler, and otherwise a failure with the error. Such an acknowledgment, of
  -- any message, is at any other end answered in the same way.
  pub serve-Answers :
      (conn : ℕ) (moment : Moment) (msg : Message) (s : Session) (t : Tcp N) (far_conn : ℕ)
      (far_moment : Moment) (error : Option Str) (s' : Session) (t' : Tcp N)
      → msg.type ≢ type_handshake
      → Answers conn moment msg s t
        × Answers far_conn far_moment (reply moment.stamp msg error) s' t'
  serve-Answers conn moment msg s t far_conn far_moment error s' t' other = (
    answers conn moment msg s t other,
    answers far_conn far_moment (reply moment.stamp msg error) s' t' (ground arith),
  )
