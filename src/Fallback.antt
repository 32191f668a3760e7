-- ===== src/Fallback.antt =====
-- internal/network/transport/fallback.go: QUIC first, and TCP where QUIC fails. The two transports
-- are parameters, operations on a common state `T` that return their error, if any. The locks make
-- each access one step; log lines are left out.
pub mod Carried
use p2p_folder_sync.Prelude.{
  ℕ, Bool, true, false, not, Option, none, some, ◌++◌, Str, bytes, list_eq, nat_eq, ◌==◌,
  if◌then◌else◌,
}
use p2p_folder_sync.Prelude.Dict.{Dict, lookup, insert}

-- `M` is the type of messages, `H` that of message handlers.
pub record Transport (T M H : Type 0) : Type 0 where
  pub start : T → Option Str × T
  pub stop : T → Option Str × T
  pub set_message_handler : H → T → Option Str × T
  pub send_message : Str → Str → ℕ → M → T → Option Str × T
  pub connect_to_peer : Str → Str → ℕ → T → Option Str × T

pub data Which : Type 0 where
  primary : Which
  secondary : Which

pub record FallbackTransport (T H : Type 0) : Type 0 where
  pub current : Option Which
  pub handler : Option H
  pub used_fallback : Bool
  pub peer_protocols : Dict Str Str
  pub state : T

abbrev pub quic : Str
quic = bytes "quic"

abbrev pub tcp : Str
tcp = bytes "tcp"

abbrev pub not_started : Str
not_started = bytes "transport not started"

module _ {T M H : Type 0} (primary_transport fallback_transport : Transport T M H) where
  abbrev pub transport_of : Which → Transport T M H
  transport_of primary = primary_transport
  transport_of secondary = fallback_transport

  -- The handler that is registered already is passed on; its error is ignored.
  pass_handler : Which → FallbackTransport T H → FallbackTransport T H
  pass_handler which ft = elim ft.handler [
    | none ↦ ft
    | some handler ↦ record ft {
      state = ((transport_of which).set_message_handler handler ft.state).1;
    }
  ]

  started : Which → Bool → T → FallbackTransport T H → FallbackTransport T H
  unfolding pass_handler
  started which fallback state ft =
      pass_handler which
        (record ft { current = some which; used_fallback = fallback; state = state })

  -- Both errors of the message are that of TCP.
  pub start : FallbackTransport T H → Option Str × FallbackTransport T H
  unfolding started
  start ft =
      let (quic_error, state) = primary_transport.start ft.state in
      elim quic_error [
        | none ↦ (none, started primary false state ft)
        | some _ ↦
            let (tcp_error, state') = fallback_transport.start state in
            elim tcp_error [
              | some e ↦ (
                some (
                    bytes "both QUIC and TCP transports failed to start: QUIC error: "
                    ++ e
                    ++ bytes ", TCP error: "
                    ++ e),
                record ft { state = state' },
              )
              | none ↦ (none, started secondary true state' ft)
            ]
      ]

  pub stop : FallbackTransport T H → Option Str × FallbackTransport T H
  stop ft = elim ft.current [
    | none ↦ (none, ft)
    | some which ↦
        let (error, state) = (transport_of which).stop ft.state in
        (error, record ft { state = state })
  ]

  pub set_message_handler : H → FallbackTransport T H → Option Str × FallbackTransport T H
  set_message_handler handler ft = elim ft.current [
    | none ↦ (none, record ft { handler = some handler })
    | some which ↦
        let (error, state) = (transport_of which).set_message_handler handler ft.state in
        (error, record ft { handler = some handler; state = state })
  ]

  -- One of the two transports does it, and nothing is remembered.
  by :
      Which
      → (Which → T → Option Str × T)
      → FallbackTransport T H
      → Option Str × FallbackTransport T H
  by which call ft =
      let (error, state) = call which ft.state in (error, record ft { state = state })

  -- QUIC, then TCP, and the one that worked is remembered for the peer.
  try_both :
      Str
      → Str
      → (Which → T → Option Str × T)
      → FallbackTransport T H
      → Option Str × FallbackTransport T H
  try_both text peer_id call ft =
      let (quic_error, state) = call primary ft.state in
      elim quic_error [
        | none ↦ (
          none,
          record ft { state = state; peer_protocols = insert peer_id quic ft.peer_protocols },
        )
        | some _ ↦
            let (tcp_error, state') = call secondary state in
            elim tcp_error [
              | none ↦ (
                none,
                record ft { state = state'; peer_protocols = insert peer_id tcp ft.peer_protocols },
              )
              | some e ↦ (some (text ++ peer_id ++ bytes ": " ++ e), record ft { state = state' })
            ]
      ]

  send_to : Str → Str → ℕ → M → Which → T → Option Str × T
  send_to peer_id address port msg which state =
      (transport_of which).send_message peer_id address port msg state

  pub send_message : Str → Str → ℕ → M → FallbackTransport T H → Option Str × FallbackTransport T H
  unfolding by try_both send_to
  send_message peer_id address port msg ft = elim ft.current [
    | none ↦ (some not_started, ft)
    | some current ↦ elim (lookup peer_id ft.peer_protocols) [
      | none ↦
          if not ft.used_fallback
          then try_both (bytes "both QUIC and TCP failed for peer ") peer_id
              (send_to peer_id address port msg) ft
          else by current (send_to peer_id address port msg) ft
      | some known_protocol ↦
          if known_protocol == quic
          then by primary (send_to peer_id address port msg) ft
          else by secondary (send_to peer_id address port msg) ft
    ]
  ]

  pub connect_to_peer : Str → Str → ℕ → FallbackTransport T H → Option Str × FallbackTransport T H
  unfolding by try_both
  connect_to_peer peer_id address port ft =
      let connect : Which → T → Option Str × T =
        λ which state. (transport_of which).connect_to_peer peer_id address port state in
      elim ft.current [
        | none ↦ (some not_started, ft)
        | some current ↦
            if not ft.used_fallback
            then try_both (bytes "both QUIC and TCP connection failed for peer ") peer_id connect ft
            else by current connect ft
      ]

module _ {T H : Type 0} where
  pub get_active_protocol : FallbackTransport T H → Str
  get_active_protocol ft = if ft.used_fallback then tcp else quic

  pub get_peer_protocol : Str → FallbackTransport T H → Str
  unfolding get_active_protocol
  get_peer_protocol peer_id ft = elim (lookup peer_id ft.peer_protocols) [
    | none ↦ get_active_protocol ft
    | some protocol ↦ protocol
  ]
