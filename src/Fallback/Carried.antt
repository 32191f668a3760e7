-- ===== src/Fallback/Carried.antt =====
-- internal/network/transport/fallback.go: which transport carries what is sent.
use mathlib.Core.Option.{some-injective}
use p2p_folder_sync.Prelude.{
  ℕ, ◌≡◌, refl, sym, ◌∙◌, ap, subst, ◌⊎◌, inl, inr, Bool, true, false, Bool-cases, Option,
  Option-cases, none, some, ◌++◌, Str, bytes, list_eq, nat_eq, arith, if◌then◌else◌,
}
use p2p_folder_sync.Prelude.Dict.{lookup, insert, lookup-insert}
use p2p_folder_sync.Fallback.{
  Transport, Which, primary, secondary, FallbackTransport, quic, tcp, not_started, transport_of,
  pass_handler, started, start, by, try_both, send_to, send_message, get_active_protocol,
  get_peer_protocol,
}

module _ {T M H : Type 0} (p f : Transport T M H) where
  -- The current transport is the one that the flag names, and a peer's protocol is one of the two.
  pub record Sound (ft : FallbackTransport T H) : Type 0 where
    pub flag :
        (which : Which)
        → ft.current ≡ some which
        → which ≡ (if ft.used_fallback then secondary else primary)
    pub protocols :
        (peer_id protocol : Str)
        → lookup peer_id ft.peer_protocols ≡ some protocol
        → (protocol ≡ quic) ⊎ (protocol ≡ tcp)

  abbrev pub name_of : Which → Str
  name_of primary = quic
  name_of secondary = tcp

  -- A transport accepted the call, and it is the one whose protocol is on record for the peer.
  abbrev pub Carried : Str → (Which → T → Option Str × T) → FallbackTransport T H → Type 0
  Carried peer_id call after =
      (which : Which) × (before : T) × (call which before ≡ (none, after.state))
      × (get_peer_protocol peer_id after ≡ name_of which)

  remembered :
      (peer_id protocol : Str) (state : T) (ft : FallbackTransport T H)
      → get_peer_protocol peer_id
          (record ft { state = state; peer_protocols = insert peer_id protocol ft.peer_protocols })
        ≡ protocol
  unfolding get_peer_protocol
  remembered peer_id protocol state ft =
      ground (arith, lookup-insert peer_id peer_id protocol ft.peer_protocols)

  -- What a call leaves: a sound state, and the record where it reports no error.
  abbrev Fine : Str → (Which → T → Option Str × T) → Option Str × FallbackTransport T H → Type 0
  Fine peer_id call r = Sound r.1 × (r.0 ≡ none → Carried peer_id call r.1)

  moved : (state : T) (ft : FallbackTransport T H) → Sound ft → Sound (record ft { state = state })
  moved state ft sound = record { flag = sound.flag; protocols = sound.protocols }

  noted :
      (peer_id protocol : Str) (state : T) (ft : FallbackTransport T H)
      → Sound ft
      → (protocol ≡ quic) ⊎ (protocol ≡ tcp)
      → Sound
          (record ft { state = state; peer_protocols = insert peer_id protocol ft.peer_protocols })
  noted peer_id protocol state ft sound known = record {
    flag = sound.flag;
    protocols = λ q other found.
        let rest = sound.protocols q other in
        let here = lookup-insert q peer_id protocol ft.peer_protocols in
        ground (arith, found, here, rest, known);
  }

  Carried-by :
      (peer_id : Str) (call : Which → T → Option Str × T) (which : Which) (before : T)
      (after : FallbackTransport T H)
      → (call which before).0 ≡ none
      → (call which before).1 ≡ after.state
      → get_peer_protocol peer_id after ≡ name_of which
      → Carried peer_id call after
  Carried-by peer_id call which before after accepted left named = (
    which,
    before,
    ap (λ e. (e, (call which before).1)) accepted ∙ ap (λ s. (none, s)) left,
    named,
  )

  try_both-Fine :
      (text peer_id : Str) (call : Which → T → Option Str × T) (ft : FallbackTransport T H)
      → Sound ft
      → Fine peer_id call (try_both p f text peer_id call ft)
  unfolding try_both
  try_both-Fine text peer_id call ft sound =
      let s1 = (call primary ft.state).1 in
      let s2 = (call secondary s1).1 in
      elim (Option-cases (call primary ft.state).0) [
        | inl good ↦
            let after : FallbackTransport T H = record ft {
              state = s1;
              peer_protocols = insert peer_id quic ft.peer_protocols;
            } in
            let step : try_both p f text peer_id call ft ≡ (none, after) = ground (arith, good) in
            subst (Fine peer_id call) (sym step) (
              noted peer_id quic s1 ft sound (inl refl),
              λ e.
                  Carried-by peer_id call primary ft.state after good refl
                    (remembered peer_id quic s1 ft),
            )
        | inr (_, bad) ↦ elim (Option-cases (call secondary s1).0) [
          | inl good ↦
              let after : FallbackTransport T H = record ft {
                state = s2;
                peer_protocols = insert peer_id tcp ft.peer_protocols;
              } in
              let step : try_both p f text peer_id call ft ≡ (none, after) =
                ground (arith, bad, good) in
              subst (Fine peer_id call) (sym step) (
                noted peer_id tcp s2 ft sound (inr refl),
                λ e.
                    Carried-by peer_id call secondary s1 after good refl
                      (remembered peer_id tcp s2 ft),
              )
          | inr (cause, worse) ↦
              let report : Str = text ++ peer_id ++ bytes ": " ++ cause in
              let step : try_both p f text peer_id call ft
                  ≡ (some report, record ft { state = s2 }) =
                ground (arith, bad, worse) in
              subst (Fine peer_id call) (sym step) (moved s2 ft sound, λ e. cc)
        ]
      ]

  by-Fine :
      (which : Which) (peer_id : Str) (call : Which → T → Option Str × T)
      (ft : FallbackTransport T H)
      → Sound ft
      → get_peer_protocol peer_id ft ≡ name_of which
      → Fine peer_id call (by p f which call ft)
  unfolding by get_peer_protocol
  by-Fine which peer_id call ft sound named =
      let state = (call which ft.state).1 in
      (
        moved state ft sound,
        λ e. Carried-by peer_id call which ft.state (record ft { state = state }) e refl named,
      )

  active_name :
      (peer_id : Str) (current : Which) (ft : FallbackTransport T H)
      → Sound ft
      → ft.current ≡ some current
      → lookup peer_id ft.peer_protocols ≡ none
      → ft.used_fallback ≡ true
      → get_peer_protocol peer_id ft ≡ name_of current
  unfolding get_peer_protocol get_active_protocol
  active_name peer_id current ft sound running unknown fallen =
      let is_tcp : current ≡ secondary =
        sound.flag current running ∙ ap (λ b. if b then secondary else primary) fallen in
      subst (λ w. get_peer_protocol peer_id ft ≡ name_of w) (sym is_tcp)
        (ground (arith, unknown, fallen))

  known_name :
      (peer_id protocol : Str) (ft : FallbackTransport T H)
      → lookup peer_id ft.peer_protocols ≡ some protocol
      → get_peer_protocol peer_id ft ≡ protocol
  unfolding get_peer_protocol
  known_name peer_id protocol ft known = ground (arith, known)

  -- Sending keeps the state sound, and where it reports no error, one of the two transports has taken
  -- the message, and it is the one that GetPeerProtocol names for the peer afterwards. The
  -- state is sound where the current transport is the one that the fallback flag names and the
  -- protocols of the peers are quic or tcp.
  pub send_message_carried :
      (peer_id address : Str) (port : ℕ) (msg : M) (ft : FallbackTransport T H)
      → Sound ft
      → let (error, after) = send_message p f peer_id address port msg ft in
        Sound after
        × (error ≡ none
            → (which : Which) × (before : T) × ((transport_of p f which).send_message peer_id
                  address port msg before
                ≡ (none, after.state))
              × (get_peer_protocol peer_id after ≡ name_of which))
  unfolding send_message send_to
  send_message_carried peer_id address port msg ft sound =
      let call = send_to p f peer_id address port msg in
      elim (Option-cases ft.current) [
        | inl stopped ↦
            let step : send_message p f peer_id address port msg ft ≡ (some not_started, ft) =
              ground (arith, stopped) in
            subst (Fine peer_id call) (sym step) (sound, λ e. cc)
        | inr (current, running) ↦ elim (Option-cases (lookup peer_id ft.peer_protocols)) [
          | inl unknown ↦ elim (Bool-cases ft.used_fallback) [
            | inl fallen ↦
                let step : send_message p f peer_id address port msg ft ≡ by p f current call ft =
                  ground (arith, running, unknown, fallen) in
                subst (Fine peer_id call) (sym step) (
                  by-Fine current peer_id call ft sound
                    (active_name peer_id current ft sound running unknown fallen))
            | inr first ↦
                let text = bytes "both QUIC and TCP failed for peer " in
                let step : send_message p f peer_id address port msg ft
                    ≡ try_both p f text peer_id call ft =
                  ground (arith, running, unknown, first) in
                subst (Fine peer_id call) (sym step) (try_both-Fine text peer_id call ft sound)
          ]
          | inr (protocol, known) ↦ elim (sound.protocols peer_id protocol known) [
            | inl is_quic ↦
                let step : send_message p f peer_id address port msg ft ≡ by p f primary call ft =
                  ground (arith, running, known, is_quic) in
                subst (Fine peer_id call) (sym step) (
                  by-Fine primary peer_id call ft sound
                    (known_name peer_id protocol ft known ∙ is_quic))
            | inr is_tcp ↦
                let step : send_message p f peer_id address port msg ft ≡ by p f secondary call ft =
                  ground (arith, running, known, is_tcp) in
                subst (Fine peer_id call) (sym step) (
                  by-Fine secondary peer_id call ft sound
                    (known_name peer_id protocol ft known ∙ is_tcp))
          ]
        ]
      ]

  passed :
      (which : Which) (ft : FallbackTransport T H) → Sound ft → Sound (pass_handler p f which ft)
  unfolding pass_handler
  passed which ft sound = elim (Option-cases ft.handler) [
    | inl gone ↦
        let step : pass_handler p f which ft ≡ ft = ground (arith, gone) in
        subst Sound (sym step) sound
    | inr (handler, here) ↦
        let state = ((transport_of p f which).set_message_handler handler ft.state).1 in
        let step : pass_handler p f which ft ≡ record ft { state = state } = ground (arith, here) in
        subst Sound (sym step) (moved state ft sound)
  ]

  turned_on :
      (which : Which) (fallback : Bool) (state : T) (ft : FallbackTransport T H)
      → which ≡ (if fallback then secondary else primary)
      → Sound ft
      → Sound (started p f which fallback state ft)
  unfolding started
  turned_on which fallback state ft named sound =
      passed which (record ft { current = some which; used_fallback = fallback; state = state })
        (record {
          flag = λ other running. sym (some-injective which other running) ∙ named;
          protocols = sound.protocols;
        })

  -- Starting keeps the state sound, whichever transports start.
  start-Sound : (ft : FallbackTransport T H) → Sound ft → Sound (start p f ft).1
  unfolding start
  start-Sound ft sound =
      let s1 = (p.start ft.state).1 in
      let s2 = (f.start s1).1 in
      elim (Option-cases (p.start ft.state).0) [
        | inl good ↦
            let step : (start p f ft).1 ≡ started p f primary false s1 ft = ground (arith, good) in
            subst Sound (sym step) (turned_on primary false s1 ft refl sound)
        | inr (_, bad) ↦ elim (Option-cases (f.start s1).0) [
          | inl good ↦
              let step : (start p f ft).1 ≡ started p f secondary true s2 ft =
                ground (arith, bad, good) in
              subst Sound (sym step) (turned_on secondary true s2 ft refl sound)
          | inr (_, worse) ↦
              let step : (start p f ft).1 ≡ record ft { state = s2 } = ground (arith, bad, worse) in
              subst Sound (sym step) (moved s2 ft sound)
        ]
      ]
