-- ===== src/Messenger/Retries.antt =====
-- `sendMessage` of internal/network/messenger.go: when the retries of a message end, and how.
use p2p_folder_sync.Prelude.{
  ℕ, zero, suc, ◌+◌, ◌≤◌, ◌<◌, ◌≡◌, refl, sym, ◌≢◌, ◌↔◌, ◌⊎◌, inl, inr, true, false, Option, none,
  some, List, [], ◌∷◌, ◌∙◌, Str, bytes, list_eq, nat_eq, arith, Bool-cases, Option-cases,
  ℕ_discrete, subst,
}
use p2p_folder_sync.Prelude.Dict.{lookup, lookup-erase}
use p2p_folder_sync.Prelude.Fallible.{Fallible, returned, failed, Fallible-cases}
use p2p_folder_sync.Connection.{Connection, Connections}
use p2p_folder_sync.Messages.{EncryptedMessage, Payload, encrypted, Message}
use p2p_folder_sync.Messenger.{
  encrypt_message_payload, retry_count, send_message, PendingAcks, Attempt, Failure, ack_timeout,
  send_failed, ack_error, not_connected, encrypt_failed, SendError, no_connection_info, gave_up,
  Sent, retry_loop, track_acknowledgment, untrack_acknowledgment,
}

module _ (attempts : ℕ → Attempt) (message_id : Str) where
  -- Attempt `i` had a connection and was acknowledged without an error.
  abbrev pub Acknowledged : ℕ → Type 0
  Acknowledged i =
      ((attempts i).connected ≡ true)
      × ((attempts i).send_error ≡ none)
      × ((attempts i).ack ≡ some none)

  -- An attempt from `i` on, one of `rounds`, was acknowledged, and no connection was missing before it.
  abbrev pub Succeeds : ℕ → ℕ → Type 0
  Succeeds i rounds =
      (j : ℕ) × (i ≤ j)
      × (j < i + rounds)
      × Acknowledged j
      × ((m : ℕ) → i ≤ m → m ≤ j → (attempts m).connected ≡ true)

  module _ (i rounds before : ℕ) (last : Option Failure) (pending : PendingAcks) where
    abbrev loop : Sent
    loop = retry_loop attempts message_id (suc rounds) i last before pending

    abbrev tracked : PendingAcks
    tracked = track_acknowledgment message_id pending

    unconnected :
        (attempts i).connected ≡ false
        → loop
          ≡ record { error = some no_connection_info; pending = tracked; transmissions = before }
    unfolding retry_loop
    unconnected h = ground (arith, h)

    acknowledged :
        Acknowledged i
        → loop ≡ record {
          error = none;
          pending = untrack_acknowledgment message_id tracked;
          transmissions = suc before;
        }
    unfolding retry_loop
    acknowledged (h, sent, ack) = ground (arith, h, sent, ack)

    -- The other attempts are followed by the next one.
    refused :
        (attempts i).connected ≡ true
        → (Acknowledged i)
          ⊎ ((¬ Acknowledged i)
              × (e : Failure) × (loop
                  ≡ retry_loop attempts message_id rounds (suc i) (some e) (suc before) tracked))
    unfolding retry_loop
    refused h = elim (Option-cases (attempts i).send_error) [
      | inr (e, bad) ↦ inr (λ a. cc, send_failed e, ground (arith, h, bad))
      | inl sent ↦ elim (Option-cases (attempts i).ack) [
        | inl late ↦ inr (λ a. cc, ack_timeout, ground (arith, h, sent, late))
        | inr (result, came) ↦ elim (Option-cases result) [
          | inl good ↦ inl (h, sent, cc)
          | inr (e, bad) ↦ inr (λ a. cc, ack_error e, ground (arith, h, sent, came, bad))
        ]
      ]
    ]

  -- How the loop over `rounds` attempts from `i` ends.
  pub record Ended (i rounds before : ℕ) (s : Sent) : Type 0 where
    pub bounded : s.transmissions ≤ before + rounds
    pub success : (s.error ≡ none) ↔ Succeeds i rounds
    pub released : s.error ≢ some no_connection_info → lookup message_id s.pending ≡ none

  later_Succeeds :
      (i rounds : ℕ)
      → (attempts i).connected ≡ true
      → (¬ Acknowledged i)
      → Succeeds (suc i) rounds ↔ Succeeds i (suc rounds)
  later_Succeeds i rounds h no_ack = (
    λ (j, lo, hi, a, on). (
      j,
      omega arith,
      omega arith,
      a,
      λ m p q. elim (ℕ_discrete i m) [
        | yes at ↦ subst (λ t. (attempts t).connected ≡ true) at h
        | no past ↦ on m (omega arith) q
      ],
    ),
    λ (j, lo, hi, a, on). elim (ℕ_discrete i j) [
      | yes at ↦ absurd (no_ack (subst Acknowledged (sym at) a))
      | no past ↦ (j, omega arith, omega arith, a, λ m p q. on m (omega arith) q)
    ],
  )

  stopped :
      (i before : ℕ) (last : Option Failure) (pending : PendingAcks)
      → retry_loop attempts message_id zero i last before pending ≡ record {
        error = some (gave_up last);
        pending = untrack_acknowledgment message_id pending;
        transmissions = before;
      }
  unfolding retry_loop
  stopped i before last pending = refl

  untracked :
      (pending : PendingAcks) → lookup message_id (untrack_acknowledgment message_id pending) ≡ none
  unfolding untrack_acknowledgment
  untracked pending = ground (arith, lookup-erase message_id message_id pending)

  retry_loop-Ended :
      (rounds i : ℕ) (last : Option Failure) (before : ℕ) (pending : PendingAcks)
      → Ended i rounds before (retry_loop attempts message_id rounds i last before pending)
  retry_loop-Ended zero i last before pending = rw (stopped i before last pending) (record {
    bounded = omega arith;
    success = (λ e. cc, λ (j, lo, hi, a, on). absurd (omega arith));
    released = λ e. untracked pending;
  })
  retry_loop-Ended (suc rounds) i last before pending = elim (Bool-cases (attempts i).connected) [
    | inr off ↦ rw (unconnected i rounds before last pending off) (record {
      bounded = omega arith;
      success = (λ e. cc, λ (j, lo, hi, a, on). cc (on i (omega arith) lo));
      released = λ e. absurd (e refl);
    })
    | inl on ↦ elim (refused i rounds before last pending on) [
      | inl ack ↦ rw (acknowledged i rounds before last pending ack) (record {
        bounded = omega arith;
        success = (
          λ e. (
            i,
            omega arith,
            omega arith,
            ack,
            λ m p q. subst (λ t. (attempts t).connected ≡ true) (omega arith) on,
          ),
          λ w. refl,
        );
        released = λ e. untracked _;
      })
      | inr (no_ack, e, next) ↦ rw next (
          let ended =
            retry_loop-Ended rounds (suc i) (some e) (suc before)
              (track_acknowledgment message_id pending) in
          let same = later_Succeeds i rounds on no_ack in
          record {
            bounded = omega (arith, ended.bounded);
            success = (λ d. same.0 (ended.success.0 d), λ w. ended.success.1 (same.1 w));
            released = ended.released;
          })
    ]
  ]

module _ (encrypt : List ℕ → Payload → Fallible EncryptedMessage)
    (network : Message → ℕ → Attempt) where
  send_known :
      (connections : Connections) (peer_id : Str) (msg : Message) (pending : PendingAcks)
      (conn : Connection)
      → lookup peer_id connections ≡ some conn
      → (sealed : EncryptedMessage)
      → encrypt_message_payload encrypt msg conn.session_key ≡ returned sealed
      → send_message encrypt network connections peer_id msg pending
        ≡ retry_loop
            (network (record msg { payload = encrypted sealed }))
            msg.id
            retry_count
            0
            none
            0
            pending
  unfolding send_message
  send_known connections peer_id msg pending conn here sealed ready = ground (arith, here, ready)

  encryption :
      (msg : Message) (key : List ℕ)
      → ((key ≡ [])
          × (encrypt_message_payload encrypt msg key ≡ failed (bytes "no session key available")))
        ⊎ ((key ≢ []) × (encrypt_message_payload encrypt msg key ≡ encrypt key msg.payload))
  unfolding encrypt_message_payload
  encryption msg [] = inl (refl, ground arith)
  encryption msg (b ∷ key) = inr (λ e. cc, ground arith)

  -- A call that transmits nothing: it fails, and leaves the pending acknowledgments alone.
  abbrev pub Unsent : PendingAcks → SendError → Sent → Type 0
  Unsent pending e s = (s.error ≡ some e) × (s.transmissions ≡ 0) × (s.pending ≡ pending)

  -- Over a connection: what comes of its session key, and of the encryption under it.
  abbrev pub Over : List ℕ → Message → PendingAcks → Sent → Type 0
  Over key msg pending s =
      ((key ≡ []) × Unsent pending (encrypt_failed (bytes "no session key available")) s)
      ⊎ ((key ≢ [])
          × (((e : Str) × (encrypt key msg.payload ≡ failed e)
                × Unsent pending (encrypt_failed e) s)
              ⊎ ((sealed : EncryptedMessage) × (encrypt key msg.payload ≡ returned sealed)
                  × Ended (network (record msg { payload = encrypted sealed })) msg.id 0 3 0 s)))

  send_unsealed :
      (connections : Connections) (peer_id : Str) (msg : Message) (pending : PendingAcks)
      (conn : Connection) (e : Str)
      → lookup peer_id connections ≡ some conn
      → encrypt_message_payload encrypt msg conn.session_key ≡ failed e
      → Unsent pending
          (encrypt_failed e)
          (send_message encrypt network connections peer_id msg pending)
  unfolding send_message
  send_unsealed connections peer_id msg pending conn e here bad = ground (arith, here, bad)

  send-Over :
      (connections : Connections) (peer_id : Str) (msg : Message) (pending : PendingAcks)
      (conn : Connection)
      → lookup peer_id connections ≡ some conn
      → Over conn.session_key msg pending
          (send_message encrypt network connections peer_id msg pending)
  send-Over connections peer_id msg pending conn here = elim (encryption msg conn.session_key) [
    | inl (none_set, bad) ↦
        inl (none_set, send_unsealed connections peer_id msg pending conn _ here bad)
    | inr (set, same) ↦ elim (Fallible-cases (encrypt conn.session_key msg.payload)) [
      | inl (e, bad) ↦ inr (
        set,
        inl (e, bad, send_unsealed connections peer_id msg pending conn e here (same ∙ bad)),
      )
      | inr (sealed, good) ↦ inr (
        set,
        inr (
          sealed,
          good,
          subst (Ended (network (record msg { payload = encrypted sealed })) msg.id 0 3 0)
              (sym (send_known connections peer_id msg pending conn here sealed (same ∙ good)))
              (retry_loop-Ended (network (record msg { payload = encrypted sealed })) msg.id 3 0
                none 0 pending),
        ),
      )
    ]
  ]

  -- How a call to send a message ends. Where the peer has no connection, its connection has no
  -- session key, or the encryption of the payload under that key fails, the call fails with the
  -- error of that cause, transmits nothing and leaves the pending acknowledgments alone. Otherwise
  -- it transmits the message with the payload encrypted under the key, three times at most; it
  -- succeeds exactly when one of three attempts is acknowledged without an error, with a connection
  -- there in every attempt up to that one; and no acknowledgment is pending for the message
  -- afterwards, unless the call ended because a connection was missing.
  pub send_message-Ended :
      (connections : Connections) (peer_id : Str) (msg : Message) (pending : PendingAcks)
      → let s = send_message encrypt network connections peer_id msg pending in
        ((lookup peer_id connections ≡ none) × Unsent pending not_connected s)
        ⊎ ((conn : Connection) × (lookup peer_id connections ≡ some conn)
            × Over conn.session_key msg pending s)
  unfolding send_message
  send_message-Ended connections peer_id msg pending =
      elim (Option-cases (lookup peer_id connections)) [
        | inl gone ↦ inl (gone, ground (arith, gone))
        | inr (conn, here) ↦ inr (conn, here, send-Over connections peer_id msg pending conn here)
      ]
