-- ===== src/HandshakeTests.antt =====
-- Inputs at which the theorems on the handshake, on pre-shared keys and on the transports apply.
use p2p_folder_sync.Prelude.{
  ℕ, suc, ◌≡◌, refl, ◌≢◌, false, none, some, [], ◌∷◌, ◌++◌, bytes, list_eq, nat_eq, arith,
  replicate,
}
use p2p_folder_sync.Prelude.Dict.{lookup}
use p2p_folder_sync.Prelude.Fallible.{returned}
use p2p_folder_sync.Fallback.{
  Transport, Which, primary, FallbackTransport, transport_of, send_message, get_peer_protocol,
}
use p2p_folder_sync.Fallback.Carried.{Sound, name_of, send_message_carried}
use p2p_folder_sync.Auth.{Authenticator}
use p2p_folder_sync.Handshake.{
  Bytes, Crypto, SessionKey, HandshakeManager, HandshakeState, Hello, initiate_handshake,
  generate_auth_response, process_handshake, complete_handshake, verify_and_complete,
  get_session_key,
}
use p2p_folder_sync.Handshake.Agreement.{handshake_agrees}

-- A cipher suite with one shared secret for all.
abbrev toy_crypto : Crypto
toy_crypto = record {
  base64_encode = λ key. key;
  base64_decode = λ text. returned text;
  x25519 = λ mine theirs. returned (42 ∷ []);
  sha256 = λ b. b;
  hmac_sha256 = λ key message. message ++ key;
  hkdf = λ secret salt info. returned salt;
}

abbrev key_of : ℕ → Bytes
key_of b = replicate 32 b

abbrev manager_a : HandshakeManager
manager_a = record {
  private_key = key_of 1;
  public_key = key_of 2;
  pre_shared_key = some (5 ∷ []);
  sessions = [];
}

abbrev manager_b : HandshakeManager
manager_b = record manager_a { private_key = key_of 3; public_key = key_of 4 }

handshake_agrees_example :
    (hello reply : Hello) × (answer : Bytes) × (state : HandshakeState) × (initiate_handshake
        toy_crypto
        (returned (6 ∷ []))
        (returned (7 ∷ []))
        manager_a
      ≡ returned hello)
    × (process_handshake toy_crypto
          (returned (8 ∷ []))
          (returned (9 ∷ []))
          hello.public_key
          hello.nonce
          hello.challenge
          manager_b
        ≡ returned (answer, reply, state))
    × let a' =
        (verify_and_complete toy_crypto 1 2
          (6 ∷ [])
          (7 ∷ [])
          reply
          answer
          (bytes "b")
          manager_a).1 in
      let final = generate_auth_response toy_crypto manager_a (42 ∷ []) reply.challenge in
      let b' = (complete_handshake toy_crypto 3 4 state final (bytes "a") manager_b).1 in
      (of_a of_b : SessionKey) × (get_session_key 5 (bytes "b") a' ≡ returned of_a)
      × (get_session_key 5 (bytes "a") b' ≡ returned of_b)
      × (of_a.key ≡ 6 ∷ 8 ∷ [])
      × (of_b.key ≡ 6 ∷ 8 ∷ [])
handshake_agrees_example =
    handshake_agrees toy_crypto manager_a manager_b (6 ∷ []) (7 ∷ []) (8 ∷ []) (9 ∷ []) (42 ∷ [])
      (6 ∷ 8 ∷ []) (bytes "a") (bytes "b") 1 2 3 4 5 refl (refl, refl) (refl, refl) (λ key. refl)
      refl refl refl (omega arith) (omega arith)

abbrev greeting : Hello
greeting = record { public_key = key_of 4; nonce = 8 ∷ []; challenge = 9 ∷ [] }

abbrev waiting : HandshakeState
waiting = record {
  our_nonce = 6 ∷ [];
  our_challenge = 7 ∷ [];
  peer_nonce = 8 ∷ [];
  peer_public_key = 4 ∷ [];
  shared_secret = 42 ∷ [];
}

answer_there : (secret : Bytes) → generate_auth_response toy_crypto manager_a secret (7 ∷ []) ≢ []
unfolding generate_auth_response
answer_there secret = λ e. cc

abbrev keyed : Authenticator
keyed = record { auth_method = bytes "psk"; psk = 5 ∷ [] }

-- QUIC refuses every message, TCP counts those it takes.
abbrev deaf : Transport ℕ ℕ ℕ
deaf = record {
  start = λ n. (none, n);
  stop = λ n. (none, n);
  set_message_handler = λ h n. (none, n);
  send_message = λ peer address port msg n. (some (bytes "no route"), n);
  connect_to_peer = λ peer address port n. (none, n);
}

abbrev counting : Transport ℕ ℕ ℕ
counting = record deaf { send_message = λ peer address port msg n. (none, suc n) }

abbrev on_quic : FallbackTransport ℕ ℕ
on_quic = record {
  current = some primary;
  handler = none;
  used_fallback = false;
  peer_protocols = [];
  state = 0;
}

on_quic-Sound : Sound deaf counting on_quic
unfolding lookup
on_quic-Sound = record { flag = λ which e. cc; protocols = λ peer protocol e. cc }

send_message_carried_example :
    let (error, after) = send_message deaf counting (bytes "b") (bytes "10.0.0.2") 8080 7 on_quic in
    Sound deaf counting after
    × (error ≡ none
        → (which : Which) × (before : ℕ) × ((transport_of deaf counting which).send_message
              (bytes "b")
              (bytes "10.0.0.2")
              8080
              7
              before
            ≡ (none, after.state))
          × (get_peer_protocol (bytes "b") after ≡ name_of deaf counting which))
send_message_carried_example =
    send_message_carried deaf counting (bytes "b") (bytes "10.0.0.2") 8080 7 on_quic on_quic-Sound
