-- ===== src/Handshake/Agreement.antt =====
-- internal/crypto/handshake.go: what the two peers have at the end of a handshake.
use p2p_folder_sync.Prelude.{
  ℕ, ◌≤◌, ◌≡◌, refl, sym, ◌∙◌, ap, ◌≢◌, ◌+◌, inl, inr, Option-cases, length, ◌++◌, Str, bytes,
  list_eq, nat_eq, arith,
}
use p2p_folder_sync.Prelude.Dict.{lookup-insert}
use p2p_folder_sync.Prelude.Fallible.{returned, failed, Fallible-cases}
use p2p_folder_sync.Handshake.{
  Bytes, Crypto, key_size, encode_public_key, decode_public_key, compute_shared_secret, SessionKey,
  HandshakeManager, HandshakeState, Hello, because, session_key_rotation_interval,
  initiate_handshake, generate_auth_response, derive_session_key, secret_with, process_handshake,
  store_session, complete_handshake, verify_and_complete, get_session_key,
}

module _ (crypto : Crypto) where
  -- The answers of two peers with the same secret and the same pre-shared key are the same.
  same_response :
      (a b : HandshakeManager) (secret challenge : Bytes)
      → a.pre_shared_key ≡ b.pre_shared_key
      → generate_auth_response crypto a secret challenge
        ≡ generate_auth_response crypto b secret challenge
  unfolding generate_auth_response
  same_response a b secret challenge same = elim (Option-cases b.pre_shared_key) [
    | inl gone ↦ ground (arith, gone, same)
    | inr (psk, here) ↦ ground (arith, here, same)
  ]

  abbrev made_session : ℕ → ℕ → Str → Bytes → SessionKey
  made_session now now' peer_id key = record {
    key = key;
    created_at = now;
    expires_at = now' + session_key_rotation_interval;
    peer_id = peer_id;
  }

  secret_known :
      (hm : HandshakeManager) (text : Str) (peer_key secret : Bytes)
      → crypto.base64_decode text ≡ returned peer_key
      → length hm.private_key ≡ key_size
      → length peer_key ≡ key_size
      → crypto.x25519 hm.private_key peer_key ≡ returned secret
      → secret_with crypto hm text ≡ returned (peer_key, secret)
  unfolding secret_with decode_public_key compute_shared_secret because
  secret_known hm text peer_key secret decoded size peer_size shared =
      ground (arith, decoded, shared, size, peer_size)

  key_derived :
      (secret nonce_a nonce_b key : Bytes)
      → crypto.hkdf secret (nonce_a ++ nonce_b) (bytes "p2p-sync-session") ≡ returned key
      → derive_session_key crypto secret nonce_a nonce_b ≡ returned key
  unfolding derive_session_key because
  key_derived secret nonce_a nonce_b key read = ground (arith, read)

  -- The session is stored, and found until it expires.
  session_found :
      (now now' later : ℕ) (peer_id : Str) (key : Bytes) (hm : HandshakeManager)
      → later ≤ now' + session_key_rotation_interval
      → get_session_key later peer_id (store_session crypto now now' peer_id (returned key) hm).1
        ≡ returned (made_session now now' peer_id key)
  unfolding get_session_key store_session
  session_found now now' later peer_id key hm fresh =
      ground (
        arith,
        fresh,
        lookup-insert peer_id peer_id (made_session now now' peer_id key) hm.sessions,
      )

  completed :
      (now now' : ℕ) (state : HandshakeState) (response : Bytes) (peer_id : Str) (key : Bytes)
      (hm : HandshakeManager)
      → generate_auth_response crypto hm state.shared_secret state.our_challenge ≡ response
      → derive_session_key crypto state.shared_secret state.peer_nonce state.our_nonce
        ≡ returned key
      → complete_handshake crypto now now' state response peer_id hm
        ≡ store_session crypto now now' peer_id (returned key) hm
  unfolding complete_handshake
  completed now now' state response peer_id key hm right derived = ground (arith, right, derived)

  verified :
      (now now' : ℕ) (nonce challenge : Bytes) (peer : Hello) (response : Bytes) (peer_id : Str)
      (peer_key secret key : Bytes) (hm : HandshakeManager)
      → secret_with crypto hm peer.public_key ≡ returned (peer_key, secret)
      → generate_auth_response crypto hm secret challenge ≡ response
      → derive_session_key crypto secret nonce peer.nonce ≡ returned key
      → verify_and_complete crypto now now' nonce challenge peer response peer_id hm
        ≡ store_session crypto now now' peer_id (returned key) hm
  unfolding verify_and_complete
  verified now now' nonce challenge peer response peer_id peer_key secret key hm known right
        derived =
      ground (arith, known, right, derived)

  processed :
      (nonce challenge : Bytes) (peer_public_key : Str)
      (peer_nonce peer_challenge peer_key secret : Bytes) (hm : HandshakeManager)
      → secret_with crypto hm peer_public_key ≡ returned (peer_key, secret)
      → process_handshake crypto
          (returned nonce)
          (returned challenge)
          peer_public_key
          peer_nonce
          peer_challenge
          hm
        ≡ returned (
          generate_auth_response crypto hm secret peer_challenge,
          record {
            public_key = encode_public_key crypto hm.public_key;
            nonce = nonce;
            challenge = challenge;
          },
          record {
            our_nonce = nonce;
            our_challenge = challenge;
            peer_nonce = peer_nonce;
            peer_public_key = peer_key;
            shared_secret = secret;
          },
        )
  unfolding process_handshake encode_public_key because
  processed nonce challenge peer_public_key peer_nonce peer_challenge peer_key secret hm known =
      ground (arith, known)

-- The keys of `GenerateKeyPair` have the size that the code checks.
abbrev pub HasKeys : HandshakeManager → Type 0
HasKeys hm = (length hm.private_key ≡ key_size) × (length hm.public_key ≡ key_size)

-- A handshake agrees. Two peers with keys of 32 bytes and the same pre-shared key, or both without one, run the three
-- steps; the initiator `a` answers the challenge of the responder `b` by the code's own rule. Then
-- each has a session for the other, with one key for both, until 24 hours after it was made. It is
-- assumed of the cryptographic packages that base64 decodes what it encodes, that the two private
-- keys give one shared secret, and that a key can be read from HKDF.
pub handshake_agrees :
    (crypto : Crypto) (a b : HandshakeManager)
    (nonce_a challenge_a nonce_b challenge_b secret key : Bytes) (a_id b_id : Str)
    (now_a now_a' now_b now_b' later : ℕ)
    → a.pre_shared_key ≡ b.pre_shared_key
    → HasKeys a
    → HasKeys b
    → ((key : Bytes) → crypto.base64_decode (crypto.base64_encode key) ≡ returned key)
    → crypto.x25519 a.private_key b.public_key ≡ returned secret
    → crypto.x25519 b.private_key a.public_key ≡ returned secret
    → crypto.hkdf secret (nonce_a ++ nonce_b) (bytes "p2p-sync-session") ≡ returned key
    → later ≤ now_a' + session_key_rotation_interval
    → later ≤ now_b' + session_key_rotation_interval
    → (hello reply : Hello) × (answer : Bytes) × (state : HandshakeState) × (initiate_handshake
          crypto
          (returned nonce_a)
          (returned challenge_a)
          a
        ≡ returned hello)
      × (process_handshake crypto
            (returned nonce_b)
            (returned challenge_b)
            hello.public_key
            hello.nonce
            hello.challenge
            b
          ≡ returned (answer, reply, state))
      × let a' =
          (verify_and_complete crypto now_a now_a' nonce_a challenge_a reply answer b_id a).1 in
        let final = generate_auth_response crypto a secret reply.challenge in
        let b' = (complete_handshake crypto now_b now_b' state final a_id b).1 in
        (of_a of_b : SessionKey) × (get_session_key later b_id a' ≡ returned of_a)
        × (get_session_key later a_id b' ≡ returned of_b)
        × (of_a.key ≡ key)
        × (of_b.key ≡ key)
unfolding initiate_handshake encode_public_key because
handshake_agrees crypto a b nonce_a challenge_a nonce_b challenge_b secret key a_id b_id now_a
      now_a' now_b now_b' later psk keys_a keys_b code share_a share_b read fresh_a fresh_b =
    let hello : Hello = record {
      public_key = encode_public_key crypto a.public_key;
      nonce = nonce_a;
      challenge = challenge_a;
    } in
    let reply : Hello = record {
      public_key = encode_public_key crypto b.public_key;
      nonce = nonce_b;
      challenge = challenge_b;
    } in
    let state : HandshakeState = record {
      our_nonce = nonce_b;
      our_challenge = challenge_b;
      peer_nonce = nonce_a;
      peer_public_key = a.public_key;
      shared_secret = secret;
    } in
    let answer = generate_auth_response crypto b secret challenge_a in
    let final = generate_auth_response crypto a secret challenge_b in
    let derived = key_derived crypto secret nonce_a nonce_b key read in
    let at_a =
      verified crypto now_a now_a' nonce_a challenge_a reply answer b_id b.public_key secret key a
        (secret_known crypto a reply.public_key b.public_key secret (code b.public_key) keys_a.0
          keys_b.1 share_a)
        (same_response crypto a b secret challenge_a psk) derived in
    let at_b =
      completed crypto now_b now_b' state final a_id key b
        (same_response crypto b a secret challenge_b (sym psk)) derived in
    (
      hello,
      reply,
      answer,
      state,
      refl,
      processed crypto nonce_b challenge_b hello.public_key nonce_a challenge_a a.public_key secret
          b
          (secret_known crypto b hello.public_key a.public_key secret (code a.public_key) keys_b.0
            keys_a.1 share_b),
      (
        made_session crypto now_a now_a' b_id key,
        made_session crypto now_b now_b' a_id key,
        ap (λ r. get_session_key later b_id r.1) at_a
            ∙ session_found crypto now_a now_a' later b_id key a fresh_a,
        ap (λ r. get_session_key later a_id r.1) at_b
            ∙ session_found crypto now_b now_b' later a_id key b fresh_b,
        refl,
        refl,
      ),
    )

-- A response other than the expected one is refused by both sides, and leaves no session behind.
wrong_response_refused :
    (crypto : Crypto) (now now' : ℕ) (nonce challenge : Bytes) (peer : Hello)
    (state : HandshakeState) (response : Bytes) (peer_id : Str) (hm : HandshakeManager)
    → ((keys : Bytes × Bytes)
        → secret_with crypto hm peer.public_key ≡ returned keys
        → generate_auth_response crypto hm keys.1 challenge ≢ response)
    → generate_auth_response crypto hm state.shared_secret state.our_challenge ≢ response
    → ((error : Str) × (verify_and_complete crypto now now' nonce challenge peer response peer_id hm
          ≡ (failed error, hm)))
      × ((error : Str) × (complete_handshake crypto now now' state response peer_id hm
            ≡ (failed error, hm)))
unfolding verify_and_complete complete_handshake
wrong_response_refused crypto now now' nonce challenge peer state response peer_id hm wrong wrong' =
    (
      elim (Fallible-cases (secret_with crypto hm peer.public_key)) [
        | inl (e, bad) ↦ (e, ground (arith, bad))
        | inr (keys, good) ↦
            let differ = wrong keys good in
            (bytes "authentication failed: invalid response", ground (arith, good, differ))
      ],
      (bytes "authentication failed: invalid response", ground (arith, wrong')),
    )
