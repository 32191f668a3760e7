-- ===== src/Handshake.antt =====
-- internal/crypto/handshake.go, with the keys of keyexchange.go: the three steps of the handshake and the session keys. The
-- cryptographic packages are a parameter, random bytes and the clock's times are arguments. A
-- time is its nanoseconds.
pub mod Agreement
use p2p_folder_sync.Prelude.{
  ℕ, ◌+◌, Bool, true, false, not, Option, none, some, List, [], ◌∷◌, ◌++◌, length, ltb, Str, bytes,
  list_eq, nat_eq, ◌==◌, if◌then◌else◌,
}
use p2p_folder_sync.Prelude.Dict.{Dict, lookup, insert, erase}
use p2p_folder_sync.Prelude.Fallible.{Fallible, returned, failed, ◌>>=◌}

abbrev pub Bytes : Type 0
Bytes = List ℕ

-- Base64, X25519 of a private key and a public key, SHA-256, HMAC-SHA256 of a key and a message, and
-- the 32 bytes that are read from HKDF.
pub record Crypto : Type 0 where
  pub base64_encode : Bytes → Str
  pub base64_decode : Str → Fallible Bytes
  pub x25519 : Bytes → Bytes → Fallible Bytes
  pub sha256 : Bytes → Bytes
  pub hmac_sha256 : Bytes → Bytes → Bytes
  pub hkdf : Bytes → Bytes → Bytes → Fallible Bytes

pub record SessionKey : Type 0 where
  pub key : Bytes
  pub created_at : ℕ
  pub expires_at : ℕ
  pub peer_id : Str

pub record HandshakeManager : Type 0 where
  pub private_key : Bytes
  pub public_key : Bytes
  pub pre_shared_key : Option Bytes
  pub sessions : Dict Str SessionKey

pub record HandshakeState : Type 0 where
  pub our_nonce : Bytes
  pub our_challenge : Bytes
  pub peer_nonce : Bytes
  pub peer_public_key : Bytes
  pub shared_secret : Bytes

-- What the first step and the second one send.
pub record Hello : Type 0 where
  pub public_key : Str
  pub nonce : Bytes
  pub challenge : Bytes

-- `SessionKeyRotationInterval`, 24 hours.
abbrev pub session_key_rotation_interval : ℕ
session_key_rotation_interval = 86_400_000_000_000

-- The text of an error before its cause.
because {ℓ} : {A : Type ℓ} → Str → Fallible A → Fallible A
because text (returned a) = returned a
because text (failed cause) = failed (text ++ cause)

-- `KeySize`, in bytes.
abbrev pub key_size : ℕ
key_size = 32

module _ (crypto : Crypto) where
  -- Of keyexchange.go, as are the next two. An error's text is without the number at its end.
  pub encode_public_key : Bytes → Str
  encode_public_key public_key = crypto.base64_encode public_key

  decode_public_key : Str → Fallible Bytes
  unfolding because
  decode_public_key encoded =
      because (bytes "failed to decode public key: ") (crypto.base64_decode encoded) >>= λ decoded.
      if length decoded == key_size
      then returned decoded
      else failed (bytes "invalid public key size")

  compute_shared_secret : Bytes → Bytes → Fallible Bytes
  unfolding because
  compute_shared_secret private_key peer_public_key =
      if not (length private_key == key_size)
      then failed (bytes "invalid private key size")
      else if not (length peer_public_key == key_size)
      then failed (bytes "invalid public key size")
      else because (bytes "failed to compute shared secret: ")
          (crypto.x25519 private_key peer_public_key)

  -- `rand.Read` may fail.
  unfoldable pub initiate_handshake :
      Fallible Bytes → Fallible Bytes → HandshakeManager → Fallible Hello
  unfolding because encode_public_key
  initiate_handshake random_nonce random_challenge hm =
      because (bytes "failed to generate nonce: ") random_nonce >>= λ nonce.
      because (bytes "failed to generate challenge: ") random_challenge >>= λ challenge.
      returned (record {
        public_key = encode_public_key hm.public_key;
        nonce = nonce;
        challenge = challenge;
      })

  unfoldable pub generate_auth_response : HandshakeManager → Bytes → Bytes → Bytes
  generate_auth_response hm shared_secret challenge = elim hm.pre_shared_key [
    | none ↦ crypto.hmac_sha256 shared_secret challenge
    | some psk ↦ crypto.hmac_sha256 (crypto.sha256 (shared_secret ++ psk)) challenge
  ]

  derive_session_key : Bytes → Bytes → Bytes → Fallible Bytes
  unfolding because
  derive_session_key shared_secret nonce_a nonce_b =
      because (bytes "failed to derive session key: ")
        (crypto.hkdf shared_secret (nonce_a ++ nonce_b) (bytes "p2p-sync-session"))

  -- The peer's public key is decoded, and the secret is computed from it.
  unfoldable pub secret_with : HandshakeManager → Str → Fallible (Bytes × Bytes)
  unfolding because decode_public_key compute_shared_secret
  secret_with hm peer_public_key =
      because (bytes "failed to decode peer public key: ") (decode_public_key peer_public_key)
      >>= λ peer_key.
          because (bytes "failed to compute shared secret: ")
            (compute_shared_secret hm.private_key peer_key)
          >>= λ secret. returned (peer_key, secret)

  -- The response to the peer's challenge, what is sent with it, and the state for the last step.
  unfoldable pub process_handshake :
      Fallible Bytes
      → Fallible Bytes
      → Str
      → Bytes
      → Bytes
      → HandshakeManager
      → Fallible (Bytes × Hello × HandshakeState)
  unfolding because encode_public_key secret_with generate_auth_response
  process_handshake random_nonce random_challenge peer_public_key peer_nonce peer_challenge hm =
      secret_with hm peer_public_key >>= λ keys.
      because (bytes "failed to generate nonce: ") random_nonce >>= λ nonce.
      because (bytes "failed to generate challenge: ") random_challenge >>= λ challenge. returned (
        generate_auth_response hm keys.1 peer_challenge,
        record {
          public_key = encode_public_key hm.public_key;
          nonce = nonce;
          challenge = challenge;
        },
        record {
          our_nonce = nonce;
          our_challenge = challenge;
          peer_nonce = peer_nonce;
          peer_public_key = keys.0;
          shared_secret = keys.1;
        },
      )

  -- The session that is made of a key, where there is one, and stored. The two times are those of
  -- the two calls of `time.Now`.
  store_session :
      ℕ → ℕ → Str → Fallible Bytes → HandshakeManager → Fallible SessionKey × HandshakeManager
  store_session now now' peer_id (failed e) hm = (failed e, hm)
  store_session now now' peer_id (returned key) hm =
      let session : SessionKey = record {
        key = key;
        created_at = now;
        expires_at = now' + session_key_rotation_interval;
        peer_id = peer_id;
      } in
      (returned session, record hm { sessions = insert peer_id session hm.sessions })

  unfoldable pub complete_handshake :
      ℕ
      → ℕ
      → HandshakeState
      → Bytes
      → Str
      → HandshakeManager
      → Fallible SessionKey × HandshakeManager
  unfolding generate_auth_response derive_session_key store_session
  complete_handshake now now' state peer_auth_response peer_id hm =
      if generate_auth_response hm state.shared_secret state.our_challenge == peer_auth_response
      then store_session now now' peer_id
          (derive_session_key state.shared_secret state.peer_nonce state.our_nonce) hm
      else (failed (bytes "authentication failed: invalid response"), hm)

  -- The answer to the peer's challenge is computed in the code too, and dropped.
  unfoldable pub verify_and_complete :
      ℕ
      → ℕ
      → Bytes
      → Bytes
      → Hello
      → Bytes
      → Str
      → HandshakeManager
      → Fallible SessionKey × HandshakeManager
  unfolding secret_with generate_auth_response derive_session_key store_session
  verify_and_complete now now' our_nonce our_challenge peer peer_auth_response peer_id hm =
      elim (secret_with hm peer.public_key) [
        | failed e ↦ (failed e, hm)
        | returned keys ↦
            if generate_auth_response hm keys.1 our_challenge == peer_auth_response
            then store_session now now' peer_id (derive_session_key keys.1 our_nonce peer.nonce) hm
            else (failed (bytes "authentication failed: invalid response"), hm)
      ]

unfoldable pub get_session_key : ℕ → Str → HandshakeManager → Fallible SessionKey
get_session_key now peer_id hm = elim (lookup peer_id hm.sessions) [
  | none ↦ failed (bytes "no session found for peer " ++ peer_id)
  | some session ↦
      if ltb session.expires_at now
      then failed (bytes "session expired for peer " ++ peer_id)
      else returned session
]

unfoldable pub remove_session : Str → HandshakeManager → HandshakeManager
remove_session peer_id hm = record hm { sessions = erase peer_id hm.sessions }

unexpired : ℕ → Dict Str SessionKey → Dict Str SessionKey
unexpired now [] = []
unexpired now ((peer_id, session) ∷ sessions) =
    let rest = unexpired now sessions in
    if ltb session.expires_at now then rest else (peer_id, session) ∷ rest

unfoldable pub cleanup_expired_sessions : ℕ → HandshakeManager → HandshakeManager
unfolding unexpired
cleanup_expired_sessions now hm = record hm { sessions = unexpired now hm.sessions }

unfoldable pub is_session_valid : ℕ → Str → HandshakeManager → Bool
unfolding get_session_key
is_session_valid now peer_id hm = elim (get_session_key now peer_id hm) [
  | failed e ↦ false
  | returned session ↦ true
]
