-- ===== src/Auth.antt =====
-- internal/crypto/auth.go: challenges that are answered with a pre-shared key.
use p2p_folder_sync.Prelude.{
  ◌≡◌, ◌↔◌, Bool, true, false, length, Str, bytes, list_eq, nat_eq, ◌==◌, ◌!=◌, arith,
  if◌then◌else◌,
}
use p2p_folder_sync.Prelude.Fallible.{Fallible, returned, failed}
use p2p_folder_sync.Handshake.{Bytes, Crypto}

pub record Authenticator : Type 0 where
  pub auth_method : Str
  pub psk : Bytes

-- `AuthMethodPSK`.
abbrev auth_method_psk : Str
auth_method_psk = bytes "psk"

module _ (crypto : Crypto) where
  pub generate_response : Authenticator → Bytes → Fallible Bytes
  generate_response a challenge =
      if a.auth_method != auth_method_psk
      then failed (bytes "PSK response requires PSK method")
      else if length a.psk == 0
      then failed (bytes "PSK not set")
      else returned (crypto.hmac_sha256 a.psk challenge)

  pub verify_response : Authenticator → Bytes → Bytes → Bool
  unfolding generate_response
  verify_response a challenge response =
      if a.auth_method != auth_method_psk
      then false
      else if length a.psk == 0
      then false
      else elim (generate_response a challenge) [
        | failed e ↦ false
        | returned expected ↦ response == expected
      ]

  -- A response is accepted exactly when it is the one that the same authenticator generates, and so
  -- never where it generates none, without a key or under another method.
  verify-generate_response :
      (a : Authenticator) (challenge response : Bytes)
      → (verify_response a challenge response ≡ true)
        ↔ (generate_response a challenge ≡ returned response)
  unfolding verify_response generate_response
  verify-generate_response a challenge response = (λ e. ground (arith, e), λ e. ground (arith, e))
