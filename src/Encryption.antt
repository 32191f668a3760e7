-- ===== src/Encryption.antt =====
-- internal/crypto/encryption.go. AES-GCM, HKDF and the random bytes are parameters; the numbers in
-- the texts of errors are left out.
use p2p_folder_sync.Prelude.{
  ℕ, ◌+◌, ◌-◌, ◌≡◌, ◌∙◌, ap, Option, none, some, List, [], ◌++◌, length, take, drop, length-take,
  length-drop, take-append-drop, Str, bytes, list_eq, nat_eq, ◌!=◌, if◌then◌else◌, arith,
}
use p2p_folder_sync.Prelude.Fallible.{Fallible, returned, failed, ◌>>=◌}
use p2p_folder_sync.Messages.{EncryptedMessage}

abbrev Bytes : Type 0
Bytes = List ℕ

-- `aes.NewCipher`, `cipher.NewGCM` over it, and its `Seal` and `Open` with a key, a nonce, the text
-- and the associated data. The first two give their errors.
pub record Gcm : Type 0 where
  pub new_cipher : Bytes → Option Str
  pub new_gcm : Bytes → Option Str
  pub seal : Bytes → Bytes → Bytes → Bytes → Bytes
  pub unseal : Bytes → Bytes → Bytes → Bytes → Fallible Bytes
  pub hkdf : Bytes → Bytes → Bytes → Fallible Bytes

abbrev iv_size : ℕ
iv_size = 12

abbrev tag_size : ℕ
tag_size = 16

abbrev key_size_aes : ℕ
key_size_aes = 32

abbrev because {ℓ} : {A : Type ℓ} → Str → Fallible A → Fallible A
because text (returned a) = returned a
because text (failed cause) = failed (text ++ cause)

split_tag : Bytes → Bytes → EncryptedMessage
split_tag iv ciphertext =
    let cut = length ciphertext - tag_size in
    record { iv = iv; ciphertext = take cut ciphertext; tag = drop cut ciphertext }

module _ (gcm : Gcm) where
  -- What is done when the cipher is there.
  with_gcm : {A : Type 0} → Bytes → Fallible A → Fallible A
  with_gcm key result = elim (gcm.new_cipher key) [
    | some cause ↦ failed (bytes "failed to create cipher: " ++ cause)
    | none ↦ elim (gcm.new_gcm key) [
      | some cause ↦ failed (bytes "failed to create GCM: " ++ cause)
      | none ↦ result
    ]
  ]

  unfoldable pub encrypt : Fallible Bytes → Bytes → Bytes → Fallible EncryptedMessage
  unfolding with_gcm split_tag
  encrypt random plaintext key =
      if length key != key_size_aes
      then failed (bytes "invalid key size")
      else with_gcm key (
          because (bytes "failed to generate IV: ") random >>= λ iv.
          returned (split_tag iv (gcm.seal key iv plaintext [])))

  unfoldable pub decrypt : EncryptedMessage → Bytes → Fallible Bytes
  unfolding with_gcm
  decrypt msg key =
      if length key != key_size_aes
      then failed (bytes "invalid key size")
      else if length msg.iv != iv_size
      then failed (bytes "invalid IV size")
      else if length msg.tag != tag_size
      then failed (bytes "invalid tag size")
      else with_gcm key (
          because (bytes "failed to decrypt: ")
            (gcm.unseal key msg.iv (msg.ciphertext ++ msg.tag) []))

  unfoldable pub encrypt_aesgcm : Fallible Bytes → Bytes → Bytes → Bytes → Fallible (Bytes × Bytes)
  unfolding with_gcm
  encrypt_aesgcm random key plaintext associated_data =
      if length key != key_size_aes
      then failed (bytes "invalid key size")
      else with_gcm key (
          because (bytes "failed to generate nonce: ") random >>= λ nonce.
          returned (gcm.seal key nonce plaintext associated_data, nonce))

  unfoldable pub decrypt_aesgcm : Bytes → Bytes → Bytes → Bytes → Fallible Bytes
  unfolding with_gcm
  decrypt_aesgcm key ciphertext nonce associated_data =
      if length key != key_size_aes
      then failed (bytes "invalid key size")
      else if length nonce != iv_size
      then failed (bytes "invalid nonce size")
      else with_gcm key
          (because (bytes "failed to decrypt: ") (gcm.unseal key nonce ciphertext associated_data))

  derive_session_key : Bytes → Bytes → Bytes → Fallible Bytes
  derive_session_key shared_secret salt info =
      because (bytes "failed to derive session key: ") (gcm.hkdf shared_secret salt info)

  derive_session_key_from_nonces : Bytes → Bytes → Bytes → Fallible Bytes
  unfolding derive_session_key
  derive_session_key_from_nonces shared_secret nonce_a nonce_b =
      derive_session_key shared_secret (nonce_a ++ nonce_b)
        ((bytes "p2p-sync-session" ++ nonce_a) ++ nonce_b)

  -- What is documented of AES-GCM: a key of 32 bytes is taken, the tag of 16 bytes is appended, and
  -- what was sealed is opened again.
  pub record IsGcm : Type 0 where
    pub takes_keys : (key : Bytes) → length key ≡ key_size_aes → gcm.new_cipher key ≡ none
    pub gives_gcm : (key : Bytes) → length key ≡ key_size_aes → gcm.new_gcm key ≡ none
    pub tagged :
        (key iv plaintext associated_data : Bytes)
        → length (gcm.seal key iv plaintext associated_data) ≡ length plaintext + tag_size
    pub opens :
        (key iv plaintext associated_data : Bytes)
        → gcm.unseal key iv (gcm.seal key iv plaintext associated_data) associated_data
          ≡ returned plaintext

  with_gcm_made :
      {A : Type 0} (key : Bytes) (result : Fallible A)
      → IsGcm
      → length key ≡ key_size_aes
      → with_gcm key result ≡ result
  unfolding with_gcm
  with_gcm_made key result law size =
      ground (arith, law.takes_keys key size, law.gives_gcm key size)

  -- With a key of 32 bytes and 12 random bytes, encryption succeeds, it makes a ciphertext as long
  -- as the text with a tag of 16 bytes, and decryption with the same key gives the text back. It is
  -- assumed that AES-GCM takes such keys, appends the tag and opens what it sealed.
  pub decrypt-encrypt :
      (plaintext key iv : Bytes)
      → IsGcm
      → length key ≡ key_size_aes
      → length iv ≡ iv_size
      → (msg : EncryptedMessage) × (encrypt (returned iv) plaintext key ≡ returned msg)
        × (length msg.ciphertext ≡ length plaintext)
        × (length msg.tag ≡ tag_size)
        × (decrypt msg key ≡ returned plaintext)
  unfolding encrypt decrypt split_tag
  decrypt-encrypt plaintext key iv law size iv_sized =
      let sealed = gcm.seal key iv plaintext [] in
      let msg = split_tag iv sealed in
      let long = law.tagged key iv plaintext [] in
      let cut = length sealed - tag_size in
      let front = length-take cut sealed in
      let back = length-drop cut sealed in
      let whole = take-append-drop cut sealed in
      let opening : Bytes → Fallible Bytes =
        λ c. because (bytes "failed to decrypt: ") (gcm.unseal key iv c []) in
      let tag_sized : length msg.tag ≡ tag_size = omega (arith, long, back) in
      (
        msg,
        ground (arith, size, with_gcm_made key (returned msg) law size),
        omega (arith, long, front),
        tag_sized,
        ground (arith, size, iv_sized, tag_sized)
            ∙ with_gcm_made key (opening (msg.ciphertext ++ msg.tag)) law size
            ∙ ap opening whole
            ∙ ap (because (bytes "failed to decrypt: ")) (law.opens key iv plaintext []),
      )

  -- The same of the variant that keeps the tag in the ciphertext, with associated data.
  pub decrypt_aesgcm-encrypt_aesgcm :
      (key plaintext nonce associated_data : Bytes)
      → IsGcm
      → length key ≡ key_size_aes
      → length nonce ≡ iv_size
      → (encrypt_aesgcm (returned nonce) key plaintext associated_data >>= λ (ciphertext, used).
          decrypt_aesgcm key ciphertext used associated_data)
        ≡ returned plaintext
  unfolding encrypt_aesgcm decrypt_aesgcm
  decrypt_aesgcm-encrypt_aesgcm key plaintext nonce associated_data law size sized =
      let sealed = gcm.seal key nonce plaintext associated_data in
      let both : Fallible (Bytes × Bytes) = returned (sealed, nonce) in
      let made = with_gcm_made key both law size in
      let result : Fallible Bytes =
        because (bytes "failed to decrypt: ") (gcm.unseal key nonce sealed associated_data) in
      let read = with_gcm_made key result law size in
      ground (arith, size, sized, made, read, law.opens key nonce plaintext associated_data)
