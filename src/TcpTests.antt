-- ===== src/TcpTests.antt =====
-- Inputs at which the theorems on the TCP transport and on encryption apply.
use p2p_folder_sync.Prelude.{
  ℕ, ◌+◌, ◌-◌, ◌∙◌, ap, ◌++◌, length, length-append, replicate, take, take-append_self, ◌≡◌, ◌≢◌,
  refl, true, none, some, List, [], ◌∷◌, Str, bytes, pos, list_eq, nat_eq, arith,
}
use p2p_folder_sync.Prelude.Dict.{lookup, insert}
use p2p_folder_sync.Prelude.Fallible.{Fallible, returned, failed}
use p2p_folder_sync.Messages.{Message, EncryptedMessage, json_object, type_handshake, type_chunk}
use p2p_folder_sync.Connection.{
  Connections, add_connection, update_connection_state, get_session_key,
}
use p2p_folder_sync.Tcp.{
  Digests, Wire, Tcp, Moment, done, Session, handshake_message, serve, register,
}
use p2p_folder_sync.Tcp.Sending.{get_or_create_connection}
use p2p_folder_sync.Tcp.Keys.{fresh, keys_agree}
use p2p_folder_sync.Tcp.Serving.{reply, Answers, serve-Answers}
use p2p_folder_sync.Tcp.Opening.{failed_socket_returned}
use p2p_folder_sync.Encryption.{Gcm, IsGcm, encrypt, decrypt, decrypt-encrypt}

abbrev digests : Digests
digests = record { sha256 = λ b. b; hkdf = λ secret salt info. returned secret }

abbrev moment : Moment
moment = record { at = 9; stamp = record { fresh_id = bytes "m"; now = pos 9 } }

abbrev hello_from : Str → Message
hello_from peer_id = record {
  id = bytes "h";
  type = type_handshake;
  timestamp = pos 1;
  sender_id = peer_id;
  payload = json_object;
  correlation_id = none;
}

-- A network that keeps what was sent, and whose peer gives the answer, if it gives one.
abbrev wire : Fallible Message → Wire (List Message)
wire answer = record {
  resolve = λ address port. returned address;
  dial = λ addr net. (returned 7, net);
  encode = λ conn msg net. (none, msg ∷ net);
  decode = λ conn net. (answer, net);
  close = λ conn net. net;
  remote = λ conn. (bytes "host", 1);
  handler = none;
}

abbrev answering : Wire (List Message)
answering = wire (returned (hello_from (bytes "bob")))

abbrev silent : Wire (List Message)
silent = wire (failed (bytes "timeout"))

abbrev tcp : Str → Tcp (List Message)
tcp peer_id = record {
  local_peer_id = peer_id;
  connections = [];
  handshakes_sent = [];
  conn_manager = some [];
  events = [];
  net = [];
}

keys_agree_example :
    let t = tcp (bytes "alice") in
    let u = tcp (bytes "bob") in
    (s : Session) × (s' : Session) × (t' : Tcp (List Message)) × (u' : Tcp (List Message))
    × (cs' : Connections) × (ds' : Connections) × (serve digests silent 7 moment
          (hello_from (bytes "bob"))
          fresh
          t
        ≡ done (s, t'))
    × (serve digests silent 8 moment (hello_from (bytes "alice")) fresh u ≡ done (s', u'))
    × (t'.conn_manager ≡ some cs')
    × (u'.conn_manager ≡ some ds')
    × (get_session_key (bytes "bob") cs' ≡ get_session_key (bytes "alice") ds')
    × (get_session_key (bytes "bob") cs' ≢ none)
keys_agree_example =
    keys_agree digests silent silent 7 8 moment moment (hello_from (bytes "bob"))
      (hello_from (bytes "alice")) (tcp (bytes "alice")) (tcp (bytes "bob")) [] [] refl refl
      (λ h. absurd (ground (arith, h))) (λ h. absurd (ground (arith, h))) (refl, refl) (refl, refl)

abbrev chunk_from_bob : Message
chunk_from_bob = record (hello_from (bytes "bob")) { type = type_chunk }

serve-Answers_example :
    Answers digests silent 7 moment chunk_from_bob fresh (tcp (bytes "alice"))
    × Answers digests silent 8 moment
        (reply moment.stamp chunk_from_bob none)
        fresh
        (tcp (bytes "bob"))
serve-Answers_example =
    serve-Answers digests silent 7 moment chunk_from_bob fresh (tcp (bytes "alice")) 8 moment none
      fresh (tcp (bytes "bob")) (λ h. absurd (ground (arith, h)))

failed_socket_returned_example :
    let t' : Tcp (List Message) =
      record (register 9 (bytes "bob") (bytes "host") 1 (tcp (bytes "alice"))) {
        connections = (bytes "bob", 7) ∷ [];
        handshakes_sent = (bytes "bob", true) ∷ [];
        net = handshake_message moment.stamp (bytes "alice") ∷ [];
      } in
    get_or_create_connection digests silent moment (bytes "bob") (bytes "host") 1 t'
    ≡ done (returned 7, t')
unfolding lookup get_or_create_connection list_eq update_connection_state add_connection insert
    nat_eq
failed_socket_returned_example =
    failed_socket_returned digests silent moment moment (bytes "bob") (bytes "host") 1
      (tcp (bytes "alice")) _ (bytes "host") 7 _ refl refl refl refl

-- A cipher that hides nothing.
abbrev clear : Gcm
clear = record {
  new_cipher = λ key. none;
  new_gcm = λ key. none;
  seal = λ key iv plaintext associated_data. plaintext ++ replicate 16 0;
  unseal = λ key iv ciphertext associated_data. returned (take (length ciphertext - 16) ciphertext);
  hkdf = λ secret salt info. returned secret;
}

clear_tagged : (plaintext : List ℕ) → length (plaintext ++ replicate 16 0) ≡ length plaintext + 16
clear_tagged plaintext = length-append plaintext (replicate 16 0)

clear-IsGcm : IsGcm clear
clear-IsGcm = record {
  takes_keys = λ key size. refl;
  gives_gcm = λ key size. refl;
  tagged = λ key iv plaintext associated_data. clear_tagged plaintext;
  opens = λ key iv plaintext associated_data.
      let long = clear_tagged plaintext in
      ap (λ n. returned (take n (plaintext ++ replicate 16 0))) (omega (arith, long))
      ∙ ap returned (take-append_self plaintext (replicate 16 0));
}

decrypt-encrypt_example :
    (msg : EncryptedMessage) × (encrypt clear
        (returned (replicate 12 7))
        (1 ∷ 2 ∷ [])
        (replicate 32 5)
      ≡ returned msg)
    × (length msg.ciphertext ≡ 2)
    × (length msg.tag ≡ 16)
    × (decrypt clear msg (replicate 32 5) ≡ returned (1 ∷ 2 ∷ []))
decrypt-encrypt_example =
    decrypt-encrypt clear (1 ∷ 2 ∷ []) (replicate 32 5) (replicate 12 7) clear-IsGcm refl refl
