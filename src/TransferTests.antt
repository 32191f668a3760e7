-- ===== src/TransferTests.antt =====
-- Inputs at which the theorems on the chunk manager apply.
use p2p_folder_sync.Prelude.{◌≡◌, refl, true, false, [], ◌∷◌, bytes, pos, int_eq, list_eq, nat_eq}
use p2p_folder_sync.Prelude.Dict.{lookup, insert}
use p2p_folder_sync.Chunking.{Chunk, verify_chunk_hash}
use p2p_folder_sync.Transfer.{
  FileTransfer, Transfers, is_transfer_complete, ok, receive_chunk, get_missing_chunks,
}
use p2p_folder_sync.Transfer.Sound.{Sound, receive_chunk-Sound}

abbrev sent_chunk : Chunk
sent_chunk = record {
  file_id = bytes "f";
  chunk_id = pos 1;
  offset = 1;
  len = 1;
  data_bytes = 9 ∷ [];
  hash = 9 ∷ [];
  file_hash = 8 ∷ 9 ∷ [];
  is_last = true;
  total_chunks = pos 2;
}

receive_chunk-Sound_example : Sound (λ b. b) (receive_chunk (λ b. b) 5 sent_chunk []).1
unfolding lookup
receive_chunk-Sound_example = receive_chunk-Sound (λ b. b) 5 sent_chunk [] (λ f t e. cc)

abbrev half_sent : FileTransfer
half_sent = record {
  file_id = bytes "f";
  file_hash = [];
  total_chunks = pos 2;
  received_chunks = (pos 1, record { chunk = sent_chunk; received_at = 0; verified = true }) ∷ [];
  last_received = 0;
  retransmission_count = 0;
  complete = false;
  expected_size = pos 0;
}

-- Chunk 5, and then chunk 1 as the last: two receipts, of which one is none of the two chunks.
abbrev stray_transfers : Transfers
stray_transfers =
    let stray = record sent_chunk { chunk_id = pos 5; is_last = false } in
    (receive_chunk (λ b. b) 2 sent_chunk (receive_chunk (λ b. b) 1 stray []).1).1

complete_while_missing :
    (is_transfer_complete (bytes "f") stray_transfers ≡ true)
    × (get_missing_chunks (bytes "f") stray_transfers ≡ ok (0 ∷ []))
unfolding is_transfer_complete get_missing_chunks receive_chunk lookup insert verify_chunk_hash
    list_eq nat_eq int_eq
complete_while_missing = (refl, refl)
