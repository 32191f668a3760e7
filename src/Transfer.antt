-- ===== src/Transfer.antt =====
-- internal/chunking/manager.go. The time of a call is an argument, the digest is a parameter, and a
-- transfer that the source shares by a pointer is written back into the map it was read from.
pub mod Sound
use p2p_folder_sync.Prelude.{
  ℕ, zero, suc, ◌+◌, Bool, true, false, not, ◌&&◌, Option, none, some, List, [], ◌∷◌, length, ltb,
  Str, ℤ, pos, negsuc, ltb_ℤ, suc_ℤ, list_eq, nat_eq, int_eq, ◌==◌, if◌then◌else◌,
}
use p2p_folder_sync.Prelude.Dict.{Dict, lookup, insert, erase, has}
use p2p_folder_sync.Chunking.{Chunk, AssemblyError, verify_chunk_hash, assemble_chunks}
use p2p_folder_sync.Chunking as Chunking
use p2p_folder_sync.Buffer.{rounds, chunk_timeout}

pub record ChunkReceipt : Type 0 where
  pub chunk : Chunk
  pub received_at : ℕ
  pub verified : Bool

pub record FileTransfer : Type 0 where
  pub file_id : Str
  pub file_hash : Str
  pub total_chunks : ℤ
  pub received_chunks : Dict ℤ ChunkReceipt
  pub last_received : ℕ
  pub retransmission_count : ℕ
  pub complete : Bool
  pub expected_size : ℤ

-- The field `transfers` of a ChunkManager.
abbrev pub Transfers : Type 0
Transfers = Dict Str FileTransfer

pub data TransferError : Type 0 where
  transfer_exists transfer_not_found transfer_not_complete : TransferError
  verification_failed assembly_failed : AssemblyError → TransferError

pub data Result {ℓ} (A : Type ℓ) : Type ℓ where
  ok : A → Result A
  err : TransferError → Result A

unfoldable pub start_transfer : ℕ → Str → Str → ℤ → ℤ → Transfers → Result Transfers
start_transfer now file_id file_hash total_chunks expected_size ts =
    if has file_id ts
    then err transfer_exists
    else ok (
        insert file_id
          (record {
            file_id = file_id;
            file_hash = file_hash;
            total_chunks = total_chunks;
            received_chunks = [];
            last_received = now;
            retransmission_count = 0;
            complete = false;
            expected_size = expected_size;
          })
          ts)

-- The transfer made for the first chunk of an unknown file.
auto_created : ℕ → Str → FileTransfer
auto_created now file_id = record {
  file_id = file_id;
  file_hash = [];
  total_chunks = pos 0;
  received_chunks = [];
  last_received = now;
  retransmission_count = 0;
  complete = false;
  expected_size = pos 0;
}

transfer_for : ℕ → Str → Transfers → FileTransfer
unfolding auto_created
transfer_for now file_id ts = elim (lookup file_id ts) [
  | none ↦ auto_created now file_id
  | some t ↦ t
]

-- The chunk is stored under its id.
store_receipt : ℕ → Chunk → FileTransfer → FileTransfer
store_receipt now c t = record t {
  received_chunks =
      insert c.chunk_id (record { chunk = c; received_at = now; verified = true })
        t.received_chunks;
  last_received = now;
}

learn_total : Chunk → FileTransfer → FileTransfer
learn_total c t =
    if c.is_last then record t { total_chunks = suc_ℤ c.chunk_id; file_hash = c.file_hash } else t

mark_complete : FileTransfer → FileTransfer
mark_complete t =
    if ltb_ℤ (pos 0) t.total_chunks && (pos (length t.received_chunks) == t.total_chunks)
    then record t { complete = true }
    else t

module _ (hash : List ℕ → Str) where
  -- What a chunk does to its transfer: the error, if any, and the transfer.
  receive_into : ℕ → Chunk → FileTransfer → Option TransferError × FileTransfer
  unfolding store_receipt learn_total mark_complete
  receive_into now c t =
      if has c.chunk_id t.received_chunks then (none, t) else elim (verify_chunk_hash hash c) [
        | Chunking.err e ↦ (some (verification_failed e), t)
        | Chunking.ok _ ↦ (none, mark_complete (learn_total c (store_receipt now c t)))
      ]

  -- A transfer that was made for the chunk stays when the chunk is refused.
  unfoldable pub receive_chunk : ℕ → Chunk → Transfers → Option TransferError × Transfers
  unfolding receive_into transfer_for
  receive_chunk now c ts =
      let result = receive_into now c (transfer_for now c.file_id ts) in
      (result.0, insert c.file_id result.1 ts)

  chunks_of : Dict ℤ ChunkReceipt → List Chunk
  chunks_of [] = []
  chunks_of ((_, r) ∷ d) = r.chunk ∷ chunks_of d

  unfoldable pub assemble_file : Str → Transfers → Result (List ℕ)
  unfolding chunks_of
  assemble_file file_id ts = elim (lookup file_id ts) [
    | none ↦ err transfer_not_found
    | some t ↦
        if not t.complete
        then err transfer_not_complete
        else elim (assemble_chunks hash (chunks_of t.received_chunks) t.file_hash) [
          | Chunking.err e ↦ err (assembly_failed e)
          | Chunking.ok contents ↦ ok contents
        ]
  ]

unfoldable pub is_transfer_complete : Str → Transfers → Bool
is_transfer_complete file_id ts = elim (lookup file_id ts) [ none ↦ false | some t ↦ t.complete ]

missing_receipts : Dict ℤ ChunkReceipt → ℕ → ℕ → List ℕ
missing_receipts received zero i = []
missing_receipts received (suc n) i =
    let rest = missing_receipts received n (suc i) in
    if has (pos i) received then rest else i ∷ rest

-- A nil slice, returned while the number of chunks is not known, is the empty list.
unfoldable pub get_missing_chunks : Str → Transfers → Result (List ℕ)
unfolding missing_receipts
get_missing_chunks file_id ts = elim (lookup file_id ts) [
  | none ↦ err transfer_not_found
  | some t ↦
      if t.total_chunks == pos 0
      then ok []
      else ok (missing_receipts t.received_chunks (rounds t.total_chunks) 0)
]

overdue : ℕ → FileTransfer → Bool
overdue now t =
    if t.complete
    then false
    else if ltb_ℤ (pos 0) t.total_chunks && ltb_ℤ (pos (length t.received_chunks)) t.total_chunks
    then ltb (t.last_received + chunk_timeout) now
    else false

unfoldable pub has_timed_out : ℕ → Str → Transfers → Bool
unfolding overdue
has_timed_out now file_id ts = elim (lookup file_id ts) [ none ↦ false | some t ↦ overdue now t ]

unfoldable pub increment_retransmission_count : Str → Transfers → Result Transfers
increment_retransmission_count file_id ts = elim (lookup file_id ts) [
  | none ↦ err transfer_not_found
  | some t ↦ ok (insert file_id (record t { retransmission_count = suc t.retransmission_count }) ts)
]

unfoldable pub get_retransmission_count : Str → Transfers → ℕ
get_retransmission_count file_id ts = elim (lookup file_id ts) [
  | none ↦ 0
  | some t ↦ t.retransmission_count
]

unfoldable pub cleanup_transfer : Str → Transfers → Transfers
cleanup_transfer file_id ts = erase file_id ts

unfoldable pub get_transfer_status : Str → Transfers → Result (ℕ × (ℤ × Bool))
get_transfer_status file_id ts = elim (lookup file_id ts) [
  | none ↦ err transfer_not_found
  | some t ↦ ok (length t.received_chunks, (t.total_chunks, t.complete))
]
