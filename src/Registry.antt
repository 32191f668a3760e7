-- ===== src/Registry.antt =====
-- internal/network/discovery/registry.go and internal/filesystem/rename_detector.go: two maps whose
-- entries age. The mutexes make each method one step; the clock is an argument.
pub mod Aging
use p2p_folder_sync.Prelude.{
  ℕ, ◌+◌, Bool, true, false, ◌&&◌, Option, none, some, List, [], ◌∷◌, length, ltb, Str, ℤ, list_eq,
  nat_eq, int_eq, ◌==◌, if◌then◌else◌,
}
use p2p_folder_sync.Prelude.Dict.{Dict, lookup, insert, erase, values}

-- The loops `for k, v := range m { if now.Sub(v.time) > age { delete(m, k) } }`.
unfoldable pub drop_old {ℓ} : {V : Type ℓ} → (V → ℕ) → ℕ → ℕ → Dict Str V → Dict Str V
drop_old time age now [] = []
drop_old time age now ((k, v) ∷ d) =
    let rest = drop_old time age now d in if ltb (time v + age) now then rest else (k, v) ∷ rest

-- `C` is the type of the capabilities, which the registry only stores.
pub record PeerInfo (C : Type 0) : Type 0 where
  pub peer_id : Str
  pub address : Str
  pub port : ℕ
  pub capabilities : C
  pub version : Str
  pub last_seen : ℕ

module _ {C : Type 0} where
  -- Whether the callbacks are notified is the flag beside the new map.
  unfoldable pub add_or_update_peer :
      ℕ → Str → Str → ℕ → C → Str → Dict Str (PeerInfo C) → Dict Str (PeerInfo C) × Bool
  add_or_update_peer now peer_id address port capabilities version peers = (
    insert peer_id
        (record {
          peer_id = peer_id;
          address = address;
          port = port;
          capabilities = capabilities;
          version = version;
          last_seen = now;
        })
        peers,
    elim (lookup peer_id peers) [ none ↦ true | some info ↦ false ],
  )

  abbrev pub get_peer : Str → Dict Str (PeerInfo C) → Option (PeerInfo C)
  get_peer = lookup

  abbrev pub get_all_peers : Dict Str (PeerInfo C) → List (PeerInfo C)
  get_all_peers = values

  abbrev pub remove_peer : Str → Dict Str (PeerInfo C) → Dict Str (PeerInfo C)
  remove_peer = erase

  abbrev pub cleanup_stale_peers : ℕ → ℕ → Dict Str (PeerInfo C) → Dict Str (PeerInfo C)
  cleanup_stale_peers = drop_old (λ info. info.last_seen)

pub record DeletedFileInfo : Type 0 where
  pub file_id : Str
  pub checksum : Str
  pub size : ℤ
  pub mtime : ℕ
  pub path : Str
  pub deleted_at : ℕ

abbrev pub Deletes : Type 0
Deletes = Dict Str DeletedFileInfo

-- `RenameDetectionTTL`, 5 seconds, in nanoseconds.
abbrev pub rename_detection_ttl : ℕ
rename_detection_ttl = 5_000_000_000

unfoldable pub record_delete : ℕ → Str → Str → Str → ℤ → ℕ → Deletes → Deletes
record_delete now file_id checksum path size mtime recent =
    insert file_id
      (record {
        file_id = file_id;
        checksum = checksum;
        size = size;
        mtime = mtime;
        path = path;
        deleted_at = now;
      })
      recent

-- `some` of the old path is a rename. The lock is released between the look-up and the deletion;
-- here nothing happens in between.
unfoldable pub check_rename : Str → Str → ℤ → Deletes → Option Str × Deletes
check_rename file_id checksum size recent = elim (lookup file_id recent) [
  | none ↦ (none, recent)
  | some deleted ↦ (
    if deleted.checksum == checksum && deleted.size == size then some deleted.path else none,
    erase file_id recent,
  )
]

abbrev pub cleanup : ℕ → Deletes → Deletes
cleanup = drop_old (λ info. info.deleted_at) rename_detection_ttl

abbrev pub recent_deletes_count : Deletes → ℕ
recent_deletes_count = length
