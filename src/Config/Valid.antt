-- ===== src/Config/Valid.antt =====
-- internal/config/config.go: what a configuration that passes the validation is.
use p2p_folder_sync.Prelude.{
  ◌≡◌, refl, ◌⊎◌, ◌↔◌, inl, inr, ◌≢◌, Bool, true, false, Option, Option-cases, none, some, List, [],
  ℕ, ◌+◌, ◌^◌, length, Str, bytes, ◌≤◌, negsuc, ℤ, pos, ◌≤ℤ◌, list_eq, nat_eq, int_eq, ◌==◌, arith,
  if◌then◌else◌,
}
use mathlib.Core.List.Perm
use p2p_folder_sync.Chunking.{Chunk, chunk_file, assemble_chunks, ok}
use p2p_folder_sync.Chunking.Split.{chunk_file-Covers}
use p2p_folder_sync.Chunking.Assembly.{assemble-chunk_file}
use p2p_folder_sync.Config.{
  SyncConfig, NetworkConfig, SecurityConfig, CompressionConfig, ObservabilityConfig, Config, Folder,
  Stat, missing, inaccessible, found, outside, guard, bad_port, validate_folder, validate_writable,
  validate_sync, validate_network, validate_security, validate_level, validate_compression,
  validate_observability, then_check, prefixed, validate,
}

abbrev Within : ℤ → ℕ → ℕ → Type 0
Within x lo hi = (pos lo ≤ℤ x) × (x ≤ℤ pos hi)

pub record SyncBounds (c : SyncConfig) : Type 0 where
  pub smallest : Within c.chunk_size_min 4096 1048576
  pub largest : Within c.chunk_size_max 1048576 10485760
  pub at_least : c.chunk_size_min ≤ℤ c.chunk_size_default
  pub at_most : c.chunk_size_default ≤ℤ c.chunk_size_max
  pub transfers : Within c.max_concurrent_transfers 1 20

outside-Within : (x : ℤ) (lo hi : ℕ) → (outside x lo hi ≡ false) ↔ Within x lo hi
unfolding outside
outside-Within x lo hi = (λ e. ground (arith, e), λ w. ground (arith, w))

guard-none :
    (bad : Bool) (error : Str) (rest : Option Str)
    → (guard bad error rest ≡ none) ↔ ((bad ≡ false) × (rest ≡ none))
unfolding guard
guard-none bad error rest = (λ e. ground (arith, e), λ w. ground (arith, w))

then_check-none : (a b : Option Str) → (then_check a b ≡ none) ↔ ((a ≡ none) × (b ≡ none))
unfolding then_check
then_check-none none b = (λ e. (refl, e), λ w. w.1)
then_check-none (some error) b = (λ e. cc, λ w. cc)

sync_bounds : (c : SyncConfig) → (validate_sync c ≡ none) ↔ SyncBounds c
unfolding validate_sync guard outside
sync_bounds c = (
  λ e. record {
    smallest = ground (arith, e);
    largest = ground (arith, e);
    at_least = ground (arith, e);
    at_most = ground (arith, e);
    transfers = ground (arith, e);
  },
  λ w. ground (arith, w.smallest, w.largest, w.at_least, w.at_most, w.transfers),
)

-- The folder is there or can be made, and it can be written to.
abbrev pub IsUsable : Folder → Str → Type 0
IsUsable folder path =
    ((folder.stat path ≡ found true)
      ⊎ ((folder.stat path ≡ missing) × (folder.mkdir_error path ≡ none)))
    × (folder.write_error path ≡ none)

abbrev pub IsPort : ℤ → Type 0
IsPort port = (port ≡ pos 0) ⊎ Within port 1024 65535

abbrev pub NetworkBounds : NetworkConfig → Type 0
NetworkBounds c =
    IsPort c.port
    × IsPort c.discovery_port
    × ((c.protocol ≡ bytes "quic") ⊎ ((c.protocol ≡ bytes "tcp") ⊎ (c.protocol ≡ [])))

-- The level that each algorithm takes.
abbrev pub LevelBounds : CompressionConfig → Type 0
LevelBounds c =
    ((c.algorithm ≡ bytes "zstd") × Within c.level 1 22)
    ⊎ (((c.algorithm ≡ bytes "lz4") × Within c.level 1 16)
        ⊎ (((c.algorithm ≡ bytes "gzip") × Within c.level 1 9) ⊎ (c.algorithm ≡ bytes "none")))

abbrev pub CompressionBounds : CompressionConfig → Type 0
CompressionBounds c =
    (c.enabled ≡ false) ⊎ (Within c.file_size_threshold 1024 1073741824 × LevelBounds c)

abbrev pub IsLogLevel : Str → Type 0
IsLogLevel level =
    (level ≡ bytes "debug")
    ⊎ ((level ≡ bytes "info") ⊎ ((level ≡ bytes "warn") ⊎ (level ≡ bytes "error")))

network_bounds : (c : NetworkConfig) → (validate_network c ≡ none) ↔ NetworkBounds c
unfolding validate_network guard bad_port outside
network_bounds c = (λ e. ground (arith, e), λ w. ground (arith, w))

key_rotation :
    (testing : Bool) (c : SecurityConfig)
    → (validate_security testing c ≡ none)
      ↔ Within c.key_rotation_interval (if testing then 1 else 3600) 604800
unfolding validate_security guard outside
key_rotation true c = (λ e. ground (arith, e), λ w. ground (arith, w))
key_rotation false c = (λ e. ground (arith, e), λ w. ground (arith, w))

compression_bounds : (c : CompressionConfig) → (validate_compression c ≡ none) ↔ CompressionBounds c
unfolding validate_compression validate_level guard outside
compression_bounds c = (λ e. ground (arith, e), λ w. ground (arith, w))

log_level : (c : ObservabilityConfig) → (validate_observability c ≡ none) ↔ IsLogLevel c.log_level
unfolding validate_observability guard
log_level c = (λ e. ground (arith, e), λ w. ground (arith, w))

Stat-cases :
    (s : Stat)
    → (s ≡ missing)
      ⊎ (((cause : Str) × (s ≡ inaccessible cause)) ⊎ ((s ≡ found true) ⊎ (s ≡ found false)))
Stat-cases missing = inl refl
Stat-cases (inaccessible cause) = inr (inl (cause, refl))
Stat-cases (found true) = inr (inr (inl refl))
Stat-cases (found false) = inr (inr (inr refl))

folder_there :
    (folder : Folder) (path : Str)
    → (validate_folder folder path ≡ none) ↔ (
        (folder.stat path ≡ found true)
        ⊎ ((folder.stat path ≡ missing) × (folder.mkdir_error path ≡ none)))
unfolding validate_folder
folder_there folder path = elim (Stat-cases (folder.stat path)) [
  | inl gone ↦ (elim (Option-cases (folder.mkdir_error path)) [
    | inl made ↦ (λ e. inr (gone, made), λ w. ground (arith, gone, made))
    | inr (_, not_made) ↦
        (λ e. ground (arith, e, gone, not_made), λ w. ground (arith, w, gone, not_made))
  ])
  | inr (inl (_, locked)) ↦ (λ e. ground (arith, e, locked), λ w. ground (arith, w, locked))
  | inr (inr (inl is_dir)) ↦ (λ e. inl is_dir, λ w. ground (arith, is_dir))
  | inr (inr (inr no_dir)) ↦ (λ e. ground (arith, e, no_dir), λ w. ground (arith, w, no_dir))
]

writable :
    (folder : Folder) (path : Str)
    → (validate_writable folder path ≡ none) ↔ (folder.write_error path ≡ none)
unfolding validate_writable
writable folder path = elim (Option-cases (folder.write_error path)) [
  | inl fine ↦ (λ e. fine, λ w. ground (arith, w))
  | inr (_, bad) ↦ (λ e. ground (arith, e, bad), λ w. ground (arith, w, bad))
]

prefixed-none : (text : Str) (error : Option Str) → (prefixed text error ≡ none) ↔ (error ≡ none)
unfolding prefixed
prefixed-none text none = (λ e. refl, λ e. refl)
prefixed-none text (some error) = (λ e. cc, λ e. cc)

compression_checked :
    (c : CompressionConfig)
    → (prefixed (bytes "compression config: ") (validate_compression c) ≡ none)
      ↔ CompressionBounds c
compression_checked c =
    let p = prefixed-none (bytes "compression config: ") (validate_compression c) in
    let b = compression_bounds c in (λ e. b.0 (p.0 e), λ w. p.1 (b.1 w))

-- A configuration that the program can run with, on this folder.
pub record IsValid (folder : Folder) (testing : Bool) (c : Config) : Type 0 where
  pub folder_named : c.sync.folder_path ≢ []
  pub folder_usable : IsUsable folder c.sync.folder_path
  pub sync_bounded : SyncBounds c.sync
  pub network_bounded : NetworkBounds c.network
  pub rotation_bounded :
      Within c.security.key_rotation_interval (if testing then 1 else 3600) 604800
  pub compression_bounded : CompressionBounds c.compression
  pub level_known : IsLogLevel c.observability.log_level

-- Both conditions of a check and of what follows it.
check_then :
    {A B : Type 0} (a b : Option Str)
    → (a ≡ none) ↔ A
    → (b ≡ none) ↔ B
    → (then_check a b ≡ none) ↔ (A × B)
check_then a b first rest = (
  λ e. let both = (then_check-none a b).0 e in (first.0 both.0, rest.0 both.1),
  λ w. (then_check-none a b).1 (first.1 w.0, rest.1 w.1),
)

-- The validation accepts a configuration exactly when it is valid: the folder has a name, is there
-- or can be made, and can be written to; the chunk sizes, the number of transfers, the ports,
-- the key rotation and the compression level are in their ranges, which depend on the test
-- mode and on the algorithm; protocol, algorithm and log level are among those that are known.
pub validate-iff-IsValid :
    (folder : Folder) (testing : Bool) (c : Config)
    → (validate folder testing c ≡ none) ↔ IsValid folder testing c
unfolding validate
validate-iff-IsValid folder testing c =
    let rest = check_then _ _ (folder_there folder c.sync.folder_path) (
      check_then _ _ (writable folder c.sync.folder_path) (
        check_then _ _ (sync_bounds c.sync) (
          check_then _ _ (network_bounds c.network) (
            check_then _ _ (key_rotation testing c.security) (
              check_then _ _ (compression_checked c.compression) (log_level c.observability)))))) in
    (
      λ e.
          let both = (guard-none (c.sync.folder_path == []) _ _).0 e in
          let (there, (write, (sizes, (net, (rotation, (compressed, level)))))) = rest.0 both.1 in
          record {
            folder_named = ground (arith, both.0);
            folder_usable = (there, write);
            sync_bounded = sizes;
            network_bounded = net;
            rotation_bounded = rotation;
            compression_bounded = compressed;
            level_known = level;
          },
      λ w. (guard-none (c.sync.folder_path == []) _ _).1 (
        ground (arith, w.folder_named),
        rest.1 (
          w.folder_usable.0,
          (
            w.folder_usable.1,
            (
              w.sync_bounded,
              (w.network_bounded, (w.rotation_bounded, (w.compression_bounded, w.level_known))),
            ),
          ),
        ),
      ),
    )

sized :
    (c : SyncConfig)
    → SyncBounds c
    → (k : ℕ) × (c.chunk_size_default ≡ pos k) × (4096 ≤ k) × (k ≤ 10485760)
sized c b =
    natural c.chunk_size_default (ground (arith, b.smallest, b.at_least))
      (ground (arith, b.largest, b.at_most))
  where
    natural :
        (x : ℤ)
        → pos 4096 ≤ℤ x
        → x ≤ℤ pos 10485760
        → (k : ℕ) × (x ≡ pos k) × (4096 ≤ k) × (k ≤ 10485760)
    natural (pos k) lo hi = (k, refl, ground (arith, lo), ground (arith, hi))
    natural (negsuc k) lo hi = ground (arith, lo)

-- Under a valid configuration the chunk size lies between 4096 and 10485760, and with it any file
-- splits into chunks that assemble into the file again, up to a length of 2^63 - 10485760 bytes.
validated_splits :
    (folder : Folder) (testing : Bool) (c : Config) (hash : List ℕ → Str) (file_id : Str)
    (contents : List ℕ)
    → validate folder testing c ≡ none
    → length contents + 10485760 ≤ 2 ^ 63
    → (k : ℕ) × (c.sync.chunk_size_default ≡ pos k)
      × (4096 ≤ k)
      × (k ≤ 10485760)
      × (cs : List Chunk) × (chunk_file hash k file_id contents ≡ some cs)
      × (assemble_chunks hash cs (hash contents) ≡ ok contents)
validated_splits folder testing c hash file_id contents accepted small =
    let valid = (validate-iff-IsValid folder testing c).0 accepted in
    let (k, is_k, lo, hi) = sized c.sync valid.sync_bounded in
    let (cs, made_of, _, _, _) =
      chunk_file-Covers hash k file_id contents (omega (arith, lo)) (omega (arith, hi)) in
    (
      k,
      is_k,
      lo,
      hi,
      cs,
      made_of,
      assemble-chunk_file hash k file_id contents cs cs (omega (arith, lo)) (omega (arith, hi))
          made_of (Perm.refl cs),
    )
