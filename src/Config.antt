-- ===== src/Config.antt =====
-- internal/config/config.go: the configuration and its validation. The folder is probed and the
-- environment is read by the operating system, so what they answer is a parameter.
pub mod Valid
use p2p_folder_sync.Prelude.{
  ℕ, Bool, true, not, ◌&&◌, ◌||◌, Option, none, some, List, [], ◌++◌, Str, bytes, ℤ, pos, ltb_ℤ,
  list_eq, nat_eq, int_eq, ◌==◌, ◌!=◌, if◌then◌else◌,
}

pub record SyncConfig : Type 0 where
  pub folder_path : Str
  pub chunk_size_min : ℤ
  pub chunk_size_max : ℤ
  pub chunk_size_default : ℤ
  pub max_concurrent_transfers : ℤ
  pub operation_log_size : ℤ
  pub state_sync_interval : ℤ

pub record NetworkConfig : Type 0 where
  pub port : ℤ
  pub discovery_port : ℤ
  pub protocol : Str
  pub heartbeat_interval : ℤ
  pub connection_timeout : ℤ
  pub peers : List Str

pub record SecurityConfig : Type 0 where
  pub key_rotation_interval : ℤ
  pub encryption_algorithm : Str

pub record CompressionConfig : Type 0 where
  pub enabled : Bool
  pub file_size_threshold : ℤ
  pub algorithm : Str
  pub level : ℤ
  pub chunk_compression : Bool

pub record ObservabilityConfig : Type 0 where
  pub otel_endpoint : Str
  pub log_level : Str
  pub metrics_enabled : Bool
  pub tracing_enabled : Bool

pub record Config : Type 0 where
  pub sync : SyncConfig
  pub network : NetworkConfig
  pub security : SecurityConfig
  pub compression : CompressionConfig
  pub resolution_strategy : Str
  pub observability : ObservabilityConfig

-- What is found at the folder's path, and the outcome of creating the folder and of writing to it.
pub data Stat : Type 0 where
  missing : Stat
  inaccessible : Str → Stat
  found : Bool → Stat

pub record Folder : Type 0 where
  pub stat : Str → Stat
  pub mkdir_error : Str → Option Str
  pub write_error : Str → Option Str

abbrev pub default_config : Config
default_config = record {
  sync = record {
    folder_path = bytes "/tmp/p2p-sync";
    chunk_size_min = pos 65536;
    chunk_size_max = pos 2097152;
    chunk_size_default = pos 524288;
    max_concurrent_transfers = pos 5;
    operation_log_size = pos 10000;
    state_sync_interval = pos 0;
  };
  network = record {
    port = pos 8080;
    discovery_port = pos 8081;
    protocol = bytes "quic";
    heartbeat_interval = pos 30;
    connection_timeout = pos 60;
    peers = [];
  };
  security = record {
    key_rotation_interval = pos 86400;
    encryption_algorithm = bytes "aes-256-gcm";
  };
  compression = record {
    enabled = true;
    file_size_threshold = pos 1048576;
    algorithm = bytes "zstd";
    level = pos 3;
    chunk_compression = true;
  };
  resolution_strategy = bytes "intelligent_merge";
  observability = record {
    otel_endpoint = [];
    log_level = bytes "info";
    metrics_enabled = true;
    tracing_enabled = true;
  };
}

-- The test `x < lo || x > hi` of the code.
outside : ℤ → ℕ → ℕ → Bool
outside x lo hi = ltb_ℤ x (pos lo) || ltb_ℤ (pos hi) x

-- The first error, or what comes after it.
guard : Bool → Str → Option Str → Option Str
guard bad error rest = if bad then some error else rest

validate_folder : Folder → Str → Option Str
validate_folder folder path = elim (folder.stat path) [
  | missing ↦ elim (folder.mkdir_error path) [
    | none ↦ none
    | some cause ↦ some (bytes "cannot create sync folder: " ++ cause)
  ]
  | inaccessible cause ↦ some (bytes "cannot access sync folder: " ++ cause)
  | found is_dir ↦ if is_dir then none else some (bytes "sync folder path is not a directory")
]

validate_writable : Folder → Str → Option Str
validate_writable folder path = elim (folder.write_error path) [
  | none ↦ none
  | some cause ↦ some (bytes "sync folder is not writable: " ++ cause)
]

validate_sync : SyncConfig → Option Str
unfolding guard outside
validate_sync c =
    guard (outside c.chunk_size_min 4096 1048576)
      (bytes "chunk_size_min must be between 4096 and 1048576 bytes")
      (guard (outside c.chunk_size_max 1048576 10485760)
        (bytes "chunk_size_max must be between 1048576 and 10485760 bytes")
        (guard
          (ltb_ℤ c.chunk_size_default c.chunk_size_min
            || ltb_ℤ c.chunk_size_max c.chunk_size_default)
          (bytes "chunk_size_default must be between chunk_size_min and chunk_size_max")
          (guard (outside c.max_concurrent_transfers 1 20)
            (bytes "max_concurrent_transfers must be between 1 and 20") none)))

bad_port : ℤ → Bool
unfolding outside
bad_port port = port != pos 0 && outside port 1024 65535

validate_network : NetworkConfig → Option Str
unfolding guard bad_port
validate_network c =
    guard (bad_port c.port) (bytes "network.port must be 0 or between 1024 and 65535") (
      guard (bad_port c.discovery_port)
        (bytes "network.discovery_port must be 0 or between 1024 and 65535")
        (guard (c.protocol != bytes "quic" && (c.protocol != bytes "tcp" && c.protocol != []))
          (bytes "network.protocol must be 'quic', 'tcp', or empty (defaults to quic)") none))

-- `testing` is whether the variable P2P_TESTING_MODE is "true".
validate_security : Bool → SecurityConfig → Option Str
unfolding guard outside
validate_security testing c =
    if testing
    then guard (outside c.key_rotation_interval 1 604800)
        (bytes "key_rotation_interval must be between 1 and 604800 seconds (test mode)") none
    else guard (outside c.key_rotation_interval 3600 604800)
        (bytes "key_rotation_interval must be between 3600 and 604800 seconds") none

validate_level : CompressionConfig → Option Str
unfolding guard outside
validate_level c =
    if c.algorithm == bytes "zstd"
    then guard (outside c.level 1 22) (bytes "zstd level must be between 1 and 22") none
    else if c.algorithm == bytes "lz4"
    then guard (outside c.level 1 16) (bytes "lz4 level must be between 1 and 16") none
    else if c.algorithm == bytes "gzip"
    then guard (outside c.level 1 9) (bytes "gzip level must be between 1 and 9") none
    else guard (c.algorithm != bytes "none")
        (bytes "compression algorithm must be one of: zstd, lz4, gzip, none") none

validate_compression : CompressionConfig → Option Str
unfolding guard outside validate_level
validate_compression c =
    if not c.enabled
    then none
    else guard (outside c.file_size_threshold 1024 1073741824)
        (bytes "file_size_threshold must be between 1024 and 1073741824 bytes") (validate_level c)

validate_observability : ObservabilityConfig → Option Str
unfolding guard
validate_observability c =
    guard
      (c.log_level != bytes "debug"
        && (c.log_level != bytes "info"
            && (c.log_level != bytes "warn" && c.log_level != bytes "error")))
      (bytes "log_level must be one of: debug, info, warn, error") none

-- The code's sequence of checks: the error of the first one that fails.
then_check : Option Str → Option Str → Option Str
then_check (some error) rest = some error
then_check none rest = rest

prefixed : Str → Option Str → Option Str
prefixed text (some error) = some (text ++ error)
prefixed text none = none

unfoldable pub validate : Folder → Bool → Config → Option Str
unfolding guard validate_folder validate_writable validate_sync validate_network validate_security
    validate_compression validate_observability then_check prefixed
validate folder testing c =
    guard (c.sync.folder_path == []) (bytes "sync.folder_path is required") (
      then_check (validate_folder folder c.sync.folder_path) (
        then_check (validate_writable folder c.sync.folder_path) (
          then_check (validate_sync c.sync) (
            then_check (validate_network c.network) (
              then_check (validate_security testing c.security) (
                then_check
                  (prefixed (bytes "compression config: ") (validate_compression c.compression))
                  (validate_observability c.observability)))))))
