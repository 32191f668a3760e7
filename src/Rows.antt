-- ===== src/Rows.antt =====
-- internal/database: the row types of files.go and operations.go. A time is its milliseconds since
-- 1970.
use p2p_folder_sync.Prelude.{
  zero, suc, ◌%◌, ◌^◌, ◌-◌, ◌<◌, ◌≡◌, ◌==◌, ◌||◌, ◌&&◌, nat_eq, ltb, int64_min, if◌then◌else◌,
  arith, ℕ, Bool, Option, List, Str, ℤ, pos, negsuc, ◌+◌, ◌*◌, ◌/◌,
}
use p2p_folder_sync.VectorClock.{VectorClock}

-- `time.Time{}`, the first of January of the year 1.
abbrev pub zero_time : ℤ
zero_time = negsuc 62_135_596_799_999

-- `Unix()`, the whole seconds of a time, and `time.Unix(·, 0)`.
unfoldable pub unix : ℤ → ℤ
unix (pos n) = pos (n / 1000)
unix (negsuc n) = negsuc (n / 1000)

unfoldable pub of_unix : ℤ → ℤ
of_unix (pos n) = pos (n * 1000)
of_unix (negsuc n) = negsuc (n * 1000 + 999)

-- The multiple of `u` that is nearest to `n`, the even one of two.
nearest : ℕ → ℕ → ℕ
nearest u n =
    let q = n / u in
    let r = n % u in if ltb u (2 * r) || (u == 2 * r && q % 2 == 1) then (q + 1) * u else q * u

-- Units of 1, 2, 4 and so on, until 53 bits hold the number; `doublings` of them are left.
float_from : ℕ → ℕ → ℕ → ℕ
unfolding nearest
float_from zero u n = nearest u n
float_from (suc doublings) u n =
    let wider = float_from doublings (2 * u) n in if ltb n (2 ^ 53 * u) then nearest u n else wider

-- An int64 that a REAL column or `rows.Scan` turns into a float64, and int64(·) of that. A float of 2^63
-- or more becomes the least int64, as on amd64. 11 doublings reach 2^64.
unfoldable pub as_float : ℤ → ℤ
unfolding float_from
as_float (pos n) = let m = float_from 11 1 n in if ltb m (2 ^ 63) then pos m else int64_min
as_float (negsuc n) = negsuc (float_from 11 1 (suc n) - 1)

nearest_one : (n : ℕ) → nearest 1 n ≡ n
unfolding nearest
nearest_one n = ground arith

-- Below 2^53 nothing is lost.
as_float_exact : (n : ℕ) → n < 2 ^ 53 → as_float (pos n) ≡ pos n
unfolding as_float float_from
as_float_exact n h = ground (arith, nearest_one n)

pub record FileMetadata : Type 0 where
  pub file_id : Str
  pub path : Str
  pub checksum : Str
  pub size : ℤ
  pub mtime : ℤ
  pub mode : Option ℕ
  pub peer_id : Str
  pub vector_clock : Option VectorClock
  pub compressed : Bool
  pub original_size : Option ℤ
  pub compression_algorithm : Option Str
  pub created_at : ℤ
  pub updated_at : ℤ

pub record LogEntry : Type 0 where
  pub sequence : ℕ
  pub operation_id : Str
  pub timestamp : ℤ
  pub operation_type : Str
  pub peer_id : Str
  pub vector_clock : Option VectorClock
  pub acknowledged : Bool
  pub persisted : Bool
  pub file_id : Option Str
  pub path : Str
  pub from_path : Option Str
  pub checksum : Option Str
  pub size : Option ℤ
  pub mtime : Option ℤ
  pub mode : Option ℕ
  pub chunk_count : ℤ
  pub data_bytes : List ℕ
  pub compressed : Bool
  pub original_size : Option ℤ
  pub compression_algorithm : Option Str
