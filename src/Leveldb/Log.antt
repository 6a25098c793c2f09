-- ===== src/Leveldb/Log.antt =====
-- leveldb/db/log_format.h, log_writer.cc and log_reader.cc: the log, its checksums and its file as
-- interfaces.
pub mod Writer
pub mod Reader
pub mod Physical
pub mod Fragments
pub mod Rounds
pub mod RoundTrip
pub mod Whole
pub mod Progress
pub mod TwoRounds
use wormholefilters.Base.{ℕ, ◌^◌, ◌<◌, ◌≡◌, Bool, List, [], ◌∷◌, ◌++◌, bit_or}

-- `crc32c::Extend` of leveldb/util/crc32c.h, whose comment gives the first law: extending the checksum
-- of a string by another gives the one of both together. It returns a `uint32_t`.
pub record Crc : Type 0 where
  pub extend : ℕ → List ℕ → ℕ
  pub extend-append : (a : ℕ) (xs ys : List ℕ) → extend (extend a xs) ys ≡ extend a (xs ++ ys)
  pub extend-lt : (a : ℕ) (xs : List ℕ) → extend a xs < 2 ^ 32

-- `crc32c::Value`
abbrev pub crc_value : Crc → List ℕ → ℕ
crc_value c xs = c.extend 0 xs

-- `RecordType`
abbrev pub zero_type : ℕ
zero_type = 0

abbrev pub full_type : ℕ
full_type = 1

abbrev pub first_type : ℕ
first_type = 2

abbrev pub middle_type : ℕ
middle_type = 3

abbrev pub last_type : ℕ
last_type = 4

abbrev pub max_record_type : ℕ
max_record_type = last_type

abbrev pub block_size : ℕ
block_size = 32768

abbrev pub header_size : ℕ
header_size = 7
