-- ===== src/Leveldb/Bloom.antt =====
-- leveldb/util/bloom.cc: the Bloom filter as a filter policy of LevelDB.
pub mod Laws
use wormholefilters.Base.{
  ℕ, zero, suc, ◌+◌, ◌-◌, ◌*◌, ◌/◌, ◌%◌, ◌^◌, Bool, true, false, List, [], ◌∷◌, ◌++◌, ◌==◌, ltb,
  if◌then◌else◌, u32, u64, ◌<<<◌, ◌>>>◌, bit_and, bit_or, length, replicate, byte_at, set,
}
use Prim.Native.Nat.{min, max}
use wormholefilters.Leveldb.Hash.{hash, sign_extend}

unfoldable pub bloom_hash : List ℕ → ℕ
bloom_hash key = hash key 0xbc9f1d34

-- The members of `BloomFilterPolicy`.
pub record BloomFilterPolicy : Type 0 where
  pub bits_per_key : ℕ
  pub k : ℕ

-- The constructor, for an argument that is not negative. The double product is exact enough:
-- up to 43 it is no integer, and from 44 on `k_` is 30.
unfoldable pub new_policy : ℕ → BloomFilterPolicy
new_policy bits_per_key = record {
  bits_per_key = bits_per_key;
  k = min 30 (max 1 (bits_per_key * 69 / 100));
}

-- "Rotate right 17 bits"
unfoldable pub rotate17 : ℕ → ℕ
rotate17 h = bit_or (h >>> 17) (u32 (h <<< 15))

-- `array[bitpos / 8] |= (1 << (bitpos % 8))`, which stays a byte.
unfoldable pub set_bit : List ℕ → ℕ → List ℕ
set_bit array bitpos =
    set array (bitpos / 8) (bit_or (byte_at array (bitpos / 8)) (1 <<< (bitpos % 8)))

-- The inner loop of `CreateFilter`.
unfoldable pub set_probes : ℕ → ℕ → List ℕ → ℕ → ℕ → List ℕ
set_probes bits delta array zero h = array
set_probes bits delta array (suc rounds) h =
    set_probes bits delta (set_bit array (u32 (h % bits))) rounds (u32 (h + delta))

-- The outer loop.
unfoldable pub set_keys : ℕ → ℕ → List ℕ → List (List ℕ) → List ℕ
set_keys bits k array [] = array
set_keys bits k array (key ∷ keys) =
    let h = bloom_hash key in set_keys bits k (set_probes bits (rotate17 h) array k h) keys

-- The bytes of the filter for `n` keys, at least eight.
unfoldable pub bytes_for : BloomFilterPolicy → ℕ → ℕ
bytes_for policy n =
    let bits = u64 (n * policy.bits_per_key) in u64 ((if ltb bits 64 then 64 else bits) + 7) / 8

-- `CreateFilter`: the array and then `k_` are appended to `*dst`.
unfoldable pub create_filter : BloomFilterPolicy → List (List ℕ) → List ℕ → List ℕ
create_filter policy keys dst =
    let bytes = bytes_for policy (length keys) in
    dst ++ (set_keys (bytes * 8) policy.k (replicate bytes 0) keys ++ (policy.k ∷ []))

-- The loop of `KeyMayMatch`.
unfoldable pub test_probes : List ℕ → ℕ → ℕ → ℕ → ℕ → Bool
test_probes array bits delta zero h = true
test_probes array bits delta (suc rounds) h =
    let rest = test_probes array bits delta rounds (u32 (h + delta)) in
    let bitpos = u32 (h % bits) in
    if bit_and (byte_at array (bitpos / 8)) (1 <<< (bitpos % 8)) == 0 then false else rest

-- `KeyMayMatch`; `k` is read as a `char`, which is signed on x86.
unfoldable pub key_may_match : List ℕ → List ℕ → Bool
key_may_match key bloom_filter =
    let len = length bloom_filter in
    if ltb len 2
    then false
    else let k = sign_extend (byte_at bloom_filter (len - 1)) in
      if ltb 30 k
      then true
      else let h = bloom_hash key in test_probes bloom_filter ((len - 1) * 8) (rotate17 h) k h
