-- ===== src/Leveldb/Wormhole.antt =====
-- leveldb/util/wormhole.cc: the wormhole filter as a filter policy of LevelDB.
--
-- `Table` is the array that `CreateFilter` fills, with the number of buckets that it passes along.
-- The array holds `num_buckets_ * 8` bytes, a bucket of four little-endian tags after the other.
pub mod Store
pub mod Power
pub mod Filter
pub mod Size
pub mod Policy
use wormholefilters.Base.{
  ℕ, zero, suc, ◌+◌, ◌-◌, ◌*◌, ◌/◌, ◌%◌, ◌^◌, Bool, true, false, Option, none, some, List, [], ◌∷◌,
  ◌++◌, ◌==◌, ltb, leb, if◌then◌else◌, to_nat, u32, u64, sub64, ◌<<<◌, ◌>>>◌, bit_and, bit_or,
  length, replicate, load16, load64, store16, drop, take,
}
use Prim.Native.Nat.{max}
use wormholefilters.Leveldb.Coding.{encode_fixed64, decode_fixed64}
use wormholefilters.Leveldb.Hash.{hash64}
use wormholefilters.Probe
use wormholefilters.Probe.{max_prob}
use wormholefilters.Swar.{hasvalue16}

abbrev pub tag_per_buk : ℕ
tag_per_buk = 4

-- `(1ULL << BIT_PER_TAG) - 1`
abbrev pub k_tag_mask : ℕ
k_tag_mask = 2 ^ 16 - 1

-- `(BIT_PER_TAG * TAG_PER_BUK + 7) >> 3`
abbrev pub k_bytes_per_bucket : ℕ
k_bytes_per_bucket = (16 * tag_per_buk + 7) >>> 3

pub record Table : Type 0 where
  pub num_buckets : ℕ
  pub array : List ℕ

unfoldable pub wormhole_hash : List ℕ → ℕ
wormhole_hash key = hash64 key 0xbc9f1d34bc9f1d34

unfoldable pub index_hash : ℕ → ℕ → ℕ
index_hash hv n = u32 (bit_and (u32 hv) (sub64 n 1))

unfoldable pub tag_hash : ℕ → ℕ
tag_hash hv = let tag = bit_and (u32 hv) (2 ^ 12 - 1) in tag + to_nat (tag == 0)

-- `x |= x >> k`
abbrev pub smear : ℕ → ℕ → ℕ
smear k x = bit_or x (x >>> k)

unfoldable pub upperpower2 : ℕ → ℕ
upperpower2 x = u64 (smear 32 (smear 16 (smear 8 (smear 4 (smear 2 (smear 1 (sub64 x 1)))))) + 1)

-- `MOD(idx, num_buckets_)` as a `uint32_t`
abbrev pub mod_buckets : ℕ → ℕ → ℕ
mod_buckets idx n = u32 (bit_and idx (sub64 n 1))

-- The byte at which bucket `i_m` begins: `i_m * 8`, a product of 32 bits.
abbrev pub bucket_at : ℕ → ℕ
bucket_at i_m = u32 (i_m * 8)

unfoldable pub read_tag : Table → ℕ → ℕ → ℕ
read_tag t i j =
    bit_and (load16 t.array (bucket_at (mod_buckets i t.num_buckets) + j <<< 1)) k_tag_mask

unfoldable pub write_tag : Table → ℕ → ℕ → ℕ → Table
write_tag t i j tag =
    let p = bucket_at (mod_buckets i t.num_buckets) + 2 * j in
    record t { array = store16 t.array p (bit_and tag k_tag_mask) }

abbrev pub store : Probe.Store
store = record {
  State = Table;
  num_buckets = λ t. t.num_buckets;
  read_tag = read_tag;
  write_tag = write_tag;
  kick_tag = write_tag;
}

-- `InsertItem`; the tag is written as `tag << 4 | distance`
unfoldable pub insert_item : ℕ → Table → Option (Bool × Table)
insert_item hashcode t =
    Probe.insert store t (index_hash hashcode t.num_buckets) (tag_hash (hashcode >>> 32) <<< 4)

-- The loop of `CreateFilter`; what `InsertItem` returns is dropped. `none`: out of fuel.
unfoldable pub insert_keys : List (List ℕ) → Table → Option Table
insert_keys [] t = some t
insert_keys (key ∷ keys) t = elim (insert_item (wormhole_hash key) t) [
  | none ↦ none
  | some (inserted, t') ↦ insert_keys keys t'
]

-- The number of buckets for `n` keys. `frac > 0.8` for the double `frac = n / num_buckets_ / 4`,
-- which is exact since `num_buckets_` is a power of two and `n` an `int`.
unfoldable pub buckets_for : ℕ → ℕ
unfolding upperpower2
buckets_for n =
    let num_buckets = upperpower2 (max 1 (n / tag_per_buk)) in
    if ltb (16 * num_buckets) (5 * n) then u64 (num_buckets <<< 1) else num_buckets

unfoldable pub empty_table : ℕ → Table
empty_table n = record { num_buckets = n; array = replicate (k_bytes_per_bucket * n) 0 }

-- `CreateFilter`: the array and then `num_buckets_` are appended to `*dst`.
unfoldable pub create_filter : List (List ℕ) → List ℕ → Option (List ℕ)
create_filter keys dst = elim (insert_keys keys (empty_table (buckets_for (length keys)))) [
  | none ↦ none
  | some t ↦ some (dst ++ (t.array ++ encode_fixed64 t.num_buckets))
]

-- The loop of `KeyMayMatch` from `prob` on; `none` is a load beyond the filter.
unfoldable pub probe_filter : List ℕ → ℕ → ℕ → ℕ → ℕ → ℕ → Option Bool
probe_filter array n init tag zero prob = some false
probe_filter array n init tag (suc rounds) prob =
    let rest = probe_filter array n init tag rounds (prob + 1) in
    let p = bucket_at (mod_buckets (init + prob) n) in
    if ltb (length array) (p + 8)
    then none
    else if hasvalue16 (load64 array p) (bit_or (tag <<< 4) prob) == 0
    then rest
    else some true

-- `KeyMayMatch`; `none` is a load outside the filter.
unfoldable pub key_may_match : List ℕ → List ℕ → Option Bool
key_may_match key filter =
    let len = length filter in
    if ltb len 2
    then some false
    else if ltb len 8
    then none
    else let n = load64 filter (len - 8) in
      let hashcode = wormhole_hash key in
      probe_filter filter n (index_hash hashcode n) (tag_hash (hashcode >>> 32)) max_prob 0
