-- ===== src/PmFilter.antt =====
-- src/pm_wf/pmwormholefilter.hpp: the wormhole filter in persistent memory.
--
-- The filter object is the record `Filter`: `buckets` is what the processor reads, and `durable`
-- is what `pmemobj_persist` has made safe. `none` is undefined behaviour (the filter of a root
-- that has none) or a loop that has run out of fuel. `buckets_` is a list of 64-bit words; the
-- cast of a word to `uint16_t *` reads its lanes, lowest first, as on x86.
pub mod Store
pub mod Words
pub mod Delete
pub mod Keys
pub mod Ops
pub mod Init
use wormholefilters.Base.{
  ℕ, zero, suc, ◌+◌, ◌-◌, ◌*◌, ◌/◌, ◌%◌, ◌^◌, Bool, true, false, Option, none, some, List, ◌==◌,
  if◌then◌else◌, to_nat, u16, u32, u64, ◌<<<◌, ◌>>>◌, bit_and, bit_or, get_or, set, replicate,
}
use wormholefilters.Probe.{slot_per_buk, max_prob}
use wormholefilters.Probe
use wormholefilters.Swar.{lane}

pub record Filter : Type 0 where
  pub num_buckets : ℕ
  pub buckets : List ℕ
  pub durable : List ℕ

-- `struct pmwormholefilter_root`; `none` is `TOID_NULL`.
pub record Root : Type 0 where
  pub filter : Option Filter

-- `PMWF_TwoIndependentMultiplyShift::operator()`; the random `multiply_` and `add_` are not used.
unfoldable pub hasher : ℕ → ℕ
hasher key = key

-- `int((max_num_keys / SLOT_PER_BUK) / 0.8)`. The double nearest to 0.8 is above it by a factor
-- of 1 + 2 ^ -54, and for a dividend below 2 ^ 30 the rounded quotient has the integral part of
-- the exact one.
unfoldable pub buckets_for : ℕ → ℕ
buckets_for max_num_keys = max_num_keys / slot_per_buk * 5 / 4

unfoldable pub new_filter : ℕ → Filter
unfolding buckets_for
new_filter max_num_keys =
    let n = buckets_for max_num_keys in
    record { num_buckets = n; buckets = replicate n 0; durable = replicate n 0 }

-- `committed` says whether libpmemobj commits the transaction (`TX_ZALLOC` may fail); one that
-- is aborted changes nothing.
unfoldable pub init : Bool → Root → ℕ → Root
unfolding new_filter
init committed root max_num_keys =
    if committed then record { filter = some (new_filter max_num_keys) } else root

unfoldable pub destroy : Bool → Root → Root
destroy committed root = if committed then record { filter = none } else root

unfoldable pub index_hash : ℕ → ℕ → ℕ
index_hash hv n = u32 hv % n

unfoldable pub tag_hash : ℕ → ℕ
tag_hash hv = let tag = bit_and (u32 hv) (2 ^ 12 - 1) in u32 ((tag + to_nat (tag == 0)) <<< 4)

-- `((uint16_t *)&w)[j] = t`
abbrev pub set_lane : ℕ → ℕ → ℕ → ℕ
set_lane w j t = w - lane w j * 2 ^ (16 * j) + u16 t * 2 ^ (16 * j)

unfoldable pub read_tag : Filter → ℕ → ℕ → ℕ
read_tag f i j = lane (get_or f.buckets (i % f.num_buckets) 0) j

unfoldable pub write_tag : Filter → ℕ → ℕ → ℕ → Filter
write_tag f i j t =
    let i_m = i % f.num_buckets in
    record f { buckets = set f.buckets i_m (set_lane (get_or f.buckets i_m 0) j t) }

-- The write is followed by `pmemobj_persist` of the bucket.
unfoldable pub pm_write_tag : Filter → ℕ → ℕ → ℕ → Filter
pm_write_tag f i j t =
    let i_m = i % f.num_buckets in
    let w = set_lane (get_or f.buckets i_m 0) j t in
    record f { buckets = set f.buckets i_m w; durable = set f.durable i_m w }

abbrev pub store : Probe.Store
store = record {
  State = Filter;
  num_buckets = λ f. f.num_buckets;
  read_tag = read_tag;
  write_tag = write_tag;
  kick_tag = pm_write_tag;
}

-- `pmwormholefilter_insert`
unfoldable pub insert : Filter → ℕ → Option (Bool × Filter)
unfolding hasher
insert f key =
    let hash = hasher key in
    Probe.insert store f (index_hash hash f.num_buckets) (tag_hash (hash >>> 32))

-- `pmwormholefilter_lookup`
unfoldable pub lookup : Filter → ℕ → Bool
unfolding hasher
lookup f key =
    let hash = hasher key in
    let init_buck_idx = index_hash hash f.num_buckets in
    let bucket = λ (prob : ℕ). get_or f.buckets ((init_buck_idx + prob) % f.num_buckets) 0 in
    Probe.probe_words bucket (tag_hash (hash >>> 32)) max_prob 0

-- The inner loop of `pmwormholefilter_delete`: the first slot of a bucket that holds a tag.
unfoldable pub match_slot : Filter → ℕ → ℕ → ℕ → ℕ → Option ℕ
match_slot f b t zero j = none
match_slot f b t (suc rounds) j =
    let rest = match_slot f b t rounds (j + 1) in if read_tag f b j == t then some j else rest

-- The loops of `pmwormholefilter_delete` from `prob` on.
unfoldable pub clear_match : Filter → ℕ → ℕ → ℕ → ℕ → Bool × Filter
clear_match f init_buck_idx tag zero prob = (false, f)
clear_match f init_buck_idx tag (suc rounds) prob =
    elim (match_slot f (u32 (init_buck_idx + prob)) (bit_or tag prob) slot_per_buk 0) [
      | some j ↦ (true, write_tag f (u32 (init_buck_idx + prob)) j 0)
      | none ↦ clear_match f init_buck_idx tag rounds (prob + 1)
    ]

-- `pmwormholefilter_delete`
unfoldable pub delete : Filter → ℕ → Bool × Filter
unfolding hasher clear_match
delete f key =
    let hash = hasher key in
    clear_match f (index_hash hash f.num_buckets) (tag_hash (hash >>> 32)) max_prob 0

-- `pmwormholefilter_bytes`: the bit pattern of the `int` that is returned.
unfoldable pub bytes : Filter → ℕ
bytes f = u32 (8 * f.num_buckets)
