-- ===== src/Tests/Leveldb.antt =====
-- leveldb/util/bloom.cc and the varints of leveldb/util/coding.cc.
use wormholefilters.Base.{
  Bool, ℕ, Option, none, inl, inr, ap, ◌+◌, ◌^◌, ◌≤◌, ◌≡◌, true, some, List, [], ◌∷◌, ◌++◌, refl,
  arith, length,
}
use wormholefilters.Leveldb.Bloom.Laws.{key_may_match-create_filter}
use wormholefilters.Leveldb.Bloom.{
  new_policy, create_filter, key_may_match, bytes_for, set_keys, set_probes, set_bit, bloom_hash,
  rotate17,
}
use wormholefilters.Leveldb.Coding.{put_fixed32}
use wormholefilters.Leveldb.Hash.{hash}
use wormholefilters.Leveldb.FilterBlock
use wormholefilters.Leveldb.FilterBlock.Calls.{build, count_keys, add_blocks, add_keys}
use wormholefilters.Leveldb.FilterBlock.Whole.{key_may_match-build, bloom_policy-IsFaithful}
use wormholefilters.Leveldb.FilterBlock.Reader.{key_may_match-new_reader}
use wormholefilters.Leveldb.Varint.RoundTrip.{
  get_varint64-encode_varint64, get_length_prefixed_slice-put_length_prefixed_slice,
}
use wormholefilters.Leveldb.Varint.{
  encode_varint32, encode_varint64, varint_length, get_varint64, put_length_prefixed_slice,
  get_length_prefixed_slice,
}

abbrev hello : List ℕ
hello = 104 ∷ 101 ∷ 108 ∷ 108 ∷ 111 ∷ []

abbrev world : List ℕ
world = 119 ∷ 111 ∷ 114 ∷ 108 ∷ 100 ∷ []

key_may_match-create_filter_example :
    (bloom_filter : List ℕ) × (create_filter (new_policy 10) ((hello ∷ []) ++ (world ∷ [])) (1 ∷ [])
      ≡ (1 ∷ []) ++ bloom_filter)
    × (key_may_match world bloom_filter ≡ true)
key_may_match-create_filter_example =
    key_may_match-create_filter 10 (hello ∷ []) world [] (1 ∷ []) (omega arith) (omega arith)

get_varint64-encode_varint64_example :
    (bytes : List ℕ) × (encode_varint64 (2 ^ 40 + 5) ≡ some bytes)
    × (length bytes ≤ 10)
    × (varint_length (2 ^ 40 + 5) ≡ some (length bytes))
    × (get_varint64 (bytes ++ hello) ≡ some (2 ^ 40 + 5, hello))
get_varint64-encode_varint64_example = get_varint64-encode_varint64 (2 ^ 40 + 5) hello (omega arith)

get_length_prefixed_slice-put_length_prefixed_slice_example :
    get_length_prefixed_slice (put_length_prefixed_slice [] hello ++ world) ≡ some (hello, world)
get_length_prefixed_slice-put_length_prefixed_slice_example =
    get_length_prefixed_slice-put_length_prefixed_slice hello world (omega arith)

-- A block with one filter: its offsets are 0 and 2.
abbrev block : List ℕ
block = 7 ∷ 1 ∷ 0 ∷ 0 ∷ 0 ∷ 0 ∷ 2 ∷ 0 ∷ 0 ∷ 0 ∷ 11 ∷ []

key_may_match-new_reader_example :
    (r : FilterBlock.FilterBlockReader) × (FilterBlock.new_reader block ≡ some r)
    × ((a : Bool) × (FilterBlock.key_may_match (FilterBlock.bloom_policy 10) r 100 hello ≡ some a))
key_may_match-new_reader_example =
    key_may_match-new_reader (FilterBlock.bloom_policy 10) block 100 hello
      (λ k filter. (key_may_match k filter, refl)) (λ h. omega arith)

-- Two blocks: "hello" in the first 2 KB, and "world" in the third.
abbrev hello_world : List (ℕ × List (List ℕ))
hello_world = (0, hello ∷ []) ∷ (5000, world ∷ []) ∷ []

abbrev length_or_zero : Option (List ℕ) → ℕ
length_or_zero none = 0
length_or_zero (some c) = length c

length-hello_world : length_or_zero (build (FilterBlock.bloom_policy 10) hello_world) ≡ 35
unfolding build add_blocks FilterBlock.start_block FilterBlock.generate_until
    FilterBlock.generate_filter FilterBlock.tmp_keys FilterBlock.finish FilterBlock.end_block
    FilterBlock.put_offsets FilterBlock.add_key add_keys create_filter new_policy bytes_for set_keys
    set_probes set_bit rotate17 bloom_hash hash put_fixed32
length-hello_world = refl

key_may_match-build_example :
    (contents : List ℕ) × (build (FilterBlock.bloom_policy 10) hello_world ≡ some contents)
    × ((r : FilterBlock.FilterBlockReader) × (FilterBlock.new_reader contents ≡ some r)
        × (FilterBlock.key_may_match (FilterBlock.bloom_policy 10) r 5000 world ≡ some true))
unfolding count_keys
key_may_match-build_example =
    key_may_match-build (FilterBlock.bloom_policy 10) hello_world 5000 world
      (bloom_policy-IsFaithful 10 (omega arith)) (omega arith, (omega arith, tt)) (omega arith)
      (λ c e. omega (arith, ap length_or_zero e, length-hello_world)) (inr (inl (refl, inl refl)))

encode_300 : encode_varint32 300 ≡ 0xac ∷ 2 ∷ []
unfolding encode_varint32
encode_300 = refl
