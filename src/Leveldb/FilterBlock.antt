-- ===== src/Leveldb/FilterBlock.antt =====
-- leveldb/table/filter_block.cc: the filters of a table, one for each 2 KB of data, over the
-- interface of include/leveldb/filter_policy.h. `none` is a run of the policy that does not end,
-- a load outside the block, or a shift by 64 bits or more.
pub mod Reader
pub mod Builder
pub mod Groups
pub mod Started
pub mod Bytes
pub mod Found
pub mod Calls
pub mod Whole
use wormholefilters.Base.{
  ℕ, zero, suc, ◌+◌, ◌-◌, ◌*◌, ◌/◌, ◌%◌, ◌^◌, Bool, true, false, ◌&&◌, Option, none, some, List, [],
  ◌∷◌, ◌++◌, ◌==◌, ltb, leb, if◌then◌else◌, u32, ◌>>>◌, length, take, drop, byte_at,
}
use wormholefilters.Leveldb.Bloom
use wormholefilters.Leveldb.Coding.{put_fixed32, decode_fixed32}
use wormholefilters.Leveldb.Hash.{sign_extend}
use wormholefilters.Leveldb.Wormhole

pub record FilterPolicy : Type 0 where
  pub create_filter : List (List ℕ) → List ℕ → Option (List ℕ)
  pub key_may_match : List ℕ → List ℕ → Option Bool

abbrev pub bloom_policy : ℕ → FilterPolicy
bloom_policy bits_per_key = record {
  create_filter = λ keys dst. some (Bloom.create_filter (Bloom.new_policy bits_per_key) keys dst);
  key_may_match = λ key filter. some (Bloom.key_may_match key filter);
}

abbrev pub wormhole_policy : FilterPolicy
wormhole_policy = record {
  create_filter = Wormhole.create_filter;
  key_may_match = Wormhole.key_may_match;
}

abbrev pub filter_base_lg : ℕ
filter_base_lg = 11

abbrev pub filter_base : ℕ
filter_base = 2 ^ 11

pub record FilterBlockBuilder : Type 0 where
  pub keys : List ℕ
  pub start : List ℕ
  pub result : List ℕ
  pub filter_offsets : List ℕ

-- "Make list of keys from flattened key structure"
unfoldable pub tmp_keys : List ℕ → List ℕ → List (List ℕ)
tmp_keys keys [] = []
tmp_keys keys (a ∷ []) = []
tmp_keys keys (a ∷ b ∷ start) = take (b - a) (drop a keys) ∷ tmp_keys keys (b ∷ start)

unfoldable pub add_key : FilterBlockBuilder → List ℕ → FilterBlockBuilder
add_key b key = record b { start = b.start ++ (length b.keys ∷ []); keys = b.keys ++ key }

-- The loop of `Finish`.
unfoldable pub put_offsets : List ℕ → List ℕ → List ℕ
put_offsets dst [] = dst
put_offsets dst (offset ∷ offsets) = put_offsets (put_fixed32 dst offset) offsets

unfoldable pub end_block : FilterBlockBuilder → List ℕ
end_block b =
    put_fixed32 (put_offsets b.result b.filter_offsets) (u32 (length b.result))
    ++ (filter_base_lg ∷ [])

-- `FilterBlockReader`; `data_` is the whole block, and `num = 0` where `data_` stays null.
pub record FilterBlockReader : Type 0 where
  pub data_ : List ℕ
  pub offset : ℕ
  pub num : ℕ
  pub base_lg : ℕ

-- `DecodeFixed32`, where the four bytes are in the block.
unfoldable pub load_fixed32 : List ℕ → ℕ → Option ℕ
load_fixed32 bytes i = if ltb (length bytes) (i + 4) then none else some (decode_fixed32 bytes i)

-- The byte, and the word, so many bytes before the end, where they are in the block.
unfoldable pub load_byte_back : List ℕ → ℕ → Option ℕ
load_byte_back bytes k =
    if ltb (length bytes) k then none else some (byte_at bytes (length bytes - k))

unfoldable pub load_fixed32_back : List ℕ → ℕ → Option ℕ
load_fixed32_back bytes k =
    if ltb (length bytes) k then none else load_fixed32 bytes (length bytes - k)

abbrev pub null_reader : ℕ → FilterBlockReader
null_reader base_lg = record { data_ = []; offset = 0; num = 0; base_lg = base_lg }

-- The constructor; `none` where it would read outside the block.
unfoldable pub new_reader : List ℕ → Option FilterBlockReader
new_reader contents =
    let n = length contents in
    if ltb n 5 then some (null_reader 0) else elim (load_byte_back contents 1) [
      | none ↦ none
      | some last_byte ↦ elim (load_fixed32_back contents 5) [
        | none ↦ none
        | some last_word ↦
            let base_lg = sign_extend last_byte in
            if ltb (n - 5) last_word
            then some (null_reader base_lg)
            else some (record {
              data_ = contents;
              offset = last_word;
              num = (n - 5 - last_word) / 4;
              base_lg = base_lg;
            })
      ]
    ]

-- `Slice(data_ + start, limit - start)`, where it is in the block.
unfoldable pub load_slice : List ℕ → ℕ → ℕ → Option (List ℕ)
load_slice bytes start limit =
    if ltb (length bytes) limit then none else some (take (limit - start) (drop start bytes))

module _ (policy : FilterPolicy) where
  unfoldable pub generate_filter : FilterBlockBuilder → Option FilterBlockBuilder
  generate_filter b =
      let offsets = b.filter_offsets ++ (u32 (length b.result) ∷ []) in
      elim b.start [
        | [] ↦ some (record b { filter_offsets = offsets })
        | s ∷ ss ↦
            elim (policy.create_filter (tmp_keys b.keys (b.start ++ (length b.keys ∷ [])))
              b.result) [
                | none ↦ none
                | some result ↦
                    some
                      (record { keys = []; start = []; result = result; filter_offsets = offsets })
              ]
      ]

  -- The loop of `StartBlock`.
  unfoldable pub generate_until : ℕ → ℕ → FilterBlockBuilder → Option FilterBlockBuilder
  generate_until zero filter_index b = none
  generate_until (suc fuel) filter_index b = elim (ltb (length b.filter_offsets) filter_index) [
    | false ↦ some b
    | true ↦ elim (generate_filter b) [
      | none ↦ none
      | some b' ↦ generate_until fuel filter_index b'
    ]
  ]

  unfoldable pub start_block : FilterBlockBuilder → ℕ → Option FilterBlockBuilder
  start_block b block_offset =
      let filter_index = block_offset / filter_base in
      generate_until (suc filter_index) filter_index b

  unfoldable pub finish : FilterBlockBuilder → Option (List ℕ)
  finish b = elim b.start [
    | [] ↦ some (end_block b)
    | s ∷ ss ↦ elim (generate_filter b) [ none ↦ none | some b' ↦ some (end_block b') ]
  ]

  -- What is done with two offsets of the block, whose filters end at `end`.
  unfoldable pub match_filter : List ℕ → ℕ → ℕ → ℕ → List ℕ → Option Bool
  match_filter bytes end start limit key = elim (leb start limit && leb limit end) [
    | true ↦ elim (load_slice bytes start limit) [
      | none ↦ none
      | some filter ↦ policy.key_may_match key filter
    ]
    | false ↦ if start == limit then some false else some true
  ]

  -- `FilterBlockReader::KeyMayMatch`
  unfoldable pub key_may_match : FilterBlockReader → ℕ → List ℕ → Option Bool
  key_may_match r block_offset key =
      let index = block_offset >>> r.base_lg in
      if leb 64 r.base_lg then none else elim (ltb index r.num) [
        | false ↦ some true
        | true ↦ elim (load_fixed32 r.data_ (r.offset + index * 4)) [
          | none ↦ none
          | some start ↦ elim (load_fixed32 r.data_ (r.offset + index * 4 + 4)) [
            | none ↦ none
            | some limit ↦ match_filter r.data_ r.offset start limit key
          ]
        ]
      ]
