-- ===== src/Leveldb/DbFormat.antt =====
-- leveldb/db/dbformat.h and dbformat.cc: internal keys, which end in a sequence number and a type.
pub mod Keys
pub mod Order
use Prim.Native.Nat.{compare, Ordering}
use wormholefilters.Base.{
  ℕ, ◌+◌, ◌-◌, ◌*◌, ◌/◌, ◌^◌, Bool, true, false, ◌&&◌, Option, none, some, List, [], ◌∷◌, ◌++◌, map,
  ltb, leb, ◌==◌, if◌then◌else◌, u32, u64, ◌<<<◌, ◌>>>◌, bit_and, bit_or, length, take, drop,
}
use wormholefilters.Leveldb.Coding.{put_fixed64, encode_fixed64, decode_fixed64}
use wormholefilters.Leveldb.Comparator.{first, Comparator}
use wormholefilters.Leveldb.FilterBlock.{FilterPolicy}
use wormholefilters.Leveldb.Varint.{encode_varint32}

pub data ValueType : Type 0 where
  deletion : ValueType
  value : ValueType

-- The numbers of the enumeration, and the cast of a number that is one of them.
abbrev pub type_code : ValueType → ℕ
type_code deletion = 0
type_code value = 1

abbrev type_of : ℕ → ValueType
type_of c = if c == 0 then deletion else value

abbrev pub value_type_for_seek : ValueType
value_type_for_seek = value

abbrev pub max_sequence_number : ℕ
max_sequence_number = 1 <<< 56 - 1

pub record ParsedInternalKey : Type 0 where
  pub user_key : List ℕ
  pub sequence : ℕ
  pub type : ValueType

-- `PackSequenceAndType`
unfoldable pub pack_sequence_and_type : ℕ → ValueType → ℕ
pack_sequence_and_type seq t = bit_or (u64 (seq <<< 8)) (type_code t)

unfoldable pub internal_key_encoding_length : ParsedInternalKey → ℕ
internal_key_encoding_length key = length key.user_key + 8

unfoldable pub append_internal_key : List ℕ → ParsedInternalKey → List ℕ
append_internal_key result key =
    put_fixed64 (result ++ key.user_key) (pack_sequence_and_type key.sequence key.type)

-- `ExtractUserKey`, for a key of eight bytes at least.
unfoldable pub extract_user_key : List ℕ → List ℕ
extract_user_key internal_key = take (length internal_key - 8) internal_key

-- The number that ends an internal key.
unfoldable pub trailer : List ℕ → ℕ
trailer internal_key = decode_fixed64 internal_key (length internal_key - 8)

unfoldable pub parse_internal_key : List ℕ → Option ParsedInternalKey
parse_internal_key internal_key =
    let num = trailer internal_key in
    let c = bit_and num 0xff in
    if ltb (length internal_key) 8
    then none
    else if leb c 1
    then some (record {
      user_key = extract_user_key internal_key;
      sequence = num >>> 8;
      type = type_of c;
    })
    else none

-- `… < 0`
unfoldable pub is_less : Ordering → Bool
is_less Ordering.lt = true
is_less Ordering.eq = false
is_less Ordering.gt = false

module _ (user_comparator : Comparator) where
  -- `InternalKeyComparator::Compare`
  unfoldable pub compare_internal : List ℕ → List ℕ → Ordering
  compare_internal akey bkey =
      first (user_comparator.compare (extract_user_key akey) (extract_user_key bkey)) (
        let anum = trailer akey in
        let bnum = trailer bkey in
        if ltb bnum anum then Ordering.lt else if ltb anum bnum then Ordering.gt else Ordering.eq)

  -- The end of both functions below: `tmp` with "the earliest possible number", if it is shorter.
  unfoldable pub shorten : List ℕ → List ℕ → List ℕ
  shorten start tmp =
      let user_start = extract_user_key start in
      if ltb (length tmp) (length user_start) && is_less (user_comparator.compare user_start tmp)
      then put_fixed64 tmp (pack_sequence_and_type max_sequence_number value_type_for_seek)
      else start

  unfoldable pub internal_separator : List ℕ → List ℕ → List ℕ
  internal_separator start limit =
      shorten start
        (user_comparator.find_shortest_separator (extract_user_key start) (extract_user_key limit))

  unfoldable pub internal_successor : List ℕ → List ℕ
  internal_successor key = shorten key (user_comparator.find_short_successor (extract_user_key key))

  abbrev pub internal_key_comparator : Comparator
  internal_key_comparator = record {
    compare = compare_internal;
    find_shortest_separator = internal_separator;
    find_short_successor = internal_successor;
  }

-- `InternalFilterPolicy`
abbrev pub internal_filter_policy : FilterPolicy → FilterPolicy
internal_filter_policy user_policy = record {
  create_filter = λ keys dst. user_policy.create_filter (map extract_user_key keys) dst;
  key_may_match = λ key f. user_policy.key_may_match (extract_user_key key) f;
}

-- `LookupKey`: the bytes from `start_` to `end_`, and `kstart_` as an index.
pub record LookupKey : Type 0 where
  pub rep : List ℕ
  pub kstart : ℕ

unfoldable pub new_lookup_key : List ℕ → ℕ → LookupKey
new_lookup_key user_key s =
    let klength = encode_varint32 (u32 (length user_key + 8)) in
    record {
      rep = klength ++ (user_key ++ encode_fixed64 (pack_sequence_and_type s value_type_for_seek));
      kstart = length klength;
    }

unfoldable pub memtable_key : LookupKey → List ℕ
memtable_key k = k.rep

unfoldable pub internal_key : LookupKey → List ℕ
internal_key k = drop k.kstart k.rep

unfoldable pub user_key_of : LookupKey → List ℕ
user_key_of k = take (length k.rep - k.kstart - 8) (drop k.kstart k.rep)
