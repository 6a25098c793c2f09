-- ===== src/Leveldb/Varint.antt =====
-- leveldb/util/coding.h and coding.cc: numbers in groups of seven bits, and strings with their
-- length. A `Slice` that is read is the list of its bytes, and `none` is `nullptr` or `false`.
pub mod Encode
pub mod RoundTrip
pub mod Shrink
use wormholefilters.Base.{
  ℕ, zero, suc, ◌+◌, ◌*◌, ◌/◌, ◌%◌, ◌^◌, Bool, true, false, Option, none, some, List, [], ◌∷◌, ◌++◌,
  ◌==◌, ltb, leb, if◌then◌else◌, u8, u32, u64, ◌<<<◌, ◌>>>◌, bit_and, bit_or, length, take, drop,
}

-- `*(ptr++) = v | B`
abbrev pub more_byte : ℕ → ℕ
more_byte v = u8 (bit_or v 128)

-- `EncodeVarint32`: the bytes that are stored.
unfoldable pub encode_varint32 : ℕ → List ℕ
encode_varint32 v =
    if ltb v (1 <<< 7)
    then u8 v ∷ []
    else if ltb v (1 <<< 14)
    then more_byte v ∷ u8 (v >>> 7) ∷ []
    else if ltb v (1 <<< 21)
    then more_byte v ∷ more_byte (v >>> 7) ∷ u8 (v >>> 14) ∷ []
    else if ltb v (1 <<< 28)
    then more_byte v ∷ more_byte (v >>> 7) ∷ more_byte (v >>> 14) ∷ u8 (v >>> 21) ∷ []
    else more_byte v
      ∷ more_byte (v >>> 7)
      ∷ more_byte (v >>> 14)
      ∷ more_byte (v >>> 21)
      ∷ u8 (v >>> 28)
      ∷ []

unfoldable pub put_varint32 : List ℕ → ℕ → List ℕ
put_varint32 dst v = dst ++ encode_varint32 v

-- The loop of `EncodeVarint64`, with fuel for the ten bytes of the caller's buffer.
unfoldable pub encode_groups : ℕ → ℕ → Option (List ℕ)
encode_groups zero v = none
encode_groups (suc fuel) v = elim (leb 128 v) [
  | false ↦ some (u8 v ∷ [])
  | true ↦ elim (encode_groups fuel (v >>> 7)) [
    | none ↦ none
    | some bytes ↦ some (more_byte v ∷ bytes)
  ]
]

unfoldable pub encode_varint64 : ℕ → Option (List ℕ)
encode_varint64 v = encode_groups 10 v

unfoldable pub put_varint64 : List ℕ → ℕ → Option (List ℕ)
put_varint64 dst v = elim (encode_varint64 v) [ none ↦ none | some bytes ↦ some (dst ++ bytes) ]

unfoldable pub put_length_prefixed_slice : List ℕ → List ℕ → List ℕ
put_length_prefixed_slice dst value = put_varint32 dst (u32 (length value)) ++ value

-- The loop of `VarintLength`.
unfoldable pub count_groups : ℕ → ℕ → ℕ → Option ℕ
count_groups zero v len = none
count_groups (suc fuel) v len = elim (leb 128 v) [
  | false ↦ some len
  | true ↦ count_groups fuel (v >>> 7) (len + 1)
]

unfoldable pub varint_length : ℕ → Option ℕ
varint_length v = count_groups 10 v 1

-- The loops of `GetVarint32PtrFallback` (with `w = 32`, `last = 28`) and of `GetVarint64Ptr`
-- (with `w = 64`, `last = 63`) from `shift` on: the value and what is left of the input.
unfoldable pub get_groups : ℕ → ℕ → List ℕ → ℕ → ℕ → Option (ℕ × List ℕ)
get_groups w last [] shift result = none
get_groups w last (byte ∷ input) shift result =
    let group = λ (b : ℕ). (b <<< shift) % 2 ^ w in
    let more = get_groups w last input (shift + 7) (bit_or result (group (bit_and byte 127))) in
    if leb shift last
    then if bit_and byte 128 == 0 then some (bit_or result (group byte), input) else more
    else none

-- `GetVarint32Ptr`, with its path for one byte.
unfoldable pub get_varint32 : List ℕ → Option (ℕ × List ℕ)
get_varint32 [] = get_groups 32 28 [] 0 0
get_varint32 (byte ∷ input) =
    if bit_and byte 128 == 0 then some (byte, input) else get_groups 32 28 (byte ∷ input) 0 0

unfoldable pub get_varint64 : List ℕ → Option (ℕ × List ℕ)
get_varint64 input = get_groups 64 63 input 0 0

-- `GetLengthPrefixedSlice`: the slice and what is left of the input.
unfoldable pub get_length_prefixed_slice : List ℕ → Option (List ℕ × List ℕ)
get_length_prefixed_slice input = elim (get_varint32 input) [
  | none ↦ none
  | some (len, rest) ↦ if leb len (length rest) then some (take len rest, drop len rest) else none
]
