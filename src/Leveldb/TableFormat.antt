-- ===== src/Leveldb/TableFormat.antt =====
-- leveldb/table/format.h and format.cc: handles of blocks and the footer of a table, and the mask of
-- leveldb/util/crc32c.h for the checksums that are stored.
pub mod RoundTrip
use wormholefilters.Base.{
  ℕ, ◌+◌, ◌-◌, ◌*◌, ◌^◌, ◌%◌, ◌⊎◌, inl, inr, Option, none, some, List, [], ◌∷◌, ◌++◌, ◌==◌, ltb,
  if◌then◌else◌, bit_or, u32, u64, sub32, ◌<<<◌, ◌>>>◌, length, take, drop, replicate,
}
use wormholefilters.Leveldb.Coding.{put_fixed32, decode_fixed32}
use wormholefilters.Leveldb.Getter.{Getter, both, and_then}
use wormholefilters.Leveldb.Varint.Shrink.{varint64}
use wormholefilters.Leveldb.Varint.{get_varint64}

pub record BlockHandle : Type 0 where
  pub offset : ℕ
  pub size : ℕ

abbrev pub handle : ℕ → ℕ → BlockHandle
handle offset size = record { offset = offset; size = size }

-- A handle whose fields are not set.
abbrev pub new_handle : BlockHandle
new_handle = handle (2 ^ 64 - 1) (2 ^ 64 - 1)

-- `BlockHandle::EncodeTo`, without its assertions that both fields have been set, that is, differ from
-- 2 ^ 64 - 1.
unfoldable pub encode_handle : List ℕ → BlockHandle → List ℕ
encode_handle dst h = (dst ++ varint64 h.offset) ++ varint64 h.size

-- `BlockHandle::DecodeFrom`; `none` is the error "bad block handle".
unfoldable pub decode_handle : Getter BlockHandle
decode_handle input =
    and_then (both get_varint64 get_varint64 input) (λ (o, s) rest. some (handle o s, rest))

pub record Footer : Type 0 where
  pub metaindex_handle : BlockHandle
  pub index_handle : BlockHandle

abbrev pub footer : BlockHandle → BlockHandle → Footer
footer m i = record { metaindex_handle = m; index_handle = i }

abbrev pub max_encoded_length : ℕ
max_encoded_length = 20

abbrev pub encoded_length : ℕ
encoded_length = 48

abbrev pub table_magic_number : ℕ
table_magic_number = 15800726617472432983

-- `std::string::resize`: the string is cut, or filled up with zeros.
unfoldable pub resize : List ℕ → ℕ → List ℕ
resize s n = take n (s ++ replicate n 0)

-- `Footer::EncodeTo`.
unfoldable pub encode_footer : List ℕ → Footer → List ℕ
encode_footer dst f =
    let handles = encode_handle (encode_handle dst f.metaindex_handle) f.index_handle in
    let padded = resize handles (2 * max_encoded_length) in
    put_fixed32 (put_fixed32 padded (u32 table_magic_number)) (table_magic_number >>> 32)

-- The messages of the errors.
pub data BadFooter : Type 0 where
  too_short : BadFooter
  bad_magic : BadFooter
  bad_handle : BadFooter

unfoldable pub magic : List ℕ → ℕ
magic input =
    let lo = decode_fixed32 input (encoded_length - 8) in
    let hi = decode_fixed32 input (encoded_length - 8 + 4) in bit_or (u64 (hi <<< 32)) lo

-- The two handles; what is left of the input begins after the magic number.
unfoldable pub decode_handles : List ℕ → BadFooter ⊎ (Footer × List ℕ)
decode_handles input = elim (both decode_handle decode_handle input) [
  | none ↦ inl bad_handle
  | some ((m, i), rest) ↦ inr (footer m i, drop encoded_length input)
]

-- `Footer::DecodeFrom`.
unfoldable pub decode_footer : List ℕ → BadFooter ⊎ (Footer × List ℕ)
decode_footer input =
    if ltb (length input) encoded_length
    then inl too_short
    else if magic input == table_magic_number
    then decode_handles input
    else inl bad_magic

abbrev pub mask_delta : ℕ
mask_delta = 2726488792

-- `crc32c::Mask` and `crc32c::Unmask`.
unfoldable pub mask : ℕ → ℕ
mask crc = u32 (bit_or (crc >>> 15) (u32 (crc <<< 17)) + mask_delta)

unfoldable pub unmask : ℕ → ℕ
unmask masked_crc = let rot = sub32 masked_crc mask_delta in bit_or (rot >>> 17) (u32 (rot <<< 15))
