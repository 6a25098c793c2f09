-- ===== src/Leveldb/Coding.antt =====
-- leveldb/util/coding.h and coding.cc. A `char*` is a list of bytes with an index into it.
pub mod RoundTrip
pub mod Words
use wormholefilters.Base.{
  ℕ, ◌+◌, ◌*◌, List, [], ◌∷◌, ◌++◌, u8, u32, u64, ◌<<<◌, ◌>>>◌, bit_or, byte_at,
}

-- `EncodeFixed32`: the four bytes that are stored.
unfoldable pub encode_fixed32 : ℕ → List ℕ
encode_fixed32 value = u8 value ∷ u8 (value >>> 8) ∷ u8 (value >>> 16) ∷ u8 (value >>> 24) ∷ []

unfoldable pub encode_fixed64 : ℕ → List ℕ
encode_fixed64 value =
    u8 value
    ∷ u8 (value >>> 8)
    ∷ u8 (value >>> 16)
    ∷ u8 (value >>> 24)
    ∷ u8 (value >>> 32)
    ∷ u8 (value >>> 40)
    ∷ u8 (value >>> 48)
    ∷ u8 (value >>> 56)
    ∷ []

unfoldable pub put_fixed32 : List ℕ → ℕ → List ℕ
unfolding encode_fixed32
put_fixed32 dst value = dst ++ encode_fixed32 value

unfoldable pub put_fixed64 : List ℕ → ℕ → List ℕ
unfolding encode_fixed64
put_fixed64 dst value = dst ++ encode_fixed64 value

unfoldable pub decode_fixed32 : List ℕ → ℕ → ℕ
decode_fixed32 buffer i =
    bit_or
      (bit_or (bit_or (byte_at buffer i) (u32 (byte_at buffer (i + 1) <<< 8)))
        (u32 (byte_at buffer (i + 2) <<< 16)))
      (u32 (byte_at buffer (i + 3) <<< 24))

unfoldable pub decode_fixed64 : List ℕ → ℕ → ℕ
decode_fixed64 buffer i =
    let b = λ (k : ℕ). u64 (byte_at buffer (i + k) <<< (8 * k)) in
    bit_or
      (bit_or (bit_or (bit_or (bit_or (bit_or (bit_or (b 0) (b 1)) (b 2)) (b 3)) (b 4)) (b 5))
        (b 6))
      (b 7)
