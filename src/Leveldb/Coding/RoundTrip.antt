-- ===== src/Leveldb/Coding/RoundTrip.antt =====
-- The fixed-width numbers of leveldb/util/coding.h are read back.
use wormholefilters.Base.{
  length, refl, ℕ, ◌+◌, ◌*◌, ◌/◌, ◌%◌, ◌^◌, ◌<◌, ◌≡◌, List, ◌++◌, ◌∙◌, arith, u8, u32, u64, bit_or,
}
use wormholefilters.Leveldb.Coding.{encode_fixed32, encode_fixed64, decode_fixed32, decode_fixed64}
use wormholefilters.Leveldb.Varint.Encode.{bit_or_above}

pub length-encode_fixed64 : (v : ℕ) → length (encode_fixed64 v) ≡ 8
unfolding encode_fixed64
length-encode_fixed64 v = refl

-- `DecodeFixed32` reads back a number below 2 ^ 32 that `EncodeFixed32` has written, whatever
-- follows.
pub decode_fixed32-encode_fixed32 :
    (v : ℕ) (rest : List ℕ) → v < 2 ^ 32 → decode_fixed32 (encode_fixed32 v ++ rest) 0 ≡ v
unfolding decode_fixed32 encode_fixed32
decode_fixed32-encode_fixed32 v rest h =
    let w = λ (k : ℕ). u8 (v / 2 ^ (8 * k)) * 2 ^ (8 * k) in
    let m₁ : u32 (w 1) ≡ w 1 = omega arith in
    let m₂ : u32 (w 2) ≡ w 2 = omega arith in
    let m₃ : u32 (w 3) ≡ w 3 = omega arith in
    rw
      (
        m₁,
        m₂,
        m₃,
        bit_or_above 8 (u8 (v / 2 ^ 8)) (u8 v) (omega arith),
        bit_or_above 16 (u8 (v / 2 ^ 16)) (u8 v + w 1) (omega arith),
        bit_or_above 24 (u8 (v / 2 ^ 24)) (u8 v + w 1 + w 2) (omega arith),
      )
      (omega arith)

-- The low `k` bytes of a number, and the next one in its place.
abbrev low : ℕ → ℕ → ℕ
low v k = v % 2 ^ (8 * k)

abbrev nth : ℕ → ℕ → ℕ
nth v k = u8 (v / 2 ^ (8 * k)) * 2 ^ (8 * k)

-- `DecodeFixed64` reads back a number below 2 ^ 64 that `EncodeFixed64` has written, whatever
-- follows.
pub decode_fixed64-encode_fixed64 :
    (v : ℕ) (rest : List ℕ) → v < 2 ^ 64 → decode_fixed64 (encode_fixed64 v ++ rest) 0 ≡ v
unfolding decode_fixed64 encode_fixed64
decode_fixed64-encode_fixed64 v rest h =
    let m₀ : u64 (u8 v * 1) ≡ low v 1 = omega arith in
    let m₁ : u64 (nth v 1) ≡ nth v 1 = omega arith in
    let m₂ : u64 (nth v 2) ≡ nth v 2 = omega arith in
    let m₃ : u64 (nth v 3) ≡ nth v 3 = omega arith in
    let m₄ : u64 (nth v 4) ≡ nth v 4 = omega arith in
    let m₅ : u64 (nth v 5) ≡ nth v 5 = omega arith in
    let m₆ : u64 (nth v 6) ≡ nth v 6 = omega arith in
    let m₇ : u64 (nth v 7) ≡ nth v 7 = omega arith in
    let o₁ : bit_or (low v 1) (nth v 1) ≡ low v 2 =
      bit_or_above 8 (u8 (v / 2 ^ 8)) (low v 1) (omega arith) ∙ omega arith in
    let o₂ : bit_or (low v 2) (nth v 2) ≡ low v 3 =
      bit_or_above 16 (u8 (v / 2 ^ 16)) (low v 2) (omega arith) ∙ omega arith in
    let o₃ : bit_or (low v 3) (nth v 3) ≡ low v 4 =
      bit_or_above 24 (u8 (v / 2 ^ 24)) (low v 3) (omega arith) ∙ omega arith in
    let o₄ : bit_or (low v 4) (nth v 4) ≡ low v 5 =
      bit_or_above 32 (u8 (v / 2 ^ 32)) (low v 4) (omega arith) ∙ omega arith in
    let o₅ : bit_or (low v 5) (nth v 5) ≡ low v 6 =
      bit_or_above 40 (u8 (v / 2 ^ 40)) (low v 5) (omega arith) ∙ omega arith in
    let o₆ : bit_or (low v 6) (nth v 6) ≡ low v 7 =
      bit_or_above 48 (u8 (v / 2 ^ 48)) (low v 6) (omega arith) ∙ omega arith in
    let o₇ : bit_or (low v 7) (nth v 7) ≡ v =
      bit_or_above 56 (u8 (v / 2 ^ 56)) (low v 7) (omega arith) ∙ omega arith in
    rw (m₀, m₁, m₂, m₃, m₄, m₅, m₆, m₇, o₁, o₂, o₃, o₄, o₅, o₆) o₇
