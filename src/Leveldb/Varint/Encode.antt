-- ===== src/Leveldb/Varint/Encode.antt =====
-- What is written as a varint is read back.
use native.Mathlib.Nat.{mod-eq_of_lt, mul-le-mul_right, pow-suc}
use wormholefilters.Base.{
  ℕ, zero, suc, ◌+◌, ◌*◌, ◌/◌, ◌%◌, ◌^◌, ◌≤◌, ◌<◌, ◌≡◌, true, false, some, List, [], ◌∷◌, ◌++◌,
  refl, sym, ap, ap₂, ◌∙◌, arith, leb, Bool-cases, inl, inr, u8, bit_and, bit_or, bit_and_mask,
  bit_and-zero, bit_or-zero, zero-bit_or, bit_or_step, op_split, op_fields, bit_or-IsDigitwise,
  bit_and-IsDigitwise, length, le→leb, leb→le, leb→lt,
}
use wormholefilters.Leveldb.Varint.{more_byte, encode_groups, count_groups, get_groups}

pub more_byte_lem : (v : ℕ) → more_byte v ≡ v % 128 + 128
more_byte_lem v =
    omega
      (arith, op_split bit_or-IsDigitwise 7 v 128, bit_or-zero (v % 128), bit_or_step (v / 128) 1)

-- The flag that more bytes are present.
pub flag_lem : (b : ℕ) → bit_and b 128 ≡ b / 128 % 2 * 128
flag_lem b =
    omega (
      arith,
      op_split bit_and-IsDigitwise 7 b 128,
      bit_and-zero (b % 128),
      bit_and_mask 1 (b / 128),
    )

-- A group is added above those that have been read.
pub bit_or_above : (s x r : ℕ) → r < 2 ^ s → bit_or r (x * 2 ^ s) ≡ r + x * 2 ^ s
bit_or_above s x r h =
    let e : r ≡ 0 * 2 ^ s + r = omega arith in
    let z : x * 2 ^ s ≡ x * 2 ^ s + 0 = omega arith in
    ap₂ bit_or e z
    ∙ op_fields bit_or-IsDigitwise s 0 x r 0 h (omega (arith, h))
    ∙ omega (arith, ap (λ (t : ℕ). t * 2 ^ s) (zero-bit_or x), bit_or-zero r)

pow_add7 : (s : ℕ) → 2 ^ (s + 7) ≡ 128 * 2 ^ s
pow_add7 zero = refl
pow_add7 (suc s) = omega (
  arith,
  pow_add7 s,
  pow-suc 2 (s + 7),
  pow-suc 2 s,
  ap (λ (t : ℕ). 2 ^ t) (let e : suc s + 7 ≡ suc (s + 7) = omega arith in e),
)

module _ (fuel v : ℕ) where
  pub encode_groups_last : leb 128 v ≡ false → encode_groups (suc fuel) v ≡ some (u8 v ∷ [])
  unfolding encode_groups
  encode_groups_last e = rw (e, encode_groups)

  pub encode_groups_more :
      (bytes : List ℕ)
      → leb 128 v ≡ true
      → encode_groups fuel (v / 128) ≡ some bytes
      → encode_groups (suc fuel) v ≡ some (more_byte v ∷ bytes)
  unfolding encode_groups
  encode_groups_more bytes e rest = rw (e, rest, encode_groups)

  count_groups_last : (l : ℕ) → leb 128 v ≡ false → count_groups (suc fuel) v l ≡ some l
  unfolding count_groups
  count_groups_last l e = rw (e, count_groups)

  count_groups_more :
      (l : ℕ) → leb 128 v ≡ true → count_groups (suc fuel) v l ≡ count_groups fuel (v / 128) (l + 1)
  unfolding count_groups
  count_groups_more l e = rw (e, count_groups)

module _ (w last : ℕ) where
  module _ (b : ℕ) (input : List ℕ) (s r : ℕ) (s-le : s ≤ last) (b-lt : b < 128)
      (fits : b * 2 ^ s < 2 ^ w) (r-lt : r < 2 ^ s) where
    get_groups_last : get_groups w last (b ∷ input) s r ≡ some (r + b * 2 ^ s, input)
    unfolding get_groups
    get_groups_last =
        let flag : bit_and b 128 ≡ 0 = omega (arith, flag_lem b) in
        rw (le→leb s last s-le, flag, mod-eq_of_lt fits, bit_or_above s b r r-lt)

    get_groups_more :
        get_groups w last ((b + 128) ∷ input) s r ≡ get_groups w last input (s + 7) (r + b * 2 ^ s)
    unfolding get_groups
    get_groups_more =
        let flag : bit_and (b + 128) 128 ≡ 128 = omega (arith, flag_lem (b + 128)) in
        let low : bit_and (b + 128) 127 ≡ b = omega (arith, bit_and_mask 7 (b + 128)) in
        rw (le→leb s last s-le, flag, low, mod-eq_of_lt fits, bit_or_above s b r r-lt)

  -- The bytes of a number, which the loop at `shift = s` reads back on top of `r`.
  pub record Groups (fuel s v r : ℕ) (rest : List ℕ) : Type 0 where
    pub bytes : List ℕ
    pub written : encode_groups fuel v ≡ some bytes
    pub few : length bytes ≤ fuel
    pub counted : (l : ℕ) → count_groups fuel v (suc l) ≡ some (l + length bytes)
    pub read : get_groups w last (bytes ++ rest) s r ≡ some (r + v * 2 ^ s, rest)

  module _ (top : last ≤ 63) (room : (i : ℕ) → 2 ^ (7 * i) < 2 ^ w → 7 * i ≤ last) where
    pub encode-Groups :
        (fuel i v r : ℕ) (rest : List ℕ)
        → fuel + i ≡ 10
        → 7 * i ≤ last
        → v * 2 ^ (7 * i) < 2 ^ w
        → r < 2 ^ (7 * i)
        → Groups fuel (7 * i) v r rest
    encode-Groups zero i v r rest e s-le fits r-lt = absurd (omega (arith, top))
    encode-Groups (suc fuel) i v r rest e s-le fits r-lt = elim (Bool-cases (leb 128 v)) [
      | inr small ↦
          let v-lt : v < 128 = leb→lt 128 v small in
          let whole : u8 v ≡ v = omega arith in
          record {
            bytes = u8 v ∷ [];
            written = encode_groups_last fuel v small;
            few = omega arith;
            counted = λ l. count_groups_last fuel v (suc l) small ∙ ap some (omega arith);
            read = rw whole (get_groups_last v rest (7 * i) r s-le v-lt fits r-lt);
          }
      | inl large ↦
          let p = 2 ^ (7 * i) in
          let ge : 128 ≤ v = leb→le 128 v large in
          let next : 7 * suc i ≡ 7 * i + 7 = omega arith in
          let p-next : 2 ^ (7 * suc i) ≡ 128 * p = ap (λ (t : ℕ). 2 ^ t) next ∙ pow_add7 (7 * i) in
          let split : v * p ≡ (128 * (v / 128) + v % 128) * p =
            ap (λ (t : ℕ). t * p) (omega arith) in
          let least : 128 * p ≤ v * p = mul-le-mul_right p ge in
          let low-le : v % 128 * p ≤ v * p = mul-le-mul_right p (omega arith) in
          let digit : v % 128 * p ≤ 127 * p = mul-le-mul_right p (omega arith) in
          let t =
            encode-Groups fuel (suc i) (v / 128) (r + v % 128 * p) rest (omega (arith, e))
              (room (suc i) (omega (arith, p-next, least, fits)))
              (omega (arith, ap (λ (t : ℕ). v / 128 * t) p-next, split, fits))
              (omega (arith, p-next, digit, r-lt)) in
          record {
            bytes = more_byte v ∷ t.bytes;
            written = encode_groups_more fuel v t.bytes large t.written;
            few = omega (arith, t.few);
            counted = λ l.
                let one_more : suc l + 1 ≡ suc (suc l) = omega arith in
                count_groups_more fuel v (suc l) large
                ∙ ap (count_groups fuel (v / 128)) one_more
                ∙ t.counted (suc l)
                ∙ ap some (omega arith);
            read =
                let shift =
                  ap (λ (x : ℕ). get_groups w last (t.bytes ++ rest) x (r + v % 128 * p)) in
                ap (λ (x : ℕ). get_groups w last (x ∷ (t.bytes ++ rest)) (7 * i) r)
                  (more_byte_lem v)
                ∙ get_groups_more (v % 128) (t.bytes ++ rest) (7 * i) r s-le (omega arith)
                    (omega (arith, low-le, fits)) r-lt
                ∙ shift (sym next)
                ∙ t.read
                ∙ ap (λ (x : ℕ). some (x, rest))
                    (omega (arith, ap (λ (y : ℕ). v / 128 * y) p-next, split));
          }
    ]
