-- ===== src/Leveldb/Varint/RoundTrip.antt =====
-- The round trips of the two widths and of strings, and the unrolled encoder.
use native.Mathlib.Decide.{dec_lt}
use native.Mathlib.Nat.{pow-le-pow_right}
use mathlib.Core.List.{append_assoc}
use wormholefilters.Base.{
  ℕ, suc, ◌*◌, ◌/◌, ◌^◌, ◌≤◌, ◌<◌, ◌≡◌, some, List, [], ◌∷◌, ◌++◌, refl, sym, ap, ◌∙◌, arith,
  le→leb, lt→leb, lt→ltb, le→ltb, u8, u32, bit_and, length, length-append, take, drop, take_append,
  drop_append,
}
use wormholefilters.Leveldb.Varint.Encode.{
  more_byte_lem, flag_lem, encode_groups_last, encode_groups_more, Groups, encode-Groups,
}
use wormholefilters.Leveldb.Varint.{
  more_byte, encode_varint32, put_varint32, encode_groups, encode_varint64, varint_length,
  get_groups, get_varint32, get_varint64, put_length_prefixed_slice, get_length_prefixed_slice,
}

lt_of_pow : (a b : ℕ) → 2 ^ a < 2 ^ b → a < b
lt_of_pow a b h = elim (dec_lt a b) [
  | yes lt ↦ lt
  | no ge ↦
      let le : 2 ^ b ≤ 2 ^ a = pow-le-pow_right (omega arith) (omega arith) in
      absurd (omega (arith, le))
]

groups64 : (v : ℕ) (rest : List ℕ) → v < 2 ^ 64 → Groups 64 63 10 0 v 0 rest
groups64 v rest h =
    encode-Groups 64 63 (omega arith) (λ i lt. omega (arith, lt_of_pow (7 * i) 64 lt)) 10 0 v 0 rest
      refl (omega arith) (omega arith) (omega arith)

groups32 : (v : ℕ) (rest : List ℕ) → v < 2 ^ 32 → Groups 32 28 10 0 v 0 rest
groups32 v rest h =
    encode-Groups 32 28 (omega arith) (λ i lt. omega (arith, lt_of_pow (7 * i) 32 lt)) 10 0 v 0 rest
      refl (omega arith) (omega arith) (omega arith)

-- A number below 2 ^ 64 is written in at most ten bytes, as many as `VarintLength` says, and
-- `GetVarint64` reads it back and leaves what follows.
pub get_varint64-encode_varint64 :
    (v : ℕ) (rest : List ℕ)
    → v < 2 ^ 64
    → (bytes : List ℕ) × (encode_varint64 v ≡ some bytes)
      × (length bytes ≤ 10)
      × (varint_length v ≡ some (length bytes))
      × (get_varint64 (bytes ++ rest) ≡ some (v, rest))
unfolding encode_varint64 varint_length get_varint64
get_varint64-encode_varint64 v rest h =
    let t = groups64 v rest h in
    (
      t.bytes,
      t.written,
      t.few,
      t.counted 0 ∙ ap some (omega arith),
      t.read ∙ ap (λ (x : ℕ). some (x, rest)) (omega arith),
    )

-- The loop on a number of at least two, three and four groups.
module _ (v : ℕ) (bytes : List ℕ) where
  groups_2 :
      2 ^ 7 ≤ v
      → encode_groups 9 (v / 2 ^ 7) ≡ some bytes
      → encode_groups 10 v ≡ some (more_byte v ∷ bytes)
  groups_2 h e = encode_groups_more 9 v bytes (le→leb 128 v h) e

  groups_3 :
      2 ^ 14 ≤ v
      → encode_groups 8 (v / 2 ^ 14) ≡ some bytes
      → encode_groups 9 (v / 2 ^ 7) ≡ some (more_byte (v / 2 ^ 7) ∷ bytes)
  groups_3 h e =
      let q : v / 2 ^ 7 / 128 ≡ v / 2 ^ 14 = omega arith in
      encode_groups_more 8 (v / 2 ^ 7) bytes (le→leb 128 (v / 2 ^ 7) (omega arith)) (rw q e)

  groups_4 :
      2 ^ 21 ≤ v
      → encode_groups 7 (v / 2 ^ 21) ≡ some bytes
      → encode_groups 8 (v / 2 ^ 14) ≡ some (more_byte (v / 2 ^ 14) ∷ bytes)
  groups_4 h e =
      let q : v / 2 ^ 14 / 128 ≡ v / 2 ^ 21 = omega arith in
      encode_groups_more 7 (v / 2 ^ 14) bytes (le→leb 128 (v / 2 ^ 14) (omega arith)) (rw q e)

  groups_5 :
      2 ^ 28 ≤ v
      → encode_groups 6 (v / 2 ^ 28) ≡ some bytes
      → encode_groups 7 (v / 2 ^ 21) ≡ some (more_byte (v / 2 ^ 21) ∷ bytes)
  groups_5 h e =
      let q : v / 2 ^ 21 / 128 ≡ v / 2 ^ 28 = omega arith in
      encode_groups_more 6 (v / 2 ^ 21) bytes (le→leb 128 (v / 2 ^ 21) (omega arith)) (rw q e)

last_group : (fuel v : ℕ) → v < 2 ^ 7 → encode_groups (suc fuel) v ≡ some (u8 v ∷ [])
last_group fuel v h = encode_groups_last fuel v (lt→leb v 128 h)

-- The branches of `EncodeVarint32` from two bytes on.
unrolled :
    (v : ℕ)
    → v < 2 ^ 32
    → 2 ^ 7 ≤ v
    → (tail : List ℕ) × (encode_varint32 v ≡ more_byte v ∷ tail)
      × (encode_groups 9 (v / 2 ^ 7) ≡ some tail)
unfolding encode_varint32
unrolled v h ge = rw (le→ltb v (2 ^ 7) ge) (elim (dec_lt v (2 ^ 14)) [
  | yes l₂ ↦ rw (lt→ltb v (2 ^ 14) l₂) (_, refl, last_group 8 (v / 2 ^ 7) (omega arith))
  | no g₂ ↦ rw (le→ltb v (2 ^ 14) (omega arith)) (elim (dec_lt v (2 ^ 21)) [
    | yes l₃ ↦
        rw (lt→ltb v (2 ^ 21) l₃)
          (_, refl, groups_3 v _ (omega arith) (last_group 7 (v / 2 ^ 14) (omega arith)))
    | no g₃ ↦ rw (le→ltb v (2 ^ 21) (omega arith)) (elim (dec_lt v (2 ^ 28)) [
      | yes l₄ ↦ rw (lt→ltb v (2 ^ 28) l₄) (
        _,
        refl,
        groups_3 v _ (omega arith)
            (groups_4 v _ (omega arith) (last_group 6 (v / 2 ^ 21) (omega arith))),
      )
      | no g₄ ↦ rw (le→ltb v (2 ^ 28) (omega arith)) (
        _,
        refl,
        groups_3 v _ (omega arith) (
            groups_4 v _ (omega arith)
              (groups_5 v _ (omega arith) (last_group 5 (v / 2 ^ 28) (omega arith)))),
      )
    ])
  ])
])

-- The unrolled `EncodeVarint32` writes the same bytes as the loop of `EncodeVarint64`.
pub encode_varint64-encode_varint32 :
    (v : ℕ) → v < 2 ^ 32 → encode_varint64 v ≡ some (encode_varint32 v)
unfolding encode_varint64
encode_varint64-encode_varint32 v h = elim (dec_lt v (2 ^ 7)) [
  | yes lt ↦ last_group 9 v lt ∙ ap some (unfold encode_varint32 in rw (lt→ltb v (2 ^ 7) lt))
  | no ge ↦
      let (tail, e, more) = unrolled v h (omega arith) in
      groups_2 v tail (omega arith) more ∙ ap some (sym e)
]

some-injective : (a b : List ℕ) → some a ≡ some b → a ≡ b
some-injective a b e = cc

-- A number of more than one byte takes the loop.
get_varint32_slow :
    (v : ℕ) (bytes tail rest : List ℕ)
    → bytes ≡ more_byte v ∷ tail
    → get_varint32 (bytes ++ rest) ≡ get_groups 32 28 (bytes ++ rest) 0 0
unfolding get_varint32
get_varint32_slow v bytes tail rest e =
    let flag : bit_and (more_byte v) 128 ≡ 128 =
      omega (arith, flag_lem (more_byte v), more_byte_lem v) in
    rw (e, flag)

-- `GetVarint32` reads back what `EncodeVarint32` writes, and leaves what follows.
pub get_varint32-encode_varint32 :
    (v : ℕ) (rest : List ℕ) → v < 2 ^ 32 → get_varint32 (encode_varint32 v ++ rest) ≡ some (v, rest)
unfolding encode_varint64
get_varint32-encode_varint32 v rest h = elim (dec_lt v (2 ^ 7)) [
  | yes lt ↦
      let flag : bit_and v 128 ≡ 0 = omega (arith, flag_lem v) in
      let e : encode_varint32 v ≡ v ∷ [] =
        let whole : u8 v ≡ v = omega arith in
        unfold encode_varint32 in rw (lt→ltb v (2 ^ 7) lt, whole) in
      rw e (unfold get_varint32 in rw flag)
  | no ge ↦
      let t = groups32 v rest h in
      let (tail, e, more) = unrolled v h (omega arith) in
      let bytes =
        some-injective t.bytes (encode_varint32 v)
          (sym t.written ∙ encode_varint64-encode_varint32 v h) in
      get_varint32_slow v (encode_varint32 v) tail rest e
      ∙ ap (λ (x : List ℕ). get_groups 32 28 (x ++ rest) 0 0) (sym bytes)
      ∙ t.read
      ∙ ap (λ (x : ℕ). some (x, rest)) (omega arith)
]

get_length_prefixed_slice_hit :
    (input rest : List ℕ) (len : ℕ)
    → get_varint32 input ≡ some (len, rest)
    → len ≤ length rest
    → get_length_prefixed_slice input ≡ some (take len rest, drop len rest)
unfolding get_length_prefixed_slice
get_length_prefixed_slice_hit input rest len e le =
    rw (e, get_length_prefixed_slice) (rw (le→leb len (length rest) le))

-- A string of less than 2 ^ 32 bytes that is written with its length is read back, and what
-- follows is left.
pub get_length_prefixed_slice-put_length_prefixed_slice :
    (value rest : List ℕ)
    → length value < 2 ^ 32
    → get_length_prefixed_slice (put_length_prefixed_slice [] value ++ rest) ≡ some (value, rest)
unfolding put_length_prefixed_slice put_varint32
get_length_prefixed_slice-put_length_prefixed_slice value rest h =
    let n = length value in
    let whole : u32 n ≡ n = omega arith in
    rw (whole, append_assoc (encode_varint32 n) value rest)
      (get_length_prefixed_slice_hit (encode_varint32 n ++ (value ++ rest)) (value ++ rest) n
          (get_varint32-encode_varint32 n (value ++ rest) h)
          (omega (arith, length-append value rest))
        ∙ rw (take_append value rest, drop_append value rest))
