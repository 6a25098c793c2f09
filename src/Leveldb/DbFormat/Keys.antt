-- ===== src/Leveldb/DbFormat/Keys.antt =====
-- Internal keys are parsed back, and a lookup key holds the internal key of its arguments.
use mathlib.Core.List.{append_assoc, append-nil}
use wormholefilters.Base.{
  ℕ, ◌+◌, ◌-◌, ◌*◌, ◌/◌, ◌%◌, ◌^◌, ◌≤◌, ◌<◌, ◌≡◌, none, some, List, [], ◌++◌, sym, ap, ◌∙◌, arith,
  leb, ◌==◌, if◌then◌else◌, le→ltb, u32, u64, bit_and_mask, bit_or_disjoint, length, length-append,
  drop, take_append, drop_append, byte_at-append_right,
}
use wormholefilters.Leveldb.Coding.RoundTrip.{decode_fixed64-encode_fixed64, length-encode_fixed64}
use wormholefilters.Leveldb.Coding.{encode_fixed64, decode_fixed64, put_fixed64}
use wormholefilters.Leveldb.Varint.{encode_varint32, put_varint32, put_length_prefixed_slice}
use wormholefilters.Leveldb.DbFormat.{
  ValueType, deletion, value, type_code, ParsedInternalKey, pack_sequence_and_type,
  append_internal_key, extract_user_key, trailer, parse_internal_key, new_lookup_key, internal_key,
  user_key_of, memtable_key,
}

-- A number is read where the first of two strings ends.
decode_fixed64-append_right :
    (xs ys : List ℕ) → decode_fixed64 (xs ++ ys) (length xs) ≡ decode_fixed64 ys 0
unfolding decode_fixed64
decode_fixed64-append_right xs ys =
    let r = byte_at-append_right xs ys in rw (r 0, r 1, r 2, r 3, r 4, r 5, r 6, r 7)

-- The packed number has the sequence above the type.
pub pack_lem :
    (seq : ℕ) (t : ValueType)
    → seq < 2 ^ 56
    → pack_sequence_and_type seq t ≡ seq * 256 + type_code t
unfolding pack_sequence_and_type
pack_lem seq t h =
    let e : u64 (seq * 256) ≡ seq * 256 = omega arith in
    rw e (bit_or_disjoint 8 seq (type_code t) (code-lt t))
  where
    code-lt : (t : ValueType) → type_code t < 2 ^ 8
    code-lt deletion = omega arith
    code-lt value = omega arith

pub packed-lt : (seq : ℕ) (t : ValueType) → seq < 2 ^ 56 → pack_sequence_and_type seq t < 2 ^ 64
packed-lt seq deletion h = omega (arith, pack_lem seq deletion h)
packed-lt seq value h = omega (arith, pack_lem seq value h)

-- The two parts of a user key with a packed number behind it.
module _ (u : List ℕ) (n : ℕ) where
  length_tagged : length (u ++ encode_fixed64 n) - 8 ≡ length u
  length_tagged = omega (arith, length-append u (encode_fixed64 n), length-encode_fixed64 n)

  pub extract_user_key-tagged : extract_user_key (u ++ encode_fixed64 n) ≡ u
  unfolding extract_user_key
  extract_user_key-tagged = rw length_tagged (take_append u (encode_fixed64 n))

  pub trailer-tagged : n < 2 ^ 64 → trailer (u ++ encode_fixed64 n) ≡ n
  unfolding trailer
  trailer-tagged h = rw length_tagged (
      decode_fixed64-append_right u (encode_fixed64 n)
      ∙ ap (λ (x : List ℕ). decode_fixed64 x 0) (sym (append-nil (encode_fixed64 n)))
      ∙ decode_fixed64-encode_fixed64 n [] h)

abbrev pub tagged : ParsedInternalKey → List ℕ
tagged key = key.user_key ++ encode_fixed64 (pack_sequence_and_type key.sequence key.type)

pub append_internal_key-tagged :
    (result : List ℕ) (key : ParsedInternalKey)
    → append_internal_key result key ≡ result ++ tagged key
unfolding append_internal_key put_fixed64
append_internal_key-tagged result key =
    append_assoc result key.user_key (encode_fixed64 (pack_sequence_and_type key.sequence key.type))

parse_tagged :
    (u : List ℕ) (n : ℕ) (t : ValueType) (seq : ℕ)
    → n < 2 ^ 64
    → n ≡ seq * 256 + type_code t
    → parse_internal_key (u ++ encode_fixed64 n)
      ≡ some (record { user_key = u; sequence = seq; type = t })
unfolding parse_internal_key
parse_tagged u n t seq h e =
    let len : 8 ≤ length (u ++ encode_fixed64 n) =
      omega (arith, length-append u (encode_fixed64 n), length-encode_fixed64 n) in
    rw (le→ltb _ 8 len, trailer-tagged u n h, extract_user_key-tagged u n, bit_and_mask 8 n)
      (by_type t e)
  where
    key : ℕ → ValueType → ParsedInternalKey
    key s t = record { user_key = u; sequence = s; type = t }

    by_type :
        (t : ValueType)
        → n ≡ seq * 256 + type_code t
        → (if leb (n % 2 ^ 8) 1
            then some (key (n / 2 ^ 8) (if n % 2 ^ 8 == 0 then deletion else value))
            else none)
          ≡ some (key seq t)
    by_type deletion e =
        let c : n % 2 ^ 8 ≡ 0 = omega (arith, e) in
        let s : n / 2 ^ 8 ≡ seq = omega (arith, e) in rw (c, s)
    by_type value e =
        let c : n % 2 ^ 8 ≡ 1 = omega (arith, e) in
        let s : n / 2 ^ 8 ≡ seq = omega (arith, e) in rw (c, s)

-- A key that `AppendInternalKey` has appended to an empty string is parsed back by `ParseInternalKey`, if
-- its sequence number is below 2 ^ 56.
pub parse_internal_key-append_internal_key :
    (key : ParsedInternalKey)
    → key.sequence < 2 ^ 56
    → parse_internal_key (append_internal_key [] key) ≡ some key
parse_internal_key-append_internal_key key h =
    let n = pack_sequence_and_type key.sequence key.type in
    rw (append_internal_key-tagged [] key) (
      parse_tagged key.user_key n key.type key.sequence (packed-lt key.sequence key.type h)
        (pack_lem key.sequence key.type h))

length-encode_varint32 : (v : ℕ) → length (encode_varint32 v) ≤ 5
unfolding encode_varint32
length-encode_varint32 v = ground arith

-- A lookup key holds the internal key of its arguments with the highest type, its user key, and
-- as the key of a memtable that internal key behind its length; its bytes fit in the array that
-- the constructor takes.
pub new_lookup_key_lem :
    (u : List ℕ) (s : ℕ)
    → (internal_key (new_lookup_key u s)
        ≡ append_internal_key [] (record { user_key = u; sequence = s; type = value }))
      × (user_key_of (new_lookup_key u s) ≡ u)
      × (memtable_key (new_lookup_key u s)
          ≡ put_length_prefixed_slice [] (internal_key (new_lookup_key u s)))
      × (length (memtable_key (new_lookup_key u s)) ≤ length u + 13)
unfolding internal_key user_key_of memtable_key new_lookup_key put_length_prefixed_slice
    put_varint32
new_lookup_key_lem u s =
    let e = encode_fixed64 (pack_sequence_and_type s value) in
    let v = encode_varint32 (u32 (length u + 8)) in
    let key : ParsedInternalKey = record { user_key = u; sequence = s; type = value } in
    let cut : drop (length v) (v ++ (u ++ e)) ≡ u ++ e = drop_append v (u ++ e) in
    let len : length (u ++ e) ≡ length u + 8 =
      omega (arith, length-append u e, length-encode_fixed64 (pack_sequence_and_type s value)) in
    let user : length (v ++ (u ++ e)) - length v - 8 ≡ length u =
      omega (arith, length-append v (u ++ e), len) in
    (
      cut ∙ sym (append_internal_key-tagged [] key),
      rw (user, cut) (take_append u e),
      rw (cut, len),
      omega (arith, length-append v (u ++ e), len, length-encode_varint32 (u32 (length u + 8))),
    )
