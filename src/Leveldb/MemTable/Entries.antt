-- ===== src/Leveldb/MemTable/Entries.antt =====
-- The entries of a memtable.
use mathlib.Core.List.{append_assoc, append-nil}
use wormholefilters.Base.{
  bit_and_mask, ℕ, ◌+◌, ◌%◌, ◌^◌, ◌<◌, ◌≡◌, true, false, Option, none, some, List, [], ◌++◌, ◌==◌,
  refl, sym, ap, ◌∙◌, arith, if◌then◌else◌, u32, bit_and, length, length-append, take_append,
  drop_append,
}
use wormholefilters.Leveldb.Coding.{encode_fixed64}
use wormholefilters.Leveldb.Coding.RoundTrip.{length-encode_fixed64}
use wormholefilters.Leveldb.Comparator.{Comparator}
use wormholefilters.Leveldb.Compaction.Reads.{Item}
use wormholefilters.Leveldb.Compaction.{is_equal}
use wormholefilters.Leveldb.DbFormat.Keys.{
  append_internal_key-tagged, extract_user_key-tagged, trailer-tagged, packed-lt, pack_lem,
}
use wormholefilters.Leveldb.DbFormat.{
  new_lookup_key, memtable_key, ValueType, deletion, value, type_code, ParsedInternalKey,
  pack_sequence_and_type, append_internal_key, extract_user_key, trailer,
}
use wormholefilters.Leveldb.MemTable.{
  get_slice, slice, new_entry, Answer, found_value, found_deletion, not_here, check_entry,
}
use wormholefilters.Leveldb.Varint.RoundTrip.{get_varint32-encode_varint32}
use wormholefilters.Leveldb.Varint.{encode_varint32}

-- The sizes that an entry of a memtable can have.
abbrev pub IsFitting : Item → Type 0
IsFitting x =
    (length x.ikey.user_key + 8 < 2 ^ 32) × ((length x.val < 2 ^ 32) × (x.ikey.sequence < 2 ^ 56))

abbrev pub entry_of : Item → List ℕ
entry_of x = new_entry x.ikey.sequence x.ikey.type x.ikey.user_key x.val

get_slice-encoded :
    (v rest : List ℕ)
    → length v < 2 ^ 32
    → get_slice (encode_varint32 (u32 (length v)) ++ (v ++ rest)) ≡ (v, rest)
unfolding get_slice
get_slice-encoded v rest h =
    let n : u32 (length v) ≡ length v = omega (arith, h) in
    rw (
      get_slice,
      n,
      get_varint32-encode_varint32 (length v) (v ++ rest) h,
      take_append v rest,
      drop_append v rest,
    )

-- The first slice of an entry is its internal key, and the second its value.
pub get_slice-new_entry :
    (x : Item)
    → IsFitting x
    → get_slice (entry_of x)
      ≡ (append_internal_key [] x.ikey, encode_varint32 (u32 (length x.val)) ++ (x.val ++ []))
unfolding new_entry pack_sequence_and_type
get_slice-new_entry x (k, (v, s)) =
    let n = pack_sequence_and_type x.ikey.sequence x.ikey.type in
    let tail = encode_varint32 (u32 (length x.val)) ++ x.val in
    let key = x.ikey.user_key ++ encode_fixed64 n in
    let len : length x.ikey.user_key + 8 ≡ length key =
      omega (arith, length-append x.ikey.user_key (encode_fixed64 n), length-encode_fixed64 n) in
    ap get_slice (
      ap (λ (m : ℕ). encode_varint32 (u32 m) ++ (x.ikey.user_key ++ (encode_fixed64 n ++ tail))) len
      ∙ ap (◌++◌ (encode_varint32 (u32 (length key))))
          (sym (append_assoc x.ikey.user_key (encode_fixed64 n) tail)))
    ∙ (get_slice-encoded key tail (omega (arith, k, len))
        ∙ pair (sym (append_internal_key-tagged [] x.ikey))
            (ap (◌++◌ (encode_varint32 (u32 (length x.val)))) (sym (append-nil x.val))))
  where
    pair : {a b c d : List ℕ} → a ≡ b → c ≡ d → ◌≡◌ {A = List ℕ × List ℕ} (a, c) (b, d)
    pair p q = rw (p, q)

unfoldable pub answer_of : Option (ValueType × List ℕ) → Answer
answer_of none = not_here
answer_of (some (value, val)) = found_value val
answer_of (some (deletion, val)) = found_deletion

user_key_lem :
    (ikey : ParsedInternalKey) → extract_user_key (append_internal_key [] ikey) ≡ ikey.user_key
user_key_lem ikey =
    ap extract_user_key (append_internal_key-tagged [] ikey)
    ∙ extract_user_key-tagged ikey.user_key (pack_sequence_and_type ikey.sequence ikey.type)

tag_lem :
    (ikey : ParsedInternalKey)
    → ikey.sequence < 2 ^ 56
    → bit_and (trailer (append_internal_key [] ikey)) 0xff ≡ type_code ikey.type
tag_lem ikey h =
    let n = pack_sequence_and_type ikey.sequence ikey.type in
    ap (λ (k : List ℕ). bit_and (trailer k) 0xff) (append_internal_key-tagged [] ikey)
    ∙ (ap (λ (n : ℕ). bit_and n 0xff)
          (trailer-tagged ikey.user_key n (packed-lt ikey.sequence ikey.type h))
        ∙ (bit_and_mask 8 n ∙ low_byte ikey.type))
  where
    low_byte : (t : ValueType) → pack_sequence_and_type ikey.sequence t % 2 ^ 8 ≡ type_code t
    low_byte deletion = omega (arith, pack_lem ikey.sequence deletion h)
    low_byte value = omega (arith, pack_lem ikey.sequence value h)

by_type :
    (t : ValueType) (v : List ℕ)
    → (if type_code t == 1
        then found_value v
        else if type_code t == 0
        then found_deletion
        else not_here)
      ≡ answer_of (some (t, v))
unfolding answer_of
by_type deletion v = refl
by_type value v = refl

-- An entry of the key is the answer.
pub check_entry_same :
    (ucmp : Comparator) (k : List ℕ) (x : Item)
    → IsFitting x
    → is_equal (ucmp.compare x.ikey.user_key k) ≡ true
    → check_entry ucmp k (entry_of x) ≡ answer_of (some (x.ikey.type, x.val))
unfolding check_entry
check_entry_same ucmp k x (n, (v, s)) e =
    let val = ap (λ (p : List ℕ × List ℕ). (p).0) (get_slice-encoded x.val [] v) in
    rw (check_entry, get_slice-new_entry x (n, (v, s)), user_key_lem x.ikey, e, tag_lem x.ikey s)
      (ap
          (λ (v : List ℕ).
            if type_code x.ikey.type == 1
            then found_value v
            else if type_code x.ikey.type == 0
            then found_deletion
            else not_here)
          val
        ∙ by_type x.ikey.type x.val)

pub check_entry_other :
    (ucmp : Comparator) (k : List ℕ) (x : Item)
    → IsFitting x
    → is_equal (ucmp.compare x.ikey.user_key k) ≡ false
    → check_entry ucmp k (entry_of x) ≡ not_here
unfolding check_entry
check_entry_other ucmp k x f e = rw (check_entry, get_slice-new_entry x f, user_key_lem x.ikey, e)

-- The slice of a lookup key is its internal key.
pub slice-new_lookup_key :
    (k : List ℕ) (snapshot : ℕ)
    → length k + 8 < 2 ^ 32
    → slice (memtable_key (new_lookup_key k snapshot))
      ≡ append_internal_key [] (record { user_key = k; sequence = snapshot; type = value })
unfolding memtable_key new_lookup_key
slice-new_lookup_key k snapshot h =
    let n = pack_sequence_and_type snapshot value in
    let key = k ++ encode_fixed64 n in
    let len : length k + 8 ≡ length key =
      omega (arith, length-append k (encode_fixed64 n), length-encode_fixed64 n) in
    ap slice (
      ap (λ (m : ℕ). encode_varint32 (u32 m) ++ key) len
      ∙ ap (◌++◌ (encode_varint32 (u32 (length key)))) (sym (append-nil key)))
    ∙ (ap (λ (p : List ℕ × List ℕ). (p).0) (get_slice-encoded key [] (omega (arith, h, len)))
        ∙ sym (
            append_internal_key-tagged []
              (record { user_key = k; sequence = snapshot; type = value })))
