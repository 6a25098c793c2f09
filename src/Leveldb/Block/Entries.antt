-- ===== src/Leveldb/Block/Entries.antt =====
-- One entry of a block: the bytes that `Add` writes, and what `ParseNextKey` reads.
use mathlib.Core.List.{append_assoc}
use wormholefilters.Base.{
  ℕ, ◌+◌, ◌-◌, ◌^◌, ◌≤◌, ◌<◌, ◌≡◌, Option, none, some, List, [], ◌∷◌, ◌++◌, refl, sym, ap, subst,
  ◌∙◌, arith, ltb, ltb→lt, le→ltb, Bool-cases, inl, inr, bit_and, bit_or, le-bit_or,
  le-bit_or_right, u32, length, length-append, length-drop, take, drop, take_append, drop_append,
}
use wormholefilters.Leveldb.Block.{
  slow_sizes, decode_sizes, checked, decode_entry, Scan, scan, parsed, parse_next_key,
}
use wormholefilters.Leveldb.Consume.{next}
use wormholefilters.Leveldb.Getter.Laws.{Reads, Shrinking, Leaves, both-Reads, both-Shrinking}
use wormholefilters.Leveldb.Getter.{both}
use wormholefilters.Base.Slices.{drop-drop}
use wormholefilters.Leveldb.Varint.Encode.{flag_lem}
use wormholefilters.Leveldb.Varint.RoundTrip.{get_varint32-encode_varint32}
use wormholefilters.Leveldb.Varint.Shrink.{length-get_varint32}
use wormholefilters.Leveldb.Varint.{encode_varint32, get_varint32}

one_byte : (b : ℕ) (input : List ℕ) → b < 128 → get_varint32 (b ∷ input) ≡ some (b, input)
unfolding get_varint32
one_byte b input h = let flag : bit_and b 128 ≡ 0 = omega (arith, flag_lem b) in rw flag

-- The fast path of `DecodeEntry` reads what three calls of `GetVarint32Ptr` read.
pub decode_sizes-slow_sizes :
    (a b c : ℕ) (p : List ℕ) → decode_sizes (a ∷ b ∷ c ∷ p) ≡ slow_sizes (a ∷ b ∷ c ∷ p)
unfolding decode_sizes
decode_sizes-slow_sizes a b c p = elim (Bool-cases (ltb (bit_or (bit_or a b) c) 128)) [
  | inr slow ↦ rw slow
  | inl fast ↦
      let small = ltb→lt (bit_or (bit_or a b) c) 128 fast in
      let ab = le-bit_or (bit_or a b) c in
      rw fast (
        sym (
          unfold both in
          rw (
            one_byte a (b ∷ c ∷ p) (omega (arith, small, ab, le-bit_or a b)),
            one_byte b (c ∷ p) (omega (arith, small, ab, le-bit_or_right a b)),
            one_byte c p (omega (arith, small, le-bit_or_right (bit_or a b) c)),
          )))
]

decode_sizes_long : (p : List ℕ) → 3 ≤ length p → decode_sizes p ≡ slow_sizes p
decode_sizes_long [] h = absurd (omega arith)
decode_sizes_long (a ∷ []) h = absurd (omega arith)
decode_sizes_long (a ∷ b ∷ []) h = absurd (omega arith)
decode_sizes_long (a ∷ b ∷ c ∷ p) h = decode_sizes-slow_sizes a b c p

slow_sizes-Shrinking : Shrinking slow_sizes
slow_sizes-Shrinking =
    both-Shrinking get_varint32 (both get_varint32 get_varint32) length-get_varint32
      (both-Shrinking get_varint32 get_varint32 length-get_varint32 length-get_varint32)

decode_sizes-Shrinking : Shrinking decode_sizes
unfolding decode_sizes
decode_sizes-Shrinking [] a rest e = absurd (cc)
decode_sizes-Shrinking (x ∷ []) a rest e = absurd (cc)
decode_sizes-Shrinking (x ∷ y ∷ []) a rest e = absurd (cc)
decode_sizes-Shrinking (x ∷ y ∷ z ∷ p) a rest e =
    slow_sizes-Shrinking (x ∷ y ∷ z ∷ p) a rest (sym (decode_sizes-slow_sizes x y z p) ∙ e)

-- The round leaves less than it got.
parse_next_key-Leaves : (s : Scan) (p : List ℕ) → Leaves p (parse_next_key s p)
unfolding parse_next_key decode_entry
parse_next_key-Leaves s [] = tt
parse_next_key-Leaves s (b ∷ p) =
    after (decode_sizes (b ∷ p)) (λ a rest e. decode_sizes-Shrinking (b ∷ p) a rest e)
  where
    after :
        (o : Option ((ℕ × (ℕ × ℕ)) × List ℕ))
        → ((a : ℕ × (ℕ × ℕ)) (rest : List ℕ) → o ≡ some (a, rest) → length rest < length (b ∷ p))
        → Leaves (b ∷ p) (parsed s (checked o))
    after none h = tt
    after (some ((shared, (non_shared, value_length)), rest)) h =
        let shorter = h (shared, (non_shared, value_length)) rest refl in
        elim (Bool-cases (ltb (u32 (length rest)) (u32 (non_shared + value_length)))) [
          | inl bad ↦ rw bad tt
          | inr fine ↦ rw fine (elim (Bool-cases (ltb (length s.key) shared)) [
            | inl bad ↦ rw bad tt
            | inr good ↦
                rw good (omega (arith, shorter, length-drop (non_shared + value_length) rest))
          ])
        ]

pub parse_next_key_shrinks :
    (s s' : Scan) (p rest : List ℕ) → parse_next_key s p ≡ next s' rest → length rest < length p
parse_next_key_shrinks s s' p rest e = subst (Leaves p) e (parse_next_key-Leaves s p)

unfoldable pub sizes_bytes : ℕ → ℕ → ℕ → List ℕ
sizes_bytes shared non_shared value_length =
    encode_varint32 shared ++ (encode_varint32 non_shared ++ encode_varint32 value_length)

-- The record of a key that shares some bytes with the one before.
unfoldable pub entry_bytes : ℕ → List ℕ → List ℕ → List ℕ
entry_bytes shared key value =
    sizes_bytes shared (length key - shared) (length value) ++ (drop shared key ++ value)

length-encode_varint32 : (v : ℕ) → v < 2 ^ 32 → 1 ≤ length (encode_varint32 v)
length-encode_varint32 v h = omega (
  arith,
  length-get_varint32 (encode_varint32 v ++ []) v [] (get_varint32-encode_varint32 v [] h),
  length-append (encode_varint32 v) [],
)

sizes_bytes-Reads :
    (a b c : ℕ)
    → a < 2 ^ 32
    → b < 2 ^ 32
    → c < 2 ^ 32
    → Reads decode_sizes (sizes_bytes a b c) (a, (b, c))
unfolding sizes_bytes
sizes_bytes-Reads a b c p q r rest =
    let x = encode_varint32 a in
    let y = encode_varint32 b in
    let z = encode_varint32 c in
    let n : 3 ≤ length ((x ++ (y ++ z)) ++ rest) = omega (
      arith,
      length-append (x ++ (y ++ z)) rest,
      length-append x (y ++ z),
      length-append y z,
      length-encode_varint32 a p,
      length-encode_varint32 b q,
      length-encode_varint32 c r,
    ) in
    decode_sizes_long ((x ++ (y ++ z)) ++ rest) n
    ∙ both-Reads get_varint32 (both get_varint32 get_varint32) x (y ++ z) a (b, c)
        (λ l. get_varint32-encode_varint32 a l p)
        (both-Reads get_varint32 get_varint32 y z b c (λ l. get_varint32-encode_varint32 b l q)
          (λ l. get_varint32-encode_varint32 c l r))
        rest

parse_next_key_some :
    (s : Scan) (p : List ℕ) → 0 < length p → parse_next_key s p ≡ parsed s (decode_entry p)
unfolding parse_next_key
parse_next_key_some s [] h = absurd (omega arith)
parse_next_key_some s (b ∷ p) h = refl

-- The sizes and what follows them, when nothing is missing.
checked_fits :
    (shared non_shared value_length : ℕ) (p : List ℕ)
    → non_shared + value_length ≤ length p
    → length p < 2 ^ 32
    → checked (some ((shared, (non_shared, value_length)), p))
      ≡ some ((shared, (non_shared, value_length)), p)
checked_fits shared non_shared value_length p h small =
    rw (le→ltb (u32 (length p)) (u32 (non_shared + value_length)) (omega arith))

parsed_fits :
    (k d value rest : List ℕ) (es : List (List ℕ × List ℕ)) (shared : ℕ)
    → shared ≤ length k
    → parsed (scan k es) (some ((shared, (length d, length value)), d ++ (value ++ rest)))
      ≡ next (scan (take shared k ++ d) (es ++ ((take shared k ++ d, value) ∷ []))) rest
parsed_fits k d value rest es shared h =
    let behind : drop (length d + length value) (d ++ (value ++ rest)) ≡ rest =
      sym (drop-drop (length d) (length value) (d ++ (value ++ rest)))
      ∙ (ap (drop (length value)) (drop_append d (value ++ rest)) ∙ drop_append value rest) in
    rw (
      le→ltb (length k) shared h,
      take_append d (value ++ rest),
      drop_append d (value ++ rest),
      take_append value rest,
      behind,
    )

-- A round on the record of an entry, in a block below 2 ^ 32 bytes.
pub parse_next_key-entry_bytes :
    (k key value rest : List ℕ) (es : List (List ℕ × List ℕ)) (shared : ℕ)
    → shared ≤ length k
    → shared ≤ length key
    → length key < 2 ^ 32
    → length (entry_bytes shared key value ++ rest) < 2 ^ 32
    → parse_next_key (scan k es) (entry_bytes shared key value ++ rest)
      ≡ next
          (scan
            (take shared k ++ drop shared key)
            (es ++ ((take shared k ++ drop shared key, value) ∷ [])))
          rest
unfolding entry_bytes
parse_next_key-entry_bytes k key value rest es shared p q long h =
    let d = drop shared key in
    let sizes = sizes_bytes shared (length key - shared) (length value) in
    let tail = d ++ (value ++ rest) in
    let n : length d ≡ length key - shared = length-drop shared key in
    let parts : (sizes ++ (d ++ value)) ++ rest ≡ sizes ++ tail =
      append_assoc sizes (d ++ value) rest ∙ ap (◌++◌ sizes) (append_assoc d value rest) in
    let size : length sizes + (length d + length value) < 2 ^ 32 = omega (
      arith,
      h,
      length-append (sizes ++ (d ++ value)) rest,
      length-append sizes (d ++ value),
      length-append d value,
    ) in
    let whole : length tail < 2 ^ 32 =
      omega (arith, h, ap length parts, length-append sizes tail) in
    let fits : length d + length value ≤ length tail =
      omega (arith, length-append d (value ++ rest), length-append value rest) in
    let got =
      sizes_bytes-Reads shared (length key - shared) (length value) (omega arith) (omega arith)
        (omega arith) tail in
    let some_bytes =
      decode_sizes-Shrinking (sizes ++ tail) (shared, (length key - shared, length value)) tail
        got in
    parse_next_key_some (scan k es) ((sizes ++ (d ++ value)) ++ rest)
      (omega (arith, some_bytes, ap length parts))
    ∙ (ap (λ (l : List ℕ). parsed (scan k es) (decode_entry l)) parts
        ∙ (ap (parsed (scan k es)) (decoded tail got n whole fits)
            ∙ parsed_fits k d value rest es shared p))
  where
    decoded :
        (tail : List ℕ)
        → decode_sizes (sizes_bytes shared (length key - shared) (length value) ++ tail)
          ≡ some ((shared, (length key - shared, length value)), tail)
        → length (drop shared key) ≡ length key - shared
        → length tail < 2 ^ 32
        → length (drop shared key) + length value ≤ length tail
        → decode_entry (sizes_bytes shared (length key - shared) (length value) ++ tail)
          ≡ some ((shared, (length (drop shared key), length value)), tail)
    decoded tail e n w f =
        unfold decode_entry in
        (ap checked e
          ∙ (ap (λ (k : ℕ). checked (some ((shared, (k, length value)), tail))) (sym n)
              ∙ checked_fits shared (length (drop shared key)) (length value) tail f w))
