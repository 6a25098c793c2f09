-- ===== src/Leveldb/Varint/Shrink.antt =====
-- What the readers leave is shorter, and the bytes of a 64-bit number as a function.
use wormholefilters.Base.{
  ℕ, ◌+◌, ◌*◌, ◌%◌, ◌^◌, ◌≤◌, ◌<◌, ◌≡◌, Option, none, some, List, [], ◌∷◌, ◌++◌, subst,
  if◌then◌else◌, arith, leb, ◌==◌, Bool-cases, inl, inr, bit_and, bit_or, length, length-drop, drop,
  take,
}
use wormholefilters.Leveldb.Varint.RoundTrip.{get_varint64-encode_varint64}
use wormholefilters.Leveldb.Varint.{
  get_groups, get_varint32, get_varint64, get_length_prefixed_slice, encode_varint64, put_varint64,
}

-- The rest of a successful read is shorter than the input.
abbrev Shrinks {ℓ} : {A : Type ℓ} → List ℕ → Option (A × List ℕ) → Type 0
Shrinks input none = Unit
Shrinks input (some (v, rest)) = length rest < length input

get_groups-Shrinks :
    (w last : ℕ) (input : List ℕ) (shift r : ℕ) → Shrinks input (get_groups w last input shift r)
unfolding get_groups
get_groups-Shrinks w last [] shift r = tt
get_groups-Shrinks w last (b ∷ input) shift r =
    let more = bit_or r ((bit_and b 127 * 2 ^ shift) % 2 ^ w) in
    let ih = get_groups-Shrinks w last input (shift + 7) more in
    elim (Bool-cases (leb shift last)) [
      | inr over ↦ rw over tt
      | inl within ↦ rw within (elim (Bool-cases (bit_and b 128 == 0)) [
        | inl end ↦ rw end (omega arith)
        | inr on ↦ rw on (Shrinks-cons b input (get_groups w last input (shift + 7) more) ih)
      ])
    ]
  where
    Shrinks-cons :
        (b : ℕ) (input : List ℕ) (o : Option (ℕ × List ℕ)) → Shrinks input o → Shrinks (b ∷ input) o
    Shrinks-cons b input none h = tt
    Shrinks-cons b input (some (v, rest)) h = omega (arith, h)

Shrinks-some {ℓ} :
    {A : Type ℓ} (input : List ℕ) (o : Option (A × List ℕ)) (v : A) (rest : List ℕ)
    → Shrinks input o
    → o ≡ some (v, rest)
    → length rest < length input
Shrinks-some input o v rest h e = subst (Shrinks input) e h

get_varint32-Shrinks : (input : List ℕ) → Shrinks input (get_varint32 input)
unfolding get_varint32
get_varint32-Shrinks [] = get_groups-Shrinks 32 28 [] 0 0
get_varint32-Shrinks (b ∷ input) = elim (Bool-cases (bit_and b 128 == 0)) [
  | inl end ↦ rw end (omega arith)
  | inr on ↦ rw on (get_groups-Shrinks 32 28 (b ∷ input) 0 0)
]

pub length-get_varint32 :
    (input : List ℕ) (v : ℕ) (rest : List ℕ)
    → get_varint32 input ≡ some (v, rest)
    → length rest < length input
length-get_varint32 input v rest e =
    Shrinks-some input (get_varint32 input) v rest (get_varint32-Shrinks input) e

pub length-get_varint64 :
    (input : List ℕ) (v : ℕ) (rest : List ℕ)
    → get_varint64 input ≡ some (v, rest)
    → length rest < length input
unfolding get_varint64
length-get_varint64 input v rest e =
    Shrinks-some input (get_varint64 input) v rest (get_groups-Shrinks 64 63 input 0 0) e

get_length_prefixed_slice-Shrinks :
    (input : List ℕ) → Shrinks input (get_length_prefixed_slice input)
unfolding get_length_prefixed_slice
get_length_prefixed_slice-Shrinks input =
    by_length (get_varint32 input) (get_varint32-Shrinks input)
  where
    by_length :
        (o : Option (ℕ × List ℕ))
        → Shrinks input o
        → Shrinks {A = List ℕ} input (elim o [
          | none ↦ none
          | some (len, rest) ↦
              if leb len (length rest) then some (take len rest, drop len rest) else none
        ])
    by_length none h = tt
    by_length (some (len, rest)) h = elim (Bool-cases (leb len (length rest))) [
      | inl fits ↦ rw fits (omega (arith, h, length-drop len rest))
      | inr short ↦ rw short tt
    ]

pub length-get_length_prefixed_slice :
    (input value rest : List ℕ)
    → get_length_prefixed_slice input ≡ some (value, rest)
    → length rest < length input
length-get_length_prefixed_slice input value rest e =
    Shrinks-some input (get_length_prefixed_slice input) value rest
      (get_length_prefixed_slice-Shrinks input) e

-- The bytes that `PutVarint64` appends; ten rounds of its loop are enough for them.
unfoldable pub varint64 : ℕ → List ℕ
varint64 v = elim (encode_varint64 v) [ none ↦ [] | some bytes ↦ bytes ]

varint64_lem : (v : ℕ) (bytes : List ℕ) → encode_varint64 v ≡ some bytes → varint64 v ≡ bytes
unfolding varint64
varint64_lem v bytes e = rw (e, varint64)

pub put_varint64-varint64 :
    (dst : List ℕ) (v : ℕ) → v < 2 ^ 64 → put_varint64 dst v ≡ some (dst ++ varint64 v)
unfolding put_varint64
put_varint64-varint64 dst v h =
    let t = get_varint64-encode_varint64 v [] h in rw (t.1, varint64_lem v t.0 t.1, put_varint64)

pub get_varint64-varint64 :
    (v : ℕ) (rest : List ℕ) → v < 2 ^ 64 → get_varint64 (varint64 v ++ rest) ≡ some (v, rest)
get_varint64-varint64 v rest h =
    let t = get_varint64-encode_varint64 v rest h in rw (varint64_lem v t.0 t.1) t.4

pub length-varint64 : (v : ℕ) → v < 2 ^ 64 → length (varint64 v) ≤ 10
length-varint64 v h = let t = get_varint64-encode_varint64 v [] h in rw (varint64_lem v t.0 t.1) t.2
