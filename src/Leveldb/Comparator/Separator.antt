-- ===== src/Leveldb/Comparator/Separator.antt =====
-- `FindShortestSeparator` and `FindShortSuccessor` against the order.
use Prim.Native.Nat.{compare, Ordering, min}
use native.Mathlib.Decide.{dec_lt, ℕ_discrete}
use wormholefilters.Base.{
  ℕ, suc, ◌+◌, ◌^◌, ◌≤◌, ◌<◌, ◌≡◌, ◌≢◌, ◌⊎◌, inl, inr, Bool, true, false, ◌&&◌, List, [], ◌∷◌, refl,
  sym, ap, subst, ◌∙◌, arith, ltb, leb, ◌==◌, if◌then◌else◌, Bool-cases, u8, length, take, set,
  byte_at, IsBytes, le→leb, lt→leb, ==→ne,
}
use wormholefilters.Leveldb.Comparator.Order.{
  lex, lex_refl, compare_slice-lex, IsTotalOrder, compare_slice-IsTotalOrder,
}
use wormholefilters.Leveldb.Comparator.{
  compare_slice, separator_at, diff_index, find_shortest_separator, find_short_successor,
  Comparator, bytewise_comparator,
}

leb-min-suc : (m n i : ℕ) → leb (min (suc m) (suc n)) (suc i) ≡ leb (min m n) i
leb-min-suc m n i = let e : min (suc m) (suc n) ≡ suc (min m n) = omega arith in rw e (ground arith)

if_cons :
    (b : Bool) (x : ℕ) (xs ys : List ℕ)
    → (if b then x ∷ xs else x ∷ ys) ≡ x ∷ (if b then xs else ys)
if_cons true x xs ys = refl
if_cons false x xs ys = refl

separator_at-suc :
    (x : ℕ) (start limit : List ℕ) (i : ℕ)
    → separator_at (x ∷ start) (x ∷ limit) (suc i) ≡ x ∷ separator_at start limit i
unfolding separator_at
separator_at-suc x start limit i =
    let b = byte_at start i in
    let e : suc i + 1 ≡ suc (i + 1) = omega arith in
    let cut = take (i + 1) (set start i (u8 (b + 1))) in
    let shorten = ltb b 255 && ltb (b + 1) (byte_at limit i) in
    rw (leb-min-suc (length start) (length limit) i, e, if_cons shorten x cut start)
      (if_cons (leb (min (length start) (length limit)) i) x start (if shorten then cut else start))

diff_index-cons :
    (x : ℕ) (start limit : List ℕ)
    → diff_index (x ∷ start) (x ∷ limit) ≡ suc (diff_index start limit)
unfolding diff_index
diff_index-cons x start limit = ground arith

-- The byte of a common prefix stays.
separator-cons :
    (x : ℕ) (start limit : List ℕ)
    → find_shortest_separator (x ∷ start) (x ∷ limit) ≡ x ∷ find_shortest_separator start limit
unfolding find_shortest_separator
separator-cons x start limit =
    rw (diff_index-cons x start limit) (separator_at-suc x start limit (diff_index start limit))

-- The first byte that differs is raised, or the start stays.
separator-ne :
    (x y : ℕ) (start limit : List ℕ)
    → x < y
    → (find_shortest_separator (x ∷ start) (y ∷ limit) ≡ x ∷ start)
      ⊎ ((find_shortest_separator (x ∷ start) (y ∷ limit) ≡ (x + 1) ∷ []) × (x + 1 < y))
unfolding find_shortest_separator diff_index separator_at
separator-ne x y start limit h =
    let ne : (x == y) ≡ false = ground arith in
    let some_bytes : leb (min (suc (length start)) (suc (length limit))) 0 ≡ false =
      lt→leb 0 (min (suc (length start)) (suc (length limit))) (omega arith) in
    elim (Bool-cases (ltb x 255 && ltb (x + 1) y)) [
      | inr keep ↦ inl (rw (ne, some_bytes, keep))
      | inl cut ↦
          let small : x < 255 = ground arith in
          let below : x + 1 < y = ground arith in
          let byte : u8 (x + 1) ≡ x + 1 = omega arith in inr (rw (ne, some_bytes, cut, byte), below)
    ]

-- A key from `start` on and before `limit`, and no longer than `start`.
record Separates (start limit sep : List ℕ) : Type 0 where
  from : lex start sep ≢ Ordering.gt
  before : lex sep limit ≡ Ordering.lt
  short : length sep ≤ length start

lex-cons : (x : ℕ) (a b : List ℕ) → lex (x ∷ a) (x ∷ b) ≡ lex a b
unfolding lex
lex-cons x a b = let e : compare x x ≡ Ordering.eq = ground arith in rw e

lex_of_lt : (x y : ℕ) (a b : List ℕ) → x < y → lex (x ∷ a) (y ∷ b) ≡ Ordering.lt
unfolding lex
lex_of_lt x y a b h = let e : compare x y ≡ Ordering.lt = ground arith in rw e

-- The first bytes of two strings in order.
lex_heads :
    (x y : ℕ) (a b : List ℕ)
    → lex (x ∷ a) (y ∷ b) ≡ Ordering.lt
    → (x < y) ⊎ ((x ≡ y) × (lex a b ≡ Ordering.lt))
unfolding lex
lex_heads x y a b h = elim (dec_lt x y) [
  | yes lt ↦ inl lt
  | no ge ↦ elim (ℕ_discrete x y) [ yes e ↦ inr (e, ground arith) | no ne ↦ absurd (ground arith) ]
]

start-Separates :
    (start limit : List ℕ) → lex start limit ≡ Ordering.lt → Separates start limit start
start-Separates start limit h = record {
  from = λ e. cc (sym e ∙ lex_refl start);
  before = h;
  short = omega arith;
}

raised-Separates :
    (x y : ℕ) (start limit : List ℕ) → x + 1 < y → Separates (x ∷ start) (y ∷ limit) ((x + 1) ∷ [])
raised-Separates x y start limit h = record {
  from = λ e. cc (lex_of_lt x (x + 1) start [] (omega arith));
  before = lex_of_lt (x + 1) y [] limit h;
  short = omega arith;
}

Separates-cons :
    (x : ℕ) (start limit : List ℕ)
    → Separates start limit (find_shortest_separator start limit)
    → Separates (x ∷ start) (x ∷ limit) (find_shortest_separator (x ∷ start) (x ∷ limit))
Separates-cons x start limit s =
    let sep = find_shortest_separator start limit in
    rw (separator-cons x start limit) (record {
      from = λ e. s.from (sym (lex-cons x start sep) ∙ e);
      before = lex-cons x sep limit ∙ s.before;
      short = omega (arith, s.short);
    })

separator-nil : (limit : List ℕ) → find_shortest_separator [] limit ≡ []
unfolding find_shortest_separator diff_index separator_at
separator-nil limit = rw (le→leb (min 0 (length limit)) 0 (omega arith))

separator-Separates :
    (start limit : List ℕ)
    → lex start limit ≡ Ordering.lt
    → Separates start limit (find_shortest_separator start limit)
separator-Separates [] limit h = rw (separator-nil limit) (start-Separates [] limit h)
separator-Separates (x ∷ start) [] h = absurd (unfold lex in cc h)
separator-Separates (x ∷ start) (y ∷ limit) h = elim (lex_heads x y start limit h) [
  | inl lt ↦ elim (separator-ne x y start limit lt) [
    | inl e ↦ rw e (start-Separates (x ∷ start) (y ∷ limit) h)
    | inr (e, below) ↦ rw e (raised-Separates x y start limit below)
  ]
  | inr (e, rest) ↦
      subst
        (λ z. Separates (x ∷ start) (z ∷ limit) (find_shortest_separator (x ∷ start) (z ∷ limit))) e
        (Separates-cons x start limit (separator-Separates start limit rest))
]

successor_from : (key : List ℕ) → IsBytes key → lex key (find_short_successor key) ≢ Ordering.gt
unfolding find_short_successor
successor_from [] b = λ e. cc (lex_refl [])
successor_from (x ∷ key) b = elim (Bool-cases (x == 255)) [
  | inl top ↦ rw top (λ e.
      successor_from key (λ i. b (suc i)) (sym (lex-cons x key (find_short_successor key)) ∙ e))
  | inr low ↦
      let x-lt : x < 2 ^ 8 = b 0 in
      let byte : u8 (x + 1) ≡ x + 1 = omega (arith, ==→ne x 255 low) in
      rw (low, byte) (λ e. cc (lex_of_lt x (x + 1) key [] (omega arith)))
]

successor_short : (key : List ℕ) → length (find_short_successor key) ≤ length key
unfolding find_short_successor
successor_short [] = omega arith
successor_short (x ∷ key) = elim (Bool-cases (x == 255)) [
  | inl top ↦ rw top (omega (arith, successor_short key))
  | inr low ↦ rw low (omega arith)
]

separator_equal : (key : List ℕ) → find_shortest_separator key key ≡ key
separator_equal [] = separator-nil []
separator_equal (x ∷ key) = separator-cons x key key ∙ ap (◌∷◌ x) (separator_equal key)

-- What leveldb/include/leveldb/comparator.h asks of a comparator.
pub record IsLawful (c : Comparator) : Type 0 where
  pub order : IsTotalOrder c.compare
  pub separator_from :
      (start limit : List ℕ)
      → c.compare start limit ≡ Ordering.lt
      → c.compare start (c.find_shortest_separator start limit) ≢ Ordering.gt
  pub separator_before :
      (start limit : List ℕ)
      → c.compare start limit ≡ Ordering.lt
      → c.compare (c.find_shortest_separator start limit) limit ≡ Ordering.lt
  pub separator_equal : (key : List ℕ) → c.find_shortest_separator key key ≡ key
  pub successor_from :
      (key : List ℕ) → IsBytes key → c.compare key (c.find_short_successor key) ≢ Ordering.gt

-- The bytewise comparator orders the keys totally, its separator stands from `start` on and
-- before `limit` and keeps a key that is both, and its successor does not stand before the key.
pub bytewise_comparator-IsLawful : IsLawful bytewise_comparator
bytewise_comparator-IsLawful = record {
  order = compare_slice-IsTotalOrder;
  separator_from = λ start limit h e.
      (separator-Separates start limit (sym (compare_slice-lex start limit) ∙ h)).from
        (sym (compare_slice-lex start (find_shortest_separator start limit)) ∙ e);
  separator_before = λ start limit h.
      compare_slice-lex (find_shortest_separator start limit) limit
      ∙ (separator-Separates start limit (sym (compare_slice-lex start limit) ∙ h)).before;
  separator_equal = separator_equal;
  successor_from =
      λ key b e. successor_from key b (sym (compare_slice-lex key (find_short_successor key)) ∙ e);
}

-- Neither lengthens the key.
pub short_keys :
    (start limit : List ℕ)
    → compare_slice start limit ≡ Ordering.lt
    → (length (find_shortest_separator start limit) ≤ length start)
      × (length (find_short_successor start) ≤ length start)
short_keys start limit h = (
  (separator-Separates start limit (sym (compare_slice-lex start limit) ∙ h)).short,
  successor_short start,
)
