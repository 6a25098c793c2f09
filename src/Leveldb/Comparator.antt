-- ===== src/Leveldb/Comparator.antt =====
-- leveldb/include/leveldb/slice.h (comparisons) and leveldb/util/comparator.cc. A slice and a
-- `std::string` are the list of their bytes; an `int` that is compared with 0 is an `Ordering`.
pub mod Order
pub mod Separator
use Prim.Native.Nat.{compare, Ordering, min}
use wormholefilters.Base.{
  ℕ, zero, suc, ◌+◌, Bool, true, false, ◌&&◌, List, [], ◌∷◌, ltb, leb, ◌==◌, if◌then◌else◌, u8,
  length, take, drop, set, byte_at,
}

-- The first of two results that is not 0.
abbrev pub first : Ordering → Ordering → Ordering
first o r = elim o [ Ordering.lt ↦ Ordering.lt | Ordering.eq ↦ r | Ordering.gt ↦ Ordering.gt ]

-- `memcmp` of the first `n` bytes.
unfoldable pub memcmp : List ℕ → List ℕ → ℕ → Ordering
memcmp a b zero = Ordering.eq
memcmp [] b (suc n) = Ordering.eq
memcmp (x ∷ a) [] (suc n) = Ordering.eq
memcmp (x ∷ a) (y ∷ b) (suc n) = first (compare x y) (memcmp a b n)

-- `Slice::compare`
unfoldable pub compare_slice : List ℕ → List ℕ → Ordering
compare_slice a b =
    let min_len = if ltb (length a) (length b) then length a else length b in
    first (memcmp a b min_len) (
      if ltb (length a) (length b)
      then Ordering.lt
      else if ltb (length b) (length a)
      then Ordering.gt
      else Ordering.eq)

is_zero : Ordering → Bool
is_zero Ordering.eq = true
is_zero Ordering.lt = false
is_zero Ordering.gt = false

-- `operator==` and `starts_with`
unfoldable pub equal_slice : List ℕ → List ℕ → Bool
unfolding is_zero
equal_slice x y = (length x == length y) && is_zero (memcmp x y (length x))

unfoldable pub starts_with : List ℕ → List ℕ → Bool
unfolding is_zero
starts_with a x = leb (length x) (length a) && is_zero (memcmp a x (length x))

-- A `Comparator`.
pub record Comparator : Type 0 where
  pub compare : List ℕ → List ℕ → Ordering
  pub find_shortest_separator : List ℕ → List ℕ → List ℕ
  pub find_short_successor : List ℕ → List ℕ

-- The loop for the "length of common prefix".
unfoldable pub diff_index : List ℕ → List ℕ → ℕ
diff_index [] limit = 0
diff_index (x ∷ start) [] = 0
diff_index (x ∷ start) (y ∷ limit) =
    let rest = diff_index start limit in if x == y then suc rest else 0

-- What is made of the first difference, at `i`.
unfoldable pub separator_at : List ℕ → List ℕ → ℕ → List ℕ
separator_at start limit i =
    let min_length = min (length start) (length limit) in
    let diff_byte = byte_at start i in
    if leb min_length i
    then start
    else if ltb diff_byte 255 && ltb (diff_byte + 1) (byte_at limit i)
    then take (i + 1) (set start i (u8 (diff_byte + 1)))
    else start

-- `BytewiseComparatorImpl::FindShortestSeparator`
unfoldable pub find_shortest_separator : List ℕ → List ℕ → List ℕ
find_shortest_separator start limit = separator_at start limit (diff_index start limit)

-- `BytewiseComparatorImpl::FindShortSuccessor`
unfoldable pub find_short_successor : List ℕ → List ℕ
find_short_successor [] = []
find_short_successor (byte ∷ key) =
    let rest = byte ∷ find_short_successor key in if byte == 255 then rest else u8 (byte + 1) ∷ []

abbrev pub bytewise_comparator : Comparator
bytewise_comparator = record {
  compare = compare_slice;
  find_shortest_separator = find_shortest_separator;
  find_short_successor = find_short_successor;
}
