-- ===== src/Leveldb/SkipList.antt =====
-- leveldb/db/skiplist.h. A pointer is the number of a node, `head_` is node 0; the array `prev` is a
-- function, whose values mean something where the code has written them.
pub mod Chains
pub mod Search
pub mod Find
pub mod Link
pub mod Towers
pub mod Insert
pub mod Contents
use wormholefilters.Base.{
  ℕ, zero, suc, ◌+◌, ◌-◌, Bool, true, false, not, ◌&&◌, Option, none, some, List, [], ◌∷◌, ◌==◌,
  ltb, leb, if◌then◌else◌,
}
use wormholefilters.Leveldb.Comparator.{Comparator}
use wormholefilters.Leveldb.DbFormat.{is_less}
use wormholefilters.Leveldb.Random.{new_random, one_in}
use wormholefilters.Leveldb.VersionSet.{is_greater}

abbrev pub k_max_height : ℕ
k_max_height = 12

pub record SkipList : Type 0 where
  pub key : ℕ → List ℕ
  pub next : ℕ → ℕ → Option ℕ
  pub size : ℕ
  pub max_height : ℕ
  pub rnd : ℕ

-- `SkipList::SkipList`, with a node for `head_`.
abbrev pub new_skip_list : SkipList
new_skip_list = record {
  key = λ n. [];
  next = λ n i. none;
  size = 1;
  max_height = 1;
  rnd = new_random 0xdeadbeef;
}

-- The loop of `RandomHeight`, with the rounds that are left before the greatest height.
unfoldable pub height_loop : ℕ → ℕ → ℕ → ℕ × ℕ
height_loop zero seed height = (height, seed)
height_loop (suc left) seed height =
    let (grows, seed') = one_in seed 4 in
    let further = height_loop left seed' (suc height) in if grows then further else (height, seed')

unfoldable pub random_height : ℕ → ℕ × ℕ
random_height seed = height_loop (k_max_height - 1) seed 1

-- `SetNext`
unfoldable pub set_next : (ℕ → ℕ → Option ℕ) → ℕ → ℕ → Option ℕ → ℕ → ℕ → Option ℕ
set_next next node n x = λ m i. if m == node && i == n then x else next m i

abbrev pub set_at : {A : Type 0} → (ℕ → A) → ℕ → A → ℕ → A
set_at prev level x = λ i. if i == level then x else prev i

abbrev pub node_or : Option ℕ → ℕ → ℕ
node_or none x = x
node_or (some n) x = n

module _ (s : SkipList) where
  -- The loop of `FindGreaterOrEqual`, `FindLessThan` and `FindLast`, which differ in the test by which
  -- they go on in a list: the last node, the one after it and `prev`; `none` when there is no fuel left.
  unfoldable pub search :
      (Option ℕ → Bool) → ℕ → ℕ → ℕ → (ℕ → ℕ) → Option (ℕ × (Option ℕ × (ℕ → ℕ)))
  search goes_on zero x level prev = none
  search goes_on (suc fuel) x zero prev = elim (goes_on (s.next x 0)) [
    | true ↦ search goes_on fuel (node_or (s.next x 0) x) 0 prev
    | false ↦ some (x, (s.next x 0, set_at prev 0 x))
  ]
  search goes_on (suc fuel) x (suc level) prev = elim (goes_on (s.next x (suc level))) [
    | true ↦ search goes_on fuel (node_or (s.next x (suc level)) x) (suc level) prev
    | false ↦ search goes_on fuel x level (set_at prev (suc level) x)
  ]

  -- A round passes a node or a level. What `prev` holds before is not initialized: an index that no node has.
  unfoldable pub search_from_head : (Option ℕ → Bool) → Option (ℕ × (Option ℕ × (ℕ → ℕ)))
  search_from_head goes_on =
      search goes_on (s.size + s.max_height) 0 (s.max_height - 1) (λ i. s.size)

  abbrev pub is_last : Option ℕ → Bool
  is_last none = false
  is_last (some n) = true

  unfoldable pub find_last : Option ℕ
  find_last = elim (search_from_head is_last) [ none ↦ none | some (x, r) ↦ some x ]

  unfoldable pub seek_to_first : Option ℕ
  seek_to_first = s.next 0 0

  -- `Next` of the iterator.
  unfoldable pub next_node : ℕ → Option ℕ
  next_node node = s.next node 0

  -- A node, or null for `head_`.
  abbrev pub unless_head : ℕ → Option ℕ
  unless_head zero = none
  unless_head (suc n) = some (suc n)

  -- `SeekToLast`, when the search ends.
  unfoldable pub seek_to_last : Option (Option ℕ)
  seek_to_last = elim find_last [ none ↦ none | some x ↦ some (unless_head x) ]

  module _ (cmp : Comparator) where
    unfoldable pub key_is_after_node : List ℕ → Option ℕ → Bool
    key_is_after_node key none = false
    key_is_after_node key (some n) = is_less (cmp.compare (s.key n) key)

    -- The node and `prev`.
    unfoldable pub find_greater_or_equal : List ℕ → Option (Option ℕ × (ℕ → ℕ))
    find_greater_or_equal key = elim (search_from_head (key_is_after_node key)) [
      | none ↦ none
      | some (x, r) ↦ some r
    ]

    unfoldable pub find_less_than : List ℕ → Option ℕ
    find_less_than key = elim (search_from_head (key_is_after_node key)) [
      | none ↦ none
      | some (x, r) ↦ some x
    ]

    -- `Seek`, when the search ends.
    unfoldable pub seek : List ℕ → Option (Option ℕ)
    seek target = elim (find_greater_or_equal target) [ none ↦ none | some (x, prev) ↦ some x ]

    -- `Prev` of the iterator.
    unfoldable pub prev_node : ℕ → Option (Option ℕ)
    prev_node node = elim (find_less_than (s.key node)) [
      | none ↦ none
      | some x ↦ some (unless_head x)
    ]

    abbrev pub is_node_of : List ℕ → Option ℕ → Bool
    is_node_of key none = false
    is_node_of key (some n) =
        not (is_less (cmp.compare key (s.key n))) && not (is_greater (cmp.compare key (s.key n)))

    unfoldable pub contains : List ℕ → Option Bool
    contains key = elim (find_greater_or_equal key) [
      | none ↦ none
      | some (x, prev) ↦ some (is_node_of key x)
    ]

  -- The loop at the end of `Insert`, below a height.
  unfoldable pub link : (ℕ → ℕ) → ℕ → (ℕ → ℕ → Option ℕ)
  link prev zero = s.next
  link prev (suc i) =
      let next = link prev i in
      set_next (set_next next s.size i (next (prev i) i)) (prev i) i (some s.size)

  -- `prev` for a node of a height.
  unfoldable pub prev_for : (ℕ → ℕ) → ℕ → ℕ → ℕ
  prev_for prev height i = if leb s.max_height i && ltb i height then 0 else prev i

  unfoldable pub insert_after : List ℕ → (ℕ → ℕ) → SkipList
  insert_after key prev =
      let (height, seed) = random_height s.rnd in
      record {
        key = set_at s.key s.size key;
        next = link (prev_for prev height) height;
        size = suc s.size;
        max_height = if ltb s.max_height height then height else s.max_height;
        rnd = seed;
      }

  -- `Insert`; `none` when the search has no fuel left.
  unfoldable pub insert : Comparator → List ℕ → Option SkipList
  insert cmp key = elim (find_greater_or_equal cmp key) [
    | none ↦ none
    | some (x, prev) ↦ some (insert_after key prev)
  ]
