-- ===== src/Tests/SkipList.antt =====
-- leveldb/db/skiplist.h.
use wormholefilters.Base.{
  ℕ, zero, suc, ◌≡◌, ◌≢◌, Bool, true, ◌&&◌, Option, none, some, List, [], ◌∷◌, ◌==◌, if◌then◌else◌,
  refl, arith, le→ltb, ne→==,
}
use wormholefilters.Leveldb.Comparator.Order.{IsStrictOrder, compare_slice-IsTotalOrder}
use wormholefilters.Leveldb.Comparator.{bytewise_comparator, compare_slice, memcmp}
use wormholefilters.Leveldb.DbFormat.{is_less}
use wormholefilters.Leveldb.Random.{next, one_in}
use wormholefilters.Leveldb.SkipList.Chains.{Tower, level, IsChain}
use wormholefilters.Leveldb.SkipList.Contents.{
  IsInserted, first_from, key_at, insert-IsInserted, seek-first_from,
}
use wormholefilters.Leveldb.SkipList.Find.{ids, Represents}
use wormholefilters.Leveldb.SkipList.Towers.{keys}
use wormholefilters.Leveldb.SkipList.{
  SkipList, insert, seek, contains, find_greater_or_equal, search_from_head, search,
  key_is_after_node, insert_after, link, set_next, prev_for, random_height, height_loop,
  seek_to_last, find_last, prev_node, find_less_than,
}
use Prim.Native.Nat.{Ordering}

strict_order : IsStrictOrder bytewise_comparator.compare
strict_order = record {
  flipped = compare_slice-IsTotalOrder.flipped;
  trans = compare_slice-IsTotalOrder.trans;
}

-- One node, with the key "b", in the lowest list.
abbrev one_node : SkipList
one_node = record {
  key = λ n. 98 ∷ [];
  next = λ m i. if m == 0 && i == 0 then some 1 else none;
  size = 2;
  max_height = 1;
  rnd = 301;
}

abbrev towers : List Tower
towers = record { id = 1; height = 1 } ∷ []

one_node_chains : (i : ℕ) → IsChain one_node.next i 0 (level i towers)
unfolding level
one_node_chains zero = (refl, refl)
one_node_chains (suc i) = rw (le→ltb (suc i) 1 (omega arith), ne→== (suc i) 0 (λ e. cc)) refl

one_node-Represents : Represents bytewise_comparator one_node towers
one_node-Represents = record {
  chains = one_node_chains;
  sorted = (tt, tt);
  heights = ((omega arith, omega arith), tt);
  inside = ((omega arith, omega arith), tt);
  distinct = unfold ids in (tt, tt);
  count = refl;
  tall = omega arith;
}

insert-IsInserted_example :
    IsInserted bytewise_comparator strict_order one_node towers
      (97 ∷ [])
      (insert one_node bytewise_comparator (97 ∷ []))
insert-IsInserted_example =
    insert-IsInserted bytewise_comparator strict_order one_node (97 ∷ []) towers one_node-Represents
      (different, tt)
  where
    different : bytewise_comparator.compare (98 ∷ []) (97 ∷ []) ≢ Ordering.eq
    different = unfold compare_slice memcmp in (λ e. cc)

seek-first_from_example :
    (n : Option ℕ) × (seek one_node bytewise_comparator (97 ∷ []) ≡ some n)
    × (key_at bytewise_comparator one_node.key n
        ≡ first_from bytewise_comparator (97 ∷ []) (keys one_node.key towers))
seek-first_from_example =
    seek-first_from bytewise_comparator strict_order one_node (97 ∷ []) towers one_node-Represents

abbrev outcome : Option SkipList → List ℕ → Option Bool
outcome none key = none
outcome (some s) key = contains s bytewise_comparator key

-- A key is in the list after it has been inserted.
contains_run : outcome (insert one_node bytewise_comparator (97 ∷ [])) (97 ∷ []) ≡ some true
unfolding insert contains find_greater_or_equal search_from_head search key_is_after_node
    insert_after link set_next prev_for random_height height_loop one_in next compare_slice memcmp
    is_less
contains_run = refl

-- The iterator goes back from "b" to "a".
prev_run :
    elim (insert one_node bytewise_comparator (97 ∷ [])) [
      | none ↦ none
      | some s ↦ prev_node s bytewise_comparator 1
    ]
    ≡ some (some 2)
unfolding insert prev_node find_less_than find_greater_or_equal search_from_head search
    key_is_after_node insert_after link set_next prev_for random_height height_loop one_in next
    compare_slice memcmp is_less
prev_run = refl

-- The last node is that of "b".
seek_to_last_run :
    elim (insert one_node bytewise_comparator (97 ∷ [])) [ none ↦ none | some s ↦ seek_to_last s ]
    ≡ some (some 1)
unfolding insert seek_to_last find_last find_greater_or_equal search_from_head search
    key_is_after_node insert_after link set_next prev_for random_height height_loop one_in next
    compare_slice memcmp is_less
seek_to_last_run = refl
