-- ===== src/Leveldb/SkipList/Find.antt =====
-- A skip list that stands for the sorted list of its nodes, and the search for a key in it.
use wormholefilters.Base.{
  ℕ, ◌+◌, ◌-◌, ◌≤◌, ◌<◌, ◌≡◌, Bool, true, false, Bool-cases, inl, inr, Option, none, some, List, [],
  ◌∷◌, ◌++◌, All, refl, sym, ap, ◌∙◌, arith, length, length-append, subst,
}
use wormholefilters.Leveldb.Comparator.Order.{IsStrictOrder}
use wormholefilters.Leveldb.Comparator.{Comparator}
use wormholefilters.Leveldb.DbFormat.{is_less}
use wormholefilters.Leveldb.SkipList.Chains.{Tower, level, IsChain, last, first_of, IsDistinct}
use wormholefilters.Leveldb.SkipList.Search.{Passes, Stops, IsFound, search-IsFound}
use wormholefilters.Leveldb.SkipList.{
  SkipList, search_from_head, key_is_after_node, find_greater_or_equal,
}
use wormholefilters.Leveldb.VersionSet.FindFile.{is_less→lt}
use Prim.Native.Nat.{Ordering}

unfoldable pub ids : List Tower → List ℕ
ids [] = []
ids (t ∷ towers) = t.id ∷ ids towers

module _ (cmp : Comparator) (key_of : ℕ → List ℕ) where
  -- In the order of the keys.
  abbrev pub IsSorted : List Tower → Type 0
  IsSorted [] = Unit
  IsSorted (t ∷ towers) =
      All (λ (u : Tower). cmp.compare (key_of t.id) (key_of u.id) ≡ Ordering.lt) towers
      × IsSorted towers

module _ (cmp : Comparator) where
  -- The skip list stands for these nodes.
  pub record Represents (s : SkipList) (towers : List Tower) : Type 0 where
    pub chains : (i : ℕ) → IsChain s.next i 0 (level i towers)
    pub sorted : IsSorted cmp s.key towers
    pub heights : All (λ (t : Tower). (0 < t.height) × (t.height ≤ s.max_height)) towers
    pub inside : All (λ (t : Tower). (0 < t.id) × (t.id < s.size)) towers
    pub distinct : IsDistinct (ids towers)
    pub count : length towers + 1 ≡ s.size
    pub tall : 0 < s.max_height

  module _ (order : IsStrictOrder cmp.compare) where
    -- The nodes before a key, and those from it on.
    pub data Parted (s : SkipList) (key : List ℕ) (towers : List Tower) : Type 0 where
      parted :
          (a b : List Tower)
          → towers ≡ a ++ b
          → All (λ (t : Tower). is_less (cmp.compare (s.key t.id) key) ≡ true) a
          → All (λ (t : Tower). is_less (cmp.compare (s.key t.id) key) ≡ false) b
          → Parted s key towers

    none_before :
        (s : SkipList) (key : List ℕ) (t : Tower) (towers : List Tower)
        → is_less (cmp.compare (s.key t.id) key) ≡ false
        → All (λ (u : Tower). cmp.compare (s.key t.id) (s.key u.id) ≡ Ordering.lt) towers
        → All (λ (u : Tower). is_less (cmp.compare (s.key u.id) key) ≡ false) towers
    none_before s key t [] h o = tt
    none_before s key t (u ∷ towers) h (e, o) = (
      elim (Bool-cases (is_less (cmp.compare (s.key u.id) key))) [
        | inl l ↦ absurd (
            refused (
              sym h
              ∙ (unfold is_less in
                  ap is_less (
                    order.trans (s.key t.id) (s.key u.id) key e
                      (is_less→lt (cmp.compare (s.key u.id) key) l)))))
        | inr l ↦ l
      ],
      none_before s key t towers h o,
    )
      where
        refused : false ≡ true → ⊥
        refused e = absurd (cc)

    part_cons :
        (s : SkipList) (key : List ℕ) (t : Tower) (towers : List Tower)
        → is_less (cmp.compare (s.key t.id) key) ≡ true
        → Parted s key towers
        → Parted s key (t ∷ towers)
    part_cons s key t towers h (parted a b e p q) = parted (t ∷ a) b (ap (◌∷◌ t) e) (h, p) q

    pub part :
        (s : SkipList) (key : List ℕ) (towers : List Tower)
        → IsSorted cmp s.key towers
        → Parted s key towers
    part s key [] o = parted [] [] refl tt tt
    part s key (t ∷ towers) (o, os) = elim (Bool-cases (is_less (cmp.compare (s.key t.id) key))) [
      | inl h ↦ part_cons s key t towers h (part s key towers os)
      | inr h ↦ parted [] (t ∷ towers) refl tt (h, none_before s key t towers h o)
    ]

    pub stops_at_null : (s : SkipList) (key : List ℕ) → key_is_after_node s cmp key none ≡ false
    unfolding key_is_after_node
    stops_at_null s key = refl

    pub to_passes :
        (s : SkipList) (key : List ℕ) (a : List Tower)
        → All (λ (t : Tower). is_less (cmp.compare (s.key t.id) key) ≡ true) a
        → Passes s (key_is_after_node s cmp key) (stops_at_null s key) a
    unfolding key_is_after_node
    to_passes s key [] p = tt
    to_passes s key (t ∷ a) (e, p) = (e, to_passes s key a p)

    pub to_stops :
        (s : SkipList) (key : List ℕ) (a : List Tower)
        → All (λ (t : Tower). is_less (cmp.compare (s.key t.id) key) ≡ false) a
        → Stops s (key_is_after_node s cmp key) (stops_at_null s key) a
    unfolding key_is_after_node
    to_stops s key [] p = tt
    to_stops s key (t ∷ a) (e, p) = (e, to_stops s key a p)

    -- A search from the head.
    pub from_head :
        (s : SkipList) (goes_on : Option ℕ → Bool) (null_stops : goes_on none ≡ false)
        (towers a b : List Tower)
        → Represents s towers
        → towers ≡ a ++ b
        → Passes s goes_on null_stops a
        → Stops s goes_on null_stops b
        → IsFound s goes_on null_stops 0
            (s.max_height - 1)
            (λ i. s.size)
            a
            b
            (search_from_head s goes_on)
    unfolding search_from_head
    from_head s goes_on null_stops towers a b r e p st =
        search-IsFound s goes_on null_stops (s.size + s.max_height) 0 (s.max_height - 1)
          (λ i. s.size) a b p st
          (λ i le. subst (λ (l : List Tower). IsChain s.next i 0 (level i l)) e (r.chains i))
          (omega (arith, r.count, ap length e, length-append a b))

    -- `FindGreaterOrEqual` gives the first node from the key on, and the last one before it of each level.
    pub record IsFoundKey (s : SkipList) (key : List ℕ) (a b : List Tower) : Type 0 where
      pub prev : ℕ → ℕ
      pub returned : find_greater_or_equal s cmp key ≡ some (first_of (level 0 b), prev)
      pub last_before : (i : ℕ) → i < s.max_height → prev i ≡ last 0 (level i a)

    pub find_greater_or_equal-IsFoundKey :
        (s : SkipList) (key : List ℕ) (towers a b : List Tower)
        → Represents s towers
        → towers ≡ a ++ b
        → All (λ (t : Tower). is_less (cmp.compare (s.key t.id) key) ≡ true) a
        → All (λ (t : Tower). is_less (cmp.compare (s.key t.id) key) ≡ false) b
        → IsFoundKey s key a b
    unfolding find_greater_or_equal
    find_greater_or_equal-IsFoundKey s key towers a b r e p q =
        let f =
          from_head s (key_is_after_node s cmp key) (stops_at_null s key) towers a b r e
            (to_passes s key a p) (to_stops s key b q) in
        record {
          prev = f.prev';
          returned = rw (find_greater_or_equal, f.returned);
          last_before = λ i lt. f.below i (omega (arith, lt));
        }
