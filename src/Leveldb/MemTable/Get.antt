-- ===== src/Leveldb/MemTable/Get.antt =====
-- `Get` against the list of the entries that have been added.
use wormholefilters.Base.{
  ℕ, ◌+◌, ◌<◌, ◌^◌, ◌≡◌, true, false, Bool-cases, inl, inr, ◌&&◌, Option, none, some, List, [], ◌∷◌,
  All, refl, sym, ap, ◌∙◌, arith, leb, le→leb, lt→leb, ltb, ltb→lt, ltb→le, length, subst,
}
use wormholefilters.Leveldb.Comparator.Order.{flip, IsTotalOrder}
use wormholefilters.Leveldb.Comparator.{Comparator, first}
use wormholefilters.Leveldb.Compaction.Reads.{Item, find, Before, IsSortedInput, is_equal_less}
use wormholefilters.Leveldb.Compaction.{is_equal}
use wormholefilters.Leveldb.DbFormat.Keys.{new_lookup_key_lem}
use wormholefilters.Leveldb.DbFormat.Order.{newest_first, compare_internal-newest_first}
use wormholefilters.Leveldb.DbFormat.{
  ValueType, deletion, value, type_code, append_internal_key, compare_internal, is_less,
  new_lookup_key, memtable_key,
}
use wormholefilters.Leveldb.MemTable.Entries.{
  IsFitting, entry_of, get_slice-new_entry, answer_of, slice-new_lookup_key, check_entry_same,
  check_entry_other,
}
use wormholefilters.Leveldb.MemTable.Order.{key_comparator-IsStrictOrder}
use wormholefilters.Leveldb.MemTable.{
  slice, key_comparator, Answer, not_here, check_entry, check_node, get,
}
use wormholefilters.Leveldb.SkipList.Chains.{Tower}
use wormholefilters.Leveldb.SkipList.Contents.{first_from, key_at, seek-first_from}
use wormholefilters.Leveldb.SkipList.Find.{Represents}
use wormholefilters.Leveldb.SkipList.Towers.{keys}
use wormholefilters.Leveldb.SkipList.{SkipList}
use Prim.Native.Nat.{Ordering, compare}

-- The entries in the memory of the memtable.
unfoldable pub entries : List Item → List (List ℕ)
entries [] = []
entries (x ∷ items) = entry_of x ∷ entries items

abbrev check_key : Comparator → List ℕ → Option (List ℕ) → Answer
check_key ucmp k none = not_here
check_key ucmp k (some entry) = check_entry ucmp k entry

check_node_lem :
    (ucmp : Comparator) (table : SkipList) (k : List ℕ) (n : Option ℕ)
    → check_node ucmp table k n ≡ check_key ucmp k (key_at (key_comparator ucmp) table.key n)
unfolding check_node key_at
check_node_lem ucmp table k none = refl
check_node_lem ucmp table k (some n) = refl

module _ (ucmp : Comparator) (order : IsTotalOrder ucmp.compare) (k : List ℕ) (snapshot : ℕ) where
  -- The key that is sought, as it stands in the lookup key.
  abbrev target : List ℕ
  target = memtable_key (new_lookup_key k snapshot)

  before_target :
      (x : Item)
      → length k + 8 < 2 ^ 32
      → snapshot < 2 ^ 56
      → IsFitting x
      → (key_comparator ucmp).compare (entry_of x) target
        ≡ newest_first ucmp x.ikey (record { user_key = k; sequence = snapshot; type = value })
  before_target x h p (n, (v, s)) =
      ap (λ (l : List ℕ). compare_internal ucmp l (slice target))
        (ap (λ (q : List ℕ × List ℕ). (q).0) (get_slice-new_entry x (n, (v, s))))
      ∙ (ap (compare_internal ucmp (append_internal_key [] x.ikey))
            (slice-new_lookup_key k snapshot h)
          ∙ compare_internal-newest_first ucmp x.ikey
              (record { user_key = k; sequence = snapshot; type = value }) s p)

  find_past :
      (items : List Item)
      → All (λ (x : Item). ucmp.compare k x.ikey.user_key ≡ Ordering.lt) items
      → find ucmp k snapshot items ≡ none
  unfolding find
  find_past [] a = refl
  find_past (x ∷ items) (e, a) =
      rw (is_equal_less ucmp order 0 k x.ikey.user_key e) (find_past items a)

  later_past :
      (x : Item) (items : List Item)
      → ucmp.compare k x.ikey.user_key ≡ Ordering.lt
      → All (Before ucmp x) items
      → All (λ (y : Item). ucmp.compare k y.ikey.user_key ≡ Ordering.lt) items
  later_past x [] e b = tt
  later_past x (y ∷ items) e (inl f, b) =
      (order.trans k x.ikey.user_key y.ikey.user_key e f, later_past x items e b)
  later_past x (y ∷ items) e (inr (f, h), b) =
      (subst (λ (u : List ℕ). ucmp.compare k u ≡ Ordering.lt) f e, later_past x items e b)

  first_from_skip :
      (x : Item) (items : List Item)
      → is_less ((key_comparator ucmp).compare (entry_of x) target) ≡ true
      → first_from (key_comparator ucmp) target (entries (x ∷ items))
        ≡ first_from (key_comparator ucmp) target (entries items)
  unfolding first_from entries
  first_from_skip x items e = rw e

  first_from_here :
      (x : Item) (items : List Item)
      → is_less ((key_comparator ucmp).compare (entry_of x) target) ≡ false
      → first_from (key_comparator ucmp) target (entries (x ∷ items)) ≡ some (entry_of x)
  unfolding first_from entries
  first_from_here x items e = rw e

  find_skip :
      (x : Item) (items : List Item)
      → (is_equal (ucmp.compare x.ikey.user_key k) && leb x.ikey.sequence snapshot) ≡ false
      → find ucmp k snapshot (x ∷ items) ≡ find ucmp k snapshot items
  unfolding find
  find_skip x items e = rw e

  find_here :
      (x : Item) (items : List Item)
      → (is_equal (ucmp.compare x.ikey.user_key k) && leb x.ikey.sequence snapshot) ≡ true
      → find ucmp k snapshot (x ∷ items) ≡ some (x.ikey.type, x.val)
  unfolding find
  find_here x items e = rw e

  -- Among the entries of the key, the target stands behind those that are newer.
  newer_lem :
      (s : ℕ) (t : ValueType)
      → is_less (first (compare snapshot s) (compare 1 (type_code t))) ≡ ltb snapshot s
  unfolding is_less
  newer_lem s deletion = ground arith
  newer_lem s value = ground arith

  -- The first entry that is not before the target answers as the list of the entries.
  first_from-find :
      (items : List Item)
      → length k + 8 < 2 ^ 32
      → snapshot < 2 ^ 56
      → All IsFitting items
      → IsSortedInput ucmp items
      → check_key ucmp k (first_from (key_comparator ucmp) target (entries items))
        ≡ answer_of (find ucmp k snapshot items)
  first_from-find [] h p f o = unfold first_from find entries answer_of in refl
  first_from-find (x ∷ items) h p (f, fs) (b, o) =
      by_order (ucmp.compare x.ikey.user_key k) refl (first_from-find items h p fs o)
    where
      order_lem :
          (c : Ordering)
          → ucmp.compare x.ikey.user_key k ≡ c
          → (key_comparator ucmp).compare (entry_of x) target
            ≡ first c (first (compare snapshot x.ikey.sequence) (compare 1 (type_code x.ikey.type)))
      order_lem c e = before_target x h p f ∙ (unfold newest_first in rw e)

      same_key :
          ucmp.compare x.ikey.user_key k ≡ Ordering.eq
          → is_equal (ucmp.compare x.ikey.user_key k) ≡ true
      same_key e = unfold is_less in rw e

      other_key :
          ucmp.compare x.ikey.user_key k ≡ Ordering.gt
          → is_equal (ucmp.compare x.ikey.user_key k) ≡ false
      other_key e = unfold is_less in rw e

      answer_none : answer_of none ≡ not_here
      answer_none = unfold answer_of in refl

      by_order :
          (c : Ordering)
          → ucmp.compare x.ikey.user_key k ≡ c
          → check_key ucmp k (first_from (key_comparator ucmp) target (entries items))
            ≡ answer_of (find ucmp k snapshot items)
          → check_key ucmp k (first_from (key_comparator ucmp) target (entries (x ∷ items)))
            ≡ answer_of (find ucmp k snapshot (x ∷ items))
      by_order Ordering.lt e ih =
          ap (check_key ucmp k)
            (first_from_skip x items (unfold is_less in ap is_less (order_lem Ordering.lt e)))
          ∙ (ih ∙ sym (ap answer_of (find_skip x items (unfold is_less in rw e))))
      by_order Ordering.eq e ih = elim (Bool-cases (ltb snapshot x.ikey.sequence)) [
        | inl newer ↦
            ap (check_key ucmp k) (
              first_from_skip x items (
                ap is_less (order_lem Ordering.eq e)
                ∙ (newer_lem x.ikey.sequence x.ikey.type ∙ newer)))
            ∙ (ih
                ∙ sym (
                    ap answer_of (
                      find_skip x items (
                        unfold is_less in
                        rw (
                          e,
                          lt→leb snapshot x.ikey.sequence (ltb→lt snapshot x.ikey.sequence newer),
                        )))))
        | inr seen ↦
            ap (check_key ucmp k) (
              first_from_here x items (
                ap is_less (order_lem Ordering.eq e)
                ∙ (newer_lem x.ikey.sequence x.ikey.type ∙ seen)))
            ∙ (check_entry_same ucmp k x f (same_key e)
                ∙ sym (
                    ap answer_of (
                      find_here x items (
                        unfold is_less in
                        rw (
                          e,
                          le→leb x.ikey.sequence snapshot (ltb→le snapshot x.ikey.sequence seen),
                        )))))
      ]
      by_order Ordering.gt e ih =
          ap (check_key ucmp k)
            (first_from_here x items (unfold is_less in ap is_less (order_lem Ordering.gt e)))
          ∙ (check_entry_other ucmp k x f (other_key e)
              ∙ sym (
                  ap answer_of (
                    find_skip x items (unfold is_less in rw e)
                    ∙ find_past items
                        (later_past x items (order.flipped x.ikey.user_key k ∙ ap flip e) b))
                  ∙ answer_none))

-- For a user comparator that orders totally: if the skip list of the memtable stands for the entries of a
-- list in the order of internal keys, then `Get` with the lookup key of a user key and a snapshot ends, and
-- answers with the first entry of the list that has this user key and is not newer than the snapshot: its
-- value, or that the key is deleted, and that the key is not here if there is none. Keys and values are
-- shorter than 2 ^ 32 bytes with the tag, and sequence numbers are below 2 ^ 56.
pub get-find :
    (ucmp : Comparator) (order : IsTotalOrder ucmp.compare) (table : SkipList) (towers : List Tower)
    (items : List Item) (k : List ℕ) (snapshot : ℕ)
    → Represents (key_comparator ucmp) table towers
    → keys table.key towers ≡ entries items
    → IsSortedInput ucmp items
    → All IsFitting items
    → length k + 8 < 2 ^ 32
    → snapshot < 2 ^ 56
    → get ucmp table (new_lookup_key k snapshot) ≡ some (answer_of (find ucmp k snapshot items))
get-find ucmp order table towers items k snapshot r e o f h p =
    let (n, found, at) =
      seek-first_from (key_comparator ucmp) (key_comparator-IsStrictOrder ucmp order) table
        (memtable_key (new_lookup_key k snapshot)) towers r in
    let user = (new_lookup_key_lem k snapshot).1 in
    unfold get in
    rw (get, found, user)
      (ap some (
        check_node_lem ucmp table k n
        ∙ (ap (check_key ucmp k) (
              at
              ∙ ap (first_from (key_comparator ucmp) (memtable_key (new_lookup_key k snapshot))) e)
            ∙ first_from-find ucmp order k snapshot items h p f o)))
