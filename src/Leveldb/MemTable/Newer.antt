-- ===== src/Leveldb/MemTable/Newer.antt =====
-- An entry that is newer than all others of a memtable, in its place among them.
use wormholefilters.Base.{
  ℕ, ◌<◌, ◌≡◌, ◌≢◌, true, false, Bool-cases, inl, inr, List, [], ◌∷◌, All, refl, sym, ap, ◌∙◌,
  arith, leb, if◌then◌else◌, subst,
}
use wormholefilters.Leveldb.Comparator.Order.{flip, IsTotalOrder}
use wormholefilters.Leveldb.Comparator.{Comparator, first}
use wormholefilters.Leveldb.Compaction.Reads.{
  Item, find, Before, IsSortedInput, is_equal_less, is_equal→≡, find_skip,
}
use wormholefilters.Leveldb.Compaction.{is_equal}
use wormholefilters.Leveldb.DbFormat.Order.{newest_first, compare_internal-newest_first}
use wormholefilters.Leveldb.DbFormat.{type_code, append_internal_key, compare_internal, is_less}
use wormholefilters.Leveldb.MemTable.Entries.{IsFitting, entry_of, get_slice-new_entry}
use wormholefilters.Leveldb.MemTable.Get.{entries}
use wormholefilters.Leveldb.MemTable.{slice, key_comparator}
use wormholefilters.Leveldb.SkipList.Contents.{insert_key}
use wormholefilters.Leveldb.VersionSet.FindFile.{is_less→lt}
use Prim.Native.Nat.{Ordering, compare}

-- All entries are older.
abbrev pub IsNewer : Item → List Item → Type 0
IsNewer x items = All (λ (y : Item). y.ikey.sequence < x.ikey.sequence) items

slice-entry_of : (x : Item) → IsFitting x → slice (entry_of x) ≡ append_internal_key [] x.ikey
slice-entry_of x f = ap (λ (q : List ℕ × List ℕ). (q).0) (get_slice-new_entry x f)

module _ (ucmp : Comparator) where
  -- Behind the smaller user keys, and before the older entries of its own.
  pub insert_newer : Item → List Item → List Item
  insert_newer x [] = x ∷ []
  insert_newer x (y ∷ items) =
      let rest = insert_newer x items in
      if is_less (ucmp.compare y.ikey.user_key x.ikey.user_key) then y ∷ rest else x ∷ (y ∷ items)

  -- The comparator of the memtable on an older entry.
  older_lem :
      (x y : Item)
      → IsFitting x
      → IsFitting y
      → (key_comparator ucmp).compare (entry_of y) (entry_of x) ≡ newest_first ucmp y.ikey x.ikey
  older_lem x y (n, (v, s)) (n', (v', s')) =
      ap (λ (l : List ℕ). compare_internal ucmp l (slice (entry_of x)))
        (slice-entry_of y (n', (v', s')))
      ∙ (ap (compare_internal ucmp (append_internal_key [] y.ikey)) (slice-entry_of x (n, (v, s)))
          ∙ compare_internal-newest_first ucmp y.ikey x.ikey s' s)

  older_order :
      (c o : Ordering) (m n : ℕ)
      → n < m
      → (is_less (first c (first (compare m n) o)) ≡ is_less c)
        × (first c (first (compare m n) o) ≢ Ordering.eq)
  unfolding is_less
  older_order Ordering.lt o m n h = (refl, λ e. cc)
  older_order Ordering.eq o m n h = ground arith
  older_order Ordering.gt o m n h = (refl, λ e. cc)

  older_less :
      (x y : Item)
      → IsFitting x
      → IsFitting y
      → y.ikey.sequence < x.ikey.sequence
      → is_less ((key_comparator ucmp).compare (entry_of y) (entry_of x))
        ≡ is_less (ucmp.compare y.ikey.user_key x.ikey.user_key)
  older_less x y f g h =
      let c = ucmp.compare y.ikey.user_key x.ikey.user_key in
      let o = compare (type_code x.ikey.type) (type_code y.ikey.type) in
      ap is_less (older_lem x y f g)
      ∙ unfold newest_first in (older_order c o x.ikey.sequence y.ikey.sequence h).0

  older_differs :
      (x y : Item)
      → IsFitting x
      → IsFitting y
      → y.ikey.sequence < x.ikey.sequence
      → (key_comparator ucmp).compare (entry_of y) (entry_of x) ≢ Ordering.eq
  unfolding newest_first
  older_differs x y f g h e =
      let c = ucmp.compare y.ikey.user_key x.ikey.user_key in
      let o = compare (type_code x.ikey.type) (type_code y.ikey.type) in
      (older_order c o x.ikey.sequence y.ikey.sequence h).1 (sym (older_lem x y f g) ∙ e)

  -- No entry equals it.
  pub differs :
      (x : Item) (items : List Item)
      → IsFitting x
      → All IsFitting items
      → IsNewer x items
      → All
          (λ (k : List ℕ). (key_comparator ucmp).compare k (entry_of x) ≢ Ordering.eq)
          (entries items)
  unfolding entries
  differs x [] f fs n = tt
  differs x (y ∷ items) f (g, fs) (h, n) = (older_differs x y f g h, differs x items f fs n)

  -- The skip list puts its bytes there.
  pub insert_key-entries :
      (x : Item) (items : List Item)
      → IsFitting x
      → All IsFitting items
      → IsNewer x items
      → insert_key (key_comparator ucmp) (entry_of x) (entries items)
        ≡ entries (insert_newer x items)
  unfolding entries insert_key insert_newer
  insert_key-entries x [] f fs n = refl
  insert_key-entries x (y ∷ items) f (g, fs) (h, n) =
      elim (Bool-cases (is_less (ucmp.compare y.ikey.user_key x.ikey.user_key))) [
        | inl e ↦
            rw (older_less x y f g h, e) (ap (◌∷◌ (entry_of y)) (insert_key-entries x items f fs n))
        | inr e ↦ rw (older_less x y f g h, e)
      ]

  pub insert_newer-All :
      (P : Item → Type 0) (x : Item) (items : List Item)
      → P x
      → All P items
      → All P (insert_newer x items)
  unfolding insert_newer
  insert_newer-All P x [] p a = (p, tt)
  insert_newer-All P x (y ∷ items) p (q, a) =
      elim (Bool-cases (is_less (ucmp.compare y.ikey.user_key x.ikey.user_key))) [
        | inl e ↦ rw e (q, insert_newer-All P x items p a)
        | inr e ↦ rw e (p, (q, a))
      ]

  module _ (order : IsTotalOrder ucmp.compare) where
    Before-trans : (x y z : Item) → Before ucmp x y → Before ucmp y z → Before ucmp x z
    Before-trans x y z (inl e) (inl g) =
        inl (order.trans x.ikey.user_key y.ikey.user_key z.ikey.user_key e g)
    Before-trans x y z (inl e) (inr (g, h)) =
        inl (subst (λ (k : List ℕ). ucmp.compare x.ikey.user_key k ≡ Ordering.lt) g e)
    Before-trans x y z (inr (e, h)) (inl g) =
        inl (subst (λ (k : List ℕ). ucmp.compare k z.ikey.user_key ≡ Ordering.lt) (sym e) g)
    Before-trans x y z (inr (e, h)) (inr (g, h')) = inr (e ∙ g, omega arith)

    Before-later :
        (x y : Item) (items : List Item)
        → Before ucmp x y
        → All (Before ucmp y) items
        → All (Before ucmp x) items
    Before-later x y [] b a = tt
    Before-later x y (z ∷ items) b (c, a) = (Before-trans x y z b c, Before-later x y items b a)

    newer_Before :
        (x y : Item) (o : Ordering)
        → ucmp.compare y.ikey.user_key x.ikey.user_key ≡ o
        → is_less o ≡ false
        → y.ikey.sequence < x.ikey.sequence
        → Before ucmp x y
    unfolding is_less
    newer_Before x y Ordering.lt e l h = absurd (cc)
    newer_Before x y Ordering.eq e l h =
        inr (sym (order.equal y.ikey.user_key x.ikey.user_key e), h)
    newer_Before x y Ordering.gt e l h =
        inl (order.flipped y.ikey.user_key x.ikey.user_key ∙ ap flip e)

    -- The entries stay in their order.
    pub insert_newer-IsSortedInput :
        (x : Item) (items : List Item)
        → IsNewer x items
        → IsSortedInput ucmp items
        → IsSortedInput ucmp (insert_newer x items)
    unfolding insert_newer
    insert_newer-IsSortedInput x [] n s = (tt, tt)
    insert_newer-IsSortedInput x (y ∷ items) (h, n) (b, s) =
        elim (Bool-cases (is_less (ucmp.compare y.ikey.user_key x.ikey.user_key))) [
          | inl e ↦ rw e (
            insert_newer-All (Before ucmp y) x items
                (inl (is_less→lt (ucmp.compare y.ikey.user_key x.ikey.user_key) e)) b,
            insert_newer-IsSortedInput x items n s,
          )
          | inr e ↦ rw e (
              let first =
                newer_Before x y (ucmp.compare y.ikey.user_key x.ikey.user_key) refl e h in
              ((first, Before-later x y items first b), (b, s)))
        ]

    -- Entries of different user keys can be asked in either order.
    passed_lem :
        (k : List ℕ) (snapshot : ℕ) (x y : Item) (items : List Item)
        → is_less (ucmp.compare y.ikey.user_key x.ikey.user_key) ≡ true
        → find ucmp k snapshot (insert_newer x items) ≡ find ucmp k snapshot (x ∷ items)
        → find ucmp k snapshot (y ∷ insert_newer x items) ≡ find ucmp k snapshot (x ∷ (y ∷ items))
    unfolding find
    passed_lem k snapshot x y items e ih =
        elim (Bool-cases (is_equal (ucmp.compare y.ikey.user_key k))) [
          | inl same ↦
              let less = is_less→lt (ucmp.compare y.ikey.user_key x.ikey.user_key) e in
              let other : is_equal (ucmp.compare x.ikey.user_key k) ≡ false =
                subst (λ (u : List ℕ). is_equal (ucmp.compare x.ikey.user_key u) ≡ false)
                  (is_equal→≡ ucmp order 0 y.ikey.user_key k same)
                  (is_equal_less ucmp order 0 y.ikey.user_key x.ikey.user_key less) in
              let skipped = find_skip ucmp order 0 k snapshot x items (rw other) in
              elim (Bool-cases (leb y.ikey.sequence snapshot)) [
                | inl seen ↦ rw (other, same, seen)
                | inr newer ↦ rw (other, same, newer) (ih ∙ skipped)
              ]
          | inr other ↦ rw other ih
        ]

    -- A read finds it where it is the newest that the snapshot sees.
    pub find-insert_newer :
        (k : List ℕ) (snapshot : ℕ) (x : Item) (items : List Item)
        → find ucmp k snapshot (insert_newer x items) ≡ find ucmp k snapshot (x ∷ items)
    unfolding insert_newer find
    find-insert_newer k snapshot x [] = refl
    find-insert_newer k snapshot x (y ∷ items) =
        elim (Bool-cases (is_less (ucmp.compare y.ikey.user_key x.ikey.user_key))) [
          | inl e ↦ rw e (passed_lem k snapshot x y items e (find-insert_newer k snapshot x items))
          | inr e ↦ rw e
        ]
