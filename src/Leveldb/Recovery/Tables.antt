-- ===== src/Leveldb/Recovery/Tables.antt =====
-- Memtables of which each holds a part of the updates, the newest first.
use wormholefilters.Base.{
  ℕ, suc, ◌+◌, ◌<◌, ◌^◌, ◌≡◌, Bool-cases, inl, inr, ◌&&◌, Option, none, some, List, [], ◌∷◌, ◌++◌,
  refl, sym, ap, ◌∙◌, leb, length,
}
use wormholefilters.Leveldb.Comparator.Order.{IsTotalOrder}
use wormholefilters.Leveldb.Comparator.{Comparator}
use wormholefilters.Leveldb.Compaction.Reads.{Item, find}
use wormholefilters.Leveldb.Compaction.{is_equal}
use wormholefilters.Leveldb.DbFormat.{ValueType, deletion, value, LookupKey, new_lookup_key}
use wormholefilters.Leveldb.MemTable.Batches.{get-Holds}
use wormholefilters.Leveldb.MemTable.Entries.{answer_of}
use wormholefilters.Leveldb.MemTable.Updates.{Holds, items_from, item_of}
use wormholefilters.Leveldb.MemTable.{Answer, found_value, found_deletion, not_here, get}
use wormholefilters.Leveldb.SkipList.{SkipList}
use wormholefilters.Leveldb.WriteBatch.{Op}

module _ (ucmp : Comparator) where
  -- The answer of the first memtable that has the key.
  unfoldable pub get_first : List SkipList → LookupKey → Option Answer
  get_first [] key = some not_here
  get_first (table ∷ tables) key = elim (get ucmp table key) [
    | none ↦ none
    | some not_here ↦ get_first tables key
    | some (found_value val) ↦ some (found_value val)
    | some found_deletion ↦ some found_deletion
  ]

  -- Each holds a part of the updates.
  abbrev pub HoldAll : List SkipList → List Item → Type 0
  HoldAll [] log = log ≡ []
  HoldAll (table ∷ tables) log =
      (front : List Item) × (back : List Item) × (next : ℕ) × Holds ucmp table front next
      × (log ≡ front ++ back)
      × HoldAll tables back

  abbrev or_else : {A : Type 0} → Option A → Option A → Option A
  or_else none y = y
  or_else (some x) y = some x

  find-append :
      (k : List ℕ) (snapshot : ℕ) (a b : List Item)
      → find ucmp k snapshot (a ++ b) ≡ or_else (find ucmp k snapshot a) (find ucmp k snapshot b)
  unfolding find
  find-append k snapshot [] b = refl
  find-append k snapshot (x ∷ a) b =
      elim (Bool-cases
        (is_equal (ucmp.compare x.ikey.user_key k) && leb x.ikey.sequence snapshot)) [
          | inl f ↦ rw f
          | inr f ↦ rw f (find-append k snapshot a b)
        ]

  get_first_lem :
      (table : SkipList) (tables : List SkipList) (key : LookupKey)
      (x y : Option (ValueType × List ℕ))
      → get ucmp table key ≡ some (answer_of x)
      → get_first tables key ≡ some (answer_of y)
      → get_first (table ∷ tables) key ≡ some (answer_of (or_else x y))
  unfolding get_first answer_of
  get_first_lem table tables key none y e f = rw (e, get_first) f
  get_first_lem table tables key (some (value, v)) y e f = rw (e, get_first)
  get_first_lem table tables key (some (deletion, v)) y e f = rw (e, get_first)

  -- The first answer is that of the updates.
  pub get_first-HoldAll :
      (order : IsTotalOrder ucmp.compare) (tables : List SkipList) (log : List Item) (k : List ℕ)
      (snapshot : ℕ)
      → HoldAll tables log
      → length k + 8 < 2 ^ 32
      → snapshot < 2 ^ 56
      → get_first tables (new_lookup_key k snapshot) ≡ some (answer_of (find ucmp k snapshot log))
  get_first-HoldAll order [] log k snapshot e h p = rw e (unfold get_first find answer_of in refl)
  get_first-HoldAll order (table ∷ tables) log k snapshot (front, back, next, t, e, a) h p =
      get_first_lem table tables (new_lookup_key k snapshot) (find ucmp k snapshot front)
        (find ucmp k snapshot back) (get-Holds ucmp order table front next k snapshot t h p)
        (get_first-HoldAll order tables back k snapshot a h p)
      ∙ ap (λ (r : Option (ValueType × List ℕ)). some (answer_of r))
          (sym (ap (find ucmp k snapshot) e ∙ find-append k snapshot front back))

-- Updates come before all older ones.
pub items_from-append :
    (s : ℕ) (ops : List Op) (a b : List Item) → items_from s ops (a ++ b) ≡ items_from s ops a ++ b
unfolding items_from
items_from-append s [] a b = refl
items_from-append s (op ∷ ops) a b = items_from-append (suc s) ops (item_of s op ∷ a) b
