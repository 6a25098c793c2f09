-- ===== src/Leveldb/MemTable/Updates.antt =====
-- A memtable against the list of the updates that it has got.
use wormholefilters.Base.{
  ℕ, suc, ◌+◌, ◌≤◌, ◌<◌, ◌^◌, ◌≡◌, ◌≢◌, some, List, [], ◌∷◌, All, refl, sym, ap, ◌∙◌, arith, u64,
  length, subst,
}
use wormholefilters.Leveldb.Comparator.Order.{IsTotalOrder}
use wormholefilters.Leveldb.Comparator.{Comparator}
use wormholefilters.Leveldb.Compaction.Reads.{Item, find, IsSortedInput}
use wormholefilters.Leveldb.DbFormat.{deletion, value}
use wormholefilters.Leveldb.MemTable.Entries.{IsFitting, entry_of}
use wormholefilters.Leveldb.MemTable.Get.{entries}
use wormholefilters.Leveldb.MemTable.Inserter.{MemTableInserter, added, handle, handle_all}
use wormholefilters.Leveldb.MemTable.Newer.{
  insert_newer, differs, insert_key-entries, insert_newer-All, insert_newer-IsSortedInput,
  find-insert_newer,
}
use wormholefilters.Leveldb.MemTable.Order.{key_comparator-IsStrictOrder}
use wormholefilters.Leveldb.MemTable.{key_comparator, add_entry}
use wormholefilters.Leveldb.SkipList.Chains.{Tower}
use wormholefilters.Leveldb.SkipList.Contents.{
  insert_key, insert-IsInserted, new_skip_list-Represents,
}
use wormholefilters.Leveldb.SkipList.Find.{Represents}
use wormholefilters.Leveldb.SkipList.Towers.{keys}
use wormholefilters.Leveldb.SkipList.{SkipList, new_skip_list}
use wormholefilters.Leveldb.WriteBatch.{Op, put_op, delete_op}
use Prim.Native.Nat.{Ordering}

-- The entry of an update.
abbrev pub item_of : ℕ → Op → Item
item_of s (put_op key val) = record {
  ikey = record { user_key = key; sequence = s; type = value };
  val = val;
}
item_of s (delete_op key) = record {
  ikey = record { user_key = key; sequence = s; type = deletion };
  val = [];
}

-- Updates with ascending sequence numbers, the newest first, before older ones.
unfoldable pub items_from : ℕ → List Op → List Item → List Item
items_from s [] log = log
items_from s (op ∷ ops) log = items_from (suc s) ops (item_of s op ∷ log)

-- Keys and values that an entry can have.
abbrev pub FitsEntry : Op → Type 0
FitsEntry (put_op key val) = (length key + 8 < 2 ^ 32) × (length val < 2 ^ 32)
FitsEntry (delete_op key) = length key + 8 < 2 ^ 32

FitsEntry-IsFitting : (s : ℕ) (op : Op) → s < 2 ^ 56 → FitsEntry op → IsFitting (item_of s op)
FitsEntry-IsFitting s (put_op key val) h (k, v) = (k, (v, h))
FitsEntry-IsFitting s (delete_op key) h k = (k, (omega arith, h))

keys-All :
    (P : List ℕ → Type 0) (key_of : ℕ → List ℕ) (towers : List Tower)
    → All P (keys key_of towers)
    → All (λ (t : Tower). P (key_of t.id)) towers
unfolding keys
keys-All P key_of [] a = tt
keys-All P key_of (t ∷ towers) (p, a) = (p, keys-All P key_of towers a)

IsNewer-later :
    (m n : ℕ) (items : List Item)
    → m ≤ n
    → All (λ (y : Item). y.ikey.sequence < m) items
    → All (λ (y : Item). y.ikey.sequence < n) items
IsNewer-later m n [] h a = tt
IsNewer-later m n (x ∷ items) h (p, a) = (omega (arith, p, h), IsNewer-later m n items h a)

module _ (ucmp : Comparator) where
  -- The memtable answers as the list of its updates, whose sequence numbers are below a number.
  pub record Holds (table : SkipList) (log : List Item) (next : ℕ) : Type 0 where
    pub towers : List Tower
    pub items : List Item
    pub represents : Represents (key_comparator ucmp) table towers
    pub contents : keys table.key towers ≡ entries items
    pub sorted : IsSortedInput ucmp items
    pub fitting : All IsFitting items
    pub answers :
        (k : List ℕ) (snapshot : ℕ) → find ucmp k snapshot items ≡ find ucmp k snapshot log
    pub below : All (λ (y : Item). y.ikey.sequence < next) items

  find_cons :
      (k : List ℕ) (snapshot : ℕ) (x : Item) (items log : List Item)
      → find ucmp k snapshot items ≡ find ucmp k snapshot log
      → find ucmp k snapshot (x ∷ items) ≡ find ucmp k snapshot (x ∷ log)
  unfolding find
  find_cons k snapshot x items log e = rw e

  pub new_skip_list-Holds : Holds new_skip_list [] 0
  new_skip_list-Holds = record {
    towers = [];
    items = [];
    represents = new_skip_list-Represents (key_comparator ucmp);
    contents = unfold keys entries in refl;
    sorted = tt;
    fitting = tt;
    answers = λ k snapshot. refl;
    below = tt;
  }

  pub Holds-later :
      (table : SkipList) (log : List Item) (m n : ℕ) → m ≤ n → Holds table log m → Holds table log n
  Holds-later table log m n h t = record {
    towers = t.towers;
    items = t.items;
    represents = t.represents;
    contents = t.contents;
    sorted = t.sorted;
    fitting = t.fitting;
    answers = t.answers;
    below = IsNewer-later m n t.items h t.below;
  }

  module _ (order : IsTotalOrder ucmp.compare) where
    -- `Add` of an entry that is newer than all others.
    add_entry-Holds :
        (table : SkipList) (log : List Item) (x : Item)
        → IsFitting x
        → Holds table log x.ikey.sequence
        → (table' : SkipList) × (add_entry ucmp table x.ikey.sequence x.ikey.type x.ikey.user_key
              x.val
            ≡ some table')
          × Holds table' (x ∷ log) (suc x.ikey.sequence)
    unfolding add_entry
    add_entry-Holds table log x f t =
        let Differs = λ (k : List ℕ). (key_comparator ucmp).compare k (entry_of x) ≢ Ordering.eq in
        let c =
          insert-IsInserted (key_comparator ucmp) (key_comparator-IsStrictOrder ucmp order) table
            (entry_of x) t.towers t.represents
            (keys-All Differs table.key t.towers (
              subst (All Differs) (sym t.contents) (differs ucmp x t.items f t.fitting t.below))) in
        (
          c.inserted,
          c.returned,
          record {
            towers = c.nodes;
            items = insert_newer ucmp x t.items;
            represents = c.represents;
            contents =
                c.contents
                ∙ (ap (insert_key (key_comparator ucmp) (entry_of x)) t.contents
                    ∙ insert_key-entries ucmp x t.items f t.fitting t.below);
            sorted = insert_newer-IsSortedInput ucmp order x t.items t.below t.sorted;
            fitting = insert_newer-All ucmp IsFitting x t.items f t.fitting;
            answers = λ k snapshot.
                find-insert_newer ucmp order k snapshot x t.items
                ∙ find_cons k snapshot x t.items log (t.answers k snapshot);
            below =
                insert_newer-All ucmp (λ (y : Item). y.ikey.sequence < suc x.ikey.sequence) x
                  t.items (omega arith)
                  (IsNewer-later x.ikey.sequence (suc x.ikey.sequence) t.items (omega arith)
                    t.below);
          },
        )

    -- A call of the inserter.
    handle-Holds :
        (s : ℕ) (table : SkipList) (log : List Item) (op : Op)
        → s < 2 ^ 56
        → FitsEntry op
        → Holds table log s
        → (table' : SkipList) × (handle ucmp (record { sequence = s; mem = table }) op
            ≡ some (record { sequence = suc s; mem = table' }))
          × Holds table' (item_of s op ∷ log) (suc s)
    unfolding handle added
    handle-Holds s table log (put_op key val) h f t =
        let (table', e, t') =
          add_entry-Holds table log (item_of s (put_op key val))
            (FitsEntry-IsFitting s (put_op key val) h f) t in
        let wrapped : u64 (s + 1) ≡ suc s = omega (arith, h) in (table', rw (e, wrapped), t')
    handle-Holds s table log (delete_op key) h f t =
        let (table', e, t') =
          add_entry-Holds table log (item_of s (delete_op key))
            (FitsEntry-IsFitting s (delete_op key) h f) t in
        let wrapped : u64 (s + 1) ≡ suc s = omega (arith, h) in (table', rw (e, wrapped), t')

    pub handle_all-Holds :
        (s : ℕ) (table : SkipList) (log : List Item) (ops : List Op)
        → s + length ops ≤ 2 ^ 56
        → All FitsEntry ops
        → Holds table log s
        → (inserter : MemTableInserter) × (handle_all ucmp
              (record { sequence = s; mem = table })
              ops
            ≡ some inserter)
          × Holds inserter.mem (items_from s ops log) (s + length ops)
    unfolding handle_all items_from
    handle_all-Holds s table log [] h f t = (
      record { sequence = s; mem = table },
      refl,
      Holds-later table log s (s + 0) (omega arith) t,
    )
    handle_all-Holds s table log (op ∷ ops) h (f, fs) t =
        let (table', e, t') = handle-Holds s table log op (omega (arith, h)) f t in
        let (inserter, e', t'') =
          handle_all-Holds (suc s) table' (item_of s op ∷ log) ops (omega (arith, h)) fs t' in
        (
          inserter,
          rw (e, handle_all) e',
          Holds-later inserter.mem (items_from (suc s) ops (item_of s op ∷ log))
              (suc s + length ops) (s + suc (length ops)) (omega arith) t'',
        )
