-- ===== src/Leveldb/MemTable/Batches.antt =====
-- Write batches in a memtable: `WriteBatchInternal::InsertInto` of leveldb/db/write_batch.cc, and `Get`.
use wormholefilters.Base.{
  ℕ, ◌+◌, ◌≤◌, ◌<◌, ◌^◌, ◌≡◌, Option, none, some, List, [], ◌∷◌, map, All, refl, ap, ◌∙◌, length,
}
use wormholefilters.Leveldb.Comparator.Order.{IsTotalOrder}
use wormholefilters.Leveldb.Comparator.{Comparator}
use wormholefilters.Leveldb.Compaction.Reads.{Item, find}
use wormholefilters.Leveldb.DbFormat.{new_lookup_key}
use wormholefilters.Leveldb.MemTable.Entries.{answer_of}
use wormholefilters.Leveldb.MemTable.Get.{get-find}
use wormholefilters.Leveldb.MemTable.Inserter.{with_status, insert_into}
use wormholefilters.Leveldb.MemTable.Updates.{
  items_from, FitsEntry, Holds, new_skip_list-Holds, Holds-later, handle_all-Holds,
}
use wormholefilters.Leveldb.MemTable.{get}
use wormholefilters.Leveldb.SkipList.{SkipList, new_skip_list}
use wormholefilters.Leveldb.WriteBatch.Batch.{
  Built, FitsBuilt, rep_of, ops_of, sequence_of, iterate-rep_of,
}

-- Batches of the sizes that the code can write.
pub record FitsBatch (b : Built) : Type 0 where
  pub built : FitsBuilt b
  pub count : length (ops_of b) < 2 ^ 31
  pub entries : All FitsEntry (ops_of b)
  pub sequence : sequence_of b + length (ops_of b) ≤ 2 ^ 56

-- Each batch begins with a sequence number behind those of the batches before it.
abbrev pub IsRun : ℕ → List Built → Type 0
IsRun next [] = Unit
IsRun next (b ∷ batches) =
    FitsBatch b × (next ≤ sequence_of b) × IsRun (sequence_of b + length (ops_of b)) batches

-- Their updates, the newest first, before older ones.
unfoldable pub updates_of : List Built → List Item → List Item
updates_of [] log = log
updates_of (b ∷ batches) log = updates_of batches (items_from (sequence_of b) (ops_of b) log)

module _ (ucmp : Comparator) where
  -- `InsertInto` for one batch after another, until one has an error.
  unfoldable pub insert_batches : List (List ℕ) → SkipList → Option SkipList
  insert_batches [] table = some table
  insert_batches (rep ∷ reps) table = elim (insert_into ucmp rep table) [
    | none ↦ none
    | some (table', none) ↦ insert_batches reps table'
    | some (table', some e) ↦ none
  ]

  pub get-Holds :
      (order : IsTotalOrder ucmp.compare) (table : SkipList) (log : List Item) (next : ℕ)
      (k : List ℕ) (snapshot : ℕ)
      → Holds ucmp table log next
      → length k + 8 < 2 ^ 32
      → snapshot < 2 ^ 56
      → get ucmp table (new_lookup_key k snapshot) ≡ some (answer_of (find ucmp k snapshot log))
  get-Holds order table log next k snapshot t h p =
      get-find ucmp order table t.towers t.items k snapshot t.represents t.contents t.sorted
        t.fitting h p
      ∙ ap (λ (r : Option _). some (answer_of r)) (t.answers k snapshot)

  module _ (order : IsTotalOrder ucmp.compare) where
    -- `InsertInto` of a batch gives the memtable its updates.
    pub insert_into-Holds :
        (b : Built) (table : SkipList) (log : List Item) (next : ℕ)
        → FitsBatch b
        → next ≤ sequence_of b
        → Holds ucmp table log next
        → (table' : SkipList) × (insert_into ucmp (rep_of b) table ≡ some (table', none))
          × Holds ucmp table'
              (items_from (sequence_of b) (ops_of b) log)
              (sequence_of b + length (ops_of b))
    unfolding insert_into with_status
    insert_into-Holds b table log next f h t =
        let (calls, count, seq) = iterate-rep_of b f.built f.count in
        let (inserter, e, t') =
          handle_all-Holds ucmp order (sequence_of b) table log (ops_of b) f.sequence f.entries
            (Holds-later ucmp table log next (sequence_of b) h t) in
        (inserter.mem, rw (insert_into, calls, seq, e), t')

    insert_batches-Holds :
        (batches : List Built) (table : SkipList) (log : List Item) (next : ℕ)
        → IsRun next batches
        → Holds ucmp table log next
        → (table' : SkipList) × (end : ℕ) × (insert_batches (map rep_of batches) table
            ≡ some table')
          × Holds ucmp table' (updates_of batches log) end
    unfolding insert_batches updates_of
    insert_batches-Holds [] table log next r t = (table, next, refl, t)
    insert_batches-Holds (b ∷ batches) table log next (f, h, r) t =
        let (table', e, t') = insert_into-Holds b table log next f h t in
        let (table'', end, e', t'') =
          insert_batches-Holds batches table' (items_from (sequence_of b) (ops_of b) log)
            (sequence_of b + length (ops_of b)) r t' in
        (table'', end, rw (e, insert_batches) e', t'')

    -- For a user comparator that orders totally: `InsertInto` of batches with ascending sequence numbers,
    -- one after another, into a new memtable ends with the status OK each time, and then `Get` with the
    -- lookup key of a user key and a snapshot ends, and answers with the newest of the updates of this key
    -- that is not newer than the snapshot: its value, or that the key is deleted, and that the key is not
    -- here if there is none. However a batch is made by `Clear`, `Put`, `Delete`, `Append` and
    -- `SetSequence`, its updates are those put in, in their order. Keys and values are shorter than 2 ^ 32
    -- bytes with the tag, a batch has fewer than 2 ^ 31 updates, and sequence numbers stay below 2 ^ 56.
    pub insert_batches-get :
        (batches : List Built) (k : List ℕ) (snapshot : ℕ)
        → IsRun 0 batches
        → length k + 8 < 2 ^ 32
        → snapshot < 2 ^ 56
        → (table : SkipList) × (insert_batches (map rep_of batches) new_skip_list ≡ some table)
          × (get ucmp table (new_lookup_key k snapshot)
              ≡ some (answer_of (find ucmp k snapshot (updates_of batches []))))
    insert_batches-get batches k snapshot r h p =
        let (table, end, e, t) =
          insert_batches-Holds batches new_skip_list [] 0 r (new_skip_list-Holds ucmp) in
        (table, e, get-Holds order table (updates_of batches []) end k snapshot t h p)
