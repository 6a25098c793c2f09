-- ===== src/Tests/MemTable.antt =====
-- leveldb/db/memtable.cc with `InsertInto` of write_batch.cc, and `RecoverLogFile` of db_impl.cc.
use wormholefilters.Base.{
  ℕ, suc, ◌≡◌, true, false, Option, none, some, List, [], ◌∷◌, map, refl, arith, ltb,
}
use wormholefilters.Leveldb.Comparator.Order.{compare_slice-IsTotalOrder}
use wormholefilters.Leveldb.Comparator.{bytewise_comparator, compare_slice, memcmp}
use wormholefilters.Leveldb.Compaction.Reads.{find}
use wormholefilters.Leveldb.DbFormat.{new_lookup_key, is_less}
use wormholefilters.Leveldb.Log.Physical.{no_failure}
use wormholefilters.Leveldb.Log.Whole.{add_records}
use wormholefilters.Leveldb.Log.Writer.{Writer, new_writer}
use wormholefilters.Leveldb.MemTable.Batches.{
  FitsBatch, IsRun, updates_of, insert_batches, insert_batches-get,
}
use wormholefilters.Leveldb.MemTable.Entries.{answer_of}
use wormholefilters.Leveldb.MemTable.Updates.{items_from}
use wormholefilters.Leveldb.MemTable.{found_value, found_deletion, get}
use wormholefilters.Leveldb.Recovery.Rounds.{no_table_failure}
use wormholefilters.Leveldb.Recovery.Tables.{get_first}
use wormholefilters.Leveldb.Recovery.Whole.{end_of, memtables, recover_log_file-add_records}
use wormholefilters.Leveldb.Recovery.{Recovery, recover_log_file}
use wormholefilters.Leveldb.SkipList.{SkipList, new_skip_list}
use wormholefilters.Leveldb.WriteBatch.Batch.{
  Built, FitsBuilt, cleared, with_put, with_delete, with_sequence, rep_of, ops_of, sequence_of,
}
use wormholefilters.Tests.Log.{checksum_of_sum}

-- "a" and "b" get values, and then "b" is deleted.
abbrev first_batch : Built
first_batch =
    with_put (with_put (with_sequence cleared 1) (97 ∷ []) (1 ∷ 2 ∷ [])) (98 ∷ []) (3 ∷ [])

abbrev second_batch : Built
second_batch = with_sequence (with_delete cleared (98 ∷ [])) 3

abbrev batches : List Built
batches = first_batch ∷ second_batch ∷ []

first_batch-FitsBatch : FitsBatch first_batch
unfolding FitsBuilt ops_of sequence_of
first_batch-FitsBatch = record {
  built = (((tt, omega arith), (omega arith, omega arith)), (omega arith, omega arith));
  count = omega arith;
  entries = ((omega arith, omega arith), ((omega arith, omega arith), tt));
  sequence = omega arith;
}

second_batch-FitsBatch : FitsBatch second_batch
unfolding FitsBuilt ops_of sequence_of
second_batch-FitsBatch = record {
  built = ((tt, omega arith), omega arith);
  count = omega arith;
  entries = (omega arith, tt);
  sequence = omega arith;
}

batches-IsRun : IsRun 1 batches
unfolding ops_of sequence_of
batches-IsRun = (first_batch-FitsBatch, omega arith, (second_batch-FitsBatch, omega arith, tt))

batches-IsRun_zero : IsRun 0 batches
unfolding ops_of sequence_of
batches-IsRun_zero = (first_batch-FitsBatch, omega arith, (second_batch-FitsBatch, omega arith, tt))

insert_batches-get_example :
    (table : SkipList) × (insert_batches bytewise_comparator (map rep_of batches) new_skip_list
      ≡ some table)
    × (get bytewise_comparator table (new_lookup_key (98 ∷ []) 2)
        ≡ some (answer_of (find bytewise_comparator (98 ∷ []) 2 (updates_of batches []))))
insert_batches-get_example =
    insert_batches-get bytewise_comparator compare_slice-IsTotalOrder batches (98 ∷ []) 2
      batches-IsRun_zero (omega arith) (omega arith)

-- The second memtable is full as soon as it holds an entry.
recover_log_file-add_records_example :
    (w : Writer (List ℕ)) × (result : Recovery × Option SkipList) × (add_records checksum_of_sum
        (new_writer [])
        (map rep_of batches)
      ≡ some w)
    × (recover_log_file true
          (λ table. ltb 1 table.size)
          no_table_failure
          bytewise_comparator
          checksum_of_sum
          no_failure
          true
          (some w.dest)
          false
          0
        ≡ some result)
    × ((result).0.status ≡ none)
    × (suc ((result).0.max_sequence) ≡ end_of 1 batches)
    × (get_first bytewise_comparator (memtables result) (new_lookup_key (98 ∷ []) 9)
        ≡ some (answer_of (find bytewise_comparator (98 ∷ []) 9 (updates_of batches []))))
recover_log_file-add_records_example =
    recover_log_file-add_records bytewise_comparator compare_slice-IsTotalOrder true
      (λ (table : SkipList). ltb 1 table.size) checksum_of_sum batches true false 0 (98 ∷ []) 9
      batches-IsRun (omega arith) (omega arith)

-- The updates answer that "b" is deleted, but not to a snapshot before that.
deleted_run :
    answer_of (find bytewise_comparator (98 ∷ []) 9 (updates_of batches [])) ≡ found_deletion
unfolding answer_of find updates_of items_from ops_of sequence_of is_less compare_slice memcmp
deleted_run = refl

earlier_run :
    answer_of (find bytewise_comparator (98 ∷ []) 2 (updates_of batches [])) ≡ found_value (3 ∷ [])
unfolding answer_of find updates_of items_from ops_of sequence_of is_less compare_slice memcmp
earlier_run = refl
