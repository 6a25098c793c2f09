-- ===== src/Leveldb/MemTable/Inserter.antt =====
-- `MemTableInserter` and `WriteBatchInternal::InsertInto` of leveldb/db/write_batch.cc.
use wormholefilters.Base.{ℕ, ◌+◌, Option, none, some, List, [], ◌∷◌, u64}
use wormholefilters.Leveldb.Comparator.{Comparator}
use wormholefilters.Leveldb.Consume.{ok, err, out_of_fuel}
use wormholefilters.Leveldb.DbFormat.{deletion, value}
use wormholefilters.Leveldb.MemTable.{add_entry}
use wormholefilters.Leveldb.SkipList.{SkipList}
use wormholefilters.Leveldb.WriteBatch.{Op, put_op, delete_op, Malformed, iterate}
use wormholefilters.Leveldb.WriteBatch

-- `sequence_` and `mem_`.
pub record MemTableInserter : Type 0 where
  pub sequence : ℕ
  pub mem : SkipList

-- The status that is returned: `none` is OK.
abbrev pub Status : Type 0
Status = Option Malformed

-- After an `Add`; `none` when the search of the skip list does not end.
unfoldable pub added : MemTableInserter → Option SkipList → Option MemTableInserter
added inserter none = none
added inserter (some mem) = some (record { sequence = u64 (inserter.sequence + 1); mem = mem })

unfoldable pub with_status : Status → Option MemTableInserter → Option (SkipList × Status)
with_status status none = none
with_status status (some inserter) = some (inserter.mem, status)

module _ (ucmp : Comparator) where
  -- `Put` and `Delete`.
  unfoldable pub handle : MemTableInserter → Op → Option MemTableInserter
  handle inserter (put_op key val) =
      added inserter (add_entry ucmp inserter.mem inserter.sequence value key val)
  handle inserter (delete_op key) =
      added inserter (add_entry ucmp inserter.mem inserter.sequence deletion key [])

  -- The calls that the inserter gets.
  unfoldable pub handle_all : MemTableInserter → List Op → Option MemTableInserter
  handle_all inserter [] = some inserter
  handle_all inserter (op ∷ ops) = elim (handle inserter op) [
    | none ↦ none
    | some inserter' ↦ handle_all inserter' ops
  ]

  -- `InsertInto`; after an error the calls before it have been made.
  unfoldable pub insert_into : List ℕ → SkipList → Option (SkipList × Status)
  insert_into rep mem =
      let inserter : MemTableInserter = record { sequence = WriteBatch.sequence rep; mem = mem } in
      elim (iterate rep) [
        | ok calls ↦ with_status none (handle_all inserter calls)
        | err (e, calls) ↦ with_status (some e) (handle_all inserter calls)
        | out_of_fuel ↦ none
      ]
