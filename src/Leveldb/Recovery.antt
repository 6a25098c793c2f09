-- ===== src/Leveldb/Recovery.antt =====
-- `DBImpl::RecoverLogFile` of leveldb/db/db_impl.cc. Left out are the messages, the memory of the
-- memtables, of which only the test remains, and the tables, of which the memtables that they are made
-- of remain.
pub mod Tables
pub mod Rounds
pub mod Whole
use wormholefilters.Base.{
  ℕ, zero, suc, ◌+◌, ◌-◌, ◌%◌, ◌^◌, Bool, true, false, ◌&&◌, Option, none, some, List, [], ◌∷◌,
  ◌==◌, ltb, if◌then◌else◌, length, drop,
}
use wormholefilters.Leveldb.Comparator.{Comparator}
use wormholefilters.Leveldb.Log.Reader.{Reader, Reason, new_log_reader, read_record}
use wormholefilters.Leveldb.Log.{Crc}
use wormholefilters.Leveldb.MemTable.Inserter.{Status, insert_into}
use wormholefilters.Leveldb.SkipList.{SkipList, new_skip_list}
use wormholefilters.Leveldb.WriteBatch.{Malformed, header, count, sequence}

-- The errors that a recovery can end with.
pub data Fault : Type 0 where
  not_opened : Fault
  dropped : Reason → Fault
  record_too_small : Fault
  malformed : Malformed → Fault
  not_written : Fault

-- The variables of the function. `flushed` has the memtables that `WriteLevel0Table` has made tables
-- of, the newest first.
pub record Recovery : Type 0 where
  pub reader : Reader
  pub status : Option Fault
  pub mem : Option SkipList
  pub flushed : List SkipList
  pub compactions : ℕ
  pub save_manifest : Bool
  pub max_sequence : ℕ

-- A round of the loop goes on, or is the last.
pub data Step : Type 0 where
  go_on : Recovery → Step
  stop : Recovery → Step

abbrev pub is_ok : Option Fault → Bool
is_ok none = true
is_ok (some e) = false

abbrev pub mem_or_new : Option SkipList → SkipList
mem_or_new none = new_skip_list
mem_or_new (some mem) = mem

-- `Count` is an `int`, which the sum of 64 bits extends by its sign.
abbrev pub count_bits : ℕ → ℕ
count_bits n = if ltb n (2 ^ 31) then n else n + (2 ^ 64 - 2 ^ 32)

-- The sequence number of the last update of a batch.
unfoldable pub last_sequence : List ℕ → ℕ
last_sequence rep = (sequence rep + count_bits (count rep) + (2 ^ 64 - 1)) % 2 ^ 64

unfoldable pub update_max : List ℕ → Recovery → Recovery
update_max rep s =
    if ltb s.max_sequence (last_sequence rep)
    then record s { max_sequence = last_sequence rep }
    else s

-- `paranoid_checks`, whether a memtable uses more memory than `write_buffer_size`, and which calls of
-- `BuildTable` fail, by the number of tables made before.
module _ (paranoid : Bool) (is_full : SkipList → Bool) (table_fails : ℕ → Bool) where
  -- `LogReporter::Corruption`
  unfoldable pub corruption : Option Fault → Fault → Option Fault
  corruption none e = if paranoid then some e else none
  corruption (some e') e = some e'

  -- What the reader has reported in a call.
  unfoldable pub reported : Option Fault → List (ℕ × Reason) → Option Fault
  reported status [] = status
  reported status ((bytes, reason) ∷ reports) =
      reported (corruption status (dropped reason)) reports

  -- `MaybeIgnoreError`, on the status of `InsertInto`.
  unfoldable pub maybe_ignore_error : Status → Option Fault
  maybe_ignore_error none = none
  maybe_ignore_error (some e) = if paranoid then some (malformed e) else none

  -- `WriteLevel0Table` and `Unref`
  unfoldable pub write_level0_table : SkipList → Recovery → Recovery
  write_level0_table mem s =
      if table_fails (length s.flushed)
      then record s { status = some not_written; mem = none }
      else record s { flushed = mem ∷ s.flushed; mem = none }

  abbrev pub stop_on_error : Option Fault → Recovery → Step
  stop_on_error none s = go_on s
  stop_on_error (some e) s = stop s

  -- The test of the memory.
  unfoldable pub flush_full : SkipList → Recovery → Step
  flush_full mem s =
      let s' =
        write_level0_table mem
          (record s { compactions = suc s.compactions; save_manifest = true }) in
      if is_full mem then stop_on_error s'.status s' else go_on s

  -- What follows `InsertInto`.
  unfoldable pub after_insert : List ℕ → SkipList → Option Fault → Recovery → Step
  after_insert rep mem none s = flush_full mem (update_max rep (record s { mem = some mem }))
  after_insert rep mem (some e) s = stop (record s { mem = some mem; status = some e })

  -- `none` when the search of the skip list does not end.
  unfoldable pub on_inserted : List ℕ → Recovery → Option (SkipList × Status) → Option Step
  on_inserted rec s none = none
  on_inserted rec s (some (mem, status)) = some (after_insert rec mem (maybe_ignore_error status) s)

  module _ (ucmp : Comparator) (crc : Crc) (fails : ℕ → Bool) where
    -- A record of the log.
    unfoldable pub add_log_record : List ℕ → Recovery → Option Step
    add_log_record rec s =
        if ltb (length rec) header
        then some (go_on (record s { status = corruption s.status record_too_small }))
        else on_inserted rec s (insert_into ucmp rec (mem_or_new s.mem))

    -- `ReadRecord`, with what the reporter does to the status.
    unfoldable pub read_log : Recovery → Option (Option (List ℕ) × Recovery)
    read_log s = elim (read_record crc true 0 fails true s.reader) [
      | none ↦ none
      | some (rec, reader) ↦ some (
        rec,
        record s {
          reader = reader;
          status = reported s.status (drop (length s.reader.reports) reader.reports);
        },
      )
    ]

    unfoldable pub recover_round : Recovery → Option Step
    recover_round s = elim (read_log s) [
      | none ↦ none
      | some (none, s') ↦ some (stop s')
      | some (some rec, s') ↦
          let added = add_log_record rec s' in if is_ok s'.status then added else some (stop s')
    ]

    -- The loop; `none` when there is no fuel left.
    unfoldable pub recover_loop : ℕ → Recovery → Option Recovery
    recover_loop zero s = none
    recover_loop (suc fuel) s = elim (recover_round s) [
      | none ↦ none
      | some (go_on s') ↦ recover_loop fuel s'
      | some (stop s') ↦ some s'
    ]

    -- The log is used further, with its memtable, if `reuse_logs` is set, this is the last log and the
    -- file can be opened to append to it. The second part is `mem_`.
    unfoldable pub reuse_log : Bool → Recovery → Recovery × Option SkipList
    reuse_log reuse s =
        if is_ok s.status && reuse && s.compactions == 0
        then (record s { mem = none }, some (mem_or_new s.mem))
        else (s, none)

    -- A memtable that is not used further.
    unfoldable pub write_rest : Option SkipList → Recovery → Recovery
    write_rest none s = s
    write_rest (some mem) s =
        if is_ok s.status
        then write_level0_table mem (record s { save_manifest = true })
        else record s { mem = none }

    abbrev pub finish : Recovery × Option SkipList → Recovery × Option SkipList
    finish (s, mem_) = (write_rest s.mem s, mem_)

    abbrev pub start : List ℕ → Bool → ℕ → Recovery
    start file save_manifest max_sequence = record {
      reader = new_log_reader crc true 0 fails file;
      status = none;
      mem = none;
      flushed = [];
      compactions = 0;
      save_manifest = save_manifest;
      max_sequence = max_sequence;
    }

    -- `RecoverLogFile` on the bytes of the file, if it can be opened. A round of the loop takes a record,
    -- which has a byte of the file.
    unfoldable pub recover_log_file :
        Bool → Option (List ℕ) → Bool → ℕ → Option (Recovery × Option SkipList)
    recover_log_file reuse none save_manifest max_sequence =
        let s = start [] save_manifest max_sequence in
        some (record s { status = if paranoid then some not_opened else none }, none)
    recover_log_file reuse (some file) save_manifest max_sequence =
        elim (recover_loop (suc (length file)) (start file save_manifest max_sequence)) [
          | none ↦ none
          | some s ↦ some (finish (reuse_log reuse s))
        ]
