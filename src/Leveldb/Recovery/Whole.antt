-- ===== src/Leveldb/Recovery/Whole.antt =====
-- `RecoverLogFile` on a log that `AddRecord` has written.
use wormholefilters.Base.{
  ℕ, zero, suc, ◌+◌, ◌<◌, ◌^◌, ◌≡◌, Bool, true, Bool-cases, inl, inr, ◌&&◌, Option, none, some,
  List, [], ◌∷◌, ◌++◌, ◌==◌, map, refl, sym, ap, ◌∙◌, arith, length, subst,
}
use wormholefilters.Leveldb.Comparator.Order.{IsTotalOrder}
use wormholefilters.Leveldb.Comparator.{Comparator}
use wormholefilters.Leveldb.Compaction.Reads.{Item, find}
use wormholefilters.Leveldb.DbFormat.{new_lookup_key}
use wormholefilters.Leveldb.Log.Physical.{no_failure}
use wormholefilters.Leveldb.Log.Whole.{Gives, add_records, add_records-Gives}
use wormholefilters.Leveldb.Log.Writer.{Writer, new_writer}
use wormholefilters.Leveldb.Log.{Crc}
use wormholefilters.Leveldb.MemTable.Batches.{IsRun, updates_of}
use wormholefilters.Leveldb.MemTable.Entries.{answer_of}
use wormholefilters.Leveldb.MemTable.Updates.{items_from}
use wormholefilters.Leveldb.Recovery.Rounds.{
  no_table_failure, InMem, mem_or_new-Holds, IsSound, recover_round-rep_of, recover_round_end,
}
use wormholefilters.Leveldb.Recovery.Tables.{get_first, HoldAll, get_first-HoldAll}
use wormholefilters.Leveldb.Recovery.{
  Recovery, mem_or_new, write_level0_table, recover_loop, reuse_log, write_rest, finish, start,
  recover_log_file,
}
use wormholefilters.Leveldb.SkipList.{SkipList}
use wormholefilters.Leveldb.WriteBatch.Batch.{Built, rep_of, ops_of, sequence_of}

-- The sequence number behind the last batch.
unfoldable pub end_of : ℕ → List Built → ℕ
end_of next [] = next
end_of next (b ∷ batches) = end_of (sequence_of b + length (ops_of b)) batches

length-map : (batches : List Built) → length (map rep_of batches) ≡ length batches
length-map [] = refl
length-map (b ∷ batches) = ap suc (length-map batches)

-- `mem_` and the tables, the newest first.
abbrev pub memtables : Recovery × Option SkipList → List SkipList
memtables (s, none) = s.flushed
memtables (s, some mem) = mem ∷ s.flushed

module _ (ucmp : Comparator) (order : IsTotalOrder ucmp.compare) (paranoid : Bool)
    (is_full : SkipList → Bool) (crc : Crc) where
  -- The loop, on the records of batches.
  recover_loop-IsSound :
      (batches : List Built) (fuel : ℕ) (s : Recovery) (log : List Item)
      → length batches < fuel
      → IsRun (suc s.max_sequence) batches
      → IsSound ucmp s log
      → Gives crc true (map rep_of batches) s.reader
      → (s' : Recovery) × (recover_loop paranoid is_full no_table_failure ucmp crc no_failure fuel s
          ≡ some s')
        × IsSound ucmp s' (updates_of batches log)
        × (suc s'.max_sequence ≡ end_of (suc s.max_sequence) batches)
  unfolding recover_loop updates_of end_of
  recover_loop-IsSound batches zero s log h r p g = absurd (omega (arith, h))
  recover_loop-IsSound [] (suc fuel) s log h r p g =
      let (s', e, p', m) = recover_round_end ucmp order paranoid is_full crc s log p g in
      (s', rw (recover_loop, e), p', ap suc m)
  recover_loop-IsSound (b ∷ batches) (suc fuel) s log h (f, l, r) p g =
      let next = sequence_of b + length (ops_of b) in
      let (s₁, e, p₁, g₁, m₁) =
        recover_round-rep_of ucmp order paranoid is_full crc b (map rep_of batches) s log f
          (omega (arith, l)) p g in
      let (s', e', p', m') =
        recover_loop-IsSound batches fuel s₁ (items_from (sequence_of b) (ops_of b) log)
          (omega (arith, h)) (subst (λ (n : ℕ). IsRun n batches) (sym m₁) r) p₁ g₁ in
      (s', rw (recover_loop, e) e', p', m' ∙ ap (λ (n : ℕ). end_of n batches) m₁)

  -- What remains of the loop's state: no error, the memtables, and the greatest sequence number.
  record IsFinished (log : List Item) (max : ℕ) (result : Recovery × Option SkipList) : Type 0 where
    fine : (result).0.status ≡ none
    held : HoldAll ucmp (memtables result) log
    same : (result).0.max_sequence ≡ max

  write_rest-IsFinished :
      (mem : Option SkipList) (s : Recovery) (log front back : List Item) (next : ℕ)
      → s.status ≡ none
      → InMem ucmp mem front next
      → HoldAll ucmp s.flushed back
      → log ≡ front ++ back
      → IsFinished log s.max_sequence
          (write_rest paranoid is_full no_table_failure ucmp crc no_failure mem s, none)
  unfolding write_rest write_level0_table
  write_rest-IsFinished none s log front back next f m t e = record {
    fine = f;
    held = subst (HoldAll ucmp s.flushed) (sym (e ∙ ap (λ (l : List Item). l ++ back) m)) t;
    same = refl;
  }
  write_rest-IsFinished (some mem) s log front back next f m t e =
      rw f (record { fine = refl; held = (front, back, next, m, e, t); same = refl })

  finish-IsFinished :
      (reuse : Bool) (s : Recovery) (log : List Item)
      → IsSound ucmp s log
      → IsFinished log s.max_sequence (
          finish paranoid is_full no_table_failure ucmp crc no_failure
            (reuse_log paranoid is_full no_table_failure ucmp crc no_failure reuse s))
  unfolding reuse_log write_rest
  finish-IsFinished reuse s log p = elim (Bool-cases (reuse && s.compactions == 0)) [
    | inl again ↦
        let e : reuse_log paranoid is_full no_table_failure ucmp crc no_failure reuse s
            ≡ (record s { mem = none }, some (mem_or_new s.mem)) =
          rw (p.fine, again) in
        finished (record s { mem = none }, some (mem_or_new s.mem)) e
          (record {
            fine = p.fine;
            held = (
              p.front,
              p.back,
              suc s.max_sequence,
              mem_or_new-Holds ucmp s.mem p.front (suc s.max_sequence) p.in_mem,
              p.parts,
              p.in_tables,
            );
            same = refl;
          })
    | inr not_again ↦
        let e : reuse_log paranoid is_full no_table_failure ucmp crc no_failure reuse s
            ≡ (s, none) =
          rw (p.fine, not_again) in
        finished (s, none) e
          (write_rest-IsFinished s.mem s log p.front p.back (suc s.max_sequence) p.fine p.in_mem
            p.in_tables p.parts)
  ]
    where
      finished :
          (x : Recovery × Option SkipList)
          → reuse_log paranoid is_full no_table_failure ucmp crc no_failure reuse s ≡ x
          → IsFinished log s.max_sequence
              (finish paranoid is_full no_table_failure ucmp crc no_failure x)
          → IsFinished log s.max_sequence (
              finish paranoid is_full no_table_failure ucmp crc no_failure
                (reuse_log paranoid is_full no_table_failure ucmp crc no_failure reuse s))
      finished x e h =
          subst
            (λ (y : Recovery × Option SkipList).
              IsFinished log s.max_sequence
                (finish paranoid is_full no_table_failure ucmp crc no_failure y))
            (sym e) h

  -- For a user comparator that orders totally, and any checksum, `paranoid_checks`, `reuse_logs` and
  -- limit on the memory of a memtable: let batches with ascending sequence numbers behind a number be
  -- written to a new log by `AddRecord`. If the file can be opened and read and no table fails, then
  -- `RecoverLogFile`, told that number, ends with the status OK, the greatest sequence number is that of
  -- the last update, and the memtable that is used further and those made tables of, asked from the
  -- newest on, answer to a lookup key with the newest of the updates of its user key that is not newer
  -- than the snapshot: its value, or that the key is deleted, and that the key is not here if there is
  -- none. Keys and values are shorter than 2 ^ 32 bytes with the tag, a batch has fewer than 2 ^ 31
  -- updates, and sequence numbers stay below 2 ^ 56.
  pub recover_log_file-add_records :
      (batches : List Built) (reuse save_manifest : Bool) (max_sequence : ℕ) (k : List ℕ)
      (snapshot : ℕ)
      → IsRun (suc max_sequence) batches
      → length k + 8 < 2 ^ 32
      → snapshot < 2 ^ 56
      → (w : Writer (List ℕ)) × (result : Recovery × Option SkipList) × (add_records crc
            (new_writer [])
            (map rep_of batches)
          ≡ some w)
        × (recover_log_file paranoid is_full no_table_failure ucmp crc no_failure reuse
              (some w.dest)
              save_manifest
              max_sequence
            ≡ some result)
        × ((result).0.status ≡ none)
        × (suc ((result).0.max_sequence) ≡ end_of (suc max_sequence) batches)
        × (get_first ucmp (memtables result) (new_lookup_key k snapshot)
            ≡ some (answer_of (find ucmp k snapshot (updates_of batches []))))
  unfolding recover_log_file
  recover_log_file-add_records batches reuse save_manifest max_sequence k snapshot r h q =
      let (w, added, long, g) = add_records-Gives crc true (map rep_of batches) in
      let s₀ =
        start paranoid is_full no_table_failure ucmp crc no_failure w.dest save_manifest
          max_sequence in
      let (s, e, p, m) =
        recover_loop-IsSound batches (suc (length w.dest)) s₀ []
          (omega (arith, long, length-map batches)) r
          (record {
            fine = refl;
            quiet = refl;
            front = [];
            back = [];
            in_mem = refl;
            in_tables = refl;
            parts = refl;
          })
          g in
      let f = finish-IsFinished reuse s (updates_of batches []) p in
      let result =
        finish paranoid is_full no_table_failure ucmp crc no_failure
          (reuse_log paranoid is_full no_table_failure ucmp crc no_failure reuse s) in
      (
        w,
        result,
        added,
        rw (recover_log_file, e),
        f.fine,
        ap suc f.same ∙ m,
        get_first-HoldAll ucmp order (memtables result) (updates_of batches []) k snapshot f.held h
            q,
      )
