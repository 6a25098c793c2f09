-- ===== src/Leveldb/Recovery/Rounds.antt =====
-- A round of the loop of `RecoverLogFile` on a record that holds a batch.
use wormholefilters.Base.{
  ℕ, suc, ◌+◌, ◌-◌, ◌<◌, ◌^◌, ◌≡◌, Bool, true, false, Bool-cases, inl, inr, Option, none, some,
  List, [], ◌∷◌, ◌++◌, refl, sym, ap, ◌∙◌, arith, ltb, lt→ltb, ltb→le, length, subst,
}
use wormholefilters.Leveldb.Comparator.Order.{IsTotalOrder}
use wormholefilters.Leveldb.Comparator.{Comparator}
use wormholefilters.Leveldb.Compaction.Reads.{Item}
use wormholefilters.Leveldb.Consume.{ok, err}
use wormholefilters.Leveldb.Log.Physical.{no_failure}
use wormholefilters.Leveldb.Log.Reader.{Reader, read_record}
use wormholefilters.Leveldb.Log.Whole.{Gives}
use wormholefilters.Leveldb.Log.{Crc}
use wormholefilters.Leveldb.MemTable.Batches.{FitsBatch, insert_into-Holds}
use wormholefilters.Leveldb.MemTable.Updates.{items_from, Holds, new_skip_list-Holds, Holds-later}
use wormholefilters.Leveldb.Recovery.Tables.{HoldAll, items_from-append}
use wormholefilters.Leveldb.Recovery.{
  Recovery, go_on, stop, mem_or_new, last_sequence, update_max, reported, maybe_ignore_error,
  write_level0_table, flush_full, after_insert, on_inserted, add_log_record, read_log,
  recover_round,
}
use wormholefilters.Leveldb.SkipList.{SkipList, new_skip_list}
use wormholefilters.Leveldb.WriteBatch.Batch.{Built, rep_of, ops_of, sequence_of, iterate-rep_of}
use wormholefilters.Leveldb.WriteBatch.{Op, too_small, iterate}

-- Every table can be written.
abbrev pub no_table_failure : ℕ → Bool
no_table_failure n = false

refused : (rep : List ℕ) → ltb (length rep) 12 ≡ true → iterate rep ≡ err (too_small, [])
unfolding iterate
refused rep small = rw small

long_enough : (rep : List ℕ) (ops : List Op) → iterate rep ≡ ok ops → ltb (length rep) 12 ≡ false
long_enough rep ops e = elim (Bool-cases (ltb (length rep) 12)) [
  | inl small ↦ let x = refused rep small in absurd (cc)
  | inr large ↦ large
]

-- The number of the last update.
last_sequence-rep_of :
    (b : Built)
    → FitsBatch b
    → 0 < sequence_of b
    → last_sequence (rep_of b) ≡ sequence_of b + length (ops_of b) - 1
unfolding last_sequence
last_sequence-rep_of b f h =
    let (calls, n, s) = iterate-rep_of b f.built f.count in
    rw (n, s, lt→ltb (length (ops_of b)) (2 ^ 31) f.count) (omega (arith, h, f.sequence))

update_max-rep_of :
    (b : Built) (s : Recovery)
    → FitsBatch b
    → s.max_sequence < sequence_of b
    → update_max (rep_of b) s ≡ record s { max_sequence = sequence_of b + length (ops_of b) - 1 }
unfolding update_max
update_max-rep_of b s f h =
    let last = last_sequence-rep_of b f (omega (arith, h)) in
    elim (Bool-cases (ltb s.max_sequence (last_sequence (rep_of b)))) [
      | inl less ↦ rw less (ap (λ (m : ℕ). record s { max_sequence = m }) last)
      | inr not_less ↦
          let le = ltb→le s.max_sequence (last_sequence (rep_of b)) not_less in
          rw not_less (ap (λ (m : ℕ). record s { max_sequence = m }) (omega (arith, h, le, last)))
    ]

module _ (ucmp : Comparator) where
  -- What the memtable holds, if there is one.
  abbrev pub InMem : Option SkipList → List Item → ℕ → Type 0
  InMem none log next = log ≡ []
  InMem (some table) log next = Holds ucmp table log next

  pub mem_or_new-Holds :
      (mem : Option SkipList) (log : List Item) (next : ℕ)
      → InMem mem log next
      → Holds ucmp (mem_or_new mem) log next
  mem_or_new-Holds none log next e =
      Holds-later ucmp new_skip_list log 0 next (omega arith)
        (subst (λ (l : List Item). Holds ucmp new_skip_list l 0) (sym e) (new_skip_list-Holds ucmp))
  mem_or_new-Holds (some table) log next t = t

  -- No error so far, and the memtable and the tables hold the updates.
  pub record IsSound (s : Recovery) (log : List Item) : Type 0 where
    pub fine : s.status ≡ none
    pub quiet : s.reader.reports ≡ []
    pub front : List Item
    pub back : List Item
    pub in_mem : InMem s.mem front (suc s.max_sequence)
    pub in_tables : HoldAll ucmp s.flushed back
    pub parts : log ≡ front ++ back

  module _ (order : IsTotalOrder ucmp.compare) (paranoid : Bool) (is_full : SkipList → Bool)
      (crc : Crc) where
    -- After a batch is in the memtable.
    after_insert-IsSound :
        (b : Built) (s : Recovery) (log : List Item) (table : SkipList) (p : IsSound s log)
        → FitsBatch b
        → s.max_sequence < sequence_of b
        → Holds ucmp table
            (items_from (sequence_of b) (ops_of b) p.front)
            (sequence_of b + length (ops_of b))
        → (s' : Recovery) × (after_insert paranoid is_full no_table_failure (rep_of b) table none s
            ≡ go_on s')
          × IsSound s' (items_from (sequence_of b) (ops_of b) log)
          × (s'.reader ≡ s.reader)
          × (suc s'.max_sequence ≡ sequence_of b + length (ops_of b))
    unfolding after_insert flush_full write_level0_table
    after_insert-IsSound b s log table p f h t =
        let max = update_max-rep_of b (record s { mem = some table }) f h in
        let end : suc (sequence_of b + length (ops_of b) - 1) ≡ sequence_of b + length (ops_of b) =
          omega (arith, h) in
        let parts =
          ap (items_from (sequence_of b) (ops_of b)) p.parts
          ∙ items_from-append (sequence_of b) (ops_of b) p.front p.back in
        elim (Bool-cases (is_full table)) [
          | inl full ↦ (
            record s {
              mem = none;
              flushed = table ∷ s.flushed;
              compactions = suc s.compactions;
              save_manifest = true;
              max_sequence = sequence_of b + length (ops_of b) - 1;
            },
            rw (max, full, p.fine),
            record {
              fine = p.fine;
              quiet = p.quiet;
              front = [];
              back = items_from (sequence_of b) (ops_of b) log;
              in_mem = refl;
              in_tables = (
                items_from (sequence_of b) (ops_of b) p.front,
                p.back,
                sequence_of b + length (ops_of b),
                t,
                parts,
                p.in_tables,
              );
              parts = refl;
            },
            refl,
            end,
          )
          | inr room ↦ (
            record s { mem = some table; max_sequence = sequence_of b + length (ops_of b) - 1 },
            rw (max, room),
            record {
              fine = p.fine;
              quiet = p.quiet;
              front = items_from (sequence_of b) (ops_of b) p.front;
              back = p.back;
              in_mem =
                  subst (Holds ucmp table (items_from (sequence_of b) (ops_of b) p.front)) (sym end)
                    t;
              in_tables = p.in_tables;
              parts = parts;
            },
            refl,
            end,
          )
        ]

    -- `ReadRecord` leaves all but the reader.
    read_log-IsSound :
        (s : Recovery) (log : List Item) (rec : Option (List ℕ)) (reader : Reader)
        → IsSound s log
        → read_record crc true 0 no_failure true s.reader ≡ some (rec, reader)
        → reader.reports ≡ []
        → (s' : Recovery) × (read_log paranoid is_full no_table_failure ucmp crc no_failure s
            ≡ some (rec, s'))
          × IsSound s' log
          × (s'.reader ≡ reader)
          × (s'.max_sequence ≡ s.max_sequence)
    unfolding read_log reported
    read_log-IsSound s log rec reader p e q = (
      record s { reader = reader },
      rw (read_log, e, p.quiet, q),
      record {
        fine = p.fine;
        quiet = q;
        front = p.front;
        back = p.back;
        in_mem = p.in_mem;
        in_tables = p.in_tables;
        parts = p.parts;
      },
      refl,
      refl,
    )

    -- A round that finds the record of a batch.
    pub recover_round-rep_of :
        (b : Built) (records : List (List ℕ)) (s : Recovery) (log : List Item)
        → FitsBatch b
        → s.max_sequence < sequence_of b
        → IsSound s log
        → Gives crc true (rep_of b ∷ records) s.reader
        → (s' : Recovery) × (recover_round paranoid is_full no_table_failure ucmp crc no_failure s
            ≡ some (go_on s'))
          × IsSound s' (items_from (sequence_of b) (ops_of b) log)
          × Gives crc true records s'.reader
          × (suc s'.max_sequence ≡ sequence_of b + length (ops_of b))
    unfolding recover_round add_log_record on_inserted maybe_ignore_error
    recover_round-rep_of b records s log f h p (reader, e, q, g) =
        let (s₁, read, p₁, r₁, m₁) = read_log-IsSound s log (some (rep_of b)) reader p e q in
        let later : s₁.max_sequence < sequence_of b = omega (arith, h, m₁) in
        let (table, inserted, t) =
          insert_into-Holds ucmp order b (mem_or_new s₁.mem) p₁.front (suc s₁.max_sequence) f later
            (mem_or_new-Holds s₁.mem p₁.front (suc s₁.max_sequence) p₁.in_mem) in
        let (s', after, p', r', m') = after_insert-IsSound b s₁ log table p₁ f later t in
        let long = long_enough (rep_of b) (ops_of b) ((iterate-rep_of b f.built f.count).0) in
        (
          s',
          rw (recover_round, read, p₁.fine, long, inserted, after),
          p',
          subst (Gives crc true records) (sym (r' ∙ r₁)) g,
          m',
        )

    -- The round at the end of the file.
    pub recover_round_end :
        (s : Recovery) (log : List Item)
        → IsSound s log
        → Gives crc true [] s.reader
        → (s' : Recovery) × (recover_round paranoid is_full no_table_failure ucmp crc no_failure s
            ≡ some (stop s'))
          × IsSound s' log
          × (s'.max_sequence ≡ s.max_sequence)
    unfolding recover_round
    recover_round_end s log p (reader, e, q) =
        let (s', read, p', r', m') = read_log-IsSound s log none reader p e q in
        (s', rw (recover_round, read), p', m')
