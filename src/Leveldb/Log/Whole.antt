-- ===== src/Leveldb/Log/Whole.antt =====
-- A log of several records: `AddRecord` on a new file, and `ReadRecord` until the file ends.
use mathlib.Core.List.{append_assoc, append-nil}
use mathlib.Core.Option
use wormholefilters.Base.Slices.{drop_nil, take_nil}
use wormholefilters.Base.{
  ℕ, zero, suc, ◌+◌, ◌-◌, ◌≤◌, ◌≡◌, subst, inl, inr, Bool, true, Bool-cases, false, Option, none,
  some, List, [], ◌∷◌, ◌++◌, refl, sym, ap, ◌∙◌, arith, le→ltb, length, length-append, length-take,
  length-drop, u64,
}
use wormholefilters.Leveldb.Log.Fragments.{plain_file, Keeps}
use wormholefilters.Leveldb.Log.Physical.{no_failure, IsAt}
use wormholefilters.Leveldb.Log.Reader.{
  Reader, fragments, new_log_reader, on_record, resync, read_block, physical_round, second_round,
  first_round, read_physical_record, read_round, read_loop, read_record,
}
use wormholefilters.Leveldb.Log.RoundTrip.{IsAdded, add_record-IsAdded}
use wormholefilters.Leveldb.Log.Rounds.{before}
use wormholefilters.Leveldb.Log.Writer.{Writer, new_writer, add_record}
use wormholefilters.Leveldb.Log.{Crc}

-- `AddRecord` of each record, while it is OK.
unfoldable pub add_records : Crc → Writer (List ℕ) → List (List ℕ) → Option (Writer (List ℕ))
add_records crc w [] = some w
add_records crc w (rec ∷ records) = elim (add_record crc plain_file w rec) [
  | none ↦ none
  | some (false, w') ↦ none
  | some (true, w') ↦ add_records crc w' records
]

module _ (crc : Crc) (checksum : Bool) where
  -- `ReadRecord` until it says that there is no record; `none` when there is no fuel left.
  unfoldable pub read_records : ℕ → Reader → Option (List (List ℕ))
  read_records zero r = none
  read_records (suc k) r = elim (read_record crc checksum 0 no_failure true r) [
    | none ↦ none
    | some (none, r') ↦ some []
    | some (some rec, r') ↦ Option.map (◌∷◌ rec) (read_records k r')
  ]

  read_record-IsAdded :
      (w : Writer (List ℕ)) (rec rest : List ℕ)
      (s : IsAdded crc checksum w rec true (add_record crc plain_file w rec))
      → (r : Reader) (o : ℕ) → Keeps o w.block_offset
      → IsAt crc checksum r o (s.bytes ++ rest)
      → (r' : Reader) × (read_record crc checksum 0 no_failure true r ≡ some (some rec, r'))
        × IsAt crc checksum r' s.last.block_offset rest
  unfolding read_record
  read_record-IsAdded w rec rest s r o k a =
      let (r', e, a') =
        s.reads r o (fragments false [] 0) [] rest (suc (length r.file + length r.buffer)) k a
          (before refl)
          (omega (
            arith,
            ap length a.buffered,
            ap length a.unread,
            length-take (32768 - o) (s.bytes ++ rest),
            length-drop (32768 - o) (s.bytes ++ rest),
            length-append s.bytes rest,
          )) in
      (r', rw (le→ltb r.last_record_offset 0 (omega arith)) e, a')

  read_physical_record_end :
      (r : Reader)
      → r.buffer ≡ []
      → r.file ≡ []
      → (r' : Reader) × ((read_physical_record crc checksum 0 no_failure r ≡ some (5, ([], r')))
          × ((r'.resyncing ≡ r.resyncing) × (r'.reports ≡ r.reports)))
  unfolding read_physical_record first_round second_round physical_round read_block
  read_physical_record_end r b f = elim (Bool-cases r.eof) [
    | inl e ↦ (record r { buffer = [] }, (rw (b, e), (refl, refl)))
    | inr e ↦ (
      record r {
        file = [];
        buffer = [];
        eof = true;
        end_of_buffer_offset = u64 (r.end_of_buffer_offset + 0);
      },
      (rw (b, f, e, drop_nil {A = ℕ} 32768, take_nil {A = ℕ} 32768), (refl, refl)),
    )
  ]

  read_record_end :
      (r : Reader) (o b : ℕ)
      → Keeps o b
      → IsAt crc checksum r o []
      → (r' : Reader) × (read_record crc checksum 0 no_failure true r ≡ some (none, r'))
        × (r'.reports ≡ [])
  unfolding read_record read_loop read_round resync on_record
  read_record_end r o b k a =
      let (r', (e, (s, q))) =
        read_physical_record_end r (a.buffered ∙ take_nil (32768 - o))
          (a.unread ∙ drop_nil (32768 - o)) in
      (
        r',
        rw (le→ltb r.last_record_offset 0 (omega arith), read_loop, e, s, a.synced),
        q ∙ a.silent,
      )

  -- `ReadRecord` returns these records and then the end of the file, and reports nothing.
  abbrev pub Gives : List (List ℕ) → Reader → Type 0
  Gives [] r =
      (r' : Reader) × (read_record crc checksum 0 no_failure true r ≡ some (none, r'))
      × (r'.reports ≡ [])
  Gives (rec ∷ records) r =
      (r' : Reader) × (read_record crc checksum 0 no_failure true r ≡ some (some rec, r'))
      × (r'.reports ≡ [])
      × Gives records r'

  read_records-Gives :
      (records : List (List ℕ)) (r : Reader)
      → Gives records r
      → read_records (suc (length records)) r ≡ some records
  unfolding read_records
  read_records-Gives [] r (r', e, q) = rw (read_records, e)
  read_records-Gives (rec ∷ records) r (r', e, q, g) =
      rw (read_records, e, read_records-Gives records r' g)

  -- What `AddRecord` has written behind the bytes of a writer.
  record AreAdded (w : Writer (List ℕ)) (records : List (List ℕ)) : Type 0 where
    last : Writer (List ℕ)
    bytes : List ℕ
    returned : add_records crc w records ≡ some last
    wrote : last.dest ≡ w.dest ++ bytes
    long : length records ≤ length bytes
    reads :
        (r : Reader) (o : ℕ)
        → Keeps o w.block_offset
        → IsAt crc checksum r o bytes
        → Gives records r

  add_records-AreAdded : (records : List (List ℕ)) (w : Writer (List ℕ)) → AreAdded w records
  unfolding add_records
  add_records-AreAdded [] w = record {
    last = w;
    bytes = [];
    returned = refl;
    wrote = sym (append-nil w.dest);
    long = omega arith;
    reads = λ r o k a. read_record_end r o w.block_offset k a;
  }
  add_records-AreAdded (rec ∷ records) w =
      let s = add_record-IsAdded crc checksum w rec in
      let more = add_records-AreAdded records s.last in
      record {
        last = more.last;
        bytes = s.bytes ++ more.bytes;
        returned = rw (add_records, s.returned) more.returned;
        wrote =
            more.wrote
            ∙ (ap (λ (l : List ℕ). l ++ more.bytes) s.wrote
                ∙ append_assoc w.dest s.bytes more.bytes);
        long = omega (arith, s.long, more.long, length-append s.bytes more.bytes);
        reads = λ r o k a.
            let (r', f, a') = read_record-IsAdded w rec more.bytes s r o k a in
            (r', f, a'.silent, more.reads r' s.last.block_offset (inl refl) a');
      }

  -- `AddRecord` of records to a new file succeeds, and the reader gives them back.
  pub add_records-Gives :
      (records : List (List ℕ))
      → (w : Writer (List ℕ)) × (add_records crc (new_writer []) records ≡ some w)
        × (length records ≤ length w.dest)
        × Gives records (new_log_reader crc checksum 0 no_failure w.dest)
  add_records-Gives records =
      let s = add_records-AreAdded records (new_writer []) in
      (
        s.last,
        s.returned,
        omega (arith, s.long, ap length s.wrote),
        subst (λ (l : List ℕ). Gives records (new_log_reader crc checksum 0 no_failure l))
            (sym s.wrote)
            (s.reads (new_log_reader crc checksum 0 no_failure s.bytes) 32768 (inr (refl, refl))
              (record {
                within = omega arith;
                buffered = refl;
                unread = refl;
                ended = sym (le→ltb (length s.bytes) 0 (omega arith));
                synced = refl;
                silent = refl;
              })),
      )

  -- For all checksums and all lists of records, `AddRecord` of each record to a new file succeeds, and
  -- `ReadRecord` on that file, from its beginning, returns these records in this order and then the end of
  -- the file, whether or not the reader tests the checksums.
  pub read_records-add_records :
      (records : List (List ℕ))
      → (w : Writer (List ℕ)) × (add_records crc (new_writer []) records ≡ some w)
        × (read_records (suc (length records)) (new_log_reader crc checksum 0 no_failure w.dest)
            ≡ some records)
  read_records-add_records records =
      let (w, e, l, g) = add_records-Gives records in
      (w, e, read_records-Gives records (new_log_reader crc checksum 0 no_failure w.dest) g)
