-- ===== src/Leveldb/Log/Progress.antt =====
-- Each round of `ReadRecord` takes a byte of the file or of the buffer, or is the last.
use wormholefilters.Base.{
  ℕ, zero, suc, ◌+◌, ◌≤◌, ◌<◌, ◌≡◌, ◌⊎◌, inl, inr, Bool, true, false, Bool-cases, ◌&&◌, Option,
  none, some, List, [], ◌==◌, refl, sym, arith, ltb, leb, ltb→le, length, length-take, length-drop,
  drop, subst, sub64, if◌then◌else◌, not,
}
use wormholefilters.Leveldb.Log.Reader.{
  no_fuel, Reader, Physical, Fragments, fragments, Round, go_on, found, at_end, Reason,
  bad_record_length, checksum_mismatch, partial_record, missing_start, error_in_middle,
  unknown_record_type, returns, again, payload_length, physical_type, report_drop,
  skip_to_initial_block, read_block, checksum_fits, take_record, parse_header, physical_round,
  second_round, first_round, read_physical_record, report_partial, on_full, on_first, on_middle,
  on_last, on_bad, on_unknown, on_record, resync, read_round, read_loop, started, read_record,
}
use wormholefilters.Leveldb.Log.TwoRounds.{Returns, physical_round_twice}
use wormholefilters.Leveldb.Log.{Crc}

-- The bytes that are still to be taken.
abbrev left : Reader → ℕ
left r = length r.file + length r.buffer

Shrinks : ℕ → Physical → Type 0
Shrinks n (again r) = left r ≤ n
Shrinks n (returns t fragment r) = (t ≡ 5) ⊎ (left r < n)

if-Shrinks :
    (n : ℕ) (b : Bool) (x y : Physical) → Shrinks n x → Shrinks n y → Shrinks n (if b then x else y)
if-Shrinks n true x y p q = p
if-Shrinks n false x y p q = q

-- The end, or no more bytes than before.
Steps : ℕ → Round → Type 0
Steps n no_fuel = ⊥
Steps n (go_on f r) = left r ≤ n
Steps n (found rec r) = Unit
Steps n (at_end r) = Unit

module _ (crc : Crc) (checksum : Bool) (initial_offset : ℕ) (fails : ℕ → Bool) where
  left-report_drop :
      (r : Reader) (bytes : ℕ) (reason : Reason)
      → left (report_drop crc checksum initial_offset fails r bytes reason) ≡ left r
  unfolding report_drop
  left-report_drop r bytes reason =
      elim (Bool-cases
        (leb initial_offset (sub64 (sub64 r.end_of_buffer_offset (length r.buffer)) bytes))) [
          | inl e ↦ rw e
          | inr e ↦ rw e
        ]

  read_block-Shrinks :
      (r : Reader) → Shrinks (left r) (read_block crc checksum initial_offset fails r)
  unfolding Shrinks read_block
  read_block-Shrinks r =
      if-Shrinks (left r) (fails (length r.file)) _ _ (inl refl)
        (omega (arith, length-drop 32768 r.file, length-take 32768 r.file))

  parse_header-Shrinks :
      (r : Reader)
      → 7 ≤ length r.buffer
      → Shrinks (left r) (parse_header crc checksum initial_offset fails r)
  unfolding Shrinks parse_header take_record
  parse_header-Shrinks r h =
      let cleared = record r { buffer = [] } in
      let dropped : (reason : Reason)
          → left (report_drop crc checksum initial_offset fails cleared (length r.buffer) reason)
            < left r =
        λ reason. omega (arith, h, left-report_drop cleared (length r.buffer) reason) in
      let taken : length r.file + length (drop (7 + payload_length r.buffer) r.buffer) < left r =
        omega (arith, h, length-drop (7 + payload_length r.buffer) r.buffer) in
      if-Shrinks (left r) (ltb (length r.buffer) (7 + payload_length r.buffer)) _ _
        (if-Shrinks (left r) r.eof _ _ (inl refl) (inr (dropped bad_record_length)))
        (if-Shrinks (left r) (physical_type r.buffer == 0 && payload_length r.buffer == 0) _ _
          (inr (omega (arith, h)))
          (if-Shrinks (left r)
            (checksum_fits crc checksum initial_offset fails r.buffer (payload_length r.buffer)) _ _
            (if-Shrinks (left r)
              (ltb
                (sub64
                  (sub64
                    (sub64 r.end_of_buffer_offset
                      (length (drop (7 + payload_length r.buffer) r.buffer)))
                    7)
                  (payload_length r.buffer))
                initial_offset)
              _ _ (inr taken) (inr taken))
            (inr (dropped checksum_mismatch))))

  physical_round-Shrinks :
      (r : Reader) → Shrinks (left r) (physical_round crc checksum initial_offset fails r)
  unfolding Shrinks physical_round
  physical_round-Shrinks r = elim (Bool-cases (ltb (length r.buffer) 7)) [
    | inr e ↦ rw e (parse_header-Shrinks r (ltb→le (length r.buffer) 7 e))
    | inl e ↦ rw e (if-Shrinks (left r) r.eof _ _ (inl refl) (read_block-Shrinks r))
  ]

  -- What `ReadPhysicalRecord` returns: the end, or it has taken a byte.
  abbrev Read : ℕ → Option (ℕ × (List ℕ × Reader)) → Type 0
  Read n result =
      (t : ℕ) × (fragment : List ℕ) × (r' : Reader) × (result ≡ some (t, (fragment, r')))
      × ((t ≡ 5) ⊎ (left r' < n))

  second_round-Read :
      (m n : ℕ) (p : Physical)
      → m ≤ n
      → Returns p
      → Shrinks m p
      → Read n (second_round crc checksum initial_offset fails p)
  unfolding Shrinks second_round
  second_round-Read m n (again r') h p s = absurd p
  second_round-Read m n (returns t fragment r') h p (inl e) = (t, fragment, r', refl, inl e)
  second_round-Read m n (returns t fragment r') h p (inr s) =
      (t, fragment, r', refl, inr (omega (arith, h, s)))

  first_round-Read :
      (r : Reader) (p : Physical)
      → physical_round crc checksum initial_offset fails r ≡ p
      → Shrinks (left r) p
      → Read (left r) (first_round crc checksum initial_offset fails p)
  unfolding Shrinks first_round
  first_round-Read r (again r') e s =
      second_round-Read (left r') (left r) (physical_round crc checksum initial_offset fails r') s
        (physical_round_twice crc checksum initial_offset fails r r' e) (physical_round-Shrinks r')
  first_round-Read r (returns t fragment r') e s = (t, fragment, r', refl, s)

  -- Two rounds are enough for the loop of `ReadPhysicalRecord`.
  read_physical_record-Read :
      (r : Reader) → Read (left r) (read_physical_record crc checksum initial_offset fails r)
  unfolding read_physical_record
  read_physical_record-Read r =
      first_round-Read r (physical_round crc checksum initial_offset fails r) refl
        (physical_round-Shrinks r)

  if-Steps : (n : ℕ) (b : Bool) (x y : Round) → Steps n x → Steps n y → Steps n (if b then x else y)
  if-Steps n true x y p q = p
  if-Steps n false x y p q = q

  left-report_partial :
      (f : Fragments) (r : Reader)
      → left (report_partial crc checksum initial_offset fails f r) ≡ left r
  unfolding report_partial
  left-report_partial f r =
      elim (Bool-cases (f.in_fragmented_record && not (length f.scratch == 0))) [
        | inl e ↦ rw e (left-report_drop r (length f.scratch) partial_record)
        | inr e ↦ rw e
      ]

  on_record-Steps :
      (t : ℕ) (f : Fragments) (r : Reader) (fragment : List ℕ)
      → Steps (left r) (on_record crc checksum initial_offset fails t f r fragment)
  unfolding Steps on_record on_full on_first on_middle on_last on_bad on_unknown
  on_record-Steps t f r fragment =
      let n = left r in
      if-Steps n (t == 1) _ _ tt (
        if-Steps n (t == 2) _ _ (omega (arith, left-report_partial f r)) (
          if-Steps n (t == 3) _ _
            (if-Steps n f.in_fragmented_record _ _ (omega arith)
              (omega (arith, left-report_drop r (length fragment) missing_start)))
            (if-Steps n (t == 4) _ _
              (if-Steps n f.in_fragmented_record _ _ tt
                (omega (arith, left-report_drop r (length fragment) missing_start)))
              (if-Steps n (t == 5) _ _ tt (
                if-Steps n (t == 6) _ _
                  (if-Steps n f.in_fragmented_record _ _
                    (omega (arith, left-report_drop r (length f.scratch) error_in_middle))
                    (omega arith))
                  (omega (
                    arith,
                    left-report_drop r
                        (length fragment + (if f.in_fragmented_record then length f.scratch else 0))
                        (unknown_record_type t),
                  )))))))

  resync-Steps :
      (t : ℕ) (f : Fragments) (r : Reader) (fragment : List ℕ)
      → Steps (left r) (resync crc checksum initial_offset fails t f r fragment)
  unfolding Steps resync
  resync-Steps t f r fragment =
      let n = left r in
      if-Steps n r.resyncing _ _
        (if-Steps n (t == 3) _ _ (omega arith) (
          if-Steps n (t == 4) _ _ (omega arith)
            (on_record-Steps t f (record r { resyncing = false }) fragment)))
        (on_record-Steps t f r fragment)

  -- A round that goes on leaves less.
  Lessens : ℕ → Round → Type 0
  Lessens n no_fuel = ⊥
  Lessens n (go_on f r) = left r < n
  Lessens n (found rec r) = Unit
  Lessens n (at_end r) = Unit

  Steps-Lessens : (m n : ℕ) (x : Round) → m < n → Steps m x → Lessens n x
  unfolding Steps Lessens
  Steps-Lessens m n no_fuel h s = absurd s
  Steps-Lessens m n (go_on f r) h s = omega (arith, h, s)
  Steps-Lessens m n (found rec r) h s = tt
  Steps-Lessens m n (at_end r) h s = tt

  if-Lessens :
      (n : ℕ) (b : Bool) (x y : Round) → Lessens n x → Lessens n y → Lessens n (if b then x else y)
  if-Lessens n true x y p q = p
  if-Lessens n false x y p q = q

  -- The end of the file is never passed over.
  resync_end :
      (n : ℕ) (f : Fragments) (r : Reader) (fragment : List ℕ)
      → Lessens n (resync crc checksum initial_offset fails 5 f r fragment)
  unfolding Lessens resync on_record
  resync_end n f r fragment = if-Lessens n r.resyncing _ _ tt tt

  resync-Lessens :
      (n t : ℕ) (f : Fragments) (r : Reader) (fragment : List ℕ)
      → (t ≡ 5) ⊎ (left r < n)
      → Lessens n (resync crc checksum initial_offset fails t f r fragment)
  resync-Lessens n t f r fragment (inl e) =
      subst (λ (t : ℕ). Lessens n (resync crc checksum initial_offset fails t f r fragment)) (sym e)
        (resync_end n f r fragment)
  resync-Lessens n t f r fragment (inr h) =
      Steps-Lessens (left r) n (resync crc checksum initial_offset fails t f r fragment) h
        (resync-Steps t f r fragment)

  read_round-Lessens :
      (f : Fragments) (r : Reader)
      → Lessens (left r) (read_round crc checksum initial_offset fails f r)
  unfolding read_round
  read_round-Lessens f r =
      let (t, fragment, r', e, h) = read_physical_record-Read r in
      let round : read_round crc checksum initial_offset fails f r
          ≡ resync crc checksum initial_offset fails t f r' fragment =
        rw (read_round, e) refl in
      subst (Lessens (left r)) (sym round) (resync-Lessens (left r) t f r' fragment h)

  -- A round ends the loop, if the loop ends on less.
  round_total :
      (k : ℕ) (f : Fragments) (r : Reader) (x : Round)
      → ((f' : Fragments) (r' : Reader)
          → left r' < left r
          → (result : Option (List ℕ) × Reader) × (read_loop crc checksum initial_offset fails k f'
                r'
              ≡ some result))
      → read_round crc checksum initial_offset fails f r ≡ x
      → Lessens (left r) x
      → (result : Option (List ℕ) × Reader) × (read_loop crc checksum initial_offset fails
            (suc k)
            f
            r
          ≡ some result)
  unfolding Lessens read_loop
  round_total k f r no_fuel ih e s = absurd s
  round_total k f r (go_on f' r') ih e s =
      let (result, e') = ih f' r' s in (result, rw (read_loop, e) e')
  round_total k f r (found rec r') ih e s = ((some rec, r'), rw (read_loop, e))
  round_total k f r (at_end r') ih e s = ((none, r'), rw (read_loop, e))

  -- The loop ends.
  read_loop_total :
      (k : ℕ) (f : Fragments) (r : Reader)
      → left r < k
      → (result : Option (List ℕ) × Reader) × (read_loop crc checksum initial_offset fails k f r
          ≡ some result)
  read_loop_total zero f r h = absurd (omega (arith, h))
  read_loop_total (suc k) f r h =
      round_total k f r (read_round crc checksum initial_offset fails f r)
        (λ f' r' s. read_loop_total k f' r' (omega (arith, h, s))) refl (read_round-Lessens f r)

  started_total :
      (p : Bool × Reader)
      → (result : Option (List ℕ) × Reader) × (started crc checksum initial_offset fails p
          ≡ some result)
  started_total (false, r) = ((none, r), refl)
  started_total (true, r) = read_loop_total (suc (left r)) (fragments false [] 0) r (omega arith)

  -- For all checksums, options, files and initial offsets, and for every pattern of failing calls of `Read`
  -- and of `Skip`, a call of `ReadRecord` returns: its loop has enough rounds in the bytes that are left of
  -- the file and of the buffer, and the loop of `ReadPhysicalRecord` in two.
  pub read_record_total :
      (ok : Bool) (r : Reader)
      → (result : Option (List ℕ) × Reader) × (read_record crc checksum initial_offset fails ok r
          ≡ some result)
  unfolding read_record
  read_record_total ok r = started_total (
      if ltb r.last_record_offset initial_offset
      then skip_to_initial_block crc checksum initial_offset fails ok r
      else (true, r))
