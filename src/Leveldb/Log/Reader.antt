-- ===== src/Leveldb/Log/Reader.antt =====
-- leveldb/db/log_reader.cc. The reporter keeps what it is told.
use wormholefilters.Base.{
  ℕ, zero, suc, ◌+◌, ◌-◌, ◌*◌, ◌%◌, ◌^◌, Bool, true, false, not, ◌&&◌, ◌||◌, Option, none, some,
  List, [], ◌∷◌, ◌++◌, ◌==◌, ltb, leb, if◌then◌else◌, byte_at, u64, sub64, length, take, drop,
}
use wormholefilters.Leveldb.Coding.{decode_fixed32}
use wormholefilters.Leveldb.Log.{
  Crc, crc_value, zero_type, full_type, first_type, middle_type, last_type, max_record_type,
  block_size, header_size,
}
use wormholefilters.Leveldb.TableFormat.{unmask}

-- The messages of the reports.
pub data Reason : Type 0 where
  skip_failed : Reason
  read_failed : Reason
  bad_record_length : Reason
  checksum_mismatch : Reason
  partial_record : Reason
  missing_start : Reason
  error_in_middle : Reason
  unknown_record_type : ℕ → Reason

-- `file` has the bytes of the file that have not been read.
pub record Reader : Type 0 where
  pub file : List ℕ
  pub buffer : List ℕ
  pub eof : Bool
  pub last_record_offset : ℕ
  pub end_of_buffer_offset : ℕ
  pub resyncing : Bool
  pub reports : List (ℕ × Reason)

-- The two codes that `ReadPhysicalRecord` returns besides the types of records.
abbrev pub eof_type : ℕ
eof_type = max_record_type + 1

abbrev pub bad_record : ℕ
bad_record = max_record_type + 2

-- What `ReadPhysicalRecord` does: it goes round its loop, or returns.
pub data Physical : Type 0 where
  again : Reader → Physical
  returns : ℕ → List ℕ → Reader → Physical

-- A logical record on the way: `in_fragmented_record`, `scratch`, `prospective_record_offset`.
pub record Fragments : Type 0 where
  pub in_fragmented_record : Bool
  pub scratch : List ℕ
  pub prospective_record_offset : ℕ

abbrev pub fragments : Bool → List ℕ → ℕ → Fragments
fragments b s p = record { in_fragmented_record = b; scratch = s; prospective_record_offset = p }

-- `no_fuel` is no result of the source.
pub data Round : Type 0 where
  no_fuel : Round
  go_on : Fragments → Reader → Round
  found : List ℕ → Reader → Round
  at_end : Reader → Round

unfoldable pub payload_length : List ℕ → ℕ
payload_length buffer = byte_at buffer 4 + byte_at buffer 5 * 2 ^ 8

-- `const unsigned int type = header[6]`, a `char`.
unfoldable pub physical_type : List ℕ → ℕ
physical_type buffer =
    if ltb (byte_at buffer 6) 128 then byte_at buffer 6 else byte_at buffer 6 + (2 ^ 32 - 2 ^ 8)

-- Whether the checksums are tested, the offset to begin at, and at which number of bytes left in the
-- file a call of `Read` fails.
module _ (crc : Crc) (checksum : Bool) (initial_offset : ℕ) (fails : ℕ → Bool) where
  abbrev pub new_log_reader : List ℕ → Reader
  new_log_reader file = record {
    file = file;
    buffer = [];
    eof = false;
    last_record_offset = 0;
    end_of_buffer_offset = 0;
    resyncing = ltb 0 initial_offset;
    reports = [];
  }

  unfoldable pub report_drop : Reader → ℕ → Reason → Reader
  report_drop r bytes reason =
      if leb initial_offset (sub64 (sub64 r.end_of_buffer_offset (length r.buffer)) bytes)
      then record r { reports = r.reports ++ ((bytes, reason) ∷ []) }
      else r

  -- `SkipToInitialBlock`, when `Skip` gives the status `ok`.
  unfoldable pub skip_to_initial_block : Bool → Reader → Bool × Reader
  skip_to_initial_block ok r =
      let offset_in_block = initial_offset % block_size in
      let start = initial_offset - offset_in_block in
      let location =
        if ltb (block_size - 6) offset_in_block then u64 (start + block_size) else start in
      let r' = record r { end_of_buffer_offset = location } in
      if ltb 0 location
      then (if ok
          then (true, record r' { file = drop location r.file })
          else (false, report_drop r' location skip_failed))
      else (true, r')

  -- The next block.
  unfoldable pub read_block : Reader → Physical
  read_block r =
      let r₀ = record r { buffer = [] } in
      let got = take block_size r.file in
      let r₁ = record r {
        file = drop block_size r.file;
        buffer = got;
        eof = r.eof || ltb (length got) block_size;
        end_of_buffer_offset = u64 (r.end_of_buffer_offset + length got);
      } in
      if fails (length r.file)
      then returns eof_type [] (record (report_drop r₀ block_size read_failed) { eof = true })
      else again r₁

  unfoldable pub checksum_fits : List ℕ → ℕ → Bool
  checksum_fits buffer len =
      not checksum
      || crc_value crc (take (1 + len) (drop 6 buffer)) == unmask (decode_fixed32 buffer 0)

  -- The end of `ReadPhysicalRecord`: the record is taken, unless it begins before `initial_offset_`.
  unfoldable pub take_record : Reader → ℕ → ℕ → Physical
  take_record r type len =
      let r' = record r { buffer = drop (header_size + len) r.buffer } in
      let start = sub64 (sub64 (sub64 r.end_of_buffer_offset (length r'.buffer)) header_size) len in
      if ltb start initial_offset
      then returns bad_record [] r'
      else returns type (take len (drop header_size r.buffer)) r'

  unfoldable pub parse_header : Reader → Physical
  parse_header r =
      let len = payload_length r.buffer in
      let type = physical_type r.buffer in
      let cleared = record r { buffer = [] } in
      let drop_size = length r.buffer in
      if ltb drop_size (header_size + len)
      then (if r.eof
          then returns eof_type [] cleared
          else returns bad_record [] (report_drop cleared drop_size bad_record_length))
      else if type == zero_type && len == 0
      then returns bad_record [] cleared
      else if checksum_fits r.buffer len
      then take_record r type len
      else returns bad_record [] (report_drop cleared drop_size checksum_mismatch)

  -- One round of the loop of `ReadPhysicalRecord`.
  unfoldable pub physical_round : Reader → Physical
  physical_round r =
      if ltb (length r.buffer) header_size
      then (if r.eof then returns eof_type [] (record r { buffer = [] }) else read_block r)
      else parse_header r

  -- The loop has fuel for two rounds; `none` is a run that goes round a third time.
  unfoldable pub second_round : Physical → Option (ℕ × (List ℕ × Reader))
  second_round (returns type fragment r) = some (type, (fragment, r))
  second_round (again r) = none

  unfoldable pub first_round : Physical → Option (ℕ × (List ℕ × Reader))
  first_round (returns type fragment r) = some (type, (fragment, r))
  first_round (again r) = second_round (physical_round r)

  unfoldable pub read_physical_record : Reader → Option (ℕ × (List ℕ × Reader))
  read_physical_record r = first_round (physical_round r)

  -- The report at a full or a first fragment while a record is on the way.
  unfoldable pub report_partial : Fragments → Reader → Reader
  report_partial f r =
      if f.in_fragmented_record && not (length f.scratch == 0)
      then report_drop r (length f.scratch) partial_record
      else r

  -- The offset at which the physical record begins.
  unfoldable pub physical_offset : Reader → List ℕ → ℕ
  physical_offset r fragment =
      sub64 (sub64 (sub64 r.end_of_buffer_offset (length r.buffer)) header_size) (length fragment)

  unfoldable pub on_full : Fragments → Reader → List ℕ → Round
  on_full f r fragment =
      found fragment
        (record (report_partial f r) { last_record_offset = physical_offset r fragment })

  unfoldable pub on_first : Fragments → Reader → List ℕ → Round
  on_first f r fragment =
      go_on (fragments true fragment (physical_offset r fragment)) (report_partial f r)

  unfoldable pub on_middle : Fragments → Reader → List ℕ → Round
  on_middle f r fragment =
      if f.in_fragmented_record
      then go_on (fragments true (f.scratch ++ fragment) f.prospective_record_offset) r
      else go_on f (report_drop r (length fragment) missing_start)

  unfoldable pub on_last : Fragments → Reader → List ℕ → Round
  on_last f r fragment =
      if f.in_fragmented_record
      then found (f.scratch ++ fragment)
          (record r { last_record_offset = f.prospective_record_offset })
      else go_on f (report_drop r (length fragment) missing_start)

  unfoldable pub on_bad : Fragments → Reader → Round
  on_bad f r =
      if f.in_fragmented_record
      then go_on (fragments false [] f.prospective_record_offset)
          (report_drop r (length f.scratch) error_in_middle)
      else go_on f r

  unfoldable pub on_unknown : ℕ → Fragments → Reader → List ℕ → Round
  on_unknown type f r fragment = go_on (fragments false [] f.prospective_record_offset) (
      report_drop r (length fragment + (if f.in_fragmented_record then length f.scratch else 0))
        (unknown_record_type type))

  -- The `switch` of `ReadRecord`.
  unfoldable pub on_record : ℕ → Fragments → Reader → List ℕ → Round
  on_record type f r fragment =
      if type == full_type
      then on_full f r fragment
      else if type == first_type
      then on_first f r fragment
      else if type == middle_type
      then on_middle f r fragment
      else if type == last_type
      then on_last f r fragment
      else if type == eof_type
      then at_end r
      else if type == bad_record
      then on_bad f r
      else on_unknown type f r fragment

  -- One round of the loop of `ReadRecord`, after `ReadPhysicalRecord`.
  unfoldable pub resync : ℕ → Fragments → Reader → List ℕ → Round
  resync type f r fragment =
      let synced = record r { resyncing = false } in
      if r.resyncing
      then (if type == middle_type
          then go_on f r
          else if type == last_type
          then go_on f synced
          else on_record type f synced fragment)
      else on_record type f r fragment

  unfoldable pub read_round : Fragments → Reader → Round
  read_round f r = elim (read_physical_record r) [
    | none ↦ no_fuel
    | some (type, (fragment, r')) ↦ resync type f r' fragment
  ]

  -- The loop: the record, if there is one, and the reader; `none` when there is no fuel left.
  unfoldable pub read_loop : ℕ → Fragments → Reader → Option (Option (List ℕ) × Reader)
  read_loop zero f r = none
  read_loop (suc fuel) f r = elim (read_round f r) [
    | no_fuel ↦ none
    | go_on f' r' ↦ read_loop fuel f' r'
    | found rec r' ↦ some (some rec, r')
    | at_end r' ↦ some (none, r')
  ]

  abbrev pub started : Bool × Reader → Option (Option (List ℕ) × Reader)
  started (false, r) = some (none, r)
  started (true, r) = read_loop (suc (length r.file + length r.buffer)) (fragments false [] 0) r

  -- `ReadRecord`, when `Skip` gives the status `ok`. A round takes a byte of the file or of the buffer, or
  -- is the last.
  unfoldable pub read_record : Bool → Reader → Option (Option (List ℕ) × Reader)
  read_record ok r =
      started
        (if ltb r.last_record_offset initial_offset then skip_to_initial_block ok r else (true, r))
