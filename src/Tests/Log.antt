-- ===== src/Tests/Log.antt =====
-- leveldb/db/log_writer.cc and log_reader.cc.
use wormholefilters.Base.{
  ℕ, ◌+◌, ◌%◌, ◌^◌, ◌≡◌, true, Option, none, some, List, [], ◌∷◌, ◌++◌, refl, arith, length,
}
use wormholefilters.Leveldb.Log.Physical.{no_failure}
use wormholefilters.Leveldb.Log.Progress.{read_record_total}
use wormholefilters.Leveldb.Log.Reader.{
  Reader, new_log_reader, read_record, read_loop, read_round, resync, on_record, on_full,
  on_unknown, report_partial, report_drop, read_physical_record, first_round, second_round,
  physical_round, read_block, parse_header, take_record, checksum_fits, payload_length,
  physical_type,
}
use wormholefilters.Leveldb.Log.Whole.{add_records, read_records, read_records-add_records}
use wormholefilters.Leveldb.Log.Writer.{Writer, new_writer, header}
use wormholefilters.Leveldb.Log.{Crc}
use wormholefilters.Leveldb.Coding.{encode_fixed32, decode_fixed32}
use wormholefilters.Leveldb.TableFormat.{mask, unmask}

-- The sum of the bytes, which obeys the law of `Extend`.
pub sum : List ℕ → ℕ
sum [] = 0
sum (x ∷ xs) = x + sum xs

pub sum-append : (xs ys : List ℕ) → sum (xs ++ ys) ≡ sum xs + sum ys
unfolding sum
sum-append [] ys = omega arith
sum-append (x ∷ xs) ys = omega (arith, sum-append xs ys)

abbrev pub checksum_of_sum : Crc
checksum_of_sum = record {
  extend = λ a xs. (a + sum xs) % 2 ^ 32;
  extend-append = λ a xs ys. omega (arith, sum-append xs ys);
  extend-lt = λ a xs. omega arith;
}

abbrev two_records : List (List ℕ)
two_records = (7 ∷ 8 ∷ 9 ∷ []) ∷ [] ∷ []

read_records-add_records_example :
    (w : Writer (List ℕ)) × (add_records checksum_of_sum (new_writer []) two_records ≡ some w)
    × (read_records checksum_of_sum true 3 (new_log_reader checksum_of_sum true 0 no_failure w.dest)
        ≡ some two_records)
read_records-add_records_example = read_records-add_records checksum_of_sum true two_records

-- A file that ends in the middle of a header.
abbrev broken_file : List ℕ
broken_file = 1 ∷ 2 ∷ 3 ∷ []

read_record_total_example :
    (result : Option (List ℕ) × Reader) × (read_record checksum_of_sum true 0 no_failure true
        (new_log_reader checksum_of_sum true 0 no_failure broken_file)
      ≡ some result)
read_record_total_example =
    read_record_total checksum_of_sum true 0 no_failure true
      (new_log_reader checksum_of_sum true 0 no_failure broken_file)

-- Whether a call of `ReadRecord` on a file has a record, and the number of reports.
abbrev outcome : Option (Option (List ℕ) × Reader) → Option (Option (List ℕ) × ℕ)
outcome none = none
outcome (some (rec, r)) = some (rec, length r.reports)

-- A record of type 5 with the right checksum ends the file, and nothing is reported.
type_five :
    outcome (
      read_record checksum_of_sum true 0 no_failure true (
        new_log_reader checksum_of_sum true 0 no_failure (
          (header checksum_of_sum 5 (9 ∷ []) ++ (9 ∷ []))
          ++ (header checksum_of_sum 1 (1 ∷ []) ++ (1 ∷ [])))))
    ≡ some (none, 0)
unfolding read_record read_loop read_round resync on_record on_full on_unknown report_partial
    report_drop read_physical_record first_round second_round physical_round read_block parse_header
    take_record checksum_fits payload_length physical_type header encode_fixed32 decode_fixed32 mask
    unmask sum
type_five = refl

-- One of type 8 is reported.
type_eight :
    outcome (
      read_record checksum_of_sum true 0 no_failure true (
        new_log_reader checksum_of_sum true 0 no_failure (
          (header checksum_of_sum 8 (9 ∷ []) ++ (9 ∷ []))
          ++ (header checksum_of_sum 1 (1 ∷ []) ++ (1 ∷ [])))))
    ≡ some (some (1 ∷ []), 1)
unfolding read_record read_loop read_round resync on_record on_full on_unknown report_partial
    report_drop read_physical_record first_round second_round physical_round read_block parse_header
    take_record checksum_fits payload_length physical_type header encode_fixed32 decode_fixed32 mask
    unmask sum
type_eight = refl
