-- ===== src/Tests/Tables.antt =====
-- leveldb/table and leveldb/helpers/memenv.
use mathlib.Core.List.{append-nil}
use wormholefilters.Base.{
  ℕ, ◌+◌, ◌*◌, ◌≤◌, ◌^◌, ◌<◌, ◌≡◌, inr, some, List, [], ◌∷◌, ◌++◌, refl, arith, ltb, if◌then◌else◌,
  length, replicate, take, drop, length-replicate,
}
use wormholefilters.Leveldb.Block.Built.{add_all, entries_of-finish}
use wormholefilters.Leveldb.Block.{
  add, shared_with, restarts_for, counter_for, new_builder, finish, scan, entries_of, entries_from,
  num_restarts, BlockBuilder,
}
use wormholefilters.Leveldb.Coding.{put_fixed32, encode_fixed32, decode_fixed32}
use wormholefilters.Leveldb.Comparator.{diff_index}
use wormholefilters.Leveldb.Consume.{ok}
use wormholefilters.Leveldb.MemFile.Contents.{flat}
use wormholefilters.Leveldb.MemFile.Refines.{Represents, read-Represents, append-Represents}
use wormholefilters.Leveldb.MemFile.{FileState, file, read, append, io_error, read_ok}
use wormholefilters.Leveldb.TableFormat.RoundTrip.{
  decode_handle-encode_handle, decode_footer-encode_footer,
}
use wormholefilters.Leveldb.TableFormat.{
  Footer, footer, handle, encode_handle, decode_handle, encode_footer, decode_footer,
}
use wormholefilters.Leveldb.Varint.{put_varint32, encode_varint32}

abbrev tail_of_table : Footer
tail_of_table = footer (handle 300 40) (handle 345 (2 ^ 20))

decode_footer-encode_footer_example :
    (length (encode_footer [] tail_of_table) ≡ 48)
    × (decode_footer (encode_footer [] tail_of_table ++ (1 ∷ [])) ≡ inr (tail_of_table, 1 ∷ []))
decode_footer-encode_footer_example =
    decode_footer-encode_footer tail_of_table (1 ∷ [])
      ((omega arith, omega arith), (omega arith, omega arith))

decode_handle-encode_handle_example :
    decode_handle (encode_handle [] (handle 300 40) ++ (5 ∷ [])) ≡ some (handle 300 40, 5 ∷ [])
decode_handle-encode_handle_example =
    decode_handle-encode_handle (handle 300 40) (5 ∷ []) (omega arith, omega arith)

abbrev two_entries : List (List ℕ × List ℕ)
two_entries = (97 ∷ 98 ∷ [], 1 ∷ []) ∷ (97 ∷ 99 ∷ [], 2 ∷ 3 ∷ []) ∷ []

-- The second entry shares a byte with the first.
two_entries_bytes :
    (add_all 16 new_builder two_entries).buffer
    ≡ 0 ∷ 2 ∷ 1 ∷ 97 ∷ 98 ∷ 1 ∷ 1 ∷ 1 ∷ 2 ∷ 99 ∷ 2 ∷ 3 ∷ []
unfolding add_all add new_builder shared_with diff_index put_varint32 encode_varint32 counter_for
two_entries_bytes = refl

abbrev three_entries : List (List ℕ × List ℕ)
three_entries = (97 ∷ 98 ∷ [], 1 ∷ []) ∷ (97 ∷ 99 ∷ [], 2 ∷ 3 ∷ []) ∷ (97 ∷ 100 ∷ [], []) ∷ []

-- With an interval of 2 the third entry begins at the second restart point.
abbrev three_entries_block : BlockBuilder
three_entries_block = finish (add_all 2 new_builder three_entries)

three_entries_short :
    (length three_entries_block.buffer < 2 ^ 32) × (1 < num_restarts three_entries_block.buffer)
unfolding num_restarts decode_fixed32 finish add_all add new_builder shared_with restarts_for
    counter_for diff_index put_varint32 encode_varint32 put_fixed32 encode_fixed32
three_entries_short = (omega arith, omega arith)

entries_of-finish_example :
    (entries_of three_entries_block.buffer
      ≡ ok (scan (add_all 2 new_builder three_entries).last_key three_entries))
    × (entries_from three_entries_block.buffer 1
        ≡ ok (scan (add_all 2 new_builder three_entries).last_key (drop (1 * 2) three_entries)))
    × (length three_entries ≤ num_restarts three_entries_block.buffer * 2)
    × (num_restarts three_entries_block.buffer * 2 ≤ length three_entries + 2)
entries_of-finish_example =
    entries_of-finish 2 three_entries 1 (omega arith)
      ((omega arith, omega arith), ((omega arith, omega arith), ((omega arith, omega arith), tt)))
      three_entries_short.0 three_entries_short.1

-- A file of two bytes, in a block of which the rest is zero.
abbrev zeros : ℕ → List ℕ
zeros n = replicate n 0

abbrev small_file : FileState
small_file = file 1 ((1 ∷ 2 ∷ zeros 8190) ∷ []) 2

abbrev bytes : List ℕ
bytes = 1 ∷ 2 ∷ []

small_file-Represents : Represents small_file bytes
unfolding flat
small_file-Represents =
    let n = length-replicate {A = ℕ} 8190 0 in
    (refl, (omega (arith, n), tt), (zeros 8190, append-nil (1 ∷ 2 ∷ zeros 8190), omega (arith, n)))

read-Represents_example :
    read small_file 1 4
    ≡ (if ltb (length bytes) 1 then io_error else read_ok (take 4 (drop 1 bytes)))
read-Represents_example = read-Represents small_file bytes 1 4 small_file-Represents

append-Represents_example :
    (s' : FileState) × (append (zeros 8192) small_file (3 ∷ 4 ∷ []) ≡ some s')
    × Represents s' (bytes ++ (3 ∷ 4 ∷ []))
append-Represents_example =
    append-Represents (zeros 8192) small_file bytes (3 ∷ 4 ∷ []) (length-replicate {A = ℕ} 8192 0)
      small_file-Represents
