-- ===== src/Leveldb/WriteBatch.antt =====
-- leveldb/db/write_batch.cc: a batch of updates as one string, `rep_`. A handler is the list of the
-- calls that it gets.
pub mod Rounds
pub mod Strings
pub mod Batch
use wormholefilters.Base.{
  ℕ, zero, suc, ◌+◌, ◌-◌, ◌^◌, Bool, true, false, Option, none, some, List, [], ◌∷◌, ◌++◌, ◌==◌,
  ltb, if◌then◌else◌, u32, length, take, drop, replicate,
}
use wormholefilters.Leveldb.Coding.{encode_fixed32, encode_fixed64, decode_fixed32, decode_fixed64}
use wormholefilters.Leveldb.Consume.{
  Round, done, fail, next, Outcome, ok, err, out_of_fuel, consume_all,
}
use wormholefilters.Leveldb.Getter.{both, read}
use wormholefilters.Leveldb.Varint.{put_length_prefixed_slice, get_length_prefixed_slice}

abbrev pub header : ℕ
header = 12

-- A call of the handler.
pub data Op : Type 0 where
  put_op : List ℕ → List ℕ → Op
  delete_op : List ℕ → Op

-- The messages of the errors.
pub data Malformed : Type 0 where
  too_small : Malformed
  bad_put : Malformed
  bad_delete : Malformed
  unknown_tag : Malformed
  wrong_count : Malformed

unfoldable pub clear : List ℕ
clear = replicate header 0

-- The count is an `int`: the numbers below 2 ^ 31.
unfoldable pub count : List ℕ → ℕ
count rep = decode_fixed32 rep 8

-- Writes into the first twelve bytes, which are there.
unfoldable pub set_count : List ℕ → ℕ → List ℕ
set_count rep n = take 8 rep ++ (encode_fixed32 (u32 n) ++ drop 12 rep)

unfoldable pub sequence : List ℕ → ℕ
sequence rep = decode_fixed64 rep 0

unfoldable pub set_sequence : List ℕ → ℕ → List ℕ
set_sequence rep seq = encode_fixed64 seq ++ drop 8 rep

unfoldable pub put : List ℕ → List ℕ → List ℕ → List ℕ
put rep key value =
    put_length_prefixed_slice
      (put_length_prefixed_slice (set_count rep (count rep + 1) ++ (1 ∷ [])) key) value

unfoldable pub delete : List ℕ → List ℕ → List ℕ
delete rep key = put_length_prefixed_slice (set_count rep (count rep + 1) ++ (0 ∷ [])) key

unfoldable pub append : List ℕ → List ℕ → List ℕ
append dst src = set_count dst (count dst + count src) ++ drop header src

-- How far `Iterate` has come: `found`, and the calls so far.
pub record Progress : Type 0 where
  pub found : ℕ
  pub calls : List Op

unfoldable pub call : Progress → Op → Progress
call s op = record { found = s.found + 1; calls = s.calls ++ (op ∷ []) }

-- An error, and the calls before it.
abbrev pub Failure : Type 0
Failure = Malformed × List Op

unfoldable pub iterate_put : Progress → List ℕ → Round Progress Failure
iterate_put s input =
    read (both get_length_prefixed_slice get_length_prefixed_slice)
      (λ (key, value). call s (put_op key value)) (bad_put, s.calls) input

unfoldable pub iterate_delete : Progress → List ℕ → Round Progress Failure
iterate_delete s input =
    read get_length_prefixed_slice (λ key. call s (delete_op key)) (bad_delete, s.calls) input

-- One round of the loop of `Iterate`.
unfoldable pub iterate_round : Progress → List ℕ → Round Progress Failure
iterate_round s [] = done s
iterate_round s (tag ∷ input) =
    if tag == 1
    then iterate_put s input
    else if tag == 0
    then iterate_delete s input
    else fail (unknown_tag, s.calls)

-- The test after the loop.
unfoldable pub check_count : ℕ → Outcome Progress Failure → Outcome (List Op) Failure
check_count n (ok s) = if s.found == n then ok s.calls else err (wrong_count, s.calls)
check_count n (err e) = err e
check_count n Outcome.out_of_fuel = Outcome.out_of_fuel

unfoldable pub iterate : List ℕ → Outcome (List Op) Failure
iterate rep =
    if ltb (length rep) header
    then err (too_small, [])
    else check_count (count rep)
        (consume_all iterate_round (record { found = 0; calls = [] }) (drop header rep))
