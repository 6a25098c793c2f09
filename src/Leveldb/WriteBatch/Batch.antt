-- ===== src/Leveldb/WriteBatch/Batch.antt =====
-- A batch as its sequence number and its list of updates, and the string of write_batch.cc that
-- stands for them.
use wormholefilters.Base.{
  ℕ, ◌+◌, ◌^◌, ◌<◌, ◌≡◌, true, false, List, [], ◌∷◌, ◌++◌, arith, ltb, ◌==◌, drop, length,
  length-append, All, All-append,
}
use wormholefilters.Leveldb.Coding.{encode_fixed32, encode_fixed64}
use wormholefilters.Leveldb.Consume.{ok}
use wormholefilters.Leveldb.WriteBatch.Rounds.{ops_bytes, FitsOp, ops_rounds}
use wormholefilters.Leveldb.WriteBatch.{
  Op, put_op, delete_op, iterate, count, sequence, set_sequence, check_count, clear, put, delete,
  append,
}
use wormholefilters.Leveldb.WriteBatch.Strings.{
  packed, drop-packed, sequence-packed, batch, count-batch, put-batch, delete-batch, append-batch,
  set_sequence-batch, clear-batch,
}

-- How a client makes a batch: the calls of its methods, the batch that is appended made alike.
pub data Built : Type 0 where
  cleared : Built
  with_put : Built → List ℕ → List ℕ → Built
  with_delete : Built → List ℕ → Built
  with_sequence : Built → ℕ → Built
  with_append : Built → Built → Built

-- The code's string after these calls.
unfoldable pub rep_of : Built → List ℕ
rep_of cleared = clear
rep_of (with_put b key value) = put (rep_of b) key value
rep_of (with_delete b key) = delete (rep_of b) key
rep_of (with_sequence b seq) = set_sequence (rep_of b) seq
rep_of (with_append b src) = append (rep_of b) (rep_of src)

-- The updates that it means.
unfoldable pub ops_of : Built → List Op
ops_of cleared = []
ops_of (with_put b key value) = ops_of b ++ (put_op key value ∷ [])
ops_of (with_delete b key) = ops_of b ++ (delete_op key ∷ [])
ops_of (with_sequence b seq) = ops_of b
ops_of (with_append b src) = ops_of b ++ ops_of src

unfoldable pub sequence_of : Built → ℕ
sequence_of cleared = 0
sequence_of (with_put b key value) = sequence_of b
sequence_of (with_delete b key) = sequence_of b
sequence_of (with_sequence b seq) = seq
sequence_of (with_append b src) = sequence_of b

-- Keys and values below 2 ^ 32 bytes, and sequence numbers of 64 bits.
unfoldable pub FitsBuilt : Built → Type 0
FitsBuilt cleared = Unit
FitsBuilt (with_put b key value) = FitsBuilt b × FitsOp (put_op key value)
FitsBuilt (with_delete b key) = FitsBuilt b × FitsOp (delete_op key)
FitsBuilt (with_sequence b seq) = FitsBuilt b × (seq < 2 ^ 64)
FitsBuilt (with_append b src) = FitsBuilt b × FitsBuilt src

-- The string that the methods build is the one of the updates meant.
rep_of-batch :
    (b : Built)
    → FitsBuilt b
    → length (ops_of b) < 2 ^ 32
    → rep_of b ≡ batch (sequence_of b) (ops_of b)
unfolding rep_of ops_of sequence_of FitsBuilt
rep_of-batch cleared f h = clear-batch
rep_of-batch (with_put b key value) (f, p) h =
    let op = put_op key value in
    let n = length-append (ops_of b) (op ∷ []) in
    rw (rep_of-batch b f (omega (arith, n, h)))
      (put-batch (sequence_of b) (ops_of b) key value (omega (arith, n, h)))
rep_of-batch (with_delete b key) (f, p) h =
    let op = delete_op key in
    let n = length-append (ops_of b) (op ∷ []) in
    rw (rep_of-batch b f (omega (arith, n, h)))
      (delete-batch (sequence_of b) (ops_of b) key (omega (arith, n, h)))
rep_of-batch (with_sequence b seq) (f, p) h =
    rw (rep_of-batch b f h) (set_sequence-batch (sequence_of b) seq (ops_of b))
rep_of-batch (with_append b src) (f, p) h =
    let n = length-append (ops_of b) (ops_of src) in
    rw (rep_of-batch b f (omega (arith, n, h)), rep_of-batch src p (omega (arith, n, h)))
      (append-batch (sequence_of b) (sequence_of src) (ops_of b) (ops_of src) (omega (arith, n, h)))

ops_of-FitsOp : (b : Built) → FitsBuilt b → All FitsOp (ops_of b)
unfolding ops_of FitsBuilt
ops_of-FitsOp cleared f = tt
ops_of-FitsOp (with_put b key value) (f, p) =
    All-append FitsOp (ops_of b) (put_op key value ∷ []) (ops_of-FitsOp b f) (p, tt)
ops_of-FitsOp (with_delete b key) (f, p) =
    All-append FitsOp (ops_of b) (delete_op key ∷ []) (ops_of-FitsOp b f) (p, tt)
ops_of-FitsOp (with_sequence b seq) (f, p) = ops_of-FitsOp b f
ops_of-FitsOp (with_append b src) (f, p) =
    All-append FitsOp (ops_of b) (ops_of src) (ops_of-FitsOp b f) (ops_of-FitsOp src p)

sequence_of-bound : (b : Built) → FitsBuilt b → sequence_of b < 2 ^ 64
unfolding sequence_of FitsBuilt
sequence_of-bound cleared f = omega arith
sequence_of-bound (with_put b key value) (f, p) = sequence_of-bound b f
sequence_of-bound (with_delete b key) (f, p) = sequence_of-bound b f
sequence_of-bound (with_sequence b seq) (f, p) = p
sequence_of-bound (with_append b src) (f, p) = sequence_of-bound b f

iterate-batch :
    (seq : ℕ) (ops : List Op)
    → All FitsOp ops
    → length ops < 2 ^ 32
    → iterate (batch seq ops) ≡ ok ops
iterate-batch seq ops fits h =
    unfold iterate check_count in
    (rw (long_enough, count-batch seq ops h, dropped, ops_rounds 0 [] ops fits, same))
  where
    long_enough : ltb (length (batch seq ops)) 12 ≡ false
    long_enough = unfold batch packed encode_fixed64 encode_fixed32 in (ground arith)

    dropped : drop 12 (batch seq ops) ≡ ops_bytes ops
    dropped = unfold batch in (drop-packed seq (length ops) (ops_bytes ops))

    same : (0 + length ops == length ops) ≡ true
    same = ground arith

-- However a batch is made by `Clear`, `Put`, `Delete`, `Append` and `SetSequence`, `Iterate` gives
-- the handler exactly the updates that were put in, in their order, and the batch has their number and
-- the sequence number that was set, if keys and values are below 2 ^ 32 bytes and there are fewer than
-- 2 ^ 31 updates, as the counter of `Iterate` is an `int`.
pub iterate-rep_of :
    (b : Built)
    → FitsBuilt b
    → length (ops_of b) < 2 ^ 31
    → (iterate (rep_of b) ≡ ok (ops_of b))
      × (count (rep_of b) ≡ length (ops_of b))
      × (sequence (rep_of b) ≡ sequence_of b)
iterate-rep_of b f small =
    let h : length (ops_of b) < 2 ^ 32 = omega (arith, small) in
    rw (rep_of-batch b f h) (
      iterate-batch (sequence_of b) (ops_of b) (ops_of-FitsOp b f) h,
      count-batch (sequence_of b) (ops_of b) h,
      unfold batch in
          (sequence-packed (sequence_of b) (length (ops_of b)) (ops_bytes (ops_of b))
            (sequence_of-bound b f)),
    )
