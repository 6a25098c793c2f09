-- ===== src/Leveldb/WriteBatch/Strings.antt =====
-- The string of leveldb/db/write_batch.cc that has a sequence number and updates.
use mathlib.Core.List.{append_assoc, append-nil}
use wormholefilters.Base.{
  ℕ, suc, ◌+◌, ◌^◌, ◌<◌, ◌≡◌, List, [], ◌∷◌, ◌++◌, refl, sym, ap, ◌∙◌, arith, u32, drop, length,
  length-append,
}
use wormholefilters.Leveldb.Coding.{encode_fixed32, encode_fixed64, decode_fixed32}
use wormholefilters.Leveldb.Coding.RoundTrip.{
  decode_fixed32-encode_fixed32, decode_fixed64-encode_fixed64,
}
use wormholefilters.Leveldb.Varint.{put_length_prefixed_slice, put_varint32, encode_varint32}
use wormholefilters.Leveldb.WriteBatch.Rounds.{op_bytes, ops_bytes}
use wormholefilters.Leveldb.WriteBatch.{
  Op, put_op, delete_op, count, set_count, sequence, set_sequence, clear, put, delete, append,
}

unfoldable pub packed : ℕ → ℕ → List ℕ → List ℕ
packed seq n body = encode_fixed64 seq ++ (encode_fixed32 n ++ body)

count-packed : (seq n : ℕ) (body : List ℕ) → n < 2 ^ 32 → count (packed seq n body) ≡ n
unfolding count packed
count-packed seq n body h =
    past seq (encode_fixed32 n ++ body) ∙ decode_fixed32-encode_fixed32 n body h
  where
    past :
        (seq : ℕ) (xs : List ℕ) → decode_fixed32 (encode_fixed64 seq ++ xs) 8 ≡ decode_fixed32 xs 0
    past seq xs = unfold decode_fixed32 encode_fixed64 in refl

set_count-packed :
    (seq n m : ℕ) (body : List ℕ) → m < 2 ^ 32 → set_count (packed seq n body) m ≡ packed seq m body
unfolding set_count packed encode_fixed64 encode_fixed32
set_count-packed seq n m body h = let same : u32 m ≡ m = omega arith in rw same

set_sequence-packed :
    (seq n s : ℕ) (body : List ℕ) → set_sequence (packed seq n body) s ≡ packed s n body
unfolding set_sequence packed encode_fixed64
set_sequence-packed seq n s body = refl

packed-append : (seq n : ℕ) (xs ys : List ℕ) → packed seq n xs ++ ys ≡ packed seq n (xs ++ ys)
unfolding packed encode_fixed64 encode_fixed32
packed-append seq n xs ys = refl

pub drop-packed : (seq n : ℕ) (body : List ℕ) → drop 12 (packed seq n body) ≡ body
unfolding packed encode_fixed64 encode_fixed32
drop-packed seq n body = refl

pub sequence-packed :
    (seq n : ℕ) (body : List ℕ) → seq < 2 ^ 64 → sequence (packed seq n body) ≡ seq
unfolding sequence packed
sequence-packed seq n body h = decode_fixed64-encode_fixed64 seq (encode_fixed32 n ++ body) h

ops_bytes-append : (xs ys : List Op) → ops_bytes (xs ++ ys) ≡ ops_bytes xs ++ ops_bytes ys
unfolding ops_bytes
ops_bytes-append [] ys = refl
ops_bytes-append (x ∷ xs) ys =
    ap (◌++◌ (op_bytes x)) (ops_bytes-append xs ys)
    ∙ sym (append_assoc (op_bytes x) (ops_bytes xs) (ops_bytes ys))

-- The string of a sequence number and updates.
unfoldable pub batch : ℕ → List Op → List ℕ
batch seq ops = packed seq (length ops) (ops_bytes ops)

pub count-batch :
    (seq : ℕ) (ops : List Op) → length ops < 2 ^ 32 → count (batch seq ops) ≡ length ops
unfolding batch
count-batch seq ops h = count-packed seq (length ops) (ops_bytes ops) h

put_slice :
    (dst value : List ℕ)
    → put_length_prefixed_slice dst value ≡ dst ++ put_length_prefixed_slice [] value
unfolding put_length_prefixed_slice put_varint32
put_slice dst value = append_assoc dst (encode_varint32 (u32 (length value))) value

-- One more update: its record at the end, and one more in the count.
extended :
    (seq : ℕ) (ops : List Op) (op : Op)
    → length ops + 1 < 2 ^ 32
    → set_count (batch seq ops) (count (batch seq ops) + 1) ++ op_bytes op
      ≡ batch seq (ops ++ (op ∷ []))
extended seq ops op h = rw (count-batch seq ops (omega arith)) (
    unfold batch in
    (rw (set_count-packed seq (length ops) (length ops + 1) (ops_bytes ops) h)
      (packed-append seq (length ops + 1) (ops_bytes ops) (op_bytes op) ∙ regrouped)))
  where
    counted : length (ops ++ (op ∷ [])) ≡ length ops + 1
    counted = length-append ops (op ∷ []) ∙ one (length ops)
      where
        one : (n : ℕ) → n + suc 0 ≡ n + 1
        one n = omega arith

    regrouped :
        packed seq (length ops + 1) (ops_bytes ops ++ op_bytes op)
        ≡ packed seq (length (ops ++ (op ∷ []))) (ops_bytes (ops ++ (op ∷ [])))
    regrouped =
        rw (counted, ops_bytes-append ops (op ∷ []))
          (ap (λ (xs : List ℕ). packed seq (length ops + 1) (ops_bytes ops ++ xs))
            (sym (unfold ops_bytes in append-nil (op_bytes op))))

pub put-batch :
    (seq : ℕ) (ops : List Op) (key value : List ℕ)
    → length ops + 1 < 2 ^ 32
    → put (batch seq ops) key value ≡ batch seq (ops ++ (put_op key value ∷ []))
unfolding put op_bytes
put-batch seq ops key value h =
    let rep = set_count (batch seq ops) (count (batch seq ops) + 1) in
    let k = put_length_prefixed_slice [] key in
    let v = put_length_prefixed_slice [] value in
    put_slice (put_length_prefixed_slice (rep ++ (1 ∷ [])) key) value
    ∙ (ap (λ (xs : List ℕ). xs ++ v) (put_slice (rep ++ (1 ∷ [])) key)
        ∙ (append_assoc (rep ++ (1 ∷ [])) k v
            ∙ (append_assoc rep (1 ∷ []) (k ++ v) ∙ extended seq ops (put_op key value) h)))

pub delete-batch :
    (seq : ℕ) (ops : List Op) (key : List ℕ)
    → length ops + 1 < 2 ^ 32
    → delete (batch seq ops) key ≡ batch seq (ops ++ (delete_op key ∷ []))
unfolding delete op_bytes
delete-batch seq ops key h =
    let rep = set_count (batch seq ops) (count (batch seq ops) + 1) in
    put_slice (rep ++ (0 ∷ [])) key
    ∙ (append_assoc rep (0 ∷ []) (put_length_prefixed_slice [] key)
        ∙ extended seq ops (delete_op key) h)

pub append-batch :
    (seq s : ℕ) (ops src : List Op)
    → length ops + length src < 2 ^ 32
    → append (batch seq ops) (batch s src) ≡ batch seq (ops ++ src)
unfolding append batch
append-batch seq s ops src h =
    let n = count-packed seq (length ops) (ops_bytes ops) (omega arith) in
    let m = count-packed s (length src) (ops_bytes src) (omega arith) in
    rw (n, m, drop-packed s (length src) (ops_bytes src))
      (rw (set_count-packed seq (length ops) (length ops + length src) (ops_bytes ops) h) (
        packed-append seq (length ops + length src) (ops_bytes ops) (ops_bytes src)
        ∙ rw (length-append ops src, ops_bytes-append ops src)))

pub set_sequence-batch : (seq s : ℕ) (ops : List Op) → set_sequence (batch seq ops) s ≡ batch s ops
unfolding batch
set_sequence-batch seq s ops = set_sequence-packed seq (length ops) s (ops_bytes ops)

pub clear-batch : clear ≡ batch 0 []
unfolding clear batch packed encode_fixed64 encode_fixed32 ops_bytes
clear-batch = refl
