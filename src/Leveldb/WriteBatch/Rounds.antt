-- ===== src/Leveldb/WriteBatch/Rounds.antt =====
-- The loop of `Iterate`: it ends, and a round on the bytes of an update makes its call.
use mathlib.Core.List.{append_assoc, append-nil}
use wormholefilters.Base.{
  ℕ, suc, ◌+◌, ◌^◌, ◌<◌, ◌≡◌, ◌≢◌, List, [], ◌∷◌, ◌++◌, refl, sym, subst, ◌∙◌, arith, ltb, drop,
  ◌==◌, Bool-cases, inl, inr, length, All,
}
use wormholefilters.Leveldb.Consume.{
  Round, done, next, Outcome, ok, err, out_of_fuel, consume_all, consume_all-done, consume_all-next,
  consume_all_ends,
}
use wormholefilters.Leveldb.Varint.RoundTrip.{get_length_prefixed_slice-put_length_prefixed_slice}
use wormholefilters.Leveldb.Varint.Shrink.{length-get_length_prefixed_slice}
use wormholefilters.Leveldb.Getter.Laws.{
  Leaves, if-Leaves, Leaves-trans, read-Leaves, both-Shrinking, both-Reads, read_next,
}
use wormholefilters.Leveldb.Getter.{both}
use wormholefilters.Leveldb.Varint.{put_length_prefixed_slice, get_length_prefixed_slice}
use wormholefilters.Leveldb.WriteBatch.{
  Op, put_op, delete_op, Progress, Failure, call, iterate_put, iterate_delete, iterate_round,
  iterate, count, check_count,
}

abbrev pub slice_bytes : List ℕ → List ℕ
slice_bytes s = put_length_prefixed_slice [] s

-- The record of one update.
unfoldable pub op_bytes : Op → List ℕ
op_bytes (put_op key value) = 1 ∷ (slice_bytes key ++ slice_bytes value)
op_bytes (delete_op key) = 0 ∷ slice_bytes key

unfoldable pub ops_bytes : List Op → List ℕ
ops_bytes [] = []
ops_bytes (op ∷ ops) = op_bytes op ++ ops_bytes ops

abbrev pub FitsOp : Op → Type 0
FitsOp (put_op key value) = (length key < 2 ^ 32) × (length value < 2 ^ 32)
FitsOp (delete_op key) = length key < 2 ^ 32

iterate_round-Leaves : (s : Progress) (input : List ℕ) → Leaves input (iterate_round s input)
unfolding iterate_round iterate_put iterate_delete
iterate_round-Leaves s [] = tt
iterate_round-Leaves s (tag ∷ input) =
    let g = get_length_prefixed_slice in
    let two =
      both-Shrinking g g length-get_length_prefixed_slice length-get_length_prefixed_slice in
    if-Leaves (tag ∷ input) (tag == 1) _ _
      (Leaves-cons tag input _ (read-Leaves (both g g) _ _ input two))
      (if-Leaves (tag ∷ input) (tag == 0) _ _
        (Leaves-cons tag input _ (read-Leaves g _ _ input length-get_length_prefixed_slice)) tt)
  where
    Leaves-cons :
        (tag : ℕ) (input : List ℕ) (r : Round Progress Failure)
        → Leaves input r
        → Leaves (tag ∷ input) r
    Leaves-cons tag input r h = Leaves-trans (tag ∷ input) input r (omega arith) h

iterate_round_shrinks :
    (s s' : Progress) (input rest : List ℕ)
    → iterate_round s input ≡ next s' rest
    → length rest < length input
iterate_round_shrinks s s' input rest e = subst (Leaves input) e (iterate_round-Leaves s input)

check_count_ends :
    (n : ℕ) (o : Outcome Progress Failure) → o ≢ out_of_fuel → check_count n o ≢ out_of_fuel
unfolding check_count
check_count_ends n (ok s) h = ground arith
check_count_ends n (err e) h = λ x. cc
check_count_ends n Outcome.out_of_fuel h = λ x. h refl

-- `Iterate` ends on every string.
iterate_ends : (rep : List ℕ) → iterate rep ≢ out_of_fuel
unfolding iterate
iterate_ends rep = elim (Bool-cases (ltb (length rep) 12)) [
  | inl small ↦ rw small (λ x. cc)
  | inr large ↦ rw large (
      check_count_ends (count rep) _ (
        consume_all_ends iterate_round iterate_round_shrinks (record { found = 0; calls = [] })
          (drop 12 rep)))
]

-- A round on the record of an update.
op_round :
    (s : Progress) (op : Op) (rest : List ℕ)
    → FitsOp op
    → iterate_round s (op_bytes op ++ rest) ≡ next (call s op) rest
unfolding iterate_round iterate_put iterate_delete op_bytes
op_round s (put_op key value) rest (p, q) =
    let g = get_length_prefixed_slice in
    read_next (both g g) _ _ ((slice_bytes key ++ slice_bytes value) ++ rest) rest (key, value)
      (both-Reads g g (slice_bytes key) (slice_bytes value) key value
        (λ r. get_length_prefixed_slice-put_length_prefixed_slice key r p)
        (λ r. get_length_prefixed_slice-put_length_prefixed_slice value r q) rest)
op_round s (delete_op key) rest p =
    read_next get_length_prefixed_slice _ _ (slice_bytes key ++ rest) rest key
      (get_length_prefixed_slice-put_length_prefixed_slice key rest p)

round_nil : (s : Progress) → iterate_round s [] ≡ done s
unfolding iterate_round
round_nil s = refl

reached :
    {m n : ℕ} {xs ys : List Op}
    → m ≡ n
    → xs ≡ ys
    → ◌≡◌ {A = Outcome Progress Failure}
        (ok (record { found = m; calls = xs }))
        (ok (record { found = n; calls = ys }))
reached p q = rw (p, q)

-- The loop on the records of some updates.
pub ops_rounds :
    (found : ℕ) (calls ops : List Op)
    → All FitsOp ops
    → consume_all iterate_round (record { found = found; calls = calls }) (ops_bytes ops)
      ≡ ok (record { found = found + length ops; calls = calls ++ ops })
unfolding ops_bytes call
ops_rounds found calls [] h =
    consume_all-done iterate_round _ _ [] (round_nil (record { found = found; calls = calls }))
    ∙ reached (omega arith) (sym (append-nil calls))
ops_rounds found calls (op ∷ ops) (p, h) =
    let s : Progress = record { found = found; calls = calls } in
    consume_all-next iterate_round iterate_round_shrinks s
      (record { found = found + 1; calls = calls ++ (op ∷ []) }) (op_bytes op ++ ops_bytes ops)
      (ops_bytes ops) (op_round s op (ops_bytes ops) p)
    ∙ (ops_rounds (found + 1) (calls ++ (op ∷ [])) ops h
        ∙ reached (add_suc found (length ops)) (append_assoc calls (op ∷ []) ops))
  where
    add_suc : (m n : ℕ) → (m + 1) + n ≡ m + suc n
    add_suc m n = omega arith
