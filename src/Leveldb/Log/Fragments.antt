-- ===== src/Leveldb/Log/Fragments.antt =====
-- One round of `AddRecord`, and the call of `ReadPhysicalRecord` that reads what it has written.
use mathlib.Core.List.{append_assoc, append-nil}
use native.Mathlib.Decide.{dec_lt}
use wormholefilters.Base.{
  some, ℕ, ◌+◌, ◌-◌, ◌≤◌, ◌<◌, ◌≡◌, ◌⊎◌, inl, inr, Bool, true, List, [], ◌++◌, ◌==◌, refl, sym, ap,
  ◌∙◌, arith, ltb, lt→ltb, le→ltb, if◌then◌else◌, length, take, drop, replicate, length-replicate,
  subst,
}
use wormholefilters.Leveldb.Log.Physical.{
  no_failure, physical, IsAt, physical_round-physical, physical_round-trailer,
}
use wormholefilters.Leveldb.Log.Reader.{Reader, read_physical_record, first_round, second_round}
use wormholefilters.Leveldb.Log.Writer.{
  WritableFile, Writer, writer, header, record_type, emit_physical_record, switch_block,
  fragment_length, add_round, left_after,
}
use wormholefilters.Leveldb.Log.{Crc}

-- A file to which every call succeeds.
abbrev pub plain_file : WritableFile (List ℕ)
plain_file = record { append = λ f bytes. (true, f ++ bytes); flush = λ f. (true, f) }

-- The bytes from the reader's offset to the next header, and the header's offset.
pub data IsGap : ℕ → List ℕ → ℕ → Type 0 where
  none_left : {o b : ℕ} → o ≡ b → o + 7 ≤ 32768 → IsGap o [] b
  trailer :
      {o b : ℕ} (pad : List ℕ) → b ≡ 0 → length pad ≡ 32768 - o → length pad < 7 → IsGap o pad b

-- The reader has come as far as the writer: at a new file it has yet to read the first block.
abbrev pub Keeps : ℕ → ℕ → Type 0
Keeps o b = (o ≡ b) ⊎ ((o ≡ 32768) × (b ≡ 0))

-- `switch_block` writes a trailer or nothing, and a reader that keeps up finds a gap there.
pub record IsSwitched (w w' : Writer (List ℕ)) : Type 0 where
  pub pad : List ℕ
  pub offset : ℕ
  pub same : w' ≡ writer (w.dest ++ pad) offset
  pub room : offset + 7 ≤ 32768
  pub gap : (o : ℕ) → Keeps o w.block_offset → IsGap o pad offset

keeps_far : (o b : ℕ) → b + 7 ≤ 32768 → Keeps o b → IsGap o [] b
keeps_far o b h (inl k) = none_left k (omega (arith, k, h))
keeps_far o b h (inr (p, q)) = trailer [] q (omega (arith, p)) (omega arith)

keeps_near :
    (o b : ℕ) (pad : List ℕ) → 32768 - b < 7 → length pad ≡ 32768 - b → Keeps o b → IsGap o pad 0
keeps_near o b pad h e (inl k) =
    trailer pad refl (e ∙ ap (λ (o : ℕ). 32768 - o) (sym k)) (omega (arith, e, h))
keeps_near o b pad h e (inr (p, q)) = absurd (omega (arith, h, q))

pub switch_block-IsSwitched :
    (crc : Crc) (w : Writer (List ℕ)) → IsSwitched w (switch_block crc plain_file w)
unfolding switch_block
switch_block-IsSwitched crc w = elim (dec_lt (32768 - w.block_offset) 7) [
  | no far ↦ record {
    pad = [];
    offset = w.block_offset;
    same =
        rw (le→ltb (32768 - w.block_offset) 7 (omega (arith, far)))
          (ap (λ (l : List ℕ). writer l w.block_offset) (sym (append-nil w.dest)));
    room = omega (arith, far);
    gap = λ o k. keeps_far o w.block_offset (omega (arith, far)) k;
  }
  | yes near ↦ elim (dec_lt 0 (32768 - w.block_offset)) [
    | yes some_left ↦ record {
      pad = replicate (32768 - w.block_offset) 0;
      offset = 0;
      same =
          rw (lt→ltb (32768 - w.block_offset) 7 near, lt→ltb 0 (32768 - w.block_offset) some_left);
      room = omega arith;
      gap = λ o k.
          keeps_near o w.block_offset (replicate (32768 - w.block_offset) 0) near
            (length-replicate {A = ℕ} (32768 - w.block_offset) 0) k;
    }
    | no full ↦ record {
      pad = [];
      offset = 0;
      same =
          rw
            (
              lt→ltb (32768 - w.block_offset) 7 near,
              le→ltb 0 (32768 - w.block_offset) (omega (arith, full)),
            )
            (ap (λ (l : List ℕ). writer l 0) (sym (append-nil w.dest)));
      room = omega arith;
      gap = λ o k. keeps_near o w.block_offset [] near (omega (arith, full)) k;
    }
  ]
]

-- The length of the next fragment, at an offset that has room for a header.
unfoldable pub fitting : ℕ → List ℕ → ℕ
fitting b left = if ltb (length left) (32768 - b - 7) then length left else 32768 - b - 7

-- What a round writes, where it leaves the writer, and what is left.
pub add_round_lem :
    (crc : Crc) (w : Writer (List ℕ)) (left : List ℕ) (begin : Bool) (pad : List ℕ) (b : ℕ)
    → switch_block crc plain_file w ≡ writer (w.dest ++ pad) b
    → add_round crc plain_file w left begin ≡ (
      true,
      writer
          (w.dest
            ++ (pad
                ++ physical crc
                    (record_type begin (length left == fitting b left))
                    (take (fitting b left) left)))
          (b + (7 + length (take (fitting b left) left))),
    )
unfolding add_round emit_physical_record physical fragment_length fitting
add_round_lem crc w left begin pad b e = rw e (
    ap (λ (l : List ℕ). (true, writer l (b + (7 + length (take (fitting b left) left)))))
      (append_assoc (w.dest ++ pad) (header crc t p) p
        ∙ append_assoc w.dest pad (header crc t p ++ p)))
  where
    t : ℕ
    t = record_type begin (length left == fitting b left)

    p : List ℕ
    p = take (fitting b left) left

pub left_after_lem :
    (crc : Crc) (w : Writer (List ℕ)) (left pad : List ℕ) (b : ℕ)
    → switch_block crc plain_file w ≡ writer (w.dest ++ pad) b
    → left_after crc plain_file w left ≡ drop (fitting b left) left
unfolding left_after fragment_length fitting
left_after_lem crc w left pad b e = rw e refl

module _ (crc : Crc) (checksum : Bool) where
  pub read_physical_record-physical :
      (r : Reader) (o b t : ℕ) (pad payload rest : List ℕ)
      → 0 < t
      → t < 128
      → b + (7 + length payload) ≤ 32768
      → IsGap o pad b
      → IsAt crc checksum r o (pad ++ (physical crc t payload ++ rest))
      → (r' : Reader) × (read_physical_record crc checksum 0 no_failure r ≡ some (t, (payload, r')))
        × IsAt crc checksum r' (b + (7 + length payload)) rest
  unfolding read_physical_record first_round second_round
  read_physical_record-physical r o b t pad payload rest p q h (none_left e x) a =
      let (r', f, a') =
        physical_round-physical crc checksum r o t payload rest p q (omega (arith, e, h)) a in
      (r', rw f, subst (λ (o : ℕ). IsAt crc checksum r' (o + (7 + length payload)) rest) e a')
  read_physical_record-physical r o b t pad payload rest p q h (trailer gap e x y) a =
      let (r₁, f, a₁) =
        physical_round-trailer crc checksum r o gap (physical crc t payload ++ rest) x y a in
      let (r', f', a') =
        physical_round-physical crc checksum r₁ 0 t payload rest p q (omega (arith, h)) a₁ in
      (
        r',
        rw (f, f'),
        subst (λ (o : ℕ). IsAt crc checksum r' (o + (7 + length payload)) rest) (sym e) a',
      )
