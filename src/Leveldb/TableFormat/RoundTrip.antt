-- ===== src/Leveldb/TableFormat/RoundTrip.antt =====
-- What the footer and the mask write is read back.
use mathlib.Core.List.{append_assoc}
use wormholefilters.Base.{
  ℕ, zero, suc, ◌+◌, ◌-◌, ◌*◌, ◌^◌, ◌/◌, ◌%◌, ◌≤◌, ◌<◌, ◌≡◌, false, some, ◌⊎◌, inr, List, [], ◌∷◌,
  ◌++◌, refl, sym, ap, ◌∙◌, arith, ltb, bit_or, u32, sub32, bit_or_disjoint_low, byte_at,
  byte_at-append_right, length, length-append, length-replicate, drop, drop_append, take, replicate,
}
use wormholefilters.Leveldb.Coding.{encode_fixed32, decode_fixed32, put_fixed32}
use wormholefilters.Leveldb.Coding.RoundTrip.{decode_fixed32-encode_fixed32}
use wormholefilters.Leveldb.Getter.Laws.{Reads, both-Reads}
use wormholefilters.Leveldb.Getter.{both}
use wormholefilters.Leveldb.TableFormat.{
  BlockHandle, encode_handle, decode_handle, Footer, resize, encode_footer, BadFooter, magic,
  decode_handles, decode_footer, table_magic_number, mask, unmask, mask_delta,
}
use wormholefilters.Leveldb.Varint.Shrink.{varint64, get_varint64-varint64, length-varint64}
use wormholefilters.Leveldb.Varint.{get_varint64}

abbrev pub FitsHandle : BlockHandle → Type 0
FitsHandle h = (h.offset < 2 ^ 64) × (h.size < 2 ^ 64)

abbrev pub FitsFooter : Footer → Type 0
FitsFooter f = FitsHandle f.metaindex_handle × FitsHandle f.index_handle

handle_bytes : BlockHandle → List ℕ
handle_bytes h = varint64 h.offset ++ varint64 h.size

-- `BlockHandle::DecodeFrom` reads back the handle that `BlockHandle::EncodeTo` has written at the end
-- of any string, and leaves what follows, if the offset and the size have 64 bits.
pub decode_handle-encode_handle :
    (h : BlockHandle) (rest : List ℕ)
    → FitsHandle h
    → decode_handle (encode_handle [] h ++ rest) ≡ some (h, rest)
unfolding decode_handle encode_handle
decode_handle-encode_handle h rest (p, q) = rw (
    both-Reads get_varint64 get_varint64 (varint64 h.offset) (varint64 h.size) h.offset h.size
      (λ r. get_varint64-varint64 h.offset r p) (λ r. get_varint64-varint64 h.size r q) rest)

encode_handle_lem : (dst : List ℕ) (h : BlockHandle) → encode_handle dst h ≡ dst ++ handle_bytes h
unfolding encode_handle handle_bytes
encode_handle_lem dst h = append_assoc dst (varint64 h.offset) (varint64 h.size)

handle_bytes-Reads : (h : BlockHandle) → FitsHandle h → Reads decode_handle (handle_bytes h) h
unfolding handle_bytes
handle_bytes-Reads h fits rest = unfold encode_handle in decode_handle-encode_handle h rest fits

length-handle_bytes : (h : BlockHandle) → FitsHandle h → length (handle_bytes h) ≤ 20
unfolding handle_bytes
length-handle_bytes h (p, q) = omega (
  arith,
  length-append (varint64 h.offset) (varint64 h.size),
  length-varint64 h.offset p,
  length-varint64 h.size q,
)

resize_lem : (xs : List ℕ) (n : ℕ) → length xs ≤ n → resize xs n ≡ xs ++ replicate (n - length xs) 0
unfolding resize
resize_lem xs n h = cut xs n n h (omega arith)
  where
    cut_zeros : (n m : ℕ) → n ≤ m → ◌≡◌ {A = List ℕ} (take n (replicate m 0)) (replicate n 0)
    cut_zeros zero m h = refl
    cut_zeros (suc n) zero h = absurd (omega arith)
    cut_zeros (suc n) (suc m) h = ap (◌∷◌ 0) (cut_zeros n m (omega arith))

    cut :
        (xs : List ℕ) (n m : ℕ)
        → length xs ≤ n
        → n ≤ m
        → take n (xs ++ replicate m 0) ≡ xs ++ replicate (n - length xs) 0
    cut [] n m h k = let e : n - 0 ≡ n = omega arith in rw e (cut_zeros n m k)
    cut (x ∷ xs) zero m h k = absurd (omega arith)
    cut (x ∷ xs) (suc n) m h k =
        let e : suc n - suc (length xs) ≡ n - length xs = omega arith in
        rw e (ap (◌∷◌ x) (cut xs n m (omega arith) (omega arith)))

plus_zero : (n : ℕ) → n ≡ n + 0
plus_zero n = omega arith

-- A number in the middle of a string.
pub decode_fixed32-append :
    (xs ys : List ℕ) (n : ℕ) → length xs ≡ n → decode_fixed32 (xs ++ ys) n ≡ decode_fixed32 ys 0
unfolding decode_fixed32
decode_fixed32-append xs ys n h =
    rw (sym h) (read4 (byte_at (xs ++ ys)) (byte_at ys) (length xs) at_front shift)
  where
    shift : (i : ℕ) → byte_at (xs ++ ys) (length xs + i) ≡ byte_at ys i
    shift i = byte_at-append_right xs ys i

    at_front : byte_at (xs ++ ys) (length xs) ≡ byte_at ys 0
    at_front = ap (byte_at (xs ++ ys)) (plus_zero (length xs)) ∙ shift 0

    read4 :
        (f g : ℕ → ℕ) (n : ℕ)
        → f n ≡ g 0
        → ((i : ℕ) → f (n + i) ≡ g i)
        → bit_or
            (bit_or (bit_or (f n) (u32 (f (n + 1) * 2 ^ 8))) (u32 (f (n + 2) * 2 ^ 16)))
            (u32 (f (n + 3) * 2 ^ 24))
          ≡ bit_or
              (bit_or (bit_or (g 0) (u32 (g 1 * 2 ^ 8))) (u32 (g 2 * 2 ^ 16)))
              (u32 (g 3 * 2 ^ 24))
    read4 f g n e h = rw (e, h 1, h 2, h 3)

lo : List ℕ
lo = encode_fixed32 (u32 table_magic_number)

hi : List ℕ
hi = encode_fixed32 (table_magic_number / 2 ^ 32)

magic_lem :
    (xs rest : List ℕ) → length xs ≡ 40 → magic (xs ++ (lo ++ (hi ++ rest))) ≡ table_magic_number
unfolding magic
magic_lem xs rest h =
    let low = decode_fixed32-append xs (lo ++ (hi ++ rest)) 40 h in
    let longer : length (xs ++ lo) ≡ 44 =
      length-append xs lo ∙ (unfold lo encode_fixed32 in omega (arith, h)) in
    let high = decode_fixed32-append (xs ++ lo) (hi ++ rest) 44 longer in
    let tail = ap (λ (l : List ℕ). decode_fixed32 l 44) (sym (append_assoc xs lo (hi ++ rest))) in
    rw (low, tail ∙ high, low_half (hi ++ rest), high_half rest) refl
  where
    low_half : (rest : List ℕ) → decode_fixed32 (lo ++ rest) 0 ≡ u32 table_magic_number
    low_half rest =
        unfold lo in decode_fixed32-encode_fixed32 (u32 table_magic_number) rest (omega arith)

    high_half : (rest : List ℕ) → decode_fixed32 (hi ++ rest) 0 ≡ table_magic_number / 2 ^ 32
    high_half rest =
        unfold hi in decode_fixed32-encode_fixed32 (table_magic_number / 2 ^ 32) rest (omega arith)

-- The handles and their padding: the forty bytes before the magic number.
front : Footer → List ℕ
front f = resize (handle_bytes f.metaindex_handle ++ handle_bytes f.index_handle) 40

length-front : (f : Footer) → FitsFooter f → length (front f) ≡ 40
unfolding front
length-front f (p, q) =
    let both_bytes = handle_bytes f.metaindex_handle ++ handle_bytes f.index_handle in
    let n : length both_bytes ≤ 40 = omega (
      arith,
      length-append (handle_bytes f.metaindex_handle) (handle_bytes f.index_handle),
      length-handle_bytes f.metaindex_handle p,
      length-handle_bytes f.index_handle q,
    ) in
    rw (resize_lem both_bytes 40 n) (
      omega (
        arith,
        n,
        length-append both_bytes (replicate (40 - length both_bytes) 0),
        length-replicate {A = ℕ} (40 - length both_bytes) 0,
      ))

encode_footer_lem : (f : Footer) → encode_footer [] f ≡ front f ++ (lo ++ hi)
unfolding encode_footer front put_fixed32 lo hi encode_fixed32
encode_footer_lem f =
    let m = handle_bytes f.metaindex_handle in
    let i = handle_bytes f.index_handle in
    ap (λ (l : List ℕ). (resize l 40 ++ lo) ++ hi) (handles_lem f)
    ∙ append_assoc (resize (m ++ i) 40) lo hi
  where
    handles_lem :
        (f : Footer)
        → encode_handle (encode_handle [] f.metaindex_handle) f.index_handle
          ≡ handle_bytes f.metaindex_handle ++ handle_bytes f.index_handle
    handles_lem f =
        encode_handle_lem (encode_handle [] f.metaindex_handle) f.index_handle
        ∙ ap (λ (l : List ℕ). l ++ handle_bytes f.index_handle)
            (encode_handle_lem [] f.metaindex_handle)

decode_handles_lem :
    (f : Footer) (tail : List ℕ)
    → FitsFooter f
    → decode_handles (front f ++ tail) ≡ inr (f, drop 48 (front f ++ tail))
unfolding decode_handles front
decode_handles_lem f tail (p, q) =
    let m = handle_bytes f.metaindex_handle in
    let i = handle_bytes f.index_handle in
    let pad = replicate {A = ℕ} (40 - length (m ++ i)) 0 in
    let n : length (m ++ i) ≤ 40 = omega (
      arith,
      length-append m i,
      length-handle_bytes f.metaindex_handle p,
      length-handle_bytes f.index_handle q,
    ) in
    let split : resize (m ++ i) 40 ++ tail ≡ (m ++ i) ++ (pad ++ tail) =
      rw (resize_lem (m ++ i) 40 n) (append_assoc (m ++ i) pad tail) in
    let got =
      both-Reads decode_handle decode_handle m i f.metaindex_handle f.index_handle
        (handle_bytes-Reads f.metaindex_handle p) (handle_bytes-Reads f.index_handle q)
        (pad ++ tail) in
    rw (ap (both decode_handle decode_handle) split ∙ got, decode_handles)

-- The footer that `Footer::EncodeTo` writes into an empty string has 48 bytes, and
-- `Footer::DecodeFrom` reads it back and leaves what follows, if the offsets and sizes of its handles
-- have 64 bits.
pub decode_footer-encode_footer :
    (f : Footer) (rest : List ℕ)
    → FitsFooter f
    → (length (encode_footer [] f) ≡ 48)
      × (decode_footer (encode_footer [] f ++ rest) ≡ inr (f, rest))
unfolding decode_footer
decode_footer-encode_footer f rest fits =
    let n = length-front f fits in
    let size : length (encode_footer [] f) ≡ 48 =
      ap length (encode_footer_lem f)
      ∙ (length-append (front f) (lo ++ hi) ∙ omega (arith, n, eight)) in
    let parts : encode_footer [] f ++ rest ≡ front f ++ (lo ++ (hi ++ rest)) =
      ap (λ (l : List ℕ). l ++ rest) (encode_footer_lem f)
      ∙ (append_assoc (front f) (lo ++ hi) rest ∙ ap (◌++◌ (front f)) (append_assoc lo hi rest)) in
    let long : ltb (length (encode_footer [] f ++ rest)) 48 ≡ false =
      le→ltb_false (omega (arith, size, length-append (encode_footer [] f) rest)) in
    let left : drop 48 (front f ++ (lo ++ (hi ++ rest))) ≡ rest =
      ap (drop 48) (sym parts)
      ∙ (ap (λ (k : ℕ). drop k (encode_footer [] f ++ rest)) (sym size)
          ∙ drop_append (encode_footer [] f) rest) in
    (
      size,
      rw (long, ap magic parts ∙ magic_lem (front f) rest n)
          (ap decode_handles parts
            ∙ (decode_handles_lem f (lo ++ (hi ++ rest)) fits ∙ kept f left)),
    )
  where
    kept :
        (f : Footer) {a b : List ℕ}
        → a ≡ b
        → ◌≡◌ {A = BadFooter ⊎ (Footer × List ℕ)} (inr (f, a)) (inr (f, b))
    kept f e = rw e

    eight : length (lo ++ hi) ≡ 8
    eight = unfold lo hi encode_fixed32 in refl

    le→ltb_false : {m n : ℕ} → n ≤ m → ltb m n ≡ false
    le→ltb_false h = ground arith

-- A rotation by 15 bits to the left, of the halves that `Mask` has swapped.
rotated_back :
    (high low : ℕ)
    → high < 2 ^ 17
    → low < 2 ^ 15
    → unmask (u32 (low * 2 ^ 17 + high + mask_delta)) ≡ high * 2 ^ 15 + low
unfolding unmask
rotated_back high low h k =
    let rot = low * 2 ^ 17 + high in
    let same : sub32 (u32 (rot + mask_delta)) mask_delta ≡ rot = omega arith in
    let l : rot / 2 ^ 17 ≡ low = omega arith in
    let h' : u32 (rot * 2 ^ 15) ≡ high * 2 ^ 15 = omega arith in
    rw (same, l, h') (bit_or_disjoint_low 15 high low k)

-- `Unmask` undoes `Mask` on 32-bit checksums.
pub unmask-mask : (crc : ℕ) → crc < 2 ^ 32 → unmask (mask crc) ≡ crc
unfolding mask
unmask-mask crc h =
    let low : u32 (crc * 2 ^ 17) ≡ crc % 2 ^ 15 * 2 ^ 17 = omega arith in
    rw (low, bit_or_disjoint_low 17 (crc % 2 ^ 15) (crc / 2 ^ 15) (omega arith))
      (rotated_back (crc / 2 ^ 15) (crc % 2 ^ 15) (omega arith) (omega arith) ∙ omega arith)
