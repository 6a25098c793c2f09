-- ===== src/Leveldb/Log/Physical.antt =====
-- `ReadPhysicalRecord` on what `EmitPhysicalRecord` has written.
use mathlib.Core.List.{append_assoc}
use wormholefilters.Base.Slices.{drop-drop, take_add}
use wormholefilters.Base.{
  ℕ, suc, ◌+◌, ◌-◌, ◌/◌, ◌^◌, ◌≤◌, ◌<◌, ◌≡◌, Bool, true, false, not, ◌||◌, List, [], ◌∷◌, ◌++◌,
  ◌==◌, refl, sym, ap, ◌∙◌, arith, ltb, lt→ltb, le→ltb, ==_refl, ne→==, if◌then◌else◌, u8, u64,
  sub64, length, length-append, length-take, take, drop, take_append, drop_append,
}
use wormholefilters.Leveldb.Coding.{encode_fixed32, decode_fixed32}
use wormholefilters.Leveldb.Coding.RoundTrip.{decode_fixed32-encode_fixed32}
use wormholefilters.Leveldb.Log.Reader.{
  Reader, Physical, again, returns, payload_length, physical_type, checksum_fits, take_record,
  parse_header, read_block, physical_round,
}
use wormholefilters.Leveldb.Log.Writer.{header}
use wormholefilters.Leveldb.Log.{Crc, crc_value}
use wormholefilters.Leveldb.TableFormat.RoundTrip.{unmask-mask}
use wormholefilters.Leveldb.TableFormat.{mask, unmask}

-- A file in which every call of `Read` succeeds.
abbrev pub no_failure : ℕ → Bool
no_failure n = false

-- The header and the payload of a physical record.
unfoldable pub physical : Crc → ℕ → List ℕ → List ℕ
physical crc t payload = header crc t payload ++ payload

mask-lt : (c : ℕ) → mask c < 2 ^ 32
unfolding mask
mask-lt c = omega arith

length-header : (crc : Crc) (t : ℕ) (payload : List ℕ) → length (header crc t payload) ≡ 7
unfolding header encode_fixed32
length-header crc t payload = refl

pub length-physical :
    (crc : Crc) (t : ℕ) (payload : List ℕ) → length (physical crc t payload) ≡ 7 + length payload
unfolding physical
length-physical crc t payload =
    omega (arith, length-append (header crc t payload) payload, length-header crc t payload)

one_more : (n : ℕ) → 1 + n ≡ suc n
one_more n = omega arith

never : (n : ℕ) (x y : Physical) → (if ltb n 0 then x else y) ≡ y
never n x y = rw (le→ltb n 0 (omega arith))

same_buffer :
    (r : Reader) (t : ℕ) {a b c d : List ℕ}
    → a ≡ b
    → c ≡ d
    → returns t a (record r { buffer = c }) ≡ returns t b (record r { buffer = d })
same_buffer r t p q = rw (p, q)

module _ (crc : Crc) (checksum : Bool) where
  payload_length-header :
      (t : ℕ) (payload rest : List ℕ)
      → length payload < 2 ^ 16
      → payload_length (header crc t payload ++ rest) ≡ length payload
  unfolding payload_length header encode_fixed32
  payload_length-header t payload rest h = omega arith

  physical_type-header :
      (t : ℕ) (payload rest : List ℕ) → t < 128 → physical_type (header crc t payload ++ rest) ≡ t
  unfolding physical_type header encode_fixed32
  physical_type-header t payload rest h = ground arith

  checksum_fits-header :
      (t : ℕ) (payload rest : List ℕ)
      → checksum_fits crc checksum 0 no_failure
          (header crc t payload ++ (payload ++ rest))
          (length payload)
        ≡ true
  unfolding checksum_fits
  checksum_fits-header t payload rest =
      let c = crc.extend (crc_value crc (t ∷ [])) payload in
      let stored : unmask (decode_fixed32 (header crc t payload ++ (payload ++ rest)) 0) ≡ c =
        ap unmask (stored_lem c) ∙ unmask-mask c (crc.extend-lt (crc_value crc (t ∷ [])) payload) in
      let computed : crc_value crc
            (take (1 + length payload) (drop 6 (header crc t payload ++ (payload ++ rest))))
          ≡ c =
        ap (crc_value crc) taken ∙ sym (crc.extend-append 0 (t ∷ []) payload) in
      rw (stored, computed, ==_refl c) (or_true (not checksum))
    where
      or_true : (b : Bool) → (b || true) ≡ true
      or_true true = refl
      or_true false = refl

      stored_lem :
          (c : ℕ)
          → decode_fixed32 (header crc t payload ++ (payload ++ rest)) 0
            ≡ mask (crc.extend (crc_value crc (t ∷ [])) payload)
      stored_lem c =
          let m = mask (crc.extend (crc_value crc (t ∷ [])) payload) in
          let tail = u8 (length payload) ∷ u8 (length payload / 2 ^ 8) ∷ t ∷ [] in
          unfold header in
          (ap (λ (l : List ℕ). decode_fixed32 l 0)
              (append_assoc (encode_fixed32 m) tail (payload ++ rest))
            ∙ decode_fixed32-encode_fixed32 m (tail ++ (payload ++ rest))
                (mask-lt (crc.extend (crc_value crc (t ∷ [])) payload)))

      taken :
          take (1 + length payload) (drop 6 (header crc t payload ++ (payload ++ rest)))
          ≡ t ∷ payload
      taken =
          unfold header encode_fixed32 in
          (ap (λ (k : ℕ). take k (t ∷ (payload ++ rest))) (one_more (length payload))
            ∙ ap (◌∷◌ t) (take_append payload rest))

  take_record_lem :
      (r : Reader) (t : ℕ) (payload more : List ℕ)
      → r.buffer ≡ physical crc t payload ++ more
      → take_record crc checksum 0 no_failure r t (length payload)
        ≡ returns t payload (record r { buffer = more })
  unfolding take_record physical
  take_record_lem r t payload more e =
      let h = header crc t payload in
      let n = length-header crc t payload in
      let whole = length-physical crc t payload in
      never
        (sub64
          (sub64 (sub64 r.end_of_buffer_offset (length (drop (7 + length payload) r.buffer))) 7)
          (length payload))
        (returns 6 [] (record r { buffer = drop (7 + length payload) r.buffer }))
        (returns t (take (length payload) (drop 7 r.buffer))
          (record r { buffer = drop (7 + length payload) r.buffer }))
      ∙ same_buffer r t
          (ap (λ (l : List ℕ). take (length payload) (drop 7 l)) (e ∙ append_assoc h payload more)
            ∙ (ap (λ (k : ℕ). take (length payload) (drop k (h ++ (payload ++ more)))) (sym n)
                ∙ (ap (take (length payload)) (drop_append h (payload ++ more))
                    ∙ take_append payload more)))
          (ap (λ (l : List ℕ). drop (7 + length payload) l) e
            ∙ (ap (λ (k : ℕ). drop k ((h ++ payload) ++ more)) (sym whole)
                ∙ drop_append (h ++ payload) more))

  -- The record at the front of the buffer is taken.
  parse_header-physical :
      (r : Reader) (t : ℕ) (payload more : List ℕ)
      → 0 < t
      → t < 128
      → length payload < 2 ^ 16
      → r.buffer ≡ physical crc t payload ++ more
      → parse_header crc checksum 0 no_failure r ≡ returns t payload (record r { buffer = more })
  unfolding parse_header
  parse_header-physical r t payload more p q h e =
      let parts : r.buffer ≡ header crc t payload ++ (payload ++ more) =
        e ∙ (unfold physical in append_assoc (header crc t payload) payload more) in
      let len = ap payload_length parts ∙ payload_length-header t payload (payload ++ more) h in
      let type = ap physical_type parts ∙ physical_type-header t payload (payload ++ more) q in
      let sum =
        ap (λ (l : List ℕ). checksum_fits crc checksum 0 no_failure l (length payload)) parts
        ∙ checksum_fits-header t payload more in
      let room : ltb (length r.buffer) (7 + length payload) ≡ false =
        le→ltb (length r.buffer) (7 + length payload) (
          omega (
            arith,
            ap length e,
            length-append (physical crc t payload) more,
            length-physical crc t payload,
          )) in
      let not_zero : (t == 0) ≡ false = ne→== t 0 (λ x. absurd (omega (arith, x))) in
      rw (len, type, room, not_zero, sum) (take_record_lem r t payload more e)

  -- The reader stands at an offset of a block, with these bytes before it.
  pub record IsAt (r : Reader) (o : ℕ) (rest : List ℕ) : Type 0 where
    pub within : o ≤ 32768
    pub buffered : r.buffer ≡ take (32768 - o) rest
    pub unread : r.file ≡ drop (32768 - o) rest
    pub ended : r.eof ≡ ltb (length rest) (32768 - o)
    pub synced : r.resyncing ≡ false
    pub silent : r.reports ≡ []

  pub physical_round-physical :
      (r : Reader) (o t : ℕ) (payload rest : List ℕ)
      → 0 < t
      → t < 128
      → o + (7 + length payload) ≤ 32768
      → IsAt r o (physical crc t payload ++ rest)
      → (r' : Reader) × (physical_round crc checksum 0 no_failure r ≡ returns t payload r')
        × IsAt r' (o + (7 + length payload)) rest
  unfolding physical_round
  physical_round-physical r o t payload rest p q h a =
      let rec = physical crc t payload in
      let n = length-physical crc t payload in
      let o' = o + (7 + length payload) in
      let k : 32768 - o ≡ length rec + (32768 - o') = omega (arith, n) in
      let more = take (32768 - o') rest in
      let e : r.buffer ≡ rec ++ more =
        a.buffered ∙ (ap (λ (k : ℕ). take k (rec ++ rest)) k ∙ take_more rec rest (32768 - o')) in
      let long : ltb (length r.buffer) 7 ≡ false =
        le→ltb (length r.buffer) 7 (omega (arith, ap length e, length-append rec more, n)) in
      (
        record r { buffer = more },
        rw long (parse_header-physical r t payload more p q (omega arith) e),
        record {
          within = h;
          buffered = refl;
          unread =
              a.unread
              ∙ (ap (λ (k : ℕ). drop k (rec ++ rest)) k
                  ∙ (sym (drop-drop (length rec) (32768 - o') (rec ++ rest))
                      ∙ ap (drop (32768 - o')) (drop_append rec rest)));
          ended =
              a.ended
              ∙ shifted (length rest) (32768 - o') (length rec) (length (rec ++ rest)) (32768 - o)
                  (length-append rec rest) k;
          synced = a.synced;
          silent = a.silent;
        },
      )
    where
      take_more : (xs ys : List ℕ) (m : ℕ) → take (length xs + m) (xs ++ ys) ≡ xs ++ take m ys
      take_more xs ys m =
          take_add (length xs) m (xs ++ ys) ∙ rw (take_append xs ys, drop_append xs ys)

      shifted : (a b k m n : ℕ) → m ≡ k + a → n ≡ k + b → ltb m n ≡ ltb a b
      shifted a b k m n p q = rw (p, q) (ground arith)

  -- At a block's trailer the next block is read.
  pub physical_round-trailer :
      (r : Reader) (o : ℕ) (pad rest : List ℕ)
      → length pad ≡ 32768 - o
      → length pad < 7
      → IsAt r o (pad ++ rest)
      → (r' : Reader) × (physical_round crc checksum 0 no_failure r ≡ again r') × IsAt r' 0 rest
  unfolding physical_round read_block
  physical_round-trailer r o pad rest n h a =
      let e : r.buffer ≡ pad =
        a.buffered ∙ (ap (λ (k : ℕ). take k (pad ++ rest)) (sym n) ∙ take_append pad rest) in
      let f : r.file ≡ rest =
        a.unread ∙ (ap (λ (k : ℕ). drop k (pad ++ rest)) (sym n) ∙ drop_append pad rest) in
      let open_file : r.eof ≡ false =
        a.ended
        ∙ le→ltb (length (pad ++ rest)) (32768 - o) (omega (arith, n, length-append pad rest)) in
      let short : ltb (length r.buffer) 7 ≡ true =
        lt→ltb (length r.buffer) 7 (omega (arith, ap length e)) in
      (
        record r {
          file = drop 32768 r.file;
          buffer = take 32768 r.file;
          eof = r.eof || ltb (length (take 32768 r.file)) 32768;
          end_of_buffer_offset = u64 (r.end_of_buffer_offset + length (take 32768 r.file));
        },
        rw (short, open_file) refl,
        record {
          within = omega arith;
          buffered = ap (take 32768) f;
          unread = ap (drop 32768) f;
          ended = rw (open_file, f) (whole rest);
          synced = a.synced;
          silent = a.silent;
        },
      )
    where
      whole : (rest : List ℕ) → ltb (length (take 32768 rest)) 32768 ≡ ltb (length rest) 32768
      whole rest = rw (length-take 32768 rest) (ground arith)
