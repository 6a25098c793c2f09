-- ===== src/Leveldb/Log/TwoRounds.antt =====
-- The loop of `ReadPhysicalRecord` never goes round a third time.
use wormholefilters.Base.{
  ℕ, ◌+◌, ◌≤◌, ◌≡◌, ◌⊎◌, inl, inr, Bool, true, false, Bool-cases, ◌||◌, ◌&&◌, List, ◌==◌, refl,
  arith, ltb, if◌then◌else◌, le→ltb, ltb→le, length, take, drop, subst, sub64,
}
use wormholefilters.Leveldb.Log.Reader.{
  Reader, Physical, returns, again, payload_length, physical_type, read_block, checksum_fits,
  take_record, parse_header, physical_round,
}
use wormholefilters.Leveldb.Log.{Crc}

-- A reader after whose next round the loop is left.
IsReady : Physical → Type 0
IsReady (again r) = (r.eof ≡ true) ⊎ (7 ≤ length r.buffer)
IsReady (returns t fragment r) = Unit

if-IsReady : (b : Bool) (x y : Physical) → IsReady x → IsReady y → IsReady (if b then x else y)
if-IsReady true x y p q = p
if-IsReady false x y p q = q

abbrev pub Returns : Physical → Type 0
Returns (again r) = ⊥
Returns (returns t fragment r) = Unit

if-Returns : (b : Bool) (x y : Physical) → Returns x → Returns y → Returns (if b then x else y)
if-Returns true x y p q = p
if-Returns false x y p q = q

Returns-IsReady : (x : Physical) → Returns x → IsReady x
unfolding IsReady
Returns-IsReady (again r) p = absurd p
Returns-IsReady (returns t fragment r) p = tt

module _ (crc : Crc) (checksum : Bool) (initial_offset : ℕ) (fails : ℕ → Bool) where
  parse_header-Returns : (r : Reader) → Returns (parse_header crc checksum initial_offset fails r)
  unfolding parse_header take_record
  parse_header-Returns r =
      if-Returns (ltb (length r.buffer) (7 + payload_length r.buffer)) _ _
        (if-Returns r.eof _ _ tt tt)
        (if-Returns (physical_type r.buffer == 0 && payload_length r.buffer == 0) _ _ tt (
          if-Returns
            (checksum_fits crc checksum initial_offset fails r.buffer (payload_length r.buffer)) _ _
            (if-Returns
              (ltb
                (sub64
                  (sub64
                    (sub64 r.end_of_buffer_offset
                      (length (drop (7 + payload_length r.buffer) r.buffer)))
                    7)
                  (payload_length r.buffer))
                initial_offset)
              _ _ tt tt)
            tt))

  full_or_last :
      (got : List ℕ) (eof : Bool) → ((eof || ltb (length got) 32768) ≡ true) ⊎ (7 ≤ length got)
  full_or_last got true = inl refl
  full_or_last got false = elim (Bool-cases (ltb (length got) 32768)) [
    | inl e ↦ inl e
    | inr e ↦ inr (omega (arith, ltb→le (length got) 32768 e))
  ]

  physical_round-IsReady :
      (r : Reader) → IsReady (physical_round crc checksum initial_offset fails r)
  unfolding IsReady physical_round read_block
  physical_round-IsReady r =
      if-IsReady (ltb (length r.buffer) 7) _ _
        (if-IsReady r.eof _ _ tt
          (if-IsReady (fails (length r.file)) _ _ tt (full_or_last (take 32768 r.file) r.eof)))
        (Returns-IsReady (parse_header crc checksum initial_offset fails r)
          (parse_header-Returns r))

  ready_round :
      (r : Reader)
      → IsReady (again r)
      → Returns (physical_round crc checksum initial_offset fails r)
  unfolding IsReady physical_round
  ready_round r (inl e) =
      if-Returns (ltb (length r.buffer) 7) _ _ (rw e tt) (parse_header-Returns r)
  ready_round r (inr h) = rw (le→ltb (length r.buffer) 7 h) (parse_header-Returns r)

  -- A round after which the loop goes on is followed by one that returns.
  pub physical_round_twice :
      (r r' : Reader)
      → physical_round crc checksum initial_offset fails r ≡ again r'
      → Returns (physical_round crc checksum initial_offset fails r')
  physical_round_twice r r' e = ready_round r' (subst IsReady e (physical_round-IsReady r))
