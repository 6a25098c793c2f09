-- ===== src/Leveldb/Log/RoundTrip.antt =====
-- Records that `AddRecord` adds, read by `ReadRecord`.
use mathlib.Core.List.{append_assoc}
use native.Mathlib.Decide.{ℕ_discrete}
use wormholefilters.Base.{
  ℕ, zero, suc, ◌+◌, ◌*◌, ◌≤◌, ◌<◌, ◌≡◌, ◌≢◌, inl, Bool, true, false, Option, some, List, ◌++◌,
  refl, sym, ap, ◌∙◌, arith, length, length-append, length-take, length-drop, take, drop, subst,
}
use wormholefilters.Base.Slices.{take-drop}
use wormholefilters.Leveldb.Log.Fragments.{
  plain_file, Keeps, IsGap, none_left, trailer, IsSwitched, switch_block-IsSwitched, fitting,
}
use wormholefilters.Leveldb.Log.Physical.{no_failure, physical, length-physical, IsAt}
use wormholefilters.Leveldb.Log.Reader.{Reader, Fragments, read_loop}
use wormholefilters.Leveldb.Log.Rounds.{
  Holds, fits, fits_left, fills, type_bounds, resync-end, resync-go_on, add_loop-end,
  add_loop-go_on, read_loop-physical, read_loop-found, read_loop-go_on,
}
use wormholefilters.Leveldb.Log.Writer.{
  Writer, writer, record_type, switch_block, add_loop, add_record,
}
use wormholefilters.Leveldb.Log.{Crc}

module _ (crc : Crc) (checksum : Bool) where
  -- The writer has written bytes from which the reader takes what is left of the record.
  pub record IsAdded (w : Writer (List ℕ)) (left : List ℕ) (begin : Bool)
      (result : Option (Bool × Writer (List ℕ))) : Type 0 where
    pub last : Writer (List ℕ)
    pub bytes : List ℕ
    pub returned : result ≡ some (true, last)
    pub wrote : last.dest ≡ w.dest ++ bytes
    pub long : 0 < length bytes
    pub reads :
        (r : Reader) (o : ℕ) (f : Fragments) (acc rest : List ℕ) (k : ℕ)
        → Keeps o w.block_offset
        → IsAt crc checksum r o (bytes ++ rest)
        → Holds begin f acc
        → length bytes ≤ k
        → (r' : Reader) × (read_loop crc checksum 0 no_failure k f r
            ≡ some (some (acc ++ left), r'))
          × IsAt crc checksum r' last.block_offset rest

  add_loop-IsAdded_end :
      (fuel : ℕ) (w : Writer (List ℕ)) (left : List ℕ) (begin : Bool)
      (s : IsSwitched w (switch_block crc plain_file w))
      → fitting s.offset left ≡ length left
      → IsAdded w left begin (add_loop crc plain_file (suc fuel) w left begin)
  add_loop-IsAdded_end fuel w left begin s e =
      let t = record_type begin true in
      let bytes = s.pad ++ physical crc t left in
      record {
        last = writer (w.dest ++ bytes) (s.offset + (7 + length left));
        bytes = bytes;
        returned = add_loop-end crc checksum fuel w left begin s e;
        wrote = refl;
        long = omega (arith, length-append s.pad (physical crc t left), length-physical crc t left);
        reads = λ r o f acc rest k keeps a h l. reads_lem r o f acc rest k keeps a h l;
      }
    where
      reads_lem :
          (r : Reader) (o : ℕ) (f : Fragments) (acc rest : List ℕ) (k : ℕ)
          → Keeps o w.block_offset
          → IsAt crc checksum r o ((s.pad ++ physical crc (record_type begin true) left) ++ rest)
          → Holds begin f acc
          → length (s.pad ++ physical crc (record_type begin true) left) ≤ k
          → (r' : Reader) × (read_loop crc checksum 0 no_failure k f r
              ≡ some (some (acc ++ left), r'))
            × IsAt crc checksum r' (s.offset + (7 + length left)) rest
      reads_lem r o f acc rest zero keeps a h l = absurd (
          omega (
            arith,
            l,
            length-append s.pad (physical crc (record_type begin true) left),
            length-physical crc (record_type begin true) left,
          ))
      reads_lem r o f acc rest (suc k) keeps a h l =
          let (r', e', a') =
            read_loop-physical crc checksum r o s.offset (record_type begin true) s.pad left rest f
              k (type_bounds begin true) (omega (arith, s.room, e, fits s.offset left))
              (s.gap o keeps) a in
          let (r'', e'', a'') =
            resync-end crc checksum r' (s.offset + (7 + length left)) rest left acc begin f h a' in
          (r'', read_loop-found crc checksum k f r r'' (acc ++ left) (e' ∙ e''), a'')

  add_loop-IsAdded_step :
      (fuel : ℕ) (w : Writer (List ℕ)) (left : List ℕ) (begin : Bool)
      (s : IsSwitched w (switch_block crc plain_file w))
      → fitting s.offset left ≢ length left
      → IsAdded
          (writer
            (w.dest
              ++ (s.pad
                  ++ physical crc (record_type begin false) (take (fitting s.offset left) left)))
            (s.offset + (7 + length (take (fitting s.offset left) left))))
          (drop (fitting s.offset left) left)
          false
          (add_loop crc plain_file fuel
            (writer
              (w.dest
                ++ (s.pad
                    ++ physical crc (record_type begin false) (take (fitting s.offset left) left)))
              (s.offset + (7 + length (take (fitting s.offset left) left))))
            (drop (fitting s.offset left) left)
            false)
      → IsAdded w left begin (add_loop crc plain_file (suc fuel) w left begin)
  add_loop-IsAdded_step fuel w left begin s e more = record {
    last = more.last;
    bytes = (s.pad ++ physical crc t p) ++ more.bytes;
    returned = add_loop-go_on crc checksum fuel w left begin s e ∙ more.returned;
    wrote = more.wrote ∙ append_assoc w.dest (s.pad ++ physical crc t p) more.bytes;
    long = omega (
      arith,
      length-append (s.pad ++ physical crc t p) more.bytes,
      length-append s.pad (physical crc t p),
      length-physical crc t p,
    );
    reads = λ r o f acc rest k keeps a h l. reads_lem r o f acc rest k keeps a h l;
  }
    where
      t : ℕ
      t = record_type begin false

      p : List ℕ
      p = take (fitting s.offset left) left

      reads_lem :
          (r : Reader) (o : ℕ) (f : Fragments) (acc rest : List ℕ) (k : ℕ)
          → Keeps o w.block_offset
          → IsAt crc checksum r o (((s.pad ++ physical crc t p) ++ more.bytes) ++ rest)
          → Holds begin f acc
          → length ((s.pad ++ physical crc t p) ++ more.bytes) ≤ k
          → (r' : Reader) × (read_loop crc checksum 0 no_failure k f r
              ≡ some (some (acc ++ left), r'))
            × IsAt crc checksum r' more.last.block_offset rest
      reads_lem r o f acc rest zero keeps a h l = absurd (
          omega (
            arith,
            l,
            length-append (s.pad ++ physical crc t p) more.bytes,
            length-append s.pad (physical crc t p),
            length-physical crc t p,
          ))
      reads_lem r o f acc rest (suc k) keeps a h l =
          let (r', e', a') =
            read_loop-physical crc checksum r o s.offset t s.pad p (more.bytes ++ rest) f k
              (type_bounds begin false)
              (omega (arith, s.room, fits s.offset left, length-take (fitting s.offset left) left))
              (s.gap o keeps)
              (subst (λ (l : List ℕ). IsAt crc checksum r o l)
                (append_assoc (s.pad ++ physical crc t p) more.bytes rest) a) in
          let (f', e'', h') =
            resync-go_on crc checksum r' (s.offset + (7 + length p)) (more.bytes ++ rest) p acc
              begin f h a' in
          let (r'', e₃, a₃) =
            more.reads r' (s.offset + (7 + length p)) f' (acc ++ p) rest k (inl refl) a' h' (
              omega (
                arith,
                l,
                length-append (s.pad ++ physical crc t p) more.bytes,
                length-append s.pad (physical crc t p),
                length-physical crc t p,
              )) in
          (
            r'',
            read_loop-go_on crc checksum k f f' r r' (e' ∙ e'')
                ∙ (e₃
                    ∙ ap (λ (l : List ℕ). some (some l, r''))
                        (append_assoc acc p (drop (fitting s.offset left) left)
                          ∙ ap (◌++◌ acc) (take-drop (fitting s.offset left) left))),
            a₃,
          )

  -- After a full block the next one has room for another byte.
  full_block : (pad : List ℕ) (b : ℕ) → IsGap 32768 pad b → b ≡ 0
  full_block pad b (none_left e x) = absurd (omega (arith, x))
  full_block pad b (trailer gap e x y) = e

  add_loop-IsAdded :
      (fuel : ℕ) (w : Writer (List ℕ)) (left : List ℕ) (begin : Bool)
      → length left < fuel
      → (w.block_offset ≢ 32768 → length left + 1 < fuel)
      → IsAdded w left begin (add_loop crc plain_file fuel w left begin)
  add_loop-IsAdded zero w left begin h g = absurd (omega (arith, h))
  add_loop-IsAdded (suc fuel) w left begin h g =
      let s = switch_block-IsSwitched crc w in
      elim (ℕ_discrete (fitting s.offset left) (length left)) [
        | yes e ↦ add_loop-IsAdded_end fuel w left begin s e
        | no e ↦ add_loop-IsAdded_step fuel w left begin s e (
            add_loop-IsAdded fuel
              (writer
                (w.dest
                  ++ (s.pad
                      ++ physical crc (record_type begin false)
                          (take (fitting s.offset left) left)))
                (s.offset + (7 + length (take (fitting s.offset left) left))))
              (drop (fitting s.offset left) left) false (enough s e) (λ x. absurd (x (filled s e))))
      ]
    where
      filled :
          (s : IsSwitched w (switch_block crc plain_file w))
          → fitting s.offset left ≢ length left
          → s.offset + (7 + length (take (fitting s.offset left) left)) ≡ 32768
      filled s e = omega (
        arith,
        fills s.offset left e,
        s.room,
        length-take (fitting s.offset left) left,
        fits_left s.offset left,
      )

      enough :
          (s : IsSwitched w (switch_block crc plain_file w))
          → fitting s.offset left ≢ length left
          → length (drop (fitting s.offset left) left) < fuel
      enough s e = elim (ℕ_discrete w.block_offset 32768) [
        | yes full ↦ omega (
          arith,
          h,
          e,
          fills s.offset left e,
          length-drop (fitting s.offset left) left,
          fits_left s.offset left,
          full_block s.pad s.offset (s.gap 32768 (inl (sym full))),
        )
        | no not_full ↦ omega (arith, g not_full, length-drop (fitting s.offset left) left)
      ]

  pub add_record-IsAdded :
      (w : Writer (List ℕ)) (slice : List ℕ)
      → IsAdded w slice true (add_record crc plain_file w slice)
  unfolding add_record
  add_record-IsAdded w slice =
      add_loop-IsAdded (2 * length slice + 2) w slice true (omega arith) (λ x. omega arith)
