-- ===== src/Leveldb/Log/Rounds.antt =====
-- The rounds of the loops of `AddRecord` and of `ReadRecord`.
use mathlib.Core.List.{append_assoc}
use wormholefilters.Base.{
  ℕ, suc, ◌+◌, ◌-◌, ◌≤◌, ◌<◌, ◌≡◌, ◌≢◌, Bool, true, false, some, List, [], ◌++◌, ◌==◌, refl, sym,
  ap, ◌∙◌, arith, ltb, lt→ltb, le→ltb, ==_refl, ne→==, length, length-drop, take, drop, subst,
}
use wormholefilters.Base.Slices.{take_all}
use wormholefilters.Leveldb.Log.Fragments.{
  plain_file, IsGap, IsSwitched, fitting, add_round_lem, left_after_lem,
  read_physical_record-physical,
}
use wormholefilters.Leveldb.Log.Physical.{no_failure, physical, IsAt}
use wormholefilters.Leveldb.Log.Reader.{
  Reader, Fragments, fragments, go_on, found, report_partial, physical_offset, on_full, on_first,
  on_middle, on_last, on_record, resync, read_round, read_loop,
}
use wormholefilters.Leveldb.Log.Writer.{
  Writer, writer, record_type, switch_block, add_round, left_after, add_loop,
}
use wormholefilters.Leveldb.Log.{Crc}

-- What `ReadRecord` has on the way when the writer has written so much of the record.
pub data Holds : Bool → Fragments → List ℕ → Type 0 where
  before : {f : Fragments} → f.in_fragmented_record ≡ false → Holds true f []
  during : {f : Fragments} → f.in_fragmented_record ≡ true → Holds false f f.scratch

pub fits : (b : ℕ) (left : List ℕ) → fitting b left ≤ 32768 - b - 7
unfolding fitting
fits b left = ground arith

pub fits_left : (b : ℕ) (left : List ℕ) → fitting b left ≤ length left
unfolding fitting
fits_left b left = ground arith

pub fills : (b : ℕ) (left : List ℕ) → fitting b left ≢ length left → fitting b left ≡ 32768 - b - 7
unfolding fitting
fills b left h = ground arith

pub type_bounds : (begin end : Bool) → (0 < record_type begin end) × (record_type begin end < 128)
unfolding record_type
type_bounds true true = (omega arith, omega arith)
type_bounds true false = (omega arith, omega arith)
type_bounds false true = (omega arith, omega arith)
type_bounds false false = (omega arith, omega arith)

module _ (crc : Crc) (checksum : Bool) where
  pub moved :
      (r : Reader) (o x : ℕ) (rest : List ℕ)
      → IsAt crc checksum r o rest
      → IsAt crc checksum (record r { last_record_offset = x }) o rest
  moved r o x rest a = record {
    within = a.within;
    buffered = a.buffered;
    unread = a.unread;
    ended = a.ended;
    synced = a.synced;
    silent = a.silent;
  }

  -- The last fragment completes the record.
  pub resync-end :
      (r : Reader) (o : ℕ) (rest payload acc : List ℕ) (begin : Bool) (f : Fragments)
      → Holds begin f acc
      → IsAt crc checksum r o rest
      → (r' : Reader) × (resync crc checksum 0 no_failure (record_type begin true) f r payload
          ≡ found (acc ++ payload) r')
        × IsAt crc checksum r' o rest
  unfolding resync on_record on_full on_last report_partial record_type
  resync-end r o rest payload acc begin f (before h) a = (
    record r { last_record_offset = physical_offset crc checksum 0 no_failure r payload },
    rw (a.synced, h),
    moved r o (physical_offset crc checksum 0 no_failure r payload) rest a,
  )
  resync-end r o rest payload acc begin f (during h) a = (
    record r { last_record_offset = f.prospective_record_offset },
    rw (a.synced, h),
    moved r o f.prospective_record_offset rest a,
  )

  -- Any other fragment is added to those before it.
  pub resync-go_on :
      (r : Reader) (o : ℕ) (rest payload acc : List ℕ) (begin : Bool) (f : Fragments)
      → Holds begin f acc
      → IsAt crc checksum r o rest
      → (f' : Fragments) × (resync crc checksum 0 no_failure (record_type begin false) f r payload
          ≡ go_on f' r)
        × Holds false f' (acc ++ payload)
  unfolding resync on_record on_first on_middle report_partial record_type
  resync-go_on r o rest payload acc begin f (before h) a = (
    fragments true payload (physical_offset crc checksum 0 no_failure r payload),
    rw (a.synced, h),
    during refl,
  )
  resync-go_on r o rest payload acc begin f (during h) a = (
    fragments true (f.scratch ++ payload) f.prospective_record_offset,
    rw (a.synced, h),
    during refl,
  )

  pub add_loop-end :
      (fuel : ℕ) (w : Writer (List ℕ)) (left : List ℕ) (begin : Bool)
      (s : IsSwitched w (switch_block crc plain_file w))
      → fitting s.offset left ≡ length left
      → add_loop crc plain_file (suc fuel) w left begin
        ≡ some (
          true,
          writer
              (w.dest ++ (s.pad ++ physical crc (record_type begin true) left))
              (s.offset + (7 + length left)),
        )
  unfolding add_loop
  add_loop-end fuel w left begin s e =
      let whole : take (fitting s.offset left) left ≡ left =
        rw e (take_all (length left) left (omega arith)) in
      let none_left : ltb 0 (length (left_after crc plain_file w left)) ≡ false =
        le→ltb 0 (length (left_after crc plain_file w left)) (
          omega (
            arith,
            ap length (left_after_lem crc w left s.pad s.offset s.same),
            length-drop (fitting s.offset left) left,
            e,
          )) in
      let same : (length left == fitting s.offset left) ≡ true = rw e (==_refl (length left)) in
      let round : add_round crc plain_file w left begin ≡ (
        true,
        writer (w.dest ++ (s.pad ++ physical crc (record_type begin true) left))
            (s.offset + (7 + length left)),
      ) =
        add_round_lem crc w left begin s.pad s.offset s.same ∙ rw (same, whole) in
      rw (add_loop, round, none_left)
        (ap (λ (p : Bool × Writer (List ℕ)). some ((p).0, (p).1)) round)

  pub add_loop-go_on :
      (fuel : ℕ) (w : Writer (List ℕ)) (left : List ℕ) (begin : Bool)
      (s : IsSwitched w (switch_block crc plain_file w))
      → fitting s.offset left ≢ length left
      → add_loop crc plain_file (suc fuel) w left begin
        ≡ add_loop crc plain_file fuel
            (writer
              (w.dest
                ++ (s.pad
                    ++ physical crc (record_type begin false) (take (fitting s.offset left) left)))
              (s.offset + (7 + length (take (fitting s.offset left) left))))
            (drop (fitting s.offset left) left)
            false
  unfolding add_loop
  add_loop-go_on fuel w left begin s e =
      let n = fitting s.offset left in
      let some_left : ltb 0 (length (left_after crc plain_file w left)) ≡ true =
        lt→ltb 0 (length (left_after crc plain_file w left)) (
          omega (
            arith,
            ap length (left_after_lem crc w left s.pad s.offset s.same),
            length-drop n left,
            fits_left s.offset left,
            e,
          )) in
      let round : add_round crc plain_file w left begin ≡ (
        true,
        writer (w.dest ++ (s.pad ++ physical crc (record_type begin false) (take n left)))
            (s.offset + (7 + length (take n left))),
      ) =
        add_round_lem crc w left begin s.pad s.offset s.same
        ∙ rw (ne→== (length left) n (λ x. e (sym x))) in
      rw (add_loop, round, some_left, left_after_lem crc w left s.pad s.offset s.same)
        (ap
          (λ (p : Bool × Writer (List ℕ)). add_loop crc plain_file fuel ((p).1) (drop n left) false)
          round)

  -- A round that reads one physical record.
  pub read_loop-physical :
      (r : Reader) (o b t : ℕ) (pad payload rest : List ℕ) (f : Fragments) (k : ℕ)
      → (0 < t) × (t < 128)
      → b + (7 + length payload) ≤ 32768
      → IsGap o pad b
      → IsAt crc checksum r o ((pad ++ physical crc t payload) ++ rest)
      → (r' : Reader) × (read_round crc checksum 0 no_failure f r
          ≡ resync crc checksum 0 no_failure t f r' payload)
        × IsAt crc checksum r' (b + (7 + length payload)) rest
  unfolding read_round
  read_loop-physical r o b t pad payload rest f k (p, q) h g a =
      let (r', e, a') =
        read_physical_record-physical crc checksum r o b t pad payload rest p q h g (
          subst (λ (l : List ℕ). IsAt crc checksum r o l)
            (append_assoc pad (physical crc t payload) rest) a) in
      (r', rw (read_round, e), a')

  pub read_loop-found :
      (k : ℕ) (f : Fragments) (r r' : Reader) (rec : List ℕ)
      → read_round crc checksum 0 no_failure f r ≡ found rec r'
      → read_loop crc checksum 0 no_failure (suc k) f r ≡ some (some rec, r')
  unfolding read_loop
  read_loop-found k f r r' rec e = rw (read_loop, e)

  pub read_loop-go_on :
      (k : ℕ) (f f' : Fragments) (r r' : Reader)
      → read_round crc checksum 0 no_failure f r ≡ go_on f' r'
      → read_loop crc checksum 0 no_failure (suc k) f r
        ≡ read_loop crc checksum 0 no_failure k f' r'
  unfolding read_loop
  read_loop-go_on k f f' r r' e = rw (read_loop, e)
