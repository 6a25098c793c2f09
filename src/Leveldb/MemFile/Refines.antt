-- ===== src/Leveldb/MemFile/Refines.antt =====
-- A file in memory stands for its bytes.
use Prim.Native.Nat.{min}
use native.Mathlib.Decide.{dec_lt, ℕ_discrete}
use mathlib.Core.List.{append_assoc, append-nil}
use wormholefilters.Base.{
  ℕ, zero, suc, ◌+◌, ◌-◌, ◌*◌, ◌/◌, ◌%◌, ◌≤◌, ◌<◌, ◌≡◌, some, List, [], ◌∷◌, ◌++◌, refl, sym, ap,
  subst, ◌∙◌, arith, ltb, ◌==◌, if◌then◌else◌, lt→ltb, le→ltb, ne→==, length, length-append,
  length-take, length-drop, take, drop, drop_append, All,
}
use wormholefilters.Base.Slices.{take_all, take-append, drop-append, take-drop}
use wormholefilters.Leveldb.MemFile.Contents.{
  flat, flat-append, length-flat, IsBlock, copy_loop_lem,
}
use wormholefilters.Leveldb.MemFile.{
  FileState, ReadResult, io_error, read_ok, copied, copy_loop, read, with_room, append_round,
  append_loop, append,
}
use wormholefilters.Leveldb.MemFile.LastBlock.{write_last-IsBlock, flat-write_last}

-- The file has these bytes: its blocks in a row begin with them, and less than a block follows.
abbrev pub Represents : FileState → List ℕ → Type 0
Represents s bytes =
    (s.size ≡ length bytes)
    × All IsBlock s.blocks
    × ((room : List ℕ) × (flat s.blocks ≡ bytes ++ room) × (length room < 8192))

take-min : (m : ℕ) (xs : List ℕ) → take (min m (length xs)) xs ≡ take m xs
take-min m xs = elim (dec_lt m (length xs)) [
  | yes h ↦ let e : min m (length xs) ≡ m = omega arith in rw e
  | no h ↦
      let e : min m (length xs) ≡ length xs = omega arith in
      rw (e, take_all (length xs) xs (omega arith), take_all m xs (omega arith))
]

-- Where the loop of `Read` copies from, for a piece of the bytes.
piece_lem :
    (bytes room : List ℕ) (offset n : ℕ)
    → offset + n ≤ length bytes
    → take n (drop (8192 * (offset / 8192) + offset % 8192) (bytes ++ room))
      ≡ take n (drop offset bytes)
piece_lem bytes room offset n h =
    let e : 8192 * (offset / 8192) + offset % 8192 ≡ offset = omega arith in
    rw (e, drop-append offset bytes room (omega arith))
      (take-append n (drop offset bytes) room (omega (arith, length-drop offset bytes)))

if_empty :
    (m : ℕ) (xs : List ℕ)
    → (if m == 0 then read_ok [] else read_ok (take m xs)) ≡ read_ok (take m xs)
if_empty zero xs = refl
if_empty (suc m) xs = ground arith

-- A read of a file gives the bytes from the offset on, as many as are asked for and are there, and it is
-- an error exactly when the offset is behind the end.
pub read-Represents :
    (s : FileState) (bytes : List ℕ) (offset n : ℕ)
    → Represents s bytes
    → read s offset n
      ≡ (if ltb (length bytes) offset then io_error else read_ok (take n (drop offset bytes)))
unfolding read
read-Represents s bytes offset n (size, ok, (room, row, short)) =
    elim (dec_lt (length bytes) offset) [
      | yes h ↦ rw (size, lt→ltb (length bytes) offset h)
      | no h ↦ rw (size, le→ltb (length bytes) offset (omega arith)) (inside (omega arith))
    ]
  where
    inside :
        offset ≤ length bytes
        → (let m = min n (length bytes - offset) in
            if m == 0
            then read_ok []
            else copied (copy_loop s.blocks (suc m) (offset / 8192) (offset % 8192) m))
          ≡ read_ok (take n (drop offset bytes))
    inside h =
        let m = min n (length bytes - offset) in
        let got =
          copy_loop_lem s.blocks ok (suc m) (offset / 8192) (offset % 8192) m (omega arith)
            (omega arith) in
        let same : take m (drop offset bytes) ≡ take n (drop offset bytes) =
          ap (λ (k : ℕ). take (min n k) (drop offset bytes)) (sym (length-drop offset bytes))
          ∙ take-min n (drop offset bytes) in
        let piece =
          ap (λ (l : List ℕ). take m (drop (8192 * (offset / 8192) + offset % 8192) l)) row
          ∙ (piece_lem bytes room offset m (omega arith) ∙ same) in
        ap (λ (r : ReadResult). if m == 0 then read_ok [] else r) (ap copied (got ∙ ap some piece))
        ∙ (ap (λ (l : List ℕ). if m == 0 then read_ok [] else read_ok l) (sym same)
            ∙ (if_empty m (drop offset bytes) ∙ ap read_ok same))

-- A string that has no bytes.
no_bytes : (xs : List ℕ) → length xs ≡ 0 → xs ≡ []
no_bytes [] h = refl
no_bytes (x ∷ xs) h = absurd (omega arith)

module _ (new_block : List ℕ) (whole : IsBlock new_block) where
  -- The blocks before a round writes: the rest of the last one is the room.
  with_room_lem :
      (s : FileState) (bytes : List ℕ)
      → Represents s bytes
      → All IsBlock (with_room new_block s)
        × ((room : List ℕ) × (flat (with_room new_block s) ≡ bytes ++ room)
            × (length room + s.size % 8192 ≡ 8192))
  unfolding with_room
  with_room_lem s bytes (size, ok, (room, row, short)) =
      let total : 8192 * length s.blocks ≡ s.size + length room =
        omega (arith, length-flat s.blocks ok, ap length row, length-append bytes room, size) in
      elim (ℕ_discrete (s.size % 8192) 0) [
        | yes e ↦
            let none_left : room ≡ [] = no_bytes room (omega arith) in
            rw (e) (
              all_blocks s.blocks ok,
              (
                new_block,
                flat-append s.blocks new_block
                    ∙ ap (λ (l : List ℕ). l ++ new_block)
                        (row ∙ (ap (◌++◌ bytes) none_left ∙ append-nil bytes)),
                omega (arith, whole),
              ),
            )
        | no ne ↦ rw (ne→== (s.size % 8192) 0 ne) (ok, (room, row, omega arith))
      ]
    where
      all_blocks : (bs : List (List ℕ)) → All IsBlock bs → All IsBlock (bs ++ (new_block ∷ []))
      all_blocks [] h = (whole, tt)
      all_blocks (b ∷ bs) (p, h) = (p, all_blocks bs h)

  append_round-Represents :
      (s : FileState) (bytes src : List ℕ)
      → Represents s bytes
      → 0 < length src
      → Represents
          (append_round new_block s src)
          (bytes ++ take (min (8192 - s.size % 8192) (length src)) src)
  unfolding append_round
  append_round-Represents s bytes src rep h =
      let a = min (8192 - s.size % 8192) (length src) in
      let chunk = take a src in
      let n : length chunk ≡ a = omega (arith, length-take a src) in
      let (ok, (room, row, fits)) = with_room_lem s bytes rep in
      (
        size a chunk (rep.0) n,
        write_last-IsBlock (s.size % 8192) chunk (with_room new_block s) ok (omega (arith, n)),
        (
          drop (length chunk) room,
          flat-write_last (s.size % 8192) chunk bytes room (with_room new_block s) ok row fits
                (omega arith)
              ∙ sym (append_assoc bytes chunk (drop (length chunk) room)),
          omega (arith, n, fits, length-drop (length chunk) room),
        ),
      )
    where
      size :
          (a : ℕ) (chunk : List ℕ)
          → s.size ≡ length bytes
          → length chunk ≡ a
          → s.size + a ≡ length (bytes ++ chunk)
      size a chunk p q = omega (arith, p, q, length-append bytes chunk)

  append_loop-step :
      (fuel : ℕ) (s : FileState) (src : List ℕ)
      → 0 < length src
      → append_loop new_block (suc fuel) s src
        ≡ append_loop new_block fuel
            (append_round new_block s src)
            (drop (min (8192 - s.size % 8192) (length src)) src)
  unfolding append_loop
  append_loop-step fuel s src h = rw (lt→ltb 0 (length src) h, append_loop)

  append_loop-Represents :
      (fuel : ℕ) (s : FileState) (bytes src : List ℕ)
      → Represents s bytes
      → length src < fuel
      → (s' : FileState) × (append_loop new_block fuel s src ≡ some s')
        × Represents s' (bytes ++ src)
  append_loop-Represents zero s bytes src rep h = absurd (omega arith)
  append_loop-Represents (suc fuel) s bytes [] rep h =
      (s, unfold append_loop in refl, rw (append-nil bytes) rep)
  append_loop-Represents (suc fuel) s bytes (b ∷ bs) rep h =
      let src = b ∷ bs in
      let a = min (8192 - s.size % 8192) (length src) in
      let (s', e, rep') =
        append_loop-Represents fuel (append_round new_block s src) (bytes ++ take a src)
          (drop a src) (append_round-Represents s bytes src rep (omega arith))
          (omega (arith, h, length-drop a src)) in
      (
        s',
        append_loop-step fuel s src (omega arith) ∙ e,
        subst (Represents s')
            (append_assoc bytes (take a src) (drop a src) ∙ ap (◌++◌ bytes) (take-drop a src)) rep',
      )

-- `Append` ends, and the file has the new bytes behind the old ones, whatever a new block holds.
pub append-Represents :
    (new_block : List ℕ) (s : FileState) (bytes src : List ℕ)
    → IsBlock new_block
    → Represents s bytes
    → (s' : FileState) × (append new_block s src ≡ some s') × Represents s' (bytes ++ src)
unfolding append
append-Represents new_block s bytes src whole rep =
    append_loop-Represents new_block whole (suc (length src)) s bytes src rep (omega arith)

-- What `Append` has added is what a later `Read` at the old end gives.
pub read-append :
    (new_block : List ℕ) (s : FileState) (bytes src : List ℕ)
    → IsBlock new_block
    → Represents s bytes
    → (s' : FileState) × (append new_block s src ≡ some s')
      × (read s' (length bytes) (length src) ≡ read_ok src)
read-append new_block s bytes src whole rep =
    let (s', e, rep') = append-Represents new_block s bytes src whole rep in
    (s', e, read-Represents s' (bytes ++ src) (length bytes) (length src) rep' ∙ at_end)
  where
    at_end :
        (if ltb (length (bytes ++ src)) (length bytes)
          then io_error
          else read_ok (take (length src) (drop (length bytes) (bytes ++ src))))
        ≡ read_ok src
    at_end = rw (
      le→ltb (length (bytes ++ src)) (length bytes) (omega (arith, length-append bytes src)),
      drop_append bytes src,
      take_all (length src) src (omega arith),
    )
