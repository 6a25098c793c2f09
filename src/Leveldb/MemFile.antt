-- ===== src/Leveldb/MemFile.antt =====
-- leveldb/helpers/memenv/memenv.cc: a file in memory, its bytes in blocks of one size, and the
-- sequential, random and writable views of it. The locks are left out: one call runs at a time.
pub mod Contents
pub mod LastBlock
pub mod Refines
use Prim.Native.Nat.{min}
use wormholefilters.Base.{
  ℕ, zero, suc, ◌+◌, ◌-◌, ◌*◌, ◌/◌, ◌%◌, ◌≤◌, ◌<◌, Bool, true, false, Option, none, some, List, [],
  ◌∷◌, ◌++◌, ◌==◌, ltb, leb, if◌then◌else◌, length, get_or, take, drop,
}

abbrev pub block_size : ℕ
block_size = 8 * 1024

-- `FileState`
pub record FileState : Type 0 where
  pub refs : ℕ
  pub blocks : List (List ℕ)
  pub size : ℕ

abbrev pub file : ℕ → List (List ℕ) → ℕ → FileState
file refs blocks size = record { refs = refs; blocks = blocks; size = size }

abbrev pub new_file : FileState
new_file = file 0 [] 0

unfoldable pub ref : FileState → FileState
ref s = file (s.refs + 1) s.blocks s.size

-- `Unref`: `none` when the last reference is gone, and the file with it. There is one at least.
unfoldable pub unref : FileState → Option FileState
unref s = if leb (s.refs - 1) 0 then none else some (file (s.refs - 1) s.blocks s.size)

unfoldable pub truncate : FileState → FileState
truncate s = file s.refs [] 0

-- The loop of `Read`, from a block and an offset in it: the bytes that are copied. `none` when there is
-- no fuel left.
unfoldable pub copy_loop : List (List ℕ) → ℕ → ℕ → ℕ → ℕ → Option (List ℕ)
copy_loop blocks zero block block_offset bytes_to_copy = none
copy_loop blocks (suc fuel) block block_offset bytes_to_copy =
    let avail = min (block_size - block_offset) bytes_to_copy in
    let copied = take avail (drop block_offset (get_or blocks block [])) in
    let rest = copy_loop blocks fuel (block + 1) 0 (bytes_to_copy - avail) in
    elim (ltb 0 bytes_to_copy) [
      | false ↦ some []
      | true ↦ elim rest [ none ↦ none | some more ↦ some (copied ++ more) ]
    ]

-- The result of `Read`.
pub data ReadResult : Type 0 where
  io_error : ReadResult
  read_ok : List ℕ → ReadResult
  no_fuel : ReadResult

abbrev pub copied : Option (List ℕ) → ReadResult
copied none = no_fuel
copied (some bytes) = read_ok bytes

-- `FileState::Read`. A round copies a byte at least, so `n` rounds are enough.
unfoldable pub read : FileState → ℕ → ℕ → ReadResult
read s offset n =
    if ltb s.size offset
    then io_error
    else (let n = min n (s.size - offset) in
        if n == 0
        then read_ok []
        else copied (copy_loop s.blocks (suc n) (offset / block_size) (offset % block_size) n))

-- `memcpy` into a block.
unfoldable pub write_at : ℕ → List ℕ → List ℕ → List ℕ
write_at offset chunk block = take offset block ++ (chunk ++ drop (offset + length chunk) block)

-- The same into the last block.
unfoldable pub write_last : ℕ → List ℕ → List (List ℕ) → List (List ℕ)
write_last offset chunk [] = []
write_last offset chunk (b ∷ []) = write_at offset chunk b ∷ []
write_last offset chunk (b ∷ b' ∷ bs) = b ∷ write_last offset chunk (b' ∷ bs)

-- A new block holds any bytes: it is not initialized.
module _ (new_block : List ℕ) where
  -- The blocks with room at the end.
  unfoldable pub with_room : FileState → List (List ℕ)
  with_room s = if s.size % block_size == 0 then s.blocks ++ (new_block ∷ []) else s.blocks

  -- One round of the loop of `Append`, for some bytes that are left.
  unfoldable pub append_round : FileState → List ℕ → FileState
  append_round s src =
      let offset = s.size % block_size in
      let avail = min (block_size - offset) (length src) in
      file s.refs (write_last offset (take avail src) (with_room s)) (s.size + avail)

  unfoldable pub append_loop : ℕ → FileState → List ℕ → Option FileState
  append_loop zero s src = none
  append_loop (suc fuel) s src =
      let avail = min (block_size - s.size % block_size) (length src) in
      elim (ltb 0 (length src)) [
        | false ↦ some s
        | true ↦ append_loop fuel (append_round s src) (drop avail src)
      ]

  -- `FileState::Append`. A round takes a byte at least.
  unfoldable pub append : FileState → List ℕ → Option FileState
  append s bytes = append_loop (suc (length bytes)) s bytes

-- `SequentialFileImpl`: the file and a position in it. `Read` moves on by what was read.
abbrev moved : ℕ → ReadResult → ℕ
moved pos io_error = pos
moved pos (read_ok bytes) = pos + length bytes
moved pos no_fuel = pos

unfoldable pub read_next : FileState → ℕ → ℕ → ReadResult × ℕ
read_next s pos n = let r = read s pos n in (r, moved pos r)

-- `Skip`: the new position, or `none` for the error.
unfoldable pub skip : FileState → ℕ → ℕ → Option ℕ
skip s pos n = if ltb s.size pos then none else some (pos + min n (s.size - pos))
