-- ===== src/Leveldb/Arena.antt =====
-- leveldb/util/arena.h and arena.cc. A pointer is the index of a block in `blocks_` and an offset in it;
-- `new` gives blocks that begin at a multiple of eight. Sums of sizes wrap around as `size_t` does.
pub mod Fresh
use wormholefilters.Base.{
  ℕ, ◌+◌, ◌-◌, ◌/◌, ◌%◌, List, [], ◌∷◌, ◌++◌, ◌==◌, ltb, leb, if◌then◌else◌, u64, length,
}

abbrev pub k_block_size : ℕ
k_block_size = 4096

-- `alloc_ptr_` is `block` and `offset`, `alloc_bytes_remaining_` is `remaining`, and `blocks` has the
-- sizes of the blocks.
pub record Arena : Type 0 where
  pub block : ℕ
  pub offset : ℕ
  pub remaining : ℕ
  pub blocks : List ℕ
  pub memory_usage : ℕ

abbrev pub arena : ℕ → ℕ → ℕ → List ℕ → ℕ → Arena
arena block offset remaining blocks memory_usage = record {
  block = block;
  offset = offset;
  remaining = remaining;
  blocks = blocks;
  memory_usage = memory_usage;
}

abbrev pub new_arena : Arena
new_arena = arena 0 0 0 [] 0

-- `AllocateNewBlock`: the index of the block, and the arena with it.
unfoldable pub allocate_new_block : Arena → ℕ → ℕ × Arena
allocate_new_block a block_bytes = (
  length a.blocks,
  arena a.block a.offset a.remaining (a.blocks ++ (block_bytes ∷ []))
      (u64 (a.memory_usage + u64 (block_bytes + 8))),
)

-- The result `alloc_ptr_ + skip`, and `alloc_ptr_` moved by `needed` bytes, of which there are as many.
unfoldable pub bump : Arena → ℕ → ℕ → (ℕ × ℕ) × Arena
bump a skip needed = (
  (a.block, a.offset + skip),
  arena a.block (a.offset + needed) (a.remaining - needed) a.blocks a.memory_usage,
)

-- `alloc_ptr_` at the beginning of a new block.
unfoldable pub next_block : Arena → Arena
next_block a =
    let (k, a') = allocate_new_block a k_block_size in
    arena k 0 k_block_size a'.blocks a'.memory_usage

unfoldable pub allocate_fallback : Arena → ℕ → (ℕ × ℕ) × Arena
allocate_fallback a bytes =
    if ltb (k_block_size / 4) bytes
    then (let (k, a') = allocate_new_block a bytes in ((k, 0), a'))
    else bump (next_block a) 0 bytes

unfoldable pub allocate : Arena → ℕ → (ℕ × ℕ) × Arena
allocate a bytes = if leb bytes a.remaining then bump a 0 bytes else allocate_fallback a bytes

-- The bytes up to the next multiple of eight.
unfoldable pub slop : Arena → ℕ
slop a = let current_mod = a.offset % 8 in if current_mod == 0 then 0 else 8 - current_mod

unfoldable pub allocate_aligned : Arena → ℕ → (ℕ × ℕ) × Arena
allocate_aligned a bytes =
    let needed = u64 (bytes + slop a) in
    if leb needed a.remaining then bump a (slop a) needed else allocate_fallback a bytes
