-- ===== src/Leveldb/Hash.antt =====
-- leveldb/util/hash.cc: `Hash`, similar to murmur hash, and `Hash64`. The loops run over the data
-- a word at a time; the recursion is on the length of the list.
use wormholefilters.Base.{
  ℕ, ◌+◌, ◌-◌, ◌*◌, ◌^◌, List, [], ◌∷◌, if◌then◌else◌, ltb, u32, u64, ◌<<<◌, ◌>>>◌, bit_xor, length,
  load64,
}
use wormholefilters.Leveldb.Coding.{decode_fixed32}

abbrev m32 : ℕ
m32 = 0xc6a4a793

-- One round of the loop of `Hash` on the word `w`.
unfoldable pub mix32 : ℕ → ℕ → ℕ
mix32 h w = let h' = u32 (u32 (h + w) * m32) in bit_xor h' (h' >>> 16)

-- `h *= m; h ^= (h >> r);` at the end of the `switch`
unfoldable pub last32 : ℕ → ℕ
last32 h = let h' = u32 (h * m32) in bit_xor h' (h' >>> 24)

-- The loop, and then the `switch` on what is left.
unfoldable pub hash_from : ℕ → List ℕ → ℕ
unfolding mix32 last32 decode_fixed32
hash_from h [] = h
hash_from h (a ∷ []) = last32 (u32 (h + a))
hash_from h (a ∷ b ∷ []) = last32 (u32 (u32 (h + b <<< 8) + a))
hash_from h (a ∷ b ∷ c ∷ []) = last32 (u32 (u32 (u32 (h + c <<< 16) + b <<< 8) + a))
hash_from h (a ∷ b ∷ c ∷ d ∷ rest) =
    hash_from (mix32 h (decode_fixed32 (a ∷ b ∷ c ∷ d ∷ []) 0)) rest

unfoldable pub hash : List ℕ → ℕ → ℕ
unfolding hash_from
hash data' seed = hash_from (u32 (bit_xor seed (u64 (length data' * m32)))) data'

abbrev m64 : ℕ
m64 = 0xc6a4a7935bd1e995

-- `static_cast<uint64_t>` of a `char`, which is signed on x86.
unfoldable pub sign_extend : ℕ → ℕ
sign_extend b = if ltb b 128 then b else b + 2 ^ 64 - 2 ^ 8

-- One round of the loop of `Hash64` on the word `k`.
unfoldable pub mix64 : ℕ → ℕ → ℕ
mix64 h k =
    let k' = u64 (k * m64) in
    let k'' = u64 (bit_xor k' (k' >>> 47) * m64) in u64 (bit_xor h k'' * m64)

-- The `switch` falls through from the last byte to the first.
unfoldable pub tail64 : ℕ → ℕ → List ℕ → ℕ
unfolding sign_extend
tail64 h k [] = h
tail64 h k (b ∷ bs) = bit_xor (tail64 h (k + 1) bs) (u64 (sign_extend b <<< (8 * k)))

-- The three lines after the `switch`.
unfoldable pub finish64 : ℕ → ℕ
finish64 h = let h' = u64 (bit_xor h (h >>> 47) * m64) in bit_xor h' (h' >>> 47)

-- The loop, the `switch` (whose case 1 multiplies) and the end.
unfoldable pub hash64_from : ℕ → List ℕ → ℕ
unfolding mix64 tail64 finish64 load64
hash64_from h [] = finish64 h
hash64_from h (a ∷ b ∷ c ∷ d ∷ e ∷ f ∷ g ∷ i ∷ rest) =
    hash64_from (mix64 h (load64 (a ∷ b ∷ c ∷ d ∷ e ∷ f ∷ g ∷ i ∷ []) 0)) rest
hash64_from h (b ∷ bs) = finish64 (u64 (tail64 h 0 (b ∷ bs) * m64))

unfoldable pub hash64 : List ℕ → ℕ → ℕ
unfolding hash64_from
hash64 data' seed = hash64_from (bit_xor seed (u64 (length data' * m64))) data'
