-- ===== src/Leveldb/Random/Laws.antt =====
-- `Next` multiplies by 16807 modulo the prime 2 ^ 31 - 1.
use native.Mathlib.Decide.{dec_lt}
use wormholefilters.Base.{
  ℕ, ◌+◌, ◌*◌, ◌/◌, ◌%◌, ◌^◌, ◌≤◌, ◌<◌, ◌≡◌, arith, lt→ltb, le→ltb, bit_and_mask, u32, u64,
}
use wormholefilters.Leveldb.Random.{modulus, new_random, next}

-- The seeds that the generator goes through.
abbrev pub IsSeed : ℕ → Type 0
IsSeed s = (1 ≤ s) × (s < 2147483647)

-- A multiple of a seed is not a multiple of the modulus.
not_zero : (s : ℕ) → IsSeed s → 1 ≤ s * 16807 % 2147483647
not_zero s (p, q) = omega arith

-- From a seed between 1 and M - 1, with M = 2 ^ 31 - 1, `Next` gives the seed times 16807 modulo M, and
-- this is again between 1 and M - 1.
pub next-IsSeed : (s : ℕ) → IsSeed s → (next s ≡ s * 16807 % modulus) × IsSeed (next s)
unfolding next
next-IsSeed s (p, q) =
    let whole : u64 (s * 16807) ≡ s * 16807 = omega arith in
    let sum = s * 16807 / 2 ^ 31 + s * 16807 % 2 ^ 31 in
    let fits : u32 sum ≡ sum = omega arith in
    let nz = not_zero s (p, q) in
    rw (whole, bit_and_mask 31 (s * 16807), fits)
      (elim (dec_lt modulus sum) [
        | yes above ↦
            rw (lt→ltb modulus sum above)
              (omega (arith, nz), (omega (arith, nz), omega (arith, nz)))
        | no below ↦
            rw (le→ltb modulus sum (omega arith))
              (omega (arith, nz), (omega (arith, nz), omega (arith, nz)))
      ])

-- The constructor gives such a seed for any argument.
pub new_random-IsSeed : (s : ℕ) → IsSeed (new_random s)
unfolding new_random
new_random-IsSeed s = rw (bit_and_mask 31 s) (ground arith)
