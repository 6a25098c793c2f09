-- ===== src/Leveldb/Random.antt =====
-- leveldb/util/random.h: the generator of pseudo-random numbers, by its seed.
pub mod Laws
use wormholefilters.Base.{
  ℕ, ◌+◌, ◌-◌, ◌*◌, ◌^◌, ◌%◌, ◌||◌, Bool, ◌==◌, ltb, if◌then◌else◌, bit_and, u32, u64, ◌<<<◌, ◌>>>◌,
}

-- `M` of `Next`.
abbrev pub modulus : ℕ
modulus = 2147483647

-- The constructor.
unfoldable pub new_random : ℕ → ℕ
new_random s =
    let seed = bit_and s 0x7fffffff in if seed == 0 || seed == 2147483647 then 1 else seed

-- `Next`, whose result is the new seed.
unfoldable pub next : ℕ → ℕ
next seed =
    let product = u64 (seed * 16807) in
    let reduced = u32 ((product >>> 31) + bit_and product modulus) in
    if ltb modulus reduced then reduced - modulus else reduced

-- `Uniform`, `OneIn` and `Skewed`: the result and the new seed.
unfoldable pub uniform : ℕ → ℕ → ℕ × ℕ
uniform seed n = (next seed % n, next seed)

unfoldable pub one_in : ℕ → ℕ → Bool × ℕ
one_in seed n = (next seed % n == 0, next seed)

unfoldable pub skewed : ℕ → ℕ → ℕ × ℕ
skewed seed max_log = let (base, seed') = uniform seed (max_log + 1) in uniform seed' (1 <<< base)
