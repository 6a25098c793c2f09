-- ===== src/Tests/Utilities.antt =====
-- leveldb/util.
use wormholefilters.Base.{
  ◌*◌, ◌%◌, ◌^◌, ◌≡◌, true, false, none, some, [], ◌∷◌, ◌++◌, inr, refl, arith, ltb, if◌then◌else◌,
}
use wormholefilters.Leveldb.Arena.Fresh.{IsAllocation, allocate-IsAllocation}
use wormholefilters.Leveldb.Arena.{Arena, arena, allocate, allocate_aligned}
use wormholefilters.Leveldb.Logging.Decimal.{decimal, consume_decimal_number-decimal}
use wormholefilters.Leveldb.Logging.{consume_decimal_number, consume_digits}
use wormholefilters.Leveldb.Random.Laws.{IsSeed, next-IsSeed}
use wormholefilters.Leveldb.Random.{modulus, next}

next-IsSeed_example : (next 301 ≡ 301 * 16807 % modulus) × IsSeed (next 301)
next-IsSeed_example = next-IsSeed 301 (omega arith, omega arith)

consume_decimal_number-decimal_example : consume_decimal_number ((52 ∷ 50 ∷ []) ++ (46 ∷ [])) ≡ (
    if ltb (decimal 0 (52 ∷ 50 ∷ [])) (2 ^ 64)
    then (true, (some (decimal 0 (52 ∷ 50 ∷ [])), 46 ∷ []))
    else (false, (none, (52 ∷ 50 ∷ []) ++ (46 ∷ []))))
consume_decimal_number-decimal_example =
    consume_decimal_number-decimal 52 (50 ∷ []) (46 ∷ []) (refl, (refl, tt)) refl

-- An empty input has no number.
no_digits : consume_decimal_number [] ≡ (false, (some 0, []))
unfolding consume_decimal_number consume_digits
no_digits = refl

-- An arena with one block, of which five bytes are taken.
abbrev used_arena : Arena
used_arena = arena 0 5 4091 (4096 ∷ []) 4104

allocate-IsAllocation_example :
    IsAllocation used_arena 100 (allocate used_arena 100)
    × IsAllocation used_arena 100 (allocate_aligned used_arena 100)
    × ((allocate_aligned used_arena 100).0.1 % 8 ≡ 0)
allocate-IsAllocation_example =
    allocate-IsAllocation used_arena 100 (inr (omega arith, omega arith)) (omega arith)
      (omega arith)
