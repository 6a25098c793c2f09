-- ===== src/Leveldb/Logging.antt =====
-- leveldb/util/logging.cc: the reading of decimal numbers.
pub mod Decimal
use wormholefilters.Base.{
  ℕ, ◌+◌, ◌-◌, ◌*◌, ◌/◌, ◌%◌, ◌^◌, ◌&&◌, ◌||◌, Bool, true, false, not, Option, none, some, List, [],
  ◌∷◌, ◌==◌, ltb, if◌then◌else◌, u64, length,
}

abbrev pub k_max_uint64 : ℕ
k_max_uint64 = 2 ^ 64 - 1

abbrev pub k_last_digit_of_max_uint64 : ℕ
k_last_digit_of_max_uint64 = 48 + k_max_uint64 % 10

abbrev pub is_digit : ℕ → Bool
is_digit ch = not (ltb ch 48 || ltb 57 ch)

-- The overflow check.
unfoldable pub overflows : ℕ → ℕ → Bool
overflows value ch =
    ltb (k_max_uint64 / 10) value
    || (value == k_max_uint64 / 10 && ltb k_last_digit_of_max_uint64 ch)

-- The loop: the value and what is left, or `none` for an overflow.
unfoldable pub consume_digits : ℕ → List ℕ → Option (ℕ × List ℕ)
consume_digits value [] = some (value, [])
consume_digits value (ch ∷ rest) =
    let more = consume_digits (u64 (value * 10 + (ch - 48))) rest in
    if is_digit ch then (if overflows value ch then none else more) else some (value, ch ∷ rest)

abbrev consumed : List ℕ → Option (ℕ × List ℕ) → Bool × (Option ℕ × List ℕ)
consumed input none = (false, (none, input))
consumed input (some (value, rest)) = (not (length input - length rest == 0), (some value, rest))

-- `ConsumeDecimalNumber`: the result, what is written to `*val`, and the input after it.
unfoldable pub consume_decimal_number : List ℕ → Bool × (Option ℕ × List ℕ)
consume_decimal_number input = consumed input (consume_digits 0 input)
