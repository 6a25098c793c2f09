-- ===== src/Leveldb/Logging/Decimal.antt =====
-- `ConsumeDecimalNumber` against the value of the digits as a natural number.
use native.Mathlib.Decide.{dec_lt}
use wormholefilters.Base.{
  ℕ, ◌+◌, ◌-◌, ◌*◌, ◌^◌, ◌≤◌, ◌<◌, ◌≡◌, true, false, not, Option, none, some, List, [], ◌∷◌, ◌++◌,
  ◌==◌, arith, ltb, lt→ltb, le→ltb, if◌then◌else◌, u64, length, length-append, All,
}
use wormholefilters.Leveldb.Logging.{is_digit, overflows, consume_digits, consume_decimal_number}

-- The number whose digits follow those of `value`.
unfoldable pub decimal : ℕ → List ℕ → ℕ
decimal value [] = value
decimal value (ch ∷ digits) = decimal (value * 10 + (ch - 48)) digits

-- What stands behind the digits.
abbrev pub EndsDigits : List ℕ → Type 0
EndsDigits [] = Unit
EndsDigits (ch ∷ rest) = is_digit ch ≡ false

abbrev pub IsDigit : ℕ → Type 0
IsDigit ch = is_digit ch ≡ true

le-decimal : (value : ℕ) (digits : List ℕ) → value ≤ decimal value digits
unfolding decimal
le-decimal value [] = omega arith
le-decimal value (ch ∷ digits) = omega (arith, le-decimal (value * 10 + (ch - 48)) digits)

overflows_lem :
    (value ch : ℕ)
    → value < 2 ^ 64
    → IsDigit ch
    → overflows value ch ≡ not (ltb (value * 10 + (ch - 48)) (2 ^ 64))
unfolding overflows
overflows_lem value ch h d = ground arith

-- What the loop gives: the value, if it has 64 bits.
abbrev fitting : ℕ → List ℕ → Option (ℕ × List ℕ)
fitting n rest = if ltb n (2 ^ 64) then some (n, rest) else none

consume_digits_lem :
    (value : ℕ) (digits rest : List ℕ)
    → value < 2 ^ 64
    → All IsDigit digits
    → EndsDigits rest
    → consume_digits value (digits ++ rest) ≡ fitting (decimal value digits) rest
unfolding consume_digits decimal
consume_digits_lem value [] [] h d e = rw (lt→ltb value (2 ^ 64) h)
consume_digits_lem value [] (ch ∷ rest) h d e = rw (e, lt→ltb value (2 ^ 64) h)
consume_digits_lem value (ch ∷ digits) rest h (d, ds) e =
    let v = value * 10 + (ch - 48) in
    elim (dec_lt v (2 ^ 64)) [
      | yes small ↦
          let same : u64 v ≡ v = omega arith in
          rw (d, overflows_lem value ch h d, lt→ltb v (2 ^ 64) small, same)
            (consume_digits_lem v digits rest small ds e)
      | no large ↦
          let more = le-decimal v digits in
          rw (
            d,
            overflows_lem value ch h d,
            le→ltb v (2 ^ 64) (omega arith),
            le→ltb (decimal v digits) (2 ^ 64) (omega (arith, more)),
          )
    ]

-- On digits, one at least, with something that is no digit or nothing behind them,
-- `ConsumeDecimalNumber` returns true exactly if their number is below 2 ^ 64; then it writes the number
-- and leaves what is behind, and otherwise it writes nothing and leaves the input as it is.
pub consume_decimal_number-decimal :
    (ch : ℕ) (digits rest : List ℕ)
    → All IsDigit (ch ∷ digits)
    → EndsDigits rest
    → consume_decimal_number ((ch ∷ digits) ++ rest) ≡ (
        if ltb (decimal 0 (ch ∷ digits)) (2 ^ 64)
        then (true, (some (decimal 0 (ch ∷ digits)), rest))
        else (false, (none, (ch ∷ digits) ++ rest)))
unfolding consume_decimal_number
consume_decimal_number-decimal ch digits rest d e =
    let n = decimal 0 (ch ∷ digits) in
    let input = ch ∷ (digits ++ rest) in
    let used : not (length input - length rest == 0) ≡ true =
      took (omega (arith, length-append digits rest)) in
    rw (consume_digits_lem 0 (ch ∷ digits) rest (omega arith) d e) (elim (dec_lt n (2 ^ 64)) [
      | yes small ↦ rw (lt→ltb n (2 ^ 64) small, used)
      | no large ↦ rw (le→ltb n (2 ^ 64) (omega arith))
    ])
  where
    took : {k : ℕ} → 0 < k → not (k == 0) ≡ true
    took h = ground arith
