-- ===== src/Base/Bits.antt =====
-- `&`, `|` and `^` at variables: a word splits at any bit, and each half is computed apart.
use Prim.Native.Nat.{ℕ, zero, suc, ◌+◌, ◌-◌, ◌*◌, ◌/◌, ◌%◌, ◌^◌, ◌≤◌, ◌<◌, min, max, differ}
use Prim.Native.Nat.{bit_and, bit_or, bit_xor, digits, bitwise}
use Prim.Native.Nat.{bit_and-bitwise, bit_or-bitwise, bit_xor-bitwise}
use mathlib.Core.Path.{◌≡◌, refl, sym, ap, ◌∙◌, ap₂}
use native.Mathlib.Nat.{pow-suc, one-le-pow, mod-lt}
use native.Mathlib.Omega.{arith}

-- What an operation at `a / 2` and `b / 2` gives at `a` and `b`.
abbrev pub with_digit : (ℕ → ℕ → ℕ) → ℕ → ℕ → ℕ → ℕ
with_digit f a b t = t * 2 + f (a % 2) (b % 2)

-- The library defines the operations by `digits` on fuel, and `bitwise` takes a number as its own.
module _ (z : ℕ → ℕ) (f : ℕ → ℕ → ℕ) where
  enough_digits :
      (bound a : ℕ) → a ≤ bound → (fuel b : ℕ) → a ≤ fuel → digits z f fuel a b ≡ bitwise z f a b
  enough_digits bound zero h zero b g = refl
  enough_digits bound zero h (suc fuel) b g = refl
  enough_digits zero (suc a) h fuel b g = absurd (omega arith)
  enough_digits (suc bound) (suc a) h zero b g = absurd (omega arith)
  enough_digits (suc bound) (suc a) h (suc fuel) b g =
      let half = enough_digits bound (suc a / 2) (omega arith) in
      ap (with_digit f (suc a) b)
        (half fuel (b / 2) (omega arith) ∙ sym (half a (b / 2) (omega arith)))

  module _ (op : ℕ → ℕ → ℕ) (means : (a b : ℕ) → op a b ≡ bitwise z f a b) where
    step_of :
        ((b : ℕ) → z b ≡ with_digit f 0 b (z (b / 2)))
        → (a b : ℕ) → op a b ≡ with_digit f a b (op (a / 2) (b / 2))
    step_of base zero b = means 0 b ∙ base b ∙ ap (with_digit f 0 b) (sym (means 0 (b / 2)))
    step_of base (suc a) b =
        let half = suc a / 2 in
        means (suc a) b
        ∙ ap (with_digit f (suc a) b) (
            enough_digits half half (omega arith) a (b / 2) (omega arith)
            ∙ sym (means half (b / 2)))

pub bit_or_step : (a b : ℕ) → bit_or a b ≡ with_digit max a b (bit_or (a / 2) (b / 2))
bit_or_step = step_of (λ y. y) max bit_or bit_or-bitwise λ b. omega arith

pub bit_and_step : (a b : ℕ) → bit_and a b ≡ with_digit min a b (bit_and (a / 2) (b / 2))
bit_and_step = step_of (λ y. 0) min bit_and bit_and-bitwise λ b. omega arith

-- Exclusive or of two digits.
abbrev pub parity : ℕ → ℕ → ℕ
parity a b = (a + b) % 2

differ-parity : (a b : ℕ) → a < 2 → b < 2 → differ a b ≡ parity a b
differ-parity zero zero p q = refl
differ-parity zero (suc zero) p q = refl
differ-parity (suc zero) zero p q = refl
differ-parity (suc zero) (suc zero) p q = refl
differ-parity (suc (suc a)) b p q = absurd (omega arith)
differ-parity a (suc (suc b)) p q = absurd (omega arith)

pub bit_xor_step : (a b : ℕ) → bit_xor a b ≡ with_digit parity a b (bit_xor (a / 2) (b / 2))
bit_xor_step a b =
    step_of (λ y. y) differ bit_xor bit_xor-bitwise
      (λ c. omega (arith, differ-parity 0 (c % 2) (omega arith) (omega arith))) a b
    ∙ ap (λ (t : ℕ). bit_xor (a / 2) (b / 2) * 2 + t)
        (differ-parity (a % 2) (b % 2) (omega arith) (omega arith))

-- An operation that works digit by digit.
pub record IsDigitwise (op : ℕ → ℕ → ℕ) : Type 0 where
  pub digit : ℕ → ℕ → ℕ
  pub step : (a b : ℕ) → op a b ≡ op (a / 2) (b / 2) * 2 + digit (a % 2) (b % 2)
  pub digit-lt : (a b : ℕ) → a < 2 → b < 2 → digit a b < 2
  pub zeros : op 0 0 ≡ 0

pub bit_or-IsDigitwise : IsDigitwise bit_or
bit_or-IsDigitwise = record {
  digit = max;
  step = bit_or_step;
  digit-lt = λ a b p q. omega arith;
  zeros = refl;
}

pub bit_and-IsDigitwise : IsDigitwise bit_and
bit_and-IsDigitwise = record {
  digit = min;
  step = bit_and_step;
  digit-lt = λ a b p q. omega arith;
  zeros = refl;
}

pub bit_xor-IsDigitwise : IsDigitwise bit_xor
bit_xor-IsDigitwise = record {
  digit = parity;
  step = bit_xor_step;
  digit-lt = λ a b p q. omega arith;
  zeros = refl;
}

mul-pow-suc : (q k : ℕ) → q * 2 ^ suc k ≡ 2 * (q * 2 ^ k)
mul-pow-suc q k = omega (arith, ap (λ (t : ℕ). q * t) (pow-suc 2 k))

module _ {op : ℕ → ℕ → ℕ} (d : IsDigitwise op) where
  pub op-lt : (k r s : ℕ) → r < 2 ^ k → s < 2 ^ k → op r s < 2 ^ k
  op-lt zero r s p q =
      let r' : r ≡ 0 = omega arith in
      let s' : s ≡ 0 = omega arith in rw (r', s', d.zeros) (omega arith)
  op-lt (suc k) r s p q = omega (
    arith,
    pow-suc 2 k,
    d.step r s,
    d.digit-lt (r % 2) (s % 2) (omega arith) (omega arith),
    op-lt k (r / 2) (s / 2) (omega (arith, pow-suc 2 k)) (omega (arith, pow-suc 2 k)),
  )

  -- Both numbers split at bit `k`.
  pub op_fields :
      (k a b r s : ℕ)
      → r < 2 ^ k
      → s < 2 ^ k
      → op (a * 2 ^ k + r) (b * 2 ^ k + s) ≡ op a b * 2 ^ k + op r s
  op_fields zero a b r s p q =
      let r' : r ≡ 0 = omega arith in
      let s' : s ≡ 0 = omega arith in
      let a' : a * 2 ^ 0 + 0 ≡ a = omega arith in
      let b' : b * 2 ^ 0 + 0 ≡ b = omega arith in rw (r', s', d.zeros, a', b') (omega arith)
  op_fields (suc k) a b r s p q =
      let a₂ : (a * 2 ^ suc k + r) / 2 ≡ a * 2 ^ k + r / 2 = omega (arith, mul-pow-suc a k) in
      let b₂ : (b * 2 ^ suc k + s) / 2 ≡ b * 2 ^ k + s / 2 = omega (arith, mul-pow-suc b k) in
      let a₁ : (a * 2 ^ suc k + r) % 2 ≡ r % 2 = omega (arith, mul-pow-suc a k) in
      let b₁ : (b * 2 ^ suc k + s) % 2 ≡ s % 2 = omega (arith, mul-pow-suc b k) in
      let ih =
        op_fields k a b (r / 2) (s / 2) (omega (arith, pow-suc 2 k)) (omega (arith, pow-suc 2 k)) in
      rw (d.step (a * 2 ^ suc k + r), a₂, b₂, a₁, b₁, ih)
        (omega (arith, d.step r s, mul-pow-suc (op a b) k))

module _ {op : ℕ → ℕ → ℕ} (d : IsDigitwise op) where
  pub op_split :
      (k a b : ℕ) → op a b ≡ op (a / 2 ^ k) (b / 2 ^ k) * 2 ^ k + op (a % 2 ^ k) (b % 2 ^ k)
  op_split k a b =
      let pos : 0 < 2 ^ k = one-le-pow k 2 (omega arith) in
      let a' : a ≡ a / 2 ^ k * 2 ^ k + a % 2 ^ k = omega arith in
      let b' : b ≡ b / 2 ^ k * 2 ^ k + b % 2 ^ k = omega arith in
      ap₂ op a' b'
      ∙ op_fields d k (a / 2 ^ k) (b / 2 ^ k) (a % 2 ^ k) (b % 2 ^ k) (mod-lt a pos) (mod-lt b pos)

-- A fact of all numbers that goes from `a / 2` to `a`.
pub by_halves {ℓ} : (P : ℕ → Type ℓ) → P 0 → ((a : ℕ) → P (a / 2) → P a) → (a : ℕ) → P a
by_halves P base next a = below a a (omega arith)
  where
    below : (fuel a : ℕ) → a ≤ fuel → P a
    below fuel zero h = base
    below zero (suc a) h = absurd (omega arith)
    below (suc fuel) (suc a) h = next (suc a) (below fuel (suc a / 2) (omega arith))

pub zero-bit_and : (b : ℕ) → bit_and 0 b ≡ 0
zero-bit_and b = bit_and-bitwise 0 b

pub zero-bit_or : (b : ℕ) → bit_or 0 b ≡ b
zero-bit_or b = bit_or-bitwise 0 b

pub bit_and-zero : (a : ℕ) → bit_and a 0 ≡ 0
bit_and-zero = by_halves (λ a. bit_and a 0 ≡ 0) refl λ a ih. omega (arith, bit_and_step a 0)

pub bit_or-zero : (a : ℕ) → bit_or a 0 ≡ a
bit_or-zero = by_halves (λ a. bit_or a 0 ≡ a) refl λ a ih. omega (arith, bit_or_step a 0)

-- `(a << k) | s` is a sum when `s` fits in `k` bits.
pub bit_or_disjoint : (k a s : ℕ) → s < 2 ^ k → bit_or (a * 2 ^ k) s ≡ a * 2 ^ k + s
bit_or_disjoint k a s h =
    let e : a * 2 ^ k ≡ a * 2 ^ k + 0 = omega arith in
    let z : s ≡ 0 * 2 ^ k + s = omega arith in
    ap₂ bit_or e z
    ∙ op_fields bit_or-IsDigitwise k a 0 0 s (omega arith) h
    ∙ omega (arith, ap (λ (t : ℕ). t * 2 ^ k) (bit_or-zero a), zero-bit_or s)

-- `s | (a << k)`, the same sum.
pub bit_or_disjoint_low : (k a s : ℕ) → s < 2 ^ k → bit_or s (a * 2 ^ k) ≡ a * 2 ^ k + s
bit_or_disjoint_low k a s h =
    let e : a * 2 ^ k ≡ a * 2 ^ k + 0 = omega arith in
    let z : s ≡ 0 * 2 ^ k + s = omega arith in
    ap₂ bit_or z e
    ∙ op_fields bit_or-IsDigitwise k 0 a s 0 h (omega arith)
    ∙ omega (arith, ap (λ (t : ℕ). t * 2 ^ k) (zero-bit_or a), bit_or-zero s)

-- A mask of `k` low bits is the remainder by `2 ^ k`.
bit_and_ones : (k r : ℕ) → r < 2 ^ k → bit_and r (2 ^ k - 1) ≡ r
bit_and_ones zero r h = omega (arith, bit_and-zero r)
bit_and_ones (suc k) r h =
    let e : (2 ^ suc k - 1) / 2 ≡ 2 ^ k - 1 = omega (arith, pow-suc 2 k) in
    rw (bit_and_step r, e, bit_and_ones k (r / 2) (omega (arith, pow-suc 2 k)))
      (omega (arith, pow-suc 2 k))

pub bit_and_mask : (k a : ℕ) → bit_and a (2 ^ k - 1) ≡ a % 2 ^ k
bit_and_mask k a =
    let pos : 1 ≤ 2 ^ k = one-le-pow k 2 (omega arith) in
    let low : a % 2 ^ k < 2 ^ k = mod-lt a pos in
    let e : a ≡ a / 2 ^ k * 2 ^ k + a % 2 ^ k = omega arith in
    let z : 2 ^ k - 1 ≡ 0 * 2 ^ k + (2 ^ k - 1) = omega arith in
    ap₂ bit_and e z
    ∙ op_fields bit_and-IsDigitwise k (a / 2 ^ k) 0 (a % 2 ^ k) (2 ^ k - 1) low (omega arith)
    ∙ omega (
      arith,
      ap (λ (t : ℕ). t * 2 ^ k) (bit_and-zero (a / 2 ^ k)),
      bit_and_ones k (a % 2 ^ k) low,
    )

pub bit_xor_self : (a : ℕ) → bit_xor a a ≡ 0
bit_xor_self = by_halves (λ a. bit_xor a a ≡ 0) refl λ a ih. omega (arith, bit_xor_step a a)

-- Numbers differ if their exclusive or is not zero.
pub eq_of_bit_xor : (a b : ℕ) → bit_xor a b ≡ 0 → a ≡ b
eq_of_bit_xor =
    by_halves (λ a. (b : ℕ) → bit_xor a b ≡ 0 → a ≡ b)
      (λ b h. let z : bit_xor 0 b ≡ b = bit_xor-bitwise 0 b in sym h ∙ z)
      (λ a ih b h.
        let half = ih (b / 2) (omega (arith, bit_xor_step a b)) in omega (arith, bit_xor_step a b))

pub le-bit_or : (a b : ℕ) → a ≤ bit_or a b
le-bit_or =
    by_halves (λ a. (b : ℕ) → a ≤ bit_or a b) (λ b. omega arith)
      λ a ih b. omega (arith, bit_or_step a b, ih (b / 2))

pub le-bit_or_right : (a b : ℕ) → b ≤ bit_or a b
le-bit_or_right =
    by_halves (λ a. (b : ℕ) → b ≤ bit_or a b) (λ b. omega (arith, zero-bit_or b))
      λ a ih b. omega (arith, bit_or_step a b, ih (b / 2))

bit_or_half : (a b : ℕ) → bit_or a b / 2 ≡ bit_or (a / 2) (b / 2)
bit_or_half a b = omega (arith, bit_or_step a b)

-- Setting bits clears none: under any mask, at least what was there.
pub bit_and-bit_or_left : (a b m : ℕ) → bit_and a m ≤ bit_and (bit_or a b) m
bit_and-bit_or_left =
    by_halves (λ a. (b m : ℕ) → bit_and a m ≤ bit_and (bit_or a b) m)
      (λ b m. omega (arith, zero-bit_and m))
      λ a ih b m. omega (
        arith,
        bit_and_step a m,
        bit_and_step (bit_or a b) m,
        bit_or_step a b,
        ap (λ (t : ℕ). bit_and t (m / 2)) (bit_or_half a b),
        ih (b / 2) (m / 2),
      )

-- The bits that are set are there.
pub bit_and-bit_or_right : (m a : ℕ) → m ≤ bit_and (bit_or a m) m
bit_and-bit_or_right =
    by_halves (λ m. (a : ℕ) → m ≤ bit_and (bit_or a m) m) (λ a. omega arith)
      λ m ih a. omega (
        arith,
        bit_and_step (bit_or a m) m,
        bit_or_step a m,
        ap (λ (t : ℕ). bit_and t (m / 2)) (bit_or_half a m),
        ih (a / 2),
      )
