-- ===== src/Base/Sums.antt =====
-- Sums of `f 0` to `f (n - 1)`.
use Prim.Native.Nat.{ℕ, zero, suc, ◌+◌, ◌≤◌, ◌<◌}
use mathlib.Core.Path.{◌≡◌, refl, ap₂}
use mathlib.Core.Logic.{◌≢◌}
use native.Mathlib.Decide.{ℕ_discrete}
use native.Mathlib.Omega.{arith}

unfoldable pub sum_below : ℕ → (ℕ → ℕ) → ℕ
sum_below zero f = 0
sum_below (suc n) f = sum_below n f + f n

pub sum_below_congr :
    (n : ℕ) (f g : ℕ → ℕ) → ((i : ℕ) → i < n → f i ≡ g i) → sum_below n f ≡ sum_below n g
unfolding sum_below
sum_below_congr zero f g h = refl
sum_below_congr (suc n) f g h =
    ap₂ ◌+◌ (sum_below_congr n f g (λ i p. h i (omega arith))) (h n (omega arith))

-- Two families that differ at one index only.
pub sum_below_update :
    (n k : ℕ) (f g : ℕ → ℕ)
    → k < n
    → ((i : ℕ) → i < n → i ≢ k → f i ≡ g i)
    → sum_below n f + g k ≡ sum_below n g + f k
unfolding sum_below
sum_below_update zero k f g h same = absurd (omega arith)
sum_below_update (suc n) k f g h same = elim (ℕ_discrete n k) [
  | yes e ↦
      let rest = sum_below_congr n f g (λ i p. same i (omega arith) (omega arith)) in
      rw (← e) (omega (arith, rest))
  | no ne ↦ omega (
    arith,
    sum_below_update n k f g (omega arith) (λ i p. same i (omega arith)),
    same n (omega arith) ne,
  )
]

pub le-sum_below : (n k : ℕ) (f : ℕ → ℕ) → k < n → f k ≤ sum_below n f
unfolding sum_below
le-sum_below zero k f h = absurd (omega arith)
le-sum_below (suc n) k f h = elim (ℕ_discrete n k) [
  | yes e ↦ rw (← e) (omega arith)
  | no ne ↦ omega (arith, le-sum_below n k f (omega arith))
]

-- A sum that is not zero has a term that is not zero.
pub sum_below_pos : (n : ℕ) (f : ℕ → ℕ) → 0 < sum_below n f → (k : ℕ) × (k < n) × (0 < f k)
unfolding sum_below
sum_below_pos zero f h = absurd (omega arith)
sum_below_pos (suc n) f h = elim (ℕ_discrete (f n) 0) [
  | no pos ↦ (n, omega arith, omega arith)
  | yes z ↦ let (k, p, q) = sum_below_pos n f (omega arith) in (k, omega arith, q)
]

pub sum_below_zero : (n : ℕ) (f : ℕ → ℕ) → ((i : ℕ) → i < n → f i ≡ 0) → sum_below n f ≡ 0
unfolding sum_below
sum_below_zero zero f h = refl
sum_below_zero (suc n) f h =
    omega (arith, sum_below_zero n f (λ i p. h i (omega arith)), h n (omega arith))
