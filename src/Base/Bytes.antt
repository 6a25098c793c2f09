-- ===== src/Base/Bytes.antt =====
-- Memory as a list of bytes, and the little-endian loads and stores of a processor.
use Prim.Native.Nat.{ℕ, zero, suc, ◌+◌, ◌*◌, ◌/◌, ◌%◌, ◌^◌, ◌≤◌, ◌<◌}
use mathlib.Core.Path.{◌≡◌, ap, ◌∙◌}
use mathlib.Core.Logic.{◌≢◌}
use mathlib.Core.List.{List, [], ◌∷◌, ◌++◌}
use native.Mathlib.Omega.{arith}
use wormholefilters.Base.Lists.{
  length, get_or, set, length-set, get_or-set_self, get_or-set_ne, get_or-append_left,
}
use wormholefilters.Base.Words.{u8}

abbrev pub byte_at : List ℕ → ℕ → ℕ
byte_at xs i = get_or xs i 0

abbrev pub IsBytes : List ℕ → Type 0
IsBytes xs = (i : ℕ) → byte_at xs i < 2 ^ 8

unfoldable pub load16 : List ℕ → ℕ → ℕ
load16 xs p = byte_at xs p + 2 ^ 8 * byte_at xs (p + 1)

unfoldable pub load64 : List ℕ → ℕ → ℕ
load64 xs p =
    load16 xs p
    + 2 ^ 16 * (load16 xs (p + 2) + 2 ^ 16 * (load16 xs (p + 4) + 2 ^ 16 * load16 xs (p + 6)))

unfoldable pub store16 : List ℕ → ℕ → ℕ → List ℕ
store16 xs p t = set (set xs p (u8 t)) (p + 1) (u8 (t / 2 ^ 8))

pub load16-lt : (xs : List ℕ) (p : ℕ) → IsBytes xs → load16 xs p < 2 ^ 16
unfolding load16
load16-lt xs p b = omega (arith, b p, b (p + 1))

pub load64-lt : (xs : List ℕ) (p : ℕ) → IsBytes xs → load64 xs p < 2 ^ 64
unfolding load64
load64-lt xs p b = omega (
  arith,
  load16-lt xs p b,
  load16-lt xs (p + 2) b,
  load16-lt xs (p + 4) b,
  load16-lt xs (p + 6) b,
)

-- The 16-bit lanes of a word that is loaded.
pub load64-lane :
    (xs : List ℕ) (p j : ℕ)
    → IsBytes xs
    → j < 4
    → load64 xs p / 2 ^ (16 * j) % 2 ^ 16 ≡ load16 xs (p + 2 * j)
unfolding load64
load64-lane xs p j b h =
    at_lane j h (load16-lt xs p b) (load16-lt xs (p + 2) b) (load16-lt xs (p + 4) b)
  where
    lanes : ℕ
    lanes =
        load16 xs p
        + 2 ^ 16 * (load16 xs (p + 2) + 2 ^ 16 * (load16 xs (p + 4) + 2 ^ 16 * load16 xs (p + 6)))

    at_lane :
        (j : ℕ)
        → j < 4
        → load16 xs p < 2 ^ 16
        → load16 xs (p + 2) < 2 ^ 16
        → load16 xs (p + 4) < 2 ^ 16
        → lanes / 2 ^ (16 * j) % 2 ^ 16 ≡ load16 xs (p + 2 * j)
    at_lane zero h q₀ q₂ q₄ = let e : p + 2 * 0 ≡ p = omega arith in rw e (omega arith)
    at_lane (suc zero) h q₀ q₂ q₄ = omega arith
    at_lane (suc (suc zero)) h q₀ q₂ q₄ = omega arith
    at_lane (suc (suc (suc zero))) h q₀ q₂ q₄ = omega (arith, load16-lt xs (p + 6) b)
    at_lane (suc (suc (suc (suc j)))) h q₀ q₂ q₄ = absurd (omega arith)

pub length-store16 : (xs : List ℕ) (p t : ℕ) → length (store16 xs p t) ≡ length xs
unfolding store16
length-store16 xs p t =
    length-set (set xs p (u8 t)) (p + 1) (u8 (t / 2 ^ 8)) ∙ length-set xs p (u8 t)

pub load16-store16_self :
    (xs : List ℕ) (p t : ℕ) → p + 1 < length xs → load16 (store16 xs p t) p ≡ t % 2 ^ 16
unfolding store16 load16
load16-store16_self xs p t h = omega (
  arith,
  get_or-set_ne (set xs p (u8 t)) (p + 1) p (u8 (t / 2 ^ 8)) 0 (omega arith),
  get_or-set_self xs p (u8 t) 0 (omega arith),
  get_or-set_self (set xs p (u8 t)) (p + 1) (u8 (t / 2 ^ 8)) 0
      (omega (arith, length-set xs p (u8 t))),
)

pub load16-store16_ne :
    (xs : List ℕ) (p t q : ℕ)
    → p ≢ q
    → p + 1 ≢ q
    → p ≢ q + 1
    → load16 (store16 xs p t) q ≡ load16 xs q
unfolding store16 load16
load16-store16_ne xs p t q a b c = omega (
  arith,
  get_or-set_ne (set xs p (u8 t)) (p + 1) q (u8 (t / 2 ^ 8)) 0 b,
  get_or-set_ne (set xs p (u8 t)) (p + 1) (q + 1) (u8 (t / 2 ^ 8)) 0 (omega arith),
  get_or-set_ne xs p q (u8 t) 0 a,
  get_or-set_ne xs p (q + 1) (u8 t) 0 c,
)

get_or-set_lt : (xs : List ℕ) (i v : ℕ) → v < 2 ^ 8 → IsBytes xs → IsBytes (set xs i v)
get_or-set_lt [] i v h all k = omega arith
get_or-set_lt (x ∷ xs) zero v h all zero = h
get_or-set_lt (x ∷ xs) zero v h all (suc k) = all (suc k)
get_or-set_lt (x ∷ xs) (suc i) v h all zero = all zero
get_or-set_lt (x ∷ xs) (suc i) v h all (suc k) = get_or-set_lt xs i v h (λ m. all (suc m)) k

pub store16-IsBytes : (xs : List ℕ) (p t : ℕ) → IsBytes xs → IsBytes (store16 xs p t)
unfolding store16
store16-IsBytes xs p t b =
    get_or-set_lt (set xs p (u8 t)) (p + 1) (u8 (t / 2 ^ 8)) (omega arith)
      (get_or-set_lt xs p (u8 t) (omega arith) b)

byte_at-append_left : (xs ys : List ℕ) (i : ℕ) → i < length xs → byte_at (xs ++ ys) i ≡ byte_at xs i
byte_at-append_left xs ys i h = get_or-append_left xs ys i 0 h

pub byte_at-append_right :
    (xs ys : List ℕ) (i : ℕ) → byte_at (xs ++ ys) (length xs + i) ≡ byte_at ys i
byte_at-append_right [] ys i = let e : 0 + i ≡ i = omega arith in rw e
byte_at-append_right (x ∷ xs) ys i =
    let e : suc (length xs) + i ≡ suc (length xs + i) = omega arith in
    rw e (byte_at-append_right xs ys i)

load16-append_left :
    (xs ys : List ℕ) (p : ℕ) → p + 1 < length xs → load16 (xs ++ ys) p ≡ load16 xs p
unfolding load16
load16-append_left xs ys p h =
    omega (arith, byte_at-append_left xs ys p (omega arith), byte_at-append_left xs ys (p + 1) h)

-- A load that ends within the first of two blocks of memory.
pub load64-append_left :
    (xs ys : List ℕ) (p : ℕ) → p + 8 ≤ length xs → load64 (xs ++ ys) p ≡ load64 xs p
unfolding load64
load64-append_left xs ys p h = omega (
  arith,
  load16-append_left xs ys p (omega arith),
  load16-append_left xs ys (p + 2) (omega arith),
  load16-append_left xs ys (p + 4) (omega arith),
  load16-append_left xs ys (p + 6) (omega arith),
)

-- One that begins with the second.
pub load64-append_right : (xs ys : List ℕ) → load64 (xs ++ ys) (length xs) ≡ load64 ys 0
unfolding load64 load16
load64-append_right xs ys =
    let zs = xs ++ ys in
    let b = λ (i : ℕ). byte_at-append_right xs ys i in
    let e₀ : length xs ≡ length xs + 0 = omega arith in
    let e₃ : length xs + 2 + 1 ≡ length xs + 3 = omega arith in
    let e₅ : length xs + 4 + 1 ≡ length xs + 5 = omega arith in
    let e₇ : length xs + 6 + 1 ≡ length xs + 7 = omega arith in
    omega (
      arith,
      ap (byte_at zs) e₀ ∙ b 0,
      b 1,
      b 2,
      ap (byte_at zs) e₃ ∙ b 3,
      b 4,
      ap (byte_at zs) e₅ ∙ b 5,
      b 6,
      ap (byte_at zs) e₇ ∙ b 7,
    )
