-- ===== src/Leveldb/Wormhole/Power.antt =====
-- `upperpower2`: the shifts copy the highest one downwards, twice as far each time.
use native.Mathlib.Decide.{dec_le, dec_lt}
use native.Mathlib.Nat.{
  pow-suc, one-le-pow, mod-lt, mod-eq_of_lt, div-add-mod, mul-le-mul_left, pow-le-pow_right,
}
use wormholefilters.Base.{
  ℕ, zero, suc, ◌+◌, ◌-◌, ◌*◌, ◌/◌, ◌%◌, ◌^◌, ◌≤◌, ◌<◌, ◌≡◌, ap, ◌∙◌, arith, sub64, bit_or,
  op_split, op-lt, bit_or-IsDigitwise, le-bit_or, le-bit_or_right, ◌>>>◌,
}
use wormholefilters.Leveldb.Wormhole.{smear, upperpower2}

pow_add : (a b : ℕ) → 2 ^ (a + b) ≡ 2 ^ a * 2 ^ b
pow_add a zero = let e : a + 0 ≡ a = omega arith in rw e (omega arith)
pow_add a (suc b) =
    let e : a + suc b ≡ suc (a + b) = omega arith in
    rw e (
      omega (
        arith,
        pow-suc 2 (a + b),
        pow-suc 2 b,
        pow_add a b,
        ap (λ (t : ℕ). 2 ^ a * t) (pow-suc 2 b),
      ))

-- The highest `s` of the `l` binary digits of `y` are ones.
record TopOnes (s l y : ℕ) : Type 0 where
  below : y < 2 ^ l
  above : 2 ^ l ≤ y + 2 ^ (l - s)

-- The digits that are shifted down by `p` into those below `q`.
shifted : (p q r y : ℕ) → 0 < p → q ≤ p * r → p * q ≤ y + q → q ≤ y / p + r
shifted p q r y pos small h = elim (dec_le q (y / p + r)) [
  | yes le ↦ le
  | no gt ↦
      let m : p * (y / p + r + 1) ≤ p * q = mul-le-mul_left p (omega arith) in
      absurd (omega (arith, m, div-add-mod y p, mod-lt y pos))
]

-- The digits from `q` on.
high_ones : (p q y : ℕ) → 0 < q → p * q ≤ y + q → p ≤ y / q + 1
high_ones p q y pos h = elim (dec_le p (y / q + 1)) [
  | yes le ↦ le
  | no gt ↦
      let m : q * (y / q + 2) ≤ q * p = mul-le-mul_left q (omega arith) in
      absurd (omega (arith, m, div-add-mod y q, mod-lt y pos))
]

below_shift : (p q y : ℕ) → 0 < p → y < p * q → y / p < q
below_shift p q y pos h = elim (dec_lt (y / p) q) [
  | yes lt ↦ lt
  | no ge ↦
      let m : p * q ≤ p * (y / p) = mul-le-mul_left p (omega arith) in
      absurd (omega (arith, m, div-add-mod y p))
]

-- One step, with `p = 2 ^ s` and `q = 2 ^ e` for `e` digits below the ones.
smear_above :
    (s e r y : ℕ)
    → y < 2 ^ s * 2 ^ e
    → 2 ^ s * 2 ^ e ≤ y + 2 ^ e
    → 2 ^ e ≤ 2 ^ s * r
    → 2 ^ s * 2 ^ e ≤ smear s y + r
smear_above s e r y lt h small =
    let p = 2 ^ s in
    let q = 2 ^ e in
    let p-pos : 0 < p = one-le-pow s 2 (omega arith) in
    let q-pos : 0 < q = one-le-pow e 2 (omega arith) in
    let z = y / p in
    let z-lt = below_shift p q y p-pos lt in
    let low = le-bit_or_right (y % q) (z % q) in
    let high = le-bit_or (y / q) (z / q) in
    let ones = high_ones p q y q-pos h in
    let m : q * p ≤ q * (bit_or (y / q) (z / q) + 1) = mul-le-mul_left q (omega arith) in
    omega (
      arith,
      op_split bit_or-IsDigitwise e y z,
      low,
      m,
      mod-eq_of_lt z-lt,
      shifted p q r y p-pos small h,
    )

TopOnes-smear : (s l y : ℕ) → TopOnes s l y → TopOnes (s + s) l (smear s y)
TopOnes-smear s l y t = record {
  below = op-lt bit_or-IsDigitwise l y (y >>> s) t.below (omega (arith, t.below));
  above = elim (dec_le s l) [
    | no short ↦
        let e : l - (s + s) ≡ l - s = omega arith in
        rw e (omega (arith, t.above, le-bit_or y (y >>> s)))
    | yes long ↦
        let e = l - s in
        let r = 2 ^ (l - (s + s)) in
        let width : 2 ^ l ≡ 2 ^ s * 2 ^ e = ap (λ (x : ℕ). 2 ^ x) (omega arith) ∙ pow_add s e in
        let small : 2 ^ e ≤ 2 ^ s * r =
          rw (← pow_add s (l - (s + s))) (pow-le-pow_right (omega arith) (omega arith)) in
        rw width (
          smear_above s e r y (omega (arith, width, t.below)) (omega (arith, width, t.above)) small)
  ];
}

-- The number of digits, and its highest one.
top_one : (b y : ℕ) → y < 2 ^ b → (l : ℕ) × (l ≤ b) × TopOnes 1 l y
top_one zero y h = (0, omega arith, record { below = h; above = omega arith })
top_one (suc b) y h = elim (dec_lt y (2 ^ b)) [
  | yes lt ↦ let (l, le, t) = top_one b y lt in (l, omega arith, t)
  | no ge ↦ (
    suc b,
    omega arith,
    record {
      below = h;
      above = let e : suc b - 1 ≡ b = omega arith in rw e (omega (arith, pow-suc 2 b));
    },
  )
]

TopOnes-least : (l y : ℕ) → TopOnes 1 l y → 2 ^ l ≤ 2 * y + 1
TopOnes-least zero y t = omega arith
TopOnes-least (suc l) y t =
    let e : suc l - 1 ≡ l = omega arith in
    let above = rw e at t.above in omega (arith, above, pow-suc 2 l)

-- The result is the power of two at or above `x`: not below it, and less than twice as large.
pub record IsPowerOf (x p : ℕ) : Type 0 where
  pub log : ℕ
  pub power : p ≡ 2 ^ log
  pub enough : x ≤ p
  pub least : p < 2 * x

-- From 1 to 2 ^ 62 the function returns the power of two at or above its argument.
pub upperpower2-IsPowerOf : (x : ℕ) → 0 < x → x ≤ 2 ^ 62 → IsPowerOf x (upperpower2 x)
unfolding upperpower2
upperpower2-IsPowerOf x pos le =
    let y = sub64 x 1 in
    let y-eq : y ≡ x - 1 = omega arith in
    let (l, l-le, t) = top_one 62 y (omega arith) in
    let t₆ = TopOnes-smear 32 l _ (
      TopOnes-smear 16 l _ (
        TopOnes-smear 8 l _ (TopOnes-smear 4 l _ (TopOnes-smear 2 l _ (TopOnes-smear 1 l y t))))) in
    let z : l - (32 + 32) ≡ 0 = omega arith in
    let above = rw z at t₆.above in
    let bound : 2 ^ l ≤ 2 ^ 62 = pow-le-pow_right (omega arith) l-le in
    let e : smear 32 (smear 16 (smear 8 (smear 4 (smear 2 (smear 1 y))))) + 1 ≡ 2 ^ l =
      omega (arith, above, t₆.below) in
    record {
      log = l;
      power = rw e (omega (arith, bound));
      enough = rw e (omega (arith, bound, t.below));
      least = rw e (omega (arith, bound, TopOnes-least l y t, y-eq));
    }
