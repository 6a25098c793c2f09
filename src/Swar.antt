-- ===== src/Swar.antt =====
-- `haszero16` and `hasvalue16`: a 64-bit word as four 16-bit lanes, tested at once. Both files
-- of the filter (src/pm_wf/pmwormholefilter.hpp and leveldb/util/wormhole.cc) define the macros.
use wormholefilters.Base.{
  ℕ, zero, suc, ◌+◌, ◌-◌, ◌*◌, ◌/◌, ◌%◌, ◌^◌, ◌≤◌, ◌<◌, ◌≡◌, ◌≢◌, ◌↔◌, sym, ap, subst, ◌∙◌, arith,
  bit_and, bit_xor, u64, sub64, not64, op_split, op_fields, op-lt, bit_and-IsDigitwise,
  bit_xor-IsDigitwise, bit_and_step, bit_and-zero, zero-bit_and, bit_xor_self, eq_of_bit_xor,
}
use Prim.Native.Nat.{min}
use native.Mathlib.Decide.{ℕ_discrete}

abbrev pub lane_ones : ℕ
lane_ones = 0x0001000100010001

abbrev pub lane_tops : ℕ
lane_tops = 0x8000800080008000

unfoldable pub haszero16 : ℕ → ℕ
haszero16 x = bit_and (bit_and (sub64 x lane_ones) (not64 x)) lane_tops

unfoldable pub hasvalue16 : ℕ → ℕ → ℕ
unfolding haszero16
hasvalue16 x n = haszero16 (bit_xor x (u64 (lane_ones * n)))

-- `((uint16_t *)&w)[j]`, little-endian.
abbrev pub lane : ℕ → ℕ → ℕ
lane w j = w / 2 ^ (16 * j) % 2 ^ 16

-- The four lanes, each below the rest of the word.
abbrev of_lanes : ℕ → ℕ → ℕ → ℕ → ℕ
of_lanes a b c d = a + 2 ^ 16 * (b + 2 ^ 16 * (c + 2 ^ 16 * d))

abbrev flag : ℕ → ℕ → ℕ
flag y z = min (y / 2 ^ 15) (z / 2 ^ 15)

bit_and_digit : (a b : ℕ) → a < 2 → b < 2 → bit_and a b ≡ min a b
bit_and_digit a b p q =
    let a' : a / 2 ≡ 0 = omega arith in
    omega (arith, bit_and_step a b, ap (λ (x : ℕ). bit_and x (b / 2)) a', zero-bit_and (b / 2))

lane_flag : (y z : ℕ) → y < 2 ^ 16 → z < 2 ^ 16 → bit_and (bit_and y z) 0x8000 ≡ flag y z * 2 ^ 15
lane_flag y z p q =
    let both = op_split bit_and-IsDigitwise 15 y z in
    let low = op-lt bit_and-IsDigitwise 15 (y % 2 ^ 15) (z % 2 ^ 15) (omega arith) (omega arith) in
    let high = bit_and_digit (y / 2 ^ 15) (z / 2 ^ 15) (omega arith) (omega arith) in
    let top = op_split bit_and-IsDigitwise 15 (bit_and y z) 0x8000 in
    let c-eq : bit_and y z / 2 ^ 15 ≡ flag y z = omega arith in
    omega (
      arith,
      top,
      bit_and-zero (bit_and y z % 2 ^ 15),
      bit_and_digit (bit_and y z / 2 ^ 15) 1 (omega arith) (omega arith),
    )

abbrev and3 : ℕ → ℕ → ℕ → ℕ
and3 y z m = bit_and (bit_and y z) m

and3_lanes :
    (a b m y z k : ℕ)
    → a < 2 ^ 16
    → b < 2 ^ 16
    → m < 2 ^ 16
    → and3 (a + 2 ^ 16 * y) (b + 2 ^ 16 * z) (m + 2 ^ 16 * k) ≡ and3 a b m + 2 ^ 16 * and3 y z k
and3_lanes a b m y z k p q r =
    let d = bit_and-IsDigitwise in
    let a' : a + 2 ^ 16 * y ≡ y * 2 ^ 16 + a = omega arith in
    let b' : b + 2 ^ 16 * z ≡ z * 2 ^ 16 + b = omega arith in
    let m' : m + 2 ^ 16 * k ≡ k * 2 ^ 16 + m = omega arith in
    rw
      (
        a',
        b',
        m',
        op_fields d 16 y z a b p q,
        op_fields d 16 (bit_and y z) k (bit_and a b) m (op-lt d 16 a b p q) r,
      )
      (omega arith)

-- One lane of `x - 0x0001...` and what is borrowed from the next.
abbrev minus_one : ℕ → ℕ → ℕ
minus_one x b = (x + 2 ^ 16 - 1 - b) % 2 ^ 16

abbrev borrow : ℕ → ℕ → ℕ
borrow x b = 1 - (x + 2 ^ 16 - 1 - b) / 2 ^ 16

lane_test : ℕ → ℕ → ℕ
lane_test x b = flag (minus_one x b) (2 ^ 16 - 1 - x)

lane_test-zero : (b : ℕ) → b ≤ 1 → lane_test 0 b ≡ 1
unfolding lane_test
lane_test-zero b h = omega arith

lane_test_pos : (x : ℕ) → 0 < x → x < 2 ^ 16 → (lane_test x 0 ≡ 0) × (borrow x 0 ≡ 0)
unfolding lane_test
lane_test_pos x h lt = omega arith

lane_test_lem :
    (x b : ℕ) → x < 2 ^ 16 → and3 (minus_one x b) (2 ^ 16 - 1 - x) 0x8000 ≡ lane_test x b * 2 ^ 15
unfolding lane_test
lane_test_lem x b h = lane_flag (minus_one x b) (2 ^ 16 - 1 - x) (omega arith) (omega arith)

lane_pos : (x b : ℕ) → b ≤ 1 → lane_test x b ≡ 0 → 0 < x
lane_pos zero b h e = absurd (omega (arith, lane_test-zero b h))
lane_pos (suc x) b h e = omega arith

module _ (a b c d : ℕ) (a-lt : a < 2 ^ 16) (b-lt : b < 2 ^ 16) (c-lt : c < 2 ^ 16)
    (d-lt : d < 2 ^ 16) where
  abbrev b₁ : ℕ
  b₁ = borrow a 0

  abbrev b₂ : ℕ
  b₂ = borrow b b₁

  abbrev b₃ : ℕ
  b₃ = borrow c b₂

  minus_lanes :
      sub64 (of_lanes a b c d) lane_ones
      ≡ of_lanes (minus_one a 0) (minus_one b b₁) (minus_one c b₂) (minus_one d b₃)
  minus_lanes = omega arith

  not_lanes :
      not64 (of_lanes a b c d)
      ≡ of_lanes (2 ^ 16 - 1 - a) (2 ^ 16 - 1 - b) (2 ^ 16 - 1 - c) (2 ^ 16 - 1 - d)
  not_lanes = omega arith

  haszero16_lanes :
      haszero16 (of_lanes a b c d)
      ≡ 2 ^ 15 * of_lanes (lane_test a 0) (lane_test b b₁) (lane_test c b₂) (lane_test d b₃)
  unfolding haszero16
  haszero16_lanes =
      let top : ℕ = 0x8000 in
      let y₀ = minus_one a 0 in
      let y₁ = minus_one b b₁ in
      let y₂ = minus_one c b₂ in
      let y₃ = minus_one d b₃ in
      let z₀ = 2 ^ 16 - 1 - a in
      let z₁ = 2 ^ 16 - 1 - b in
      let z₂ = 2 ^ 16 - 1 - c in
      let z₃ = 2 ^ 16 - 1 - d in
      let k₁ = top + 2 ^ 16 * top in
      let k₂ = top + 2 ^ 16 * k₁ in
      let s₀ =
        and3_lanes y₀ z₀ top (y₁ + 2 ^ 16 * (y₂ + 2 ^ 16 * y₃)) (z₁ + 2 ^ 16 * (z₂ + 2 ^ 16 * z₃))
          k₂ (omega arith) (omega arith) (omega arith) in
      let s₁ =
        and3_lanes y₁ z₁ top (y₂ + 2 ^ 16 * y₃) (z₂ + 2 ^ 16 * z₃) k₁ (omega arith) (omega arith)
          (omega arith) in
      let s₂ = and3_lanes y₂ z₂ top y₃ z₃ top (omega arith) (omega arith) (omega arith) in
      rw (minus_lanes, not_lanes)
        (omega (
          arith,
          s₀,
          s₁,
          s₂,
          lane_test_lem a 0 a-lt,
          lane_test_lem b b₁ b-lt,
          lane_test_lem c b₂ c-lt,
          lane_test_lem d b₃ d-lt,
        ))

  -- The test is 0 exactly when no lane is.
  haszero16_lanes_iff : (haszero16 (of_lanes a b c d) ≡ 0) ↔ ((0 < a) × (0 < b) × (0 < c) × (0 < d))
  haszero16_lanes_iff = (there, back)
    where
      back : (0 < a) × (0 < b) × (0 < c) × (0 < d) → haszero16 (of_lanes a b c d) ≡ 0
      back (p, q, r, s) =
          let (ta, ua) = lane_test_pos a p a-lt in
          let (tb, ub) = lane_test_pos b q b-lt in
          let (tc, uc) = lane_test_pos c r c-lt in
          let (td, ud) = lane_test_pos d s d-lt in
          let e₂ : b₂ ≡ 0 = ap (borrow b) ua ∙ ub in
          let e₃ : b₃ ≡ 0 = ap (borrow c) e₂ ∙ uc in
          haszero16_lanes
          ∙ rw (ta, ap (lane_test b) ua ∙ tb, ap (lane_test c) e₂ ∙ tc, ap (lane_test d) e₃ ∙ td)
              (omega arith)

      there : haszero16 (of_lanes a b c d) ≡ 0 → (0 < a) × (0 < b) × (0 < c) × (0 < d)
      there h =
          let z = haszero16_lanes in
          (
            lane_pos a 0 (omega arith) (omega (arith, z)),
            lane_pos b b₁ (omega arith) (omega (arith, z)),
            lane_pos c b₂ (omega arith) (omega (arith, z)),
            lane_pos d b₃ (omega arith) (omega (arith, z)),
          )

xor_lanes :
    (a b x y : ℕ)
    → a < 2 ^ 16
    → b < 2 ^ 16
    → bit_xor (a + 2 ^ 16 * x) (b + 2 ^ 16 * y) ≡ bit_xor a b + 2 ^ 16 * bit_xor x y
xor_lanes a b x y p q =
    let a' : a + 2 ^ 16 * x ≡ x * 2 ^ 16 + a = omega arith in
    let b' : b + 2 ^ 16 * y ≡ y * 2 ^ 16 + b = omega arith in
    rw (a', b', op_fields bit_xor-IsDigitwise 16 x y a b p q) (omega arith)

bit_xor_pos_iff : (a b : ℕ) → (0 < bit_xor a b) ↔ (a ≢ b)
bit_xor_pos_iff a b = (
  λ p e. absurd (omega (arith, subst (λ x. 0 < bit_xor x b) e p, bit_xor_self b)),
  λ ne. elim (ℕ_discrete (bit_xor a b) 0) [
    | yes e ↦ absurd (ne (eq_of_bit_xor a b e))
    | no p ↦ omega arith
  ],
)

module _ (a b c d n : ℕ) (a-lt : a < 2 ^ 16) (b-lt : b < 2 ^ 16) (c-lt : c < 2 ^ 16)
    (d-lt : d < 2 ^ 16) (n-lt : n < 2 ^ 16) where
  hasvalue16_lanes :
      hasvalue16 (of_lanes a b c d) n
      ≡ haszero16 (of_lanes (bit_xor a n) (bit_xor b n) (bit_xor c n) (bit_xor d n))
  unfolding hasvalue16
  hasvalue16_lanes =
      let e : u64 (lane_ones * n) ≡ of_lanes n n n n = omega arith in
      rw (
        e,
        xor_lanes a n (b + 2 ^ 16 * (c + 2 ^ 16 * d)) (n + 2 ^ 16 * (n + 2 ^ 16 * n)) a-lt n-lt,
        xor_lanes b n (c + 2 ^ 16 * d) (n + 2 ^ 16 * n) b-lt n-lt,
        xor_lanes c n d n c-lt n-lt,
      )

  hasvalue16_lanes_iff :
      (hasvalue16 (of_lanes a b c d) n ≡ 0) ↔ ((a ≢ n) × (b ≢ n) × (c ≢ n) × (d ≢ n))
  hasvalue16_lanes_iff =
      let x = bit_xor-IsDigitwise in
      let zeros =
        haszero16_lanes_iff (bit_xor a n) (bit_xor b n) (bit_xor c n) (bit_xor d n)
          (op-lt x 16 a n a-lt n-lt) (op-lt x 16 b n b-lt n-lt) (op-lt x 16 c n c-lt n-lt)
          (op-lt x 16 d n d-lt n-lt) in
      (
        λ e.
            let (p, q, r, s) = zeros.0 (sym hasvalue16_lanes ∙ e) in
            (
              (bit_xor_pos_iff a n).0 p,
              (bit_xor_pos_iff b n).0 q,
              (bit_xor_pos_iff c n).0 r,
              (bit_xor_pos_iff d n).0 s,
            ),
        λ (p, q, r, s).
            hasvalue16_lanes
            ∙ zeros.1 (
              (bit_xor_pos_iff a n).1 p,
              (bit_xor_pos_iff b n).1 q,
              (bit_xor_pos_iff c n).1 r,
              (bit_xor_pos_iff d n).1 s,
            ),
      )

-- The macro is 0 exactly when none of the four lanes of the word is `n`.
pub hasvalue16_iff :
    (w n : ℕ) → w < 2 ^ 64 → n < 2 ^ 16 → (hasvalue16 w n ≡ 0) ↔ ((j : ℕ) → j < 4 → lane w j ≢ n)
hasvalue16_iff w n w-lt n-lt =
    let lanes =
      hasvalue16_lanes_iff (lane w 0) (lane w 1) (lane w 2) (lane w 3) n (omega arith) (omega arith)
        (omega arith) (omega arith) n-lt in
    let e : of_lanes (lane w 0) (lane w 1) (lane w 2) (lane w 3) ≡ w = omega arith in
    (
      λ z. every (lanes.0 (rw e z)),
      λ h.
          rw e at
            (lanes.1 (h 0 (omega arith), h 1 (omega arith), h 2 (omega arith), h 3 (omega arith))),
    )
  where
    every :
        (lane w 0 ≢ n) × (lane w 1 ≢ n) × (lane w 2 ≢ n) × (lane w 3 ≢ n)
        → (j : ℕ) → j < 4
        → lane w j ≢ n
    every p zero h = p.0
    every p (suc zero) h = p.1
    every p (suc (suc zero)) h = p.2
    every p (suc (suc (suc zero))) h = p.3
    every p (suc (suc (suc (suc j)))) h = absurd (omega arith)

-- A macro that is not 0 has a lane to show for it.
pub hasvalue16_found :
    (w n : ℕ) → w < 2 ^ 64 → n < 2 ^ 16 → hasvalue16 w n ≢ 0 → (j : ℕ) × (j < 4) × (lane w j ≡ n)
hasvalue16_found w n w-lt n-lt h = elim (ℕ_discrete (lane w 0) n) [
  | yes e ↦ (0, omega arith, e)
  | no n₀ ↦ elim (ℕ_discrete (lane w 1) n) [
    | yes e ↦ (1, omega arith, e)
    | no n₁ ↦ elim (ℕ_discrete (lane w 2) n) [
      | yes e ↦ (2, omega arith, e)
      | no n₂ ↦ elim (ℕ_discrete (lane w 3) n) [
        | yes e ↦ (3, omega arith, e)
        | no n₃ ↦ absurd (h ((hasvalue16_iff w n w-lt n-lt).1 (none_of n₀ n₁ n₂ n₃)))
      ]
    ]
  ]
]
  where
    none_of :
        lane w 0 ≢ n → lane w 1 ≢ n → lane w 2 ≢ n → lane w 3 ≢ n → (j : ℕ) → j < 4 → lane w j ≢ n
    none_of p q r s zero h = p
    none_of p q r s (suc zero) h = q
    none_of p q r s (suc (suc zero)) h = r
    none_of p q r s (suc (suc (suc zero))) h = s
    none_of p q r s (suc (suc (suc (suc j)))) h = absurd (omega arith)
