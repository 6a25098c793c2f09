-- ===== src/Leveldb/Wormhole/Size.antt =====
-- The number of buckets that `CreateFilter` allocates.
use native.Mathlib.Nat.{pow-suc}
use Prim.Native.Nat.{max}
use wormholefilters.Base.{
  ℕ, suc, ◌*◌, ◌/◌, ◌^◌, ◌≤◌, ◌≡◌, ◌≢◌, arith, ltb, ltb→le, inl, inr, Bool-cases,
}
use wormholefilters.Leveldb.Wormhole.Power.{IsPowerOf, upperpower2-IsPowerOf}
use wormholefilters.Leveldb.Wormhole.{upperpower2, buckets_for}

-- A power of two, with a slot for each of `n` keys.
pub record IsRoom (n b : ℕ) : Type 0 where
  pub log : ℕ
  pub power : b ≡ 2 ^ log
  pub small : b ≤ 2 ^ 29
  pub room : n ≤ 4 * b

module _ (n : ℕ) (le : n ≤ 2 ^ 29) where
  abbrev least : ℕ
  least = upperpower2 (max 1 (n / 4))

  least-IsPowerOf : IsPowerOf (max 1 (n / 4)) least
  least-IsPowerOf = upperpower2-IsPowerOf (max 1 (n / 4)) (omega arith) (omega arith)

  pub buckets_for-IsRoom : IsRoom n (buckets_for n)
  unfolding buckets_for
  buckets_for-IsRoom =
      let u = least-IsPowerOf in
      let lt = u.least in
      let ge = u.enough in
      elim (Bool-cases (ltb (16 * least) (5 * n))) [
        | inr keep ↦
            let few = ltb→le (16 * least) (5 * n) keep in
            rw keep (record {
              log = u.log;
              power = u.power;
              small = omega arith;
              room = omega (arith, few);
            })
        | inl double ↦ rw double (record {
          log = suc u.log;
          power = omega (arith, u.power, pow-suc 2 u.log, lt);
          small = omega (arith, lt);
          room = omega (arith, lt, ge);
        })
      ]

  -- For up to 2 ^ 29 keys, but not 7, at most four fifths of the slots are needed.
  pub buckets_for_load : n ≢ 7 → 5 * n ≤ 16 * buckets_for n
  unfolding buckets_for
  buckets_for_load ne =
      let u = least-IsPowerOf in
      let lt = u.least in
      let ge = u.enough in
      elim (Bool-cases (ltb (16 * least) (5 * n))) [
        | inr keep ↦ rw keep (ltb→le (16 * least) (5 * n) keep)
        | inl double ↦ rw double (omega (arith, lt, ge, ne))
      ]
