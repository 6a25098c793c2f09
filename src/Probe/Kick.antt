-- ===== src/Probe/Kick.antt =====
-- The `while` loop: each round moves one tag into the free slot and frees the slot it came from.
use native.Mathlib.Nat.{mod-eq_of_lt}
use native.Mathlib.Decide.{dec_lt}
use wormholefilters.Base.{
  ℕ, zero, suc, ◌+◌, ◌*◌, ◌/◌, ◌%◌, ◌^◌, ◌≤◌, ◌<◌, ◌≡◌, ◌≢◌, inl, inr, false, Option, none, some,
  refl, sym, ap, subst, ◌∙◌, arith, ltb, ◌==◌, sub32, sub64, bit_and, Bool-cases, Option-cases,
  ltb→lt, lt→ltb, le→ltb, ==_congr,
}
use wormholefilters.Probe.Arith.{bit_and-dis_mask, moved_tag_lem, add_mod_congr, add_mod_cancel}
use wormholefilters.Probe.Count.{hit, hit-zero, hit-le, count, count-write_at, hit-le-count}
use wormholefilters.Probe.Laws.{StoreLaws}
use wormholefilters.Probe.{
  Store, Kicked, stuck, settled, cadi_slot, find_cadi, moved_tag, kick, dis_mask, max_prob,
  slot_per_buk,
}

-- A tag that moves on by `q` buckets stands for the same fingerprint at the same home.
hit-moved :
    (n h f b t q : ℕ)
    → 0 < n
    → t % 16 + q < 16
    → hit n h f (b + q) (t / 16 * 16 + (t % 16 + q)) ≡ hit n h f b t
unfolding hit
hit-moved n h f b t q pos fits =
    let d : (t / 16 * 16 + (t % 16 + q)) % 16 ≡ t % 16 + q = omega arith in
    let u : (t / 16 * 16 + (t % 16 + q)) / 16 ≡ t / 16 = omega arith in
    let a : h + (t % 16 + q) ≡ h + t % 16 + q = omega arith in
    let home : ((h + t % 16 + q) % n == (b + q) % n) ≡ ((h + t % 16) % n == b % n) =
      ==_congr ((h + t % 16 + q) % n) ((b + q) % n) ((h + t % 16) % n) (b % n)
        (add_mod_cancel n (h + t % 16) b q pos) (add_mod_congr n (h + t % 16) b q) in
    rw (d, u, a, home)

-- Buckets less than `n` apart are different.
buckets_apart : (n b q : ℕ) → 0 < q → q < n → (b + q) % n ≢ b % n
buckets_apart n b q pos lt e =
    let l : q + b ≡ b + q = omega arith in
    let r : 0 + b ≡ b = omega arith in
    let z = add_mod_cancel n q 0 b (omega arith) (rw (l, r) e) in
    absurd (omega (arith, z, mod-eq_of_lt lt))

module _ (st : Store) (s : st.State) where
  abbrev IsMovable : ℕ → ℕ → Option ℕ → Type 0
  IsMovable b q none = Unit {0}
  IsMovable b q (some k) = (k < 4) × (st.read_tag s b k % 16 + q < 16)

  cadi_slot-IsMovable : (b q r k : ℕ) → k + r ≤ 4 → IsMovable b q (cadi_slot st s b q r k)
  unfolding cadi_slot
  cadi_slot-IsMovable b q zero k h = tt
  cadi_slot-IsMovable b q (suc r) k h =
      elim (Bool-cases (ltb (bit_and (st.read_tag s b k) dis_mask + q) max_prob)) [
        | inl e ↦ rw e (
          omega arith,
          rw (bit_and-dis_mask (st.read_tag s b k)) at
              (ltb→lt (bit_and (st.read_tag s b k) dis_mask + q) max_prob e),
        )
        | inr e ↦ rw e (cadi_slot-IsMovable b q r (k + 1) (omega arith))
      ]

  abbrev IsCadi : ℕ → ℕ → Option (ℕ × ℕ × ℕ) → Type 0
  IsCadi curr p none = Unit {0}
  IsCadi curr p (some (b, k, q)) =
      (b ≡ sub32 curr q) × (0 < q) × (q ≤ p) × (k < 4) × (st.read_tag s b k % 16 + q < 16)

  find_cadi-IsCadi : (curr p : ℕ) → IsCadi curr p (find_cadi st s curr p)
  unfolding find_cadi
  find_cadi-IsCadi curr zero = tt
  find_cadi-IsCadi curr (suc p) =
      elim (Option-cases (cadi_slot st s (sub32 curr (suc p)) (suc p) slot_per_buk 0)) [
        | inl e ↦ rw (e, find_cadi) (weaken (find_cadi st s curr p) (find_cadi-IsCadi curr p))
        | inr (k, e) ↦
            let (lt, fits) =
              rw e at
                (cadi_slot-IsMovable (sub32 curr (suc p)) (suc p) slot_per_buk 0 (omega arith)) in
            rw (e, find_cadi) (refl, omega arith, omega arith, lt, fits)
      ]
    where
      weaken : (o : Option (ℕ × ℕ × ℕ)) → IsCadi curr p o → IsCadi curr (suc p) o
      weaken none h = tt
      weaken (some (b, k, q)) h = (h.0, h.1, omega arith, h.3, h.4)

module _ (st : Store) (laws : StoreLaws st) where
  -- The slot `j` of bucket `curr` may be overwritten: without it each fingerprint is there as
  -- often as at the start, and what it holds is the copy of a tag that is there.
  pub record Hole (n c h f : ℕ) (s : st.State) (curr j : ℕ) : Type 0 where
    pub valid : laws.IsValid s
    pub width : st.num_buckets s ≡ n
    pub slot-lt : j < 4
    pub balance : count st s h f ≡ c + hit n h f curr (st.read_tag s curr j)
    pub copied : hit n h f curr (st.read_tag s curr j) ≤ c

  abbrev pub AfterKick : ℕ → ℕ → ℕ → ℕ → ℕ → Kicked st.State → Type 0
  AfterKick n c h f init Kicked.out_of_fuel = ⊥
  AfterKick n c h f init (stuck s) =
      laws.IsValid s
      × (st.num_buckets s ≡ n)
      × (c ≤ count st s h f)
      × (count st s h f ≤ c + 1)
      × (count st s h f ≤ c + c)
  AfterKick n c h f init (settled s curr j) =
      Hole n c h f s curr j × (init ≤ curr) × (curr < init + 16) × (curr < init + n)

  module _ {n c h f : ℕ} {s : st.State} (b j k q : ℕ) (hole : Hole n c h f s (b + q) j)
      (pos : 0 < f) (q-pos : 0 < q) (q-lt : q < n) (k-lt : k < 4)
      (fits : st.read_tag s b k % 16 + q < 16) where
    -- One round, when the tag in slot `k` of bucket `b` moves to the hole `q` buckets on.
    Hole-move : Hole n c h f (st.kick_tag s (b + q) j (moved_tag (st.read_tag s b k) q)) b k
    Hole-move =
        let t = st.read_tag s b k in
        let m = moved_tag t q in
        let m-eq = moved_tag_lem t q (laws.read-lt s b k) fits in
        let m-lt : m < 2 ^ 16 = omega (arith, m-eq, laws.read-lt s b k) in
        let apart : (b + q) % st.num_buckets s ≢ b % st.num_buckets s =
          rw hole.width (buckets_apart n b q q-pos q-lt) in
        let still =
          λ (x : ℕ). laws.kick.read_ne s (b + q) j x b k hole.valid hole.slot-lt k-lt (inl apart) in
        let write = λ (x : ℕ) (x-lt : x < 2 ^ 16).
          count-write_at st laws st.kick_tag laws.kick s (b + q) j x h f hole.width hole.valid
            hole.slot-lt x-lt in
        let valid = λ (x : ℕ). laws.kick.keeps-IsValid s (b + q) j x hole.valid hole.slot-lt in
        let width = λ (x : ℕ). laws.kick.keeps-num_buckets s (b + q) j x ∙ hole.width in
        let same = ap (hit n h f (b + q)) m-eq ∙ hit-moved n h f b t q (omega arith) fits in
        let cleared =
          rw (width 0, still 0) at
            (hit-le-count st laws (st.kick_tag s (b + q) j 0) b k h f (valid 0) k-lt) in
        record {
          valid = valid m;
          width = width m;
          slot-lt = k-lt;
          balance = rw (still m) (omega (arith, write m m-lt, same, hole.balance));
          copied = rw (still m) (
              omega
                (arith, write 0 (omega arith), hit-zero n h f (b + q) pos, hole.balance, cleared));
        }

  module _ (s : st.State) (init j fuel : ℕ) where
    kick_settled :
        (curr : ℕ)
        → init ≤ curr
        → curr < 2 ^ 32
        → curr < init + 16
        → kick st s init curr j (suc fuel) ≡ settled s curr j
    unfolding kick
    kick_settled curr le small near = rw (lt→ltb (sub64 curr init) 16 (omega arith), kick)

    module _ (curr : ℕ) (small : curr < 2 ^ 32) (far : init + 16 ≤ curr) where
      far_test : ltb (sub64 curr init) max_prob ≡ false
      far_test = le→ltb (sub64 curr init) 16 (omega arith)

      kick_stuck : find_cadi st s curr 15 ≡ none → kick st s init curr j (suc fuel) ≡ stuck s
      unfolding kick
      kick_stuck e = rw (far_test, kick, e)

      kick_move :
          (b k q : ℕ)
          → find_cadi st s curr 15 ≡ some (b, k, q)
          → kick st s init curr j (suc fuel)
            ≡ kick st (st.kick_tag s curr j (moved_tag (st.read_tag s b k) q)) init b k fuel
      unfolding kick
      kick_move b k q e = rw (far_test, kick, e)

  -- With fuel for the distance that is left the loop ends; it keeps what the array stands for but
  -- for the hole, and stops near the home bucket or where no tag can be moved.
  pub kick-AfterKick :
      (n c h f init fuel curr j : ℕ) (s : st.State)
      → 0 < f
      → init + n < 2 ^ 32
      → init ≤ curr
      → curr < init + n
      → curr < init + fuel
      → Hole n c h f s curr j
      → AfterKick n c h f init (kick st s init curr j fuel)
  kick-AfterKick n c h f init zero curr j s pos small le lt enough hole = absurd (omega arith)
  kick-AfterKick n c h f init (suc fuel) curr j s pos small le lt enough hole =
      elim (dec_lt curr (init + 16)) [
        | yes near ↦ rw (kick_settled s init j fuel curr le (omega arith) near) (hole, le, near, lt)
        | no far ↦ elim (Option-cases (find_cadi st s curr 15)) [
          | inl e ↦ rw (kick_stuck s init j fuel curr (omega arith) (omega arith) e) (
            hole.valid,
            hole.width,
            omega (arith, hole.balance),
            omega (arith, hole.balance, hit-le n h f curr (st.read_tag s curr j)),
            omega (arith, hole.balance, hole.copied),
          )
          | inr ((b, k, q), e) ↦
              let (b-eq, q-pos, q-le, k-lt, fits) = rw e at (find_cadi-IsCadi st s curr 15) in
              let c-eq : curr ≡ b + q = omega arith in
              let hole' =
                Hole-move b j k q (subst (λ x. Hole n c h f s x j) c-eq hole) pos q-pos
                  (omega arith) k-lt fits in
              rw (kick_move s init j fuel curr (omega arith) (omega arith) b k q e) (
                kick-AfterKick n c h f init fuel b k
                  (st.kick_tag s curr j (moved_tag (st.read_tag s b k) q)) pos small (omega arith)
                  (omega arith) (omega arith)
                  (subst
                    (λ x. Hole n c h f (st.kick_tag s x j (moved_tag (st.read_tag s b k) q)) b k)
                    (sym c-eq) hole'))
        ]
      ]
