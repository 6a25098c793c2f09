-- ===== src/Probe/Scan.antt =====
-- The two outer loops: they stop at the first empty slot, or have seen that there is none.
use native.Mathlib.Decide.{ℕ_discrete, dec_lt}
use wormholefilters.Base.{
  ℕ, zero, suc, ◌+◌, ◌^◌, ◌≤◌, ◌<◌, ◌≡◌, ◌≢◌, inl, inr, false, Option, none, some, arith, ◌==◌, u32,
  Bool-cases, Option-cases, lt→ltb, ==_iff, ==→ne, if◌then◌else◌,
}
use wormholefilters.Probe.{Store, Search, full, at, empty_slot, find_empty, slot_per_buk}

module _ (st : Store) (s : st.State) where
  abbrev pub FoundSlot : ℕ → ℕ → ℕ → Option ℕ → Type 0
  FoundSlot b r j none = (k : ℕ) → j ≤ k → k < j + r → st.read_tag s b k ≢ 0
  FoundSlot b r j (some k) = (j ≤ k) × (k < j + r) × (st.read_tag s b k ≡ 0)

  FoundSlot-next :
      (b r j : ℕ) (o : Option ℕ)
      → FoundSlot b r (j + 1) o
      → FoundSlot b (suc r) j (if st.read_tag s b j == 0 then some j else o)
  FoundSlot-next b r j o h = elim (Bool-cases (st.read_tag s b j == 0)) [
    | inl e ↦ rw e (omega arith, omega arith, (==_iff (st.read_tag s b j) 0).0 e)
    | inr ne ↦ rw ne (skip o ne h)
  ]
    where
      skip :
          (o : Option ℕ)
          → (st.read_tag s b j == 0) ≡ false
          → FoundSlot b r (j + 1) o
          → FoundSlot b (suc r) j o
      skip none ne h = λ k p q. elim (ℕ_discrete j k) [
        | yes e ↦ rw (← e) (==→ne (st.read_tag s b j) 0 ne)
        | no d ↦ h k (omega arith) (omega arith)
      ]
      skip (some k) ne h = (omega arith, omega arith, h.2)

  pub empty_slot-FoundSlot : (b r j : ℕ) → FoundSlot b r j (empty_slot st s b r j)
  unfolding empty_slot
  empty_slot-FoundSlot b zero j = λ k p q. absurd (omega arith)
  empty_slot-FoundSlot b (suc r) j =
      FoundSlot-next b r j (empty_slot st s b r (j + 1)) (empty_slot-FoundSlot b r (j + 1))

  -- Every slot of the buckets from `lo` up to `hi` is taken.
  abbrev pub Filled : ℕ → ℕ → Type 0
  Filled lo hi = (c k : ℕ) → lo ≤ c → c < hi → k < 4 → st.read_tag s c k ≢ 0

  -- What the loops have found when they start at bucket `curr`.
  abbrev pub Finds : ℕ → ℕ → Search → Type 0
  Finds init curr Search.out_of_fuel = ⊥
  Finds init curr full = Filled curr (init + st.num_buckets s)
  Finds init curr (at b j) =
      (curr ≤ b) × (b < init + st.num_buckets s) × (j < 4) × (st.read_tag s b j ≡ 0) × Filled curr b

  Filled-next : (lo hi : ℕ) → FoundSlot lo 4 0 none → Filled (lo + 1) hi → Filled lo hi
  Filled-next lo hi here rest c k p q r = elim (ℕ_discrete lo c) [
    | yes e ↦ rw (← e) (here k (omega arith) (omega arith))
    | no d ↦ rest c k (omega arith) q r
  ]

  Finds-next :
      (init curr : ℕ) (r : Search)
      → FoundSlot curr 4 0 none
      → Finds init (curr + 1) r
      → Finds init curr r
  Finds-next init curr Search.out_of_fuel here h = h
  Finds-next init curr full here h = Filled-next curr (init + st.num_buckets s) here h
  Finds-next init curr (at b j) here h = (omega arith, h.1, h.2, h.3, Filled-next curr b here h.4)

  module _ (init fuel curr : ℕ) where
    find_empty_over : init + st.num_buckets s ≤ curr → find_empty st s init (suc fuel) curr ≡ full
    unfolding find_empty
    find_empty_over h = ground arith

    module _ (more : curr < init + st.num_buckets s) where
      find_empty_at :
          (j : ℕ)
          → empty_slot st s curr slot_per_buk 0 ≡ some j
          → find_empty st s init (suc fuel) curr ≡ at curr j
      unfolding find_empty
      find_empty_at j e = rw (lt→ltb curr (init + st.num_buckets s) more, find_empty, e)

      find_empty_next :
          init + st.num_buckets s < 2 ^ 32
          → empty_slot st s curr slot_per_buk 0 ≡ none
          → find_empty st s init (suc fuel) curr ≡ find_empty st s init fuel (curr + 1)
      unfolding find_empty
      find_empty_next small e = let wrap : u32 (curr + 1) ≡ curr + 1 = omega arith in ground arith

  -- With fuel for the buckets that are left the loops end, in a slot of the first bucket that has
  -- an empty one, or with none empty.
  pub find_empty-Finds :
      (init fuel curr : ℕ)
      → curr ≤ init + st.num_buckets s
      → init + st.num_buckets s < 2 ^ 32
      → init + st.num_buckets s < curr + fuel
      → Finds init curr (find_empty st s init fuel curr)
  find_empty-Finds init zero curr le small enough = absurd (omega arith)
  find_empty-Finds init (suc fuel) curr le small enough =
      elim (dec_lt curr (init + st.num_buckets s)) [
        | no over ↦
            rw (find_empty_over init fuel curr (omega arith)) λ c k p q r. absurd (omega arith)
        | yes more ↦
            let here = empty_slot-FoundSlot curr slot_per_buk 0 in
            let rest = find_empty-Finds init fuel (curr + 1) (omega arith) small (omega arith) in
            elim (Option-cases (empty_slot st s curr slot_per_buk 0)) [
              | inr (j, e) ↦
                  let (_, lt, empty) = rw e at here in
                  rw (find_empty_at init fuel curr more j e)
                    (omega arith, more, lt, empty, λ c k p q r. absurd (omega arith))
              | inl e ↦
                  rw (find_empty_next init fuel curr more small e) (
                    Finds-next init curr (find_empty st s init fuel (curr + 1)) (rw e at here) rest)
            ]
      ]
