-- ===== src/PmFilter/Delete.antt =====
-- `pmwormholefilter_delete` on an index and a tag: it clears one slot of the fingerprint.
use native.Mathlib.Decide.{ℕ_discrete}
use wormholefilters.Base.{
  ℕ, zero, suc, ◌+◌, ◌*◌, ◌^◌, ◌≤◌, ◌<◌, ◌≡◌, ◌≢◌, inl, inr, Bool, true, false, ◌&&◌, Option, none,
  some, refl, ap, subst, arith, ◌==◌, to_nat, u32, bit_or, bit_or_disjoint, Bool-cases,
  Option-cases, ==_iff, ==→ne,
}
use wormholefilters.PmFilter.Store.{IsValid, store_laws, write-IsWrite}
use wormholefilters.PmFilter.{Filter, read_tag, write_tag, match_slot, clear_match, store}
use wormholefilters.Probe.Count.{hit, hit-zero, count, count_iff, count-write}
use wormholefilters.Probe.Insert.{hit-placed}
use wormholefilters.Probe.{slot_per_buk}

module _ (f : Filter) where
  -- What the inner loop finds from slot `j` on.
  abbrev IsMatch : ℕ → ℕ → ℕ → ℕ → Option ℕ → Type 0
  IsMatch b t r j none = (k : ℕ) → j ≤ k → k < j + r → read_tag f b k ≢ t
  IsMatch b t r j (some k) = (j ≤ k) × (k < j + r) × (read_tag f b k ≡ t)

  IsMatch-skip :
      (b t r j : ℕ) (o : Option ℕ)
      → read_tag f b j ≢ t
      → IsMatch b t r (j + 1) o
      → IsMatch b t (suc r) j o
  IsMatch-skip b t r j none ne h = λ k p q. elim (ℕ_discrete j k) [
    | yes e ↦ subst (λ x. read_tag f b x ≢ t) e ne
    | no d ↦ h k (omega arith) (omega arith)
  ]
  IsMatch-skip b t r j (some k) ne h = (omega arith, omega arith, h.2)

  match_slot-IsMatch : (b t r j : ℕ) → IsMatch b t r j (match_slot f b t r j)
  unfolding match_slot
  match_slot-IsMatch b t zero j = λ k p q. absurd (omega arith)
  match_slot-IsMatch b t (suc r) j = elim (Bool-cases (read_tag f b j == t)) [
    | inl e ↦ rw (e, match_slot) (omega arith, omega arith, (==_iff (read_tag f b j) t).0 e)
    | inr ne ↦
        rw (ne, match_slot)
          (IsMatch-skip b t r j (match_slot f b t r (j + 1)) (==→ne (read_tag f b j) t ne)
            (match_slot-IsMatch b t r (j + 1)))
  ]

module _ (f : Filter) (v : IsValid f) (init f₀ : ℕ) (f₀-lt : f₀ < 2 ^ 12)
    (init-lt : init < f.num_buckets) where
  -- The rounds from `p` on: a slot of the fingerprint is cleared, or there is none.
  abbrev Clears : ℕ → ℕ → Bool × Filter → Type 0
  Clears r p (true, f') =
      (d : ℕ) × (p ≤ d)
      × (d < p + r)
      × ((j : ℕ) × (j < 4)
          × (read_tag f (init + d) j ≡ f₀ * 16 + d)
          × (f' ≡ write_tag f (init + d) j 0))
  Clears r p (false, f') =
      (f' ≡ f) × ((d j : ℕ) → p ≤ d → d < p + r → j < 4 → read_tag f (init + d) j ≢ f₀ * 16 + d)

  Clears-next :
      (r p : ℕ) (o : Bool × Filter)
      → ((j : ℕ) → j < 4 → read_tag f (init + p) j ≢ f₀ * 16 + p)
      → Clears r (p + 1) o
      → Clears (suc r) p o
  Clears-next r p (true, f') here (d, ge, lt, slot) = (d, omega arith, omega arith, slot)
  Clears-next r p (false, f') here (same, rest) = (
    same,
    λ d j ge lt j-lt. elim (ℕ_discrete p d) [
      | yes e ↦ subst (λ x. read_tag f (init + x) j ≢ f₀ * 16 + x) e (here j j-lt)
      | no ne ↦ rest d j (omega arith) (omega arith) j-lt
    ],
  )

  module _ (r p : ℕ) (p-lt : p < 16) where
    b-eq : u32 (init + p) ≡ init + p
    b-eq = omega (arith, v.small)

    t-eq : bit_or (f₀ * 16) p ≡ f₀ * 16 + p
    t-eq = bit_or_disjoint 4 f₀ p p-lt

    clear_match_hit :
        (j : ℕ)
        → match_slot f (init + p) (f₀ * 16 + p) slot_per_buk 0 ≡ some j
        → clear_match f init (f₀ * 16) (suc r) p ≡ (true, write_tag f (init + p) j 0)
    unfolding clear_match
    clear_match_hit j e =
        let e' : match_slot f (u32 (init + p)) (bit_or (f₀ * 16) p) slot_per_buk 0 ≡ some j =
          rw (b-eq, t-eq) e in
        rw (e', clear_match) (rw b-eq)

    clear_match_miss :
        match_slot f (init + p) (f₀ * 16 + p) slot_per_buk 0 ≡ none
        → clear_match f init (f₀ * 16) (suc r) p ≡ clear_match f init (f₀ * 16) r (p + 1)
    unfolding clear_match
    clear_match_miss e =
        let e' : match_slot f (u32 (init + p)) (bit_or (f₀ * 16) p) slot_per_buk 0 ≡ none =
          rw (b-eq, t-eq) e in
        rw (e', clear_match)

  clear_match-Clears : (r p : ℕ) → p + r ≤ 16 → Clears r p (clear_match f init (f₀ * 16) r p)
  clear_match-Clears zero p le =
      unfold clear_match in (refl, λ d j ge lt j-lt. absurd (omega arith))
  clear_match-Clears (suc r) p le =
      let found = match_slot-IsMatch f (init + p) (f₀ * 16 + p) slot_per_buk 0 in
      elim (Option-cases (match_slot f (init + p) (f₀ * 16 + p) slot_per_buk 0)) [
        | inr (j, e) ↦
            let (_, j-lt, eq) = rw e at found in
            rw (clear_match_hit r p (omega arith) j e)
              (p, omega arith, omega arith, (j, j-lt, eq, refl))
        | inl e ↦ rw (clear_match_miss r p (omega arith) e) (
            Clears-next r p (clear_match f init (f₀ * 16) r (p + 1))
              (λ j j-lt. (rw e at found) j (omega arith) (omega arith))
              (clear_match-Clears r (p + 1) (omega arith)))
      ]

  -- A deletion takes away one copy of the fingerprint and nothing else; it fails, with no effect,
  -- exactly if there is none.
  abbrev pub AfterDelete : Bool × Filter → Type 0
  AfterDelete (true, f') =
      IsValid f'
      × (f'.num_buckets ≡ f.num_buckets)
      × ((h g : ℕ)
          → 0 < g
          → h < f.num_buckets
          → count store f' h g + to_nat (h == init && f₀ == g) ≡ count store f h g)
  AfterDelete (false, f') = (f' ≡ f) × (count store f init f₀ ≡ 0)

  AfterDelete-Clears : (o : Bool × Filter) → Clears 16 0 o → AfterDelete o
  AfterDelete-Clears (true, f') (d, _, d-lt, (j, j-lt, eq, same)) = rw same (
    write-IsWrite.keeps-IsValid f (init + d) j 0 v j-lt,
    write-IsWrite.keeps-num_buckets f (init + d) j 0,
    λ h g g-pos h-lt. omega (
      arith,
      count-write store store_laws write_tag write-IsWrite f (init + d) j 0 h g v j-lt
          (omega arith),
      ap (hit f.num_buckets h g (init + d)) eq,
      hit-zero f.num_buckets h g (init + d) g-pos,
      hit-placed f.num_buckets h g init d f₀ h-lt init-lt d-lt,
    ),
  )
  AfterDelete-Clears (false, f') (same, absent) = (
    same,
    elim (ℕ_discrete (count store f init f₀) 0) [
      | yes e ↦ e
      | no some_left ↦
          let (d, d-lt, (j, j-lt, eq)) = (count_iff store store_laws f init f₀ v).0 (omega arith) in
          absurd (absent d j (omega arith) (omega arith) j-lt eq)
    ],
  )

  pub clear_match-AfterDelete : AfterDelete (clear_match f init (f₀ * 16) 16 0)
  clear_match-AfterDelete =
      AfterDelete-Clears (clear_match f init (f₀ * 16) 16 0) (clear_match-Clears 16 0 (omega arith))
