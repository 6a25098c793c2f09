-- ===== src/Probe/Lookup.antt =====
-- The loop of a lookup: it tests the buckets within reach of the home for the tag that the
-- fingerprint has there.
use wormholefilters.Base.{
  ℕ, zero, suc, ◌+◌, ◌*◌, ◌^◌, ◌≤◌, ◌<◌, ◌≡◌, ◌≢◌, ◌↔◌, inl, inr, true, sym, subst, ◌∙◌, arith,
  ◌==◌, bit_or, bit_or_disjoint, Bool-cases, ==_iff, ==→ne,
}
use wormholefilters.Probe.{probe_words}
use wormholefilters.Swar.{lane, hasvalue16, hasvalue16_iff, hasvalue16_found}

module _ (word : ℕ → ℕ) (word-lt : (p : ℕ) → word p < 2 ^ 64) (f₀ : ℕ) (f₀-lt : f₀ < 2 ^ 12) where
  -- A slot that the rounds from `p` on look at, and that holds the fingerprint.
  abbrev StoredFrom : ℕ → ℕ → Type 0
  StoredFrom r p =
      (d : ℕ) × (p ≤ d) × (d < p + r) × ((j : ℕ) × (j < 4) × (lane (word d) j ≡ f₀ * 16 + d))

  tag-eq : (p : ℕ) → p < 16 → bit_or (f₀ * 16) p ≡ f₀ * 16 + p
  tag-eq p h = bit_or_disjoint 4 f₀ p h

  probe_words_found :
      (r p : ℕ) → p + r ≤ 16 → probe_words word (f₀ * 16) r p ≡ true → StoredFrom r p
  unfolding probe_words
  probe_words_found zero p le e = absurd (cc)
  probe_words_found (suc r) p le e =
      elim (Bool-cases (hasvalue16 (word p) (bit_or (f₀ * 16) p) == 0)) [
        | inl z ↦
            let (d, d-ge, d-lt, found) = probe_words_found r (p + 1) (omega arith) (rw z at e) in
            (d, omega arith, omega arith, found)
        | inr nz ↦
            let t-eq = tag-eq p (omega arith) in
            let (j, j-lt, eq) =
              hasvalue16_found (word p) (bit_or (f₀ * 16) p) (word-lt p) (omega arith)
                (==→ne (hasvalue16 (word p) (bit_or (f₀ * 16) p)) 0 nz) in
            (p, omega arith, omega arith, (j, j-lt, eq ∙ t-eq))
      ]

  probe_words_finds :
      (r p : ℕ) → p + r ≤ 16 → StoredFrom r p → probe_words word (f₀ * 16) r p ≡ true
  unfolding probe_words
  probe_words_finds zero p le (d, ge, lt, found) = absurd (omega arith)
  probe_words_finds (suc r) p le (d, ge, lt, (j, j-lt, eq)) =
      elim (Bool-cases (hasvalue16 (word p) (bit_or (f₀ * 16) p) == 0)) [
        | inr nz ↦ rw nz
        | inl z ↦
            let t-eq = tag-eq p (omega arith) in
            let absent =
              (hasvalue16_iff (word p) (bit_or (f₀ * 16) p) (word-lt p) (omega arith)).0
                ((==_iff (hasvalue16 (word p) (bit_or (f₀ * 16) p)) 0).0 z) in
            let later : p ≢ d = λ same.
              absent j j-lt (subst (λ x. lane (word x) j ≡ f₀ * 16 + x) (sym same) eq ∙ sym t-eq) in
            rw z (
              probe_words_finds r (p + 1) (omega arith)
                (d, omega arith, omega arith, (j, j-lt, eq)))
      ]

  -- The loop answers true exactly when one of the 16 words has the tag of its distance.
  pub probe_words_iff :
      (probe_words word (f₀ * 16) 16 0 ≡ true)
      ↔ ((d : ℕ) × (d < 16) × ((j : ℕ) × (j < 4) × (lane (word d) j ≡ f₀ * 16 + d)))
  probe_words_iff = (
    λ e. let (d, ge, lt, found) = probe_words_found 16 0 (omega arith) e in (d, omega arith, found),
    λ (d, lt, found). probe_words_finds 16 0 (omega arith) (d, omega arith, omega arith, found),
  )
