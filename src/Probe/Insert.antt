-- ===== src/Probe/Insert.antt =====
-- What an insertion does to the abstract view, on its three ways out.
use native.Mathlib.Nat.{mod-eq_of_lt}
use wormholefilters.Base.{
  ℕ, suc, ◌+◌, ◌*◌, ◌%◌, ◌/◌, ◌^◌, ◌≤◌, ◌<◌, ◌≡◌, Bool, true, false, ◌&&◌, Option, none, some, refl,
  sym, ap, ◌∙◌, arith, ◌==◌, to_nat, sub64, bit_or, bit_or_disjoint, ==_congr,
}
use wormholefilters.Probe.Arith.{add_mod_cancel}
use wormholefilters.Probe.Count.{hit, hit-zero, count, count-write_at}
use wormholefilters.Probe.Kick.{AfterKick, kick-AfterKick}
use wormholefilters.Probe.Laws.{StoreLaws}
use wormholefilters.Probe.Scan.{Finds, find_empty-Finds}
use wormholefilters.Probe.{
  Store, Search, full, at, Kicked, stuck, settled, find_empty, kick, place, use_slot, insert,
}

-- The tag that is written stands for the fingerprint `f₀` at home in `init`, and for no other.
pub hit-placed :
    (n h f init d f₀ : ℕ)
    → h < n
    → init < n
    → d < 16
    → hit n h f (init + d) (f₀ * 16 + d) ≡ to_nat (h == init && f₀ == f)
unfolding hit
hit-placed n h f init d f₀ h-lt init-lt d-lt =
    let e : (f₀ * 16 + d) % 16 ≡ d = omega arith in
    let u : (f₀ * 16 + d) / 16 ≡ f₀ = omega arith in
    let home : ((h + d) % n == (init + d) % n) ≡ (h == init) =
      ==_congr ((h + d) % n) ((init + d) % n) h init
        (λ p.
          sym (mod-eq_of_lt h-lt)
          ∙ add_mod_cancel n h init d (omega arith) p
          ∙ mod-eq_of_lt init-lt)
        (λ p. ap (λ (x : ℕ). (x + d) % n) p) in
    rw (e, u, home)

module _ (st : Store) (laws : StoreLaws st) where
  -- With `c` copies of `f` at home in `h` before: a successful insertion adds one if that is the
  -- inserted fingerprint, and changes no other number. One that fails may leave one more copy of
  -- a fingerprint that is there, and loses none.
  abbrev pub AfterInsert : ℕ → ℕ → ℕ → ℕ → ℕ → ℕ → Option (Bool × st.State) → Type 0
  AfterInsert n c h f init f₀ none = ⊥
  AfterInsert n c h f init f₀ (some (true, s)) =
      laws.IsValid s × (st.num_buckets s ≡ n) × (count st s h f ≡ c + to_nat (h == init && f₀ == f))
  AfterInsert n c h f init f₀ (some (false, s)) =
      laws.IsValid s
      × (st.num_buckets s ≡ n)
      × (c ≤ count st s h f)
      × (count st s h f ≤ c + 1)
      × (count st s h f ≤ c + c)

  module _ (n c h f init f₀ : ℕ) (f-pos : 0 < f) (h-lt : h < n) (init-lt : init < n)
      (n-le : n ≤ 2 ^ 31) (f₀-lt : f₀ < 2 ^ 12) where
    place-AfterInsert :
        (r : Kicked st.State)
        → AfterKick st laws n c h f init r
        → AfterInsert n c h f init f₀ (place st r init (f₀ * 16))
    unfolding place
    place-AfterInsert Kicked.out_of_fuel p = p
    place-AfterInsert (stuck s) p = p
    place-AfterInsert (settled s curr j) (hole, le, near, lt) =
        let d = sub64 curr init in
        let d-lt : d < 16 = omega arith in
        let c-eq : init + d ≡ curr = omega arith in
        let t-eq = bit_or_disjoint 4 f₀ d d-lt in
        let t-lt : bit_or (f₀ * 16) d < 2 ^ 16 = omega (arith, t-eq) in
        let placed = rw c-eq at (hit-placed n h f init d f₀ h-lt init-lt d-lt) in
        (
          laws.write.keeps-IsValid s curr j (bit_or (f₀ * 16) d) hole.valid hole.slot-lt,
          laws.write.keeps-num_buckets s curr j (bit_or (f₀ * 16) d) ∙ hole.width,
          omega (
            arith,
            count-write_at st laws st.write_tag laws.write s curr j (bit_or (f₀ * 16) d) h f
                hole.width hole.valid hole.slot-lt t-lt,
            ap (hit n h f curr) t-eq,
            placed,
            hole.balance,
          ),
        )

    use_slot-AfterInsert :
        (s : st.State) (r : Search)
        → laws.IsValid s
        → st.num_buckets s ≡ n
        → count st s h f ≡ c
        → Finds st s init init r
        → AfterInsert n c h f init f₀ (use_slot st s init (f₀ * 16) r)
    unfolding use_slot
    use_slot-AfterInsert s Search.out_of_fuel v w e p = p
    use_slot-AfterInsert s full v w e p = (v, w, omega arith, omega arith, omega arith)
    use_slot-AfterInsert s (at curr j) v w e p =
        let zero_hit : hit n h f curr (st.read_tag s curr j) ≡ 0 =
          rw p.3 (hit-zero n h f curr f-pos) in
        place-AfterInsert (kick st s init curr j (suc (st.num_buckets s))) (
          kick-AfterKick st laws n c h f init (suc (st.num_buckets s)) curr j s f-pos (omega arith)
            p.0 (omega arith) (omega arith)
            (record {
              valid = v;
              width = w;
              slot-lt = p.2;
              balance = omega arith;
              copied = omega arith;
            }))

  -- An insertion ends, with fuel for the buckets, in one of the two results.
  pub insert-AfterInsert :
      (s : st.State) (h f init f₀ : ℕ)
      → laws.IsValid s
      → 0 < f
      → h < st.num_buckets s
      → init < st.num_buckets s
      → f₀ < 2 ^ 12
      → AfterInsert (st.num_buckets s) (count st s h f) h f init f₀ (insert st s init (f₀ * 16))
  unfolding insert
  insert-AfterInsert s h f init f₀ v f-pos h-lt init-lt f₀-lt =
      let n = st.num_buckets s in
      let small = laws.small s v in
      use_slot-AfterInsert n (count st s h f) h f init f₀ f-pos h-lt init-lt small f₀-lt s
        (find_empty st s init (suc n) init) v refl refl
        (find_empty-Finds st s init (suc n) init (omega arith) (omega arith) (omega arith))
