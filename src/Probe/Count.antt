-- ===== src/Probe/Count.antt =====
-- The abstract view of a tag array: how often it holds the fingerprint `f` at home in bucket `h`.
-- A tag is `f << 4 | d` in the bucket that is `d` after its home.
use native.Mathlib.Nat.{mod-lt, mod-eq_of_lt, mod-mod}
use wormholefilters.Base.{
  ℕ, ◌+◌, ◌*◌, ◌/◌, ◌%◌, ◌^◌, ◌≤◌, ◌<◌, ◌≡◌, ◌≢◌, ◌↔◌, inl, inr, ◌&&◌, sym, ap, ◌∙◌, arith, ◌==◌,
  to_nat, sum_below, sum_below_congr, sum_below_update, le-sum_below, sum_below_pos, sum_below_zero,
}
use wormholefilters.Probe.Laws.{IsWrite, StoreLaws}
use wormholefilters.Probe.{Store}

-- 1 if the tag `t` in bucket `b` of `n` stands for the fingerprint `f` at home in `h`.
unfoldable pub hit : ℕ → ℕ → ℕ → ℕ → ℕ → ℕ
hit n h f b t = to_nat ((h + t % 16) % n == b % n && t / 16 == f)

row : ℕ → ℕ → ℕ → ℕ → (ℕ → ℕ) → ℕ
row n h f b tags = sum_below 4 (λ j. hit n h f b (tags j))

unfoldable pub count : (st : Store) → st.State → ℕ → ℕ → ℕ
unfolding row
count st s h f = sum_below (st.num_buckets s) (λ b. row (st.num_buckets s) h f b (st.read_tag s b))

-- A fingerprint is stored where a lookup would find it.
abbrev pub Stored : (st : Store) → st.State → ℕ → ℕ → Type 0
Stored st s h f = (d : ℕ) × (d < 16) × ((j : ℕ) × (j < 4) × (st.read_tag s (h + d) j ≡ f * 16 + d))

pub hit-mod : (n h f b t : ℕ) → 0 < n → hit n h f (b % n) t ≡ hit n h f b t
unfolding hit
hit-mod n h f b t pos = rw (mod-mod b n)

-- An empty slot holds no fingerprint.
pub hit-zero : (n h f b : ℕ) → 0 < f → hit n h f b 0 ≡ 0
unfolding hit
hit-zero n h f b pos = ground arith

pub hit-le : (n h f b t : ℕ) → hit n h f b t ≤ 1
unfolding hit
hit-le n h f b t = ground arith

row_congr :
    (n h f b : ℕ) (tags tags' : ℕ → ℕ)
    → ((k : ℕ) → k < 4 → tags k ≡ tags' k)
    → row n h f b tags ≡ row n h f b tags'
unfolding row
row_congr n h f b tags tags' same =
    sum_below_congr 4 (λ k. hit n h f b (tags k)) (λ k. hit n h f b (tags' k))
      λ k p. ap (hit n h f b) (same k p)

row-write :
    (n h f b j : ℕ) (tags tags' : ℕ → ℕ)
    → j < 4
    → ((k : ℕ) → k < 4 → k ≢ j → tags' k ≡ tags k)
    → row n h f b tags' + hit n h f b (tags j) ≡ row n h f b tags + hit n h f b (tags' j)
unfolding row
row-write n h f b j tags tags' hj same =
    sum_below_update 4 j (λ k. hit n h f b (tags' k)) (λ k. hit n h f b (tags k)) hj
      λ k p ne. ap (hit n h f b) (same k p ne)

module _ (st : Store) (laws : StoreLaws st) (op : st.State → ℕ → ℕ → ℕ → st.State)
    (w : IsWrite st laws.IsValid op) where
  -- One write exchanges one tag.
  pub count-write :
      (s : st.State) (i j t h f : ℕ)
      → laws.IsValid s
      → j < 4
      → t < 2 ^ 16
      → count st (op s i j t) h f + hit (st.num_buckets s) h f i (st.read_tag s i j)
        ≡ count st s h f + hit (st.num_buckets s) h f i t
  unfolding count
  count-write s i j t h f v hj ht =
      let n = st.num_buckets s in
      let s' = op s i j t in
      let b = i % n in
      let pos = laws.pos s v in
      let same_n : st.num_buckets s' ≡ n = w.keeps-num_buckets s i j t in
      let new : st.read_tag s' b j ≡ t =
        sym (ap (λ (m : ℕ). st.read_tag s' (i % m) j) same_n)
        ∙ laws.read-mod s' i j (w.keeps-IsValid s i j t v hj)
        ∙ w.read_self s i j t v hj
        ∙ mod-eq_of_lt ht in
      let in_row =
        row-write n h f b j (st.read_tag s b) (st.read_tag s' b) hj
          (λ k p ne. w.read_ne s i j t b k v hj p (inr (λ e. ne (sym e)))) in
      let rows =
        sum_below_update n b (λ c. row n h f c (st.read_tag s' c))
          (λ c. row n h f c (st.read_tag s c)) (mod-lt i pos)
          (λ c p ne. rw (
            row_congr n h f c (st.read_tag s' c) (st.read_tag s c)
              (λ k q. w.read_ne s i j t c k v hj q (inl (λ e. ne (sym (e ∙ mod-eq_of_lt p))))))) in
      let old = laws.read-mod s i j v in
      rw same_n (
        omega (
          arith,
          rows,
          in_row,
          ap (hit n h f b) new,
          ap (hit n h f b) old,
          hit-mod n h f i t pos,
          hit-mod n h f i (st.read_tag s i j) pos,
        ))

  -- The same at a number of buckets that is known.
  pub count-write_at :
      (s : st.State) {n : ℕ} (i j t h f : ℕ)
      → st.num_buckets s ≡ n
      → laws.IsValid s
      → j < 4
      → t < 2 ^ 16
      → count st (op s i j t) h f + hit n h f i (st.read_tag s i j) ≡ count st s h f + hit n h f i t
  count-write_at s i j t h f e v hj ht = rw (← e) (count-write s i j t h f v hj ht)

module _ (st : Store) (laws : StoreLaws st) where
  -- A slot counts.
  pub hit-le-count :
      (s : st.State) (i j h f : ℕ)
      → laws.IsValid s
      → j < 4
      → hit (st.num_buckets s) h f i (st.read_tag s i j) ≤ count st s h f
  unfolding count
  hit-le-count s i j h f v hj =
      let n = st.num_buckets s in
      let b = i % n in
      let one = le-sum_below 4 j (λ k. hit n h f b (st.read_tag s b k)) hj in
      let all = le-sum_below n b (λ c. row n h f c (st.read_tag s c)) (mod-lt i (laws.pos s v)) in
      omega (
        arith,
        one,
        all,
        ap (hit n h f b) (laws.read-mod s i j v),
        hit-mod n h f i (st.read_tag s i j) (laws.pos s v),
      )

  hit_pos : (n h f b t : ℕ) → 0 < hit n h f b t → ((h + t % 16) % n ≡ b % n) × (t ≡ f * 16 + t % 16)
  unfolding hit
  hit_pos n h f b t p = ground arith

  -- The count is positive exactly when a slot within reach of the home holds the fingerprint.
  pub count_iff : (s : st.State) (h f : ℕ) → laws.IsValid s → (0 < count st s h f) ↔ Stored st s h f
  unfolding count row hit
  count_iff s h f v = (there, back)
    where
      there : 0 < count st s h f → Stored st s h f
      there p =
          let n = st.num_buckets s in
          let (b, b-lt, q) = sum_below_pos n (λ c. row n h f c (st.read_tag s c)) p in
          let (j, j-lt, r) = sum_below_pos 4 (λ k. hit n h f b (st.read_tag s b k)) q in
          let t = st.read_tag s b j in
          let (home, split) = hit_pos n h f b t r in
          let same : st.read_tag s (h + t % 16) j ≡ t =
            sym (laws.read-mod s (h + t % 16) j v)
            ∙ ap (λ (m : ℕ). st.read_tag s m j) home
            ∙ laws.read-mod s b j v in
          (t % 16, omega arith, (j, j-lt, same ∙ split))

      back : Stored st s h f → 0 < count st s h f
      back (d, d-lt, (j, j-lt, e)) =
          let n = st.num_buckets s in
          let le = hit-le-count s (h + d) j h f v j-lt in
          let one : hit n h f (h + d) (f * 16 + d) ≡ 1 = ground arith in
          omega (arith, le, one, ap (hit n h f (h + d)) e)

-- An array of empty slots holds no fingerprint.
pub count-empty :
    (st : Store) (s : st.State) (h f : ℕ)
    → 0 < f
    → ((i j : ℕ) → st.read_tag s i j ≡ 0)
    → count st s h f ≡ 0
unfolding count
count-empty st s h f pos empty =
    let n = st.num_buckets s in
    sum_below_zero n (λ b. row n h f b (st.read_tag s b))
      λ b b-lt.
        sum_below_zero 4 (λ j. hit n h f b (st.read_tag s b j))
          λ j j-lt. ap (hit n h f b) (empty b j) ∙ hit-zero n h f b pos
