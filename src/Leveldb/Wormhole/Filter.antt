-- ===== src/Leveldb/Wormhole/Filter.antt =====
-- `KeyMayMatch` on what `CreateFilter` has written: an array of tags and the number of buckets.
use native.Mathlib.Nat.{mod-lt, mod-eq_of_lt}
use wormholefilters.Base.{
  ℕ, zero, suc, ◌+◌, ◌-◌, ◌*◌, ◌^◌, ◌≤◌, ◌<◌, ◌≡◌, ◌↔◌, Bool, true, some, List, ◌++◌, refl, sym, ap,
  ◌∙◌, arith, length, length-append, le→ltb, ◌==◌, bit_or, ◌>>>◌, u32, load16, load16-lt,
  bit_and_mask, Bool-cases, inl, inr, load64, load64-lt, load64-lane, load64-append_left,
  load64-append_right,
}
use wormholefilters.Leveldb.Coding.RoundTrip.{length-encode_fixed64}
use wormholefilters.Leveldb.Coding.{encode_fixed64}
use wormholefilters.Leveldb.Wormhole.Store.{
  IsValid, mod_buckets-eq, num_buckets_pos, begin, bucket_at-eq, read_tag-eq, store_laws,
}
use wormholefilters.Leveldb.Wormhole.{
  Table, wormhole_hash, index_hash, tag_hash, read_tag, store, bucket_at, mod_buckets, probe_filter,
  key_may_match,
}
use wormholefilters.Probe.Count.{count, count_iff}
use wormholefilters.Probe.Lookup.{probe_words_iff}
use wormholefilters.Probe.{probe_words}
use wormholefilters.Swar.{hasvalue16, lane}

-- The bytes that `CreateFilter` appends.
abbrev pub filter_of : Table → List ℕ
filter_of t = t.array ++ encode_fixed64 t.num_buckets

load64-encode_fixed64 : (v : ℕ) → v < 2 ^ 64 → load64 (encode_fixed64 v) 0 ≡ v
unfolding load64 load16 encode_fixed64
load64-encode_fixed64 v h = omega arith

module _ (t : Table) (v : IsValid t) where
  length-filter_of : length (filter_of t) ≡ 8 * t.num_buckets + 8
  length-filter_of = omega (
    arith,
    length-append t.array (encode_fixed64 t.num_buckets),
    length-encode_fixed64 t.num_buckets,
    v.len,
  )

  -- The last eight bytes are read back as the number of buckets.
  stored_num_buckets : load64 (filter_of t) (length (filter_of t) - 8) ≡ t.num_buckets
  stored_num_buckets =
      let e : length (filter_of t) - 8 ≡ length t.array = omega (arith, length-filter_of, v.len) in
      ap (load64 (filter_of t)) e
      ∙ load64-append_right t.array (encode_fixed64 t.num_buckets)
      ∙ load64-encode_fixed64 t.num_buckets (omega (arith, v.small))

  module _ (init f₀ : ℕ) where
    bucket : ℕ → ℕ
    bucket prob = load64 t.array (begin t v (init + prob))

    in_filter :
        (prob : ℕ) → bucket_at (mod_buckets (init + prob) t.num_buckets) + 8 ≤ length t.array
    in_filter prob =
        omega
          (arith, bucket_at-eq t v (init + prob), mod-lt (init + prob) (num_buckets_pos t v), v.len)

    load-bucket :
        (prob : ℕ)
        → load64 (filter_of t) (bucket_at (mod_buckets (init + prob) t.num_buckets)) ≡ bucket prob
    unfolding bucket
    load-bucket prob =
        load64-append_left t.array (encode_fixed64 t.num_buckets)
          (bucket_at (mod_buckets (init + prob) t.num_buckets)) (in_filter prob)
        ∙ ap (load64 t.array) (bucket_at-eq t v (init + prob))

    -- Every load is inside the filter, and reads a bucket of the array.
    probe_filter-eq :
        (rounds prob : ℕ)
        → probe_filter (filter_of t) t.num_buckets init f₀ rounds prob
          ≡ some (probe_words bucket (f₀ * 16) rounds prob)
    unfolding probe_filter probe_words
    probe_filter-eq zero prob = refl
    probe_filter-eq (suc rounds) prob =
        let p = bucket_at (mod_buckets (init + prob) t.num_buckets) in
        let size : p + 8 ≤ length (filter_of t) =
          omega (arith, in_filter prob, length-append t.array (encode_fixed64 t.num_buckets)) in
        let rest = probe_filter-eq rounds (prob + 1) in
        elim (Bool-cases (hasvalue16 (bucket prob) (bit_or (f₀ * 16) prob) == 0)) [
          | inl z ↦ rw (le→ltb (length (filter_of t)) (p + 8) size, load-bucket prob, z) rest
          | inr nz ↦ rw (le→ltb (length (filter_of t)) (p + 8) size, load-bucket prob, nz)
        ]

    -- The probe answers true exactly if the array holds the fingerprint.
    probe_words-count :
        f₀ < 2 ^ 12 → (probe_words bucket (f₀ * 16) 16 0 ≡ true) ↔ (0 < count store t init f₀)
    unfolding bucket
    probe_words-count f₀-lt =
        let probed =
          probe_words_iff bucket (λ p. load64-lt t.array (begin t v (init + p)) v.bytes) f₀ f₀-lt in
        let counted = count_iff store store_laws t init f₀ v in
        let same : (d j : ℕ) → j < 4 → read_tag t (init + d) j ≡ lane (bucket d) j = λ d j j-lt.
          read_tag-eq t v (init + d) j
          ∙ mod-eq_of_lt (load16-lt t.array (begin t v (init + d) + 2 * j) v.bytes)
          ∙ sym (load64-lane t.array (begin t v (init + d)) j v.bytes j-lt) in
        (
          λ e.
              let (d, d-lt, (j, j-lt, eq)) = probed.0 e in
              counted.1 (d, d-lt, (j, j-lt, same d j j-lt ∙ eq)),
          λ p.
              let (d, d-lt, (j, j-lt, eq)) = counted.0 p in
              probed.1 (d, d-lt, (j, j-lt, sym (same d j j-lt) ∙ eq)),
        )

-- The home bucket of a hash code and its fingerprint of 12 bits.
unfoldable pub home : ℕ → ℕ → ℕ
home n hashcode = index_hash hashcode n

unfoldable pub fingerprint : ℕ → ℕ
fingerprint hashcode = tag_hash (hashcode >>> 32)

pub fingerprint_range : (h : ℕ) → (0 < fingerprint h) × (fingerprint h < 2 ^ 12)
unfolding fingerprint tag_hash
fingerprint_range h = rw (bit_and_mask 12 (u32 (h >>> 32))) (ground arith)

pub home-lt : (t : Table) (h : ℕ) → IsValid t → home t.num_buckets h < t.num_buckets
unfolding home index_hash
home-lt t h v = omega (
  arith,
  mod_buckets-eq (u32 h) t.num_buckets v.log v.power v.small,
  mod-lt (u32 h) (num_buckets_pos t v),
)

-- `KeyMayMatch` stays inside a filter that is an array with its number of buckets, and answers
-- true exactly if the array counts the key in.
pub key_may_match-count :
    (t : Table) (key : List ℕ)
    → IsValid t
    → (b : Bool) × (key_may_match key (filter_of t) ≡ some b)
      × ((b ≡ true) ↔ (
          0
          < count store t
              (home t.num_buckets (wormhole_hash key))
              (fingerprint (wormhole_hash key))))
unfolding key_may_match home fingerprint
key_may_match-count t key v =
    let h = wormhole_hash key in
    let init = index_hash h t.num_buckets in
    let f₀ = tag_hash (h >>> 32) in
    let len = length-filter_of t v in
    let pos = num_buckets_pos t v in
    let read_back : key_may_match key (filter_of t)
        ≡ probe_filter (filter_of t) t.num_buckets init f₀ 16 0 =
      rw (
        le→ltb (length (filter_of t)) 2 (omega (arith, len)),
        le→ltb (length (filter_of t)) 8 (omega (arith, len)),
        stored_num_buckets t v,
      ) in
    (
      probe_words (bucket t v init f₀) (f₀ * 16) 16 0,
      read_back ∙ probe_filter-eq t v init f₀ 16 0,
      probe_words-count t v init f₀ (fingerprint_range h).1,
    )
