-- ===== src/PmFilter/Init.antt =====
-- `pmwormholefilter_init`: the filter that it leaves in the root.
use native.Mathlib.Nat.{zero-div}
use wormholefilters.Base.{
  ℕ, ◌*◌, ◌%◌, ◌^◌, ◌≤◌, ◌<◌, ◌≡◌, ap, ◌∙◌, arith, length-replicate, get_or-replicate,
}
use wormholefilters.PmFilter.Keys.{home, fingerprint, fingerprint_pos, copies}
use wormholefilters.PmFilter.Store.{IsValid}
use wormholefilters.PmFilter.{buckets_for, new_filter, read_tag, store}
use wormholefilters.Probe.Count.{count-empty}
use wormholefilters.Swar.{lane}

pub new_filter-IsValid : (m : ℕ) → 4 ≤ m → m < 2 ^ 32 → IsValid (new_filter m)
unfolding new_filter
new_filter-IsValid m ge lt =
    let n = buckets_for m in
    record {
      pos = omega arith;
      small = omega arith;
      len = length-replicate n 0;
      durable_len = length-replicate n 0;
      words = λ i. rw (get_or-replicate {A = ℕ} n i 0) (omega arith);
      durable_words = λ i. rw (get_or-replicate {A = ℕ} n i 0) (omega arith);
    }

new_filter-read_tag : (m i j : ℕ) → read_tag (new_filter m) i j ≡ 0
unfolding new_filter read_tag
new_filter-read_tag m i j =
    ap (λ (w : ℕ). lane w j) (get_or-replicate {A = ℕ} (buckets_for m) (i % buckets_for m) 0)
    ∙ zero_lane j
  where
    zero_lane : (j : ℕ) → lane 0 j ≡ 0
    zero_lane j = rw (zero-div (2 ^ (16 * j)))

pub copies-new_filter : (m key : ℕ) → copies (new_filter m) key ≡ 0
unfolding copies
copies-new_filter m key =
    count-empty store (new_filter m) (home (new_filter m).num_buckets key) (fingerprint key)
      (fingerprint_pos key) (new_filter-read_tag m)
