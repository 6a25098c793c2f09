-- ===== src/Probe/Laws.antt =====
-- What the insertion loop asks of the tag array: a bucket index counts modulo the number of
-- buckets, and a write changes one slot.
use wormholefilters.Base.{ℕ, ◌%◌, ◌^◌, ◌≤◌, ◌<◌, ◌≡◌, ◌≢◌, ◌⊎◌}
use wormholefilters.Probe.{Store}

pub record IsWrite (st : Store) (IsValid : st.State → Type 0) (op : st.State → ℕ → ℕ → ℕ → st.State)
    : Type 0 where
  pub keeps-IsValid : (s : st.State) (i j t : ℕ) → IsValid s → j < 4 → IsValid (op s i j t)
  pub keeps-num_buckets :
      (s : st.State) (i j t : ℕ) → st.num_buckets (op s i j t) ≡ st.num_buckets s
  pub read_self :
      (s : st.State) (i j t : ℕ) → IsValid s → j < 4 → st.read_tag (op s i j t) i j ≡ t % 2 ^ 16
  pub read_ne :
      (s : st.State) (i j t i' j' : ℕ)
      → IsValid s
      → j < 4
      → j' < 4
      → (i % st.num_buckets s ≢ i' % st.num_buckets s) ⊎ (j ≢ j')
      → st.read_tag (op s i j t) i' j' ≡ st.read_tag s i' j'

pub record StoreLaws (st : Store) : Type 1 where
  pub IsValid : st.State → Type 0
  pub pos : (s : st.State) → IsValid s → 0 < st.num_buckets s
  pub small : (s : st.State) → IsValid s → st.num_buckets s ≤ 2 ^ 31
  pub read-lt : (s : st.State) (i j : ℕ) → st.read_tag s i j < 2 ^ 16
  pub read-mod :
      (s : st.State) (i j : ℕ)
      → IsValid s
      → st.read_tag s (i % st.num_buckets s) j ≡ st.read_tag s i j
  pub write : IsWrite st IsValid st.write_tag
  pub kick : IsWrite st IsValid st.kick_tag
