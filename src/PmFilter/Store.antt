-- ===== src/PmFilter/Store.antt =====
-- The accesses to the tag array keep the filter well formed and change one tag.
use native.Mathlib.Decide.{ℕ_discrete}
use native.Mathlib.Nat.{mod-lt, mod-mod}
use wormholefilters.Base.{
  ℕ, zero, suc, ◌%◌, ◌^◌, ◌≤◌, ◌<◌, ◌≡◌, ◌≢◌, ◌⊎◌, inl, inr, refl, ap, ◌∙◌, arith, List, [], ◌∷◌,
  length, get_or, set, length-set, get_or-set_self, get_or-set_ne,
}
use wormholefilters.PmFilter.Words.{lane-set_lane_self, lane-set_lane_ne, set_lane-lt}
use wormholefilters.PmFilter.{Filter, set_lane, read_tag, write_tag, pm_write_tag, store}
use wormholefilters.Probe.Laws.{IsWrite, StoreLaws}
use wormholefilters.Swar.{lane}

-- `buckets_` and its durable image are arrays of `num_buckets_` words of 64 bits.
pub record IsValid (f : Filter) : Type 0 where
  pub pos : 0 < f.num_buckets
  pub small : f.num_buckets ≤ 2 ^ 31
  pub len : length f.buckets ≡ f.num_buckets
  pub durable_len : length f.durable ≡ f.num_buckets
  pub words : (i : ℕ) → get_or f.buckets i 0 < 2 ^ 64
  pub durable_words : (i : ℕ) → get_or f.durable i 0 < 2 ^ 64

get_or-set_lt :
    (ws : List ℕ) (i v : ℕ)
    → v < 2 ^ 64
    → ((k : ℕ) → get_or ws k 0 < 2 ^ 64)
    → (k : ℕ) → get_or (set ws i v) k 0 < 2 ^ 64
get_or-set_lt [] i v v-lt all k = omega arith
get_or-set_lt (x ∷ xs) zero v v-lt all zero = v-lt
get_or-set_lt (x ∷ xs) zero v v-lt all (suc k) = all (suc k)
get_or-set_lt (x ∷ xs) (suc i) v v-lt all zero = all zero
get_or-set_lt (x ∷ xs) (suc i) v v-lt all (suc k) = get_or-set_lt xs i v v-lt (λ m. all (suc m)) k

module _ (f : Filter) (i j t : ℕ) (v : IsValid f) (j-lt : j < 4) where
  -- The word that a write stores.
  abbrev stored : ℕ
  stored = set_lane (get_or f.buckets (i % f.num_buckets) 0) j t

  stored-lt : stored < 2 ^ 64
  stored-lt = set_lane-lt (get_or f.buckets (i % f.num_buckets) 0) j t j-lt (v.words _)

  write_tag-IsValid : IsValid (write_tag f i j t)
  unfolding write_tag
  write_tag-IsValid = record {
    pos = v.pos;
    small = v.small;
    len = length-set f.buckets (i % f.num_buckets) stored ∙ v.len;
    durable_len = v.durable_len;
    words = get_or-set_lt f.buckets (i % f.num_buckets) stored stored-lt v.words;
    durable_words = v.durable_words;
  }

  pm_write_tag-IsValid : IsValid (pm_write_tag f i j t)
  unfolding pm_write_tag
  pm_write_tag-IsValid = record {
    pos = v.pos;
    small = v.small;
    len = length-set f.buckets (i % f.num_buckets) stored ∙ v.len;
    durable_len = length-set f.durable (i % f.num_buckets) stored ∙ v.durable_len;
    words = get_or-set_lt f.buckets (i % f.num_buckets) stored stored-lt v.words;
    durable_words = get_or-set_lt f.durable (i % f.num_buckets) stored stored-lt v.durable_words;
  }

  write_tag_self : read_tag (write_tag f i j t) i j ≡ t % 2 ^ 16
  unfolding write_tag read_tag
  write_tag_self =
      let w = get_or f.buckets (i % f.num_buckets) 0 in
      let in_range : i % f.num_buckets < length f.buckets = rw v.len (mod-lt i v.pos) in
      ap (λ (x : ℕ). lane x j) (get_or-set_self f.buckets (i % f.num_buckets) stored 0 in_range)
      ∙ lane-set_lane_self w j t j-lt

  module _ (i' j' : ℕ) (j'-lt : j' < 4)
      (apart : (i % f.num_buckets ≢ i' % f.num_buckets) ⊎ (j ≢ j')) where
    write_tag_ne : read_tag (write_tag f i j t) i' j' ≡ read_tag f i' j'
    unfolding write_tag read_tag
    write_tag_ne = elim (ℕ_discrete (i % f.num_buckets) (i' % f.num_buckets)) [
      | no ne ↦
          ap (λ (x : ℕ). lane x j')
            (get_or-set_ne f.buckets (i % f.num_buckets) (i' % f.num_buckets) stored 0 ne)
      | yes e ↦
          let w = get_or f.buckets (i % f.num_buckets) 0 in
          let in_range : i % f.num_buckets < length f.buckets = rw v.len (mod-lt i v.pos) in
          rw (← e) (
            ap (λ (x : ℕ). lane x j')
              (get_or-set_self f.buckets (i % f.num_buckets) stored 0 in_range)
            ∙ lane-set_lane_ne w j j' t j-lt j'-lt (other e apart))
    ]
      where
        other :
            i % f.num_buckets ≡ i' % f.num_buckets
            → (i % f.num_buckets ≢ i' % f.num_buckets) ⊎ (j ≢ j')
            → j ≢ j'
        other e (inl ne) = absurd (ne e)
        other e (inr ne) = ne

-- The durable image is not read: a write that is made safe reads like one that is not.
pm_write_tag-read :
    (f : Filter) (i j t i' j' : ℕ)
    → read_tag (pm_write_tag f i j t) i' j' ≡ read_tag (write_tag f i j t) i' j'
unfolding pm_write_tag write_tag read_tag
pm_write_tag-read f i j t i' j' = refl

pub write-IsWrite : IsWrite store IsValid write_tag
unfolding write_tag
write-IsWrite = record {
  keeps-IsValid = write_tag-IsValid;
  keeps-num_buckets = λ f i j t. refl;
  read_self = write_tag_self;
  read_ne = λ f i j t i' j' v j-lt j'-lt apart. write_tag_ne f i j t v j-lt i' j' j'-lt apart;
}

pub kick-IsWrite : IsWrite store IsValid pm_write_tag
unfolding pm_write_tag
kick-IsWrite = record {
  keeps-IsValid = pm_write_tag-IsValid;
  keeps-num_buckets = λ f i j t. refl;
  read_self = λ f i j t v j-lt. pm_write_tag-read f i j t i j ∙ write_tag_self f i j t v j-lt;
  read_ne = λ f i j t i' j' v j-lt j'-lt apart.
      pm_write_tag-read f i j t i' j' ∙ write_tag_ne f i j t v j-lt i' j' j'-lt apart;
}

pub read_tag-lt : (f : Filter) (i j : ℕ) → read_tag f i j < 2 ^ 16
unfolding read_tag
read_tag-lt f i j = omega arith

pub read_tag-mod :
    (f : Filter) (i j : ℕ) → IsValid f → read_tag f (i % f.num_buckets) j ≡ read_tag f i j
unfolding read_tag
read_tag-mod f i j v = rw (mod-mod i f.num_buckets)

abbrev pub store_laws : StoreLaws store
store_laws = record {
  IsValid = IsValid;
  pos = λ f v. v.pos;
  small = λ f v. v.small;
  read-lt = read_tag-lt;
  read-mod = read_tag-mod;
  write = write-IsWrite;
  kick = kick-IsWrite;
}
