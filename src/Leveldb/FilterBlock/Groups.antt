-- ===== src/Leveldb/FilterBlock/Groups.antt =====
-- `FilterBlockBuilder` of leveldb/table/filter_block.cc as a list of groups of keys, of which each has its
-- filter, and the keys that have none yet.
use wormholefilters.Base.{
  ℕ, zero, suc, ◌≡◌, ◌⊎◌, inl, inr, true, some, List, [], ◌∷◌, ◌++◌, map, All, refl, ap, ap₂, ◌∙◌,
  u32, length,
}
use wormholefilters.Leveldb.FilterBlock.Builder.{joined, starts, joined_more, starts_more}
use wormholefilters.Leveldb.FilterBlock.{FilterPolicy, FilterBlockBuilder, add_key}

-- A key is one of a group.
abbrev pub Has : List ℕ → List (List ℕ) → Type 0
Has k [] = ⊥
Has k (x ∷ xs) = (k ≡ x) ⊎ Has k xs

-- A key is in a group, the last of which has no filter yet.
abbrev pub At : List (List (List ℕ)) → List (List ℕ) → ℕ → List ℕ → Type 0
At [] pending zero k = Has k pending
At [] pending (suc i) k = ⊥
At (g ∷ groups) pending zero k = Has k g
At (g ∷ groups) pending (suc i) k = At groups pending i k

Has-append_left : (k : List ℕ) (xs ys : List (List ℕ)) → Has k xs → Has k (xs ++ ys)
Has-append_left k (x ∷ xs) ys (inl e) = inl e
Has-append_left k (x ∷ xs) ys (inr h) = inr (Has-append_left k xs ys h)
Has-append_left k [] ys h = absurd h

Has-append_right : (k : List ℕ) (xs ys : List (List ℕ)) → Has k ys → Has k (xs ++ ys)
Has-append_right k [] ys h = h
Has-append_right k (x ∷ xs) ys h = inr (Has-append_right k xs ys h)

-- The pending keys get their filter.
pub At-generated :
    (groups : List (List (List ℕ))) (pending : List (List ℕ)) (i : ℕ) (k : List ℕ)
    → At groups pending i k
    → At (groups ++ (pending ∷ [])) [] i k
At-generated [] pending zero k h = h
At-generated [] pending (suc i) k h = absurd h
At-generated (g ∷ groups) pending zero k h = h
At-generated (g ∷ groups) pending (suc i) k h = At-generated groups pending i k h

pub At-append :
    (groups : List (List (List ℕ))) (pending keys : List (List ℕ)) (i : ℕ) (k : List ℕ)
    → At groups pending i k
    → At groups (pending ++ keys) i k
At-append [] pending keys zero k h = Has-append_left k pending keys h
At-append [] pending keys (suc i) k h = absurd h
At-append (g ∷ groups) pending keys zero k h = h
At-append (g ∷ groups) pending keys (suc i) k h = At-append groups pending keys i k h

pub At-pending :
    (groups : List (List (List ℕ))) (pending keys : List (List ℕ)) (k : List ℕ)
    → Has k keys
    → At groups (pending ++ keys) (length groups) k
At-pending [] pending keys k h = Has-append_right k pending keys h
At-pending (g ∷ groups) pending keys k h = At-pending groups pending keys k h

module _ (policy : FilterPolicy) where
  -- Each filter matches the keys of its group.
  abbrev pub Matched : List (List (List ℕ)) → List (List ℕ) → Type 0
  Matched [] [] = Unit
  Matched [] (f ∷ filters) = ⊥
  Matched (g ∷ groups) [] = ⊥
  Matched (g ∷ groups) (f ∷ filters) =
      All (λ (k : List ℕ). policy.key_may_match k f ≡ some true) g × Matched groups filters

  pub length-Matched :
      (groups : List (List (List ℕ))) (filters : List (List ℕ))
      → Matched groups filters
      → length filters ≡ length groups
  length-Matched [] [] m = refl
  length-Matched [] (f ∷ filters) m = absurd m
  length-Matched (g ∷ groups) [] m = absurd m
  length-Matched (g ∷ groups) (f ∷ filters) (p, m) = ap suc (length-Matched groups filters m)

  pub Matched-append :
      (groups : List (List (List ℕ))) (filters : List (List ℕ)) (g : List (List ℕ)) (f : List ℕ)
      → Matched groups filters
      → All (λ (k : List ℕ). policy.key_may_match k f ≡ some true) g
      → Matched (groups ++ (g ∷ [])) (filters ++ (f ∷ []))
  Matched-append [] [] g f m p = (p, tt)
  Matched-append [] (f' ∷ filters) g f m p = absurd m
  Matched-append (g' ∷ groups) [] g f m p = absurd m
  Matched-append (g' ∷ groups) (f' ∷ filters) g f (q, m) p =
      (q, Matched-append groups filters g f m p)

  -- The builder stands for groups that have their filters and for keys that have none yet.
  pub record Builds (b : FilterBlockBuilder) (groups : List (List (List ℕ)))
      (pending : List (List ℕ)) : Type 0 where
    pub filters : List (List ℕ)
    pub matched : Matched groups filters
    pub result : b.result ≡ joined filters
    pub offsets : b.filter_offsets ≡ map u32 (starts 0 filters)
    pub keys : b.keys ≡ joined pending
    pub start : b.start ≡ starts 0 pending

  pub add_key-Builds :
      (b : FilterBlockBuilder) (groups : List (List (List ℕ))) (pending : List (List ℕ))
      (key : List ℕ)
      → Builds b groups pending
      → Builds (add_key b key) groups (pending ++ (key ∷ []))
  unfolding add_key
  add_key-Builds b groups pending key s = record {
    filters = s.filters;
    matched = s.matched;
    result = s.result;
    offsets = s.offsets;
    keys = ap (λ (l : List ℕ). l ++ key) s.keys ∙ joined_more pending key;
    start = ap₂ ◌++◌ s.start (ap (λ (l : List ℕ). length l ∷ []) s.keys) ∙ starts_more pending key;
  }
