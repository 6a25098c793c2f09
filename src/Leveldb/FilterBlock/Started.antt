-- ===== src/Leveldb/FilterBlock/Started.antt =====
-- `GenerateFilter` and `StartBlock` of leveldb/table/filter_block.cc on groups of keys.
use mathlib.Core.List.{append-nil, map-append}
use wormholefilters.Base.{
  ℕ, zero, suc, ◌+◌, ◌/◌, ◌^◌, ◌<◌, ◌≤◌, ◌≡◌, inl, inr, Bool-cases, ltb, ltb→lt, ltb→le, Option,
  some, List, [], ◌∷◌, ◌++◌, map, refl, sym, ap, ap₂, ◌∙◌, arith, u32, length, length-append,
}
use wormholefilters.Leveldb.FilterBlock.Builder.{
  IsFaithful, joined, starts, tmp_keys-ends, joined_more, starts_more, starts_end,
}
use wormholefilters.Leveldb.FilterBlock.{
  FilterPolicy, FilterBlockBuilder, tmp_keys, generate_filter, generate_until, start_block,
}
use wormholefilters.Leveldb.FilterBlock.Groups.{
  At, At-generated, length-Matched, Matched-append, Builds,
}

module _ (policy : FilterPolicy) where
  generated_offsets :
      (b : FilterBlockBuilder) (groups : List (List (List ℕ))) (pending : List (List ℕ))
      (f : List ℕ) (s : Builds policy b groups pending)
      → b.filter_offsets ++ (u32 (length b.result) ∷ [])
        ≡ map u32 (starts 0 (s.filters ++ (f ∷ [])))
  generated_offsets b groups pending f s =
      ap₂ ◌++◌ s.offsets (ap (λ (l : List ℕ). u32 (length l) ∷ []) s.result)
      ∙ (sym (map-append u32 (starts 0 s.filters) (length (joined s.filters) ∷ []))
          ∙ ap (map u32) (starts_more s.filters f))

  generate_filter-some :
      (b : FilterBlockBuilder) (x : ℕ) (xs result : List ℕ)
      → b.start ≡ x ∷ xs
      → policy.create_filter (tmp_keys b.keys (b.start ++ (length b.keys ∷ []))) b.result
        ≡ some result
      → generate_filter policy b
        ≡ some (record {
          keys = [];
          start = [];
          result = result;
          filter_offsets = b.filter_offsets ++ (u32 (length b.result) ∷ []);
        })
  unfolding generate_filter
  generate_filter-some b x xs result e h = rw (e, generate_filter, h)

  module _ (faithful : IsFaithful policy) where
    -- `GenerateFilter` makes a filter for the keys that have none.
    pub generate_filter-Builds :
        (b : FilterBlockBuilder) (groups : List (List (List ℕ))) (pending : List (List ℕ))
        → length pending < 2 ^ 31
        → Builds policy b groups pending
        → (b' : FilterBlockBuilder) × (generate_filter policy b ≡ some b')
          × Builds policy b' (groups ++ (pending ∷ [])) []
    unfolding generate_filter starts joined
    generate_filter-Builds b groups [] h s = (
      record b { filter_offsets = b.filter_offsets ++ (u32 (length b.result) ∷ []) },
      rw (s.start, generate_filter)
          (ap
            (λ (l : List ℕ). some (record b {
              start = l;
              filter_offsets = b.filter_offsets ++ (u32 (length b.result) ∷ []);
            }))
            s.start),
      record {
        filters = s.filters ++ ([] ∷ []);
        matched = Matched-append policy groups s.filters [] [] s.matched tt;
        result = s.result ∙ (sym (append-nil (joined s.filters)) ∙ joined_more s.filters []);
        offsets = generated_offsets b groups [] [] s;
        keys = s.keys;
        start = s.start;
      },
    )
    generate_filter-Builds b groups (k ∷ ks) h s =
        let (f, made, matches) = faithful.made k ks b.result h in
        let cut : tmp_keys b.keys (b.start ++ (length b.keys ∷ [])) ≡ k ∷ ks =
          ap₂ tmp_keys s.keys
            (ap₂ ◌++◌ s.start (ap (λ (l : List ℕ). length l ∷ []) s.keys) ∙ starts_end (k ∷ ks))
          ∙ tmp_keys-ends [] (k ∷ ks) in
        (
          record {
            keys = [];
            start = [];
            result = b.result ++ f;
            filter_offsets = b.filter_offsets ++ (u32 (length b.result) ∷ []);
          },
          generate_filter-some b 0 (starts (0 + length k) ks) (b.result ++ f) s.start
              (ap (λ (l : List (List ℕ)). policy.create_filter l b.result) cut ∙ made),
          record {
            filters = s.filters ++ (f ∷ []);
            matched = Matched-append policy groups s.filters (k ∷ ks) f s.matched matches;
            result = ap (λ (l : List ℕ). l ++ f) s.result ∙ joined_more s.filters f;
            offsets = generated_offsets b groups (k ∷ ks) f s;
            keys = refl;
            start = refl;
          },
        )

    length-offsets :
        (b : FilterBlockBuilder) (groups : List (List (List ℕ))) (pending : List (List ℕ))
        → Builds policy b groups pending
        → length b.filter_offsets ≡ length groups
    unfolding starts
    length-offsets b groups pending s =
        ap length s.offsets
        ∙ (length-map_starts 0 s.filters ∙ length-Matched policy groups s.filters s.matched)
      where
        length-map_starts :
            (n : ℕ) (xs : List (List ℕ)) → length (map u32 (starts n xs)) ≡ length xs
        length-map_starts n [] = refl
        length-map_starts n (x ∷ xs) = ap suc (length-map_starts (n + length x) xs)

    -- What `StartBlock` gives, for a number of filters.
    pub record IsStarted (groups : List (List (List ℕ))) (pending : List (List ℕ)) (count : ℕ)
        (result : Option FilterBlockBuilder) : Type 0 where
      pub builder : FilterBlockBuilder
      pub done : List (List (List ℕ))
      pub left : List (List ℕ)
      pub returned : result ≡ some builder
      pub builds : Builds policy builder done left
      pub reached : length done ≡ count
      pub fewer : length left ≤ length pending
      pub keeps : (i : ℕ) (k : List ℕ) → At groups pending i k → At done left i k

    -- The loop of `StartBlock`.
    generate_until-IsStarted :
        (fuel filter_index : ℕ) (b : FilterBlockBuilder) (groups : List (List (List ℕ)))
        (pending : List (List ℕ))
        → length groups ≤ filter_index
        → filter_index < length groups + fuel
        → length pending < 2 ^ 31
        → Builds policy b groups pending
        → IsStarted groups pending filter_index (generate_until policy fuel filter_index b)
    unfolding generate_until
    generate_until-IsStarted zero filter_index b groups pending l h p s =
        absurd (omega (arith, l, h))
    generate_until-IsStarted (suc fuel) filter_index b groups pending l h p s =
        let n = length-offsets b groups pending s in
        elim (Bool-cases (ltb (length b.filter_offsets) filter_index)) [
          | inr enough ↦ record {
            builder = b;
            done = groups;
            left = pending;
            returned = rw (enough, generate_until);
            builds = s;
            reached = omega (arith, n, l, ltb→le (length b.filter_offsets) filter_index enough);
            fewer = omega arith;
            keeps = λ i k a. a;
          }
          | inl more ↦
              let (b', generated, s') = generate_filter-Builds b groups pending p s in
              let longer = length-append groups (pending ∷ []) in
              let rest =
                generate_until-IsStarted fuel filter_index b' (groups ++ (pending ∷ [])) []
                  (omega (arith, longer, n, ltb→lt (length b.filter_offsets) filter_index more))
                  (omega (arith, longer, h)) (omega arith) s' in
              record {
                builder = rest.builder;
                done = rest.done;
                left = rest.left;
                returned = rw (more, generate_until, generated) rest.returned;
                builds = rest.builds;
                reached = rest.reached;
                fewer = omega (arith, rest.fewer);
                keeps = λ i k a. rest.keeps i k (At-generated groups pending i k a);
              }
        ]

    pub start_block-IsStarted :
        (b : FilterBlockBuilder) (block_offset : ℕ) (groups : List (List (List ℕ)))
        (pending : List (List ℕ))
        → length groups ≤ block_offset / 2 ^ 11
        → length pending < 2 ^ 31
        → Builds policy b groups pending
        → IsStarted groups pending (block_offset / 2 ^ 11) (start_block policy b block_offset)
    unfolding start_block
    start_block-IsStarted b block_offset groups pending l p s =
        generate_until-IsStarted (suc (block_offset / 2 ^ 11)) (block_offset / 2 ^ 11) b groups
          pending l (omega arith) p s
