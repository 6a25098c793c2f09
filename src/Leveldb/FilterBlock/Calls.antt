-- ===== src/Leveldb/FilterBlock/Calls.antt =====
-- The calls of `FilterBlockBuilder` of leveldb/table/filter_block.cc, in the order filter_block.h asks for,
-- on a builder as a list of groups of keys.
use mathlib.Core.List.{append_assoc, append-nil}
use wormholefilters.Base.{
  ℕ, zero, suc, ◌+◌, ◌/◌, ◌^◌, ◌<◌, ◌≤◌, ◌≡◌, ◌⊎◌, inl, inr, true, Option, none, some, List, [],
  ◌∷◌, ◌++◌, All, refl, sym, ap, ◌∙◌, arith, length, length-append, subst,
}
use wormholefilters.Leveldb.FilterBlock.Builder.{IsFaithful, starts}
use wormholefilters.Leveldb.FilterBlock.Bytes.{block_of, end_block-block_of}
use wormholefilters.Leveldb.FilterBlock.Groups.{
  Has, At, At-append, At-pending, At-generated, Matched, Builds, add_key-Builds,
}
use wormholefilters.Leveldb.FilterBlock.Started.{generate_filter-Builds, start_block-IsStarted}
use wormholefilters.Leveldb.FilterBlock.{
  FilterPolicy, FilterBlockBuilder, add_key, start_block, finish,
}

-- The calls of `AddKey` behind a call of `StartBlock`.
unfoldable pub add_keys : FilterBlockBuilder → List (List ℕ) → FilterBlockBuilder
add_keys b [] = b
add_keys b (key ∷ keys) = add_keys (add_key b key) keys

-- "(StartBlock AddKey*)*": an offset and the keys of each block.
unfoldable pub add_blocks :
    FilterPolicy → FilterBlockBuilder → List (ℕ × List (List ℕ)) → Option FilterBlockBuilder
add_blocks policy b [] = some b
add_blocks policy b ((offset, keys) ∷ blocks) = elim (start_block policy b offset) [
  | none ↦ none
  | some b' ↦ add_blocks policy (add_keys b' keys) blocks
]

abbrev pub new_builder : FilterBlockBuilder
new_builder = record { keys = []; start = []; result = []; filter_offsets = [] }

-- "(StartBlock AddKey*)* Finish"
unfoldable pub build : FilterPolicy → List (ℕ × List (List ℕ)) → Option (List ℕ)
build policy blocks = elim (add_blocks policy new_builder blocks) [
  | none ↦ none
  | some b ↦ finish policy b
]

-- The offsets do not descend from this one on.
abbrev pub IsAscending : ℕ → List (ℕ × List (List ℕ)) → Type 0
IsAscending n [] = Unit
IsAscending n ((offset, keys) ∷ blocks) = (n ≤ offset) × IsAscending offset blocks

unfoldable pub count_keys : List (ℕ × List (List ℕ)) → ℕ
count_keys [] = 0
count_keys ((offset, keys) ∷ blocks) = length keys + count_keys blocks

-- The key was added in the block of this offset.
abbrev pub IsAdded : List (ℕ × List (List ℕ)) → ℕ → List ℕ → Type 0
IsAdded [] offset key = ⊥
IsAdded ((o, keys) ∷ blocks) offset key = ((o ≡ offset) × Has key keys) ⊎ IsAdded blocks offset key

module _ (policy : FilterPolicy) where
  add_keys-Builds :
      (b : FilterBlockBuilder) (groups : List (List (List ℕ))) (pending keys : List (List ℕ))
      → Builds policy b groups pending
      → Builds policy (add_keys b keys) groups (pending ++ keys)
  unfolding add_keys
  add_keys-Builds b groups pending [] s =
      subst (λ (p : List (List ℕ)). Builds policy b groups p) (sym (append-nil pending)) s
  add_keys-Builds b groups pending (key ∷ keys) s =
      subst (λ (p : List (List ℕ)). Builds policy (add_keys (add_key b key) keys) groups p)
        (append_assoc pending (key ∷ []) keys)
        (add_keys-Builds (add_key b key) groups (pending ++ (key ∷ [])) keys
          (add_key-Builds policy b groups pending key s))

  -- The filter of a group.
  Matched-At :
      (groups : List (List (List ℕ))) (filters : List (List ℕ)) (i : ℕ) (key : List ℕ)
      → Matched policy groups filters
      → At groups [] i key
      → (before : List (List ℕ)) × (f : List ℕ) × (after : List (List ℕ)) × (filters
          ≡ before ++ (f ∷ after))
        × (length before ≡ i)
        × (policy.key_may_match key f ≡ some true)
  Matched-At [] filters zero key m h = absurd h
  Matched-At [] filters (suc i) key m h = absurd h
  Matched-At (g ∷ groups) [] i key m h = absurd m
  Matched-At (g ∷ groups) (f ∷ filters) zero key (all, m) h =
      ([], f, filters, refl, refl, All-Has g key all h)
    where
      All-Has :
          (g : List (List ℕ)) (key : List ℕ)
          → All (λ (k : List ℕ). policy.key_may_match k f ≡ some true) g
          → Has key g
          → policy.key_may_match key f ≡ some true
      All-Has [] key all h = absurd h
      All-Has (k ∷ g) key (a, all) (inl e) = ap (λ (k : List ℕ). policy.key_may_match k f) e ∙ a
      All-Has (k ∷ g) key (a, all) (inr h) = All-Has g key all h
  Matched-At (g ∷ groups) (f ∷ filters) (suc i) key (all, m) h =
      let (before, f', after, parts, n, found) = Matched-At groups filters i key m h in
      (f ∷ before, f', after, ap (◌∷◌ f) parts, ap suc n, found)

  -- What the calls give: every key is in the group of its offset.
  pub record IsFilled (groups : List (List (List ℕ))) (pending : List (List ℕ))
      (blocks : List (ℕ × List (List ℕ))) (result : Option FilterBlockBuilder) : Type 0 where
    pub builder : FilterBlockBuilder
    pub done : List (List (List ℕ))
    pub left : List (List ℕ)
    pub returned : result ≡ some builder
    pub builds : Builds policy builder done left
    pub fewer : length left ≤ length pending + count_keys blocks
    pub keeps : (i : ℕ) (k : List ℕ) → At groups pending i k → At done left i k
    pub finds :
        (offset : ℕ) (k : List ℕ) → IsAdded blocks offset k → At done left (offset / 2 ^ 11) k

  -- What `Finish` gives.
  pub finish-Builds :
      (b : FilterBlockBuilder) (groups : List (List (List ℕ))) (pending : List (List ℕ))
      → IsFaithful policy
      → length pending < 2 ^ 31
      → Builds policy b groups pending
      → (filters : List (List ℕ)) × (finish policy b ≡ some (block_of filters))
        × ((i : ℕ) (key : List ℕ)
            → At groups pending i key
            → (before : List (List ℕ)) × (f : List ℕ) × (after : List (List ℕ)) × (filters
                ≡ before ++ (f ∷ after))
              × (length before ≡ i)
              × (policy.key_may_match key f ≡ some true))
  unfolding finish starts
  finish-Builds b groups [] faithful h s = (
    s.filters,
    rw (s.start, finish) (ap some (end_block-block_of policy b groups [] s)),
    λ i key at. Matched-At groups s.filters i key s.matched at,
  )
  finish-Builds b groups (k ∷ ks) faithful h s =
      let (b', generated, s') = generate_filter-Builds policy faithful b groups (k ∷ ks) h s in
      (
        s'.filters,
        rw (s.start, finish, generated)
            (ap some (end_block-block_of policy b' (groups ++ ((k ∷ ks) ∷ [])) [] s')),
        λ i key at.
            Matched-At (groups ++ ((k ∷ ks) ∷ [])) s'.filters i key s'.matched
              (At-generated groups (k ∷ ks) i key at),
      )

  add_blocks_step :
      (b b' : FilterBlockBuilder) (offset : ℕ) (keys : List (List ℕ))
      (blocks : List (ℕ × List (List ℕ)))
      → start_block policy b offset ≡ some b'
      → add_blocks policy b ((offset, keys) ∷ blocks) ≡ add_blocks policy (add_keys b' keys) blocks
  unfolding add_blocks
  add_blocks_step b b' offset keys blocks e = rw (add_blocks, e) refl

  finds_cons :
      (offset : ℕ) (keys : List (List ℕ)) (blocks : List (ℕ × List (List ℕ)))
      (done : List (List (List ℕ))) (left : List (List ℕ)) (all : List (List (List ℕ)))
      (last : List (List ℕ))
      → length done ≡ offset / 2 ^ 11
      → ((i : ℕ) (k : List ℕ) → At done (left ++ keys) i k → At all last i k)
      → ((o : ℕ) (k : List ℕ) → IsAdded blocks o k → At all last (o / 2 ^ 11) k)
      → (o : ℕ) (k : List ℕ) → IsAdded ((offset, keys) ∷ blocks) o k
      → At all last (o / 2 ^ 11) k
  finds_cons offset keys blocks done left all last reached keeps finds o k (inl (e, h)) =
      subst (λ (i : ℕ). At all last i k) (reached ∙ ap (λ (m : ℕ). m / 2 ^ 11) e)
        (keeps (length done) k (At-pending done left keys k h))
  finds_cons offset keys blocks done left all last reached keeps finds o k (inr h) = finds o k h

  pub add_blocks-IsFilled :
      (blocks : List (ℕ × List (List ℕ))) (b : FilterBlockBuilder) (groups : List (List (List ℕ)))
      (pending : List (List ℕ)) (n : ℕ)
      → IsFaithful policy
      → IsAscending n blocks
      → length groups ≤ n / 2 ^ 11
      → length pending + count_keys blocks < 2 ^ 31
      → Builds policy b groups pending
      → IsFilled groups pending blocks (add_blocks policy b blocks)
  unfolding add_blocks count_keys
  add_blocks-IsFilled [] b groups pending n faithful ascends l few s = record {
    builder = b;
    done = groups;
    left = pending;
    returned = refl;
    builds = s;
    fewer = omega arith;
    keeps = λ i k at. at;
    finds = λ offset k added. absurd added;
  }
  add_blocks-IsFilled ((offset, keys) ∷ blocks) b groups pending n faithful (up, ascends) l few s =
      let t =
        start_block-IsStarted policy faithful b offset groups pending (omega (arith, l, up))
          (omega (arith, few)) s in
      let longer = length-append t.left keys in
      let rest =
        add_blocks-IsFilled blocks (add_keys t.builder keys) t.done (t.left ++ keys) offset faithful
          ascends (omega (arith, t.reached)) (omega (arith, longer, t.fewer, few))
          (add_keys-Builds t.builder t.done t.left keys t.builds) in
      record {
        builder = rest.builder;
        done = rest.done;
        left = rest.left;
        returned = add_blocks_step b t.builder offset keys blocks t.returned ∙ rest.returned;
        builds = rest.builds;
        fewer = omega (arith, rest.fewer, longer, t.fewer);
        keeps = λ i k at. rest.keeps i k (At-append t.done t.left keys i k (t.keeps i k at));
        finds =
            finds_cons offset keys blocks t.done t.left rest.done rest.left t.reached rest.keeps
              rest.finds;
      }

  pub build-some :
      (blocks : List (ℕ × List (List ℕ))) (b : FilterBlockBuilder) (contents : List ℕ)
      → add_blocks policy new_builder blocks ≡ some b
      → finish policy b ≡ some contents
      → build policy blocks ≡ some contents
  unfolding build
  build-some blocks b contents added finished = rw (build, added) finished
