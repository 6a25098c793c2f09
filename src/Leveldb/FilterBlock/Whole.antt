-- ===== src/Leveldb/FilterBlock/Whole.antt =====
-- The whole life of a filter block of leveldb/table/filter_block.cc: what `FilterBlockBuilder` writes,
-- `FilterBlockReader` reads.
use mathlib.Core.List.{append_assoc}
use wormholefilters.Base.{
  ℕ, ◌/◌, ◌^◌, ◌<◌, ◌≡◌, true, some, List, [], ◌∷◌, ◌++◌, All, refl, sym, ap, ◌∙◌, arith, length,
  drop, drop_append, subst,
}
use wormholefilters.Leveldb.Bloom
use wormholefilters.Leveldb.Bloom.{new_policy, create_filter}
use wormholefilters.Leveldb.Bloom.Laws.{key_may_match-create_filter}
use wormholefilters.Leveldb.FilterBlock.Builder.{IsFaithful, joined, starts}
use wormholefilters.Leveldb.FilterBlock.Bytes.{block_of}
use wormholefilters.Leveldb.FilterBlock.Found.{key_may_match-block_of}
use wormholefilters.Leveldb.FilterBlock.Groups.{Builds}
use wormholefilters.Leveldb.FilterBlock.{
  FilterPolicy, FilterBlockReader, bloom_policy, new_reader, key_may_match,
}
use wormholefilters.Leveldb.FilterBlock.Calls.{
  new_builder, build, IsAscending, count_keys, IsAdded, finish-Builds, add_blocks-IsFilled,
  build-some,
}

-- No false negatives of the filter block, for a policy that has none: for a sequence of calls
-- `(StartBlock AddKey*)* Finish` on a new builder, where the block offsets do not descend and fewer than
-- 2 ^ 31 keys are added, `Finish` returns a block; where this block is shorter than 2 ^ 32 bytes,
-- `KeyMayMatch` of a reader of it answers true on every key at the block offset under which it was added.
pub key_may_match-build :
    (policy : FilterPolicy) (blocks : List (ℕ × List (List ℕ))) (block_offset : ℕ) (key : List ℕ)
    → IsFaithful policy
    → IsAscending 0 blocks
    → count_keys blocks < 2 ^ 31
    → ((contents : List ℕ) → build policy blocks ≡ some contents → length contents < 2 ^ 32)
    → IsAdded blocks block_offset key
    → (contents : List ℕ) × (build policy blocks ≡ some contents)
      × ((r : FilterBlockReader) × (new_reader contents ≡ some r)
          × (key_may_match policy r block_offset key ≡ some true))
unfolding count_keys starts joined
key_may_match-build policy blocks block_offset key faithful ascends few short added =
    let begun : Builds policy new_builder [] [] = record {
      filters = [];
      matched = tt;
      result = refl;
      offsets = refl;
      keys = refl;
      start = refl;
    } in
    let t =
      add_blocks-IsFilled policy blocks new_builder [] [] 0 faithful ascends (omega arith)
        (omega (arith, few)) begun in
    let (filters, finished, found) =
      finish-Builds policy t.builder t.done t.left faithful (omega (arith, t.fewer, few))
        t.builds in
    let (before, f, after, parts, n, matches) =
      found (block_offset / 2 ^ 11) key (t.finds block_offset key added) in
    let built : build policy blocks ≡ some (block_of (before ++ (f ∷ after))) =
      build-some policy blocks t.builder (block_of filters) t.returned finished
      ∙ ap (λ (l : List (List ℕ)). some (block_of l)) parts in
    let (r, read, same) =
      key_may_match-block_of before f after (short (block_of (before ++ (f ∷ after))) built) policy
        block_offset key (sym n) in
    (block_of (before ++ (f ∷ after)), built, (r, read, same ∙ matches))

-- What holds of every element of a list, wherever it stands.
All-parts :
    (P : List ℕ → Type 0) (xs : List (List ℕ))
    → ((front : List (List ℕ)) (x : List ℕ) (back : List (List ℕ)) → xs ≡ front ++ (x ∷ back) → P x)
    → (front rest : List (List ℕ)) → xs ≡ front ++ rest
    → All P rest
All-parts P xs each front [] e = tt
All-parts P xs each front (x ∷ rest) e = (
  each front x rest e,
  All-parts P xs each (front ++ (x ∷ [])) rest (e ∙ sym (append_assoc front (x ∷ []) rest)),
)

-- The Bloom filter policy keeps the contract.
pub bloom_policy-IsFaithful :
    (bits_per_key : ℕ) → bits_per_key < 2 ^ 31 → IsFaithful (bloom_policy bits_per_key)
bloom_policy-IsFaithful bits_per_key h = record {
  made = λ k ks dst small.
      let policy = new_policy bits_per_key in
      let (filter, made, found) = key_may_match-create_filter bits_per_key [] k ks dst h small in
      let finds =
        λ (front : List (List ℕ)) (x : List ℕ) (back : List (List ℕ))
            (e : (k ∷ ks) ≡ front ++ (x ∷ back)).
          let (filter', made', found') =
            key_may_match-create_filter bits_per_key front x back dst h
              (subst (λ (l : List (List ℕ)). length l < 2 ^ 31) e small) in
          let whole : dst ++ filter' ≡ dst ++ filter =
            sym made' ∙ (ap (λ (l : List (List ℕ)). create_filter policy l dst) (sym e) ∙ made) in
          let same : filter' ≡ filter =
            sym (drop_append dst filter')
            ∙ (ap (drop (length dst)) whole ∙ drop_append dst filter) in
          ap (λ (l : List ℕ). some (Bloom.key_may_match x l)) (sym same) ∙ ap some found' in
      (
        filter,
        ap some made,
        All-parts (λ (j : List ℕ). some (Bloom.key_may_match j filter) ≡ some true) (k ∷ ks) finds
            [] (k ∷ ks) refl,
      );
}
