-- ===== src/Leveldb/Compaction/Kept.antt =====
-- The entries that `DoCompactionWork` keeps answer as the entries that it is given.
use wormholefilters.Base.{
  ℕ, ◌≤◌, ◌<◌, ◌≡◌, Bool, true, false, Bool-cases, not, ◌&&◌, Option, some, inl, inr, List, [], ◌∷◌,
  All, refl, sym, ap, ◌∙◌, leb, leb→le,
}
use wormholefilters.Leveldb.Compaction.BaseLevel.{IsPassed, in_levels, is_base_level_for_key_iff}
use wormholefilters.Leveldb.Compaction.Reads.{
  Item, find, kept, Before, IsSortedInput, IsAnswer, same, gone, drops_same, IsReady, drops-IsReady,
  is_equal→≡, find_skip, find_kept_skip,
}
use wormholefilters.Leveldb.Compaction.{
  DeepLevel, LastKey, is_deletion, is_equal, last_sequence, drops, after_key, is_base_level_for_key,
}
use wormholefilters.Leveldb.Comparator.Order.{IsTotalOrder}
use wormholefilters.Leveldb.Comparator.{Comparator}
use wormholefilters.Leveldb.DbFormat.{ValueType, deletion, value, max_sequence_number}
use wormholefilters.Leveldb.Compaction.Hidden.{
  find_kept_hidden, after_key_sequence, older, IsOpen, after_key-some, after_key-IsOpen, not_hidden,
  found_here,
}

module _ (ucmp : Comparator) (order : IsTotalOrder ucmp.compare) (smallest : ℕ) where
  and_left : (a b : Bool) → (a && b) ≡ true → a ≡ true
  and_left true b e = refl
  and_left false b e = e

  and_right : (a b : Bool) → (a && b) ≡ true → b ≡ true
  and_right true b e = e
  and_right false b e = absurd (cc)

  not-true : (b : Bool) → not b ≡ true → b ≡ false
  not-true true e = absurd (cc)
  not-true false e = refl

  is_deletion→≡ : (t : ValueType) → is_deletion t ≡ true → t ≡ deletion
  is_deletion→≡ deletion e = refl
  is_deletion→≡ value e = absurd (cc)

  drops_kept :
      (s : LastKey) (x : Item) (levels : List DeepLevel)
      → leb (last_sequence ucmp s x.ikey) smallest ≡ false
      → (is_deletion x.ikey.type && leb x.ikey.sequence smallest) ≡ false
      → drops ucmp smallest s x.ikey levels ≡ (false, levels)
  unfolding drops
  drops_kept s x levels h f = rw (h, f)

  drops_base :
      (s : LastKey) (x : Item) (levels : List DeepLevel)
      → leb (last_sequence ucmp s x.ikey) smallest ≡ false
      → (is_deletion x.ikey.type && leb x.ikey.sequence smallest) ≡ true
      → drops ucmp smallest s x.ikey levels ≡ is_base_level_for_key ucmp x.ikey.user_key levels
  unfolding drops
  drops_base s x levels h f = rw (h, f)

  kept_here :
      (s : LastKey) (x : Item) (items : List Item) (levels : List DeepLevel)
      → (drops ucmp smallest s x.ikey levels).0 ≡ false
      → kept ucmp smallest (x ∷ items) s levels
        ≡ x
          ∷ kept ucmp smallest items
              (after_key ucmp s x.ikey)
              ((drops ucmp smallest s x.ikey levels).1)
  unfolding kept
  kept_here s x items levels e = rw e

  kept_dropped :
      (s : LastKey) (x : Item) (items : List Item) (levels : List DeepLevel)
      → (drops ucmp smallest s x.ikey levels).0 ≡ true
      → kept ucmp smallest (x ∷ items) s levels
        ≡ kept ucmp smallest items
            (after_key ucmp s x.ikey)
            ((drops ucmp smallest s x.ikey levels).1)
  unfolding kept
  kept_dropped s x items levels e = rw e

  -- An entry that is found, of a key that is open.
  found-IsAnswer :
      (k : List ℕ) (snapshot : ℕ) (x : Item) (items : List Item) (s : LastKey)
      (levels : List DeepLevel)
      → x.ikey.user_key ≡ k
      → All (Before ucmp x) items
      → IsSortedInput ucmp items
      → All (IsPassed ucmp x.ikey.user_key) levels
      → (is_equal (ucmp.compare x.ikey.user_key k) && leb x.ikey.sequence snapshot) ≡ true
      → leb (last_sequence ucmp s x.ikey) smallest ≡ false
      → IsAnswer ucmp k levels
          (find ucmp k snapshot (x ∷ items))
          (find ucmp k snapshot (kept ucmp smallest (x ∷ items) s levels))
  found-IsAnswer k snapshot x items s levels e b o p d h =
      elim (Bool-cases (is_deletion x.ikey.type && leb x.ikey.sequence smallest)) [
        | inr f ↦ same (
            ap (find ucmp k snapshot)
              (kept_here s x items levels (ap fst (drops_kept s x levels h f)))
            ∙ kept_found (
                kept ucmp smallest items (after_key ucmp s x.ikey)
                  ((drops ucmp smallest s x.ikey levels).1)))
        | inl f ↦ elim (Bool-cases ((is_base_level_for_key ucmp x.ikey.user_key levels).0)) [
          | inr g ↦ same (
              ap (find ucmp k snapshot)
                (kept_here s x items levels (ap fst (drops_base s x levels h f) ∙ g))
              ∙ kept_found (
                  kept ucmp smallest items (after_key ucmp s x.ikey)
                    ((drops ucmp smallest s x.ikey levels).1)))
          | inl g ↦
              gone x.val
                (found_here ucmp order smallest k snapshot x items d
                  ∙ ap (λ (t : ValueType). some (t, x.val))
                      (is_deletion→≡ x.ikey.type
                        (and_left (is_deletion x.ikey.type) (leb x.ikey.sequence smallest) f)))
                (ap (find ucmp k snapshot)
                    (kept_dropped s x items levels (ap fst (drops_base s x levels h f) ∙ g))
                  ∙ find_kept_hidden ucmp order smallest k snapshot items (after_key ucmp s x.ikey)
                      ((drops ucmp smallest s x.ikey levels).1)
                      (after_key-some ucmp order smallest s x ∙ ap some e)
                      (after_key_sequence ucmp order smallest s x (seen f)) o
                      (older ucmp order smallest k x items e (seen f) b))
                (ap (λ (u : List ℕ). in_levels ucmp u levels) (sym e)
                  ∙ not-true (in_levels ucmp x.ikey.user_key levels)
                      (sym ((is_base_level_for_key_iff ucmp order x.ikey.user_key levels p).0) ∙ g))
        ]
      ]
    where
      fst : Bool × List DeepLevel → Bool
      fst (b, l) = b

      kept_found :
          (rest : List Item) → find ucmp k snapshot (x ∷ rest) ≡ find ucmp k snapshot (x ∷ items)
      kept_found rest =
          found_here ucmp order smallest k snapshot x rest d
          ∙ sym (found_here ucmp order smallest k snapshot x items d)

      seen :
          (is_deletion x.ikey.type && leb x.ikey.sequence smallest) ≡ true
          → x.ikey.sequence ≤ smallest
      seen f =
          leb→le x.ikey.sequence smallest
            (and_right (is_deletion x.ikey.type) (leb x.ikey.sequence smallest) f)

  skipped :
      {k : List ℕ} {levels levels' : List DeepLevel} {a b a' b' : Option (ValueType × List ℕ)}
      → a ≡ a'
      → b ≡ b'
      → in_levels ucmp k levels' ≡ in_levels ucmp k levels
      → IsAnswer ucmp k levels' a' b'
      → IsAnswer ucmp k levels a b
  skipped p q l (same e) = same (q ∙ (e ∙ sym p))
  skipped p q l (gone v e f g) = gone v (p ∙ e) (q ∙ f) (sym l ∙ g)

  pub find_kept-IsAnswer :
      (k : List ℕ) (snapshot : ℕ) (items : List Item) (s : LastKey) (levels : List DeepLevel)
      → smallest ≤ snapshot
      → smallest < max_sequence_number
      → IsSortedInput ucmp items
      → IsReady ucmp order smallest items levels
      → IsOpen ucmp order smallest k s
      → IsAnswer ucmp k levels
          (find ucmp k snapshot items)
          (find ucmp k snapshot (kept ucmp smallest items s levels))
  find_kept-IsAnswer k snapshot [] s levels h m o r n = same (unfold kept find in refl)
  find_kept-IsAnswer k snapshot (x ∷ items) s levels h m (b, o) (p, r) n =
      elim (Bool-cases
        (is_equal (ucmp.compare x.ikey.user_key k) && leb x.ikey.sequence snapshot)) [
          | inl d ↦
              let e = is_equal→≡ ucmp order smallest x.ikey.user_key k (
                and_left (is_equal (ucmp.compare x.ikey.user_key k)) (leb x.ikey.sequence snapshot)
                  d) in
              found-IsAnswer k snapshot x items s levels e b o p d
                (not_hidden ucmp order smallest k s x m n e)
          | inr d ↦
              skipped (find_skip ucmp order smallest k snapshot x items d)
                (find_kept_skip ucmp order smallest k snapshot x items s levels d)
                (drops_same ucmp order smallest s x.ikey k levels)
                (find_kept-IsAnswer k snapshot items (after_key ucmp s x.ikey)
                  ((drops ucmp smallest s x.ikey levels).1) h m o
                  (drops-IsReady ucmp order smallest s x items levels b p)
                  (after_key-IsOpen ucmp order smallest k s x snapshot h d))
        ]
