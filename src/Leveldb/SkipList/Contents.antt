-- ===== src/Leveldb/SkipList/Contents.antt =====
-- A skip list against the sorted list of its keys.
use wormholefilters.Base.{
  ℕ, ◌≤◌, ◌<◌, ◌≡◌, ◌≢◌, true, false, lt→ltb, Option, none, some, List, [], ◌∷◌, ◌++◌, All, refl,
  sym, ap, ◌∙◌, arith, subst, if◌then◌else◌,
}
use wormholefilters.Leveldb.Comparator.Order.{flip, IsStrictOrder}
use wormholefilters.Leveldb.Comparator.{Comparator}
use wormholefilters.Leveldb.DbFormat.{is_less}
use wormholefilters.Leveldb.SkipList.Chains.{Tower, level, last, first_of}
use wormholefilters.Leveldb.SkipList.Find.{
  ids, Represents, Parted, parted, part, find_greater_or_equal-IsFoundKey,
}
use wormholefilters.Leveldb.SkipList.Insert.{
  new, old_keys, new_key, inside_left, inside_right, insert_after-Represents,
}
use wormholefilters.Leveldb.SkipList.{seek, new_skip_list, SkipList, insert_after, insert}
use wormholefilters.Leveldb.VersionSet.FindFile.{is_less→lt}
use Prim.Native.Nat.{Ordering}
use wormholefilters.Leveldb.SkipList.Towers.{keys, keys-append, keys_same, All-right}

module _ (cmp : Comparator) where
  -- A key in its place in a sorted list.
  unfoldable pub insert_key : List ℕ → List (List ℕ) → List (List ℕ)
  insert_key key [] = key ∷ []
  insert_key key (k ∷ ks) =
      let rest = insert_key key ks in
      if is_less (cmp.compare k key) then k ∷ rest else key ∷ (k ∷ ks)

  -- The first key of the list that is not before a key.
  unfoldable pub first_from : List ℕ → List (List ℕ) → Option (List ℕ)
  first_from key [] = none
  first_from key (k ∷ ks) = if is_less (cmp.compare k key) then first_from key ks else some k

  unfoldable pub key_at : (ℕ → List ℕ) → Option ℕ → Option (List ℕ)
  key_at key_of none = none
  key_at key_of (some n) = some (key_of n)

  module _ (s : SkipList) (key : List ℕ) where
    insert_key_parted :
        (a b : List Tower)
        → All (λ (t : Tower). is_less (cmp.compare (s.key t.id) key) ≡ true) a
        → All (λ (t : Tower). is_less (cmp.compare (s.key t.id) key) ≡ false) b
        → insert_key key (keys s.key a ++ keys s.key b) ≡ keys s.key a ++ (key ∷ keys s.key b)
    unfolding insert_key keys
    insert_key_parted [] [] p q = refl
    insert_key_parted [] (t ∷ b) p (e, q) = rw e
    insert_key_parted (t ∷ a) b (e, p) q = rw e (ap (◌∷◌ (s.key t.id)) (insert_key_parted a b p q))

    first_from_parted :
        (a b : List Tower)
        → All (λ (t : Tower). is_less (cmp.compare (s.key t.id) key) ≡ true) a
        → All (λ (t : Tower). is_less (cmp.compare (s.key t.id) key) ≡ false) b
        → first_from key (keys s.key a ++ keys s.key b) ≡ key_at s.key (first_of (ids b))
    unfolding first_from keys key_at ids
    first_from_parted [] [] p q = refl
    first_from_parted [] (t ∷ b) p (e, q) = rw e
    first_from_parted (t ∷ a) b (e, p) q = rw e (first_from_parted a b p q)

    level_zero :
        (h : ℕ) (b : List Tower)
        → All (λ (t : Tower). (0 < t.height) × (t.height ≤ h)) b
        → level 0 b ≡ ids b
    unfolding level ids
    level_zero h [] p = refl
    level_zero h (t ∷ b) ((z, l), p) = rw (lt→ltb 0 t.height z, level_zero h b p)

    ahead_of_key :
        (a : List Tower)
        → All (λ (t : Tower). is_less (cmp.compare (s.key t.id) key) ≡ true) a
        → All (λ (t : Tower). cmp.compare (s.key t.id) key ≡ Ordering.lt) a
    ahead_of_key [] p = tt
    ahead_of_key (t ∷ a) (e, p) = (is_less→lt (cmp.compare (s.key t.id) key) e, ahead_of_key a p)

  module _ (order : IsStrictOrder cmp.compare) where
    flipped_gt : (o : Ordering) → is_less o ≡ false → o ≢ Ordering.eq → flip o ≡ Ordering.lt
    unfolding is_less
    flipped_gt Ordering.lt e n = absurd (cc)
    flipped_gt Ordering.eq e n = absurd (n refl)
    flipped_gt Ordering.gt e n = refl

    behind_key :
        (s : SkipList) (key : List ℕ) (b : List Tower)
        → All (λ (t : Tower). is_less (cmp.compare (s.key t.id) key) ≡ false) b
        → All (λ (t : Tower). cmp.compare (s.key t.id) key ≢ Ordering.eq) b
        → All (λ (t : Tower). cmp.compare key (s.key t.id) ≡ Ordering.lt) b
    behind_key s key [] p n = tt
    behind_key s key (t ∷ b) (e, p) (m, n) = (
      order.flipped (s.key t.id) key ∙ flipped_gt (cmp.compare (s.key t.id) key) e m,
      behind_key s key b p n,
    )

    -- What `Insert` gives.
    pub record IsInserted (s : SkipList) (towers : List Tower) (key : List ℕ)
        (result : Option SkipList) : Type 0 where
      pub inserted : SkipList
      pub nodes : List Tower
      pub returned : result ≡ some inserted
      pub represents : Represents cmp inserted nodes
      pub contents : keys inserted.key nodes ≡ insert_key key (keys s.key towers)

    contents_lem :
        (s : SkipList) (key : List ℕ) (a b : List Tower) (r : Represents cmp s (a ++ b))
        → (prev : ℕ → ℕ) (before : (i : ℕ) → i < s.max_height → prev i ≡ last 0 (level i a))
        → keys (insert_after s key prev).key (a ++ (new cmp s key a b r prev before ∷ b))
          ≡ keys s.key a ++ (key ∷ keys s.key b)
    unfolding keys
    contents_lem s key a b r prev before =
        let k = (insert_after s key prev).key in
        keys-append k a (new cmp s key a b r prev before ∷ b)
        ∙ rw (
          new_key cmp s key a b r prev before,
          keys_same s.key k a
              (old_keys cmp s key a b r prev before a (inside_left cmp s key a b r prev before)),
          keys_same s.key k b
              (old_keys cmp s key a b r prev before b (inside_right cmp s key a b r prev before)),
        )

    inserted_lem :
        (s : SkipList) (key : List ℕ) (a b : List Tower)
        → Represents cmp s (a ++ b)
        → All (λ (t : Tower). is_less (cmp.compare (s.key t.id) key) ≡ true) a
        → All (λ (t : Tower). is_less (cmp.compare (s.key t.id) key) ≡ false) b
        → All (λ (t : Tower). cmp.compare (s.key t.id) key ≢ Ordering.eq) b
        → IsInserted s (a ++ b) key (insert s cmp key)
    unfolding insert
    inserted_lem s key a b r p q n =
        let f = find_greater_or_equal-IsFoundKey cmp order s key (a ++ b) a b r refl p q in
        record {
          inserted = insert_after s key f.prev;
          nodes = a ++ (new cmp s key a b r f.prev f.last_before ∷ b);
          returned = rw (insert, f.returned);
          represents =
              insert_after-Represents cmp s key a b r f.prev f.last_before (ahead_of_key s key a p)
                (behind_key s key b q n);
          contents =
              contents_lem s key a b r f.prev f.last_before
              ∙ sym (ap (insert_key key) (keys-append s.key a b) ∙ insert_key_parted s key a b p q);
        }

    IsInserted-Parted :
        (s : SkipList) (key : List ℕ) (towers : List Tower)
        → Represents cmp s towers
        → All (λ (t : Tower). cmp.compare (s.key t.id) key ≢ Ordering.eq) towers
        → Parted cmp order s key towers
        → IsInserted s towers key (insert s cmp key)
    IsInserted-Parted s key towers r n (parted a b e p q) =
        subst (λ (towers : List Tower). IsInserted s towers key (insert s cmp key)) (sym e)
          (inserted_lem s key a b (subst (Represents cmp s) e r) p q (
            All-right (λ (t : Tower). cmp.compare (s.key t.id) key ≢ Ordering.eq) a b
              (subst (All (λ (t : Tower). cmp.compare (s.key t.id) key ≢ Ordering.eq)) e n)))

    -- For a strict order: on a skip list that stands for nodes in the order of their keys, `Insert` of a key
    -- that equals none of them ends and gives a skip list that stands for nodes with the same keys and the
    -- new one in its place.
    pub insert-IsInserted :
        (s : SkipList) (key : List ℕ) (towers : List Tower)
        → Represents cmp s towers
        → All (λ (t : Tower). cmp.compare (s.key t.id) key ≢ Ordering.eq) towers
        → IsInserted s towers key (insert s cmp key)
    insert-IsInserted s key towers r n =
        IsInserted-Parted s key towers r n (part cmp order s key towers r.sorted)

    seek-Parted :
        (s : SkipList) (key : List ℕ) (towers : List Tower)
        → Represents cmp s towers
        → Parted cmp order s key towers
        → (n : Option ℕ) × (seek s cmp key ≡ some n)
          × (key_at s.key n ≡ first_from key (keys s.key towers))
    unfolding seek
    seek-Parted s key towers r (parted a b e p q) =
        let f = find_greater_or_equal-IsFoundKey cmp order s key towers a b r e p q in
        let high =
          All-right (λ (t : Tower). (0 < t.height) × (t.height ≤ s.max_height)) a b
            (subst (All (λ (t : Tower). (0 < t.height) × (t.height ≤ s.max_height))) e r.heights) in
        (
          first_of (level 0 b),
          rw (seek, f.returned),
          ap (λ (ys : List ℕ). key_at s.key (first_of ys)) (level_zero s key s.max_height b high)
              ∙ sym (
                  ap (λ (t : List Tower). first_from key (keys s.key t)) e
                  ∙ (ap (first_from key) (keys-append s.key a b)
                      ∙ first_from_parted s key a b p q)),
        )

    -- For a strict order: on a skip list that stands for nodes in the order of their keys, `Seek` ends at the
    -- first key that is not before the target, or at none if all are before it.
    pub seek-first_from :
        (s : SkipList) (key : List ℕ) (towers : List Tower)
        → Represents cmp s towers
        → (n : Option ℕ) × (seek s cmp key ≡ some n)
          × (key_at s.key n ≡ first_from key (keys s.key towers))
    seek-first_from s key towers r =
        seek-Parted s key towers r (part cmp order s key towers r.sorted)

  -- A new skip list stands for no nodes.
  pub new_skip_list-Represents : Represents cmp new_skip_list []
  new_skip_list-Represents = record {
    chains = λ i. unfold level in refl;
    sorted = tt;
    heights = tt;
    inside = tt;
    distinct = unfold ids in tt;
    count = refl;
    tall = omega arith;
  }
