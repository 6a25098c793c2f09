-- ===== src/Leveldb/SkipList/Insert.antt =====
-- `Insert` and `Contains` on a skip list that stands for the sorted list of its nodes.
use native.Mathlib.Decide.{dec_lt}
use wormholefilters.Base.{
  ℕ, ◌≤◌, ◌<◌, ◌≡◌, ◌≢◌, lt→ltb, le→leb, lt→leb, List, [], ◌∷◌, ◌++◌, All, sym, ap, ◌∙◌, arith,
  length-append, subst, ==_refl, ne→==,
}
use wormholefilters.Leveldb.Comparator.{Comparator}
use wormholefilters.Leveldb.SkipList.Chains.{
  Tower, level, IsChain, last, level-append, level-high, level-low, IsChain-same, IsFresh,
  IsDistinct, IsChain-insert,
}
use wormholefilters.Leveldb.SkipList.Find.{ids, Represents}
use wormholefilters.Leveldb.SkipList.Link.{IsLinked, link-IsLinked}
use wormholefilters.Leveldb.SkipList.{SkipList, link, prev_for, random_height, insert_after}
use Prim.Native.Nat.{Ordering}
use wormholefilters.Leveldb.SkipList.Towers.{
  random_height_positive, level-All, level-IsDistinct, map_All, low, last_All, IsDistinct-insert,
  ids-append, All-left, All-right, All-insert, IsSorted-keys, IsSorted-insert,
}

module _ (cmp : Comparator) where
  module _ (s : SkipList) (key : List ℕ) (a b : List Tower) (r : Represents cmp s (a ++ b))
      (prev : ℕ → ℕ) (before : (i : ℕ) → i < s.max_height → prev i ≡ last 0 (level i a)) where
    abbrev pub new : Tower
    new = record { id = s.size; height = (random_height s.rnd).0 }

    abbrev prev' : ℕ → ℕ
    prev' = prev_for s prev new.height

    prev_for-last : (i : ℕ) → i < new.height → prev' i ≡ last 0 (level i a)
    unfolding prev_for
    prev_for-last i lt = elim (dec_lt i s.max_height) [
      | yes h ↦ rw (lt→leb i s.max_height h) (before i h)
      | no h ↦
          rw (le→leb s.max_height i (omega (arith, h)), lt→ltb i new.height lt)
            (unfold last in
              ap (last 0) (
                sym (
                  low i a (
                    map_All a (λ t p. omega (arith, (p).1, h))
                      (All-left (λ (t : Tower). (0 < t.height) × (t.height ≤ s.max_height)) a b
                        r.heights)))))
    ]

    size_positive : 0 < s.size
    size_positive = omega (arith, r.count)

    prev_inside : (i : ℕ) → i < new.height → prev' i < s.size
    prev_inside i lt =
        subst (λ (n : ℕ). n < s.size) (sym (prev_for-last i lt))
          (last_All (λ (n : ℕ). n < s.size) 0 (level i a) size_positive
            (level-All (λ (n : ℕ). n < s.size) i a
              (map_All a (λ t p. (p).1)
                (All-left (λ (t : Tower). (0 < t.id) × (t.id < s.size)) a b r.inside))))

    linked : IsLinked s prev' new.height (link s prev' new.height)
    linked =
        link-IsLinked s prev' new.height (λ i lt e. absurd (omega (arith, prev_inside i lt, e)))

    chains_insert : (i : ℕ) → IsChain (link s prev' new.height) i 0 (level i (a ++ (new ∷ b)))
    chains_insert i = elim (dec_lt i new.height) [
      | yes lt ↦
          subst (IsChain (link s prev' new.height) i 0)
            (sym (level-append i a (new ∷ b) ∙ ap (◌++◌ (level i a)) (level-high i new b lt)))
            (IsChain-insert s.next (link s prev' new.height) i s.size 0 (level i a) (level i b)
              (linked.new i lt ∙ ap (λ (q : ℕ). s.next q i) (prev_for-last i lt))
              (ap (λ (q : ℕ). link s prev' new.height q i) (sym (prev_for-last i lt))
                ∙ linked.before i lt)
              (λ q m n. linked.others i q lt (λ e. m (e ∙ prev_for-last i lt)) n)
              (
                nodes (λ (ys : List ℕ). IsFresh 0 ys) i
                    (level-All (λ (n : ℕ). n ≢ 0) i (a ++ b)
                      (map_All (a ++ b) (λ t p e. absurd (omega (arith, (p).0, e))) r.inside)),
                nodes IsDistinct i (level-IsDistinct i (a ++ b) r.distinct),
              )
              (
                (λ e. absurd (omega (arith, size_positive, e))),
                nodes (λ (ys : List ℕ). IsFresh s.size ys) i
                    (level-All (λ (n : ℕ). n ≢ s.size) i (a ++ b)
                      (map_All (a ++ b) (λ t p e. absurd (omega (arith, (p).1, e))) r.inside)),
              )
              (nodes (IsChain s.next i 0) i (r.chains i)))
      | no le ↦
          subst (IsChain (link s prev' new.height) i 0)
            (level-append i a b
              ∙ sym (
                  level-append i a (new ∷ b)
                  ∙ ap (◌++◌ (level i a)) (level-low i new b (omega (arith, le)))))
            (IsChain-same s.next (link s prev' new.height) i 0 (level i (a ++ b))
              (λ q e. linked.higher i q (omega (arith, le)))
              (all_same (level i (a ++ b)) (omega (arith, le))) (r.chains i))
    ]
      where
        nodes : (P : List ℕ → Type 0) (i : ℕ) → P (level i (a ++ b)) → P (level i a ++ level i b)
        nodes P i p = subst P (level-append i a b) p

        all_same :
            (ys : List ℕ)
            → new.height ≤ i
            → All (λ (y : ℕ). link s prev' new.height y i ≡ s.next y i) ys
        all_same [] le = tt
        all_same (y ∷ ys) le = (linked.higher i y le, all_same ys le)

    -- The skip list after the insertion.
    abbrev pub after : SkipList
    after = insert_after s key prev

    pub old_keys :
        (towers : List Tower)
        → All (λ (t : Tower). (0 < t.id) × (t.id < s.size)) towers
        → All (λ (t : Tower). after.key t.id ≡ s.key t.id) towers
    unfolding insert_after
    old_keys [] p = tt
    old_keys (t ∷ towers) ((z, h), p) =
        (rw (ne→== t.id s.size (λ e. absurd (omega (arith, h, e)))), old_keys towers p)

    pub new_key : after.key s.size ≡ key
    unfolding insert_after
    new_key = rw (==_refl s.size)

    pub inside_left : All (λ (t : Tower). (0 < t.id) × (t.id < s.size)) a
    inside_left = All-left (λ (t : Tower). (0 < t.id) × (t.id < s.size)) a b r.inside

    pub inside_right : All (λ (t : Tower). (0 < t.id) × (t.id < s.size)) b
    inside_right = All-right (λ (t : Tower). (0 < t.id) × (t.id < s.size)) a b r.inside

    keys_less :
        (towers : List Tower)
        → All (λ (t : Tower). after.key t.id ≡ s.key t.id) towers
        → All (λ (t : Tower). cmp.compare (s.key t.id) key ≡ Ordering.lt) towers
        → All (λ (t : Tower). cmp.compare (after.key t.id) (after.key s.size) ≡ Ordering.lt) towers
    keys_less [] e p = tt
    keys_less (t ∷ towers) (e, es) (p, ps) = (rw (e, new_key) p, keys_less towers es ps)

    keys_greater :
        (towers : List Tower)
        → All (λ (t : Tower). after.key t.id ≡ s.key t.id) towers
        → All (λ (t : Tower). cmp.compare key (s.key t.id) ≡ Ordering.lt) towers
        → All (λ (t : Tower). cmp.compare (after.key s.size) (after.key t.id) ≡ Ordering.lt) towers
    keys_greater [] e p = tt
    keys_greater (t ∷ towers) (e, es) (p, ps) = (rw (e, new_key) p, keys_greater towers es ps)

    heights_kept :
        (towers : List Tower)
        → All (λ (t : Tower). (0 < t.height) × (t.height ≤ s.max_height)) towers
        → All (λ (t : Tower). (0 < t.height) × (t.height ≤ after.max_height)) towers
    unfolding insert_after
    heights_kept [] p = tt
    heights_kept (t ∷ towers) ((z, h), p) = ((z, ground (arith, h)), heights_kept towers p)

    inside_kept :
        (towers : List Tower)
        → All (λ (t : Tower). (0 < t.id) × (t.id < s.size)) towers
        → All (λ (t : Tower). (0 < t.id) × (t.id < after.size)) towers
    unfolding insert_after
    inside_kept [] p = tt
    inside_kept (t ∷ towers) ((z, h), p) = ((z, omega (arith, h)), inside_kept towers p)

    ids-IsFresh :
        (towers : List Tower)
        → All (λ (t : Tower). (0 < t.id) × (t.id < s.size)) towers
        → IsFresh s.size (ids towers)
    unfolding ids
    ids-IsFresh [] p = tt
    ids-IsFresh (t ∷ towers) ((z, h), p) =
        ((λ e. absurd (omega (arith, h, e))), ids-IsFresh towers p)

    pub insert_after-Represents :
        All (λ (t : Tower). cmp.compare (s.key t.id) key ≡ Ordering.lt) a
        → All (λ (t : Tower). cmp.compare key (s.key t.id) ≡ Ordering.lt) b
        → Represents cmp after (a ++ (new ∷ b))
    unfolding ids
    insert_after-Represents p q = record {
      chains = λ i. unfold insert_after in chains_insert i;
      sorted =
          IsSorted-insert cmp after.key a new b (keys_less a (old_keys a inside_left) p)
            (keys_greater b (old_keys b inside_right) q)
            (IsSorted-keys cmp s.key after.key (a ++ b) (old_keys (a ++ b) r.inside) r.sorted);
      heights =
          All-insert (λ (t : Tower). (0 < t.height) × (t.height ≤ after.max_height)) a new b
            (random_height_positive s.rnd, (unfold insert_after in (ground arith)))
            (heights_kept (a ++ b) r.heights);
      inside =
          All-insert (λ (t : Tower). (0 < t.id) × (t.id < after.size)) a new b
            (size_positive, (unfold insert_after in (omega arith))) (inside_kept (a ++ b) r.inside);
      distinct = subst IsDistinct (sym (ids-append a (new ∷ b))) (
          IsDistinct-insert (ids a) s.size (ids b)
            (subst (IsFresh s.size) (ids-append a b) (ids-IsFresh (a ++ b) r.inside))
            (subst IsDistinct (ids-append a b) r.distinct));
      count =
          unfold insert_after in
          (omega (arith, r.count, length-append a (new ∷ b), length-append a b));
      tall = unfold insert_after in (ground (arith, r.tall, random_height_positive s.rnd));
    }
