-- ===== src/Leveldb/Compaction/Reads.antt =====
-- What the entries that are kept answer to a read at a snapshot.
use wormholefilters.Base.{
  ℕ, ◌<◌, ◌≡◌, ◌⊎◌, true, false, Bool-cases, ◌&&◌, Option, none, some, inl, inr, List, [], ◌∷◌, All,
  refl, ap, ◌∙◌, leb, if◌then◌else◌,
}
use wormholefilters.Leveldb.Compaction.BaseLevel.{
  IsPassed, in_levels, is_base_level_for_key_files, IsPassed-later, is_base_level_for_key_iff,
}
use wormholefilters.Leveldb.Compaction.{
  DeepLevel, LastKey, is_deletion, is_equal, last_sequence, drops, after_key,
}
use wormholefilters.Leveldb.Comparator.Order.{flip, IsTotalOrder}
use wormholefilters.Leveldb.Comparator.{Comparator}
use wormholefilters.Leveldb.DbFormat.{ValueType, deletion, ParsedInternalKey, is_less}
use Prim.Native.Nat.{Ordering}

-- An entry with its key parsed.
pub record Item : Type 0 where
  pub ikey : ParsedInternalKey
  pub val : List ℕ

module _ (ucmp : Comparator) where
  -- What a read of a user key at a snapshot finds: the first entry that is not newer.
  unfoldable pub find : List ℕ → ℕ → List Item → Option (ValueType × List ℕ)
  find user_key snapshot [] = none
  find user_key snapshot (x ∷ items) =
      let rest = find user_key snapshot items in
      if is_equal (ucmp.compare x.ikey.user_key user_key) && leb x.ikey.sequence snapshot
      then some (x.ikey.type, x.val)
      else rest

  -- The entries that are not dropped.
  unfoldable pub kept : ℕ → List Item → LastKey → List DeepLevel → List Item
  kept smallest [] s levels = []
  kept smallest (x ∷ items) s levels =
      let (drop, levels') = drops ucmp smallest s x.ikey levels in
      let rest = kept smallest items (after_key ucmp s x.ikey) levels' in
      if drop then rest else x ∷ rest

  -- In the order of user keys, and the newest entry of a key first.
  abbrev pub Before : Item → Item → Type 0
  Before x y =
      (ucmp.compare x.ikey.user_key y.ikey.user_key ≡ Ordering.lt)
      ⊎ ((x.ikey.user_key ≡ y.ikey.user_key) × (y.ikey.sequence < x.ikey.sequence))

  abbrev pub IsSortedInput : List Item → Type 0
  IsSortedInput [] = Unit
  IsSortedInput (x ∷ items) = All (Before x) items × IsSortedInput items

  -- The answer is the same, or it was that the key is deleted, nothing is found any more, and no file of
  -- the deeper levels has the key in its range.
  pub data IsAnswer (user_key : List ℕ) (levels : List DeepLevel)
      (before after : Option (ValueType × List ℕ)) : Type 0 where
    same : after ≡ before → IsAnswer user_key levels before after
    gone :
        (val : List ℕ)
        → before ≡ some (deletion, val)
        → after ≡ none
        → in_levels ucmp user_key levels ≡ false
        → IsAnswer user_key levels before after

  module _ (order : IsTotalOrder ucmp.compare) (smallest : ℕ) where
    pub drops_same :
        (s : LastKey) (ikey : ParsedInternalKey) (k : List ℕ) (levels : List DeepLevel)
        → in_levels ucmp k ((drops ucmp smallest s ikey levels).1) ≡ in_levels ucmp k levels
    unfolding drops
    drops_same s ikey k levels = elim (Bool-cases (leb (last_sequence ucmp s ikey) smallest)) [
      | inl e ↦ rw e
      | inr e ↦ elim (Bool-cases (is_deletion ikey.type && leb ikey.sequence smallest)) [
        | inl f ↦ rw (e, f) (is_base_level_for_key_files ucmp ikey.user_key k levels)
        | inr f ↦ rw (e, f)
      ]
    ]

    drops-IsPassed :
        (s : LastKey) (ikey : ParsedInternalKey) (levels : List DeepLevel)
        → All (IsPassed ucmp ikey.user_key) levels
        → All (IsPassed ucmp ikey.user_key) ((drops ucmp smallest s ikey levels).1)
    unfolding drops
    drops-IsPassed s ikey levels p = elim (Bool-cases (leb (last_sequence ucmp s ikey) smallest)) [
      | inl e ↦ rw e p
      | inr e ↦ elim (Bool-cases (is_deletion ikey.type && leb ikey.sequence smallest)) [
        | inl f ↦ rw (e, f) ((is_base_level_for_key_iff ucmp order ikey.user_key levels p).1)
        | inr f ↦ rw (e, f) p
      ]
    ]

    -- The pointers have passed only files that end before each of the entries.
    abbrev pub IsReady : List Item → List DeepLevel → Type 0
    IsReady items levels = All (λ (x : Item). All (IsPassed ucmp x.ikey.user_key) levels) items

    not_less :
        (x y : Item) → Before x y → is_less (ucmp.compare y.ikey.user_key x.ikey.user_key) ≡ false
    unfolding is_less
    not_less x y (inl e) = ap is_less (order.flipped x.ikey.user_key y.ikey.user_key ∙ ap flip e)
    not_less x y (inr (e, h)) =
        ap is_less (ap (ucmp.compare y.ikey.user_key) e ∙ order.same y.ikey.user_key)

    pub drops-IsReady :
        (s : LastKey) (x : Item) (items : List Item) (levels : List DeepLevel)
        → All (Before x) items
        → All (IsPassed ucmp x.ikey.user_key) levels
        → IsReady items ((drops ucmp smallest s x.ikey levels).1)
    drops-IsReady s x [] levels b p = tt
    drops-IsReady s x (y ∷ items) levels (h, b) p = (
      all_later ((drops ucmp smallest s x.ikey levels).1) (drops-IsPassed s x.ikey levels p),
      drops-IsReady s x items levels b p,
    )
      where
        all_later :
            (levels : List DeepLevel)
            → All (IsPassed ucmp x.ikey.user_key) levels
            → All (IsPassed ucmp y.ikey.user_key) levels
        all_later [] q = tt
        all_later (l ∷ levels) (q, qs) = (
          IsPassed-later ucmp order x.ikey.user_key y.ikey.user_key l (not_less x y h) q,
          all_later levels qs,
        )

    pub is_equal_same : (a b : List ℕ) → a ≡ b → is_equal (ucmp.compare a b) ≡ true
    unfolding is_less
    is_equal_same a b e =
        ap (λ (x : List ℕ). is_equal (ucmp.compare x b)) e ∙ ap is_equal (order.same b)

    is_equal→eq : (o : Ordering) → is_equal o ≡ true → o ≡ Ordering.eq
    unfolding is_less
    is_equal→eq Ordering.lt e = absurd (cc)
    is_equal→eq Ordering.eq e = refl
    is_equal→eq Ordering.gt e = absurd (cc)

    pub is_equal→≡ : (a b : List ℕ) → is_equal (ucmp.compare a b) ≡ true → a ≡ b
    is_equal→≡ a b e = order.equal a b (is_equal→eq (ucmp.compare a b) e)

    pub is_equal_less :
        (a b : List ℕ) → ucmp.compare a b ≡ Ordering.lt → is_equal (ucmp.compare b a) ≡ false
    unfolding is_less
    is_equal_less a b e = ap is_equal (order.flipped a b ∙ ap flip e)

    -- An entry of another key, or a newer one, is not found.
    pub find_skip :
        (k : List ℕ) (snapshot : ℕ) (x : Item) (items : List Item)
        → (is_equal (ucmp.compare x.ikey.user_key k) && leb x.ikey.sequence snapshot) ≡ false
        → find k snapshot (x ∷ items) ≡ find k snapshot items
    unfolding find
    find_skip k snapshot x items e = rw e

    pub find_kept_skip :
        (k : List ℕ) (snapshot : ℕ) (x : Item) (items : List Item) (s : LastKey)
        (levels : List DeepLevel)
        → (is_equal (ucmp.compare x.ikey.user_key k) && leb x.ikey.sequence snapshot) ≡ false
        → find k snapshot (kept smallest (x ∷ items) s levels)
          ≡ find k snapshot (
              kept smallest items
                (after_key ucmp s x.ikey)
                ((drops ucmp smallest s x.ikey levels).1))
    unfolding kept
    find_kept_skip k snapshot x items s levels e =
        elim (Bool-cases ((drops ucmp smallest s x.ikey levels).0)) [
          | inl d ↦ rw d
          | inr d ↦ rw d (
              find_skip k snapshot x
                (kept smallest items (after_key ucmp s x.ikey)
                  ((drops ucmp smallest s x.ikey levels).1))
                e)
        ]

    -- Behind all entries of a key nothing is found.
    pub find_kept_past :
        (k : List ℕ) (snapshot : ℕ) (items : List Item) (s : LastKey) (levels : List DeepLevel)
        → All (λ (x : Item). ucmp.compare k x.ikey.user_key ≡ Ordering.lt) items
        → find k snapshot (kept smallest items s levels) ≡ none
    find_kept_past k snapshot [] s levels a = unfold kept find in refl
    find_kept_past k snapshot (x ∷ items) s levels (e, a) =
        find_kept_skip k snapshot x items s levels (rw (is_equal_less k x.ikey.user_key e))
        ∙ find_kept_past k snapshot items (after_key ucmp s x.ikey)
            ((drops ucmp smallest s x.ikey levels).1) a
