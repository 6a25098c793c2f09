-- ===== src/Leveldb/Compaction/Hidden.antt =====
-- The entries of a key behind one that `DoCompactionWork` of leveldb/db/db_impl.cc keeps.
use wormholefilters.Base.{
  ℕ, ◌≤◌, ◌<◌, ◌≡◌, ◌⊎◌, true, false, Bool-cases, ◌&&◌, Option, none, some, inl, inr, List, [], ◌∷◌,
  All, refl, sym, ap, ◌∙◌, arith, leb, le→leb, lt→leb, leb→lt, if◌then◌else◌, subst,
}
use wormholefilters.Leveldb.Compaction.Reads.{
  Item, find, kept, Before, IsSortedInput, is_equal_same, is_equal→≡, find_kept_past,
}
use wormholefilters.Leveldb.Compaction.{
  DeepLevel, LastKey, is_equal, is_same_key, last_sequence, drops, after_key,
}
use wormholefilters.Leveldb.Comparator.Order.{IsTotalOrder}
use wormholefilters.Leveldb.Comparator.{Comparator}
use wormholefilters.Leveldb.DbFormat.{ParsedInternalKey, max_sequence_number}
use Prim.Native.Nat.{Ordering}

module _ (ucmp : Comparator) (order : IsTotalOrder ucmp.compare) (smallest : ℕ) where
  last_sequence_same :
      (s : LastKey) (ikey : ParsedInternalKey)
      → is_same_key ucmp s.current_user_key ikey.user_key ≡ true
      → (last_sequence ucmp s ikey ≡ s.last_sequence_for_key)
        × ((after_key ucmp s ikey).current_user_key ≡ s.current_user_key)
  unfolding last_sequence after_key
  last_sequence_same s ikey e = (rw e, rw e)

  past :
      (k : List ℕ) (x : Item) (items : List Item)
      → ucmp.compare k x.ikey.user_key ≡ Ordering.lt
      → All (Before ucmp x) items
      → All (λ (y : Item). ucmp.compare k y.ikey.user_key ≡ Ordering.lt) items
  past k x [] e b = tt
  past k x (y ∷ items) e (inl f, b) =
      (order.trans k x.ikey.user_key y.ikey.user_key e f, past k x items e b)
  past k x (y ∷ items) e (inr (f, h), b) =
      (subst (λ (u : List ℕ). ucmp.compare k u ≡ Ordering.lt) f e, past k x items e b)

  pub after_key_sequence :
      (s : LastKey) (x : Item)
      → x.ikey.sequence ≤ smallest
      → (after_key ucmp s x.ikey).last_sequence_for_key ≤ smallest
  unfolding after_key
  after_key_sequence s x l = l

  kept_hidden :
      (s : LastKey) (x : Item) (items : List Item) (levels : List DeepLevel)
      → leb (last_sequence ucmp s x.ikey) smallest ≡ true
      → kept ucmp smallest (x ∷ items) s levels
        ≡ kept ucmp smallest items (after_key ucmp s x.ikey) levels
  unfolding kept drops
  kept_hidden s x items levels e = rw e

  -- The entries of a key behind one that every snapshot sees are all dropped.
  pub find_kept_hidden :
      (k : List ℕ) (snapshot : ℕ) (items : List Item) (s : LastKey) (levels : List DeepLevel)
      → s.current_user_key ≡ some k
      → s.last_sequence_for_key ≤ smallest
      → IsSortedInput ucmp items
      → All
          (λ (x : Item).
            (ucmp.compare k x.ikey.user_key ≡ Ordering.lt)
            ⊎ ((k ≡ x.ikey.user_key) × (x.ikey.sequence ≤ smallest)))
          items
      → find ucmp k snapshot (kept ucmp smallest items s levels) ≡ none
  find_kept_hidden k snapshot [] s levels c h o a = unfold kept find in refl
  find_kept_hidden k snapshot (x ∷ items) s levels c h (b, o) (inl e, a) =
      find_kept_past ucmp order smallest k snapshot (x ∷ items) s levels (e, past k x items e b)
  find_kept_hidden k snapshot (x ∷ items) s levels c h (b, o) (inr (e, l), a) =
      let here : is_same_key ucmp s.current_user_key x.ikey.user_key ≡ true =
        rw c (is_equal_same ucmp order smallest x.ikey.user_key k (sym e)) in
      let (last, current) = last_sequence_same s x.ikey here in
      ap (find ucmp k snapshot) (
        kept_hidden s x items levels
          (ap (λ (n : ℕ). leb n smallest) last ∙ le→leb s.last_sequence_for_key smallest h))
      ∙ find_kept_hidden k snapshot items (after_key ucmp s x.ikey) levels (current ∙ c)
          (after_key_sequence s x l) o a

  -- Behind an entry of the key, an entry of the key is older.
  pub older :
      (k : List ℕ) (x : Item) (items : List Item)
      → x.ikey.user_key ≡ k
      → x.ikey.sequence ≤ smallest
      → All (Before ucmp x) items
      → All
          (λ (y : Item).
            (ucmp.compare k y.ikey.user_key ≡ Ordering.lt)
            ⊎ ((k ≡ y.ikey.user_key) × (y.ikey.sequence ≤ smallest)))
          items
  older k x [] e h b = tt
  older k x (y ∷ items) e h (inl f, b) = (
    inl (subst (λ (u : List ℕ). ucmp.compare u y.ikey.user_key ≡ Ordering.lt) e f),
    older k x items e h b,
  )
  older k x (y ∷ items) e h (inr (f, g), b) =
      (inr (sym e ∙ f, omega (arith, g, h)), older k x items e h b)

  -- The key is not one of which every snapshot has seen an entry.
  abbrev pub IsOpen : List ℕ → LastKey → Type 0
  IsOpen k s = is_same_key ucmp s.current_user_key k ≡ true → smallest < s.last_sequence_for_key

  pub after_key-some :
      (s : LastKey) (x : Item) → (after_key ucmp s x.ikey).current_user_key ≡ some x.ikey.user_key
  unfolding after_key
  after_key-some s x = by_current s.current_user_key
    where
      by_current :
          (c : Option (List ℕ))
          → (if is_same_key ucmp c x.ikey.user_key then c else some x.ikey.user_key)
            ≡ some x.ikey.user_key
      by_current none = refl
      by_current (some c) = elim (Bool-cases (is_equal (ucmp.compare x.ikey.user_key c))) [
        | inl e ↦ rw e (ap some (sym (is_equal→≡ ucmp order smallest x.ikey.user_key c e)))
        | inr e ↦ rw e
      ]

  -- An entry that is newer than the snapshot leaves its key open.
  pub after_key-IsOpen :
      (k : List ℕ) (s : LastKey) (x : Item) (snapshot : ℕ)
      → smallest ≤ snapshot
      → (is_equal (ucmp.compare x.ikey.user_key k) && leb x.ikey.sequence snapshot) ≡ false
      → IsOpen k (after_key ucmp s x.ikey)
  unfolding after_key
  after_key-IsOpen k s x snapshot h e i =
      let i' : is_equal (ucmp.compare k x.ikey.user_key) ≡ true =
        ap (λ (c : Option (List ℕ)). is_same_key ucmp c k) (sym (after_key-some s x)) ∙ i in
      let e' =
        is_equal_same ucmp order smallest x.ikey.user_key k
          (sym (is_equal→≡ ucmp order smallest k x.ikey.user_key i')) in
      newer (rw e' at e)
    where
      newer : leb x.ikey.sequence snapshot ≡ false → smallest < x.ikey.sequence
      newer f = omega (arith, leb→lt x.ikey.sequence snapshot f, h)

  pub not_hidden :
      (k : List ℕ) (s : LastKey) (x : Item)
      → smallest < max_sequence_number
      → IsOpen k s
      → x.ikey.user_key ≡ k
      → leb (last_sequence ucmp s x.ikey) smallest ≡ false
  unfolding last_sequence
  not_hidden k s x m n e = elim (Bool-cases (is_same_key ucmp s.current_user_key x.ikey.user_key)) [
    | inl i ↦ rw i (
        lt→leb smallest s.last_sequence_for_key
          (n (ap (is_same_key ucmp s.current_user_key) (sym e) ∙ i)))
    | inr i ↦ rw i (lt→leb smallest max_sequence_number m)
  ]

  pub found_here :
      (k : List ℕ) (snapshot : ℕ) (x : Item) (items : List Item)
      → (is_equal (ucmp.compare x.ikey.user_key k) && leb x.ikey.sequence snapshot) ≡ true
      → find ucmp k snapshot (x ∷ items) ≡ some (x.ikey.type, x.val)
  unfolding find
  found_here k snapshot x items e = rw e
