-- ===== src/Leveldb/VersionSet/Overlap.antt =====
-- `SomeFileOverlapsRange`: the search in a sorted level against the loop over all files.
use Prim.Native.Nat.{Ordering}
use wormholefilters.Base.{
  ℕ, ◌^◌, ◌≤◌, ◌<◌, ◌≡◌, ◌≢◌, Bool, true, false, ◌||◌, Option, none, some, List, [], ◌∷◌, ◌++◌,
  refl, sym, ap, ◌∙◌, arith, ltb, if◌then◌else◌, Bool-cases, inl, inr, le→ltb, length, All,
}
use wormholefilters.Leveldb.Coding.{encode_fixed64}
use wormholefilters.Leveldb.Comparator.Order.{IsTotalOrder, flip}
use wormholefilters.Leveldb.Comparator.{Comparator, first}
use wormholefilters.Leveldb.DbFormat.Keys.{
  append_internal_key-tagged, extract_user_key-tagged, trailer-tagged,
}
use wormholefilters.Leveldb.DbFormat.{
  is_less, internal_key_comparator, compare_internal, extract_user_key, trailer,
  pack_sequence_and_type, max_sequence_number, value_type_for_seek,
}
use wormholefilters.Leveldb.VersionEdit.{FileMetaData}
use wormholefilters.Leveldb.VersionSet.FindFile.{
  is_less→lt, IsSortedLevel, count_while, find_file-count_while,
}
use wormholefilters.Leveldb.VersionSet.{
  is_greater, ends_below, after_file, before_file, any_overlap, small_key, start_index,
  not_before_at, some_file_overlaps_range,
}

highest : ℕ
highest = pack_sequence_and_type max_sequence_number value_type_for_seek

highest-lt : highest < 2 ^ 64
unfolding highest pack_sequence_and_type
highest-lt = omega arith

-- The comparison with the highest number is decided by the user keys.
ends_below_compare :
    (o : Ordering) (n : ℕ)
    → n ≤ highest
    → is_less (
        first o (
          if ltb highest n
          then Ordering.lt
          else if ltb n highest
          then Ordering.gt
          else Ordering.eq))
      ≡ is_greater (flip o)
unfolding is_less
ends_below_compare Ordering.lt n h = refl
ends_below_compare Ordering.eq n h = rw (le→ltb highest n h) (not_less (ltb n highest))
  where
    not_less : (b : Bool) → is_less (if b then Ordering.gt else Ordering.eq) ≡ false
    not_less true = unfold is_less in refl
    not_less false = unfold is_less in refl
ends_below_compare Ordering.gt n h = refl

module _ (c : Comparator) where
  -- The smallest user keys do not go down, and no sequence number is above the highest.
  abbrev pub IsDisjointLevel : List FileMetaData → Type 0
  IsDisjointLevel [] = Unit
  IsDisjointLevel (f ∷ files) =
      (trailer f.largest ≤ pack_sequence_and_type max_sequence_number value_type_for_seek)
      × All
          (λ (g : FileMetaData).
            c.compare (extract_user_key f.smallest) (extract_user_key g.smallest) ≢ Ordering.gt)
          files
      × IsDisjointLevel files

  module _ (t : IsTotalOrder c.compare) where
    small_key_lem : (user_key : List ℕ) → small_key c user_key ≡ user_key ++ encode_fixed64 highest
    unfolding small_key highest
    small_key_lem user_key =
        append_internal_key-tagged [] (record {
          user_key = user_key;
          sequence = max_sequence_number;
          type = value_type_for_seek;
        })

    ends_below-after_file :
        (f : FileMetaData) (user_key : List ℕ)
        → trailer f.largest ≤ pack_sequence_and_type max_sequence_number value_type_for_seek
        → ends_below (internal_key_comparator c) (small_key c user_key) f
          ≡ after_file c (some user_key) f
    unfolding ends_below after_file compare_internal highest pack_sequence_and_type
    ends_below-after_file f user_key h =
        let own = f.largest in
        rw
          (
            small_key_lem user_key,
            extract_user_key-tagged user_key highest,
            trailer-tagged user_key highest highest-lt,
          )
          (rw (t.flipped (extract_user_key own) user_key)
            (ends_below_compare (c.compare (extract_user_key own) user_key) (trailer own) h))

    before_next :
        (f g : FileMetaData) (largest : Option (List ℕ))
        → c.compare (extract_user_key f.smallest) (extract_user_key g.smallest) ≢ Ordering.gt
        → before_file c largest f ≡ true
        → before_file c largest g ≡ true
    unfolding before_file is_less
    before_next f g none le e = absurd (cc)
    before_next f g (some user_key) le e =
        let a = extract_user_key f.smallest in
        let b = extract_user_key g.smallest in
        ap is_less (by_order a b (is_less→lt (c.compare user_key a) e) le (c.compare a b) refl)
      where
        by_order :
            (a b : List ℕ)
            → c.compare user_key a ≡ Ordering.lt
            → c.compare a b ≢ Ordering.gt
            → (o : Ordering) → c.compare a b ≡ o
            → c.compare user_key b ≡ Ordering.lt
        by_order a b lt le Ordering.lt o = t.trans user_key a b lt o
        by_order a b lt le Ordering.eq o = rw (sym (t.equal a b o)) lt
        by_order a b lt le Ordering.gt o = absurd (le o)

    -- Files that begin behind a range which ends before an earlier file do not overlap it.
    before-All :
        (f : FileMetaData) (files : List FileMetaData) (smallest largest : Option (List ℕ))
        → All
            (λ (g : FileMetaData).
              c.compare (extract_user_key f.smallest) (extract_user_key g.smallest) ≢ Ordering.gt)
            files
        → before_file c largest f ≡ true
        → any_overlap c files smallest largest ≡ false
    unfolding any_overlap
    before-All f [] smallest largest h e = refl
    before-All f (g ∷ files) smallest largest (le, h) e = rw (
      before_next f g largest le e,
      or_true (after_file c smallest g),
      before-All f files smallest largest h e,
    )
      where
        or_true : (b : Bool) → (b || true) ≡ true
        or_true true = refl
        or_true false = refl

    searched :
        (files : List FileMetaData) (smallest largest : Option (List ℕ))
        → IsDisjointLevel files
        → not_before_at c files largest (count_while (after_file c smallest) files)
          ≡ any_overlap c files smallest largest
    unfolding any_overlap count_while
    searched [] smallest largest h = refl
    searched (f ∷ files) smallest largest (p, q, h) = elim (Bool-cases (after_file c smallest f)) [
      | inl after ↦ rw after (searched files smallest largest h)
      | inr here ↦ rw here (elim (Bool-cases (before_file c largest f)) [
        | inl before ↦ rw before (sym (before-All f files smallest largest q before))
        | inr within ↦ rw within refl
      ])
    ]

    count_while_same :
        (files : List FileMetaData) (user_key : List ℕ)
        → IsDisjointLevel files
        → count_while (ends_below (internal_key_comparator c) (small_key c user_key)) files
          ≡ count_while (after_file c (some user_key)) files
    unfolding count_while
    count_while_same [] user_key h = refl
    count_while_same (f ∷ files) user_key (p, q, h) =
        rw (ends_below-after_file f user_key p, count_while_same files user_key h)

    start_index_lem :
        (files : List FileMetaData) (smallest : Option (List ℕ))
        → IsDisjointLevel files
        → IsSortedLevel (compare_internal c) files
        → length files < 2 ^ 31
        → start_index c files smallest ≡ some (count_while (after_file c smallest) files)
    unfolding start_index
    start_index_lem files none d s h = ap some (sym (none_after files))
      where
        none_after : (files : List FileMetaData) → count_while (after_file c none) files ≡ 0
        none_after [] = unfold count_while in refl
        none_after (f ∷ files) = unfold count_while after_file in refl
    start_index_lem files (some user_key) d s h =
        find_file-count_while c files (small_key c user_key) t s h
        ∙ ap some (count_while_same files user_key d)

-- For a level that is sorted by the largest keys and does not go down in the smallest user keys, the
-- test by a binary search gives what the loop over all files gives: whether some file is neither before
-- nor behind the range. A null bound is open. The user keys are in a total order, the numbers of the
-- largest keys are valid, and there are less than 2 ^ 31 files.
pub some_file_overlaps_range-sorted :
    (c : Comparator) (files : List FileMetaData) (smallest largest : Option (List ℕ))
    → IsTotalOrder c.compare
    → IsSortedLevel (compare_internal c) files
    → IsDisjointLevel c files
    → length files < 2 ^ 31
    → some_file_overlaps_range c true files smallest largest
      ≡ some_file_overlaps_range c false files smallest largest
unfolding some_file_overlaps_range
some_file_overlaps_range-sorted c files smallest largest t s d h =
    rw (start_index_lem c t files smallest d s h, some_file_overlaps_range)
      (ap some (searched c t files smallest largest d))
