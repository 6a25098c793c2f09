-- ===== src/Leveldb/VersionSet/Inputs/Wider.antt =====
-- Wider ranges, for the restarts of `Version::GetOverlappingInputs` of leveldb/db/version_set.cc.
use wormholefilters.Base.{
  ℕ, ◌+◌, ◌<◌, ◌≡◌, Bool, true, false, ◌||◌, Option, none, some, List, ◌∷◌, ◌++◌, refl, ap, ◌∙◌,
  arith,
}
use wormholefilters.Leveldb.Comparator.Order.{flip, IsTotalOrder}
use wormholefilters.Leveldb.Comparator.{Comparator}
use wormholefilters.Leveldb.DbFormat.{is_less, extract_user_key}
use wormholefilters.Leveldb.VersionEdit.{FileMetaData}
use wormholefilters.Leveldb.VersionSet.Inputs.Counts.{number_of, number_of_strict}
use wormholefilters.Leveldb.VersionSet.Inputs.{
  Range, starts_before, ends_behind, ends_before, starts_behind, is_outside,
}
use wormholefilters.Leveldb.VersionSet.FindFile.{is_less→lt}
use wormholefilters.Leveldb.VersionSet.{is_greater}
use Prim.Native.Nat.{Ordering}

module _ (ucmp : Comparator) (order : IsTotalOrder ucmp.compare) where
  -- The restarts that are left.
  abbrev pub left : Range → List FileMetaData → ℕ
  left r files =
      number_of (starts_before ucmp r.begin) files + number_of (ends_behind ucmp r.end) files

  less_trans :
      (a b c : List ℕ)
      → is_less (ucmp.compare a b) ≡ true
      → is_less (ucmp.compare b c) ≡ true
      → is_less (ucmp.compare a c) ≡ true
  less_trans a b c p q =
      unfold is_less in
      ap is_less
        (order.trans a b c (is_less→lt (ucmp.compare a b) p) (is_less→lt (ucmp.compare b c) q))

  greater→lt : (o : Ordering) → is_greater o ≡ true → flip o ≡ Ordering.lt
  greater→lt Ordering.lt e = absurd (cc)
  greater→lt Ordering.eq e = absurd (cc)
  greater→lt Ordering.gt e = refl

  greater_trans :
      (a b c : List ℕ)
      → is_greater (ucmp.compare a b) ≡ true
      → is_greater (ucmp.compare b c) ≡ true
      → is_greater (ucmp.compare a c) ≡ true
  greater_trans a b c p q = ap is_greater (
      order.flipped c a
      ∙ ap flip (
          order.trans c b a (order.flipped b c ∙ greater→lt (ucmp.compare b c) q)
            (order.flipped a b ∙ greater→lt (ucmp.compare a b) p)))

  -- A file that overlaps the range passes one of its ends, and the end is moved over it.
  pub data Grows (files : List FileMetaData) : Range → Range → Type 0 where
    at_begin :
        (r : Range) (pre : List FileMetaData) (f : FileMetaData) (post : List FileMetaData)
        → files ≡ pre ++ (f ∷ post)
        → is_outside ucmp r f ≡ false
        → starts_before ucmp r.begin f ≡ true
        → Grows files r (record r { begin = some (extract_user_key f.smallest) })
    at_end :
        (r : Range) (pre : List FileMetaData) (f : FileMetaData) (post : List FileMetaData)
        → files ≡ pre ++ (f ∷ post)
        → is_outside ucmp r f ≡ false
        → ends_behind ucmp r.end f ≡ true
        → Grows files r (record r { end = some (extract_user_key f.largest) })

  -- The new range is wider, and a file less passes its ends.
  pub record IsWider (r r' : Range) (files : List FileMetaData) : Type 0 where
    pub fewer : left r' files < left r files
    pub outside : (f : FileMetaData) → is_outside ucmp r' f ≡ true → is_outside ucmp r f ≡ true
    pub grows : Grows files r r'

  or_mono :
      (a b c d : Bool)
      → (a ≡ true → c ≡ true)
      → (b ≡ true → d ≡ true)
      → (a || b) ≡ true
      → (c || d) ≡ true
  or_mono true b c d f g e = rw (f refl)
  or_mono false b c d f g e = rw (g e) (or_true c)
    where
      or_true : (c : Bool) → (c || true) ≡ true
      or_true true = refl
      or_true false = refl

  pub IsWider-begin :
      (b : Option (List ℕ)) (e : Option (List ℕ)) (pre : List FileMetaData) (f : FileMetaData)
      (post : List FileMetaData)
      → is_outside ucmp (record { begin = b; end = e }) f ≡ false
      → starts_before ucmp b f ≡ true
      → IsWider
          (record { begin = b; end = e })
          (record { begin = some (extract_user_key f.smallest); end = e })
          (pre ++ (f ∷ post))
  unfolding starts_before ends_before is_outside
  IsWider-begin none e pre f post o h = absurd (cc)
  IsWider-begin (some b) e pre f post o h = record {
    fewer = omega (
      arith,
      number_of_strict (starts_before ucmp (some b))
          (starts_before ucmp (some (extract_user_key f.smallest))) pre f post
          (λ g l. less_trans (extract_user_key g.smallest) (extract_user_key f.smallest) b l h)
          (unfold is_less in ap is_less (order.same (extract_user_key f.smallest))) h,
    );
    outside = λ g.
        or_mono (ends_before ucmp (some (extract_user_key f.smallest)) g) (starts_behind ucmp e g)
          (ends_before ucmp (some b) g) (starts_behind ucmp e g)
          (λ l. less_trans (extract_user_key g.largest) (extract_user_key f.smallest) b l h)
          (λ l. l);
    grows = at_begin (record { begin = some b; end = e }) pre f post refl o h;
  }

  pub IsWider-end :
      (b : Option (List ℕ)) (e : Option (List ℕ)) (pre : List FileMetaData) (f : FileMetaData)
      (post : List FileMetaData)
      → is_outside ucmp (record { begin = b; end = e }) f ≡ false
      → ends_behind ucmp e f ≡ true
      → IsWider
          (record { begin = b; end = e })
          (record { begin = b; end = some (extract_user_key f.largest) })
          (pre ++ (f ∷ post))
  unfolding ends_behind starts_behind is_outside
  IsWider-end b none pre f post o h = absurd (cc)
  IsWider-end b (some e) pre f post o h = record {
    fewer = omega (
      arith,
      number_of_strict (ends_behind ucmp (some e))
          (ends_behind ucmp (some (extract_user_key f.largest))) pre f post
          (λ g l. greater_trans (extract_user_key g.largest) (extract_user_key f.largest) e l h)
          (ap is_greater (order.same (extract_user_key f.largest))) h,
    );
    outside = λ g.
        or_mono (ends_before ucmp b g) (starts_behind ucmp (some (extract_user_key f.largest)) g)
          (ends_before ucmp b g) (starts_behind ucmp (some e) g) (λ l. l)
          (λ l. greater_trans (extract_user_key g.smallest) (extract_user_key f.largest) e l h);
    grows = at_end (record { begin = b; end = some e }) pre f post refl o h;
  }
