-- ===== src/Leveldb/VersionSet/Inputs/Closed.antt =====
-- About `Version::GetOverlappingInputs` of leveldb/db/version_set.cc: what a run over the files gives,
-- and why the search ends.
use mathlib.Core.List.{append_assoc, append-nil}
use wormholefilters.Base.{
  ℕ, zero, suc, ◌*◌, ◌<◌, ◌≡◌, Bool, true, false, Bool-cases, inl, inr, ◌&&◌, Option, some, List,
  [], ◌∷◌, ◌++◌, ◌⊎◌, All, refl, sym, ap, ◌∙◌, arith, if◌then◌else◌, length, subst,
}
use wormholefilters.Leveldb.Comparator.Order.{IsTotalOrder}
use wormholefilters.Leveldb.Comparator.{Comparator}
use wormholefilters.Leveldb.VersionEdit.{FileMetaData}
use wormholefilters.Leveldb.VersionSet.Inputs.Counts.{number_of-le}
use wormholefilters.Leveldb.VersionSet.Inputs.Wider.{
  left, Grows, IsWider, IsWider-begin, IsWider-end,
}
use wormholefilters.Leveldb.VersionSet.Inputs.{
  Range, Pass, done, restart, starts_before, ends_behind, is_outside, pass, passes,
  get_overlapping_inputs,
}

-- The files for which a test fails, in their order.
pub without : (FileMetaData → Bool) → List FileMetaData → List FileMetaData
without p [] = []
without p (f ∷ files) = let rest = without p files in if p f then rest else f ∷ rest

module _ (ucmp : Comparator) (order : IsTotalOrder ucmp.compare) where
  abbrev pub IsWithin : Range → FileMetaData → Type 0
  IsWithin r f = (starts_before ucmp r.begin f ≡ false) × (ends_behind ucmp r.end f ≡ false)

  -- What a run gives: the files that overlap the range, none of which passes an end of the range in
  -- level 0, or a wider range.
  data Passed (level0 : Bool) (r : Range) (all files inputs : List FileMetaData)
      : Pass → Type 0 where
    complete :
        {result : List FileMetaData}
        → result ≡ inputs ++ without (is_outside ucmp r) files
        → (level0 ≡ true → All (IsWithin r) (without (is_outside ucmp r) files))
        → Passed level0 r all files inputs (done result)
    restarted :
        {r' : Range}
        → level0 ≡ true
        → IsWider ucmp order r r' all
        → Passed level0 r all files inputs (restart r')

  without_skip :
      (r : Range) (f : FileMetaData) (files : List FileMetaData)
      → is_outside ucmp r f ≡ true
      → without (is_outside ucmp r) (f ∷ files) ≡ without (is_outside ucmp r) files
  unfolding without
  without_skip r f files e = rw e

  without_keep :
      (r : Range) (f : FileMetaData) (files : List FileMetaData)
      → is_outside ucmp r f ≡ false
      → without (is_outside ucmp r) (f ∷ files) ≡ f ∷ without (is_outside ucmp r) files
  unfolding without
  without_keep r f files e = rw e

  Passed-skip :
      (level0 : Bool) (r : Range) (all : List FileMetaData) (f : FileMetaData)
      (files inputs : List FileMetaData) (x : Pass)
      → is_outside ucmp r f ≡ true
      → Passed level0 r all files inputs x
      → Passed level0 r all (f ∷ files) inputs x
  Passed-skip level0 r all f files inputs x e (complete p w) =
      complete (p ∙ ap (◌++◌ inputs) (sym (without_skip r f files e)))
        (λ l. subst (All (IsWithin r)) (sym (without_skip r f files e)) (w l))
  Passed-skip level0 r all f files inputs x e (restarted l w) = restarted l w

  Passed-keep :
      (level0 : Bool) (r : Range) (all : List FileMetaData) (f : FileMetaData)
      (files inputs : List FileMetaData) (x : Pass)
      → is_outside ucmp r f ≡ false
      → (level0 ≡ true → IsWithin r f)
      → Passed level0 r all files (inputs ++ (f ∷ [])) x
      → Passed level0 r all (f ∷ files) inputs x
  Passed-keep level0 r all f files inputs x e i (complete p w) =
      complete
        (p
          ∙ (append_assoc inputs (f ∷ []) (without (is_outside ucmp r) files)
              ∙ ap (◌++◌ inputs) (sym (without_keep r f files e))))
        (λ l. subst (All (IsWithin r)) (sym (without_keep r f files e)) (i l, w l))
  Passed-keep level0 r all f files inputs x e i (restarted l w) = restarted l w

  and_parts : (a b : Bool) → (a && b) ≡ true → (a ≡ true) × (b ≡ true)
  and_parts true b e = (refl, e)
  and_parts false b e = absurd (cc)

  and_rest : (a b : Bool) → (a && b) ≡ false → a ≡ true → b ≡ false
  and_rest true b e h = e
  and_rest false b e h = absurd (cc)

  -- The run from one file on.
  pass-Passed :
      (level0 : Bool) (r : Range) (pre files inputs : List FileMetaData)
      → Passed level0 r (pre ++ files) files inputs (pass ucmp level0 r files inputs)
  unfolding pass without
  pass-Passed level0 r pre [] inputs =
      complete {result = inputs} (sym (append-nil inputs)) (λ e. tt)
  pass-Passed level0 r pre (f ∷ files) inputs =
      let further : (inputs : List FileMetaData)
          → Passed level0 r (pre ++ (f ∷ files)) files inputs (pass ucmp level0 r files inputs) =
        λ inputs.
          subst
            (λ (all : List FileMetaData).
              Passed level0 r all files inputs (pass ucmp level0 r files inputs))
            (append_assoc pre (f ∷ []) files)
            (pass-Passed level0 r (pre ++ (f ∷ [])) files inputs) in
      elim (Bool-cases (is_outside ucmp r f)) [
        | inl e ↦ rw e (
            Passed-skip level0 r (pre ++ (f ∷ files)) f files inputs
              (pass ucmp level0 r files inputs) e (further inputs))
        | inr e ↦ elim (Bool-cases (level0 && starts_before ucmp r.begin f)) [
          | inl b ↦
              rw (e, b)
                (restarted ((and_parts level0 (starts_before ucmp r.begin f) b).0) (
                  IsWider-begin ucmp order r.begin r.end pre f files e
                    ((and_parts level0 (starts_before ucmp r.begin f) b).1)))
          | inr b ↦ elim (Bool-cases (level0 && ends_behind ucmp r.end f)) [
            | inl d ↦
                rw (e, b, d)
                  (restarted ((and_parts level0 (ends_behind ucmp r.end f) d).0) (
                    IsWider-end ucmp order r.begin r.end pre f files e
                      ((and_parts level0 (ends_behind ucmp r.end f) d).1)))
            | inr d ↦
                rw (e, b, d)
                  (Passed-keep level0 r (pre ++ (f ∷ files)) f files inputs
                    (pass ucmp level0 r files (inputs ++ (f ∷ []))) e
                    (λ l. (
                      and_rest level0 (starts_before ucmp r.begin f) b l,
                      and_rest level0 (ends_behind ucmp r.end f) d l,
                    ))
                    (further (inputs ++ (f ∷ []))))
          ]
        ]
      ]

  -- The range grows over some files, one after another.
  pub data Grown (files : List FileMetaData) : Range → Range → Type 0 where
    given : (r : Range) → Grown files r r
    further :
        {r r' r'' : Range} → Grows ucmp order files r r' → Grown files r' r'' → Grown files r r''

  -- What `GetOverlappingInputs` gives.
  pub record IsClosed (level0 : Bool) (r : Range) (files : List FileMetaData)
      (result : Option (List FileMetaData)) : Type 0 where
    pub range : Range
    pub returned : result ≡ some (without (is_outside ucmp range) files)
    pub wider : (f : FileMetaData) → is_outside ucmp range f ≡ true → is_outside ucmp r f ≡ true
    pub grown : Grown files r range
    pub ends :
        ((level0 ≡ true) × All (IsWithin range) (without (is_outside ucmp range) files))
        ⊎ ((level0 ≡ false) × (range ≡ r))

  Passed-IsClosed :
      (fuel : ℕ) (level0 : Bool) (r : Range) (files : List FileMetaData) (x : Pass)
      → ((r' : Range)
          → left ucmp order r' files < left ucmp order r files
          → IsClosed level0 r' files (passes ucmp fuel level0 r' files))
      → pass ucmp level0 r files [] ≡ x
      → Passed level0 r files files [] x
      → IsClosed level0 r files (passes ucmp (suc fuel) level0 r files)
  unfolding passes without
  Passed-IsClosed fuel level0 r files (done result) ih e (complete p w) = record {
    range = r;
    returned = rw (passes, e) (ap some p);
    wider = λ f h. h;
    grown = given r;
    ends = elim (Bool-cases level0) [ inl t ↦ inl (t, w t) | inr n ↦ inr (n, refl) ];
  }
  Passed-IsClosed fuel level0 r files (restart r') ih e (restarted l w) =
      let c = ih r' w.fewer in
      record {
        range = c.range;
        returned = rw (passes, e) c.returned;
        wider = λ f h. w.outside f (c.wider f h);
        grown = further w.grows c.grown;
        ends = elim c.ends [
          | inl closed ↦ inl closed
          | inr kept ↦ absurd (refused (sym l ∙ kept.0))
        ];
      }
    where
      refused : true ≡ false → ⊥
      refused e = absurd (cc)

  passes-IsClosed :
      (fuel : ℕ) (level0 : Bool) (r : Range) (files : List FileMetaData)
      → left ucmp order r files < fuel
      → IsClosed level0 r files (passes ucmp fuel level0 r files)
  passes-IsClosed zero level0 r files h = absurd (omega (arith, h))
  passes-IsClosed (suc fuel) level0 r files h =
      Passed-IsClosed fuel level0 r files (pass ucmp level0 r files [])
        (λ r' w. passes-IsClosed fuel level0 r' files (omega (arith, h, w))) refl
        (pass-Passed level0 r [] files [])

  -- For a user comparator that orders totally: `GetOverlappingInputs` ends, and gives exactly the files of
  -- the level that overlap some range, in their order. Every file that overlaps the given range overlaps
  -- this one. It is the given range, grown over files of the level, one after another, of which each
  -- overlaps the range and passes one of its ends; in level 0 none of the files given begins before it or
  -- ends behind it any more, and in other levels it has not grown.
  pub get_overlapping_inputs-IsClosed :
      (level0 : Bool) (r : Range) (files : List FileMetaData)
      → IsClosed level0 r files (get_overlapping_inputs ucmp level0 r files)
  unfolding get_overlapping_inputs
  get_overlapping_inputs-IsClosed level0 r files =
      passes-IsClosed (suc (2 * length files)) level0 r files (
        omega (
          arith,
          number_of-le (starts_before ucmp r.begin) files,
          number_of-le (ends_behind ucmp r.end) files,
        ))
