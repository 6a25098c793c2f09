-- ===== src/Leveldb/Compaction/BaseLevel.antt =====
-- `IsBaseLevelForKey` against the test of all files of the deeper levels.
use mathlib.Core.List.{append_assoc}
use native.Mathlib.Decide.{dec_lt}
use wormholefilters.Base.Slices.{take-drop, drop_past}
use wormholefilters.Base.{
  ℕ, zero, suc, ◌≡◌, Bool, true, false, Bool-cases, not, ◌&&◌, ◌||◌, inl, inr, List, [], ◌∷◌, ◌++◌,
  All, All-append, refl, sym, ap, ◌∙◌, arith, length, length-append, length-take, take, take_append,
  drop, subst,
}
use wormholefilters.Leveldb.Compaction.{DeepLevel, scan_level, is_base_level_for_key}
use wormholefilters.Leveldb.Comparator.Order.{flip, IsTotalOrder}
use wormholefilters.Leveldb.Comparator.{Comparator}
use wormholefilters.Leveldb.DbFormat.{is_less, extract_user_key}
use wormholefilters.Leveldb.VersionEdit.{FileMetaData}
use wormholefilters.Leveldb.VersionSet.{is_greater}
use Prim.Native.Nat.{Ordering}

any : {A : Type 0} → (A → Bool) → List A → Bool
any p [] = false
any p (x ∷ xs) = p x || any p xs

module _ (ucmp : Comparator) where
  -- The range of user keys of the file has the key.
  pub covers : List ℕ → FileMetaData → Bool
  covers user_key f =
      not (is_less (ucmp.compare user_key (extract_user_key f.smallest)))
      && not (is_greater (ucmp.compare user_key (extract_user_key f.largest)))

  pub in_level : List ℕ → DeepLevel → Bool
  in_level user_key l = any (covers user_key) l.files

  pub in_levels : List ℕ → List DeepLevel → Bool
  in_levels user_key levels = any (in_level user_key) levels

  -- Each file ends before every later one begins.
  abbrev pub IsDisjoint : List FileMetaData → Type 0
  IsDisjoint [] = Unit
  IsDisjoint (f ∷ files) =
      All
        (λ (g : FileMetaData).
          ucmp.compare (extract_user_key f.largest) (extract_user_key g.smallest) ≡ Ordering.lt)
        files
      × IsDisjoint files

  abbrev Ended : List ℕ → FileMetaData → Type 0
  Ended user_key f = is_greater (ucmp.compare user_key (extract_user_key f.largest)) ≡ true

  -- The pointer has passed only files that end before the key.
  pub record IsPassed (user_key : List ℕ) (l : DeepLevel) : Type 0 where
    pub disjoint : IsDisjoint l.files
    pub passed : All (Ended user_key) (take l.ptr l.files)

  -- The pointers move, the files stay.
  pub is_base_level_for_key_files :
      (user_key k : List ℕ) (levels : List DeepLevel)
      → in_levels k ((is_base_level_for_key ucmp user_key levels).1) ≡ in_levels k levels
  unfolding is_base_level_for_key in_levels any in_level
  is_base_level_for_key_files user_key k [] = refl
  is_base_level_for_key_files user_key k (l ∷ levels) =
      elim (Bool-cases ((scan_level ucmp user_key (drop l.ptr l.files) l.ptr).0)) [
        | inl e ↦ rw e
        | inr e ↦ rw (e, is_base_level_for_key_files user_key k levels)
      ]

  module _ (order : IsTotalOrder ucmp.compare) where
    not_covered :
        (user_key : List ℕ) (f : FileMetaData) → Ended user_key f → covers user_key f ≡ false
    unfolding covers
    not_covered user_key f e =
        rw e (and_false (not (is_less (ucmp.compare user_key (extract_user_key f.smallest)))))
      where
        and_false : (b : Bool) → (b && false) ≡ false
        and_false true = refl
        and_false false = refl

    any-append :
        {A : Type 0} (p : A → Bool) (xs ys : List A) → any p (xs ++ ys) ≡ (any p xs || any p ys)
    unfolding any
    any-append p [] ys = refl
    any-append p (x ∷ xs) ys = rw (any-append p xs ys) (or_assoc (p x) (any p xs) (any p ys))
      where
        or_assoc : (a b c : Bool) → (a || (b || c)) ≡ ((a || b) || c)
        or_assoc true b c = refl
        or_assoc false b c = refl

    none_covers :
        (user_key : List ℕ) (files : List FileMetaData)
        → All (Ended user_key) files
        → any (covers user_key) files ≡ false
    unfolding any
    none_covers user_key [] a = refl
    none_covers user_key (f ∷ files) (e, a) =
        rw (not_covered user_key f e, none_covers user_key files a)

    -- A key at most at the end of a file stands before all later files.
    before_later :
        (a b c : List ℕ) (o : Ordering)
        → ucmp.compare a b ≡ o
        → is_greater o ≡ false
        → ucmp.compare b c ≡ Ordering.lt
        → is_less (ucmp.compare a c) ≡ true
    unfolding is_less
    before_later a b c Ordering.lt e h l = ap is_less (order.trans a b c e l)
    before_later a b c Ordering.eq e h l =
        ap is_less
          (subst (λ (x : List ℕ). ucmp.compare x c ≡ Ordering.lt) (sym (order.equal a b e)) l)
    before_later a b c Ordering.gt e h l = absurd (cc)

    later :
        (user_key : List ℕ) (f : FileMetaData) (files : List FileMetaData)
        → is_greater (ucmp.compare user_key (extract_user_key f.largest)) ≡ false
        → All
            (λ (g : FileMetaData).
              ucmp.compare (extract_user_key f.largest) (extract_user_key g.smallest) ≡ Ordering.lt)
            files
        → any (covers user_key) files ≡ false
    unfolding any covers
    later user_key f [] e a = refl
    later user_key f (g ∷ files) e (b, a) = rw (
      before_later user_key (extract_user_key f.largest) (extract_user_key g.smallest)
          (ucmp.compare user_key (extract_user_key f.largest)) refl e b,
      later user_key f files e a,
    )

    -- The scan finds the file that covers the key.
    scan_level-any :
        (user_key : List ℕ) (files : List FileMetaData) (ptr : ℕ)
        → IsDisjoint files
        → (scan_level ucmp user_key files ptr).0 ≡ any (covers user_key) files
    unfolding scan_level any
    scan_level-any user_key [] ptr d = refl
    scan_level-any user_key (f ∷ files) ptr (a, d) =
        elim (Bool-cases (is_greater (ucmp.compare user_key (extract_user_key f.largest)))) [
          | inl e ↦ rw (e, not_covered user_key f e) (scan_level-any user_key files (suc ptr) d)
          | inr e ↦ rw (later user_key f files e a) (
              unfold covers in
              rw e (and_or (not (is_less (ucmp.compare user_key (extract_user_key f.smallest))))))
        ]
      where
        and_or : (b : Bool) → b ≡ ((b && true) || false)
        and_or true = refl
        and_or false = refl

    -- It passes files that end before the key.
    scan_level-Ended :
        (user_key : List ℕ) (pre files : List FileMetaData) (ptr : ℕ)
        → length pre ≡ ptr
        → All (Ended user_key) pre
        → All (Ended user_key) (take (scan_level ucmp user_key files ptr).1 (pre ++ files))
    unfolding scan_level
    scan_level-Ended user_key pre [] ptr n a = rw (sym n, take_append pre []) a
    scan_level-Ended user_key pre (f ∷ files) ptr n a =
        elim (Bool-cases (is_greater (ucmp.compare user_key (extract_user_key f.largest)))) [
          | inl e ↦ rw e (
              subst
                (λ (l : List FileMetaData).
                  All (Ended user_key) (take (scan_level ucmp user_key files (suc ptr)).1 l))
                (append_assoc pre (f ∷ []) files)
                (scan_level-Ended user_key (pre ++ (f ∷ [])) files (suc ptr)
                  (omega (arith, n, length-append pre (f ∷ [])))
                  (All-append (Ended user_key) pre (f ∷ []) a (e, tt))))
          | inr e ↦ rw (e, sym n, take_append pre (f ∷ files)) a
        ]

    greater→gt : (o : Ordering) → is_greater o ≡ true → o ≡ Ordering.gt
    greater→gt Ordering.lt e = absurd (cc)
    greater→gt Ordering.eq e = absurd (cc)
    greater→gt Ordering.gt e = refl

    -- A file that ends before a key ends before a later one.
    Ended_later :
        (a b c : List ℕ) (o : Ordering)
        → ucmp.compare a b ≡ o
        → is_less o ≡ false
        → is_greater (ucmp.compare b c) ≡ true
        → is_greater (ucmp.compare a c) ≡ true
    unfolding is_less
    Ended_later a b c Ordering.lt e h g = absurd (cc)
    Ended_later a b c Ordering.eq e h g =
        subst (λ (x : List ℕ). is_greater (ucmp.compare x c) ≡ true) (sym (order.equal a b e)) g
    Ended_later a b c Ordering.gt e h g =
        let below =
          order.trans c b a (order.flipped b c ∙ ap flip (greater→gt (ucmp.compare b c) g))
            (order.flipped a b ∙ ap flip e) in
        ap is_greater (order.flipped c a ∙ ap flip below)

    pub IsPassed-later :
        (a b : List ℕ) (l : DeepLevel)
        → is_less (ucmp.compare b a) ≡ false
        → IsPassed a l
        → IsPassed b l
    IsPassed-later a b l h p = record {
      disjoint = p.disjoint;
      passed = all_later (take l.ptr l.files) p.passed;
    }
      where
        all_later : (files : List FileMetaData) → All (Ended a) files → All (Ended b) files
        all_later [] p = tt
        all_later (f ∷ files) (e, p) = (
          Ended_later b a (extract_user_key f.largest) (ucmp.compare b a) refl h e,
          all_later files p,
        )

    IsDisjoint-rest :
        (n : ℕ) (files : List FileMetaData) → IsDisjoint files → IsDisjoint (drop n files)
    IsDisjoint-rest zero files d = d
    IsDisjoint-rest (suc n) [] d = tt
    IsDisjoint-rest (suc n) (f ∷ files) (a, d) = IsDisjoint-rest n files d

    any_rest :
        (user_key : List ℕ) (n : ℕ) (files : List FileMetaData)
        → All (Ended user_key) (take n files)
        → any (covers user_key) files ≡ any (covers user_key) (drop n files)
    any_rest user_key n files a =
        ap (any (covers user_key)) (sym (take-drop n files))
        ∙ (any-append (covers user_key) (take n files) (drop n files)
            ∙ rw (none_covers user_key (take n files) a))

    scanned_files :
        (user_key : List ℕ) (l : DeepLevel)
        → All (Ended user_key) (take l.ptr l.files)
        → All
            (Ended user_key)
            (take (scan_level ucmp user_key (drop l.ptr l.files) l.ptr).1 l.files)
    unfolding scan_level
    scanned_files user_key l a = elim (dec_lt (length l.files) l.ptr) [
      | yes past ↦ rw (drop_past l.ptr l.files (omega (arith, past))) a
      | no inside ↦
          subst
            (λ (files : List FileMetaData).
              All (Ended user_key)
                (take (scan_level ucmp user_key (drop l.ptr l.files) l.ptr).1 files))
            (take-drop l.ptr l.files)
            (scan_level-Ended user_key (take l.ptr l.files) (drop l.ptr l.files) l.ptr
              (omega (arith, inside, length-take l.ptr l.files)) a)
    ]

    -- On levels whose files are disjoint and in order, and whose pointers have passed only files that end
    -- before the key, `IsBaseLevelForKey` answers true exactly if no file of these levels has the key in
    -- its range, and the pointers that it leaves have passed only files that end before the key.
    pub is_base_level_for_key_iff :
        (user_key : List ℕ) (levels : List DeepLevel)
        → All (IsPassed user_key) levels
        → ((is_base_level_for_key ucmp user_key levels).0 ≡ not (in_levels user_key levels))
          × All (IsPassed user_key) ((is_base_level_for_key ucmp user_key levels).1)
    unfolding is_base_level_for_key in_levels in_level any
    is_base_level_for_key_iff user_key [] p = (refl, tt)
    is_base_level_for_key_iff user_key (l ∷ levels) (p, ps) =
        let rest = drop l.ptr l.files in
        let (answer, passed) = is_base_level_for_key_iff user_key levels ps in
        let scanned : (scan_level ucmp user_key rest l.ptr).0 ≡ any (covers user_key) l.files =
          scan_level-any user_key rest l.ptr (IsDisjoint-rest l.ptr l.files p.disjoint)
          ∙ sym (any_rest user_key l.ptr l.files p.passed) in
        let p' : IsPassed user_key (record l { ptr = (scan_level ucmp user_key rest l.ptr).1 }) =
          record { disjoint = p.disjoint; passed = scanned_files user_key l p.passed } in
        elim (Bool-cases (any (covers user_key) l.files)) [
          | inl e ↦ (rw (scanned, e), rw (scanned, e) (p', ps))
          | inr e ↦ (rw (scanned, e) answer, rw (scanned, e) (p', passed))
        ]
