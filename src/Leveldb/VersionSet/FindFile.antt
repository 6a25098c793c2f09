-- ===== src/Leveldb/VersionSet/FindFile.antt =====
-- The binary search of `FindFile` against a linear one.
use Prim.Native.Nat.{Ordering}
use native.Mathlib.Decide.{dec_lt}
use wormholefilters.Base.{
  ℕ, zero, suc, ◌+◌, ◌/◌, ◌^◌, ◌≤◌, ◌<◌, ◌≡◌, Bool, true, false, some, List, [], ◌∷◌, refl, sym, ap,
  ◌∙◌, arith, ltb, u32, if◌then◌else◌, Bool-cases, ◌⊎◌, inl, inr, lt→ltb, le→ltb, length, All,
}
use wormholefilters.Leveldb.Comparator.Order.{IsTotalOrder}
use wormholefilters.Leveldb.Comparator.{Comparator, first}
use wormholefilters.Leveldb.DbFormat.{
  is_less, internal_key_comparator, compare_internal, extract_user_key, trailer,
}
use wormholefilters.Leveldb.VersionEdit.{FileMetaData}
use wormholefilters.Leveldb.VersionSet.{ends_below, ends_below_at, narrow, find_loop, find_file}

-- Going through the files: how many at the front have the property.
unfoldable pub count_while : (FileMetaData → Bool) → List FileMetaData → ℕ
count_while p [] = 0
count_while p (f ∷ files) = let rest = count_while p files in if p f then suc rest else 0

abbrev pub IsTransitive : (List ℕ → List ℕ → Ordering) → Type 0
IsTransitive cmp =
    (a b c : List ℕ) → cmp a b ≡ Ordering.lt → cmp b c ≡ Ordering.lt → cmp a c ≡ Ordering.lt

-- The files of a level in the order of their largest keys.
abbrev pub IsSortedLevel : (List ℕ → List ℕ → Ordering) → List FileMetaData → Type 0
IsSortedLevel cmp [] = Unit
IsSortedLevel cmp (f ∷ files) =
    All (λ (g : FileMetaData). cmp f.largest g.largest ≡ Ordering.lt) files
    × IsSortedLevel cmp files

clash : (o : Ordering) → is_less o ≡ false → is_less o ≡ is_less Ordering.lt → ⊥
unfolding is_less
clash o p q = absurd (cc)

pub is_less→lt : (o : Ordering) → is_less o ≡ true → o ≡ Ordering.lt
unfolding is_less
is_less→lt Ordering.lt e = refl
is_less→lt Ordering.eq e = absurd (cc)
is_less→lt Ordering.gt e = absurd (cc)

length-count_while :
    (p : FileMetaData → Bool) (files : List FileMetaData) → count_while p files ≤ length files
unfolding count_while
length-count_while p [] = omega arith
length-count_while p (f ∷ files) = elim (Bool-cases (p f)) [
  | inl e ↦ rw e (omega (arith, length-count_while p files))
  | inr e ↦ rw e (omega arith)
]

module _ (icmp : Comparator) (key : List ℕ) where
  below : List FileMetaData → ℕ
  below files = count_while (ends_below icmp key) files

  ends_below_front :
      (files : List FileMetaData) (i : ℕ) → i < below files → ends_below_at icmp files key i ≡ true
  unfolding below count_while
  ends_below_front [] i h = absurd (omega arith)
  ends_below_front (f ∷ files) zero h = elim (Bool-cases (ends_below icmp key f)) [
    | inl e ↦ e
    | inr e ↦ absurd (omega (arith, rw e at h))
  ]
  ends_below_front (f ∷ files) (suc i) h = elim (Bool-cases (ends_below icmp key f)) [
    | inl e ↦ ends_below_front files i (omega (arith, rw e at h))
    | inr e ↦ absurd (omega (arith, rw e at h))
  ]

  module _ (transitive : IsTransitive icmp.compare) where
    ends_below_after :
        (f : FileMetaData) (files : List FileMetaData) (i : ℕ)
        → All (λ (g : FileMetaData). icmp.compare f.largest g.largest ≡ Ordering.lt) files
        → ends_below icmp key f ≡ false
        → ends_below_at icmp files key i ≡ false
    ends_below_after f [] i h e = refl
    ends_below_after f (g ∷ files) (suc i) (lt, h) e = ends_below_after f files i h e
    ends_below_after f (g ∷ files) zero (lt, h) e =
        unfold ends_below in
        (elim (Bool-cases (ends_below icmp key g)) [
          | inr upper ↦ upper
          | inl yes_it_is ↦
              let less =
                transitive f.largest g.largest key lt
                  (is_less→lt (icmp.compare g.largest key) yes_it_is) in
              absurd (clash (icmp.compare f.largest key) e (ap is_less less))
        ])

    ends_below_back :
        (files : List FileMetaData) (i : ℕ)
        → IsSortedLevel icmp.compare files
        → below files ≤ i
        → ends_below_at icmp files key i ≡ false
    unfolding below count_while
    ends_below_back [] i s h = refl
    ends_below_back (f ∷ files) i (after, s) h = elim (Bool-cases (ends_below icmp key f)) [
      | inl e ↦ further i (omega (arith, rw e at h)) (λ j le. ends_below_back files j s le)
      | inr e ↦ here i e (λ j. ends_below_after f files j after e)
    ]
      where
        further :
            (i : ℕ)
            → suc (below files) ≤ i
            → ((j : ℕ) → below files ≤ j → ends_below_at icmp files key j ≡ false)
            → ends_below_at icmp (f ∷ files) key i ≡ false
        further zero h ih = absurd (omega arith)
        further (suc j) h ih = ih j (omega arith)

        here :
            (i : ℕ)
            → ends_below icmp key f ≡ false
            → ((j : ℕ) → ends_below_at icmp files key j ≡ false)
            → ends_below_at icmp (f ∷ files) key i ≡ false
        here zero e ih = e
        here (suc j) e ih = ih j

    find_loop_end :
        (files : List FileMetaData) (fuel left right : ℕ)
        → right ≤ left
        → find_loop icmp files key (suc fuel) left right ≡ some right
    unfolding find_loop
    find_loop_end files fuel left right h = rw (le→ltb left right h, find_loop)

    find_loop_step :
        (files : List FileMetaData) (fuel left right l r : ℕ)
        → left < right
        → narrow icmp files key left right ≡ (l, r)
        → find_loop icmp files key (suc fuel) left right ≡ find_loop icmp files key fuel l r
    unfolding find_loop
    find_loop_step files fuel left right l r h e = rw (lt→ltb left right h, e, find_loop)

    narrow_lem :
        (files : List FileMetaData) (left right : ℕ) (b : Bool)
        → left + right < 2 ^ 32
        → ends_below_at icmp files key ((left + right) / 2) ≡ b
        → narrow icmp files key left right
          ≡ (if b then ((left + right) / 2 + 1, right) else (left, (left + right) / 2))
    unfolding narrow
    narrow_lem files left right b h e =
        let same : u32 (left + right) ≡ left + right = omega arith in rw (same, e)

    find_loop_lem :
        (files : List FileMetaData) (fuel left right : ℕ)
        → IsSortedLevel icmp.compare files
        → right < 2 ^ 31
        → left ≤ below files
        → below files ≤ right
        → right < fuel + left
        → find_loop icmp files key fuel left right ≡ some (below files)
    find_loop_lem files zero left right s small l r enough = absurd (omega arith)
    find_loop_lem files (suc fuel) left right s small l r enough =
        let mid = (left + right) / 2 in
        elim (dec_lt left right) [
          | no h ↦
              let same : right ≡ below files = omega arith in
              find_loop_end files fuel left right (omega arith) ∙ ap some same
          | yes h ↦ elim (dec_lt mid (below files)) [
            | yes lower ↦
                find_loop_step files fuel left right (mid + 1) right h (
                  narrow_lem files left right true (omega arith) (ends_below_front files mid lower))
                ∙ find_loop_lem files fuel (mid + 1) right s small (omega arith) r (omega arith)
            | no upper ↦
                find_loop_step files fuel left right left mid h (
                  narrow_lem files left right false (omega arith)
                    (ends_below_back files mid s (omega arith)))
                ∙ find_loop_lem files fuel left mid s (omega arith) l (omega arith) (omega arith)
          ]
        ]

    pub find_file_count :
        (files : List FileMetaData)
        → IsSortedLevel icmp.compare files
        → length files < 2 ^ 31
        → find_file icmp files key ≡ some (count_while (ends_below icmp key) files)
    unfolding find_file below
    find_file_count files s h =
        let same : u32 (length files) ≡ length files = omega arith in
        rw same (
          find_loop_lem files (suc (length files)) 0 (length files) s h (omega arith)
            (length-count_while (ends_below icmp key) files) (omega arith))

-- What a comparison of two parts means for `lt`.
Decided : Ordering → Ordering → Type 0
Decided o p = (o ≡ Ordering.lt) ⊎ ((o ≡ Ordering.eq) × (p ≡ Ordering.lt))

first→Decided : (o p : Ordering) → first o p ≡ Ordering.lt → Decided o p
unfolding Decided
first→Decided Ordering.lt p e = inl refl
first→Decided Ordering.eq p e = inr (refl, e)
first→Decided Ordering.gt p e = absurd (cc)

by_trailer : ℕ → ℕ → Ordering
by_trailer anum bnum =
    if ltb bnum anum then Ordering.lt else if ltb anum bnum then Ordering.gt else Ordering.eq

by_trailer_trans :
    (k m n : ℕ)
    → by_trailer k m ≡ Ordering.lt
    → by_trailer m n ≡ Ordering.lt
    → by_trailer k n ≡ Ordering.lt
unfolding by_trailer
by_trailer_trans k m n p q = ground arith

-- The order of internal keys is transitive if the one of user keys is total.
pub compare_internal_trans :
    (c : Comparator) → IsTotalOrder c.compare → IsTransitive (compare_internal c)
unfolding compare_internal Decided by_trailer
compare_internal_trans c t x y z p q = cases (first→Decided _ _ p) (first→Decided _ _ q)
  where
    u : List ℕ
    u = extract_user_key x

    v : List ℕ
    v = extract_user_key y

    w : List ℕ
    w = extract_user_key z

    cases :
        Decided (c.compare u v) (by_trailer (trailer x) (trailer y))
        → Decided (c.compare v w) (by_trailer (trailer y) (trailer z))
        → first (c.compare u w) (by_trailer (trailer x) (trailer z)) ≡ Ordering.lt
    cases (inl a) (inl b) = rw (t.trans u v w a b)
    cases (inl a) (inr (b, q)) = rw (sym (t.equal v w b), a)
    cases (inr (a, p)) (inl b) = rw (t.equal u v a, b)
    cases (inr (a, p)) (inr (b, q)) =
        rw (t.equal u v a ∙ t.equal v w b, t.same w)
          (by_trailer_trans (trailer x) (trailer y) (trailer z) p q)

-- For a level in the order of its files' largest keys, of less than 2 ^ 31 files, the binary search of
-- `FindFile` ends and gives the number of files at the front whose largest key is below the key, as
-- going through the files would: the index of the first other file, or the number of files.
pub find_file-count_while :
    (c : Comparator) (files : List FileMetaData) (key : List ℕ)
    → IsTotalOrder c.compare
    → IsSortedLevel (compare_internal c) files
    → length files < 2 ^ 31
    → find_file (internal_key_comparator c) files key
      ≡ some (count_while (ends_below (internal_key_comparator c) key) files)
find_file-count_while c files key t s h =
    find_file_count (internal_key_comparator c) key (compare_internal_trans c t) files s h
