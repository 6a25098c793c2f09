-- ===== src/Leveldb/Comparator/Order.antt =====
-- `Slice::compare` is the lexicographic order, and a total one.
use Prim.Native.Nat.{compare, Ordering}
use mathlib.Core.Path.{fun_ext}
use wormholefilters.Base.{
  ℕ, suc, ◌≡◌, List, [], ◌∷◌, refl, ap, ap₂, ◌∙◌, arith, ltb, if◌then◌else◌, length,
}
use wormholefilters.Leveldb.Comparator.{first, memcmp, compare_slice}

-- The lexicographic order.
unfoldable pub lex : List ℕ → List ℕ → Ordering
lex [] [] = Ordering.eq
lex [] (y ∷ b) = Ordering.lt
lex (x ∷ a) [] = Ordering.gt
lex (x ∷ a) (y ∷ b) = first (compare x y) (lex a b)

abbrev pub flip : Ordering → Ordering
flip Ordering.lt = Ordering.gt
flip Ordering.eq = Ordering.eq
flip Ordering.gt = Ordering.lt

-- `compare` orders the keys totally.
pub record IsTotalOrder (cmp : List ℕ → List ℕ → Ordering) : Type 0 where
  pub same : (a : List ℕ) → cmp a a ≡ Ordering.eq
  pub flipped : (a b : List ℕ) → cmp b a ≡ flip (cmp a b)
  pub trans :
      (a b c : List ℕ) → cmp a b ≡ Ordering.lt → cmp b c ≡ Ordering.lt → cmp a c ≡ Ordering.lt
  pub equal : (a b : List ℕ) → cmp a b ≡ Ordering.eq → a ≡ b

-- What the skip list needs of its comparator.
pub record IsStrictOrder (cmp : List ℕ → List ℕ → Ordering) : Type 0 where
  pub flipped : (a b : List ℕ) → cmp b a ≡ flip (cmp a b)
  pub trans :
      (a b c : List ℕ) → cmp a b ≡ Ordering.lt → cmp b c ≡ Ordering.lt → cmp a c ≡ Ordering.lt

-- What `Slice::compare` makes of the two lengths.
by_length : ℕ → ℕ → Ordering
by_length m n = if ltb m n then Ordering.lt else if ltb n m then Ordering.gt else Ordering.eq

by_length-suc : (m n : ℕ) → by_length (suc m) (suc n) ≡ by_length m n
unfolding by_length
by_length-suc m n = ground arith

min_len : ℕ → ℕ → ℕ
min_len m n = if ltb m n then m else n

min_len-suc : (m n : ℕ) → min_len (suc m) (suc n) ≡ suc (min_len m n)
unfolding min_len
min_len-suc m n = ground arith

min_len_zero : (n : ℕ) → min_len 0 n ≡ 0
unfolding min_len
min_len_zero n = ground arith

min_len_zero_right : (n : ℕ) → min_len n 0 ≡ 0
unfolding min_len
min_len_zero_right n = ground arith

by_length_ends : (n : ℕ) → (by_length 0 (suc n) ≡ Ordering.lt) × (by_length (suc n) 0 ≡ Ordering.gt)
unfolding by_length
by_length_ends n = (ground arith, ground arith)

first_assoc : (o p q : Ordering) → first (first o p) q ≡ first o (first p q)
first_assoc Ordering.lt p q = refl
first_assoc Ordering.eq p q = refl
first_assoc Ordering.gt p q = refl

memcmp-lex :
    (a b : List ℕ)
    → first (memcmp a b (min_len (length a) (length b))) (by_length (length a) (length b)) ≡ lex a b
unfolding memcmp lex
memcmp-lex [] [] = unfold by_length min_len in refl
memcmp-lex [] (y ∷ b) = rw (min_len_zero (suc (length b)), (by_length_ends (length b)).0)
memcmp-lex (x ∷ a) [] = rw (min_len_zero_right (suc (length a)), (by_length_ends (length a)).1)
memcmp-lex (x ∷ a) (y ∷ b) =
    let m = length a in
    let n = length b in
    rw (min_len-suc m n, by_length-suc m n)
      (first_assoc (compare x y) (memcmp a b (min_len m n)) (by_length m n)
        ∙ ap (first (compare x y)) (memcmp-lex a b))

-- `Slice::compare` is the lexicographic order of the bytes.
pub compare_slice-lex : (a b : List ℕ) → compare_slice a b ≡ lex a b
unfolding compare_slice by_length min_len
compare_slice-lex a b = memcmp-lex a b

compare_refl : (x : ℕ) → compare x x ≡ Ordering.eq
compare_refl x = ground arith

compare_flip : (x y : ℕ) → compare y x ≡ flip (compare x y)
compare_flip x y = ground arith

pub lex_refl : (a : List ℕ) → lex a a ≡ Ordering.eq
unfolding lex
lex_refl [] = refl
lex_refl (x ∷ a) = rw (compare_refl x) (lex_refl a)

first-flip : (o p : Ordering) → first (flip o) (flip p) ≡ flip (first o p)
first-flip Ordering.lt p = refl
first-flip Ordering.eq p = refl
first-flip Ordering.gt p = refl

lex-flip : (a b : List ℕ) → lex b a ≡ flip (lex a b)
unfolding lex
lex-flip [] [] = refl
lex-flip [] (y ∷ b) = refl
lex-flip (x ∷ a) [] = refl
lex-flip (x ∷ a) (y ∷ b) =
    ap₂ first (compare_flip x y) (lex-flip a b) ∙ first-flip (compare x y) (lex a b)

lex_equal : (a b : List ℕ) → lex a b ≡ Ordering.eq → a ≡ b
unfolding lex
lex_equal [] [] h = refl
lex_equal [] (y ∷ b) h = absurd (cc)
lex_equal (x ∷ a) [] h = absurd (cc)
lex_equal (x ∷ a) (y ∷ b) h = ground (arith, lex_equal a b)

lex_trans : (a b c : List ℕ) → lex a b ≡ Ordering.lt → lex b c ≡ Ordering.lt → lex a c ≡ Ordering.lt
unfolding lex
lex_trans [] [] c p q = absurd (cc)
lex_trans [] (y ∷ b) [] p q = absurd (cc)
lex_trans [] (y ∷ b) (z ∷ c) p q = refl
lex_trans (x ∷ a) [] c p q = absurd (cc)
lex_trans (x ∷ a) (y ∷ b) [] p q = absurd (cc)
lex_trans (x ∷ a) (y ∷ b) (z ∷ c) p q = ground (arith, lex_trans a b c)

-- `Slice::compare` orders the strings totally, and equal means the same bytes.
pub compare_slice-IsTotalOrder : IsTotalOrder compare_slice
compare_slice-IsTotalOrder =
    let e : compare_slice ≡ lex = fun_ext (λ a. fun_ext (λ b. compare_slice-lex a b)) in
    rw e (record { same = lex_refl; flipped = lex-flip; trans = lex_trans; equal = lex_equal })
