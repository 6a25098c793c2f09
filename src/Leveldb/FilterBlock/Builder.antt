-- ===== src/Leveldb/FilterBlock/Builder.antt =====
-- `FilterBlockBuilder` of leveldb/table/filter_block.cc: the filters that are made, and the keys of each.
use mathlib.Core.List.{append_assoc, append-nil}
use wormholefilters.Base.{
  ℕ, ◌+◌, ◌-◌, ◌^◌, ◌<◌, ◌≡◌, true, some, List, [], ◌∷◌, ◌++◌, All, refl, sym, ap, ap₂, ◌∙◌, arith,
  length, length-append, take, drop, take_append, drop_append,
}
use wormholefilters.Leveldb.FilterBlock.{FilterPolicy, tmp_keys}

-- No false negatives, for lists of keys of which an `int` holds the length.
pub record IsFaithful (policy : FilterPolicy) : Type 0 where
  pub made :
      (k : List ℕ) (ks : List (List ℕ)) (dst : List ℕ)
      → length (k ∷ ks) < 2 ^ 31
      → (filter : List ℕ) × (policy.create_filter (k ∷ ks) dst ≡ some (dst ++ filter))
        × All (λ (j : List ℕ). policy.key_may_match j filter ≡ some true) (k ∷ ks)

unfoldable pub joined : List (List ℕ) → List ℕ
joined [] = []
joined (x ∷ xs) = x ++ joined xs

pub joined-append : (xs ys : List (List ℕ)) → joined (xs ++ ys) ≡ joined xs ++ joined ys
unfolding joined
joined-append [] ys = refl
joined-append (x ∷ xs) ys =
    ap (◌++◌ x) (joined-append xs ys) ∙ sym (append_assoc x (joined xs) (joined ys))

-- Where each string begins, if the first begins there.
unfoldable pub starts : ℕ → List (List ℕ) → List ℕ
starts n [] = []
starts n (x ∷ xs) = n ∷ starts (n + length x) xs

-- Where each ends.
unfoldable pub ends : ℕ → List (List ℕ) → List ℕ
ends n [] = []
ends n (x ∷ xs) = (n + length x) ∷ ends (n + length x) xs

plus_zero : (n : ℕ) → n ≡ n + 0
plus_zero n = omega arith

-- The last string ends where all end.
starts-append_end :
    (n : ℕ) (xs : List (List ℕ)) → starts n xs ++ ((n + length (joined xs)) ∷ []) ≡ n ∷ ends n xs
unfolding starts ends joined
starts-append_end n [] = ap (λ (m : ℕ). m ∷ []) (sym (plus_zero n))
starts-append_end n (x ∷ xs) = ap (◌∷◌ n) (
    ap (λ (m : ℕ). starts (n + length x) xs ++ (m ∷ [])) (total (length-append x (joined xs)))
    ∙ starts-append_end (n + length x) xs)
  where
    total :
        length (x ++ joined xs) ≡ length x + length (joined xs)
        → n + length (x ++ joined xs) ≡ (n + length x) + length (joined xs)
    total e = omega (arith, e)

starts-append :
    (n : ℕ) (xs : List (List ℕ)) (x : List ℕ)
    → starts n (xs ++ (x ∷ [])) ≡ starts n xs ++ ((n + length (joined xs)) ∷ [])
unfolding starts joined
starts-append n [] x = ap (λ (m : ℕ). m ∷ []) (plus_zero n)
starts-append n (y ∷ xs) x = ap (◌∷◌ n) (
    starts-append (n + length y) xs x
    ∙ ap (λ (m : ℕ). starts (n + length y) xs ++ (m ∷ [])) (total (length-append y (joined xs))))
  where
    total :
        length (y ++ joined xs) ≡ length y + length (joined xs)
        → (n + length y) + length (joined xs) ≡ n + length (y ++ joined xs)
    total e = omega (arith, e)

-- The strings are cut out of the bytes again.
pub tmp_keys-ends :
    (front : List ℕ) (xs : List (List ℕ))
    → tmp_keys (front ++ joined xs) (length front ∷ ends (length front) xs) ≡ xs
unfolding tmp_keys ends joined
tmp_keys-ends front [] = refl
tmp_keys-ends front (x ∷ xs) =
    let n = length-append front x in
    let further =
      ap₂ tmp_keys (sym (append_assoc front x (joined xs))) (ap (λ (m : ℕ). m ∷ ends m xs) (sym n))
      ∙ tmp_keys-ends (front ++ x) xs in
    ap₂ ◌∷◌
      (ap (λ (m : ℕ). take m (drop (length front) (front ++ (x ++ joined xs))))
          (difference (length front) (length x))
        ∙ (ap (take (length x)) (drop_append front (x ++ joined xs)) ∙ take_append x (joined xs)))
      further
  where
    difference : (m n : ℕ) → (m + n) - m ≡ n
    difference m n = omega arith

-- One more string.
pub joined_more : (xs : List (List ℕ)) (x : List ℕ) → joined xs ++ x ≡ joined (xs ++ (x ∷ []))
joined_more xs x =
    sym (joined-append xs (x ∷ []) ∙ ap (◌++◌ (joined xs)) (unfold joined in append-nil x))

pub starts_more :
    (xs : List (List ℕ)) (x : List ℕ)
    → starts 0 xs ++ (length (joined xs) ∷ []) ≡ starts 0 (xs ++ (x ∷ []))
starts_more xs x =
    ap (λ (m : ℕ). starts 0 xs ++ (m ∷ [])) (from_zero (length (joined xs)))
    ∙ sym (starts-append 0 xs x)
  where
    from_zero : (n : ℕ) → n ≡ 0 + n
    from_zero n = omega arith

pub starts_end : (xs : List (List ℕ)) → starts 0 xs ++ (length (joined xs) ∷ []) ≡ 0 ∷ ends 0 xs
starts_end xs =
    ap (λ (m : ℕ). starts 0 xs ++ (m ∷ [])) (from_zero (length (joined xs)))
    ∙ starts-append_end 0 xs
  where
    from_zero : (n : ℕ) → n ≡ 0 + n
    from_zero n = omega arith
