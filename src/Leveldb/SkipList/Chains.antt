-- ===== src/Leveldb/SkipList/Chains.antt =====
-- The lists of a skip list, level by level.
use wormholefilters.Base.{
  ℕ, ◌≤◌, ◌<◌, ◌≡◌, ◌≢◌, Bool-cases, Option, none, some, inl, inr, List, [], ◌∷◌, ◌++◌, All, refl,
  sym, ap, ◌∙◌, ltb, lt→ltb, le→ltb, ltb→lt, ltb→le, if◌then◌else◌,
}

-- A node in the order of the keys, with its height.
pub record Tower : Type 0 where
  pub id : ℕ
  pub height : ℕ

-- The nodes of a level.
unfoldable pub level : ℕ → List Tower → List ℕ
level i [] = []
level i (t ∷ towers) = let rest = level i towers in if ltb i t.height then t.id ∷ rest else rest

-- The links of a level, from a node on.
abbrev pub IsChain : (ℕ → ℕ → Option ℕ) → ℕ → ℕ → List ℕ → Type 0
IsChain next i x [] = next x i ≡ none
IsChain next i x (y ∷ ys) = (next x i ≡ some y) × IsChain next i y ys

unfoldable pub last : ℕ → List ℕ → ℕ
last x [] = x
last x (y ∷ ys) = last y ys

abbrev pub first_of : List ℕ → Option ℕ
first_of [] = none
first_of (y ∷ ys) = some y

pub level-append : (i : ℕ) (xs ys : List Tower) → level i (xs ++ ys) ≡ level i xs ++ level i ys
unfolding level
level-append i [] ys = refl
level-append i (t ∷ xs) ys = elim (Bool-cases (ltb i t.height)) [
  | inl e ↦ rw (e, level-append i xs ys)
  | inr e ↦ rw (e, level-append i xs ys)
]

pub last-append : (x : ℕ) (ys : List ℕ) (y : ℕ) (zs : List ℕ) → last x (ys ++ (y ∷ zs)) ≡ last y zs
unfolding last
last-append x [] y zs = refl
last-append x (w ∷ ys) y zs = last-append w ys y zs

pub IsChain-append :
    (next : ℕ → ℕ → Option ℕ) (i x : ℕ) (ys : List ℕ) (y : ℕ) (zs : List ℕ)
    → IsChain next i x (ys ++ (y ∷ zs))
    → IsChain next i y zs
IsChain-append next i x [] y zs (e, c) = c
IsChain-append next i x (w ∷ ys) y zs (e, c) = IsChain-append next i w ys y zs c

pub IsChain-first :
    (next : ℕ → ℕ → Option ℕ) (i x : ℕ) (ys : List ℕ) → IsChain next i x ys → next x i ≡ first_of ys
IsChain-first next i x [] c = c
IsChain-first next i x (y ∷ ys) (e, c) = e

-- The next node of a level, where the list has one.
pub data Split (i : ℕ) (towers : List Tower) : Type 0 where
  ends : level i towers ≡ [] → Split i towers
  splits :
      (before : List Tower) (t : Tower) (after : List Tower)
      → towers ≡ before ++ (t ∷ after)
      → level i before ≡ []
      → i < t.height
      → Split i towers

Split-cons :
    (i : ℕ) (t : Tower) (towers : List Tower) → t.height ≤ i → Split i towers → Split i (t ∷ towers)
Split-cons i t towers h (ends e) = ends (unfold level in rw (le→ltb i t.height h) e)
Split-cons i t towers h (splits before u after e f g) =
    splits (t ∷ before) u after (ap (◌∷◌ t) e) (unfold level in rw (le→ltb i t.height h) f) g

pub split : (i : ℕ) (towers : List Tower) → Split i towers
split i [] = ends (unfold level in refl)
split i (t ∷ towers) = elim (Bool-cases (ltb i t.height)) [
  | inl e ↦ splits [] t towers refl (unfold level in refl) (ltb→lt i t.height e)
  | inr e ↦ Split-cons i t towers (ltb→le i t.height e) (split i towers)
]

pub level-high :
    (i : ℕ) (t : Tower) (towers : List Tower)
    → i < t.height
    → level i (t ∷ towers) ≡ t.id ∷ level i towers
unfolding level
level-high i t towers h = rw (lt→ltb i t.height h)

pub level-low :
    (i : ℕ) (t : Tower) (towers : List Tower) → t.height ≤ i → level i (t ∷ towers) ≡ level i towers
unfolding level
level-low i t towers h = rw (le→ltb i t.height h)

-- Links that are not written stay.
pub IsChain-same :
    (next next' : ℕ → ℕ → Option ℕ) (i x : ℕ) (ys : List ℕ)
    → ((q : ℕ) → q ≡ x → next' q i ≡ next q i)
    → All (λ (y : ℕ). next' y i ≡ next y i) ys
    → IsChain next i x ys
    → IsChain next' i x ys
IsChain-same next next' i x [] f a c = f x refl ∙ c
IsChain-same next next' i x (y ∷ ys) f (e, a) (c, cs) =
    (f x refl ∙ c, IsChain-same next next' i y ys (λ q h. rw h e) a cs)

abbrev pub IsFresh : ℕ → List ℕ → Type 0
IsFresh x ys = All (λ (y : ℕ). y ≢ x) ys

abbrev pub IsDistinct : List ℕ → Type 0
IsDistinct [] = Unit
IsDistinct (x ∷ xs) = IsFresh x xs × IsDistinct xs

last_fresh : (x w : ℕ) (ys : List ℕ) → w ≢ x → IsFresh x ys → last w ys ≢ x
unfolding last
last_fresh x w [] h f = h
last_fresh x w (y ∷ ys) h (e, f) = last_fresh x y ys e f

-- A node behind the last of some.
pub IsChain-insert :
    (next next' : ℕ → ℕ → Option ℕ) (i new x : ℕ) (xs ys : List ℕ)
    → next' new i ≡ next (last x xs) i
    → next' (last x xs) i ≡ some new
    → ((q : ℕ) → q ≢ last x xs → q ≢ new → next' q i ≡ next q i)
    → IsDistinct (x ∷ (xs ++ ys))
    → IsFresh new (x ∷ (xs ++ ys))
    → IsChain next i x (xs ++ ys)
    → IsChain next' i x (xs ++ (new ∷ ys))
unfolding last
IsChain-insert next next' i new x [] ys n p s (d, ds) (f, fs) c = (p, from_new ys d fs c)
  where
    unwritten :
        (ys : List ℕ) → IsFresh x ys → IsFresh new ys → All (λ (y : ℕ). next' y i ≡ next y i) ys
    unwritten [] d f = tt
    unwritten (y ∷ ys) (d, ds) (f, fs) = (s y d f, unwritten ys ds fs)

    from_new :
        (ys : List ℕ) → IsFresh x ys → IsFresh new ys → IsChain next i x ys → IsChain next' i new ys
    from_new [] d f c = n ∙ c
    from_new (y ∷ ys) (d, ds) (f, fs) (c, cs) =
        (n ∙ c, IsChain-same next next' i y ys (λ q h. rw h (s y d f)) (unwritten ys ds fs) cs)
IsChain-insert next next' i new x (w ∷ xs) ys n p s ((e, d), ds) (f, fs) (c, cs) = (
  s x (λ h. last_fresh x w xs e (fresh_left xs ys d) (sym h)) f ∙ c,
  IsChain-insert next next' i new w xs ys n p s ds fs cs,
)
  where
    fresh_left : (xs ys : List ℕ) → IsFresh x (xs ++ ys) → IsFresh x xs
    fresh_left [] ys f = tt
    fresh_left (y ∷ xs) ys (e, f) = (e, fresh_left xs ys f)
