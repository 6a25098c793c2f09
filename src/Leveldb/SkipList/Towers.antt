-- ===== src/Leveldb/SkipList/Towers.antt =====
-- Lists of the nodes of a skip list, and a node between others.
use wormholefilters.Base.{
  ℕ, zero, suc, ◌≤◌, ◌<◌, ◌≡◌, ◌≢◌, Bool-cases, inl, inr, ltb, le→ltb, List, [], ◌∷◌, ◌++◌, All,
  refl, sym, ap, arith,
}
use wormholefilters.Leveldb.Comparator.{Comparator}
use wormholefilters.Leveldb.SkipList.Chains.{Tower, level, last, IsFresh, IsDistinct}
use wormholefilters.Leveldb.SkipList.Find.{ids, IsSorted}
use wormholefilters.Leveldb.Random.{one_in}
use wormholefilters.Leveldb.SkipList.{height_loop, random_height}
use Prim.Native.Nat.{Ordering}

unfoldable pub keys : (ℕ → List ℕ) → List Tower → List (List ℕ)
keys key_of [] = []
keys key_of (t ∷ towers) = key_of t.id ∷ keys key_of towers

pub keys-append :
    (key_of : ℕ → List ℕ) (a b : List Tower) → keys key_of (a ++ b) ≡ keys key_of a ++ keys key_of b
unfolding keys
keys-append key_of [] b = refl
keys-append key_of (t ∷ a) b = ap (◌∷◌ (key_of t.id)) (keys-append key_of a b)

pub keys_same :
    (key_of key_of' : ℕ → List ℕ) (towers : List Tower)
    → All (λ (t : Tower). key_of' t.id ≡ key_of t.id) towers
    → keys key_of' towers ≡ keys key_of towers
unfolding keys
keys_same key_of key_of' [] a = refl
keys_same key_of key_of' (t ∷ towers) (e, a) = rw (e, keys_same key_of key_of' towers a)

pub height_loop_least : (left seed height : ℕ) → height ≤ (height_loop left seed height).0
unfolding height_loop
height_loop_least zero seed height = omega arith
height_loop_least (suc left) seed height = elim (Bool-cases ((one_in seed 4).0)) [
  | inl e ↦ rw e (omega (arith, height_loop_least left ((one_in seed 4).1) (suc height)))
  | inr e ↦ rw e (omega arith)
]

pub random_height_positive : (seed : ℕ) → 0 < (random_height seed).0
unfolding random_height
random_height_positive seed = omega (arith, height_loop_least 11 seed 1)

-- A property of the numbers of the nodes is one of the nodes of a level.
pub level-All :
    (P : ℕ → Type 0) (i : ℕ) (towers : List Tower)
    → All (λ (t : Tower). P t.id) towers
    → All P (level i towers)
unfolding level
level-All P i [] a = tt
level-All P i (t ∷ towers) (p, a) = elim (Bool-cases (ltb i t.height)) [
  | inl e ↦ rw e (p, level-All P i towers a)
  | inr e ↦ rw e (level-All P i towers a)
]

pub ids-All :
    (P : ℕ → Type 0) (towers : List Tower) → All P (ids towers) → All (λ (t : Tower). P t.id) towers
unfolding ids
ids-All P [] a = tt
ids-All P (t ∷ towers) (p, a) = (p, ids-All P towers a)

pub level-IsDistinct :
    (i : ℕ) (towers : List Tower) → IsDistinct (ids towers) → IsDistinct (level i towers)
unfolding level ids
level-IsDistinct i [] d = tt
level-IsDistinct i (t ∷ towers) (f, d) = elim (Bool-cases (ltb i t.height)) [
  | inl e ↦ rw e (
    level-All (λ (y : ℕ). y ≢ t.id) i towers (ids-All (λ (y : ℕ). y ≢ t.id) towers f),
    level-IsDistinct i towers d,
  )
  | inr e ↦ rw e (level-IsDistinct i towers d)
]

pub map_All :
    {P Q : Tower → Type 0} (towers : List Tower)
    → ((t : Tower) → P t → Q t)
    → All P towers
    → All Q towers
map_All [] f a = tt
map_All (t ∷ towers) f (p, a) = (f t p, map_All towers f a)

pub low :
    (i : ℕ) (towers : List Tower) → All (λ (t : Tower). t.height ≤ i) towers → level i towers ≡ []
unfolding level
low i [] a = refl
low i (t ∷ towers) (h, a) = rw (le→ltb i t.height h) (low i towers a)

pub last_All : (P : ℕ → Type 0) (x : ℕ) (ys : List ℕ) → P x → All P ys → P (last x ys)
unfolding last
last_All P x [] p a = p
last_All P x (y ∷ ys) p (q, a) = last_All P y ys q a

pub IsDistinct-insert :
    (xs : List ℕ) (x : ℕ) (ys : List ℕ)
    → IsFresh x (xs ++ ys)
    → IsDistinct (xs ++ ys)
    → IsDistinct (xs ++ (x ∷ ys))
IsDistinct-insert [] x ys f d = (f, d)
IsDistinct-insert (w ∷ xs) x ys (n, f) (g, d) =
    (fresh_insert xs g (λ e. n (sym e)), IsDistinct-insert xs x ys f d)
  where
    fresh_insert : (xs : List ℕ) → IsFresh w (xs ++ ys) → x ≢ w → IsFresh w (xs ++ (x ∷ ys))
    fresh_insert [] g n = (n, g)
    fresh_insert (v ∷ xs) (e, g) n = (e, fresh_insert xs g n)

pub ids-append : (a b : List Tower) → ids (a ++ b) ≡ ids a ++ ids b
unfolding ids
ids-append [] b = refl
ids-append (t ∷ a) b = ap (◌∷◌ t.id) (ids-append a b)

pub All-left : {A : Type 0} (P : A → Type 0) (xs ys : List A) → All P (xs ++ ys) → All P xs
All-left P [] ys a = tt
All-left P (x ∷ xs) ys (p, a) = (p, All-left P xs ys a)

pub All-right : {A : Type 0} (P : A → Type 0) (xs ys : List A) → All P (xs ++ ys) → All P ys
All-right P [] ys a = a
All-right P (x ∷ xs) ys (p, a) = All-right P xs ys a

pub All-insert :
    {A : Type 0} (P : A → Type 0) (xs : List A) (y : A) (ys : List A)
    → P y
    → All P (xs ++ ys)
    → All P (xs ++ (y ∷ ys))
All-insert P [] y ys p a = (p, a)
All-insert P (x ∷ xs) y ys p (q, a) = (q, All-insert P xs y ys p a)

module _ (cmp : Comparator) where
  pub IsSorted-keys :
      (key_of key_of' : ℕ → List ℕ) (towers : List Tower)
      → All (λ (t : Tower). key_of' t.id ≡ key_of t.id) towers
      → IsSorted cmp key_of towers
      → IsSorted cmp key_of' towers
  IsSorted-keys key_of key_of' [] e o = tt
  IsSorted-keys key_of key_of' (t ∷ towers) (e, es) (o, os) =
      (before towers es o, IsSorted-keys key_of key_of' towers es os)
    where
      before :
          (towers : List Tower)
          → All (λ (t : Tower). key_of' t.id ≡ key_of t.id) towers
          → All (λ (u : Tower). cmp.compare (key_of t.id) (key_of u.id) ≡ Ordering.lt) towers
          → All (λ (u : Tower). cmp.compare (key_of' t.id) (key_of' u.id) ≡ Ordering.lt) towers
      before [] es o = tt
      before (u ∷ towers) (f, es) (o, os) = (rw (e, f) o, before towers es os)

  pub IsSorted-insert :
      (key_of : ℕ → List ℕ) (a : List Tower) (new : Tower) (b : List Tower)
      → All (λ (t : Tower). cmp.compare (key_of t.id) (key_of new.id) ≡ Ordering.lt) a
      → All (λ (t : Tower). cmp.compare (key_of new.id) (key_of t.id) ≡ Ordering.lt) b
      → IsSorted cmp key_of (a ++ b)
      → IsSorted cmp key_of (a ++ (new ∷ b))
  IsSorted-insert key_of [] new b p q o = (q, o)
  IsSorted-insert key_of (t ∷ a) new b (e, p) q (o, os) = (
    All-insert (λ (u : Tower). cmp.compare (key_of t.id) (key_of u.id) ≡ Ordering.lt) a new b e o,
    IsSorted-insert key_of a new b p q os,
  )
