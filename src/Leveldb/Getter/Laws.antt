-- ===== src/Leveldb/Getter/Laws.antt =====
-- Reads: what they leave is shorter, and which bytes they read a value from.
use mathlib.Core.List.{append_assoc}
use wormholefilters.Base.{
  ℕ, ◌<◌, ◌≡◌, Bool, true, false, Option, none, some, List, ◌++◌, refl, sym, ap, arith, Bool-cases,
  inl, inr, if◌then◌else◌, length,
}
use wormholefilters.Leveldb.Consume.{Round, done, fail, next}
use wormholefilters.Leveldb.Getter.{Getter, and_then, both, such_that, after_read, read}

abbrev pub Shrinking : {A : Type 0} → Getter A → Type 0
Shrinking {A} g =
    (input : List ℕ) (a : A) (rest : List ℕ) → g input ≡ some (a, rest) → length rest < length input

-- `g` reads `a` from the bytes, whatever follows.
abbrev pub Reads : {A : Type 0} → Getter A → List ℕ → A → Type 0
Reads g bytes a = (rest : List ℕ) → g (bytes ++ rest) ≡ some (a, rest)

and_then-some :
    {A B : Type 0} (o : Option (A × List ℕ)) (f : A → Getter B) (r : B × List ℕ)
    → and_then o f ≡ some r
    → (a : A) × (rest : List ℕ) × (o ≡ some (a, rest)) × (f a rest ≡ some r)
and_then-some none f r e = absurd (cc)
and_then-some (some (a, rest)) f r e = (a, rest, refl, e)

same_rest :
    {A : Type 0} (a b : A) (xs ys : List ℕ)
    → ◌≡◌ {A = Option (A × List ℕ)} (some (a, xs)) (some (b, ys))
    → xs ≡ ys
same_rest a b xs ys e = cc

module _ {A B : Type 0} (g : Getter A) (h : Getter B) where
  both-some :
      (input rest rest' : List ℕ) (a : A) (b : B)
      → g input ≡ some (a, rest)
      → h rest ≡ some (b, rest')
      → both g h input ≡ some ((a, b), rest')
  unfolding both
  both-some input rest rest' a b p q = rw p (rw q)

  pub both-Reads :
      (xs ys : List ℕ) (a : A) (b : B)
      → Reads g xs a
      → Reads h ys b
      → Reads (both g h) (xs ++ ys) (a, b)
  both-Reads xs ys a b p q rest =
      rw (append_assoc xs ys rest)
        (both-some (xs ++ (ys ++ rest)) (ys ++ rest) rest a b (p (ys ++ rest)) (q rest))

  pub both-Shrinking : Shrinking g → Shrinking h → Shrinking (both g h)
  unfolding both
  both-Shrinking p q input c rest' e =
      let (a, rest, got, e') = and_then-some (g input) _ (c, rest') e in
      let (b, rest'', got', e'') = and_then-some (h rest) _ (c, rest') e' in
      let same = ap length (same_rest (a, b) c rest'' rest' e'') in
      omega (arith, p input a rest got, q rest b rest'' got', same)

module _ {A : Type 0} (g : Getter A) (test : A → Bool) where
  pub such_that-Reads :
      (xs : List ℕ) (a : A) → Reads g xs a → test a ≡ true → Reads (such_that g test) xs a
  unfolding such_that
  such_that-Reads xs a p t rest = rw (p rest, t)

  pub such_that-Shrinking : Shrinking g → Shrinking (such_that g test)
  unfolding such_that
  such_that-Shrinking p input a rest e =
      let (b, rest', got, e') = and_then-some (g input) _ (a, rest) e in
      omega (arith, p input b rest' got, passed b rest' a rest e')
    where
      passed :
          (b : A) (rest' : List ℕ) (a : A) (rest : List ℕ)
          → if◌then◌else◌ {A = Option (A × List ℕ)} (test b) (some (b, rest')) none ≡ some (a, rest)
          → length rest ≡ length rest'
      passed b rest' a rest e = elim (Bool-cases (test b)) [
        | inl yes_it_is ↦ ap length (sym (same_rest b a rest' rest (rw yes_it_is at e)))
        | inr not_it ↦ absurd (cc (rw not_it at e))
      ]

-- A case of the `switch` whose read fits.
pub read_next :
    {A S E : Type 0} (g : Getter A) (set : A → S) (msg : E) (input rest : List ℕ) (a : A)
    → g input ≡ some (a, rest)
    → read g set msg input ≡ next (set a) rest
unfolding read
read_next g set msg input rest a e = rw e

-- The rest that a round leaves is shorter.
abbrev pub Leaves : {S E : Type 0} → List ℕ → Round S E → Type 0
Leaves input (done e) = Unit
Leaves input (fail m) = Unit
Leaves input (next e rest) = length rest < length input

after_read-Leaves :
    {A S E : Type 0} (o : Option (A × List ℕ)) (set : A → S) (msg : E) (input : List ℕ)
    → ((a : A) (rest : List ℕ) → o ≡ some (a, rest) → length rest < length input)
    → Leaves input (after_read set msg o)
unfolding after_read
after_read-Leaves none set msg input s = tt
after_read-Leaves (some (a, rest)) set msg input s = s a rest refl

pub read-Leaves :
    {A S E : Type 0} (g : Getter A) (set : A → S) (msg : E) (input : List ℕ)
    → Shrinking g
    → Leaves input (read g set msg input)
unfolding read
read-Leaves g set msg input s = after_read-Leaves (g input) set msg input (s input)

module _ {S E : Type 0} where
  pub if-Leaves :
      (input : List ℕ) (b : Bool) (x y : Round S E)
      → Leaves input x
      → Leaves input y
      → Leaves input (if b then x else y)
  if-Leaves input true x y p q = p
  if-Leaves input false x y p q = q

  pub Leaves-trans :
      (long short : List ℕ) (r : Round S E)
      → length short < length long
      → Leaves short r
      → Leaves long r
  Leaves-trans long short (done e) h p = tt
  Leaves-trans long short (fail m) h p = tt
  Leaves-trans long short (next e rest) h p = omega (arith, p)
