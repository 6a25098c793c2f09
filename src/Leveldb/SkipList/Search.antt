-- ===== src/Leveldb/SkipList/Search.antt =====
-- The searches end where the nodes that they pass end.
use mathlib.Core.List.{append_assoc}
use native.Mathlib.Decide.{ℕ_discrete}
use wormholefilters.Base.{
  ℕ, zero, suc, ◌+◌, ◌≤◌, ◌<◌, ◌≡◌, Bool, true, false, Bool-cases, inl, inr, ltb, Option, none,
  some, List, [], ◌∷◌, ◌++◌, All, sym, ap, ◌∙◌, arith, length, length-append, subst, ==_refl, ne→==,
  if◌then◌else◌,
}
use wormholefilters.Leveldb.SkipList.Chains.{
  Tower, level, IsChain, last, first_of, level-append, last-append, IsChain-append, IsChain-first,
  ends, splits, split, level-high,
}
use wormholefilters.Leveldb.SkipList.{SkipList, set_at, node_or, search}

module _ (s : SkipList) (goes_on : Option ℕ → Bool) (null_stops : goes_on none ≡ false) where
  abbrev pub Passes : List Tower → Type 0
  Passes towers = All (λ (t : Tower). goes_on (some t.id) ≡ true) towers

  abbrev pub Stops : List Tower → Type 0
  Stops towers = All (λ (t : Tower). goes_on (some t.id) ≡ false) towers

  first-Stops :
      (i : ℕ) (towers : List Tower) → Stops towers → goes_on (first_of (level i towers)) ≡ false
  unfolding level
  first-Stops i [] st = null_stops
  first-Stops i (t ∷ towers) (e, st) = elim (Bool-cases (ltb i t.height)) [
    | inl h ↦ rw h e
    | inr h ↦ rw h (first-Stops i towers st)
  ]

  abbrev pub Chains : ℕ → ℕ → List Tower → Type 0
  Chains l x towers = (i : ℕ) → i ≤ l → IsChain s.next i x (level i towers)

  -- What a search from a node at a level gives.
  pub record IsFound (x l : ℕ) (prev : ℕ → ℕ) (a b : List Tower)
      (result : Option (ℕ × (Option ℕ × (ℕ → ℕ)))) : Type 0 where
    pub prev' : ℕ → ℕ
    pub returned : result ≡ some (last x (level 0 a), (first_of (level 0 b), prev'))
    pub below : (i : ℕ) → i ≤ l → prev' i ≡ last x (level i a)
    pub above : (i : ℕ) → l < i → prev' i ≡ prev i

  level_split :
      (i : ℕ) (before : List Tower) (t : Tower) (after b : List Tower)
      → i < t.height
      → level i ((before ++ (t ∷ after)) ++ b) ≡ level i before ++ (t.id ∷ level i (after ++ b))
  level_split i before t after b h =
      ap (level i) (append_assoc before (t ∷ after) b)
      ∙ (level-append i before (t ∷ (after ++ b))
          ∙ ap (◌++◌ (level i before)) (level-high i t (after ++ b) h))

  -- In the level of the search the list goes on to a node that is passed.
  moved :
      (l x : ℕ) (before : List Tower) (t : Tower) (after b : List Tower)
      → l < t.height
      → Chains l x ((before ++ (t ∷ after)) ++ b)
      → Chains l t.id (after ++ b)
  moved l x before t after b h c i le =
      IsChain-append s.next i x (level i before) t.id (level i (after ++ b)) (
        subst (IsChain s.next i x) (level_split i before t after b (omega (arith, h, le))) (c i le))

  last_moved :
      (l x : ℕ) (before : List Tower) (t : Tower) (after : List Tower) (i : ℕ)
      → i < t.height
      → last x (level i (before ++ (t ∷ after))) ≡ last t.id (level i after)
  last_moved l x before t after i h =
      ap (last x)
        (level-append i before (t ∷ after) ∙ ap (◌++◌ (level i before)) (level-high i t after h))
      ∙ last-append x (level i before) t.id (level i after)

  passed_part :
      (before : List Tower) (t : Tower) (after : List Tower)
      → Passes (before ++ (t ∷ after))
      → (goes_on (some t.id) ≡ true) × Passes after
  passed_part [] t after p = p
  passed_part (u ∷ before) t after (e, p) = passed_part before t after p

  next_in :
      (l x : ℕ) (before : List Tower) (t : Tower) (after b : List Tower)
      → level l before ≡ []
      → l < t.height
      → Chains l x ((before ++ (t ∷ after)) ++ b)
      → s.next x l ≡ some t.id
  next_in l x before t after b e h c =
      IsChain-first s.next l x (level l ((before ++ (t ∷ after)) ++ b)) (c l (omega arith))
      ∙ (ap first_of (level_split l before t after b h)
          ∙ ap (λ (ys : List ℕ). first_of (ys ++ (t.id ∷ level l (after ++ b)))) e)

  next_past :
      (l x : ℕ) (a b : List Tower)
      → level l a ≡ []
      → Chains l x (a ++ b)
      → s.next x l ≡ first_of (level l b)
  next_past l x a b e c =
      IsChain-first s.next l x (level l (a ++ b)) (c l (omega arith))
      ∙ (ap first_of (level-append l a b) ∙ ap (λ (ys : List ℕ). first_of (ys ++ level l b)) e)

  IsFound-moved :
      (x l : ℕ) (prev : ℕ → ℕ) (before : List Tower) (t : Tower) (after b : List Tower)
      (result : Option (ℕ × (Option ℕ × (ℕ → ℕ))))
      → l < t.height
      → IsFound t.id l prev after b result
      → IsFound x l prev (before ++ (t ∷ after)) b result
  IsFound-moved x l prev before t after b result h f = record {
    prev' = f.prev';
    returned =
        f.returned
        ∙ ap (λ (y : ℕ). some (y, (first_of (level 0 b), f.prev')))
            (sym (last_moved l x before t after 0 (omega (arith, h))));
    below = λ i le. f.below i le ∙ sym (last_moved l x before t after i (omega (arith, h, le)));
    above = f.above;
  }

  search_stays :
      (fuel x : ℕ) (l : ℕ) (prev : ℕ → ℕ) (n : ℕ)
      → s.next x l ≡ some n
      → goes_on (some n) ≡ true
      → search s goes_on (suc fuel) x l prev ≡ search s goes_on fuel n l prev
  unfolding search
  search_stays fuel x zero prev n e g =
      ap
        (λ (o : Option ℕ). elim (goes_on o) [
          | true ↦ search s goes_on fuel (node_or o x) 0 prev
          | false ↦ some (x, (o, set_at prev 0 x))
        ])
        e
      ∙ ap
          (λ (b : Bool). elim b [
            | true ↦ search s goes_on fuel n 0 prev
            | false ↦ some (x, (some n, set_at prev 0 x))
          ])
          g
  search_stays fuel x (suc l) prev n e g =
      ap
        (λ (o : Option ℕ). elim (goes_on o) [
          | true ↦ search s goes_on fuel (node_or o x) (suc l) prev
          | false ↦ search s goes_on fuel x l (set_at prev (suc l) x)
        ])
        e
      ∙ ap
          (λ (b : Bool). elim b [
            | true ↦ search s goes_on fuel n (suc l) prev
            | false ↦ search s goes_on fuel x l (set_at prev (suc l) x)
          ])
          g

  set_at_same : (prev : ℕ → ℕ) (i x : ℕ) → set_at prev i x i ≡ x
  set_at_same prev i x = ap (λ (c : Bool). if c then x else prev i) (==_refl i)

  search_ends :
      (fuel x : ℕ) (prev : ℕ → ℕ) (a b : List Tower)
      → level 0 a ≡ []
      → s.next x 0 ≡ first_of (level 0 b)
      → goes_on (first_of (level 0 b)) ≡ false
      → IsFound x 0 prev a b (search s goes_on (suc fuel) x 0 prev)
  unfolding search last
  search_ends fuel x prev a b e n g = record {
    prev' = set_at prev 0 x;
    returned =
        ap
          (λ (o : Option ℕ). elim (goes_on o) [
            | true ↦ search s goes_on fuel (node_or o x) 0 prev
            | false ↦ some (x, (o, set_at prev 0 x))
          ])
          n
        ∙ (ap
              (λ (c : Bool). elim c [
                | true ↦ search s goes_on fuel (node_or (first_of (level 0 b)) x) 0 prev
                | false ↦ some (x, (first_of (level 0 b), set_at prev 0 x))
              ])
              g
            ∙ ap (λ (ys : List ℕ). some (last x ys, (first_of (level 0 b), set_at prev 0 x)))
                (sym e));
    below = λ i le. at_zero i (omega (arith, le));
    above = λ i lt. rw (ne→== i 0 (omega (arith, lt)));
  }
    where
      at_zero : (i : ℕ) → i ≡ 0 → set_at prev 0 x i ≡ last x (level i a)
      at_zero i z =
          ap (set_at prev 0 x) z
          ∙ (set_at_same prev 0 x
              ∙ (ap (last x) (sym e) ∙ ap (λ (i : ℕ). last x (level i a)) (sym z)))

  search_descends :
      (fuel x l : ℕ) (prev : ℕ → ℕ) (a b : List Tower)
      → level (suc l) a ≡ []
      → s.next x (suc l) ≡ first_of (level (suc l) b)
      → goes_on (first_of (level (suc l) b)) ≡ false
      → IsFound x l (set_at prev (suc l) x) a b (search s goes_on fuel x l (set_at prev (suc l) x))
      → IsFound x (suc l) prev a b (search s goes_on (suc fuel) x (suc l) prev)
  unfolding search last
  search_descends fuel x l prev a b e n g f = record {
    prev' = f.prev';
    returned =
        ap
          (λ (o : Option ℕ). elim (goes_on o) [
            | true ↦ search s goes_on fuel (node_or o x) (suc l) prev
            | false ↦ search s goes_on fuel x l (set_at prev (suc l) x)
          ])
          n
        ∙ (ap
              (λ (c : Bool). elim c [
                | true ↦ search s goes_on fuel (node_or (first_of (level (suc l) b)) x) (suc l) prev
                | false ↦ search s goes_on fuel x l (set_at prev (suc l) x)
              ])
              g
            ∙ f.returned);
    below = λ i le. elim (ℕ_discrete i (suc l)) [
      | yes h ↦ f.above i (omega (arith, h)) ∙ at_level i h
      | no h ↦ f.below i (omega (arith, h, le))
    ];
    above = λ i lt. f.above i (omega (arith, lt)) ∙ rw (ne→== i (suc l) (omega (arith, lt)));
  }
    where
      at_level : (i : ℕ) → i ≡ suc l → set_at prev (suc l) x i ≡ last x (level i a)
      at_level i z =
          ap (set_at prev (suc l) x) z
          ∙ (set_at_same prev (suc l) x
              ∙ (ap (last x) (sym e) ∙ ap (λ (i : ℕ). last x (level i a)) (sym z)))

  past_level :
      (fuel x l : ℕ) (prev : ℕ → ℕ) (a b : List Tower)
      → ((k : ℕ) (prev : ℕ → ℕ)
          → k < l
          → Chains k x (a ++ b)
          → IsFound x k prev a b (search s goes_on fuel x k prev))
      → level l a ≡ []
      → s.next x l ≡ first_of (level l b)
      → goes_on (first_of (level l b)) ≡ false
      → Chains l x (a ++ b)
      → IsFound x l prev a b (search s goes_on (suc fuel) x l prev)
  past_level fuel x zero prev a b ih e n g c = search_ends fuel x prev a b e n g
  past_level fuel x (suc l) prev a b ih e n g c =
      search_descends fuel x l prev a b e n g
        (ih l (set_at prev (suc l) x) (omega arith) (λ i le. c i (omega (arith, le))))

  -- The search stops behind the nodes that it passes, and `prev` has the last of them in each level.
  pub search-IsFound :
      (fuel x l : ℕ) (prev : ℕ → ℕ) (a b : List Tower)
      → Passes a
      → Stops b
      → Chains l x (a ++ b)
      → length a + l < fuel
      → IsFound x l prev a b (search s goes_on fuel x l prev)
  search-IsFound zero x l prev a b p st c h = absurd (omega (arith, h))
  search-IsFound (suc fuel) x l prev a b p st c h = elim (split l a) [
    | splits before t after e f g ↦
        let (here, p') = passed_part before t after (subst Passes e p) in
        let c' = subst (λ (a : List Tower). Chains l x (a ++ b)) e c in
        subst (λ (a : List Tower). IsFound x l prev a b (search s goes_on (suc fuel) x l prev))
          (sym e)
          (IsFound-moved x l prev before t after b (search s goes_on (suc fuel) x l prev) g (
            subst (IsFound t.id l prev after b)
              (sym (search_stays fuel x l prev t.id (next_in l x before t after b f g c') here))
              (search-IsFound fuel t.id l prev after b p' st (moved l x before t after b g c')
                (omega (arith, h, ap length e, length-append before (t ∷ after))))))
    | ends e ↦
        past_level fuel x l prev a b
          (λ k prev' lt c'. search-IsFound fuel x k prev' a b p st c' (omega (arith, h, lt))) e
          (next_past l x a b e c) (first-Stops l b st) c
  ]
