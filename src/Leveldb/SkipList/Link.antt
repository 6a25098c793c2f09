-- ===== src/Leveldb/SkipList/Link.antt =====
-- The loop of `Insert` that writes the links.
use native.Mathlib.Decide.{ℕ_discrete}
use wormholefilters.Base.{
  ℕ, zero, suc, ◌≤◌, ◌<◌, ◌≡◌, ◌≢◌, Bool, true, false, ◌&&◌, Option, some, ◌==◌, refl, sym, ◌∙◌,
  arith, subst, ==_refl, ne→==, if◌then◌else◌,
}
use wormholefilters.Leveldb.SkipList.{SkipList, set_next, link}

-- The links below a height that has been linked.
pub record IsLinked (s : SkipList) (prev : ℕ → ℕ) (height : ℕ) (next' : ℕ → ℕ → Option ℕ)
    : Type 0 where
  pub new : (i : ℕ) → i < height → next' s.size i ≡ s.next (prev i) i
  pub before : (i : ℕ) → i < height → next' (prev i) i ≡ some s.size
  pub others : (i q : ℕ) → i < height → q ≢ prev i → q ≢ s.size → next' q i ≡ s.next q i
  pub higher : (i q : ℕ) → height ≤ i → next' q i ≡ s.next q i

set_next_same : (next : ℕ → ℕ → Option ℕ) (m n : ℕ) (x : Option ℕ) → set_next next m n x m n ≡ x
unfolding set_next
set_next_same next m n x = rw (==_refl m, ==_refl n)

set_next_node :
    (next : ℕ → ℕ → Option ℕ) (m n : ℕ) (x : Option ℕ) (q i : ℕ)
    → q ≢ m
    → set_next next m n x q i ≡ next q i
unfolding set_next
set_next_node next m n x q i h = rw (ne→== q m h)

set_next_level :
    (next : ℕ → ℕ → Option ℕ) (m n : ℕ) (x : Option ℕ) (q i : ℕ)
    → i ≢ n
    → set_next next m n x q i ≡ next q i
unfolding set_next
set_next_level next m n x q i h = rw (ne→== i n h) (and_false (q == m))
  where
    and_false : (b : Bool) → (if b && false then x else next q i) ≡ next q i
    and_false true = refl
    and_false false = refl

link_at :
    (s : SkipList) (prev : ℕ → ℕ) (k q i : ℕ)
    → link s prev (suc k) q i
      ≡ set_next
          (set_next (link s prev k) s.size k (link s prev k (prev k) k))
          (prev k)
          k
          (some s.size)
          q
          i
unfolding link
link_at s prev k q i = refl

link_other_level :
    (s : SkipList) (prev : ℕ → ℕ) (k q i : ℕ) → i ≢ k → link s prev (suc k) q i ≡ link s prev k q i
link_other_level s prev k q i h =
    let first = set_next (link s prev k) s.size k (link s prev k (prev k) k) in
    link_at s prev k q i
    ∙ (set_next_level first (prev k) k (some s.size) q i h
        ∙ set_next_level (link s prev k) s.size k (link s prev k (prev k) k) q i h)

link_new :
    (s : SkipList) (prev : ℕ → ℕ) (k : ℕ)
    → prev k ≢ s.size
    → link s prev (suc k) s.size k ≡ link s prev k (prev k) k
link_new s prev k h =
    let first = set_next (link s prev k) s.size k (link s prev k (prev k) k) in
    link_at s prev k s.size k
    ∙ (set_next_node first (prev k) k (some s.size) s.size k (λ e. h (sym e))
        ∙ set_next_same (link s prev k) s.size k (link s prev k (prev k) k))

link_before : (s : SkipList) (prev : ℕ → ℕ) (k : ℕ) → link s prev (suc k) (prev k) k ≡ some s.size
link_before s prev k =
    link_at s prev k (prev k) k
    ∙ set_next_same (set_next (link s prev k) s.size k (link s prev k (prev k) k)) (prev k) k
        (some s.size)

link_others :
    (s : SkipList) (prev : ℕ → ℕ) (k q : ℕ)
    → q ≢ prev k
    → q ≢ s.size
    → link s prev (suc k) q k ≡ link s prev k q k
link_others s prev k q m n =
    let first = set_next (link s prev k) s.size k (link s prev k (prev k) k) in
    link_at s prev k q k
    ∙ (set_next_node first (prev k) k (some s.size) q k m
        ∙ set_next_node (link s prev k) s.size k (link s prev k (prev k) k) q k n)

pub link-IsLinked :
    (s : SkipList) (prev : ℕ → ℕ) (height : ℕ)
    → ((i : ℕ) → i < height → prev i ≢ s.size)
    → IsLinked s prev height (link s prev height)
link-IsLinked s prev zero h = record {
  new = λ i lt. absurd (omega (arith, lt));
  before = λ i lt. absurd (omega (arith, lt));
  others = λ i q lt n m. absurd (omega (arith, lt));
  higher = λ i q le. unfold link in refl;
}
link-IsLinked s prev (suc k) h =
    let ih = link-IsLinked s prev k (λ i lt. h i (omega (arith, lt))) in
    record {
      new = λ i lt. elim (ℕ_discrete i k) [
        | yes e ↦
            subst (λ (i : ℕ). link s prev (suc k) s.size i ≡ s.next (prev i) i) (sym e)
              (link_new s prev k (h k (omega arith)) ∙ ih.higher k (prev k) (omega arith))
        | no e ↦ link_other_level s prev k s.size i e ∙ ih.new i (omega (arith, lt, e))
      ];
      before = λ i lt. elim (ℕ_discrete i k) [
        | yes e ↦
            subst (λ (i : ℕ). link s prev (suc k) (prev i) i ≡ some s.size) (sym e)
              (link_before s prev k)
        | no e ↦ link_other_level s prev k (prev i) i e ∙ ih.before i (omega (arith, lt, e))
      ];
      others = λ i q lt m n. elim (ℕ_discrete i k) [
        | yes e ↦
            subst (λ (i : ℕ). link s prev (suc k) q i ≡ s.next q i) (sym e)
              (link_others s prev k q (subst (λ (i : ℕ). q ≢ prev i) e m) n
                ∙ ih.higher k q (omega arith))
        | no e ↦ link_other_level s prev k q i e ∙ ih.others i q (omega (arith, lt, e)) m n
      ];
      higher = λ i q le.
          link_other_level s prev k q i (λ e. absurd (omega (arith, e, le)))
          ∙ ih.higher i q (omega (arith, le));
    }
