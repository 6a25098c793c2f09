-- ===== src/Evaluation.antt =====
-- test/evaluation.cpp: `main` fills a filter until an insertion fails, and then looks up every
-- value that it has added. The values come from `RAND_bytes` and are an argument here; the pool
-- file, the clock and the output are left out, and `errors` counts the lines "ERROR".
use wormholefilters.Base.{
  ℕ, zero, suc, ◌+◌, ◌^◌, ◌≤◌, ◌<◌, ◌≡◌, Bool, true, false, Option, none, some, List, [], ◌∷◌, refl,
  ap, ◌∙◌, arith, to_nat, not, length,
}
use wormholefilters.PmFilter.Init.{new_filter-IsValid}
use wormholefilters.PmFilter.Keys.{collides, copies, Inserted, insert-Inserted, lookup_iff}
use wormholefilters.PmFilter.Store.{IsValid}
use wormholefilters.PmFilter.{Filter, new_filter, insert, lookup}

-- The first loop and its `break`: how many values were added, and the filter.
unfoldable pub fill : Filter → List ℕ → ℕ → Option (ℕ × Filter)
fill f [] added = some (added, f)
fill f (x ∷ xs) added = elim (insert f x) [
  | none ↦ none
  | some (b, f') ↦ elim b [ true ↦ fill f' xs (added + 1) | false ↦ some (added, f') ]
]

-- The second loop, over `vals[0]` to `vals[added - 1]`.
unfoldable pub errors : Filter → List ℕ → ℕ → ℕ
errors f vals zero = 0
errors f [] (suc n) = 0
errors f (x ∷ xs) (suc n) = to_nat (not (lookup f x)) + errors f xs n

unfoldable pub evaluation : List ℕ → Option (ℕ × ℕ)
evaluation vals = elim (fill (new_filter (length vals)) vals 0) [
  | none ↦ none
  | some (added, f) ↦ some (added, errors f vals added)
]

-- From a filter that has counted in all keys of `P` the first loop comes to an end, and the
-- filter then counts in those keys and the added values.
record Filled (f : Filter) (vals : List ℕ) (added : ℕ) (r : Option (ℕ × Filter)) : Type 0 where
  total : ℕ
  filter : Filter
  returns : r ≡ some (added + total, filter)
  within : total ≤ length vals
  valid : IsValid filter
  kept : (k : ℕ) → 0 < copies f k → 0 < copies filter k
  found : errors filter vals total ≡ 0

lookup_error : (f : Filter) (k : ℕ) → IsValid f → 0 < copies f k → to_nat (not (lookup f k)) ≡ 0
lookup_error f k v p = rw ((lookup_iff f k v).1 p)

collides_self : (n k : ℕ) → to_nat (collides n k k) ≡ 1
collides_self n k = ground arith

Filled-insert :
    (f : Filter) (x : ℕ) (xs : List ℕ) (added : ℕ) (r : Option (Bool × Filter))
    → insert f x ≡ r
    → ((k : ℕ) → Inserted f x k r)
    → ((f' : Filter) → IsValid f' → Filled f' xs (added + 1) (fill f' xs (added + 1)))
    → Filled f (x ∷ xs) added (fill f (x ∷ xs) added)
unfolding fill errors
Filled-insert f x xs added none e p rest = absurd (p 0)
Filled-insert f x xs added (some (false, f')) e p rest = record {
  total = 0;
  filter = f';
  returns = rw (e, fill) (ap (λ (n : ℕ). some (n, f')) (omega arith));
  within = omega arith;
  valid = (p 0).0;
  kept = λ k pos. omega (arith, (p k).2);
  found = refl;
}
Filled-insert f x xs added (some (true, f')) e p rest =
    let t = rest f' (p 0).0 in
    let here : 0 < copies t.filter x =
      t.kept x (omega (arith, (p x).2, collides_self f.num_buckets x)) in
    record {
      total = suc t.total;
      filter = t.filter;
      returns = rw (e, fill) (t.returns ∙ ap (λ (n : ℕ). some (n, t.filter)) (omega arith));
      within = omega (arith, t.within);
      valid = t.valid;
      kept = λ k pos. t.kept k (omega (arith, (p k).2));
      found = omega (arith, t.found, lookup_error t.filter x t.valid here);
    }

fill-Filled :
    (f : Filter) (vals : List ℕ) (added : ℕ) → IsValid f → Filled f vals added (fill f vals added)
fill-Filled f [] added v = record {
  total = 0;
  filter = f;
  returns = unfold fill in ap (λ (n : ℕ). some (n, f)) (omega arith);
  within = omega arith;
  valid = v;
  kept = λ k pos. pos;
  found = unfold errors in refl;
}
fill-Filled f (x ∷ xs) added v =
    Filled-insert f x xs added (insert f x) refl (λ k. insert-Inserted f x k v)
      (λ f' v'. fill-Filled f' xs (added + 1) v')

-- On any 4 to 2 ^ 31 - 1 values the run of `main` ends, has added at most all of them, and prints
-- no "ERROR".
pub evaluation-no_errors :
    (vals : List ℕ)
    → 4 ≤ length vals
    → length vals < 2 ^ 31
    → (added : ℕ) × (added ≤ length vals) × (evaluation vals ≡ some (added, 0))
unfolding evaluation
evaluation-no_errors vals ge lt =
    let t =
      fill-Filled (new_filter (length vals)) vals 0
        (new_filter-IsValid (length vals) ge (omega (arith, lt))) in
    let e : 0 + t.total ≡ t.total = omega arith in
    (t.total, t.within, rw (t.returns, evaluation) (rw (e, t.found)))
