-- ===== src/PmFilter/Ops.antt =====
-- A client that inserts keys and deletes only keys that it has inserted.
use wormholefilters.Base.{
  ℕ, ◌+◌, ◌^◌, ◌≤◌, ◌<◌, ◌≡◌, inl, inr, Bool, true, false, Option, none, some, List, [], ◌∷◌, refl,
  ap, arith, ◌==◌, to_nat, if◌then◌else◌, Bool-cases, ==_iff,
}
use wormholefilters.PmFilter.Keys.{
  collides, copies, Inserted, insert-Inserted, Deleted, delete-Deleted, lookup_iff,
}
use wormholefilters.PmFilter.Store.{IsValid}
use wormholefilters.PmFilter.Init.{new_filter-IsValid}
use wormholefilters.PmFilter.{Filter, new_filter, insert, lookup, delete}

pub data Op : Type 0 where
  add : ℕ → Op
  remove : ℕ → Op

-- `keys` are those whose insertion returned true and that have not been deleted since.
pub record Client : Type 0 where
  pub filter : Filter
  pub keys : List ℕ

unfoldable pub mem : ℕ → List ℕ → Bool
mem k [] = false
mem k (j ∷ js) = if j == k then true else mem k js

unfoldable pub erase : ℕ → List ℕ → List ℕ
erase k [] = []
erase k (j ∷ js) = if j == k then js else j ∷ erase k js

pub after_add : List ℕ → ℕ → Option (Bool × Filter) → Option Client
after_add keys k none = none
after_add keys k (some (true, f)) = some (record { filter = f; keys = k ∷ keys })
after_add keys k (some (false, f)) = some (record { filter = f; keys = keys })

-- A deletion that returns false would be a fault.
after_remove : List ℕ → ℕ → Bool × Filter → Option Client
after_remove keys k (true, f) = some (record { filter = f; keys = erase k keys })
after_remove keys k (false, f) = none

unfoldable pub step : Op → Client → Option Client
unfolding after_add after_remove
step (add k) c = after_add c.keys k (insert c.filter k)
step (remove k) c = if mem k c.keys then after_remove c.keys k (delete c.filter k) else some c

unfoldable pub run : List Op → Client → Option Client
run [] c = some c
run (op ∷ ops) c = elim (step op c) [ none ↦ none | some c' ↦ run ops c' ]

-- The keys of a list that a filter of `n` buckets takes for `k`.
pub colliding : ℕ → ℕ → List ℕ → ℕ
colliding n k [] = 0
colliding n k (j ∷ js) = to_nat (collides n k j) + colliding n k js

collides_refl : (n k : ℕ) → collides n k k ≡ true
collides_refl n k = ground arith

colliding-erase :
    (n k j : ℕ) (js : List ℕ)
    → mem j js ≡ true
    → colliding n k (erase j js) + to_nat (collides n k j) ≡ colliding n k js
unfolding colliding erase mem
colliding-erase n k j [] h = absurd (cc)
colliding-erase n k j (i ∷ js) h = elim (Bool-cases (i == j)) [
  | inl e ↦
      let same : i ≡ j = (==_iff i j).0 e in
      rw e (omega (arith, ap (λ (x : ℕ). to_nat (collides n k x)) same))
  | inr ne ↦ rw ne (omega (arith, colliding-erase n k j js (rw ne at h)))
]

mem-colliding : (n k : ℕ) (js : List ℕ) → mem k js ≡ true → 0 < colliding n k js
unfolding colliding mem
mem-colliding n k [] h = absurd (cc)
mem-colliding n k (i ∷ js) h = elim (Bool-cases (i == k)) [
  | inl e ↦
      let same : i ≡ k = (==_iff i k).0 e in
      omega (arith, ap (λ (x : ℕ). to_nat (collides n k x)) same, ap to_nat (collides_refl n k))
  | inr ne ↦ omega (arith, mem-colliding n k js (rw ne at h))
]

-- The filter counts at least as many copies of a key as the client has keys that it cannot tell
-- from it.
pub record Covers (c : Client) : Type 0 where
  pub valid : IsValid c.filter
  pub covered : (k : ℕ) → colliding c.filter.num_buckets k c.keys ≤ copies c.filter k

after_add-Covers :
    (c : Client) (key : ℕ) (r : Option (Bool × Filter))
    → Covers c
    → ((k : ℕ) → Inserted c.filter key k r)
    → (c' : Client) × (after_add c.keys key r ≡ some c') × Covers c'
unfolding after_add colliding
after_add-Covers c key none cov p = absurd (p 0)
after_add-Covers c key (some (true, f)) cov p = (
  record { filter = f; keys = key ∷ c.keys },
  refl,
  record {
    valid = (p 0).0;
    covered = λ k.
        omega (arith, ap (λ (n : ℕ). colliding n k (key ∷ c.keys)) (p k).1, (p k).2, cov.covered k);
  },
)
after_add-Covers c key (some (false, f)) cov p = (
  record { filter = f; keys = c.keys },
  refl,
  record {
    valid = (p 0).0;
    covered =
        λ k. omega (arith, ap (λ (n : ℕ). colliding n k c.keys) (p k).1, (p k).2, cov.covered k);
  },
)

after_remove-Covers :
    (c : Client) (key : ℕ) (r : Bool × Filter)
    → mem key c.keys ≡ true
    → Covers c
    → ((k : ℕ) → Deleted c.filter key k r)
    → (c' : Client) × (after_remove c.keys key r ≡ some c') × Covers c'
unfolding after_remove
after_remove-Covers c key (true, f) m cov p = (
  record { filter = f; keys = erase key c.keys },
  refl,
  record {
    valid = (p 0).0;
    covered = λ k. omega (
      arith,
      ap (λ (n : ℕ). colliding n k (erase key c.keys)) (p k).1,
      (p k).2,
      cov.covered k,
      colliding-erase c.filter.num_buckets k key c.keys m,
    );
  },
)
after_remove-Covers c key (false, f) m cov p =
    absurd
      (omega (arith, (p 0).1, cov.covered key, mem-colliding c.filter.num_buckets key c.keys m))

step-Covers : (op : Op) (c : Client) → Covers c → (c' : Client) × (step op c ≡ some c') × Covers c'
unfolding step
step-Covers (add key) c cov =
    after_add-Covers c key (insert c.filter key) cov λ k. insert-Inserted c.filter key k cov.valid
step-Covers (remove key) c cov = elim (Bool-cases (mem key c.keys)) [
  | inl m ↦ rw m (
      after_remove-Covers c key (delete c.filter key) m cov
        (λ k. delete-Deleted c.filter key k cov.valid))
  | inr absent ↦ rw absent (c, refl, cov)
]

run-Covers :
    (ops : List Op) (c : Client) → Covers c → (c' : Client) × (run ops c ≡ some c') × Covers c'
unfolding run
run-Covers [] c cov = (c, refl, cov)
run-Covers (op ∷ ops) c cov =
    let (c', e, cov') = step-Covers op c cov in
    let (d, e', cov'') = run-Covers ops c' cov' in (d, rw (e, run) e', cov'')

-- Every key of the client is found.
abbrev pub FindsKeys : Client → Type 0
FindsKeys c = (k : ℕ) → mem k c.keys ≡ true → lookup c.filter k ≡ true

Covers-FindsKeys : (c : Client) → Covers c → FindsKeys c
Covers-FindsKeys c cov k m =
    (lookup_iff c.filter k cov.valid).1
      (omega (arith, cov.covered k, mem-colliding c.filter.num_buckets k c.keys m))

abbrev pub start : ℕ → Client
start max_num_keys = record { filter = new_filter max_num_keys; keys = [] }

-- No false negatives: on a filter that `init` has made for 4 to 2 ^ 32 - 1 keys, any sequence of
-- insertions, and of deletions of keys that are in the filter, runs to its end, each deletion
-- returning true, and then a lookup finds every key that was inserted and not deleted.
pub run-FindsKeys :
    (m : ℕ) (ops : List Op)
    → 4 ≤ m
    → m < 2 ^ 32
    → (c : Client) × (run ops (start m) ≡ some c) × FindsKeys c
unfolding colliding
run-FindsKeys m ops ge lt =
    let cov : Covers (start m) = record {
      valid = new_filter-IsValid m ge lt;
      covered = λ k. omega arith;
    } in
    let (c, e, cov') = run-Covers ops (start m) cov in (c, e, Covers-FindsKeys c cov')
