-- ===== src/Leveldb/Wormhole/Policy.antt =====
-- `CreateFilter`: which keys the filter that it appends answers for.
use wormholefilters.Base.{
  ℕ, ◌+◌, ◌*◌, ◌%◌, ◌^◌, ◌≤◌, ◌<◌, ◌≡◌, ◌↔◌, Bool, true, false, ◌&&◌, ◌||◌, Option, none, some,
  List, [], ◌∷◌, ◌++◌, refl, sym, ap, ap₂, ◌∙◌, arith, length, length-replicate, get_or-replicate,
  ◌==◌, to_nat, to_nat-or, Bool_ext, load16,
}
use wormholefilters.Leveldb.Wormhole.Filter.{
  filter_of, home, home-lt, fingerprint, fingerprint_range, key_may_match-count,
}
use wormholefilters.Leveldb.Wormhole.Size.{IsRoom, buckets_for-IsRoom}
use wormholefilters.Leveldb.Wormhole.Store.{IsValid, store_laws, read_tag-eq, begin}
use wormholefilters.Leveldb.Wormhole.{
  Table, wormhole_hash, insert_item, insert_keys, buckets_for, empty_table, create_filter,
  key_may_match, store,
}
use wormholefilters.Probe
use wormholefilters.Probe.Count.{count, count-empty}
use wormholefilters.Probe.Insert.{AfterInsert, insert-AfterInsert}

-- Keys that a filter of `n` buckets cannot tell apart.
abbrev pub collides : ℕ → List ℕ → List ℕ → Bool
collides n j k =
    home n (wormhole_hash j) == home n (wormhole_hash k)
    && fingerprint (wormhole_hash k) == fingerprint (wormhole_hash j)

pub copies : Table → List ℕ → ℕ
copies t k = count store t (home t.num_buckets (wormhole_hash k)) (fingerprint (wormhole_hash k))

copies-at :
    (t t' : Table) (k : List ℕ)
    → t'.num_buckets ≡ t.num_buckets
    → copies t' k
      ≡ count store t' (home t.num_buckets (wormhole_hash k)) (fingerprint (wormhole_hash k))
unfolding copies
copies-at t t' k e = rw e

-- `InsertItem`, on every way out.
abbrev pub Inserted : Table → List ℕ → List ℕ → Option (Bool × Table) → Type 0
Inserted t key k none = ⊥
Inserted t key k (some (true, t')) =
    IsValid t'
    × (t'.num_buckets ≡ t.num_buckets)
    × (copies t' k ≡ copies t k + to_nat (collides t.num_buckets k key))
Inserted t key k (some (false, t')) =
    IsValid t'
    × (t'.num_buckets ≡ t.num_buckets)
    × (copies t k ≤ copies t' k)
    × (copies t' k ≤ copies t k + 1)
    × (copies t' k ≤ copies t k + copies t k)

Inserted-AfterInsert :
    (t : Table) (key k : List ℕ) (r : Option (Bool × Table))
    → AfterInsert store store_laws t.num_buckets
        (count store t (home t.num_buckets (wormhole_hash k)) (fingerprint (wormhole_hash k)))
        (home t.num_buckets (wormhole_hash k))
        (fingerprint (wormhole_hash k))
        (home t.num_buckets (wormhole_hash key))
        (fingerprint (wormhole_hash key))
        r
    → Inserted t key k r
Inserted-AfterInsert t key k none p = p
Inserted-AfterInsert t key k (some (true, t')) (v, w, e) =
    (v, w, omega (arith, copies-at t t' k w, copies-at t t k refl, e))
Inserted-AfterInsert t key k (some (false, t')) (v, w, ge, le, le₂) =
    let same = copies-at t t' k w in
    let old = copies-at t t k refl in
    (
      v,
      w,
      omega (arith, same, old, ge),
      omega (arith, same, old, le),
      omega (arith, same, old, le₂),
    )

insert_item_key :
    (t : Table) (key : List ℕ)
    → insert_item (wormhole_hash key) t
      ≡ Probe.insert store t
          (home t.num_buckets (wormhole_hash key))
          (fingerprint (wormhole_hash key) * 16)
unfolding insert_item home fingerprint
insert_item_key t key = refl

insert_item-Inserted :
    (t : Table) (key k : List ℕ) → IsValid t → Inserted t key k (insert_item (wormhole_hash key) t)
insert_item-Inserted t key k v =
    let n = t.num_buckets in
    let h = wormhole_hash k in
    let g = wormhole_hash key in
    rw (insert_item_key t key) (
      Inserted-AfterInsert t key k (Probe.insert store t (home n g) (fingerprint g * 16)) (
        insert-AfterInsert store store_laws t (home n h) (fingerprint h) (home n g) (fingerprint g)
          v (fingerprint_range h).0 (home-lt t h v) (home-lt t g v) (fingerprint_range g).1))

-- The keys whose insertion returns true when `CreateFilter` inserts them in turn.
pub stored_keys : List (List ℕ) → Table → List (List ℕ)
stored_keys [] t = []
stored_keys (key ∷ keys) t = elim (insert_item (wormhole_hash key) t) [
  | none ↦ []
  | some (inserted, t') ↦ elim inserted [
    | true ↦ key ∷ stored_keys keys t'
    | false ↦ stored_keys keys t'
  ]
]

-- Some key of the list collides with `k`.
pub any_collides : ℕ → List ℕ → List (List ℕ) → Bool
any_collides n k [] = false
any_collides n k (j ∷ js) = collides n k j || any_collides n k js

-- The loop from `t` on: the table that it leaves counts in just what `t` did and the stored keys.
record Fills (t : Table) (keys : List (List ℕ)) : Type 0 where
  table : Table
  returns : insert_keys keys t ≡ some table
  valid : IsValid table
  width : table.num_buckets ≡ t.num_buckets
  counts_in :
      (k : List ℕ)
      → (0 < copies table k)
        ↔ ((0 < copies t k + to_nat (any_collides t.num_buckets k (stored_keys keys t))))

any_collides-cons :
    (n : ℕ) (k j : List ℕ) (js : List (List ℕ))
    → any_collides n k (j ∷ js) ≡ collides n k j || any_collides n k js
unfolding any_collides
any_collides-cons n k j js = refl

module _ (t : Table) (key : List ℕ) (keys : List (List ℕ)) (t' : Table) where
  stored_keys-true :
      insert_item (wormhole_hash key) t ≡ some (true, t')
      → stored_keys (key ∷ keys) t ≡ key ∷ stored_keys keys t'
  unfolding stored_keys
  stored_keys-true e = rw (e, stored_keys)

  stored_keys-false :
      insert_item (wormhole_hash key) t ≡ some (false, t')
      → stored_keys (key ∷ keys) t ≡ stored_keys keys t'
  unfolding stored_keys
  stored_keys-false e = rw (e, stored_keys)

  insert_keys_next :
      (b : Bool)
      → insert_item (wormhole_hash key) t ≡ some (b, t')
      → insert_keys (key ∷ keys) t ≡ insert_keys keys t'
  unfolding insert_keys
  insert_keys_next b e = rw (e, insert_keys)

Fills-insert :
    (t : Table) (key : List ℕ) (keys : List (List ℕ)) (r : Option (Bool × Table))
    → insert_item (wormhole_hash key) t ≡ r
    → ((k : List ℕ) → Inserted t key k r)
    → ((t' : Table) → IsValid t' → Fills t' keys)
    → Fills t (key ∷ keys)
Fills-insert t key keys none e p rest = absurd (p [])
Fills-insert t key keys (some (true, t')) e p rest =
    let f = rest t' (p []).0 in
    let stored = stored_keys-true t key keys t' e in
    record {
      table = f.table;
      returns = insert_keys_next t key keys t' true e ∙ f.returns;
      valid = f.valid;
      width = f.width ∙ (p []).1;
      counts_in = λ k.
          let n = t.num_buckets in
          let rest_width =
            ap (λ (m : ℕ). to_nat (any_collides m k (stored_keys keys t'))) (p k).1 in
          let cons =
            ap (λ x. to_nat (any_collides n k x)) stored
            ∙ ap to_nat (any_collides-cons n k key (stored_keys keys t')) in
          let both = to_nat-or (collides n k key) (any_collides n k (stored_keys keys t')) in
          (
            λ q. omega (arith, (f.counts_in k).0 q, (p k).2, rest_width, cons, both),
            λ q. (f.counts_in k).1 (omega (arith, (p k).2, rest_width, cons, both, q)),
          );
    }
Fills-insert t key keys (some (false, t')) e p rest =
    let f = rest t' (p []).0 in
    let stored = stored_keys-false t key keys t' e in
    record {
      table = f.table;
      returns = insert_keys_next t key keys t' false e ∙ f.returns;
      valid = f.valid;
      width = f.width ∙ (p []).1;
      counts_in = λ k.
          let rest_width = ap₂ (λ m x. to_nat (any_collides m k x)) (p k).1 (sym stored) in
          (
            λ q. omega (arith, (f.counts_in k).0 q, (p k), rest_width),
            λ q. (f.counts_in k).1 (omega (arith, (p k), rest_width, q)),
          );
    }

insert_keys-Fills : (keys : List (List ℕ)) (t : Table) → IsValid t → Fills t keys
insert_keys-Fills [] t v = record {
  table = t;
  returns = unfold insert_keys in refl;
  valid = v;
  width = refl;
  counts_in =
      λ k. unfold stored_keys any_collides in (λ q. omega (arith, q), λ q. omega (arith, q));
}
insert_keys-Fills (key ∷ keys) t v =
    Fills-insert t key keys (insert_item (wormhole_hash key) t) refl
      (λ k. insert_item-Inserted t key k v) (λ t' v'. insert_keys-Fills keys t' v')

empty_table-IsValid : (n b : ℕ) → IsRoom n b → IsValid (empty_table b)
unfolding empty_table
empty_table-IsValid n b r = record {
  log = r.log;
  power = r.power;
  small = r.small;
  len = length-replicate (8 * b) 0;
  bytes = λ i. rw (get_or-replicate {A = ℕ} (8 * b) i 0) (omega arith);
}

empty_table-load16 : (b p : ℕ) → load16 (empty_table b).array p ≡ 0
unfolding empty_table load16
empty_table-load16 b p =
    omega (arith, get_or-replicate {A = ℕ} (8 * b) p 0, get_or-replicate {A = ℕ} (8 * b) (p + 1) 0)

copies-empty_table : (n b : ℕ) (k : List ℕ) → IsRoom n b → copies (empty_table b) k ≡ 0
unfolding copies
copies-empty_table n b k r =
    let v = empty_table-IsValid n b r in
    count-empty store (empty_table b) (home (empty_table b).num_buckets (wormhole_hash k))
      (fingerprint (wormhole_hash k)) (fingerprint_range (wormhole_hash k)).0
      λ i j.
        read_tag-eq (empty_table b) v i j
        ∙ ap (λ (x : ℕ). x % 2 ^ 16) (empty_table-load16 b (begin (empty_table b) v i + 2 * j))

-- The keys of `CreateFilter` that are in the filter which it appends.
abbrev pub kept_keys : List (List ℕ) → List (List ℕ)
kept_keys keys = stored_keys keys (empty_table (buckets_for (length keys)))

answer_any :
    (t : Table) (b : ℕ) (k : List ℕ) (keys : List (List ℕ))
    → (a : Bool) × (key_may_match k (filter_of t) ≡ some a)
      × ((a ≡ true) ↔ (
          0 < count store t (home t.num_buckets (wormhole_hash k)) (fingerprint (wormhole_hash k))))
    → (0 < copies t k)
      ↔ (0 < copies (empty_table b) k + to_nat (any_collides (empty_table b).num_buckets k keys))
    → copies (empty_table b) k ≡ 0
    → key_may_match k (filter_of t) ≡ some (any_collides b k keys)
unfolding copies empty_table
answer_any t b k keys (a, e, iff) counted none_yet =
    e
    ∙ ap some (
        Bool_ext a (any_collides b k keys) (
          λ q. omega (arith, counted.0 (iff.0 q), none_yet),
          λ q. iff.1 (counted.1 (omega (arith, none_yet, q))),
        ))

-- For up to 2 ^ 29 keys `CreateFilter` appends a filter to `*dst`, and on this filter
-- `KeyMayMatch` loads nothing from outside and answers true exactly for the keys that collide with
-- a key whose insertion has returned true.
pub create_filter-key_may_match :
    (keys : List (List ℕ)) (dst : List ℕ)
    → length keys ≤ 2 ^ 29
    → (filter : List ℕ) × (create_filter keys dst ≡ some (dst ++ filter))
      × ((k : List ℕ)
          → key_may_match k filter
            ≡ some (any_collides (buckets_for (length keys)) k (kept_keys keys)))
unfolding create_filter
create_filter-key_may_match keys dst le =
    let b = buckets_for (length keys) in
    let room = buckets_for-IsRoom (length keys) le in
    let f = insert_keys-Fills keys (empty_table b) (empty_table-IsValid (length keys) b room) in
    (
      filter_of f.table,
      rw (f.returns, create_filter),
      λ k.
          answer_any f.table b k (kept_keys keys) (key_may_match-count f.table k f.valid)
            (f.counts_in k) (copies-empty_table (length keys) b k room),
    )
