-- ===== src/PmFilter/Keys.antt =====
-- The operations on keys against the abstract view: how many copies of a key the filter counts.
use native.Mathlib.Nat.{mod-lt}
use wormholefilters.Base.{
  ℕ, ◌+◌, ◌*◌, ◌/◌, ◌%◌, ◌^◌, ◌≤◌, ◌<◌, ◌≡◌, ◌↔◌, Bool, true, false, ◌&&◌, Option, none, some, refl,
  sym, ap, ◌∙◌, arith, ◌==◌, to_nat, u32, ◌>>>◌, bit_and_mask, get_or,
}
use wormholefilters.PmFilter.Delete.{AfterDelete, clear_match-AfterDelete}
use wormholefilters.PmFilter.Store.{IsValid, store_laws}
use wormholefilters.PmFilter.{
  Filter, hasher, index_hash, tag_hash, insert, lookup, delete, store, clear_match, read_tag,
}
use wormholefilters.Probe
use wormholefilters.Probe.Count.{count, count_iff}
use wormholefilters.Probe.Lookup.{probe_words_iff}
use wormholefilters.Probe.{probe_words}
use wormholefilters.Swar.{lane}
use wormholefilters.Probe.Insert.{AfterInsert, insert-AfterInsert}

-- The home bucket of a key, and its fingerprint of 12 bits.
unfoldable pub home : ℕ → ℕ → ℕ
home n key = index_hash (hasher key) n

unfoldable pub fingerprint : ℕ → ℕ
fingerprint key = tag_hash (hasher key >>> 32) / 16

-- Two keys that a filter of `n` buckets cannot tell apart.
abbrev pub collides : ℕ → ℕ → ℕ → Bool
collides n j k = home n j == home n k && fingerprint k == fingerprint j

-- How often the filter counts a key in.
unfoldable pub copies : Filter → ℕ → ℕ
copies f key = count store f (home f.num_buckets key) (fingerprint key)

-- The fingerprint 0 is not used, so no tag is 0.
tag_hash_lem :
    (hv : ℕ)
    → (tag_hash hv ≡ tag_hash hv / 16 * 16) × (0 < tag_hash hv / 16) × (tag_hash hv / 16 < 2 ^ 12)
unfolding tag_hash
tag_hash_lem hv = rw (bit_and_mask 12 (u32 hv)) (ground arith)

pub home-lt : (n key : ℕ) → 0 < n → home n key < n
unfolding home index_hash
home-lt n key pos = mod-lt (u32 (hasher key)) pos

pub fingerprint_pos : (key : ℕ) → 0 < fingerprint key
unfolding fingerprint
fingerprint_pos key = (tag_hash_lem (hasher key >>> 32)).1

fingerprint-lt : (key : ℕ) → fingerprint key < 2 ^ 12
unfolding fingerprint
fingerprint-lt key = (tag_hash_lem (hasher key >>> 32)).2

module _ (f : Filter) (key : ℕ) where
  -- The operations in terms of the home and the fingerprint.
  insert_key : insert f key ≡ Probe.insert store f (home f.num_buckets key) (fingerprint key * 16)
  unfolding insert home fingerprint
  insert_key =
      ap (Probe.insert store f (home f.num_buckets key)) (tag_hash_lem (hasher key >>> 32)).0

  bucket : ℕ → ℕ
  bucket prob = get_or f.buckets ((home f.num_buckets key + prob) % f.num_buckets) 0

  lookup_key : lookup f key ≡ probe_words bucket (fingerprint key * 16) 16 0
  unfolding lookup home fingerprint bucket
  lookup_key = ap (λ (t : ℕ). probe_words bucket t 16 0) (tag_hash_lem (hasher key >>> 32)).0

  delete_key : delete f key ≡ clear_match f (home f.num_buckets key) (fingerprint key * 16) 16 0
  unfolding delete home fingerprint
  delete_key =
      ap (λ (t : ℕ). clear_match f (home f.num_buckets key) t 16 0)
        (tag_hash_lem (hasher key >>> 32)).0

bucket-lt : (f : Filter) (key : ℕ) → IsValid f → (p : ℕ) → bucket f key p < 2 ^ 64
unfolding bucket
bucket-lt f key v p = v.words _

-- The lane of a bucket that is tested is the tag that `ReadTag` reads.
read_tag-bucket :
    (f : Filter) (key d j : ℕ) → read_tag f (home f.num_buckets key + d) j ≡ lane (bucket f key d) j
unfolding read_tag bucket
read_tag-bucket f key d j = refl

-- A lookup answers true exactly for the keys that the filter counts in.
pub lookup_iff : (f : Filter) (key : ℕ) → IsValid f → (lookup f key ≡ true) ↔ (0 < copies f key)
unfolding copies
lookup_iff f key v =
    let fp = fingerprint key in
    let probed = probe_words_iff (bucket f key) (bucket-lt f key v) fp (fingerprint-lt key) in
    let counted = count_iff store store_laws f (home f.num_buckets key) fp v in
    rw (lookup_key f key) (
      λ e.
          let (d, d-lt, (j, j-lt, eq)) = probed.0 e in
          counted.1 (d, d-lt, (j, j-lt, read_tag-bucket f key d j ∙ eq)),
      λ p.
          let (d, d-lt, (j, j-lt, eq)) = counted.0 p in
          probed.1 (d, d-lt, (j, j-lt, sym (read_tag-bucket f key d j) ∙ eq)),
    )

copies-at :
    (f f' : Filter) (k : ℕ)
    → f'.num_buckets ≡ f.num_buckets
    → copies f' k ≡ count store f' (home f.num_buckets k) (fingerprint k)
unfolding copies
copies-at f f' k e = rw e

-- What an insertion of `key` does to the copies of `k`, on every way out.
abbrev pub Inserted : Filter → ℕ → ℕ → Option (Bool × Filter) → Type 0
Inserted f key k none = ⊥
Inserted f key k (some (true, f')) =
    IsValid f'
    × (f'.num_buckets ≡ f.num_buckets)
    × (copies f' k ≡ copies f k + to_nat (collides f.num_buckets k key))
Inserted f key k (some (false, f')) =
    IsValid f'
    × (f'.num_buckets ≡ f.num_buckets)
    × (copies f k ≤ copies f' k)
    × (copies f' k ≤ copies f k + 1)
    × (copies f' k ≤ copies f k + copies f k)

Inserted-AfterInsert :
    (f : Filter) (key k : ℕ) (r : Option (Bool × Filter))
    → AfterInsert store store_laws f.num_buckets
        (count store f (home f.num_buckets k) (fingerprint k))
        (home f.num_buckets k)
        (fingerprint k)
        (home f.num_buckets key)
        (fingerprint key)
        r
    → Inserted f key k r
Inserted-AfterInsert f key k none p = p
Inserted-AfterInsert f key k (some (true, f')) (v, w, e) =
    (v, w, omega (arith, copies-at f f' k w, copies-at f f k refl, e))
Inserted-AfterInsert f key k (some (false, f')) (v, w, ge, le, le₂) =
    let same = copies-at f f' k w in
    let old = copies-at f f k refl in
    (
      v,
      w,
      omega (arith, same, old, ge),
      omega (arith, same, old, le),
      omega (arith, same, old, le₂),
    )

-- On a well-formed filter an insertion ends and keeps it well formed. If it returns true, the
-- filter counts one more copy of the keys that collide with the inserted one, and as many as
-- before of all others. If it returns false, no key has lost a copy, and none that had no copy
-- has gained one.
pub insert-Inserted : (f : Filter) (key k : ℕ) → IsValid f → Inserted f key k (insert f key)
insert-Inserted f key k v =
    let n = f.num_buckets in
    rw (insert_key f key) (
      Inserted-AfterInsert f key k (Probe.insert store f (home n key) (fingerprint key * 16)) (
        insert-AfterInsert store store_laws f (home n k) (fingerprint k) (home n key)
          (fingerprint key) v (fingerprint_pos k) (home-lt n k v.pos) (home-lt n key v.pos)
          (fingerprint-lt key)))

abbrev pub Deleted : Filter → ℕ → ℕ → Bool × Filter → Type 0
Deleted f key k (true, f') =
    IsValid f'
    × (f'.num_buckets ≡ f.num_buckets)
    × (copies f' k + to_nat (collides f.num_buckets k key) ≡ copies f k)
Deleted f key k (false, f') = (f' ≡ f) × (copies f key ≡ 0)

Deleted-AfterDelete :
    (f : Filter) (key k : ℕ) (r : Bool × Filter)
    → IsValid f
    → ((v : IsValid f)
        → AfterDelete f v
            (home f.num_buckets key)
            (fingerprint key)
            (fingerprint-lt key)
            (home-lt f.num_buckets key v.pos)
            r)
    → Deleted f key k r
Deleted-AfterDelete f key k (true, f') v p =
    let (v', w, e) = p v in
    (
      v',
      w,
      omega (
        arith,
        copies-at f f' k w,
        copies-at f f k refl,
        e (home f.num_buckets k) (fingerprint k) (fingerprint_pos k)
            (home-lt f.num_buckets k v.pos),
      ),
    )
Deleted-AfterDelete f key k (false, f') v p =
    let (same, e) = p v in (same, copies-at f f key refl ∙ e)

-- On a well-formed filter a deletion that returns true keeps it well formed and takes one copy
-- from the keys that collide with the deleted one and none from others. One that returns false
-- changes nothing, and the key had no copy.
pub delete-Deleted : (f : Filter) (key k : ℕ) → IsValid f → Deleted f key k (delete f key)
delete-Deleted f key k v = rw (delete_key f key) (
    Deleted-AfterDelete f key k (clear_match f (home f.num_buckets key) (fingerprint key * 16) 16 0)
      v
      (λ w.
        clear_match-AfterDelete f w (home f.num_buckets key) (fingerprint key) (fingerprint-lt key)
          (home-lt f.num_buckets key w.pos)))
