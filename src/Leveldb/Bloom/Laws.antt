-- ===== src/Leveldb/Bloom/Laws.antt =====
-- The Bloom filter has no false negatives.
use native.Mathlib.Nat.{mod-lt, one-le-pow, mul-le-mul_left}
use wormholefilters.Base.{
  ℕ, zero, suc, ◌+◌, ◌-◌, ◌*◌, ◌/◌, ◌%◌, ◌^◌, ◌≤◌, ◌<◌, ◌≡◌, ◌≢◌, true, List, [], ◌∷◌, ◌++◌, refl,
  ◌∙◌, arith, ltb, ne→==, le→ltb, lt→ltb, ltb→le, byte_at-append_right, u32, bit_and, bit_or,
  length, length-append, length-replicate, length-set, replicate, byte_at, get_or-set_self,
  get_or-set_ne, get_or-append_left, bit_and-bit_or_left, bit_and-bit_or_right, Bool-cases, inl,
  inr,
}
use native.Mathlib.Decide.{ℕ_discrete}
use wormholefilters.Leveldb.Bloom.{
  bloom_hash, new_policy, rotate17, set_bit, set_probes, set_keys, bytes_for, create_filter,
  test_probes, key_may_match,
}
use wormholefilters.Leveldb.Hash.{sign_extend}

-- Every bit of `a` is set in `b`.
abbrev Keeps : List ℕ → List ℕ → Type 0
Keeps a b = (i m : ℕ) → i < length a → bit_and (byte_at a i) m ≤ bit_and (byte_at b i) m

Keeps-trans : (a b c : List ℕ) → length b ≡ length a → Keeps a b → Keeps b c → Keeps a c
Keeps-trans a b c e p q i m h = omega (arith, p i m h, q i m (omega (arith, e, h)))

length-set_bit : (a : List ℕ) (p : ℕ) → length (set_bit a p) ≡ length a
unfolding set_bit
length-set_bit a p = length-set a (p / 8) _

set_bit-Keeps : (a : List ℕ) (p : ℕ) → Keeps a (set_bit a p)
unfolding set_bit
set_bit-Keeps a p i m h = elim (ℕ_discrete (p / 8) i) [
  | no ne ↦ rw (get_or-set_ne a (p / 8) i _ 0 ne) (omega arith)
  | yes e ↦
      rw (e, get_or-set_self a i (bit_or (byte_at a i) (1 * 2 ^ (p % 8))) 0 h)
        (bit_and-bit_or_left (byte_at a i) (1 * 2 ^ (p % 8)) m)
]

set_bit_lem :
    (a : List ℕ) (p : ℕ)
    → p < 8 * length a
    → 0 < bit_and (byte_at (set_bit a p) (p / 8)) (1 * 2 ^ (p % 8))
unfolding set_bit
set_bit_lem a p h =
    let mask = 1 * 2 ^ (p % 8) in
    rw (get_or-set_self a (p / 8) (bit_or (byte_at a (p / 8)) mask) 0 (omega arith)) (
      omega
        (arith, one-le-pow (p % 8) 2 (omega arith), bit_and-bit_or_right mask (byte_at a (p / 8))))

module _ (bits delta : ℕ) where
  length-set_probes :
      (rounds : ℕ) (a : List ℕ) (h : ℕ) → length (set_probes bits delta a rounds h) ≡ length a
  unfolding set_probes
  length-set_probes zero a h = refl
  length-set_probes (suc rounds) a h =
      length-set_probes rounds (set_bit a (u32 (h % bits))) (u32 (h + delta))
      ∙ length-set_bit a (u32 (h % bits))

  set_probes-Keeps : (rounds : ℕ) (a : List ℕ) (h : ℕ) → Keeps a (set_probes bits delta a rounds h)
  unfolding set_probes
  set_probes-Keeps zero a h = λ i m lt. omega arith
  set_probes-Keeps (suc rounds) a h =
      let p = u32 (h % bits) in
      Keeps-trans a (set_bit a p) _ (length-set_bit a p) (set_bit-Keeps a p)
        (set_probes-Keeps rounds (set_bit a p) (u32 (h + delta)))

  -- An array that keeps the bits that were set for a key passes its test.
  set_probes-test_probes :
      (rounds : ℕ) (a b : List ℕ) (h : ℕ)
      → 0 < bits
      → bits ≡ 8 * length a
      → Keeps (set_probes bits delta a rounds h) b
      → test_probes b bits delta rounds h ≡ true
  unfolding test_probes
  set_probes-test_probes zero a b h pos e keeps = refl
  set_probes-test_probes (suc rounds) a b h pos e keeps =
      let p = u32 (h % bits) in
      let a' = set_bit a p in
      let len = length-set_bit a p in
      let p-lt : p < 8 * length a = omega (arith, mod-lt h pos, e) in
      let kept : Keeps a' b =
        Keeps-trans a' (set_probes bits delta a' rounds (u32 (h + delta))) b
          (length-set_probes rounds a' (u32 (h + delta)))
          (set_probes-Keeps rounds a' (u32 (h + delta))) (unfold set_probes in keeps) in
      let here = kept (p / 8) (1 * 2 ^ (p % 8)) (omega (arith, len, p-lt)) in
      let set : bit_and (byte_at b (p / 8)) (1 * 2 ^ (p % 8)) ≢ 0 =
        λ z. omega (arith, z, here, set_bit_lem a p p-lt) in
      rw (ne→== _ 0 set) (
        set_probes-test_probes rounds a' b (u32 (h + delta)) pos (omega (arith, e, len))
          (unfold set_probes in keeps))

module _ (bits k : ℕ) where
  length-set_keys : (keys : List (List ℕ)) (a : List ℕ) → length (set_keys bits k a keys) ≡ length a
  unfolding set_keys
  length-set_keys [] a = refl
  length-set_keys (key ∷ keys) a =
      let h = bloom_hash key in
      length-set_keys keys (set_probes bits (rotate17 h) a k h)
      ∙ length-set_probes bits (rotate17 h) k a h

  set_keys-Keeps : (keys : List (List ℕ)) (a : List ℕ) → Keeps a (set_keys bits k a keys)
  unfolding set_keys
  set_keys-Keeps [] a = λ i m lt. omega arith
  set_keys-Keeps (key ∷ keys) a =
      let h = bloom_hash key in
      let a' = set_probes bits (rotate17 h) a k h in
      Keeps-trans a a' (set_keys bits k a' keys) (length-set_probes bits (rotate17 h) k a h)
        (set_probes-Keeps bits (rotate17 h) k a h) (set_keys-Keeps keys a')

  set_keys-test_probes :
      (front : List (List ℕ)) (key : List ℕ) (back : List (List ℕ)) (a b : List ℕ)
      → 0 < bits
      → bits ≡ 8 * length a
      → Keeps (set_keys bits k a (front ++ (key ∷ back))) b
      → test_probes b bits (rotate17 (bloom_hash key)) k (bloom_hash key) ≡ true
  set_keys-test_probes [] key back a b pos e keeps =
      let h = bloom_hash key in
      let a' = set_probes bits (rotate17 h) a k h in
      set_probes-test_probes bits (rotate17 h) k a b h pos e (
        Keeps-trans a' (set_keys bits k a' back) b (length-set_keys back a')
          (set_keys-Keeps back a') (unfold set_keys in keeps))
  set_keys-test_probes (j ∷ front) key back a b pos e keeps =
      let h = bloom_hash j in
      set_keys-test_probes front key back (set_probes bits (rotate17 h) a k h) b pos
        (omega (arith, e, length-set_probes bits (rotate17 h) k a h)) (unfold set_keys in keeps)

k_range : (b : ℕ) → (new_policy b).k ≤ 30
unfolding new_policy
k_range b = omega arith

-- The byte of `k_` that ends a filter is in the range that `KeyMayMatch` tests.
module _ (b n : ℕ) (b-lt : b < 2 ^ 31) (n-lt : n < 2 ^ 31) where
  bytes_for_range : (0 < bytes_for (new_policy b) n) × (bytes_for (new_policy b) n < 2 ^ 60)
  unfolding bytes_for new_policy
  bytes_for_range =
      let m : n * b ≤ n * 2 ^ 31 = mul-le-mul_left n (omega arith) in
      elim (Bool-cases (ltb (n * b % 2 ^ 64) 64)) [
        | inl lt ↦ rw lt (omega arith)
        | inr ge ↦ rw ge (ground (arith, m, ltb→le (n * b % 2 ^ 64) 64 ge))
      ]

-- `KeyMayMatch` on an array and the number of probes.
key_may_match-append :
    (key array : List ℕ) (k : ℕ)
    → 1 ≤ length array
    → k ≤ 30
    → test_probes
        (array ++ (k ∷ []))
        (length array * 8)
        (rotate17 (bloom_hash key))
        k
        (bloom_hash key)
      ≡ true
    → key_may_match key (array ++ (k ∷ [])) ≡ true
unfolding key_may_match sign_extend
key_may_match-append key array k pos small e =
    let len : length (array ++ (k ∷ [])) ≡ length array + 1 = length-append array (k ∷ []) in
    let last : length array + 1 - 1 ≡ length array + 0 = omega arith in
    let width : length array + 0 ≡ length array = omega arith in
    let char : ltb k 128 ≡ true = lt→ltb k 128 (omega arith) in
    rw
      (
        len,
        le→ltb (length array + 1) 2 (omega arith),
        last,
        byte_at-append_right array (k ∷ []) 0,
        char,
        le→ltb 30 k small,
        width,
      )
      e

-- No false negatives: for fewer than 2 ^ 31 keys and bits per key `CreateFilter` appends a filter
-- to `*dst`, and on this filter `KeyMayMatch` answers true for every key of the list.
pub key_may_match-create_filter :
    (b : ℕ) (front : List (List ℕ)) (key : List ℕ) (back : List (List ℕ)) (dst : List ℕ)
    → b < 2 ^ 31
    → length (front ++ (key ∷ back)) < 2 ^ 31
    → (bloom_filter : List ℕ) × (create_filter (new_policy b) (front ++ (key ∷ back)) dst
        ≡ dst ++ bloom_filter)
      × (key_may_match key bloom_filter ≡ true)
unfolding create_filter
key_may_match-create_filter b front key back dst b-lt n-lt =
    let keys = front ++ (key ∷ back) in
    let policy = new_policy b in
    let bytes = bytes_for policy (length keys) in
    let zeros = replicate {A = ℕ} bytes 0 in
    let array = set_keys (bytes * 8) policy.k zeros keys in
    let end = policy.k ∷ [] in
    let (pos, small) = bytes_for_range b (length keys) b-lt n-lt in
    let room = length-replicate {A = ℕ} bytes 0 in
    let len : length array ≡ bytes = length-set_keys (bytes * 8) policy.k keys zeros ∙ room in
    let keeps : Keeps array (array ++ end) =
      λ i m lt. rw (get_or-append_left array end i 0 lt) (omega arith) in
    let found =
      set_keys-test_probes (bytes * 8) policy.k front key back zeros (array ++ end)
        (omega (arith, pos)) (omega (arith, room)) keeps in
    (
      array ++ end,
      refl,
      key_may_match-append key array policy.k (omega (arith, len, pos)) (k_range b) (rw len found),
    )
