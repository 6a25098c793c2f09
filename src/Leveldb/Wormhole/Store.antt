-- ===== src/Leveldb/Wormhole/Store.antt =====
-- The accesses to the array of `CreateFilter`: an index counts modulo the number of buckets, which
-- is a power of two, and a write changes one tag.
use native.Mathlib.Nat.{mod-lt, mod-mod, one-le-pow}
use wormholefilters.Base.{
  ℕ, ◌+◌, ◌-◌, ◌*◌, ◌%◌, ◌^◌, ◌≤◌, ◌<◌, ◌≡◌, ◌≢◌, ◌⊎◌, refl, sym, ap, ap₂, ◌∙◌, arith, length,
  sub64, bit_and, bit_and_mask, IsBytes, load16, store16, load16-store16_self, load16-store16_ne,
  length-store16, store16-IsBytes,
}
use wormholefilters.Leveldb.Wormhole.{Table, read_tag, write_tag, store, mod_buckets, bucket_at}
use wormholefilters.Probe.Laws.{IsWrite, StoreLaws}

-- The array has `num_buckets_ * 8` bytes. Up to 2 ^ 29 buckets the 32-bit products are exact.
pub record IsValid (t : Table) : Type 0 where
  pub log : ℕ
  pub power : t.num_buckets ≡ 2 ^ log
  pub small : t.num_buckets ≤ 2 ^ 29
  pub len : length t.array ≡ 8 * t.num_buckets
  pub bytes : IsBytes t.array

pub mod_buckets-eq : (i n k : ℕ) → n ≡ 2 ^ k → n ≤ 2 ^ 29 → mod_buckets i n ≡ i % n
mod_buckets-eq i n k e small =
    let pos : 0 < n = rw e (one-le-pow k 2 (omega arith)) in
    let mask : bit_and i (sub64 n 1) ≡ i % n =
      let m : sub64 n 1 ≡ n - 1 = omega arith in rw m (rw (← e) at (bit_and_mask k i)) in
    omega (arith, mask, mod-lt i pos)

module _ (t : Table) (v : IsValid t) where
  pub num_buckets_pos : 0 < t.num_buckets
  num_buckets_pos = rw v.power (one-le-pow v.log 2 (omega arith))

  -- Where the bucket of index `i` begins.
  abbrev pub begin : ℕ → ℕ
  begin i = 8 * (i % t.num_buckets)

  pub bucket_at-eq : (i : ℕ) → bucket_at (mod_buckets i t.num_buckets) ≡ begin i
  bucket_at-eq i = omega (
    arith,
    mod_buckets-eq i t.num_buckets v.log v.power v.small,
    mod-lt i num_buckets_pos,
    v.small,
  )

  pub read_tag-eq : (i j : ℕ) → read_tag t i j ≡ load16 t.array (begin i + 2 * j) % 2 ^ 16
  unfolding read_tag
  read_tag-eq i j =
      let e : bucket_at (mod_buckets i t.num_buckets) + j * 2 ^ 1 ≡ begin i + 2 * j =
        omega (arith, bucket_at-eq i) in
      rw e (bit_and_mask 16 (load16 t.array (begin i + 2 * j)))

  write_tag-eq :
      (i j tag : ℕ)
      → write_tag t i j tag ≡ record t { array = store16 t.array (begin i + 2 * j) (tag % 2 ^ 16) }
  unfolding write_tag
  write_tag-eq i j tag =
      ap₂ (λ p x. record t { array = store16 t.array (p + 2 * j) x }) (bucket_at-eq i)
        (bit_and_mask 16 tag)

  in_array : (i j : ℕ) → j < 4 → begin i + 2 * j + 1 < length t.array
  in_array i j h = omega (arith, mod-lt i num_buckets_pos, v.len)

  module _ (i j tag : ℕ) (j-lt : j < 4) where
    abbrev written : Table
    written = record t { array = store16 t.array (begin i + 2 * j) (tag % 2 ^ 16) }

    written-IsValid : IsValid written
    written-IsValid = record {
      log = v.log;
      power = v.power;
      small = v.small;
      len = length-store16 t.array (begin i + 2 * j) (tag % 2 ^ 16) ∙ v.len;
      bytes = store16-IsBytes t.array (begin i + 2 * j) (tag % 2 ^ 16) v.bytes;
    }

    write_tag-IsValid : IsValid (write_tag t i j tag)
    write_tag-IsValid = rw (write_tag-eq i j tag) written-IsValid

    load_self : load16 written.array (begin i + 2 * j) ≡ tag % 2 ^ 16 % 2 ^ 16
    load_self = load16-store16_self t.array (begin i + 2 * j) (tag % 2 ^ 16) (in_array i j j-lt)

    load_ne :
        (i' j' : ℕ)
        → j' < 4
        → (i % t.num_buckets ≢ i' % t.num_buckets) ⊎ (j ≢ j')
        → load16 written.array (begin i' + 2 * j') ≡ load16 t.array (begin i' + 2 * j')
    load_ne i' j' j'-lt apart =
        load16-store16_ne t.array (begin i + 2 * j) (tag % 2 ^ 16) (begin i' + 2 * j') (omega arith)
          (omega arith) (omega arith)

read-written :
    (t : Table) (i j tag i' j' : ℕ) (v : IsValid t) (j-lt : j < 4)
    → read_tag (write_tag t i j tag) i' j'
      ≡ load16 (written t v i j tag j-lt).array (begin t v i' + 2 * j') % 2 ^ 16
read-written t i j tag i' j' v j-lt =
    ap (λ x. read_tag x i' j') (write_tag-eq t v i j tag)
    ∙ read_tag-eq (written t v i j tag j-lt) (written-IsValid t v i j tag j-lt) i' j'

pub write-IsWrite : IsWrite store IsValid write_tag
write-IsWrite = record {
  keeps-IsValid = λ t i j tag v j-lt. write_tag-IsValid t v i j tag j-lt;
  keeps-num_buckets = λ t i j tag. unfold write_tag in refl;
  read_self = λ t i j tag v j-lt.
      read-written t i j tag i j v j-lt ∙ omega (arith, load_self t v i j tag j-lt);
  read_ne = λ t i j tag i' j' v j-lt j'-lt apart.
      read-written t i j tag i' j' v j-lt
      ∙ ap (λ (x : ℕ). x % 2 ^ 16) (load_ne t v i j tag j-lt i' j' j'-lt apart)
      ∙ sym (read_tag-eq t v i' j');
}

pub read_tag-lt : (t : Table) (i j : ℕ) → read_tag t i j < 2 ^ 16
unfolding read_tag
read_tag-lt t i j =
    let p = bucket_at (mod_buckets i t.num_buckets) + j * 2 ^ 1 in
    omega (arith, bit_and_mask 16 (load16 t.array p))

pub read_tag-mod :
    (t : Table) (i j : ℕ) → IsValid t → read_tag t (i % t.num_buckets) j ≡ read_tag t i j
read_tag-mod t i j v =
    read_tag-eq t v (i % t.num_buckets) j
    ∙ ap (λ (x : ℕ). load16 t.array (8 * x + 2 * j) % 2 ^ 16) (mod-mod i t.num_buckets)
    ∙ sym (read_tag-eq t v i j)

pub few_buckets : (t : Table) → IsValid t → t.num_buckets ≤ 2 ^ 31
few_buckets t v = omega (arith, v.small)

abbrev pub store_laws : StoreLaws store
store_laws = record {
  IsValid = IsValid;
  pos = num_buckets_pos;
  small = few_buckets;
  read-lt = read_tag-lt;
  read-mod = read_tag-mod;
  write = write-IsWrite;
  kick = write-IsWrite;
}
