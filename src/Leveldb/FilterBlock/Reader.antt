-- ===== src/Leveldb/FilterBlock/Reader.antt =====
-- `FilterBlockReader` on any block.
use wormholefilters.Base.{
  ℕ, ◌+◌, ◌-◌, ◌*◌, ◌/◌, ◌≤◌, ◌<◌, ◌≡◌, ◌⊎◌, inl, inr, Bool, true, false, ◌&&◌, some, List, refl,
  arith, ltb, leb, ltb→lt, ltb→le, le→ltb, lt→leb, lt→ltb, leb→le, Bool-cases, length, byte_at,
  ◌>>>◌, ◌==◌, take, drop,
}
use wormholefilters.Leveldb.Coding.{decode_fixed32}
use wormholefilters.Leveldb.FilterBlock.{
  FilterPolicy, FilterBlockReader, new_reader, load_fixed32, load_slice, key_may_match, null_reader,
  load_byte_back, load_fixed32_back, match_filter,
}
use wormholefilters.Leveldb.Hash.{sign_extend}

-- The offsets that are counted, and the one after them, lie in the block.
record IsInBlock (r : FilterBlockReader) : Type 0 where
  shift : r.base_lg < 64
  inside : (r.num ≡ 0) ⊎ (r.offset + 4 * r.num + 4 ≤ length r.data_)

pub load_fixed32_in :
    (bytes : List ℕ) (i : ℕ)
    → i + 4 ≤ length bytes
    → load_fixed32 bytes i ≡ some (decode_fixed32 bytes i)
unfolding load_fixed32
load_fixed32_in bytes i h = rw (le→ltb (length bytes) (i + 4) h)

pub load_fixed32_back_in :
    (bytes : List ℕ) (k : ℕ)
    → 4 ≤ k
    → k ≤ length bytes
    → load_fixed32_back bytes k ≡ some (decode_fixed32 bytes (length bytes - k))
unfolding load_fixed32_back
load_fixed32_back_in bytes k f h =
    rw (le→ltb (length bytes) k (omega (arith, f, h)))
      (load_fixed32_in bytes (length bytes - k) (omega (arith, f, h)))

pub load_byte_back_in :
    (bytes : List ℕ) (k : ℕ)
    → k ≤ length bytes
    → load_byte_back bytes k ≡ some (byte_at bytes (length bytes - k))
unfolding load_byte_back
load_byte_back_in bytes k h = rw (le→ltb (length bytes) k h)

new_reader-IsInBlock :
    (contents : List ℕ)
    → (5 ≤ length contents → byte_at contents (length contents - 1) < 64)
    → (r : FilterBlockReader) × (new_reader contents ≡ some r) × IsInBlock r
unfolding new_reader sign_extend
new_reader-IsInBlock contents small =
    let n = length contents in
    let last_word = decode_fixed32 contents (n - 5) in
    elim (Bool-cases (ltb n 5)) [
      | inl short ↦
          (null_reader 0, rw (short, new_reader), record { shift = omega arith; inside = inl refl })
      | inr long ↦
          let few = small (ltb→le n 5 long) in
          let char : ltb (byte_at contents (n - 1)) 128 ≡ true =
            lt→ltb (byte_at contents (n - 1)) 128 (omega (arith, few)) in
          elim (Bool-cases (ltb (n - 5) last_word)) [
            | inl bad ↦ (
              null_reader (byte_at contents (n - 1)),
              rw (
                long,
                load_byte_back_in contents 1 (omega (arith, ltb→le n 5 long)),
                load_fixed32_back_in contents 5 (omega arith) (ltb→le n 5 long),
                char,
                bad,
                new_reader,
              ),
              record { shift = few; inside = inl refl },
            )
            | inr good ↦ (
              record {
                data_ = contents;
                offset = last_word;
                num = (n - 5 - last_word) / 4;
                base_lg = byte_at contents (n - 1);
              },
              rw (
                long,
                load_byte_back_in contents 1 (omega (arith, ltb→le n 5 long)),
                load_fixed32_back_in contents 5 (omega arith) (ltb→le n 5 long),
                char,
                good,
                new_reader,
              ),
              record {
                shift = few;
                inside = inr (omega (arith, ltb→le n 5 long, ltb→le (n - 5) last_word good));
              },
            )
          ]
    ]

pub load_slice_in :
    (bytes : List ℕ) (start limit : ℕ)
    → limit ≤ length bytes
    → load_slice bytes start limit ≡ some (take (limit - start) (drop start bytes))
unfolding load_slice
load_slice_in bytes start limit h = rw (le→ltb (length bytes) limit h)

and_right : (a : Bool) (m n : ℕ) → (a && leb m n) ≡ true → m ≤ n
and_right true m n h = leb→le m n h
and_right false m n h = absurd (cc)

-- What is done with the two offsets, wherever they point.
module _ (policy : FilterPolicy)
    (answers : (key filter : List ℕ)
      → (a : Bool) × (policy.key_may_match key filter ≡ some a)) where
  match_filter_lem :
      (bytes : List ℕ) (end start limit : ℕ) (key : List ℕ)
      → end ≤ length bytes
      → (a : Bool) × (match_filter policy bytes end start limit key ≡ some a)
  unfolding match_filter
  match_filter_lem bytes end start limit key h =
      elim (Bool-cases (leb start limit && leb limit end)) [
        | inl ok ↦
            rw (ok, match_filter)
              (rw (load_slice_in bytes start limit (limit_in ok))
                (answers key (take (limit - start) (drop start bytes))))
        | inr bad ↦
            rw (bad, match_filter)
              (elim (Bool-cases (start == limit)) [
                | inl e ↦ rw e (false, refl)
                | inr ne ↦ rw ne (true, refl)
              ])
      ]
    where
      limit_in : (leb start limit && leb limit end) ≡ true → limit ≤ length bytes
      limit_in ok = omega (arith, h, and_right (leb start limit) limit end ok)

  key_may_match_in :
      (r : FilterBlockReader) (block_offset : ℕ) (key : List ℕ)
      → IsInBlock r
      → (a : Bool) × (key_may_match policy r block_offset key ≡ some a)
  unfolding key_may_match
  key_may_match_in r block_offset key v =
      let index = block_offset >>> r.base_lg in
      let i = r.offset + index * 4 in
      rw (lt→leb r.base_lg 64 v.shift) (elim (Bool-cases (ltb index r.num)) [
        | inr past ↦ rw past (true, refl)
        | inl within ↦
            let lt = ltb→lt index r.num within in
            let room : i + 4 + 4 ≤ length r.data_ = elim v.inside [
              | inl none_there ↦ absurd (omega (arith, lt, none_there))
              | inr in_data ↦ omega (arith, lt, in_data)
            ] in
            rw
              (
                within,
                load_fixed32_in r.data_ i (omega (arith, room)),
                load_fixed32_in r.data_ (i + 4) room,
              )
              (match_filter_lem r.data_ r.offset (decode_fixed32 r.data_ i)
                (decode_fixed32 r.data_ (i + 4)) key (omega (arith, room)))
      ])

-- On any block whose last byte is below 64, and on one that is shorter than five bytes anyway, and with a
-- policy that answers for any filter, the constructor of `FilterBlockReader` and `KeyMayMatch` end with an
-- answer, and no byte, no offset and no filter that they read lies outside the block.
pub key_may_match-new_reader :
    (policy : FilterPolicy) (contents : List ℕ) (block_offset : ℕ) (key : List ℕ)
    → ((k filter : List ℕ) → (a : Bool) × (policy.key_may_match k filter ≡ some a))
    → (5 ≤ length contents → byte_at contents (length contents - 1) < 64)
    → (r : FilterBlockReader) × (new_reader contents ≡ some r)
      × ((a : Bool) × (key_may_match policy r block_offset key ≡ some a))
key_may_match-new_reader policy contents block_offset key answers small =
    let (r, made, inside) = new_reader-IsInBlock contents small in
    (r, made, key_may_match_in policy answers r block_offset key inside)
