-- ===== src/Leveldb/VersionEdit/Getters.antt =====
-- The reads of internal keys and of levels.
use wormholefilters.Base.{ℕ, ◌^◌, ◌<◌, List, [], ◌∷◌, refl, arith, ltb, lt→ltb, length}
use wormholefilters.Leveldb.Getter.Laws.{Shrinking, Reads, such_that-Reads, such_that-Shrinking}
use wormholefilters.Leveldb.Varint.RoundTrip.{
  get_varint32-encode_varint32, get_length_prefixed_slice-put_length_prefixed_slice,
}
use wormholefilters.Leveldb.Varint.Shrink.{length-get_varint32, length-get_length_prefixed_slice}
use wormholefilters.Leveldb.Varint.{encode_varint32, get_varint32, get_length_prefixed_slice}
use wormholefilters.Leveldb.VersionEdit.{get_internal_key, get_level, is_nonempty, slice_bytes}

pub get_internal_key-Reads :
    (key : List ℕ)
    → 0 < length key
    → length key < 2 ^ 32
    → Reads get_internal_key (slice_bytes key) key
unfolding get_internal_key slice_bytes is_nonempty
get_internal_key-Reads [] pos h = absurd (omega arith)
get_internal_key-Reads (b ∷ bs) pos h =
    such_that-Reads get_length_prefixed_slice is_nonempty (slice_bytes (b ∷ bs)) (b ∷ bs)
      (λ rest. get_length_prefixed_slice-put_length_prefixed_slice (b ∷ bs) rest h) refl

pub get_level-Reads : (level : ℕ) → level < 7 → Reads get_level (encode_varint32 level) level
unfolding get_level
get_level-Reads level h =
    such_that-Reads get_varint32 (λ v. ltb v 7) (encode_varint32 level) level
      (λ rest. get_varint32-encode_varint32 level rest (omega (arith, h))) (lt→ltb level 7 h)

pub get_level-Shrinking : Shrinking get_level
unfolding get_level
get_level-Shrinking = such_that-Shrinking get_varint32 (λ v. ltb v 7) length-get_varint32

pub get_internal_key-Shrinking : Shrinking get_internal_key
unfolding get_internal_key
get_internal_key-Shrinking =
    such_that-Shrinking get_length_prefixed_slice is_nonempty length-get_length_prefixed_slice
