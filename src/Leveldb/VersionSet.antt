-- ===== src/Leveldb/VersionSet.antt =====
-- leveldb/db/version_set.cc: the search for a file in a sorted level, the test whether a file of a
-- level overlaps a range of user keys, and the iterator over the files of a level. A null key is `none`.
pub mod FindFile
pub mod Inputs
pub mod Overlap
use wormholefilters.Base.{
  ℕ, zero, suc, ◌+◌, ◌-◌, ◌/◌, Bool, true, false, not, ◌&&◌, ◌||◌, Option, none, some, List, [],
  ◌∷◌, ◌++◌, ◌==◌, ltb, leb, if◌then◌else◌, u32, length,
}
use wormholefilters.Leveldb.Coding.{encode_fixed64}
use wormholefilters.Leveldb.Comparator.{Comparator}
use wormholefilters.Leveldb.DbFormat.{
  is_less, internal_key_comparator, extract_user_key, append_internal_key, max_sequence_number,
  value_type_for_seek,
}
use wormholefilters.Leveldb.VersionEdit.{FileMetaData}
use Prim.Native.Nat.{Ordering}

-- The file of an index, where there is one.
abbrev pub file_at : List FileMetaData → ℕ → Option FileMetaData
file_at [] i = none
file_at (f ∷ files) zero = some f
file_at (f ∷ files) (suc i) = file_at files i

abbrev pub is_greater : Ordering → Bool
is_greater Ordering.lt = false
is_greater Ordering.eq = false
is_greater Ordering.gt = true

module _ (icmp : Comparator) where
  -- The test of the loop of `FindFile`: the largest key of the file is below the key.
  unfoldable pub ends_below : List ℕ → FileMetaData → Bool
  ends_below key f = is_less (icmp.compare f.largest key)

  abbrev pub ends_below_at : List FileMetaData → List ℕ → ℕ → Bool
  ends_below_at files key i = elim (file_at files i) [ none ↦ false | some f ↦ ends_below key f ]

  -- One round: `left` and `right` after it.
  unfoldable pub narrow : List FileMetaData → List ℕ → ℕ → ℕ → ℕ × ℕ
  narrow files key left right =
      let mid = u32 (left + right) / 2 in
      if ends_below_at files key mid then (mid + 1, right) else (left, mid)

  -- The loop of `FindFile`; `none` when there is no fuel left.
  unfoldable pub find_loop : List FileMetaData → List ℕ → ℕ → ℕ → ℕ → Option ℕ
  find_loop files key zero left right = none
  find_loop files key (suc fuel) left right = elim (ltb left right) [
    | false ↦ some right
    | true ↦ let (l, r) = narrow files key left right in find_loop files key fuel l r
  ]

  -- A round makes the range shorter, so the number of files is enough fuel.
  unfoldable pub find_file : List FileMetaData → List ℕ → Option ℕ
  find_file files key = find_loop files key (suc (u32 (length files))) 0 (u32 (length files))

module _ (ucmp : Comparator) where
  unfoldable pub after_file : Option (List ℕ) → FileMetaData → Bool
  after_file none f = false
  after_file (some user_key) f = is_greater (ucmp.compare user_key (extract_user_key f.largest))

  unfoldable pub before_file : Option (List ℕ) → FileMetaData → Bool
  before_file none f = false
  before_file (some user_key) f = is_less (ucmp.compare user_key (extract_user_key f.smallest))

  -- The loop over all files, for a level whose files may overlap.
  unfoldable pub any_overlap : List FileMetaData → Option (List ℕ) → Option (List ℕ) → Bool
  any_overlap [] smallest largest = false
  any_overlap (f ∷ files) smallest largest =
      let rest = any_overlap files smallest largest in
      if after_file smallest f || before_file largest f then rest else true

  -- The earliest internal key of a user key.
  unfoldable pub small_key : List ℕ → List ℕ
  small_key user_key =
      append_internal_key []
        (record { user_key = user_key; sequence = max_sequence_number; type = value_type_for_seek })

  -- Where the binary search starts.
  unfoldable pub start_index : List FileMetaData → Option (List ℕ) → Option ℕ
  start_index files none = some 0
  start_index files (some user_key) =
      find_file (internal_key_comparator ucmp) files (small_key user_key)

  abbrev pub not_before_at : List FileMetaData → Option (List ℕ) → ℕ → Bool
  not_before_at files largest i = elim (file_at files i) [
    | none ↦ false
    | some f ↦ not (before_file largest f)
  ]

  -- `SomeFileOverlapsRange`; `none` when the search has no fuel left.
  unfoldable pub some_file_overlaps_range :
      Bool → List FileMetaData → Option (List ℕ) → Option (List ℕ) → Option Bool
  some_file_overlaps_range false files smallest largest = some (any_overlap files smallest largest)
  some_file_overlaps_range true files smallest largest = elim (start_index files smallest) [
    | none ↦ none
    | some index ↦ some (not_before_at files largest index)
  ]

-- `LevelFileNumIterator`: the index is the length of the list when it is not valid.
module _ (icmp : Comparator) (flist : List FileMetaData) where
  unfoldable pub valid : ℕ → Bool
  valid index = ltb index (length flist)

  unfoldable pub seek : List ℕ → Option ℕ
  seek target = find_file icmp flist target

  unfoldable pub seek_to_last : ℕ
  seek_to_last = if length flist == 0 then 0 else u32 (length flist - 1)

  -- `Next` and `Prev`, for a valid index.
  unfoldable pub next_index : ℕ → ℕ
  next_index index = u32 (index + 1)

  unfoldable pub prev_index : ℕ → ℕ
  prev_index index = if index == 0 then u32 (length flist) else index - 1

-- `value()`: the number and the size of the file.
unfoldable pub file_value : FileMetaData → List ℕ
file_value f = encode_fixed64 f.number ++ encode_fixed64 f.file_size
