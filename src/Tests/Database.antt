-- ===== src/Tests/Database.antt =====
-- leveldb/db and leveldb/util/comparator.cc.
use Prim.Native.Nat.{Ordering}
use wormholefilters.Base.{
  ℕ, ◌≤◌, ◌<◌, ◌≡◌, ◌≢◌, true, false, none, some, List, [], ◌∷◌, ◌++◌, refl, arith, length,
}
use wormholefilters.Leveldb.Comparator.Order.{compare_slice-IsTotalOrder}
use wormholefilters.Leveldb.Comparator.Separator.{bytewise_comparator-IsLawful}
use wormholefilters.Leveldb.Comparator.{
  compare_slice, memcmp, separator_at, diff_index, find_shortest_separator, find_short_successor,
  bytewise_comparator,
}
use wormholefilters.Leveldb.Coding.{put_fixed64, encode_fixed64, decode_fixed64}
use wormholefilters.Leveldb.DbFormat.Order.{
  newest_first, compare_internal-newest_first, compare_internal-new_lookup_key,
  internal_separator_lem,
}
use wormholefilters.Leveldb.DbFormat.{
  ParsedInternalKey, deletion, value, append_internal_key, compare_internal, internal_separator,
  new_lookup_key, internal_key, internal_key_comparator, extract_user_key, trailer,
  pack_sequence_and_type, is_less,
}
use wormholefilters.Leveldb.VersionEdit.{FileMetaData, file_meta}
use wormholefilters.Leveldb.VersionSet.FindFile.{IsSortedLevel, find_file-count_while, count_while}
use wormholefilters.Leveldb.VersionSet.Inputs.Closed.{IsClosed, get_overlapping_inputs-IsClosed}
use wormholefilters.Leveldb.VersionSet.Inputs.{
  Range, get_overlapping_inputs, passes, pass, is_outside, ends_before, starts_behind,
  starts_before, ends_behind,
}
use wormholefilters.Leveldb.VersionSet.Overlap.{IsDisjointLevel, some_file_overlaps_range-sorted}
use wormholefilters.Leveldb.VersionSet.{
  find_file, ends_below, any_overlap, after_file, before_file, some_file_overlaps_range,
}

abbrev ab : List ℕ
ab = 97 ∷ 98 ∷ []

abbrev ad : List ℕ
ad = 97 ∷ 100 ∷ []

-- The shortest string between "ab" and "ad" is "ac".
separator_ab : find_shortest_separator ab ad ≡ 97 ∷ 99 ∷ []
unfolding find_shortest_separator separator_at diff_index
separator_ab = refl

successor_ab : find_short_successor (255 ∷ ab) ≡ 255 ∷ 98 ∷ []
unfolding find_short_successor
successor_ab = refl

abbrev entry : ParsedInternalKey
entry = record { user_key = ab; sequence = 7; type = deletion }

abbrev later : ParsedInternalKey
later = record { user_key = ab; sequence = 9; type = value }

compare_internal-newest_first_example :
    compare_internal bytewise_comparator
      (append_internal_key [] later)
      (append_internal_key [] entry)
    ≡ newest_first bytewise_comparator later entry
compare_internal-newest_first_example =
    compare_internal-newest_first bytewise_comparator later entry (omega arith) (omega arith)

compare_internal-new_lookup_key_example :
    (9 ≤ 8
      → compare_internal bytewise_comparator
          (internal_key (new_lookup_key ab 8))
          (append_internal_key [] later)
        ≢ Ordering.gt)
    × (8 < 9
        → compare_internal bytewise_comparator
            (internal_key (new_lookup_key ab 8))
            (append_internal_key [] later)
          ≡ Ordering.gt)
compare_internal-new_lookup_key_example =
    compare_internal-new_lookup_key bytewise_comparator later 8 bytewise_comparator-IsLawful
      (omega arith) (omega arith)

before_lem :
    compare_internal bytewise_comparator
      (append_internal_key [] entry)
      (99 ∷ append_internal_key [] entry)
    ≡ Ordering.lt
unfolding compare_internal append_internal_key put_fixed64 encode_fixed64 pack_sequence_and_type
    extract_user_key compare_slice memcmp
before_lem = refl

internal_separator_lem_example :
    (compare_internal bytewise_comparator (append_internal_key [] entry) (
        internal_separator bytewise_comparator
          (append_internal_key [] entry)
          (99 ∷ append_internal_key [] entry))
      ≢ Ordering.gt)
    × (compare_internal bytewise_comparator
          (internal_separator bytewise_comparator
            (append_internal_key [] entry)
            (99 ∷ append_internal_key [] entry))
          (99 ∷ append_internal_key [] entry)
        ≡ Ordering.lt)
    × (length (
          internal_separator bytewise_comparator
            (append_internal_key [] entry)
            (99 ∷ append_internal_key [] entry))
        ≤ length (append_internal_key [] entry))
internal_separator_lem_example =
    internal_separator_lem bytewise_comparator (append_internal_key [] entry)
      (99 ∷ append_internal_key [] entry) bytewise_comparator-IsLawful before_lem

-- Two files of a level: from "ab" to "ad", and from "b" to "c".
abbrev key_of : List ℕ → List ℕ
key_of u = u ++ (1 ∷ 7 ∷ 0 ∷ 0 ∷ 0 ∷ 0 ∷ 0 ∷ 0 ∷ [])

abbrev level : List FileMetaData
level =
    file_meta 3 100 (key_of ab) (key_of ad)
    ∷ file_meta 4 100 (key_of (98 ∷ [])) (key_of (99 ∷ []))
    ∷ []

sorted_level : IsSortedLevel (compare_internal bytewise_comparator) level
unfolding compare_internal extract_user_key compare_slice memcmp
sorted_level = ((refl, tt), (tt, tt))

disjoint_level : IsDisjointLevel bytewise_comparator level
unfolding extract_user_key compare_slice memcmp trailer decode_fixed64 pack_sequence_and_type
disjoint_level = (omega arith, ((λ e. cc), tt), (omega arith, tt, tt))

find_file-count_while_example :
    find_file (internal_key_comparator bytewise_comparator) level (key_of (98 ∷ []))
    ≡ some (
        count_while
          (ends_below (internal_key_comparator bytewise_comparator) (key_of (98 ∷ [])))
          level)
find_file-count_while_example =
    find_file-count_while bytewise_comparator level (key_of (98 ∷ [])) compare_slice-IsTotalOrder
      sorted_level (omega arith)

some_file_overlaps_range-sorted_example :
    some_file_overlaps_range bytewise_comparator true level (some (97 ∷ 122 ∷ [])) none
    ≡ some_file_overlaps_range bytewise_comparator false level (some (97 ∷ 122 ∷ [])) none
some_file_overlaps_range-sorted_example =
    some_file_overlaps_range-sorted bytewise_comparator level (some (97 ∷ 122 ∷ [])) none
      compare_slice-IsTotalOrder sorted_level disjoint_level (omega arith)

overlap_run :
    some_file_overlaps_range bytewise_comparator false level (some (97 ∷ 122 ∷ [])) (some (98 ∷ []))
    ≡ some true
unfolding some_file_overlaps_range any_overlap after_file before_file extract_user_key compare_slice
    memcmp is_less
overlap_run = refl

-- The second file passes the end of the range from "ac" to "b", and the first one its beginning.
abbrev middle : Range
middle = record { begin = some (97 ∷ 99 ∷ []); end = some (98 ∷ []) }

get_overlapping_inputs-IsClosed_example :
    IsClosed bytewise_comparator compare_slice-IsTotalOrder true middle level
      (get_overlapping_inputs bytewise_comparator true middle level)
get_overlapping_inputs-IsClosed_example =
    get_overlapping_inputs-IsClosed bytewise_comparator compare_slice-IsTotalOrder true middle level

inputs_run : get_overlapping_inputs bytewise_comparator true middle level ≡ some level
unfolding get_overlapping_inputs passes pass is_outside ends_before starts_behind starts_before
    ends_behind extract_user_key compare_slice memcmp is_less
inputs_run = refl
