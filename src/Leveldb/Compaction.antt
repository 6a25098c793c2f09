-- ===== src/Leveldb/Compaction.antt =====
-- `Compaction` of leveldb/db/version_set.cc and the work of leveldb/db/db_impl.cc that merges its inputs.
pub mod Work
pub mod BaseLevel
pub mod Reads
pub mod Hidden
pub mod Kept
pub mod Emitted
pub mod Outputs
pub mod Merged
pub mod Success
use wormholefilters.Base.{
  ℕ, zero, suc, ◌+◌, ◌-◌, ◌*◌, Bool, true, false, not, ◌&&◌, ◌||◌, Option, none, some, List, [],
  ◌∷◌, ◌++◌, ltb, leb, if◌then◌else◌, length, drop,
}
use wormholefilters.Leveldb.Comparator.{Comparator}
use wormholefilters.Leveldb.DbFormat.{
  deletion, value, ValueType, ParsedInternalKey, parse_internal_key, extract_user_key, is_less,
  compare_internal, max_sequence_number,
}
use wormholefilters.Leveldb.VersionEdit.{FileMetaData}
use wormholefilters.Leveldb.VersionSet.{is_greater}

-- `options->max_file_size` is below 2 ^ 59 and all sizes together are below 2 ^ 63, so that the products
-- and the sums fit.
unfoldable pub max_grand_parent_overlap_bytes : ℕ → ℕ
max_grand_parent_overlap_bytes max_file_size = 10 * max_file_size

unfoldable pub total_file_size : List FileMetaData → ℕ
total_file_size [] = 0
total_file_size (f ∷ files) = f.file_size + total_file_size files

-- A level below the output, from `level_ + 2` on, with its `level_ptrs_`.
pub record DeepLevel : Type 0 where
  pub files : List FileMetaData
  pub ptr : ℕ

-- `grandparents_`, of which `ShouldStopBefore` has passed some.
pub record Grandparents : Type 0 where
  pub files : List FileMetaData
  pub index : ℕ
  pub seen_key : Bool
  pub overlapped_bytes : ℕ

-- `IsTrivialMove`, by the inputs of the two levels.
unfoldable pub is_trivial_move :
    ℕ → List FileMetaData → List FileMetaData → List FileMetaData → Bool
is_trivial_move max_file_size (f ∷ []) [] grandparents =
    leb (total_file_size grandparents) (max_grand_parent_overlap_bytes max_file_size)
is_trivial_move max_file_size inputs₀ inputs₁ grandparents = false

module _ (ucmp : Comparator) where
  -- The loop over the files of one level: whether the key falls in one, and the pointer.
  unfoldable pub scan_level : List ℕ → List FileMetaData → ℕ → Bool × ℕ
  scan_level user_key [] ptr = (false, ptr)
  scan_level user_key (f ∷ files) ptr =
      let further = scan_level user_key files (suc ptr) in
      if not (is_greater (ucmp.compare user_key (extract_user_key f.largest)))
      then (not (is_less (ucmp.compare user_key (extract_user_key f.smallest))), ptr)
      else further

  unfoldable pub is_base_level_for_key : List ℕ → List DeepLevel → Bool × List DeepLevel
  is_base_level_for_key user_key [] = (true, [])
  is_base_level_for_key user_key (l ∷ levels) =
      let (inside, ptr) = scan_level user_key (drop l.ptr l.files) l.ptr in
      let (base, rest) = is_base_level_for_key user_key levels in
      let l' = record l { ptr = ptr } in if inside then (false, l' ∷ levels) else (base, l' ∷ rest)

  -- The loop of `ShouldStopBefore` on the grandparents that are left.
  unfoldable pub pass_grandparents : List ℕ → List FileMetaData → Grandparents → Grandparents
  pass_grandparents internal_key [] g = g
  pass_grandparents internal_key (f ∷ files) g =
      let further = pass_grandparents internal_key files (record g {
        index = suc g.index;
        overlapped_bytes =
            if g.seen_key then g.overlapped_bytes + f.file_size else g.overlapped_bytes;
      }) in
      if is_greater (compare_internal ucmp internal_key f.largest) then further else g

  unfoldable pub should_stop_before : ℕ → List ℕ → Grandparents → Bool × Grandparents
  should_stop_before max_file_size internal_key g =
      let g' = record (pass_grandparents internal_key (drop g.index g.files) g) {
        seen_key = true;
      } in
      if ltb (max_grand_parent_overlap_bytes max_file_size) g'.overlapped_bytes
      then (true, record g' { overlapped_bytes = 0 })
      else (false, g')

-- `current_user_key`, with `has_current_user_key`, and `last_sequence_for_key`.
pub record LastKey : Type 0 where
  pub current_user_key : Option (List ℕ)
  pub last_sequence_for_key : ℕ

abbrev pub no_key : LastKey
no_key = record { current_user_key = none; last_sequence_for_key = max_sequence_number }

abbrev pub is_deletion : ValueType → Bool
is_deletion deletion = true
is_deletion value = false

abbrev pub is_equal : Prim.Native.Nat.Ordering → Bool
is_equal o = not (is_less o) && not (is_greater o)

module _ (ucmp : Comparator) where
  abbrev pub is_same_key : Option (List ℕ) → List ℕ → Bool
  is_same_key none user_key = false
  is_same_key (some current) user_key = is_equal (ucmp.compare user_key current)

  -- `last_sequence_for_key` when the key has been compared with the last one.
  unfoldable pub last_sequence : LastKey → ParsedInternalKey → ℕ
  last_sequence s ikey =
      if is_same_key s.current_user_key ikey.user_key
      then s.last_sequence_for_key
      else max_sequence_number

  -- Whether an entry is dropped, and the pointers.
  unfoldable pub drops : ℕ → LastKey → ParsedInternalKey → List DeepLevel → Bool × List DeepLevel
  drops smallest_snapshot s ikey levels =
      if leb (last_sequence s ikey) smallest_snapshot
      then (true, levels)
      else if is_deletion ikey.type && leb ikey.sequence smallest_snapshot
      then is_base_level_for_key ucmp ikey.user_key levels
      else (false, levels)

  -- The two variables after the entry.
  unfoldable pub after_key : LastKey → ParsedInternalKey → LastKey
  after_key s ikey = record {
    current_user_key =
        if is_same_key s.current_user_key ikey.user_key
        then s.current_user_key
        else some ikey.user_key;
    last_sequence_for_key = ikey.sequence;
  }
