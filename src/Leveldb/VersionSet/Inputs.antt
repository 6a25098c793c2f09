-- ===== src/Leveldb/VersionSet/Inputs.antt =====
-- `Version::GetOverlappingInputs` of leveldb/db/version_set.cc.
pub mod Closed
pub mod Counts
pub mod Wider
use wormholefilters.Base.{
  ℕ, zero, suc, ◌+◌, ◌*◌, Bool, true, false, not, ◌&&◌, ◌||◌, Option, none, some, List, [], ◌∷◌,
  ◌++◌, if◌then◌else◌, length,
}
use wormholefilters.Leveldb.Comparator.{Comparator}
use wormholefilters.Leveldb.DbFormat.{is_less, extract_user_key}
use wormholefilters.Leveldb.VersionEdit.{FileMetaData}
use wormholefilters.Leveldb.VersionSet.{is_greater}

-- `user_begin` and `user_end`; a null key is `none`.
pub record Range : Type 0 where
  pub begin : Option (List ℕ)
  pub end : Option (List ℕ)

-- What a run over the files gives: the inputs, or the range with which the search restarts.
pub data Pass : Type 0 where
  done : List FileMetaData → Pass
  restart : Range → Pass

module _ (ucmp : Comparator) where
  -- The file begins before the range, or ends behind it.
  unfoldable pub starts_before : Option (List ℕ) → FileMetaData → Bool
  starts_before none f = false
  starts_before (some begin) f = is_less (ucmp.compare (extract_user_key f.smallest) begin)

  unfoldable pub ends_behind : Option (List ℕ) → FileMetaData → Bool
  ends_behind none f = false
  ends_behind (some end) f = is_greater (ucmp.compare (extract_user_key f.largest) end)

  -- It ends before the range, or begins behind it.
  unfoldable pub ends_before : Option (List ℕ) → FileMetaData → Bool
  ends_before none f = false
  ends_before (some begin) f = is_less (ucmp.compare (extract_user_key f.largest) begin)

  unfoldable pub starts_behind : Option (List ℕ) → FileMetaData → Bool
  starts_behind none f = false
  starts_behind (some end) f = is_greater (ucmp.compare (extract_user_key f.smallest) end)

  unfoldable pub is_outside : Range → FileMetaData → Bool
  is_outside r f = ends_before r.begin f || starts_behind r.end f

  -- The loop from one file on; `level0` if the files can overlap each other.
  unfoldable pub pass : Bool → Range → List FileMetaData → List FileMetaData → Pass
  pass level0 r [] inputs = done inputs
  pass level0 r (f ∷ files) inputs =
      let skipped = pass level0 r files inputs in
      let taken = pass level0 r files (inputs ++ (f ∷ [])) in
      if is_outside r f
      then skipped
      else if level0 && starts_before r.begin f
      then restart (record r { begin = some (extract_user_key f.smallest) })
      else if level0 && ends_behind r.end f
      then restart (record r { end = some (extract_user_key f.largest) })
      else taken

  -- The loop; `none` when there is no fuel left.
  unfoldable pub passes : ℕ → Bool → Range → List FileMetaData → Option (List FileMetaData)
  passes zero level0 r files = none
  passes (suc fuel) level0 r files = elim (pass level0 r files []) [
    | done inputs ↦ some inputs
    | restart r' ↦ passes fuel level0 r' files
  ]

  -- A restart moves one end of the range over an end of a file.
  unfoldable pub get_overlapping_inputs :
      Bool → Range → List FileMetaData → Option (List FileMetaData)
  get_overlapping_inputs level0 r files = passes (suc (2 * length files)) level0 r files
