-- ===== src/Leveldb/Compaction/Work.antt =====
-- `DoCompactionWork` of leveldb/db/db_impl.cc, from the entries of the merged inputs to the files.
use wormholefilters.Base.{
  ℕ, suc, ◌+◌, Bool, true, false, not, ◌&&◌, Option, none, some, List, [], ◌∷◌, ◌++◌, ◌==◌, leb,
  if◌then◌else◌, u64, length,
}
use wormholefilters.Leveldb.Compaction.{
  DeepLevel, Grandparents, should_stop_before, LastKey, no_key, drops, after_key,
}
use wormholefilters.Leveldb.Comparator.{Comparator}
use wormholefilters.Leveldb.DbFormat.{parse_internal_key}
use wormholefilters.Leveldb.VersionEdit.{FileMetaData, VersionEdit, add_file, remove_file}

-- `input->key()` and `input->value()`.
pub record Entry : Type 0 where
  pub key : List ℕ
  pub val : List ℕ

-- `CompactionState::Output`, with the entries that its table builder has been given.
pub record Output : Type 0 where
  pub number : ℕ
  pub file_size : ℕ
  pub smallest : List ℕ
  pub largest : List ℕ
  pub entries : List Entry

-- What the files answer: the number of the n-th output, whether it is opened and whether it is
-- finished, and the size of the file of a table before it is finished and after; whether the database shuts down when so many
-- entries are left.
pub record Files : Type 0 where
  pub number : ℕ → ℕ
  pub opens : ℕ → Bool
  pub finishes : ℕ → Bool
  pub size_of : List Entry → ℕ
  pub finished_size_of : List Entry → ℕ
  pub shutting_down : ℕ → Bool

-- `builder` is the last output while its table is built.
pub record CompactionState : Type 0 where
  pub last_key : LastKey
  pub levels : List DeepLevel
  pub grandparents : Grandparents
  pub outputs : List Output
  pub builder : Option Output
  pub total_bytes : ℕ

abbrev pub new_output : ℕ → Output
new_output number = record {
  number = number;
  file_size = 0;
  smallest = [];
  largest = [];
  entries = [];
}

abbrev pub new_levels : List (List FileMetaData) → List DeepLevel
new_levels [] = []
new_levels (files ∷ levels) = record { files = files; ptr = 0 } ∷ new_levels levels

-- A new `Compaction` with its state, for the files of the levels from `level_ + 2` on and of the
-- grandparents.
abbrev pub new_compaction : List (List FileMetaData) → List FileMetaData → CompactionState
new_compaction levels grandparents = record {
  last_key = no_key;
  levels = new_levels levels;
  grandparents = record { files = grandparents; index = 0; seen_key = false; overlapped_bytes = 0 };
  outputs = [];
  builder = none;
  total_bytes = 0;
}

module _ (ucmp : Comparator) (io : Files)
    (max_file_size max_output_file_size smallest_snapshot : ℕ) where
  -- `FinishCompactionOutputFile`, for the output that is built.
  unfoldable pub finish_compaction_output_file : Output → CompactionState → Bool × CompactionState
  finish_compaction_output_file out c =
      let current_bytes = io.finished_size_of out.entries in
      (
        io.finishes (length c.outputs),
        record c {
          outputs = c.outputs ++ (record out { file_size = current_bytes } ∷ []);
          builder = none;
          total_bytes = u64 (c.total_bytes + current_bytes);
        },
      )

  abbrev pub finish_if_open : Option Output → CompactionState → Bool × CompactionState
  finish_if_open none c = (true, c)
  finish_if_open (some out) c = finish_compaction_output_file out c

  -- `OpenCompactionOutputFile`, if there is no output yet.
  abbrev pub open_if_none : Option Output → CompactionState → Bool × Output
  open_if_none (some out) c = (true, out)
  open_if_none none c = (io.opens (length c.outputs), new_output (io.number (length c.outputs)))

  unfoldable pub add_entry : Entry → Output → Output
  add_entry e out = record out {
    smallest = if length out.entries == 0 then e.key else out.smallest;
    largest = e.key;
    entries = out.entries ++ (e ∷ []);
  }

  -- An entry that is not dropped.
  unfoldable pub emit : Entry → CompactionState → Bool × CompactionState
  emit e c =
      let (ok, out) = open_if_none c.builder c in
      let out' = add_entry e out in
      let c' = record c { builder = some out' } in
      if not ok
      then (false, record c { outputs = c.outputs ++ (out ∷ []) })
      else if leb max_output_file_size (io.size_of out'.entries)
      then finish_compaction_output_file out' c'
      else (true, c')

  -- `drop`, and the variables after it.
  unfoldable pub handle_key : Entry → CompactionState → Bool × CompactionState
  handle_key e c = elim (parse_internal_key e.key) [
    | none ↦ (false, record c { last_key = no_key })
    | some ikey ↦
        let (drop, levels) = drops ucmp smallest_snapshot c.last_key ikey c.levels in
        (drop, record c { last_key = after_key ucmp c.last_key ikey; levels = levels })
  ]

  unfoldable pub emit_unless : Bool → Entry → CompactionState → Bool × CompactionState
  emit_unless true e c = (true, c)
  emit_unless false e c = emit e c

  -- `ShouldStopBefore`, which closes the output.
  unfoldable pub stop_before : Entry → CompactionState → Bool × CompactionState
  stop_before e c =
      let (stop, g) = should_stop_before ucmp max_file_size e.key c.grandparents in
      let c' = record c { grandparents = g } in
      if stop then finish_if_open c.builder c' else (true, c')

  -- One round of the loop.
  unfoldable pub compaction_round : Entry → CompactionState → Bool × CompactionState
  compaction_round e c =
      let (ok, c₁) = stop_before e c in
      let (drop, c₂) = handle_key e c₁ in
      let r = emit_unless drop e c₂ in if ok then r else (false, c₁)

  -- The loop, with the number of entries that it has left.
  unfoldable pub compaction_loop : List Entry → CompactionState → Bool × (ℕ × CompactionState)
  compaction_loop [] c = (true, (0, c))
  compaction_loop (e ∷ input) c =
      let (ok, c') = compaction_round e c in
      let rest = compaction_loop input c' in
      if io.shutting_down (suc (length input))
      then (true, (suc (length input), c))
      else if ok
      then rest
      else (false, (suc (length input), c'))

  -- After the loop; `input_ok` is the status of the merged inputs.
  unfoldable pub after_loop : Bool → Bool × (ℕ × CompactionState) → Bool × CompactionState
  after_loop input_ok (ok, (left, c)) =
      let (finished, c') = finish_if_open c.builder c in
      if ok && not (io.shutting_down left) then (finished && input_ok, c') else (false, c)

  unfoldable pub do_compaction_work : Bool → List Entry → CompactionState → Bool × CompactionState
  do_compaction_work input_ok input c = after_loop input_ok (compaction_loop input c)

-- `AddInputDeletions`
unfoldable pub remove_files : VersionEdit → ℕ → List FileMetaData → VersionEdit
remove_files edit level [] = edit
remove_files edit level (f ∷ files) = remove_files (remove_file edit level f.number) level files

unfoldable pub add_input_deletions :
    VersionEdit → ℕ → List FileMetaData → List FileMetaData → VersionEdit
add_input_deletions edit level inputs₀ inputs₁ =
    remove_files (remove_files edit level inputs₀) (level + 1) inputs₁

unfoldable pub add_outputs : VersionEdit → ℕ → List Output → VersionEdit
add_outputs edit level [] = edit
add_outputs edit level (out ∷ outputs) =
    add_outputs (add_file edit level out.number out.file_size out.smallest out.largest) level
      outputs

-- The edit of `InstallCompactionResults`, before it is applied.
unfoldable pub install_compaction_results :
    VersionEdit → ℕ → List FileMetaData → List FileMetaData → List Output → VersionEdit
install_compaction_results edit level inputs₀ inputs₁ outputs =
    add_outputs (add_input_deletions edit level inputs₀ inputs₁) (level + 1) outputs
