-- ===== src/Leveldb/Compaction/Success.antt =====
-- A compaction without errors of the files and without a shutdown succeeds, and keeps what is read.
use wormholefilters.Base.{
  ap, ℕ, suc, ◌≡◌, ◌≤◌, ◌<◌, All, Bool, true, false, Option, none, some, List, [], ◌∷◌, refl, leb,
  if◌then◌else◌, length,
}
use wormholefilters.Leveldb.Compaction.BaseLevel.{IsDisjoint}
use wormholefilters.Leveldb.Compaction.Emitted.{entries_of, IsParsed}
use wormholefilters.Leveldb.Compaction.Merged.{do_compaction_work-IsAnswer}
use wormholefilters.Leveldb.Compaction.Reads.{Item, find, IsSortedInput, IsAnswer}
use wormholefilters.Leveldb.Comparator.Order.{IsTotalOrder}
use wormholefilters.Leveldb.DbFormat.{max_sequence_number}
use wormholefilters.Leveldb.VersionEdit.{FileMetaData}
use wormholefilters.Leveldb.Compaction.Work.{
  new_levels, new_compaction, Entry, Output, Files, CompactionState, finish_compaction_output_file,
  finish_if_open, open_if_none, add_entry, emit, handle_key, emit_unless, stop_before,
  compaction_round, compaction_loop, after_loop, do_compaction_work,
}
use wormholefilters.Leveldb.Compaction.{should_stop_before}
use wormholefilters.Leveldb.Comparator.{Comparator}

module _ (ucmp : Comparator) (io : Files) (max_file_size max_output_file_size smallest : ℕ)
    (opens : (n : ℕ) → io.opens n ≡ true) (finishes : (n : ℕ) → io.finishes n ≡ true)
    (up : (n : ℕ) → io.shutting_down n ≡ false) where
  finish_ok :
      (b : Option Output) (c : CompactionState)
      → (finish_if_open ucmp io max_file_size max_output_file_size smallest b c).0 ≡ true
  unfolding finish_compaction_output_file
  finish_ok none c = refl
  finish_ok (some out) c = finishes (length c.outputs)

  open_ok :
      (b : Option Output) (c : CompactionState)
      → (open_if_none ucmp io max_file_size max_output_file_size smallest b c).0 ≡ true
  open_ok none c = opens (length c.outputs)
  open_ok (some out) c = refl

  if_ok :
      (b : Bool) (x y : Bool × CompactionState)
      → (x).0 ≡ true
      → (y).0 ≡ true
      → (if b then x else y).0 ≡ true
  if_ok true x y p q = p
  if_ok false x y p q = q

  stop_before_ok :
      (e : Entry) (c : CompactionState)
      → (stop_before ucmp io max_file_size max_output_file_size smallest e c).0 ≡ true
  unfolding stop_before
  stop_before_ok e c =
      if_ok ((should_stop_before ucmp max_file_size e.key c.grandparents).0) _ _
        (finish_ok c.builder (record c {
          grandparents = (should_stop_before ucmp max_file_size e.key c.grandparents).1;
        }))
        refl

  emit_unless_ok :
      (drop : Bool) (e : Entry) (c : CompactionState)
      → (emit_unless ucmp io max_file_size max_output_file_size smallest drop e c).0 ≡ true
  unfolding emit_unless emit
  emit_unless_ok true e c = refl
  emit_unless_ok false e c =
      let out' =
        add_entry ucmp io max_file_size max_output_file_size smallest e
          ((open_if_none ucmp io max_file_size max_output_file_size smallest c.builder c).1) in
      rw (open_ok c.builder c) (
        if_ok (leb max_output_file_size (io.size_of out'.entries)) _ _
          (finish_ok (some out') (record c { builder = some out' })) refl)

  round_ok :
      (e : Entry) (c : CompactionState)
      → (compaction_round ucmp io max_file_size max_output_file_size smallest e c).0 ≡ true
  unfolding compaction_round
  round_ok e c =
      let c₁ = (stop_before ucmp io max_file_size max_output_file_size smallest e c).1 in
      let (drop, c₂) = handle_key ucmp io max_file_size max_output_file_size smallest e c₁ in
      rw (stop_before_ok e c) (emit_unless_ok drop e c₂)

  loop_ok :
      (es : List Entry) (c : CompactionState)
      → (compaction_loop ucmp io max_file_size max_output_file_size smallest es c).0 ≡ true
  unfolding compaction_loop
  loop_ok [] c = refl
  loop_ok (e ∷ es) c =
      rw (up (suc (length es)), round_ok e c)
        (loop_ok es ((compaction_round ucmp io max_file_size max_output_file_size smallest e c).1))

  after_loop_ok :
      (r : Bool × (ℕ × CompactionState))
      → (r).0 ≡ true
      → (after_loop ucmp io max_file_size max_output_file_size smallest true r).0 ≡ true
  unfolding after_loop
  after_loop_ok (ok, (left, c)) h = rw (h, up left, finish_ok c.builder c)

  -- The status is OK on all entries and from every state.
  pub do_compaction_work_ok :
      (es : List Entry) (c : CompactionState)
      → (do_compaction_work ucmp io max_file_size max_output_file_size smallest true es c).0 ≡ true
  unfolding do_compaction_work
  do_compaction_work_ok es c =
      after_loop_ok (compaction_loop ucmp io max_file_size max_output_file_size smallest es c)
        (loop_ok es c)

  -- For a user comparator that orders totally, entries with well-formed keys in the order of internal keys,
  -- and deeper levels of disjoint files in order: if every output is opened and finished, the database does
  -- not shut down and the inputs have no error, then `DoCompactionWork` on a new compaction succeeds, and
  -- its outputs have entries in which a read of any user key at any snapshot from the smallest on finds what
  -- it finds in the inputs, or it found there that the key is deleted, finds nothing now, and no file of the
  -- levels below the output has the key in its range. The smallest snapshot is below the greatest sequence
  -- number.
  pub do_compaction_work_succeeds :
      (order : IsTotalOrder ucmp.compare) (es : List Entry) (items : List Item)
      (levels : List (List FileMetaData)) (grandparents : List FileMetaData)
      → smallest < max_sequence_number
      → IsParsed es items
      → IsSortedInput ucmp items
      → All (IsDisjoint ucmp) levels
      → (state : CompactionState) × (do_compaction_work ucmp io max_file_size max_output_file_size
            smallest true es
            (new_compaction levels grandparents)
          ≡ (true, state))
        × ((kept_items : List Item) × IsParsed (entries_of (state.outputs)) kept_items
            × ((k : List ℕ) (snapshot : ℕ)
                → smallest ≤ snapshot
                → IsAnswer ucmp k
                    (new_levels levels)
                    (find ucmp k snapshot items)
                    (find ucmp k snapshot kept_items)))
  do_compaction_work_succeeds order es items levels grandparents m p o d =
      let c = new_compaction levels grandparents in
      let r = do_compaction_work ucmp io max_file_size max_output_file_size smallest true es c in
      let ok = do_compaction_work_ok es c in
      (
        (r).1,
        ap (λ (b : Bool). (b, (r).1)) ok,
        do_compaction_work-IsAnswer ucmp io max_file_size max_output_file_size smallest order true
            es items levels grandparents m p o d ok,
      )
