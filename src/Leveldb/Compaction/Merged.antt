-- ===== src/Leveldb/Compaction/Merged.antt =====
-- A compaction that succeeds.
use mathlib.Core.List.{append-nil}
use wormholefilters.Base.{
  ℕ, ◌≤◌, ◌<◌, ◌≡◌, ◌⊎◌, Bool, true, false, Bool-cases, Option, none, inl, inr, List, [], ◌∷◌, ◌++◌,
  All, refl, sym, ap, ◌∙◌, subst,
}
use wormholefilters.Leveldb.Compaction.BaseLevel.{IsDisjoint, IsPassed}
use wormholefilters.Leveldb.Compaction.Kept.{find_kept-IsAnswer}
use wormholefilters.Leveldb.Compaction.Emitted.{
  entries_of, built, written, IsParsed, finish_written,
}
use wormholefilters.Leveldb.Compaction.Outputs.{
  kept_entries, kept_entries-IsParsed, Written, loop, loop-Written,
}
use wormholefilters.Leveldb.Compaction.Reads.{Item, find, kept, IsSortedInput, IsAnswer, IsReady}
use wormholefilters.Leveldb.Compaction.Work.{
  Entry, Output, Files, CompactionState, new_levels, new_compaction, finish_if_open, after_loop,
  do_compaction_work,
}
use wormholefilters.Leveldb.Compaction.{no_key}
use wormholefilters.Leveldb.Comparator.Order.{IsTotalOrder}
use wormholefilters.Leveldb.Comparator.{Comparator}
use wormholefilters.Leveldb.DbFormat.{max_sequence_number}
use wormholefilters.Leveldb.VersionEdit.{FileMetaData}

module _ (ucmp : Comparator) (io : Files) (max_file_size max_output_file_size smallest : ℕ) where
  after_loop_written :
      (input_ok : Bool) (es : List Entry) (items : List Item) (c : CompactionState)
      (r : Bool × (ℕ × CompactionState))
      → Written ucmp io max_file_size max_output_file_size smallest es items c r
      → (after_loop ucmp io max_file_size max_output_file_size smallest input_ok r).0 ≡ true
      → entries_of
          ((after_loop ucmp io max_file_size max_output_file_size smallest input_ok r).1.outputs)
        ≡ written c
          ++ kept_entries ucmp io max_file_size max_output_file_size smallest es items c.last_key
              c.levels
  unfolding after_loop built
  after_loop_written input_ok es items c (false, (left, c')) f h = absurd (cc)
  after_loop_written input_ok es items c (true, (left, c')) f h =
      elim (Bool-cases (io.shutting_down left)) [
        | inl q ↦ absurd (refused (rw q at h))
        | inr q ↦ rw q (
            closed (
              finish_written ucmp io max_file_size max_output_file_size smallest c'.builder c' refl)
            ∙ not_stopped q (f refl))
      ]
    where
      refused : false ≡ true → ⊥
      refused e = absurd (cc)

      not_stopped :
          {A : Type 0} → io.shutting_down left ≡ false → (io.shutting_down left ≡ true) ⊎ A → A
      not_stopped q (inl e) = absurd (refused (sym q ∙ e))
      not_stopped q (inr a) = a

      closed :
          let c'' =
            (finish_if_open ucmp io max_file_size max_output_file_size smallest c'.builder c').1 in
          (written c'' ≡ written c')
            × ((c''.builder ≡ none) × ((c''.last_key ≡ c'.last_key) × (c''.levels ≡ c'.levels)))
          → entries_of c''.outputs ≡ written c'
      closed (w, (b, same)) =
          let outputs =
            (finish_if_open ucmp io max_file_size max_output_file_size smallest c'.builder
              c').1.outputs in
          sym (append-nil (entries_of outputs))
          ∙ (ap (λ (b : Option Output). entries_of outputs ++ built b) (sym b) ∙ w)

  IsPassed-new :
      (key : List ℕ) (levels : List (List FileMetaData))
      → All (IsDisjoint ucmp) levels
      → All (IsPassed ucmp key) (new_levels levels)
  IsPassed-new key [] d = tt
  IsPassed-new key (files ∷ levels) (d, ds) =
      (record { disjoint = d; passed = tt }, IsPassed-new key levels ds)

  module _ (order : IsTotalOrder ucmp.compare) where
    IsReady-new :
        (items : List Item) (levels : List (List FileMetaData))
        → All (IsDisjoint ucmp) levels
        → IsReady ucmp order smallest items (new_levels levels)
    IsReady-new [] levels d = tt
    IsReady-new (x ∷ items) levels d =
        (IsPassed-new x.ikey.user_key levels d, IsReady-new items levels d)

    -- For a user comparator that orders totally, entries with well-formed keys in the order of internal keys,
    -- and deeper levels of disjoint files in order: if `DoCompactionWork` on a new compaction succeeds, then
    -- a read of any user key at any snapshot from the smallest on finds in the entries of its outputs what it
    -- finds in the entries of its inputs, or it found there that the key is deleted, finds nothing now, and
    -- no file of the levels below the output has the key in its range. The smallest snapshot is below the
    -- greatest sequence number.
    pub do_compaction_work-IsAnswer :
        (input_ok : Bool) (es : List Entry) (items : List Item) (levels : List (List FileMetaData))
        (grandparents : List FileMetaData)
        → smallest < max_sequence_number
        → IsParsed es items
        → IsSortedInput ucmp items
        → All (IsDisjoint ucmp) levels
        → (do_compaction_work ucmp io max_file_size max_output_file_size smallest input_ok es
            (new_compaction levels grandparents)).0
          ≡ true
        → (kept_items : List Item) × IsParsed
            (entries_of (
              (do_compaction_work ucmp io max_file_size max_output_file_size smallest input_ok es
                (new_compaction levels grandparents)).1.outputs))
            kept_items
          × ((k : List ℕ) (snapshot : ℕ)
              → smallest ≤ snapshot
              → IsAnswer ucmp k
                  (new_levels levels)
                  (find ucmp k snapshot items)
                  (find ucmp k snapshot kept_items))
    unfolding do_compaction_work entries_of built
    do_compaction_work-IsAnswer input_ok es items levels grandparents m p o d h =
        let c = new_compaction levels grandparents in
        let w =
          after_loop_written input_ok es items c
            (loop ucmp io max_file_size max_output_file_size smallest es c)
            (loop-Written ucmp io max_file_size max_output_file_size smallest es items c p) h in
        (
          kept ucmp smallest items no_key (new_levels levels),
          subst
              (λ (l : List Entry). IsParsed l (kept ucmp smallest items no_key (new_levels levels)))
              (sym w)
              (kept_entries-IsParsed ucmp io max_file_size max_output_file_size smallest es items
                no_key (new_levels levels) p),
          λ k snapshot s.
              find_kept-IsAnswer ucmp order smallest k snapshot items no_key (new_levels levels) s m
                o (IsReady-new items levels d) (λ e. absurd (cc)),
        )
