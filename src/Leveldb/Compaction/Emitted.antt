-- ===== src/Leveldb/Compaction/Emitted.antt =====
-- What `DoCompactionWork` of leveldb/db/db_impl.cc has written when it has finished an output or added an
-- entry.
use mathlib.Core.List.{append_assoc, append-nil}
use wormholefilters.Base.{
  ℕ, ◌≡◌, true, false, Bool-cases, Option, none, some, inl, inr, List, [], ◌∷◌, ◌++◌, refl, sym, ap,
  ◌∙◌, leb,
}
use wormholefilters.Leveldb.Compaction.Reads.{Item}
use wormholefilters.Leveldb.Compaction.Work.{
  Entry, Output, Files, CompactionState, finish_compaction_output_file, finish_if_open,
  open_if_none, add_entry, emit, stop_before,
}
use wormholefilters.Leveldb.Compaction.{should_stop_before}
use wormholefilters.Leveldb.Comparator.{Comparator}
use wormholefilters.Leveldb.DbFormat.{parse_internal_key}

-- The entries of the outputs in their order.
unfoldable pub entries_of : List Output → List Entry
entries_of [] = []
entries_of (out ∷ outputs) = out.entries ++ entries_of outputs

entries_of-append :
    (outputs : List Output) (out : Output)
    → entries_of (outputs ++ (out ∷ [])) ≡ entries_of outputs ++ out.entries
unfolding entries_of
entries_of-append [] out = append-nil out.entries
entries_of-append (o ∷ outputs) out =
    ap (◌++◌ o.entries) (entries_of-append outputs out)
    ∙ sym (append_assoc o.entries (entries_of outputs) out.entries)

unfoldable pub built : Option Output → List Entry
built none = []
built (some out) = out.entries

-- All that has been written.
abbrev pub written : CompactionState → List Entry
written c = entries_of c.outputs ++ built c.builder

-- The entries with their keys parsed.
abbrev pub IsParsed : List Entry → List Item → Type 0
IsParsed [] [] = Unit
IsParsed [] (x ∷ items) = ⊥
IsParsed (e ∷ es) [] = ⊥
IsParsed (e ∷ es) (x ∷ items) =
    (parse_internal_key e.key ≡ some x.ikey) × ((e.val ≡ x.val) × IsParsed es items)

module _ (ucmp : Comparator) (io : Files) (max_file_size max_output_file_size smallest : ℕ) where
  pub finish_written :
      (b : Option Output) (c : CompactionState)
      → c.builder ≡ b
      → let c' = (finish_if_open ucmp io max_file_size max_output_file_size smallest b c).1 in
        (written c' ≡ written c)
        × ((c'.builder ≡ none) × ((c'.last_key ≡ c.last_key) × (c'.levels ≡ c.levels)))
  unfolding finish_compaction_output_file built
  finish_written none c e = (refl, (e, (refl, refl)))
  finish_written (some out) c e = (
    append-nil (
          entries_of
            (c.outputs ++ (record out { file_size = io.finished_size_of out.entries } ∷ [])))
        ∙ (entries_of-append c.outputs (record out { file_size = io.finished_size_of out.entries })
            ∙ ap (λ (b : Option Output). entries_of c.outputs ++ built b) (sym e)),
    (refl, (refl, refl)),
  )

  -- Closing the output before an entry changes nothing that matters here.
  pub stop_before_written :
      (e : Entry) (c : CompactionState)
      → let c' = (stop_before ucmp io max_file_size max_output_file_size smallest e c).1 in
        (written c' ≡ written c) × ((c'.last_key ≡ c.last_key) × (c'.levels ≡ c.levels))
  unfolding stop_before
  stop_before_written e c =
      elim (Bool-cases ((should_stop_before ucmp max_file_size e.key c.grandparents).0)) [
        | inl s ↦ rw s (
            drop_third (
              finish_written c.builder
                (record c {
                  grandparents = (should_stop_before ucmp max_file_size e.key c.grandparents).1;
                })
                refl))
        | inr s ↦ rw s (refl, (refl, refl))
      ]
    where
      drop_third : {A B C D : Type 0} → A × (B × (C × D)) → A × (C × D)
      drop_third (a, (b, cd)) = (a, cd)

  opened_entries :
      (b : Option Output) (c : CompactionState)
      → ((open_if_none ucmp io max_file_size max_output_file_size smallest b c).1).entries ≡ built b
  unfolding built
  opened_entries none c = refl
  opened_entries (some out) c = refl

  pub emit_written :
      (e : Entry) (c : CompactionState)
      → (emit ucmp io max_file_size max_output_file_size smallest e c).0 ≡ true
      → let c' = (emit ucmp io max_file_size max_output_file_size smallest e c).1 in
        (written c' ≡ written c ++ (e ∷ [])) × ((c'.last_key ≡ c.last_key) × (c'.levels ≡ c.levels))
  unfolding emit
  emit_written e c h =
      let ok = (open_if_none ucmp io max_file_size max_output_file_size smallest c.builder c).0 in
      let out = (open_if_none ucmp io max_file_size max_output_file_size smallest c.builder c).1 in
      let out' = add_entry ucmp io max_file_size max_output_file_size smallest e out in
      elim (Bool-cases ok) [
        | inr f ↦ absurd (refused (rw f at h))
        | inl f ↦ elim (Bool-cases (leb max_output_file_size (io.size_of out'.entries))) [
          | inl g ↦ rw (f, g) (finished out (opened_entries c.builder c))
          | inr g ↦ rw (f, g) (going out (opened_entries c.builder c))
        ]
      ]
    where
      refused : false ≡ true → ⊥
      refused e = absurd (cc)

      going :
          (out : Output)
          → out.entries ≡ built c.builder
          → (entries_of c.outputs
                ++ built
                    (some (add_entry ucmp io max_file_size max_output_file_size smallest e out))
              ≡ written c ++ (e ∷ []))
            × ((c.last_key ≡ c.last_key) × (c.levels ≡ c.levels))
      going out o = (
        unfold add_entry built in
            ap (λ (l : List Entry). entries_of c.outputs ++ (l ++ (e ∷ []))) o
            ∙ sym (append_assoc (entries_of c.outputs) (built c.builder) (e ∷ [])),
        (refl, refl),
      )

      finished :
          (out : Output)
          → out.entries ≡ built c.builder
          → let c' =
              (finish_compaction_output_file ucmp io max_file_size max_output_file_size smallest
                (add_entry ucmp io max_file_size max_output_file_size smallest e out)
                (record c {
                  builder =
                      some (add_entry ucmp io max_file_size max_output_file_size smallest e out);
                })).1 in
            (written c' ≡ written c ++ (e ∷ []))
            × ((c'.last_key ≡ c.last_key) × (c'.levels ≡ c.levels))
      finished out o =
          let out' = add_entry ucmp io max_file_size max_output_file_size smallest e out in
          let (w, (b, same)) = finish_written (some out') (record c { builder = some out' }) refl in
          (w ∙ (going out o).0, same)
