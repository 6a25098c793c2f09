-- ===== src/Leveldb/Compaction/Outputs.antt =====
-- The files that `DoCompactionWork` leaves have the entries that are not dropped.
use mathlib.Core.List.{append_assoc, append-nil}
use wormholefilters.Base.{
  ℕ, suc, ◌≡◌, ◌⊎◌, Bool, true, false, Bool-cases, some, inl, inr, List, [], ◌∷◌, ◌++◌, refl, sym,
  ap, ◌∙◌, if◌then◌else◌, length,
}
use wormholefilters.Leveldb.Compaction.Reads.{Item, kept}
use wormholefilters.Leveldb.Compaction.Work.{
  Entry, Files, CompactionState, handle_key, emit_unless, stop_before, compaction_round,
  compaction_loop,
}
use wormholefilters.Leveldb.Compaction.{DeepLevel, LastKey, drops, after_key}
use wormholefilters.Leveldb.Comparator.{Comparator}
use wormholefilters.Leveldb.DbFormat.{ParsedInternalKey, parse_internal_key}
use wormholefilters.Leveldb.Compaction.Emitted.{
  written, IsParsed, emit_written, stop_before_written,
}

module _ (ucmp : Comparator) (io : Files) (max_file_size max_output_file_size smallest : ℕ) where
  emit_unless_written :
      (drop : Bool) (e : Entry) (c : CompactionState)
      → (emit_unless ucmp io max_file_size max_output_file_size smallest drop e c).0 ≡ true
      → let c' = (emit_unless ucmp io max_file_size max_output_file_size smallest drop e c).1 in
        (written c' ≡ written c ++ (if drop then [] else e ∷ []))
        × ((c'.last_key ≡ c.last_key) × (c'.levels ≡ c.levels))
  unfolding emit_unless
  emit_unless_written true e c h = (sym (append-nil (written c)), (refl, refl))
  emit_unless_written false e c h =
      emit_written ucmp io max_file_size max_output_file_size smallest e c h

  -- The state when the key of an entry has been looked at.
  abbrev keyed : ParsedInternalKey → CompactionState → CompactionState
  keyed x c = record c {
    last_key = after_key ucmp c.last_key x;
    levels = (drops ucmp smallest c.last_key x c.levels).1;
  }

  round_lem :
      (e : Entry) (x : ParsedInternalKey) (c : CompactionState)
      → parse_internal_key e.key ≡ some x
      → (stop_before ucmp io max_file_size max_output_file_size smallest e c).0 ≡ true
      → let c₁ = (stop_before ucmp io max_file_size max_output_file_size smallest e c).1 in
        compaction_round ucmp io max_file_size max_output_file_size smallest e c
        ≡ emit_unless ucmp io max_file_size max_output_file_size smallest
            ((drops ucmp smallest c₁.last_key x c₁.levels).0)
            e
            (keyed x c₁)
  unfolding compaction_round handle_key
  round_lem e x c p f = rw (compaction_round, handle_key, p, f)

  round_refused :
      (e : Entry) (c : CompactionState)
      → (stop_before ucmp io max_file_size max_output_file_size smallest e c).0 ≡ false
      → (compaction_round ucmp io max_file_size max_output_file_size smallest e c).0 ≡ false
  unfolding compaction_round
  round_refused e c f = rw f

  abbrev Wrote : Entry → ParsedInternalKey → CompactionState → CompactionState → Type 0
  Wrote e x c c' =
      let (drop, levels) = drops ucmp smallest c.last_key x c.levels in
      (written c' ≡ written c ++ (if drop then [] else e ∷ []))
      × ((c'.last_key ≡ after_key ucmp c.last_key x) × (c'.levels ≡ levels))

  -- A round writes the entry, unless it is dropped.
  round_written :
      (e : Entry) (x : ParsedInternalKey) (c : CompactionState)
      → parse_internal_key e.key ≡ some x
      → (compaction_round ucmp io max_file_size max_output_file_size smallest e c).0 ≡ true
      → Wrote e x c ((compaction_round ucmp io max_file_size max_output_file_size smallest e c).1)
  round_written e x c p h =
      elim (Bool-cases ((stop_before ucmp io max_file_size max_output_file_size smallest e c).0)) [
        | inr f ↦ absurd (refused (sym (round_refused e c f) ∙ h))
        | inl f ↦
            by_round f (stop_before_written ucmp io max_file_size max_output_file_size smallest e c)
      ]
    where
      refused : false ≡ true → ⊥
      refused e = absurd (cc)

      by_round :
          (stop_before ucmp io max_file_size max_output_file_size smallest e c).0 ≡ true
          → let c₁ = (stop_before ucmp io max_file_size max_output_file_size smallest e c).1 in
            (written c₁ ≡ written c) × ((c₁.last_key ≡ c.last_key) × (c₁.levels ≡ c.levels))
            → Wrote e x c
                ((compaction_round ucmp io max_file_size max_output_file_size smallest e c).1)
      by_round f (w, (k, l)) =
          let c₁ = (stop_before ucmp io max_file_size max_output_file_size smallest e c).1 in
          let same : drops ucmp smallest c₁.last_key x c₁.levels
              ≡ drops ucmp smallest c.last_key x c.levels =
            rw (k, l) in
          let r = round_lem e x c p f in
          let (w', (k', l')) =
            emit_unless_written ((drops ucmp smallest c₁.last_key x c₁.levels).0) e (keyed x c₁)
              (ap (λ (q : Bool × CompactionState). (q).0) (sym r) ∙ h) in
          rw r (w' ∙ rw (w, same), (k' ∙ rw k, l' ∙ ap (λ (q : Bool × List DeepLevel). (q).1) same))

  -- The entries that are kept, as entries.
  unfoldable pub kept_entries : List Entry → List Item → LastKey → List DeepLevel → List Entry
  kept_entries [] items s levels = []
  kept_entries (e ∷ es) [] s levels = []
  kept_entries (e ∷ es) (x ∷ items) s levels =
      let (drop, levels') = drops ucmp smallest s x.ikey levels in
      let rest = kept_entries es items (after_key ucmp s x.ikey) levels' in
      if drop then rest else e ∷ rest

  pub kept_entries-IsParsed :
      (es : List Entry) (items : List Item) (s : LastKey) (levels : List DeepLevel)
      → IsParsed es items
      → IsParsed (kept_entries es items s levels) (kept ucmp smallest items s levels)
  unfolding kept_entries kept
  kept_entries-IsParsed [] [] s levels q = tt
  kept_entries-IsParsed [] (x ∷ items) s levels q = absurd q
  kept_entries-IsParsed (e ∷ es) [] s levels q = absurd q
  kept_entries-IsParsed (e ∷ es) (x ∷ items) s levels (p, (v, ps)) =
      let rest =
        kept_entries-IsParsed es items (after_key ucmp s x.ikey)
          ((drops ucmp smallest s x.ikey levels).1) ps in
      elim (Bool-cases ((drops ucmp smallest s x.ikey levels).0)) [
        | inl d ↦ rw d rest
        | inr d ↦ rw d (p, (v, rest))
      ]

  abbrev pub loop : List Entry → CompactionState → Bool × (ℕ × CompactionState)
  loop es c = compaction_loop ucmp io max_file_size max_output_file_size smallest es c

  -- The loop stops for a shutdown, or writes all entries that are kept.
  abbrev pub Written :
      List Entry → List Item → CompactionState → Bool × (ℕ × CompactionState) → Type 0
  Written es items c (ok, (left, c')) =
      ok ≡ true
      → (io.shutting_down left ≡ true)
        ⊎ (written c' ≡ written c ++ kept_entries es items c.last_key c.levels)

  loop_stopped :
      (e : Entry) (es : List Entry) (c : CompactionState)
      → io.shutting_down (suc (length es)) ≡ true
      → loop (e ∷ es) c ≡ (true, (suc (length es), c))
  unfolding compaction_loop
  loop_stopped e es c q = rw q

  abbrev round : Entry → CompactionState → Bool × CompactionState
  round e c = compaction_round ucmp io max_file_size max_output_file_size smallest e c

  loop_failed :
      (e : Entry) (es : List Entry) (c : CompactionState)
      → io.shutting_down (suc (length es)) ≡ false
      → (round e c).0 ≡ false
      → loop (e ∷ es) c ≡ (false, (suc (length es), (round e c).1))
  unfolding compaction_loop
  loop_failed e es c q f = rw (q, f)

  loop_goes_on :
      (e : Entry) (es : List Entry) (c : CompactionState)
      → io.shutting_down (suc (length es)) ≡ false
      → (round e c).0 ≡ true
      → loop (e ∷ es) c ≡ loop es ((round e c).1)
  unfolding compaction_loop
  loop_goes_on e es c q f = rw (q, f)

  kept_entries_cons :
      (e : Entry) (es : List Entry) (x : Item) (items : List Item) (s : LastKey)
      (levels : List DeepLevel)
      → let (drop, levels') = drops ucmp smallest s x.ikey levels in
        kept_entries (e ∷ es) (x ∷ items) s levels
        ≡ (if drop then [] else e ∷ []) ++ kept_entries es items (after_key ucmp s x.ikey) levels'
  unfolding kept_entries
  kept_entries_cons e es x items s levels =
      elim (Bool-cases ((drops ucmp smallest s x.ikey levels).0)) [ inl d ↦ rw d | inr d ↦ rw d ]

  pub loop-Written :
      (es : List Entry) (items : List Item) (c : CompactionState)
      → IsParsed es items
      → Written es items c (loop es c)
  unfolding compaction_loop kept_entries
  loop-Written [] [] c q = λ h. inr (sym (append-nil (written c)))
  loop-Written [] (x ∷ items) c q = absurd q
  loop-Written (e ∷ es) [] c q = absurd q
  loop-Written (e ∷ es) (x ∷ items) c (p, (v, ps)) =
      elim (Bool-cases (io.shutting_down (suc (length es)))) [
        | inl q ↦ rw (loop_stopped e es c q) (λ h. inl q)
        | inr q ↦ elim (Bool-cases ((round e c).0)) [
          | inr f ↦ rw (loop_failed e es c q f) (λ h. absurd (refused h))
          | inl f ↦ rw (loop_goes_on e es c q f) (
              further ((round e c).1) (loop es ((round e c).1)) (round_written e x.ikey c p f)
                (loop-Written es items ((round e c).1) ps))
        ]
      ]
    where
      refused : false ≡ true → ⊥
      refused e = absurd (cc)

      further :
          (c' : CompactionState) (r : Bool × (ℕ × CompactionState))
          → Wrote e x.ikey c c'
          → Written es items c' r
          → Written (e ∷ es) (x ∷ items) c r
      further c' r (w, (k, l)) f h = elim (f h) [
        | inl q ↦ inl q
        | inr g ↦ inr (
            g
            ∙ (rw (w, k, l)
                  (append_assoc (written c)
                    (if (drops ucmp smallest c.last_key x.ikey c.levels).0 then [] else e ∷ [])
                    (kept_entries es items (after_key ucmp c.last_key x.ikey)
                      ((drops ucmp smallest c.last_key x.ikey c.levels).1)))
                ∙ ap (◌++◌ (written c)) (sym (kept_entries_cons e es x items c.last_key c.levels))))
      ]
