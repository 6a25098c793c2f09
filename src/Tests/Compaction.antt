-- ===== src/Tests/Compaction.antt =====
-- The compactions of leveldb/db/version_set.cc and db_impl.cc.
use wormholefilters.Base.{
  ℕ, ◌+◌, ◌*◌, ◌≤◌, ◌≡◌, true, false, not, List, [], ◌∷◌, ◌++◌, All, inl, inr, refl, arith, length,
  map,
}
use wormholefilters.Leveldb.Compaction.BaseLevel.{IsPassed, in_levels, is_base_level_for_key_iff}
use wormholefilters.Leveldb.Compaction.Merged.{do_compaction_work-IsAnswer}
use wormholefilters.Leveldb.Compaction.Emitted.{entries_of, IsParsed}
use wormholefilters.Leveldb.Compaction.Reads.{Item, find, kept, IsSortedInput, IsAnswer}
use wormholefilters.Leveldb.Compaction.Success.{do_compaction_work_ok, do_compaction_work_succeeds}
use wormholefilters.Leveldb.Compaction.Work.{
  Entry, Files, CompactionState, new_levels, new_compaction, do_compaction_work,
}
use wormholefilters.Leveldb.Compaction.{
  no_key, is_base_level_for_key, last_sequence, drops, after_key, scan_level,
}
use wormholefilters.Leveldb.Comparator.Order.{compare_slice-IsTotalOrder}
use wormholefilters.Leveldb.Comparator.{bytewise_comparator, compare_slice, memcmp}
use wormholefilters.Leveldb.DbFormat.Keys.{parse_internal_key-append_internal_key}
use wormholefilters.Leveldb.DbFormat.{
  ParsedInternalKey, deletion, value, append_internal_key, extract_user_key, is_less,
}
use wormholefilters.Leveldb.VersionEdit.{FileMetaData, file_meta}

-- A file from "b" to "c" of a deeper level.
abbrev key_of : List ℕ → List ℕ
key_of u = u ++ (1 ∷ 7 ∷ 0 ∷ 0 ∷ 0 ∷ 0 ∷ 0 ∷ 0 ∷ [])

abbrev level : List FileMetaData
level = file_meta 4 100 (key_of (98 ∷ [])) (key_of (99 ∷ [])) ∷ []

is_base_level_for_key_iff_example :
    ((is_base_level_for_key bytewise_comparator (97 ∷ []) (new_levels (level ∷ []))).0
      ≡ not (in_levels bytewise_comparator (97 ∷ []) (new_levels (level ∷ []))))
    × All
        (IsPassed bytewise_comparator (97 ∷ []))
        ((is_base_level_for_key bytewise_comparator (97 ∷ []) (new_levels (level ∷ []))).1)
is_base_level_for_key_iff_example =
    is_base_level_for_key_iff bytewise_comparator compare_slice-IsTotalOrder (97 ∷ [])
      (new_levels (level ∷ [])) (record { disjoint = (tt, tt); passed = tt }, tt)

-- The keys "a", deleted after two values, and "b", deleted after one.
abbrev item : List ℕ → ℕ → ParsedInternalKey
item user_key sequence = record { user_key = user_key; sequence = sequence; type = value }

abbrev tombstone : List ℕ → ℕ → ParsedInternalKey
tombstone user_key sequence = record { user_key = user_key; sequence = sequence; type = deletion }

abbrev with_value : ParsedInternalKey → Item
with_value ikey = record { ikey = ikey; val = 1 ∷ [] }

abbrev items : List Item
items =
    with_value (item (97 ∷ []) 9)
    ∷ with_value (tombstone (97 ∷ []) 5)
    ∷ with_value (item (97 ∷ []) 3)
    ∷ with_value (tombstone (98 ∷ []) 6)
    ∷ with_value (item (98 ∷ []) 2)
    ∷ []

abbrev entry_of : Item → Entry
entry_of x = record { key = append_internal_key [] x.ikey; val = x.val }

abbrev entries : List Entry
entries = map entry_of items

IsParsed-items : IsParsed entries items
IsParsed-items = (
  parse_internal_key-append_internal_key (item (97 ∷ []) 9) (omega arith),
  (
    refl,
    (
      parse_internal_key-append_internal_key (tombstone (97 ∷ []) 5) (omega arith),
      (
        refl,
        (
          parse_internal_key-append_internal_key (item (97 ∷ []) 3) (omega arith),
          (
            refl,
            (
              parse_internal_key-append_internal_key (tombstone (98 ∷ []) 6) (omega arith),
              (
                refl,
                (
                  parse_internal_key-append_internal_key (item (98 ∷ []) 2) (omega arith),
                  (refl, tt),
                ),
              ),
            ),
          ),
        ),
      ),
    ),
  ),
)

sorted_items : IsSortedInput bytewise_comparator items
unfolding compare_slice memcmp
sorted_items = (
  (inr (refl, omega arith), (inr (refl, omega arith), (inl refl, (inl refl, tt)))),
  (
    (inr (refl, omega arith), (inl refl, (inl refl, tt))),
    ((inl refl, (inl refl, tt)), ((inr (refl, omega arith), tt), (tt, tt))),
  ),
)

-- At the smallest snapshot 8, the marker and the value of "a" go, and the marker of "b" stays.
kept_items :
    kept bytewise_comparator 8 items no_key (new_levels (level ∷ []))
    ≡ with_value (item (97 ∷ []) 9) ∷ with_value (tombstone (98 ∷ []) 6) ∷ []
unfolding kept drops last_sequence after_key is_base_level_for_key scan_level compare_slice memcmp
    is_less extract_user_key
kept_items = refl

-- Files without errors, with ten bytes for an entry.
abbrev io : Files
io = record {
  number = λ n. n + 7;
  opens = λ n. true;
  finishes = λ n. true;
  size_of = λ es. 10 * length es;
  finished_size_of = λ es. 10 * length es + 48;
  shutting_down = λ n. false;
}

do_compaction_work_succeeds_example :
    (state : CompactionState) × (do_compaction_work bytewise_comparator io 4000 15 8 true entries
        (new_compaction (level ∷ []) [])
      ≡ (true, state))
    × ((kept_items : List Item) × IsParsed (entries_of (state.outputs)) kept_items
        × ((k : List ℕ) (snapshot : ℕ)
            → 8 ≤ snapshot
            → IsAnswer bytewise_comparator k
                (new_levels (level ∷ []))
                (find bytewise_comparator k snapshot items)
                (find bytewise_comparator k snapshot kept_items)))
do_compaction_work_succeeds_example =
    do_compaction_work_succeeds bytewise_comparator io 4000 15 8 (λ n. refl) (λ n. refl) (λ n. refl)
      compare_slice-IsTotalOrder entries items (level ∷ []) [] (omega arith) IsParsed-items
      sorted_items ((tt, tt), tt)

do_compaction_work-IsAnswer_example :
    (kept_items : List Item) × IsParsed
      (entries_of (
        (do_compaction_work bytewise_comparator io 4000 15 8 true entries
          (new_compaction (level ∷ []) [])).1.outputs))
      kept_items
    × ((k : List ℕ) (snapshot : ℕ)
        → 8 ≤ snapshot
        → IsAnswer bytewise_comparator k
            (new_levels (level ∷ []))
            (find bytewise_comparator k snapshot items)
            (find bytewise_comparator k snapshot kept_items))
do_compaction_work-IsAnswer_example =
    do_compaction_work-IsAnswer bytewise_comparator io 4000 15 8 compare_slice-IsTotalOrder true
      entries items (level ∷ []) [] (omega arith) IsParsed-items sorted_items ((tt, tt), tt)
      (do_compaction_work_ok bytewise_comparator io 4000 15 8 (λ n. refl) (λ n. refl) (λ n. refl)
        entries (new_compaction (level ∷ []) []))
