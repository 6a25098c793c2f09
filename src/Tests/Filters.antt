-- ===== src/Tests/Filters.antt =====
-- The persistent filter of src/pm_wf/pmwormholefilter.hpp and test/evaluation.cpp.
use wormholefilters.Base.{
  ℕ, zero, suc, ◌*◌, ◌+◌, ◌^◌, ◌≤◌, ◌<◌, ◌≡◌, ◌≢◌, ◌↔◌, true, false, some, List, [], ◌∷◌, refl,
  arith, get_or, length,
}
use wormholefilters.Evaluation.{evaluation, evaluation-no_errors}
use wormholefilters.PmFilter.Keys.{
  copies, Inserted, insert-Inserted, lookup_iff, Deleted, delete-Deleted,
}
use wormholefilters.PmFilter.Ops.{Op, add, remove, Client, start, run, FindsKeys, run-FindsKeys}
use wormholefilters.PmFilter.Store.{IsValid}
use wormholefilters.PmFilter.{
  Filter, insert, lookup, delete, index_hash, tag_hash, read_tag, write_tag, match_slot,
}
use wormholefilters.Probe
use wormholefilters.Swar.{hasvalue16, hasvalue16_iff, lane}

-- A key with the index hash 1 modulo 2 and the tag 3.
abbrev key3 : ℕ
key3 = 3 * 2 ^ 32 + 1

-- Two buckets; `key3` is in the first slot of the second.
abbrev one_key : Filter
one_key = record { num_buckets = 2; buckets = 0 ∷ 0x30 ∷ []; durable = 0 ∷ 0 ∷ [] }

below_words : (i : ℕ) → get_or {A = ℕ} (0 ∷ 0x30 ∷ []) i 0 < 2 ^ 64
below_words zero = omega arith
below_words (suc zero) = omega arith
below_words (suc (suc i)) = omega arith

below_zeros : (i : ℕ) → get_or {A = ℕ} (0 ∷ 0 ∷ []) i 0 < 2 ^ 64
below_zeros zero = omega arith
below_zeros (suc zero) = omega arith
below_zeros (suc (suc i)) = omega arith

one_key-IsValid : IsValid one_key
one_key-IsValid = record {
  pos = omega arith;
  small = omega arith;
  len = refl;
  durable_len = refl;
  words = below_words;
  durable_words = below_zeros;
}

insert-Inserted_example : Inserted one_key key3 key3 (insert one_key key3)
insert-Inserted_example = insert-Inserted one_key key3 key3 one_key-IsValid

lookup_iff_example : (lookup one_key key3 ≡ true) ↔ (0 < copies one_key key3)
lookup_iff_example = lookup_iff one_key key3 one_key-IsValid

delete-Deleted_example : Deleted one_key key3 key3 (delete one_key key3)
delete-Deleted_example = delete-Deleted one_key key3 key3 one_key-IsValid

abbrev ops : List Op
ops = add key3 ∷ add 7 ∷ remove key3 ∷ add 9 ∷ []

run-FindsKeys_example : (c : Client) × (run ops (start 64) ≡ some c) × FindsKeys c
run-FindsKeys_example = run-FindsKeys 64 ops (omega arith) (omega arith)

abbrev values : List ℕ
values = key3 ∷ 7 ∷ 9 ∷ 2 ^ 40 ∷ 11 ∷ []

evaluation-no_errors_example :
    (added : ℕ) × (added ≤ length values) × (evaluation values ≡ some (added, 0))
evaluation-no_errors_example = evaluation-no_errors values (omega arith) (omega arith)

hasvalue16_iff_example :
    (hasvalue16 0x0005000400030002 4 ≡ 0) ↔ ((j : ℕ) → j < 4 → lane 0x0005000400030002 j ≢ 4)
hasvalue16_iff_example = hasvalue16_iff 0x0005000400030002 4 (omega arith) (omega arith)

-- `key3` is found, a key with another tag is not, and a deletion clears the slot.
lookup_found : lookup one_key key3 ≡ true
unfolding lookup Probe.probe_words hasvalue16 index_hash tag_hash
lookup_found = refl

lookup_absent : lookup one_key (4 * 2 ^ 32 + 1) ≡ false
unfolding lookup Probe.probe_words hasvalue16 index_hash tag_hash
lookup_absent = refl

-- A second copy goes into the next slot, and only a tag that is moved is made durable.
insert_again :
    insert one_key key3
    ≡ some (true, record { num_buckets = 2; buckets = 0 ∷ 0x00300030 ∷ []; durable = 0 ∷ 0 ∷ [] })
unfolding insert Probe.insert Probe.use_slot Probe.find_empty Probe.empty_slot Probe.place
    Probe.kick index_hash tag_hash read_tag write_tag
insert_again = refl

delete_found :
    delete one_key key3
    ≡ (true, record { num_buckets = 2; buckets = 0 ∷ 0 ∷ []; durable = 0 ∷ 0 ∷ [] })
unfolding delete match_slot index_hash tag_hash read_tag write_tag
delete_found = refl
