-- ===== src/Tests/Edits.antt =====
-- leveldb/db/version_edit.cc and leveldb/db/write_batch.cc.
use wormholefilters.Base.{◌^◌, ◌≡◌, ◌≢◌, none, some, [], ◌∷◌, refl, arith, length}
use wormholefilters.Leveldb.Consume.{ok, err, out_of_fuel}
use wormholefilters.Leveldb.VersionEdit
use wormholefilters.Leveldb.VersionEdit.Decode.{decode_from_ends}
use wormholefilters.Leveldb.VersionEdit.RoundTrip.{IsEncodable, decode_from-encode_to}
use wormholefilters.Leveldb.VersionEdit.{VersionEdit, file_meta, decode_from, encode_to}
use wormholefilters.Leveldb.WriteBatch.Batch.{
  Built, FitsBuilt, cleared, with_put, with_delete, with_sequence, with_append, rep_of, ops_of,
  sequence_of, iterate-rep_of,
}
use wormholefilters.Leveldb.WriteBatch.{put_op, delete_op, iterate, count, sequence, too_small}

abbrev edit : VersionEdit
edit = record {
  comparator = some (99 ∷ []);
  log_number = some 300;
  prev_log_number = none;
  next_file_number = some (2 ^ 40);
  last_sequence = none;
  compact_pointers = (1, 97 ∷ []) ∷ [];
  deleted_files = (0, 4) ∷ (2, 3) ∷ [];
  new_files = (0, file_meta 5 1000 (97 ∷ []) (98 ∷ [])) ∷ [];
}

edit-IsEncodable : IsEncodable edit
unfolding VersionEdit.pair_less
edit-IsEncodable = record {
  name = omega arith;
  log = omega arith;
  prev_log = tt;
  next_file = omega arith;
  last = tt;
  pointers = ((omega arith, (omega arith, omega arith)), tt);
  deleted = ((omega arith, omega arith), ((omega arith, omega arith), tt));
  ascending = ((refl, tt), (tt, tt));
  files = (
    (
      omega arith,
      refl,
      refl,
      omega arith,
      omega arith,
      (omega arith, omega arith),
      (omega arith, omega arith),
    ),
    tt,
  );
}

decode_from-encode_to_example : decode_from (encode_to [] edit) ≡ ok edit
decode_from-encode_to_example = decode_from-encode_to edit edit-IsEncodable

decode_from_ends_example : decode_from (1 ∷ 200 ∷ []) ≢ out_of_fuel
decode_from_ends_example = decode_from_ends (1 ∷ 200 ∷ [])

-- The batch of two clients, the second appended to the first.
abbrev built : Built
built =
    with_append (with_sequence (with_put cleared (97 ∷ []) (1 ∷ 2 ∷ [])) 100)
      (with_delete cleared (98 ∷ []))

built_ops : ops_of built ≡ put_op (97 ∷ []) (1 ∷ 2 ∷ []) ∷ delete_op (98 ∷ []) ∷ []
unfolding ops_of
built_ops = refl

built_fits : FitsBuilt built
unfolding FitsBuilt
built_fits = (((tt, (omega arith, omega arith)), omega arith), (tt, omega arith))

iterate-rep_of_example :
    (iterate (rep_of built) ≡ ok (ops_of built))
    × (count (rep_of built) ≡ length (ops_of built))
    × (sequence (rep_of built) ≡ sequence_of built)
iterate-rep_of_example = iterate-rep_of built built_fits (unfold ops_of in omega arith)

short_batch : iterate (0 ∷ 0 ∷ []) ≡ err (too_small, [])
unfolding iterate
short_batch = refl
