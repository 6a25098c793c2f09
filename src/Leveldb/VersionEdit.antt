-- ===== src/Leveldb/VersionEdit.antt =====
-- leveldb/db/version_edit.h and version_edit.cc: the changes of the set of files, and their record
-- in the manifest. A flag `has_x_` and its member `x_` are one `Option`, and `deleted_files_` is
-- the list of the elements of the set in their order.
pub mod Getters
pub mod Decode
pub mod Fields
pub mod RoundTrip
use wormholefilters.Base.{
  ℕ, ◌+◌, ◌*◌, ◌/◌, ◌^◌, Bool, true, false, ◌&&◌, ◌||◌, Option, none, some, List, [], ◌∷◌, ◌++◌,
  ◌==◌, ltb, if◌then◌else◌, u32, length,
}
use wormholefilters.Leveldb.Getter.{Getter, both, such_that, read}
use wormholefilters.Leveldb.Consume.{Round, done, fail, next, Outcome, consume_all}
use wormholefilters.Leveldb.Varint.Shrink.{varint64}
use wormholefilters.Leveldb.Varint.{
  encode_varint32, put_length_prefixed_slice, get_varint32, get_varint64, get_length_prefixed_slice,
}

abbrev pub num_levels : ℕ
num_levels = 7

-- The messages of the errors.
pub data Message : Type 0 where
  comparator_name : Message
  log_number_message : Message
  previous_log_number : Message
  next_file_number_message : Message
  last_sequence_number : Message
  compaction_pointer : Message
  deleted_file : Message
  new_file_entry : Message
  unknown_tag : Message
  invalid_tag : Message

pub record FileMetaData : Type 0 where
  pub refs : ℕ
  pub allowed_seeks : ℕ
  pub number : ℕ
  pub file_size : ℕ
  pub smallest : List ℕ
  pub largest : List ℕ

pub record VersionEdit : Type 0 where
  pub comparator : Option (List ℕ)
  pub log_number : Option ℕ
  pub prev_log_number : Option ℕ
  pub next_file_number : Option ℕ
  pub last_sequence : Option ℕ
  pub compact_pointers : List (ℕ × List ℕ)
  pub deleted_files : List (ℕ × ℕ)
  pub new_files : List (ℕ × FileMetaData)

-- `Clear`
abbrev pub cleared : VersionEdit
cleared = record {
  comparator = none;
  log_number = none;
  prev_log_number = none;
  next_file_number = none;
  last_sequence = none;
  compact_pointers = [];
  deleted_files = [];
  new_files = [];
}

unfoldable pub set_comparator_name : VersionEdit → List ℕ → VersionEdit
set_comparator_name e name = record e { comparator = some name }

unfoldable pub set_log_number : VersionEdit → ℕ → VersionEdit
set_log_number e num = record e { log_number = some num }

unfoldable pub set_prev_log_number : VersionEdit → ℕ → VersionEdit
set_prev_log_number e num = record e { prev_log_number = some num }

unfoldable pub set_next_file : VersionEdit → ℕ → VersionEdit
set_next_file e num = record e { next_file_number = some num }

unfoldable pub set_last_sequence : VersionEdit → ℕ → VersionEdit
set_last_sequence e seq = record e { last_sequence = some seq }

unfoldable pub set_compact_pointer : VersionEdit → ℕ → List ℕ → VersionEdit
set_compact_pointer e level key = record e {
  compact_pointers = e.compact_pointers ++ ((level, key) ∷ []);
}

-- What the constructor of `FileMetaData` and the four assignments give.
abbrev pub file_meta : ℕ → ℕ → List ℕ → List ℕ → FileMetaData
file_meta number file_size smallest largest = record {
  refs = 0;
  allowed_seeks = 2 ^ 30;
  number = number;
  file_size = file_size;
  smallest = smallest;
  largest = largest;
}

unfoldable pub add_file : VersionEdit → ℕ → ℕ → ℕ → List ℕ → List ℕ → VersionEdit
add_file e level file file_size smallest largest = record e {
  new_files = e.new_files ++ ((level, file_meta file file_size smallest largest) ∷ []);
}

-- The order of `std::pair`, and an insertion into the set.
unfoldable pub pair_less : ℕ × ℕ → ℕ × ℕ → Bool
pair_less a b = ltb a.0 b.0 || (a.0 == b.0 && ltb a.1 b.1)

unfoldable pub set_insert : ℕ × ℕ → List (ℕ × ℕ) → List (ℕ × ℕ)
set_insert d [] = d ∷ []
set_insert d (x ∷ xs) =
    let rest = x ∷ set_insert d xs in
    if pair_less d x then d ∷ (x ∷ xs) else if pair_less x d then rest else x ∷ xs

unfoldable pub remove_file : VersionEdit → ℕ → ℕ → VersionEdit
remove_file e level file = record e { deleted_files = set_insert (level, file) e.deleted_files }

-- What the parts of `EncodeTo` append.
unfoldable pub slice_bytes : List ℕ → List ℕ
slice_bytes s = put_length_prefixed_slice [] s

unfoldable pub comparator_bytes : Option (List ℕ) → List ℕ
comparator_bytes none = []
comparator_bytes (some name) = encode_varint32 1 ++ slice_bytes name

unfoldable pub number_bytes : ℕ → Option ℕ → List ℕ
number_bytes tag none = []
number_bytes tag (some num) = encode_varint32 tag ++ varint64 num

unfoldable pub pointers_bytes : List (ℕ × List ℕ) → List ℕ
pointers_bytes [] = []
pointers_bytes ((level, key) ∷ ps) =
    (encode_varint32 5 ++ (encode_varint32 level ++ slice_bytes key)) ++ pointers_bytes ps

unfoldable pub deleted_bytes : List (ℕ × ℕ) → List ℕ
deleted_bytes [] = []
deleted_bytes ((level, number) ∷ ds) =
    (encode_varint32 6 ++ (encode_varint32 level ++ varint64 number)) ++ deleted_bytes ds

unfoldable pub file_bytes : ℕ → FileMetaData → List ℕ
file_bytes level f =
    encode_varint32 level
    ++ (varint64 f.number
        ++ (varint64 f.file_size ++ (slice_bytes f.smallest ++ slice_bytes f.largest)))

unfoldable pub new_files_bytes : List (ℕ × FileMetaData) → List ℕ
new_files_bytes [] = []
new_files_bytes ((level, f) ∷ fs) = (encode_varint32 7 ++ file_bytes level f) ++ new_files_bytes fs

-- `EncodeTo`
unfoldable pub encode_to : List ℕ → VersionEdit → List ℕ
encode_to dst e =
    dst
    ++ (comparator_bytes e.comparator
        ++ (number_bytes 2 e.log_number
            ++ (number_bytes 9 e.prev_log_number
                ++ (number_bytes 3 e.next_file_number
                    ++ (number_bytes 4 e.last_sequence
                        ++ (pointers_bytes e.compact_pointers
                            ++ (deleted_bytes e.deleted_files ++ new_files_bytes e.new_files)))))))

is_nonempty : List ℕ → Bool
is_nonempty [] = false
is_nonempty (x ∷ xs) = true

unfoldable pub get_internal_key : Getter (List ℕ)
unfolding is_nonempty
get_internal_key = such_that get_length_prefixed_slice is_nonempty

unfoldable pub get_level : Getter ℕ
get_level = such_that get_varint32 (λ v. ltb v num_levels)

unfoldable pub decode_file : VersionEdit → List ℕ → Round VersionEdit Message
decode_file e input =
    read
      (both get_level
        (both get_varint64 (both get_varint64 (both get_internal_key get_internal_key))))
      (λ (level, (number, (file_size, (smallest, largest)))).
        add_file e level number file_size smallest largest)
      new_file_entry input

-- The `switch` of `DecodeFrom`.
unfoldable pub decode_field : ℕ → VersionEdit → List ℕ → Round VersionEdit Message
decode_field tag e input =
    if tag == 1
    then read get_length_prefixed_slice (set_comparator_name e) comparator_name input
    else if tag == 2
    then read get_varint64 (set_log_number e) log_number_message input
    else if tag == 9
    then read get_varint64 (set_prev_log_number e) previous_log_number input
    else if tag == 3
    then read get_varint64 (set_next_file e) next_file_number_message input
    else if tag == 4
    then read get_varint64 (set_last_sequence e) last_sequence_number input
    else if tag == 5
    then read (both get_level get_internal_key) (λ (level, key). set_compact_pointer e level key)
        compaction_pointer input
    else if tag == 6
    then read (both get_level get_varint64) (λ (level, number). remove_file e level number)
        deleted_file input
    else if tag == 7
    then decode_file e input
    else fail unknown_tag

-- One round of the loop.
unfoldable pub decode_round : VersionEdit → List ℕ → Round VersionEdit Message
decode_round e input = elim (get_varint32 input) [
  | none ↦ elim input [ [] ↦ done e | b ∷ bs ↦ fail invalid_tag ]
  | some (tag, rest) ↦ decode_field tag e rest
]

-- `DecodeFrom`
unfoldable pub decode_from : List ℕ → Outcome VersionEdit Message
decode_from src = consume_all decode_round cleared src
