-- ===== src/Leveldb/MemTable.antt =====
-- leveldb/db/memtable.cc over the skip list. The memory of the arena and the count of references are left
-- out, and an entry is its bytes.
pub mod Entries
pub mod Order
pub mod Get
pub mod Newer
pub mod Inserter
pub mod Updates
pub mod Batches
use wormholefilters.Base.{
  ℕ, ◌+◌, ◌-◌, ◌^◌, Bool, true, false, Option, none, some, List, [], ◌∷◌, ◌++◌, ◌==◌, if◌then◌else◌,
  u32, u64, ◌<<<◌, bit_and, bit_or, length, take, drop,
}
use wormholefilters.Leveldb.Coding.{encode_fixed64}
use wormholefilters.Leveldb.Comparator.{Comparator}
use wormholefilters.Leveldb.Compaction.{is_equal}
use wormholefilters.Leveldb.DbFormat.{
  ValueType, type_code, compare_internal, extract_user_key, trailer, LookupKey, memtable_key,
  user_key_of,
}
use wormholefilters.Leveldb.SkipList.{SkipList, insert, seek}
use wormholefilters.Leveldb.Varint.{encode_varint32, get_varint32}

-- `GetLengthPrefixedSlice`, with what stands behind the slice. The entries are not corrupted.
unfoldable pub get_slice : List ℕ → List ℕ × List ℕ
get_slice entry = elim (get_varint32 entry) [
  | none ↦ ([], [])
  | some (len, rest) ↦ (take len rest, drop len rest)
]

abbrev pub slice : List ℕ → List ℕ
slice entry = (get_slice entry).0

-- `MemTable::KeyComparator`, which has only the comparison.
abbrev pub key_comparator : Comparator → Comparator
key_comparator ucmp = record {
  compare = λ a b. compare_internal ucmp (slice a) (slice b);
  find_shortest_separator = λ start limit. start;
  find_short_successor = λ key. key;
}

-- The bytes that `Add` writes.
unfoldable pub new_entry : ℕ → ValueType → List ℕ → List ℕ → List ℕ
new_entry s type key val =
    encode_varint32 (u32 (length key + 8))
    ++ (key
        ++ (encode_fixed64 (bit_or (u64 (s <<< 8)) (type_code type))
            ++ (encode_varint32 (u32 (length val)) ++ val)))

-- `Add`, when the search of the skip list ends.
unfoldable pub add_entry : Comparator → SkipList → ℕ → ValueType → List ℕ → List ℕ → Option SkipList
add_entry ucmp table s type key val = insert table (key_comparator ucmp) (new_entry s type key val)

-- What `Get` returns: the value, that the key is deleted, or that it is not here.
pub data Answer : Type 0 where
  found_value : List ℕ → Answer
  found_deletion : Answer
  not_here : Answer

-- An entry that `Seek` has found.
unfoldable pub check_entry : Comparator → List ℕ → List ℕ → Answer
check_entry ucmp user_key entry =
    let (key, rest) = get_slice entry in
    let tag = bit_and (trailer key) 0xff in
    if is_equal (ucmp.compare (extract_user_key key) user_key)
    then (if tag == 1
        then found_value (slice rest)
        else if tag == 0
        then found_deletion
        else not_here)
    else not_here

unfoldable pub check_node : Comparator → SkipList → List ℕ → Option ℕ → Answer
check_node ucmp table user_key none = not_here
check_node ucmp table user_key (some n) = check_entry ucmp user_key (table.key n)

-- `Get`, when the search of the skip list ends.
unfoldable pub get : Comparator → SkipList → LookupKey → Option Answer
get ucmp table key = elim (seek table (key_comparator ucmp) (memtable_key key)) [
  | none ↦ none
  | some n ↦ some (check_node ucmp table (user_key_of key) n)
]
