-- ===== src/Leveldb/Block.antt =====
-- leveldb/table/block_builder.cc, and leveldb/table/block.cc for its entries from first to last.
pub mod Entries
pub mod Finished
pub mod Scans
pub mod Restarts
pub mod Built
use Prim.Native.Nat.{min}
use wormholefilters.Base.{
  ℕ, zero, suc, ◌+◌, ◌-◌, ◌*◌, ◌/◌, ◌<◌, Bool, true, false, ◌||◌, Option, none, some, List, [], ◌∷◌,
  ◌++◌, ltb, ◌==◌, if◌then◌else◌, bit_or, u32, length, take, drop,
}
use wormholefilters.Leveldb.Coding.{put_fixed32, decode_fixed32}
use wormholefilters.Leveldb.Comparator.{diff_index}
use wormholefilters.Leveldb.Consume.{
  Round, done, fail, next, Outcome, ok, err, out_of_fuel, consume_all,
}
use wormholefilters.Leveldb.Getter.{Getter, both}
use wormholefilters.Leveldb.Varint.{put_varint32, get_varint32}

pub record BlockBuilder : Type 0 where
  pub buffer : List ℕ
  pub restarts : List ℕ
  pub counter : ℕ
  pub finished : Bool
  pub last_key : List ℕ

abbrev pub builder : List ℕ → List ℕ → ℕ → Bool → List ℕ → BlockBuilder
builder buffer restarts counter finished last_key = record {
  buffer = buffer;
  restarts = restarts;
  counter = counter;
  finished = finished;
  last_key = last_key;
}

-- The constructor, and `Reset`, which brings any builder to the same state.
unfoldable pub new_builder : BlockBuilder
new_builder = builder [] (0 ∷ []) 0 false []

unfoldable pub reset : BlockBuilder → BlockBuilder
reset b = builder [] (0 ∷ []) 0 false []

unfoldable pub current_size_estimate : BlockBuilder → ℕ
current_size_estimate b = length b.buffer + length b.restarts * 4 + 4

abbrev put_restarts : List ℕ → List ℕ → List ℕ
put_restarts buffer [] = buffer
put_restarts buffer (r ∷ restarts) = put_restarts (put_fixed32 buffer r) restarts

unfoldable pub finish : BlockBuilder → BlockBuilder
finish b =
    builder (put_fixed32 (put_restarts b.buffer b.restarts) (u32 (length b.restarts))) b.restarts
      b.counter true b.last_key

module _ (block_restart_interval : ℕ) where
  -- The bytes of the key that the last one begins with too; none at a restart point. The loop counts the
  -- common bytes, as the one of `FindShortestSeparator` does.
  unfoldable pub shared_with : BlockBuilder → List ℕ → ℕ
  shared_with b key = if ltb b.counter block_restart_interval then diff_index b.last_key key else 0

  unfoldable pub restarts_for : BlockBuilder → List ℕ
  restarts_for b =
      if ltb b.counter block_restart_interval
      then b.restarts
      else b.restarts ++ (u32 (length b.buffer) ∷ [])

  unfoldable pub counter_for : BlockBuilder → ℕ
  counter_for b = if ltb b.counter block_restart_interval then b.counter else 0

  -- `Add`; its assertions, that `block_restart_interval` is 1 at least and the keys ascend, are left to
  -- the caller.
  unfoldable pub add : BlockBuilder → List ℕ → List ℕ → BlockBuilder
  add b key value =
      let shared = shared_with b key in
      let non_shared = length key - shared in
      let sizes =
        put_varint32 (put_varint32 (put_varint32 b.buffer (u32 shared)) (u32 non_shared))
          (u32 (length value)) in
      builder ((sizes ++ drop shared key) ++ value) (restarts_for b) (counter_for b + 1) b.finished
        (take shared b.last_key ++ drop shared key)

-- The three sizes by `GetVarint32Ptr`, and by the fast path for sizes of one byte each.
abbrev pub slow_sizes : Getter (ℕ × (ℕ × ℕ))
slow_sizes = both get_varint32 (both get_varint32 get_varint32)

unfoldable pub decode_sizes : Getter (ℕ × (ℕ × ℕ))
decode_sizes [] = none
decode_sizes (a ∷ []) = none
decode_sizes (a ∷ b ∷ []) = none
decode_sizes (a ∷ b ∷ c ∷ p) =
    if ltb (bit_or (bit_or a b) c) 128 then some ((a, (b, c)), p) else slow_sizes (a ∷ b ∷ c ∷ p)

abbrev pub checked : Option ((ℕ × (ℕ × ℕ)) × List ℕ) → Option ((ℕ × (ℕ × ℕ)) × List ℕ)
checked none = none
checked (some ((shared, (non_shared, value_length)), p)) =
    if ltb (u32 (length p)) (u32 (non_shared + value_length))
    then none
    else some ((shared, (non_shared, value_length)), p)

-- `DecodeEntry`, on the bytes from `p` to `limit`.
unfoldable pub decode_entry : Getter (ℕ × (ℕ × ℕ))
decode_entry p = checked (decode_sizes p)

-- How far an iteration has come: `key_`, and the entries so far.
pub record Scan : Type 0 where
  pub key : List ℕ
  pub entries : List (List ℕ × List ℕ)

abbrev pub scan : List ℕ → List (List ℕ × List ℕ) → Scan
scan key entries = record { key = key; entries = entries }

-- The messages of the errors.
pub data BadBlock : Type 0 where
  bad_contents : BadBlock
  bad_entry : BadBlock

abbrev pub parsed : Scan → Option ((ℕ × (ℕ × ℕ)) × List ℕ) → Round Scan BadBlock
parsed s none = fail bad_entry
parsed s (some ((shared, (non_shared, value_length)), p)) =
    if ltb (length s.key) shared
    then fail bad_entry
    else (let key = take shared s.key ++ take non_shared p in
        next (scan key (s.entries ++ ((key, take value_length (drop non_shared p)) ∷ [])))
          (drop (non_shared + value_length) p))

-- `ParseNextKey`, at the bytes from the next entry to the restart array.
unfoldable pub parse_next_key : Scan → List ℕ → Round Scan BadBlock
parse_next_key s [] = done s
parse_next_key s (b ∷ p) = parsed s (decode_entry (b ∷ p))

unfoldable pub num_restarts : List ℕ → ℕ
num_restarts contents = decode_fixed32 contents (length contents - 4)

-- The constructor of `Block`: the offset of the restart array, or `none` for the error marker.
unfoldable pub restart_offset : List ℕ → Option ℕ
restart_offset contents =
    if ltb (length contents) 4
    then none
    else if ltb ((length contents - 4) / 4) (num_restarts contents)
    then none
    else some (u32 (length contents - u32 (1 + num_restarts contents) * 4))

-- `GetRestartPoint`, for the offset of the restart array.
unfoldable pub get_restart_point : List ℕ → ℕ → ℕ → ℕ
get_restart_point contents restarts index = decode_fixed32 contents (restarts + index * 4)

-- The entries from a restart point on: `NewIterator`, `SeekToRestartPoint` and `ParseNextKey` to the end.
unfoldable pub entries_from : List ℕ → ℕ → Outcome Scan BadBlock
entries_from contents index = elim (restart_offset contents) [
  | none ↦ err bad_contents
  | some limit ↦
      let offset = get_restart_point contents limit index in
      if num_restarts contents == 0
      then ok (scan [] [])
      else consume_all parse_next_key (scan [] []) (drop offset (take limit contents))
]

-- All entries of a block: `NewIterator`, `SeekToFirst` and `Next` to the end.
unfoldable pub entries_of : List ℕ → Outcome Scan BadBlock
entries_of contents = entries_from contents 0
