-- ===== src/Probe.antt =====
-- The insertion loop that src/pm_wf/pmwormholefilter.hpp (`pmwormholefilter_insert`) and
-- leveldb/util/wormhole.cc (`InsertItem`) share word for word, over the accesses to the tag array
-- in which they differ.
pub mod Laws
pub mod Count
pub mod Arith
pub mod Scan
pub mod Kick
pub mod Insert
pub mod Lookup
use wormholefilters.Swar.{hasvalue16}
use wormholefilters.Base.{
  ℕ, zero, suc, ◌+◌, ◌-◌, ◌%◌, ◌^◌, Bool, true, false, Option, none, some, ltb, ◌==◌, if◌then◌else◌,
  sub32, sub64, u32, bit_and, bit_or,
}

abbrev pub slot_per_buk : ℕ
slot_per_buk = 4

abbrev pub dis_mask : ℕ
dis_mask = 0x000F

abbrev pub fpt_mask : ℕ
fpt_mask = 0xFFF0

abbrev pub max_prob : ℕ
max_prob = 16

-- The loop of a lookup from `prob` on; `word prob` is the 64-bit bucket that it tests.
unfoldable pub probe_words : (ℕ → ℕ) → ℕ → ℕ → ℕ → Bool
probe_words word tag zero prob = false
probe_words word tag (suc rounds) prob =
    let rest = probe_words word tag rounds (prob + 1) in
    if hasvalue16 (word prob) (bit_or tag prob) == 0 then rest else true

-- An array of buckets of four 16-bit tags. `kick_tag` is the write of a tag that is moved.
pub record Store : Type 1 where
  pub State : Type 0
  pub num_buckets : State → ℕ
  pub read_tag : State → ℕ → ℕ → ℕ
  pub write_tag : State → ℕ → ℕ → ℕ → State
  pub kick_tag : State → ℕ → ℕ → ℕ → State

-- Where the two outer loops stop; `out_of_fuel` is no result of the source.
pub data Search : Type 0 where
  out_of_fuel : Search
  full : Search
  at : ℕ → ℕ → Search

-- What the `while` loop leaves: `return false`, or a slot that may be overwritten.
pub data Kicked (S : Type 0) : Type 0 where
  out_of_fuel : Kicked S
  stuck : S → Kicked S
  settled : S → ℕ → ℕ → Kicked S

-- The tag that is written when `cadi_tag` moves on by `prob`.
unfoldable pub moved_tag : ℕ → ℕ → ℕ
moved_tag cadi_tag prob = bit_or (bit_and cadi_tag fpt_mask) (bit_and cadi_tag dis_mask + prob)

module _ (st : Store) where
  open st use {State, num_buckets, read_tag, write_tag, kick_tag}

  -- `for (curr_tag_idx = 0; ...)`: the first empty slot of a bucket
  unfoldable pub empty_slot : State → ℕ → ℕ → ℕ → Option ℕ
  empty_slot s b zero j = none
  empty_slot s b (suc rounds) j =
      let rest = empty_slot s b rounds (j + 1) in if read_tag s b j == 0 then some j else rest

  -- `for (curr_buck_idx = init_buck_idx; ...)`
  unfoldable pub find_empty : State → ℕ → ℕ → ℕ → Search
  find_empty s init zero curr = Search.out_of_fuel
  find_empty s init (suc fuel) curr = elim (ltb curr (init + num_buckets s)) [
    | false ↦ full
    | true ↦ elim (empty_slot s curr slot_per_buk 0) [
      | some j ↦ at curr j
      | none ↦ find_empty s init fuel (u32 (curr + 1))
    ]
  ]

  -- `for (cadi_tag_idx = 0; ...)`: the first tag of a bucket that can be moved on by `prob`
  unfoldable pub cadi_slot : State → ℕ → ℕ → ℕ → ℕ → Option ℕ
  cadi_slot s b prob zero k = none
  cadi_slot s b prob (suc rounds) k =
      let rest = cadi_slot s b prob rounds (k + 1) in
      if ltb (bit_and (read_tag s b k) dis_mask + prob) max_prob then some k else rest

  -- `for (prob = MAX_PROB - 1; prob > 0; prob--)`: the bucket, the slot and the distance
  unfoldable pub find_cadi : State → ℕ → ℕ → Option (ℕ × ℕ × ℕ)
  find_cadi s curr zero = none
  find_cadi s curr (suc p) = elim (cadi_slot s (sub32 curr (suc p)) (suc p) slot_per_buk 0) [
    | some k ↦ some (sub32 curr (suc p), k, suc p)
    | none ↦ find_cadi s curr p
  ]

  -- `while ((curr_buck_idx - init_buck_idx) >= MAX_PROB)`
  unfoldable pub kick : State → ℕ → ℕ → ℕ → ℕ → Kicked State
  kick s init curr j zero = Kicked.out_of_fuel
  kick s init curr j (suc fuel) = elim (ltb (sub64 curr init) max_prob) [
    | true ↦ settled s curr j
    | false ↦ elim (find_cadi s curr (max_prob - 1)) [
      | none ↦ stuck s
      | some (b, k, prob) ↦ kick (kick_tag s curr j (moved_tag (read_tag s b k) prob)) init b k fuel
    ]
  ]

  -- The write that ends a successful insertion.
  unfoldable pub place : Kicked State → ℕ → ℕ → Option (Bool × State)
  place Kicked.out_of_fuel init tag = none
  place (stuck s) init tag = some (false, s)
  place (settled s curr j) init tag = some (true, write_tag s curr j (bit_or tag (sub64 curr init)))

  -- What is done with the slot at which the outer loops stop. `none`: the fuel ran out.
  unfoldable pub use_slot : State → ℕ → ℕ → Search → Option (Bool × State)
  use_slot s init tag Search.out_of_fuel = none
  use_slot s init tag full = some (false, s)
  use_slot s init tag (at curr j) = place (kick s init curr j (suc (num_buckets s))) init tag

  -- The body of both functions from the index and the tag on.
  unfoldable pub insert : State → ℕ → ℕ → Option (Bool × State)
  insert s init tag = use_slot s init tag (find_empty s init (suc (num_buckets s)) init)
