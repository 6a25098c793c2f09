-- ===== src/Leveldb/Log/Writer.antt =====
-- leveldb/db/log_writer.cc.
use wormholefilters.Base.{
  ℕ, zero, suc, ◌+◌, ◌-◌, ◌*◌, ◌/◌, ◌%◌, ◌^◌, Bool, true, false, ◌&&◌, Option, none, some, List, [],
  ◌∷◌, ◌++◌, ◌==◌, ltb, if◌then◌else◌, u8, length, take, drop, replicate,
}
use wormholefilters.Leveldb.Coding.{encode_fixed32}
use wormholefilters.Leveldb.Log.{
  Crc, crc_value, full_type, first_type, middle_type, last_type, block_size, header_size,
}
use wormholefilters.Leveldb.TableFormat.{mask}

-- `WritableFile`, by the calls that the writer makes: whether the status is OK, and the file after it.
pub record WritableFile (F : Type 0) : Type 0 where
  pub append : F → List ℕ → Bool × F
  pub flush : F → Bool × F

pub record Writer (F : Type 0) : Type 0 where
  pub dest : F
  pub block_offset : ℕ

abbrev pub writer : {F : Type 0} → F → ℕ → Writer F
writer dest block_offset = record { dest = dest; block_offset = block_offset }

-- The constructors.
abbrev pub new_writer : {F : Type 0} → F → Writer F
new_writer dest = writer dest 0

abbrev pub append_writer : {F : Type 0} → F → ℕ → Writer F
append_writer dest dest_length = writer dest (dest_length % block_size)

unfoldable pub record_type : Bool → Bool → ℕ
record_type begin end =
    if begin && end
    then full_type
    else if begin
    then first_type
    else if end
    then last_type
    else middle_type

module _ (crc : Crc) where
  -- `buf` of `EmitPhysicalRecord`; `type_crc_[t]` is the checksum of the byte `t`.
  unfoldable pub header : ℕ → List ℕ → List ℕ
  header t payload =
      let c = mask (crc.extend (crc_value crc (t ∷ [])) payload) in
      encode_fixed32 c ++ (u8 (length payload) ∷ u8 (length payload / 2 ^ 8) ∷ t ∷ [])

  module _ {F : Type 0} (file : WritableFile F) where
    -- The payload after the header, and `Flush` after the payload, each if the call before it is OK.
    abbrev then_flush : Bool × F → Bool × F
    then_flush (false, f) = (false, f)
    then_flush (true, f) = file.flush f

    abbrev then_payload : Bool × F → List ℕ → Bool × F
    then_payload (false, f) payload = (false, f)
    then_payload (true, f) payload = then_flush (file.append f payload)

    unfoldable pub emit_physical_record : Writer F → ℕ → List ℕ → Bool × Writer F
    emit_physical_record w t payload =
        let (ok, f) = then_payload (file.append w.dest (header t payload)) payload in
        (ok, writer f (w.block_offset + (header_size + length payload)))

    -- The trailer of a block that has no room for a header; the status is not looked at.
    unfoldable pub switch_block : Writer F → Writer F
    switch_block w =
        let leftover = block_size - w.block_offset in
        if ltb leftover header_size
        then (if ltb 0 leftover
            then writer ((file.append w.dest (replicate leftover 0)).1) 0
            else writer w.dest 0)
        else w

    unfoldable pub fragment_length : Writer F → List ℕ → ℕ
    fragment_length w left =
        let avail = block_size - w.block_offset - header_size in
        if ltb (length left) avail then length left else avail

    -- One round of the loop of `AddRecord`: the status, the writer and what is left.
    unfoldable pub add_round : Writer F → List ℕ → Bool → Bool × Writer F
    add_round w left begin =
        let w' = switch_block w in
        let n = fragment_length w' left in
        emit_physical_record w' (record_type begin (length left == n)) (take n left)

    unfoldable pub left_after : Writer F → List ℕ → List ℕ
    left_after w left = drop (fragment_length (switch_block w) left) left

    -- The loop; `none` when there is no fuel left.
    unfoldable pub add_loop : ℕ → Writer F → List ℕ → Bool → Option (Bool × Writer F)
    add_loop zero w left begin = none
    add_loop (suc fuel) w left begin =
        let (ok, w') = add_round w left begin in
        let rest = left_after w left in
        elim (ok && ltb 0 (length rest)) [
          | true ↦ add_loop fuel w' rest false
          | false ↦ some (ok, w')
        ]

    -- A round writes a byte of the record, or fills the block, and the next one then writes one.
    unfoldable pub add_record : Writer F → List ℕ → Option (Bool × Writer F)
    add_record w slice = add_loop (2 * length slice + 2) w slice true
