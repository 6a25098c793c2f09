-- ===== src/Leveldb/FilterBlock/Found.antt =====
-- What `KeyMayMatch` of leveldb/table/filter_block.cc finds in a block that `Finish` has written.
use mathlib.Core.List.{append_assoc, map-append}
use wormholefilters.Base.{
  ℕ, ◌+◌, ◌-◌, ◌*◌, ◌^◌, ◌<◌, ◌≤◌, ◌≡◌, some, List, [], ◌∷◌, ◌++◌, map, sym, ap, ap₂, ◌∙◌, arith,
  u32, ◌>>>◌, byte_at, byte_at-append_right, length, length-append, take, drop, take_append,
  drop_append,
}
use wormholefilters.Leveldb.Coding.{decode_fixed32}
use wormholefilters.Leveldb.FilterBlock.Builder.{joined, joined-append, starts, ends, starts_end}
use wormholefilters.Leveldb.FilterBlock.Reader.{load_fixed32_in, load_slice_in}
use wormholefilters.Leveldb.FilterBlock.{
  FilterPolicy, FilterBlockReader, new_reader, load_fixed32, load_slice, key_may_match,
}
use wormholefilters.Leveldb.Coding.Words.{words, decode_words}
use wormholefilters.Leveldb.FilterBlock.Bytes.{
  block_of, ends_split, length-starts, length-map-u32, new_reader-some, key_may_match_load,
  length-block_of,
}

module _ (before : List (List ℕ)) (f : List ℕ) (after : List (List ℕ))
    (small : length (block_of (before ++ (f ∷ after))) < 2 ^ 32) where
  abbrev all : List (List ℕ)
  all = before ++ (f ∷ after)

  abbrev begin : ℕ
  begin = length (joined before)

  u32_small : (n : ℕ) → n ≤ length (joined all) → u32 n ≡ n
  u32_small n h = omega (arith, h, small, length-block_of all)

  joined_split : joined all ≡ joined before ++ (f ++ joined after)
  joined_split = unfold joined in joined-append before (f ∷ after)

  abbrev finish_at : ℕ
  finish_at = begin + length f

  abbrev bytes : List ℕ
  bytes = block_of all

  words_split :
      map u32 (0 ∷ ends 0 all)
      ≡ map u32 (starts 0 before) ++ (u32 begin ∷ (u32 finish_at ∷ map u32 (ends finish_at after)))
  words_split =
      ap (map u32) (ends_split 0 begin before f after (omega arith))
      ∙ map-append u32 (starts 0 before) (begin ∷ (finish_at ∷ ends finish_at after))

  length-joined : length (joined all) ≡ begin + (length f + length (joined after))
  length-joined = omega (
    arith,
    ap length joined_split,
    length-append (joined before) (f ++ joined after),
    length-append f (joined after),
  )

  words_before : length (map u32 (starts 0 before)) ≡ length before
  words_before = length-map-u32 (starts 0 before) ∙ length-starts 0 before

  length-all : length all ≡ length before + (1 + length after)
  length-all = omega (arith, length-append before (f ∷ after))

  start_word : decode_fixed32 bytes (length (joined all) + length before * 4) ≡ begin
  start_word =
      ap
        (λ (ws : List ℕ).
          decode_fixed32 (joined all ++ (words ws ++ (11 ∷ [])))
            (length (joined all) + length before * 4))
        words_split
      ∙ (decode_words (joined all) (map u32 (starts 0 before)) (u32 begin)
            (u32 finish_at ∷ map u32 (ends finish_at after)) (11 ∷ [])
            (length (joined all) + length before * 4) (omega (arith, words_before)) (omega arith)
          ∙ u32_small begin (omega (arith, length-joined)))

  limit_word : decode_fixed32 bytes (length (joined all) + length before * 4 + 4) ≡ finish_at
  limit_word =
      let at = length (joined all) + length before * 4 + 4 in
      let shifted = map u32 (starts 0 before) ++ (u32 begin ∷ []) in
      ap (λ (ws : List ℕ). decode_fixed32 (joined all ++ (words ws ++ (11 ∷ []))) at)
        (words_split
          ∙ sym (
              append_assoc (map u32 (starts 0 before)) (u32 begin ∷ [])
                (u32 finish_at ∷ map u32 (ends finish_at after))))
      ∙ (decode_words (joined all) shifted (u32 finish_at) (map u32 (ends finish_at after))
            (11 ∷ []) at
            (omega
              (arith, words_before, length-append (map u32 (starts 0 before)) (u32 begin ∷ [])))
            (omega arith)
          ∙ u32_small finish_at (omega (arith, length-joined)))

  last_word : decode_fixed32 bytes (length bytes - 5) ≡ length (joined all)
  last_word =
      ap
        (λ (ws : List ℕ). decode_fixed32 (joined all ++ (words ws ++ (11 ∷ []))) (length bytes - 5))
        (ap (map u32) (sym (starts_end all))
          ∙ map-append u32 (starts 0 all) (length (joined all) ∷ []))
      ∙ (decode_words (joined all) (map u32 (starts 0 all)) (u32 (length (joined all))) [] (11 ∷ [])
            (length bytes - 5)
            (omega (arith, length-block_of all, length-map-u32 (starts 0 all), length-starts 0 all))
            (omega arith)
          ∙ u32_small (length (joined all)) (omega arith))

  last_byte : byte_at bytes (length bytes - 1) ≡ 11
  last_byte =
      let w = words (map u32 (0 ∷ ends 0 all)) in
      let place : length bytes - 1 ≡ length (joined all) + (length w + 0) =
        omega (arith, length-append (joined all) (w ++ (11 ∷ [])), length-append w (11 ∷ [])) in
      ap (byte_at bytes) place
      ∙ (byte_at-append_right (joined all) (w ++ (11 ∷ [])) (length w + 0)
          ∙ byte_at-append_right w (11 ∷ []) 0)

  load_filter : load_slice bytes begin finish_at ≡ some f
  load_filter =
      let w = words (map u32 (0 ∷ ends 0 all)) ++ (11 ∷ []) in
      let parts : bytes ≡ joined before ++ (f ++ (joined after ++ w)) =
        ap (λ (l : List ℕ). l ++ w) joined_split
        ∙ (append_assoc (joined before) (f ++ joined after) w
            ∙ ap (◌++◌ (joined before)) (append_assoc f (joined after) w)) in
      let span : finish_at - begin ≡ length f = omega arith in
      load_slice_in bytes begin finish_at (omega (arith, length-block_of all, length-joined))
      ∙ ap some (
          ap₂ (λ (m : ℕ) (l : List ℕ). take m (drop begin l)) span parts
          ∙ (ap (take (length f)) (drop_append (joined before) (f ++ (joined after ++ w)))
              ∙ take_append f (joined after ++ w)))

  reader :
      new_reader bytes
      ≡ some
          (record { data_ = bytes; offset = length (joined all); num = length all; base_lg = 11 })
  reader =
      new_reader-some bytes (length (joined all)) (length all) (length-block_of all) last_word
        last_byte

  -- The filter after some others is the one that is asked.
  pub key_may_match-block_of :
      (policy : FilterPolicy) (block_offset : ℕ) (key : List ℕ)
      → block_offset >>> 11 ≡ length before
      → (r : FilterBlockReader) × (new_reader bytes ≡ some r)
        × (key_may_match policy r block_offset key ≡ policy.key_may_match key f)
  key_may_match-block_of policy block_offset key h =
      let place = λ (i : ℕ). length (joined all) + i * 4 in
      let inside = length-block_of all in
      (
        record { data_ = bytes; offset = length (joined all); num = length all; base_lg = 11 },
        reader,
        key_may_match_load policy bytes (length (joined all)) (length all) block_offset begin
            finish_at f key (omega (arith, h, length-all))
            (ap (λ (i : ℕ). load_fixed32 bytes (place i)) h
              ∙ (load_fixed32_in bytes (place (length before)) (omega (arith, inside, length-all))
                  ∙ ap some start_word))
            (ap (λ (i : ℕ). load_fixed32 bytes (place i + 4)) h
              ∙ (load_fixed32_in bytes (place (length before) + 4)
                    (omega (arith, inside, length-all))
                  ∙ ap some limit_word))
            (omega arith) (omega (arith, length-joined)) load_filter,
      )
