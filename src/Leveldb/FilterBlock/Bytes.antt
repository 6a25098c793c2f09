-- ===== src/Leveldb/FilterBlock/Bytes.antt =====
-- The bytes of a block that `Finish` of leveldb/table/filter_block.cc has written, and its reader.
use mathlib.Core.List.{append_assoc, append-nil, map-append}
use wormholefilters.Base.{
  ℕ, suc, ◌+◌, ◌-◌, ◌*◌, ◌/◌, ◌<◌, ◌≤◌, ◌≡◌, false, some, List, [], ◌∷◌, ◌++◌, map, refl, sym, ap,
  ap₂, ◌∙◌, arith, ltb, lt→ltb, le→ltb, le→leb, u32, ◌>>>◌, byte_at, length, length-append,
}
use wormholefilters.Leveldb.Coding.{encode_fixed32, put_fixed32, decode_fixed32}
use wormholefilters.Leveldb.Coding.Words.{words, words-append, length-words}
use wormholefilters.Leveldb.FilterBlock.Builder.{joined, starts, ends, starts_end}
use wormholefilters.Leveldb.FilterBlock.Groups.{Builds}
use wormholefilters.Leveldb.FilterBlock.{
  FilterPolicy, FilterBlockBuilder, put_offsets, end_block, new_reader, load_byte_back,
  load_fixed32_back, load_fixed32, load_slice, match_filter, key_may_match,
}
use wormholefilters.Leveldb.FilterBlock.Reader.{load_byte_back_in, load_fixed32_back_in}
use wormholefilters.Leveldb.Hash.{sign_extend}

put_offsets-words : (dst xs : List ℕ) → put_offsets dst xs ≡ dst ++ words xs
unfolding put_offsets words put_fixed32
put_offsets-words dst [] = sym (append-nil dst)
put_offsets-words dst (x ∷ xs) =
    put_offsets-words (dst ++ encode_fixed32 x) xs ∙ append_assoc dst (encode_fixed32 x) (words xs)

-- The bytes of the block: the filters, the words, and the parameter.
end_block-words :
    (b : FilterBlockBuilder)
    → end_block b
      ≡ b.result ++ (words (b.filter_offsets ++ (u32 (length b.result) ∷ [])) ++ (11 ∷ []))
unfolding end_block put_fixed32
end_block-words b =
    let x = u32 (length b.result) in
    ap (λ (l : List ℕ). (l ++ encode_fixed32 x) ++ (11 ∷ []))
      (put_offsets-words b.result b.filter_offsets)
    ∙ (unfold words in simp (words-append, append_assoc, append-nil))

-- The ends of a filter among those of all.
pub ends_split :
    (n a : ℕ) (before : List (List ℕ)) (f : List ℕ) (after : List (List ℕ))
    → a ≡ n + length (joined before)
    → n ∷ ends n (before ++ (f ∷ after))
      ≡ starts n before ++ (a ∷ ((a + length f) ∷ ends (a + length f) after))
unfolding ends starts joined
ends_split n a [] f after e =
    let same : n ≡ a = omega (arith, e) in
    ap (λ (m : ℕ). m ∷ ((m + length f) ∷ ends (m + length f) after)) same
ends_split n a (x ∷ before) f after e =
    ap (◌∷◌ n) (
      ends_split (n + length x) a before f after
        (omega (arith, e, length-append x (joined before))))

pub length-starts : (n : ℕ) (xs : List (List ℕ)) → length (starts n xs) ≡ length xs
unfolding starts
length-starts n [] = refl
length-starts n (x ∷ xs) = ap suc (length-starts (n + length x) xs)

length-ends : (n : ℕ) (xs : List (List ℕ)) → length (ends n xs) ≡ length xs
unfolding ends
length-ends n [] = refl
length-ends n (x ∷ xs) = ap suc (length-ends (n + length x) xs)

pub length-map-u32 : (xs : List ℕ) → length (map u32 xs) ≡ length xs
length-map-u32 [] = refl
length-map-u32 (x ∷ xs) = ap suc (length-map-u32 xs)

-- The reader of a block with that many filters.
pub new_reader-some :
    (contents : List ℕ) (offset num : ℕ)
    → length contents ≡ offset + 4 * num + 5
    → decode_fixed32 contents (length contents - 5) ≡ offset
    → byte_at contents (length contents - 1) ≡ 11
    → new_reader contents
      ≡ some (record { data_ = contents; offset = offset; num = num; base_lg = 11 })
unfolding new_reader sign_extend
new_reader-some contents offset num n word byte =
    let long : ltb (length contents) 5 ≡ false = le→ltb (length contents) 5 (omega (arith, n)) in
    let good : ltb (length contents - 5) offset ≡ false =
      le→ltb (length contents - 5) offset (omega (arith, n)) in
    let count : (length contents - 5 - offset) / 4 ≡ num = omega (arith, n) in
    let last_byte : load_byte_back contents 1 ≡ some 11 =
      load_byte_back_in contents 1 (omega (arith, n)) ∙ ap some byte in
    let last_word : load_fixed32_back contents 5 ≡ some offset =
      load_fixed32_back_in contents 5 (omega arith) (omega (arith, n)) ∙ ap some word in
    rw (long, last_byte, last_word, good, count, new_reader) refl

-- The offsets of a filter, and the filter, are loaded.
pub key_may_match_load :
    (policy : FilterPolicy) (bytes : List ℕ) (offset num block_offset start limit : ℕ)
    (filter key : List ℕ)
    → block_offset >>> 11 < num
    → load_fixed32 bytes (offset + (block_offset >>> 11) * 4) ≡ some start
    → load_fixed32 bytes (offset + (block_offset >>> 11) * 4 + 4) ≡ some limit
    → start ≤ limit
    → limit ≤ offset
    → load_slice bytes start limit ≡ some filter
    → key_may_match policy
        (record { data_ = bytes; offset = offset; num = num; base_lg = 11 })
        block_offset
        key
      ≡ policy.key_may_match key filter
unfolding key_may_match match_filter
key_may_match_load policy bytes offset num block_offset start limit filter key i a b order inside
      c =
    rw
      (
        lt→ltb (block_offset >>> 11) num i,
        a,
        b,
        match_filter,
        le→leb start limit order,
        le→leb limit offset inside,
        c,
      )
      refl

-- A filter among others, in the block.
abbrev pub block_of : List (List ℕ) → List ℕ
block_of filters = joined filters ++ (words (map u32 (0 ∷ ends 0 filters)) ++ (11 ∷ []))

pub end_block-block_of :
    (policy : FilterPolicy) (b : FilterBlockBuilder) (groups : List (List (List ℕ)))
    (pending : List (List ℕ)) (s : Builds policy b groups pending)
    → end_block b ≡ block_of s.filters
end_block-block_of policy b groups pending s =
    end_block-words b
    ∙ ap₂ (λ (r o : List ℕ). r ++ (words o ++ (11 ∷ []))) s.result
        (ap₂ ◌++◌ s.offsets (ap (λ (l : List ℕ). u32 (length l) ∷ []) s.result)
          ∙ (sym (map-append u32 (starts 0 s.filters) (length (joined s.filters) ∷ []))
              ∙ ap (map u32) (starts_end s.filters)))

pub length-block_of :
    (filters : List (List ℕ))
    → length (block_of filters) ≡ length (joined filters) + 4 * length filters + 5
length-block_of filters =
    let w = words (map u32 (0 ∷ ends 0 filters)) in
    omega (
      arith,
      length-append (joined filters) (w ++ (11 ∷ [])),
      length-append w (11 ∷ []),
      length-words (map u32 (0 ∷ ends 0 filters)),
      length-map-u32 (0 ∷ ends 0 filters),
      length-ends 0 filters,
    )
