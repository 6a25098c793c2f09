-- ===== src/Leveldb/Block/Finished.antt =====
-- The bytes that `Finish` of leveldb/table/block_builder.cc writes, and what `Block` reads from them.
use mathlib.Core.List.{append_assoc, append-nil}
use wormholefilters.Base.{
  ℕ, ◌+◌, ◌-◌, ◌*◌, ◌/◌, ◌^◌, ◌<◌, ◌≡◌, some, List, [], ◌∷◌, ◌++◌, refl, sym, ap, ◌∙◌, arith,
  le→ltb, u32, length, length-append,
}
use wormholefilters.Leveldb.Block.{
  BlockBuilder, finish, put_restarts, num_restarts, restart_offset, get_restart_point,
}
use wormholefilters.Leveldb.Coding.{encode_fixed32, put_fixed32, decode_fixed32}
use wormholefilters.Leveldb.Coding.Words.{words, length-words, decode_words}
use wormholefilters.Leveldb.Coding.RoundTrip.{decode_fixed32-encode_fixed32}
use wormholefilters.Leveldb.TableFormat.RoundTrip.{decode_fixed32-append}

put_restarts_lem :
    (buffer restarts : List ℕ) → put_restarts buffer restarts ≡ buffer ++ words restarts
unfolding words put_fixed32
put_restarts_lem buffer [] = sym (append-nil buffer)
put_restarts_lem buffer (r ∷ restarts) =
    put_restarts_lem (buffer ++ encode_fixed32 r) restarts
    ∙ append_assoc buffer (encode_fixed32 r) (words restarts)

pub finish-buffer :
    (b : BlockBuilder)
    → (finish b).buffer ≡ (b.buffer ++ words b.restarts) ++ encode_fixed32 (u32 (length b.restarts))
unfolding finish put_fixed32
finish-buffer b =
    ap (λ (x : List ℕ). x ++ encode_fixed32 (u32 (length b.restarts)))
      (put_restarts_lem b.buffer b.restarts)

pub length-finish :
    (b : BlockBuilder) → length (finish b).buffer ≡ length b.buffer + 4 * length b.restarts + 4
length-finish b =
    ap length (finish-buffer b)
    ∙ omega (
      arith,
      length-append (b.buffer ++ words b.restarts) (encode_fixed32 (u32 (length b.restarts))),
      length-append b.buffer (words b.restarts),
      length-words b.restarts,
      four (u32 (length b.restarts)),
    )
  where
    four : (n : ℕ) → length (encode_fixed32 n) ≡ 4
    four n = unfold encode_fixed32 in refl

pub num_restarts-finish :
    (b : BlockBuilder)
    → length (finish b).buffer < 2 ^ 32
    → num_restarts (finish b).buffer ≡ length b.restarts
unfolding num_restarts
num_restarts-finish b h =
    let xs = b.buffer ++ words b.restarts in
    let m = length b.restarts in
    let e = encode_fixed32 (u32 m) in
    let n = length-finish b in
    let at_count : length (finish b).buffer - 4 ≡ length xs =
      omega (arith, n, length-append b.buffer (words b.restarts), length-words b.restarts) in
    let whole : u32 m ≡ m = omega (arith, n, h) in
    ap (decode_fixed32 (finish b).buffer) at_count
    ∙ (ap (λ (l : List ℕ). decode_fixed32 l (length xs)) (finish-buffer b)
        ∙ (decode_fixed32-append xs e (length xs) refl
            ∙ (ap (λ (l : List ℕ). decode_fixed32 l 0) (sym (append-nil e))
                ∙ (decode_fixed32-encode_fixed32 (u32 m) [] (omega arith) ∙ whole))))

pub restart_offset-finish :
    (b : BlockBuilder)
    → length (finish b).buffer < 2 ^ 32
    → restart_offset (finish b).buffer ≡ some (length b.buffer)
unfolding restart_offset
restart_offset-finish b h =
    let n = length-finish b in
    let m = num_restarts-finish b h in
    let size = length (finish b).buffer in
    let small : u32 (1 + length b.restarts) ≡ 1 + length b.restarts = omega (arith, n, h) in
    let e : u32 (size - (1 + length b.restarts) * 4) ≡ length b.buffer = omega (arith, n, h) in
    rw (
      m,
      le→ltb size 4 (omega (arith, n)),
      le→ltb ((size - 4) / 4) (length b.restarts) (omega (arith, n)),
      small,
      e,
    )

pub get_restart_point-finish :
    (b : BlockBuilder) (before : List ℕ) (r : ℕ) (after : List ℕ)
    → b.restarts ≡ before ++ (r ∷ after)
    → r < 2 ^ 32
    → get_restart_point (finish b).buffer (length b.buffer) (length before) ≡ r
unfolding get_restart_point
get_restart_point-finish b before r after e h =
    let count = encode_fixed32 (u32 (length b.restarts)) in
    let i = length b.buffer + length before * 4 in
    let parts : (finish b).buffer ≡ b.buffer ++ (words (before ++ (r ∷ after)) ++ count) =
      finish-buffer b
      ∙ (append_assoc b.buffer (words b.restarts) count
          ∙ ap (λ (rs : List ℕ). b.buffer ++ (words rs ++ count)) e) in
    ap (λ (l : List ℕ). decode_fixed32 l i) parts
    ∙ decode_words b.buffer before r after count i (omega arith) h
