-- ===== src/Leveldb/Coding/Words.antt =====
-- A row of the words that `PutFixed32` of leveldb/util/coding.h appends.
use mathlib.Core.List.{append_assoc}
use wormholefilters.Base.{
  ℕ, ◌+◌, ◌*◌, ◌^◌, ◌<◌, ◌≡◌, List, [], ◌∷◌, ◌++◌, refl, sym, ap, ◌∙◌, arith, length, length-append,
}
use wormholefilters.Leveldb.Coding.{encode_fixed32, decode_fixed32}
use wormholefilters.Leveldb.Coding.RoundTrip.{decode_fixed32-encode_fixed32}
use wormholefilters.Leveldb.TableFormat.RoundTrip.{decode_fixed32-append}

unfoldable pub words : List ℕ → List ℕ
words [] = []
words (x ∷ xs) = encode_fixed32 x ++ words xs

pub words-append : (xs ys : List ℕ) → words (xs ++ ys) ≡ words xs ++ words ys
unfolding words
words-append [] ys = refl
words-append (x ∷ xs) ys =
    ap (◌++◌ (encode_fixed32 x)) (words-append xs ys)
    ∙ sym (append_assoc (encode_fixed32 x) (words xs) (words ys))

pub length-words : (xs : List ℕ) → length (words xs) ≡ 4 * length xs
unfolding words encode_fixed32
length-words [] = omega arith
length-words (x ∷ xs) = omega (arith, length-words xs)

-- A word behind others.
pub decode_words :
    (front : List ℕ) (before : List ℕ) (x : ℕ) (after tail : List ℕ) (i : ℕ)
    → i ≡ length front + 4 * length before
    → x < 2 ^ 32
    → decode_fixed32 (front ++ (words (before ++ (x ∷ after)) ++ tail)) i ≡ x
decode_words front before x after tail i e h =
    let w = words before in
    let rest = words after ++ tail in
    let parts : front ++ (words (before ++ (x ∷ after)) ++ tail)
        ≡ (front ++ w) ++ (encode_fixed32 x ++ rest) =
      unfold words in simp (words-append, append_assoc) in
    ap (λ (l : List ℕ). decode_fixed32 l i) parts
    ∙ (decode_fixed32-append (front ++ w) (encode_fixed32 x ++ rest) i
          (omega (arith, e, length-append front w, length-words before))
        ∙ decode_fixed32-encode_fixed32 x rest h)
