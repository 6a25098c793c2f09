-- ===== src/Leveldb/VersionEdit/Decode.antt =====
-- `VersionEdit::DecodeFrom`: its loop ends, and one round reads one field.
use wormholefilters.Base.{
  ℕ, ◌^◌, ◌<◌, ◌≡◌, ◌≢◌, Option, none, some, List, [], ◌∷◌, ◌++◌, refl, subst, ◌==◌, length,
}
use mathlib.Core.List.{append_assoc}
use wormholefilters.Leveldb.Consume.{
  next, Outcome, out_of_fuel, consume_all, consume_all-next, consume_all_ends,
}
use wormholefilters.Leveldb.Varint.RoundTrip.{get_varint32-encode_varint32}
use wormholefilters.Leveldb.Varint.Shrink.{
  length-get_varint32, length-get_varint64, length-get_length_prefixed_slice,
}
use wormholefilters.Leveldb.Varint.{
  encode_varint32, get_varint32, get_varint64, get_length_prefixed_slice,
}
use wormholefilters.Leveldb.VersionEdit.Getters.{get_level-Shrinking, get_internal_key-Shrinking}
use wormholefilters.Leveldb.Getter.{both}
use wormholefilters.Leveldb.Getter.Laws.{
  Leaves, if-Leaves, Leaves-trans, read-Leaves, both-Shrinking,
}
use wormholefilters.Leveldb.VersionEdit.{
  VersionEdit, Message, get_level, get_internal_key, decode_file, decode_field, decode_round,
  decode_from, cleared,
}

decode_file-Leaves : (e : VersionEdit) (input : List ℕ) → Leaves input (decode_file e input)
unfolding decode_file
decode_file-Leaves e input =
    let keys =
      both-Shrinking get_internal_key get_internal_key get_internal_key-Shrinking
        get_internal_key-Shrinking in
    let sizes =
      both-Shrinking get_varint64 (both get_internal_key get_internal_key) length-get_varint64
        keys in
    let numbers =
      both-Shrinking get_varint64 (both get_varint64 (both get_internal_key get_internal_key))
        length-get_varint64 sizes in
    read-Leaves
      (both get_level
        (both get_varint64 (both get_varint64 (both get_internal_key get_internal_key))))
      _ _ input
      (both-Shrinking get_level
        (both get_varint64 (both get_varint64 (both get_internal_key get_internal_key)))
        get_level-Shrinking numbers)

decode_field-Leaves :
    (tag : ℕ) (e : VersionEdit) (input : List ℕ) → Leaves input (decode_field tag e input)
unfolding decode_field
decode_field-Leaves tag e input =
    if-Leaves input (tag == 1) _ _
      (read-Leaves get_length_prefixed_slice _ _ input length-get_length_prefixed_slice)
      (if-Leaves input (tag == 2) _ _ (read-Leaves get_varint64 _ _ input length-get_varint64) (
        if-Leaves input (tag == 9) _ _ (read-Leaves get_varint64 _ _ input length-get_varint64) (
          if-Leaves input (tag == 3) _ _ (read-Leaves get_varint64 _ _ input length-get_varint64) (
            if-Leaves input (tag == 4) _ _ (read-Leaves get_varint64 _ _ input length-get_varint64)
              (if-Leaves input (tag == 5) _ _
                (read-Leaves (both get_level get_internal_key) _ _ input (
                  both-Shrinking get_level get_internal_key get_level-Shrinking
                    get_internal_key-Shrinking))
                (if-Leaves input (tag == 6) _ _
                  (read-Leaves (both get_level get_varint64) _ _ input
                    (both-Shrinking get_level get_varint64 get_level-Shrinking length-get_varint64))
                  (if-Leaves input (tag == 7) _ _ (decode_file-Leaves e input) tt)))))))

decode_round-Leaves : (e : VersionEdit) (input : List ℕ) → Leaves input (decode_round e input)
decode_round-Leaves e input = by_tag input (get_varint32 input) refl
  where
    by_tag :
        (input : List ℕ) (o : Option (ℕ × List ℕ))
        → get_varint32 input ≡ o
        → Leaves input (decode_round e input)
    by_tag [] none h = unfold decode_round in rw (h, decode_round) tt
    by_tag (b ∷ bs) none h = unfold decode_round in rw (h, decode_round) tt
    by_tag input (some (tag, rest)) h =
        unfold decode_round in
        rw (h, decode_round)
          (Leaves-trans input rest (decode_field tag e rest) (length-get_varint32 input tag rest h)
            (decode_field-Leaves tag e rest))

pub decode_round_shrinks :
    (e e' : VersionEdit) (input rest : List ℕ)
    → decode_round e input ≡ next e' rest
    → length rest < length input
decode_round_shrinks e e' input rest h = subst (Leaves input) h (decode_round-Leaves e input)

-- `DecodeFrom` ends on every string.
pub decode_from_ends : (src : List ℕ) → decode_from src ≢ out_of_fuel
unfolding decode_from
decode_from_ends src = consume_all_ends decode_round decode_round_shrinks cleared src

-- One round on a tag and a field.
unfoldable pub decode_all : VersionEdit → List ℕ → Outcome VersionEdit Message
decode_all e input = consume_all decode_round e input

pub decode_all-field :
    (tag : ℕ) (e e' : VersionEdit) (body rest : List ℕ)
    → tag < 2 ^ 32
    → decode_field tag e (body ++ rest) ≡ next e' rest
    → decode_all e ((encode_varint32 tag ++ body) ++ rest) ≡ decode_all e' rest
unfolding decode_all
decode_all-field tag e e' body rest h field = rw (append_assoc (encode_varint32 tag) body rest) (
    consume_all-next decode_round decode_round_shrinks e e' (encode_varint32 tag ++ (body ++ rest))
      rest (round h field))
  where
    round :
        tag < 2 ^ 32
        → decode_field tag e (body ++ rest) ≡ next e' rest
        → decode_round e (encode_varint32 tag ++ (body ++ rest)) ≡ next e' rest
    round h field =
        unfold decode_round in
        rw (get_varint32-encode_varint32 tag (body ++ rest) h, decode_round) field
