-- ===== src/Leveldb/VersionEdit/Fields.antt =====
-- The fields before the files: what `EncodeTo` writes for them, and the loop of `DecodeFrom` on it.
use mathlib.Core.List.{append_assoc, append-nil}
use wormholefilters.Base.{
  ℕ, ◌^◌, ◌<◌, ◌≡◌, true, false, Option, none, some, List, [], ◌∷◌, ◌++◌, refl, ap, ◌∙◌, arith,
  length, All,
}
use wormholefilters.Leveldb.Varint.RoundTrip.{get_length_prefixed_slice-put_length_prefixed_slice}
use wormholefilters.Leveldb.Varint.Shrink.{varint64, get_varint64-varint64}
use wormholefilters.Leveldb.Varint.{encode_varint32, get_varint64, get_length_prefixed_slice}
use wormholefilters.Leveldb.VersionEdit.Decode.{decode_all, decode_all-field}
use wormholefilters.Leveldb.VersionEdit.Getters.{get_level-Reads, get_internal_key-Reads}
use wormholefilters.Leveldb.Getter.{both, read}
use wormholefilters.Leveldb.Getter.Laws.{read_next, both-Reads}
use wormholefilters.Leveldb.VersionEdit.{
  VersionEdit, Message, FileMetaData, cleared, pair_less, set_insert, comparator_bytes,
  number_bytes, slice_bytes, pointers_bytes, deleted_bytes, get_level, get_internal_key,
  decode_field, comparator_name, log_number_message, previous_log_number, next_file_number_message,
  last_sequence_number, compaction_pointer, deleted_file, set_comparator_name, set_log_number,
  set_prev_log_number, set_next_file, set_last_sequence, set_compact_pointer, remove_file,
}

abbrev pub edit :
    Option (List ℕ)
    → Option ℕ
    → Option ℕ
    → Option ℕ
    → Option ℕ
    → List (ℕ × List ℕ)
    → List (ℕ × ℕ)
    → List (ℕ × FileMetaData)
    → VersionEdit
edit c l p n s ps ds fs = record {
  comparator = c;
  log_number = l;
  prev_log_number = p;
  next_file_number = n;
  last_sequence = s;
  compact_pointers = ps;
  deleted_files = ds;
  new_files = fs;
}

abbrev pub FitsName : Option (List ℕ) → Type 0
FitsName none = Unit
FitsName (some name) = length name < 2 ^ 32

abbrev pub FitsNumber : Option ℕ → Type 0
FitsNumber none = Unit
FitsNumber (some num) = num < 2 ^ 64

abbrev pub FitsKey : List ℕ → Type 0
FitsKey key = (0 < length key) × (length key < 2 ^ 32)

abbrev pub FitsPointer : ℕ × List ℕ → Type 0
FitsPointer p = (p.0 < 7) × FitsKey p.1

abbrev pub FitsDeleted : ℕ × ℕ → Type 0
FitsDeleted d = (d.0 < 7) × (d.1 < 2 ^ 64)

-- The counters are those of a new `FileMetaData`.
abbrev pub FitsFile : ℕ × FileMetaData → Type 0
FitsFile f =
    (f.0 < 7)
    × (f.1.refs ≡ 0)
    × (f.1.allowed_seeks ≡ 2 ^ 30)
    × (f.1.number < 2 ^ 64)
    × (f.1.file_size < 2 ^ 64)
    × FitsKey f.1.smallest
    × FitsKey f.1.largest

abbrev pub Ascending : List (ℕ × ℕ) → Type 0
Ascending [] = Unit
Ascending (d ∷ ds) = All (λ x. pair_less d x ≡ true) ds × Ascending ds

pub comparator_step :
    (c : Option (List ℕ)) (rest : List ℕ)
    → FitsName c
    → decode_all cleared (comparator_bytes c ++ rest)
      ≡ decode_all (edit c none none none none [] [] []) rest
unfolding comparator_bytes
comparator_step none rest h = refl
comparator_step (some name) rest h =
    decode_all-field 1 cleared (edit (some name) none none none none [] [] []) (slice_bytes name)
      rest (omega arith)
      (unfold decode_field set_comparator_name slice_bytes in
        read_next get_length_prefixed_slice (set_comparator_name cleared) comparator_name
          (slice_bytes name ++ rest) rest name
          (get_length_prefixed_slice-put_length_prefixed_slice name rest h))

-- A number; `after o` is the edit with `o` in its place.
number_step :
    (tag : ℕ) (after : Option ℕ → VersionEdit) (msg : Message) (o : Option ℕ) (rest : List ℕ)
    → tag < 2 ^ 32
    → ((input : List ℕ)
        → decode_field tag (after none) input ≡ read get_varint64 (λ n. after (some n)) msg input)
    → FitsNumber o
    → decode_all (after none) (number_bytes tag o ++ rest) ≡ decode_all (after o) rest
unfolding number_bytes
number_step tag after msg none rest h case h' = refl
number_step tag after msg (some num) rest h case h' =
    decode_all-field tag (after none) (after (some num)) (varint64 num) rest h (
      case (varint64 num ++ rest)
      ∙ read_next get_varint64 (λ n. after (some n)) msg (varint64 num ++ rest) rest num
          (get_varint64-varint64 num rest h'))

module _ (c : Option (List ℕ)) (l p n s : Option ℕ) where
  -- The four numbers.
  pub numbers_step :
      (rest : List ℕ)
      → FitsNumber l
      → FitsNumber p
      → FitsNumber n
      → FitsNumber s
      → decode_all (edit c none none none none [] [] []) (
          number_bytes 2 l
          ++ (number_bytes 9 p ++ (number_bytes 3 n ++ (number_bytes 4 s ++ rest))))
        ≡ decode_all (edit c l p n s [] [] []) rest
  unfolding decode_field set_log_number set_prev_log_number set_next_file set_last_sequence
  numbers_step rest hl hp hn hs =
      number_step 2 (λ o. edit c o none none none [] [] []) log_number_message l _ (omega arith)
        (λ input. refl) hl
      ∙ number_step 9 (λ o. edit c l o none none [] [] []) previous_log_number p _ (omega arith)
          (λ input. refl) hp
      ∙ number_step 3 (λ o. edit c l p o none [] [] []) next_file_number_message n _ (omega arith)
          (λ input. refl) hn
      ∙ number_step 4 (λ o. edit c l p n o [] [] []) last_sequence_number s _ (omega arith)
          (λ input. refl) hs

  pub pointers_step :
      (done_already ps : List (ℕ × List ℕ)) (rest : List ℕ)
      → All FitsPointer ps
      → decode_all (edit c l p n s done_already [] []) (pointers_bytes ps ++ rest)
        ≡ decode_all (edit c l p n s (done_already ++ ps) [] []) rest
  unfolding pointers_bytes
  pointers_step acc [] rest h = rw (append-nil acc)
  pointers_step acc ((level, key) ∷ ps) rest (fits, more) =
      rw
        (append_assoc (encode_varint32 5 ++ (encode_varint32 level ++ slice_bytes key))
          (pointers_bytes ps) rest)
        (decode_all-field 5 (edit c l p n s acc [] [])
            (edit c l p n s (acc ++ ((level, key) ∷ [])) [] [])
            (encode_varint32 level ++ slice_bytes key) (pointers_bytes ps ++ rest) (omega arith)
            (unfold decode_field set_compact_pointer in
              read_next (both get_level get_internal_key) _ compaction_pointer
                ((encode_varint32 level ++ slice_bytes key) ++ (pointers_bytes ps ++ rest))
                (pointers_bytes ps ++ rest) (level, key)
                (both-Reads get_level get_internal_key (encode_varint32 level) (slice_bytes key)
                  level key (get_level-Reads level fits.0)
                  (get_internal_key-Reads key fits.1.0 fits.1.1) (pointers_bytes ps ++ rest)))
          ∙ pointers_step (acc ++ ((level, key) ∷ [])) ps rest more
          ∙ ap (λ qs. decode_all (edit c l p n s qs [] []) rest)
              (append_assoc acc ((level, key) ∷ []) ps))

pair_less_asym : (a b : ℕ × ℕ) → pair_less a b ≡ true → pair_less b a ≡ false
unfolding pair_less
pair_less_asym (a, b) (c, d) h = ground arith

-- An element above all others goes to the end.
set_insert_last :
    (acc ds : List (ℕ × ℕ)) (d : ℕ × ℕ)
    → Ascending (acc ++ (d ∷ ds))
    → set_insert d acc ≡ acc ++ (d ∷ [])
unfolding set_insert
set_insert_last [] ds d h = refl
set_insert_last (x ∷ acc) ds d (above, h) =
    let less = all_last acc above in rw (pair_less_asym x d less, less, set_insert_last acc ds d h)
  where
    all_last :
        (acc : List (ℕ × ℕ))
        → All (λ y. pair_less x y ≡ true) (acc ++ (d ∷ ds))
        → pair_less x d ≡ true
    all_last [] (p, q) = p
    all_last (y ∷ acc) (p, q) = all_last acc q

module _ (c : Option (List ℕ)) (l p n s : Option ℕ) (ps : List (ℕ × List ℕ)) where
  pub deleted_step :
      (acc ds : List (ℕ × ℕ)) (rest : List ℕ)
      → All FitsDeleted ds
      → Ascending (acc ++ ds)
      → decode_all (edit c l p n s ps acc []) (deleted_bytes ds ++ rest)
        ≡ decode_all (edit c l p n s ps (acc ++ ds) []) rest
  unfolding deleted_bytes
  deleted_step acc [] rest h asc = rw (append-nil acc)
  deleted_step acc ((level, number) ∷ ds) rest (fits, more) asc =
      let d : ℕ × ℕ = (level, number) in
      let body = encode_varint32 level ++ varint64 number in
      let later = deleted_bytes ds ++ rest in
      let asc' : Ascending ((acc ++ (d ∷ [])) ++ ds) = rw (append_assoc acc (d ∷ []) ds) asc in
      rw (append_assoc (encode_varint32 6 ++ body) (deleted_bytes ds) rest) (
        decode_all-field 6 (edit c l p n s ps acc []) (edit c l p n s ps (set_insert d acc) []) body
          later (omega arith)
          (unfold decode_field remove_file in
            read_next (both get_level get_varint64) _ deleted_file (body ++ later) later
              (level, number)
              (both-Reads get_level get_varint64 (encode_varint32 level) (varint64 number) level
                number (get_level-Reads level fits.0) (λ r. get_varint64-varint64 number r fits.1)
                later))
        ∙ ap (λ x. decode_all (edit c l p n s ps x []) later) (set_insert_last acc ds d asc)
        ∙ deleted_step (acc ++ (d ∷ [])) ds rest more asc'
        ∙ ap (λ x. decode_all (edit c l p n s ps x []) rest) (append_assoc acc (d ∷ []) ds))
