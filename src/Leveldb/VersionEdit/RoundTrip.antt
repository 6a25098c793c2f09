-- ===== src/Leveldb/VersionEdit/RoundTrip.antt =====
-- What `EncodeTo` writes is read back by `DecodeFrom`.
use mathlib.Core.List.{append_assoc, append-nil}
use wormholefilters.Base.{ℕ, ◌^◌, ◌≡◌, Option, List, [], ◌∷◌, ◌++◌, refl, sym, ap, ◌∙◌, arith, All}
use wormholefilters.Leveldb.Consume.{ok, next, consume_all-done}
use wormholefilters.Leveldb.Varint.Shrink.{varint64, get_varint64-varint64}
use wormholefilters.Leveldb.Varint.{encode_varint32, get_varint32, get_varint64, get_groups}
use wormholefilters.Leveldb.VersionEdit.Decode.{decode_all, decode_all-field}
use wormholefilters.Leveldb.VersionEdit.Getters.{get_level-Reads, get_internal_key-Reads}
use wormholefilters.Leveldb.Getter.{both}
use wormholefilters.Leveldb.Getter.Laws.{read_next, both-Reads}
use wormholefilters.Leveldb.VersionEdit.{
  VersionEdit, FileMetaData, file_meta, slice_bytes, new_files_bytes, file_bytes, encode_to,
  get_level, get_internal_key, decode_file, decode_field, decode_round, decode_from, new_file_entry,
  add_file,
}
use wormholefilters.Leveldb.VersionEdit.Fields.{
  edit, FitsName, FitsNumber, FitsPointer, FitsDeleted, FitsFile, Ascending, comparator_step,
  numbers_step, pointers_step, deleted_step,
}

file_meta_eta :
    (f : FileMetaData)
    → f.refs ≡ 0
    → f.allowed_seeks ≡ 2 ^ 30
    → file_meta f.number f.file_size f.smallest f.largest ≡ f
file_meta_eta f r a = λ i. record {
  refs = sym r i;
  allowed_seeks = sym a i;
  number = f.number;
  file_size = f.file_size;
  smallest = f.smallest;
  largest = f.largest;
}

-- `decode_file` on what is written for a file.
decode_file_step :
    (e : VersionEdit) (level : ℕ) (f : FileMetaData) (rest : List ℕ)
    → FitsFile (level, f)
    → decode_file e (file_bytes level f ++ rest)
      ≡ next (add_file e level f.number f.file_size f.smallest f.largest) rest
unfolding decode_file file_bytes
decode_file_step e level f rest (hl, hr, ha, hn, hs, hsmall, hlarge) =
    let g = get_internal_key in
    let small = slice_bytes f.smallest in
    let large = slice_bytes f.largest in
    let keys =
      both-Reads g g small large f.smallest f.largest
        (get_internal_key-Reads f.smallest hsmall.0 hsmall.1)
        (get_internal_key-Reads f.largest hlarge.0 hlarge.1) in
    let sizes =
      both-Reads get_varint64 (both g g) (varint64 f.file_size) (small ++ large) f.file_size
        (f.smallest, f.largest) (λ r. get_varint64-varint64 f.file_size r hs) keys in
    let numbers =
      both-Reads get_varint64 (both get_varint64 (both g g)) (varint64 f.number) _ f.number _
        (λ r. get_varint64-varint64 f.number r hn) sizes in
    read_next (both get_level (both get_varint64 (both get_varint64 (both g g)))) _ new_file_entry _
      rest _
      (both-Reads get_level (both get_varint64 (both get_varint64 (both g g)))
        (encode_varint32 level) _ level _ (get_level-Reads level hl) numbers rest)

module _ (c : Option (List ℕ)) (l p n s : Option ℕ) (ps : List (ℕ × List ℕ))
    (ds : List (ℕ × ℕ)) where
  files_step :
      (acc fs : List (ℕ × FileMetaData)) (rest : List ℕ)
      → All FitsFile fs
      → decode_all (edit c l p n s ps ds acc) (new_files_bytes fs ++ rest)
        ≡ decode_all (edit c l p n s ps ds (acc ++ fs)) rest
  unfolding new_files_bytes
  files_step acc [] rest h = rw (append-nil acc)
  files_step acc ((level, f) ∷ fs) rest (fits, more) =
      let later = new_files_bytes fs ++ rest in
      let g = file_meta f.number f.file_size f.smallest f.largest in
      rw (append_assoc (encode_varint32 7 ++ file_bytes level f) (new_files_bytes fs) rest) (
        decode_all-field 7 (edit c l p n s ps ds acc)
          (edit c l p n s ps ds (acc ++ ((level, g) ∷ []))) (file_bytes level f) later (omega arith)
          (unfold decode_field add_file in
            decode_file_step (edit c l p n s ps ds acc) level f later fits)
        ∙ ap (λ x. decode_all (edit c l p n s ps ds (acc ++ ((level, x) ∷ []))) later)
            (file_meta_eta f fits.1 fits.2)
        ∙ files_step (acc ++ ((level, f) ∷ [])) fs rest more
        ∙ ap (λ x. decode_all (edit c l p n s ps ds x) rest)
            (append_assoc acc ((level, f) ∷ []) fs))

-- The members of an edit are in the ranges of their types, its levels are levels, its keys are
-- not empty, and its files and its set are as the methods make them.
pub record IsEncodable (e : VersionEdit) : Type 0 where
  pub name : FitsName e.comparator
  pub log : FitsNumber e.log_number
  pub prev_log : FitsNumber e.prev_log_number
  pub next_file : FitsNumber e.next_file_number
  pub last : FitsNumber e.last_sequence
  pub pointers : All FitsPointer e.compact_pointers
  pub deleted : All FitsDeleted e.deleted_files
  pub ascending : Ascending e.deleted_files
  pub files : All FitsFile e.new_files

decode_all_end : (e : VersionEdit) → decode_all e [] ≡ ok e
unfolding decode_all
decode_all_end e =
    consume_all-done decode_round e e [] (unfold decode_round get_varint32 get_groups in refl)

-- `DecodeFrom` reads back the edit that `EncodeTo` has written into an empty string, if its parts can be
-- encoded: levels below 7, keys that are not empty, strings below 2 ^ 32 bytes, numbers of 64 bits, the
-- deleted files in ascending order and the new ones as `AddFile` makes them.
pub decode_from-encode_to : (e : VersionEdit) → IsEncodable e → decode_from (encode_to [] e) ≡ ok e
unfolding decode_from encode_to decode_all
decode_from-encode_to e h =
    let files = new_files_bytes e.new_files in
    let tail : files ++ [] ≡ files = append-nil files in
    let c = e.comparator in
    let l = e.log_number in
    let p = e.prev_log_number in
    let n = e.next_file_number in
    let s = e.last_sequence in
    comparator_step c _ h.name
    ∙ numbers_step c l p n s _ h.log h.prev_log h.next_file h.last
    ∙ pointers_step c l p n s [] e.compact_pointers _ h.pointers
    ∙ deleted_step c l p n s e.compact_pointers [] e.deleted_files files h.deleted h.ascending
    ∙ ap (decode_all (edit c l p n s e.compact_pointers e.deleted_files [])) (sym tail)
    ∙ files_step c l p n s e.compact_pointers e.deleted_files [] e.new_files [] h.files
    ∙ decode_all_end e
