-- ===== src/Leveldb/DbFormat/Order.antt =====
-- The order of internal keys, and their separators.
use Prim.Native.Nat.{compare, Ordering}
use wormholefilters.Base.{
  ℕ, ◌+◌, ◌-◌, ◌*◌, ◌^◌, ◌≤◌, ◌<◌, ◌≡◌, ◌≢◌, ◌⊎◌, inl, inr, true, false, ◌&&◌, List, [], ◌++◌, refl,
  sym, ap, ◌∙◌, arith, ltb, if◌then◌else◌, Bool-cases, length, length-append, length-take, take,
}
use wormholefilters.Leveldb.Coding.{encode_fixed64, put_fixed64}
use wormholefilters.Leveldb.Coding.RoundTrip.{length-encode_fixed64}
use wormholefilters.Leveldb.Comparator.Separator.{IsLawful}
use wormholefilters.Leveldb.Comparator.{first, Comparator}
use wormholefilters.Leveldb.DbFormat.Keys.{
  pack_lem, packed-lt, append_internal_key-tagged, extract_user_key-tagged, trailer-tagged,
  new_lookup_key_lem,
}
use wormholefilters.Leveldb.DbFormat.{
  ValueType, deletion, value, type_code, ParsedInternalKey, pack_sequence_and_type,
  append_internal_key, extract_user_key, trailer, compare_internal, is_less, shorten,
  internal_separator, max_sequence_number, new_lookup_key, internal_key,
}

-- Increasing user keys; for equal ones decreasing sequence numbers, then decreasing types.
unfoldable pub newest_first : Comparator → ParsedInternalKey → ParsedInternalKey → Ordering
newest_first c a b =
    first (c.compare a.user_key b.user_key)
      (first (compare b.sequence a.sequence) (compare (type_code b.type) (type_code a.type)))

code-lt : (t : ValueType) → type_code t < 256
code-lt deletion = omega arith
code-lt value = omega arith

descending :
    (s t s' t' : ℕ)
    → t < 256
    → t' < 256
    → (if ltb (s' * 256 + t') (s * 256 + t)
        then Ordering.lt
        else if ltb (s * 256 + t) (s' * 256 + t')
        then Ordering.gt
        else Ordering.eq)
      ≡ first (compare s' s) (compare t' t)
descending s t s' t' p q = ground arith

module _ (c : Comparator) where
  -- Two internal keys compare by user key, and the newest of one user key comes first, if their sequence
  -- numbers are below 2 ^ 56.
  pub compare_internal-newest_first :
      (a b : ParsedInternalKey)
      → a.sequence < 2 ^ 56
      → b.sequence < 2 ^ 56
      → compare_internal c (append_internal_key [] a) (append_internal_key [] b)
        ≡ newest_first c a b
  unfolding compare_internal newest_first
  compare_internal-newest_first a b p q =
      let m = pack_sequence_and_type a.sequence a.type in
      let n = pack_sequence_and_type b.sequence b.type in
      rw (
        append_internal_key-tagged [] a,
        append_internal_key-tagged [] b,
        extract_user_key-tagged a.user_key m,
        extract_user_key-tagged b.user_key n,
        trailer-tagged a.user_key m (packed-lt a.sequence a.type p),
        trailer-tagged b.user_key n (packed-lt b.sequence b.type q),
        pack_lem a.sequence a.type p,
        pack_lem b.sequence b.type q,
        descending a.sequence (type_code a.type) b.sequence (type_code b.type) (code-lt a.type)
            (code-lt b.type),
      )

seek :
    (s s' t : ℕ)
    → t ≤ 1
    → ((s' ≤ s → first (compare s' s) (compare t 1) ≢ Ordering.gt)
        × (s < s' → first (compare s' s) (compare t 1) ≡ Ordering.gt))
seek s s' t h = (λ le e. absurd (ground arith), λ lt. ground arith)

code-le : (t : ValueType) → type_code t ≤ 1
code-le deletion = omega arith
code-le value = omega arith

-- The key by which a snapshot is looked up stands, among the entries of its user key, before
-- those that are not newer than the snapshot and behind those that are. The comparator is lawful and
-- the numbers are below 2 ^ 56.
pub compare_internal-new_lookup_key :
    (c : Comparator) (e : ParsedInternalKey) (s : ℕ)
    → IsLawful c
    → s < 2 ^ 56
    → e.sequence < 2 ^ 56
    → ((e.sequence ≤ s
          → compare_internal c
              (internal_key (new_lookup_key e.user_key s))
              (append_internal_key [] e)
            ≢ Ordering.gt)
        × (s < e.sequence
            → compare_internal c
                (internal_key (new_lookup_key e.user_key s))
                (append_internal_key [] e)
              ≡ Ordering.gt))
unfolding newest_first
compare_internal-new_lookup_key c e s law p q =
    let key : ParsedInternalKey = record { user_key = e.user_key; sequence = s; type = value } in
    let order = compare_internal-newest_first c key e p q in
    rw ((new_lookup_key_lem e.user_key s).0, order, law.order.same e.user_key)
      (seek s e.sequence (type_code e.type) (code-le e.type))

is_less_lem : (o : Ordering) → is_less o ≡ true → o ≡ Ordering.lt
unfolding is_less
is_less_lem Ordering.lt h = refl
is_less_lem Ordering.eq h = absurd (cc)
is_less_lem Ordering.gt h = absurd (cc)

extract_user_key_lem : (k : List ℕ) → length (extract_user_key k) ≡ length (take (length k - 8) k)
unfolding extract_user_key
extract_user_key_lem k = refl

module _ (c : Comparator) where
  -- The two results of `shorten`.
  shorten-cases :
      (start tmp : List ℕ)
      → (shorten c start tmp ≡ start)
        ⊎ ((n : ℕ) × (shorten c start tmp ≡ tmp ++ encode_fixed64 n)
            × (c.compare (extract_user_key start) tmp ≡ Ordering.lt)
            × (length tmp < length (extract_user_key start)))
  unfolding shorten put_fixed64
  shorten-cases start tmp =
      let user = extract_user_key start in
      elim (Bool-cases (ltb (length tmp) (length user) && is_less (c.compare user tmp))) [
        | inr keep ↦ inl (rw keep)
        | inl cut ↦
            let short : ltb (length tmp) (length user) ≡ true = ground arith in
            let less : is_less (c.compare user tmp) ≡ true = ground arith in
            inr (
              pack_sequence_and_type max_sequence_number value,
              rw cut,
              is_less_lem (c.compare user tmp) less,
              ground arith,
            )
      ]

  compare_internal_user :
      (a b : List ℕ)
      → c.compare (extract_user_key a) (extract_user_key b) ≡ Ordering.lt
      → compare_internal c a b ≡ Ordering.lt
  unfolding compare_internal
  compare_internal_user a b h = rw h

  -- What stands behind a user key in the order is not before it.
  compare_internal_parts :
      (a b : List ℕ)
      → compare_internal c a b ≡ Ordering.lt
      → (c.compare (extract_user_key a) (extract_user_key b) ≡ Ordering.lt)
        ⊎ (c.compare (extract_user_key a) (extract_user_key b) ≡ Ordering.eq)
  unfolding compare_internal
  compare_internal_parts a b h = by_result (c.compare (extract_user_key a) (extract_user_key b)) _ h
    where
      by_result : (o p : Ordering) → first o p ≡ Ordering.lt → (o ≡ Ordering.lt) ⊎ (o ≡ Ordering.eq)
      by_result Ordering.lt p h = inl refl
      by_result Ordering.eq p h = inr refl
      by_result Ordering.gt p h = absurd (cc)

  compare_internal_refl : IsLawful c → (a : List ℕ) → compare_internal c a a ≡ Ordering.eq
  unfolding compare_internal
  compare_internal_refl law a =
      let e : ltb (trailer a) (trailer a) ≡ false = ground arith in
      rw (law.order.same (extract_user_key a), e)

  before_limit :
      (start limit : List ℕ)
      → IsLawful c
      → compare_internal c start limit ≡ Ordering.lt
      → c.compare
          (extract_user_key start)
          (c.find_shortest_separator (extract_user_key start) (extract_user_key limit))
        ≡ Ordering.lt
      → c.compare
          (c.find_shortest_separator (extract_user_key start) (extract_user_key limit))
          (extract_user_key limit)
        ≡ Ordering.lt
  before_limit start limit law h less =
      let a = extract_user_key start in
      let b = extract_user_key limit in
      elim (compare_internal_parts start limit h) [
        | inl lt ↦ law.separator_before a b lt
        | inr eq ↦
            let t : c.find_shortest_separator a b ≡ a =
              ap (c.find_shortest_separator a) (sym (law.order.equal a b eq))
              ∙ law.separator_equal a in
            absurd (cc (law.order.same a))
      ]

  -- If `start` stands before `limit`, the separator of internal keys stands from `start` on and
  -- before `limit`, and is no longer than `start`. The comparator of user keys is lawful.
  pub internal_separator_lem :
      (start limit : List ℕ)
      → IsLawful c
      → compare_internal c start limit ≡ Ordering.lt
      → (compare_internal c start (internal_separator c start limit) ≢ Ordering.gt)
        × (compare_internal c (internal_separator c start limit) limit ≡ Ordering.lt)
        × (length (internal_separator c start limit) ≤ length start)
  unfolding internal_separator
  internal_separator_lem start limit law h =
      let a = extract_user_key start in
      let b = extract_user_key limit in
      let tmp = c.find_shortest_separator a b in
      elim (shorten-cases start tmp) [
        | inl same ↦ rw same (λ e. cc (compare_internal_refl law start), h, omega arith)
        | inr (n, e, less, short) ↦
            let back = extract_user_key-tagged tmp n in
            let from : c.compare a (extract_user_key (tmp ++ encode_fixed64 n)) ≡ Ordering.lt =
              rw back less in
            let before : c.compare (extract_user_key (tmp ++ encode_fixed64 n)) b ≡ Ordering.lt =
              rw back (before_limit start limit law h less) in
            rw e (
              λ g. cc (compare_internal_user start (tmp ++ encode_fixed64 n) from),
              compare_internal_user (tmp ++ encode_fixed64 n) limit before,
              omega (
                arith,
                short,
                length-append tmp (encode_fixed64 n),
                length-encode_fixed64 n,
                length-take (length start - 8) start,
                extract_user_key_lem start,
              ),
            )
      ]
