-- ===== src/Leveldb/MemTable/Order.antt =====
-- The comparator of a memtable.
use Prim.Native.Nat.{Ordering}
use wormholefilters.Base.{ℕ, ◌≡◌, List, refl, sym, arith, ltb, if◌then◌else◌, subst}
use wormholefilters.Leveldb.Comparator.Order.{flip, IsTotalOrder, IsStrictOrder}
use wormholefilters.Leveldb.Comparator.{Comparator, first}
use wormholefilters.Leveldb.DbFormat.{compare_internal, extract_user_key, trailer}
use wormholefilters.Leveldb.MemTable.{slice, key_comparator}

-- The order of the numbers that end internal keys: the greater comes first.
abbrev by_number : ℕ → ℕ → Ordering
by_number m n = if ltb n m then Ordering.lt else if ltb m n then Ordering.gt else Ordering.eq

by_number_back : (m n : ℕ) → by_number n m ≡ flip (by_number m n)
by_number_back m n = ground arith

by_number_chain :
    (k m n : ℕ)
    → by_number k m ≡ Ordering.lt
    → by_number m n ≡ Ordering.lt
    → by_number k n ≡ Ordering.lt
by_number_chain k m n p q = ground arith

first_back :
    (o : Ordering) (m n : ℕ) → first (flip o) (by_number n m) ≡ flip (first o (by_number m n))
first_back Ordering.lt m n = refl
first_back Ordering.eq m n = by_number_back m n
first_back Ordering.gt m n = refl

module _ (ucmp : Comparator) (order : IsTotalOrder ucmp.compare) where
  first_chain :
      (a b c : List ℕ) (k m n : ℕ) (o o' : Ordering)
      → ucmp.compare a b ≡ o
      → ucmp.compare b c ≡ o'
      → first o (by_number k m) ≡ Ordering.lt
      → first o' (by_number m n) ≡ Ordering.lt
      → first (ucmp.compare a c) (by_number k n) ≡ Ordering.lt
  first_chain a b c k m n Ordering.lt Ordering.lt e f p q = rw (order.trans a b c e f)
  first_chain a b c k m n Ordering.lt Ordering.eq e f p q =
      rw (subst (λ (x : List ℕ). ucmp.compare a x ≡ Ordering.lt) (order.equal b c f) e)
  first_chain a b c k m n Ordering.eq Ordering.lt e f p q =
      rw (subst (λ (x : List ℕ). ucmp.compare x c ≡ Ordering.lt) (sym (order.equal a b e)) f)
  first_chain a b c k m n Ordering.eq Ordering.eq e f p q =
      rw (subst (λ (x : List ℕ). ucmp.compare x c ≡ Ordering.eq) (sym (order.equal a b e)) f)
        (by_number_chain k m n p q)
  first_chain a b c k m n Ordering.gt o' e f p q = absurd (cc)
  first_chain a b c k m n Ordering.lt Ordering.gt e f p q = absurd (cc)
  first_chain a b c k m n Ordering.eq Ordering.gt e f p q = absurd (cc)

  -- If user keys are ordered totally, the comparator of a memtable is a strict order.
  pub key_comparator-IsStrictOrder : IsStrictOrder (key_comparator ucmp).compare
  unfolding compare_internal
  key_comparator-IsStrictOrder = record {
    flipped = λ a b. rw (order.flipped (extract_user_key (slice a)) (extract_user_key (slice b))) (
        first_back (ucmp.compare (extract_user_key (slice a)) (extract_user_key (slice b)))
          (trailer (slice a)) (trailer (slice b)));
    trans = λ a b c p q.
        first_chain (extract_user_key (slice a)) (extract_user_key (slice b))
          (extract_user_key (slice c)) (trailer (slice a)) (trailer (slice b)) (trailer (slice c))
          (ucmp.compare (extract_user_key (slice a)) (extract_user_key (slice b)))
          (ucmp.compare (extract_user_key (slice b)) (extract_user_key (slice c))) refl refl p q;
  }
