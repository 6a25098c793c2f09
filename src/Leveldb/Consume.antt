-- ===== src/Leveldb/Consume.antt =====
-- Loops that take a piece from the front of their input until it is empty: the shape of
-- `VersionEdit::DecodeFrom` and `WriteBatch::Iterate`.
use wormholefilters.Base.{ℕ, zero, suc, ◌<◌, ◌≡◌, ◌≢◌, List, refl, ◌∙◌, arith, length}

-- What one round does.
pub data Round {ℓ} (S E : Type ℓ) : Type ℓ where
  done : S → Round S E
  fail : E → Round S E
  next : S → List ℕ → Round S E

pub data Outcome {ℓ} (S E : Type ℓ) : Type ℓ where
  ok : S → Outcome S E
  err : E → Outcome S E
  out_of_fuel : Outcome S E

module _ {ℓ} {S E : Type ℓ} (round : S → List ℕ → Round S E) where
  unfoldable pub consume : ℕ → S → List ℕ → Outcome S E
  consume zero s input = out_of_fuel
  consume (suc fuel) s input = elim (round s input) [
    | done s' ↦ ok s'
    | fail e ↦ err e
    | next s' rest ↦ consume fuel s' rest
  ]

  -- A round takes a byte at least, so the length of the input is enough fuel.
  unfoldable pub consume_all : S → List ℕ → Outcome S E
  consume_all s input = consume (suc (length input)) s input

  pub consume_all-done :
      (s s' : S) (input : List ℕ) → round s input ≡ done s' → consume_all s input ≡ ok s'
  unfolding consume_all consume
  consume_all-done s s' input e = rw (e, consume)

  pub consume_all-fail :
      (s : S) (e : E) (input : List ℕ) → round s input ≡ fail e → consume_all s input ≡ err e
  unfolding consume_all consume
  consume_all-fail s e input h = rw (h, consume)

  module _
      (shrinks : (s s' : S) (input rest : List ℕ)
        → round s input ≡ next s' rest
        → length rest < length input) where
    same_fuel :
        (m n : ℕ) (s : S) (input : List ℕ)
        → length input < m
        → length input < n
        → consume m s input ≡ consume n s input
    unfolding consume
    same_fuel zero n s input p q = absurd (omega arith)
    same_fuel (suc m) zero s input p q = absurd (omega arith)
    same_fuel (suc m) (suc n) s input p q =
        by_round (round s input)
          (λ s' rest e.
            let lt = shrinks s s' input rest e in
            same_fuel m n s' rest (omega (arith, lt)) (omega (arith, lt)))
          refl
      where
        by_round :
            (r : Round S E)
            → ((s' : S) (rest : List ℕ)
                → round s input ≡ next s' rest
                → consume m s' rest ≡ consume n s' rest)
            → round s input ≡ r
            → consume (suc m) s input ≡ consume (suc n) s input
        by_round (done s') ih e = rw (e, consume)
        by_round (fail x) ih e = rw (e, consume)
        by_round (next s' rest) ih e = rw (e, consume) (ih s' rest e)

    ends :
        (fuel : ℕ) (s : S) (input : List ℕ)
        → length input < fuel
        → consume fuel s input ≢ out_of_fuel
    unfolding consume
    ends zero s input h = absurd (omega arith)
    ends (suc fuel) s input h =
        by_round (round s input)
          (λ s' rest e. ends fuel s' rest (omega (arith, h, shrinks s s' input rest e))) refl
      where
        by_round :
            (r : Round S E)
            → ((s' : S) (rest : List ℕ)
                → round s input ≡ next s' rest
                → consume fuel s' rest ≢ out_of_fuel)
            → round s input ≡ r
            → consume (suc fuel) s input ≢ out_of_fuel
        by_round (done s') ih e = rw (e, consume) (λ x. cc)
        by_round (fail x) ih e = rw (e, consume) (λ x. cc)
        by_round (next s' rest) ih e = rw (e, consume) (ih s' rest e)

    -- The loop ends on every input.
    pub consume_all_ends : (s : S) (input : List ℕ) → consume_all s input ≢ out_of_fuel
    unfolding consume_all
    consume_all_ends s input = ends (suc (length input)) s input (omega arith)

    pub consume_all-next :
        (s s' : S) (input rest : List ℕ)
        → round s input ≡ next s' rest
        → consume_all s input ≡ consume_all s' rest
    unfolding consume_all consume
    consume_all-next s s' input rest e =
        let lt = shrinks s s' input rest e in
        step e
        ∙ same_fuel (length input) (suc (length rest)) s' rest (omega (arith, lt)) (omega arith)
      where
        step :
            round s input ≡ next s' rest
            → consume (suc (length input)) s input ≡ consume (length input) s' rest
        step e = rw (e, consume)
