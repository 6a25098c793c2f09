-- ===== src/Leveldb/Getter.antt =====
-- Reads from the front of an input, as the functions `Get...` of leveldb/util/coding.h make them,
-- and a `case` that reads and goes on.
pub mod Laws
use wormholefilters.Base.{ℕ, Bool, true, false, Option, none, some, List, if◌then◌else◌}
use wormholefilters.Leveldb.Consume.{Round, fail, next}

-- The value and what is left, or `false`.
abbrev pub Getter : Type 0 → Type 0
Getter A = List ℕ → Option (A × List ℕ)

abbrev pub and_then : {A B : Type 0} → Option (A × List ℕ) → (A → Getter B) → Option (B × List ℕ)
and_then none f = none
and_then (some (a, rest)) f = f a rest

unfoldable pub both : {A B : Type 0} → Getter A → Getter B → Getter (A × B)
both g h input = and_then (g input) (λ a rest. and_then (h rest) (λ b rest'. some ((a, b), rest')))

-- A read whose value is tested.
unfoldable pub such_that : {A : Type 0} → Getter A → (A → Bool) → Getter A
such_that g test input = and_then (g input) (λ a rest. if test a then some (a, rest) else none)

-- A case of a `switch`: the read, and what it does to the state, or the error.
unfoldable pub after_read : {A S E : Type 0} → (A → S) → E → Option (A × List ℕ) → Round S E
after_read set msg none = fail msg
after_read set msg (some (a, rest)) = next (set a) rest

unfoldable pub read : {A S E : Type 0} → Getter A → (A → S) → E → List ℕ → Round S E
unfolding after_read
read g set msg input = after_read set msg (g input)
