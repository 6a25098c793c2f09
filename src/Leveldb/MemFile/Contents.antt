-- ===== src/Leveldb/MemFile/Contents.antt =====
-- The blocks in a row.
use Prim.Native.Nat.{min}
use native.Mathlib.Decide.{dec_lt}
use mathlib.Core.List.{append_assoc, append-nil}
use wormholefilters.Base.{
  ℕ, zero, suc, ◌+◌, ◌-◌, ◌*◌, ◌≤◌, ◌<◌, ◌≡◌, ◌⊎◌, inl, inr, some, List, [], ◌∷◌, ◌++◌, refl, sym,
  ap, ap₂, ◌∙◌, arith, lt→ltb, length, length-append, get_or, take, drop, drop_append, take_append,
  All,
}
use wormholefilters.Base.Slices.{drop_nil, take_nil, take_add, drop-drop, take-take, drop-take}
use wormholefilters.Leveldb.MemFile.{copy_loop}

unfoldable pub flat : List (List ℕ) → List ℕ
flat [] = []
flat (b ∷ bs) = b ++ flat bs

abbrev pub IsBlock : List ℕ → Type 0
IsBlock b = length b ≡ 8192

pub flat-append : (bs : List (List ℕ)) (b : List ℕ) → flat (bs ++ (b ∷ [])) ≡ flat bs ++ b
unfolding flat
flat-append [] b = append-nil b
flat-append (b' ∷ bs) b = ap (◌++◌ b') (flat-append bs b) ∙ sym (append_assoc b' (flat bs) b)

pub length-flat : (bs : List (List ℕ)) → All IsBlock bs → length (flat bs) ≡ 8192 * length bs
unfolding flat
length-flat [] h = omega arith
length-flat (b ∷ bs) (p, h) = omega (arith, p, length-append b (flat bs), length-flat bs h)

-- A block is a piece of the row.
block_at :
    (bs : List (List ℕ)) (k : ℕ)
    → All IsBlock bs
    → get_or bs k [] ≡ take 8192 (drop (8192 * k) (flat bs))
unfolding flat
block_at [] k h = rw (drop_nil (8192 * k), take_nil 8192)
block_at (b ∷ bs) zero (p, h) = rw (sym p) (sym (take_append b (flat bs)))
block_at (b ∷ bs) (suc k) (p, h) =
    let e : 8192 * suc k ≡ length b + 8192 * k = omega (arith, p) in
    rw (e, sym (drop-drop (length b) (8192 * k) (b ++ flat bs)), drop_append b (flat bs))
      (block_at bs k h)

module _ (bs : List (List ℕ)) (h : All IsBlock bs) where
  -- What a round copies.
  piece :
      (k o n : ℕ)
      → o < 8192
      → n ≤ 8192 - o
      → take n (drop o (get_or bs k [])) ≡ take n (drop (8192 * k + o) (flat bs))
  piece k o n p q = rw (
    block_at bs k h,
    drop-take o 8192 (drop (8192 * k) (flat bs)) (omega arith),
    take-take n (8192 - o) (drop o (drop (8192 * k) (flat bs))) q,
    drop-drop (8192 * k) o (flat bs),
  )

  copy_loop_done : (fuel k o : ℕ) → copy_loop bs (suc fuel) k o 0 ≡ some []
  unfolding copy_loop
  copy_loop_done fuel k o = refl

  copy_loop_round :
      (fuel k o n a : ℕ) (more : List ℕ)
      → 0 < n
      → min (8192 - o) n ≡ a
      → copy_loop bs fuel (k + 1) 0 (n - a) ≡ some more
      → copy_loop bs (suc fuel) k o n ≡ some (take a (drop o (get_or bs k [])) ++ more)
  unfolding copy_loop
  copy_loop_round fuel k o n a more p q e =
      rw (lt→ltb 0 n p, q, e, copy_loop)
        (ap (λ (x : ℕ). some (take x (drop o (get_or bs k [])) ++ more)) q)

  -- What the later rounds copy.
  rest_piece :
      (k o n a : ℕ)
      → (a ≡ n) ⊎ (a ≡ 8192 - o)
      → o < 8192
      → take (n - a) (drop (8192 * (k + 1) + 0) (flat bs))
        ≡ take (n - a) (drop a (drop (8192 * k + o) (flat bs)))
  rest_piece k o n a (inl e) p = let none_left : n - a ≡ 0 = omega arith in rw none_left
  rest_piece k o n a (inr e) p =
      let same : 8192 * (k + 1) + 0 ≡ 8192 * k + o + a = omega arith in
      rw (drop-drop (8192 * k + o) a (flat bs), same)

  -- The loop of `Read` copies a piece of the row that need not begin or end where a block does.
  pub copy_loop_lem :
      (fuel k o n : ℕ)
      → o < 8192
      → n < fuel
      → copy_loop bs fuel k o n ≡ some (take n (drop (8192 * k + o) (flat bs)))
  copy_loop_lem zero k o n p q = absurd (omega arith)
  copy_loop_lem (suc fuel) k o zero p q = copy_loop_done fuel k o
  copy_loop_lem (suc fuel) k o (suc m) p q =
      let n = suc m in
      let a = min (8192 - o) n in
      let xs = drop (8192 * k + o) (flat bs) in
      let next = copy_loop_lem fuel (k + 1) 0 (n - a) (omega arith) (omega arith) in
      copy_loop_round fuel k o n a (take (n - a) (drop (8192 * (k + 1) + 0) (flat bs)))
        (omega arith) refl next
      ∙ ap some (
          ap₂ ◌++◌ (piece k o a p (omega arith)) (rest_piece k o n a (either o n) p)
          ∙ (sym (take_add a (n - a) xs) ∙ ap (λ (x : ℕ). take x xs) (all_of o n)))
    where
      either : (o n : ℕ) → (min (8192 - o) n ≡ n) ⊎ (min (8192 - o) n ≡ 8192 - o)
      either o n = elim (dec_lt n (8192 - o)) [
        | yes h ↦ inl (omega arith)
        | no h ↦ inr (omega arith)
      ]

      all_of : (o n : ℕ) → min (8192 - o) n + (n - min (8192 - o) n) ≡ n
      all_of o n = omega arith
