-- ===== src/Leveldb/Arena/Fresh.antt =====
-- What the arena gives out lies in a block and is given out once.
use native.Mathlib.Decide.{dec_lt}
use wormholefilters.Base.{
  ℕ, suc, ◌+◌, ◌%◌, ◌^◌, ◌≤◌, ◌<◌, ◌≡◌, ◌⊎◌, inl, inr, List, [], ◌∷◌, ◌++◌, refl, ◌∙◌, arith, ltb,
  leb, leb→le, Bool-cases, lt→ltb, le→ltb, u64, length, length-append, get_or, get_or-append_left,
}
use wormholefilters.Leveldb.Arena.{
  Arena, allocate_new_block, bump, next_block, allocate_fallback, allocate, slop, allocate_aligned,
}

-- The rest that is kept lies in a block.
abbrev pub IsArena : Arena → Type 0
IsArena a =
    (a.remaining ≡ 0)
    ⊎ ((a.block < length a.blocks) × (a.offset + a.remaining ≤ get_or a.blocks a.block 0))

-- A byte that has not been given out: in a block to come, or in the rest.
abbrev pub Free : Arena → ℕ → ℕ → Type 0
Free a k o = (length a.blocks ≤ k) ⊎ ((k ≡ a.block) × (a.offset ≤ o) × (o < a.offset + a.remaining))

-- An allocation: its bytes lie in their block, were free and are not any more, and nothing else has
-- become free.
pub record IsAllocation (a : Arena) (bytes : ℕ) (r : (ℕ × ℕ) × Arena) : Type 0 where
  pub within : r.0.1 + bytes ≤ get_or r.1.blocks r.0.0 0
  pub free_before : (i : ℕ) → i < bytes → Free a r.0.0 (r.0.1 + i)
  pub used_after : (i : ℕ) → i < bytes → ¬ Free r.1 r.0.0 (r.0.1 + i)
  pub kept : (k o : ℕ) → Free r.1 k o → Free a k o
  pub arena_after : IsArena r.1

get_or-last : (xs : List ℕ) (n : ℕ) → get_or (xs ++ (n ∷ [])) (length xs) 0 ≡ n
get_or-last [] n = refl
get_or-last (x ∷ xs) n = get_or-last xs n

bump-IsAllocation :
    (a : Arena) (skip needed bytes : ℕ)
    → IsArena a
    → 0 < bytes
    → needed ≡ skip + bytes
    → needed ≤ a.remaining
    → IsAllocation a bytes (bump a skip needed)
unfolding bump
bump-IsAllocation a skip needed bytes (inl e) p n h = absurd (omega arith)
bump-IsAllocation a skip needed bytes (inr (q, r)) p n h = record {
  within = omega arith;
  free_before = λ i l. inr (refl, omega arith, omega arith);
  used_after = λ i l f. not_free i l f;
  kept = λ k o f. elim f [ inl x ↦ inl x | inr (x, y, z) ↦ inr (x, omega arith, omega arith) ];
  arena_after = inr (q, omega arith);
}
  where
    not_free : (i : ℕ) → i < bytes → ¬ Free ((bump a skip needed).1) a.block (a.offset + skip + i)
    not_free i l (inl x) = unfold bump in absurd (omega arith)
    not_free i l (inr (x, y, z)) = unfold bump in absurd (omega arith)

large-IsAllocation :
    (a : Arena) (bytes : ℕ)
    → IsArena a
    → IsAllocation a bytes ((length a.blocks, 0), (allocate_new_block a bytes).1)
unfolding allocate_new_block
large-IsAllocation a bytes h = record {
  within = omega (arith, get_or-last a.blocks bytes);
  free_before = λ i l. inl (omega arith);
  used_after = λ i l f. not_free h i f;
  kept = λ k o f. elim f [ inl x ↦ inl (omega (arith, x, more)) | inr x ↦ inr x ];
  arena_after = after h;
}
  where
    more : length (a.blocks ++ (bytes ∷ [])) ≡ length a.blocks + 1
    more = length-append a.blocks (bytes ∷ []) ∙ one (length a.blocks)
      where
        one : (n : ℕ) → n + suc 0 ≡ n + 1
        one n = omega arith

    not_free :
        IsArena a → (i : ℕ) → ¬ Free ((allocate_new_block a bytes).1) (length a.blocks) (0 + i)
    not_free h i (inl x) = unfold allocate_new_block in absurd (omega (arith, more, x))
    not_free (inl e) i (inr (x, y, z)) = unfold allocate_new_block in absurd (omega arith)
    not_free (inr (p, q)) i (inr (x, y, z)) = unfold allocate_new_block in absurd (omega arith)

    after : IsArena a → IsArena ((allocate_new_block a bytes).1)
    after (inl e) = unfold allocate_new_block in inl e
    after (inr (p, q)) =
        unfold allocate_new_block in
        inr (
          omega (arith, p, more),
          omega (arith, q, get_or-append_left a.blocks (bytes ∷ []) a.block 0 p),
        )

-- What is free after a step that gives out nothing was free before.
earlier :
    (a b : Arena) (bytes : ℕ) (r : (ℕ × ℕ) × Arena)
    → ((k o : ℕ) → Free b k o → Free a k o)
    → IsAllocation b bytes r
    → IsAllocation a bytes r
earlier a b bytes r f h = record {
  within = h.within;
  free_before = λ i l. f r.0.0 (r.0.1 + i) (h.free_before i l);
  used_after = h.used_after;
  kept = λ k o x. f k o (h.kept k o x);
  arena_after = h.arena_after;
}

next_block-Free : (a : Arena) (k o : ℕ) → Free (next_block a) k o → Free a k o
unfolding next_block allocate_new_block
next_block-Free a k o (inl x) = inl (omega (arith, x, length-append a.blocks (4096 ∷ [])))
next_block-Free a k o (inr (x, y, z)) = inl (omega arith)

next_block-IsArena : (a : Arena) → IsArena (next_block a)
unfolding next_block allocate_new_block
next_block-IsArena a =
    inr
      (omega (arith, length-append a.blocks (4096 ∷ [])), omega (arith, get_or-last a.blocks 4096))

allocate_fallback-IsAllocation :
    (a : Arena) (bytes : ℕ)
    → IsArena a
    → 0 < bytes
    → IsAllocation a bytes (allocate_fallback a bytes)
unfolding allocate_fallback
allocate_fallback-IsAllocation a bytes h p = elim (dec_lt 1024 bytes) [
  | yes large ↦
      rw (lt→ltb 1024 bytes large) (unfold allocate_new_block in large-IsAllocation a bytes h)
  | no small ↦ rw (le→ltb 1024 bytes (omega arith)) (
      earlier a (next_block a) bytes (bump (next_block a) 0 bytes) (next_block-Free a) (
        bump-IsAllocation (next_block a) 0 bytes bytes (next_block-IsArena a) p (omega arith)
          (room a (omega arith))))
]
  where
    room : (a : Arena) → bytes ≤ 1024 → bytes ≤ (next_block a).remaining
    room a h = unfold next_block in omega arith

allocate_lem :
    (a : Arena) (bytes : ℕ) → IsArena a → 0 < bytes → IsAllocation a bytes (allocate a bytes)
unfolding allocate
allocate_lem a bytes h p = elim (Bool-cases (leb bytes a.remaining)) [
  | inl fits ↦
      rw fits (bump-IsAllocation a 0 bytes bytes h p (omega arith) (leb→le bytes a.remaining fits))
  | inr full ↦ rw full (allocate_fallback-IsAllocation a bytes h p)
]

fallback_offset : (a : Arena) (bytes : ℕ) → (allocate_fallback a bytes).0.1 ≡ 0
unfolding allocate_fallback bump next_block allocate_new_block
fallback_offset a bytes = elim (Bool-cases (ltb 1024 bytes)) [ inl e ↦ rw e | inr e ↦ rw e ]

slop-small : (a : Arena) → slop a < 8
unfolding slop
slop-small a = ground arith

slop-aligned : (a : Arena) → (a.offset + slop a) % 8 ≡ 0
unfolding slop
slop-aligned a = ground arith

allocate_aligned_lem :
    (a : Arena) (bytes : ℕ)
    → IsArena a
    → 0 < bytes
    → bytes + 8 ≤ 2 ^ 64
    → IsAllocation a bytes (allocate_aligned a bytes) × ((allocate_aligned a bytes).0.1 % 8 ≡ 0)
unfolding allocate_aligned
allocate_aligned_lem a bytes h p small =
    let needed : u64 (bytes + slop a) ≡ slop a + bytes = omega (arith, small, slop-small a) in
    rw needed (elim (Bool-cases (leb (slop a + bytes) a.remaining)) [
      | inl fits ↦ rw fits (
        bump-IsAllocation a (slop a) (slop a + bytes) bytes h p refl
            (leb→le (slop a + bytes) a.remaining fits),
        unfold bump in slop-aligned a,
      )
      | inr full ↦
          rw full (allocate_fallback-IsAllocation a bytes h p, rw (fallback_offset a bytes))
    ])

-- `Allocate` and `AllocateAligned` give bytes that lie in a block of the arena and have not been given out
-- before, and no byte becomes free by it; those of `AllocateAligned` begin at a multiple of eight. The
-- number of bytes is above 0 and at most 2 ^ 64 - 8.
pub allocate-IsAllocation :
    (a : Arena) (bytes : ℕ)
    → IsArena a
    → 0 < bytes
    → bytes + 8 ≤ 2 ^ 64
    → IsAllocation a bytes (allocate a bytes)
      × IsAllocation a bytes (allocate_aligned a bytes)
      × ((allocate_aligned a bytes).0.1 % 8 ≡ 0)
allocate-IsAllocation a bytes h p small =
    let (aligned, multiple) = allocate_aligned_lem a bytes h p small in
    (allocate_lem a bytes h p, aligned, multiple)
