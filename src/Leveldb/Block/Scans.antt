-- ===== src/Leveldb/Block/Scans.antt =====
-- An entry that `Add` of leveldb/table/block_builder.cc appends, as the iterator of block.cc reads it.
use mathlib.Core.List.{append_assoc}
use wormholefilters.Base.{
  ℕ, ◌-◌, ◌^◌, ◌≤◌, ◌<◌, ◌≡◌, true, List, [], ◌∷◌, ◌++◌, refl, ap, ap₂, ◌∙◌, arith, ltb, ◌==◌,
  Bool-cases, inl, inr, u32, length, length-append, take, drop,
}
use wormholefilters.Leveldb.Block.Entries.{
  entry_bytes, sizes_bytes, parse_next_key-entry_bytes, parse_next_key_shrinks,
}
use wormholefilters.Leveldb.Block.{BlockBuilder, shared_with, add, scan, parse_next_key}
use wormholefilters.Leveldb.Comparator.{diff_index}
use wormholefilters.Leveldb.Consume.{consume_all, consume_all-next}
use wormholefilters.Base.Slices.{take-drop}
use wormholefilters.Leveldb.Varint.{put_varint32}

-- What the two keys share is the same in both.
diff_index_lem :
    (a b : List ℕ)
    → (take (diff_index a b) a ≡ take (diff_index a b) b)
      × (diff_index a b ≤ length a)
      × (diff_index a b ≤ length b)
unfolding diff_index
diff_index_lem [] b = (refl, omega arith, omega arith)
diff_index_lem (x ∷ a) [] = (refl, omega arith, omega arith)
diff_index_lem (x ∷ a) (y ∷ b) = elim (Bool-cases (x == y)) [
  | inl e ↦
      let (t, p, q) = diff_index_lem a b in
      rw e (ap₂ ◌∷◌ (==→eq x y e) t, omega (arith, p), omega (arith, q))
  | inr e ↦ rw e (refl, omega arith, omega arith)
]
  where
    ==→eq : (x y : ℕ) → (x == y) ≡ true → x ≡ y
    ==→eq x y e = ground arith

module _ (interval : ℕ) where
  pub shared_lem :
      (b : BlockBuilder) (key : List ℕ)
      → (take (shared_with interval b key) b.last_key ≡ take (shared_with interval b key) key)
        × (shared_with interval b key ≤ length b.last_key)
        × (shared_with interval b key ≤ length key)
  unfolding shared_with
  shared_lem b key = elim (Bool-cases (ltb b.counter interval)) [
    | inl e ↦ rw e (diff_index_lem b.last_key key)
    | inr e ↦ rw e (refl, omega arith, omega arith)
  ]

  pub last_key-add :
      (b : BlockBuilder) (key value : List ℕ)
      → take (shared_with interval b key) b.last_key ++ drop (shared_with interval b key) key ≡ key
  last_key-add b key value = rw ((shared_lem b key).0) (take-drop (shared_with interval b key) key)

  pub buffer-add :
      (b : BlockBuilder) (key value : List ℕ)
      → length key < 2 ^ 32
      → length value < 2 ^ 32
      → (add interval b key value).buffer
        ≡ b.buffer ++ entry_bytes (shared_with interval b key) key value
  unfolding add entry_bytes
  buffer-add b key value p q =
      let shared = shared_with interval b key in
      let (same, l, r) = shared_lem b key in
      let e₁ : u32 shared ≡ shared = omega (arith, r) in
      let e₂ : u32 (length key - shared) ≡ length key - shared = omega arith in
      let e₃ : u32 (length value) ≡ length value = omega arith in
      rw (e₁, e₂, e₃) (unfold put_varint32 sizes_bytes in (simp append_assoc))

  -- The bytes from `start` on are the entries `es`, and bring the iterator to the key.
  abbrev pub Scans : List ℕ → List ℕ → List (List ℕ × List ℕ) → Type 0
  Scans start key es =
      (rest : List ℕ)
      → length (start ++ rest) < 2 ^ 32
      → consume_all parse_next_key (scan [] []) (start ++ rest)
        ≡ consume_all parse_next_key (scan key es) rest

  -- One more entry.
  pub entry-Scans :
      (start last : List ℕ) (es : List (List ℕ × List ℕ)) (key value : List ℕ) (shared : ℕ)
      → take shared last ≡ take shared key
      → shared ≤ length last
      → shared ≤ length key
      → length key < 2 ^ 32
      → Scans start last es
      → Scans (start ++ entry_bytes shared key value) key (es ++ ((key, value) ∷ []))
  entry-Scans start last es key value shared same l r p h rest small =
      let entry = entry_bytes shared key value in
      let parts : (start ++ entry) ++ rest ≡ start ++ (entry ++ rest) =
        append_assoc start entry rest in
      let fits : length (start ++ (entry ++ rest)) < 2 ^ 32 =
        omega (arith, small, ap length parts) in
      let whole : take shared last ++ drop shared key ≡ key =
        ap (λ (x : List ℕ). x ++ drop shared key) same ∙ take-drop shared key in
      let key' = take shared last ++ drop shared key in
      ap (consume_all parse_next_key (scan [] [])) parts
      ∙ (h (entry ++ rest) fits
          ∙ (consume_all-next parse_next_key parse_next_key_shrinks (scan last es)
                (scan key' (es ++ ((key', value) ∷ []))) (entry ++ rest) rest
                (parse_next_key-entry_bytes last key value rest es shared l r p
                  (omega (arith, fits, length-append start (entry ++ rest))))
              ∙ ap
                  (λ (k : List ℕ).
                    consume_all parse_next_key (scan k (es ++ ((k, value) ∷ []))) rest)
                  whole))
