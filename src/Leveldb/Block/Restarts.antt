-- ===== src/Leveldb/Block/Restarts.antt =====
-- The restart points of a block builder of leveldb/table/block_builder.cc, and the entries behind each.
use mathlib.Core.List.{append_assoc}
use wormholefilters.Base.{
  ℕ, suc, ◌+◌, ◌*◌, drop_append, ltb→le, ltb→lt, ◌^◌, ◌≤◌, ◌<◌, ◌≡◌, true, false, List, [], ◌∷◌,
  ◌++◌, refl, sym, ap, ap₂, subst, ◌∙◌, arith, ltb, Bool-cases, inl, inr, u32, length,
  length-append, drop,
}
use wormholefilters.Leveldb.Block.Entries.{entry_bytes}
use wormholefilters.Leveldb.Block.{BlockBuilder, shared_with, restarts_for, counter_for, add}
use wormholefilters.Base.Slices.{drop-append}
use wormholefilters.Leveldb.Block.Scans.{Scans, shared_lem, last_key-add, buffer-add, entry-Scans}

module _ (interval : ℕ) where
  -- A restart point: it begins the entries behind `index * interval` others.
  pub record Restart (b : BlockBuilder) (es : List (List ℕ × List ℕ)) (index r : ℕ) : Type 0 where
    pub front : List (List ℕ × List ℕ)
    pub back : List (List ℕ × List ℕ)
    pub split : es ≡ front ++ back
    pub place : length front ≡ index * interval
    pub below : r ≤ length b.buffer
    pub scans : Scans interval (drop r b.buffer) b.last_key back

  -- They are, where the buffer is short enough for 32-bit offsets.
  unfoldable pub AreRestarts : BlockBuilder → List (List ℕ × List ℕ) → ℕ → List ℕ → Type 0
  AreRestarts b es index [] = Unit
  AreRestarts b es index (r ∷ restarts) =
      (length b.buffer < 2 ^ 32 → Restart b es index r) × AreRestarts b es (suc index) restarts

  -- What a builder has been given.
  pub record Holds (b : BlockBuilder) (es : List (List ℕ × List ℕ)) : Type 0 where
    pub restarts : AreRestarts b es 0 b.restarts
    pub count : length es + interval ≡ length b.restarts * interval + b.counter
    pub most : b.counter ≤ interval
    pub whole : Scans interval b.buffer b.last_key es

  add_last_key : (b : BlockBuilder) (key value : List ℕ) → (add interval b key value).last_key ≡ key
  unfolding add
  add_last_key b key value = last_key-add interval b key value

  buffer_grows :
      (b : BlockBuilder) (key value : List ℕ)
      → length key < 2 ^ 32
      → length value < 2 ^ 32
      → length b.buffer ≤ length (add interval b key value).buffer
  buffer_grows b key value p q = omega (
    arith,
    ap length (buffer-add interval b key value p q),
    length-append b.buffer (entry_bytes (shared_with interval b key) key value),
  )

  Restart-add :
      (b : BlockBuilder) (es : List (List ℕ × List ℕ)) (index r : ℕ) (key value : List ℕ)
      → length key < 2 ^ 32
      → length value < 2 ^ 32
      → Restart b es index r
      → Restart (add interval b key value) (es ++ ((key, value) ∷ [])) index r
  Restart-add b es index r key value p q s =
      let shared = shared_with interval b key in
      let entry = entry_bytes shared key value in
      let (same, l, m) = shared_lem interval b key in
      let bytes : drop r (add interval b key value).buffer ≡ drop r b.buffer ++ entry =
        ap (drop r) (buffer-add interval b key value p q) ∙ drop-append r b.buffer entry s.below in
      record {
        front = s.front;
        back = s.back ++ ((key, value) ∷ []);
        split =
            ap (λ (l : List (List ℕ × List ℕ)). l ++ ((key, value) ∷ [])) s.split
            ∙ append_assoc s.front s.back ((key, value) ∷ []);
        place = s.place;
        below = omega (arith, s.below, buffer_grows b key value p q);
        scans =
            subst
              (λ (k : List ℕ).
                Scans interval (drop r (add interval b key value).buffer) k
                  (s.back ++ ((key, value) ∷ [])))
              (sym (add_last_key b key value))
              (subst (λ (x : List ℕ). Scans interval x key (s.back ++ ((key, value) ∷ [])))
                (sym bytes)
                (entry-Scans interval (drop r b.buffer) b.last_key s.back key value shared same l m
                  p s.scans));
      }

  AreRestarts-add :
      (b : BlockBuilder) (es : List (List ℕ × List ℕ)) (key value : List ℕ) (index : ℕ)
      (restarts : List ℕ)
      → length key < 2 ^ 32
      → length value < 2 ^ 32
      → AreRestarts b es index restarts
      → AreRestarts (add interval b key value) (es ++ ((key, value) ∷ [])) index restarts
  unfolding AreRestarts
  AreRestarts-add b es key value index [] p q h = tt
  AreRestarts-add b es key value index (r ∷ restarts) p q (h, hs) = (
    λ small.
        Restart-add b es index r key value p q
          (h (omega (arith, small, buffer_grows b key value p q))),
    AreRestarts-add b es key value (suc index) restarts p q hs,
  )

  AreRestarts-append :
      (b : BlockBuilder) (es : List (List ℕ × List ℕ)) (index r : ℕ) (restarts : List ℕ)
      → AreRestarts b es index restarts
      → (length b.buffer < 2 ^ 32 → Restart b es (index + length restarts) r)
      → AreRestarts b es index (restarts ++ (r ∷ []))
  unfolding AreRestarts
  AreRestarts-append b es index r [] hs h =
      let e : index + 0 ≡ index = omega arith in
      (λ small. subst (λ (i : ℕ). Restart b es i r) e (h small), tt)
  AreRestarts-append b es index r (s ∷ restarts) (g, hs) h =
      let e : index + suc (length restarts) ≡ suc index + length restarts = omega arith in
      (
        g,
        AreRestarts-append b es (suc index) r restarts hs
            (λ small. subst (λ (i : ℕ). Restart b es i r) e (h small)),
      )

  -- The entry of a new restart point shares nothing.
  Restart-new :
      (b : BlockBuilder) (es : List (List ℕ × List ℕ)) (index : ℕ) (key value : List ℕ)
      → length key < 2 ^ 32
      → length value < 2 ^ 32
      → ltb b.counter interval ≡ false
      → length es ≡ index * interval
      → length b.buffer < 2 ^ 32
      → Restart (add interval b key value) (es ++ ((key, value) ∷ [])) index (u32 (length b.buffer))
  Restart-new b es index key value p q full n small =
      let r : u32 (length b.buffer) ≡ length b.buffer = omega (arith, small) in
      let none_shared : shared_with interval b key ≡ 0 = unfold shared_with in rw full refl in
      let buffer : (add interval b key value).buffer ≡ b.buffer ++ entry_bytes 0 key value =
        buffer-add interval b key value p q
        ∙ ap (λ (m : ℕ). b.buffer ++ entry_bytes m key value) none_shared in
      let bytes : drop (u32 (length b.buffer)) (add interval b key value).buffer
          ≡ entry_bytes 0 key value =
        ap₂ (λ (m : ℕ) (l : List ℕ). drop m l) r buffer
        ∙ drop_append b.buffer (entry_bytes 0 key value) in
      record {
        front = es;
        back = (key, value) ∷ [];
        split = refl;
        place = n;
        below = omega (arith, r, buffer_grows b key value p q);
        scans =
            subst
              (λ (k : List ℕ).
                Scans interval (drop (u32 (length b.buffer)) (add interval b key value).buffer) k
                  ((key, value) ∷ []))
              (sym (add_last_key b key value))
              (subst (λ (x : List ℕ). Scans interval x key ((key, value) ∷ [])) (sym bytes)
                (entry-Scans interval [] [] [] key value 0 refl (omega arith) (omega arith) p
                  (λ rest h. refl)));
      }

  whole-add :
      (b : BlockBuilder) (es : List (List ℕ × List ℕ)) (key value : List ℕ)
      → length key < 2 ^ 32
      → length value < 2 ^ 32
      → Scans interval b.buffer b.last_key es
      → Scans interval
          (add interval b key value).buffer
          (add interval b key value).last_key
          (es ++ ((key, value) ∷ []))
  whole-add b es key value p q h =
      let (same, l, m) = shared_lem interval b key in
      subst
        (λ (k : List ℕ).
          Scans interval (add interval b key value).buffer k (es ++ ((key, value) ∷ [])))
        (sym (add_last_key b key value))
        (subst (λ (x : List ℕ). Scans interval x key (es ++ ((key, value) ∷ [])))
          (sym (buffer-add interval b key value p q))
          (entry-Scans interval b.buffer b.last_key es key value (shared_with interval b key) same l
            m p h))

  add_room :
      (b : BlockBuilder) (key value : List ℕ)
      → ltb b.counter interval ≡ true
      → ((add interval b key value).restarts ≡ b.restarts)
        × ((add interval b key value).counter ≡ b.counter + 1)
  unfolding add restarts_for counter_for
  add_room b key value room = (rw room refl, rw room refl)

  add_full :
      (b : BlockBuilder) (key value : List ℕ)
      → ltb b.counter interval ≡ false
      → ((add interval b key value).restarts ≡ b.restarts ++ (u32 (length b.buffer) ∷ []))
        × ((add interval b key value).counter ≡ 1)
  unfolding add restarts_for counter_for
  add_full b key value full = (rw full refl, rw full (omega arith))

  plus_left : (m : ℕ) → 0 + m ≡ m
  plus_left m = omega arith

  product_suc : (m : ℕ) → (m + 1) * interval ≡ m * interval + interval
  product_suc m = grind arith

  pub add-Holds :
      (b : BlockBuilder) (es : List (List ℕ × List ℕ)) (key value : List ℕ)
      → 1 ≤ interval
      → length key < 2 ^ 32
      → length value < 2 ^ 32
      → Holds b es
      → Holds (add interval b key value) (es ++ ((key, value) ∷ []))
  add-Holds b es key value pos p q s =
      let b' = add interval b key value in
      let es' = es ++ ((key, value) ∷ []) in
      let more = length-append es ((key, value) ∷ []) in
      let kept = AreRestarts-add b es key value 0 b.restarts p q s.restarts in
      let times = λ (restarts : List ℕ). length restarts * interval in
      elim (Bool-cases (ltb b.counter interval)) [
        | inl room ↦
            let (rs, c) = add_room b key value room in
            record {
              restarts = subst (AreRestarts b' es' 0) (sym rs) kept;
              count = omega (arith, more, s.count, c, ap times rs);
              most = omega (arith, c, ltb→lt b.counter interval room);
              whole = whole-add b es key value p q s.whole;
            }
        | inr full ↦
            let (rs, c) = add_full b key value full in
            let x = u32 (length b.buffer) in
            let n : length es ≡ length b.restarts * interval =
              omega (arith, s.count, s.most, ltb→le b.counter interval full) in
            let from_zero : (0 + length b.restarts) * interval ≡ length b.restarts * interval =
              ap (λ (k : ℕ). k * interval) (plus_left (length b.restarts)) in
            let longer : length (b.restarts ++ (x ∷ [])) * interval
                ≡ length b.restarts * interval + interval =
              ap (λ (k : ℕ). k * interval) (length-append b.restarts (x ∷ []))
              ∙ product_suc (length b.restarts) in
            record {
              restarts = subst (AreRestarts b' es' 0) (sym rs) (
                  AreRestarts-append b' es' 0 x b.restarts kept (λ small.
                    Restart-new b es (0 + length b.restarts) key value p q full (n ∙ sym from_zero)
                      (omega (arith, small, buffer_grows b key value p q))));
              count = omega (arith, more, longer, n, c, ap times rs);
              most = omega (arith, c, pos);
              whole = whole-add b es key value p q s.whole;
            }
      ]
