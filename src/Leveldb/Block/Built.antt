-- ===== src/Leveldb/Block/Built.antt =====
-- The entries that are added to a block builder are the entries of the block, from every restart point on.
use mathlib.Core.List.{append_assoc, append-nil}
use wormholefilters.Base.{
  ℕ, zero, suc, ◌+◌, ◌*◌, ◌^◌, ◌≤◌, ◌<◌, ◌≡◌, false, some, List, [], ◌∷◌, ◌++◌, refl, sym, ap,
  subst, ◌∙◌, arith, ◌==◌, ne→==, u32, length, length-append, length-drop, take, drop, take_append,
  drop_append, All,
}
use wormholefilters.Base.Slices.{drop-append}
use wormholefilters.Leveldb.Block.Finished.{
  finish-buffer, length-finish, num_restarts-finish, restart_offset-finish,
  get_restart_point-finish,
}
use wormholefilters.Leveldb.Block.Restarts.{Restart, AreRestarts, Holds, add-Holds}
use wormholefilters.Leveldb.Block.{
  BlockBuilder, new_builder, add, finish, scan, parse_next_key, num_restarts, restart_offset,
  get_restart_point, entries_from, entries_of,
}
use wormholefilters.Leveldb.Coding.Words.{words}
use wormholefilters.Leveldb.Coding.{encode_fixed32}
use wormholefilters.Leveldb.Consume.{ok, consume_all, consume_all-done}

abbrev pub FitsEntry : List ℕ × List ℕ → Type 0
FitsEntry (key, value) = (length key < 2 ^ 32) × (length value < 2 ^ 32)

module _ (interval : ℕ) where
  unfoldable pub add_all : BlockBuilder → List (List ℕ × List ℕ) → BlockBuilder
  add_all b [] = b
  add_all b ((key, value) ∷ entries) = add_all (add interval b key value) entries

  add_all-Holds :
      (b : BlockBuilder) (es entries : List (List ℕ × List ℕ))
      → 1 ≤ interval
      → All FitsEntry entries
      → Holds interval b es
      → Holds interval (add_all b entries) (es ++ entries)
  unfolding add_all
  add_all-Holds b es [] pos fits h = rw (append-nil es) h
  add_all-Holds b es ((key, value) ∷ entries) pos ((p, q), fits) h =
      subst (Holds interval (add_all (add interval b key value) entries))
        (append_assoc es ((key, value) ∷ []) entries)
        (add_all-Holds (add interval b key value) (es ++ ((key, value) ∷ [])) entries pos fits
          (add-Holds interval b es key value pos p q h))

  new_builder-Holds : Holds interval new_builder []
  unfolding new_builder AreRestarts
  new_builder-Holds = record {
    restarts = (
      λ small. record {
        front = [];
        back = [];
        split = refl;
        place = omega arith;
        below = omega arith;
        scans = λ rest h. refl;
      },
      tt,
    );
    count = omega arith;
    most = omega arith;
    whole = λ rest h. refl;
  }

  -- The restart point of an index.
  AreRestarts-at :
      (b : BlockBuilder) (es : List (List ℕ × List ℕ)) (first index : ℕ) (restarts : List ℕ)
      → AreRestarts interval b es first restarts
      → index < length restarts
      → length b.buffer < 2 ^ 32
      → (before : List ℕ) × (r : ℕ) × (after : List ℕ) × (restarts ≡ before ++ (r ∷ after))
        × (length before ≡ index)
        × Restart interval b es (first + index) r
  unfolding AreRestarts
  AreRestarts-at b es first index [] h l small = absurd (omega (arith, l))
  AreRestarts-at b es first zero (r ∷ restarts) (h, hs) l small =
      let e : first ≡ first + 0 = omega arith in
      ([], r, restarts, refl, refl, subst (λ (i : ℕ). Restart interval b es i r) e (h small))
  AreRestarts-at b es first (suc index) (s ∷ restarts) (h, hs) l small =
      let (before, r, after, parts, n, found) =
        AreRestarts-at b es (suc first) index restarts hs (omega (arith, l)) small in
      let e : suc first + index ≡ first + suc index = omega arith in
      (
        s ∷ before,
        r,
        after,
        ap (◌∷◌ s) parts,
        ap suc n,
        subst (λ (i : ℕ). Restart interval b es i r) e found,
      )

entries_from_lem :
    (contents : List ℕ) (index limit offset m : ℕ)
    → restart_offset contents ≡ some limit
    → get_restart_point contents limit index ≡ offset
    → num_restarts contents ≡ m
    → (m == 0) ≡ false
    → entries_from contents index
      ≡ consume_all parse_next_key (scan [] []) (drop offset (take limit contents))
unfolding entries_from
entries_from_lem contents index limit offset m e o n p = rw (e, n, p, o, entries_from)

drop-split :
    (n : ℕ) (front back : List (List ℕ × List ℕ)) → length front ≡ n → drop n (front ++ back) ≡ back
drop-split n front back e = ap (λ (m : ℕ). drop m (front ++ back)) (sym e) ∙ drop_append front back

front_lem : (b : BlockBuilder) → take (length b.buffer) (finish b).buffer ≡ b.buffer
front_lem b =
    ap (take (length b.buffer)) (
      finish-buffer b
      ∙ append_assoc b.buffer (words b.restarts) (encode_fixed32 (u32 (length b.restarts))))
    ∙ take_append b.buffer (words b.restarts ++ encode_fixed32 (u32 (length b.restarts)))

-- The entries from a restart point on.
from_restart :
    (interval : ℕ) (b : BlockBuilder) (es : List (List ℕ × List ℕ)) (index : ℕ)
    → Holds interval b es
    → length (finish b).buffer < 2 ^ 32
    → index < length b.restarts
    → entries_from (finish b).buffer index ≡ ok (scan b.last_key (drop (index * interval) es))
from_restart interval b es index s h l =
    let n = length-finish b in
    let small : length b.buffer < 2 ^ 32 = omega (arith, h, n) in
    let (before, r, after, parts, place, found) =
      AreRestarts-at interval b es 0 index b.restarts s.restarts l small in
    let at_index : 0 + index ≡ index = omega arith in
    let point : get_restart_point (finish b).buffer (length b.buffer) index ≡ r =
      ap (get_restart_point (finish b).buffer (length b.buffer)) (sym place)
      ∙ get_restart_point-finish b before r after parts (omega (arith, found.below, small)) in
    let rest = drop r b.buffer in
    let kept : drop (index * interval) es ≡ found.back =
      ap (drop (index * interval)) found.split
      ∙ drop-split (index * interval) found.front found.back
          (found.place ∙ ap (λ (k : ℕ). k * interval) at_index) in
    let not_empty : (length b.restarts == 0) ≡ false =
      ne→== (length b.restarts) 0 (λ e. absurd (omega (arith, l, e))) in
    entries_from_lem (finish b).buffer index (length b.buffer) r (length b.restarts)
      (restart_offset-finish b h) point (num_restarts-finish b h) not_empty
    ∙ (ap (λ (l : List ℕ). consume_all parse_next_key (scan [] []) (drop r l))
          (front_lem b ∙ sym (append-nil b.buffer))
        ∙ (ap (consume_all parse_next_key (scan [] [])) (drop-append r b.buffer [] found.below)
            ∙ (found.scans []
                  (omega (arith, length-append (drop r b.buffer) [], length-drop r b.buffer, small))
                ∙ (consume_all-done parse_next_key (scan b.last_key found.back)
                      (scan b.last_key found.back) [] (unfold parse_next_key in refl)
                    ∙ ap (λ (es : List (List ℕ × List ℕ)). ok (scan b.last_key es)) (sym kept)))))

-- A block built by `Add` and `Finish`, for a restart interval of 1 at least and keys, values and a block
-- below 2 ^ 32 bytes: it has exactly the entries that were added, in their order, keys whole again; each of
-- its restart points begins the entries behind as many intervals of others as it has restart points before
-- it; and with one interval each they reach the last entry, and without the last of them no further.
pub entries_of-finish :
    (interval : ℕ) (entries : List (List ℕ × List ℕ)) (index : ℕ)
    → 1 ≤ interval
    → All FitsEntry entries
    → length (finish (add_all interval new_builder entries)).buffer < 2 ^ 32
    → index < num_restarts (finish (add_all interval new_builder entries)).buffer
    → let b = add_all interval new_builder entries in
      let contents = (finish b).buffer in
      (entries_of contents ≡ ok (scan b.last_key entries))
      × (entries_from contents index ≡ ok (scan b.last_key (drop (index * interval) entries)))
      × (length entries ≤ num_restarts contents * interval)
      × (num_restarts contents * interval ≤ length entries + interval)
entries_of-finish interval entries index pos fits h l =
    let b = add_all interval new_builder entries in
    let s = add_all-Holds interval new_builder [] entries pos fits (new_builder-Holds interval) in
    let n = num_restarts-finish b h in
    let times = ap (λ (k : ℕ). k * interval) n in
    let count = s.count in
    (
      (unfold entries_of in
          (from_restart interval b entries 0 s h (omega (arith, l, n))
            ∙ ap (λ (k : ℕ). ok (scan b.last_key (drop k entries))) (no_intervals interval))),
      from_restart interval b entries index s h (omega (arith, l, n)),
      omega (arith, count, s.most, times),
      omega (arith, count, times),
    )
  where
    no_intervals : (interval : ℕ) → 0 * interval ≡ 0
    no_intervals interval = omega arith
