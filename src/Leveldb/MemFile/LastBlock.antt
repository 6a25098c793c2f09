-- ===== src/Leveldb/MemFile/LastBlock.antt =====
-- The last block of a file in memory, into which a round of `Append` of leveldb/helpers/memenv/memenv.cc writes.
use mathlib.Core.List.{append_assoc, append-nil}
use wormholefilters.Base.{
  ℕ, ◌+◌, ◌≤◌, ◌<◌, ◌≡◌, List, [], ◌∷◌, ◌++◌, sym, ap, ap₂, ◌∙◌, arith, length, length-append,
  length-take, length-drop, take, drop, drop_append, take_append, All,
}
use wormholefilters.Base.Slices.{drop-drop, take-append, drop-append, take-drop}
use wormholefilters.Leveldb.MemFile.Contents.{flat, IsBlock}
use wormholefilters.Leveldb.MemFile.{write_at, write_last}

length-write_at :
    (o : ℕ) (chunk b : List ℕ) → IsBlock b → o + length chunk ≤ 8192 → IsBlock (write_at o chunk b)
unfolding write_at
length-write_at o chunk b h p = omega (
  arith,
  length-append (take o b) (chunk ++ drop (o + length chunk) b),
  length-append chunk (drop (o + length chunk) b),
  length-take o b,
  length-drop (o + length chunk) b,
)

pub write_last-IsBlock :
    (o : ℕ) (chunk : List ℕ) (bs : List (List ℕ))
    → All IsBlock bs
    → o + length chunk ≤ 8192
    → All IsBlock (write_last o chunk bs)
unfolding write_last
write_last-IsBlock o chunk [] h p = tt
write_last-IsBlock o chunk (b ∷ []) (q, h) p = (length-write_at o chunk b q p, tt)
write_last-IsBlock o chunk (b ∷ b' ∷ bs) (q, h) p = (q, write_last-IsBlock o chunk (b' ∷ bs) h p)

-- What is written stands behind the bytes that were there.
pub flat-write_last :
    (o : ℕ) (chunk bytes room : List ℕ) (bs : List (List ℕ))
    → All IsBlock bs
    → flat bs ≡ bytes ++ room
    → length room + o ≡ 8192
    → o < 8192
    → flat (write_last o chunk bs) ≡ bytes ++ (chunk ++ drop (length chunk) room)
unfolding write_last flat
flat-write_last o chunk bytes room [] h e p q =
    absurd (omega (arith, ap length e, length-append bytes room))
flat-write_last o chunk bytes room (b ∷ []) (r, h) e p q =
    let whole : b ≡ bytes ++ room = sym (append-nil b) ∙ e in
    let n : length bytes ≡ o = omega (arith, ap length whole, length-append bytes room, r) in
    append-nil (write_at o chunk b) ∙ rw whole (written n)
  where
    written :
        length bytes ≡ o
        → write_at o chunk (bytes ++ room) ≡ bytes ++ (chunk ++ drop (length chunk) room)
    written n =
        unfold write_at in
        (rw (
          sym n,
          take_append bytes room,
          sym (drop-drop (length bytes) (length chunk) (bytes ++ room)),
          drop_append bytes room,
        ))
flat-write_last o chunk bytes room (b ∷ b' ∷ bs) (r, (r', h)) e p q =
    let long : 8192 ≤ length bytes = omega (
      arith,
      ap length e,
      length-append bytes room,
      length-append b (flat (b' ∷ bs)),
      length-append b' (flat bs),
      r,
      r',
    ) in
    let head : b ≡ take 8192 bytes =
      sym (take_append b (flat (b' ∷ bs)))
      ∙ (ap (λ (k : ℕ). take k (b ++ flat (b' ∷ bs))) r
          ∙ (ap (take 8192) e ∙ take-append 8192 bytes room long)) in
    let tail : flat (b' ∷ bs) ≡ drop 8192 bytes ++ room =
      sym (drop_append b (flat (b' ∷ bs)))
      ∙ (ap (λ (k : ℕ). drop k (b ++ flat (b' ∷ bs))) r
          ∙ (ap (drop 8192) e ∙ drop-append 8192 bytes room long)) in
    let new = chunk ++ drop (length chunk) room in
    ap₂ ◌++◌ head (flat-write_last o chunk (drop 8192 bytes) room (b' ∷ bs) (r', h) tail p q)
    ∙ (sym (append_assoc (take 8192 bytes) (drop 8192 bytes) new)
        ∙ ap (λ (l : List ℕ). l ++ new) (take-drop 8192 bytes))
