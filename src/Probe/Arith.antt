-- ===== src/Probe/Arith.antt =====
-- Tags as numbers, and sums of indices modulo the number of buckets.
use native.Mathlib.Nat.{mod-add-mod, add-mul-mod_self_left}
use wormholefilters.Base.{
  ℕ, ◌+◌, ◌-◌, ◌*◌, ◌/◌, ◌%◌, ◌^◌, ◌≤◌, ◌<◌, ◌≡◌, sym, ap, ◌∙◌, arith, bit_and, bit_and_mask,
  bit_or_disjoint, op_split, bit_and-IsDigitwise, bit_and-zero,
}
use wormholefilters.Probe.{dis_mask, fpt_mask, moved_tag}

pub bit_and-dis_mask : (t : ℕ) → bit_and t dis_mask ≡ t % 16
bit_and-dis_mask t = bit_and_mask 4 t

pub bit_and-fpt_mask : (t : ℕ) → t < 2 ^ 16 → bit_and t fpt_mask ≡ t / 16 * 16
bit_and-fpt_mask t h = omega (
  arith,
  op_split bit_and-IsDigitwise 4 t fpt_mask,
  bit_and_mask 12 (t / 16),
  bit_and-zero (t % 16),
)

pub moved_tag_lem :
    (t prob : ℕ)
    → t < 2 ^ 16
    → t % 16 + prob < 16
    → moved_tag t prob ≡ t / 16 * 16 + (t % 16 + prob)
unfolding moved_tag
moved_tag_lem t prob h fits =
    rw (bit_and-dis_mask t, bit_and-fpt_mask t h) (bit_or_disjoint 4 (t / 16) (t % 16 + prob) fits)

pub add_mod_congr : (n x y p : ℕ) → x % n ≡ y % n → (x + p) % n ≡ (y + p) % n
add_mod_congr n x y p h =
    sym (mod-add-mod x n p) ∙ ap (λ (t : ℕ). (t + p) % n) h ∙ mod-add-mod y n p

undo_add : (n x p : ℕ) → 0 < n → (x + p + (n * p - p)) % n ≡ x % n
undo_add n x p pos =
    let le : p ≤ n * p = grind arith in
    let e : x + p + (n * p - p) ≡ x + n * p = omega arith in rw e (add-mul-mod_self_left x n p)

pub add_mod_cancel : (n x y p : ℕ) → 0 < n → (x + p) % n ≡ (y + p) % n → x % n ≡ y % n
add_mod_cancel n x y p pos h =
    sym (undo_add n x p pos) ∙ add_mod_congr n (x + p) (y + p) (n * p - p) h ∙ undo_add n y p pos
