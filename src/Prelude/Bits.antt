-- ===== src/Prelude/Bits.antt =====
-- Masks on one byte as arithmetic: tables of 256 entries, checked by evaluation.
use Prim.Native.Nat.{ℕ, zero, suc, ◌+◌, ◌*◌, ◌/◌, ◌%◌, ◌<◌, bit_and, bit_or, compare, Ordering}
use mathlib.Core.Path.{◌≡◌, refl}
use mathlib.Core.Bool.{Bool, true, false, ◌&&◌}
use native.Mathlib.Omega.{arith}

module _ (f g : ℕ → ℕ) where
  same_below : ℕ → Bool
  same_below zero = true
  same_below (suc n) = elim (compare (f n) (g n)) [ Ordering.eq ↦ true | _ ↦ false ] && same_below n

  same_below-eq : (n : ℕ) → same_below n ≡ true → (x : ℕ) → x < n → f x ≡ g x
  unfolding same_below
  same_below-eq zero e x h = absurd (omega arith)
  same_below-eq (suc n) e x h = ground (arith, same_below-eq n (ground arith) x)

pub low_seven_bits : (b : ℕ) → b < 256 → bit_and b 0x7f ≡ b % 128
unfolding same_below
low_seven_bits = same_below-eq _ _ 256 refl

pub top_bit : (b : ℕ) → b < 256 → bit_and b 0x80 ≡ b / 128 * 128
unfolding same_below
top_bit = same_below-eq _ _ 256 refl

pub with_top_bit : (b : ℕ) → b < 128 → bit_or b 128 ≡ b + 128
unfolding same_below
with_top_bit = same_below-eq _ _ 128 refl
