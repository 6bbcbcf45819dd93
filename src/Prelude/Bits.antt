-- ===== src/Prelude/Bits.antt =====
-- Masks: `x & (2 ^ k - 1)` is the remainder modulo `2 ^ k`.
use Prim.Native.Nat.{
  ℕ, zero, suc, ◌+◌, ◌-◌, ◌*◌, ◌/◌, ◌%◌, ◌^◌, ◌≤◌, ◌<◌, min, bit_and, digits, bit_and-bitwise,
}
use mathlib.Core.Path.{◌≡◌, sym, ap, ◌∙◌}
use native.Mathlib.Nat.{
  pow-suc, div-div-eq-div-mul, mod-eq-sub-div-mul, div-mul-le_self, mul_assoc, zero-mod, mod-lt,
  mod-eq_of_lt, mod_self,
}
use native.Mathlib.Omega.{arith}

pub pow_pos : (k : ℕ) → 0 < 2 ^ k
pow_pos zero = omega arith
pow_pos (suc k) = omega (arith, pow-suc 2 k, pow_pos k)

-- The remainder's last digit and the rest.
mod-double : (y m : ℕ) → y % (m * 2) ≡ y / 2 % m * 2 + y % 2
mod-double y m =
    let q = y / 2 / m in
    let whole : y / (m * 2) ≡ q = ap (λ k. y / k) (omega arith) ∙ sym (div-div-eq-div-mul y 2 m) in
    let outer : y % (m * 2) ≡ y - q * (m * 2) =
      mod-eq-sub-div-mul y (m * 2) ∙ ap (λ (k : ℕ). y - k * (m * 2)) whole in
    let twice : q * (m * 2) ≡ q * m * 2 = sym (mul_assoc q m 2) in
    omega (arith, outer, twice, mod-eq-sub-div-mul (y / 2) m, div-mul-le_self (y / 2) m)

-- The digits of a mask, with fuel to spare.
mask_digits : (fuel k x : ℕ) → x ≤ fuel → digits (λ b. zero) min fuel x (2 ^ k - 1) ≡ x % 2 ^ k
mask_digits zero k zero h = sym (zero-mod (2 ^ k))
mask_digits zero k (suc x) h = absurd (omega arith)
mask_digits (suc fuel) k zero h = sym (zero-mod (2 ^ k))
mask_digits (suc fuel) zero (suc x) h = omega (arith, mask_digits fuel 0 (suc x / 2) (omega arith))
mask_digits (suc fuel) (suc k) (suc x) h =
    let half : (2 ^ suc k - 1) / 2 ≡ 2 ^ k - 1 = omega (arith, pow-suc 2 k, pow_pos k) in
    let odd : (2 ^ suc k - 1) % 2 ≡ 1 = omega (arith, pow-suc 2 k, pow_pos k) in
    let rest = mask_digits fuel k (suc x / 2) (omega arith) in
    let split : suc x % 2 ^ suc k ≡ suc x / 2 % 2 ^ k * 2 + suc x % 2 =
      ap (λ m. suc x % m) (pow-suc 2 k) ∙ mod-double (suc x) (2 ^ k) in
    omega (arith, rw (← half) at rest, half, odd, split)

bit_and-mask : (k x : ℕ) → bit_and x (2 ^ k - 1) ≡ x % 2 ^ k
bit_and-mask k x = bit_and-bitwise x (2 ^ k - 1) ∙ mask_digits x k x (omega arith)

-- A mask of `k` ones leaves a number below `2 ^ k`.
pub bit_and_mask-lt : (k a : ℕ) → bit_and a (2 ^ k - 1) < 2 ^ k
bit_and_mask-lt k a = omega (arith, bit_and-mask k a, mod-lt a (pow_pos k))

-- On a number below `2 ^ k` it changes nothing, and it takes `2 ^ k` to 0.
pub bit_and_mask-small : (k a : ℕ) → a < 2 ^ k → bit_and a (2 ^ k - 1) ≡ a
bit_and_mask-small k a h = bit_and-mask k a ∙ mod-eq_of_lt h

pub bit_and_mask-pow : (k : ℕ) → bit_and (2 ^ k) (2 ^ k - 1) ≡ 0
bit_and_mask-pow k = bit_and-mask k (2 ^ k) ∙ mod_self (2 ^ k)
