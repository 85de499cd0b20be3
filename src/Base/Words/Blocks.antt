-- ===== src/Base/Words/Blocks.antt =====
-- Blocks of numbers that agree but for their low bits.
use Prim.Native.Nat.{ℕ, zero, suc, ◌+◌, ◌-◌, ◌/◌, ◌^◌, ◌≤◌, ◌<◌, bit_and}
use mathlib.Core.Path.{◌≡◌, refl, ap, ◌∙◌}
use mathlib.Core.Bool.{◌&&◌}
use native.Mathlib.Omega.{arith}
use native.Mathlib.Nat.{pow-suc}
use storage_engine.Base.Tests.{◌==◌, ltb, leb}
use storage_engine.Base.Words.Digits.{testbit, shl, shr, low_mask, bit_not32, shl32}
use storage_engine.Base.Words.Bits.{
  Fits, testbit-bit_and, testbit-bit_not32, testbit-low_mask, testbit-shl, testbit-shl32,
  testbit-shl_one, testbit-shr, testbit_ext,
}

pub shr-shr : (x a b : ℕ) → shr (shr x a) b ≡ shr x (a + b)
unfolding shr
shr-shr x zero b = let e : b ≡ 0 + b = omega arith in ap (shr x) e
shr-shr x (suc a) b =
    let e : suc (a + b) ≡ suc a + b = omega arith in shr-shr (x / 2) a b ∙ ap (shr x) e

pub shr-suc : (x k : ℕ) → shr x (suc k) ≡ shr x k / 2
unfolding shr
shr-suc x zero = refl
shr-suc x (suc k) = shr-suc (x / 2) k

pub shl_zero : (k : ℕ) → shl 0 k ≡ 0
unfolding shl
shl_zero zero = refl
shl_zero (suc k) = omega (arith, shl_zero k)

pub shl_one-pow : (k : ℕ) → shl 1 k ≡ 2 ^ k
unfolding shl
shl_one-pow zero = refl
shl_one-pow (suc k) = omega (arith, shl_one-pow k, pow-suc 2 k)

-- A shift of 1 by less than 32 places fits in 32 bits.
pub shl32_one : (k : ℕ) → k < 32 → shl32 1 k ≡ shl 1 k
unfolding testbit
shl32_one k lt =
    testbit_ext _ _
      (λ i. ground (arith, testbit-shl32 1 k i, testbit-shl 1 k i, testbit-shl_one k i, lt))

-- The numbers that give `a` when they lose their `g` low bits.
pub in_block : (r a g : ℕ) → leb (shl a g) r && ltb r (shl a g + shl 1 g) ≡ (shr r g == a)
unfolding shl shr
in_block r a zero = ground arith
in_block r a (suc g) = ground (arith, in_block (r / 2) a g)

-- A word with its `g` low bits cleared.
pub clear_low : (x g : ℕ) → Fits 32 x → bit_and x (bit_not32 (shl 1 g - 1)) ≡ shl (shr x g) g
unfolding low_mask
clear_low x g fits =
    let mask : shl 1 g - 1 ≡ low_mask g = omega (arith, shl_one-pow g) in
    testbit_ext _ _ (λ i. ground (
      arith,
      fits i,
      ap (λ m. bit_and x (bit_not32 m)) mask,
      testbit-bit_and x (bit_not32 (shl 1 g - 1)) i,
      testbit-bit_not32 (shl 1 g - 1) i,
      ap (λ m. testbit m i) mask,
      testbit-low_mask g i,
      testbit-shl (shr x g) g i,
      testbit-shr x g (i - g),
      λ (le : g ≤ i). ap (testbit x) {x = i - g + g} {y = i} (omega (arith, le)),
    ))

pub shl_add : (x y k : ℕ) → shl (x + y) k ≡ shl x k + shl y k
unfolding shl
shl_add x y zero = refl
shl_add x y (suc k) = omega (arith, shl_add x y k)

pub shl_one-le : (k n : ℕ) → k ≤ n → shl 1 k ≤ shl 1 n
unfolding shl
shl_one-le zero zero le = omega arith
shl_one-le zero (suc n) le = omega (arith, shl_one-le zero n (omega arith))
shl_one-le (suc k) zero le = absurd (omega (arith, le))
shl_one-le (suc k) (suc n) le = omega (arith, shl_one-le k n (omega (arith, le)))

-- A block of `2 ^ d` numbers one of which is below `2 ^ g` ends there at the latest.
pub block-le : (x g d : ℕ) → d ≤ g → x < shl 1 g → shl (shr x d) d + shl 1 d ≤ shl 1 g
unfolding shl shr
block-le x g zero le lt = omega (arith, lt)
block-le x zero (suc d) le lt = absurd (omega (arith, le))
block-le x (suc g) (suc d) le lt =
    omega (arith, block-le (x / 2) g d (omega (arith, le)) (omega (arith, lt)))
