-- ===== src/Base/Words/Digits.antt =====
-- The operations on words, and the equation of each native bit operation for the lowest digit.
use Prim.Native.Nat.{
  ℕ, zero, suc, ◌+◌, ◌-◌, ◌*◌, ◌/◌, ◌%◌, ◌^◌, ◌≤◌, min, max, bit_and, bit_or, bit_xor, digits,
  bitwise, differ, bit_and-bitwise, bit_or-bitwise, bit_xor-bitwise,
}
use mathlib.Core.Path.{◌≡◌, refl}
use mathlib.Core.Bool.{Bool}
use native.Mathlib.Omega.{arith}
use native.Mathlib.Nat.{le_refl}
use storage_engine.Base.Tests.{if◌then◌else◌, ◌==◌, to_nat}

-- Bit `i` of `x`.
unfoldable pub testbit : ℕ → ℕ → Bool
testbit x zero = x % 2 == 1
testbit x (suc i) = testbit (x / 2) i

-- `x << k`, with no width.
unfoldable pub shl : ℕ → ℕ → ℕ
shl x zero = x
shl x (suc k) = 2 * shl x k

-- `x >> k`.
unfoldable pub shr : ℕ → ℕ → ℕ
shr x zero = x
shr x (suc k) = shr (x / 2) k

-- `(1 << n) - 1`.
unfoldable pub low_mask : ℕ → ℕ
low_mask n = 2 ^ n - 1

-- `~x` on 32 bits.
unfoldable pub bit_not32 : ℕ → ℕ
unfolding low_mask
bit_not32 x = bit_xor x (low_mask 32)

-- `x << k` on 32 bits.
unfoldable pub shl32 : ℕ → ℕ → ℕ
unfolding low_mask shl
shl32 x k = bit_and (shl x k) (low_mask 32)

-- What a `uint8_t` keeps of `x`.
unfoldable pub u8 : ℕ → ℕ
unfolding low_mask
u8 x = bit_and x (low_mask 8)

-- The number of ones among the low `w` bits.
unfoldable pub popcount : ℕ → ℕ → ℕ
popcount zero x = 0
popcount (suc w) x = x % 2 + popcount w (x / 2)

-- The number of zeros below the lowest one, at most `w`.
unfoldable pub ctz : ℕ → ℕ → ℕ
ctz zero x = 0
ctz (suc w) x = if x % 2 == 1 then 0 else suc (ctz w (x / 2))

-- The word whose bit `i` is `f i`, for the low `w` bits.
unfoldable pub word_of : ℕ → (ℕ → Bool) → ℕ
word_of zero f = 0
word_of (suc w) f = to_nat (f 0) + 2 * word_of w (λ i. f (suc i))

module _ (z : ℕ → ℕ) (f : ℕ → ℕ → ℕ) where
  -- Any fuel from `a` on gives the same digits.
  enough : (n m a b : ℕ) → a ≤ n → a ≤ m → digits z f n a b ≡ digits z f m a b
  enough zero zero a b p q = refl
  enough zero (suc m) zero b p q = refl
  enough zero (suc m) (suc a) b p q = absurd (omega arith)
  enough (suc n) zero zero b p q = refl
  enough (suc n) zero (suc a) b p q = absurd (omega arith)
  enough (suc n) (suc m) zero b p q = refl
  enough (suc n) (suc m) (suc a) b p q =
      rw (enough n m (suc a / 2) (b / 2) (omega arith) (omega arith))

  bitwise_digit :
      (a b : ℕ)
      → bitwise z f (suc a) b ≡ bitwise z f (suc a / 2) (b / 2) * 2 + f (suc a % 2) (b % 2)
  bitwise_digit a b =
      omega (arith, enough a (suc a / 2) (suc a / 2) (b / 2) (omega arith) (le_refl _))

pub bit_or_digit : (a b : ℕ) → bit_or a b ≡ bit_or (a / 2) (b / 2) * 2 + max (a % 2) (b % 2)
bit_or_digit zero b = simp bit_or-bitwise (omega arith)
bit_or_digit (suc a) b = simp bit_or-bitwise (bitwise_digit (λ y. y) max a b)

pub bit_and_digit : (a b : ℕ) → bit_and a b ≡ bit_and (a / 2) (b / 2) * 2 + min (a % 2) (b % 2)
bit_and_digit zero b = simp bit_and-bitwise (omega arith)
bit_and_digit (suc a) b = simp bit_and-bitwise (bitwise_digit (λ y. 0) min a b)

pub bit_xor_digit : (a b : ℕ) → bit_xor a b ≡ bit_xor (a / 2) (b / 2) * 2 + differ (a % 2) (b % 2)
bit_xor_digit zero b = simp bit_xor-bitwise (omega arith)
bit_xor_digit (suc a) b = simp bit_xor-bitwise (bitwise_digit (λ y. y) differ a b)
