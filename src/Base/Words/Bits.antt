-- ===== src/Base/Words/Bits.antt =====
-- Each operation on words, seen at one bit.
use Prim.Native.Nat.{ℕ, zero, suc, ◌+◌, ◌-◌, ◌/◌, ◌%◌, ◌≤◌, ◌<◌, differ, bit_and, bit_or, bit_xor}
use mathlib.Core.Path.{◌≡◌, refl, ◌∙◌, ap}
use mathlib.Core.Logic.{◌≢◌}
use mathlib.Core.Bool.{Bool, true, false, ◌&&◌, ◌||◌}
use native.Mathlib.Nat.{pow-suc, one-le-pow}
use native.Mathlib.Omega.{arith}
use storage_engine.Base.Tests.{if◌then◌else◌, ◌==◌, ltb, to_nat, xor}
use storage_engine.Base.Words.Digits.{
  testbit, shl, shr, low_mask, bit_not32, shl32, u8, word_of, bit_and_digit, bit_or_digit,
  bit_xor_digit,
}

-- Exclusive or of two binary digits.
differ_digits :
    (d e : ℕ) → d < 2 → e < 2 → (differ d e < 2) × ((differ d e == 1) ≡ xor (d == 1) (e == 1))
differ_digits zero zero p q = (omega arith, refl)
differ_digits zero (suc zero) p q = (omega arith, refl)
differ_digits zero (suc (suc e)) p q = absurd (omega arith)
differ_digits (suc zero) zero p q = (omega arith, refl)
differ_digits (suc zero) (suc zero) p q = (omega arith, refl)
differ_digits (suc zero) (suc (suc e)) p q = absurd (omega arith)
differ_digits (suc (suc d)) e p q = absurd (omega arith)

pub testbit-bit_and : (a b i : ℕ) → testbit (bit_and a b) i ≡ testbit a i && testbit b i
unfolding testbit
testbit-bit_and a b zero = ground (arith, bit_and_digit a b)
testbit-bit_and a b (suc i) =
    ap (λ x. testbit x i) (omega (arith, bit_and_digit a b)) ∙ testbit-bit_and (a / 2) (b / 2) i

pub testbit-bit_or : (a b i : ℕ) → testbit (bit_or a b) i ≡ testbit a i || testbit b i
unfolding testbit
testbit-bit_or a b zero = ground (arith, bit_or_digit a b)
testbit-bit_or a b (suc i) =
    ap (λ x. testbit x i) (omega (arith, bit_or_digit a b)) ∙ testbit-bit_or (a / 2) (b / 2) i

pub testbit-zero : (i : ℕ) → testbit 0 i ≡ false
unfolding testbit
testbit-zero zero = refl
testbit-zero (suc i) = testbit-zero i

pub testbit-shl_one : (k i : ℕ) → testbit (shl 1 k) i ≡ (i == k)
unfolding testbit shl
testbit-shl_one zero zero = refl
testbit-shl_one zero (suc i) = testbit-zero i ∙ ground arith
testbit-shl_one (suc k) zero = ground arith
testbit-shl_one (suc k) (suc i) =
    ap (λ x. testbit x i) (omega arith) ∙ testbit-shl_one k i ∙ ground arith

pub testbit-shr : (x k i : ℕ) → testbit (shr x k) i ≡ testbit x (i + k)
unfolding testbit shr
testbit-shr x zero i = let e : i ≡ i + 0 = omega arith in ap (λ j. testbit x j) e
testbit-shr x (suc k) i =
    let e : suc (i + k) ≡ i + suc k = omega arith in
    testbit-shr (x / 2) k i ∙ ap (λ j. testbit x j) e

pub testbit-low_mask : (n i : ℕ) → testbit (low_mask n) i ≡ ltb i n
unfolding testbit low_mask
testbit-low_mask zero i = testbit-zero i ∙ ground arith
testbit-low_mask (suc n) zero = ground (arith, pow-suc 2 n, one-le-pow n 2)
testbit-low_mask (suc n) (suc i) =
    ap (λ x. testbit x i) (omega (arith, pow-suc 2 n, one-le-pow n 2))
    ∙ testbit-low_mask n i
    ∙ ground arith

pub testbit-bit_xor : (a b i : ℕ) → testbit (bit_xor a b) i ≡ xor (testbit a i) (testbit b i)
unfolding testbit
testbit-bit_xor a b zero =
    let (small, same) = differ_digits (a % 2) (b % 2) (omega arith) (omega arith) in
    let e : bit_xor a b % 2 ≡ differ (a % 2) (b % 2) = omega (arith, bit_xor_digit a b) in
    ap (λ t. t == 1) e ∙ same
testbit-bit_xor a b (suc i) =
    let (small, same) = differ_digits (a % 2) (b % 2) (omega arith) (omega arith) in
    ap (λ x. testbit x i) (omega (arith, bit_xor_digit a b)) ∙ testbit-bit_xor (a / 2) (b / 2) i

pub testbit-bit_not32 : (x i : ℕ) → testbit (bit_not32 x) i ≡ xor (testbit x i) (ltb i 32)
unfolding bit_not32
testbit-bit_not32 x i = testbit-bit_xor x _ i ∙ ap (xor (testbit x i)) (testbit-low_mask 32 i)

pub testbit-u8 : (x i : ℕ) → testbit (u8 x) i ≡ testbit x i && ltb i 8
unfolding u8
testbit-u8 x i = testbit-bit_and x _ i ∙ ap (◌&&◌ (testbit x i)) (testbit-low_mask 8 i)

shl-zero : (k : ℕ) → shl 0 k ≡ 0
unfolding shl
shl-zero zero = refl
shl-zero (suc k) = omega (arith, shl-zero k)

-- `unsigned(p) << k`.
pub testbit-shl_bit : (p : Bool) (k i : ℕ) → testbit (shl (to_nat p) k) i ≡ p && (i == k)
testbit-shl_bit true k i = testbit-shl_one k i
testbit-shl_bit false k i = ap (λ x. testbit x i) (shl-zero k) ∙ testbit-zero i

pub testbit-shl : (x k i : ℕ) → testbit (shl x k) i ≡ (if ltb i k then false else testbit x (i - k))
unfolding testbit shl
testbit-shl x zero i = ground (arith, ap (testbit x) {x = i} {y = i - 0} (omega arith))
testbit-shl x (suc k) zero = ground arith
testbit-shl x (suc k) (suc i) =
    ap (λ y. testbit y i) (omega arith)
    ∙ testbit-shl x k i
    ∙ ground (arith, ap (testbit x) {x = i - k} {y = suc i - suc k} (omega arith))

pub testbit-shl32 :
    (x k i : ℕ) → testbit (shl32 x k) i ≡ (if ltb i k then false else testbit x (i - k)) && ltb i 32
unfolding shl32
testbit-shl32 x k i =
    testbit-bit_and (shl x k) _ i ∙ ground (arith, testbit-shl x k i, testbit-low_mask 32 i)

-- No bit at or above `n`.
abbrev pub Fits : ℕ → ℕ → Type 0
Fits n x = (i : ℕ) → n ≤ i → testbit x i ≡ false

-- A word with a bit set is not zero, and a word that is not zero and fits has a bit set.
pub testbit-ne-zero : (x i : ℕ) → testbit x i ≡ true → x ≢ 0
unfolding testbit
testbit-ne-zero x i h e = ground (arith, ap (λ y. testbit y i) e, testbit-zero i)

pub testbit-word_of : (w : ℕ) (f : ℕ → Bool) (i : ℕ) → testbit (word_of w f) i ≡ ltb i w && f i
unfolding testbit word_of
testbit-word_of zero f i = testbit-zero i ∙ ground arith
testbit-word_of (suc w) f zero = ground arith
testbit-word_of (suc w) f (suc i) =
    ap (λ x. testbit x i) (ground arith) ∙ testbit-word_of w (λ j. f (suc j)) i ∙ ground arith

-- Words are equal if all their bits are.
testbit_ext_below : (n x y : ℕ) → x ≤ n → y ≤ n → ((i : ℕ) → testbit x i ≡ testbit y i) → x ≡ y
unfolding testbit
testbit_ext_below zero x y le le' same = omega arith
testbit_ext_below (suc n) x y le le' same =
    let halves =
      testbit_ext_below n (x / 2) (y / 2) (omega arith) (omega arith) (λ i. same (suc i)) in
    ground (arith, same 0, halves)

pub testbit_ext : (x y : ℕ) → ((i : ℕ) → testbit x i ≡ testbit y i) → x ≡ y
testbit_ext x y same = testbit_ext_below (x + y) x y (omega arith) (omega arith) same
