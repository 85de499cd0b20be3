-- ===== src/Base/Words/Pairs.antt =====
-- Words read two bits at a time.
use Prim.Native.Nat.{ℕ, suc, ◌+◌, ◌-◌, ◌*◌, ◌/◌, ◌%◌, ◌<◌, bit_and, bit_or}
use mathlib.Core.Path.{◌≡◌, refl, sym, ap, ◌∙◌, subst}
use mathlib.Core.Logic.{◌≢◌}
use mathlib.Core.Bool.{true, false, ◌&&◌, ◌||◌}
use native.Mathlib.Omega.{arith}
use storage_engine.Base.Tests.{to_nat, not}
use storage_engine.Base.Words.Digits.{testbit, shl, shr, bit_not32, u8, low_mask, bit_and_digit}
use storage_engine.Base.Words.Bits.{
  testbit-bit_and, testbit-bit_or, testbit-zero, testbit-shl, testbit-shr, testbit-bit_not32,
  testbit-u8,
}
use storage_engine.Base.Words.Count.{some_bit}

-- Pair `i` of `x`: its bits `2 i` and `2 i + 1`.
abbrev pub pair : ℕ → ℕ → ℕ
pair x i = bit_and (shr x (i * 2)) 3

bit_and-zero : (z : ℕ) → bit_and z 0 ≡ 0
bit_and-zero z = elim (native.Mathlib.Decide.ℕ_discrete (bit_and z 0) 0) [
  | yes e ↦ e
  | no ne ↦
      let (i, lt, on) =
        some_bit 0 (bit_and z 0) (λ j _. testbit-bit_and z 0 j ∙ ground (arith, testbit-zero j))
          ne in
      absurd (omega (arith, lt))
]

low_pair : (x : ℕ) → bit_and x 3 ≡ x % 2 + 2 * (x / 2 % 2)
low_pair x =
    let one = bit_and_digit (x / 2) 1 in
    omega (arith, bit_and_digit x 3, one, bit_and-zero (x / 2 / 2))

low_pair-bits : (x : ℕ) → bit_and x 3 ≡ to_nat (testbit x 0) + 2 * to_nat (testbit x 1)
unfolding testbit
low_pair-bits x = ground (arith, low_pair x)

pub pair-lt : (x i : ℕ) → pair x i < 4
pair-lt x i = omega (arith, low_pair (shr x (i * 2)))

pair-bits : (x i : ℕ) → pair x i ≡ to_nat (testbit x (i * 2)) + 2 * to_nat (testbit x (i * 2 + 1))
pair-bits x i =
    let y = shr x (i * 2) in
    let even = testbit-shr x (i * 2) 0 in
    let odd = testbit-shr x (i * 2) 1 in
    let e0 : 0 + i * 2 ≡ i * 2 = omega arith in
    let e1 : 1 + i * 2 ≡ i * 2 + 1 = omega arith in
    low_pair-bits y
    ∙ ap (λ c. to_nat c + 2 * to_nat (testbit y 1)) (even ∙ ap (testbit x) e0)
    ∙ ap (λ c. to_nat (testbit x (i * 2)) + 2 * to_nat c) (odd ∙ ap (testbit x) e1)

-- Words that agree on the two bits have the same pair.
pub pair_congr :
    (x y i : ℕ)
    → testbit y (i * 2) ≡ testbit x (i * 2)
    → testbit y (i * 2 + 1) ≡ testbit x (i * 2 + 1)
    → pair y i ≡ pair x i
pair_congr x y i even odd =
    pair-bits y i
    ∙ ap (λ c. to_nat c + 2 * to_nat (testbit y (i * 2 + 1))) even
    ∙ ap (λ c. to_nat (testbit x (i * 2)) + 2 * to_nat c) odd
    ∙ sym (pair-bits x i)

small_pair : (p : ℕ) → p < 4 → to_nat (testbit p 0) + 2 * to_nat (testbit p 1) ≡ p
small_pair p lt = sym (low_pair-bits p) ∙ omega (arith, low_pair p)

testbit-small : (p j : ℕ) → p < 4 → testbit p (suc (suc j)) ≡ false
unfolding testbit
testbit-small p j lt =
    let e : p / 2 / 2 ≡ 0 = omega arith in ap (λ x. testbit x j) e ∙ testbit-zero j

-- Pair `i` cleared, in a word of 32 bits.
abbrev pub without_pair : ℕ → ℕ → ℕ
without_pair x i = bit_and x (bit_not32 (shl 3 (i * 2)))

testbit-without_pair :
    (x i j : ℕ)
    → j < 32
    → testbit (without_pair x i) j ≡ testbit x j && not (testbit (shl 3 (i * 2)) j)
testbit-without_pair x i j lt =
    ground
      (arith, testbit-bit_and x (bit_not32 (shl 3 (i * 2))) j, testbit-bit_not32 (shl 3 (i * 2)) j)

outside :
    (p i j : ℕ) → p < 4 → j ≢ i → (b : ℕ) → b < 2 → testbit (shl p (i * 2)) (j * 2 + b) ≡ false
outside p i j lt ne b small = elim (native.Mathlib.Decide.dec_lt j i) [
  | yes before ↦ ground (arith, testbit-shl p (i * 2) (j * 2 + b))
  | no behind ↦
      let k : ℕ = j * 2 + b - i * 2 - 2 in
      let e : j * 2 + b - i * 2 ≡ suc (suc k) = omega arith in
      ground (arith, testbit-shl p (i * 2) (j * 2 + b), ap (testbit p) e, testbit-small p k)
]

-- The word that `SetStash` writes: pair `f` is `p`, and the others stay.
abbrev pub write_pair : ℕ → ℕ → ℕ → ℕ
write_pair x f p = u8 (bit_or (without_pair x f) (shl p (f * 2)))

bit-write_pair :
    (x f p i b : ℕ)
    → i < 4
    → b < 2
    → testbit (write_pair x f p) (i * 2 + b)
      ≡ (testbit x (i * 2 + b) && not (testbit (shl 3 (f * 2)) (i * 2 + b)))
        || testbit (shl p (f * 2)) (i * 2 + b)
bit-write_pair x f p i b lt small =
    let j = i * 2 + b in
    ground (
      arith,
      testbit-u8 (bit_or (without_pair x f) (shl p (f * 2))) j,
      testbit-bit_or (without_pair x f) (shl p (f * 2)) j,
      testbit-without_pair x f j,
    )

kept_bit :
    (x f p i b : ℕ)
    → p < 4
    → i < 4
    → i ≢ f
    → b < 2
    → testbit (write_pair x f p) (i * 2 + b) ≡ testbit x (i * 2 + b)
kept_bit x f p i b lp lt ne small = ground (
  arith,
  bit-write_pair x f p i b lt small,
  outside p f i lp ne b small,
  outside 3 f i (omega arith) ne b small,
)

pub write_pair-other : (x f p i : ℕ) → p < 4 → i < 4 → i ≢ f → pair (write_pair x f p) i ≡ pair x i
write_pair-other x f p i lp lt ne =
    let e : i * 2 + 0 ≡ i * 2 = omega arith in
    pair_congr x (write_pair x f p) i
      (subst (λ j. testbit (write_pair x f p) j ≡ testbit x j) e
        (kept_bit x f p i 0 lp lt ne (omega arith)))
      (kept_bit x f p i 1 lp lt ne (omega arith))

shifted_bit : (p f b : ℕ) → testbit (shl p (f * 2)) (f * 2 + b) ≡ testbit p b
shifted_bit p f b =
    let e : f * 2 + b - f * 2 ≡ b = omega arith in
    ground (arith, testbit-shl p (f * 2) (f * 2 + b), ap (testbit p) e)

written_bit :
    (x f p b : ℕ)
    → f < 4
    → b < 2
    → testbit 3 b ≡ true
    → testbit (write_pair x f p) (f * 2 + b) ≡ testbit p b
written_bit x f p b lt small on =
    ground (arith, bit-write_pair x f p f b lt small, shifted_bit p f b, shifted_bit 3 f b)

pub write_pair_self : (x f p : ℕ) → p < 4 → f < 4 → pair (write_pair x f p) f ≡ p
unfolding testbit
write_pair_self x f p lp lt =
    let e : f * 2 + 0 ≡ f * 2 = omega arith in
    let even =
      subst (λ j. testbit (write_pair x f p) j ≡ testbit p 0) e
        (written_bit x f p 0 lt (omega arith) refl) in
    let odd = written_bit x f p 1 lt (omega arith) refl in
    pair-bits (write_pair x f p) f
    ∙ ap (λ c. to_nat c + 2 * to_nat (testbit (write_pair x f p) (f * 2 + 1))) even
    ∙ ap (λ c. to_nat (testbit p 0) + 2 * to_nat c) odd
    ∙ small_pair p lp

-- The word that `ClearStash` writes.
cleared_bit :
    (x f i b : ℕ)
    → i < 4
    → i ≢ f
    → b < 2
    → testbit (without_pair x f) (i * 2 + b) ≡ testbit x (i * 2 + b)
cleared_bit x f i b lt ne small =
    ground (arith, testbit-without_pair x f (i * 2 + b), outside 3 f i (omega arith) ne b small)

pub without_pair-other : (x f i : ℕ) → i < 4 → i ≢ f → pair (without_pair x f) i ≡ pair x i
without_pair-other x f i lt ne =
    let e : i * 2 + 0 ≡ i * 2 = omega arith in
    pair_congr x (without_pair x f) i
      (subst (λ j. testbit (without_pair x f) j ≡ testbit x j) e
        (cleared_bit x f i 0 lt ne (omega arith)))
      (cleared_bit x f i 1 lt ne (omega arith))

digit_1 : (x : ℕ) → bit_and x 1 ≡ x % 2
digit_1 x = omega (arith, bit_and_digit x 1, bit_and-zero (x / 2))

digit_2 : (x : ℕ) → bit_and x 3 ≡ x % 4
digit_2 x = omega (arith, bit_and_digit x 3, digit_1 (x / 2))

digit_3 : (x : ℕ) → bit_and x 7 ≡ x % 8
digit_3 x = omega (arith, bit_and_digit x 7, digit_2 (x / 2))

digit_4 : (x : ℕ) → bit_and x 15 ≡ x % 16
digit_4 x = omega (arith, bit_and_digit x 15, digit_3 (x / 2))

digit_5 : (x : ℕ) → bit_and x 31 ≡ x % 32
digit_5 x = omega (arith, bit_and_digit x 31, digit_4 (x / 2))

digit_6 : (x : ℕ) → bit_and x 63 ≡ x % 64
digit_6 x = omega (arith, bit_and_digit x 63, digit_5 (x / 2))

digit_7 : (x : ℕ) → bit_and x 127 ≡ x % 128
digit_7 x = omega (arith, bit_and_digit x 127, digit_6 (x / 2))

-- What a byte keeps of a number.
pub byte-mod : (x : ℕ) → bit_and x 255 ≡ x % 256
byte-mod x = omega (arith, bit_and_digit x 255, digit_7 (x / 2))

pub u8-mod : (x : ℕ) → u8 x ≡ x % 256
unfolding u8 low_mask
u8-mod x = byte-mod x
