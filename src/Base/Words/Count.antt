-- ===== src/Base/Words/Count.antt =====
-- `popcount` and `ctz`, in terms of the bits.
use Prim.Native.Nat.{ℕ, zero, suc, ◌+◌, ◌/◌, ◌%◌, ◌≤◌, ◌<◌}
use mathlib.Core.Path.{◌≡◌, refl}
use mathlib.Core.Logic.{◌≢◌, inl, inr}
use mathlib.Core.Bool.{true, false}
use native.Mathlib.Omega.{arith}
use storage_engine.Base.Tests.{◌==◌, Bool-cases}
use storage_engine.Base.Words.Digits.{testbit, popcount, ctz}
use storage_engine.Base.Words.Bits.{Fits}

-- Where some bit below `w` is set, `ctz` is the place of the lowest one.
pub record IsLowest (x : ℕ) (k i : ℕ) : Type 0 where
  pub is_set : testbit x k ≡ true
  pub first : k ≤ i

pub ctz-IsLowest : (w x i : ℕ) → i < w → testbit x i ≡ true → IsLowest x (ctz w x) i
unfolding testbit ctz
ctz-IsLowest zero x i h b = absurd (omega arith)
ctz-IsLowest (suc w) x zero h b = record { is_set = ground arith; first = ground arith }
ctz-IsLowest (suc w) x (suc i) h b = elim (Bool-cases (x % 2 == 1)) [
  | inl e ↦ rw e (record { is_set = e; first = omega arith })
  | inr e ↦
      let rest = ctz-IsLowest w (x / 2) i (omega arith) b in
      rw e (record { is_set = rest.is_set; first = omega (arith, rest.first) })
]

pub ctz-le : (w x : ℕ) → ctz w x ≤ w
unfolding ctz
ctz-le zero x = omega arith
ctz-le (suc w) x = ground (arith, ctz-le w (x / 2))

pub below-ctz : (w x j : ℕ) → j < ctz w x → testbit x j ≡ false
unfolding testbit ctz
below-ctz zero x j h = absurd (omega arith)
below-ctz (suc w) x zero h = ground arith
below-ctz (suc w) x (suc j) h = ground (arith, below-ctz w (x / 2) j)

zero_of_bits : (f x : ℕ) → x ≤ f → ((i : ℕ) → testbit x i ≡ false) → x ≡ 0
unfolding testbit
zero_of_bits zero x le clear = omega arith
zero_of_bits (suc f) x le clear =
    ground (arith, clear 0, zero_of_bits f (x / 2) (omega arith) (λ i. clear (suc i)))

-- A word below `2 ^ n` that is not zero has a bit set below `n`.
pub some_bit : (n x : ℕ) → Fits n x → x ≢ 0 → (i : ℕ) × (i < n) × (testbit x i ≡ true)
unfolding testbit
some_bit zero x fits h = absurd (h (zero_of_bits x x (omega arith) (λ i. fits i (omega arith))))
some_bit (suc n) x fits h = elim (Bool-cases (x % 2 == 1)) [
  | inl e ↦ (0, omega arith, e)
  | inr e ↦
      let (i, lt, b) = some_bit n (x / 2) (λ i le. fits (suc i) (omega arith)) (ground arith) in
      (suc i, omega arith, b)
]

pub popcount-le : (w n x : ℕ) → Fits n x → popcount w x ≤ n
unfolding testbit popcount
popcount-le zero n x fits = omega arith
popcount-le (suc w) zero x fits =
    ground (arith, fits 0, popcount-le w zero (x / 2) (λ i le. fits (suc i) (omega arith)))
popcount-le (suc w) (suc n) x fits =
    omega (arith, popcount-le w n (x / 2) (λ i le. fits (suc i) (omega arith)))

-- All ones below `n`, when there are `n` of them.
pub popcount-full : (w n x : ℕ) → Fits n x → popcount w x ≡ n → (i : ℕ) → i < n → testbit x i ≡ true
unfolding testbit popcount
popcount-full w zero x fits full i h = absurd (omega arith)
popcount-full zero (suc n) x fits full i h = absurd (omega arith)
popcount-full (suc w) (suc n) x fits full zero h =
    ground (arith, popcount-le w n (x / 2) (λ i le. fits (suc i) (omega arith)))
popcount-full (suc w) (suc n) x fits full (suc i) h =
    let fits' : Fits n (x / 2) = λ j le. fits (suc j) (omega arith) in
    popcount-full w n (x / 2) fits' (omega (arith, popcount-le w n (x / 2) fits')) i (omega arith)

-- A clear bit below `n`, when there are fewer than `n` ones.
pub clear_bit : (w n x : ℕ) → n ≤ w → popcount w x < n → (i : ℕ) × (i < n) × (testbit x i ≡ false)
unfolding testbit popcount
clear_bit w zero x le few = absurd (omega arith)
clear_bit zero (suc n) x le few = absurd (omega arith)
clear_bit (suc w) (suc n) x le few = elim (Bool-cases (x % 2 == 1)) [
  | inl e ↦
      let (i, lt, b) = clear_bit w n (x / 2) (omega arith) (ground arith) in (suc i, omega arith, b)
  | inr e ↦ (0, omega arith, e)
]

pub popcount_congr :
    (w x y : ℕ) → ((j : ℕ) → testbit y j ≡ testbit x j) → popcount w y ≡ popcount w x
unfolding testbit popcount
popcount_congr zero x y same = refl
popcount_congr (suc w) x y same =
    ground (arith, same 0, popcount_congr w (x / 2) (y / 2) (λ j. same (suc j)))

-- One more bit counts one more.
pub popcount_set :
    (w x y i : ℕ)
    → i < w
    → testbit x i ≡ false
    → testbit y i ≡ true
    → ((j : ℕ) → j ≢ i → testbit y j ≡ testbit x j)
    → popcount w y ≡ popcount w x + 1
unfolding testbit popcount
popcount_set zero x y i h off on same = absurd (omega arith)
popcount_set (suc w) x y zero h off on same =
    ground (arith, popcount_congr w (x / 2) (y / 2) (λ j. same (suc j) (omega arith)))
popcount_set (suc w) x y (suc i) h off on same = ground (
  arith,
  same 0,
  popcount_set w (x / 2) (y / 2) i (omega arith) off on (λ j ne. same (suc j) (omega arith)),
)
