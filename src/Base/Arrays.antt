-- ===== src/Base/Arrays.antt =====
-- Fixed-size C++ arrays as functions of the index, and sums over an initial range of indices.
use Prim.Native.Nat.{ℕ, zero, suc, ◌+◌, ◌*◌, ◌≤◌, ◌<◌}
use mathlib.Core.Path.{◌≡◌, refl, sym}
use mathlib.Core.Logic.{◌≢◌}
use native.Mathlib.Omega.{arith}
use storage_engine.Base.Tests.{if◌then◌else◌, ◌==◌, ==_refl, ==_ne}

-- `a[i] = v`.
abbrev pub update {ℓ} : {A : Type ℓ} → (ℕ → A) → ℕ → A → ℕ → A
update f i v j = if j == i then v else f j

pub update_self {ℓ} : {A : Type ℓ} (f : ℕ → A) (i : ℕ) (v : A) → update f i v i ≡ v
update_self f i v = rw (==_refl i)

pub update_ne {ℓ} : {A : Type ℓ} (f : ℕ → A) (i j : ℕ) (v : A) → j ≢ i → update f i v j ≡ f j
update_ne f i j v h = rw (==_ne j i h)

-- The sum of `f 0` to `f (n - 1)`.
pub sum_below : ℕ → (ℕ → ℕ) → ℕ
sum_below zero f = 0
sum_below (suc n) f = f n + sum_below n f

-- Two functions that agree below `n` have one sum.
pub sum_below_congr :
    (n : ℕ) (f g : ℕ → ℕ) → ((i : ℕ) → i < n → f i ≡ g i) → sum_below n f ≡ sum_below n g
unfolding sum_below
sum_below_congr zero f g h = refl
sum_below_congr (suc n) f g h =
    omega (arith, h n (omega arith), sum_below_congr n f g (λ i p. h i (omega arith)))

-- A change at one index below `n` changes the sum by that index's change.
pub sum_below_change_in :
    (n : ℕ) (f g : ℕ → ℕ) (k : ℕ)
    → k < n
    → ((i : ℕ) → i < n → i ≢ k → f i ≡ g i)
    → sum_below n g + f k ≡ sum_below n f + g k
unfolding sum_below
sum_below_change_in zero f g k h same = absurd (omega arith)
sum_below_change_in (suc n) f g k h same = elim (native.Mathlib.Decide.ℕ_discrete n k) [
  | yes e ↦
      rw e
        (omega (arith, sum_below_congr k f g (λ i p. same i (omega (arith, e, p)) (omega arith))))
  | no e ↦ omega (
    arith,
    same n (omega arith) e,
    sum_below_change_in n f g k (omega arith) (λ i p ne. same i (omega arith) ne),
  )
]

pub sum_below_change :
    (n : ℕ) (f g : ℕ → ℕ) (k : ℕ)
    → k < n
    → ((i : ℕ) → i ≢ k → f i ≡ g i)
    → sum_below n g + f k ≡ sum_below n f + g k
sum_below_change n f g k h same = sum_below_change_in n f g k h (λ i _ ne. same i ne)

-- A sum of sums, part by part.
pub sum_below-add :
    (n : ℕ) (f g h : ℕ → ℕ)
    → ((i : ℕ) → i < n → h i ≡ f i + g i)
    → sum_below n h ≡ sum_below n f + sum_below n g
unfolding sum_below
sum_below-add zero f g h e = refl
sum_below-add (suc n) f g h e =
    omega (arith, e n (omega arith), sum_below-add n f g h (λ i p. e i (omega arith)))

pub sum_below_mono :
    (n : ℕ) (f g : ℕ → ℕ) → ((i : ℕ) → i < n → f i ≤ g i) → sum_below n f ≤ sum_below n g
unfolding sum_below
sum_below_mono zero f g h = omega arith
sum_below_mono (suc n) f g h =
    omega (arith, h n (omega arith), sum_below_mono n f g (λ i p. h i (omega arith)))

-- A sum that is not zero has a part that is not.
pub some_part : (n : ℕ) (f : ℕ → ℕ) → 0 < sum_below n f → (i : ℕ) × (i < n) × (0 < f i)
unfolding sum_below
some_part zero f h = absurd (omega arith)
some_part (suc n) f h = elim (native.Mathlib.Decide.ℕ_discrete (f n) 0) [
  | yes e ↦ let (i, lt, more) = some_part n f (omega arith) in (i, omega arith, more)
  | no ne ↦ (n, omega arith, omega (arith, ne))
]

pub sum_below-eq-zero : (n : ℕ) (f : ℕ → ℕ) → ((i : ℕ) → i < n → f i ≡ 0) → sum_below n f ≡ 0
unfolding sum_below
sum_below-eq-zero zero f h = refl
sum_below-eq-zero (suc n) f h =
    omega (arith, h n (omega arith), sum_below-eq-zero n f (λ i p. h i (omega arith)))

pub le-sum_below : (n : ℕ) (f : ℕ → ℕ) (k : ℕ) → k < n → f k ≤ sum_below n f
unfolding sum_below
le-sum_below zero f k h = absurd (omega arith)
le-sum_below (suc n) f k h = elim (native.Mathlib.Decide.ℕ_discrete k n) [
  | yes e ↦ rw e (omega arith)
  | no e ↦ omega (arith, le-sum_below n f k (omega arith))
]

pub sum_below_ones : (n : ℕ) (f : ℕ → ℕ) → ((i : ℕ) → f i ≤ 1) → sum_below n f ≤ n
unfolding sum_below
sum_below_ones zero f h = omega arith
sum_below_ones (suc n) f h = omega (arith, h n, sum_below_ones n f h)

pub sum_below_four : (f : ℕ → ℕ) (c : ℕ) → ((i : ℕ) → f i ≤ c) → sum_below 4 f ≤ 4 * c
unfolding sum_below
sum_below_four f c h = omega (arith, h 0, h 1, h 2, h 3)

-- Two parts of a sum.
pub two_parts-le : (n : ℕ) (f : ℕ → ℕ) (k l : ℕ) → k < n → l < n → l ≢ k → f k + f l ≤ sum_below n f
two_parts-le n f k l lt lt' ne =
    let g : ℕ → ℕ = update f k 0 in
    omega (
      arith,
      sum_below_change_in n f g k lt (λ i _ ne'. sym (update_ne f k i 0 ne')),
      update_self f k 0,
      update_ne f k l 0 ne,
      le-sum_below n g l lt',
    )

pub sum_below-full : (n : ℕ) (f : ℕ → ℕ) → ((i : ℕ) → i < n → f i ≡ 1) → sum_below n f ≡ n
unfolding sum_below
sum_below-full zero f h = refl
sum_below-full (suc n) f h =
    omega (arith, h n (omega arith), sum_below-full n f (λ i p. h i (omega arith)))

-- Two parts below `n`, and the four from `n` on.
pub sum_below-six :
    (n : ℕ) (f : ℕ → ℕ) (k l : ℕ)
    → k < n
    → l < n
    → l ≢ k
    → f k + f l + (f (n + 0) + f (n + 1) + f (n + 2) + f (n + 3)) ≤ sum_below (n + 4) f
unfolding sum_below
sum_below-six n f k l lt lt' ne =
    let four : n + 4 ≡ suc (suc (suc (suc n))) = omega arith in
    let zeroth : n + 0 ≡ n = omega arith in
    let first : n + 1 ≡ suc n = omega arith in
    let second : n + 2 ≡ suc (suc n) = omega arith in
    let third : n + 3 ≡ suc (suc (suc n)) = omega arith in
    rw (four, zeroth, first, second, third) (omega (arith, two_parts-le n f k l lt lt' ne))
