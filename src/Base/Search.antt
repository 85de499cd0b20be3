-- ===== src/Base/Search.antt =====
-- The least index with a property: what a linear scan of slots looks for.
use Prim.Native.Nat.{ℕ, zero, suc, ◌+◌, ◌≤◌, ◌<◌}
use mathlib.Core.Path.{◌≡◌, refl, ◌∙◌, ap, sym}
use mathlib.Core.Bool.{Bool, true, false}
use mathlib.Core.Option.{Option, none, some}
use mathlib.Core.Logic.{inl, inr}
use native.Mathlib.Omega.{arith}
use storage_engine.Base.Tests.{if◌then◌else◌, Bool-cases}

-- The first of the `m` indices from `i` on that `p` accepts.
unfoldable pub first_from : ℕ → ℕ → (ℕ → Bool) → Option ℕ
first_from zero i p = none
first_from (suc m) i p = if p i then some i else first_from m (suc i) p

pub first_from-skip :
    (k m i : ℕ) (p : ℕ → Bool)
    → ((j : ℕ) → i ≤ j → j < i + k → p j ≡ false)
    → first_from (k + m) i p ≡ first_from m (i + k) p
unfolding first_from
first_from-skip zero m i p h =
    let e : 0 + m ≡ m = omega arith in let e' : i + 0 ≡ i = omega arith in rw (e, e')
first_from-skip (suc k) m i p h =
    let e : suc k + m ≡ suc (k + m) = omega arith in
    let e' : i + suc k ≡ suc i + k = omega arith in
    rw (e, e')
      (ground (
        arith,
        h i (omega arith) (omega arith),
        first_from-skip k m (suc i) p (λ j a b. h j (omega arith) (omega arith)),
      ))

-- Nothing is found where nothing is accepted.
pub first_from-nowhere :
    (m i : ℕ) (p : ℕ → Bool) → ((j : ℕ) → p j ≡ false) → first_from m i p ≡ none
unfolding first_from
first_from-nowhere zero i p h = refl
first_from-nowhere (suc m) i p h = ground (arith, h i, first_from-nowhere m (suc i) p h)

-- What an index found means.
pub record IsFirst (m i : ℕ) (p : ℕ → Bool) (j : ℕ) : Type 0 where
  pub from : i ≤ j
  pub to : j < i + m
  pub holds : p j ≡ true
  pub before : (l : ℕ) → i ≤ l → l < j → p l ≡ false

pub first_from-some : (m i : ℕ) (p : ℕ → Bool) (j : ℕ) → first_from m i p ≡ some j → IsFirst m i p j
unfolding first_from
first_from-some zero i p j e = absurd (cc)
first_from-some (suc m) i p j e = elim (Bool-cases (p i)) [
  | inl yes_i ↦
      let same : i ≡ j = ground arith in
      record {
        from = omega arith;
        to = omega arith;
        holds = ap p (sym same) ∙ yes_i;
        before = λ l a b. absurd (omega arith);
      }
  | inr no_i ↦
      let rest = first_from-some m (suc i) p j (ground arith) in
      record {
        from = omega (arith, rest.from);
        to = omega (arith, rest.to);
        holds = rest.holds;
        before = λ l a b. elim (native.Mathlib.Decide.ℕ_discrete l i) [
          | yes e' ↦ ap p e' ∙ no_i
          | no ne ↦ rest.before l (omega arith) b
        ];
      }
]

pub first_from-none :
    (m i : ℕ) (p : ℕ → Bool) → first_from m i p ≡ none → (l : ℕ) → i ≤ l → l < i + m → p l ≡ false
unfolding first_from
first_from-none zero i p e l a b = absurd (omega arith)
first_from-none (suc m) i p e l a b = elim (Bool-cases (p i)) [
  | inl yes_i ↦ absurd (ground arith)
  | inr no_i ↦ elim (native.Mathlib.Decide.ℕ_discrete l i) [
    | yes e' ↦ ap p e' ∙ no_i
    | no ne ↦ first_from-none m (suc i) p (ground arith) l (omega arith) (omega arith)
  ]
]
