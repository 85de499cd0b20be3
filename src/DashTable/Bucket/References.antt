-- ===== src/DashTable/Bucket/References.antt =====
-- What the stash pointers of a bucket give, and that their removal leaves the slots alone.
use storage_engine.Base.{
  ℕ, zero, suc, ◌+◌, ◌≤◌, ◌<◌, ◌≡◌, refl, sym, ap, ◌∙◌, Bool, true, false, ◌&&◌, ◌==◌,
  if◌then◌else◌, Option, none, some, Option-cases, Bool-cases, inl, inr, subst, arith,
}
use storage_engine.Base.Words.{shr, testbit, bit_not32, testbit-shr, pair, pair-lt}
use storage_engine.DashTable.Bucket.Base.{BucketBase, stash_fp_len}
use storage_engine.DashTable.Bucket.Stash.{
  stash_loop, iterate_stash, clear_stash, drop_pointer, drop_reference, no_reference,
  unset_stash_ptr,
}

-- The bitmap and the fingerprints are those of the other.
abbrev pub SameSlots : BucketBase → BucketBase → Type 0
SameSlots b b' = (b'.slotb ≡ b.slotb) × (b'.finger_arr ≡ b.finger_arr)

-- Pointer `i` is in use, of the kind that `own` tells, and has the fingerprint.
abbrev pub IsMatch : ℕ → BucketBase → (ℕ → Bool) → ℕ → Type 0
IsMatch fp b own i =
    (testbit b.stash_busy i ≡ true) × (own i ≡ true) × ((b.stash_arr i == fp) ≡ true)

-- The pointers that `IterateStash` looks at: those of the bucket itself, or those marked.
abbrev pub kind : BucketBase → Bool → ℕ → Bool
kind b is_probe i =
    if is_probe then testbit b.stash_probe_mask i else testbit (bit_not32 b.stash_probe_mask) i

module _ {ℓ} {A : Type ℓ} (fp : ℕ) (func : ℕ → ℕ → Option A) (b : BucketBase) where
  -- The callback has given the result at a pointer that matches, below `n`.
  pub record IsHit (own : ℕ → Bool) (n : ℕ) (r : ℕ × A) : Type ℓ where
    pub at : ℕ
    pub in_range : at < n
    pub matching : IsMatch fp b own at
    pub place : pair b.stash_pos at ≡ r.0
    pub given : func at (r.0) ≡ some (r.1)

  module _ (own : ℕ → Bool) where
    -- The words of the loop, shifted by `i`, and the bits that they stand for.
    abbrev Shifted : ℕ → ℕ → ℕ → Type 0
    Shifted i ob om =
        (j : ℕ) → (testbit ob j ≡ testbit b.stash_busy (i + j)) × (testbit om j ≡ own (i + j))

    Shifted-shr : (i ob om : ℕ) → Shifted i ob om → Shifted (suc i) (shr ob 1) (shr om 1)
    Shifted-shr i ob om bits j =
        let e : j + 1 ≡ suc j = omega arith in
        let e' : i + suc j ≡ suc i + j = omega arith in
        let (busy, mine) = bits (suc j) in
        (
          testbit-shr ob 1 j ∙ ap (testbit ob) e ∙ busy ∙ ap (testbit b.stash_busy) e',
          testbit-shr om 1 j ∙ ap (testbit om) e ∙ mine ∙ ap own e',
        )

    -- The test of one round, in terms of pointer `i`.
    round-test :
        (i ob om : ℕ)
        → Shifted i ob om
        → (testbit ob 0 && (b.stash_arr i == fp) && testbit om 0)
          ≡ (testbit b.stash_busy i && (b.stash_arr i == fp) && own i)
    round-test i ob om bits =
        let e : i + 0 ≡ i = omega arith in
        let (busy, mine) = bits 0 in
        ground (arith, busy ∙ ap (testbit b.stash_busy) e, mine ∙ ap own e)

    stash_loop-IsHit :
        (rounds i ob om : ℕ) (r : ℕ × A)
        → Shifted i ob om
        → stash_loop rounds i ob om fp func b ≡ some r
        → IsHit own (i + rounds) r
    unfolding stash_loop
    stash_loop-IsHit zero i ob om r bits e = absurd (cc)
    stash_loop-IsHit (suc rounds) i ob om r bits e =
        let same_end : suc i + rounds ≡ i + suc rounds = omega arith in
        let later = λ (e' : stash_loop rounds (suc i) (shr ob 1) (shr om 1) fp func b ≡ some r).
          subst (λ n. IsHit own n r) same_end
            (stash_loop-IsHit rounds (suc i) (shr ob 1) (shr om 1) r (Shifted-shr i ob om bits)
              e') in
        elim (Bool-cases (testbit ob 0 && (b.stash_arr i == fp) && testbit om 0)) [
          | inl here ↦ elim (Option-cases (func i (pair b.stash_pos i))) [
            | inl e' ↦ later (rw (here, stash_loop, e') at e)
            | inr (a, e') ↦
                let same : some (pair b.stash_pos i, a) ≡ some r = rw (here, stash_loop, e') at e in
                let test = sym (round-test i ob om bits) ∙ here in
                subst (IsHit own (i + suc rounds)) (ap (λ o. elim o [ some x ↦ x | none ↦ r ]) same)
                  (record {
                    at = i;
                    in_range = omega arith;
                    matching = (ground (arith, test), ground (arith, test), ground (arith, test));
                    place = refl;
                    given = e';
                  })
          ]
          | inr there ↦ later (rw (there, stash_loop) at e)
        ]

    stash_loop-misses :
        (rounds i ob om : ℕ)
        → Shifted i ob om
        → stash_loop rounds i ob om fp func b ≡ none
        → (j : ℕ) → i ≤ j
        → j < i + rounds
        → IsMatch fp b own j
        → func j (pair b.stash_pos j) ≡ none
    unfolding stash_loop
    stash_loop-misses zero i ob om bits e j le lt m = absurd (omega (arith, le, lt))
    stash_loop-misses (suc rounds) i ob om bits e j le lt m =
        let later =
          λ (e' : stash_loop rounds (suc i) (shr ob 1) (shr om 1) fp func b ≡ none)
              (after : suc i ≤ j).
            stash_loop-misses rounds (suc i) (shr ob 1) (shr om 1) (Shifted-shr i ob om bits) e' j
              after (omega (arith, lt)) m in
        elim (Bool-cases (testbit ob 0 && (b.stash_arr i == fp) && testbit om 0)) [
          | inl here ↦ elim (Option-cases (func i (pair b.stash_pos i))) [
            | inl e' ↦ elim (native.Mathlib.Decide.ℕ_discrete j i) [
              | yes same ↦ rw same e'
              | no ne ↦ later (rw (here, stash_loop, e') at e) (omega (arith, le, ne))
            ]
            | inr (a, e') ↦ absurd (cc (rw (here, stash_loop, e') at e))
          ]
          | inr there ↦ elim (native.Mathlib.Decide.ℕ_discrete j i) [
            | yes same ↦ absurd (
                ground (
                  arith,
                  round-test i ob om bits,
                  there,
                  rw same at (m.0),
                  rw same at (m.1),
                  rw same at (m.2),
                ))
            | no ne ↦ later (rw (there, stash_loop) at e) (omega (arith, le, ne))
          ]
        ]

  Shifted-start :
      (is_probe : Bool)
      → Shifted
          (kind b is_probe)
          0
          b.stash_busy
          (if is_probe then b.stash_probe_mask else bit_not32 b.stash_probe_mask)
  Shifted-start true j =
      let e : j ≡ 0 + j = omega arith in (ap (testbit b.stash_busy) e, ap (kind b true) e)
  Shifted-start false j =
      let e : j ≡ 0 + j = omega arith in (ap (testbit b.stash_busy) e, ap (kind b false) e)

  pub iterate_stash-IsHit :
      (is_probe : Bool) (r : ℕ × A)
      → iterate_stash fp is_probe func b ≡ some r
      → IsHit (kind b is_probe) 4 r
  unfolding iterate_stash
  iterate_stash-IsHit is_probe r e =
      stash_loop-IsHit (kind b is_probe) stash_fp_len 0 b.stash_busy
        (if is_probe then b.stash_probe_mask else bit_not32 b.stash_probe_mask) r
        (Shifted-start is_probe) e

  pub iterate_stash-misses :
      (is_probe : Bool)
      → iterate_stash fp is_probe func b ≡ none
      → (j : ℕ) → j < 4
      → IsMatch fp b (kind b is_probe) j
      → func j (pair b.stash_pos j) ≡ none
  unfolding iterate_stash
  iterate_stash-misses is_probe e j lt m =
      stash_loop-misses (kind b is_probe) stash_fp_len 0 b.stash_busy
        (if is_probe then b.stash_probe_mask else bit_not32 b.stash_probe_mask)
        (Shifted-start is_probe) e j (omega arith) (omega (arith, lt)) m

  -- The callback has given the result, at one of four places.
  abbrev pub Given : ℕ × A → Type ℓ
  Given r = (i : ℕ) × (func i (r.0) ≡ some (r.1)) × (r.0 < 4)

  pub iterate_stash-Given :
      (is_probe : Bool) (r : ℕ × A) → iterate_stash fp is_probe func b ≡ some r → Given r
  iterate_stash-Given is_probe r e =
      let hit = iterate_stash-IsHit is_probe r e in
      (hit.at, hit.given, omega (arith, pair-lt b.stash_pos hit.at, hit.place))

dropped : (i : ℕ) (b b' : BucketBase) → some (drop_pointer i b) ≡ some b' → SameSlots b b'
unfolding drop_pointer
dropped i b b' e = (
  ap (λ o. elim o [ some x ↦ x.slotb | none ↦ b.slotb ]) (sym e),
  ap (λ o. elim o [ some x ↦ x.finger_arr | none ↦ b.finger_arr ]) (sym e),
)

clear_stash-SameSlots :
    (fp pos : ℕ) (probe : Bool) (b b' : BucketBase)
    → clear_stash fp pos probe b ≡ some b'
    → SameSlots b b'
unfolding clear_stash drop_pointer
clear_stash-SameSlots fp pos probe b b' e =
    let func = λ (i p : ℕ). if p == pos then some (drop_pointer i b) else none in
    elim (Option-cases (iterate_stash fp probe func b)) [
      | inl none_left ↦ absurd (cc (e, none_left))
      | inr (r, found) ↦
          let (i, given, _) = iterate_stash-Given fp func b probe r found in
          let result : some (r.1) ≡ some b' = rw (found, clear_stash) at e in
          elim (Bool-cases (r.0 == pos)) [
            | inl here ↦ dropped i b b' ((rw here at given) ∙ result)
            | inr there ↦ absurd (cc (rw there at given))
          ]
    ]

drop_reference-SameSlots :
    (fp pos : ℕ) (b next : BucketBase)
    → let r = drop_reference fp pos b next in SameSlots b (r.0) × SameSlots next (r.1)
unfolding drop_reference
drop_reference-SameSlots fp pos b next = elim (Option-cases (clear_stash fp pos false b)) [
  | inl e ↦ elim (Option-cases (clear_stash fp pos true next)) [
    | inl e' ↦ rw (e, drop_reference, e') ((refl, refl), (refl, refl))
    | inr (next', e') ↦
        rw (e, drop_reference, e') ((refl, refl), clear_stash-SameSlots fp pos true next next' e')
  ]
  | inr (b', e) ↦ rw (e, drop_reference) (clear_stash-SameSlots fp pos false b b' e, (refl, refl))
]

pub unset_stash_ptr-SameSlots :
    (fp pos : ℕ) (b next : BucketBase)
    → let r = unset_stash_ptr fp pos b next in SameSlots b (r.0) × SameSlots next (r.1)
unfolding unset_stash_ptr
unset_stash_ptr-SameSlots fp pos b next =
    let r = drop_reference fp pos b next in
    let same = drop_reference-SameSlots fp pos b next in
    elim (Bool-cases (no_reference (r.0) (r.1))) [
      | inl e ↦ rw (e, unset_stash_ptr) same
      | inr e ↦ rw (e, unset_stash_ptr) same
    ]
