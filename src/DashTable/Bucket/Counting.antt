-- ===== src/DashTable/Bucket/Counting.antt =====
-- The stash pointers of a bucket as a multiset: how many of them refer to an entry that a test
-- accepts, by its fingerprint and the place of its stash bucket.
use storage_engine.Base.{
  ℕ, ◌+◌, ◌*◌, ◌<◌, ◌≡◌, inl, inr, refl, subst, sym, ap, ◌∙◌, bit_and, bit_or, Bool, true, false,
  ◌&&◌, ◌||◌, not, xor, to_nat, ltb, leb, ◌==◌, if◌then◌else◌, none, some, Bool-cases, update,
  sum_below, sum_below_change_in, arith,
}
use storage_engine.Base.Words.{
  testbit, shl, bit_not32, ctz, u8, Fits, testbit-bit_and, testbit-bit_or, testbit-bit_not32,
  testbit-u8, testbit-shl_one, testbit-shl_bit, testbit-ne-zero, some_bit, ctz-IsLowest, below-ctz,
  pair, write_pair_self, write_pair-other,
}
use storage_engine.DashTable.Bucket.Base.{BucketBase, has_stash}
use storage_engine.DashTable.Bucket.Stash.{set_stash}

-- A test on a fingerprint and the place of a stash bucket.
abbrev pub Test : Type 0
Test = ℕ → ℕ → Bool

-- Pointer `i`, if it belongs to the bucket itself, or, under `probe`, to the bucket before.
abbrev pub pointer : BucketBase → Bool → Test → ℕ → ℕ
pointer b probe q i = to_nat (
    testbit b.stash_busy i
    && (if probe then testbit b.stash_probe_mask i else not (testbit b.stash_probe_mask i))
    && q (b.stash_arr i) (pair b.stash_pos i))

unfoldable pub pointers : BucketBase → Bool → Test → ℕ
pointers b probe q = sum_below 4 (pointer b probe q)

-- What holds of the pointers of every bucket: `stash_busy_` is a byte, and a pointer that is not
-- in use is not marked.
pub record IsTidy (b : BucketBase) : Type 0 where
  pub fits : Fits 8 b.stash_busy
  pub idle : (i : ℕ) → i < 4 → testbit b.stash_busy i ≡ false → testbit b.stash_probe_mask i ≡ false

-- The count of one more pointer of a kind, in counting those of the kind `pr`.
abbrev pub counted : Bool → Bool → Bool → ℕ
counted pr probe accepted = if xor pr probe then 0 else to_nat accepted

-- `b'` has the pointers of `b` and one more.
pub record Stored (fp pos : ℕ) (probe : Bool) (b b' : BucketBase) : Type 0 where
  pub tidy : IsTidy b'
  pub count :
      (pr : Bool) (q : Test) → pointers b' pr q ≡ pointers b pr q + counted pr probe (q fp pos)
  pub overflow : b'.overflow_count ≡ b.overflow_count
  pub present : has_stash b' ≡ has_stash b

pub testbit-16 : (i : ℕ) → testbit 16 i ≡ (i == 4)
unfolding shl
testbit-16 i = testbit-shl_one 4 i

-- `HasStash` looks at bit 4.
pub has_stash-testbit : (b : BucketBase) → has_stash b ≡ testbit b.stash_busy 4
unfolding has_stash
has_stash-testbit b =
    let bits = λ (i : ℕ).
      testbit-bit_and b.stash_busy 16 i ∙ ap (◌&&◌ (testbit b.stash_busy i)) (testbit-16 i) in
    elim (Bool-cases (testbit b.stash_busy 4)) [
      | inl on ↦
          ground (arith, on, testbit-ne-zero (bit_and b.stash_busy 16) 4 (ground (arith, bits 4)))
      | inr off ↦ elim (native.Mathlib.Decide.ℕ_discrete (bit_and b.stash_busy 16) 0) [
        | yes e ↦ ground arith
        | no ne ↦
            let (i, lt, on) =
              some_bit 5 (bit_and b.stash_busy 16) (λ j le. ground (arith, bits j)) ne in
            absurd (ground (arith, bits i, off, ap (testbit b.stash_busy) {x = i} {y = 4}))
      ]
    ]

module _ (fp pos : ℕ) (probe : Bool) (b : BucketBase) (tidy : IsTidy b) (lt : pos < 4) where
  -- The pointer that `SetStash` takes.
  abbrev free : ℕ
  free = ctz 32 (bit_not32 b.stash_busy)

  free-idle : testbit b.stash_busy free ≡ false
  free-idle =
      let lowest =
        ctz-IsLowest 32 (bit_not32 b.stash_busy) 8 (omega arith)
          (ground (arith, testbit-bit_not32 b.stash_busy 8, tidy.fits 8)) in
      ground (arith, lowest.is_set, lowest.first, testbit-bit_not32 b.stash_busy free)

  -- What `SetStash` writes to pointer `free`.
  abbrev taken : BucketBase
  taken = record b {
    stash_arr = update b.stash_arr free fp;
    stash_busy = u8 (bit_or b.stash_busy (shl 1 free));
    stash_probe_mask = u8 (bit_or b.stash_probe_mask (shl (to_nat probe) free));
    stash_pos =
        u8 (bit_or (bit_and b.stash_pos (bit_not32 (shl 3 (free * 2)))) (shl pos (free * 2)));
  }

  busy-taken :
      (i : ℕ) → testbit (taken.stash_busy) i ≡ (testbit b.stash_busy i || (i == free)) && ltb i 8
  busy-taken i = ground (
    arith,
    testbit-u8 (bit_or b.stash_busy (shl 1 free)) i,
    testbit-bit_or b.stash_busy (shl 1 free) i,
    testbit-shl_one free i,
  )

  probe-taken :
      (i : ℕ)
      → testbit (taken.stash_probe_mask) i
        ≡ (testbit b.stash_probe_mask i || (probe && (i == free))) && ltb i 8
  probe-taken i = ground (
    arith,
    testbit-u8 (bit_or b.stash_probe_mask (shl (to_nat probe) free)) i,
    testbit-bit_or b.stash_probe_mask (shl (to_nat probe) free) i,
    testbit-shl_bit probe free i,
  )

  taken-Stored : free < 4 → Stored fp pos probe b taken
  unfolding pointers
  taken-Stored small = record {
    tidy = record {
      fits = λ i le. ground (arith, busy-taken i);
      idle = λ i l off. ground (arith, busy-taken i, probe-taken i, tidy.idle i l);
    };
    count = λ pr q.
        let rest = sum_below_change_in 4 (pointer b pr q) (pointer taken pr q) free small (λ i l ne.
          ground (
            arith,
            busy-taken i,
            probe-taken i,
            write_pair-other b.stash_pos free pos i lt l ne,
          )) in
        let before : pointer b pr q free ≡ 0 = ground (arith, free-idle) in
        let after : pointer taken pr q free ≡ counted pr probe (q fp pos) = ground (
          arith,
          busy-taken free,
          probe-taken free,
          free-idle,
          tidy.idle free small free-idle,
          write_pair_self b.stash_pos free pos lt small,
        ) in
        omega (arith, rest, before, after);
    overflow = refl;
    present = has_stash-testbit taken ∙ ground (arith, busy-taken 4) ∙ sym (has_stash-testbit b);
  }

  -- `SetStash` fails only where all four pointers are in use.
  pub set_stash-full :
      set_stash fp pos probe b ≡ none → (i : ℕ) → i < 4 → testbit b.stash_busy i ≡ true
  unfolding set_stash
  set_stash-full e i lt = elim (Bool-cases (leb 4 free)) [
    | inl full ↦ ground (
      arith,
      full,
      below-ctz 32 (bit_not32 b.stash_busy) i (ground (arith, full)),
      testbit-bit_not32 b.stash_busy i,
    )
    | inr room ↦ absurd (cc (rw room at e))
  ]

  -- `SetStash`, where it finds a free pointer, stores one more.
  pub set_stash-Stored :
      (b' : BucketBase) → set_stash fp pos probe b ≡ some b' → Stored fp pos probe b b'
  unfolding set_stash
  set_stash-Stored b' e = elim (Bool-cases (leb 4 free)) [
    | inl full ↦ absurd (cc (rw full at e))
    | inr room ↦
        subst (Stored fp pos probe b) (ap (λ o. elim o [ some x ↦ x | none ↦ b ]) (rw room at e))
          (taken-Stored (ground arith))
  ]
