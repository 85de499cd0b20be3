-- ===== src/DashTable/Bucket/Clearing.antt =====
-- `ClearStash`: it takes one pointer away, if there is one that refers to this entry.
use storage_engine.Base.{
  ℕ, ◌+◌, ◌<◌, ◌≡◌, refl, sym, ap, ◌∙◌, subst, bit_and, Bool, true, ◌&&◌, not, to_nat, ◌==◌,
  if◌then◌else◌, none, some, Bool-cases, Option-cases, inl, inr, sum_below_change_in,
  sum_below-eq-zero, arith,
}
use storage_engine.Base.Words.{
  testbit, shl, bit_not32, testbit-bit_and, testbit-bit_not32, testbit-shl_one, pair,
  without_pair-other,
}
use storage_engine.DashTable.Bucket.Base.{BucketBase, has_stash}
use storage_engine.DashTable.Bucket.Stash.{iterate_stash, clear_stash, drop_pointer}
use storage_engine.DashTable.Bucket.References.{
  kind, IsMatch, iterate_stash-IsHit, iterate_stash-misses,
}
use storage_engine.DashTable.Bucket.Counting.{
  Test, pointer, pointers, counted, IsTidy, has_stash-testbit,
}

-- `b'` has the pointers of `b` but for one.
pub record Dropped (fp pos : ℕ) (probe : Bool) (b b' : BucketBase) : Type 0 where
  pub tidy : IsTidy b'
  pub count :
      (pr : Bool) (q : Test) → pointers b pr q ≡ pointers b' pr q + counted pr probe (q fp pos)
  pub overflow : b'.overflow_count ≡ b.overflow_count
  pub present : has_stash b' ≡ has_stash b

-- The test for one entry.
abbrev pub exactly : ℕ → ℕ → Test
exactly fp pos f p = (f == fp) && (p == pos)

module _ (b : BucketBase) (tidy : IsTidy b) where
  without-bit :
      (x i j : ℕ)
      → j < 32
      → testbit (bit_and x (bit_not32 (shl 1 i))) j ≡ testbit x j && not (j == i)
  without-bit x i j lt = ground (
    arith,
    testbit-bit_and x (bit_not32 (shl 1 i)) j,
    testbit-bit_not32 (shl 1 i) j,
    testbit-shl_one i j,
  )

  busy-drop :
      (i j : ℕ) → testbit ((drop_pointer i b).stash_busy) j ≡ testbit b.stash_busy j && not (j == i)
  unfolding drop_pointer
  busy-drop i j = ground (
    arith,
    without-bit b.stash_busy i j,
    testbit-bit_and b.stash_busy (bit_not32 (shl 1 i)) j,
    tidy.fits j,
  )

  -- The count of a pointer that is of kind `probe`.
  before_lem :
      (pr probe accepted marked busy test : Bool)
      → busy ≡ true
      → (if probe then marked else not marked) ≡ true
      → test ≡ accepted
      → to_nat (busy && (if pr then marked else not marked) && test) ≡ counted pr probe accepted
  before_lem pr probe accepted marked busy test on mine same = ground arith

  drop_pointer-Dropped :
      (fp pos : ℕ) (probe : Bool) (i : ℕ)
      → i < 4
      → IsMatch fp b (kind b probe) i
      → pair b.stash_pos i ≡ pos
      → Dropped fp pos probe b (drop_pointer i b)
  unfolding pointers drop_pointer
  drop_pointer-Dropped fp pos probe i lt (on, mine, print) place =
      let b' = drop_pointer i b in
      let probing = without-bit b.stash_probe_mask i in
      let not_probe = testbit-bit_not32 b.stash_probe_mask i in
      record {
        tidy = record {
          fits = λ j le. ground (arith, busy-drop i j, tidy.fits j);
          idle = λ j l off. ground (arith, busy-drop i j, probing j, tidy.idle j l);
        };
        count = λ pr q.
            let rest = sum_below_change_in 4 (pointer b' pr q) (pointer b pr q) i lt (λ j l ne.
              ground (arith, busy-drop i j, probing j, without_pair-other b.stash_pos i j l ne)) in
            let after : pointer b' pr q i ≡ 0 = ground (arith, busy-drop i i) in
            let accepted : q (b.stash_arr i) (pair b.stash_pos i) ≡ q fp pos =
              let same : b.stash_arr i ≡ fp = ground arith in rw (same, place) in
            let before : pointer b pr q i ≡ counted pr probe (q fp pos) =
              before_lem pr probe (q fp pos) (testbit b.stash_probe_mask i) (testbit b.stash_busy i)
                (q (b.stash_arr i) (pair b.stash_pos i)) on (ground arith) accepted in
            omega (arith, rest, before, after);
        overflow = refl;
        present = has_stash-testbit b' ∙ ground (arith, busy-drop i 4) ∙ sym (has_stash-testbit b);
      }

  -- Where it finds one, it takes one away.
  pub cleared-Dropped :
      (fp pos : ℕ) (probe : Bool) (b' : BucketBase)
      → clear_stash fp pos probe b ≡ some b'
      → Dropped fp pos probe b b'
  unfolding clear_stash
  cleared-Dropped fp pos probe b' e =
      let func = λ (i p : ℕ). if p == pos then some (drop_pointer i b) else none in
      elim (Option-cases (iterate_stash fp probe func b)) [
        | inl none_left ↦ absurd (cc (e, none_left))
        | inr (r, found) ↦
            let hit = iterate_stash-IsHit fp func b probe r found in
            let result : some (r.1) ≡ some b' = rw (found, clear_stash) at e in
            elim (Bool-cases (r.0 == pos)) [
              | inl here ↦
                  subst (Dropped fp pos probe b)
                    (ap (λ o. elim o [ some x ↦ x | none ↦ b ]) ((rw here at hit.given) ∙ result))
                    (drop_pointer-Dropped fp pos probe hit.at hit.in_range hit.matching
                      (hit.place ∙ ground arith))
              | inr there ↦ absurd (cc (rw there at hit.given))
            ]
      ]

  -- Where `ClearStash` finds nothing, there is no pointer of this kind to this entry.
  pub not_cleared :
      (fp pos : ℕ) (probe : Bool)
      → clear_stash fp pos probe b ≡ none
      → pointers b probe (exactly fp pos) ≡ 0
  unfolding clear_stash pointers
  not_cleared fp pos probe e =
      let func = λ (i p : ℕ). if p == pos then some (drop_pointer i b) else none in
      elim (Option-cases (iterate_stash fp probe func b)) [
        | inr (r, found) ↦ absurd (cc (rw (found, clear_stash) at e))
        | inl nothing ↦ sum_below-eq-zero 4 (pointer b probe (exactly fp pos)) (λ i lt.
            elim (Bool-cases (pair b.stash_pos i == pos)) [
              | inr elsewhere ↦ ground (arith, elsewhere)
              | inl here ↦
                  let kind_test =
                    if probe
                    then testbit b.stash_probe_mask i
                    else not (testbit b.stash_probe_mask i) in
                  elim (Bool-cases (testbit b.stash_busy i && kind_test && (b.stash_arr i == fp))) [
                    | inr off ↦ ground (arith, off)
                    | inl on ↦
                        let flipped = testbit-bit_not32 b.stash_probe_mask i in
                        let miss =
                          iterate_stash-misses fp func b probe nothing i lt
                            (ground (arith, on), ground (arith, on, flipped), ground (arith, on)) in
                        absurd (cc (rw here at miss))
                  ]
            ])
      ]
