-- ===== src/DashTable/Bucket/Release.antt =====
-- `UnsetStashPtr` on a bucket and its neighbour.
use storage_engine.Base.{
  ℕ, ◌+◌, ◌<◌, ◌≡◌, refl, ap, ◌∙◌, bit_and, Bool, true, false, not, ◌&&◌, to_nat, ltb,
  if◌then◌else◌, Bool-cases, Option-cases, inl, inr, sum_below_congr, sum_below-eq-zero, arith,
}
use storage_engine.Base.Words.{
  testbit, bit_not32, u8, u8-mod, low_mask, testbit-bit_and, testbit-bit_not32, testbit-zero,
  testbit-low_mask,
}
use storage_engine.DashTable.Bucket.Base.{BucketBase, has_stash, stash_present_bit}
use storage_engine.DashTable.Bucket.Stash.{
  clear_stash, unset_stash_ptr, drop_reference, no_reference,
}
use storage_engine.DashTable.Bucket.Counting.{Test, pointer, pointers, IsTidy, testbit-16}
use storage_engine.DashTable.Bucket.Clearing.{exactly, cleared-Dropped, not_cleared}
use storage_engine.DashTable.Bucket.Balance.{refers, Apart, pointers-overflow}

-- The test that every entry passes.
abbrev pub any : Test
any _ _ = true

-- The outcome of the first half: one reference less, or, if there is none to this entry, one less of
-- those that are counted only.
pub record Drops (fp pos : ℕ) (b next b' next' : BucketBase) : Type 0 where
  pub apart : Apart b next b' next'
  pub dropped : Bool
  pub count : (q : Test) → refers b next q ≡ refers b' next' q + to_nat (dropped && q fp pos)
  pub absent : dropped ≡ false → refers b next (exactly fp pos) ≡ 0
  pub overflow :
      b'.overflow_count ≡ (if dropped then b.overflow_count else u8 (b.overflow_count + 255))

-- The outcome of the whole: the mark for having any is taken away only if there is none.
pub record Releases (fp pos : ℕ) (b next b' next' : BucketBase) : Type 0 where
  pub drops : Drops fp pos b next b' next'
  pub gone :
      has_stash b ≡ true
      → has_stash b' ≡ false
      → (refers b' next' any ≡ 0) × (b'.overflow_count ≡ 0)

module _ (fp pos : ℕ) (b next : BucketBase) (tidy : IsTidy b) (next_tidy : IsTidy next) where
  drop_reference-Drops :
      let r = drop_reference fp pos b next in
      Drops fp pos b next (r.0) (r.1) × (has_stash (r.0) ≡ has_stash b)
  unfolding drop_reference has_stash
  drop_reference-Drops = elim (Option-cases (clear_stash fp pos false b)) [
    | inr (b', e) ↦
        let d = cleared-Dropped b tidy fp pos false b' e in
        rw (e, drop_reference)
          (
            record {
              apart = record {
                tidy = d.tidy;
                next_tidy = next_tidy;
                marked = λ q. ground (arith, d.count true q);
                next_own = λ q. refl;
                next_overflow = refl;
                next_present = refl;
              };
              dropped = true;
              count = λ q. ground (arith, d.count false q);
              absent = λ h. absurd (cc h);
              overflow = d.overflow;
            },
            d.present,
          )
    | inl e ↦ elim (Option-cases (clear_stash fp pos true next)) [
      | inr (next', e') ↦
          let d = cleared-Dropped next next_tidy fp pos true next' e' in
          rw (e, drop_reference, e')
            (
              record {
                apart = record {
                  tidy = tidy;
                  next_tidy = d.tidy;
                  marked = λ q. refl;
                  next_own = λ q. ground (arith, d.count false q);
                  next_overflow = d.overflow;
                  next_present = d.present;
                };
                dropped = true;
                count = λ q. ground (arith, d.count true q);
                absent = λ h. absurd (cc h);
                overflow = refl;
              },
              refl,
            )
      | inl e' ↦
          let n = u8 (b.overflow_count + 255) in
          rw (e, drop_reference, e')
            (
              record {
                apart = record {
                  tidy = record { fits = tidy.fits; idle = tidy.idle };
                  next_tidy = next_tidy;
                  marked = pointers-overflow b n true;
                  next_own = λ q. refl;
                  next_overflow = refl;
                  next_present = refl;
                };
                dropped = false;
                count = λ q. ground (arith, pointers-overflow b n false q);
                absent = λ _. omega (
                  arith,
                  not_cleared b tidy fp pos false e,
                  not_cleared next next_tidy fp pos true e',
                );
                overflow = refl;
              },
              refl,
            )
    ]
  ]

testbit-15 : (i : ℕ) → testbit 15 i ≡ ltb i 4
unfolding low_mask
testbit-15 i = testbit-low_mask 4 i

-- Where `UnsetStashPtr` finds no reference, there is none.
no_reference-refers :
    (b next : BucketBase)
    → no_reference b next ≡ true
    → (refers b next any ≡ 0) × (b.overflow_count ≡ 0)
unfolding no_reference pointers
no_reference-refers b next none_left =
    let mine = bit_and b.stash_busy 15 in
    let theirs = bit_and next.stash_busy 15 in
    let e1 : bit_and mine (bit_not32 b.stash_probe_mask) ≡ 0 = ground arith in
    let e2 : bit_and theirs next.stash_probe_mask ≡ 0 = ground arith in
    let own : pointers b false any ≡ 0 = sum_below-eq-zero 4 (pointer b false any) (λ i lt. ground (
      arith,
      ap (λ x. testbit x i) e1,
      testbit-zero i,
      testbit-bit_and mine (bit_not32 b.stash_probe_mask) i,
      testbit-bit_and b.stash_busy 15 i,
      testbit-15 i,
      testbit-bit_not32 b.stash_probe_mask i,
    )) in
    let other : pointers next true any ≡ 0 = sum_below-eq-zero 4 (pointer next true any) (λ i lt.
      ground (
        arith,
        ap (λ x. testbit x i) e2,
        testbit-zero i,
        testbit-bit_and theirs next.stash_probe_mask i,
        testbit-bit_and next.stash_busy 15 i,
        testbit-15 i,
      )) in
    (omega (arith, own, other), ground arith)

-- `stash_busy_ &= ~kStashPresentBit`.
abbrev unmark : BucketBase → BucketBase
unmark b = record b { stash_busy = bit_and b.stash_busy (bit_not32 stash_present_bit) }

busy-unmark :
    (b : BucketBase) (i : ℕ) → i < 4 → testbit ((unmark b).stash_busy) i ≡ testbit b.stash_busy i
busy-unmark b i lt =
    ground
      (arith, testbit-bit_and b.stash_busy (bit_not32 16) i, testbit-bit_not32 16 i, testbit-16 i)

pointers-unmark :
    (b : BucketBase) (pr : Bool) (q : Test) → pointers (unmark b) pr q ≡ pointers b pr q
unfolding pointers
pointers-unmark b pr q = sum_below_congr 4 _ _ (λ i lt. ground (arith, busy-unmark b i lt))

unmark-IsTidy : (b : BucketBase) → IsTidy b → IsTidy (unmark b)
unmark-IsTidy b tidy = record {
  fits = λ i le. ground (arith, testbit-bit_and b.stash_busy (bit_not32 16) i, tidy.fits i);
  idle = λ i lt off. ground (arith, busy-unmark b i lt, tidy.idle i lt);
}

unmark-Drops :
    (fp pos : ℕ) (b next b' next' : BucketBase)
    → Drops fp pos b next b' next'
    → Drops fp pos b next (unmark b') next'
unmark-Drops fp pos b next b' next' d = record {
  apart = record {
    tidy = unmark-IsTidy b' d.apart.tidy;
    next_tidy = d.apart.next_tidy;
    marked = λ q. pointers-unmark b' true q ∙ d.apart.marked q;
    next_own = d.apart.next_own;
    next_overflow = d.apart.next_overflow;
    next_present = d.apart.next_present;
  };
  dropped = d.dropped;
  count = λ q. omega (arith, d.count q, pointers-unmark b' false q);
  absent = d.absent;
  overflow = d.overflow;
}

-- The outcome, with the counter modulo 256 as `drop_reference` computes it.
pub unset_stash_ptr-Releases :
    (fp pos : ℕ) (b next : BucketBase)
    → IsTidy b
    → IsTidy next
    → let r = unset_stash_ptr fp pos b next in Releases fp pos b next (r.0) (r.1)
unfolding unset_stash_ptr
unset_stash_ptr-Releases fp pos b next tidy next_tidy =
    let r = drop_reference fp pos b next in
    let (d, present) = drop_reference-Drops fp pos b next tidy next_tidy in
    elim (Bool-cases (no_reference (r.0) (r.1))) [
      | inl e ↦
          let (none_left, no_overflow) = no_reference-refers (r.0) (r.1) e in
          rw (e, unset_stash_ptr)
            (record {
              drops = unmark-Drops fp pos b next (r.0) (r.1) d;
              gone =
                  λ _ _. (omega (arith, none_left, pointers-unmark (r.0) false any), no_overflow);
            })
      | inr e ↦
          rw (e, unset_stash_ptr)
            (record { drops = d; gone = λ was is. absurd (cc (present, was, is)) })
    ]

-- The outcome where the counter is not 0 when it is counted down.
pub record Unrefers (fp pos : ℕ) (b next b' next' : BucketBase) : Type 0 where
  pub apart : Apart b next b' next'
  pub dropped : Bool
  pub count : (q : Test) → refers b next q ≡ refers b' next' q + to_nat (dropped && q fp pos)
  pub absent : dropped ≡ false → refers b next (exactly fp pos) ≡ 0
  pub overflow : b.overflow_count ≡ b'.overflow_count + to_nat (not dropped)
  pub gone :
      has_stash b ≡ true
      → has_stash b' ≡ false
      → (refers b' next' any ≡ 0) × (b'.overflow_count ≡ 0)

-- One less modulo 256 is one less, but for 0.
count_down :
    (dropped : Bool) (n n' : ℕ)
    → n < 256
    → (dropped ≡ false → 0 < n)
    → n' ≡ (if dropped then n else u8 (n + 255))
    → n ≡ n' + to_nat (not dropped)
count_down true n n' lt some_left e = omega (arith, e)
count_down false n n' lt some_left e = omega (arith, e, u8-mod (n + 255), some_left refl)

-- `UnsetStashPtr` on a bucket and its neighbour whose pointers are tidy and whose overflow counter is
-- below 256, and not 0 if neither has a pointer to this entry: one pointer to this entry goes, or, if
-- neither has one, the overflow counter goes down by one; all other pointers stay, and the bucket
-- loses its mark only if no pointer and no overflow is left.
pub unset_stash_ptr-Unrefers :
    (fp pos : ℕ) (b next : BucketBase)
    → IsTidy b
    → IsTidy next
    → b.overflow_count < 256
    → (refers b next (exactly fp pos) ≡ 0 → 0 < b.overflow_count)
    → let r = unset_stash_ptr fp pos b next in Unrefers fp pos b next (r.0) (r.1)
unset_stash_ptr-Unrefers fp pos b next tidy next_tidy lt some_left =
    let r = unset_stash_ptr fp pos b next in
    let out = unset_stash_ptr-Releases fp pos b next tidy next_tidy in
    let d = out.drops in
    record {
      apart = d.apart;
      dropped = d.dropped;
      count = d.count;
      absent = d.absent;
      overflow =
          count_down d.dropped b.overflow_count ((r.0).overflow_count) lt
            (λ h. some_left (d.absent h)) d.overflow;
      gone = out.gone;
    }
