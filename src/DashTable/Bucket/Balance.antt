-- ===== src/DashTable/Bucket/Balance.antt =====
-- `SetStashPtr` and `UnsetStashPtr` on a bucket and its neighbour: the references to the entries that
-- belong to the bucket stand in both, and those that have no place there are counted.
use storage_engine.Base.{
  ℕ, ◌+◌, ◌<◌, ◌≡◌, refl, ap, ◌∙◌, Bool, true, false, ◌&&◌, ◌||◌, to_nat, ◌==◌, if◌then◌else◌,
  Option-cases, inl, inr, sum_below_congr, arith,
}
use storage_engine.Base.Words.{testbit, u8, testbit-bit_or}
use storage_engine.DashTable.Bucket.Base.{BucketBase, has_stash}
use storage_engine.DashTable.Bucket.Stash.{set_stash, set_stash_ptr, mark_present, count_overflow}
use storage_engine.DashTable.Bucket.Counting.{
  Test, pointers, IsTidy, set_stash-Stored, set_stash-full, has_stash-testbit, testbit-16,
}

-- The references of a bucket to entries that a test accepts; `next` is its neighbour.
abbrev pub refers : BucketBase → BucketBase → Test → ℕ
refers b next q = pointers b false q + pointers next true q

-- What neither operation changes: the bucket's pointers for the bucket before, and the neighbour's
-- pointers for itself.
pub record Apart (b next b' next' : BucketBase) : Type 0 where
  pub tidy : IsTidy b'
  pub next_tidy : IsTidy next'
  pub marked : (q : Test) → pointers b' true q ≡ pointers b true q
  pub next_own : (q : Test) → pointers next' false q ≡ pointers next false q
  pub next_overflow : next'.overflow_count ≡ next.overflow_count
  pub next_present : has_stash next' ≡ has_stash next

-- The outcome of `SetStashPtr`: one more reference, or, if all pointers of both are in use, one more
-- that is counted only.
pub record Refers (fp pos : ℕ) (b next b' next' : BucketBase) : Type 0 where
  pub apart : Apart b next b' next'
  pub stored : Bool
  pub no_place :
      stored ≡ false
      → (i : ℕ) → i < 4
      → (testbit b.stash_busy i ≡ true) × (testbit next.stash_busy i ≡ true)
  pub count : (q : Test) → refers b' next' q ≡ refers b next q + to_nat (stored && q fp pos)
  pub overflow :
      b'.overflow_count ≡ (if stored then b.overflow_count else u8 (b.overflow_count + 1))
  pub present : has_stash b' ≡ true

busy-mark :
    (b : BucketBase) (i : ℕ)
    → testbit ((mark_present b).stash_busy) i ≡ testbit b.stash_busy i || (i == 4)
busy-mark b i = testbit-bit_or b.stash_busy 16 i ∙ ap (◌||◌ (testbit b.stash_busy i)) (testbit-16 i)

mark-IsTidy : (b : BucketBase) → IsTidy b → IsTidy (mark_present b)
mark-IsTidy b tidy = record {
  fits = λ i le. ground (arith, busy-mark b i, tidy.fits i);
  idle = λ i lt off. ground (arith, busy-mark b i, tidy.idle i lt);
}

pointers-mark :
    (b : BucketBase) (pr : Bool) (q : Test) → pointers (mark_present b) pr q ≡ pointers b pr q
unfolding pointers
pointers-mark b pr q = sum_below_congr 4 _ _ (λ i lt. ground (arith, busy-mark b i))

present-mark : (b : BucketBase) → has_stash (mark_present b) ≡ true
present-mark b = has_stash-testbit (mark_present b) ∙ ground (arith, busy-mark b 4)

pub pointers-overflow :
    (b : BucketBase) (n : ℕ) (pr : Bool) (q : Test)
    → pointers (record b { overflow_count = n }) pr q ≡ pointers b pr q
unfolding pointers
pointers-overflow b n pr q = refl

module _ (fp pos : ℕ) (b next : BucketBase) (tidy : IsTidy b) (next_tidy : IsTidy next)
    (lt : pos < 4) where
  -- `SetStashPtr` for a stash bucket below 4, on a bucket and its neighbour whose pointers are tidy:
  -- either one of them has one more pointer to this entry for the bucket, or all four pointers of both
  -- were in use and the overflow counter goes up by one modulo 256; the bucket is marked as having
  -- entries in the stash, and all other pointers stay.
  pub set_stash_ptr-Refers : let r = set_stash_ptr pos fp b next in Refers fp pos b next (r.0) (r.1)
  unfolding set_stash_ptr
  set_stash_ptr-Refers = elim (Option-cases (set_stash fp pos false b)) [
    | inr (b', e) ↦
        let st = set_stash-Stored fp pos false b tidy lt b' e in
        rw (e, set_stash_ptr)
          (record {
            apart = record {
              tidy = mark-IsTidy b' st.tidy;
              next_tidy = next_tidy;
              marked = λ q. ground (arith, pointers-mark b' true q, st.count true q);
              next_own = λ q. refl;
              next_overflow = refl;
              next_present = refl;
            };
            stored = true;
            no_place = λ h. absurd (cc h);
            count = λ q. ground (arith, pointers-mark b' false q, st.count false q);
            overflow = st.overflow;
            present = present-mark b';
          })
    | inl e ↦ elim (Option-cases (set_stash fp pos true next)) [
      | inr (next', e') ↦
          let st = set_stash-Stored fp pos true next next_tidy lt next' e' in
          rw (e, set_stash_ptr, e')
            (record {
              apart = record {
                tidy = mark-IsTidy b tidy;
                next_tidy = st.tidy;
                marked = pointers-mark b true;
                next_own = λ q. ground (arith, st.count false q);
                next_overflow = st.overflow;
                next_present = st.present;
              };
              stored = true;
              no_place = λ h. absurd (cc h);
              count = λ q. ground (arith, pointers-mark b false q, st.count true q);
              overflow = refl;
              present = present-mark b;
            })
      | inl e' ↦
          rw (e, set_stash_ptr, e')
            (record {
              apart = record {
                tidy =
                    mark-IsTidy (count_overflow b) (record { fits = tidy.fits; idle = tidy.idle });
                next_tidy = next_tidy;
                marked = λ q.
                    pointers-mark (count_overflow b) true q
                    ∙ pointers-overflow b (u8 (b.overflow_count + 1)) true q;
                next_own = λ q. refl;
                next_overflow = refl;
                next_present = refl;
              };
              stored = false;
              no_place = λ _ i below. (
                set_stash-full fp pos false b tidy lt e i below,
                set_stash-full fp pos true next next_tidy lt e' i below,
              );
              count = λ q. ground (
                arith,
                pointers-mark (count_overflow b) false q,
                pointers-overflow b (u8 (b.overflow_count + 1)) false q,
              );
              overflow = refl;
              present = present-mark (count_overflow b);
            })
    ]
  ]
