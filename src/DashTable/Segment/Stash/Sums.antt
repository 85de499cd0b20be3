-- ===== src/DashTable/Segment/Stash/Sums.antt =====
-- Counting references and stash entries by tests: a count splits by a second test, and is bounded.
use storage_engine.Base.{
  ℕ, ◌+◌, ◌≤◌, ◌≡◌, Bool, true, false, ◌&&◌, not, to_nat, sum_below-add, sum_below_mono,
  sum_below_ones, sum_below_four, arith,
}
use storage_engine.DashTable.Bucket.{Bucket, BucketBase}
use storage_engine.DashTable.Bucket.Insert.{count, entry}
use storage_engine.DashTable.Bucket.Counting.{Test, pointers}
use storage_engine.DashTable.Bucket.Balance.{refers}
use storage_engine.DashTable.Segment.Defs.{Policy, Segment}
use storage_engine.DashTable.Segment.Stash.{belongs, stashed}

abbrev pub both : Test → Test → Test
both q r f pos = q f pos && r f pos

abbrev pub except : Test → Test → Test
except q r f pos = q f pos && not (r f pos)

pointers-split :
    (b : BucketBase) (pr : Bool) (q r : Test)
    → pointers b pr q ≡ pointers b pr (both q r) + pointers b pr (except q r)
unfolding pointers
pointers-split b pr q r = sum_below-add 4 _ _ _ (λ i lt. ground arith)

pub refers-split :
    (b next : BucketBase) (q r : Test)
    → refers b next q ≡ refers b next (both q r) + refers b next (except q r)
refers-split b next q r = omega (arith, pointers-split b false q r, pointers-split next true q r)

pointers_mono :
    (b : BucketBase) (pr : Bool) (q r : Test) → pointers b pr (both q r) ≤ pointers b pr r
unfolding pointers
pointers_mono b pr q r = sum_below_mono 4 _ _ (λ i lt. ground arith)

pub refers_mono : (b next : BucketBase) (q r : Test) → refers b next (both q r) ≤ refers b next r
refers_mono b next q r = omega (arith, pointers_mono b false q r, pointers_mono next true q r)

module _ {ℓ} {K V : Type ℓ} where
  count-split :
      (n : ℕ) (b : Bucket K V) (t u w : K → V → Bool)
      → ((k : K) (v : V) → to_nat (t k v) ≡ to_nat (u k v) + to_nat (w k v))
      → count n t b ≡ count n u b + count n w b
  unfolding count
  count-split n b t u w e = sum_below-add n _ _ _ (λ i lt. ground (arith, e (b.key i) (b.value i)))

  pub count-le : (n : ℕ) (q : K → V → Bool) (b : Bucket K V) → count n q b ≤ n
  unfolding count
  count-le n q b = sum_below_ones n (entry q b) (λ i. ground arith)

  module _ (p : Policy) (hash_fn : K → ℕ) (y : ℕ) (s : Segment K V) where
    pub stashed-split :
        (q r : Test)
        → stashed p hash_fn y q s
          ≡ stashed p hash_fn y (both q r) s + stashed p hash_fn y (except q r) s
    unfolding stashed
    stashed-split q r = sum_below-add 4 _ _ _ (λ pos lt.
        count-split p.slot_num (s.bucket (p.bucket_num + pos)) (belongs p hash_fn y q pos)
          (belongs p hash_fn y (both q r) pos) (belongs p hash_fn y (except q r) pos)
          (λ k v. ground arith))

    -- At most all the slots of the stash.
    pub stashed-le : (q : Test) → p.slot_num ≤ 16 → stashed p hash_fn y q s ≤ 64
    unfolding stashed
    stashed-le q small = omega (
      arith,
      small,
      sum_below_four _ p.slot_num
          (λ pos. count-le p.slot_num (belongs p hash_fn y q pos) (s.bucket (p.bucket_num + pos))),
    )
