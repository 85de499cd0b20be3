-- ===== src/DashTable/Segment/Contents.antt =====
-- The entries of a segment as a multiset: how many of them a test accepts, for every test.
use storage_engine.Base.{
  ℕ, ◌+◌, ◌<◌, ◌≡◌, sym, ap, Bool, true, to_nat, update, update_self, update_ne, sum_below,
  sum_below_change, sum_below_congr, arith,
}
use storage_engine.DashTable.SlotBitmap.Bits.{is_busy}
use storage_engine.DashTable.Bucket.{Bucket}
use storage_engine.DashTable.Bucket.Insert.{count}
use storage_engine.DashTable.Segment.Defs.{Policy, Segment, Iterator, set_bucket, total_buckets}
use storage_engine.DashTable.Segment.Placement.{SameEntries, AllPlaced}

module _ {ℓ} {K V : Type ℓ} where
  pub count-SameEntries :
      (n : ℕ) (q : K → V → Bool) {b b' : Bucket K V} → SameEntries b b' → count n q b' ≡ count n q b
  unfolding count
  count-SameEntries n q same = rw (same.slotb, same.key, same.value)

module _ {ℓ} {K V : Type ℓ} (p : Policy) where
  -- Entries of the whole segment.
  unfoldable pub total : (K → V → Bool) → Segment K V → ℕ
  total q s = sum_below (total_buckets p) (λ i. count p.slot_num q (s.bucket i))

  -- Writing one bucket changes the total by that bucket's change.
  pub total-set_bucket :
      (q : K → V → Bool) (s : Segment K V) (i : ℕ) (b : Bucket K V)
      → i < total_buckets p
      → total q (set_bucket s i b) + count p.slot_num q (s.bucket i)
        ≡ total q s + count p.slot_num q b
  unfolding total
  total-set_bucket q s i b lt =
      let rest =
        sum_below_change (total_buckets p) (λ j. count p.slot_num q (s.bucket j))
          (λ j. count p.slot_num q (update s.bucket i b j)) i lt
          (λ j ne. ap (count p.slot_num q) (sym (update_ne s.bucket i j b ne))) in
      let here = ap (count p.slot_num q) (update_self s.bucket i b) in omega (arith, rest, here)

  pub total-SameEntries :
      (q : K → V → Bool) (s s' : Segment K V)
      → ((i : ℕ) → SameEntries (s.bucket i) (s'.bucket i))
      → total q s' ≡ total q s
  unfolding total
  total-SameEntries q s s' same =
      sum_below_congr (total_buckets p) _ _ (λ i _. count-SameEntries p.slot_num q (same i))

-- The outcome of an insertion: the entry stands at `it`, every bucket is in order, and the
-- segment has the entries that it had and this one.
pub record Adds {ℓ} {K V : Type ℓ} (p : Policy) (hash_fn : K → ℕ) (k : K) (v : V) (s : Segment K V)
    (it : Iterator) (s' : Segment K V) : Type ℓ where
  pub index : it.index < total_buckets p
  pub slot : it.slot < p.slot_num
  pub busy : is_busy ((s'.bucket it.index).slotb) it.slot ≡ true
  pub key : (s'.bucket it.index).key it.slot ≡ k
  pub value : (s'.bucket it.index).value it.slot ≡ v
  pub placed : AllPlaced p hash_fn s'
  pub contents : (q : K → V → Bool) → total p q s' ≡ total p q s + to_nat (q k v)
