-- ===== src/DashTable/Segment/Stash.antt =====
-- The references to the entries in the stash buckets: the invariant that lets `FindIt` trust them.
pub mod Sums
pub mod Frame
pub mod Referring
pub mod Releasing
use storage_engine.Base.{ℕ, ◌+◌, ◌≤◌, ◌<◌, ◌≡◌, Bool, true, false, ◌&&◌, ◌==◌, sum_below}
use storage_engine.DashTable.Bucket.{Bucket, BucketBase}
use storage_engine.DashTable.Bucket.Base.{has_stash}
use storage_engine.DashTable.Bucket.Insert.{count}
use storage_engine.DashTable.Bucket.Counting.{Test, IsTidy}
use storage_engine.DashTable.Bucket.Balance.{refers}
use storage_engine.DashTable.Bucket.Release.{any}
use storage_engine.DashTable.Segment.Defs.{Policy, Segment, fingerprint, home_index, next_bid}

module _ {ℓ} {K V : Type ℓ} (p : Policy) (hash_fn : K → ℕ) where
  -- An entry whose home is `y`, and that a test on its fingerprint and its stash bucket accepts.
  abbrev pub belongs : ℕ → Test → ℕ → K → V → Bool
  belongs y q pos k v = (home_index p (hash_fn k) == y) && q (fingerprint (hash_fn k)) pos

  -- How many of them stand in the stash.
  unfoldable pub stashed : ℕ → Test → Segment K V → ℕ
  stashed y q s =
      sum_below 4 (λ pos. count p.slot_num (belongs y q pos) (s.bucket (p.bucket_num + pos)))

  -- The references that bucket `y` and its neighbour hold to such entries.
  abbrev pub references : ℕ → Test → Segment K V → ℕ
  references y q s = refers ((s.bucket y).base) ((s.bucket (next_bid p y)).base) q

  -- At home bucket `y` there are no more references of a sort than entries, the entries without a
  -- reference are counted, and a bucket without the mark has no entry in the stash.
  pub record IsBalancedAt (s : Segment K V) (y : ℕ) : Type 0 where
    pub below : (q : Test) → references y q s ≤ stashed y q s
    pub all : stashed y any s ≡ references y any s + (s.bucket y).overflow_count
    pub present : has_stash ((s.bucket y).base) ≡ false → stashed y any s ≡ 0

  pub record IsBalanced (s : Segment K V) : Type 0 where
    pub tidy : (l : ℕ) → IsTidy ((s.bucket l).base)
    pub balance : (y : ℕ) → y < p.bucket_num → IsBalancedAt s y
