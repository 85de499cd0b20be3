-- ===== src/DashTable/Segment/Defs.antt =====
-- The policy's sizes, the segment's data, and the arithmetic of hashes and bucket numbers.
use storage_engine.Base.{ℕ, ◌+◌, ◌-◌, ◌%◌, ◌≤◌, ◌<◌, bit_and, ltb, ◌==◌, if◌then◌else◌, update}
use storage_engine.Base.Words.{shr}
use storage_engine.DashTable.Bucket.{Bucket, clear}

-- `kSlotNum` and `kBucketNum`.
pub record Policy : Type 0 where
  pub slot_num : ℕ
  pub bucket_num : ℕ

-- The class's static assertions, and that a bucket differs from its neighbours.
pub record IsPolicy (p : Policy) : Type 0 where
  pub slots : p.slot_num ≤ 16
  pub some_slot : 0 < p.slot_num
  pub neighbours : 2 ≤ p.bucket_num
  pub bytes : p.bucket_num + 4 < 255

abbrev pub default_policy : Policy
default_policy = record { slot_num = 12; bucket_num = 64 }

abbrev pub prime_policy : Policy
prime_policy = record { slot_num = 14; bucket_num = 56 }

-- `kStashBucketNum` and `kTotalBuckets`.
abbrev pub stash_bucket_num : ℕ
stash_bucket_num = 4

abbrev pub total_buckets : Policy → ℕ
total_buckets p = p.bucket_num + stash_bucket_num

-- `Iterator`, where it is found; `Iterator{}` is `none`.
pub record Iterator : Type 0 where
  pub index : ℕ
  pub slot : ℕ

pub record Segment {ℓ} (K V : Type ℓ) : Type ℓ where
  pub bucket : ℕ → Bucket K V
  pub local_depth : ℕ
  pub segment_id : ℕ

-- `hash & kFpMask`.
unfoldable pub fingerprint : ℕ → ℕ
fingerprint hash = bit_and hash 255

unfoldable pub home_index : Policy → ℕ → ℕ
home_index p hash = shr hash 8 % p.bucket_num

unfoldable pub next_bid : Policy → ℕ → ℕ
next_bid p bid = if ltb bid (p.bucket_num - 1) then bid + 1 else 0

unfoldable pub prev_bid : Policy → ℕ → ℕ
prev_bid p bid = if bid == 0 then p.bucket_num - 1 else bid - 1

module _ {ℓ} {K V : Type ℓ} where
  -- A write through a reference to bucket `i`.
  abbrev pub set_bucket : Segment K V → ℕ → Bucket K V → Segment K V
  set_bucket s i b = record s { bucket = update s.bucket i b }

  -- `Clear`.
  unfoldable pub clear_segment : Policy → Segment K V → Segment K V
  unfolding clear
  clear_segment p s = record s {
    bucket = λ i. if ltb i (total_buckets p) then clear (s.bucket i) else s.bucket i;
  }
