-- ===== src/DashTable/Segment/Traversal.antt =====
-- `TraverseAll`, `TraverseLogicalBucket` and `FindValidStartingFrom`. A callback works on a state.
use storage_engine.Base.{
  ℕ, zero, suc, ◌+◌, ◌-◌, Bool, true, false, not, Option, none, some, ◌==◌, if◌then◌else◌,
}
use storage_engine.Base.Words.{shr, ctz}
use storage_engine.DashTable.Bucket.{for_each_slot}
use storage_engine.DashTable.Bucket.Base.{get_busy, get_probe, has_stash}
use storage_engine.DashTable.Segment.Defs.{
  Policy, Iterator, Segment, home_index, next_bid, stash_bucket_num, total_buckets,
}

module _ {κ} {S : Type κ} (cb : Iterator → S → S) where
  -- A callback that runs where `test` holds, and notes in `found` that it ran.
  unfoldable pub visit : ℕ → (ℕ → Bool → Bool) → ℕ → Bool → Bool × S → Bool × S
  visit bid test slot probe (found, s) =
      if test slot probe then (true, cb (record { index = bid; slot = slot }) s) else (found, s)

module _ {ℓ κ} {K V : Type ℓ} {S : Type κ} (p : Policy) (cb : Iterator → S → S) where
  -- Buckets from `i` on, with `rounds` to go.
  unfoldable pub traverse_from : ℕ → ℕ → Segment K V → S → S
  traverse_from zero i seg s = s
  traverse_from (suc rounds) i seg s =
      traverse_from rounds (suc i) seg (
        for_each_slot p.slot_num (λ slot _. cb (record { index = i; slot = slot })) (seg.bucket i)
          s)

  unfoldable pub traverse_all : Segment K V → S → S
  unfolding traverse_from
  traverse_all seg s = traverse_from (total_buckets p) 0 seg s

  -- The stash buckets from `j` on, with `rounds` to go.
  unfoldable pub traverse_stash : (K → ℕ) → ℕ → ℕ → ℕ → Segment K V → Bool × S → Bool × S
  unfolding visit
  traverse_stash hash_fn zero j bid seg r = r
  traverse_stash hash_fn (suc rounds) j bid seg r =
      let b = seg.bucket j in
      traverse_stash hash_fn rounds (suc j) bid seg (
        for_each_slot p.slot_num (visit cb j (λ slot _. home_index p (hash_fn (b.key slot)) == bid))
          b r)

  -- Whether an entry was found, and the state.
  unfoldable pub traverse_logical_bucket : (K → ℕ) → ℕ → Segment K V → S → Bool × S
  unfolding visit traverse_stash
  traverse_logical_bucket hash_fn bid seg s =
      let b = seg.bucket bid in
      let nid = next_bid p bid in
      let next = seg.bucket nid in
      let own =
        if get_probe p.slot_num false b.base == 0
        then (false, s)
        else for_each_slot p.slot_num (visit cb bid (λ _ probe. not probe)) b (false, s) in
      let probing =
        if get_probe p.slot_num true next.base == 0
        then own
        else for_each_slot p.slot_num (visit cb nid (λ _ probe. probe)) next own in
      if has_stash b.base
      then traverse_stash hash_fn stash_bucket_num p.bucket_num bid seg probing
      else probing

module _ {ℓ} {K V : Type ℓ} (p : Policy) where
  -- With `rounds` buckets to go: `bid + rounds` is the number of buckets.
  unfoldable pub seek_bucket : ℕ → ℕ → ℕ → Segment K V → Option Iterator
  seek_bucket zero bid slot seg = none
  seek_bucket (suc rounds) bid slot seg =
      let mask = shr (get_busy ((seg.bucket bid).base)) slot in
      let rest = seek_bucket rounds (suc bid) 0 seg in
      if mask == 0 then rest else some (record { index = bid; slot = slot + ctz 32 mask })

  unfoldable pub find_valid_starting_from : ℕ → ℕ → Segment K V → Option Iterator
  unfolding seek_bucket
  find_valid_starting_from bid slot seg = seek_bucket (total_buckets p - bid) bid slot seg
