-- ===== src/DashTable/Segment/Lookup.antt =====
-- `FindIt`.
use storage_engine.Base.{ℕ, zero, suc, ◌+◌, Bool, true, false, Option, none, some, if◌then◌else◌}
use storage_engine.DashTable.Bucket.{Bucket, find_by_fp}
use storage_engine.DashTable.Bucket.Base.{has_stash, has_stash_overflow}
use storage_engine.DashTable.Bucket.Stash.{iterate_stash}
use storage_engine.DashTable.Segment.Defs.{
  Policy, Iterator, Segment, fingerprint, home_index, next_bid, stash_bucket_num,
}

module _ {ℓ} {K V : Type ℓ} (p : Policy) (pred : K → Bool) where
  -- `stash_cb`, at the stash bucket `pos`.
  unfoldable pub in_stash : ℕ → Segment K V → ℕ → Option ℕ
  in_stash fp s pos = find_by_fp p.slot_num fp false pred (s.bucket (pos + p.bucket_num))

  -- The loop over the stash buckets from `i` on, where references have overflowed.
  unfoldable pub scan_stash : ℕ → ℕ → ℕ → Segment K V → Option Iterator
  unfolding in_stash
  scan_stash zero i fp s = none
  scan_stash (suc rounds) i fp s =
      let rest = scan_stash rounds (suc i) fp s in
      elim (in_stash fp s i) [
        | some sid ↦ some (record { index = p.bucket_num + i; slot = sid })
        | none ↦ rest
      ]

  -- The references of the bucket, then those that its neighbour holds for it.
  unfoldable pub follow_stash : ℕ → Bucket K V → Bucket K V → Segment K V → Option Iterator
  unfolding in_stash
  follow_stash fp target probe s =
      elim (iterate_stash fp false (λ _ pos. in_stash fp s pos) target.base) [
        | some found ↦ some (record { index = p.bucket_num + found.0; slot = found.1 })
        | none ↦ elim (iterate_stash fp true (λ _ pos. in_stash fp s pos) probe.base) [
          | some found ↦ some (record { index = p.bucket_num + found.0; slot = found.1 })
          | none ↦ none
        ]
      ]

  unfoldable pub find_stashed : ℕ → Bucket K V → Bucket K V → Segment K V → Option Iterator
  unfolding scan_stash follow_stash
  find_stashed fp target probe s =
      if has_stash target.base
      then (if has_stash_overflow target.base
          then scan_stash stash_bucket_num 0 fp s
          else follow_stash fp target probe s)
      else none

  unfoldable pub find_it : ℕ → Segment K V → Option Iterator
  unfolding find_stashed
  find_it hash s =
      let bid = home_index p hash in
      let nid = next_bid p bid in
      let fp = fingerprint hash in
      elim (find_by_fp p.slot_num fp false pred (s.bucket bid)) [
        | some sid ↦ some (record { index = bid; slot = sid })
        | none ↦ elim (find_by_fp p.slot_num fp true pred (s.bucket nid)) [
          | some sid ↦ some (record { index = nid; slot = sid })
          | none ↦ find_stashed fp (s.bucket bid) (s.bucket nid) s
        ]
      ]
