-- ===== src/DashTable/Segment/Insertion.antt =====
-- `MoveToOther`, `InsertUniq` and `Insert`. The callback on moves is that of the table's default
-- policy, which does nothing.
pub mod Steps
pub mod Stages
pub mod Total
pub mod Depths
use storage_engine.Base.{
  ℕ, zero, suc, ◌+◌, ◌%◌, Bool, true, false, ◌&&◌, not, Option, none, some, ltb, ◌==◌,
  if◌then◌else◌,
}
use storage_engine.Base.Words.{ctz}
use storage_engine.DashTable.Bucket.{Bucket, insert, try_insert, delete}
use storage_engine.DashTable.Bucket.Base.{size, get_probe}
use storage_engine.DashTable.Bucket.Stash.{set_stash_ptr}
use storage_engine.DashTable.Segment.Defs.{
  Policy, Iterator, Segment, fingerprint, home_index, next_bid, prev_bid, set_bucket,
  stash_bucket_num,
}
use storage_engine.DashTable.Segment.Lookup.{find_it}

module _ {ℓ} {K V : Type ℓ} (p : Policy) where
  -- `none` where the method returns -1; else the slot of `from` that it has freed.
  unfoldable pub move_to_other : Bool → ℕ → ℕ → Segment K V → Option (ℕ × Segment K V)
  move_to_other own_items from to s =
      let src = s.bucket from in
      let mask = get_probe p.slot_num (not own_items) src.base in
      let src_slot = ctz 32 mask in
      if mask == 0
      then none
      else elim (try_insert p.slot_num (src.key src_slot) (src.value src_slot)
          (src.finger_arr src_slot) own_items (s.bucket to)) [
            | some (dst_slot, there) ↦
                let moved = set_bucket s to there in
                some (src_slot, set_bucket moved from (delete src_slot (moved.bucket from)))
            | none ↦ none
          ]

  -- A displacement out of bucket `from`, and the new entry in the slot that is free then.
  unfoldable pub displace :
      Bool → ℕ → ℕ → K → V → ℕ → Bool → Segment K V → Option (Iterator × Segment K V)
  unfolding move_to_other
  displace own_items from to k v fp probe s = elim (move_to_other own_items from to s) [
    | some (slot, moved) ↦ some (
      record { index = from; slot = slot },
      set_bucket moved from (insert slot k v fp probe (moved.bucket from)),
    )
    | none ↦ none
  ]

  -- `target.SetStashPtr(stash_pos, meta_hash, &neighbor)`.
  unfoldable pub refer : ℕ → ℕ → ℕ → Segment K V → Segment K V
  refer bid stash_pos fp s =
      let nid = next_bid p bid in
      let (base, next) = set_stash_ptr stash_pos fp ((s.bucket bid).base) ((s.bucket nid).base) in
      let s' = set_bucket s bid (record (s.bucket bid) { base = base }) in
      set_bucket s' nid (record (s'.bucket nid) { base = next })

  -- The loop over the stash buckets, from round `i` on.
  unfoldable pub insert_stash :
      ℕ → ℕ → ℕ → K → V → ℕ → Segment K V → Option (Iterator × Segment K V)
  unfolding refer
  insert_stash zero i bid k v fp s = none
  insert_stash (suc rounds) i bid k v fp s =
      let stash_pos = (bid + i) % stash_bucket_num in
      let rest = insert_stash rounds (suc i) bid k v fp s in
      elim (try_insert p.slot_num k v fp false (s.bucket (p.bucket_num + stash_pos))) [
        | some (slot, b) ↦ some (
          record { index = p.bucket_num + stash_pos; slot = slot },
          refer bid stash_pos fp (set_bucket s (p.bucket_num + stash_pos) b),
        )
        | none ↦ rest
      ]

  -- `TryInsertToBucket` on bucket `i`.
  unfoldable pub insert_at : ℕ → K → V → ℕ → Bool → Segment K V → Option (Iterator × Segment K V)
  insert_at i k v fp probe s = elim (try_insert p.slot_num k v fp probe (s.bucket i)) [
    | some (slot, b) ↦ some (record { index = i; slot = slot }, set_bucket s i b)
    | none ↦ none
  ]

  -- What `InsertUniq` does when the bucket it tries first, and without `spread` the neighbour
  -- too, are full.
  unfoldable pub insert_crowded : ℕ → K → V → ℕ → Segment K V → Option (Iterator × Segment K V)
  unfolding displace insert_stash
  insert_crowded bid k v fp s =
      let nid = next_bid p bid in
      elim (displace true nid (next_bid p nid) k v fp true s) [
        | some r ↦ some r
        | none ↦ elim (displace false bid (prev_bid p bid) k v fp false s) [
          | some r ↦ some r
          | none ↦ insert_stash stash_bucket_num 0 bid k v fp s
        ]
      ]

  unfoldable pub insert_uniq : K → V → ℕ → Bool → Segment K V → Option (Iterator × Segment K V)
  insert_uniq k v hash spread s =
      let bid = home_index p hash in
      let nid = next_bid p bid in
      let fp = fingerprint hash in
      let probe = spread && ltb (size ((s.bucket nid).base)) (size ((s.bucket bid).base)) in
      elim (insert_at (if probe then nid else bid) k v fp probe s) [
        | some r ↦ some r
        | none ↦
            if spread then insert_crowded bid k v fp s else elim (insert_at nid k v fp true s) [
              | some r ↦ some r
              | none ↦ insert_crowded bid k v fp s
            ]
      ]

  -- `Insert`: the Boolean says whether the entry is new. `none` where no room was found.
  unfoldable pub insert_unless_found :
      K → V → ℕ → (K → Bool) → Segment K V → Option (Iterator × Bool × Segment K V)
  insert_unless_found k v hash pred s = elim (find_it p pred hash s) [
    | some it ↦ some (it, false, s)
    | none ↦ elim (insert_uniq k v hash true s) [ some r ↦ some (r.0, true, r.1) | none ↦ none ]
  ]
