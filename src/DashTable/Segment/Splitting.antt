-- ===== src/DashTable/Segment/Splitting.antt =====
-- `Split`: the entries whose next hash bit is one go to the new segment, and stash entries that
-- stay are moved back to a regular bucket where there is room. Its callback on moves does nothing.
pub mod Masked
pub mod Shares
pub mod Steps
pub mod Moves
pub mod Sweep
pub mod Turn
pub mod Whole
pub mod Halves
use storage_engine.Base.{
  ℕ, zero, suc, ◌+◌, ◌-◌, Bool, false, not, bit_or, none, some, if◌then◌else◌,
}
use storage_engine.Base.Words.{testbit, shl, shr}
use storage_engine.DashTable.Bucket.{for_each_slot, clear_slots}
use storage_engine.DashTable.Segment.Defs.{Policy, Segment, set_bucket, stash_bucket_num}
use storage_engine.DashTable.Segment.Insertion.{insert_uniq}
use storage_engine.DashTable.Segment.Removal.{remove_stash_reference, try_move_from_stash}

-- The two segments and the mask of the slots that have moved.
pub record SplitState {ℓ} (K V : Type ℓ) : Type ℓ where
  pub source : Segment K V
  pub dest : Segment K V
  pub invalid_mask : ℕ

-- `is_mine`, at the depth after the increment.
unfoldable pub is_mine : ℕ → ℕ → Bool
is_mine depth hash = not (testbit (shr hash (64 - depth)) 0)

module _ {ℓ} {K V : Type ℓ} (p : Policy) (hash_fn : K → ℕ) where
  -- `dest_right->InsertUniq(..., false, ...)`, which the method asserts to succeed.
  unfoldable pub send : K → V → Segment K V → Segment K V
  send k v dest = elim (insert_uniq p k v (hash_fn k) false dest) [ some r ↦ r.1 | none ↦ dest ]

  -- The first callback, for slot `slot` of the regular bucket `i`.
  unfoldable pub split_regular_slot : ℕ → ℕ → Bool → SplitState K V → SplitState K V
  unfolding send
  split_regular_slot i slot probe st =
      let b = st.source.bucket i in
      let k = b.key slot in
      if is_mine st.source.local_depth (hash_fn k) then st else record {
        source = st.source;
        dest = send k (b.value slot) st.dest;
        invalid_mask = bit_or st.invalid_mask (shl 1 slot);
      }

  -- The second callback, for slot `slot` of stash bucket `i`.
  unfoldable pub split_stash_slot : ℕ → ℕ → Bool → SplitState K V → SplitState K V
  unfolding send
  split_stash_slot i slot probe st =
      let b = st.source.bucket (p.bucket_num + i) in
      let k = b.key slot in
      if is_mine st.source.local_depth (hash_fn k)
      then elim (try_move_from_stash p i slot (hash_fn k) st.source) [
        | some r ↦ record {
          source = r.1;
          dest = st.dest;
          invalid_mask = bit_or st.invalid_mask (shl 1 slot);
        }
        | none ↦ st
      ]
      else record {
        source = remove_stash_reference p i (hash_fn k) st.source;
        dest = send k (b.value slot) st.dest;
        invalid_mask = bit_or st.invalid_mask (shl 1 slot);
      }

  -- `ForEachSlot` on bucket `bid`, then `ClearSlots(invalid_mask)`.
  unfoldable pub split_bucket :
      ℕ
      → (ℕ → Bool → SplitState K V → SplitState K V)
      → Segment K V × Segment K V
      → Segment K V × Segment K V
  split_bucket bid cb (source, dest) =
      let st =
        for_each_slot p.slot_num cb (source.bucket bid)
          (record { source = source; dest = dest; invalid_mask = 0 }) in
      (set_bucket st.source bid (clear_slots st.invalid_mask (st.source.bucket bid)), st.dest)

  -- The two loops, with `rounds` buckets to go.
  unfoldable pub split_regular : ℕ → ℕ → Segment K V × Segment K V → Segment K V × Segment K V
  unfolding split_bucket split_regular_slot
  split_regular zero i segs = segs
  split_regular (suc rounds) i segs =
      split_regular rounds (suc i) (split_bucket i (split_regular_slot i) segs)

  unfoldable pub split_stash : ℕ → ℕ → Segment K V × Segment K V → Segment K V × Segment K V
  unfolding split_bucket split_stash_slot
  split_stash zero i segs = segs
  split_stash (suc rounds) i segs =
      split_stash rounds (suc i) (split_bucket (p.bucket_num + i) (split_stash_slot i) segs)

  -- The source and `dest_right` afterwards.
  unfoldable pub split : Segment K V → Segment K V → Segment K V × Segment K V
  unfolding split_regular split_stash
  split source dest =
      let depth = source.local_depth + 1 in
      split_stash stash_bucket_num 0 (
        split_regular p.bucket_num 0
          (record source { local_depth = depth }, record dest { local_depth = depth }))
