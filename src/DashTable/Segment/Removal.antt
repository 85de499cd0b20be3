-- ===== src/DashTable/Segment/Removal.antt =====
-- `Delete`, `RemoveStashReference` and `TryMoveFromStash`.
use storage_engine.Base.{ℕ, ◌+◌, ◌-◌, true, false, Option, none, some, leb, if◌then◌else◌}
use storage_engine.DashTable.Bucket.{delete}
use storage_engine.DashTable.Bucket.Stash.{unset_stash_ptr}
use storage_engine.DashTable.Segment.Defs.{
  Policy, Iterator, Segment, fingerprint, home_index, next_bid, set_bucket,
}
use storage_engine.DashTable.Segment.Insertion.{insert_at}

module _ {ℓ} {K V : Type ℓ} (p : Policy) where
  unfoldable pub remove_stash_reference : ℕ → ℕ → Segment K V → Segment K V
  remove_stash_reference stash_pos hash s =
      let y = home_index p hash in
      let nid = next_bid p y in
      let fp = fingerprint hash in
      let (base, next, _) =
        unset_stash_ptr fp stash_pos ((s.bucket y).base) ((s.bucket nid).base) in
      let s' = set_bucket s y (record (s.bucket y) { base = base }) in
      set_bucket s' nid (record (s'.bucket nid) { base = next })

  unfoldable pub delete_at : Iterator → ℕ → Segment K V → Segment K V
  unfolding remove_stash_reference
  delete_at it hash s =
      let s' =
        if leb p.bucket_num it.index
        then remove_stash_reference (it.index - p.bucket_num) hash s
        else s in
      set_bucket s' it.index (delete it.slot (s'.bucket it.index))

  -- The entry stays in its stash slot as well, until the caller clears that slot.
  unfoldable pub try_move_from_stash : ℕ → ℕ → ℕ → Segment K V → Option (Iterator × Segment K V)
  unfolding remove_stash_reference
  try_move_from_stash stash_id stash_slot hash s =
      let bid = home_index p hash in
      let fp = fingerprint hash in
      let stash = s.bucket (p.bucket_num + stash_id) in
      let k = stash.key stash_slot in
      let v = stash.value stash_slot in
      elim (insert_at p bid k v fp false s) [
        | some r ↦ some (r.0, remove_stash_reference stash_id hash (r.1))
        | none ↦ elim (insert_at p (next_bid p bid) k v fp true s) [
          | some r ↦ some (r.0, remove_stash_reference stash_id hash (r.1))
          | none ↦ none
        ]
      ]
