-- ===== src/DashTable/Segment/Deletion.antt =====
-- `Delete` as a whole: it takes one entry away, and keeps every bucket in order.
use storage_engine.Base.{
  ℕ, ◌+◌, ◌-◌, ◌<◌, ◌≡◌, ap, ◌∙◌, Bool, true, false, leb, update_self, to_nat, Bool-cases, inl, inr,
  arith,
}
use storage_engine.DashTable.SlotBitmap.Bits.{is_busy, clear_slot-busy}
use storage_engine.DashTable.Bucket.{Bucket, delete}
use storage_engine.DashTable.Bucket.Base
use storage_engine.DashTable.Bucket.Insert.{count-delete}
use storage_engine.DashTable.Bucket.References.{unset_stash_ptr-SameSlots}
use storage_engine.DashTable.Segment.Defs.{
  Policy, IsPolicy, Segment, Iterator, next_bid, home_index, fingerprint, set_bucket, total_buckets,
}
use storage_engine.DashTable.Segment.Placement.{
  SameEntries, AllPlaced, IsPlaced-SameEntries, delete-IsPlaced, set_bucket-AllPlaced, next_bid-ne,
  home_index-lt,
}
use storage_engine.DashTable.Segment.Contents.{total, total-SameEntries, total-set_bucket}
use storage_engine.DashTable.Segment.Pointers.{SameEntries-refl, rebase-SameEntries}
use storage_engine.DashTable.Segment.Removal.{remove_stash_reference, delete_at}

-- The outcome of deleting the entry at `it`: the slot is free, every bucket is in order, and the
-- segment has lost that entry and no other.
pub record Removes {ℓ} {K V : Type ℓ} (p : Policy) (hash_fn : K → ℕ) (s : Segment K V)
    (it : Iterator) (s' : Segment K V) : Type ℓ where
  pub free : is_busy ((s'.bucket it.index).slotb) it.slot ≡ false
  pub placed : AllPlaced p hash_fn s'
  pub contents :
      (q : K → V → Bool)
      → total p q s
        ≡ total p q s'
          + to_nat (q ((s.bucket it.index).key it.slot) ((s.bucket it.index).value it.slot))

module _ {ℓ} {K V : Type ℓ} (p : Policy) (ok : IsPolicy p) (hash_fn : K → ℕ) where
  pub remove_stash_reference-SameEntries :
      (pos hash : ℕ) (s : Segment K V)
      → (l : ℕ) → SameEntries (s.bucket l) ((remove_stash_reference p pos hash s).bucket l)
  unfolding remove_stash_reference
  remove_stash_reference-SameEntries pos hash s =
      let y = home_index p hash in
      let r =
        unset_stash_ptr-SameSlots (fingerprint hash) pos ((s.bucket y).base)
          ((s.bucket (next_bid p y)).base) in
      rebase-SameEntries s y (next_bid p y) _ _ (next_bid-ne p ok y (home_index-lt p ok hash)) (r.0)
        (r.1)

  module _ (s : Segment K V) (it : Iterator) (all : AllPlaced p hash_fn s)
      (in_range : it.index < total_buckets p) (slot : it.slot < p.slot_num)
      (busy : is_busy ((s.bucket it.index).slotb) it.slot ≡ true) where
    -- The last step, on a segment that differs in stash pointers at most.
    cleared-Removes :
        (s' : Segment K V)
        → ((l : ℕ) → SameEntries (s.bucket l) (s'.bucket l))
        → Removes p hash_fn s it (set_bucket s' it.index (delete it.slot (s'.bucket it.index)))
    unfolding delete Base.delete
    cleared-Removes s' same =
        let b = s'.bucket it.index in
        let here = same it.index in
        let small = ok.slots in
        let placed : AllPlaced p hash_fn s' =
          λ i. IsPlaced-SameEntries p hash_fn i (same i) (all i) in
        let valid = (placed it.index).valid in
        let gone = clear_slot-busy p.slot_num b.slotb it.slot (omega arith) valid it.slot in
        let written = update_self s'.bucket it.index (delete it.slot b) in
        record {
          free = ap (λ (c : Bucket K V). is_busy c.slotb it.slot) written ∙ ground (arith, gone);
          placed =
              set_bucket-AllPlaced p hash_fn s' it.index (delete it.slot b) placed
                (delete-IsPlaced p hash_fn it.index b small it.slot (placed it.index));
          contents = λ q. omega (
            arith,
            total-SameEntries p q s s' same,
            total-set_bucket p q s' it.index (delete it.slot b) in_range,
            count-delete p.slot_num q b it.slot small valid slot (rw here.slotb busy),
            ap (λ (f : ℕ → K). to_nat (q (f it.slot) (b.value it.slot))) here.key,
            ap (λ (f : ℕ → V). to_nat (q ((s.bucket it.index).key it.slot) (f it.slot))) here.value,
          );
        }

    -- `Delete` of a busy slot, with any hash, on a segment whose buckets are all in order: the slot is
    -- free then, every bucket is in order, and the segment has lost that entry and no other.
    pub delete_at-Removes : (hash : ℕ) → Removes p hash_fn s it (delete_at p it hash s)
    unfolding delete_at
    delete_at-Removes hash = elim (Bool-cases (leb p.bucket_num it.index)) [
      | inl stash ↦ rw stash (
          cleared-Removes (remove_stash_reference p (it.index - p.bucket_num) hash s)
            (remove_stash_reference-SameEntries (it.index - p.bucket_num) hash s))
      | inr regular ↦ rw regular (cleared-Removes s (λ l. SameEntries-refl (s.bucket l)))
    ]
