-- ===== src/DashTable/Bucket.antt =====
-- `BucketBase` and `Segment::Bucket` of src/sharding/DashTable/dash_internal.hpp: a bucket of
-- `n` slots with fingerprints, and the references it holds to entries in the stash buckets.
-- Arrays are functions of the index; `kNanSlot`, and a result of -1, are `none`.
pub mod Base
pub mod Stash
pub mod References
pub mod Counting
pub mod Clearing
pub mod Balance
pub mod Release
pub mod Find
pub mod Insert
pub mod Each
pub use Base.{BucketBase}
use storage_engine.Base.{
  ℕ, zero, suc, ◌+◌, ◌-◌, ◌≡◌, Bool, true, false, ◌&&◌, Option, none, some, ltb, ◌==◌,
  if◌then◌else◌, update,
}
use storage_engine.Base.Words.{testbit, shr, ctz}
use storage_engine.DashTable.SlotBitmap.{SlotBitmap}
use storage_engine.DashTable.SlotBitmap

-- `Segment::Bucket`: a `BucketBase` with the entries.
pub record Bucket {ℓ} (K V : Type ℓ) : Type ℓ where
  pub base : BucketBase
  pub open base use *
  pub key : ℕ → K
  pub value : ℕ → V

-- `ForEachSlotImpl` from slot `j` on. The callback works on a state `S`; the two masks are
-- read before the first call.
unfoldable pub each_slot {ℓ} : {S : Type ℓ} → ℕ → ℕ → ℕ → ℕ → (ℕ → Bool → S → S) → S → S
each_slot zero j mask probe_mask cb s = s
each_slot (suc rounds) j mask probe_mask cb s =
    each_slot rounds (suc j) (shr mask 1) (shr probe_mask 1) cb
      (if testbit mask 0 then cb j (testbit probe_mask 0) s else s)

module _ {ℓ} {K V : Type ℓ} where
  unfoldable pub insert : ℕ → K → V → ℕ → Bool → Bucket K V → Bucket K V
  insert slot k v fp probe b = record {
    base = Base.set_hash slot fp probe b.base;
    key = update b.key slot k;
    value = update b.value slot v;
  }

  unfoldable pub try_insert : ℕ → K → V → ℕ → Bool → Bucket K V → Option (ℕ × Bucket K V)
  unfolding Base.is_full
  try_insert n k v fp probe b =
      if Base.is_full n b.base
      then none
      else let slot = SlotBitmap.find_empty_slot b.slotb in some (slot, insert slot k v fp probe b)

  -- The loop of `FindByFp`, from slot `i` on; `mask` is already shifted by `i`.
  unfoldable pub scan : ℕ → ℕ → ℕ → (K → Bool) → Bucket K V → Option ℕ
  scan zero i mask pred b = none
  scan (suc rounds) i mask pred b =
      let rest = scan rounds (suc i) (shr mask 1) pred b in
      if testbit mask 0 && pred (b.key i) then some i else rest

  unfoldable pub find_by_fp : ℕ → ℕ → Bool → (K → Bool) → Bucket K V → Option ℕ
  find_by_fp n fp probe pred b =
      let mask = Base.find n fp probe b.base in
      if mask == 0
      then none
      else let delta = ctz 32 mask in scan (n - delta) delta (shr mask delta) pred b

  unfoldable pub for_each_slot {κ} : {S : Type κ} → ℕ → (ℕ → Bool → S → S) → Bucket K V → S → S
  unfolding each_slot
  for_each_slot n cb b s = each_slot n 0 (Base.get_busy b.base) (Base.get_probe n true b.base) cb s

  -- `Delete(sid)`, `ClearSlots`, `Clear` and `ClearStashPtrs`, which touch the base alone.
  unfoldable pub delete : ℕ → Bucket K V → Bucket K V
  delete slot b = record b { base = Base.delete slot b.base }

  unfoldable pub clear_slots : ℕ → Bucket K V → Bucket K V
  clear_slots mask b = record b { base = Base.clear_slots mask b.base }

  unfoldable pub clear : Bucket K V → Bucket K V
  clear b = record b { base = Base.clear_stash_ptrs (Base.clear b.base) }

  unfoldable pub swap : ℕ → ℕ → Bucket K V → Bucket K V
  swap i j b = record {
    base = Base.swap i j b.base;
    key = update (update b.key i (b.key j)) j (b.key i);
    value = update (update b.value i (b.value j)) j (b.value i);
  }
