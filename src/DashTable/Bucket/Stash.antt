-- ===== src/DashTable/Bucket/Stash.antt =====
-- The stash pointers of `BucketBase` in src/sharding/DashTable/dash_internal.hpp: four references
-- from a bucket, or from the bucket before it, to entries in the stash buckets.
use storage_engine.Base.{
  ℕ, zero, suc, ◌+◌, ◌*◌, bit_and, bit_or, Bool, true, false, ◌&&◌, Option, none, some, leb, ◌==◌,
  if◌then◌else◌, update, to_nat,
}
use storage_engine.Base.Words.{testbit, shl, shr, bit_not32, ctz, u8}
use storage_engine.DashTable.Bucket.Base.{BucketBase, stash_fp_len, stash_present_bit}

-- The loop of `IterateStash`; `none` stands for the callback's `kNanSlot`.
unfoldable pub stash_loop {ℓ} :
    {A : Type ℓ} → ℕ → ℕ → ℕ → ℕ → ℕ → (ℕ → ℕ → Option A) → BucketBase → Option (ℕ × A)
stash_loop zero i ob om fp func b = none
stash_loop (suc rounds) i ob om fp func b =
    let rest = stash_loop rounds (suc i) (shr ob 1) (shr om 1) fp func b in
    let pos = bit_and (shr b.stash_pos (i * 2)) 3 in
    if testbit ob 0 && (b.stash_arr i == fp) && testbit om 0
    then elim (func i pos) [ some sid ↦ some (pos, sid) | none ↦ rest ]
    else rest

unfoldable pub iterate_stash {ℓ} :
    {A : Type ℓ} → ℕ → Bool → (ℕ → ℕ → Option A) → BucketBase → Option (ℕ × A)
unfolding stash_loop
iterate_stash fp is_probe func b =
    let om = if is_probe then b.stash_probe_mask else bit_not32 b.stash_probe_mask in
    stash_loop stash_fp_len 0 b.stash_busy om fp func b

-- `none` when no stash pointer is free.
unfoldable pub set_stash : ℕ → ℕ → Bool → BucketBase → Option BucketBase
set_stash fp pos probe b =
    let free_slot = ctz 32 (bit_not32 b.stash_busy) in
    if leb stash_fp_len free_slot
    then none
    else some (record b {
      stash_arr = update b.stash_arr free_slot fp;
      stash_busy = u8 (bit_or b.stash_busy (shl 1 free_slot));
      stash_probe_mask = u8 (bit_or b.stash_probe_mask (shl (to_nat probe) free_slot));
      stash_pos = u8 (
          bit_or (bit_and b.stash_pos (bit_not32 (shl 3 (free_slot * 2))))
            (shl pos (free_slot * 2)));
    })

-- What the callback of `ClearStash` leaves when it meets pointer `i`.
unfoldable pub drop_pointer : ℕ → BucketBase → BucketBase
drop_pointer i b = record b {
  stash_busy = bit_and b.stash_busy (bit_not32 (shl 1 i));
  stash_probe_mask = bit_and b.stash_probe_mask (bit_not32 (shl 1 i));
  stash_pos = bit_and b.stash_pos (bit_not32 (shl 3 (i * 2)));
}

-- `none` when there was no such pointer.
unfoldable pub clear_stash : ℕ → ℕ → Bool → BucketBase → Option BucketBase
unfolding iterate_stash drop_pointer
clear_stash fp pos probe b =
    elim (iterate_stash fp probe (λ i p. if p == pos then some (drop_pointer i b) else none) b) [
      | some r ↦ some (r.1)
      | none ↦ none
    ]

-- `stash_busy_ |= kStashPresentBit`.
abbrev pub mark_present : BucketBase → BucketBase
mark_present b = record b { stash_busy = bit_or b.stash_busy stash_present_bit }

abbrev pub count_overflow : BucketBase → BucketBase
count_overflow b = record b { overflow_count = u8 (b.overflow_count + 1) }

-- `SetStashPtr`, on the bucket and its neighbour.
unfoldable pub set_stash_ptr : ℕ → ℕ → BucketBase → BucketBase → BucketBase × BucketBase
unfolding set_stash
set_stash_ptr pos fp b next = elim (set_stash fp pos false b) [
  | some b' ↦ (mark_present b', next)
  | none ↦ elim (set_stash fp pos true next) [
    | some next' ↦ (mark_present b, next')
    | none ↦ (mark_present (count_overflow b), next)
  ]
]

-- The first half of `UnsetStashPtr`: one reference goes; the number is the method's result. Where no
-- pointer is found, the source asserts that the counter is not 0 and then counts down; 255 more modulo
-- 256 is one less, but for that 0.
unfoldable pub drop_reference : ℕ → ℕ → BucketBase → BucketBase → BucketBase × BucketBase × ℕ
unfolding clear_stash
drop_reference fp pos b next = elim (clear_stash fp pos false b) [
  | some b' ↦ (b', next, 0)
  | none ↦ elim (clear_stash fp pos true next) [
    | some next' ↦ (b, next', 1)
    | none ↦ (record b { overflow_count = u8 (b.overflow_count + 255) }, next, 0)
  ]
]

-- Whether the second half of `UnsetStashPtr` finds no reference left.
unfoldable pub no_reference : BucketBase → BucketBase → Bool
no_reference b next =
    let mask1 = bit_and b.stash_busy 15 in
    let mask2 = bit_and next.stash_busy 15 in
    (bit_and mask1 (bit_not32 b.stash_probe_mask) == 0)
    && (b.overflow_count == 0)
    && (bit_and mask2 next.stash_probe_mask == 0)

unfoldable pub unset_stash_ptr : ℕ → ℕ → BucketBase → BucketBase → BucketBase × BucketBase × ℕ
unfolding drop_reference no_reference
unset_stash_ptr fp pos b next =
    let (b', next', res) = drop_reference fp pos b next in
    if no_reference b' next'
    then (
      record b' { stash_busy = bit_and (b'.stash_busy) (bit_not32 stash_present_bit) },
      next',
      res,
    )
    else (b', next', res)
