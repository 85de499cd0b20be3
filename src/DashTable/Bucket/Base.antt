-- ===== src/DashTable/Bucket/Base.antt =====
-- `BucketBase` of src/sharding/DashTable/dash_internal.hpp.
use storage_engine.Base.{ℕ, ◌+◌, ◌-◌, bit_and, Bool, ltb, ◌==◌, if◌then◌else◌, update, not}
use storage_engine.Base.Words.{word_of}
use storage_engine.DashTable.SlotBitmap.{SlotBitmap}
use storage_engine.DashTable.SlotBitmap

-- The last four fields are `uint8_t`.
pub record BucketBase : Type 0 where
  pub slotb : SlotBitmap
  pub finger_arr : ℕ → ℕ
  pub stash_arr : ℕ → ℕ
  pub stash_busy : ℕ
  pub stash_pos : ℕ
  pub stash_probe_mask : ℕ
  pub overflow_count : ℕ

-- `kStashFpLen` and `kStashPresentBit`.
abbrev pub stash_fp_len : ℕ
stash_fp_len = 4

abbrev pub stash_present_bit : ℕ
stash_present_bit = 16

abbrev pub empty : BucketBase
empty = record {
  slotb = SlotBitmap.empty;
  finger_arr = λ _. 0;
  stash_arr = λ _. 0;
  stash_busy = 0;
  stash_pos = 0;
  stash_probe_mask = 0;
  overflow_count = 0;
}

unfoldable pub size : BucketBase → ℕ
size b = SlotBitmap.size b.slotb

unfoldable pub is_full : ℕ → BucketBase → Bool
is_full n b = size b == n

unfoldable pub get_busy : BucketBase → ℕ
get_busy b = SlotBitmap.get_busy b.slotb

unfoldable pub get_probe : ℕ → Bool → BucketBase → ℕ
get_probe n probe b = SlotBitmap.get_probe n probe b.slotb

unfoldable pub is_empty : BucketBase → Bool
is_empty b = get_busy b == 0

unfoldable pub delete : ℕ → BucketBase → BucketBase
delete slot b = record b { slotb = SlotBitmap.clear_slot slot b.slotb }

unfoldable pub clear_slots : ℕ → BucketBase → BucketBase
clear_slots mask b = record b { slotb = SlotBitmap.clear_slots mask b.slotb }

unfoldable pub clear : BucketBase → BucketBase
clear b = record b { slotb = SlotBitmap.clear b.slotb }

unfoldable pub set_hash : ℕ → ℕ → Bool → BucketBase → BucketBase
set_hash slot fp probe b = record b {
  slotb = SlotBitmap.set_slot slot probe b.slotb;
  finger_arr = update b.finger_arr slot fp;
}

unfoldable pub clear_stash_ptrs : BucketBase → BucketBase
clear_stash_ptrs b = record b {
  stash_busy = 0;
  stash_pos = 0;
  stash_probe_mask = 0;
  overflow_count = 0;
}

unfoldable pub has_stash : BucketBase → Bool
has_stash b = not (bit_and b.stash_busy stash_present_bit == 0)

unfoldable pub has_stash_overflow : BucketBase → Bool
has_stash_overflow b = ltb 0 b.overflow_count

unfoldable pub swap : ℕ → ℕ → BucketBase → BucketBase
swap i j b = record b {
  slotb = SlotBitmap.swap i j b.slotb;
  finger_arr = update (update b.finger_arr i (b.finger_arr j)) j (b.finger_arr i);
}

-- Byte `i` of the sixteen that `_mm_loadu_si128` reads at `finger_arr_`: the fields behind the
-- fingerprints follow without padding, and fill the load for `n` from 8 on.
unfoldable pub loaded_byte : ℕ → BucketBase → ℕ → ℕ
loaded_byte n b i =
    if ltb i n
    then b.finger_arr i
    else if ltb i (n + 4)
    then b.stash_arr (i - n)
    else if i == n + 4
    then b.stash_busy
    else if i == n + 5
    then b.stash_pos
    else if i == n + 6
    then b.stash_probe_mask
    else if i == n + 7
    then b.overflow_count
    else 0

unfoldable pub compare_fp : ℕ → ℕ → BucketBase → ℕ
unfolding loaded_byte
compare_fp n fp b = word_of 16 (λ i. loaded_byte n b i == fp)

unfoldable pub find : ℕ → ℕ → Bool → BucketBase → ℕ
find n fp probe b =
    let mask = bit_and (compare_fp n fp b) (get_busy b) in bit_and mask (get_probe n probe b)
