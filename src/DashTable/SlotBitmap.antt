-- ===== src/DashTable/SlotBitmap.antt =====
-- `SlotBitmap` of src/sharding/DashTable/dash_internal.hpp: which of the `n` slots of a bucket
-- are busy, and which hold an entry whose home is the bucket before. A word is a number, and
-- `n` is the template parameter `NUM_SLOTS`, from 1 to 28.
pub mod Bits
pub mod Size
use storage_engine.Base.{
  ℕ, ◌-◌, bit_and, bit_or, bit_xor, Bool, true, false, ltb, ◌==◌, if◌then◌else◌, to_nat, not, ◌+◌,
}
use storage_engine.Base.Words.{testbit, shl, shl32, shr, low_mask, bit_not32, popcount, ctz}

-- `val_[0].d` and `val_[1].d`.
pub record SlotBitmap : Type 0 where
  pub busy : ℕ
  pub probe : ℕ

abbrev pub empty : SlotBitmap
empty = record { busy = 0; probe = 0 }

-- `kAllocMask`.
abbrev pub alloc_mask : ℕ → ℕ
alloc_mask n = low_mask n

unfoldable pub get_probe : ℕ → Bool → SlotBitmap → ℕ
get_probe n own s = bit_xor (bit_and s.probe (alloc_mask n)) (if own then 0 else alloc_mask n)

unfoldable pub get_busy : SlotBitmap → ℕ
get_busy s = s.busy

unfoldable pub size : SlotBitmap → ℕ
size s = popcount 32 s.busy

unfoldable pub is_full : ℕ → SlotBitmap → Bool
is_full n s = size s == n

unfoldable pub find_empty_slot : SlotBitmap → ℕ
unfolding get_busy
find_empty_slot s = ctz 32 (bit_not32 (get_busy s))

unfoldable pub clear_slots : ℕ → SlotBitmap → SlotBitmap
clear_slots m s = record {
  busy = bit_and s.busy (bit_not32 m);
  probe = bit_and s.probe (bit_not32 m);
}

unfoldable pub clear : SlotBitmap → SlotBitmap
clear s = empty

unfoldable pub clear_slot : ℕ → SlotBitmap → SlotBitmap
clear_slot i s =
    let m = shl 1 i in
    record { busy = bit_and s.busy (bit_not32 m); probe = bit_and s.probe (bit_not32 m) }

unfoldable pub set_slot : ℕ → Bool → SlotBitmap → SlotBitmap
set_slot i probe s = record {
  busy = bit_or s.busy (shl 1 i);
  probe = bit_or s.probe (shl (to_nat probe) i);
}

-- All slots move up by one; the result says whether the last slot was busy.
unfoldable pub shift_left : ℕ → SlotBitmap → Bool × SlotBitmap
shift_left n s = (
  not (bit_and s.busy (shr (alloc_mask n) 1 + 1) == 0),
  record {
    busy = bit_and (shl32 s.busy 1) (alloc_mask n);
    probe = bit_and (shl32 s.probe 1) (alloc_mask n);
  },
)

-- `Swap` on one word, after its `std::swap` of the two slots, so that `lo < hi`.
unfoldable pub swap_word : ℕ → ℕ → ℕ → ℕ
swap_word lo hi x =
    let a = bit_and (bit_xor (shl32 x (hi - lo)) x) (shl 1 hi) in
    bit_xor x (bit_or a (shr a (hi - lo)))

-- All of the method's body stands under its first `if`.
unfoldable pub swap : ℕ → ℕ → SlotBitmap → SlotBitmap
unfolding swap_word
swap a b s =
    if ltb b a then record { busy = swap_word b a s.busy; probe = swap_word b a s.probe } else s
