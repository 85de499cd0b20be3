-- ===== src/DashTable/SlotBitmap/Size.antt =====
-- How full the bitmap is: `Size`, `IsFull` and `FindEmptySlot` against the single slots.
use storage_engine.Base.{ℕ, ◌≤◌, ◌<◌, ◌+◌, ◌≡◌, Bool, true, false, arith}
use storage_engine.Base.Words.{
  bit_not32, ctz, testbit-bit_not32, ctz-IsLowest, below-ctz, popcount, popcount-le, popcount-full,
  clear_bit, popcount_set,
}
use storage_engine.DashTable.SlotBitmap.Bits.{
  is_busy, IsValid, set_slot-busy, set_slot-probe, clear_slot-busy,
}
use storage_engine.DashTable.SlotBitmap.{
  SlotBitmap, size, is_full, find_empty_slot, set_slot, clear_slot, get_busy,
}

-- A bitmap is full exactly when each of its slots is busy; otherwise some slot is free.
pub is_full-busy :
    (n : ℕ) (s : SlotBitmap)
    → IsValid n s
    → is_full n s ≡ true
    → (i : ℕ) → i < n
    → is_busy s i ≡ true
unfolding is_full size
is_full-busy n s v full i lt = popcount-full 32 n s.busy v.fits (ground arith) i lt

pub size-le : (n : ℕ) (s : SlotBitmap) → IsValid n s → size s ≤ n
unfolding size
size-le n s v = popcount-le 32 n s.busy v.fits

pub size-lt : (n : ℕ) (s : SlotBitmap) → IsValid n s → is_full n s ≡ false → size s < n
unfolding is_full
size-lt n s v room = ground (arith, size-le n s v)

-- The slot that `FindEmptySlot` gives.
pub record IsFree (n : ℕ) (s : SlotBitmap) (i : ℕ) : Type 0 where
  pub in_range : i < n
  pub free : is_busy s i ≡ false
  pub lowest : (j : ℕ) → j < i → is_busy s j ≡ true

-- `FindEmptySlot` on a valid bitmap of at most 28 slots that is not full gives the lowest slot
-- that is free, below the number of slots.
pub find_empty_slot-IsFree :
    (n : ℕ) (s : SlotBitmap)
    → n ≤ 28
    → IsValid n s
    → is_full n s ≡ false
    → IsFree n s (find_empty_slot s)
unfolding find_empty_slot get_busy
find_empty_slot-IsFree n s le v room =
    let (i, lt, off) = clear_bit 32 n s.busy (omega arith) (unfold size in size-lt n s v room) in
    let found =
      ctz-IsLowest 32 (bit_not32 s.busy) i (omega arith)
        (ground (arith, testbit-bit_not32 s.busy i)) in
    let k = ctz 32 (bit_not32 s.busy) in
    record {
      in_range = omega (arith, found.first);
      free = ground (arith, found.first, found.is_set, testbit-bit_not32 s.busy k);
      lowest = λ j h.
          ground
            (arith, found.first, below-ctz 32 (bit_not32 s.busy) j h, testbit-bit_not32 s.busy j);
    }

module _ (n : ℕ) (s : SlotBitmap) (i : ℕ) (le : n ≤ 28) (v : IsValid n s) (lt : i < n) where
  pub set_slot-IsValid : (p : Bool) → is_busy s i ≡ false → IsValid n (set_slot i p s)
  set_slot-IsValid p off = record {
    fits = λ j h. ground (arith, set_slot-busy s i p j, v.fits j h);
    idle = λ j h.
        ground (arith, v.idle i off, v.idle j, set_slot-busy s i p j, set_slot-probe s i p j);
  }

  -- Setting a free slot, on a valid bitmap of at most 28 slots, raises the number of busy slots by
  -- one.
  pub size-set_slot : (p : Bool) → is_busy s i ≡ false → size (set_slot i p s) ≡ size s + 1
  unfolding size
  size-set_slot p off =
      popcount_set 32 s.busy (set_slot i p s).busy i (omega arith) off
        (ground (arith, set_slot-busy s i p i)) (λ j ne. ground (arith, set_slot-busy s i p j))

  -- Clearing a busy slot, on a valid bitmap of at most 28 slots, lowers the number of busy slots by
  -- one.
  pub size-clear_slot : is_busy s i ≡ true → size s ≡ size (clear_slot i s) + 1
  unfolding size
  size-clear_slot on =
      popcount_set 32 (clear_slot i s).busy s.busy i (omega arith)
        (ground (arith, clear_slot-busy n s i le v i)) on
        (λ j ne. ground (arith, clear_slot-busy n s i le v j))

-- The converse of `is_full-busy`, on the number of busy slots.
pub size-eq_of_busy :
    (n : ℕ) (s : SlotBitmap)
    → n ≤ 28
    → IsValid n s
    → ((i : ℕ) → i < n → is_busy s i ≡ true)
    → size s ≡ n
unfolding size
size-eq_of_busy n s le v all = elim (native.Mathlib.Decide.dec_lt (popcount 32 s.busy) n) [
  | yes few ↦
      let (i, lt, off) = clear_bit 32 n s.busy (omega arith) few in
      absurd (ground (arith, all i lt))
  | no many ↦ omega (arith, popcount-le 32 n s.busy v.fits)
]

pub busy_of_size-eq :
    (n : ℕ) (s : SlotBitmap) → IsValid n s → size s ≡ n → (i : ℕ) → i < n → is_busy s i ≡ true
unfolding size
busy_of_size-eq n s v full i lt = popcount-full 32 n s.busy v.fits full i lt
