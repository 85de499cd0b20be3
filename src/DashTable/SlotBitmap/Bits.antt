-- ===== src/DashTable/SlotBitmap/Bits.antt =====
-- Each operation of the bitmap, seen at one slot.
use storage_engine.Base.{
  ℕ, bit_and, ◌≤◌, ◌≡◌, refl, Bool, true, false, ◌&&◌, not, ltb, ◌==◌, if◌then◌else◌, to_nat, arith,
}
use storage_engine.Base.Words.{
  testbit, shl, low_mask, bit_not32, Fits, testbit-bit_and, testbit-bit_or, testbit-bit_xor,
  testbit-shl_one, testbit-shl_bit, testbit-bit_not32, testbit-low_mask, testbit-zero,
}
use storage_engine.DashTable.SlotBitmap.{SlotBitmap, get_probe, clear_slots, clear_slot, set_slot}

abbrev pub is_busy : SlotBitmap → ℕ → Bool
is_busy s i = testbit s.busy i

abbrev pub is_probe : SlotBitmap → ℕ → Bool
is_probe s i = testbit s.probe i

-- What holds of every bitmap that the table makes: only the low `n` bits of the two words are
-- used, and a slot that is not busy is not marked as probing.
pub record IsValid (n : ℕ) (s : SlotBitmap) : Type 0 where
  pub fits : Fits n s.busy
  pub idle : (i : ℕ) → is_busy s i ≡ false → is_probe s i ≡ false

pub testbit-get_probe :
    (n : ℕ) (own : Bool) (s : SlotBitmap) (i : ℕ)
    → testbit (get_probe n own s) i ≡ ltb i n && (if own then is_probe s i else not (is_probe s i))
unfolding get_probe
testbit-get_probe n true s i = ground (
  arith,
  testbit-bit_xor (bit_and s.probe (low_mask n)) 0 i,
  testbit-bit_and s.probe (low_mask n) i,
  testbit-low_mask n i,
  testbit-zero i,
)
testbit-get_probe n false s i = ground (
  arith,
  testbit-bit_xor (bit_and s.probe (low_mask n)) (low_mask n) i,
  testbit-bit_and s.probe (low_mask n) i,
  testbit-low_mask n i,
)

pub set_slot-busy :
    (s : SlotBitmap) (i : ℕ) (p : Bool) (j : ℕ)
    → is_busy (set_slot i p s) j ≡ (if j == i then true else is_busy s j)
unfolding set_slot
set_slot-busy s i p j = ground (arith, testbit-bit_or s.busy (shl 1 i) j, testbit-shl_one i j)

pub set_slot-probe :
    (s : SlotBitmap) (i : ℕ) (p : Bool) (j : ℕ)
    → is_probe s i ≡ false
    → is_probe (set_slot i p s) j ≡ (if j == i then p else is_probe s j)
unfolding set_slot
set_slot-probe s i p j off =
    ground (arith, testbit-bit_or s.probe (shl (to_nat p) i) j, testbit-shl_bit p i j)

-- Clearing the slots of a mask leaves the other slots alone, and clears both words.
pub clear_slots-busy :
    (n : ℕ) (s : SlotBitmap) (m j : ℕ)
    → n ≤ 28
    → IsValid n s
    → is_busy (clear_slots m s) j ≡ is_busy s j && not (testbit m j)
unfolding clear_slots
clear_slots-busy n s m j le v =
    ground (arith, v.fits j, testbit-bit_and s.busy (bit_not32 m) j, testbit-bit_not32 m j)

pub clear_slots-probe :
    (n : ℕ) (s : SlotBitmap) (m j : ℕ)
    → n ≤ 28
    → IsValid n s
    → is_probe (clear_slots m s) j ≡ is_probe s j && not (testbit m j)
unfolding clear_slots
clear_slots-probe n s m j le v =
    ground
      (arith, v.fits j, v.idle j, testbit-bit_and s.probe (bit_not32 m) j, testbit-bit_not32 m j)

-- `ClearSlot` is `ClearSlots` at the mask of one slot.
pub clear_slot-clear_slots : (i : ℕ) (s : SlotBitmap) → clear_slot i s ≡ clear_slots (shl 1 i) s
unfolding clear_slot clear_slots
clear_slot-clear_slots i s = refl

pub clear_slots-IsValid :
    (n : ℕ) (s : SlotBitmap) (m : ℕ) → n ≤ 28 → IsValid n s → IsValid n (clear_slots m s)
clear_slots-IsValid n s m le v = record {
  fits = λ j h. ground (arith, v.fits j h, clear_slots-busy n s m j le v);
  idle = λ j h.
      ground (arith, v.idle j, clear_slots-busy n s m j le v, clear_slots-probe n s m j le v);
}

module _ (n : ℕ) (s : SlotBitmap) (i : ℕ) (le : n ≤ 28) (v : IsValid n s) where
  pub clear_slot-busy :
      (j : ℕ) → is_busy (clear_slot i s) j ≡ (if j == i then false else is_busy s j)
  clear_slot-busy j =
      rw (clear_slot-clear_slots i s)
        (ground (arith, clear_slots-busy n s (shl 1 i) j le v, testbit-shl_one i j))

  pub clear_slot-probe :
      (j : ℕ) → is_probe (clear_slot i s) j ≡ (if j == i then false else is_probe s j)
  clear_slot-probe j =
      rw (clear_slot-clear_slots i s)
        (ground (arith, clear_slots-probe n s (shl 1 i) j le v, testbit-shl_one i j))

  pub clear_slot-IsValid : IsValid n (clear_slot i s)
  clear_slot-IsValid = rw (clear_slot-clear_slots i s) (clear_slots-IsValid n s (shl 1 i) le v)
