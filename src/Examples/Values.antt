-- ===== src/Examples/Values.antt =====
-- The values that the examples share.
use storage_engine.Base.{ℕ, refl, false, arith}
use storage_engine.Base.Words.{testbit, testbit-zero}
use storage_engine.DashTable.SlotBitmap
use storage_engine.DashTable.SlotBitmap.Bits.{IsValid}
use storage_engine.DashTable.SlotBitmap.Size.{set_slot-IsValid}
use storage_engine.DashTable.Bucket.{Bucket, insert}
use storage_engine.DashTable.Bucket.Base
use storage_engine.DashTable.Bucket.Insert.{Inserts, insert-Inserts}

-- No slot is busy.
pub no_slots-IsValid : (n : ℕ) → IsValid n SlotBitmap.empty
no_slots-IsValid n = record { fits = λ j h. testbit-zero j; idle = λ j _. testbit-zero j }

-- Slot 0 is busy.
abbrev pub slots : SlotBitmap.SlotBitmap
slots = SlotBitmap.set_slot 0 false SlotBitmap.empty

pub slots-IsValid : IsValid 14 slots
unfolding testbit
slots-IsValid =
    set_slot-IsValid 14 SlotBitmap.empty 0 (omega arith) (no_slots-IsValid 14) (omega arith) false
      refl

abbrev pub no_entries : Bucket ℕ ℕ
no_entries = record { base = Base.empty; key = λ _. 0; value = λ _. 0 }

-- Key 5 in slot 0, with fingerprint 9.
abbrev pub bucket : Bucket ℕ ℕ
bucket = insert 0 5 50 9 false no_entries

pub bucket-Inserts : Inserts 14 5 50 9 false no_entries 0 bucket
unfolding testbit
bucket-Inserts =
    insert-Inserts 14 5 50 9 false no_entries 0 (omega arith) (no_slots-IsValid 14) (omega arith)
      refl

pub bucket-IsValid : IsValid 14 bucket.slotb
bucket-IsValid = (bucket-Inserts).valid
