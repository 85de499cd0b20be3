-- ===== src/Examples/Slots.antt =====
-- The bitmap and the bucket at concrete inputs.
use storage_engine.Base.{ℕ, ◌+◌, ◌<◌, ◌≡◌, ◌⊎◌, refl, true, false, none, some, to_nat, ◌==◌, arith}
use storage_engine.Base.Words.{testbit, shl, popcount}
use storage_engine.DashTable.SlotBitmap
use storage_engine.DashTable.SlotBitmap.Bits.{is_busy}
use storage_engine.DashTable.SlotBitmap.Size.{IsFree, find_empty_slot-IsFree, size-set_slot}
use storage_engine.DashTable.Bucket.Base
use storage_engine.DashTable.Bucket.{Bucket, insert, try_insert, find_by_fp, delete}
use storage_engine.DashTable.Bucket.Find.{first_match, find_by_fp-first_match}
use storage_engine.DashTable.Bucket.Insert.{Inserts, try_insert-cases, count, count-delete}
use storage_engine.Examples.Values.{slots, slots-IsValid, bucket, bucket-IsValid}

find_empty_slot-IsFree_example : IsFree 14 slots (SlotBitmap.find_empty_slot slots)
unfolding SlotBitmap.is_full SlotBitmap.size popcount SlotBitmap.set_slot shl
find_empty_slot-IsFree_example = find_empty_slot-IsFree 14 slots (omega arith) slots-IsValid refl

size-set_slot_example :
    SlotBitmap.size (SlotBitmap.set_slot 1 true slots) ≡ SlotBitmap.size slots + 1
unfolding testbit SlotBitmap.set_slot shl
size-set_slot_example = size-set_slot 14 slots 1 (omega arith) slots-IsValid (omega arith) true refl

find_by_fp-first_match_example :
    find_by_fp 14 9 false (λ k. k == 5) bucket ≡ first_match 14 9 false (λ k. k == 5) bucket
find_by_fp-first_match_example =
    find_by_fp-first_match 14 9 false (λ k. k == 5) bucket (omega arith) bucket-IsValid

try_insert-cases_example :
    ((try_insert 14 6 60 8 true bucket ≡ none) × ((i : ℕ) → i < 14 → is_busy bucket.slotb i ≡ true))
    ⊎ ((i : ℕ) × (b' : Bucket ℕ ℕ) × (try_insert 14 6 60 8 true bucket ≡ some (i, b'))
        × Inserts 14 6 60 8 true bucket i b')
try_insert-cases_example = try_insert-cases 14 6 60 8 true bucket (omega arith) bucket-IsValid

count-delete_example :
    count 14 (λ k _. k == 5) bucket
    ≡ count 14 (λ k _. k == 5) (delete 0 bucket) + to_nat (bucket.key 0 == 5)
unfolding testbit insert Base.set_hash SlotBitmap.set_slot shl
count-delete_example =
    count-delete 14 (λ k _. k == 5) bucket 0 (omega arith) bucket-IsValid (omega arith) refl
