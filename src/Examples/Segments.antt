-- ===== src/Examples/Segments.antt =====
-- A segment of the smallest policy, two buckets of one slot, whose regular buckets are full.
use storage_engine.Base.{ℕ, ◌≡◌, ◌⊎◌, refl, true, false, none, some, ◌==◌, arith}
use storage_engine.Base.Words.{testbit, shl, testbit-zero, shr, word_of, low_mask, ctz}
use storage_engine.DashTable.SlotBitmap
use storage_engine.DashTable.Bucket.{Bucket, insert}
use storage_engine.DashTable.Bucket.Insert.{insert-Inserts}
use storage_engine.DashTable.Segment.Defs.{
  Policy, IsPolicy, Segment, fingerprint, home_index, next_bid, set_bucket,
}
use storage_engine.DashTable.Segment.Placement.{
  AllPlaced, IsPlaced, set_bucket-AllPlaced, Inserts-IsPlaced,
}
use storage_engine.DashTable.Segment.Insertion.{insert_uniq, move_to_other}
use storage_engine.DashTable.Segment.Insertion.Steps.{Frees, move_to_other-cases}
use storage_engine.DashTable.Segment.Insertion.Stages.{Inserted}
use storage_engine.DashTable.Segment.Insertion.Total.{IsExhausted, insert_uniq-Adds}
use storage_engine.DashTable.Segment.Removal.{delete_at}
use storage_engine.DashTable.Segment.Deletion.{Removes, delete_at-Removes}
use storage_engine.DashTable.Bucket.Base.{set_hash}
use storage_engine.DashTable.SlotBitmap.{set_slot}
use storage_engine.DashTable.Bucket.{find_by_fp, scan}
use storage_engine.DashTable.Bucket.Base.{find, compare_fp, get_busy, get_probe}
use storage_engine.DashTable.Segment.Lookup.{find_it}
use storage_engine.DashTable.Segment.Found.{IsFound, find_it-IsFound}
use storage_engine.Examples.Values.{no_slots-IsValid, no_entries}

abbrev pub tiny : Policy
tiny = record { slot_num = 1; bucket_num = 2 }

pub tiny-IsPolicy : IsPolicy tiny
tiny-IsPolicy = record {
  slots = omega arith;
  some_slot = omega arith;
  neighbours = omega arith;
  bytes = omega arith;
}

abbrev pub hash_fn : ℕ → ℕ
hash_fn k = k

abbrev pub no_segment_entries : Segment ℕ ℕ
no_segment_entries = record { bucket = λ _. no_entries; local_depth = 0; segment_id = 0 }

no_entries-IsPlaced : (i : ℕ) → IsPlaced tiny hash_fn i no_entries
no_entries-IsPlaced i = record {
  valid = no_slots-IsValid 1;
  prints = λ j on. absurd (cc (on, testbit-zero j));
  stands = λ j on. absurd (cc (on, testbit-zero j));
}

-- Key 5 stands in its home bucket.
abbrev pub at_home : Bucket ℕ ℕ
at_home = insert 0 5 50 (fingerprint 5) false no_entries

at_home-IsPlaced : IsPlaced tiny hash_fn 0 at_home
unfolding testbit home_index shr
at_home-IsPlaced =
    Inserts-IsPlaced tiny hash_fn 0 {k = 5} {v = 50} {probe = false} {slot = 0}
      (no_entries-IsPlaced 0) (record { home = λ _. refl; stash = λ _. refl })
      (insert-Inserts 1 5 50 (fingerprint 5) false no_entries 0 (omega arith) (no_slots-IsValid 1)
        (omega arith) refl)

-- Key 6 has the same home, and stands next to it.
abbrev pub beside : Bucket ℕ ℕ
beside = insert 0 6 60 (fingerprint 6) true no_entries

beside-IsPlaced : IsPlaced tiny hash_fn 1 beside
unfolding testbit home_index next_bid shr
beside-IsPlaced =
    Inserts-IsPlaced tiny hash_fn 1 {k = 6} {v = 60} {probe = true} {slot = 0}
      (no_entries-IsPlaced 1) (record { home = λ _. refl; stash = λ h. absurd (omega (arith, h)) })
      (insert-Inserts 1 6 60 (fingerprint 6) true no_entries 0 (omega arith) (no_slots-IsValid 1)
        (omega arith) refl)

abbrev pub crowded : Segment ℕ ℕ
crowded = set_bucket (set_bucket no_segment_entries 0 at_home) 1 beside

pub crowded-AllPlaced : AllPlaced tiny hash_fn crowded
crowded-AllPlaced =
    set_bucket-AllPlaced tiny hash_fn (set_bucket no_segment_entries 0 at_home) 1 beside
      (set_bucket-AllPlaced tiny hash_fn no_segment_entries 0 at_home no_entries-IsPlaced
        at_home-IsPlaced)
      beside-IsPlaced

-- Key 7 has the same home again, and goes to the stash.
insert_uniq-Adds_example :
    ((insert_uniq tiny 7 70 (hash_fn 7) true crowded ≡ none) × IsExhausted tiny (hash_fn 7) crowded)
    ⊎ Inserted tiny tiny-IsPolicy hash_fn 7 70 crowded
        (insert_uniq tiny 7 70 (hash_fn 7) true crowded)
insert_uniq-Adds_example =
    insert_uniq-Adds tiny tiny-IsPolicy hash_fn 7 70 crowded crowded-AllPlaced true

-- Back to the bucket before, which has no room.
move_to_other-cases_example :
    (move_to_other tiny false 1 0 crowded ≡ none)
    ⊎ ((slot : ℕ) × (s' : Segment ℕ ℕ) × (move_to_other tiny false 1 0 crowded ≡ some (slot, s'))
        × Frees tiny tiny-IsPolicy hash_fn crowded 1 slot s')
unfolding next_bid
move_to_other-cases_example =
    move_to_other-cases tiny tiny-IsPolicy hash_fn crowded crowded-AllPlaced false 1 0 (omega arith)
      (omega arith) (λ e. absurd (omega (arith, e))) (λ e. absurd (cc e)) (λ _. refl)

-- Key 6 goes.
delete_at-Removes_example :
    Removes tiny hash_fn crowded
      (record { index = 1; slot = 0 })
      (delete_at tiny (record { index = 1; slot = 0 }) (hash_fn 6) crowded)
unfolding testbit insert set_hash set_slot shl
delete_at-Removes_example =
    delete_at-Removes tiny tiny-IsPolicy hash_fn crowded (record { index = 1; slot = 0 })
      crowded-AllPlaced (omega arith) (omega arith) refl (hash_fn 6)

-- Key 6 is found beside its home.
find_it-IsFound_example :
    IsFound tiny (λ k. k == 6) (fingerprint 6) crowded (record { index = 1; slot = 0 })
unfolding find_it find_by_fp scan find compare_fp word_of home_index shr insert set_hash fingerprint
    get_busy SlotBitmap.get_busy set_slot shl get_probe SlotBitmap.get_probe low_mask next_bid ctz
    testbit
find_it-IsFound_example =
    find_it-IsFound tiny (λ k. k == 6) tiny-IsPolicy hash_fn crowded crowded-AllPlaced 6
      (record { index = 1; slot = 0 }) refl
