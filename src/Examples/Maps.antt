-- ===== src/Examples/Maps.antt =====
-- Segments as maps, at the crowded segment of the smallest policy and at fresh ones.
use storage_engine.Base.{
  ℕ, ◌+◌, ◌≡◌, ◌⊎◌, ◌<◌, refl, Bool, true, false, none, some, ◌==◌, to_nat, arith,
}
use storage_engine.Base.Words.{testbit, shl}
use storage_engine.DashTable.SlotBitmap.{set_slot}
use storage_engine.DashTable.Bucket.{insert}
use storage_engine.DashTable.Bucket.Base
use storage_engine.DashTable.Bucket.Base.{
  BucketBase, set_hash, find, compare_fp, get_busy, get_probe,
}
use storage_engine.DashTable.Bucket.Insert.{count-Inserts, insert-Inserts}
use storage_engine.DashTable.Bucket.Stash.{set_stash_ptr, unset_stash_ptr}
use storage_engine.DashTable.Bucket.Counting.{IsTidy}
use storage_engine.DashTable.Bucket.Balance.{Refers, set_stash_ptr-Refers}
use storage_engine.DashTable.Bucket.Release.{Unrefers, unset_stash_ptr-Unrefers}
use storage_engine.DashTable.Segment.Defs.{Segment, Iterator, fingerprint, set_bucket}
use storage_engine.DashTable.Segment.Contents.{total, total-set_bucket, Adds}
use storage_engine.DashTable.Segment.Lookup.{find_it}
use storage_engine.DashTable.Segment.Found.{IsFound}
use storage_engine.DashTable.Segment.Insertion.{insert_unless_found}
use storage_engine.DashTable.Segment.Insertion.Total.{IsExhausted}
use storage_engine.DashTable.Segment.Removal.{delete_at}
use storage_engine.DashTable.Segment.Deletion.{Removes}
use storage_engine.DashTable.Segment.Stash.{IsBalanced}
use storage_engine.DashTable.Segment.Stash.Frame.{set_bucket-IsBalanced}
use storage_engine.DashTable.Segment.Stash.Releasing.{delete_at-IsBalanced}
use storage_engine.DashTable.Segment.Complete.{find_it-cases}
use storage_engine.DashTable.Segment.Map.{
  IsNaming, IsMap, entries_of, insert_unless_found-cases, delete_at-IsMap,
}
use storage_engine.DashTable.Table.Defs.{new_segment}
use storage_engine.DashTable.Table.Fresh.{empty-IsTidy, new_segment-IsMap}
use storage_engine.Examples.Values.{no_entries, no_slots-IsValid}
use storage_engine.Examples.Segments.{
  tiny, tiny-IsPolicy, hash_fn, no_segment_entries, at_home, beside, crowded, crowded-AllPlaced,
}

pub ==-IsNaming : IsNaming hash_fn hash_fn (◌==◌)
==-IsNaming = record {
  one_name = λ k w w' e e'. ground (arith, e, e');
  hash = λ k w e. ground (arith, e);
}

pub crowded-IsBalanced : IsBalanced tiny hash_fn crowded
unfolding new_segment insert set_hash
crowded-IsBalanced =
    set_bucket-IsBalanced tiny hash_fn (set_bucket no_segment_entries 0 at_home) 1 beside
      (omega arith) refl
      (set_bucket-IsBalanced tiny hash_fn no_segment_entries 0 at_home (omega arith) refl
        (new_segment-IsMap 0 0 tiny hash_fn (◌==◌) 0 0).0.balanced)

fresh_total : (q : ℕ → ℕ → Bool) → total tiny q no_segment_entries ≡ 0
unfolding new_segment
fresh_total = (new_segment-IsMap 0 0 tiny hash_fn (◌==◌) 0 0).1

pub crowded-entries : (q : ℕ → ℕ → Bool) → total tiny q crowded ≡ to_nat (q 5 50) + to_nat (q 6 60)
unfolding testbit
crowded-entries q =
    let s = set_bucket no_segment_entries 0 at_home in
    omega (
      arith,
      total-set_bucket tiny q no_segment_entries 0 at_home (omega arith),
      total-set_bucket tiny q s 1 beside (omega arith),
      fresh_total q,
      count-Inserts 1 q (
          insert-Inserts 1 5 50 (fingerprint 5) false no_entries 0 (omega arith)
            (no_slots-IsValid 1) (omega arith) refl),
      count-Inserts 1 q (
          insert-Inserts 1 6 60 (fingerprint 6) true no_entries 0 (omega arith) (no_slots-IsValid 1)
            (omega arith) refl),
    )

pub crowded-IsMap : IsMap tiny hash_fn (◌==◌) crowded
crowded-IsMap = record {
  placed = crowded-AllPlaced;
  balanced = crowded-IsBalanced;
  unique = λ w. ground (arith, crowded-entries (λ k _. k == w));
}

find_it-cases_example :
    ((find_it tiny (λ k. 6 == k) 6 crowded ≡ none) × (total tiny (λ k _. 6 == k) crowded ≡ 0))
    ⊎ ((it : Iterator) × (find_it tiny (λ k. 6 == k) 6 crowded ≡ some it)
        × IsFound tiny (λ k. 6 == k) (fingerprint 6) crowded it
        × (0 < total tiny (λ k _. 6 == k) crowded))
find_it-cases_example =
    find_it-cases tiny tiny-IsPolicy hash_fn crowded crowded-AllPlaced crowded-IsBalanced
      (λ k. 6 == k) 6 (λ k e. ground (arith, e))

-- Key 7 has no entry and a free place in the stash.
insert_unless_found-cases_example :
    ((it : Iterator) × (insert_unless_found tiny 7 70 7 (λ k. k == 7) crowded
        ≡ some (it, false, crowded))
      × IsFound tiny (λ k. k == 7) (fingerprint 7) crowded it
      × (entries_of tiny hash_fn (◌==◌) 7 crowded ≡ 1))
    ⊎ ((entries_of tiny hash_fn (◌==◌) 7 crowded ≡ 0)
        × (((it : Iterator) × (s' : Segment ℕ ℕ) × (insert_unless_found tiny 7 70 7
                  (λ k. k == 7)
                  crowded
                ≡ some (it, true, s'))
              × Adds tiny hash_fn 7 70 crowded it s'
              × IsMap tiny hash_fn (◌==◌) s')
            ⊎ ((insert_unless_found tiny 7 70 7 (λ k. k == 7) crowded ≡ none)
                × IsExhausted tiny 7 crowded)))
insert_unless_found-cases_example =
    insert_unless_found-cases tiny tiny-IsPolicy hash_fn hash_fn (◌==◌) ==-IsNaming crowded
      crowded-IsMap 7 7 70 refl

delete_at-IsMap_example :
    let s' = delete_at tiny (record { index = 1; slot = 0 }) 6 crowded in
    IsMap tiny hash_fn (◌==◌) s'
    × (entries_of tiny hash_fn (◌==◌) 6 s' ≡ 0)
    × Removes tiny hash_fn crowded (record { index = 1; slot = 0 }) s'
unfolding testbit insert set_hash set_slot shl
delete_at-IsMap_example =
    delete_at-IsMap tiny tiny-IsPolicy hash_fn hash_fn (◌==◌) ==-IsNaming crowded crowded-IsMap 6
      (record { index = 1; slot = 0 }) (omega arith) (omega arith) refl refl

delete_at-IsBalanced_example :
    IsBalanced tiny hash_fn (delete_at tiny (record { index = 1; slot = 0 }) 6 crowded)
unfolding testbit insert set_hash set_slot shl
delete_at-IsBalanced_example =
    delete_at-IsBalanced tiny tiny-IsPolicy hash_fn crowded (record { index = 1; slot = 0 })
      crowded-AllPlaced (omega arith) (omega arith) refl crowded-IsBalanced

new_segment-IsMap_example :
    let s = new_segment {K = ℕ} {V = ℕ} 0 0 0 0 in
    IsMap tiny hash_fn (◌==◌) s × ((q : ℕ → ℕ → Bool) → total tiny q s ≡ 0)
new_segment-IsMap_example = new_segment-IsMap 0 0 tiny hash_fn (◌==◌) 0 0

set_stash_ptr-Refers_example :
    let r = set_stash_ptr 2 7 Base.empty Base.empty in Refers 7 2 Base.empty Base.empty (r.0) (r.1)
set_stash_ptr-Refers_example =
    set_stash_ptr-Refers 7 2 Base.empty Base.empty empty-IsTidy empty-IsTidy (omega arith)

-- A bucket with one entry in the stash that is counted only.
abbrev one_counted : BucketBase
one_counted = record Base.empty { overflow_count = 1 }

one_counted-IsTidy : IsTidy one_counted
one_counted-IsTidy = record { fits = empty-IsTidy.fits; idle = empty-IsTidy.idle }

unset_stash_ptr-Unrefers_example :
    let r = unset_stash_ptr 7 2 one_counted Base.empty in
    Unrefers 7 2 one_counted Base.empty (r.0) (r.1)
unset_stash_ptr-Unrefers_example =
    unset_stash_ptr-Unrefers 7 2 one_counted Base.empty one_counted-IsTidy empty-IsTidy
      (omega arith) (λ _. omega arith)
