-- ===== src/DashTable/Table/Access.antt =====
-- `Find`, `Insert`, `InsertNew` and `Erase`.
use storage_engine.Base.{
  ℕ, zero, suc, ◌+◌, ◌-◌, Bool, true, false, Option, none, some, ◌==◌, if◌then◌else◌,
}
use storage_engine.DashTable.Segment.{
  Policy, Segment, Iterator, find_it, insert_uniq, insert_unless_found, delete_at,
}
use storage_engine.DashTable.Table.Defs.{Table, TableIterator, segment_at, set_segment, segment_id}
use storage_engine.DashTable.Table.Directory.{increase_depth, split_segment}

-- `InsertMode`.
pub data InsertMode : Type 0 where
  insert_if_not_found force_insert : InsertMode

abbrev pub to_table : ℕ → Iterator → TableIterator
to_table seg it = record { seg_id = seg; bucket_id = it.index; slot_id = it.slot }

module _ {ℓ} {K V : Type ℓ} (p : Policy) (hash_fn : K → ℕ) where
  -- `FindFirst`, which `Find` calls with the hash of its key and the test for that key.
  unfoldable pub find_first : ℕ → (K → Bool) → Table K V → Option TableIterator
  find_first hash pred t =
      let sid = segment_id t.global_depth hash in
      elim (find_it p pred hash (segment_at t sid)) [
        | some it ↦ some (to_table sid it)
        | none ↦ none
      ]

  -- The attempt in the target segment.
  unfoldable pub attempt :
      InsertMode → K → V → ℕ → (K → Bool) → Segment K V → Option (Iterator × Bool × Segment K V)
  attempt insert_if_not_found k v hash pred s = insert_unless_found p k v hash pred s
  attempt force_insert k v hash pred s = elim (insert_uniq p k v hash true s) [
    | some r ↦ some (r.0, true, r.1)
    | none ↦ none
  ]

  module _ (k₀ : K) (v₀ : V) where
    -- What the loop does when the segment has no room.
    unfoldable pub make_room : ℕ → Table K V → Table K V
    make_room hash t =
        let sid = segment_id t.global_depth hash in
        let t' =
          if (segment_at t sid).local_depth == t.global_depth
          then increase_depth (t.global_depth + 1) t
          else t in
        split_segment p k₀ v₀ hash_fn (segment_id (t'.global_depth) hash) t'

    -- `InsertInternal`; `none` where `fuel` rounds find no room.
    unfoldable pub insert_internal :
        ℕ → InsertMode → K → V → (K → Bool) → Table K V → Option (TableIterator × Bool × Table K V)
    unfolding attempt make_room
    insert_internal zero mode k v pred t = none
    insert_internal (suc fuel) mode k v pred t =
        let hash = hash_fn k in
        let sid = segment_id t.global_depth hash in
        let rest = insert_internal fuel mode k v pred (make_room hash t) in
        elim (attempt mode k v hash pred (segment_at t sid)) [
          | none ↦ rest
          | some (it, true, s) ↦
              let t' = set_segment t (t.segment sid) s in
              some (to_table sid it, true, record t' { size = t'.size + 1 })
          | some (it, false, s) ↦ some (to_table sid it, false, t)
        ]

  -- `Erase(it)`. Destroying the key and the value is the policy's business. `--size_` meets no 0, since
  -- an entry is there.
  unfoldable pub erase_at : TableIterator → Table K V → Table K V
  erase_at it t =
      let s = segment_at t it.seg_id in
      let hash = hash_fn ((s.bucket it.bucket_id).key it.slot_id) in
      let t' =
        set_segment t (t.segment it.seg_id)
          (delete_at p (record { index = it.bucket_id; slot = it.slot_id }) hash s) in
      record t' { size = t'.size - 1 }

  -- `Erase(key)`: the number of entries erased.
  unfoldable pub erase : ℕ → (K → Bool) → Table K V → ℕ × Table K V
  erase hash pred t =
      let sid = segment_id t.global_depth hash in
      let s = segment_at t sid in
      elim (find_it p pred hash s) [
        | some it ↦
            let t' = set_segment t (t.segment sid) (delete_at p it hash s) in
            (1, record t' { size = t'.size - 1 })
        | none ↦ (0, t)
      ]
