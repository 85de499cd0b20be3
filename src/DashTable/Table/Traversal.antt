-- ===== src/DashTable/Table/Traversal.antt =====
-- `IterateDistinct`, `Clear`, `Traverse` and the iterator's `Seek2Occupied`.
use storage_engine.Base.{
  ℕ, zero, suc, ◌+◌, ◌*◌, ◌||◌, Option, none, some, ltb, leb, if◌then◌else◌, update,
}
use storage_engine.Base.Words.{shl}
use storage_engine.DashTable.Cursor.{Cursor, make, bucket_id, end}
use storage_engine.DashTable.Cursor
use storage_engine.DashTable.Segment.{
  Policy, clear_segment, find_valid_starting_from, total_buckets, traverse_logical_bucket,
}
use storage_engine.DashTable.Table.Access.{to_table}
use storage_engine.DashTable.Table.Defs.{Table, TableIterator, segment_at, set_segment, next_seg}

module _ {ℓ} {K V : Type ℓ} where
  -- The callback gets the address of each segment once; the next entry is found before the call.
  unfoldable pub iterate_distinct : ℕ → ℕ → (ℕ → Table K V → Table K V) → Table K V → Table K V
  iterate_distinct zero i cb t = t
  iterate_distinct (suc rounds) i cb t =
      let next = next_seg t i in
      let rest = iterate_distinct rounds next cb (cb (t.segment i) t) in
      if ltb i t.directory_size then rest else t

  -- The loop of `Clear` that keeps the first `new_size` segments.
  unfoldable pub keep_first : Policy → ℕ → ℕ → ℕ → ℕ → Table K V → Table K V
  keep_first p zero new_size dest src t = t
  keep_first p (suc rounds) new_size dest src t =
      let address = t.segment src in
      let next_src = next_seg t src in
      let kept =
        let t' =
          set_segment t address (record (t.store address) { local_depth = t.initial_depth }) in
        record t' {
          bucket_count = t'.bucket_count + total_buckets p;
          segment = update (t'.segment) dest address;
        } in
      let rest =
        if ltb dest new_size
        then keep_first p rounds new_size (dest + 1) next_src kept
        else keep_first p rounds new_size dest next_src t in
      if ltb src t.directory_size then rest else t

  unfoldable pub clear_table : Policy → Table K V → Table K V
  clear_table p t =
      let wiped =
        iterate_distinct t.directory_size 0
          (λ address u. set_segment u address (clear_segment p (u.store address))) t in
      let t₁ = record wiped { size = 0 } in
      let new_size = shl 1 (t₁.initial_depth) in
      let t₂ = keep_first p (t₁.directory_size) new_size 0 0 (record t₁ { bucket_count = 0 }) in
      if ltb (t₁.initial_depth) (t₁.global_depth)
      then record t₂ {
        global_depth = t₂.initial_depth;
        unique_segments = new_size;
        directory_size = new_size;
      }
      else t₁

  -- `Seek2Occupied` of a table iterator; `none` past the last entry.
  unfoldable pub seek_occupied : Policy → ℕ → TableIterator → Table K V → Option TableIterator
  seek_occupied p zero it t = none
  seek_occupied p (suc rounds) it t =
      let next : TableIterator = record {
        seg_id = next_seg t it.seg_id;
        bucket_id = 0;
        slot_id = 0;
      } in
      let rest = seek_occupied p rounds next t in
      if ltb it.seg_id t.directory_size
      then elim (find_valid_starting_from p it.bucket_id it.slot_id (segment_at t it.seg_id)) [
        | some found ↦ some (to_table it.seg_id found)
        | none ↦ rest
      ]
      else none

  unfoldable pub begin : Policy → Table K V → Option TableIterator
  unfolding seek_occupied
  begin p t = seek_occupied p t.directory_size (record { seg_id = 0; bucket_id = 0; slot_id = 0 }) t

  -- `operator++`.
  unfoldable pub advance : Policy → TableIterator → Table K V → Option TableIterator
  unfolding seek_occupied
  advance p it t = seek_occupied p t.directory_size (record it { slot_id = it.slot_id + 1 }) t

  -- The loop of `Traverse` at bucket `bid` of directory entry `sid`.
  unfoldable pub traverse_loop {κ} :
      {S : Type κ}
      → Policy
      → (K → ℕ)
      → (TableIterator → S → S)
      → ℕ
      → ℕ
      → ℕ
      → Table K V
      → S
      → Cursor × S
  traverse_loop p hash_fn cb zero sid bid t s = (end, s)
  traverse_loop p hash_fn cb (suc rounds) sid bid t s =
      let (fetched, s') =
        traverse_logical_bucket p (λ it. cb (to_table sid it)) hash_fn bid (segment_at t sid) s in
      let next = next_seg t sid in
      let wraps = leb t.directory_size next in
      let sid' = if wraps then 0 else next in
      let bid' = if wraps then bid + 1 else bid in
      let more = traverse_loop p hash_fn cb rounds sid' bid' t s' in
      if leb p.bucket_num bid'
      then (end, s')
      else if fetched
      then (make t.global_depth sid' bid', s')
      else more

  -- `bucket_num * directory_size` rounds visit every bucket of every segment.
  unfoldable pub traverse {κ} :
      {S : Type κ}
      → Policy
      → (K → ℕ)
      → (TableIterator → S → S)
      → Cursor
      → Table K V
      → S
      → Cursor × S
  unfolding traverse_loop
  traverse p hash_fn cb cursor t s =
      let sid = Cursor.segment_id t.global_depth cursor in
      let bid = bucket_id cursor in
      if leb p.bucket_num bid || leb t.directory_size sid
      then (end, s)
      else traverse_loop p hash_fn cb (p.bucket_num * t.directory_size + 1) sid bid t s
