-- ===== src/DashTable/Table/Directory.antt =====
-- `IncreaseDepth` and `Split`.
use storage_engine.Base.{ℕ, zero, suc, ◌+◌, ◌-◌, ◌*◌, ◌/◌, ◌%◌, ◌^◌, bit_and}
use storage_engine.Base.Words.{shl, bit_not32}
use storage_engine.DashTable.Segment.{Policy, split}
use storage_engine.DashTable.Table.Defs.{Table, fill, segment_at, set_segment, construct_segment}

module _ {ℓ} {K V : Type ℓ} where
  -- The loop of `IncreaseDepth`, from entry `i - 1` down: each old entry is copied `repl` times.
  unfoldable pub replicate_entries : ℕ → ℕ → Table K V → Table K V
  replicate_entries zero repl t = t
  replicate_entries (suc i) repl t =
      let offs = i * repl in
      let t' = record t { segment = fill t.segment offs repl (t.segment i) } in
      replicate_entries i repl
        (set_segment t' (t'.segment i) (record (segment_at t' i) { segment_id = offs }))

  unfoldable pub increase_depth : ℕ → Table K V → Table K V
  increase_depth new_depth t =
      let repl = shl 1 (new_depth - t.global_depth) in
      let t' =
        replicate_entries t.directory_size repl (record t { directory_size = shl 1 new_depth }) in
      record t' { global_depth = new_depth }

  -- The directory entries of the segment at `seg_id`: how many, the first, and the first that goes
  -- to the new segment. Below 32 places the shift of `1u` is that of numbers.
  unfoldable pub chunk_size : Table K V → ℕ → ℕ
  chunk_size t seg_id = shl 1 (t.global_depth - (segment_at t seg_id).local_depth)

  unfoldable pub start_idx : Table K V → ℕ → ℕ
  start_idx t seg_id = bit_and seg_id (bit_not32 (chunk_size t seg_id - 1))

  unfoldable pub target_id : Table K V → ℕ → ℕ
  target_id t seg_id = start_idx t seg_id + chunk_size t seg_id / 2

  -- The loop over the entries ends at `start_idx + chunk_size`, a sum of two `uint32_t`.
  unfoldable pub split_segment : Policy → K → V → (K → ℕ) → ℕ → Table K V → Table K V
  split_segment p k₀ v₀ hash_fn seg_id t =
      let source = t.segment seg_id in
      let chunk = chunk_size t seg_id in
      let start = start_idx t seg_id in
      let tid = target_id t seg_id in
      let end = (start + chunk) % 2 ^ 32 in
      let (target, t₁) = construct_segment p k₀ v₀ ((t.store source).local_depth + 1) tid t in
      let (left, right) = split p hash_fn (t₁.store source) (t₁.store target) in
      let t₂ = set_segment (set_segment t₁ source left) target right in
      record t₂ {
        unique_segments = t₂.unique_segments + 1;
        segment = fill (t₂.segment) tid (end - tid) target;
      }
