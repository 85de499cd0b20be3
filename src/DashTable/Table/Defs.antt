-- ===== src/DashTable/Table/Defs.antt =====
-- The table's data. Segments are shared by several directory entries, so they stand in a store
-- under addresses, and the directory holds addresses.
use storage_engine.Base.{ℕ, zero, suc, ◌+◌, ◌-◌, ltb, ◌==◌, if◌then◌else◌, update, ◌&&◌, leb}
use storage_engine.Base.Words.{shl, shl32, shr}
use storage_engine.DashTable.Bucket.Base
use storage_engine.DashTable.Segment.{Policy, Segment, total_buckets}

pub record Table {ℓ} (K V : Type ℓ) : Type ℓ where
  pub segment : ℕ → ℕ
  pub directory_size : ℕ
  pub store : ℕ → Segment K V
  pub next_address : ℕ
  pub size : ℕ
  pub unique_segments : ℕ
  pub bucket_count : ℕ
  pub initial_depth : ℕ
  pub global_depth : ℕ

-- `iterator`; one whose owner is null is `none`.
pub record TableIterator : Type 0 where
  pub seg_id : ℕ
  pub bucket_id : ℕ
  pub slot_id : ℕ

-- `std::fill` on the `len` entries from `from` on.
abbrev pub fill {ℓ} : {A : Type ℓ} → (ℕ → A) → ℕ → ℕ → A → ℕ → A
fill f from len v j = if leb from j && ltb j (from + len) then v else f j

-- `SegmentId`.
unfoldable pub segment_id : ℕ → ℕ → ℕ
segment_id global_depth hash = if global_depth == 0 then 0 else shr hash (64 - global_depth)

module _ {ℓ} {K V : Type ℓ} where
  -- `segment_[i]`, followed.
  abbrev pub segment_at : Table K V → ℕ → Segment K V
  segment_at t i = t.store (t.segment i)

  abbrev pub set_segment : Table K V → ℕ → Segment K V → Table K V
  set_segment t address s = record t { store = update t.store address s }

  -- `NextSeg`.
  unfoldable pub next_seg : Table K V → ℕ → ℕ
  next_seg t sid = sid + shl 1 (t.global_depth - (segment_at t sid).local_depth)

  -- The constructor of `Segment`; `k₀` and `v₀` are what the arrays are filled with.
  unfoldable pub new_segment : K → V → ℕ → ℕ → Segment K V
  new_segment k₀ v₀ depth id = record {
    bucket = λ _. record { base = Base.empty; key = λ _. k₀; value = λ _. v₀ };
    local_depth = depth;
    segment_id = id;
  }

  -- `ConstructSegment`: the address is that of the new segment.
  unfoldable pub construct_segment : Policy → K → V → ℕ → ℕ → Table K V → ℕ × Table K V
  construct_segment p k₀ v₀ depth id t = (
    t.next_address,
    record t {
      store = update t.store t.next_address (new_segment k₀ v₀ depth id);
      next_address = t.next_address + 1;
      bucket_count = t.bucket_count + total_buckets p;
    },
  )

  -- The loop of the table's constructor, with `rounds` segments to go from `i` on.
  unfoldable pub construct_all : Policy → K → V → ℕ → ℕ → Table K V → Table K V
  construct_all p k₀ v₀ zero i t = t
  construct_all p k₀ v₀ (suc rounds) i t =
      let (address, t') = construct_segment p k₀ v₀ t.global_depth i t in
      construct_all p k₀ v₀ rounds (suc i) (record t' { segment = update (t'.segment) i address })

  -- The number of segments is `1 << gd`, kept in a `uint32_t`.
  unfoldable pub new_table : Policy → K → V → ℕ → Table K V
  new_table p k₀ v₀ capacity_log =
      let n = shl32 1 capacity_log in
      construct_all p k₀ v₀ n 0 (record {
        segment = λ _. 0;
        directory_size = n;
        store = λ _. new_segment k₀ v₀ 0 0;
        next_address = 0;
        size = 0;
        unique_segments = n;
        bucket_count = 0;
        initial_depth = capacity_log;
        global_depth = capacity_log;
      })
