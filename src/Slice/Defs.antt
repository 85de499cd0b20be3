-- ===== src/Slice/Defs.antt =====
-- The state of a slice, its iterators, and what it asks of keys and values.
use storage_engine.Base.{
  ℕ, Bool, true, false, ◌&&◌, ◌||◌, not, List, Option, none, some, ltb, if◌then◌else◌, update,
}
use storage_engine.DashTable.SlotBitmap.Bits.{is_busy}
use storage_engine.DashTable.Bucket.{Bucket}
use storage_engine.DashTable.Segment.{Policy, set_bucket}
use storage_engine.DashTable.Table.Defs.{Table, TableIterator, segment_at, set_segment}
use storage_engine.DashTable.Table.Access.{find_first}

-- What the slice and the commands call of `CompactKey`, `CompactValue` and the table's policy.
pub record ObjectOps {ℓ} (K V : Type ℓ) : Type ℓ where
  pub key_of_view : List ℕ → K
  pub equals_view : K → List ℕ → Bool
  pub hash_key : K → ℕ
  pub hash_view : List ℕ → ℕ
  pub has_expire : K → Bool
  pub get_expire_time : K → ℕ
  pub set_expire_time : ℕ → K → K
  pub clear_expire_time : K → K
  pub empty_value : V
  pub value_of_view : List ℕ → V
  pub set_string : List ℕ → V → V
  pub to_string : V → List ℕ
  pub obj_type : V → ℕ

-- `DbContext`; the namespace leads to the slice itself.
pub record DbContext : Type 0 where
  pub db_index : ℕ
  pub time_now_ms : ℕ

-- `DbSlice`: a pointer to a table for each index below `db_count`; a null pointer is `none`.
pub record DbSlice {ℓ} (K V : Type ℓ) : Type ℓ where
  pub db_count : ℕ
  pub db_arr : ℕ → Option (Table K V)

-- `DbSlice::IteratorT`: an iterator of the table, which is `none` where it has no owner, and the key
-- that it was found by. Its owner is the table of the context that it was made in.
pub record SliceIterator : Type 0 where
  pub it : Option TableIterator
  pub key : List ℕ

pub record ItAndUpdater : Type 0 where
  pub it : SliceIterator
  pub is_new : Bool

module _ {ℓ} {K V : Type ℓ} where
  -- `operator->` of the table's iterator: the bucket it points into.
  abbrev pub bucket_at : Table K V → TableIterator → Bucket K V
  bucket_at t x = (segment_at t x.seg_id).bucket x.bucket_id

  abbrev pub key_at : Table K V → TableIterator → K
  key_at t x = (bucket_at t x).key x.slot_id

  abbrev pub value_at : Table K V → TableIterator → V
  value_at t x = (bucket_at t x).value x.slot_id

  -- Writes through `it->first` and `it->second`.
  unfoldable pub set_bucket_at : TableIterator → Bucket K V → Table K V → Table K V
  set_bucket_at x b t =
      set_segment t (t.segment x.seg_id) (set_bucket (segment_at t x.seg_id) x.bucket_id b)

  unfoldable pub set_key_at : TableIterator → K → Table K V → Table K V
  unfolding set_bucket_at
  set_key_at x k t =
      let b = bucket_at t x in set_bucket_at x (record b { key = update b.key x.slot_id k }) t

  unfoldable pub set_value_at : TableIterator → V → Table K V → Table K V
  unfolding set_bucket_at
  set_value_at x v t =
      let b = bucket_at t x in set_bucket_at x (record b { value = update b.value x.slot_id v }) t

  -- `IsOccupied`.
  unfoldable pub is_occupied : Table K V → TableIterator → Bool
  is_occupied t x = ltb x.seg_id t.directory_size && is_busy ((bucket_at t x).slotb) x.slot_id

  abbrev pub set_db : ℕ → Table K V → DbSlice K V → DbSlice K V
  set_db i t s = record s { db_arr = update s.db_arr i (some t) }

  -- `IsDbValid`.
  unfoldable pub is_db_valid : ℕ → DbSlice K V → Bool
  is_db_valid i s = ltb i s.db_count && elim (s.db_arr i) [ some _ ↦ true | none ↦ false ]

  module _ (p : Policy) (ops : ObjectOps K V) where
    -- `prime_.Find(key)`.
    unfoldable pub find_key : List ℕ → Table K V → Option TableIterator
    unfolding find_first
    find_key key t = find_first p (ops.hash_key) (ops.hash_view key) (λ k. ops.equals_view k key) t

    -- `LaunderIfNeeded`, and `GetInnerIt`, which calls it first.
    unfoldable pub launder : Table K V → SliceIterator → SliceIterator
    unfolding find_key is_occupied
    launder t i = elim i.it [
      | none ↦ i
      | some x ↦
          if not (is_occupied t x) || not (ops.equals_view (key_at t x) i.key)
          then record { it = find_key i.key t; key = i.key }
          else i
    ]

    unfoldable pub get_inner_it : Table K V → SliceIterator → Option TableIterator
    unfolding launder
    get_inner_it t i = (launder t i).it
