-- ===== src/Slice/Expire.antt =====
-- The operations on expiry times, and deletion.
use storage_engine.Base.{ℕ, Bool, true, false, not, Option, none, some, ltb, if◌then◌else◌}
use storage_engine.DashTable.Segment.{Policy}
use storage_engine.DashTable.Table.Defs.{Table, TableIterator}
use storage_engine.DashTable.Table.Access.{erase_at}
use storage_engine.Slice.Defs.{
  ObjectOps, DbContext, DbSlice, SliceIterator, ItAndUpdater, key_at, set_key_at, set_db,
  get_inner_it,
}

module _ {ℓ} {K V : Type ℓ} (p : Policy) (ops : ObjectOps K V) where
  -- A call on `it->first`, which is undefined where the iterator has no owner: then `none`.
  unfoldable pub with_key :
      {A : Type ℓ} → (TableIterator → K → Table K V → A) → Table K V → SliceIterator → Option A
  unfolding get_inner_it
  with_key f t i = elim (get_inner_it p ops t i) [
    | some x ↦ some (f x (key_at t x) t)
    | none ↦ none
  ]

  -- `main_it->first.SetExpireTime(at)`: the body of `UpdateExpire`, whose status is OK, and of
  -- `AddExpire`.
  unfoldable pub add_expire : ℕ → Table K V → SliceIterator → Option (Table K V)
  unfolding with_key set_key_at
  add_expire at t i = with_key (λ x k u. set_key_at x (ops.set_expire_time at k) u) t i

  -- The rest of `RemoveExpire`, for this key.
  unfoldable pub remove_expire_of : TableIterator → K → Table K V → Bool × Table K V
  unfolding set_key_at
  remove_expire_of x k t =
      if not (ops.has_expire k)
      then (false, t)
      else (true, set_key_at x (ops.clear_expire_time k) t)

  unfoldable pub remove_expire : Table K V → SliceIterator → Option (Bool × Table K V)
  unfolding with_key remove_expire_of
  remove_expire t i = with_key remove_expire_of t i

  -- `PerformDeletionAtomic`, and `Del` and `DelMutable` on the table of their context.
  unfoldable pub perform_deletion : SliceIterator → Table K V → Option (Table K V)
  unfolding get_inner_it erase_at
  perform_deletion i t = elim (get_inner_it p ops t i) [
    | some x ↦ some (erase_at p (ops.hash_key) x t)
    | none ↦ none
  ]

  unfoldable pub del : DbContext → SliceIterator → DbSlice K V → Option (DbSlice K V)
  unfolding perform_deletion
  del cntx i s = elim (s.db_arr cntx.db_index) [
    | some t ↦ elim (perform_deletion i t) [
      | some t' ↦ some (set_db cntx.db_index t' s)
      | none ↦ none
    ]
    | none ↦ none
  ]

  unfoldable pub del_mutable : DbContext → ItAndUpdater → DbSlice K V → Option (DbSlice K V)
  unfolding del
  del_mutable cntx u s = del cntx (u.it) s

  -- `ExpireIfNeeded` on an iterator of the table; times are below `2 ^ 63`. The text of the key is
  -- that of the entry, so the iterator made for the deletion is not laundered.
  unfoldable pub expire_if_needed :
      DbContext → TableIterator → Table K V → Option TableIterator × Table K V
  unfolding erase_at
  expire_if_needed cntx x t =
      let k = key_at t x in
      if not (ops.has_expire k)
      then (some x, t)
      else if ltb cntx.time_now_ms (ops.get_expire_time k)
      then (some x, t)
      else (none, erase_at p (ops.hash_key) x t)
