-- ===== src/Slice/Add.antt =====
-- `AddOrFind`, `AddOrUpdate` and `AddNew`.
use storage_engine.Base.{ℕ, true, false, not, List, Option, none, some, ◌==◌, if◌then◌else◌}
use storage_engine.DashTable.Segment.{Policy}
use storage_engine.DashTable.Table.Defs.{Table, TableIterator}
use storage_engine.DashTable.Table.Access.{insert_internal, force_insert}
use storage_engine.Slice.Results.{OpResult, wrong_type, is_ok, is_status, of_value, of_status}
use storage_engine.Slice.Defs.{
  ObjectOps, DbContext, DbSlice, SliceIterator, ItAndUpdater, is_occupied, set_value_at, set_db,
  get_inner_it,
}
use storage_engine.Slice.Find.{no_iterator, find_internal}
use storage_engine.Slice.Expire.{add_expire, remove_expire}

-- `k₀` and `v₀` fill the arrays of a new segment, and `fuel` bounds the rounds of an insertion.
-- `none` where the program is undefined, or the fuel does not do.
module _ {ℓ} {K V : Type ℓ} (p : Policy) (ops : ObjectOps K V) (k₀ : K) (v₀ : V) (fuel : ℕ) where
  -- `prime_.InsertNew(key, PrimeValue{})`.
  unfoldable pub insert_new : List ℕ → Table K V → Option (TableIterator × Table K V)
  unfolding insert_internal
  insert_new key t =
      elim (insert_internal p (ops.hash_key) k₀ v₀ fuel force_insert (ops.key_of_view key)
        (ops.empty_value) (λ k. ops.equals_view k key) t) [
          | some (x, _, t') ↦ some (x, t')
          | none ↦ none
        ]

  -- The new entry's iterator, and the slice with it.
  unfoldable pub new_entry :
      DbContext
      → List ℕ
      → Option (TableIterator × Table K V)
      → DbSlice K V
      → Option (OpResult ItAndUpdater × DbSlice K V)
  new_entry cntx key (some (x, t')) s = some (
    of_value (record { it = record { it = some x; key = key }; is_new = true }),
    set_db cntx.db_index t' s,
  )
  new_entry cntx key none s = none

  -- What `AddOrFindInternal` does with the result of `FindInternal`, in the table `t`. Running out of
  -- memory is left out.
  unfoldable pub find_or_add :
      DbContext
      → List ℕ
      → Table K V
      → OpResult (Option TableIterator)
      → DbSlice K V
      → Option (OpResult ItAndUpdater × DbSlice K V)
  unfolding insert_new new_entry is_ok is_status is_occupied
  find_or_add cntx key t res s =
      let added = new_entry cntx key (insert_new key t) s in
      if is_ok res
      then elim res.v [
        | some x ↦
            if is_occupied t x
            then some
                (of_value (record { it = record { it = some x; key = key }; is_new = false }), s)
            else added
        | none ↦ none
      ]
      else if is_status res.st wrong_type
      then some (of_status no_iterator wrong_type, s)
      else added

  -- `AddOrFind`.
  unfoldable pub add_or_find :
      DbContext → List ℕ → Option ℕ → DbSlice K V → Option (OpResult ItAndUpdater × DbSlice K V)
  unfolding find_or_add find_internal
  add_or_find cntx key req s = elim (s.db_arr cntx.db_index) [
    | some t ↦ find_or_add cntx key t (find_internal p ops cntx key req s) s
    | none ↦ none
  ]

  -- `it->second = v`, which is undefined where the iterator has no owner.
  unfoldable pub write_value : V → SliceIterator → Table K V → Option (Table K V)
  unfolding get_inner_it set_value_at
  write_value v i t = elim (get_inner_it p ops t i) [
    | some x ↦ some (set_value_at x v t)
    | none ↦ none
  ]

  -- The value and the expiry of a new entry; an expiry of 0 stands for none.
  unfoldable pub fill_new : V → ℕ → SliceIterator → Table K V → Option (Table K V)
  unfolding write_value add_expire remove_expire
  fill_new v expire_at_ms i t = elim (write_value v i t) [
    | none ↦ none
    | some t' ↦
        if not (expire_at_ms == 0)
        then add_expire p ops expire_at_ms t' i
        else elim (remove_expire p ops t' i) [ some r ↦ some (r.1) | none ↦ none ]
  ]

  -- What `AddOrUpdateInternal` does with the result of `AddOrFind`.
  unfoldable pub update_added :
      DbContext
      → V
      → ℕ
      → OpResult ItAndUpdater
      → DbSlice K V
      → Option (OpResult ItAndUpdater × DbSlice K V)
  unfolding fill_new is_ok
  update_added cntx v expire_at_ms res s =
      if not (is_ok res)
      then some (of_status no_iterator res.st, s)
      else if not ((res.v).is_new)
      then some (res, s)
      else elim (s.db_arr cntx.db_index) [
        | some t ↦ elim (fill_new v expire_at_ms ((res.v).it) t) [
          | some t' ↦ some (res, set_db cntx.db_index t' s)
          | none ↦ none
        ]
        | none ↦ none
      ]

  unfoldable pub add_or_update :
      DbContext → List ℕ → V → ℕ → DbSlice K V → Option (OpResult ItAndUpdater × DbSlice K V)
  unfolding add_or_find update_added
  add_or_update cntx key v expire_at_ms s = elim (add_or_find cntx key none s) [
    | some (res, s') ↦ update_added cntx v expire_at_ms res s'
    | none ↦ none
  ]

  -- `AddNew`, which takes the value whatever the status is, and does not pass `is_new_` on.
  unfoldable pub add_new :
      DbContext → List ℕ → V → ℕ → DbSlice K V → Option (OpResult ItAndUpdater × DbSlice K V)
  unfolding add_or_update
  add_new cntx key v expire_at_ms s = elim (add_or_update cntx key v expire_at_ms s) [
    | some (res, s') ↦ some (of_value (record { it = (res.v).it; is_new = false }), s')
    | none ↦ none
  ]
