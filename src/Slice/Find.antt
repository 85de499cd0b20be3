-- ===== src/Slice/Find.antt =====
-- `FindInternal`, `FindMutable` and `FindReadOnly`.
use storage_engine.Base.{ℕ, false, not, List, [], Option, none, some, ◌==◌, if◌then◌else◌}
use storage_engine.DashTable.Segment.{Policy}
use storage_engine.DashTable.Table.Defs.{Table, TableIterator}
use storage_engine.Slice.Results.{OpResult, key_notfound, wrong_type, is_ok, of_value, of_status}
use storage_engine.Slice.Defs.{
  ObjectOps, DbContext, DbSlice, SliceIterator, ItAndUpdater, value_at, is_occupied, is_db_valid,
  find_key,
}

-- `ItAndUpdater{}`.
abbrev pub no_iterator : ItAndUpdater
no_iterator = record { it = record { it = none; key = [] }; is_new = false }

module _ {ℓ} {K V : Type ℓ} (p : Policy) (ops : ObjectOps K V) where
  -- The test on the type of what was found.
  unfoldable pub of_type : Option ℕ → Table K V → TableIterator → OpResult (Option TableIterator)
  of_type none t x = of_value (some x)
  of_type (some type) t x =
      if not (ops.obj_type (value_at t x) == type)
      then of_status none wrong_type
      else of_value (some x)

  -- What follows `prime_.Find`.
  unfoldable pub found_internal :
      Option ℕ → Table K V → Option TableIterator → OpResult (Option TableIterator)
  unfolding of_type
  found_internal req t none = of_status none key_notfound
  found_internal req t (some x) = of_type req t x

  -- A table that is not there is one that `IsDbValid` has turned down.
  unfoldable pub find_internal :
      DbContext → List ℕ → Option ℕ → DbSlice K V → OpResult (Option TableIterator)
  unfolding found_internal find_key is_db_valid
  find_internal cntx key req s =
      if not (is_db_valid cntx.db_index s)
      then of_status none key_notfound
      else elim (s.db_arr cntx.db_index) [
        | some t ↦ found_internal req t (find_key p ops key t)
        | none ↦ of_status none key_notfound
      ]

  -- What `FindMutableInternal` makes of a result of `FindInternal`, in the table `t`.
  unfoldable pub mutable_of :
      List ℕ → Table K V → OpResult (Option TableIterator) → OpResult ItAndUpdater
  unfolding is_ok is_occupied
  mutable_of key t res = if not (is_ok res) then of_status no_iterator res.st else elim res.v [
    | some x ↦
        if is_occupied t x
        then of_value (record { it = record { it = some x; key = key }; is_new = false })
        else of_status no_iterator key_notfound
    | none ↦ of_status no_iterator key_notfound
  ]

  unfoldable pub find_mutable_internal :
      DbContext → List ℕ → Option ℕ → DbSlice K V → OpResult ItAndUpdater
  unfolding find_internal mutable_of
  find_mutable_internal cntx key req s = elim (s.db_arr cntx.db_index) [
    | some t ↦ mutable_of key t (find_internal cntx key req s)
    | none ↦ of_status no_iterator key_notfound
  ]

  -- `FindMutable` and `FindReadOnly` take the value whatever the status is.
  unfoldable pub find_mutable : DbContext → List ℕ → DbSlice K V → ItAndUpdater
  unfolding find_mutable_internal
  find_mutable cntx key s = (find_mutable_internal cntx key none s).v

  unfoldable pub find_read_only : DbContext → List ℕ → DbSlice K V → SliceIterator
  unfolding find_internal
  find_read_only cntx key s = record { it = (find_internal cntx key none s).v; key = key }
