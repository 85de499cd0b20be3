-- ===== src/Commands/Strings.antt =====
-- SET and GET of src/command_layer/string_family.cpp, on the slice of the shard.
use storage_engine.Base.{
  ℕ, ◌+◌, ◌%◌, ◌^◌, bit_and, not, List, [], Option, none, some, ◌==◌, if◌then◌else◌,
}
use storage_engine.DashTable.Segment.{Policy}
use storage_engine.DashTable.Table.Defs.{Table}
use storage_engine.Slice.Results.{OpResult, key_notfound, of_value, of_status}
use storage_engine.Slice.Defs.{
  ObjectOps, DbContext, DbSlice, SliceIterator, ItAndUpdater, value_at, set_value_at, set_db,
  get_inner_it,
}
use storage_engine.Slice.Find.{find_read_only}
use storage_engine.Slice.Add.{add_or_find, write_value}
use storage_engine.Slice.Expire.{add_expire, remove_expire}
use storage_engine.Commands.SetParams.{SetParams, set_keep_expire}

-- `none` where the program is undefined, or the fuel for an insertion does not do.
module _ {ℓ} {K V : Type ℓ} (p : Policy) (ops : ObjectOps K V) where
  -- The expiry of an existing entry, unless it is to be kept; `at_ms` is 0 where there is none.
  unfoldable pub change_expire : SetParams → ℕ → SliceIterator → Table K V → Option (Table K V)
  unfolding add_expire remove_expire
  change_expire params at_ms i t =
      if not (bit_and params.flags set_keep_expire == 0)
      then some t
      else if not (at_ms == 0)
      then add_expire p ops at_ms t i
      else elim (remove_expire p ops t i) [ some r ↦ some (r.1) | none ↦ none ]

  -- `SetExisting`. The reference to the value is taken first, and written last.
  unfoldable pub set_existing :
      SetParams → DbContext → List ℕ → SliceIterator → Table K V → Option (Table K V)
  unfolding change_expire get_inner_it set_value_at
  set_existing params cntx value i t =
      let at_ms =
        if params.expire_after_ms == 0
        then 0
        else (params.expire_after_ms + cntx.time_now_ms) % 2 ^ 64 in
      elim (get_inner_it p ops t i) [
        | none ↦ none
        | some x ↦ elim (change_expire params at_ms i t) [
          | some t' ↦ some (set_value_at x (ops.set_string value (value_at t' x)) t')
          | none ↦ none
        ]
      ]

  module _ (k₀ : K) (v₀ : V) (fuel : ℕ) where
    -- `AddNew`.
    unfoldable pub set_new :
        SetParams → DbContext → List ℕ → SliceIterator → Table K V → Option (Table K V)
    unfolding write_value add_expire
    set_new params cntx value i t =
        elim (write_value p ops k₀ v₀ fuel (ops.value_of_view value) i t) [
          | none ↦ none
          | some t' ↦
              if params.expire_after_ms == 0
              then some t'
              else add_expire p ops ((params.expire_after_ms + cntx.time_now_ms) % 2 ^ 64) t' i
        ]

    -- What `Set` does with the entry that `AddOrFind` gives.
    unfoldable pub set_entry :
        SetParams → DbContext → List ℕ → ItAndUpdater → Table K V → Option (Table K V)
    unfolding set_existing set_new
    set_entry params cntx value u t =
        if not u.is_new
        then set_existing params cntx value (u.it) t
        else set_new params cntx value (u.it) t

    -- `SetCmd::Set`, whose status is always OK.
    unfoldable pub set :
        SetParams → DbContext → List ℕ → List ℕ → DbSlice K V → Option (DbSlice K V)
    unfolding add_or_find set_entry
    set params cntx key value s = elim (add_or_find p ops k₀ v₀ fuel cntx key none s) [
      | none ↦ none
      | some (res, s') ↦ elim (s'.db_arr cntx.db_index) [
        | none ↦ none
        | some t ↦ elim (set_entry params cntx value (res.v) t) [
          | some t' ↦ some (set_db cntx.db_index t' s')
          | none ↦ none
        ]
      ]
    ]

  -- `ReadString`.
  abbrev pub read_string : V → List ℕ
  read_string v = ops.to_string v

  -- The callback of `CmdGet`, on the table of the context.
  unfoldable pub get : DbContext → List ℕ → DbSlice K V → OpResult (List ℕ)
  unfolding find_read_only get_inner_it
  get cntx key s = elim (s.db_arr cntx.db_index) [
    | none ↦ of_status [] key_notfound
    | some t ↦ elim (get_inner_it p ops t (find_read_only p ops cntx key s)) [
      | none ↦ of_status [] key_notfound
      | some x ↦ of_value (read_string (value_at t x))
    ]
  ]
