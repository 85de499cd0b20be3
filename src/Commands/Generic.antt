-- ===== src/Commands/Generic.antt =====
-- DEL, EXISTS, EXPIRE, TTL, PING and CLIENT of src/command_layer/generic_family.cpp, on the slice of
-- the shard.
use storage_engine.Base.{ℕ, ◌+◌, ◌-◌, not, List, [], ◌∷◌, Option, none, some, leb, if◌then◌else◌}
use storage_engine.Base.Int.{ℤ, pos, negsuc}
use storage_engine.DashTable.Segment.{Policy}
use storage_engine.DashTable.Table.Defs.{TableIterator}
use storage_engine.Slice.Results.{
  OpStatus, OpResult, ok, key_notfound, wrong_type, skipped, of_value, of_status,
}
use storage_engine.Slice.Defs.{
  ObjectOps, DbContext, DbSlice, SliceIterator, key_at, set_db, get_inner_it,
}
use storage_engine.Slice.Find.{find_mutable, find_read_only}
use storage_engine.Slice.Expire.{del, add_expire}

-- What is sent back: `SendStatus`, or `SendERROR`.
pub data Answer : Type 0 where
  send_error : Answer
  send_status : List ℕ → Answer

module _ {ℓ} {K V : Type ℓ} (p : Policy) (ops : ObjectOps K V) where
  -- The iterator on the table of the context; where there is none, nothing was found.
  unfoldable pub inner_it : DbContext → SliceIterator → DbSlice K V → Option TableIterator
  unfolding get_inner_it
  inner_it cntx i s = elim (s.db_arr cntx.db_index) [
    | some t ↦ get_inner_it p ops t i
    | none ↦ none
  ]

  -- One round of `OpDel` with what `FindMutable` gives: what it adds to the count, and the slice.
  unfoldable pub del_found : DbContext → SliceIterator → DbSlice K V → Option (ℕ × DbSlice K V)
  unfolding inner_it del
  del_found cntx i s = elim (inner_it cntx i s) [
    | none ↦ some (0, s)
    | some _ ↦ elim (del p ops cntx i s) [ some s' ↦ some (1, s') | none ↦ none ]
  ]

  unfoldable pub del_one : DbContext → List ℕ → DbSlice K V → Option (ℕ × DbSlice K V)
  unfolding del_found find_mutable
  del_one cntx key s = del_found cntx ((find_mutable p ops cntx key s).it) s

  -- `OpDel`.
  unfoldable pub op_del : DbContext → List (List ℕ) → DbSlice K V → Option (ℕ × DbSlice K V)
  unfolding del_one
  op_del cntx [] s = some (0, s)
  op_del cntx (key ∷ keys) s = elim (del_one cntx key s) [
    | none ↦ none
    | some (n, s') ↦ elim (op_del cntx keys s') [ none ↦ none | some (m, s'') ↦ some (n + m, s'') ]
  ]

  -- `Op` of `CmdExists`.
  unfoldable pub op_exists : DbContext → List (List ℕ) → DbSlice K V → ℕ
  unfolding inner_it find_read_only
  op_exists cntx [] s = 0
  op_exists cntx (key ∷ keys) s =
      elim (inner_it cntx (find_read_only p ops cntx key s) s) [ some _ ↦ 1 | none ↦ 0 ]
      + op_exists cntx keys s

  -- The callback of `CmdExpire`; `sec` is what `SetExpireTime` gets, as a `uint64_t`.
  unfoldable pub op_expire : DbContext → List ℕ → ℕ → DbSlice K V → Option (OpStatus × DbSlice K V)
  unfolding inner_it find_mutable add_expire
  op_expire cntx key sec s =
      let i = (find_mutable p ops cntx key s).it in
      elim (s.db_arr cntx.db_index) [
        | none ↦ some (key_notfound, s)
        | some t ↦ elim (get_inner_it p ops t i) [
          | none ↦ some (key_notfound, s)
          | some _ ↦ elim (add_expire p ops sec t i) [
            | some t' ↦ some (ok, set_db cntx.db_index t' s)
            | none ↦ none
          ]
        ]
      ]

  -- What `CmdExpireTime` and `CmdTtl` do with what they have found.
  unfoldable pub expiry_of : K → OpResult ℕ
  expiry_of k =
      if not (ops.has_expire k) then of_status 0 skipped else of_value (ops.get_expire_time k)

  -- The callback of `CmdExpireTime`.
  unfoldable pub op_expire_time : DbContext → List ℕ → DbSlice K V → OpResult ℕ
  unfolding find_read_only get_inner_it expiry_of
  op_expire_time cntx key s = elim (s.db_arr cntx.db_index) [
    | none ↦ of_status 0 key_notfound
    | some t ↦ elim (get_inner_it p ops t (find_read_only p ops cntx key s)) [
      | none ↦ of_status 0 key_notfound
      | some x ↦ expiry_of (key_at t x)
    ]
  ]

  -- `ttlTime - time_now_ms_`, read as an `int64_t`; times are below `2 ^ 63`.
  unfoldable pub ttl_of : ℕ → ℕ → ℤ
  ttl_of time now = if leb now time then pos (time - now) else negsuc (now - time - 1)

  -- The callback of `CmdTtl`.
  unfoldable pub op_ttl : DbContext → List ℕ → DbSlice K V → OpResult ℤ
  unfolding op_expire_time ttl_of
  op_ttl cntx key s =
      let r = op_expire_time cntx key s in
      record {
        st = r.st;
        v = elim r.st [
          | ok ↦ ttl_of r.v cntx.time_now_ms
          | key_notfound ↦ pos 0
          | wrong_type ↦ pos 0
          | skipped ↦ pos 0
        ];
      }

-- `Ping`.
unfoldable pub ping : List (List ℕ) → Answer
ping [] = send_status (b'P' ∷ b'O' ∷ b'N' ∷ b'G' ∷ [])
ping (_ ∷ []) = send_status (b'P' ∷ b'O' ∷ b'N' ∷ b'G' ∷ [])
ping (_ ∷ _ ∷ _) = send_error
