-- ===== src/Commands/Handlers.antt =====
-- The handlers of src/command_layer/generic_family.cpp and string_family.cpp: the hop to the shard that
-- the transaction names, and the bytes of the reply. `none` where the program is undefined or throws.
use storage_engine.Base.{
  ℕ, ◌-◌, ◌%◌, ◌^◌, List, [], ◌∷◌, Option, none, some, if◌then◌else◌, ◌==◌, ◌&&◌, Bool, true, false,
  length, update, drop,
}
use storage_engine.Base.Int.{ℤ, pos, negsuc}
use storage_engine.DashTable.Segment.{Policy}
use storage_engine.Net.Reply.{build_error, build_simple_string, build_bulk_string, build_integer}
use storage_engine.Slice.Results.{ok, is_ok, is_status}
use storage_engine.Slice.Defs.{ObjectOps, DbSlice}
use storage_engine.Commands.ArgParser.{make, next_two}
use storage_engine.Commands.SetParams.{parse_set_params, parsed, error_reply}
use storage_engine.Commands.Strings.{set, get}
use storage_engine.Commands.Generic.{
  Answer, send_error, send_status, op_del, op_exists, op_expire, op_expire_time, op_ttl,
}
use storage_engine.Transactions.{Transaction, get_shard_args, keys_of, get_elem?}

-- `SendERROR`, and what else a handler without a hop sends.
abbrev pub error_bytes : List ℕ
error_bytes = build_error (b'N' ∷ b'U' ∷ b'L' ∷ b'L' ∷ [])

abbrev pub ok_bytes : List ℕ
ok_bytes = build_simple_string (b'O' ∷ b'K' ∷ [])

unfoldable pub answer_bytes : Answer → List ℕ
answer_bytes send_error = error_bytes
answer_bytes (send_status s) = build_simple_string s

-- A negative number as the `uint64_t` that it is converted to.
unfoldable pub to_u64 : ℤ → ℕ
to_u64 (pos n) = n
to_u64 (negsuc n) = 2 ^ 64 - 1 - n

module _ {ℓ} {K V : Type ℓ} (p : Policy) (ops : ObjectOps K V) where
  -- The slice of each shard.
  abbrev pub Slices : Type ℓ
  Slices = ℕ → DbSlice K V

  -- The reply, and the slices after it.
  abbrev pub Reply : Type ℓ
  Reply = Option (List ℕ × Slices)

  -- `CmdDel`, whose callback always has the status OK.
  unfoldable pub cmd_del : Transaction → Slices → Reply
  unfolding op_del keys_of get_shard_args
  cmd_del t slices = elim (keys_of (get_shard_args t)) [
    | none ↦ none
    | some keys ↦ elim (op_del p ops t.db_cntx keys (slices t.unique_shard_id)) [
      | none ↦ none
      | some (n, s) ↦ some (build_integer (pos (n % 2 ^ 32)), update slices t.unique_shard_id s)
    ]
  ]

  -- `CmdExists`.
  unfoldable pub cmd_exists : Transaction → Slices → Reply
  unfolding op_exists keys_of get_shard_args
  cmd_exists t slices = elim (keys_of (get_shard_args t)) [
    | none ↦ none
    | some keys ↦
        let n = op_exists p ops t.db_cntx keys (slices t.unique_shard_id) in
        some (build_integer (pos (n % 2 ^ 32)), slices)
  ]

  -- `Expire` and `CmdExpire`; `atoi` is the library's.
  unfoldable pub expire : (List ℕ → ℤ) → Transaction → Slices → Reply
  unfolding op_expire to_u64
  expire atoi t slices = elim (get_elem? t.full_args 0) [
    | none ↦ none
    | some key ↦ elim (get_elem? t.full_args 1) [
      | none ↦ none
      | some sec ↦
          elim (op_expire p ops t.db_cntx key (to_u64 (atoi sec)) (slices t.unique_shard_id)) [
            | none ↦ none
            | some (st, s) ↦ some (
              if is_status st ok then ok_bytes else error_bytes,
              update slices t.unique_shard_id s,
            )
          ]
    ]
  ]

  -- `ExpireTime` and `CmdExpireTime`.
  unfoldable pub expire_time : Transaction → Slices → Reply
  unfolding op_expire_time
  expire_time t slices = elim (get_elem? t.full_args 0) [
    | none ↦ none
    | some key ↦
        let r = op_expire_time p ops t.db_cntx key (slices t.unique_shard_id) in
        some (if is_ok r then build_integer (pos r.v) else error_bytes, slices)
  ]

  -- `Ttl` and `CmdTtl`.
  unfoldable pub ttl : Transaction → Slices → Reply
  unfolding op_ttl
  ttl t slices = elim (get_elem? t.full_args 0) [
    | none ↦ none
    | some key ↦
        let r = op_ttl p ops t.db_cntx key (slices t.unique_shard_id) in
        some (if is_ok r then build_integer r.v else error_bytes, slices)
  ]

  -- `CmdGet`.
  unfoldable pub cmd_get : Transaction → Slices → Reply
  unfolding get
  cmd_get t slices = elim (get_elem? t.full_args 1) [
    | none ↦ none
    | some key ↦
        let r = get p ops t.db_cntx key (slices t.unique_shard_id) in
        some (if is_ok r then build_bulk_string r.v else error_bytes, slices)
  ]

  -- `CmdSet`; `fuel` is for the loop over the options and for the insertion.
  unfoldable pub cmd_set : K → V → ℕ → Transaction → Slices → Reply
  unfolding set
  cmd_set k₀ v₀ fuel t slices =
      let ((key, value), parser) = next_two (make (drop 1 t.full_args)) in
      elim (parse_set_params fuel parser) [
        | none ↦ none
        | some error_reply ↦ none
        | some (parsed params) ↦
            elim (set p ops k₀ v₀ fuel params t.db_cntx key value (slices t.unique_shard_id)) [
              | none ↦ none
              | some s ↦ some (ok_bytes, update slices t.unique_shard_id s)
            ]
      ]

-- `Client_Info`, which compares with `CLIENT SETINFO LIB-NAME redis-py`.
unfoldable pub same_bytes : List ℕ → List ℕ → Bool
same_bytes [] [] = true
same_bytes [] (d ∷ ds) = false
same_bytes (c ∷ cs) [] = false
same_bytes (c ∷ cs) (d ∷ ds) = (c == d) && same_bytes cs ds

unfoldable pub same_args : List (List ℕ) → List (List ℕ) → Bool
unfolding same_bytes
same_args [] [] = true
same_args [] (d ∷ ds) = false
same_args (c ∷ cs) [] = false
same_args (c ∷ cs) (d ∷ ds) = same_bytes c d && same_args cs ds

abbrev pub client_call : List (List ℕ)
client_call =
    (b'C' ∷ b'L' ∷ b'I' ∷ b'E' ∷ b'N' ∷ b'T' ∷ [])
    ∷ (b'S' ∷ b'E' ∷ b'T' ∷ b'I' ∷ b'N' ∷ b'F' ∷ b'O' ∷ [])
    ∷ (b'L' ∷ b'I' ∷ b'B' ∷ b'-' ∷ b'N' ∷ b'A' ∷ b'M' ∷ b'E' ∷ [])
    ∷ (b'r' ∷ b'e' ∷ b'd' ∷ b'i' ∷ b's' ∷ b'-' ∷ b'p' ∷ b'y' ∷ [])
    ∷ []

unfoldable pub client_info : List (List ℕ) → Answer
unfolding same_args
client_info args =
    if length client_call == length args && same_args client_call args
    then send_status (b'O' ∷ b'K' ∷ [])
    else send_error
