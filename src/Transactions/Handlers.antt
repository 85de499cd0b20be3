-- ===== src/Transactions/Handlers.antt =====
-- DEL and EXISTS over the transaction: they see the first key alone.
use storage_engine.Base.{ℕ, ◌+◌, ◌%◌, ◌^◌, ◌≡◌, ap, List, [], ◌∷◌, some, update, inl, inr, arith}
use storage_engine.Base.Int.{pos}
use storage_engine.DashTable.Segment.Defs.{Policy, IsPolicy}
use storage_engine.DashTable.Table.Defs.{Table}
use storage_engine.Net.Reply.{build_integer}
use storage_engine.Slice.Defs.{ObjectOps, DbContext, DbSlice}
use storage_engine.Slice.Keys.{IsTextual, entries, find_read_only-cases}
use storage_engine.Commands.Keys.{HasTable, Deletes, op_exists-entries, op_del-Deletes}
use storage_engine.Commands.Handlers.{Slices, cmd_del, cmd_exists}
use storage_engine.Transactions.{
  Transaction, shard, first_key, init_by_args, get_shard_args, keys_of, each_key, at_end, deref,
  advance, get_elem?,
}

module _ {ℓ} {K V : Type ℓ} (p : Policy) (ok : IsPolicy p) (ops : ObjectOps K V)
    (textual : IsTextual ops) (hash : List ℕ → ℕ) (size : ℕ) (cntx : DbContext) (name key : List ℕ)
    (rest : List (List ℕ)) (slices : Slices p ops) (t : Table K V)
    (has : HasTable p ok ops textual cntx (slices (shard hash size key)) t) where
  abbrev many : Transaction
  many = init_by_args hash size cntx (name ∷ key ∷ rest)

  abbrev own : DbSlice K V
  own = slices (shard hash size key)

  abbrev n : ℕ
  n = entries p ok ops textual key t

  -- What is counted fits in a `uint32_t`.
  counted : (n + 0) % 2 ^ 32 ≡ n
  counted =
      elim (find_read_only-cases p ok ops textual cntx own t has.valid has.here has.sound key) [
        | inl (_, no_entry) ↦ omega (arith, no_entry)
        | inr (_, _, _, one) ↦ omega (arith, one)
      ]

  -- EXISTS and DEL of any number of keys, on shards of which that of the first key has a table with a
  -- map in every segment: both reply with the number of entries of the first key in that table. EXISTS
  -- changes nothing, and DEL changes the slice of that shard only, whose table is sound again and has
  -- the entries of before without that of the first key.
  pub cmd_exists-cmd_del :
      (cmd_exists p ops many slices ≡ some (build_integer (pos n), slices))
      × ((s' : DbSlice K V) × (cmd_del p ops many slices
            ≡ some (build_integer (pos n), update slices (shard hash size key) s'))
          × Deletes p ok ops textual cntx (key ∷ []) t s')
  unfolding cmd_del cmd_exists init_by_args first_key keys_of get_shard_args each_key at_end deref
      advance get_elem?
  cmd_exists-cmd_del =
      let (s', e, deletes) = op_del-Deletes p ok ops textual cntx (key ∷ []) own t has in
      let found = op_exists-entries p ok ops textual cntx own t has (key ∷ []) in
      (
        rw (found, cmd_exists) (ap (λ m. some (build_integer (pos m), slices)) counted),
        (
          s',
          rw (e, cmd_del)
              (ap (λ m. some (build_integer (pos m), update slices (shard hash size key) s'))
                counted),
          deletes,
        ),
      )
