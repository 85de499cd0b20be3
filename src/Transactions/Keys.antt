-- ===== src/Transactions/Keys.antt =====
-- The keys that a command gives to its shard.
use storage_engine.Base.{ℕ, ◌≡◌, refl, List, [], ◌∷◌, some}
use storage_engine.Transactions.{
  Transaction, get_shard_args, keys_of, each_key, at_end, deref, advance, get_elem?,
}

-- The loop over the keys of a command meets its first argument after the name, and no other.
pub get_shard_args-keys :
    (t : Transaction) (name key : List ℕ) (rest : List (List ℕ))
    → t.full_args ≡ name ∷ key ∷ rest
    → keys_of (get_shard_args t) ≡ some (key ∷ [])
unfolding keys_of get_shard_args each_key at_end deref advance get_elem?
get_shard_args-keys t name key rest e = rw e refl
