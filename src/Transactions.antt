-- ===== src/Transactions.antt =====
-- `ShardArgs` of src/detail/tx_base.hpp, `Transaction` of src/transaction_layer/transaction.hpp and
-- transaction.cpp, and `Shard` of src/sharding/engine_shard_set.cpp: which shard a command goes to, and
-- which of its arguments the shard takes for keys. `none` is a read outside of an array.
pub mod Keys
pub mod Handlers
use storage_engine.Base.{
  ℕ, zero, suc, ◌+◌, ◌-◌, ◌%◌, ◌^◌, bit_and, Bool, true, false, ◌&&◌, List, [], ◌∷◌, Option, none,
  some, ltb, leb, ◌==◌, if◌then◌else◌, length,
}
use storage_engine.Slice.Defs.{DbContext}

pub record ShardArgs : Type 0 where
  pub slice : List (List ℕ)
  pub index : List ℕ

-- `ShardArgs::Iterator`: `index_it` has the indices from the iterator's place on.
pub record ArgIterator : Type 0 where
  pub arglist : List (List ℕ)
  pub index_it : List ℕ
  pub delta : ℕ

unfoldable pub get_elem? {ℓ} : {A : Type ℓ} → List A → ℕ → Option A
get_elem? [] n = none
get_elem? (x ∷ xs) zero = some x
get_elem? (x ∷ xs) (suc n) = get_elem? xs n

-- `operator*`, with `index()`.
unfoldable pub deref : ArgIterator → Option (List ℕ)
unfolding get_elem?
deref i = elim i.index_it [ x ∷ rest ↦ get_elem? i.arglist ((x + i.delta) % 2 ^ 32) | [] ↦ none ]

-- `operator++`. The new `delta_` is in `index()` when that is compared.
unfoldable pub advance : ArgIterator → Option ArgIterator
advance i = elim i.index_it [
  | x ∷ rest ↦
      let delta = (i.delta + 1) % 2 ^ 32 in
      some (
        if leb x ((x + delta) % 2 ^ 32)
        then record i { index_it = rest; delta = 0 }
        else record i { delta = delta })
  | [] ↦ none
]

-- `operator==` with `cend()`.
unfoldable pub at_end : ArgIterator → Bool
at_end i = elim i.index_it [ [] ↦ i.delta == 0 | _ ∷ _ ↦ false ]

-- What a loop over the arguments meets, in at most `fuel` rounds.
unfoldable pub each_key : ℕ → ArgIterator → Option (List (List ℕ))
unfolding at_end deref advance
each_key zero i = none
each_key (suc fuel) i = elim (at_end i) [
  | true ↦ some []
  | false ↦ elim (deref i) [
    | none ↦ none
    | some key ↦ elim (advance i) [
      | none ↦ none
      | some next ↦ elim (each_key fuel next) [ none ↦ none | some keys ↦ some (key ∷ keys) ]
    ]
  ]
]

-- The loop from `cbegin()` on.
unfoldable pub keys_of : ShardArgs → Option (List (List ℕ))
unfolding each_key
keys_of a =
    each_key (length a.index + 1) (record { arglist = a.slice; index_it = a.index; delta = 0 })

unfoldable pub is_power_of_two : ℕ → Bool
is_power_of_two n = ltb 0 n && (bit_and n (n - 1) == 0)

-- `Shard`, for `size` shards; `hash` is that of the library.
unfoldable pub shard : (List ℕ → ℕ) → ℕ → List ℕ → ℕ
unfolding is_power_of_two
shard hash size key =
    (if is_power_of_two size then bit_and (hash key) (size - 1) else hash key % size) % 2 ^ 16

-- `Transaction`, without its command and its namespace.
pub record Transaction : Type 0 where
  pub db_cntx : DbContext
  pub full_args : List (List ℕ)
  pub unique_shard_id : ℕ

-- `args.size() > 1 ? args[1] : ""`.
unfoldable pub first_key : List (List ℕ) → List ℕ
first_key [] = []
first_key (_ ∷ []) = []
first_key (_ ∷ key ∷ _) = key

-- `InitByArgs`, at the time of the context.
unfoldable pub init_by_args : (List ℕ → ℕ) → ℕ → DbContext → List (List ℕ) → Transaction
unfolding first_key shard
init_by_args hash size cntx args = record {
  db_cntx = cntx;
  full_args = args;
  unique_shard_id = shard hash size (first_key args);
}

unfoldable pub get_shard_args : Transaction → ShardArgs
get_shard_args t = record { slice = t.full_args; index = 1 ∷ [] }
