-- ===== src/Examples/Stores.antt =====
-- DEL, EXISTS and `Erase` on a table of one segment, which holds the keys 5 and 6; the name of a key is
-- the text of that one byte.
use storage_engine.Base.{
  ℕ, ◌≡◌, refl, sym, ap, ◌∙◌, Bool, false, List, [], ◌∷◌, some, arith, Bool-cases, inl, inr,
}
use storage_engine.Base.Equality.{eq_bytes, eq_bytes_sound}
use storage_engine.DashTable.Segment.Map.{IsMap}
use storage_engine.DashTable.Table.Defs.{Table, segment_id}
use storage_engine.DashTable.Table.Access.{erase}
use storage_engine.DashTable.Table.Keys.{Erases, erase-Erases}
use storage_engine.Slice.Defs.{ObjectOps, DbContext, DbSlice, is_db_valid}
use storage_engine.Slice.Keys.{IsTextual, IsSound, entries}
use storage_engine.Commands.Generic.{op_del, op_exists}
use storage_engine.Commands.Keys.{
  HasTable, Deletes, removed, entries_of_all, op_exists-entries, op_del-Deletes,
}
use storage_engine.Examples.Segments.{tiny, tiny-IsPolicy, hash_fn, crowded, crowded-AllPlaced}
use storage_engine.Examples.Maps.{crowded-IsBalanced, crowded-entries}

abbrev pub equals_name : ℕ → List ℕ → Bool
equals_name k w = eq_bytes (k ∷ []) w

abbrev pub hash_name : List ℕ → ℕ
hash_name [] = 0
hash_name (x ∷ _) = x

abbrev pub ops : ObjectOps ℕ ℕ
ops = record {
  key_of_view = hash_name;
  equals_view = equals_name;
  hash_key = hash_fn;
  hash_view = hash_name;
  has_expire = λ _. false;
  get_expire_time = λ _. 0;
  set_expire_time = λ _ k. k;
  clear_expire_time = λ k. k;
  empty_value = 0;
  value_of_view = hash_name;
  set_string = λ w _. hash_name w;
  to_string = λ v. v ∷ [];
  obj_type = λ _. 0;
}

pub ops-IsTextual : IsTextual ops
ops-IsTextual = record {
  one_name = λ k w w' e e'. sym (eq_bytes_sound (k ∷ []) w e) ∙ eq_bytes_sound (k ∷ []) w' e';
  hash = λ k w e. ap hash_name (eq_bytes_sound (k ∷ []) w e);
}

texts-IsMap : IsMap tiny hash_fn equals_name crowded
texts-IsMap = record {
  placed = crowded-AllPlaced;
  balanced = crowded-IsBalanced;
  unique = λ w. elim (Bool-cases (equals_name 5 w)) [
    | inr off ↦ ground (arith, crowded-entries (λ k _. equals_name k w), off)
    | inl on ↦ elim (Bool-cases (equals_name 6 w)) [
      | inr off ↦ ground (arith, crowded-entries (λ k _. equals_name k w), off)
      | inl on' ↦ absurd (
          omega (
            arith,
            ap hash_name (eq_bytes_sound (5 ∷ []) w on ∙ sym (eq_bytes_sound (6 ∷ []) w on')),
          ))
    ]
  ];
}

abbrev pub store : Table ℕ ℕ
store = record {
  segment = λ _. 0;
  directory_size = 1;
  store = λ _. crowded;
  next_address = 1;
  size = 2;
  unique_segments = 1;
  bucket_count = 6;
  initial_depth = 0;
  global_depth = 0;
}

store-IsSound : IsSound tiny tiny-IsPolicy ops ops-IsTextual store
unfolding segment_id
store-IsSound = record { maps = λ _. texts-IsMap; routes = λ _. omega arith }

abbrev pub slice : DbSlice ℕ ℕ
slice = record { db_count = 1; db_arr = λ _. some store }

abbrev pub context : DbContext
context = record { db_index = 0; time_now_ms = 0 }

pub slice-HasTable : HasTable tiny tiny-IsPolicy ops ops-IsTextual context slice store
unfolding is_db_valid
slice-HasTable = record { valid = refl; here = refl; sound = store-IsSound }

-- The keys 6, 7 and 6 again.
abbrev keys : List (List ℕ)
keys = (6 ∷ []) ∷ (7 ∷ []) ∷ (6 ∷ []) ∷ []

op_exists-entries_example :
    op_exists tiny ops context keys slice
    ≡ entries_of_all tiny tiny-IsPolicy ops ops-IsTextual context keys store
op_exists-entries_example =
    op_exists-entries tiny tiny-IsPolicy ops ops-IsTextual context slice store slice-HasTable keys

op_del-Deletes_example :
    (s' : DbSlice ℕ ℕ) × (op_del tiny ops context keys slice
      ≡ some (
        removed tiny tiny-IsPolicy ops ops-IsTextual context keys
            (λ w. entries tiny tiny-IsPolicy ops ops-IsTextual w store),
        s',
      ))
    × Deletes tiny tiny-IsPolicy ops ops-IsTextual context keys store s'
op_del-Deletes_example =
    op_del-Deletes tiny tiny-IsPolicy ops ops-IsTextual context keys slice store slice-HasTable

erase-Erases_example :
    Erases tiny tiny-IsPolicy hash_fn hash_name equals_name ops-IsTextual
      (6 ∷ [])
      store
      (erase tiny hash_fn (hash_name (6 ∷ [])) (λ k. equals_name k (6 ∷ [])) store)
erase-Erases_example =
    erase-Erases tiny tiny-IsPolicy hash_fn hash_name equals_name ops-IsTextual store store-IsSound
      (6 ∷ [])
