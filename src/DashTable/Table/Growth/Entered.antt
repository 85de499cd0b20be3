-- ===== src/DashTable/Table/Growth/Entered.antt =====
-- `InsertInternal` as an insertion into a finite map, over all its rounds.
use storage_engine.Base.{ℕ, suc, ◌<◌, ◌≡◌, ◌⊎◌, Bool, true, false, Option, none, some}
use storage_engine.DashTable.Segment.Defs.{Policy, IsPolicy, Segment, Iterator}
use storage_engine.DashTable.Segment.Insertion.{insert_unless_found}
use storage_engine.DashTable.Segment.Insertion.Total.{IsExhausted}
use storage_engine.DashTable.Segment.Map.{IsNaming}
use storage_engine.DashTable.Table.Defs.{Table, TableIterator, segment_at}
use storage_engine.DashTable.Table.Access.{
  insert_if_not_found, make_room, insert_internal, to_table,
}
use storage_engine.DashTable.Table.Keys.{entries_at, route}
use storage_engine.DashTable.Table.Division.Contents.{Keeps}
use storage_engine.DashTable.Table.Growth.{IsSparse}
use storage_engine.DashTable.Table.Growth.Entry.{Enters}

module _ {ℓ κ} {K V : Type ℓ} {T : Type κ} (p : Policy) (ok : IsPolicy p) (hash_fn : K → ℕ)
    (hash_name : T → ℕ) (equal : K → T → Bool) (k₀ : K) (v₀ : V) (k : K) (v : V) (w : T) where
  abbrev named : K → Bool
  named a = equal a w

  -- The attempt in the segment that the hash leads to.
  abbrev pub try_in : Table K V → Option (Iterator × Bool × Segment K V)
  try_in t =
      insert_unless_found p k v (hash_name w) named
        (segment_at t (route p hash_fn hash_name equal w t))

  -- The rounds of the loop, from a table to the one where the name has an entry or one of the six
  -- buckets that may take the new one has a free slot: until then the attempt finds no room, and room is
  -- made, for which the directory must have less than 2 ^ 31 entries, and the entries that go from the
  -- segment must be fewer than six buckets hold.
  pub data Rounds : ℕ → Table K V → Table K V → Type ℓ where
    last :
        (t : Table K V)
        → (IsExhausted p (hash_name w) (segment_at t (route p hash_fn hash_name equal w t))
            → 0 < entries_at p hash_fn hash_name equal w t)
        → Rounds 1 t t
    again :
        (n : ℕ) (t u : Table K V)
        → try_in t ≡ none
        → t.global_depth < 31
        → IsSparse p ok hash_fn (hash_name w) t
        → Rounds n (make_room p hash_fn k₀ v₀ (hash_name w) t) u
        → Rounds (suc n) t u

  abbrev pub inserting : ℕ → Table K V → Option (TableIterator × Bool × Table K V)
  inserting fuel t = insert_internal p hash_fn k₀ v₀ fuel insert_if_not_found k v named t

  module _ (naming : IsNaming hash_fn hash_name equal) (own : equal k w ≡ true) where
    -- The outcome of `InsertInternal`: the name has an entry, which is found, or it has none, and the new
    -- entry comes to the table.
    abbrev pub Outcome : ℕ → Table K V → Table K V → Type (ℓ ⊔ κ)
    Outcome fuel t u =
        ((it : Iterator) × (inserting fuel t
            ≡ some (to_table (route p hash_fn hash_name equal w u) it, false, u))
          × (entries_at p hash_fn hash_name equal w t ≡ 1)
          × Keeps p hash_fn hash_name equal t u)
        ⊎ ((it : Iterator) × (t' : Table K V) × (inserting fuel t
              ≡ some (to_table (route p hash_fn hash_name equal w u) it, true, t'))
            × Enters p hash_fn hash_name equal naming k v w own t it t')
