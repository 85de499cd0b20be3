-- ===== src/Slice/Keys.antt =====
-- What the lookups of the slice give, on a table whose segments are maps.
use storage_engine.Base.{◌∙◌, sym, ℕ, ◌≡◌, ◌⊎◌, refl, true, List, none, some, inl, inr, arith}
use storage_engine.DashTable.Segment.Defs.{Policy, IsPolicy, fingerprint}
use storage_engine.DashTable.Segment.Found.{IsFound}
use storage_engine.DashTable.Segment.Map.{IsNaming, same_slot}
use storage_engine.DashTable.Table.Defs.{Table, TableIterator, segment_at}
use storage_engine.DashTable.Table.Access.{to_table}
use storage_engine.DashTable.Table.Keys.{IsTable, entries_at, route, find_first-cases}
use storage_engine.Slice.Results.{key_notfound, of_value, of_status, is_ok, is_status}
use storage_engine.Slice.Defs.{
  ObjectOps, DbContext, DbSlice, is_db_valid, is_occupied, find_key, launder, get_inner_it,
}
use storage_engine.Slice.Find.{
  of_type, found_internal, find_internal, mutable_of, find_mutable_internal, find_mutable,
  find_read_only,
}

-- What the slice relies on: equality with a text means that the key has that text and its hash.
abbrev pub IsTextual {ℓ} : {K V : Type ℓ} → ObjectOps K V → Type ℓ
IsTextual ops = IsNaming (ops.hash_key) (ops.hash_view) (ops.equals_view)

module _ {ℓ} {K V : Type ℓ} (p : Policy) (ok : IsPolicy p) (ops : ObjectOps K V)
    (textual : IsTextual ops) where
  abbrev pub IsSound : Table K V → Type 0
  IsSound t = IsTable p (ops.hash_key) (ops.hash_view) (ops.equals_view) t

  -- How many entries have the key.
  abbrev pub entries : List ℕ → Table K V → ℕ
  entries key t = entries_at p (ops.hash_key) (ops.hash_view) (ops.equals_view) key t

  module _ (t : Table K V) (sound : IsSound t) (key : List ℕ) where
    -- Found where the key belongs.
    abbrev pub IsAt : TableIterator → Type 0
    IsAt x =
        (x.seg_id ≡ route p (ops.hash_key) (ops.hash_view) (ops.equals_view) key t)
        × (is_occupied t x ≡ true)
        × IsFound p (λ k. ops.equals_view k key) (fingerprint (ops.hash_view key))
            (segment_at t x.seg_id) (record { index = x.bucket_id; slot = x.slot_id })

    pub find_key-cases :
        ((find_key p ops key t ≡ none) × (entries key t ≡ 0))
        ⊎ ((x : TableIterator) × (find_key p ops key t ≡ some x) × IsAt x × (entries key t ≡ 1))
    unfolding find_key is_occupied
    find_key-cases =
        elim (find_first-cases p ok (ops.hash_key) (ops.hash_view) (ops.equals_view) textual t sound
          key) [
            | inl r ↦ inl r
            | inr (it, e, found, one) ↦
                let routed = sound.routes key in
                inr (to_table _ it, e, (refl, ground (arith, routed, found.busy), found), one)
          ]

    -- An iterator that is where the key belongs stays as it is.
    pub launder-IsAt :
        (x : TableIterator)
        → IsAt x
        → get_inner_it p ops t (record { it = some x; key = key }) ≡ some x
    unfolding get_inner_it launder
    launder-IsAt x (_, occupied, found) = rw (get_inner_it, occupied, found.accepted) refl

    -- There is one such place.
    pub IsAt-unique : (x y : TableIterator) → IsAt x → IsAt y → y ≡ x
    IsAt-unique x y (seg_x, _, found_x) (seg_y, _, found_y) =
        let same = seg_y ∙ sym seg_x in
        let (bucket, slot) =
          same_slot p (ops.hash_key) (ops.equals_view) (segment_at t x.seg_id)
            (sound.maps (t.segment x.seg_id)) key (fingerprint (ops.hash_view key)) _ _ found_x
            (rw same at found_y) in
        cc (same, bucket, slot)

  module _ (cntx : DbContext) (s : DbSlice K V) (t : Table K V)
      (valid : is_db_valid cntx.db_index s ≡ true) (here : s.db_arr cntx.db_index ≡ some t)
      (sound : IsSound t) (key : List ℕ) where
    pub find_internal-cases :
        ((find_internal p ops cntx key none s ≡ of_status none key_notfound) × (entries key t ≡ 0))
        ⊎ ((x : TableIterator) × (find_internal p ops cntx key none s ≡ of_value (some x))
            × IsAt t sound key x
            × (entries key t ≡ 1))
    unfolding find_internal found_internal of_type
    find_internal-cases = elim (find_key-cases t sound key) [
      | inl (e, no_entry) ↦ inl (rw (valid, here, find_internal, e) refl, no_entry)
      | inr (x, e, at, one) ↦ inr (x, rw (valid, here, find_internal, e) refl, at, one)
    ]

    pub find_read_only-cases :
        ((get_inner_it p ops t (find_read_only p ops cntx key s) ≡ none) × (entries key t ≡ 0))
        ⊎ ((x : TableIterator) × (get_inner_it p ops t (find_read_only p ops cntx key s) ≡ some x)
            × IsAt t sound key x
            × (entries key t ≡ 1))
    unfolding find_read_only get_inner_it launder
    find_read_only-cases = elim find_internal-cases [
      | inl (e, no_entry) ↦ inl (rw (e, find_read_only) refl, no_entry)
      | inr (x, e, at, one) ↦
          inr (x, rw (e, find_read_only) (launder-IsAt t sound key x at), at, one)
    ]

    pub find_mutable-cases :
        (((find_mutable p ops cntx key s).it.it ≡ none) × (entries key t ≡ 0))
        ⊎ ((x : TableIterator) × ((find_mutable p ops cntx key s).it
              ≡ record { it = some x; key = key })
            × IsAt t sound key x
            × (entries key t ≡ 1))
    unfolding find_mutable find_mutable_internal mutable_of is_ok is_status
    find_mutable-cases = elim find_internal-cases [
      | inl (e, no_entry) ↦ inl (rw (here, find_mutable, e) refl, no_entry)
      | inr (x, e, at, one) ↦ inr (x, rw (here, find_mutable, e, at.1) refl, at, one)
    ]
