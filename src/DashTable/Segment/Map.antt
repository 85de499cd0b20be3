-- ===== src/DashTable/Segment/Map.antt =====
-- A segment as a finite map: at most one entry for each key, and lookup, insertion and deletion by
-- key as the map has them.
use storage_engine.Base.{
  ℕ, ap, le-sum_below, two_parts-le, ◌≤◌, ◌<◌, ◌∙◌, ◌≡◌, ◌⊎◌, sym, Bool, true, false, none, some,
  inl, inr, Bool-cases, arith,
}
use storage_engine.DashTable.SlotBitmap.Bits.{is_busy}
use storage_engine.DashTable.Bucket.Insert.{count, entry}
use storage_engine.DashTable.Segment.Defs.{
  Policy, IsPolicy, Segment, Iterator, fingerprint, total_buckets,
}
use storage_engine.DashTable.Segment.Placement.{AllPlaced}
use storage_engine.DashTable.Segment.Contents.{total, Adds}
use storage_engine.DashTable.Segment.Lookup.{find_it}
use storage_engine.DashTable.Segment.Found.{IsFound}
use storage_engine.DashTable.Segment.Insertion.{insert_unless_found}
use storage_engine.DashTable.Segment.Insertion.Total.{IsExhausted, insert_uniq-Adds}
use storage_engine.DashTable.Segment.Removal.{delete_at}
use storage_engine.DashTable.Segment.Deletion.{Removes, delete_at-Removes}
use storage_engine.DashTable.Segment.Stash.{IsBalanced}
use storage_engine.DashTable.Segment.Stash.Releasing.{delete_at-IsBalanced}
use storage_engine.DashTable.Segment.Complete.{find_it-cases}

-- The policy's comparison of a key with a name, such as a text, that it is looked up by: a key has one
-- name at most, and the hash of its name.
pub record IsNaming {ℓ κ} {K : Type ℓ} {T : Type κ} (hash_fn : K → ℕ) (hash_name : T → ℕ)
    (equal : K → T → Bool) : Type (ℓ ⊔ κ) where
  pub one_name : (k : K) (w w' : T) → equal k w ≡ true → equal k w' ≡ true → w ≡ w'
  pub hash : (k : K) (w : T) → equal k w ≡ true → hash_fn k ≡ hash_name w

module _ {ℓ κ} {K V : Type ℓ} {T : Type κ} (p : Policy) (hash_fn : K → ℕ)
    (equal : K → T → Bool) where
  -- How many entries have the name.
  abbrev pub entries_of : T → Segment K V → ℕ
  entries_of w s = total p (λ k _. equal k w) s

  pub record IsMap (s : Segment K V) : Type κ where
    pub placed : AllPlaced p hash_fn s
    pub balanced : IsBalanced p hash_fn s
    pub unique : (w : T) → entries_of w s ≤ 1

module _ {ℓ κ} {K V : Type ℓ} {T : Type κ} (p : Policy) (ok : IsPolicy p) (hash_fn : K → ℕ)
    (hash_name : T → ℕ) (equal : K → T → Bool) (naming : IsNaming hash_fn hash_name equal)
    (s : Segment K V) (map : IsMap p hash_fn equal s) (w : T) where
  abbrev named : K → Bool
  named k = equal k w

  -- `Insert` of the segment, where the segment is a map, that is, its buckets are in order, its stash
  -- references in balance, and no name has two entries: it finds the one entry of the key's name and
  -- changes nothing; or no entry has that name, and the segment is then again a map, with the new entry
  -- and no other change; or no entry has that name, and every bucket that may take it is full.
  pub insert_unless_found-cases :
      (k : K) (v : V)
      → equal k w ≡ true
      → ((it : Iterator) × (insert_unless_found p k v (hash_fn k) named s ≡ some (it, false, s))
          × IsFound p named (fingerprint (hash_fn k)) s it
          × (entries_of p hash_fn equal w s ≡ 1))
        ⊎ ((entries_of p hash_fn equal w s ≡ 0)
            × (((it : Iterator) × (s' : Segment K V) × (insert_unless_found p k v
                      (hash_fn k)
                      named
                      s
                    ≡ some (it, true, s'))
                  × Adds p hash_fn k v s it s'
                  × IsMap p hash_fn equal s')
                ⊎ ((insert_unless_found p k v (hash_fn k) named s ≡ none)
                    × IsExhausted p (hash_fn k) s)))
  unfolding insert_unless_found
  insert_unless_found-cases k v own =
      elim (find_it-cases p ok hash_fn s map.placed map.balanced named (hash_fn k)
        (λ k' e. naming.hash k' w e ∙ sym (naming.hash k w own))) [
          | inr (it, e, found, some_entry) ↦
              inl (it, rw (e, insert_unless_found), found, omega (arith, some_entry, map.unique w))
          | inl (e, no_entry) ↦ elim (insert_uniq-Adds p ok hash_fn k v s map.placed true) [
            | inl (e', full) ↦ inr (no_entry, inr (rw (e, insert_unless_found, e'), full))
            | inr (it, s', e', adds, keeps) ↦ inr (
              no_entry,
              inl (
                it,
                s',
                rw (e, insert_unless_found, e'),
                adds,
                record {
                  placed = adds.placed;
                  balanced = keeps map.balanced;
                  unique = λ w'. elim (Bool-cases (equal k w')) [
                    | inr other ↦
                        ground (arith, adds.contents (λ k' _. equal k' w'), map.unique w', other)
                    | inl same ↦
                        let e'' = naming.one_name k w' w same own in
                        rw e'' (ground (arith, adds.contents (λ k' _. named k'), no_entry))
                  ];
                },
              ),
            )
          ]
        ]

  -- `FindIt` with the hash of the name, where the segment is a map.
  pub find_it-named :
      ((find_it p named (hash_name w) s ≡ none) × (entries_of p hash_fn equal w s ≡ 0))
      ⊎ ((it : Iterator) × (find_it p named (hash_name w) s ≡ some it)
          × IsFound p named (fingerprint (hash_name w)) s it
          × (0 < entries_of p hash_fn equal w s))
  find_it-named =
      find_it-cases p ok hash_fn s map.placed map.balanced named (hash_name w)
        (λ k e. naming.hash k w e)

  -- `Delete` of a busy slot whose key has the name, with the hash of that key, where the segment is a
  -- map: the segment is then a map without an entry of this name, and has lost no other entry.
  pub delete_at-IsMap :
      (it : Iterator)
      → it.index < total_buckets p
      → it.slot < p.slot_num
      → is_busy ((s.bucket it.index).slotb) it.slot ≡ true
      → equal ((s.bucket it.index).key it.slot) w ≡ true
      → let s' = delete_at p it (hash_fn ((s.bucket it.index).key it.slot)) s in
        IsMap p hash_fn equal s' × (entries_of p hash_fn equal w s' ≡ 0) × Removes p hash_fn s it s'
  delete_at-IsMap it index slot busy own =
      let hash = hash_fn ((s.bucket it.index).key it.slot) in
      let removes = delete_at-Removes p ok hash_fn s it map.placed index slot busy hash in
      (
        record {
          placed = removes.placed;
          balanced = delete_at-IsBalanced p ok hash_fn s it map.placed index slot busy map.balanced;
          unique = λ w'. omega (arith, removes.contents (λ a _. equal a w'), map.unique w');
        },
        ground (arith, removes.contents (λ a _. named a), map.unique w, own),
        removes,
      )

-- In a segment that is a map, two busy slots with keys of one name are one slot.
pub same_slot {ℓ κ} :
    {K V : Type ℓ} {T : Type κ} (p : Policy) (hash_fn : K → ℕ) (equal : K → T → Bool)
    (s : Segment K V)
    → IsMap p hash_fn equal s
    → (w : T) (fp : ℕ) (x y : Iterator) → IsFound p (λ k. equal k w) fp s x
    → IsFound p (λ k. equal k w) fp s y
    → (y.index ≡ x.index) × (y.slot ≡ x.slot)
unfolding total count
same_slot {K = K} {V = V} p hash_fn equal s map w fp x y at_x at_y =
    let q : K → V → Bool = λ k _. equal k w in
    let part = λ (i : ℕ). count p.slot_num q (s.bucket i) in
    let e = λ (i : ℕ). entry q (s.bucket i) in
    let one_x : e x.index x.slot ≡ 1 = ground (arith, at_x.busy, at_x.accepted) in
    let one_y : e y.index y.slot ≡ 1 = ground (arith, at_y.busy, at_y.accepted) in
    let in_x = le-sum_below p.slot_num (e x.index) x.slot at_x.slot in
    let in_y = le-sum_below p.slot_num (e y.index) y.slot at_y.slot in
    elim (native.Mathlib.Decide.ℕ_discrete y.index x.index) [
      | no ne ↦ absurd (
          omega (
            arith,
            one_x,
            one_y,
            in_x,
            in_y,
            map.unique w,
            two_parts-le (total_buckets p) part x.index y.index at_x.index at_y.index ne,
          ))
      | yes same ↦ (
        same,
        elim (native.Mathlib.Decide.ℕ_discrete y.slot x.slot) [
          | yes same' ↦ same'
          | no ne ↦ absurd (
              omega (
                arith,
                one_x,
                ap (λ i. e i y.slot) same,
                one_y,
                map.unique w,
                two_parts-le p.slot_num (e x.index) x.slot y.slot at_x.slot at_y.slot ne,
                le-sum_below (total_buckets p) part x.index at_x.index,
              ))
        ],
      )
    ]
