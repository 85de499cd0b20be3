-- ===== src/DashTable/Table/Keys.antt =====
-- `Find` and `Erase` of the table, by name, as operations on a finite map.
use storage_engine.Base.{
  ℕ, ◌-◌, ◌<◌, ◌≡◌, ◌≢◌, ◌⊎◌, refl, sym, ap, ◌∙◌, subst, Bool, to_nat, none, some, inl, inr,
  Bool-cases, update, update_self, update_ne, arith,
}
use storage_engine.DashTable.Segment.Defs.{Policy, IsPolicy, Segment, Iterator, fingerprint}
use storage_engine.DashTable.Segment.Found.{IsFound}
use storage_engine.DashTable.Segment.Removal.{delete_at}
use storage_engine.DashTable.Segment.Deletion.{Removes}
use storage_engine.DashTable.Segment.Map.{
  IsNaming, IsMap, entries_of, find_it-named, delete_at-IsMap,
}
use storage_engine.DashTable.Table.Defs.{Table, segment_at, set_segment, segment_id}
use storage_engine.DashTable.Table.Access.{find_first, erase, erase_at, to_table}

module _ {ℓ κ} {K V : Type ℓ} {T : Type κ} (p : Policy) (hash_fn : K → ℕ) (hash_name : T → ℕ)
    (equal : K → T → Bool) where
  -- Every segment is a map, and the directory has an entry for every name's hash.
  pub record IsTable (t : Table K V) : Type κ where
    pub maps : (address : ℕ) → IsMap p hash_fn equal (t.store address)
    pub routes : (w : T) → segment_id t.global_depth (hash_name w) < t.directory_size

  -- The segment that a name belongs to.
  abbrev pub route : T → Table K V → ℕ
  route w t = segment_id t.global_depth (hash_name w)

  -- How many entries have the name, in the segment that it belongs to.
  abbrev pub entries_at : T → Table K V → ℕ
  entries_at w t = entries_of p hash_fn equal w (segment_at t (route w t))

module _ {ℓ κ} {K V : Type ℓ} {T : Type κ} (p : Policy) (ok : IsPolicy p) (hash_fn : K → ℕ)
    (hash_name : T → ℕ) (equal : K → T → Bool) (naming : IsNaming hash_fn hash_name equal) where
  module _ (t : Table K V) (table : IsTable p hash_fn hash_name equal t) (w : T) where
    abbrev sid : ℕ
    sid = segment_id t.global_depth (hash_name w)

    abbrev named : K → Bool
    named k = equal k w

    -- `Find` of a name, where every segment is a map: it finds nothing, and no entry in the segment of
    -- the name's hash has the name; or it finds a busy slot there whose key has it.
    pub find_first-cases :
        ((find_first p hash_fn (hash_name w) named t ≡ none)
          × (entries_at p hash_fn hash_name equal w t ≡ 0))
        ⊎ ((it : Iterator) × (find_first p hash_fn (hash_name w) named t ≡ some (to_table sid it))
            × IsFound p named (fingerprint (hash_name w)) (segment_at t sid) it
            × (entries_at p hash_fn hash_name equal w t ≡ 1))
    unfolding find_first
    find_first-cases =
        let s = segment_at t sid in
        let map = table.maps (t.segment sid) in
        elim (find_it-named p ok hash_fn hash_name equal naming s map w) [
          | inl (e, no_entry) ↦ inl (rw (e, find_first), no_entry)
          | inr (it, e, found, more) ↦
              inr (it, rw (e, find_first), found, omega (arith, more, map.unique w))
        ]

  -- The outcome of erasing a name.
  pub record Erases (w : T) (t : Table K V) (r : ℕ × Table K V) : Type κ where
    pub table : IsTable p hash_fn hash_name equal (r.1)
    pub number : r.0 ≡ entries_at p hash_fn hash_name equal w t
    pub none_left : entries_at p hash_fn hash_name equal w (r.1) ≡ 0
    pub gone : find_first p hash_fn (hash_name w) (λ k. equal k w) (r.1) ≡ none
    pub others :
        (w' : T)
        → w' ≢ w
        → entries_at p hash_fn hash_name equal w' (r.1) ≡ entries_at p hash_fn hash_name equal w' t

  module _ (t : Table K V) (table : IsTable p hash_fn hash_name equal t) (w : T) where
    -- Segment `sid` of the name loses the entry at `it`.
    module _ (it : Iterator)
        (found : IsFound p
          (λ k. equal k w)
          (fingerprint (hash_name w))
          (segment_at t (route p hash_fn hash_name equal w t))
          it) where
      abbrev at : ℕ
      at = t.segment (route p hash_fn hash_name equal w t)

      abbrev s : Segment K V
      s = t.store at

      abbrev s' : Segment K V
      s' = delete_at p it (hash_name w) s

      abbrev t' : Table K V
      t' = let u = set_segment t at s' in record u { size = u.size - 1 }

      smaller :
          IsMap p hash_fn equal s'
          × (entries_of p hash_fn equal w s' ≡ 0)
          × Removes p hash_fn s it s'
      smaller =
          let same = naming.hash ((s.bucket it.index).key it.slot) w found.accepted in
          subst
            (λ h.
              let d = delete_at p it h s in
              IsMap p hash_fn equal d
              × (entries_of p hash_fn equal w d ≡ 0)
              × Removes p hash_fn s it d)
            same
            (delete_at-IsMap p ok hash_fn hash_name equal naming s (table.maps at) w it found.index
              found.slot found.busy found.accepted)

      smaller-IsTable : IsTable p hash_fn hash_name equal t'
      smaller-IsTable = record {
        maps = λ a. elim (native.Mathlib.Decide.ℕ_discrete a at) [
          | yes e ↦
              subst (IsMap p hash_fn equal)
                (sym (update_self t.store at s') ∙ ap (update t.store at s') (sym e)) (smaller.0)
          | no ne ↦
              subst (IsMap p hash_fn equal) (sym (update_ne t.store at a s' ne)) (table.maps a)
        ];
        routes = table.routes;
      }

      smaller-others :
          (w' : T)
          → w' ≢ w
          → entries_at p hash_fn hash_name equal w' t' ≡ entries_at p hash_fn hash_name equal w' t
      smaller-others w' ne =
          let a = t.segment (route p hash_fn hash_name equal w' t) in
          let key = (s.bucket it.index).key it.slot in
          elim (native.Mathlib.Decide.ℕ_discrete a at) [
            | no ne' ↦ ap (entries_of p hash_fn equal w') (update_ne t.store at a s' ne')
            | yes e ↦
                let here : update t.store at s' a ≡ s' =
                  ap (update t.store at s') e ∙ update_self t.store at s' in
                let other : to_nat (equal key w') ≡ 0 = elim (Bool-cases (equal key w')) [
                  | inl mine ↦ absurd (ne (naming.one_name key w' w mine found.accepted))
                  | inr off ↦ ap to_nat off
                ] in
                ap (entries_of p hash_fn equal w') here
                ∙ omega (arith, (smaller.2).contents (λ k _. equal k w'), other)
                ∙ ap (λ b. entries_of p hash_fn equal w' (t.store b)) (sym e)
          ]

      smaller-none : entries_at p hash_fn hash_name equal w t' ≡ 0
      smaller-none = ap (entries_of p hash_fn equal w) (update_self t.store at s') ∙ smaller.1

      gone-find_first : find_first p hash_fn (hash_name w) (λ k. equal k w) t' ≡ none
      gone-find_first = elim (find_first-cases t' smaller-IsTable w) [
        | inl (e, _) ↦ e
        | inr (_, _, _, one) ↦ absurd (omega (arith, one, smaller-none))
      ]

      smaller-Erases : 0 < entries_at p hash_fn hash_name equal w t → Erases w t (1, t')
      smaller-Erases more = record {
        table = smaller-IsTable;
        number = omega (arith, more, (table.maps at).unique w);
        none_left = smaller-none;
        gone = gone-find_first;
        others = smaller-others;
      }

      -- `Erase` at an iterator takes the same entry away, with the hash of its key.
      pub erase_at-Erases :
          0 < entries_at p hash_fn hash_name equal w t
          → Erases w t (1, erase_at p hash_fn (to_table (route p hash_fn hash_name equal w t) it) t)
      unfolding erase_at
      erase_at-Erases more =
          subst
            (λ h.
              Erases w t (
                1,
                let u = set_segment t at (delete_at p it h s) in record u { size = u.size - 1 },
              ))
            (sym (naming.hash ((s.bucket it.index).key it.slot) w found.accepted))
            (smaller-Erases more)

    -- `Erase` of a name, where every segment is a map: every segment is a map again; the result is the
    -- number of entries that had the name; the name is not found any more; and all other names have
    -- the entries that they had.
    pub erase-Erases : Erases w t (erase p hash_fn (hash_name w) (λ k. equal k w) t)
    unfolding erase find_first
    erase-Erases =
        let at = t.segment (route p hash_fn hash_name equal w t) in
        elim (find_it-named p ok hash_fn hash_name equal naming (t.store at) (table.maps at) w) [
          | inl (e, no_entry) ↦
              rw (e, erase)
                (record {
                  table = table;
                  number = sym no_entry;
                  none_left = no_entry;
                  gone = rw (e, find_first) refl;
                  others = λ w' ne. refl;
                })
          | inr (it, e, found, more) ↦ rw (e, erase) (smaller-Erases it found more)
        ]
