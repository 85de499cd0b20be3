-- ===== src/Commands/Keys.antt =====
-- DEL and EXISTS on a slice whose table is sound.
use storage_engine.Base.{
  ℕ, ◌+◌, ◌≡◌, ◌≢◌, refl, sym, ap, ◌∙◌, subst, true, List, [], ◌∷◌, none, some, inl, inr,
  Bool-cases, if◌then◌else◌, update_self, arith,
}
use storage_engine.Base.Equality.{eq_bytes, eq_bytes_sound, eq_bytes_refl}
use storage_engine.DashTable.Segment.Defs.{Policy, IsPolicy, Iterator, fingerprint}
use storage_engine.DashTable.Segment.Found.{IsFound}
use storage_engine.DashTable.Table.Defs.{Table, TableIterator, segment_at}
use storage_engine.DashTable.Table.Access.{erase_at, to_table}
use storage_engine.DashTable.Table.Keys.{Erases, erase_at-Erases}
use storage_engine.Slice.Defs.{
  ObjectOps, DbContext, DbSlice, SliceIterator, is_db_valid, set_db, get_inner_it, launder,
}
use storage_engine.Slice.Find.{find_mutable}
use storage_engine.Slice.Expire.{del, perform_deletion}
use storage_engine.Slice.Keys.{
  IsTextual, IsSound, entries, IsAt, find_read_only-cases, find_mutable-cases, launder-IsAt,
}
use storage_engine.Commands.Generic.{inner_it, del_found, del_one, op_del, op_exists}

module _ {ℓ} {K V : Type ℓ} (p : Policy) (ok : IsPolicy p) (ops : ObjectOps K V)
    (textual : IsTextual ops) (cntx : DbContext) where
  -- How many entries the keys have, one after the other.
  abbrev pub entries_of_all : List (List ℕ) → Table K V → ℕ
  entries_of_all [] t = 0
  entries_of_all (key ∷ keys) t = entries p ok ops textual key t + entries_of_all keys t

  -- The table of the context.
  pub record HasTable (s : DbSlice K V) (t : Table K V) : Type ℓ where
    pub valid : is_db_valid cntx.db_index s ≡ true
    pub here : s.db_arr cntx.db_index ≡ some t
    pub sound : IsSound p ok ops textual t

  -- EXISTS, on a slice whose table has a map in every segment, gives the number of the keys that have
  -- an entry, a key that is given twice counted twice.
  pub op_exists-entries :
      (s : DbSlice K V) (t : Table K V)
      → HasTable s t
      → (keys : List (List ℕ)) → op_exists p ops cntx keys s ≡ entries_of_all keys t
  unfolding op_exists inner_it
  op_exists-entries s t has [] = refl
  op_exists-entries s t has (key ∷ keys) =
      let rest = op_exists-entries s t has keys in
      elim (find_read_only-cases p ok ops textual cntx s t has.valid has.here has.sound key) [
        | inl (e, no_entry) ↦ rw (has.here, op_exists, e) (omega (arith, rest, no_entry))
        | inr (x, e, _, one) ↦ rw (has.here, op_exists, e) (omega (arith, rest, one))
      ]

  -- A count of entries by key, once a key is deleted, and once all of some keys are.
  abbrev pub forget : List ℕ → (List ℕ → ℕ) → List ℕ → ℕ
  forget key f w = if eq_bytes w key then 0 else f w

  abbrev pub forget_all : List (List ℕ) → (List ℕ → ℕ) → List ℕ → ℕ
  forget_all [] f = f
  forget_all (key ∷ keys) f = forget_all keys (forget key f)

  -- How many entries go, when the keys are deleted one after the other.
  abbrev pub removed : List (List ℕ) → (List ℕ → ℕ) → ℕ
  removed [] f = 0
  removed (key ∷ keys) f = f key + removed keys (forget key f)

  forget_all_congr :
      (keys : List (List ℕ)) (f g : List ℕ → ℕ)
      → ((w : List ℕ) → f w ≡ g w)
      → (w : List ℕ) → forget_all keys f w ≡ forget_all keys g w
  forget_all_congr [] f g same = same
  forget_all_congr (key ∷ keys) f g same =
      forget_all_congr keys (forget key f) (forget key g) (λ w. rw (same w) refl)

  removed_congr :
      (keys : List (List ℕ)) (f g : List ℕ → ℕ)
      → ((w : List ℕ) → f w ≡ g w)
      → removed keys f ≡ removed keys g
  removed_congr [] f g same = refl
  removed_congr (key ∷ keys) f g same =
      omega
        (arith, same key, removed_congr keys (forget key f) (forget key g) (λ w. rw (same w) refl))

  -- The outcome of deleting keys: the table is sound, and has the entries of before without those of
  -- the keys.
  pub record Deletes (keys : List (List ℕ)) (t : Table K V) (s' : DbSlice K V) : Type ℓ where
    pub table : Table K V
    pub has : HasTable s' table
    pub contents :
        (w : List ℕ)
        → entries p ok ops textual w table ≡ forget_all keys (λ u. entries p ok ops textual u t) w

  module _ (s : DbSlice K V) (t : Table K V) (has : HasTable s t) (key : List ℕ) where
    forget-entries :
        (t' : Table K V)
        → entries p ok ops textual key t' ≡ 0
        → ((w : List ℕ) → w ≢ key → entries p ok ops textual w t' ≡ entries p ok ops textual w t)
        → (w : List ℕ)
        → entries p ok ops textual w t' ≡ forget key (λ u. entries p ok ops textual u t) w
    forget-entries t' none_left others w = elim (Bool-cases (eq_bytes w key)) [
      | inl same ↦ rw same (rw (eq_bytes_sound w key same) none_left)
      | inr other ↦
          rw other (others w (λ e. cc (other, eq_bytes_refl key, ap (λ u. eq_bytes u key) e)))
    ]

    abbrev erased : TableIterator → Table K V
    erased x = erase_at p (ops.hash_key) x t

    pub set_db-HasTable :
        (t' : Table K V) → IsSound p ok ops textual t' → HasTable (set_db cntx.db_index t' s) t'
    unfolding is_db_valid
    set_db-HasTable t' sound = record {
      valid = rw (update_self s.db_arr cntx.db_index (some t')) (ground (arith, has.valid));
      here = update_self s.db_arr cntx.db_index (some t');
      sound = sound;
    }

    erased-Erases :
        (x : TableIterator)
        → IsAt p ok ops textual t has.sound key x
        → entries p ok ops textual key t ≡ 1
        → Erases p ok (ops.hash_key) (ops.hash_view) (ops.equals_view) textual key t (1, erased x)
    erased-Erases x (seg, _, found) one =
        let it : Iterator = record { index = x.bucket_id; slot = x.slot_id } in
        subst
          (λ r.
            IsFound p (λ k. ops.equals_view k key) (fingerprint (ops.hash_view key))
              (segment_at t r) it
            → Erases p ok (ops.hash_key) (ops.hash_view) (ops.equals_view) textual key t
                (1, erase_at p (ops.hash_key) (to_table r it) t))
          (sym seg)
          (λ there.
            erase_at-Erases p ok (ops.hash_key) (ops.hash_view) (ops.equals_view) textual t
              has.sound key it there (omega (arith, one)))
          found

    nothing_found : (i : SliceIterator) → i.it ≡ none → del_found p ops cntx i s ≡ some (0, s)
    unfolding del_found inner_it get_inner_it launder
    nothing_found i e = rw (del_found, has.here, e, e) refl

    del-erased :
        (x : TableIterator)
        → get_inner_it p ops t (record { it = some x; key = key }) ≡ some x
        → del p ops cntx (record { it = some x; key = key }) s
          ≡ some (set_db cntx.db_index (erased x) s)
    unfolding del perform_deletion
    del-erased x inner = rw (del, has.here, inner) refl

    found_deleted :
        (x : TableIterator)
        → get_inner_it p ops t (record { it = some x; key = key }) ≡ some x
        → del_found p ops cntx (record { it = some x; key = key }) s
          ≡ some (1, set_db cntx.db_index (erased x) s)
    unfolding del_found inner_it
    found_deleted x inner = rw (del_found, has.here, inner, del-erased x inner) refl

    del_one-Deletes :
        (s' : DbSlice K V) × (del_one p ops cntx key s ≡ some (entries p ok ops textual key t, s'))
        × Deletes (key ∷ []) t s'
    unfolding del_one
    del_one-Deletes =
        elim (find_mutable-cases p ok ops textual cntx s t has.valid has.here has.sound key) [
          | inl (e, no_entry) ↦ (
            s,
            nothing_found (find_mutable p ops cntx key s).it e
                ∙ ap (λ n. some (n, s)) (sym no_entry),
            record { table = t; has = has; contents = forget-entries t no_entry (λ w _. refl) },
          )
          | inr (x, e, at, one) ↦
              let inner = launder-IsAt p ok ops textual t has.sound key x at in
              let er = erased-Erases x at one in
              (
                set_db cntx.db_index (erased x) s,
                ap (λ i. del_found p ops cntx i s) e
                    ∙ found_deleted x inner
                    ∙ ap (λ n. some (n, set_db cntx.db_index (erased x) s)) (sym one),
                record {
                  table = erased x;
                  has = set_db-HasTable (erased x) er.table;
                  contents = forget-entries (erased x) er.none_left er.others;
                },
              )
        ]

  -- DEL, on a slice whose table has a map in every segment, deletes the keys one after the other: it
  -- returns, the result is the number of entries that go so, a key that is given twice counted once,
  -- the table is sound again, and has the entries of before without those of the keys.
  pub op_del-Deletes :
      (keys : List (List ℕ)) (s : DbSlice K V) (t : Table K V)
      → HasTable s t
      → (s' : DbSlice K V) × (op_del p ops cntx keys s
          ≡ some (removed keys (λ w. entries p ok ops textual w t), s'))
        × Deletes keys t s'
  unfolding op_del
  op_del-Deletes [] s t has = (s, refl, record { table = t; has = has; contents = λ w. refl })
  op_del-Deletes (key ∷ keys) s t has =
      let (s1, e1, d1) = del_one-Deletes s t has key in
      let (s2, e2, d2) = op_del-Deletes keys s1 d1.table d1.has in
      let f = λ (w : List ℕ). entries p ok ops textual w t in
      let g = λ (w : List ℕ). entries p ok ops textual w d1.table in
      let same : removed keys g ≡ removed keys (forget key f) =
        removed_congr keys g (forget key f) d1.contents in
      (
        s2,
        rw (e1, op_del, e2) (ap (λ n. some (f key + n, s2)) same),
        record {
          table = d2.table;
          has = d2.has;
          contents = λ w. d2.contents w ∙ forget_all_congr keys g (forget key f) d1.contents w;
        },
      )
