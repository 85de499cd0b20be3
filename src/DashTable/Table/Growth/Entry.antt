-- ===== src/DashTable/Table/Growth/Entry.antt =====
-- A table one of whose segments is written with one more entry.
use storage_engine.Base.{
  ℕ, ◌+◌, ◌-◌, ◌≡◌, ◌≢◌, refl, sym, ap, ◌∙◌, subst, Bool, true, to_nat, Option, none, some,
  Option-cases, inl, inr, Bool-cases, update, update_self, update_ne, arith,
}
use storage_engine.DashTable.SlotBitmap.Bits.{is_busy}
use storage_engine.DashTable.Segment.Defs.{Policy, Segment, Iterator}
use storage_engine.DashTable.Segment.Contents.{Adds}
use storage_engine.DashTable.Segment.Lookup.{find_it}
use storage_engine.DashTable.Segment.Insertion.{insert_unless_found, insert_uniq}
use storage_engine.DashTable.Segment.Insertion.Depths.{insert_uniq-IsDeep}
use storage_engine.DashTable.Segment.Map.{IsNaming, IsMap, entries_of}
use storage_engine.DashTable.Table.Defs.{Table, segment_at, set_segment}
use storage_engine.DashTable.Table.Keys.{IsTable, entries_at, route}
use storage_engine.DashTable.Table.Routing.{IsDirectory, slack}

module _ {ℓ} {K V : Type ℓ} where
  -- What an insertion returns, if it returns, has this depth.
  abbrev HasDepth : ℕ → Option (Iterator × Bool × Segment K V) → Type 0
  HasDepth d none = d ≡ d
  HasDepth d (some (_, _, s)) = s.local_depth ≡ d

  pub insert_unless_found-depth :
      (p : Policy) (k : K) (v : V) (hash : ℕ) (pred : K → Bool) (s : Segment K V) (it : Iterator)
      (new : Bool) (s' : Segment K V)
      → insert_unless_found p k v hash pred s ≡ some (it, new, s')
      → s'.local_depth ≡ s.local_depth
  unfolding insert_unless_found
  insert_unless_found-depth p k v hash pred s it new s' e =
      let deep = insert_uniq-IsDeep p s k v hash true in
      let out : HasDepth s.local_depth (insert_unless_found p k v hash pred s) =
        elim (Option-cases (find_it p pred hash s)) [
          | inr (_, found) ↦ rw (found, insert_unless_found) refl
          | inl lost ↦ elim (Option-cases (insert_uniq p k v hash true s)) [
            | inl full ↦ rw (lost, insert_unless_found, full) refl
            | inr (r, done) ↦ rw (lost, insert_unless_found, done) (rw done at deep)
          ]
        ] in
      subst (HasDepth s.local_depth) e out

  module _ (t : Table K V) (a : ℕ) (s : Segment K V) (size : ℕ)
      (depth : s.local_depth ≡ (t.store a).local_depth) where
    abbrev pub written : Table K V
    written = let t' = set_segment t a s in record t' { size = size }

    depth-at : (b : ℕ) → (written.store b).local_depth ≡ (t.store b).local_depth
    depth-at b = elim (native.Mathlib.Decide.ℕ_discrete b a) [
      | yes e ↦
          ap (λ c. (update t.store a s c).local_depth) e
          ∙ ap (λ (u : Segment K V). u.local_depth) (update_self t.store a s)
          ∙ depth
          ∙ ap (λ c. (t.store c).local_depth) (sym e)
      | no ne ↦ ap (λ (u : Segment K V). u.local_depth) (update_ne t.store a b s ne)
    ]

    slack-at : (i : ℕ) → slack written i ≡ slack t i
    slack-at i = ap (λ d. t.global_depth - d) (depth-at (t.segment i))

    -- A write that keeps the depth leaves the directory in order.
    pub written-IsDirectory : IsDirectory t → IsDirectory written
    written-IsDirectory dir = record {
      small = dir.small;
      size = dir.size;
      deep = λ i lt. omega (arith, depth-at (t.segment i), dir.deep i lt);
      used = dir.used;
      agree = λ i j lt lt' e. rw (slack-at i) (dir.agree i j lt lt' e);
      shared = λ i j lt lt' e. dir.shared i j lt lt' (rw (slack-at i) at e);
    }

module _ {ℓ κ} {K V : Type ℓ} {T : Type κ} (p : Policy) (hash_fn : K → ℕ) (hash_name : T → ℕ)
    (equal : K → T → Bool) (naming : IsNaming hash_fn hash_name equal) (k : K) (v : V) (w : T)
    (own : equal k w ≡ true) where
  -- The outcome of a new entry in a table: table and directory are in order, the entry stands at `it`,
  -- its name had none before, and no other name's entries have changed.
  pub record Enters (t : Table K V) (it : Iterator) (t' : Table K V) : Type (ℓ ⊔ κ) where
    pub table : IsTable p hash_fn hash_name equal t'
    pub directory : IsDirectory t'
    pub before : entries_at p hash_fn hash_name equal w t ≡ 0
    pub after : entries_at p hash_fn hash_name equal w t' ≡ 1
    pub others :
        (w' : T)
        → w' ≢ w
        → entries_at p hash_fn hash_name equal w' t' ≡ entries_at p hash_fn hash_name equal w' t
    pub key :
        (((segment_at t' (route p hash_fn hash_name equal w t')).bucket it.index).key it.slot) ≡ k
    pub value :
        (((segment_at t' (route p hash_fn hash_name equal w t')).bucket it.index).value it.slot) ≡ v
    pub busy :
        is_busy
          (((segment_at t' (route p hash_fn hash_name equal w t')).bucket it.index).slotb)
          it.slot
        ≡ true
    pub number : t'.size ≡ t.size + 1

  module _ (t : Table K V) (table : IsTable p hash_fn hash_name equal t) (dir : IsDirectory t)
      (it : Iterator) (s : Segment K V)
      (adds : Adds p hash_fn k v (segment_at t (route p hash_fn hash_name equal w t)) it s)
      (map : IsMap p hash_fn equal s) (none_before : entries_at p hash_fn hash_name equal w t ≡ 0)
      (depth : s.local_depth
        ≡ (segment_at t (route p hash_fn hash_name equal w t)).local_depth) where
    abbrev at : ℕ
    at = t.segment (route p hash_fn hash_name equal w t)

    abbrev t' : Table K V
    t' = written t at s (t.size + 1) depth

    here : update t.store at s at ≡ s
    here = update_self t.store at s

    others-at :
        (w' : T)
        → w' ≢ w
        → entries_at p hash_fn hash_name equal w' t' ≡ entries_at p hash_fn hash_name equal w' t
    others-at w' ne =
        let a = t.segment (route p hash_fn hash_name equal w' t) in
        elim (native.Mathlib.Decide.ℕ_discrete a at) [
          | no ne' ↦ ap (entries_of p hash_fn equal w') (update_ne t.store at a s ne')
          | yes e ↦
              let other : to_nat (equal k w') ≡ 0 = elim (Bool-cases (equal k w')) [
                | inl mine ↦ absurd (ne (naming.one_name k w' w mine own))
                | inr off ↦ ap to_nat off
              ] in
              ap (λ b. entries_of p hash_fn equal w' (update t.store at s b)) e
              ∙ ap (entries_of p hash_fn equal w') here
              ∙ omega (arith, adds.contents (λ k' _. equal k' w'), other)
              ∙ ap (λ b. entries_of p hash_fn equal w' (t.store b)) (sym e)
        ]

    -- A new entry written to the segment of its name's hash.
    pub written-Enters : Enters t it t'
    written-Enters =
        let one : to_nat (equal k w) ≡ 1 = ap to_nat own in
        record {
          table = record {
            maps = λ a. elim (native.Mathlib.Decide.ℕ_discrete a at) [
              | yes e ↦ rw e (rw here map)
              | no ne ↦ rw (update_ne t.store at a s ne) (table.maps a)
            ];
            routes = table.routes;
          };
          directory = written-IsDirectory t at s (t.size + 1) depth dir;
          before = none_before;
          after =
              ap (entries_of p hash_fn equal w) here
              ∙ omega (arith, adds.contents (λ k' _. equal k' w), one, none_before);
          others = others-at;
          key = ap (λ (u : Segment K V). (u.bucket it.index).key it.slot) here ∙ adds.key;
          value = ap (λ (u : Segment K V). (u.bucket it.index).value it.slot) here ∙ adds.value;
          busy =
              ap (λ (u : Segment K V). is_busy ((u.bucket it.index).slotb) it.slot) here
              ∙ adds.busy;
          number = refl;
        }
