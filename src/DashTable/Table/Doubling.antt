-- ===== src/DashTable/Table/Doubling.antt =====
-- `IncreaseDepth` by one: every directory entry is there twice, and the segments keep their entries.
pub mod Order
use storage_engine.Base.{
  ℕ, zero, suc, ◌+◌, ◌-◌, ◌*◌, ◌/◌, ◌≤◌, ◌<◌, ◌≡◌, refl, sym, ap, ◌∙◌, subst, Bool, true, false,
  ◌&&◌, leb, ltb, if◌then◌else◌, update, update_self, update_ne, arith,
}
use storage_engine.Base.Words.{shl, shr, shr-suc}
use storage_engine.DashTable.Bucket.{Bucket}
use storage_engine.DashTable.Segment.Defs.{Policy, Segment}
use storage_engine.DashTable.Segment.Placement.{SameEntries, IsPlaced}
use storage_engine.DashTable.Segment.Contents.{total, total-SameEntries}
use storage_engine.DashTable.Segment.Stash.{stashed}
use storage_engine.DashTable.Segment.Stash.Frame.{SamePointers-IsBalanced}
use storage_engine.DashTable.Segment.Map.{IsMap, entries_of}
use storage_engine.DashTable.Table.Defs.{Table, segment_at, set_segment, segment_id, fill}
use storage_engine.DashTable.Table.Directory.{replicate_entries, increase_depth}
use storage_engine.DashTable.Table.Keys.{IsTable, entries_at, route}
use storage_engine.DashTable.Table.Routing.{IsDirectory, slack, segment_id-shr, segment_id-lt}
use storage_engine.DashTable.Table.Division.Contents.{Keeps}

module _ {ℓ} {K V : Type ℓ} where
  -- After the entries from `i` up: they stand twice, the others once.
  record Doubles (i n : ℕ) (t₀ t : Table K V) : Type ℓ where
    below : (j : ℕ) → j < i → t.segment j ≡ t₀.segment j
    above : (j : ℕ) → i * 2 ≤ j → j < n * 2 → t.segment j ≡ t₀.segment (j / 2)
    buckets : (a : ℕ) → (t.store a).bucket ≡ (t₀.store a).bucket
    depths : (a : ℕ) → (t.store a).local_depth ≡ (t₀.store a).local_depth
    global : t.global_depth ≡ t₀.global_depth
    next : t.next_address ≡ t₀.next_address
    size : t.directory_size ≡ t₀.directory_size
    number : t.size ≡ t₀.size

  module _ (i n : ℕ) (t₀ t : Table K V) (lt : i < n) (half : Doubles (suc i) n t₀ t) where
    abbrev copied : ℕ → ℕ
    copied = fill t.segment (i * 2) 2 (t.segment i)

    abbrev named : Segment K V
    named = record (t.store (copied i)) { segment_id = i * 2 }

    Doubles-step : Doubles i n t₀ (set_segment (record t { segment = copied }) (copied i) named)
    Doubles-step = record {
      below = λ j h. ground (arith, half.below j);
      above = λ j from to. elim (native.Mathlib.Decide.ℕ_discrete (j / 2) i) [
        | yes e ↦
            let inside : leb (i * 2) j && ltb j (i * 2 + 2) ≡ true = ground (arith, from, e) in
            ap (λ (b : Bool). if b then t.segment i else t.segment j) inside
            ∙ half.below i (omega arith)
            ∙ ap t₀.segment (sym e)
        | no ne ↦
            let outside : leb (i * 2) j && ltb j (i * 2 + 2) ≡ false = ground (arith, from, ne) in
            ap (λ (b : Bool). if b then t.segment i else t.segment j) outside
            ∙ half.above j (omega (arith, from, ne)) to
      ];
      buckets = λ a. elim (native.Mathlib.Decide.ℕ_discrete a (copied i)) [
        | yes e ↦
            ap (λ c. (update t.store (copied i) named c).bucket) e
            ∙ ap (λ (u : Segment K V). u.bucket) (update_self t.store (copied i) named)
            ∙ ap (λ c. (t.store c).bucket) (sym e)
            ∙ half.buckets a
        | no ne ↦
            ap (λ (u : Segment K V). u.bucket) (update_ne t.store (copied i) a named ne)
            ∙ half.buckets a
      ];
      depths = λ a. elim (native.Mathlib.Decide.ℕ_discrete a (copied i)) [
        | yes e ↦
            ap (λ c. (update t.store (copied i) named c).local_depth) e
            ∙ ap (λ (u : Segment K V). u.local_depth) (update_self t.store (copied i) named)
            ∙ ap (λ c. (t.store c).local_depth) (sym e)
            ∙ half.depths a
        | no ne ↦
            ap (λ (u : Segment K V). u.local_depth) (update_ne t.store (copied i) a named ne)
            ∙ half.depths a
      ];
      global = half.global;
      next = half.next;
      size = half.size;
      number = half.number;
    }

  replicate_entries-Doubles :
      (i n : ℕ) (t₀ t : Table K V)
      → i ≤ n
      → Doubles i n t₀ t
      → Doubles 0 n t₀ (replicate_entries i 2 t)
  unfolding replicate_entries
  replicate_entries-Doubles zero n t₀ t le half = half
  replicate_entries-Doubles (suc i) n t₀ t le half =
      replicate_entries-Doubles i n t₀ _ (omega (arith, le))
        (Doubles-step i n t₀ t (omega (arith, le)) half)

  -- A segment with the same buckets has the same entries.
  module _ (s s' : Segment K V) (same : s'.bucket ≡ s.bucket) where
    same-SameEntries : (i : ℕ) → SameEntries (s.bucket i) (s'.bucket i)
    same-SameEntries i = record {
      slotb = ap (λ (f : ℕ → Bucket K V). (f i).slotb) same;
      finger_arr = ap (λ (f : ℕ → Bucket K V). (f i).finger_arr) same;
      key = ap (λ (f : ℕ → Bucket K V). (f i).key) same;
      value = ap (λ (f : ℕ → Bucket K V). (f i).value) same;
    }

    pub same-total : (p : Policy) (q : K → V → Bool) → total p q s' ≡ total p q s
    same-total p q = total-SameEntries p q s s' same-SameEntries

    pub same-IsMap {κ} :
        {T : Type κ} (p : Policy) (hash_fn : K → ℕ) (equal : K → T → Bool)
        → IsMap p hash_fn equal s
        → IsMap p hash_fn equal s'
    unfolding stashed
    same-IsMap p hash_fn equal map =
        let at = λ (i : ℕ). ap (λ (f : ℕ → Bucket K V). f i) same in
        record {
          placed = λ i. subst (IsPlaced p hash_fn i) (sym (at i)) (map.placed i);
          balanced =
              SamePointers-IsBalanced p hash_fn s s' (λ l. rw (at l) refl) (λ y q. rw same refl)
                map.balanced;
          unique = λ w. omega (arith, same-total p (λ k _. equal k w), map.unique w);
        }

  -- `IncreaseDepth` by one.
  pub record Deepens (t t' : Table K V) : Type ℓ where
    pub entry : (j : ℕ) → j < t.directory_size * 2 → t'.segment j ≡ t.segment (j / 2)
    pub buckets : (a : ℕ) → (t'.store a).bucket ≡ (t.store a).bucket
    pub depths : (a : ℕ) → (t'.store a).local_depth ≡ (t.store a).local_depth
    pub global : t'.global_depth ≡ t.global_depth + 1
    pub next : t'.next_address ≡ t.next_address
    pub size : t'.directory_size ≡ shl 1 (t.global_depth + 1)
    pub number : t'.size ≡ t.size

  pub increase_depth-Deepens : (t : Table K V) → Deepens t (increase_depth (t.global_depth + 1) t)
  unfolding increase_depth shl
  increase_depth-Deepens t =
      let t₀ = record t { directory_size = shl 1 (t.global_depth + 1) } in
      let two : shl 1 (t.global_depth + 1 - t.global_depth) ≡ 2 =
        ap (shl 1) {x = t.global_depth + 1 - t.global_depth} {y = 1} (omega arith) in
      let half =
        replicate_entries-Doubles t.directory_size t.directory_size t₀ t₀ (omega arith) (record {
          below = λ j h. refl;
          above = λ j from to. absurd (omega (arith, from, to));
          buckets = λ a. refl;
          depths = λ a. refl;
          global = refl;
          next = refl;
          size = refl;
          number = refl;
        }) in
      subst
        (λ repl. Deepens t (record (replicate_entries t.directory_size repl t₀) {
          global_depth = t.global_depth + 1;
        }))
        (sym two)
        (record {
          entry = λ j lt. half.above j (omega arith) lt;
          buckets = half.buckets;
          depths = half.depths;
          global = refl;
          next = half.next;
          size = half.size;
          number = half.number;
        })
