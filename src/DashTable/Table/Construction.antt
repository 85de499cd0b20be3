-- ===== src/DashTable/Table/Construction.antt =====
-- The table's constructor: a directory in order, and no entry.
use storage_engine.Base.{
  ℕ, zero, suc, ◌+◌, ◌≤◌, ◌<◌, ◌≡◌, refl, sym, ap, ◌∙◌, subst, update, update_self, update_ne,
  arith, Bool,
}
use storage_engine.Base.Words.{shl, shl32, shl32_one, shr}
use storage_engine.DashTable.Segment.Defs.{Policy, Segment}
use storage_engine.DashTable.Segment.Contents.{total}
use storage_engine.DashTable.Segment.Map.{IsMap}
use storage_engine.DashTable.Table.Defs.{
  Table, segment_at, new_segment, construct_segment, construct_all, new_table,
}
use storage_engine.DashTable.Table.Fresh.{new_segment-IsMap}
use storage_engine.DashTable.Table.Keys.{IsTable, entries_at, route}
use storage_engine.DashTable.Table.Routing.{IsDirectory, slack, segment_id-lt}

module _ {ℓ κ} {K V : Type ℓ} {T : Type κ} (p : Policy) (hash_fn : K → ℕ) (equal : K → T → Bool)
    (k₀ : K) (v₀ : V) where
  -- The first `i` segments are constructed, each under its own number.
  pub record Built (depth i : ℕ) (t : Table K V) : Type (ℓ ⊔ κ) where
    pub segments : (j : ℕ) → j < i → t.segment j ≡ j
    pub next : t.next_address ≡ i
    pub depths : (a : ℕ) → a < i → (t.store a).local_depth ≡ depth
    pub maps : (a : ℕ) → IsMap p hash_fn equal (t.store a)
    pub empty : (a : ℕ) (q : K → V → Bool) → total p q (t.store a) ≡ 0
    pub global : t.global_depth ≡ depth
    pub size : t.directory_size ≡ shl 1 depth
    pub number : t.size ≡ 0

  module _ (depth i : ℕ) (t : Table K V) (built : Built depth i t) where
    abbrev fresh : Segment K V
    fresh = new_segment k₀ v₀ t.global_depth i

    abbrev store : ℕ → Segment K V
    store = update t.store t.next_address fresh

    abbrev entries : ℕ → ℕ
    entries = update t.segment i t.next_address

    new : IsMap p hash_fn equal fresh × ((q : K → V → Bool) → total p q fresh ≡ 0)
    new = new_segment-IsMap k₀ v₀ p hash_fn equal t.global_depth i

    fresh-depth : fresh.local_depth ≡ t.global_depth
    unfolding new_segment
    fresh-depth = refl

    abbrev built_on : Table K V
    built_on =
        let (address, t') = construct_segment p k₀ v₀ t.global_depth i t in
        record t' { segment = update (t'.segment) i address }

    Built-step : Built depth (suc i) built_on
    unfolding construct_segment
    Built-step = record {
      segments = λ j lt. elim (native.Mathlib.Decide.ℕ_discrete j i) [
        | yes e ↦ ap entries e ∙ update_self t.segment i t.next_address ∙ built.next ∙ sym e
        | no ne ↦
            update_ne t.segment i j t.next_address ne ∙ built.segments j (omega (arith, lt, ne))
      ];
      next = omega (arith, built.next);
      depths = λ a lt. elim (native.Mathlib.Decide.ℕ_discrete a t.next_address) [
        | yes e ↦
            ap (λ c. (store c).local_depth) e
            ∙ ap (λ (u : Segment K V). u.local_depth) (update_self t.store t.next_address fresh)
            ∙ fresh-depth
            ∙ built.global
        | no ne ↦
            ap (λ (u : Segment K V). u.local_depth) (update_ne t.store t.next_address a fresh ne)
            ∙ built.depths a (omega (arith, lt, ne, built.next))
      ];
      maps = λ a. elim (native.Mathlib.Decide.ℕ_discrete a t.next_address) [
        | yes e ↦ rw e (rw (update_self t.store t.next_address fresh) (new.0))
        | no ne ↦ rw (update_ne t.store t.next_address a fresh ne) (built.maps a)
      ];
      empty = λ a q. elim (native.Mathlib.Decide.ℕ_discrete a t.next_address) [
        | yes e ↦ rw e (rw (update_self t.store t.next_address fresh) (new.1 q))
        | no ne ↦ rw (update_ne t.store t.next_address a fresh ne) (built.empty a q)
      ];
      global = built.global;
      size = built.size;
      number = built.number;
    }

  construct_all-Built :
      (depth rounds i : ℕ) (t : Table K V)
      → Built depth i t
      → Built depth (rounds + i) (construct_all p k₀ v₀ rounds i t)
  unfolding construct_all
  construct_all-Built depth zero i t built =
      let e : i ≡ 0 + i = omega arith in subst (λ n. Built depth n t) e built
  construct_all-Built depth (suc rounds) i t built =
      let e : rounds + suc i ≡ suc rounds + i = omega arith in
      let next = Built-step depth i t built in
      subst (λ n. Built depth n (construct_all p k₀ v₀ (suc rounds) i t)) e
        (construct_all-Built depth rounds (suc i) (built_on depth i t built) next)

  pub new_table-Built :
      (depth : ℕ) → depth ≤ 30 → Built depth (shl 1 depth) (new_table p k₀ v₀ depth)
  unfolding new_table
  new_table-Built depth le =
      let none_yet = new_segment-IsMap k₀ v₀ p hash_fn equal 0 0 in
      let word : shl32 1 depth ≡ shl 1 depth = shl32_one depth (omega (arith, le)) in
      let e : shl32 1 depth + 0 ≡ shl 1 depth = omega (arith, word) in
      subst (λ n. Built depth n (new_table p k₀ v₀ depth)) e
        (construct_all-Built depth (shl32 1 depth) 0 _ (record {
          segments = λ j lt. absurd (omega (arith, lt));
          next = refl;
          depths = λ a lt. absurd (omega (arith, lt));
          maps = λ a. none_yet.0;
          empty = λ a q. none_yet.1 q;
          global = refl;
          size = word;
          number = refl;
        }))

  -- The constructor, for at most 2 ^ 30 directory entries and hashes of 64 bits: every segment is a map,
  -- the directory is in order and has an entry for every hash, and no name has an entry.
  pub new_table-IsTable :
      (hash_name : T → ℕ)
      → ((w : T) → shr (hash_name w) 64 ≡ 0)
      → (depth : ℕ) → depth ≤ 30
      → let t = new_table p k₀ v₀ depth in
        IsTable p hash_fn hash_name equal t
        × IsDirectory t
        × (t.size ≡ 0)
        × ((w : T) → entries_at p hash_fn hash_name equal w t ≡ 0)
  unfolding shr
  new_table-IsTable hash_name fits depth le =
      let t = new_table p k₀ v₀ depth in
      let built = new_table-Built depth le in
      let within : (i : ℕ) → i < t.directory_size → i < shl 1 depth =
        λ i h. omega (arith, h, built.size) in
      let level : (i : ℕ) → i < t.directory_size → (segment_at t i).local_depth ≡ depth = λ i h.
        ap (λ a. (t.store a).local_depth) (built.segments i (within i h))
        ∙ built.depths i (within i h) in
      let no_slack : (i : ℕ) → i < t.directory_size → slack t i ≡ 0 =
        λ i h. omega (arith, level i h, built.global) in
      (
        record {
          maps = built.maps;
          routes = λ w.
              let lt = segment_id-lt depth (hash_name w) (omega (arith, le)) (fits w) in
              rw (built.global, built.size) lt;
        },
        record {
          small = omega (arith, le, built.global);
          size = built.size ∙ ap (shl 1) (sym built.global);
          deep = λ i h. omega (arith, level i h, built.global);
          used = λ i h. omega (arith, built.segments i (within i h), built.next, within i h);
          agree = λ i j h h' e.
              let same : j ≡ i =
                omega (arith, built.segments i (within i h), built.segments j (within j h'), e) in
              ap (λ c. shr c (slack t i)) same;
          shared = λ i j h h' e. let same : j ≡ i = rw (no_slack i h) at e in ap t.segment same;
        },
        built.number,
        λ w. built.empty (t.segment (route p hash_fn hash_name equal w t)) (λ k _. equal k w),
      )
