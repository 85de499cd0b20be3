-- ===== src/DashTable/Table/Division/Contents.antt =====
-- The table after a `Split`, as a finite map: every name has the entries that it had.
use storage_engine.Base.{
  ℕ, ◌+◌, ◌*◌, ◌<◌, ◌≡◌, sym, ap, ◌∙◌, Bool, true, false, not, if◌then◌else◌, inl, inr, arith,
}
use storage_engine.Base.Words.{shr, testbit}
use storage_engine.DashTable.Segment.Defs.{Policy, IsPolicy, Segment}
use storage_engine.DashTable.Segment.Contents.{total}
use storage_engine.DashTable.Segment.Map.{IsNaming, IsMap, entries_of}
use storage_engine.DashTable.Segment.Splitting.{is_mine, split}
use storage_engine.DashTable.Segment.Splitting.Shares.{goes}
use storage_engine.DashTable.Segment.Splitting.Halves.{IsSplit, split-IsSplit, halves}
use storage_engine.DashTable.Table.Defs.{Table, segment_at, segment_id, new_segment}
use storage_engine.DashTable.Table.Directory.{split_segment, target_id}
use storage_engine.DashTable.Table.Fresh.{new_segment-IsMap}
use storage_engine.DashTable.Table.Keys.{IsTable, entries_at, route}
use storage_engine.DashTable.Table.Routing.{IsDirectory, segment_id-slack}
use storage_engine.DashTable.Table.Division.{Divides, split_segment-Divides, low}
use storage_engine.DashTable.Table.Division.Entries.{entry-cases, divided-IsDirectory}

-- The outcome of an operation that makes room: the table and its directory are in order, and every name
-- has as many entries as before.
pub record Keeps {ℓ κ} {K V : Type ℓ} {T : Type κ} (p : Policy) (hash_fn : K → ℕ)
    (hash_name : T → ℕ) (equal : K → T → Bool) (t t' : Table K V) : Type (ℓ ⊔ κ) where
  pub table : IsTable p hash_fn hash_name equal t'
  pub directory : IsDirectory t'
  pub number : t'.size ≡ t.size
  pub entries :
      (w : T) → entries_at p hash_fn hash_name equal w t' ≡ entries_at p hash_fn hash_name equal w t

module _ {ℓ κ} {K V : Type ℓ} {T : Type κ} (p : Policy) (ok : IsPolicy p) (hash_fn : K → ℕ)
    (hash_name : T → ℕ) (equal : K → T → Bool) (naming : IsNaming hash_fn hash_name equal)
    (fits : (w : T) → shr (hash_name w) 64 ≡ 0) (k₀ : K) (v₀ : V) (t : Table K V)
    (table : IsTable p hash_fn hash_name equal t) (dir : IsDirectory t) (seg_id : ℕ)
    (lt : seg_id < t.directory_size) (room : (segment_at t seg_id).local_depth < t.global_depth)
    (few : total p (goes p ok hash_fn ((segment_at t seg_id).local_depth + 1)) (segment_at t seg_id)
      < 6 * p.slot_num)
    (shallow : t.global_depth < 32) where
  abbrev s : Segment K V
  s = segment_at t seg_id

  abbrev d : Segment K V
  d = new_segment k₀ v₀ (s.local_depth + 1) (target_id t seg_id)

  abbrev t' : Table K V
  t' = split_segment p k₀ v₀ hash_fn seg_id t

  abbrev out : Segment K V × Segment K V
  out = split p hash_fn s d

  fresh : IsMap p hash_fn equal d × ((q : K → V → Bool) → total p q d ≡ 0)
  fresh = new_segment-IsMap k₀ v₀ p hash_fn equal (s.local_depth + 1) (target_id t seg_id)

  here-IsSplit : IsSplit p ok hash_fn equal s (out.0) (out.1)
  here-IsSplit =
      split-IsSplit p ok hash_fn equal s d (table.maps (t.segment seg_id)) (fresh.0) (fresh.1)

  divided : Divides p k₀ v₀ hash_fn t seg_id t'
  divided = split_segment-Divides p k₀ v₀ hash_fn t seg_id dir lt room shallow

  store-IsMap : (a : ℕ) → IsMap p hash_fn equal (t'.store a)
  store-IsMap a = elim (native.Mathlib.Decide.ℕ_discrete a t.next_address) [
    | yes e ↦ rw e (rw divided.at_target here-IsSplit.right)
    | no ne ↦ elim (native.Mathlib.Decide.ℕ_discrete a (t.segment seg_id)) [
      | yes e ↦ rw e (rw divided.at_source here-IsSplit.left)
      | no ne' ↦ rw (divided.elsewhere a ne ne') (table.maps a)
    ]
  ]

  divided-IsTable : IsTable p hash_fn hash_name equal t'
  divided-IsTable = record {
    maps = store-IsMap;
    routes = λ w. rw (divided.global, divided.size) (table.routes w);
  }

  module _ (w : T) where
    abbrev r : ℕ
    r = route p hash_fn hash_name equal w t

    same-route :
        entries_at p hash_fn hash_name equal w t' ≡ entries_of p hash_fn equal w (segment_at t' r)
    same-route =
        ap (λ g. entries_of p hash_fn equal w (segment_at t' (segment_id g (hash_name w))))
          divided.global

    -- The bit that the split looks at is the lowest of those that the halves look at.
    bit-mine :
        is_mine (s.local_depth + 1) (hash_name w)
        ≡ not (testbit (shr r (low p k₀ v₀ hash_fn t seg_id)) 0)
    unfolding is_mine
    bit-mine =
        let small = dir.small in
        ap (λ x. not (testbit x 0))
          (sym (
            segment_id-slack t.global_depth (s.local_depth + 1) (hash_name w) (omega (arith, small))
              (omega (arith, room)) (fits w)))

    shared :
        (own : Bool)
        → is_mine (s.local_depth + 1) (hash_name w) ≡ own
        → entries_of p hash_fn equal w (if own then out.0 else out.1)
          ≡ entries_of p hash_fn equal w s
    shared own e =
        ap (λ (b : Bool). entries_of p hash_fn equal w (if b then out.0 else out.1)) (sym e)
        ∙ (halves p ok hash_fn equal s d (table.maps (t.segment seg_id)) (fresh.0) (fresh.1)
            hash_name naming few w).0

    divided-entries :
        entries_at p hash_fn hash_name equal w t' ≡ entries_at p hash_fn hash_name equal w t
    unfolding testbit
    divided-entries =
        let cases =
          entry-cases p k₀ v₀ hash_fn t seg_id dir lt room t' divided here-IsSplit.deeper
            here-IsSplit.right_deeper r (table.routes w) in
        let at = λ (a : ℕ). entries_of p hash_fn equal w (t'.store a) in
        same-route ∙ elim cases [
          | inl a ↦
              let other : is_mine (s.local_depth + 1) (hash_name w) ≡ false =
                ground (arith, bit-mine, a.block) in
              ap at a.now
              ∙ ap (entries_of p hash_fn equal w) divided.at_target
              ∙ shared false other
              ∙ ap (λ c. entries_of p hash_fn equal w (t.store c)) (sym a.before)
          | inr (inl a) ↦
              let mine : is_mine (s.local_depth + 1) (hash_name w) ≡ true =
                ground (arith, bit-mine, a.block) in
              ap at a.now
              ∙ ap (entries_of p hash_fn equal w) divided.at_source
              ∙ shared true mine
              ∙ ap (λ c. entries_of p hash_fn equal w (t.store c)) (sym a.before)
          | inr (inr a) ↦
              ap at a.now
              ∙ ap (entries_of p hash_fn equal w)
                  (divided.elsewhere (t.segment r) a.not_new a.before)
        ]

  -- `Split` of the table, at a directory entry whose segment does not look at all of the directory's
  -- bits, where the table and its directory are in order, the directory has less than 2 ^ 32 entries,
  -- and fewer entries go than six buckets hold: the table and its directory are in order after it, and
  -- every name has as many entries as before.
  pub split_segment-Keeps : Keeps p hash_fn hash_name equal t t'
  split_segment-Keeps = record {
    table = divided-IsTable;
    directory =
        divided-IsDirectory p k₀ v₀ hash_fn t seg_id dir lt room t' divided here-IsSplit.deeper
          here-IsSplit.right_deeper;
    number = divided.number;
    entries = divided-entries;
  }
