-- ===== src/DashTable/Table/Growth.antt =====
-- The rounds of `InsertInternal`: what a round does to the table when the segment has no room.
pub mod Entry
pub mod Entered
use storage_engine.Base.{
  ℕ, suc, ◌+◌, ◌*◌, ◌≤◌, ◌<◌, ◌≡◌, refl, sym, ap, ◌∙◌, subst, Bool, true, false, ◌==◌,
  if◌then◌else◌, none, inl, inr, Bool-cases, arith,
}
use storage_engine.Base.Words.{shr}
use storage_engine.DashTable.Segment.Defs.{Policy, IsPolicy, Segment}
use storage_engine.DashTable.Segment.Contents.{total}
use storage_engine.DashTable.Segment.Map.{IsNaming}
use storage_engine.DashTable.Segment.Insertion.{insert_unless_found}
use storage_engine.DashTable.Segment.Splitting.Shares.{goes}
use storage_engine.DashTable.Table.Defs.{Table, segment_at, segment_id}
use storage_engine.DashTable.Table.Directory.{increase_depth, split_segment}
use storage_engine.DashTable.Table.Access.{make_room}
use storage_engine.DashTable.Table.Keys.{IsTable, entries_at, route}
use storage_engine.DashTable.Table.Routing.{IsDirectory}
use storage_engine.DashTable.Table.Division.Contents.{Keeps, split_segment-Keeps}
use storage_engine.DashTable.Table.Doubling.{increase_depth-Deepens, same-total}
use storage_engine.DashTable.Table.Doubling.Order.{deepened-Keeps, route-bucket, route-depth}

module _ {ℓ κ} {K V : Type ℓ} {T : Type κ} (p : Policy) (hash_fn : K → ℕ) (hash_name : T → ℕ)
    (equal : K → T → Bool) where
  pub Keeps-refl :
      (t : Table K V)
      → IsTable p hash_fn hash_name equal t
      → IsDirectory t
      → Keeps p hash_fn hash_name equal t t
  Keeps-refl t table dir = record {
    table = table;
    directory = dir;
    number = refl;
    entries = λ w. refl;
  }

  pub Keeps-trans :
      (t t' t'' : Table K V)
      → Keeps p hash_fn hash_name equal t t'
      → Keeps p hash_fn hash_name equal t' t''
      → Keeps p hash_fn hash_name equal t t''
  Keeps-trans t t' t'' a b = record {
    table = b.table;
    directory = b.directory;
    number = b.number ∙ a.number;
    entries = λ w. b.entries w ∙ a.entries w;
  }

module _ {ℓ} {K V : Type ℓ} (p : Policy) (ok : IsPolicy p) (hash_fn : K → ℕ) where
  -- The split of the segment that a hash leads to sends away fewer entries than six buckets hold.
  abbrev pub IsSparse : ℕ → Table K V → Type 0
  IsSparse hash t =
      let s = segment_at t (segment_id t.global_depth hash) in
      total p (goes p ok hash_fn (s.local_depth + 1)) s < 6 * p.slot_num

  module _ {κ} {T : Type κ} (hash_name : T → ℕ) (equal : K → T → Bool)
      (naming : IsNaming hash_fn hash_name equal) (fits : (w : T) → shr (hash_name w) 64 ≡ 0)
      (k₀ : K) (v₀ : V) (w : T) (t : Table K V) (table : IsTable p hash_fn hash_name equal t)
      (dir : IsDirectory t) (small : t.global_depth < 31) (sparse : IsSparse (hash_name w) t) where
    abbrev r : ℕ
    r = route p hash_fn hash_name equal w t

    roomy-Keeps :
        (segment_at t r).local_depth < t.global_depth
        → Keeps p hash_fn hash_name equal t (split_segment p k₀ v₀ hash_fn r t)
    roomy-Keeps room =
        split_segment-Keeps p ok hash_fn hash_name equal naming fits k₀ v₀ t table dir r
          (table.routes w) room sparse (omega (arith, small))

    -- Where the segment looks at all of the directory's bits, the directory is doubled first.
    deepest-Keeps :
        (segment_at t r).local_depth ≡ t.global_depth
        → let t' = increase_depth (t.global_depth + 1) t in
          Keeps p hash_fn hash_name equal t
            (split_segment p k₀ v₀ hash_fn (route p hash_fn hash_name equal w t') t')
    deepest-Keeps deepest =
        let t' = increase_depth (t.global_depth + 1) t in
        let de = increase_depth-Deepens t in
        let below : t.global_depth < 32 = omega (arith, small) in
        let keeps = deepened-Keeps t t' dir below de p hash_fn hash_name equal fits table in
        let r' = route p hash_fn hash_name equal w t' in
        let depth = route-depth t t' dir below de p hash_fn hash_name equal fits table w in
        let same =
          same-total (segment_at t r) (segment_at t' r')
            (route-bucket t t' dir below de p hash_fn hash_name equal fits table w) p
            (goes p ok hash_fn ((segment_at t r).local_depth + 1)) in
        let sparse' : IsSparse (hash_name w) t' =
          subst (λ d. total p (goes p ok hash_fn (d + 1)) (segment_at t' r') < 6 * p.slot_num)
            (sym depth) (omega (arith, same, sparse)) in
        Keeps-trans p hash_fn hash_name equal t t' _ keeps (
          split_segment-Keeps p ok hash_fn hash_name equal naming fits k₀ v₀ t' keeps.table
            keeps.directory r' (keeps.table.routes w) (omega (arith, depth, deepest, de.global))
            sparse' (omega (arith, small, de.global)))

    -- What `InsertInternal` does when the segment of a name's hash has no room, where the table and its
    -- directory are in order, the directory has less than 2 ^ 31 entries, and fewer entries go to the new
    -- segment than six buckets hold: table and directory are in order after it, and every name has as
    -- many entries as before.
    pub make_room-Keeps :
        Keeps p hash_fn hash_name equal t (make_room p hash_fn k₀ v₀ (hash_name w) t)
    unfolding make_room
    make_room-Keeps = elim (Bool-cases ((segment_at t r).local_depth == t.global_depth)) [
      | inl deepest ↦ rw (deepest, make_room) (deepest-Keeps (ground (arith, deepest)))
      | inr room ↦
          rw (room, make_room) (roomy-Keeps (ground (arith, room, dir.deep r (table.routes w))))
    ]
