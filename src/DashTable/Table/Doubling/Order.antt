-- ===== src/DashTable/Table/Doubling/Order.antt =====
-- The table after `IncreaseDepth` by one: the directory is in order, and every name has its entries.
use storage_engine.Base.{ℕ, suc, ◌+◌, ◌-◌, ◌*◌, ◌/◌, ◌≤◌, ◌<◌, ◌≡◌, sym, ap, ◌∙◌, Bool, arith}
use storage_engine.Base.Words.{shl, shr, shr-suc}
use storage_engine.DashTable.Segment.Defs.{Policy}
use storage_engine.DashTable.Table.Defs.{Table, segment_at, segment_id}
use storage_engine.DashTable.Table.Directory.{increase_depth}
use storage_engine.DashTable.Table.Keys.{IsTable, route}
use storage_engine.DashTable.Table.Routing.{IsDirectory, slack, segment_id-shr, segment_id-lt}
use storage_engine.DashTable.Table.Division.Contents.{Keeps}
use storage_engine.DashTable.Table.Doubling.{
  Deepens, increase_depth-Deepens, same-IsMap, same-total,
}

module _ {ℓ} {K V : Type ℓ} (t t' : Table K V) (dir : IsDirectory t) (small : t.global_depth < 32)
    (de : Deepens t t') where
  twice : t'.directory_size ≡ t.directory_size * 2
  unfolding shl
  twice =
      let one_more : t.global_depth + 1 ≡ suc t.global_depth = omega arith in
      omega (arith, de.size ∙ ap (shl 1) one_more, dir.size)

  halved-lt : (i : ℕ) → i < t'.directory_size → i / 2 < t.directory_size
  halved-lt i lt = omega (arith, lt, twice)

  entry-at : (i : ℕ) → i < t'.directory_size → t'.segment i ≡ t.segment (i / 2)
  entry-at i lt = de.entry i (omega (arith, lt, twice))

  depth-at :
      (i : ℕ)
      → i < t'.directory_size
      → (segment_at t' i).local_depth ≡ (segment_at t (i / 2)).local_depth
  depth-at i lt = ap (λ a. (t'.store a).local_depth) (entry-at i lt) ∙ de.depths (t.segment (i / 2))

  slack-at : (i : ℕ) → i < t'.directory_size → slack t' i ≡ suc (slack t (i / 2))
  slack-at i lt = omega (arith, depth-at i lt, de.global, dir.deep (i / 2) (halved-lt i lt))

  -- The bits that an entry's segment looks at are those of the entry that it was copied from.
  bits-at : (i j : ℕ) → i < t'.directory_size → shr j (slack t' i) ≡ shr (j / 2) (slack t (i / 2))
  unfolding shr
  bits-at i j lt = ap (shr j) (slack-at i lt)

  pub deepened-IsDirectory : IsDirectory t'
  deepened-IsDirectory = record {
    small = omega (arith, small, de.global);
    size = de.size ∙ ap (shl 1) (sym de.global);
    deep = λ i lt. omega (arith, depth-at i lt, de.global, dir.deep (i / 2) (halved-lt i lt));
    used = λ i lt. omega (arith, entry-at i lt, de.next, dir.used (i / 2) (halved-lt i lt));
    agree = λ i j lt lt' e.
        bits-at i j lt
        ∙ dir.agree (i / 2) (j / 2) (halved-lt i lt) (halved-lt j lt')
            (sym (entry-at j lt') ∙ e ∙ entry-at i lt)
        ∙ sym (bits-at i i lt);
    shared = λ i j lt lt' e.
        entry-at j lt'
        ∙ dir.shared (i / 2) (j / 2) (halved-lt i lt) (halved-lt j lt')
            (sym (bits-at i j lt) ∙ e ∙ bits-at i i lt)
        ∙ sym (entry-at i lt);
  }

  module _ {κ} {T : Type κ} (p : Policy) (hash_fn : K → ℕ) (hash_name : T → ℕ)
      (equal : K → T → Bool) (fits : (w : T) → shr (hash_name w) 64 ≡ 0)
      (table : IsTable p hash_fn hash_name equal t) where
    route-lt : (w : T) → segment_id t'.global_depth (hash_name w) < t'.directory_size
    route-lt w =
        let deep : t'.global_depth ≤ 64 = omega (arith, de.global, small) in
        let size : t'.directory_size ≡ shl 1 t'.global_depth =
          de.size ∙ ap (shl 1) (sym de.global) in
        omega (arith, size, segment_id-lt t'.global_depth (hash_name w) deep (fits w))

    route-half :
        (w : T)
        → segment_id t'.global_depth (hash_name w) / 2 ≡ segment_id t.global_depth (hash_name w)
    route-half w =
        let rest : suc (64 - t'.global_depth) ≡ 64 - t.global_depth =
          omega (arith, de.global, small) in
        ap (λ x. x / 2) (segment_id-shr t'.global_depth (hash_name w) (fits w))
        ∙ sym (shr-suc (hash_name w) (64 - t'.global_depth))
        ∙ ap (shr (hash_name w)) rest
        ∙ sym (segment_id-shr t.global_depth (hash_name w) (fits w))

    -- A name's segment is the one that it was, with the same entries.
    pub route-bucket :
        (w : T)
        → (segment_at t' (route p hash_fn hash_name equal w t')).bucket
          ≡ (segment_at t (route p hash_fn hash_name equal w t)).bucket
    route-bucket w =
        ap (λ a. (t'.store a).bucket)
          (entry-at (route p hash_fn hash_name equal w t') (route-lt w)
            ∙ ap t.segment (route-half w))
        ∙ de.buckets (t.segment (route p hash_fn hash_name equal w t))

    pub route-depth :
        (w : T)
        → (segment_at t' (route p hash_fn hash_name equal w t')).local_depth
          ≡ (segment_at t (route p hash_fn hash_name equal w t)).local_depth
    route-depth w =
        ap (λ a. (t'.store a).local_depth)
          (entry-at (route p hash_fn hash_name equal w t') (route-lt w)
            ∙ ap t.segment (route-half w))
        ∙ de.depths (t.segment (route p hash_fn hash_name equal w t))

    pub deepened-Keeps : Keeps p hash_fn hash_name equal t t'
    deepened-Keeps = record {
      table = record {
        maps =
            λ a. same-IsMap (t.store a) (t'.store a) (de.buckets a) p hash_fn equal (table.maps a);
        routes = route-lt;
      };
      directory = deepened-IsDirectory;
      number = de.number;
      entries = λ w.
          same-total (segment_at t (route p hash_fn hash_name equal w t))
            (segment_at t' (route p hash_fn hash_name equal w t')) (route-bucket w) p
            (λ k _. equal k w);
    }

-- `IncreaseDepth` by one, where the directory has less than 2 ^ 32 entries and the table is in order:
-- the table and its directory are in order after it, and every name has as many entries as before.
pub increase_depth-Keeps {ℓ κ} :
    {K V : Type ℓ} {T : Type κ} (p : Policy) (hash_fn : K → ℕ) (hash_name : T → ℕ)
    (equal : K → T → Bool)
    → ((w : T) → shr (hash_name w) 64 ≡ 0)
    → (t : Table K V) → IsTable p hash_fn hash_name equal t
    → IsDirectory t
    → t.global_depth < 32
    → Keeps p hash_fn hash_name equal t (increase_depth (t.global_depth + 1) t)
increase_depth-Keeps p hash_fn hash_name equal fits t table dir small =
    deepened-Keeps t (increase_depth (t.global_depth + 1) t) dir small (increase_depth-Deepens t) p
      hash_fn hash_name equal fits table
