-- ===== src/DashTable/Table/Rewriting.antt =====
-- Writes through an iterator of the table, to a value or to a key that keeps its name and its hash.
use storage_engine.Base.{ℕ, ◌≡◌, refl, sym, ap, ◌∙◌, Bool, update, update_self, update_ne}
use storage_engine.DashTable.Bucket.{Bucket}
use storage_engine.DashTable.Segment.Defs.{Policy, Segment, Iterator, set_bucket}
use storage_engine.DashTable.Segment.Found.{IsFound}
use storage_engine.DashTable.Segment.Map.{entries_of}
use storage_engine.DashTable.Segment.Rewriting.{Rewrites, Rewrites-IsMap, Rewrites-entries_of}
use storage_engine.DashTable.Table.Defs.{Table, TableIterator, segment_at, set_segment}
use storage_engine.DashTable.Table.Keys.{IsTable, entries_at, route}

module _ {ℓ κ} {K V : Type ℓ} {T : Type κ} (p : Policy) (hash_fn : K → ℕ) (hash_name : T → ℕ)
    (equal : K → T → Bool) (t : Table K V) (x : TableIterator) (b : Bucket K V)
    (re : Rewrites hash_fn equal ((segment_at t x.seg_id).bucket x.bucket_id) b) where
  abbrev s' : Segment K V
  s' = set_bucket (segment_at t x.seg_id) x.bucket_id b

  abbrev pub rewritten : Table K V
  rewritten = set_segment t (t.segment x.seg_id) s'

  rewritten-Rewrites :
      (i : ℕ) → Rewrites hash_fn equal ((segment_at t x.seg_id).bucket i) (s'.bucket i)
  rewritten-Rewrites i = elim (native.Mathlib.Decide.ℕ_discrete i x.bucket_id) [
    | yes e ↦ rw e (rw (update_self (segment_at t x.seg_id).bucket x.bucket_id b) re)
    | no ne ↦
        rw (update_ne (segment_at t x.seg_id).bucket x.bucket_id i b ne)
          (record { base = refl; hash = λ j. refl; names = λ j w. refl })
  ]

  pub rewritten-IsTable :
      IsTable p hash_fn hash_name equal t → IsTable p hash_fn hash_name equal rewritten
  rewritten-IsTable table = record {
    maps = λ a. elim (native.Mathlib.Decide.ℕ_discrete a (t.segment x.seg_id)) [
      | yes e ↦ rw e (
          rw (update_self t.store (t.segment x.seg_id) s') (
            Rewrites-IsMap p hash_fn equal (segment_at t x.seg_id) s' rewritten-Rewrites
              (table.maps (t.segment x.seg_id))))
      | no ne ↦ rw (update_ne t.store (t.segment x.seg_id) a s' ne) (table.maps a)
    ];
    routes = table.routes;
  }

  pub rewritten-entries_at :
      (w : T)
      → entries_at p hash_fn hash_name equal w rewritten ≡ entries_at p hash_fn hash_name equal w t
  rewritten-entries_at w =
      let a = t.segment (route p hash_fn hash_name equal w t) in
      let at = t.segment x.seg_id in
      elim (native.Mathlib.Decide.ℕ_discrete a at) [
        | yes e ↦
            ap (entries_of p hash_fn equal w)
              (ap (update t.store at s') e ∙ update_self t.store at s')
            ∙ Rewrites-entries_of p hash_fn equal (segment_at t x.seg_id) s' rewritten-Rewrites w
            ∙ ap (λ c. entries_of p hash_fn equal w (t.store c)) (sym e)
        | no ne ↦ ap (entries_of p hash_fn equal w) (update_ne t.store at a s' ne)
      ]

  pub rewritten-bucket : (segment_at rewritten x.seg_id).bucket x.bucket_id ≡ b
  rewritten-bucket =
      ap (λ (u : Segment K V). u.bucket x.bucket_id) (update_self t.store (t.segment x.seg_id) s')
      ∙ update_self (segment_at t x.seg_id).bucket x.bucket_id b

  -- What was found there is found there again.
  pub rewritten-IsFound :
      (w : T) (fp : ℕ)
      → let it : Iterator = record { index = x.bucket_id; slot = x.slot_id } in
        IsFound p (λ k. equal k w) fp (segment_at t x.seg_id) it
        → IsFound p (λ k. equal k w) fp (segment_at rewritten x.seg_id) it
  rewritten-IsFound w fp found = record {
    index = found.index;
    slot = found.slot;
    busy = rw (rewritten-bucket, re.base) found.busy;
    print = rw (rewritten-bucket, re.base) found.print;
    accepted = rw (rewritten-bucket, re.names x.slot_id w) found.accepted;
  }
