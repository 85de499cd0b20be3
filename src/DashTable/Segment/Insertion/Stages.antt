-- ===== src/DashTable/Segment/Insertion/Stages.antt =====
-- The two displacements of `InsertUniq` and its loop over the stash buckets: each of them adds
-- the entry or leaves the segment alone.
use storage_engine.Base.{
  ℕ, zero, suc, ◌+◌, ◌%◌, ◌≤◌, ◌<◌, ◌≡◌, ◌≢◌, ◌⊎◌, refl, ap, ◌∙◌, Bool, true, false, Option, none,
  some, inl, inr, arith,
}
use storage_engine.DashTable.Bucket.{insert}
use storage_engine.DashTable.Bucket.Insert.{insert-Inserts, try_insert-cases}
use storage_engine.DashTable.Segment.Defs.{
  Policy, IsPolicy, Segment, Iterator, fingerprint, home_index, next_bid, set_bucket,
  stash_bucket_num,
}
use storage_engine.DashTable.Segment.Placement.{
  AllPlaced, MayStand, IsPlaced-SameEntries, next_bid-lt, home_index-lt,
}
use storage_engine.DashTable.Segment.Contents.{total-SameEntries, Adds}
use storage_engine.DashTable.Segment.Stash.{IsBalanced}
use storage_engine.DashTable.Segment.Stash.Frame.{set_bucket-IsBalanced}
use storage_engine.DashTable.Segment.Stash.Referring.{refer-IsBalanced}
use storage_engine.DashTable.Segment.Pointers.{refer-SameEntries}
use storage_engine.DashTable.Segment.Insertion.{displace, insert_stash, refer}
use storage_engine.DashTable.Segment.Insertion.Steps.{
  IsCrowded, Adds-set_bucket, move_to_other-cases,
}

module _ {ℓ} {K V : Type ℓ} (p : Policy) (ok : IsPolicy p) (hash_fn : K → ℕ) (k : K) (v : V) where
  abbrev pub fp : ℕ
  fp = fingerprint (hash_fn k)

  abbrev pub home : ℕ
  home = home_index p (hash_fn k)

  -- A result that is an insertion, or none.
  abbrev pub Inserted : Segment K V → Option (Iterator × Segment K V) → Type ℓ
  Inserted s r =
      (it : Iterator) × (s' : Segment K V) × (r ≡ some (it, s'))
      × Adds p hash_fn k v s it s'
      × (IsBalanced p hash_fn s → IsBalanced p hash_fn s')

  pub may_home : MayStand p (hash_fn k) home false
  may_home = record { home = λ _. refl; stash = λ _. refl }

  pub may_next : MayStand p (hash_fn k) (next_bid p home) true
  may_next = record { home = λ _. refl; stash = λ h. absurd (omega (arith, next_bid-lt p ok home)) }

  may_stash : (i : ℕ) → p.bucket_num ≤ i → MayStand p (hash_fn k) i false
  may_stash i h = record { home = λ lt. absurd (omega arith); stash = λ _. refl }

  pub displace-cases :
      (s : Segment K V) (own : Bool) (from to : ℕ)
      → AllPlaced p hash_fn s
      → from < p.bucket_num
      → to < p.bucket_num
      → from ≢ to
      → (own ≡ true → (next_bid p from ≡ to) × IsCrowded p s from)
      → (own ≡ false → next_bid p to ≡ from)
      → (probe : Bool) → MayStand p (hash_fn k) from probe
      → (displace p own from to k v fp probe s ≡ none)
        ⊎ Inserted s (displace p own from to k v fp probe s)
  unfolding displace
  displace-cases s own from to all lt lt' ne fwd back probe may =
      elim (move_to_other-cases p ok hash_fn s all own from to lt lt' ne fwd back) [
        | inl e ↦ inl (rw (e, displace))
        | inr (slot, moved, e, fr) ↦
            let ins =
              insert-Inserts p.slot_num k v fp probe (moved.bucket from) slot ok.slots
                ((fr.placed from).valid) fr.in_range fr.free in
            let adds =
              Adds-set_bucket p ok hash_fn k v moved from probe slot _ fr.placed (omega arith) may
                ins in
            inr (
              record { index = from; slot = slot },
              set_bucket moved from (insert slot k v fp probe (moved.bucket from)),
              rw (e, displace),
              record {
                index = adds.index;
                slot = adds.slot;
                busy = adds.busy;
                key = adds.key;
                value = adds.value;
                placed = adds.placed;
                contents = λ q. omega (arith, adds.contents q, fr.contents q);
              },
              λ bal. set_bucket-IsBalanced p hash_fn moved from _ lt ins.pointers (fr.balanced bal),
            )
      ]

  -- A reference leaves what was added.
  refer-Adds :
      (s s' : Segment K V) (it : Iterator) (stash_pos : ℕ)
      → Adds p hash_fn k v s it s'
      → Adds p hash_fn k v s it (refer p home stash_pos fp s')
  refer-Adds s s' it stash_pos adds =
      let same = refer-SameEntries p ok home stash_pos fp s' (home_index-lt p ok (hash_fn k)) in
      let here = same it.index in
      record {
        index = adds.index;
        slot = adds.slot;
        busy = rw here.slotb adds.busy;
        key = ap (λ (f : ℕ → K). f it.slot) here.key ∙ adds.key;
        value = ap (λ (f : ℕ → V). f it.slot) here.value ∙ adds.value;
        placed = λ i. IsPlaced-SameEntries p hash_fn i (same i) (adds.placed i);
        contents = λ q. total-SameEntries p q s' _ same ∙ adds.contents q;
      }

  -- The loop over the stash buckets.
  pub insert_stash-cases :
      (rounds i : ℕ) (s : Segment K V)
      → AllPlaced p hash_fn s
      → ((insert_stash p rounds i home k v fp s ≡ none)
          × ((j : ℕ)
              → i ≤ j
              → j < i + rounds
              → IsCrowded p s (p.bucket_num + (home + j) % stash_bucket_num)))
        ⊎ Inserted s (insert_stash p rounds i home k v fp s)
  unfolding insert_stash
  insert_stash-cases zero i s all = inl (refl, λ j a b. absurd (omega arith))
  insert_stash-cases (suc rounds) i s all =
      let pos = (home + i) % stash_bucket_num in
      let at = p.bucket_num + pos in
      elim (try_insert-cases p.slot_num k v fp false (s.bucket at) ok.slots ((all at).valid)) [
        | inl (e, full) ↦ elim (insert_stash-cases rounds (suc i) s all) [
          | inl (e', fulls) ↦ inl (
            rw (e, insert_stash, e'),
            λ j a b. elim (native.Mathlib.Decide.ℕ_discrete j i) [
              | yes same ↦ rw same full
              | no ne ↦ fulls j (omega arith) (omega arith)
            ],
          )
          | inr (it, s', e', adds, keeps) ↦ inr (it, s', rw (e, insert_stash) e', adds, keeps)
        ]
        | inr (slot, b, e, ins) ↦ inr (
          record { index = at; slot = slot },
          _,
          rw (e, insert_stash),
          refer-Adds s (set_bucket s at b) _ pos (
              Adds-set_bucket p ok hash_fn k v s at false slot b all (omega arith)
                (may_stash at (omega arith)) ins),
          refer-IsBalanced p ok hash_fn k v s pos (omega arith) slot b ins,
        )
      ]
