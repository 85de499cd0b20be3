-- ===== src/DashTable/Segment/Splitting/Whole.antt =====
-- The two loops of `Split`: no bucket has an entry left that goes.
use storage_engine.Base.{
  ℕ, zero, suc, ◌+◌, ◌≤◌, ◌<◌, ◌≡◌, refl, ap, ◌∙◌, subst, Bool, true, not, ltb, inl, inr,
  Bool-cases, sum_below-add, sum_below_mono, arith,
}
use storage_engine.DashTable.Bucket.Insert.{count, entry}
use storage_engine.DashTable.Segment.Defs.{
  Policy, IsPolicy, Segment, total_buckets, stash_bucket_num,
}
use storage_engine.DashTable.Segment.Contents.{total}
use storage_engine.DashTable.Segment.Stash.{stashed}
use storage_engine.DashTable.Segment.Stash.Frame.{SamePointers-IsBalanced}
use storage_engine.DashTable.Segment.Splitting.{
  split_regular_slot, split_stash_slot, split_bucket, split_regular, split_stash,
}
use storage_engine.DashTable.Segment.Splitting.Shares.{
  every, goes, IsSound, Splits, Splits-refl, Splits-trans,
}
use storage_engine.DashTable.Segment.Splitting.Turn.{Turned, regular-Turned, stash-Turned}

module _ {ℓ} {K V : Type ℓ} (p : Policy) where
  -- A test that accepts less counts no more.
  pub total-le :
      (q q' : K → V → Bool) (s : Segment K V)
      → ((k : K) (v : V) → q k v ≡ true → q' k v ≡ true)
      → total p q s ≤ total p q' s
  unfolding total count
  total-le q q' s h = sum_below_mono (total_buckets p) _ _ (λ i _.
      sum_below_mono p.slot_num (entry q (s.bucket i)) (entry q' (s.bucket i))
        (λ j _. ground (arith, h ((s.bucket i).key j) ((s.bucket i).value j))))

  -- Every entry passes a test or its negation.
  pub total-either :
      (q : K → V → Bool) (s : Segment K V)
      → total p every s ≡ total p q s + total p (λ k v. not (q k v)) s
  unfolding total count
  total-either q s = sum_below-add (total_buckets p) _ _ _ (λ i _.
      sum_below-add p.slot_num (entry q (s.bucket i)) (entry (λ k v. not (q k v)) (s.bucket i))
        (entry every (s.bucket i)) (λ j _. ground arith))

module _ {ℓ} {K V : Type ℓ} (p : Policy) (ok : IsPolicy p) (hash_fn : K → ℕ) (depth : ℕ) where
  -- After the turns of the buckets from `from` to `to`: none of them has an entry that goes.
  pub record Emptied (s d : Segment K V) (from to : ℕ) (r : Segment K V × Segment K V)
      : Type ℓ where
    pub depths : (r.0).local_depth ≡ depth
    pub splits : Splits p ok hash_fn depth s d (r.0) (r.1)
    pub empty :
        (l : ℕ)
        → from ≤ l
        → l < to
        → count p.slot_num (goes p ok hash_fn depth) ((r.0).bucket l) ≡ 0

  Emptied-nothing :
      (s d : Segment K V) (i : ℕ)
      → IsSound p ok hash_fn depth s
      → IsSound p ok hash_fn depth d
      → s.local_depth ≡ depth
      → Emptied s d i i (s, d)
  Emptied-nothing s d i left right deep = record {
    depths = deep;
    splits = Splits-refl p ok hash_fn depth s d left right;
    empty = λ l le lt. absurd (omega (arith, le, lt));
  }

  Emptied-first :
      (s d : Segment K V) (i to : ℕ) (r r' : Segment K V × Segment K V)
      → Turned p ok hash_fn depth s d i r
      → Emptied (r.0) (r.1) (suc i) to r'
      → Emptied s d i to r'
  Emptied-first s d i to r r' turn rest = record {
    depths = rest.depths;
    splits = Splits-trans p ok hash_fn depth s d (r.0) (r.1) (r'.0) (r'.1) turn.splits rest.splits;
    empty = λ l le lt. elim (native.Mathlib.Decide.ℕ_discrete l i) [
      | yes e ↦
          let less = rest.splits.shrinks i in
          ap (λ j. count p.slot_num (goes p ok hash_fn depth) ((r'.0).bucket j)) e
          ∙ omega (arith, less, turn.empty)
      | no ne ↦ rest.empty l (omega (arith, le, ne)) lt
    ];
  }

  split_regular-Emptied :
      (rounds i : ℕ) (s d : Segment K V)
      → IsSound p ok hash_fn depth s
      → IsSound p ok hash_fn depth d
      → s.local_depth ≡ depth
      → rounds + i ≡ p.bucket_num
      → Emptied s d i (rounds + i) (split_regular p hash_fn rounds i (s, d))
  unfolding split_regular
  split_regular-Emptied zero i s d left right deep e =
      subst (λ t. Emptied s d i t (s, d)) (omega arith) (Emptied-nothing s d i left right deep)
  split_regular-Emptied (suc rounds) i s d left right deep e =
      let r = split_bucket p hash_fn i (split_regular_slot p hash_fn i) (s, d) in
      let turn = regular-Turned p ok hash_fn depth s d left right deep i (omega (arith, e)) in
      let rest =
        split_regular-Emptied rounds (suc i) (r.0) (r.1) turn.splits.left turn.splits.right
          turn.depths (omega (arith, e)) in
      let to : rounds + suc i ≡ suc rounds + i = omega arith in
      Emptied-first s d i (suc rounds + i) r _ turn (
        subst (λ t. Emptied (r.0) (r.1) (suc i) t (split_regular p hash_fn rounds (suc i) r)) to
          rest)

  split_stash-Emptied :
      (rounds i : ℕ) (s d : Segment K V)
      → IsSound p ok hash_fn depth s
      → IsSound p ok hash_fn depth d
      → s.local_depth ≡ depth
      → rounds + i ≡ stash_bucket_num
      → Emptied s d
          (p.bucket_num + i)
          (p.bucket_num + (rounds + i))
          (split_stash p hash_fn rounds i (s, d))
  unfolding split_stash
  split_stash-Emptied zero i s d left right deep e =
      let to : p.bucket_num + i ≡ p.bucket_num + (0 + i) = omega arith in
      subst (λ t. Emptied s d (p.bucket_num + i) t (s, d)) to
        (Emptied-nothing s d (p.bucket_num + i) left right deep)
  split_stash-Emptied (suc rounds) i s d left right deep e =
      let r = split_bucket p hash_fn (p.bucket_num + i) (split_stash_slot p hash_fn i) (s, d) in
      let turn = stash-Turned p ok hash_fn depth s d left right deep i (omega (arith, e)) in
      let rest =
        split_stash-Emptied rounds (suc i) (r.0) (r.1) turn.splits.left turn.splits.right
          turn.depths (omega (arith, e)) in
      let from : p.bucket_num + suc i ≡ suc (p.bucket_num + i) = omega arith in
      let to : p.bucket_num + (rounds + suc i) ≡ p.bucket_num + (suc rounds + i) = omega arith in
      let out = split_stash p hash_fn rounds (suc i) r in
      Emptied-first s d (p.bucket_num + i) (p.bucket_num + (suc rounds + i)) r out turn (
        subst (λ f. Emptied (r.0) (r.1) f (p.bucket_num + (suc rounds + i)) out) from
          (subst (λ t. Emptied (r.0) (r.1) (p.bucket_num + suc i) t out) to rest))

  -- All the rounds of both loops: no bucket of the source has an entry that goes.
  pub both-Emptied :
      (s d : Segment K V)
      → IsSound p ok hash_fn depth s
      → IsSound p ok hash_fn depth d
      → s.local_depth ≡ depth
      → Emptied s d 0
          (total_buckets p)
          (split_stash p hash_fn stash_bucket_num 0 (split_regular p hash_fn p.bucket_num 0 (s, d)))
  both-Emptied s d left right deep =
      let r = split_regular p hash_fn p.bucket_num 0 (s, d) in
      let a = split_regular-Emptied p.bucket_num 0 s d left right deep (omega arith) in
      let b =
        split_stash-Emptied stash_bucket_num 0 (r.0) (r.1) a.splits.left a.splits.right a.depths
          (omega arith) in
      record {
        depths = b.depths;
        splits = Splits-trans p ok hash_fn depth s d (r.0) (r.1) _ _ a.splits b.splits;
        empty = λ l _ lt. elim (Bool-cases (ltb l p.bucket_num)) [
          | inl regular ↦
              let none_l = a.empty l (omega arith) (ground (arith, regular)) in
              omega (arith, b.splits.shrinks l, none_l)
          | inr stash ↦ b.empty l (ground (arith, stash)) (omega (arith, lt))
        ];
      }

module _ {ℓ} {K V : Type ℓ} (p : Policy) (ok : IsPolicy p) (hash_fn : K → ℕ) where
  -- The depth is no part of a segment's order.
  pub deepened-IsSound :
      (depth new : ℕ) (s : Segment K V)
      → IsSound p ok hash_fn depth s
      → IsSound p ok hash_fn depth (record s { local_depth = new })
  unfolding stashed
  deepened-IsSound depth new s sound = record {
    placed = sound.placed;
    balanced =
        SamePointers-IsBalanced p hash_fn s (record s { local_depth = new }) (λ l. refl)
          (λ y q. refl) sound.balanced;
  }
