-- ===== src/DashTable/Segment/Pointers.antt =====
-- The writes that touch stash pointers only: they leave every entry where it is.
use storage_engine.Base.{
  ℕ, ◌<◌, ◌≡◌, ◌≢◌, refl, sym, ap, ◌∙◌, Bool, true, false, some, Option-cases, inl, inr,
  update_self, update_ne, arith,
}
use storage_engine.DashTable.Bucket.{Bucket, BucketBase}
use storage_engine.DashTable.Bucket.Stash.{set_stash, set_stash_ptr}
use storage_engine.DashTable.Bucket.References.{SameSlots}
use storage_engine.DashTable.Segment.Defs.{Policy, IsPolicy, Segment, next_bid, set_bucket}
use storage_engine.DashTable.Segment.Placement.{SameEntries, next_bid-ne}
use storage_engine.DashTable.Segment.Insertion.{refer}

set_stash-SameSlots :
    (fp pos : ℕ) (probe : Bool) (b b' : BucketBase)
    → set_stash fp pos probe b ≡ some b'
    → SameSlots b b'
unfolding set_stash
set_stash-SameSlots fp pos probe b b' e = ground arith

set_stash_ptr-SameSlots :
    (pos fp : ℕ) (b next : BucketBase)
    → let r = set_stash_ptr pos fp b next in SameSlots b (r.0) × SameSlots next (r.1)
unfolding set_stash_ptr
set_stash_ptr-SameSlots pos fp b next = elim (Option-cases (set_stash fp pos false b)) [
  | inl e ↦ elim (Option-cases (set_stash fp pos true next)) [
    | inl e' ↦ rw (e, set_stash_ptr, e') ((refl, refl), (refl, refl))
    | inr (next', e') ↦
        rw (e, set_stash_ptr, e') ((refl, refl), set_stash-SameSlots fp pos true next next' e')
  ]
  | inr (b', e) ↦ rw (e, set_stash_ptr) (set_stash-SameSlots fp pos false b b' e, (refl, refl))
]

module _ {ℓ} {K V : Type ℓ} where
  pub SameEntries-refl : (b : Bucket K V) → SameEntries b b
  SameEntries-refl b = record { slotb = refl; finger_arr = refl; key = refl; value = refl }

  SameEntries-set_bucket :
      (s : Segment K V) (i : ℕ) (b : Bucket K V)
      → SameEntries (s.bucket i) b
      → (j : ℕ) → SameEntries (s.bucket j) ((set_bucket s i b).bucket j)
  SameEntries-set_bucket s i b same j = elim (native.Mathlib.Decide.ℕ_discrete j i) [
    | yes e ↦ rw e (rw (update_self s.bucket i b) same)
    | no ne ↦ rw (update_ne s.bucket i j b ne) (SameEntries-refl (s.bucket j))
  ]

  SameEntries-trans : (a b c : Bucket K V) → SameEntries a b → SameEntries b c → SameEntries a c
  SameEntries-trans a b c f g = record {
    slotb = g.slotb ∙ f.slotb;
    finger_arr = g.finger_arr ∙ f.finger_arr;
    key = g.key ∙ f.key;
    value = g.value ∙ f.value;
  }

  -- Two buckets get new bases with the slots that they had.
  pub rebase-SameEntries :
      (s : Segment K V) (i j : ℕ) (b c : BucketBase)
      → j ≢ i
      → SameSlots ((s.bucket i).base) b
      → SameSlots ((s.bucket j).base) c
      → let s' = set_bucket s i (record (s.bucket i) { base = b }) in
        (l : ℕ)
        → SameEntries (s.bucket l) ((set_bucket s' j (record (s'.bucket j) { base = c })).bucket l)
  rebase-SameEntries s i j b c ne same_i same_j l =
      let s' = set_bucket s i (record (s.bucket i) { base = b }) in
      let kept : s'.bucket j ≡ s.bucket j = update_ne s.bucket i j _ ne in
      SameEntries-trans (s.bucket l) (s'.bucket l) _
        (SameEntries-set_bucket s i (record (s.bucket i) { base = b })
          (record { slotb = same_i.0; finger_arr = same_i.1; key = refl; value = refl }) l)
        (SameEntries-set_bucket s' j (record (s'.bucket j) { base = c })
          (record {
            slotb = same_j.0 ∙ ap (λ (x : Bucket K V). x.slotb) (sym kept);
            finger_arr = same_j.1 ∙ ap (λ (x : Bucket K V). x.finger_arr) (sym kept);
            key = refl;
            value = refl;
          })
          l)

  module _ (p : Policy) (ok : IsPolicy p) where
    pub refer-SameEntries :
        (bid stash_pos fp : ℕ) (s : Segment K V)
        → bid < p.bucket_num
        → (l : ℕ) → SameEntries (s.bucket l) ((refer p bid stash_pos fp s).bucket l)
    unfolding refer
    refer-SameEntries bid stash_pos fp s lt =
        let r =
          set_stash_ptr-SameSlots stash_pos fp ((s.bucket bid).base)
            ((s.bucket (next_bid p bid)).base) in
        rebase-SameEntries s bid (next_bid p bid) _ _ (next_bid-ne p ok bid lt) (r.0) (r.1)
