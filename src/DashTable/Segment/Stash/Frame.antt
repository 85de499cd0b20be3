-- ===== src/DashTable/Segment/Stash/Frame.antt =====
-- The writes that keep the balance: those to a regular bucket's slots. And what a write of stash
-- pointers for one bucket leaves alone elsewhere.
use storage_engine.Base.{
  ℕ, ◌+◌, ◌<◌, ◌≡◌, ◌≢◌, refl, sym, ap, ◌∙◌, Bool, true, false, subst, sum_below_congr, update_self,
  update_ne, arith,
}
use storage_engine.DashTable.Bucket.{Bucket, BucketBase}
use storage_engine.DashTable.Bucket.Base.{has_stash}
use storage_engine.DashTable.Bucket.Insert.{count}
use storage_engine.DashTable.Bucket.Counting.{Test, pointers, IsTidy}
use storage_engine.DashTable.Bucket.Balance.{Apart}
use storage_engine.DashTable.Bucket.Release.{any}
use storage_engine.DashTable.Segment.Defs.{Policy, IsPolicy, Segment, next_bid, set_bucket}
use storage_engine.DashTable.Segment.Placement.{next_bid-injective, next_bid-ne}
use storage_engine.DashTable.Segment.Stash.{belongs, stashed, references, IsBalancedAt, IsBalanced}

-- The slots and the fingerprints may differ.
abbrev pub SamePointers : BucketBase → BucketBase → Type 0
SamePointers b b' = b' ≡ record b { slotb = b'.slotb; finger_arr = b'.finger_arr }

pub SamePointers-IsTidy : (b b' : BucketBase) → SamePointers b b' → IsTidy b → IsTidy b'
SamePointers-IsTidy b b' same tidy =
    subst IsTidy (sym same) (record { fits = tidy.fits; idle = tidy.idle })

pub pointers-SamePointers :
    (b b' : BucketBase)
    → SamePointers b b'
    → (pr : Bool) (q : Test) → pointers b' pr q ≡ pointers b pr q
unfolding pointers
pointers-SamePointers b b' same pr q = ap (λ c. pointers c pr q) same

pub has_stash-SamePointers : (b b' : BucketBase) → SamePointers b b' → has_stash b' ≡ has_stash b
unfolding has_stash
has_stash-SamePointers b b' same = ap has_stash same

module _ {ℓ} {K V : Type ℓ} where
  pub set_bucket-SamePointers :
      (s : Segment K V) (i : ℕ) (b : Bucket K V)
      → SamePointers ((s.bucket i).base) b.base
      → (l : ℕ) → SamePointers ((s.bucket l).base) (((set_bucket s i b).bucket l).base)
  set_bucket-SamePointers s i b same l = elim (native.Mathlib.Decide.ℕ_discrete l i) [
    | yes e ↦ rw e (rw (update_self s.bucket i b) same)
    | no ne ↦ rw (update_ne s.bucket i l b ne) refl
  ]

module _ {ℓ} {K V : Type ℓ} (p : Policy) (hash_fn : K → ℕ) where
  abbrev pub SameStash : Segment K V → Segment K V → Type 0
  SameStash s s' = (y : ℕ) (q : Test) → stashed p hash_fn y q s' ≡ stashed p hash_fn y q s

  pub SamePointers-IsBalancedAt :
      (s s' : Segment K V) (y : ℕ)
      → ((l : ℕ) → SamePointers ((s.bucket l).base) ((s'.bucket l).base))
      → ((q : Test) → stashed p hash_fn y q s' ≡ stashed p hash_fn y q s)
      → IsBalancedAt p hash_fn s y
      → IsBalancedAt p hash_fn s' y
  SamePointers-IsBalancedAt s s' y same stash at =
      let refs : (q : Test) → references p hash_fn y q s' ≡ references p hash_fn y q s = λ q.
        omega (
          arith,
          pointers-SamePointers ((s.bucket y).base) ((s'.bucket y).base) (same y) false q,
          pointers-SamePointers ((s.bucket (next_bid p y)).base) ((s'.bucket (next_bid p y)).base)
              (same (next_bid p y)) true q,
        ) in
      record {
        below = λ q. omega (arith, refs q, stash q, at.below q);
        all = omega (
          arith,
          refs any,
          stash any,
          at.all,
          ap (λ (c : BucketBase). c.overflow_count) (same y),
        );
        present = λ off. stash any ∙ at.present (sym (has_stash-SamePointers _ _ (same y)) ∙ off);
      }

  pub SamePointers-IsBalanced :
      (s s' : Segment K V)
      → ((l : ℕ) → SamePointers ((s.bucket l).base) ((s'.bucket l).base))
      → SameStash s s'
      → IsBalanced p hash_fn s
      → IsBalanced p hash_fn s'
  SamePointers-IsBalanced s s' same stash bal = record {
    tidy = λ l. SamePointers-IsTidy _ _ (same l) (bal.tidy l);
    balance = λ y lt. SamePointers-IsBalancedAt s s' y same (stash y) (bal.balance y lt);
  }

  -- A write to a regular bucket is none to the stash.
  pub set_bucket-SameStash :
      (s : Segment K V) (i : ℕ) (b : Bucket K V) → i < p.bucket_num → SameStash s (set_bucket s i b)
  unfolding stashed
  set_bucket-SameStash s i b lt y q = sum_below_congr 4 _ _ (λ pos small.
      ap (count p.slot_num (belongs p hash_fn y q pos))
        (update_ne s.bucket i (p.bucket_num + pos) b (λ e. omega (arith, e, lt))))

  pub set_bucket-IsBalanced :
      (s : Segment K V) (i : ℕ) (b : Bucket K V)
      → i < p.bucket_num
      → SamePointers ((s.bucket i).base) b.base
      → IsBalanced p hash_fn s
      → IsBalanced p hash_fn (set_bucket s i b)
  set_bucket-IsBalanced s i b lt same =
      SamePointers-IsBalanced s (set_bucket s i b) (set_bucket-SamePointers s i b same)
        (set_bucket-SameStash s i b lt)

-- Bucket `h` and its neighbour get new bases.
module _ {ℓ} {K V : Type ℓ} (p : Policy) (ok : IsPolicy p) (s : Segment K V) (h : ℕ)
    (lt : h < p.bucket_num) (base next : BucketBase)
    (apart : Apart ((s.bucket h).base) ((s.bucket (next_bid p h)).base) base next) where
  abbrev pub rebased : Segment K V
  rebased =
      let s' = set_bucket s h (record (s.bucket h) { base = base }) in
      set_bucket s' (next_bid p h) (record (s'.bucket (next_bid p h)) { base = next })

  pub rebased-home : (rebased.bucket h).base ≡ base
  rebased-home =
      ap (λ (c : Bucket K V). c.base)
        (update_ne (set_bucket s h (record (s.bucket h) { base = base })).bucket (next_bid p h) h _
            (λ e. next_bid-ne p ok h lt (sym e))
          ∙ update_self s.bucket h _)

  pub rebased-next : (rebased.bucket (next_bid p h)).base ≡ next
  rebased-next =
      ap (λ (c : Bucket K V). c.base)
        (update_self (set_bucket s h (record (s.bucket h) { base = base })).bucket (next_bid p h) _)

  rebased-other : (l : ℕ) → l ≢ h → l ≢ next_bid p h → (rebased.bucket l).base ≡ (s.bucket l).base
  rebased-other l ne ne' =
      ap (λ (c : Bucket K V). c.base)
        (update_ne (set_bucket s h (record (s.bucket h) { base = base })).bucket (next_bid p h) l _
            ne'
          ∙ update_ne s.bucket h l _ ne)

  -- What a bucket other than the home holds for itself.
  pub rebased-own :
      (l : ℕ)
      → l ≢ h
      → ((q : Test)
          → pointers ((rebased.bucket l).base) false q ≡ pointers ((s.bucket l).base) false q)
        × (((rebased.bucket l).base).overflow_count ≡ ((s.bucket l).base).overflow_count)
        × (has_stash ((rebased.bucket l).base) ≡ has_stash ((s.bucket l).base))
  rebased-own l ne = elim (native.Mathlib.Decide.ℕ_discrete l (next_bid p h)) [
    | yes e ↦ rw (e, rebased-next) (apart.next_own, apart.next_overflow, apart.next_present)
    | no ne' ↦ rw (rebased-other l ne ne') ((λ q. refl), refl, refl)
  ]

  pub rebased-marked :
      (l : ℕ)
      → l ≢ next_bid p h
      → (q : Test) → pointers ((rebased.bucket l).base) true q ≡ pointers ((s.bucket l).base) true q
  rebased-marked l ne q = elim (native.Mathlib.Decide.ℕ_discrete l h) [
    | yes e ↦ rw (e, rebased-home) (apart.marked q)
    | no ne' ↦ rw (rebased-other l ne' ne) refl
  ]

  pub rebased-IsTidy :
      ((l : ℕ) → IsTidy ((s.bucket l).base)) → (l : ℕ) → IsTidy ((rebased.bucket l).base)
  rebased-IsTidy tidy l = elim (native.Mathlib.Decide.ℕ_discrete l h) [
    | yes e ↦ rw (e, rebased-home) apart.tidy
    | no ne ↦ elim (native.Mathlib.Decide.ℕ_discrete l (next_bid p h)) [
      | yes e ↦ rw (e, rebased-next) apart.next_tidy
      | no ne' ↦ rw (rebased-other l ne ne') (tidy l)
    ]
  ]

  -- At any home but `h` the references are what they were.
  pub elsewhere-IsBalancedAt :
      (hash_fn : K → ℕ) (s' : Segment K V) (y : ℕ)
      → y < p.bucket_num
      → y ≢ h
      → ((l : ℕ) → SamePointers ((rebased.bucket l).base) ((s'.bucket l).base))
      → ((q : Test) → stashed p hash_fn y q s' ≡ stashed p hash_fn y q s)
      → IsBalancedAt p hash_fn s y
      → IsBalancedAt p hash_fn s' y
  elsewhere-IsBalancedAt hash_fn s' y lt' ne same stash at =
      let (own, overflow, present) = rebased-own y ne in
      let marked = rebased-marked (next_bid p y) (λ e. ne (next_bid-injective p ok y h lt' lt e)) in
      let refs : (q : Test) → references p hash_fn y q s' ≡ references p hash_fn y q s = λ q.
        omega (
          arith,
          pointers-SamePointers ((rebased.bucket y).base) ((s'.bucket y).base) (same y) false q,
          pointers-SamePointers ((rebased.bucket (next_bid p y)).base)
              ((s'.bucket (next_bid p y)).base) (same (next_bid p y)) true q,
          own q,
          marked q,
        ) in
      record {
        below = λ q. omega (arith, refs q, stash q, at.below q);
        all = omega (
          arith,
          refs any,
          stash any,
          at.all,
          overflow,
          ap (λ (c : BucketBase). c.overflow_count) (same y),
        );
        present = λ off.
            stash any ∙ at.present (sym present ∙ sym (has_stash-SamePointers _ _ (same y)) ∙ off);
      }
