-- ===== src/DashTable/Segment/Stash/Referring.antt =====
-- `SetStashPtr` after an insertion into a stash bucket.
use storage_engine.Base.{
  ℕ, ◌+◌, ◌<◌, ◌≡◌, refl, sym, ap, ◌∙◌, Bool, true, false, ◌&&◌, ◌==◌, to_nat, if◌then◌else◌, subst,
  sum_below_congr, sum_below_change_in, update_self, update_ne, arith,
}
use storage_engine.Base.Words.{u8, u8-mod}
use storage_engine.DashTable.Bucket.{Bucket, BucketBase}
use storage_engine.DashTable.Bucket.Base.{has_stash}
use storage_engine.DashTable.Bucket.Stash.{set_stash_ptr}
use storage_engine.DashTable.Bucket.Insert.{count, Inserts, count-Inserts}
use storage_engine.DashTable.Bucket.Counting.{Test, IsTidy}
use storage_engine.DashTable.Bucket.Balance.{refers, Refers, set_stash_ptr-Refers}
use storage_engine.DashTable.Bucket.Release.{any}
use storage_engine.DashTable.Segment.Defs.{
  Policy, IsPolicy, Segment, fingerprint, home_index, next_bid, set_bucket,
}
use storage_engine.DashTable.Segment.Placement.{home_index-lt}
use storage_engine.DashTable.Segment.Contents.{count-SameEntries}
use storage_engine.DashTable.Segment.Pointers.{refer-SameEntries}
use storage_engine.DashTable.Segment.Insertion.{refer}
use storage_engine.DashTable.Segment.Stash.{belongs, stashed, references, IsBalancedAt, IsBalanced}
use storage_engine.DashTable.Segment.Stash.Sums.{stashed-le}
use storage_engine.DashTable.Segment.Stash.Frame.{
  SamePointers, SamePointers-IsTidy, SamePointers-IsBalancedAt, pointers-SamePointers,
  set_bucket-SamePointers, rebased, rebased-home, rebased-next, rebased-IsTidy,
  elsewhere-IsBalancedAt,
}

module _ {ℓ} {K V : Type ℓ} (p : Policy) (ok : IsPolicy p) (hash_fn : K → ℕ) (k : K) (v : V) where
  abbrev fp : ℕ
  fp = fingerprint (hash_fn k)

  abbrev home : ℕ
  home = home_index p (hash_fn k)

  module _ (s : Segment K V) (pos : ℕ) (small : pos < 4) (slot : ℕ) (b : Bucket K V)
      (ins : Inserts p.slot_num k v fp false (s.bucket (p.bucket_num + pos)) slot b) where
    abbrev stored_in : Segment K V
    stored_in = set_bucket s (p.bucket_num + pos) b

    stashed-Inserts :
        (y : ℕ) (q : Test)
        → stashed p hash_fn y q stored_in
          ≡ stashed p hash_fn y q s + to_nat ((home == y) && q fp pos)
    unfolding stashed
    stashed-Inserts y q =
        let at = p.bucket_num + pos in
        let part = λ (t : Segment K V) (l : ℕ).
          count p.slot_num (belongs p hash_fn y q l) (t.bucket (p.bucket_num + l)) in
        let rest = sum_below_change_in 4 (part s) (part stored_in) pos small (λ l lt ne.
          ap (count p.slot_num (belongs p hash_fn y q l))
            (sym (update_ne s.bucket at (p.bucket_num + l) b (λ e. ne (omega (arith, e)))))) in
        let here = ap (count p.slot_num (belongs p hash_fn y q pos)) (update_self s.bucket at b) in
        omega (arith, rest, here, count-Inserts p.slot_num (belongs p hash_fn y q pos) ins)

    abbrev referred : Segment K V
    referred = refer p home pos fp stored_in

    stashed-refer :
        (y : ℕ) (q : Test)
        → stashed p hash_fn y q referred
          ≡ stashed p hash_fn y q s + to_nat ((home == y) && q fp pos)
    unfolding stashed
    stashed-refer y q =
        let same = refer-SameEntries p ok home pos fp stored_in (home_index-lt p ok (hash_fn k)) in
        sum_below_congr 4 _ _
          (λ l lt. count-SameEntries p.slot_num (belongs p hash_fn y q l) (same (p.bucket_num + l)))
        ∙ stashed-Inserts y q

    -- At its home, where it has its reference or is counted as having none.
    home-IsBalancedAt :
        (stored : Bool) (s' : Segment K V)
        → ((q : Test)
            → stashed p hash_fn home q s' ≡ stashed p hash_fn home q s + to_nat (q fp pos))
        → ((q : Test)
            → references p hash_fn home q s'
              ≡ references p hash_fn home q s + to_nat (stored && q fp pos))
        → (((s'.bucket home).base).overflow_count ≡ (
            if stored
            then ((s.bucket home).base).overflow_count
            else u8 (((s.bucket home).base).overflow_count + 1)))
        → has_stash ((s'.bucket home).base) ≡ true
        → IsBalancedAt p hash_fn s home
        → IsBalancedAt p hash_fn s' home
    home-IsBalancedAt stored s' stash refs overflow present at =
        let few = stashed-le p hash_fn home s any ok.slots in
        let count = ((s.bucket home).base).overflow_count in
        let small_count : u8 (count + 1) ≡ count + 1 =
          u8-mod (count + 1) ∙ omega (arith, few, at.all) in
        record {
          below = λ q. ground (arith, stash q, refs q, at.below q);
          all = ground (arith, stash any, refs any, at.all, overflow, small_count);
          present = λ off. absurd (cc (off, present));
        }

    -- The bases of the two buckets that `SetStashPtr` is given.
    abbrev base0 : BucketBase
    base0 = (stored_in.bucket home).base

    abbrev next0 : BucketBase
    next0 = (stored_in.bucket (next_bid p home)).base

    module _ (bal : IsBalanced p hash_fn s) where
      same : (l : ℕ) → SamePointers ((s.bucket l).base) ((stored_in.bucket l).base)
      same = set_bucket-SamePointers s (p.bucket_num + pos) b ins.pointers

      tidy : (l : ℕ) → IsTidy ((stored_in.bucket l).base)
      tidy l = SamePointers-IsTidy _ _ (same l) (bal.tidy l)

      abbrev Outcome : BucketBase → BucketBase → Type 0
      Outcome base next = Refers fp pos base0 next0 base next

      module _ (base next : BucketBase) (out : Outcome base next)
          (stash : (y : ℕ) (q : Test)
            → stashed p hash_fn y q
                (rebased p ok stored_in home (home_index-lt p ok (hash_fn k)) base next out.apart)
              ≡ stashed p hash_fn y q s + to_nat ((home == y) && q fp pos)) where
        abbrev lt : home < p.bucket_num
        lt = home_index-lt p ok (hash_fn k)

        abbrev after : Segment K V
        after = rebased p ok stored_in home lt base next out.apart

        refs-home :
            (q : Test)
            → references p hash_fn home q after
              ≡ references p hash_fn home q s + to_nat (out.stored && q fp pos)
        refs-home q =
            let e = rebased-home p ok stored_in home lt base next out.apart in
            let e' = rebased-next p ok stored_in home lt base next out.apart in
            ap (λ c. refers c ((after.bucket (next_bid p home)).base) q) e
            ∙ ap (λ c. refers base c q) e'
            ∙ omega (
              arith,
              out.count q,
              pointers-SamePointers ((s.bucket home).base) base0 (same home) false q,
              pointers-SamePointers ((s.bucket (next_bid p home)).base) next0
                  (same (next_bid p home)) true q,
            )

        after-IsBalancedAt : (y : ℕ) → y < p.bucket_num → IsBalancedAt p hash_fn after y
        after-IsBalancedAt y lt' = elim (native.Mathlib.Decide.ℕ_discrete y home) [
          | yes e ↦
              let e' = rebased-home p ok stored_in home lt base next out.apart in
              subst (IsBalancedAt p hash_fn after) (sym e) (
                home-IsBalancedAt out.stored after (λ q. ground (arith, stash home q)) refs-home
                  (ap (λ (c : BucketBase). c.overflow_count) e'
                    ∙ out.overflow
                    ∙ ap
                        (λ (c : BucketBase).
                          if out.stored then c.overflow_count else u8 (c.overflow_count + 1))
                        (same home))
                  (ap has_stash e' ∙ out.present) (bal.balance home lt))
          | no ne ↦
              elsewhere-IsBalancedAt p ok stored_in home lt base next out.apart hash_fn after y lt'
                ne (λ l. refl) (λ q. ground (arith, stash y q, stashed-Inserts y q, ne))
                (SamePointers-IsBalancedAt p hash_fn s stored_in y same
                  (λ q. ground (arith, stashed-Inserts y q, ne)) (bal.balance y lt'))
        ]

      -- An entry in the stash, with its reference, or counted as having none, keeps the balance.
      pub refer-IsBalanced : IsBalanced p hash_fn referred
      unfolding refer
      refer-IsBalanced =
          let r = set_stash_ptr pos fp base0 next0 in
          let out =
            set_stash_ptr-Refers fp pos base0 next0 (tidy home) (tidy (next_bid p home)) small in
          record {
            tidy =
                rebased-IsTidy p ok stored_in home (home_index-lt p ok (hash_fn k)) (r.0) (r.1)
                  out.apart tidy;
            balance = after-IsBalancedAt (r.0) (r.1) out stashed-refer;
          }
