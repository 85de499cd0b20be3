-- ===== src/DashTable/Segment/Stash/Releasing.antt =====
-- `Delete` and the references.
use storage_engine.Base.{
  ℕ, ◌+◌, ◌-◌, ◌≤◌, ◌<◌, ◌≡◌, refl, sym, ap, ◌∙◌, true, false, ◌&&◌, ◌==◌, leb, to_nat, Bool-cases,
  inl, inr, subst, sum_below_change_in, update_self, update_ne, arith,
}
use storage_engine.Base.Words.{u8, u8-mod}
use storage_engine.DashTable.SlotBitmap.Bits.{is_busy}
use storage_engine.DashTable.Bucket.{BucketBase, delete}
use storage_engine.DashTable.Bucket.Base
use storage_engine.DashTable.Bucket.Base.{has_stash}
use storage_engine.DashTable.Bucket.Stash.{unset_stash_ptr}
use storage_engine.DashTable.Bucket.Insert.{count, count-delete}
use storage_engine.DashTable.Bucket.Counting.{Test, pointers}
use storage_engine.DashTable.Bucket.Clearing.{exactly}
use storage_engine.DashTable.Bucket.Balance.{refers}
use storage_engine.DashTable.Bucket.Release.{any, Releases, unset_stash_ptr-Releases}
use storage_engine.DashTable.Segment.Defs.{
  Policy, IsPolicy, Segment, Iterator, fingerprint, home_index, next_bid, set_bucket, total_buckets,
}
use storage_engine.DashTable.Segment.Placement.{AllPlaced, IsPlaced-SameEntries, home_index-lt}
use storage_engine.DashTable.Segment.Contents.{count-SameEntries}
use storage_engine.DashTable.Segment.Deletion.{remove_stash_reference-SameEntries}
use storage_engine.DashTable.Segment.Removal.{remove_stash_reference, delete_at}
use storage_engine.DashTable.Segment.Stash.{belongs, stashed, references, IsBalancedAt, IsBalanced}
use storage_engine.DashTable.Segment.Stash.Sums.{
  except, refers-split, refers_mono, stashed-split, stashed-le,
}
use storage_engine.DashTable.Segment.Stash.Frame.{
  SamePointers, SamePointers-IsTidy, pointers-SamePointers, has_stash-SamePointers,
  set_bucket-SamePointers, set_bucket-IsBalanced, rebased, rebased-home, rebased-next,
  rebased-IsTidy, elsewhere-IsBalancedAt,
}

module _ {ℓ} {K V : Type ℓ} (p : Policy) (ok : IsPolicy p) (hash_fn : K → ℕ) (s : Segment K V)
    (all : AllPlaced p hash_fn s) (pos slot : ℕ) (small : pos < 4) (in_range : slot < p.slot_num)
    (busy : is_busy ((s.bucket (p.bucket_num + pos)).slotb) slot ≡ true) where
  abbrev gone_key : K
  gone_key = (s.bucket (p.bucket_num + pos)).key slot

  abbrev fp : ℕ
  fp = fingerprint (hash_fn gone_key)

  abbrev home : ℕ
  home = home_index p (hash_fn gone_key)

  abbrev unreferred : Segment K V
  unreferred = remove_stash_reference p pos (hash_fn gone_key) s

  abbrev deleted : Segment K V
  deleted =
      set_bucket unreferred (p.bucket_num + pos)
        (delete slot (unreferred.bucket (p.bucket_num + pos)))

  stashed-deleted :
      (y : ℕ) (q : Test)
      → stashed p hash_fn y q s ≡ stashed p hash_fn y q deleted + to_nat ((home == y) && q fp pos)
  unfolding stashed
  stashed-deleted y q =
      let at = p.bucket_num + pos in
      let test = belongs p hash_fn y q in
      let same = remove_stash_reference-SameEntries p ok hash_fn pos (hash_fn gone_key) s in
      let b = unreferred.bucket at in
      let placed = IsPlaced-SameEntries p hash_fn at (same at) (all at) in
      let part =
        λ (t : Segment K V) (l : ℕ). count p.slot_num (test l) (t.bucket (p.bucket_num + l)) in
      let rest = sum_below_change_in 4 (part deleted) (part s) pos small (λ l lt ne.
        ap (count p.slot_num (test l)) (
          update_ne unreferred.bucket at (p.bucket_num + l) (delete slot b)
            (λ e. ne (omega (arith, e))))
        ∙ count-SameEntries p.slot_num (test l) (same (p.bucket_num + l))) in
      let here =
        ap (count p.slot_num (test pos)) (update_self unreferred.bucket at (delete slot b)) in
      omega (
        arith,
        rest,
        here,
        count-SameEntries p.slot_num (test pos) (same at),
        count-delete p.slot_num (test pos) b slot ok.slots placed.valid in_range
            (rw (same at).slotb busy),
        ap (λ (f : ℕ → K). to_nat (test pos (f slot) (b.value slot))) (same at).key,
      )

  -- At its home, given what `UnsetStashPtr` does there.
  module _ (bal : IsBalanced p hash_fn s) where
    abbrev base0 : BucketBase
    base0 = (s.bucket home).base

    abbrev next0 : BucketBase
    next0 = (s.bucket (next_bid p home)).base

    module _ (base next : BucketBase) (out : Releases fp pos base0 next0 base next) where
      stashed-home :
          (q : Test)
          → stashed p hash_fn home q s ≡ stashed p hash_fn home q deleted + to_nat (q fp pos)
      stashed-home q = ground (arith, stashed-deleted home q)

      abbrev at : IsBalancedAt p hash_fn s home
      at = bal.balance home (home_index-lt p ok (hash_fn gone_key))

      -- Where no reference goes, there was none to this entry.
      below-kept :
          out.drops.dropped ≡ false
          → (q : Test) → refers base next q ≤ stashed p hash_fn home q deleted
      below-kept kept q =
          let ex = exactly fp pos in
          let other : to_nat (except q ex fp pos) ≡ 0 = ground arith in
          ground (
            arith,
            out.drops.count q,
            out.drops.absent kept,
            refers-split base0 next0 q ex,
            refers_mono base0 next0 q ex,
            at.below (except q ex),
            stashed-home (except q ex),
            other,
            stashed-split p hash_fn home deleted q ex,
          )

      below-home : (q : Test) → refers base next q ≤ stashed p hash_fn home q deleted
      below-home q = elim (Bool-cases out.drops.dropped) [
        | inl e ↦ ground (arith, out.drops.count q, at.below q, stashed-home q, e)
        | inr e ↦ below-kept e q
      ]

      all-home : stashed p hash_fn home any deleted ≡ refers base next any + base.overflow_count
      all-home = elim (Bool-cases out.drops.dropped) [
        | inl e ↦
            ground (arith, out.drops.count any, out.drops.overflow, at.all, stashed-home any, e)
        | inr e ↦
            let few = stashed-le p hash_fn home s any ok.slots in
            let below = below-kept e any in
            let before = out.drops.count any in
            let less : u8 (base0.overflow_count + 255) ≡ base0.overflow_count - 1 =
              u8-mod (base0.overflow_count + 255)
              ∙ ground (arith, few, below, before, e, at.all, stashed-home any) in
            ground
              (arith, few, below, before, e, at.all, stashed-home any, out.drops.overflow, less)
      ]

      present-home : has_stash base ≡ false → stashed p hash_fn home any deleted ≡ 0
      present-home off = elim (Bool-cases (has_stash base0)) [
        | inr e ↦ absurd (omega (arith, at.present e, stashed-home any))
        | inl e ↦
            let (no_refs, no_count) = out.gone e off in omega (arith, all-home, no_refs, no_count)
      ]

      module _
          (pointers_of : (l : ℕ)
            → SamePointers
                ((rebased p ok s home
                    (home_index-lt p ok (hash_fn gone_key))
                    base
                    next
                    out.drops.apart).bucket
                  l).base
                (deleted.bucket l).base) where
        abbrev lt : home < p.bucket_num
        lt = home_index-lt p ok (hash_fn gone_key)

        abbrev after : Segment K V
        after = rebased p ok s home lt base next out.drops.apart

        deleted-IsBalancedAt-home : IsBalancedAt p hash_fn deleted home
        deleted-IsBalancedAt-home =
            let e = rebased-home p ok s home lt base next out.drops.apart in
            let e' = rebased-next p ok s home lt base next out.drops.apart in
            let refs : (q : Test) → references p hash_fn home q deleted ≡ refers base next q = λ q.
              omega (
                arith,
                pointers-SamePointers ((after.bucket home).base) ((deleted.bucket home).base)
                    (pointers_of home) false q,
                pointers-SamePointers ((after.bucket (next_bid p home)).base)
                    ((deleted.bucket (next_bid p home)).base) (pointers_of (next_bid p home)) true
                    q,
                ap (λ c. pointers c false q) e,
                ap (λ c. pointers c true q) e',
              ) in
            record {
              below = λ q. omega (arith, refs q, below-home q);
              all = omega (
                arith,
                refs any,
                all-home,
                ap (λ (c : BucketBase). c.overflow_count) (pointers_of home),
                ap (λ (c : BucketBase). c.overflow_count) e,
              );
              present = λ off. present-home (
                  ap has_stash (sym e) ∙ sym (has_stash-SamePointers _ _ (pointers_of home)) ∙ off);
            }

        deleted-IsBalanced : IsBalanced p hash_fn deleted
        deleted-IsBalanced = record {
          tidy = λ l.
              SamePointers-IsTidy _ _ (pointers_of l)
                (rebased-IsTidy p ok s home lt base next out.drops.apart bal.tidy l);
          balance = λ y lt'. elim (native.Mathlib.Decide.ℕ_discrete y home) [
            | yes e ↦ subst (IsBalancedAt p hash_fn deleted) (sym e) deleted-IsBalancedAt-home
            | no ne ↦
                elsewhere-IsBalancedAt p ok s home lt base next out.drops.apart hash_fn deleted y
                  lt' ne pointers_of (λ q. ground (arith, stashed-deleted y q, ne))
                  (bal.balance y lt')
          ];
        }

    unreferred-IsBalanced : IsBalanced p hash_fn deleted
    unfolding remove_stash_reference delete Base.delete
    unreferred-IsBalanced =
        let r = unset_stash_ptr fp pos base0 next0 in
        let out =
          unset_stash_ptr-Releases fp pos base0 next0 (bal.tidy home)
            (bal.tidy (next_bid p home)) in
        let at = p.bucket_num + pos in
        deleted-IsBalanced (r.0) (r.1) out
          (set_bucket-SamePointers unreferred at (delete slot (unreferred.bucket at)) refl)

-- `Delete` of a busy slot, with the hash of its key, on a segment whose buckets are in order, keeps
-- the stash references in balance.
pub delete_at-IsBalanced {ℓ} :
    {K V : Type ℓ} (p : Policy)
    → IsPolicy p
    → (hash_fn : K → ℕ) (s : Segment K V) (it : Iterator) → AllPlaced p hash_fn s
    → it.index < total_buckets p
    → it.slot < p.slot_num
    → is_busy ((s.bucket it.index).slotb) it.slot ≡ true
    → IsBalanced p hash_fn s
    → IsBalanced p hash_fn (delete_at p it (hash_fn ((s.bucket it.index).key it.slot)) s)
unfolding delete_at delete Base.delete
delete_at-IsBalanced {K = K} {V = V} p ok hash_fn s it all index slot busy bal =
    elim (Bool-cases (leb p.bucket_num it.index)) [
      | inr regular ↦ rw regular (
          set_bucket-IsBalanced p hash_fn s it.index (delete it.slot (s.bucket it.index))
            (ground (arith, regular)) refl bal)
      | inl stash ↦
          let pos = it.index - p.bucket_num in
          let same : p.bucket_num + pos ≡ it.index = ground (arith, stash) in
          rw stash (
            subst
              (λ l.
                is_busy ((s.bucket l).slotb) it.slot ≡ true
                → let s' = remove_stash_reference p pos (hash_fn ((s.bucket l).key it.slot)) s in
                  IsBalanced p hash_fn (set_bucket s' l (delete it.slot (s'.bucket l))))
              same
              (λ on.
                unreferred-IsBalanced p ok hash_fn s all pos it.slot (omega (arith, index, same))
                  slot on bal)
              busy)
    ]
