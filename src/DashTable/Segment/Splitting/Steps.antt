-- ===== src/DashTable/Segment/Splitting/Steps.antt =====
-- The two things that a callback of `Split` does to an entry that it takes out of its slot: send it to
-- the new segment, or move it from the stash to a regular bucket.
use storage_engine.Base.{
  ℕ, ◌-◌, ◌≤◌, ◌<◌, ◌≡◌, ◌≢◌, refl, ap, ◌∙◌, subst, Bool, true, false, leb, to_nat, inl, inr,
  Bool-cases, sum_below_mono, update, update_self, update_ne, arith,
}
use storage_engine.DashTable.SlotBitmap.Bits.{is_busy, IsValid, clear_slot-busy}
use storage_engine.DashTable.Bucket.{Bucket, delete}
use storage_engine.DashTable.Bucket.Base
use storage_engine.DashTable.Bucket.Insert.{count, entry, Inserts, count-Inserts}
use storage_engine.DashTable.Segment.Defs.{
  Policy, IsPolicy, Segment, Iterator, fingerprint, set_bucket, total_buckets,
}
use storage_engine.DashTable.Segment.Placement.{AllPlaced, MayStand, SameEntries}
use storage_engine.DashTable.Segment.Contents.{total, count-SameEntries}
use storage_engine.DashTable.Segment.Pointers.{SameEntries-refl}
use storage_engine.DashTable.Segment.Stash.{IsBalanced}
use storage_engine.DashTable.Segment.Stash.Frame.{set_bucket-IsBalanced}
use storage_engine.DashTable.Segment.Stash.Releasing.{delete_at-IsBalanced}
use storage_engine.DashTable.Segment.Insertion.Steps.{Adds-set_bucket}
use storage_engine.DashTable.Segment.Removal.{delete_at, remove_stash_reference}
use storage_engine.DashTable.Segment.Deletion.{
  delete_at-Removes, remove_stash_reference-SameEntries,
}
use storage_engine.DashTable.Segment.Splitting.{is_mine, send}
use storage_engine.DashTable.Segment.Splitting.Shares.{goes, IsSound, Splits, send-Sends, both}

module _ {ℓ} {K V : Type ℓ} where
  delete-le :
      (n : ℕ) (q : K → V → Bool) (b : Bucket K V) (slot : ℕ)
      → n ≤ 16
      → IsValid n b.slotb
      → count n q (delete slot b) ≤ count n q b
  unfolding count delete Base.delete
  delete-le n q b slot le valid =
      sum_below_mono n (entry q (delete slot b)) (entry q b)
        (λ j _. ground (arith, clear_slot-busy n b.slotb slot (omega arith) valid j))

module _ {ℓ} {K V : Type ℓ} (p : Policy) (ok : IsPolicy p) (hash_fn : K → ℕ) where
  cleared-le :
      (q : K → V → Bool) (s s' : Segment K V) (it : Iterator)
      → AllPlaced p hash_fn s
      → ((l : ℕ) → SameEntries (s.bucket l) (s'.bucket l))
      → (l : ℕ)
      → count p.slot_num q (update s'.bucket it.index (delete it.slot (s'.bucket it.index)) l)
        ≤ count p.slot_num q (s.bucket l)
  cleared-le q s s' it all same l =
      let b = delete it.slot (s'.bucket it.index) in
      let kept = count-SameEntries p.slot_num q (same l) in
      elim (native.Mathlib.Decide.ℕ_discrete l it.index) [
        | yes e ↦
            let valid : IsValid p.slot_num ((s'.bucket it.index).slotb) =
              rw ((same it.index).slotb) ((all it.index).valid) in
            let less = delete-le p.slot_num q (s'.bucket it.index) it.slot ok.slots valid in
            omega (
              arith,
              ap (count p.slot_num q)
                  (ap (update s'.bucket it.index b) e ∙ update_self s'.bucket it.index b),
              less,
              count-SameEntries p.slot_num q (same it.index),
              ap (λ i. count p.slot_num q (s.bucket i)) e,
            )
        | no ne ↦ omega (arith, ap (count p.slot_num q) (update_ne s'.bucket it.index l b ne), kept)
      ]

  -- A deletion leaves no bucket with more entries of a kind.
  pub delete_at-le :
      (q : K → V → Bool) (s : Segment K V) (it : Iterator) (hash : ℕ)
      → AllPlaced p hash_fn s
      → (l : ℕ)
      → count p.slot_num q ((delete_at p it hash s).bucket l) ≤ count p.slot_num q (s.bucket l)
  unfolding delete_at
  delete_at-le q s it hash all l = elim (Bool-cases (leb p.bucket_num it.index)) [
    | inl stash ↦ rw stash (
        cleared-le q s (remove_stash_reference p (it.index - p.bucket_num) hash s) it all
          (remove_stash_reference-SameEntries p ok hash_fn (it.index - p.bucket_num) hash s) l)
    | inr regular ↦ rw regular (cleared-le q s s it all (λ i. SameEntries-refl (s.bucket i)) l)
  ]

  module _ (depth : ℕ) (s d : Segment K V) (left : IsSound p ok hash_fn depth s)
      (right : IsSound p ok hash_fn depth d) (it : Iterator) (index : it.index < total_buckets p)
      (slot : it.slot < p.slot_num)
      (busy : is_busy ((s.bucket it.index).slotb) it.slot ≡ true) where
    abbrev k : K
    k = (s.bucket it.index).key it.slot

    abbrev v : V
    v = (s.bucket it.index).value it.slot

    gone-Splits :
        is_mine depth (hash_fn k) ≡ false
        → Splits p ok hash_fn depth s d (delete_at p it (hash_fn k) s) (send p hash_fn k v d)
    gone-Splits other =
        let r = delete_at-Removes p ok hash_fn s it left.placed index slot busy (hash_fn k) in
        let a = send-Sends p ok hash_fn depth k v d right other in
        record {
          left = record {
            placed = r.placed;
            balanced =
                delete_at-IsBalanced p ok hash_fn s it left.placed index slot busy left.balanced;
          };
          right = a.sound;
          le = λ q. omega (arith, r.contents q, a.le q);
          grows = a.grows;
          exact = λ few q. omega (arith, r.contents q, a.exact few q);
          shrinks = delete_at-le (goes p ok hash_fn depth) s it (hash_fn k) left.placed;
          keeps = λ q. ground (arith, r.contents (both p ok hash_fn depth q), other);
          apart = a.apart;
          right_depth = a.depths;
        }

    -- The entry at `it` goes to the other segment.
    pub sent-Splits :
        (k' : K) (v' : V)
        → k ≡ k'
        → v ≡ v'
        → is_mine depth (hash_fn k') ≡ false
        → Splits p ok hash_fn depth s d (delete_at p it (hash_fn k') s) (send p hash_fn k' v' d)
    sent-Splits k' v' ek ev =
        let at = λ (k1 : K) (v1 : V).
          is_mine depth (hash_fn k1) ≡ false
          → Splits p ok hash_fn depth s d (delete_at p it (hash_fn k1) s)
              (send p hash_fn k1 v1 d) in
        subst (λ v1. at k' v1) ev (subst (λ k1. at k1 v) ek gone-Splits)

    -- The entry at `it`, of a stash bucket, moves to the regular bucket `i`.
    pub moved-Splits :
        (i : ℕ) (probe : Bool) (free : ℕ) (b : Bucket K V)
        → i < p.bucket_num
        → p.bucket_num ≤ it.index
        → MayStand p (hash_fn k) i probe
        → Inserts p.slot_num k v (fingerprint (hash_fn k)) probe (s.bucket i) free b
        → is_mine depth (hash_fn k) ≡ true
        → Splits p ok hash_fn depth s d (delete_at p it (hash_fn k) (set_bucket s i b)) d
    moved-Splits i probe free b lt le may ins mine =
        let w = set_bucket s i b in
        let ne : it.index ≢ i = λ h. omega (arith, lt, le, h) in
        let here : w.bucket it.index ≡ s.bucket it.index = update_ne s.bucket i it.index b ne in
        let a =
          Adds-set_bucket p ok hash_fn k v s i probe free b left.placed (omega arith) may ins in
        let on : is_busy ((w.bucket it.index).slotb) it.slot ≡ true = rw here busy in
        let r = delete_at-Removes p ok hash_fn w it a.placed index slot on (hash_fn k) in
        let bal = set_bucket-IsBalanced p hash_fn s i b lt ins.pointers left.balanced in
        let own = λ (q : K → V → Bool).
          ap (λ (c : Bucket K V). to_nat (q (c.key it.slot) (c.value it.slot))) here in
        let same : (q : K → V → Bool) → total p q (delete_at p it (hash_fn k) w) ≡ total p q s =
          λ q. omega (arith, a.contents q, r.contents q, own q) in
        let added = count-Inserts p.slot_num (goes p ok hash_fn depth) ins in
        record {
          left = record {
            placed = r.placed;
            balanced =
                subst
                  (λ (c : Bucket K V).
                    IsBalanced p hash_fn (delete_at p it (hash_fn (c.key it.slot)) w))
                  here (delete_at-IsBalanced p ok hash_fn w it a.placed index slot on bal);
          };
          right = right;
          le = λ q. omega (arith, same q);
          grows = omega arith;
          exact = λ _ q. omega (arith, same q);
          shrinks = λ l.
              let less = delete_at-le (goes p ok hash_fn depth) w it (hash_fn k) a.placed l in
              elim (native.Mathlib.Decide.ℕ_discrete l i) [
                | yes e ↦ ground (
                  arith,
                  less,
                  added,
                  mine,
                  ap (λ j. count p.slot_num (goes p ok hash_fn depth) (s.bucket j)) e,
                  ap (count p.slot_num (goes p ok hash_fn depth))
                      (ap (update s.bucket i b) e ∙ update_self s.bucket i b),
                )
                | no ne' ↦ omega (
                  arith,
                  less,
                  ap (count p.slot_num (goes p ok hash_fn depth)) (update_ne s.bucket i l b ne'),
                )
              ];
          keeps = λ q. same (both p ok hash_fn depth q);
          apart = refl;
          right_depth = refl;
        }
