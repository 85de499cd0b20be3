-- ===== src/DashTable/Segment/Insertion/Steps.antt =====
-- One step of an insertion: a write into a free slot, and the move that frees one.
use storage_engine.Base.{
  ℕ, ◌<◌, ◌≡◌, ◌≢◌, ◌⊎◌, refl, sym, ap, ◌∙◌, subst, Bool, true, false, not, ◌==◌, none, some,
  Bool-cases, inl, inr, to_nat, update, update_self, update_ne, arith,
}
use storage_engine.Base.Words.{ctz, some_bit, ctz-IsLowest}
use storage_engine.DashTable.SlotBitmap.Bits.{is_busy, is_probe, testbit-get_probe, clear_slot-busy}
use storage_engine.DashTable.Bucket.{Bucket, delete}
use storage_engine.DashTable.Bucket.Base.{get_probe}
use storage_engine.DashTable.Bucket.Base
use storage_engine.DashTable.Bucket.Insert.{Inserts, try_insert-cases, count-Inserts, count-delete}
use storage_engine.DashTable.Segment.Defs.{
  Policy, IsPolicy, Segment, Iterator, fingerprint, home_index, next_bid, set_bucket, total_buckets,
}
use storage_engine.DashTable.Segment.Placement.{
  AllPlaced, MayStand, next_bid-injective, set_bucket-AllPlaced, Inserts-IsPlaced, delete-IsPlaced,
  home_index-lt,
}
use storage_engine.DashTable.Segment.Stash.{IsBalanced}
use storage_engine.DashTable.Segment.Stash.Frame.{set_bucket-IsBalanced}
use storage_engine.DashTable.Segment.Contents.{total, total-set_bucket, Adds}
use storage_engine.DashTable.Segment.Insertion.{move_to_other, insert_at}

module _ {ℓ} {K V : Type ℓ} (p : Policy) where
  -- Every slot of bucket `i` is taken.
  abbrev pub IsCrowded : Segment K V → ℕ → Type 0
  IsCrowded s i = (j : ℕ) → j < p.slot_num → is_busy ((s.bucket i).slotb) j ≡ true

module _ {ℓ} {K V : Type ℓ} (p : Policy) (ok : IsPolicy p) (hash_fn : K → ℕ) where
  module _ (k : K) (v : V) where
    pub Adds-set_bucket :
        (s : Segment K V) (i : ℕ) (probe : Bool) (slot : ℕ) (b : Bucket K V)
        → AllPlaced p hash_fn s
        → i < total_buckets p
        → MayStand p (hash_fn k) i probe
        → Inserts p.slot_num k v (fingerprint (hash_fn k)) probe (s.bucket i) slot b
        → Adds p hash_fn k v s (record { index = i; slot = slot }) (set_bucket s i b)
    Adds-set_bucket s i probe slot b all lt may ins =
        let here : update s.bucket i b i ≡ b = update_self s.bucket i b in
        record {
          index = lt;
          slot = ins.in_range;
          busy = rw here (ground (arith, ins.busy slot));
          key = rw here (ground (arith, ins.keys slot));
          value = rw here (ground (arith, ins.values slot));
          placed =
              set_bucket-AllPlaced p hash_fn s i b all
                (Inserts-IsPlaced p hash_fn i (all i) may ins);
          contents =
              λ q. omega (arith, total-set_bucket p q s i b lt, count-Inserts p.slot_num q ins);
        }

    -- `TryInsertToBucket` at a bucket where the entry may stand.
    pub insert_at-cases :
        (s : Segment K V) (i : ℕ) (probe : Bool)
        → AllPlaced p hash_fn s
        → i < p.bucket_num
        → MayStand p (hash_fn k) i probe
        → ((insert_at p i k v (fingerprint (hash_fn k)) probe s ≡ none) × IsCrowded p s i)
          ⊎ ((it : Iterator) × (s' : Segment K V) × (insert_at p i k v
                  (fingerprint (hash_fn k))
                  probe
                  s
                ≡ some (it, s'))
              × Adds p hash_fn k v s it s'
              × (IsBalanced p hash_fn s → IsBalanced p hash_fn s'))
    unfolding insert_at
    insert_at-cases s i probe all lt may =
        elim (try_insert-cases p.slot_num k v (fingerprint (hash_fn k)) probe (s.bucket i) ok.slots
          ((all i).valid)) [
            | inl (e, full) ↦ inl (rw (e, insert_at), full)
            | inr (slot, b, e, ins) ↦ inr (
              record { index = i; slot = slot },
              set_bucket s i b,
              rw (e, insert_at),
              Adds-set_bucket s i probe slot b all (omega (arith, lt)) may ins,
              set_bucket-IsBalanced p hash_fn s i b lt ins.pointers,
            )
          ]

  -- After a move out of bucket `from`: its slot is free, and the segment has the same entries.
  pub record Frees (s : Segment K V) (from slot : ℕ) (s' : Segment K V) : Type ℓ where
    pub in_range : slot < p.slot_num
    pub free : is_busy ((s'.bucket from).slotb) slot ≡ false
    pub placed : AllPlaced p hash_fn s'
    pub contents : (q : K → V → Bool) → total p q s' ≡ total p q s
    pub balanced : IsBalanced p hash_fn s → IsBalanced p hash_fn s'

  module _ (s : Segment K V) (all : AllPlaced p hash_fn s) where
    -- The entry that the mask picks is a busy one of the kind that the move is for.
    picked :
        (own : Bool) (from : ℕ)
        → (own ≡ true → IsCrowded p s from)
        → (get_probe p.slot_num (not own) ((s.bucket from).base) == 0) ≡ false
        → let i = ctz 32 (get_probe p.slot_num (not own) ((s.bucket from).base)) in
          (i < p.slot_num)
          × (is_busy ((s.bucket from).slotb) i ≡ true)
          × (is_probe ((s.bucket from).slotb) i ≡ not own)
    unfolding Base.get_probe
    picked own from full nz =
        let b = s.bucket from in
        let mask = get_probe p.slot_num (not own) b.base in
        let bits = λ (i : ℕ). testbit-get_probe p.slot_num (not own) b.slotb i in
        let (i, lt, on) = some_bit p.slot_num mask (λ i h. ground (arith, bits i)) (ground arith) in
        let low = ctz-IsLowest 32 mask i (omega (arith, ok.slots)) on in
        let j = ctz 32 mask in
        let small : j < p.slot_num = omega (arith, low.first) in
        let kind : is_probe b.slotb j ≡ not own = ground (arith, bits j, low.is_set) in
        let taken = λ (e : own ≡ true). full e j small in
        (small, ground (arith, taken, (all from).valid.idle j), kind)

    module _ (from to : ℕ) (lt : from < p.bucket_num) (lt' : to < p.bucket_num)
        (ne : from ≢ to) where
      -- The entry may stand where it goes to.
      move-MayStand :
          (own : Bool) (hash : ℕ)
          → (own ≡ true → next_bid p from ≡ to)
          → (own ≡ false → next_bid p to ≡ from)
          → MayStand p hash from (not own)
          → MayStand p hash to own
      move-MayStand true hash fwd back may = record {
        home = λ _. ap (next_bid p) (may.home lt) ∙ fwd refl;
        stash = λ h. absurd (omega arith);
      }
      move-MayStand false hash fwd back may = record {
        home = λ _.
            next_bid-injective p ok (home_index p hash) to (home_index-lt p ok hash) lt'
              (may.home lt ∙ sym (back refl));
        stash = λ h. refl;
      }

      move-Frees :
          (own : Bool) (j dst : ℕ) (b : Bucket K V)
          → let src = s.bucket from in
            j < p.slot_num
            → is_busy src.slotb j ≡ true
            → MayStand p (hash_fn (src.key j)) to own
            → Inserts p.slot_num
                (src.key j)
                (src.value j)
                (fingerprint (hash_fn (src.key j)))
                own
                (s.bucket to)
                dst
                b
            → let moved = set_bucket s to b in
              Frees s from j (set_bucket moved from (delete j (moved.bucket from)))
      unfolding delete Base.delete
      move-Frees own j dst b small on may ins =
          let src = s.bucket from in
          let moved = set_bucket s to b in
          let kept : moved.bucket from ≡ src = update_ne s.bucket to from b ne in
          let there =
            set_bucket-AllPlaced p hash_fn s to b all
              (Inserts-IsPlaced p hash_fn to (all to) may ins) in
          let gone = delete j (moved.bucket from) in
          let here : update moved.bucket from gone from ≡ gone =
            update_self moved.bucket from gone in
          record {
            in_range = small;
            free = rw here (
                ground (
                  arith,
                  clear_slot-busy p.slot_num ((moved.bucket from).slotb) j (omega (arith, ok.slots))
                      ((there from).valid) j,
                ));
            placed =
                set_bucket-AllPlaced p hash_fn moved from gone there
                  (delete-IsPlaced p hash_fn from (moved.bucket from) ok.slots j (there from));
            contents = λ q.
                let on' : is_busy ((moved.bucket from).slotb) j ≡ true =
                  ap (λ (c : Bucket K V). is_busy c.slotb j) kept ∙ on in
                omega (
                  arith,
                  total-set_bucket p q s to b (omega arith),
                  total-set_bucket p q moved from gone (omega arith),
                  count-Inserts p.slot_num q ins,
                  count-delete p.slot_num q (moved.bucket from) j ok.slots ((there from).valid)
                      small on',
                  ap (λ (c : Bucket K V). to_nat (q (c.key j) (c.value j))) kept,
                );
            balanced = λ bal.
                set_bucket-IsBalanced p hash_fn moved from gone lt refl
                  (set_bucket-IsBalanced p hash_fn s to b lt' ins.pointers bal);
          }

    -- `MoveToOther` between neighbours, where all buckets are in order: it is either given the
    -- bucket's own entries and the next bucket, the bucket being full, or the entries of the bucket
    -- before and that bucket. Either it moves nothing, or the slot that it returns is free in the
    -- source bucket, every bucket is still in order, and the segment has the same entries.
    pub move_to_other-cases :
        (own : Bool) (from to : ℕ)
        → from < p.bucket_num
        → to < p.bucket_num
        → from ≢ to
        → (own ≡ true → (next_bid p from ≡ to) × IsCrowded p s from)
        → (own ≡ false → next_bid p to ≡ from)
        → (move_to_other p own from to s ≡ none)
          ⊎ ((slot : ℕ) × (s' : Segment K V) × (move_to_other p own from to s ≡ some (slot, s'))
              × Frees s from slot s')
    unfolding move_to_other
    move_to_other-cases own from to lt lt' ne fwd back =
        let src = s.bucket from in
        let mask = get_probe p.slot_num (not own) src.base in
        let j : ℕ = ctz 32 mask in
        elim (Bool-cases (mask == 0)) [
          | inl e ↦ inl (rw e)
          | inr e ↦
              let (small, on, kind) = picked own from (λ h. (fwd h).1) e in
              let may : MayStand p (hash_fn (src.key j)) to own =
                move-MayStand from to lt lt' ne own _ (λ h. (fwd h).0) back
                  (subst (MayStand p (hash_fn (src.key j)) from) kind ((all from).stands j on)) in
              elim (try_insert-cases p.slot_num (src.key j) (src.value j) (src.finger_arr j) own
                (s.bucket to) ok.slots ((all to).valid)) [
                  | inl (none_e, _) ↦ inl (rw (e, none_e, move_to_other))
                  | inr (dst, b, some_e, ins) ↦ inr (
                    j,
                    _,
                    rw (e, some_e, move_to_other),
                    move-Frees from to lt lt' ne own j dst b small on may
                        (rw ((all from).prints j on) at ins),
                  )
                ]
        ]
