-- ===== src/DashTable/Segment/Placement.antt =====
-- Where an entry may stand in a segment: the invariant of every bucket, and its preservation by
-- the writes to one bucket.
use storage_engine.Base.{
  ℕ, ◌≤◌, ◌<◌, ◌≡◌, ◌≢◌, refl, Bool, true, false, if◌then◌else◌, update_self, update_ne, arith,
}
use storage_engine.DashTable.SlotBitmap.Bits.{
  is_busy, is_probe, IsValid, clear_slot-busy, clear_slot-probe, clear_slot-IsValid,
}
use storage_engine.DashTable.Bucket.{Bucket, delete}
use storage_engine.DashTable.Bucket.Base
use storage_engine.DashTable.Bucket.Insert.{Inserts}
use storage_engine.DashTable.Segment.Defs.{
  Policy, IsPolicy, Segment, fingerprint, home_index, next_bid, prev_bid, set_bucket,
}

module _ (p : Policy) where
  -- An entry of hash `hash` may stand in bucket `i` under this probe mark.
  pub record MayStand (hash i : ℕ) (probe : Bool) : Type 0 where
    pub home :
        i < p.bucket_num → (if probe then next_bid p (home_index p hash) else home_index p hash) ≡ i
    pub stash : p.bucket_num ≤ i → probe ≡ false

  pub home_index-lt : IsPolicy p → (hash : ℕ) → home_index p hash < p.bucket_num
  unfolding home_index
  home_index-lt ok hash = omega (arith, ok.neighbours)

  pub next_bid-lt : IsPolicy p → (bid : ℕ) → next_bid p bid < p.bucket_num
  unfolding next_bid
  next_bid-lt ok bid = ground (arith, ok.neighbours)

  pub prev_bid-lt : IsPolicy p → (bid : ℕ) → bid < p.bucket_num → prev_bid p bid < p.bucket_num
  unfolding prev_bid
  prev_bid-lt ok bid lt = ground (arith, ok.neighbours)

  pub next_bid-ne : IsPolicy p → (bid : ℕ) → bid < p.bucket_num → next_bid p bid ≢ bid
  unfolding next_bid
  next_bid-ne ok bid lt e = ground (arith, ok.neighbours)

  pub next_bid-prev_bid :
      IsPolicy p → (bid : ℕ) → bid < p.bucket_num → next_bid p (prev_bid p bid) ≡ bid
  unfolding next_bid prev_bid
  next_bid-prev_bid ok bid lt = ground (arith, ok.neighbours)

  pub next_bid-injective :
      IsPolicy p
      → (a b : ℕ) → a < p.bucket_num
      → b < p.bucket_num
      → next_bid p a ≡ next_bid p b
      → a ≡ b
  unfolding next_bid
  next_bid-injective ok a b lta ltb' e = ground (arith, ok.neighbours)

module _ {ℓ} {K : Type ℓ} (p : Policy) (hash_fn : K → ℕ) where
  MayStand-congr :
      (i : ℕ) (k k' : K) (probe probe' : Bool)
      → k ≡ k'
      → probe ≡ probe'
      → MayStand p (hash_fn k') i probe'
      → MayStand p (hash_fn k) i probe
  MayStand-congr i k k' probe probe' ek ep may = rw (ek, ep) may

-- Two buckets that differ in their stash pointers at most.
pub record SameEntries {ℓ} {K V : Type ℓ} (b b' : Bucket K V) : Type ℓ where
  pub slotb : b'.slotb ≡ b.slotb
  pub finger_arr : b'.finger_arr ≡ b.finger_arr
  pub key : b'.key ≡ b.key
  pub value : b'.value ≡ b.value

module _ {ℓ} {K V : Type ℓ} (p : Policy) (hash_fn : K → ℕ) where
  -- Bucket `i` is in order: its bitmap is, each busy slot has its key's fingerprint, and each
  -- entry may stand there.
  pub record IsPlaced (i : ℕ) (b : Bucket K V) : Type 0 where
    pub valid : IsValid p.slot_num b.slotb
    pub prints :
        (j : ℕ) → is_busy b.slotb j ≡ true → b.finger_arr j ≡ fingerprint (hash_fn (b.key j))
    pub stands :
        (j : ℕ) → is_busy b.slotb j ≡ true → MayStand p (hash_fn (b.key j)) i (is_probe b.slotb j)

  abbrev pub AllPlaced : Segment K V → Type 0
  AllPlaced s = (i : ℕ) → IsPlaced i (s.bucket i)

  pub set_bucket-AllPlaced :
      (s : Segment K V) (i : ℕ) (b : Bucket K V)
      → AllPlaced s
      → IsPlaced i b
      → AllPlaced (set_bucket s i b)
  set_bucket-AllPlaced s i b all one j = elim (native.Mathlib.Decide.ℕ_discrete j i) [
    | yes e ↦ rw e (rw (update_self s.bucket i b) one)
    | no ne ↦ rw (update_ne s.bucket i j b ne) (all j)
  ]

  pub Inserts-IsPlaced :
      (i : ℕ) {k : K} {v : V} {probe : Bool} {b : Bucket K V} {slot : ℕ} {b' : Bucket K V}
      → IsPlaced i b
      → MayStand p (hash_fn k) i probe
      → Inserts p.slot_num k v (fingerprint (hash_fn k)) probe b slot b'
      → IsPlaced i b'
  Inserts-IsPlaced i {k} {probe = probe} {b = b} {slot = slot} {b' = b'} pl may ins = record {
    valid = ins.valid;
    prints = λ j on. ground (arith, ins.busy j, ins.finger j, ins.keys j, pl.prints j);
    stands = λ j on. elim (native.Mathlib.Decide.ℕ_discrete j slot) [
      | yes e ↦
          MayStand-congr p hash_fn i (b'.key j) k (is_probe b'.slotb j) probe
            (ground (arith, ins.keys j)) (ground (arith, ins.probing j)) may
      | no ne ↦
          MayStand-congr p hash_fn i (b'.key j) (b.key j) (is_probe b'.slotb j) (is_probe b.slotb j)
            (ground (arith, ins.keys j)) (ground (arith, ins.probing j))
            (pl.stands j (ground (arith, ins.busy j)))
    ];
  }

  module _ (i : ℕ) (b : Bucket K V) (le : p.slot_num ≤ 16) where
    pub delete-IsPlaced : (slot : ℕ) → IsPlaced i b → IsPlaced i (delete slot b)
    unfolding delete Base.delete
    delete-IsPlaced slot pl =
        let busy = clear_slot-busy p.slot_num b.slotb slot (omega arith) pl.valid in
        let probing = clear_slot-probe p.slot_num b.slotb slot (omega arith) pl.valid in
        record {
          valid = clear_slot-IsValid p.slot_num b.slotb slot (omega arith) pl.valid;
          prints = λ j on. ground (arith, busy j, pl.prints j);
          stands = λ j on.
              MayStand-congr p hash_fn i (b.key j) (b.key j) _ (is_probe b.slotb j) refl
                (ground (arith, busy j, probing j)) (pl.stands j (ground (arith, busy j)));
        }

  -- The stash pointers have no part in it.
  pub IsPlaced-SameEntries :
      (i : ℕ) {b b' : Bucket K V} → SameEntries b b' → IsPlaced i b → IsPlaced i b'
  IsPlaced-SameEntries i {b} {b'} same pl = record {
    valid = rw same.slotb pl.valid;
    prints = λ j on. rw (same.finger_arr, same.key) (pl.prints j (rw same.slotb at on));
    stands = λ j on. rw (same.slotb, same.key) (pl.stands j (rw same.slotb at on));
  }
