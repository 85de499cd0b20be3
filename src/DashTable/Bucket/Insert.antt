-- ===== src/DashTable/Bucket/Insert.antt =====
-- `TryInsertToBucket` and `Delete` of src/sharding/DashTable/dash_internal.hpp: where they
-- write, and what they do to the entries of the bucket.
use storage_engine.Base.{
  ℕ, ◌+◌, ◌≤◌, ◌<◌, ◌≡◌, ◌⊎◌, refl, Bool, true, false, ◌&&◌, ◌==◌, if◌then◌else◌, none, some,
  Bool-cases, inl, inr, to_nat, sum_below, sum_below_change, arith,
}
use storage_engine.DashTable.SlotBitmap
use storage_engine.DashTable.SlotBitmap.Bits.{
  is_busy, is_probe, IsValid, set_slot-busy, set_slot-probe, clear_slot-busy,
}
use storage_engine.DashTable.SlotBitmap.Size.{
  find_empty_slot-IsFree, set_slot-IsValid, is_full-busy,
}
use storage_engine.DashTable.Bucket.Base.{BucketBase, is_full, set_hash, size}
use storage_engine.DashTable.Bucket.Base
use storage_engine.DashTable.Bucket.{Bucket, insert, try_insert, delete}

module _ {ℓ} {K V : Type ℓ} where
  -- How many busy slots hold an entry that `q` accepts.
  abbrev pub entry : (K → V → Bool) → Bucket K V → ℕ → ℕ
  entry q b j = to_nat (is_busy b.slotb j && q (b.key j) (b.value j))

  unfoldable pub count : ℕ → (K → V → Bool) → Bucket K V → ℕ
  count n q b = sum_below n (entry q b)

  -- The bucket after a successful insertion: slot `i` was free, and now holds the entry; no other
  -- slot is touched.
  pub record Inserts (n : ℕ) (k : K) (v : V) (fp : ℕ) (probe : Bool) (b : Bucket K V) (i : ℕ)
      (b' : Bucket K V) : Type ℓ where
    pub in_range : i < n
    pub free : is_busy b.slotb i ≡ false
    pub busy : (j : ℕ) → is_busy b'.slotb j ≡ (if j == i then true else is_busy b.slotb j)
    pub probing : (j : ℕ) → is_probe b'.slotb j ≡ (if j == i then probe else is_probe b.slotb j)
    pub finger : (j : ℕ) → b'.finger_arr j ≡ (if j == i then fp else b.finger_arr j)
    pub keys : (j : ℕ) → b'.key j ≡ (if j == i then k else b.key j)
    pub values : (j : ℕ) → b'.value j ≡ (if j == i then v else b.value j)
    pub valid : IsValid n b'.slotb
    pub pointers : b'.base ≡ record b.base { slotb = b'.slotb; finger_arr = b'.finger_arr }

  module _ (n : ℕ) (k : K) (v : V) (fp : ℕ) (probe : Bool) (b : Bucket K V) where
    pub insert-Inserts :
        (i : ℕ)
        → n ≤ 16
        → IsValid n b.slotb
        → i < n
        → is_busy b.slotb i ≡ false
        → Inserts n k v fp probe b i (insert i k v fp probe b)
    unfolding insert set_hash
    insert-Inserts i le valid lt off = record {
      in_range = lt;
      free = off;
      busy = set_slot-busy b.slotb i probe;
      probing = λ j. set_slot-probe b.slotb i probe j (valid.idle i off);
      finger = λ j. refl;
      keys = λ j. refl;
      values = λ j. refl;
      valid = set_slot-IsValid n b.slotb i (omega arith) valid lt probe off;
      pointers = refl;
    }

    -- `TryInsertToBucket`, on a valid bitmap of at most 16 slots: it fails, and then every slot is
    -- busy; or it writes the entry to a slot that was free, and touches no other slot.
    pub try_insert-cases :
        n ≤ 16
        → IsValid n b.slotb
        → ((try_insert n k v fp probe b ≡ none) × ((i : ℕ) → i < n → is_busy b.slotb i ≡ true))
          ⊎ ((i : ℕ) × (b' : Bucket K V) × (try_insert n k v fp probe b ≡ some (i, b'))
              × Inserts n k v fp probe b i b')
    unfolding try_insert
    try_insert-cases le valid = elim (Bool-cases (is_full n b.base)) [
      | inl full ↦
          inl
            (rw full, is_full-busy n b.slotb valid (unfold is_full size SlotBitmap.is_full in full))
      | inr room ↦
          let i = SlotBitmap.find_empty_slot b.slotb in
          let free =
            find_empty_slot-IsFree n b.slotb (omega arith) valid
              (unfold is_full size SlotBitmap.is_full in room) in
          inr
            (i, insert i k v fp probe b, rw room, insert-Inserts i le valid free.in_range free.free)
    ]

  -- An insertion adds its entry and no other.
  pub count-Inserts :
      (n : ℕ) (q : K → V → Bool) {k : K} {v : V} {fp : ℕ} {probe : Bool} {b : Bucket K V} {i : ℕ}
      {b' : Bucket K V}
      → Inserts n k v fp probe b i b'
      → count n q b' ≡ count n q b + to_nat (q k v)
  unfolding count
  count-Inserts n q {k} {v} {b = b} {i = i} {b' = b'} ins =
      let rest =
        sum_below_change n (entry q b) (entry q b') i ins.in_range
          (λ j ne. ground (arith, ins.busy j, ins.keys j, ins.values j)) in
      let before : entry q b i ≡ 0 = ground (arith, ins.free) in
      let after : entry q b' i ≡ to_nat (q k v) =
        ground (arith, ins.busy i, ins.keys i, ins.values i) in
      omega (arith, rest, before, after)

  -- Deleting a busy slot, on a valid bitmap of at most 16 slots, takes that slot's entry away and no
  -- other, counted by any test on entries.
  pub count-delete :
      (n : ℕ) (q : K → V → Bool) (b : Bucket K V) (i : ℕ)
      → n ≤ 16
      → IsValid n b.slotb
      → i < n
      → is_busy b.slotb i ≡ true
      → count n q b ≡ count n q (delete i b) + to_nat (q (b.key i) (b.value i))
  unfolding count delete Base.delete
  count-delete n q b i le valid lt on =
      let cleared = clear_slot-busy n b.slotb i (omega arith) valid in
      let rest =
        sum_below_change n (entry q b) (entry q (delete i b)) i lt
          (λ j ne. ground (arith, cleared j)) in
      let before : entry q b i ≡ to_nat (q (b.key i) (b.value i)) = ground (arith, on) in
      let after : entry q (delete i b) i ≡ 0 = ground (arith, cleared i) in
      omega (arith, rest, before, after)
