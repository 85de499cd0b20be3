-- ===== src/DashTable/Segment/Splitting/Masked.antt =====
-- A segment whose bucket `bid` is still to lose the slots of a mask: what it will be, and that the
-- steps of `Split` are insertions and deletions of that.
use storage_engine.Base.{
  ℕ, ◌+◌, ◌-◌, ◌≤◌, ◌<◌, ◌≡◌, ◌≢◌, refl, sym, ap, ◌∙◌, bit_and, bit_or, true, false, leb, update,
  update_self, update_ne, arith,
}
use storage_engine.Base.Words.{
  testbit, shl, bit_not32, testbit_ext, testbit-bit_and, testbit-bit_or, testbit-bit_not32,
  testbit-zero,
}
use storage_engine.DashTable.SlotBitmap
use storage_engine.DashTable.SlotBitmap.{SlotBitmap}
use storage_engine.DashTable.SlotBitmap.Bits.{IsValid}
use storage_engine.DashTable.Bucket.{Bucket, delete, clear_slots}
use storage_engine.DashTable.Bucket.Base
use storage_engine.DashTable.Bucket.Stash.{unset_stash_ptr}
use storage_engine.DashTable.Segment.Defs.{
  Policy, IsPolicy, Segment, fingerprint, home_index, next_bid, set_bucket,
}
use storage_engine.DashTable.Segment.Placement.{home_index-lt, next_bid-lt, next_bid-ne}
use storage_engine.DashTable.Segment.Removal.{remove_stash_reference, delete_at}
use mathlib.Core.Path.{fun_ext}

-- A slot more in the mask is a slot that is deleted after.
cleared_word :
    (x m slot : ℕ)
    → ((i : ℕ) → 32 ≤ i → testbit x i ≡ false)
    → bit_and x (bit_not32 (bit_or m (shl 1 slot)))
      ≡ bit_and (bit_and x (bit_not32 m)) (bit_not32 (shl 1 slot))
cleared_word x m slot low = testbit_ext _ _ (λ i. ground (
  arith,
  low i,
  testbit-bit_and x (bit_not32 (bit_or m (shl 1 slot))) i,
  testbit-bit_not32 (bit_or m (shl 1 slot)) i,
  testbit-bit_or m (shl 1 slot) i,
  testbit-bit_and (bit_and x (bit_not32 m)) (bit_not32 (shl 1 slot)) i,
  testbit-bit_and x (bit_not32 m) i,
  testbit-bit_not32 m i,
  testbit-bit_not32 (shl 1 slot) i,
))

whole_word : (x : ℕ) → ((i : ℕ) → 32 ≤ i → testbit x i ≡ false) → bit_and x (bit_not32 0) ≡ x
whole_word x low = testbit_ext _ _ (λ i.
    ground (arith, low i, testbit-bit_and x (bit_not32 0) i, testbit-bit_not32 0 i, testbit-zero i))

module _ {ℓ} {K V : Type ℓ} where
  clear_slots-delete :
      (n m slot : ℕ) (b : Bucket K V)
      → n ≤ 16
      → IsValid n b.slotb
      → clear_slots (bit_or m (shl 1 slot)) b ≡ delete slot (clear_slots m b)
  unfolding clear_slots delete Base.clear_slots Base.delete SlotBitmap.clear_slots
      SlotBitmap.clear_slot
  clear_slots-delete n m slot b small valid =
      let busy =
        cleared_word b.slotb.busy m slot (λ i le. valid.fits i (omega (arith, le, small))) in
      let probe =
        cleared_word b.slotb.probe m slot
          (λ i le. valid.idle i (valid.fits i (omega (arith, le, small)))) in
      rw (busy, probe) refl

  pub set_bucket_comm :
      (s : Segment K V) (i j : ℕ) (a b : Bucket K V)
      → i ≢ j
      → set_bucket (set_bucket s i a) j b ≡ set_bucket (set_bucket s j b) i a
  set_bucket_comm s i j a b ne =
      ap (λ (f : ℕ → Bucket K V). record s { bucket = f }) (fun_ext (λ l. ground (arith, ne)))

  set_bucket_twice :
      (s : Segment K V) (i : ℕ) (a b : Bucket K V)
      → set_bucket (set_bucket s i a) i b ≡ set_bucket s i b
  set_bucket_twice s i a b =
      ap (λ (f : ℕ → Bucket K V). record s { bucket = f }) (fun_ext (λ l. ground arith))

  pub set_bucket-same : (s : Segment K V) (i : ℕ) → set_bucket s i (s.bucket i) ≡ s
  set_bucket-same s i =
      ap (λ (f : ℕ → Bucket K V). record s { bucket = f })
        (fun_ext (λ l. elim (native.Mathlib.Decide.ℕ_discrete l i) [
          | yes e ↦ rw e (update_self s.bucket i (s.bucket i))
          | no ne ↦ update_ne s.bucket i l (s.bucket i) ne
        ]))

  -- What is left when the slots of the mask are cleared in bucket `bid`.
  abbrev pub masked : ℕ → ℕ → Segment K V → Segment K V
  masked bid m s = set_bucket s bid (clear_slots m (s.bucket bid))

  -- The empty mask clears nothing.
  pub masked-none :
      (n bid : ℕ) (s : Segment K V) → n ≤ 16 → IsValid n ((s.bucket bid).slotb) → masked bid 0 s ≡ s
  unfolding clear_slots Base.clear_slots SlotBitmap.clear_slots
  masked-none n bid s small valid =
      let b = s.bucket bid in
      let busy = whole_word b.slotb.busy (λ i le. valid.fits i (omega (arith, le, small))) in
      let probe =
        whole_word b.slotb.probe (λ i le. valid.idle i (valid.fits i (omega (arith, le, small)))) in
      let same : clear_slots 0 b ≡ b = rw (busy, probe) refl in
      ap (set_bucket s bid) same ∙ set_bucket-same s bid

module _ {ℓ} {K V : Type ℓ} (p : Policy) (ok : IsPolicy p) where
  -- `RemoveStashReference`, given the two buckets.
  abbrev rebase : ℕ → ℕ → Segment K V → Bucket K V → Bucket K V → Segment K V
  rebase pos hash s by near =
      let y = home_index p hash in
      let r = unset_stash_ptr (fingerprint hash) pos (by.base) (near.base) in
      set_bucket (set_bucket s y (record by { base = r.0 })) (next_bid p y)
        (record near { base = r.1 })

  remove-rebase :
      (pos hash : ℕ) (s : Segment K V)
      → remove_stash_reference p pos hash s
        ≡ rebase pos hash s
            (s.bucket (home_index p hash))
            (s.bucket (next_bid p (home_index p hash)))
  unfolding remove_stash_reference
  remove-rebase pos hash s =
      let y = home_index p hash in
      let nid = next_bid p y in
      let r = unset_stash_ptr (fingerprint hash) pos ((s.bucket y).base) ((s.bucket nid).base) in
      let s1 = set_bucket s y (record (s.bucket y) { base = r.0 }) in
      ap (λ (c : Bucket K V). set_bucket s1 nid (record c { base = r.1 }))
        (update_ne s.bucket y nid (record (s.bucket y) { base = r.0 })
          (next_bid-ne p ok y (home_index-lt p ok hash)))

  -- References stand in regular buckets, so that their removal does not meet a write to the stash.
  pub remove_stash_reference-set_bucket :
      (pos hash : ℕ) (s : Segment K V) (j : ℕ) (b : Bucket K V)
      → p.bucket_num ≤ j
      → remove_stash_reference p pos hash (set_bucket s j b)
        ≡ set_bucket (remove_stash_reference p pos hash s) j b
  remove_stash_reference-set_bucket pos hash s j b le =
      let y = home_index p hash in
      let nid = next_bid p y in
      let lt = home_index-lt p ok hash in
      let lt' = next_bid-lt p ok y in
      let r = unset_stash_ptr (fingerprint hash) pos ((s.bucket y).base) ((s.bucket nid).base) in
      let s1 = set_bucket s y (record (s.bucket y) { base = r.0 }) in
      let e : update s.bucket j b y ≡ s.bucket y =
        update_ne s.bucket j y b (λ h. omega (arith, le, lt, h)) in
      let e' : update s.bucket j b nid ≡ s.bucket nid =
        update_ne s.bucket j nid b (λ h. omega (arith, le, lt', h)) in
      remove-rebase pos hash (set_bucket s j b)
      ∙ ap (λ c. rebase pos hash (set_bucket s j b) c (update s.bucket j b nid)) e
      ∙ ap (rebase pos hash (set_bucket s j b) (s.bucket y)) e'
      ∙ ap (λ u. set_bucket u nid (record (s.bucket nid) { base = r.1 }))
          (set_bucket_comm s j y b (record (s.bucket y) { base = r.0 })
            (λ h. omega (arith, le, lt, h)))
      ∙ set_bucket_comm s1 j nid b (record (s.bucket nid) { base = r.1 })
          (λ h. omega (arith, le, lt', h))
      ∙ ap (λ u. set_bucket u j b) (sym (remove-rebase pos hash s))

  module _ (bid m slot : ℕ) (s : Segment K V)
      (valid : IsValid p.slot_num ((s.bucket bid).slotb)) where
    -- The deletion of the slot in bucket `bid` alone.
    masked-delete :
        masked bid (bit_or m (shl 1 slot)) s
        ≡ set_bucket (masked bid m s) bid (delete slot ((masked bid m s).bucket bid))
    masked-delete =
        ap (set_bucket s bid) (clear_slots-delete p.slot_num m slot (s.bucket bid) ok.slots valid)
        ∙ sym (
            set_bucket_twice s bid (clear_slots m (s.bucket bid))
              (delete slot (clear_slots m (s.bucket bid))))
        ∙ ap (λ c. set_bucket (masked bid m s) bid (delete slot c))
            (sym (update_self s.bucket bid (clear_slots m (s.bucket bid))))

    pub masked-regular :
        (hash : ℕ)
        → bid < p.bucket_num
        → masked bid (bit_or m (shl 1 slot)) s
          ≡ delete_at p (record { index = bid; slot = slot }) hash (masked bid m s)
    unfolding delete_at
    masked-regular hash lt =
        let regular : leb p.bucket_num bid ≡ false = ground (arith, lt) in rw regular masked-delete

  -- A removal of references leaves the slots of the stash alone.
  pub remove_stash_reference-stash :
      (pos hash : ℕ) (s : Segment K V) (j : ℕ)
      → p.bucket_num ≤ j
      → (remove_stash_reference p pos hash s).bucket j ≡ s.bucket j
  remove_stash_reference-stash pos hash s j le =
      let y = home_index p hash in
      let nid = next_bid p y in
      let lt = home_index-lt p ok hash in
      let lt' = next_bid-lt p ok y in
      let r = unset_stash_ptr (fingerprint hash) pos ((s.bucket y).base) ((s.bucket nid).base) in
      let s1 = set_bucket s y (record (s.bucket y) { base = r.0 }) in
      ap (λ (u : Segment K V). u.bucket j) (remove-rebase pos hash s)
      ∙ update_ne s1.bucket nid j (record (s.bucket nid) { base = r.1 })
          (λ h. omega (arith, le, lt', h))
      ∙ update_ne s.bucket y j (record (s.bucket y) { base = r.0 }) (λ h. omega (arith, le, lt, h))

  -- The removal of the reference and the mark in the mask are the deletion of a stash slot.
  pub masked-stash :
      (pos m slot hash : ℕ) (s : Segment K V)
      → IsValid p.slot_num ((s.bucket (p.bucket_num + pos)).slotb)
      → masked (p.bucket_num + pos) (bit_or m (shl 1 slot)) (remove_stash_reference p pos hash s)
        ≡ delete_at p
            (record { index = p.bucket_num + pos; slot = slot })
            hash
            (masked (p.bucket_num + pos) m s)
  unfolding delete_at
  masked-stash pos m slot hash s valid =
      let bid = p.bucket_num + pos in
      let r = remove_stash_reference p pos hash s in
      let kept = remove_stash_reference-stash pos hash s bid (omega arith) in
      let inside : leb p.bucket_num bid ≡ true = ground arith in
      let place : bid - p.bucket_num ≡ pos = omega arith in
      let same : remove_stash_reference p pos hash (masked bid m s) ≡ masked bid m r =
        remove_stash_reference-set_bucket pos hash s bid (clear_slots m (s.bucket bid))
          (omega arith)
        ∙ ap (λ c. set_bucket r bid (clear_slots m c)) (sym kept) in
      masked-delete bid m slot r (rw kept valid)
      ∙ ap (λ u. set_bucket u bid (delete slot (u.bucket bid))) (sym same)
      ∙ sym (rw (inside, place) refl)
