-- ===== src/DashTable/Bucket/Each.antt =====
-- `ForEachSlotImpl`: a rule for what its callback keeps up over the busy slots.
use storage_engine.Base.{
  ℕ, zero, suc, ◌+◌, ◌<◌, ◌≡◌, subst, ◌∙◌, ap, Bool, true, false, Bool-cases, inl, inr, arith,
}
use storage_engine.Base.Words.{testbit, shr, testbit-shr}
use storage_engine.DashTable.SlotBitmap.Bits.{is_busy}
use storage_engine.DashTable.Bucket.{Bucket, each_slot, for_each_slot}
use storage_engine.DashTable.Bucket.Base.{get_busy}
use storage_engine.DashTable.SlotBitmap

module _ {κ ι} {S : Type κ} (P : ℕ → S → Type ι) (w n : ℕ) (cb : ℕ → Bool → S → S)
    (at_busy : (j : ℕ) (probe : Bool) (s : S)
      → j < n
      → testbit w j ≡ true
      → P j s
      → P (suc j) (cb j probe s))
    (at_free : (j : ℕ) (s : S) → j < n → testbit w j ≡ false → P j s → P (suc j) s) where
  each_slot-keeps :
      (rounds j mask probe_mask : ℕ) (s : S)
      → rounds + j ≡ n
      → ((i : ℕ) → testbit mask i ≡ testbit w (i + j))
      → P j s
      → P n (each_slot rounds j mask probe_mask cb s)
  unfolding each_slot
  each_slot-keeps zero j mask probe_mask s e same at_j =
      let last : j ≡ n = omega (arith, e) in subst (λ i. P i s) last at_j
  each_slot-keeps (suc rounds) j mask probe_mask s e same at_j =
      let next = λ (i : ℕ).
        testbit-shr mask 1 i
        ∙ same (i + 1)
        ∙ ap (testbit w) {x = i + 1 + j} {y = i + suc j} (omega arith) in
      elim (Bool-cases (testbit mask 0)) [
        | inl on ↦ rw on (
            each_slot-keeps rounds (suc j) (shr mask 1) (shr probe_mask 1)
              (cb j (testbit probe_mask 0) s) (omega (arith, e)) next
              (at_busy j (testbit probe_mask 0) s (omega (arith, e)) (ground (arith, same 0, on))
                at_j))
        | inr off ↦ rw off (
            each_slot-keeps rounds (suc j) (shr mask 1) (shr probe_mask 1) s (omega (arith, e)) next
              (at_free j s (omega (arith, e)) (ground (arith, same 0, off)) at_j))
      ]

module _ {ℓ κ ι} {K V : Type ℓ} {S : Type κ} (P : ℕ → S → Type ι) (n : ℕ) (b : Bucket K V)
    (cb : ℕ → Bool → S → S) where
  -- `ForEachSlot`: what holds before slot 0, and is kept by the callback at each busy slot and by
  -- passing over a free one, holds after the last slot.
  pub for_each_slot-keeps :
      ((j : ℕ) (probe : Bool) (s : S)
        → j < n
        → is_busy b.slotb j ≡ true
        → P j s
        → P (suc j) (cb j probe s))
      → ((j : ℕ) (s : S) → j < n → is_busy b.slotb j ≡ false → P j s → P (suc j) s)
      → (s : S) → P 0 s
      → P n (for_each_slot n cb b s)
  unfolding for_each_slot get_busy SlotBitmap.get_busy
  for_each_slot-keeps at_busy at_free s start =
      each_slot-keeps P b.slotb.busy n cb at_busy at_free n 0 _ _ s (omega arith)
        (λ i. ap (testbit b.slotb.busy) {x = i} {y = i + 0} (omega arith)) start
