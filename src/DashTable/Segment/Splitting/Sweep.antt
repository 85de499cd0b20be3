-- ===== src/DashTable/Segment/Splitting/Sweep.antt =====
-- One bucket's turn in `Split`: the callbacks over its slots, and the slots cleared after them.
use storage_engine.Base.{
  ℕ, suc, ◌<◌, ◌≡◌, refl, sym, ap, ◌∙◌, subst, Bool, true, false, bit_or, inl, inr, Bool-cases,
  update_self, arith,
}
use storage_engine.Base.Words.{testbit, shl, testbit-bit_or, testbit-shl_one}
use storage_engine.DashTable.SlotBitmap.Bits.{is_busy, IsValid, clear_slots-busy}
use storage_engine.DashTable.Bucket.{Bucket, clear_slots}
use storage_engine.DashTable.Bucket.Base
use storage_engine.DashTable.Segment.Defs.{Policy, IsPolicy, Segment}
use storage_engine.DashTable.Segment.Placement.{SameEntries}
use storage_engine.DashTable.Segment.Pointers.{SameEntries-refl}
use storage_engine.DashTable.Segment.Splitting.{SplitState, is_mine, send, split_regular_slot}
use storage_engine.DashTable.Segment.Splitting.Masked.{masked, masked-regular}
use storage_engine.DashTable.Segment.Splitting.Shares.{Splits, Splits-trans}
use storage_engine.DashTable.Segment.Splitting.Steps.{sent-Splits}

module _ {ℓ} {K V : Type ℓ} where
  -- Two buckets that have the same entries as a third.
  SameEntries-trans : {a b c : Bucket K V} → SameEntries a b → SameEntries b c → SameEntries a c
  SameEntries-trans x y = record {
    slotb = y.slotb ∙ x.slotb;
    finger_arr = y.finger_arr ∙ x.finger_arr;
    key = y.key ∙ x.key;
    value = y.value ∙ x.value;
  }

module _ {ℓ} {K V : Type ℓ} (p : Policy) (ok : IsPolicy p) (hash_fn : K → ℕ) (depth : ℕ)
    (s0 d0 : Segment K V) (bid : ℕ) (b0 : Bucket K V) (valid : IsValid p.slot_num b0.slotb) where
  -- Before slot `cur`: the bucket itself is as it was, `b0`; the mask has only slots before `cur`, among
  -- them every one whose entry goes; and with the mask's slots cleared the two segments share out the
  -- entries that `s0` and `d0` had.
  pub record Sweep (cur : ℕ) (st : SplitState K V) : Type ℓ where
    pub same : SameEntries b0 (st.source.bucket bid)
    pub depths : st.source.local_depth ≡ depth
    pub swept : (j : ℕ) → testbit st.invalid_mask j ≡ true → j < cur
    pub gone :
        (j : ℕ)
        → j < cur
        → is_busy b0.slotb j ≡ true
        → is_mine depth (hash_fn (b0.key j)) ≡ false
        → testbit st.invalid_mask j ≡ true
    pub splits : Splits p ok hash_fn depth s0 d0 (masked bid st.invalid_mask st.source) st.dest

  -- A slot that keeps what it holds.
  pub Sweep-pass :
      (cur : ℕ) (st : SplitState K V)
      → (is_busy b0.slotb cur ≡ true → is_mine depth (hash_fn (b0.key cur)) ≡ true)
      → Sweep cur st
      → Sweep (suc cur) st
  Sweep-pass cur st stay sw = record {
    same = sw.same;
    depths = sw.depths;
    swept = λ j on. omega (arith, sw.swept j on);
    gone = λ j lt on other. elim (native.Mathlib.Decide.ℕ_discrete j cur) [
      | yes e ↦
          let on' : is_busy b0.slotb cur ≡ true = rw e at on in
          let other' : is_mine depth (hash_fn (b0.key cur)) ≡ false = rw e at other in
          absurd (ground (arith, stay on', other'))
      | no ne ↦ sw.gone j (omega (arith, lt, ne)) on other
    ];
    splits = sw.splits;
  }

  -- A slot that is added to the mask.
  pub Sweep-mark :
      (cur : ℕ) (st : SplitState K V) (s' d' : Segment K V)
      → SameEntries (st.source.bucket bid) (s'.bucket bid)
      → s'.local_depth ≡ st.source.local_depth
      → let m = bit_or st.invalid_mask (shl 1 cur) in
        Splits p ok hash_fn depth
          (masked bid st.invalid_mask st.source)
          st.dest
          (masked bid m s')
          d'
        → Sweep cur st
        → Sweep (suc cur) (record { source = s'; dest = d'; invalid_mask = m })
  Sweep-mark cur st s' d' same depths step sw =
      let bit = λ (j : ℕ). testbit-bit_or st.invalid_mask (shl 1 cur) j in
      record {
        same = SameEntries-trans sw.same same;
        depths = depths ∙ sw.depths;
        swept = λ j on. ground (arith, bit j, testbit-shl_one cur j, sw.swept j, on);
        gone = λ j lt on other.
            ground (arith, bit j, testbit-shl_one cur j, λ (h : j < cur). sw.gone j h on other, lt);
        splits = Splits-trans p ok hash_fn depth s0 d0 _ _ _ _ sw.splits step;
      }

  module _ (cur : ℕ) (st : SplitState K V) (lt : cur < p.slot_num)
      (on : is_busy b0.slotb cur ≡ true) (sw : Sweep cur st) where
    abbrev pub here : Bucket K V
    here = st.source.bucket bid

    pub here-valid : IsValid p.slot_num here.slotb
    here-valid = rw sw.same.slotb valid

    -- The slot is still taken once the mask's slots are cleared, by the same entry.
    pub still-busy : is_busy (((masked bid st.invalid_mask st.source).bucket bid).slotb) cur ≡ true
    unfolding clear_slots Base.clear_slots
    still-busy =
        let written = update_self st.source.bucket bid (clear_slots st.invalid_mask here) in
        let taken : is_busy here.slotb cur ≡ true = rw sw.same.slotb on in
        let less = ok.slots in
        ap (λ (c : Bucket K V). is_busy c.slotb cur) written
        ∙ ground (
          arith,
          clear_slots-busy p.slot_num here.slotb st.invalid_mask cur (omega (arith, less))
              here-valid,
          taken,
          sw.swept cur,
        )

    pub still-key : ((masked bid st.invalid_mask st.source).bucket bid).key cur ≡ here.key cur
    unfolding clear_slots
    still-key =
        ap (λ (c : Bucket K V). c.key cur)
          (update_self st.source.bucket bid (clear_slots st.invalid_mask here))

    pub still-value : ((masked bid st.invalid_mask st.source).bucket bid).value cur ≡ here.value cur
    unfolding clear_slots
    still-value =
        ap (λ (c : Bucket K V). c.value cur)
          (update_self st.source.bucket bid (clear_slots st.invalid_mask here))

    -- The callback's test is that of the entry as the bucket had it first.
    pub test-same :
        is_mine st.source.local_depth (hash_fn (here.key cur))
        ≡ is_mine depth (hash_fn (b0.key cur))
    test-same =
        ap (λ l. is_mine l (hash_fn (here.key cur))) sw.depths
        ∙ ap (λ (f : ℕ → K). is_mine depth (hash_fn (f cur))) sw.same.key

    pub test-now :
        is_mine depth (hash_fn (here.key cur))
        ≡ is_mine st.source.local_depth (hash_fn (here.key cur))
    test-now = ap (λ l. is_mine l (hash_fn (here.key cur))) (sym sw.depths)

    pub split_regular_slot-Sweep :
        (probe : Bool)
        → bid < p.bucket_num
        → Sweep (suc cur) (split_regular_slot p hash_fn bid cur probe st)
    unfolding split_regular_slot
    split_regular_slot-Sweep probe low =
        elim (Bool-cases (is_mine st.source.local_depth (hash_fn (here.key cur)))) [
          | inl mine ↦
              rw (mine, split_regular_slot) (Sweep-pass cur st (λ _. sym test-same ∙ mine) sw)
          | inr other ↦
              let sent =
                sent-Splits p ok hash_fn depth (masked bid st.invalid_mask st.source) st.dest
                  sw.splits.left sw.splits.right (record { index = bid; slot = cur }) (omega arith)
                  lt still-busy (here.key cur) (here.value cur) still-key still-value
                  (test-now ∙ other) in
              let cleared =
                masked-regular p ok bid st.invalid_mask cur st.source here-valid
                  (hash_fn (here.key cur)) low in
              rw (other, split_regular_slot)
                (Sweep-mark cur st st.source
                  (send p hash_fn (here.key cur) (here.value cur) st.dest) (SameEntries-refl here)
                  refl
                  (subst
                    (λ u.
                      Splits p ok hash_fn depth (masked bid st.invalid_mask st.source) st.dest u
                        (send p hash_fn (here.key cur) (here.value cur) st.dest))
                    (sym cleared) sent)
                  sw)
        ]
