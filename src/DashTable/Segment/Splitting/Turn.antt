-- ===== src/DashTable/Segment/Splitting/Turn.antt =====
-- A slot's turn in the stash, and a bucket's turn as a whole.
use storage_engine.Base.{
  ℕ, suc, ◌+◌, ◌<◌, ◌≡◌, refl, sym, ap, ◌∙◌, subst, Bool, true, false, inl, inr, Bool-cases,
  sum_below-eq-zero, update_self, arith,
}
use storage_engine.Base.Words.{testbit, testbit-zero}
use storage_engine.DashTable.SlotBitmap.Bits.{is_busy, IsValid, clear_slots-busy}
use storage_engine.DashTable.Bucket.{Bucket, clear_slots, for_each_slot}
use storage_engine.DashTable.Bucket.Base
use storage_engine.DashTable.Bucket.Each.{for_each_slot-keeps}
use storage_engine.DashTable.Bucket.Insert.{count, entry}
use storage_engine.DashTable.Segment.Defs.{Policy, IsPolicy, Segment, set_bucket, stash_bucket_num}
use storage_engine.DashTable.Segment.Pointers.{SameEntries-refl}
use storage_engine.DashTable.Segment.Removal.{remove_stash_reference}
use storage_engine.DashTable.Segment.Deletion.{remove_stash_reference-SameEntries}
use storage_engine.DashTable.Segment.Splitting.{
  SplitState, is_mine, send, split_regular_slot, split_stash_slot, split_bucket,
}
use storage_engine.DashTable.Segment.Splitting.Masked.{masked, masked-none, masked-stash}
use storage_engine.DashTable.Segment.Splitting.Shares.{goes, IsSound, Splits, Splits-refl}
use storage_engine.DashTable.Segment.Splitting.Steps.{sent-Splits}
use storage_engine.DashTable.Segment.Splitting.Moves.{try_move_from_stash-cases}
use storage_engine.DashTable.Segment.Splitting.Sweep.{
  Sweep, Sweep-pass, Sweep-mark, here-valid, still-busy, still-key, still-value, test-same,
  test-now, split_regular_slot-Sweep,
}

module _ {ℓ} {K V : Type ℓ} (p : Policy) (ok : IsPolicy p) (hash_fn : K → ℕ) (depth : ℕ)
    (s0 d0 : Segment K V) where
  module _ (pos : ℕ) (low : pos < stash_bucket_num) (b0 : Bucket K V)
      (valid : IsValid p.slot_num b0.slotb) (cur : ℕ) (st : SplitState K V) (lt : cur < p.slot_num)
      (on : is_busy b0.slotb cur ≡ true)
      (sw : Sweep p ok hash_fn depth s0 d0 (p.bucket_num + pos) b0 valid cur st) where
    abbrev bid : ℕ
    bid = p.bucket_num + pos

    abbrev here : Bucket K V
    here = st.source.bucket bid

    abbrev hash : ℕ
    hash = hash_fn (here.key cur)

    -- Where the entry stays, the state after a move, or the same state.
    stays-Sweep :
        is_mine st.source.local_depth hash ≡ true
        → Sweep p ok hash_fn depth s0 d0 bid b0 valid
            (suc cur)
            (split_stash_slot p hash_fn pos cur true st)
    unfolding split_stash_slot
    stays-Sweep mine =
        let now = test-now p ok hash_fn depth s0 d0 bid b0 valid cur st lt on sw ∙ mine in
        elim (try_move_from_stash-cases p ok hash_fn depth pos st.invalid_mask cur st.source st.dest
          sw.splits.left sw.splits.right low lt
          (here-valid p ok hash_fn depth s0 d0 bid b0 valid cur st lt on sw)
          (still-busy p ok hash_fn depth s0 d0 bid b0 valid cur st lt on sw) now) [
            | inl e ↦
                rw (mine, e, split_stash_slot)
                  (Sweep-pass p ok hash_fn depth s0 d0 bid b0 valid cur st
                    (λ _.
                      sym (test-same p ok hash_fn depth s0 d0 bid b0 valid cur st lt on sw) ∙ mine)
                    sw)
            | inr (it, s', e, moves) ↦
                rw (mine, e, split_stash_slot)
                  (Sweep-mark p ok hash_fn depth s0 d0 bid b0 valid cur st s' st.dest moves.same
                    moves.depths moves.splits sw)
          ]

    -- Where it goes.
    goes-Sweep :
        is_mine st.source.local_depth hash ≡ false
        → Sweep p ok hash_fn depth s0 d0 bid b0 valid
            (suc cur)
            (split_stash_slot p hash_fn pos cur true st)
    unfolding split_stash_slot remove_stash_reference
    goes-Sweep other =
        let now = test-now p ok hash_fn depth s0 d0 bid b0 valid cur st lt on sw ∙ other in
        let there = here-valid p ok hash_fn depth s0 d0 bid b0 valid cur st lt on sw in
        let w = masked bid st.invalid_mask st.source in
        let d' = send p hash_fn (here.key cur) (here.value cur) st.dest in
        let sent =
          sent-Splits p ok hash_fn depth w st.dest sw.splits.left sw.splits.right
            (record { index = bid; slot = cur }) (omega (arith, low)) lt
            (still-busy p ok hash_fn depth s0 d0 bid b0 valid cur st lt on sw) (here.key cur)
            (here.value cur) (still-key p ok hash_fn depth s0 d0 bid b0 valid cur st lt on sw)
            (still-value p ok hash_fn depth s0 d0 bid b0 valid cur st lt on sw) now in
        let cleared = masked-stash p ok pos st.invalid_mask cur hash st.source there in
        rw (other, split_stash_slot)
          (Sweep-mark p ok hash_fn depth s0 d0 bid b0 valid cur st
            (remove_stash_reference p pos hash st.source) d'
            (remove_stash_reference-SameEntries p ok hash_fn pos hash st.source bid) refl
            (subst (λ u. Splits p ok hash_fn depth w st.dest u d') (sym cleared) sent) sw)

    split_stash_slot-Sweep :
        (probe : Bool)
        → Sweep p ok hash_fn depth s0 d0 bid b0 valid
            (suc cur)
            (split_stash_slot p hash_fn pos cur probe st)
    unfolding split_stash_slot
    split_stash_slot-Sweep probe = elim (Bool-cases (is_mine st.source.local_depth hash)) [
      | inl mine ↦ stays-Sweep mine
      | inr other ↦ goes-Sweep other
    ]

  -- After one bucket's turn: the segments share out what they had, and nothing in the bucket goes.
  pub record Turned (bid : ℕ) (r : Segment K V × Segment K V) : Type ℓ where
    pub depths : (r.0).local_depth ≡ depth
    pub splits : Splits p ok hash_fn depth s0 d0 (r.0) (r.1)
    pub empty : count p.slot_num (goes p ok hash_fn depth) ((r.0).bucket bid) ≡ 0

  module _ (left : IsSound p ok hash_fn depth s0) (right : IsSound p ok hash_fn depth d0)
      (deep : s0.local_depth ≡ depth) (bid : ℕ) where
    abbrev b0 : Bucket K V
    b0 = s0.bucket bid

    abbrev valid : IsValid p.slot_num b0.slotb
    valid = (left.placed bid).valid

    abbrev start : SplitState K V
    start = record { source = s0; dest = d0; invalid_mask = 0 }

    start-Sweep : Sweep p ok hash_fn depth s0 d0 bid b0 valid 0 start
    start-Sweep = record {
      same = SameEntries-refl b0;
      depths = deep;
      swept = λ j on. absurd (ground (arith, testbit-zero j, on));
      gone = λ j lt _ _. absurd (omega (arith, lt));
      splits =
          subst (λ u. Splits p ok hash_fn depth s0 d0 u d0)
            (sym (masked-none p.slot_num bid s0 ok.slots valid))
            (Splits-refl p ok hash_fn depth s0 d0 left right);
    }

    -- The slots of the mask are cleared.
    end-Turned :
        (st : SplitState K V)
        → Sweep p ok hash_fn depth s0 d0 bid b0 valid p.slot_num st
        → Turned bid
            (set_bucket st.source bid (clear_slots st.invalid_mask (st.source.bucket bid)), st.dest)
    unfolding count clear_slots Base.clear_slots
    end-Turned st sw =
        let b = st.source.bucket bid in
        let there : IsValid p.slot_num b.slotb = rw sw.same.slotb valid in
        let small = ok.slots in
        let cleared = clear_slots st.invalid_mask b in
        let nothing : count p.slot_num (goes p ok hash_fn depth) cleared ≡ 0 =
          sum_below-eq-zero p.slot_num (entry (goes p ok hash_fn depth) cleared) (λ j lt. ground (
            arith,
            clear_slots-busy p.slot_num b.slotb st.invalid_mask j (omega (arith, small)) there,
            ap (λ f. testbit f j) (ap (λ u. u.busy) sw.same.slotb),
            ap (λ (f : ℕ → K). is_mine depth (hash_fn (f j))) sw.same.key,
            sw.gone j lt,
          )) in
        record {
          depths = sw.depths;
          splits = sw.splits;
          empty =
              ap (count p.slot_num (goes p ok hash_fn depth))
                (update_self st.source.bucket bid cleared)
              ∙ nothing;
        }

    bucket-Turned :
        (cb : ℕ → Bool → SplitState K V → SplitState K V)
        → ((cur : ℕ) (probe : Bool) (st : SplitState K V)
            → cur < p.slot_num
            → is_busy b0.slotb cur ≡ true
            → Sweep p ok hash_fn depth s0 d0 bid b0 valid cur st
            → Sweep p ok hash_fn depth s0 d0 bid b0 valid (suc cur) (cb cur probe st))
        → Turned bid (split_bucket p hash_fn bid cb (s0, d0))
    unfolding split_bucket
    bucket-Turned cb step = end-Turned (for_each_slot p.slot_num cb b0 start) (
        for_each_slot-keeps (Sweep p ok hash_fn depth s0 d0 bid b0 valid) p.slot_num b0 cb step
          (λ cur st lt off.
            Sweep-pass p ok hash_fn depth s0 d0 bid b0 valid cur st (λ h. absurd (cc)))
          start start-Sweep)

    pub regular-Turned :
        bid < p.bucket_num
        → Turned bid (split_bucket p hash_fn bid (split_regular_slot p hash_fn bid) (s0, d0))
    regular-Turned low = bucket-Turned (split_regular_slot p hash_fn bid) (λ cur probe st lt on sw.
        split_regular_slot-Sweep p ok hash_fn depth s0 d0 bid b0 valid cur st lt on sw probe low)

  pub stash-Turned :
      IsSound p ok hash_fn depth s0
      → IsSound p ok hash_fn depth d0
      → s0.local_depth ≡ depth
      → (pos : ℕ) → pos < stash_bucket_num
      → Turned
          (p.bucket_num + pos)
          (split_bucket p hash_fn (p.bucket_num + pos) (split_stash_slot p hash_fn pos) (s0, d0))
  stash-Turned left right deep pos low =
      bucket-Turned left right deep (p.bucket_num + pos) (split_stash_slot p hash_fn pos)
        (λ cur probe st lt on sw. split_stash_slot-Sweep pos low _ _ cur st lt on sw probe)
