-- ===== src/DashTable/Segment/Splitting/Moves.antt =====
-- `TryMoveFromStash` in a split, on a segment whose stash bucket is still to lose the slots of a mask.
use storage_engine.Base.{
  ℕ, ◌+◌, ◌<◌, ◌≡◌, ◌≢◌, ◌⊎◌, refl, sym, ap, ◌∙◌, subst, Bool, true, false, bit_or, none, some, inl,
  inr, update_self, update_ne, arith,
}
use storage_engine.Base.Words.{shl}
use storage_engine.DashTable.SlotBitmap.Bits.{is_busy, IsValid}
use storage_engine.DashTable.Bucket.{Bucket, clear_slots}
use storage_engine.DashTable.Bucket.Insert.{Inserts, try_insert-cases}
use storage_engine.DashTable.Segment.Defs.{
  Policy, IsPolicy, Segment, Iterator, fingerprint, home_index, next_bid, set_bucket,
  stash_bucket_num,
}
use storage_engine.DashTable.Segment.Placement.{MayStand, SameEntries, home_index-lt, next_bid-lt}
use storage_engine.DashTable.Segment.Pointers.{SameEntries-refl}
use storage_engine.DashTable.Segment.Insertion.{insert_at}
use storage_engine.DashTable.Segment.Insertion.Stages.{may_home, may_next}
use storage_engine.DashTable.Segment.Removal.{
  remove_stash_reference, try_move_from_stash, delete_at,
}
use storage_engine.DashTable.Segment.Splitting.{is_mine}
use storage_engine.DashTable.Segment.Splitting.Masked.{
  masked, masked-stash, remove_stash_reference-stash, set_bucket_comm,
}
use storage_engine.DashTable.Segment.Splitting.Shares.{IsSound, Splits}
use storage_engine.DashTable.Segment.Splitting.Steps.{moved-Splits}

module _ {ℓ} {K V : Type ℓ} (p : Policy) (ok : IsPolicy p) (hash_fn : K → ℕ) (depth : ℕ)
    (pos m slot : ℕ) (s d : Segment K V) where
  abbrev pub stash_id : ℕ
  stash_id = p.bucket_num + pos

  -- What a move out of the slot leaves, once the slot is in the mask as well.
  pub record Moves (s' : Segment K V) : Type ℓ where
    pub same : SameEntries (s.bucket stash_id) (s'.bucket stash_id)
    pub depths : s'.local_depth ≡ s.local_depth
    pub splits :
        Splits p ok hash_fn depth
          (masked stash_id m s)
          d
          (masked stash_id (bit_or m (shl 1 slot)) s')
          d

  module _ (k : K) (v : V) (left : IsSound p ok hash_fn depth (masked stash_id m s))
      (right : IsSound p ok hash_fn depth d) (low : pos < stash_bucket_num)
      (in_range : slot < p.slot_num) (valid : IsValid p.slot_num ((s.bucket stash_id).slotb))
      (busy : is_busy (((masked stash_id m s).bucket stash_id).slotb) slot ≡ true)
      (key : ((masked stash_id m s).bucket stash_id).key slot ≡ k)
      (value : ((masked stash_id m s).bucket stash_id).value slot ≡ v)
      (mine : is_mine depth (hash_fn k) ≡ true) where
    moved-masked :
        (i : ℕ) (probe : Bool) (free : ℕ) (b : Bucket K V)
        → i < p.bucket_num
        → MayStand p (hash_fn k) i probe
        → Inserts p.slot_num k v
            (fingerprint (hash_fn k))
            probe
            ((masked stash_id m s).bucket i)
            free
            b
        → Splits p ok hash_fn depth
            (masked stash_id m s)
            d
            (delete_at p
              (record { index = stash_id; slot = slot })
              (hash_fn k)
              (set_bucket (masked stash_id m s) i b))
            d
    moved-masked i probe free b lt =
        let w = masked stash_id m s in
        let at = λ (k1 : K) (v1 : V).
          MayStand p (hash_fn k1) i probe
          → Inserts p.slot_num k1 v1 (fingerprint (hash_fn k1)) probe (w.bucket i) free b
          → is_mine depth (hash_fn k1) ≡ true
          → Splits p ok hash_fn depth w d
              (delete_at p (record { index = stash_id; slot = slot }) (hash_fn k1)
                (set_bucket w i b))
              d in
        let own : at ((w.bucket stash_id).key slot) ((w.bucket stash_id).value slot) =
          moved-Splits p ok hash_fn depth w d left right (record { index = stash_id; slot = slot })
            (omega (arith, low)) in_range busy i probe free b lt (omega arith) in
        let found : at k v =
          subst (λ v1. at k v1) value
            (subst (λ k1. at k1 ((w.bucket stash_id).value slot)) key own) in
        λ may ins. found may ins mine

    -- A bucket that takes the entry, and the removal of the reference.
    taken-Moves :
        (i : ℕ) (probe : Bool) (free : ℕ) (b : Bucket K V)
        → i < p.bucket_num
        → MayStand p (hash_fn k) i probe
        → Inserts p.slot_num k v (fingerprint (hash_fn k)) probe (s.bucket i) free b
        → Moves (remove_stash_reference p pos (hash_fn k) (set_bucket s i b))
    unfolding remove_stash_reference
    taken-Moves i probe free b lt may ins =
        let w = masked stash_id m s in
        let s1 = set_bucket s i b in
        let s2 = remove_stash_reference p pos (hash_fn k) s1 in
        let ne : stash_id ≢ i = λ h. omega (arith, lt, h) in
        let ne' : i ≢ stash_id = λ h. ne (sym h) in
        let here : s1.bucket stash_id ≡ s.bucket stash_id = update_ne s.bucket i stash_id b ne in
        let kept : s2.bucket stash_id ≡ s.bucket stash_id =
          remove_stash_reference-stash p ok pos (hash_fn k) s1 stash_id (omega arith) ∙ here in
        let cleared = clear_slots m (s.bucket stash_id) in
        let swapped : masked stash_id m s1 ≡ set_bucket w i b =
          ap (λ c. set_bucket s1 stash_id (clear_slots m c)) here
          ∙ set_bucket_comm s i stash_id b cleared ne' in
        let done =
          masked-stash p ok pos m slot (hash_fn k) s1 (rw here valid)
          ∙ ap (delete_at p (record { index = stash_id; slot = slot }) (hash_fn k)) swapped in
        let there : s.bucket i ≡ w.bucket i = sym (update_ne s.bucket stash_id i cleared ne') in
        let ins' =
          subst (λ c. Inserts p.slot_num k v (fingerprint (hash_fn k)) probe c free b) there ins in
        record {
          same =
              subst (λ c. SameEntries (s.bucket stash_id) c) (sym kept)
                (SameEntries-refl (s.bucket stash_id));
          depths = refl;
          splits =
              subst (λ u. Splits p ok hash_fn depth w d u d) (sym done)
                (moved-masked i probe free b lt may ins');
        }

    -- `TryInsertToBucket` of the entry, on the way out of the stash.
    bucket-cases :
        (i : ℕ) (probe : Bool)
        → i < p.bucket_num
        → MayStand p (hash_fn k) i probe
        → (insert_at p i k v (fingerprint (hash_fn k)) probe s ≡ none)
          ⊎ ((it : Iterator) × (s1 : Segment K V) × (insert_at p i k v
                  (fingerprint (hash_fn k))
                  probe
                  s
                ≡ some (it, s1))
              × Moves (remove_stash_reference p pos (hash_fn k) s1))
    unfolding insert_at
    bucket-cases i probe lt may =
        let w = masked stash_id m s in
        let there : w.bucket i ≡ s.bucket i =
          update_ne s.bucket stash_id i (clear_slots m (s.bucket stash_id))
            (λ h. omega (arith, lt, h)) in
        let valid_i =
          subst (λ (c : Bucket K V). IsValid p.slot_num c.slotb) there ((left.placed i).valid) in
        elim (try_insert-cases p.slot_num k v (fingerprint (hash_fn k)) probe (s.bucket i) ok.slots
          valid_i) [
            | inl (e, full) ↦ inl (rw (e, insert_at))
            | inr (free, b, e, ins) ↦ inr (
              record { index = i; slot = free },
              set_bucket s i b,
              rw (e, insert_at),
              taken-Moves i probe free b lt may ins,
            )
          ]

  module _ (left : IsSound p ok hash_fn depth (masked stash_id m s))
      (right : IsSound p ok hash_fn depth d) (low : pos < stash_bucket_num)
      (in_range : slot < p.slot_num) (valid : IsValid p.slot_num ((s.bucket stash_id).slotb))
      (busy : is_busy (((masked stash_id m s).bucket stash_id).slotb) slot ≡ true)
      (mine : is_mine depth (hash_fn ((s.bucket stash_id).key slot)) ≡ true) where
    -- `TryMoveFromStash` of an entry that stays: it finds no room, or the segment has the entry in a
    -- regular bucket, and the stash reference is gone.
    pub try_move_from_stash-cases :
        let hash = hash_fn ((s.bucket stash_id).key slot) in
        (try_move_from_stash p pos slot hash s ≡ none)
        ⊎ ((it : Iterator) × (s' : Segment K V) × (try_move_from_stash p pos slot hash s
              ≡ some (it, s'))
            × Moves s')
    unfolding try_move_from_stash clear_slots
    try_move_from_stash-cases =
        let k = (s.bucket stash_id).key slot in
        let v = (s.bucket stash_id).value slot in
        let y = home_index p (hash_fn k) in
        let e = update_self s.bucket stash_id (clear_slots m (s.bucket stash_id)) in
        let key : ((masked stash_id m s).bucket stash_id).key slot ≡ k =
          ap (λ (c : Bucket K V). c.key slot) e in
        let value : ((masked stash_id m s).bucket stash_id).value slot ≡ v =
          ap (λ (c : Bucket K V). c.value slot) e in
        elim (bucket-cases k v left right low in_range valid busy key value mine y false
          (home_index-lt p ok (hash_fn k)) (may_home p ok hash_fn k v)) [
            | inr (it, s1, here, moves) ↦ inr (it, _, rw (here, try_move_from_stash), moves)
            | inl full ↦
                elim (bucket-cases k v left right low in_range valid busy key value mine
                  (next_bid p y) true (next_bid-lt p ok y) (may_next p ok hash_fn k v)) [
                    | inr (it, s1, here, moves) ↦
                        inr (it, _, rw (full, here, try_move_from_stash), moves)
                    | inl full' ↦ inl (rw (full, full', try_move_from_stash))
                  ]
          ]
