-- ===== src/DashTable/Segment/Found.antt =====
-- What `FindIt` finds.
use storage_engine.Base.{
  ℕ, zero, suc, ◌+◌, ◌≤◌, ◌<◌, ◌≡◌, sym, ap, ◌∙◌, Bool, true, false, Option, none, some,
  Option-cases, Bool-cases, inl, inr, subst, arith,
}
use storage_engine.Base.Search.{first_from-some}
use storage_engine.DashTable.SlotBitmap.Bits.{is_busy, IsValid}
use storage_engine.DashTable.Bucket.{Bucket, find_by_fp}
use storage_engine.DashTable.Bucket.Base.{has_stash, has_stash_overflow}
use storage_engine.DashTable.Bucket.Stash.{iterate_stash}
use storage_engine.DashTable.Bucket.Find.{find_by_fp-first_match, first_match}
use storage_engine.DashTable.Bucket.References.{iterate_stash-Given}
use storage_engine.DashTable.Segment.Defs.{
  Policy, IsPolicy, Segment, Iterator, fingerprint, home_index, next_bid, total_buckets,
  stash_bucket_num,
}
use storage_engine.DashTable.Segment.Placement.{AllPlaced, home_index-lt, next_bid-lt}
use storage_engine.DashTable.Segment.Lookup.{
  in_stash, scan_stash, follow_stash, find_stashed, find_it,
}

module _ {ℓ} {K V : Type ℓ} (p : Policy) (pred : K → Bool) (fp : ℕ) where
  -- The entry at `it` is there, has this fingerprint, and its key is accepted.
  pub record IsFound (s : Segment K V) (it : Iterator) : Type 0 where
    pub index : it.index < total_buckets p
    pub slot : it.slot < p.slot_num
    pub busy : is_busy ((s.bucket it.index).slotb) it.slot ≡ true
    pub print : (s.bucket it.index).finger_arr it.slot ≡ fp
    pub accepted : pred ((s.bucket it.index).key it.slot) ≡ true

  in_bucket :
      (probe : Bool) (s : Segment K V) (i slot : ℕ)
      → p.slot_num ≤ 16
      → i < total_buckets p
      → IsValid p.slot_num ((s.bucket i).slotb)
      → find_by_fp p.slot_num fp probe pred (s.bucket i) ≡ some slot
      → IsFound s (record { index = i; slot = slot })
  unfolding first_match
  in_bucket probe s i slot small lt valid e =
      let first =
        first_from-some p.slot_num 0 _ slot
          (sym (find_by_fp-first_match p.slot_num fp probe pred (s.bucket i) small valid) ∙ e) in
      record {
        index = lt;
        slot = omega (arith, first.to);
        busy = ground (arith, first.holds);
        print = ground (arith, first.holds);
        accepted = ground (arith, first.holds);
      }

  module _ (ok : IsPolicy p) (hash_fn : K → ℕ) (s : Segment K V) (all : AllPlaced p hash_fn s) where
    stashed :
        (pos slot : ℕ)
        → pos < 4
        → in_stash p pred fp s pos ≡ some slot
        → IsFound s (record { index = p.bucket_num + pos; slot = slot })
    unfolding in_stash
    stashed pos slot lt e =
        let same : pos + p.bucket_num ≡ p.bucket_num + pos = omega arith in
        subst (λ i. IsFound s (record { index = i; slot = slot })) same
          (in_bucket false s (pos + p.bucket_num) slot ok.slots (omega (arith, lt))
            ((all (pos + p.bucket_num)).valid) e)

    -- A result, if there is any, is found.
    abbrev Sound : Option Iterator → Type 0
    Sound r = (it : Iterator) → r ≡ some it → IsFound s it

    some-Sound : (it : Iterator) → IsFound s it → Sound (some it)
    some-Sound it found it' e =
        subst (IsFound s) (ap (λ o. elim o [ some x ↦ x | none ↦ it ]) e) found

    none-Sound : Sound none
    none-Sound it e = absurd (cc e)

    scan_stash-Sound : (rounds i : ℕ) → i + rounds ≤ 4 → Sound (scan_stash p pred rounds i fp s)
    unfolding scan_stash
    scan_stash-Sound zero i le = none-Sound
    scan_stash-Sound (suc rounds) i le = elim (Option-cases (in_stash p pred fp s i)) [
      | inl e ↦ rw (e, scan_stash) (scan_stash-Sound rounds (suc i) (omega arith))
      | inr (slot, e) ↦ rw (e, scan_stash) (some-Sound _ (stashed i slot (omega arith) e))
    ]

    follow_stash-Sound : (target probe : Bucket K V) → Sound (follow_stash p pred fp target probe s)
    unfolding follow_stash
    follow_stash-Sound target probe =
        let func = λ (_ pos : ℕ). in_stash p pred fp s pos in
        elim (Option-cases (iterate_stash fp false func target.base)) [
          | inr (r, e) ↦
              let (i, given, lt) = iterate_stash-Given fp func target.base false r e in
              rw (e, follow_stash) (some-Sound _ (stashed (r.0) (r.1) lt given))
          | inl e ↦ elim (Option-cases (iterate_stash fp true func probe.base)) [
            | inr (r, e') ↦
                let (i, given, lt) = iterate_stash-Given fp func probe.base true r e' in
                rw (e, follow_stash, e') (some-Sound _ (stashed (r.0) (r.1) lt given))
            | inl e' ↦ rw (e, follow_stash, e') none-Sound
          ]
        ]

    find_stashed-Sound : (target probe : Bucket K V) → Sound (find_stashed p pred fp target probe s)
    unfolding find_stashed
    find_stashed-Sound target probe = elim (Bool-cases (has_stash target.base)) [
      | inr e ↦ rw (e, find_stashed) none-Sound
      | inl e ↦ elim (Bool-cases (has_stash_overflow target.base)) [
        | inl e' ↦ rw (e, find_stashed, e') (scan_stash-Sound stash_bucket_num 0 (omega arith))
        | inr e' ↦ rw (e, find_stashed, e') (follow_stash-Sound target probe)
      ]
    ]

-- What `FindIt` finds, in the home bucket, its neighbour or the stash of a segment whose buckets are
-- all in order, is a busy slot with the fingerprint of the hash and an accepted key.
pub find_it-IsFound {ℓ} :
    {K V : Type ℓ} (p : Policy) (pred : K → Bool)
    → IsPolicy p
    → (hash_fn : K → ℕ) (s : Segment K V) → AllPlaced p hash_fn s
    → (hash : ℕ) (it : Iterator) → find_it p pred hash s ≡ some it
    → IsFound p pred (fingerprint hash) s it
unfolding find_it
find_it-IsFound p pred ok hash_fn s all hash =
    let fp = fingerprint hash in
    let bid = home_index p hash in
    let nid = next_bid p bid in
    let ground_floor = home_index-lt p ok hash in
    let next_floor = next_bid-lt p ok bid in
    elim (Option-cases (find_by_fp p.slot_num fp false pred (s.bucket bid))) [
      | inr (slot, e) ↦
          rw (e, find_it)
            (some-Sound p pred fp ok hash_fn s all _
              (in_bucket p pred fp false s bid slot ok.slots (omega arith) ((all bid).valid) e))
      | inl e ↦ elim (Option-cases (find_by_fp p.slot_num fp true pred (s.bucket nid))) [
        | inr (slot, e') ↦
            rw (e, find_it, e')
              (some-Sound p pred fp ok hash_fn s all _
                (in_bucket p pred fp true s nid slot ok.slots (omega arith) ((all nid).valid) e'))
        | inl e' ↦
            rw (e, find_it, e')
              (find_stashed-Sound p pred fp ok hash_fn s all (s.bucket bid) (s.bucket nid))
      ]
    ]
