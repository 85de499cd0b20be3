-- ===== src/DashTable/Segment/Insertion/Depths.antt =====
-- An insertion leaves the segment's depth alone.
use storage_engine.Base.{
  ℕ, zero, suc, ◌+◌, ◌%◌, ◌≡◌, refl, Bool, true, false, not, ltb, ◌==◌, ◌&&◌, if◌then◌else◌, Option,
  none, some, Option-cases, Bool-cases, inl, inr,
}
use storage_engine.Base.Words.{ctz}
use storage_engine.DashTable.Bucket.{try_insert}
use storage_engine.DashTable.Bucket.Base.{size, get_probe}
use storage_engine.DashTable.Segment.Defs.{
  Policy, Segment, fingerprint, home_index, next_bid, prev_bid, stash_bucket_num,
}
use storage_engine.DashTable.Segment.Insertion.{
  move_to_other, displace, refer, insert_stash, insert_at, insert_crowded, insert_uniq,
}

module _ {ℓ κ} {K V : Type ℓ} {A : Type κ} where
  -- What an operation returns, if it returns, has this depth.
  abbrev pub IsDeep : ℕ → Option (A × Segment K V) → Type 0
  IsDeep d none = d ≡ d
  IsDeep d (some (_, s)) = s.local_depth ≡ d

module _ {ℓ} {K V : Type ℓ} (p : Policy) (s : Segment K V) where
  move_to_other-IsDeep :
      (own : Bool) (from to : ℕ) → IsDeep s.local_depth (move_to_other p own from to s)
  unfolding move_to_other
  move_to_other-IsDeep own from to =
      let src = s.bucket from in
      let mask = get_probe p.slot_num (not own) src.base in
      let j : ℕ = ctz 32 mask in
      elim (Bool-cases (mask == 0)) [
        | inl e ↦ rw (e, move_to_other) refl
        | inr e ↦
            elim (Option-cases (
              try_insert p.slot_num (src.key j) (src.value j) (src.finger_arr j) own
                (s.bucket to))) [
                  | inl e' ↦ rw (e, e', move_to_other) refl
                  | inr (_, e') ↦ rw (e, e', move_to_other) refl
                ]
      ]

  module _ (k : K) (v : V) (fp : ℕ) where
    displace-IsDeep :
        (own : Bool) (from to : ℕ) (probe : Bool)
        → IsDeep s.local_depth (displace p own from to k v fp probe s)
    unfolding displace
    displace-IsDeep own from to probe =
        let moved = move_to_other-IsDeep own from to in
        elim (Option-cases (move_to_other p own from to s)) [
          | inl e ↦ rw (e, displace) refl
          | inr (r, e) ↦ rw (e, displace) (rw e at moved)
        ]

    insert_at-IsDeep : (i : ℕ) (probe : Bool) → IsDeep s.local_depth (insert_at p i k v fp probe s)
    unfolding insert_at
    insert_at-IsDeep i probe =
        elim (Option-cases (try_insert p.slot_num k v fp probe (s.bucket i))) [
          | inl e ↦ rw (e, insert_at) refl
          | inr (_, e) ↦ rw (e, insert_at) refl
        ]

    insert_stash-IsDeep :
        (rounds i bid : ℕ) → IsDeep s.local_depth (insert_stash p rounds i bid k v fp s)
    unfolding insert_stash refer
    insert_stash-IsDeep zero i bid = refl
    insert_stash-IsDeep (suc rounds) i bid =
        let rest = insert_stash-IsDeep rounds (suc i) bid in
        elim (Option-cases (
          try_insert p.slot_num k v fp false
            (s.bucket (p.bucket_num + (bid + i) % stash_bucket_num)))) [
              | inl e ↦ rw (e, insert_stash) rest
              | inr (_, e) ↦ rw (e, insert_stash) refl
            ]

    insert_crowded-IsDeep : (bid : ℕ) → IsDeep s.local_depth (insert_crowded p bid k v fp s)
    unfolding insert_crowded
    insert_crowded-IsDeep bid =
        let nid = next_bid p bid in
        let fwd = displace-IsDeep true nid (next_bid p nid) true in
        let back = displace-IsDeep false bid (prev_bid p bid) false in
        elim (Option-cases (displace p true nid (next_bid p nid) k v fp true s)) [
          | inr (r, e) ↦ rw (e, insert_crowded) (rw e at fwd)
          | inl e ↦ elim (Option-cases (displace p false bid (prev_bid p bid) k v fp false s)) [
            | inr (r, e') ↦ rw (e, e', insert_crowded) (rw e' at back)
            | inl e' ↦ rw (e, e', insert_crowded) (insert_stash-IsDeep stash_bucket_num 0 bid)
          ]
        ]

  pub insert_uniq-IsDeep :
      (k : K) (v : V) (hash : ℕ) (spread : Bool)
      → IsDeep s.local_depth (insert_uniq p k v hash spread s)
  unfolding insert_uniq
  insert_uniq-IsDeep k v hash spread =
      let bid = home_index p hash in
      let nid = next_bid p bid in
      let fp = fingerprint hash in
      let probe : Bool = spread && ltb (size ((s.bucket nid).base)) (size ((s.bucket bid).base)) in
      let first = insert_at-IsDeep k v fp (if probe then nid else bid) probe in
      let second = insert_at-IsDeep k v fp nid true in
      let crowded = insert_crowded-IsDeep k v fp bid in
      elim (Option-cases (insert_at p (if probe then nid else bid) k v fp probe s)) [
        | inr (r, e) ↦ rw (e, insert_uniq) (rw e at first)
        | inl e ↦ elim (Bool-cases spread) [
          | inl on ↦ rw (e, insert_uniq, on) crowded
          | inr off ↦ elim (Option-cases (insert_at p nid k v fp true s)) [
            | inr (r, e') ↦ rw (e, insert_uniq, off, e') (rw e' at second)
            | inl e' ↦ rw (e, insert_uniq, off, e') crowded
          ]
        ]
      ]
