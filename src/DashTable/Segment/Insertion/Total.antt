-- ===== src/DashTable/Segment/Insertion/Total.antt =====
-- `InsertUniq` as a whole: it keeps every bucket in order, adds the entry and loses none, and it
-- fails only when the home bucket, its neighbour and the four stash buckets are full.
use storage_engine.Base.{
  ℕ, ◌+◌, ◌%◌, ◌<◌, ◌≡◌, ◌≢◌, ◌⊎◌, ◌-◌, refl, sym, ap, subst, ◌∙◌, Bool, true, false, ltb, none,
  Bool-cases, inl, inr, arith,
}
use storage_engine.DashTable.SlotBitmap.Size.{size-le, size-eq_of_busy, busy_of_size-eq}
use storage_engine.DashTable.Bucket.Base.{size}
use storage_engine.DashTable.Segment.Defs.{
  Policy, IsPolicy, Segment, fingerprint, home_index, next_bid, prev_bid, stash_bucket_num,
}
use storage_engine.DashTable.Segment.Placement.{
  AllPlaced, next_bid-lt, prev_bid-lt, next_bid-ne, next_bid-prev_bid, home_index-lt,
}
use storage_engine.DashTable.Segment.Insertion.{insert_crowded, insert_uniq}
use storage_engine.DashTable.Segment.Insertion.Steps.{IsCrowded, insert_at-cases}
use storage_engine.DashTable.Segment.Insertion.Stages.{
  Inserted, may_home, may_next, displace-cases, insert_stash-cases,
}

-- The buckets that an insertion of this hash may use are all full.
pub record IsExhausted {ℓ} {K V : Type ℓ} (p : Policy) (hash : ℕ) (s : Segment K V) : Type 0 where
  pub at_home : IsCrowded p s (home_index p hash)
  pub at_next : IsCrowded p s (next_bid p (home_index p hash))
  pub at_stash : (i : ℕ) → i < stash_bucket_num → IsCrowded p s (p.bucket_num + i)

module _ {ℓ} {K V : Type ℓ} (p : Policy) (ok : IsPolicy p) (hash_fn : K → ℕ) (k : K) (v : V) where
  abbrev fp : ℕ
  fp = fingerprint (hash_fn k)

  abbrev home : ℕ
  home = home_index p (hash_fn k)

  module _ (s : Segment K V) (all : AllPlaced p hash_fn s) where
    home-lt : home < p.bucket_num
    home-lt = home_index-lt p ok (hash_fn k)

    next-lt : next_bid p home < p.bucket_num
    next-lt = next_bid-lt p ok home

    prev-ne : home ≢ prev_bid p home
    prev-ne e =
        next_bid-ne p ok home home-lt (ap (next_bid p) e ∙ next_bid-prev_bid p ok home home-lt)

    insert_crowded-cases :
        IsCrowded p s home
        → IsCrowded p s (next_bid p home)
        → ((insert_crowded p home k v fp s ≡ none) × IsExhausted p (hash_fn k) s)
          ⊎ Inserted p ok hash_fn k v s (insert_crowded p home k v fp s)
    unfolding insert_crowded
    insert_crowded-cases full_home full_next =
        let nid = next_bid p home in
        elim (displace-cases p ok hash_fn k v s true nid (next_bid p nid) all next-lt
          (next_bid-lt p ok nid) (λ e. next_bid-ne p ok nid next-lt (sym e))
          (λ _. (refl, full_next)) (λ h. absurd (cc)) true (may_next p ok hash_fn k v)) [
            | inr (it, s', e, adds, keeps) ↦ inr (it, s', rw (e, insert_crowded), adds, keeps)
            | inl e ↦
                elim (displace-cases p ok hash_fn k v s false home (prev_bid p home) all home-lt
                  (prev_bid-lt p ok home home-lt) prev-ne (λ h. absurd (cc))
                  (λ _. next_bid-prev_bid p ok home home-lt) false (may_home p ok hash_fn k v)) [
                    | inr (it, s', e', adds, keeps) ↦
                        inr (it, s', rw (e, insert_crowded, e'), adds, keeps)
                    | inl e' ↦ elim (insert_stash-cases p ok hash_fn k v stash_bucket_num 0 s all) [
                      | inr (it, s', e'', adds, keeps) ↦
                          inr (it, s', rw (e, insert_crowded, e', e''), adds, keeps)
                      | inl (e'', fulls) ↦ inl (
                        rw (e, insert_crowded, e', e''),
                        record {
                          at_home = full_home;
                          at_next = full_next;
                          at_stash = λ i lt.
                              let j : ℕ = (i + 4 - home % 4) % 4 in
                              let e3 : (home + j) % stash_bucket_num ≡ i = omega arith in
                              subst (λ t. IsCrowded p s (p.bucket_num + t)) e3
                                (fulls j (omega arith) (omega arith));
                        },
                      )
                    ]
                  ]
          ]

    -- Where the neighbour is tried first, it has room.
    next_has_room :
        ltb (size ((s.bucket (next_bid p home)).base)) (size ((s.bucket home).base)) ≡ true
        → IsCrowded p s (next_bid p home)
        → ⊥
    unfolding size
    next_has_room less full =
        let nid = next_bid p home in
        ground (
          arith,
          size-eq_of_busy p.slot_num ((s.bucket nid).slotb) (omega (arith, ok.slots))
              ((all nid).valid) full,
          size-le p.slot_num ((s.bucket home).slotb) ((all home).valid),
        )

    -- Where it is not, and the home bucket is full, the neighbour is full too.
    next_is_crowded :
        ltb (size ((s.bucket (next_bid p home)).base)) (size ((s.bucket home).base)) ≡ false
        → IsCrowded p s home
        → IsCrowded p s (next_bid p home)
    unfolding size
    next_is_crowded more full =
        let nid = next_bid p home in
        busy_of_size-eq p.slot_num ((s.bucket nid).slotb) ((all nid).valid) (
          ground (
            arith,
            size-eq_of_busy p.slot_num ((s.bucket home).slotb) (omega (arith, ok.slots))
                ((all home).valid) full,
            size-le p.slot_num ((s.bucket nid).slotb) ((all nid).valid),
          ))

    -- `InsertUniq`, with and without `spread`, on a segment whose buckets are all in order: either
    -- the entry then stands at the iterator returned, every bucket is in order again, and the
    -- entries of the segment are those that it had and this one, and if the stash references were in
    -- balance, they are again; or the method finds no room, and then the home bucket, its neighbour
    -- and the stash buckets are all full.
    pub insert_uniq-Adds :
        (spread : Bool)
        → ((insert_uniq p k v (hash_fn k) spread s ≡ none) × IsExhausted p (hash_fn k) s)
          ⊎ Inserted p ok hash_fn k v s (insert_uniq p k v (hash_fn k) spread s)
    unfolding insert_uniq
    insert_uniq-Adds true =
        let nid = next_bid p home in
        elim (Bool-cases (ltb (size ((s.bucket nid).base)) (size ((s.bucket home).base)))) [
          | inl less ↦
              elim (insert_at-cases p ok hash_fn k v s nid true all (omega (arith, next-lt))
                (may_next p ok hash_fn k v)) [
                  | inl (e, full) ↦ absurd (next_has_room less full)
                  | inr (it, s', e, adds, keeps) ↦
                      inr (it, s', rw (less, insert_uniq, e), adds, keeps)
                ]
          | inr more ↦
              elim (insert_at-cases p ok hash_fn k v s home false all (omega (arith, home-lt))
                (may_home p ok hash_fn k v)) [
                  | inl (e, full) ↦
                      rw (more, insert_uniq, e)
                        (insert_crowded-cases full (next_is_crowded more full))
                  | inr (it, s', e, adds, keeps) ↦
                      inr (it, s', rw (more, insert_uniq, e), adds, keeps)
                ]
        ]
    insert_uniq-Adds false =
        let nid = next_bid p home in
        elim (insert_at-cases p ok hash_fn k v s home false all (omega (arith, home-lt))
          (may_home p ok hash_fn k v)) [
            | inr (it, s', e, adds, keeps) ↦ inr (it, s', rw (e, insert_uniq), adds, keeps)
            | inl (e, full) ↦
                elim (insert_at-cases p ok hash_fn k v s nid true all (omega (arith, next-lt))
                  (may_next p ok hash_fn k v)) [
                    | inr (it, s', e', adds, keeps) ↦
                        inr (it, s', rw (e, insert_uniq, e'), adds, keeps)
                    | inl (e', full') ↦ rw (e, insert_uniq, e') (insert_crowded-cases full full')
                  ]
          ]
