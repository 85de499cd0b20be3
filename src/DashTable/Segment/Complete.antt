-- ===== src/DashTable/Segment/Complete.antt =====
-- That `FindIt` finds what is there.
use storage_engine.Base.{
  ℕ, ◌+◌, ◌-◌, ◌<◌, ◌≡◌, ◌≢◌, ◌⊎◌, refl, ap, Bool, true, false, ◌&&◌, ltb, to_nat,
  sum_below-eq-zero, none, some, Option-cases, Bool-cases, inl, inr, subst, le-sum_below, arith,
}
use storage_engine.DashTable.SlotBitmap.Bits.{is_busy, is_probe}
use storage_engine.DashTable.Bucket.{find_by_fp}
use storage_engine.DashTable.Bucket.Base.{has_stash, has_stash_overflow}
use storage_engine.DashTable.Bucket.Find.{is_candidate}
use storage_engine.DashTable.Bucket.Insert.{count, entry}
use storage_engine.DashTable.Bucket.Counting.{Test, pointers}
use storage_engine.DashTable.Bucket.Clearing.{exactly}
use storage_engine.DashTable.Bucket.Release.{any}
use storage_engine.DashTable.Segment.Defs.{
  Policy, IsPolicy, Segment, Iterator, fingerprint, home_index, next_bid, total_buckets,
  stash_bucket_num,
}
use storage_engine.DashTable.Segment.Placement.{AllPlaced, home_index-lt}
use storage_engine.DashTable.Segment.Contents.{total}
use storage_engine.DashTable.Segment.Lookup.{in_stash, find_stashed, find_it}
use storage_engine.DashTable.Segment.Found.{IsFound, find_it-IsFound}
use storage_engine.DashTable.Segment.Stash.{belongs, stashed, references, IsBalanced}
use storage_engine.DashTable.Segment.Stash.Sums.{
  both, except, refers-split, refers_mono, stashed-split,
}
use storage_engine.DashTable.Segment.Misses.{
  find_by_fp-misses, exactly-followed, scan_stash-misses, follow_stash-misses,
}

module _ {ℓ} {K V : Type ℓ} (p : Policy) (ok : IsPolicy p) (hash_fn : K → ℕ) (s : Segment K V)
    (all : AllPlaced p hash_fn s) (bal : IsBalanced p hash_fn s) (pred : K → Bool) where
  module _ (pos j : ℕ) (lt : pos < 4) (small : j < p.slot_num)
      (on : is_busy ((s.bucket (p.bucket_num + pos)).slotb) j ≡ true)
      (accepted : pred ((s.bucket (p.bucket_num + pos)).key j) ≡ true) where
    abbrev own_key : K
    own_key = (s.bucket (p.bucket_num + pos)).key j

    abbrev home : ℕ
    home = home_index p (hash_fn own_key)

    abbrev print : ℕ
    print = fingerprint (hash_fn own_key)

    -- The stash bucket holds it.
    in_stash-hit : in_stash p pred print s pos ≢ none
    unfolding in_stash
    in_stash-hit e =
        let same : pos + p.bucket_num ≡ p.bucket_num + pos = omega arith in
        let i = p.bucket_num + pos in
        let e' : find_by_fp p.slot_num print false pred (s.bucket i) ≡ none = rw same at e in
        let kept = ((all i).stands j on).stash (omega arith) in
        let stored = (all i).prints j on in
        let candidate : is_candidate ((s.bucket i).base) print false j ≡ true =
          ground (arith, stored, on, kept) in
        absurd (
          cc (
            find_by_fp-misses p.slot_num print false pred (s.bucket i) ok.slots ((all i).valid) e' j
                small candidate,
            accepted,
          ))

    stashed-counts : (q : Test) → q print pos ≡ true → 0 < stashed p hash_fn home q s
    unfolding stashed count
    stashed-counts q passes =
        let b = s.bucket (p.bucket_num + pos) in
        let here = le-sum_below p.slot_num (entry (belongs p hash_fn home q pos) b) j small in
        let one : entry (belongs p hash_fn home q pos) b j ≡ 1 = ground (arith, on, passes) in
        omega (
          arith,
          here,
          one,
          le-sum_below 4
              (λ l. count p.slot_num (belongs p hash_fn home q l) (s.bucket (p.bucket_num + l))) pos
              lt,
        )

    -- If every entry in the stash has its reference, then this one has.
    has-reference :
        has_stash_overflow ((s.bucket home).base) ≡ false
        → 0 < references p hash_fn home (exactly print pos) s
    unfolding has_stash_overflow
    has-reference no_overflow =
        let at_home = bal.balance home (home_index-lt p ok (hash_fn own_key)) in
        let ex = exactly print pos in
        let b = (s.bucket home).base in
        let next = (s.bucket (next_bid p home)).base in
        let no_count : b.overflow_count ≡ 0 = ground (arith, no_overflow) in
        omega (
          arith,
          at_home.all,
          no_count,
          refers-split b next any ex,
          stashed-split p hash_fn home s any ex,
          at_home.below (except any ex),
          refers_mono b next any ex,
          stashed-counts (both any ex) (ground arith),
        )

    find_stashed-hit :
        find_stashed p pred print (s.bucket home) (s.bucket (next_bid p home)) s ≢ none
    unfolding find_stashed
    find_stashed-hit e =
        let target = s.bucket home in
        let probe = s.bucket (next_bid p home) in
        let at_home = bal.balance home (home_index-lt p ok (hash_fn own_key)) in
        elim (Bool-cases (has_stash target.base)) [
          | inr off ↦ absurd (omega (arith, at_home.present off, stashed-counts any refl))
          | inl present ↦ elim (Bool-cases (has_stash_overflow target.base)) [
            | inl over ↦ in_stash-hit (
                scan_stash-misses p pred print s stash_bucket_num 0
                  (rw (present, find_stashed, over) at e) pos (omega arith) (omega (arith, lt)))
            | inr exact ↦
                let (none_own, none_next) =
                  follow_stash-misses p pred print s target probe
                    (rw (present, find_stashed, exact) at e) in
                let more = has-reference exact in
                elim (native.Mathlib.Decide.ℕ_discrete
                  (pointers target.base false (exactly print pos)) 0) [
                    | no ne ↦ in_stash-hit (
                        exactly-followed print pos false (in_stash p pred print s) target.base
                          none_own (omega (arith, ne)))
                    | yes z ↦ in_stash-hit (
                        exactly-followed print pos true (in_stash p pred print s) probe.base
                          none_next (omega (arith, more, z)))
                  ]
          ]
        ]

  module _ (i j : ℕ) where
    abbrev key_at : K
    key_at = (s.bucket i).key j

    abbrev print_at : ℕ
    print_at = fingerprint (hash_fn key_at)

    abbrev home_at : ℕ
    home_at = home_index p (hash_fn key_at)

    -- An entry in a regular bucket is one that a search there does not miss.
    regular-misses :
        (probe : Bool)
        → j < p.slot_num
        → is_busy ((s.bucket i).slotb) j ≡ true
        → pred key_at ≡ true
        → is_probe ((s.bucket i).slotb) j ≡ probe
        → (l : ℕ) → l ≡ i
        → find_by_fp p.slot_num print_at probe pred (s.bucket l) ≢ none
    regular-misses probe small on accepted marked l same e =
        let stored = (all i).prints j on in
        let candidate : is_candidate ((s.bucket i).base) print_at probe j ≡ true =
          ground (arith, stored, on, marked) in
        absurd (
          cc (
            find_by_fp-misses p.slot_num print_at probe pred (s.bucket i) ok.slots ((all i).valid)
                (rw same at e) j small candidate,
            accepted,
          ))

    regular-hit :
        j < p.slot_num
        → is_busy ((s.bucket i).slotb) j ≡ true
        → pred key_at ≡ true
        → i < p.bucket_num
        → find_by_fp p.slot_num print_at false pred (s.bucket home_at) ≡ none
        → find_by_fp p.slot_num print_at true pred (s.bucket (next_bid p home_at)) ≢ none
    regular-hit small on accepted lt e1 e2 =
        let may = (all i).stands j on in
        elim (Bool-cases (is_probe ((s.bucket i).slotb) j)) [
          | inl marked ↦
              regular-misses true small on accepted marked (next_bid p home_at)
                (rw marked at (may.home lt)) e2
          | inr own ↦
              regular-misses false small on accepted own home_at (rw own at (may.home lt)) e1
        ]

    stash-hit :
        (pos : ℕ)
        → pos < 4
        → p.bucket_num + pos ≡ i
        → j < p.slot_num
        → is_busy ((s.bucket i).slotb) j ≡ true
        → pred key_at ≡ true
        → find_stashed p pred print_at (s.bucket home_at) (s.bucket (next_bid p home_at)) s ≢ none
    stash-hit pos lt same =
        subst
          (λ l.
            j < p.slot_num
            → is_busy ((s.bucket l).slotb) j ≡ true
            → pred ((s.bucket l).key j) ≡ true
            → let hash = hash_fn ((s.bucket l).key j) in
              let home = home_index p hash in
              find_stashed p pred (fingerprint hash) (s.bucket home) (s.bucket (next_bid p home)) s
              ≢ none)
          same (λ small on accepted. find_stashed-hit pos j lt small on accepted)

  -- In the home bucket, in its neighbour or in the stash.
  find_it-hit :
      (i j : ℕ)
      → i < total_buckets p
      → j < p.slot_num
      → is_busy ((s.bucket i).slotb) j ≡ true
      → pred ((s.bucket i).key j) ≡ true
      → find_it p pred (hash_fn ((s.bucket i).key j)) s ≢ none
  unfolding find_it
  find_it-hit i j lt small on accepted e =
      let hash = hash_fn ((s.bucket i).key j) in
      let fp = fingerprint hash in
      let bid = home_index p hash in
      let nid = next_bid p bid in
      elim (Option-cases (find_by_fp p.slot_num fp false pred (s.bucket bid))) [
        | inr (slot, e1) ↦ absurd (cc (rw (e1, find_it) at e))
        | inl e1 ↦ elim (Option-cases (find_by_fp p.slot_num fp true pred (s.bucket nid))) [
          | inr (slot, e2) ↦ absurd (cc (rw (e1, find_it, e2) at e))
          | inl e2 ↦ elim (Bool-cases (ltb i p.bucket_num)) [
            | inl regular ↦ regular-hit i j small on accepted (ground (arith, regular)) e1 e2
            | inr stash ↦
                let pos = i - p.bucket_num in
                let same : p.bucket_num + pos ≡ i = ground (arith, stash) in
                stash-hit i j pos (omega (arith, lt, same)) same small on accepted
                  (rw (e1, find_it, e2) at e)
          ]
        ]
      ]

-- `FindIt` with the hash of the accepted keys, on a segment whose buckets are in order and whose
-- stash entries are referred to, is a lookup in the segment's entries: it finds nothing, and no
-- entry's key is accepted; or it finds a busy slot whose key is accepted.
pub find_it-cases {ℓ} :
    {K V : Type ℓ} (p : Policy)
    → IsPolicy p
    → (hash_fn : K → ℕ) (s : Segment K V) → AllPlaced p hash_fn s
    → IsBalanced p hash_fn s
    → (pred : K → Bool) (hash : ℕ) → ((k : K) → pred k ≡ true → hash_fn k ≡ hash)
    → ((find_it p pred hash s ≡ none) × (total p (λ k _. pred k) s ≡ 0))
      ⊎ ((it : Iterator) × (find_it p pred hash s ≡ some it)
          × IsFound p pred (fingerprint hash) s it
          × (0 < total p (λ k _. pred k) s))
unfolding total count
find_it-cases p ok hash_fn s all bal pred hash agrees =
    let part = λ (i : ℕ). count p.slot_num (λ k _. pred k) (s.bucket i) in
    elim (Option-cases (find_it p pred hash s)) [
      | inr (it, e) ↦
          let found = find_it-IsFound p pred ok hash_fn s all hash it e in
          let b = s.bucket it.index in
          let one : entry (λ k _. pred k) b it.slot ≡ 1 =
            ground (arith, found.busy, found.accepted) in
          inr (
            it,
            e,
            found,
            omega (
              arith,
              le-sum_below (total_buckets p) part it.index found.index,
              le-sum_below p.slot_num (entry (λ k _. pred k) b) it.slot found.slot,
              one,
            ),
          )
      | inl e ↦ inl (
        e,
        sum_below-eq-zero (total_buckets p) part (λ i lt.
            sum_below-eq-zero p.slot_num (entry (λ k _. pred k) (s.bucket i)) (λ j small.
              elim (Bool-cases (is_busy ((s.bucket i).slotb) j && pred ((s.bucket i).key j))) [
                | inr off ↦ ap to_nat off
                | inl on ↦
                    let accepted : pred ((s.bucket i).key j) ≡ true = ground (arith, on) in
                    absurd (
                      find_it-hit p ok hash_fn s all bal pred i j lt small (ground (arith, on))
                        accepted (rw (agrees ((s.bucket i).key j) accepted) e))
              ])),
      )
    ]
