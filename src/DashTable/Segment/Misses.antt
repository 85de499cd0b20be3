-- ===== src/DashTable/Segment/Misses.antt =====
-- What a search of a bucket, of the references or of the stash that finds nothing has looked at.
use storage_engine.Base.{
  ℕ, zero, suc, ◌+◌, ◌≤◌, ◌<◌, ◌≡◌, sym, ap, ◌∙◌, Bool, true, false, Option, none, Option-cases,
  inl, inr, some_part, arith,
}
use storage_engine.Base.Search.{first_from-none}
use storage_engine.Base.Words.{testbit-bit_not32, pair}
use storage_engine.DashTable.SlotBitmap.Bits.{IsValid}
use storage_engine.DashTable.Bucket.{Bucket, BucketBase, find_by_fp}
use storage_engine.DashTable.Bucket.Stash.{iterate_stash}
use storage_engine.DashTable.Bucket.Find.{is_candidate, find_by_fp-first_match, first_match}
use storage_engine.DashTable.Bucket.References.{kind, iterate_stash-misses}
use storage_engine.DashTable.Bucket.Counting.{pointer, pointers}
use storage_engine.DashTable.Bucket.Clearing.{exactly}
use storage_engine.DashTable.Segment.Defs.{Policy, Segment}
use storage_engine.DashTable.Segment.Lookup.{in_stash, scan_stash, follow_stash}

-- A candidate with an accepted key is not missed.
pub find_by_fp-misses {ℓ} :
    {K V : Type ℓ} (n fp : ℕ) (probe : Bool) (pred : K → Bool) (b : Bucket K V)
    → n ≤ 16
    → IsValid n b.slotb
    → find_by_fp n fp probe pred b ≡ none
    → (j : ℕ) → j < n
    → is_candidate b.base fp probe j ≡ true
    → pred (b.key j) ≡ false
unfolding first_match
find_by_fp-misses n fp probe pred b small valid e j lt on =
    let miss =
      first_from-none n 0 _ (sym (find_by_fp-first_match n fp probe pred b small valid) ∙ e) j
        (omega arith) (omega (arith, lt)) in
    ground (arith, miss, on)

-- A pointer to exactly this entry is followed.
pub exactly-followed {ℓ} :
    {A : Type ℓ} (fp pos : ℕ) (probe : Bool) (g : ℕ → Option A) (b : BucketBase)
    → iterate_stash fp probe (λ _ q. g q) b ≡ none
    → 0 < pointers b probe (exactly fp pos)
    → g pos ≡ none
unfolding pointers
exactly-followed fp pos probe g b e more =
    let (i, lt, on) = some_part 4 (pointer b probe (exactly fp pos)) more in
    let flipped = testbit-bit_not32 b.stash_probe_mask i in
    let place : pair b.stash_pos i ≡ pos = ground arith in
    let kinds : kind b probe i ≡ true = ground (arith, flipped) in
    ap g (sym place)
    ∙ iterate_stash-misses fp (λ _ q. g q) b probe e i lt (ground (arith), kinds, ground (arith))

module _ {ℓ} {K V : Type ℓ} (p : Policy) (pred : K → Bool) (fp : ℕ) (s : Segment K V) where
  pub scan_stash-misses :
      (rounds i : ℕ)
      → scan_stash p pred rounds i fp s ≡ none
      → (pos : ℕ) → i ≤ pos
      → pos < i + rounds
      → in_stash p pred fp s pos ≡ none
  unfolding scan_stash
  scan_stash-misses zero i e pos le lt = absurd (omega (arith, le, lt))
  scan_stash-misses (suc rounds) i e pos le lt = elim (Option-cases (in_stash p pred fp s i)) [
    | inr (slot, e') ↦ absurd (cc (rw (e', scan_stash) at e))
    | inl e' ↦ elim (native.Mathlib.Decide.ℕ_discrete pos i) [
      | yes same ↦ rw same e'
      | no ne ↦
          scan_stash-misses rounds (suc i) (rw (e', scan_stash) at e) pos (omega (arith, le, ne))
            (omega (arith, lt))
    ]
  ]

  pub follow_stash-misses :
      (target probe : Bucket K V)
      → follow_stash p pred fp target probe s ≡ none
      → let g = in_stash p pred fp s in
        (iterate_stash fp false (λ _ pos. g pos) target.base ≡ none)
        × (iterate_stash fp true (λ _ pos. g pos) probe.base ≡ none)
  unfolding follow_stash
  follow_stash-misses target probe e =
      let func = λ (_ pos : ℕ). in_stash p pred fp s pos in
      elim (Option-cases (iterate_stash fp false func target.base)) [
        | inr (r, e') ↦ absurd (cc (rw (e', follow_stash) at e))
        | inl e' ↦ elim (Option-cases (iterate_stash fp true func probe.base)) [
          | inr (r, e'') ↦ absurd (cc (rw (e', follow_stash, e'') at e))
          | inl e'' ↦ (e', e'')
        ]
      ]
