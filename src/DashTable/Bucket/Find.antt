-- ===== src/DashTable/Bucket/Find.antt =====
-- `Find` and `FindByFp` of src/sharding/DashTable/dash_internal.hpp against a plain search.
use storage_engine.Base.{
  ℕ, zero, suc, ◌+◌, ◌-◌, ◌≤◌, ◌<◌, bit_and, ◌≡◌, refl, sym, ap, ◌∙◌, Bool, true, ◌&&◌, not, ◌==◌,
  if◌then◌else◌, Option, Bool-cases, inl, inr, arith,
}
use storage_engine.Base.Search.{first_from, first_from-skip, first_from-nowhere}
use storage_engine.Base.Words.{
  testbit, shr, ctz, testbit-bit_and, testbit-word_of, testbit-shr, testbit-zero, some_bit,
  ctz-IsLowest, below-ctz,
}
use storage_engine.DashTable.SlotBitmap
use storage_engine.DashTable.SlotBitmap.Bits.{is_busy, is_probe, IsValid, testbit-get_probe}
use storage_engine.DashTable.Bucket.Base.{
  BucketBase, find, compare_fp, loaded_byte, get_busy, get_probe,
}
use storage_engine.DashTable.Bucket.{Bucket, scan, find_by_fp}

-- Slot `i` is busy, has the fingerprint, and is probing or not as asked.
abbrev pub is_candidate : BucketBase → ℕ → Bool → ℕ → Bool
is_candidate b fp probe i =
    (b.finger_arr i == fp)
    && is_busy b.slotb i
    && (if probe then is_probe b.slotb i else not (is_probe b.slotb i))

testbit-compare_fp :
    (n fp : ℕ) (b : BucketBase) (i : ℕ)
    → n ≤ 16
    → i < n
    → testbit (compare_fp n fp b) i ≡ (b.finger_arr i == fp)
unfolding compare_fp
testbit-compare_fp n fp b i le lt =
    ground (arith, testbit-word_of 16 (λ j. loaded_byte n b j == fp) i)

-- The vector comparison, masked, marks the candidates and nothing else, although it also reads
-- the bytes behind the fingerprints.
pub testbit-find :
    (n fp : ℕ) (probe : Bool) (b : BucketBase) (i : ℕ)
    → n ≤ 16
    → IsValid n b.slotb
    → testbit (find n fp probe b) i ≡ is_candidate b fp probe i
unfolding find get_busy SlotBitmap.get_busy get_probe
testbit-find n fp probe b i le v = ground (
  arith,
  v.fits i,
  testbit-compare_fp n fp b i le,
  testbit-bit_and (compare_fp n fp b) b.slotb.busy i,
  testbit-bit_and (bit_and (compare_fp n fp b) b.slotb.busy) (SlotBitmap.get_probe n probe b.slotb)
      i,
  testbit-get_probe n probe b.slotb i,
)

module _ {ℓ} {K V : Type ℓ} where
  scan-first_from :
      (rounds i mask : ℕ) (pred : K → Bool) (b : Bucket K V) (c : ℕ → Bool)
      → ((j : ℕ) → testbit mask j ≡ c (i + j))
      → scan rounds i mask pred b ≡ first_from rounds i (λ j. c j && pred (b.key j))
  unfolding scan first_from
  scan-first_from zero i mask pred b c h = refl
  scan-first_from (suc rounds) i mask pred b c h =
      let here : testbit mask 0 ≡ c i = let e : i + 0 ≡ i = omega arith in h 0 ∙ ap c e in
      let later = scan-first_from rounds (suc i) (shr mask 1) pred b c (λ j.
        let e : i + (j + 1) ≡ suc i + j = omega arith in
        testbit-shr mask 1 j ∙ h (j + 1) ∙ ap c e) in
      rw (here, later)

  -- The first candidate whose key the predicate accepts.
  unfoldable pub first_match : ℕ → ℕ → Bool → (K → Bool) → Bucket K V → Option ℕ
  first_match n fp probe pred b =
      first_from n 0 (λ i. is_candidate b.base fp probe i && pred (b.key i))

  -- Past the first set bit of its mask, the loop goes as a search from slot 0 would.
  scan-first_below :
      (n mask i : ℕ) (pred : K → Bool) (b : Bucket K V) (c : ℕ → Bool)
      → n ≤ 32
      → i < n
      → testbit mask i ≡ true
      → ((j : ℕ) → testbit mask j ≡ c j)
      → scan (n - ctz 32 mask) (ctz 32 mask) (shr mask (ctz 32 mask)) pred b
        ≡ first_from n 0 (λ j. c j && pred (b.key j))
  scan-first_below n mask i pred b c le lt on bits =
      let d : ℕ = ctz 32 mask in
      let low = ctz-IsLowest 32 mask i (omega arith) on in
      let rest : n ≡ d + (n - d) = omega (arith, low.first) in
      let begin : 0 + d ≡ d = omega arith in
      let p : ℕ → Bool = λ j. c j && pred (b.key j) in
      scan-first_from (n - d) d (shr mask d) pred b c (λ j.
        let e : j + d ≡ d + j = omega arith in
        testbit-shr mask d j ∙ ap (testbit mask) e ∙ bits (d + j))
      ∙ ap (λ s. first_from (n - d) s p) (sym begin)
      ∙ sym (
          first_from-skip d (n - d) 0 p
            (λ j _ h. ground (arith, bits j, below-ctz 32 mask j (omega arith))))
      ∙ ap (λ m. first_from m 0 p) (sym rest)

  -- `FindByFp`, with its vector comparison of fingerprints and its bit scan, on a valid bitmap of at
  -- most 16 slots, is the plain search for the first busy slot with the fingerprint, the probe mark
  -- and an accepted key.
  pub find_by_fp-first_match :
      (n fp : ℕ) (probe : Bool) (pred : K → Bool) (b : Bucket K V)
      → n ≤ 16
      → IsValid n b.slotb
      → find_by_fp n fp probe pred b ≡ first_match n fp probe pred b
  unfolding find_by_fp first_match
  find_by_fp-first_match n fp probe pred b le v =
      let mask = find n fp probe b.base in
      let bits = λ (i : ℕ). testbit-find n fp probe b.base i le v in
      elim (Bool-cases (mask == 0)) [
        | inl e ↦
            let z : mask ≡ 0 = ground arith in
            rw e (
              sym (
                first_from-nowhere n 0 _
                  (λ j. ground (arith, bits j, ap (λ x. testbit x j) z, testbit-zero j))))
        | inr e ↦
            let (i, lt, on) =
              some_bit n mask (λ i h. ground (arith, bits i, v.fits i h)) (ground arith) in
            rw e (scan-first_below n mask i pred b _ (omega arith) lt on bits)
      ]
