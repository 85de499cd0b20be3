-- ===== src/DashTable/Table/Routing.antt =====
-- The directory: which entries share a segment, and the entry that a hash leads to.
use storage_engine.Base.{
  ℕ, zero, suc, ◌+◌, ◌-◌, ◌≤◌, ◌<◌, ◌≡◌, refl, sym, ap, ◌∙◌, false, ◌==◌, arith,
}
use storage_engine.Base.Words.{
  Fits, testbit, shl, shr, shr-shr, shl_zero, in_block, testbit-shr, testbit-zero,
}
use storage_engine.DashTable.Table.Defs.{Table, segment_at, segment_id}

module _ {ℓ} {K V : Type ℓ} where
  -- How many low bits of a directory entry its segment does not look at.
  abbrev pub slack : Table K V → ℕ → ℕ
  slack t i = t.global_depth - (segment_at t i).local_depth

  -- A directory of `2 ^ global_depth` entries, in which two entries lead to one segment exactly when
  -- they agree in the bits that the segment looks at.
  pub record IsDirectory (t : Table K V) : Type ℓ where
    pub small : t.global_depth ≤ 32
    pub size : t.directory_size ≡ shl 1 t.global_depth
    pub deep : (i : ℕ) → i < t.directory_size → (segment_at t i).local_depth ≤ t.global_depth
    pub used : (i : ℕ) → i < t.directory_size → t.segment i < t.next_address
    pub agree :
        (i j : ℕ)
        → i < t.directory_size
        → j < t.directory_size
        → t.segment j ≡ t.segment i
        → shr j (slack t i) ≡ shr i (slack t i)
    pub shared :
        (i j : ℕ)
        → i < t.directory_size
        → j < t.directory_size
        → shr j (slack t i) ≡ shr i (slack t i)
        → t.segment j ≡ t.segment i

-- What is below `2 ^ g` has no other bits.
pub shr-eq-zero : (r g : ℕ) → r < shl 1 g → shr r g ≡ 0
shr-eq-zero r g lt = ground (arith, in_block r 0 g, shl_zero g, lt)

pub shr-eq-zero-lt : (r g : ℕ) → shr r g ≡ 0 → r < shl 1 g
shr-eq-zero-lt r g e = ground (arith, in_block r 0 g, shl_zero g, e)

-- So it is a word of 32 bits.
pub entry-Fits : (r g : ℕ) → r < shl 1 g → g ≤ 32 → Fits 32 r
entry-Fits r g lt le i far =
    let e : i - g + g ≡ i = omega (arith, le, far) in
    ap (testbit r) (sym e)
    ∙ sym (testbit-shr r g (i - g))
    ∙ ap (λ x. testbit x (i - g)) (shr-eq-zero r g lt)
    ∙ testbit-zero (i - g)

-- `SegmentId` of a hash of 64 bits, at any depth.
pub segment_id-shr :
    (depth hash : ℕ) → shr hash 64 ≡ 0 → segment_id depth hash ≡ shr hash (64 - depth)
unfolding segment_id
segment_id-shr zero hash fits = sym fits
segment_id-shr (suc depth) hash fits = let e : (suc depth == 0) ≡ false = ground arith in rw e refl

pub segment_id-lt :
    (depth hash : ℕ) → depth ≤ 64 → shr hash 64 ≡ 0 → segment_id depth hash < shl 1 depth
segment_id-lt depth hash le fits =
    let e : 64 - depth + depth ≡ 64 = omega (arith, le) in
    shr-eq-zero-lt (segment_id depth hash) depth (
      ap (λ x. shr x depth) (segment_id-shr depth hash fits)
      ∙ shr-shr hash (64 - depth) depth
      ∙ ap (shr hash) e
      ∙ fits)

-- The bits of the entry that are left without its low ones are those of the hash.
pub segment_id-slack :
    (depth local hash : ℕ)
    → depth ≤ 64
    → local ≤ depth
    → shr hash 64 ≡ 0
    → shr (segment_id depth hash) (depth - local) ≡ shr hash (64 - local)
segment_id-slack depth local hash le le' fits =
    let e : 64 - depth + (depth - local) ≡ 64 - local = omega (arith, le, le') in
    ap (λ x. shr x (depth - local)) (segment_id-shr depth hash fits)
    ∙ shr-shr hash (64 - depth) (depth - local)
    ∙ ap (shr hash) e
