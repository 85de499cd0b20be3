-- ===== src/DashTable/Segment/Rewriting.antt =====
-- Entries that are rewritten in place: a value, or a key that keeps its name and its hash.
use storage_engine.Base.{ℕ, ◌+◌, ◌≡◌, refl, Bool, sum_below_congr, arith}
use storage_engine.DashTable.Bucket.{Bucket}
use storage_engine.DashTable.Bucket.Insert.{count, entry}
use storage_engine.DashTable.Segment.Defs.{Policy, Segment, total_buckets}
use storage_engine.DashTable.Segment.Placement.{IsPlaced}
use storage_engine.DashTable.Segment.Contents.{total}
use storage_engine.DashTable.Segment.Stash.{belongs, stashed}
use storage_engine.DashTable.Segment.Stash.Frame.{SamePointers-IsBalanced}
use storage_engine.DashTable.Segment.Map.{IsMap, entries_of}

-- The bitmaps, fingerprints and pointers are those of the other, and so are the names and hashes of
-- the keys.
pub record Rewrites {ℓ κ} {K V : Type ℓ} {T : Type κ} (hash_fn : K → ℕ) (equal : K → T → Bool)
    (b b' : Bucket K V) : Type κ where
  pub base : b'.base ≡ b.base
  pub hash : (j : ℕ) → hash_fn (b'.key j) ≡ hash_fn (b.key j)
  pub names : (j : ℕ) (w : T) → equal (b'.key j) w ≡ equal (b.key j) w

module _ {ℓ κ} {K V : Type ℓ} {T : Type κ} (p : Policy) (hash_fn : K → ℕ)
    (equal : K → T → Bool) where
  Rewrites-IsPlaced :
      (i : ℕ) (b b' : Bucket K V)
      → Rewrites hash_fn equal b b'
      → IsPlaced p hash_fn i b
      → IsPlaced p hash_fn i b'
  Rewrites-IsPlaced i b b' re pl = record {
    valid = rw re.base pl.valid;
    prints = λ j on. rw (re.base, re.hash j) (pl.prints j (rw re.base at on));
    stands = λ j on. rw (re.base, re.hash j) (pl.stands j (rw re.base at on));
  }

  -- A test that gives the same for the keys counts the same.
  count-Rewrites :
      (n : ℕ) (q : K → V → Bool) (b b' : Bucket K V)
      → Rewrites hash_fn equal b b'
      → ((j : ℕ) → q (b'.key j) (b'.value j) ≡ q (b.key j) (b.value j))
      → count n q b' ≡ count n q b
  unfolding count
  count-Rewrites n q b b' re same =
      sum_below_congr n (entry q b') (entry q b) (λ j _. rw (re.base, same j) refl)

  pub Rewrites-entries_of :
      (s s' : Segment K V)
      → ((i : ℕ) → Rewrites hash_fn equal (s.bucket i) (s'.bucket i))
      → (w : T) → entries_of p hash_fn equal w s' ≡ entries_of p hash_fn equal w s
  unfolding total
  Rewrites-entries_of s s' re w = sum_below_congr (total_buckets p) _ _ (λ i _.
      count-Rewrites p.slot_num (λ k _. equal k w) (s.bucket i) (s'.bucket i) (re i)
        (λ j. (re i).names j w))

  pub Rewrites-IsMap :
      (s s' : Segment K V)
      → ((i : ℕ) → Rewrites hash_fn equal (s.bucket i) (s'.bucket i))
      → IsMap p hash_fn equal s
      → IsMap p hash_fn equal s'
  unfolding stashed
  Rewrites-IsMap s s' re map = record {
    placed = λ i. Rewrites-IsPlaced i (s.bucket i) (s'.bucket i) (re i) (map.placed i);
    balanced =
        SamePointers-IsBalanced p hash_fn s s' (λ l. rw (re l).base refl)
          (λ y q. sum_below_congr 4 _ _ (λ pos _.
            let i = p.bucket_num + pos in
            count-Rewrites p.slot_num (belongs p hash_fn y q pos) (s.bucket i) (s'.bucket i) (re i)
              (λ j. rw ((re i).hash j) refl)))
          map.balanced;
    unique = λ w. omega (arith, Rewrites-entries_of s s' re w, map.unique w);
  }
