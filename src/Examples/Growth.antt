-- ===== src/Examples/Growth.antt =====
-- An insertion that makes room: six entries fill the one segment of a table of one bit, and the odd keys
-- go to a new segment.
use storage_engine.Base.{
  ℕ, ◌+◌, ◌*◌, ◌%◌, ◌^◌, ◌<◌, ◌≡◌, refl, ap, ◌∙◌, Bool, true, to_nat, ◌==◌, List, [], ◌∷◌, inl, inr,
  arith,
}
use storage_engine.DashTable.Segment.Defs.{Segment}
use storage_engine.DashTable.Segment.Contents.{total}
use storage_engine.DashTable.Segment.Map.{IsNaming, IsMap, insert_unless_found-cases}
use storage_engine.DashTable.Segment.Splitting.{split}
use storage_engine.DashTable.Segment.Splitting.Shares.{every, goes, exhausted-total}
use storage_engine.DashTable.Table.Defs.{Table, segment_id, new_segment}
use storage_engine.DashTable.Table.Access.{make_room}
use storage_engine.DashTable.Table.Directory.{target_id, split_segment}
use storage_engine.DashTable.Table.Fresh.{new_segment-IsMap}
use storage_engine.DashTable.Table.Growth.Entry.{insert_unless_found-depth}
use storage_engine.Examples.Segments.{tiny, tiny-IsPolicy}

-- Odd keys have the top bit.
abbrev top_bit : ℕ → ℕ
top_bit k = (k % 2) * 2 ^ 63

top_bit-IsNaming : IsNaming top_bit top_bit (◌==◌)
top_bit-IsNaming = record {
  one_name = λ k w w' e e'. ground (arith, e, e');
  hash = λ k w e. let same : k ≡ w = ground (arith, e) in ap top_bit same;
}

filled : List ℕ → (ℕ → ℕ → Bool) → ℕ
filled [] q = 0
filled (k ∷ ks) q = to_nat (q k 0) + filled ks q

-- A segment of depth 0 that has these keys.
record Holds (ks : List ℕ) (s : Segment ℕ ℕ) : Type 0 where
  map : IsMap tiny top_bit (◌==◌) s
  depth : s.local_depth ≡ 0
  contents : (q : ℕ → ℕ → Bool) → total tiny q s ≡ filled ks q

fresh : Segment ℕ ℕ
fresh = new_segment 0 0 0 0

fresh-Holds : Holds [] fresh
unfolding fresh filled new_segment
fresh-Holds =
    let (map, none_yet) = new_segment-IsMap 0 0 tiny top_bit (◌==◌) 0 0 in
    record { map = map; depth = refl; contents = none_yet }

add-Holds :
    (ks : List ℕ) (s : Segment ℕ ℕ) (k : ℕ)
    → Holds ks s
    → filled ks every < 6
    → filled ks (λ a _. a == k) ≡ 0
    → (s' : Segment ℕ ℕ) × Holds (k ∷ ks) s'
unfolding filled
add-Holds ks s k holds room new =
    let own : (k == k) ≡ true = ground arith in
    elim (insert_unless_found-cases tiny tiny-IsPolicy top_bit top_bit (◌==◌) top_bit-IsNaming s
      holds.map k k 0 own) [
        | inl (_, _, _, one) ↦ absurd (omega (arith, one, new, holds.contents (λ a _. a == k)))
        | inr (_, rest) ↦ elim rest [
          | inl (it, s', e, adds, map') ↦ (
            s',
            record {
              map = map';
              depth =
                  insert_unless_found-depth tiny k 0 (top_bit k) (λ a. a == k) s it true s' e
                  ∙ holds.depth;
              contents = λ q. omega (arith, adds.contents q, holds.contents q);
            },
          )
          | inr (_, full) ↦ absurd (
              omega (
                arith,
                exhausted-total tiny tiny-IsPolicy top_bit 0 (top_bit k) s full,
                holds.contents every,
                room,
              ))
        ]
      ]

abbrev six : List ℕ
six = 6 ∷ 5 ∷ 4 ∷ 3 ∷ 2 ∷ 1 ∷ []

six-Holds : (s : Segment ℕ ℕ) × Holds six s
unfolding filled
six-Holds =
    let (s1, h1) = add-Holds [] fresh 1 fresh-Holds (omega arith) refl in
    let (s2, h2) = add-Holds (1 ∷ []) s1 2 h1 (omega arith) refl in
    let (s3, h3) = add-Holds (2 ∷ 1 ∷ []) s2 3 h2 (omega arith) refl in
    let (s4, h4) = add-Holds (3 ∷ 2 ∷ 1 ∷ []) s3 4 h3 (omega arith) refl in
    let (s5, h5) = add-Holds (4 ∷ 3 ∷ 2 ∷ 1 ∷ []) s4 5 h4 (omega arith) refl in
    add-Holds (5 ∷ 4 ∷ 3 ∷ 2 ∷ 1 ∷ []) s5 6 h5 (omega arith) refl

abbrev whole : Segment ℕ ℕ
whole = six-Holds.0

-- Both entries of the directory lead to it.
abbrev one_segment : Table ℕ ℕ
one_segment = record {
  segment = λ _. 0;
  directory_size = 2;
  store = λ _. whole;
  next_address = 1;
  size = 6;
  unique_segments = 1;
  bucket_count = 6;
  initial_depth = 0;
  global_depth = 1;
}

abbrev seven : ℕ
seven = segment_id 1 (top_bit 7)

abbrev odd_keys : Segment ℕ ℕ → ℕ
odd_keys s = total tiny (goes tiny tiny-IsPolicy top_bit (whole.local_depth + 1)) s

abbrev divided : Table ℕ ℕ
divided = split_segment tiny 0 0 top_bit seven one_segment

-- The segment of key 7 is the new one, with three entries at most.
abbrev part : Segment ℕ ℕ × Segment ℕ ℕ
part =
    split tiny top_bit whole (new_segment 0 0 (whole.local_depth + 1) (target_id one_segment seven))

abbrev grown : Table ℕ ℕ
grown = make_room tiny top_bit 0 0 (top_bit 7) one_segment
