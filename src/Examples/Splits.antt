-- ===== src/Examples/Splits.antt =====
-- A split of the crowded segment at a depth where one of its two entries goes.
use storage_engine.Base.{
  ℕ, ◌*◌, ◌<◌, ◌≡◌, ◌⊎◌, refl, Bool, true, false, none, some, ◌==◌, not, if◌then◌else◌, arith,
}
use storage_engine.Base.Words.{testbit, shr}
use storage_engine.DashTable.Segment.Defs.{Segment, Iterator}
use storage_engine.DashTable.Segment.Contents.{total, total-SameEntries}
use storage_engine.DashTable.Segment.Pointers.{SameEntries-refl}
use storage_engine.DashTable.Segment.Lookup.{find_it}
use storage_engine.DashTable.Segment.Map.{IsMap}
use storage_engine.DashTable.Segment.Splitting.{split, is_mine}
use storage_engine.DashTable.Segment.Splitting.Shares.{goes}
use storage_engine.DashTable.Segment.Splitting.Whole.{deepened-IsSound}
use storage_engine.DashTable.Segment.Splitting.Halves.{IsSplit, split-IsSplit, split-find_it}
use storage_engine.DashTable.Table.Defs.{new_segment}
use storage_engine.DashTable.Table.Fresh.{new_segment-IsMap}
use storage_engine.Examples.Segments.{tiny, tiny-IsPolicy, hash_fn, crowded}
use storage_engine.Examples.Maps.{==-IsNaming, crowded-IsMap, crowded-entries}

-- At depth 63 the second lowest bit decides: key 5 stays and key 6 goes.
abbrev deep : Segment ℕ ℕ
deep = record crowded { local_depth = 62 }

abbrev other : Segment ℕ ℕ
other = new_segment 0 0 63 1

deep-total : (q : ℕ → ℕ → Bool) → total tiny q deep ≡ total tiny q crowded
deep-total q = total-SameEntries tiny q crowded deep (λ i. SameEntries-refl (crowded.bucket i))

deep-IsMap : IsMap tiny hash_fn (◌==◌) deep
deep-IsMap =
    let sound =
      deepened-IsSound tiny tiny-IsPolicy hash_fn 63 62 crowded
        (record { placed = crowded-IsMap.placed; balanced = crowded-IsMap.balanced }) in
    record {
      placed = sound.placed;
      balanced = sound.balanced;
      unique = λ w. ground (arith, deep-total (λ k _. k == w), crowded-IsMap.unique w);
    }

fresh : IsMap tiny hash_fn (◌==◌) other × ((q : ℕ → ℕ → Bool) → total tiny q other ≡ 0)
fresh = new_segment-IsMap 0 0 tiny hash_fn (◌==◌) 63 1

few-go : total tiny (goes tiny tiny-IsPolicy hash_fn 63) deep < 6 * 1
few-go = ground (
  arith,
  deep-total (goes tiny tiny-IsPolicy hash_fn 63),
  crowded-entries (goes tiny tiny-IsPolicy hash_fn 63),
)

six-goes : is_mine 63 6 ≡ false
unfolding is_mine testbit shr
six-goes = refl

five-stays : is_mine 63 5 ≡ true
unfolding is_mine testbit shr
five-stays = refl

split-IsSplit_example :
    let r = split tiny hash_fn deep other in
    IsSplit tiny tiny-IsPolicy hash_fn (◌==◌) deep (r.0) (r.1)
split-IsSplit_example =
    split-IsSplit tiny tiny-IsPolicy hash_fn (◌==◌) deep other deep-IsMap (fresh.0) (fresh.1)

split-find_it_example :
    let find = find_it tiny (λ k. k == 6) 6 in
    let r = split tiny hash_fn deep other in
    let half = λ (own : Bool). if own then r.0 else r.1 in
    let mine = is_mine 63 6 in
    (((find deep ≡ none) × (find (half mine) ≡ none))
      ⊎ ((it : Iterator) × (it' : Iterator) × (find deep ≡ some it)
          × (find (half mine) ≡ some it')))
    × (find (half (not mine)) ≡ none)
split-find_it_example =
    split-find_it tiny tiny-IsPolicy hash_fn (◌==◌) deep other deep-IsMap (fresh.0) (fresh.1)
      hash_fn ==-IsNaming few-go 6
