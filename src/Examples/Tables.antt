-- ===== src/Examples/Tables.antt =====
-- A table of one bit whose keys are hashed to their last byte: construction and growth.
use storage_engine.Base.{ℕ, ◌+◌, ◌*◌, ◌%◌, ◌<◌, ◌≡◌, ap, ◌∙◌, Bool, ◌==◌, arith}
use storage_engine.Base.Words.{shl, shr, shl_one-pow}
use storage_engine.DashTable.Segment.Contents.{total}
use storage_engine.DashTable.Segment.Map.{IsNaming}
use storage_engine.DashTable.Segment.Splitting.Shares.{goes}
use storage_engine.DashTable.Table.Defs.{Table, segment_at, new_table}
use storage_engine.DashTable.Table.Directory.{split_segment, increase_depth}
use storage_engine.DashTable.Table.Keys.{IsTable, entries_at}
use storage_engine.DashTable.Table.Routing.{IsDirectory, shr-eq-zero}
use storage_engine.DashTable.Table.Construction.{Built, new_table-Built, new_table-IsTable}
use storage_engine.DashTable.Table.Division.Contents.{Keeps, split_segment-Keeps}
use storage_engine.DashTable.Table.Doubling.{Deepens, increase_depth-Deepens, same-total}
use storage_engine.DashTable.Table.Doubling.Order.{increase_depth-Keeps}
use storage_engine.Examples.Segments.{tiny, tiny-IsPolicy}

abbrev last_byte : ℕ → ℕ
last_byte k = k % 256

last_byte-IsNaming : IsNaming last_byte last_byte (◌==◌)
last_byte-IsNaming = record {
  one_name = λ k w w' e e'. ground (arith, e, e');
  hash = λ k w e. let same : k ≡ w = ground (arith, e) in ap last_byte same;
}

short : (w : ℕ) → shr (last_byte w) 64 ≡ 0
short w = shr-eq-zero (last_byte w) 64 (omega (arith, shl_one-pow 64))

abbrev empty_table : Table ℕ ℕ
empty_table = new_table tiny 0 0 1

new_table-IsTable_example :
    IsTable tiny last_byte last_byte (◌==◌) empty_table
    × IsDirectory empty_table
    × (empty_table.size ≡ 0)
    × ((w : ℕ) → entries_at tiny last_byte last_byte (◌==◌) w empty_table ≡ 0)
new_table-IsTable_example =
    new_table-IsTable tiny last_byte (◌==◌) 0 0 last_byte short 1 (omega arith)

built : Built tiny last_byte (◌==◌) 0 0 1 (shl 1 1) empty_table
built = new_table-Built tiny last_byte (◌==◌) 0 0 1 (omega arith)

increase_depth-Keeps_example :
    Keeps tiny last_byte last_byte
      (◌==◌)
      empty_table
      (increase_depth (empty_table.global_depth + 1) empty_table)
increase_depth-Keeps_example =
    increase_depth-Keeps tiny last_byte last_byte (◌==◌) short empty_table
      (new_table-IsTable_example.0) (new_table-IsTable_example.1) (omega (arith, built.global))

-- The table of two bits, whose first two entries share a segment.
abbrev doubled : Table ℕ ℕ
doubled = increase_depth (empty_table.global_depth + 1) empty_table

deepens : Deepens empty_table doubled
deepens = increase_depth-Deepens empty_table

first-entry : doubled.segment 0 ≡ 0
unfolding shl
first-entry = deepens.entry 0 (omega (arith, built.size)) ∙ built.segments 0 (omega arith)

first-depth : (segment_at doubled 0).local_depth ≡ 1
unfolding shl
first-depth =
    deepens.depths (doubled.segment 0)
    ∙ ap (λ a. (empty_table.store a).local_depth) first-entry
    ∙ built.depths 0 (omega arith)

first-lt : 0 < doubled.directory_size
unfolding shl
first-lt = omega (arith, deepens.size ∙ ap (shl 1) (ap (λ d. d + 1) built.global))

first-room : (segment_at doubled 0).local_depth < doubled.global_depth
first-room = omega (arith, first-depth, deepens.global, built.global)

first-few :
    total tiny
      (goes tiny tiny-IsPolicy last_byte ((segment_at doubled 0).local_depth + 1))
      (segment_at doubled 0)
    < 6 * 1
first-few =
    let a = doubled.segment 0 in
    let q : ℕ → ℕ → Bool =
      goes tiny tiny-IsPolicy last_byte ((segment_at doubled 0).local_depth + 1) in
    omega (
      arith,
      same-total (empty_table.store a) (doubled.store a) (deepens.buckets a) tiny q,
      built.empty a q,
    )

split_segment-Keeps_example :
    Keeps tiny last_byte last_byte (◌==◌) doubled (split_segment tiny 0 0 last_byte 0 doubled)
split_segment-Keeps_example =
    split_segment-Keeps tiny tiny-IsPolicy last_byte last_byte (◌==◌) last_byte-IsNaming short 0 0
      doubled increase_depth-Keeps_example.table increase_depth-Keeps_example.directory 0 first-lt
      first-room first-few (omega (arith, deepens.global, built.global))
