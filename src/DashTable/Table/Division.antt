-- ===== src/DashTable/Table/Division.antt =====
-- `Split` of the table: what it does to the directory and to the store.
pub mod Entries
pub mod Contents
use storage_engine.Base.{
  ℕ, zero, suc, ◌+◌, ◌-◌, ◌*◌, ◌/◌, ◌%◌, ◌^◌, ◌≤◌, ◌<◌, ◌≡◌, ◌≢◌, refl, sym, ap, ◌∙◌, Bool, true,
  false, ◌&&◌, leb, ltb, ◌==◌, if◌then◌else◌, bit_and, update, update_self, update_ne, arith,
}
use storage_engine.Base.Words.{
  shl, shr, bit_not32, in_block, clear_low, shl_add, shl_one-pow, block-le, shl_one-le,
}
use storage_engine.DashTable.Segment.Defs.{Policy, Segment}
use storage_engine.DashTable.Segment.Splitting.{split}
use storage_engine.DashTable.Table.Defs.{Table, segment_at, construct_segment, new_segment, fill}
use storage_engine.DashTable.Table.Directory.{chunk_size, start_idx, target_id, split_segment}
use storage_engine.DashTable.Table.Routing.{IsDirectory, slack, entry-Fits}

module _ {ℓ} {K V : Type ℓ} (p : Policy) (k₀ : K) (v₀ : V) (hash_fn : K → ℕ) (t : Table K V)
    (seg_id : ℕ) where
  -- The segment that is split, the address of the new one, and the two halves.
  abbrev pub source : ℕ
  source = t.segment seg_id

  abbrev pub local : ℕ
  local = (t.store source).local_depth

  abbrev pub halved : Segment K V × Segment K V
  halved = split p hash_fn (t.store source) (new_segment k₀ v₀ (local + 1) (target_id t seg_id))

  -- How many low bits the halves do not look at, and what the entries of the new one have above.
  abbrev pub low : ℕ
  low = t.global_depth - (local + 1)

  abbrev pub odd : ℕ
  odd = shr seg_id (t.global_depth - local) + shr seg_id (t.global_depth - local) + 1

  -- What is at every entry and every address after the split.
  pub record Divides (t' : Table K V) : Type ℓ where
    pub global : t'.global_depth ≡ t.global_depth
    pub size : t'.directory_size ≡ t.directory_size
    pub next : t'.next_address ≡ t.next_address + 1
    pub number : t'.size ≡ t.size
    pub entry : (r : ℕ) → t'.segment r ≡ (if shr r low == odd then t.next_address else t.segment r)
    pub at_target : t'.store t.next_address ≡ halved.1
    pub at_source : t'.store source ≡ halved.0
    pub elsewhere : (a : ℕ) → a ≢ t.next_address → a ≢ source → t'.store a ≡ t.store a

  module _ (dir : IsDirectory t) (lt : seg_id < t.directory_size) (room : local < t.global_depth)
      (small : t.global_depth < 32) where
    start-block : start_idx t seg_id ≡ shl (shr seg_id (slack t seg_id)) (slack t seg_id)
    unfolding start_idx chunk_size
    start-block =
        let below : seg_id < shl 1 t.global_depth = omega (arith, lt, dir.size) in
        clear_low seg_id (slack t seg_id) (entry-Fits seg_id t.global_depth below dir.small)

    -- The entries that change are a block.
    first-block : target_id t seg_id ≡ shl odd low
    unfolding target_id chunk_size shl
    first-block =
        let a = shr seg_id (slack t seg_id) in
        let deeper : slack t seg_id ≡ suc low = omega (arith, room) in
        let start = start-block ∙ ap (shl a) deeper in
        let chunk = ap (shl 1) deeper in
        omega (arith, start, chunk, shl_add (a + a) 1 low, shl_add a a low)

    length-block : start_idx t seg_id + chunk_size t seg_id - target_id t seg_id ≡ shl 1 low
    unfolding target_id chunk_size shl
    length-block =
        let deeper : slack t seg_id ≡ suc low = omega (arith, room) in
        let chunk = ap (shl 1) deeper in omega (arith, chunk)

    -- The sum at which the loop ends does not wrap around.
    end-block :
        (start_idx t seg_id + chunk_size t seg_id) % 2 ^ 32
        ≡ start_idx t seg_id + chunk_size t seg_id
    unfolding chunk_size
    end-block =
        let below : seg_id < shl 1 t.global_depth = omega (arith, lt, dir.size) in
        let last = block-le seg_id t.global_depth (slack t seg_id) (omega (arith, room)) below in
        let word = shl_one-le t.global_depth 31 (omega (arith, small)) in
        omega (arith, start-block, last, word, shl_one-pow 31)

    changed :
        (r : ℕ)
        → let tid = target_id t seg_id in
          leb tid r && ltb r (tid + ((start_idx t seg_id + chunk_size t seg_id) % 2 ^ 32 - tid))
          ≡ (shr r low == odd)
    changed r =
        let tid = target_id t seg_id in
        let len = start_idx t seg_id + chunk_size t seg_id - tid in
        ap (λ e. leb tid r && ltb r (tid + (e - tid))) end-block
        ∙ ap (λ x. leb x r && ltb r (x + len)) first-block
        ∙ ap (λ y. leb (shl odd low) r && ltb r (shl odd low + y)) length-block
        ∙ in_block r odd low

    old : source ≢ t.next_address
    old e = omega (arith, e, dir.used seg_id lt)

    -- `Split` of the table, at an entry whose segment has more than one, in a directory of less than
    -- 2 ^ 32 entries.
    pub split_segment-Divides : Divides (split_segment p k₀ v₀ hash_fn seg_id t)
    unfolding split_segment construct_segment
    split_segment-Divides =
        let target = t.next_address in
        let fresh = new_segment k₀ v₀ (local + 1) (target_id t seg_id) in
        let store1 = update t.store target fresh in
        let same : split p hash_fn (store1 source) (store1 target) ≡ halved =
          ap (λ s. split p hash_fn s (store1 target)) (update_ne t.store target source fresh old)
          ∙ ap (split p hash_fn (t.store source)) (update_self t.store target fresh) in
        let out = split p hash_fn (store1 source) (store1 target) in
        let store2 = update store1 source (out.0) in
        record {
          global = refl;
          size = refl;
          next = refl;
          number = refl;
          entry = λ r. ap (λ (b : Bool). if b then target else t.segment r) (changed r);
          at_target = update_self store2 target (out.1) ∙ ap (λ r. r.1) same;
          at_source =
              update_ne store2 target source (out.1) old
              ∙ update_self store1 source (out.0)
              ∙ ap (λ r. r.0) same;
          elsewhere = λ a ne ne'.
              update_ne store2 target a (out.1) ne
              ∙ update_ne store1 source a (out.0) ne'
              ∙ update_ne t.store target a fresh ne;
        }
