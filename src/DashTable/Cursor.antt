-- ===== src/DashTable/Cursor.antt =====
-- `DashCursor` of src/sharding/DashTable/dash_internal.hpp: a place in a traversal as one 64-bit
-- token.
use storage_engine.Base.{ℕ, ◌-◌, bit_and, bit_or, Bool, not, ◌==◌}
use storage_engine.Base.Words.{shl, shr, low_mask}

-- The token; `uint64_t` keeps its low 64 bits.
pub record Cursor : Type 0 where
  pub val : ℕ

unfoldable pub make : ℕ → ℕ → ℕ → Cursor
make depth seg_id bid = record {
  val = bit_or (bit_and (shl seg_id (40 - depth)) (low_mask 64)) bid;
}

abbrev pub end : Cursor
end = record { val = 0 }

unfoldable pub bucket_id : Cursor → ℕ
bucket_id c = bit_and c.val 255

-- The result is a `uint32_t`.
unfoldable pub segment_id : ℕ → Cursor → ℕ
segment_id depth c = bit_and (shr c.val (40 - depth)) (low_mask 32)

-- `explicit operator bool`.
unfoldable pub is_live : Cursor → Bool
is_live c = not (c.val == 0)
