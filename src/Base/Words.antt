-- ===== src/Base/Words.antt =====
-- Machine words as native numbers: shifts, masks, complements, `__builtin_popcount` and
-- `__builtin_ctz`. The laws are in the children, one bit at a time.
pub mod Digits
pub mod Bits
pub mod Count
pub mod Pairs
pub mod Blocks
pub use Bits.*
pub use Count.*
pub use Pairs.*
pub use Blocks.*
unfoldable pub use Digits.{
  testbit, shl, shr, low_mask, bit_not32, shl32, u8, popcount, ctz, word_of,
}
