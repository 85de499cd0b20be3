-- ===== src/DashTable.antt =====
-- The hash table of src/sharding/DashTable: slot bitmaps, buckets, segments, the directory.
pub mod SlotBitmap
pub mod Bucket
pub mod Segment
pub mod Cursor
pub mod Table
