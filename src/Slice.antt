-- ===== src/Slice.antt =====
-- `DbSlice` of src/sharding/db_slice.hpp and db_slice.cpp: the tables of one shard, and lookup,
-- insertion and expiry of keys in them.
pub mod Results
pub mod Defs
pub mod Find
pub mod Add
pub mod Expire
pub mod Keys
