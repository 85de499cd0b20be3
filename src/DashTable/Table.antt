-- ===== src/DashTable/Table.antt =====
-- `DashTable` of src/sharding/DashTable/dash_table.hpp, with `DashTableBase`: a directory of
-- pointers to segments, indexed by the high bits of a hash.
pub mod Defs
pub mod Directory
pub mod Fresh
pub mod Access
pub mod Keys
pub mod Rewriting
pub mod Routing
pub mod Division
pub mod Doubling
pub mod Growth
pub mod Construction
pub mod Traversal
