-- ===== src/DashTable/Segment.antt =====
-- `Segment` of src/sharding/DashTable/dash_internal.hpp: `bucket_num` regular buckets and four
-- stash buckets. An entry stands in the bucket of its hash, in the next one (then it is marked as
-- probing), or in a stash bucket, to which its own bucket then holds a reference.
pub mod Defs
pub mod Placement
pub mod Contents
pub mod Lookup
pub mod Insertion
pub mod Pointers
pub mod Removal
pub mod Deletion
pub mod Found
pub mod Stash
pub mod Misses
pub mod Complete
pub mod Map
pub mod Rewriting
pub mod Splitting
pub mod Traversal
unfoldable pub use Defs.*
unfoldable pub use Lookup.*
unfoldable pub use Insertion.*
unfoldable pub use Removal.*
unfoldable pub use Splitting.*
unfoldable pub use Traversal.*
