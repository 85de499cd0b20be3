-- ===== src/Lib.antt =====
-- An in-memory key-value store that speaks the Redis protocol: commands arrive in a byte buffer,
-- are parsed, and work on a hash table that grows by splitting segments.
--
-- Base: tests on numbers, arrays as functions, lists, searches, and the bits of machine words
-- (Base/Words), which the other modules share.
--
-- DashTable: src/sharding/DashTable/dash_internal.hpp and dash_table.hpp.
--   SlotBitmap is the class of that name: which slots of a bucket are busy, and which of them hold
--   an entry of the bucket before. Its two words are numbers; shifts and complements of a
--   `uint32_t` keep the low 32 bits.
--   Bucket is `BucketBase` (Bucket/Base, Bucket/Stash) and `Segment::Bucket`. Keys and values are
--   arbitrary types, which a move copies (what the moves of `CompactObj` do is in Objects); a
--   moved-out key stays where it was, in a slot that is no longer busy.
--   Segment is the class `Segment`, for any number of slots and buckets that its static
--   assertions allow: insertion (Segment/Insertion), lookup, removal, splitting, traversal.
--   Segment/Stash is the invariant on the references to stash entries, Segment/Complete that a lookup
--   misses nothing under it, Segment/Map the segment as a finite map, and Segment/Splitting the split of
--   such a map into two.
--   Table is `DashTable`: the directory of segments, growth, and the operations on keys. Segments
--   that several directory entries share stand in a store under addresses.
--   Table/Keys is the table as a finite map for lookup and erasure, Table/Routing the order of the
--   directory, Table/Division the split of a segment, Table/Doubling the growth of the directory, and
--   Table/Growth insertion with both.
--   Cursor is `DashCursor`.
--   A callback on moves does nothing in the table's default policy, and is left out. The hash
--   function, the equality of keys and their destruction belong to the table's policy, and are
--   parameters. A method that returns an iterator returns an option.
--
-- Net: net/base/io_buf.hpp and io_buf.cpp (IoBuf), src/redis/facade/resp_buf.hpp (Resp) and
-- src/redis/facade/reply_builder.hpp (Reply). Bytes are numbers below 256 in lists.
--
-- A position in the buffer is the list of the bytes from there on. `read_view` gives the bytes that
-- are to be read, so that the buffer is a queue of bytes to the parser (IoBuf/Queue).
--
-- Objects: `CompactObj` and `CompactKey` of src/sharding/DashTable/compact_obj.hpp and
-- compact_obj.cpp. The library's hash functions are parameters, and so is what a string holds after
-- it was moved to itself. Objects/Store makes the record `ObjectOps` of Slice from them, with the hash and
-- the equality of src/sharding/DashTable/table_policy.hpp.
--
-- Commands: src/command_layer/cmd_arg_parser.hpp (ArgParser) and the options of SET in
-- src/command_layer/string_family.cpp (SetParams).
--
-- Slice: `DbSlice` of src/sharding/db_slice.hpp and db_slice.cpp, with `OpResult` of
-- src/sharding/op_status.hpp. A key is looked up by its text. What it calls of keys and values is
-- the record `ObjectOps`; a proof takes as hypothesis that a key equals one text at most, and has its
-- hash.
--
-- Commands/Strings and Commands/Generic: what the commands of src/command_layer/string_family.cpp
-- and generic_family.cpp do on the slice of a shard.
--
-- Transactions: which shard and which keys a command goes to (src/transaction_layer/transaction.cpp,
-- src/detail/tx_base.hpp, src/sharding/engine_shard_set.cpp). Commands/Handlers has the handlers with
-- their replies, Commands/Registry the table of commands, and Session the loop of
-- src/network/redis_server.hpp; a handler is over there before the next read, and the turn is `none` where the
-- assertion on `debug_com_deal_one_Com` fails.
--
-- Loops over a fixed range count the rounds that are left. The retry loop of `InsertInternal` has
-- fuel, since each of its rounds splits a segment (Table/Growth/Entered counts the rounds, and takes as
-- much fuel); so has the loop over the options of SET, which
-- need not end; decimal printing has twenty rounds, enough for 64 bits.
--
-- Machine words: numbers of the wire (Net/Resp, `int64_t` in the source) and shifts by directory depths
-- are unbounded in the model, and the theorems ask for the bounds under which the source's types hold
-- them, or for the length of a list, which memory bounds. Sums that the source may wrap around have the
-- modulus written out (`% 2 ^ 32`, `% 2 ^ 64`). Where an assertion of the source may fail, the result is
-- `none` (Session), or the theorem asks for the condition (Bucket/Release).
--
-- Not modelled: allocation, threads and coroutines, sockets and the event loop, which do not
-- change what the store computes.
pub mod Base
pub mod DashTable
pub mod Net
pub mod Commands
pub mod Transactions
pub mod Session
pub mod Objects
pub mod Slice
pub mod Examples
