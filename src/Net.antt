-- ===== src/Net.antt =====
-- Bytes in and out: the buffer of net/base/io_buf, the command parser of
-- src/redis/facade/resp_buf.hpp and the replies of src/redis/facade/reply_builder.hpp.
pub mod IoBuf
pub mod Resp
pub mod Reply
