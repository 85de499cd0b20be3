-- ===== src/Net/IoBuf.antt =====
-- `TcpBuffer` of net/base/io_buf.hpp and net/base/io_buf.cpp: a vector of bytes whose part from
-- `read_index` to `write_index` is still to be read. The assertions on indices are the hypotheses
-- of the theorems; `readv` of a file descriptor is the list of the bytes that it delivers.
pub mod Layout
pub mod Queue
use storage_engine.Base.{
  ℕ, ◌+◌, ◌-◌, List, ◌++◌, Option, none, some, ltb, leb, if◌then◌else◌, length, take, drop,
  replicate,
}

pub record IoBuf : Type 0 where
  pub buffer : List ℕ
  pub prepend_size : ℕ
  pub read_index : ℕ
  pub write_index : ℕ

-- The constructor.
unfoldable pub make : ℕ → ℕ → IoBuf
make initial_size prepend_size = record {
  buffer = replicate (prepend_size + initial_size) 0;
  prepend_size = prepend_size;
  read_index = prepend_size;
  write_index = prepend_size;
}

abbrev pub readable_size : IoBuf → ℕ
readable_size b = b.write_index - b.read_index

abbrev pub writable_size : IoBuf → ℕ
writable_size b = length b.buffer - b.write_index

abbrev pub prependable_size : IoBuf → ℕ
prependable_size b = b.read_index

-- `readView`: the bytes that are still to be read.
abbrev pub read_view : IoBuf → List ℕ
read_view b = take (readable_size b) (drop b.read_index b.buffer)

-- `std::copy` of `bytes` to the place `at`.
abbrev pub copy_to : List ℕ → ℕ → List ℕ → List ℕ
copy_to bytes at buffer = take at buffer ++ (bytes ++ drop (at + length bytes) buffer)

-- `std::vector::resize`.
abbrev pub resize : ℕ → List ℕ → List ℕ
resize n buffer = take n buffer ++ replicate (n - length buffer) 0

unfoldable pub reuse_prependable_space : IoBuf → IoBuf
reuse_prependable_space b = record b {
  buffer = copy_to (read_view b) b.prepend_size b.buffer;
  read_index = b.prepend_size;
  write_index = b.prepend_size + readable_size b;
}

unfoldable pub expend : ℕ → IoBuf → IoBuf
expend size b =
    let moved = reuse_prependable_space b in
    if ltb (size + b.prepend_size) (writable_size b + prependable_size b)
    then moved
    else record moved { buffer = resize (moved.write_index + size) (moved.buffer) }

-- `ensure_appendable` and `ensureWritableBytes`.
unfoldable pub ensure_appendable : ℕ → IoBuf → IoBuf
ensure_appendable size b = if ltb (writable_size b) size then expend size b else b

-- `hasWritten` and `move_write_index`.
unfoldable pub move_write_index : ℕ → IoBuf → IoBuf
move_write_index size b = record b { write_index = b.write_index + size }

unfoldable pub unwrite : ℕ → IoBuf → IoBuf
unwrite size b = record b { write_index = b.write_index - size }

-- `append` in all its forms, and `appendImp`.
unfoldable pub append : List ℕ → IoBuf → IoBuf
append bytes b =
    let b' = ensure_appendable (length bytes) b in
    move_write_index (length bytes)
      (record b' { buffer = copy_to bytes (b'.write_index) (b'.buffer) })

-- `consume` and `move_read_index`.
unfoldable pub consume : ℕ → IoBuf → IoBuf
consume size b =
    if ltb size (readable_size b)
    then record b { read_index = b.read_index + size }
    else record b { read_index = b.prepend_size; write_index = b.prepend_size }

-- The bytes at the pointer that `retrieve` returns; `none` for a null pointer.
unfoldable pub retrieve : ℕ → IoBuf → Option (List ℕ) × IoBuf
retrieve size b =
    if leb size (readable_size b)
    then (some (take size (drop b.read_index b.buffer)), consume size b)
    else (none, b)

unfoldable pub retrieve_all : IoBuf → Option (List ℕ) × IoBuf
unfolding retrieve
retrieve_all b = retrieve (readable_size b) b

-- `appendFormFd`, where `readv` has put `bytes` into the free part and the spare buffer.
unfoldable pub append_from_fd : List ℕ → IoBuf → IoBuf
append_from_fd bytes b =
    let writable = writable_size b in
    let filled = record b { buffer = copy_to (take writable bytes) b.write_index b.buffer } in
    if leb (length bytes) writable
    then move_write_index (length bytes) filled
    else append (drop writable bytes) (record filled { write_index = length (filled.buffer) })

unfoldable pub prepend : List ℕ → IoBuf → IoBuf
prepend bytes b =
    let at = b.read_index - length bytes in
    record b { read_index = at; buffer = copy_to bytes at b.buffer }

unfoldable pub shrink : ℕ → IoBuf → IoBuf
shrink reserve b = record b {
  buffer = resize (readable_size b + reserve + b.prepend_size) b.buffer;
}

-- `clear` and `reset`, which both write the number 8.
unfoldable pub clear : IoBuf → IoBuf
clear b = record b { read_index = 8; write_index = 8 }

-- `swap`, which leaves the constant `prepend_size_` of both.
unfoldable pub swap : IoBuf → IoBuf → IoBuf × IoBuf
swap a b = (record b { prepend_size = a.prepend_size }, record a { prepend_size = b.prepend_size })
