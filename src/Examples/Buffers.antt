-- ===== src/Examples/Buffers.antt =====
-- Byte buffers at concrete inputs.
use storage_engine.Base.{ℕ, ◌≡◌, refl, List, [], ◌∷◌, ◌++◌, length, drop, arith}
use storage_engine.Net.IoBuf.{IoBuf, append, consume, append_from_fd, prepend, read_view}
use storage_engine.Net.IoBuf.Layout.{IsValid}
use storage_engine.Net.IoBuf.Queue.{
  Contains, append-Contains, consume-Contains, append_from_fd-Contains, prepend-read_view,
}
use storage_engine.Net.Resp.{parse_resp}
use storage_engine.Net.Resp.Commands.{command, parse_resp-command, parse_resp-incomplete}
use storage_engine.Net.Resp.Parse.{value}
use storage_engine.Examples.Commands.{get, get_bytes, get-Bulks}

-- Two bytes to read behind a margin of two, and one byte of room.
abbrev small : IoBuf
small = record {
  buffer = 0 ∷ 0 ∷ b'a' ∷ b'b' ∷ 0 ∷ [];
  prepend_size = 2;
  read_index = 2;
  write_index = 4;
}

small-IsValid : IsValid small
small-IsValid = record { margin = omega arith; order = omega arith; in_range = omega arith }

abbrev more_bytes : List ℕ
more_bytes = b'c' ∷ b'd' ∷ b'e' ∷ []

append-Contains_example : Contains (read_view small ++ more_bytes) (append more_bytes small)
append-Contains_example = append-Contains small more_bytes small-IsValid

consume-Contains_example : Contains (drop 1 (read_view small)) (consume 1 small)
consume-Contains_example = consume-Contains small 1 small-IsValid (omega arith)

append_from_fd-Contains_example :
    Contains (read_view small ++ more_bytes) (append_from_fd more_bytes small)
append_from_fd-Contains_example = append_from_fd-Contains small more_bytes small-IsValid

prepend-read_view_example : read_view (prepend (b'z' ∷ []) small) ≡ (b'z' ∷ []) ++ read_view small
prepend-read_view_example = prepend-read_view small (b'z' ∷ []) small-IsValid (omega arith)

-- A buffer that holds just these bytes.
abbrev holding : List ℕ → IoBuf
holding bytes = record {
  buffer = bytes;
  prepend_size = 0;
  read_index = 0;
  write_index = length bytes;
}

abbrev one_and_more : List ℕ
one_and_more = command (b'1' ∷ []) (get_bytes ++ []) ++ (b'*' ∷ [])

parse_resp-command_example :
    ((parse_resp (holding one_and_more)).0 ≡ get ∷ [])
    × Contains (b'*' ∷ []) ((parse_resp (holding one_and_more)).1)
unfolding value
parse_resp-command_example =
    parse_resp-command get-Bulks (b'1' ∷ []) (refl, tt) (b'*' ∷ []) (holding one_and_more)
      (record { margin = omega arith; order = omega arith; in_range = omega arith }) refl
      (omega arith) refl

abbrev one_of_two : List ℕ
one_of_two = command (b'2' ∷ []) (get_bytes ++ [])

parse_resp-incomplete_example : parse_resp (holding one_of_two) ≡ (get ∷ [], holding one_of_two)
unfolding value
parse_resp-incomplete_example =
    parse_resp-incomplete get-Bulks (b'2' ∷ []) (refl, tt) (omega arith) 0 (holding one_of_two) refl
      refl
