-- ===== src/Net/Resp.antt =====
-- `RESP_Buf::ParseRESP` of src/redis/facade/resp_buf.hpp. A position in the buffer is the list of
-- the bytes from there to the write index. The two counters are numbers without a bound: the
-- source's `int64_t` is meant, which holds numbers below 2 ^ 63.
pub mod Parse
pub mod Commands
use storage_engine.Base.{
  ℕ, zero, suc, ◌+◌, ◌-◌, ◌*◌, Bool, true, false, ◌&&◌, not, List, [], ◌∷◌, ◌++◌, Option, none,
  some, ltb, leb, ◌==◌, if◌then◌else◌, length, take, drop,
}
use storage_engine.Net.IoBuf.{IoBuf, read_view, consume}

-- `std::isdigit`.
abbrev pub is_digit : ℕ → Bool
is_digit c = leb b'0' c && leb c b'9'

-- The loop over decimal digits: the number, and the rest. The source keeps the number in an `int64_t`,
-- which holds it as long as it is below 2 ^ 63; digits that say more are not modelled.
unfoldable pub read_number : ℕ → List ℕ → ℕ × List ℕ
read_number num [] = (num, [])
read_number num (c ∷ cs) =
    let more = read_number (num * 10 + (c - b'0')) cs in if is_digit c then more else (num, c ∷ cs)

-- `none` where the next two bytes are missing or are not a line end.
unfoldable pub skip_crlf : List ℕ → Option (List ℕ)
skip_crlf [] = none
skip_crlf (c ∷ []) = none
skip_crlf (c ∷ (d ∷ cs)) = if (c == 13) && (d == 10) then some cs else none

-- One round of the loop over elements: it returns, returns with one more element, or goes on.
pub data Round : Type 0 where
  stop : Round
  stop_with : List ℕ → Round
  next : List ℕ → List ℕ → Round

unfoldable pub read_payload : ℕ → List ℕ → Round
read_payload len cs = if ltb (length cs) (len + 2) then stop else elim (skip_crlf (drop len cs)) [
  | some rest ↦ next (take len cs) rest
  | none ↦ stop_with (take len cs)
]

-- Behind the length of an element.
unfoldable pub read_sized : ℕ × List ℕ → Round
unfolding read_payload
read_sized (len, cs) = elim (skip_crlf cs) [ some rest ↦ read_payload len rest | none ↦ stop ]

unfoldable pub read_element : List ℕ → Round
unfolding read_sized
read_element [] = stop
read_element (c ∷ cs) = if c == b'$' then read_sized (read_number 0 cs) else stop

-- The loop; beside the elements, where it ended, if it has read them all.
unfoldable pub read_elements : ℕ → List ℕ → List (List ℕ) × Option (List ℕ)
unfolding read_element
read_elements zero cs = ([], some cs)
read_elements (suc n) cs = elim (read_element cs) [
  | stop ↦ ([], none)
  | stop_with x ↦ (x ∷ [], none)
  | next x rest ↦ let (xs, end) = read_elements n rest in (x ∷ xs, end)
]

-- Behind the number of elements.
unfoldable pub read_array : ℕ × List ℕ → List (List ℕ) × Option (List ℕ)
read_array (n, cs) = elim (skip_crlf cs) [
  | some rest ↦ if n == 0 then ([], none) else read_elements n rest
  | none ↦ ([], none)
]

-- The whole method on the bytes that are to be read.
unfoldable pub parse : List ℕ → List (List ℕ) × Option (List ℕ)
unfolding read_array
parse [] = ([], none)
parse (c ∷ cs) = if c == b'*' then read_array (read_number 0 cs) else ([], none)

-- What the method returns, and the buffer afterwards: bytes are consumed only at the end of a
-- command.
unfoldable pub finish : IoBuf → List (List ℕ) × Option (List ℕ) → List (List ℕ) × IoBuf
finish b (items, some rest) = (items, consume (length (read_view b) - length rest) b)
finish b (items, none) = (items, b)

unfoldable pub parse_resp : IoBuf → List (List ℕ) × IoBuf
unfolding finish
parse_resp b = finish b (parse (read_view b))
