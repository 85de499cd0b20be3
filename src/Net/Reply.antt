-- ===== src/Net/Reply.antt =====
-- The replies of src/redis/facade/reply_builder.hpp, as lists of bytes.
use storage_engine.Base.{
  ℕ, zero, suc, ◌+◌, ◌/◌, ◌%◌, List, [], ◌∷◌, ◌++◌, ltb, if◌then◌else◌, length,
}
use storage_engine.Base.Int.{ℤ, pos, negsuc}

-- `std::to_string` of a number below `10 ^ rounds`, in front of `acc`.
unfoldable pub digits_before : ℕ → ℕ → List ℕ → List ℕ
digits_before zero n acc = acc
digits_before (suc rounds) n acc =
    let acc' = (b'0' + n % 10) ∷ acc in
    let more = digits_before rounds (n / 10) acc' in if ltb n 10 then acc' else more

-- Twenty digits are enough for 64 bits.
unfoldable pub to_string : ℕ → List ℕ
unfolding digits_before
to_string n = digits_before 20 n []

abbrev pub crlf : List ℕ
crlf = 13 ∷ 10 ∷ []

unfoldable pub build_null : List ℕ
build_null = b'$' ∷ b'-' ∷ b'1' ∷ crlf

unfoldable pub build_simple_string : List ℕ → List ℕ
build_simple_string s = b'+' ∷ (s ++ crlf)

unfoldable pub build_error : List ℕ → List ℕ
build_error err = b'-' ∷ b'E' ∷ b'R' ∷ b'R' ∷ b' ' ∷ (err ++ crlf)

unfoldable pub build_integer : ℤ → List ℕ
unfolding to_string
build_integer (pos n) = b':' ∷ (to_string n ++ crlf)
build_integer (negsuc n) = b':' ∷ b'-' ∷ (to_string (n + 1) ++ crlf)

unfoldable pub build_bulk_string : List ℕ → List ℕ
unfolding to_string build_null
build_bulk_string [] = build_null
build_bulk_string (c ∷ cs) = b'$' ∷ (to_string (length (c ∷ cs)) ++ (crlf ++ ((c ∷ cs) ++ crlf)))

-- The loop of `BuildArray` over the items.
unfoldable pub build_items : List (List ℕ) → List ℕ
unfolding build_simple_string
build_items [] = []
build_items (x ∷ xs) = build_simple_string x ++ build_items xs

unfoldable pub build_array : List (List ℕ) → List ℕ
unfolding to_string build_items
build_array items = b'*' ∷ (to_string (length items) ++ (crlf ++ build_items items))
