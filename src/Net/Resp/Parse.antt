-- ===== src/Net/Resp/Parse.antt =====
-- What `ParseRESP` reads: whole commands, whole commands with more behind, and the beginnings of
-- commands whose rest has not arrived.
use storage_engine.Base.{
  ℕ, suc, ◌+◌, ◌-◌, ◌*◌, ◌<◌, ◌≡◌, refl, sym, ap, ◌∙◌, true, false, List, [], ◌∷◌, ◌++◌, none, some,
  ltb, ◌==◌, length, length-append, take-append, drop-append, arith,
}
use mathlib.Core.List.{append_assoc}
use storage_engine.Net.Resp.{
  is_digit, read_number, skip_crlf, next, read_payload, read_sized, read_element, read_elements,
  read_array, parse,
}

-- A non-empty run of digits, and the number that it is after `num`.
abbrev pub AllDigits : List ℕ → Type 0
AllDigits [] = Unit {0}
AllDigits (c ∷ cs) = (is_digit c ≡ true) × AllDigits cs

unfoldable pub value : ℕ → List ℕ → ℕ
value num [] = num
value num (c ∷ cs) = value (num * 10 + (c - b'0')) cs

abbrev pub crlf : List ℕ
crlf = 13 ∷ 10 ∷ []

-- The protocol's bulk string: `$`, the length of the item in digits, a line end, the item, and a
-- line end.
pub data Bulk : List ℕ → List ℕ → Type 0 where
  bulk :
      (item digits : List ℕ)
      → AllDigits digits
      → value 0 digits ≡ length item
      → Bulk item (b'$' ∷ (digits ++ (crlf ++ (item ++ crlf))))

-- Several of them, one behind the other.
pub data Bulks : List (List ℕ) → List ℕ → Type 0 where
  no_more : Bulks [] []
  more :
      {item bytes : List ℕ} {items : List (List ℕ)} {rest : List ℕ}
      → Bulk item bytes
      → Bulks items rest
      → Bulks (item ∷ items) (bytes ++ rest)

read_number-digits :
    (num : ℕ) (digits rest : List ℕ)
    → AllDigits digits
    → read_number num (digits ++ (13 ∷ rest)) ≡ (value num digits, 13 ∷ rest)
unfolding read_number value
read_number-digits num [] rest all = refl
read_number-digits num (c ∷ cs) rest all =
    rw (all.0) (read_number-digits (num * 10 + (c - b'0')) cs rest (all.1))

read_payload-item :
    (item rest : List ℕ) → read_payload (length item) (item ++ (crlf ++ rest)) ≡ next item rest
unfolding read_payload skip_crlf
read_payload-item item rest =
    let enough : ltb (length (item ++ (crlf ++ rest))) (length item + 2) ≡ false =
      ground (arith, length-append item (crlf ++ rest)) in
    rw (
      enough,
      drop-append item (crlf ++ rest) (length item) refl,
      take-append item (crlf ++ rest) (length item) refl,
    )

read_element-number :
    (cs rest : List ℕ) (len : ℕ)
    → read_number 0 cs ≡ (len, crlf ++ rest)
    → read_element (b'$' ∷ cs) ≡ read_payload len rest
unfolding read_element read_sized skip_crlf
read_element-number cs rest len e = ap read_sized e

-- One element, whatever stands behind it.
read_element-Bulk :
    {item bytes : List ℕ}
    → Bulk item bytes
    → (rest : List ℕ) → read_element (bytes ++ rest) ≡ next item rest
read_element-Bulk (bulk item digits all len) rest =
    let shape : (digits ++ (crlf ++ (item ++ crlf))) ++ rest
        ≡ digits ++ (crlf ++ (item ++ (crlf ++ rest))) =
      simp append_assoc in
    read_element-number _ (item ++ (crlf ++ rest)) (length item) (
      ap (read_number 0) shape
      ∙ read_number-digits 0 digits (10 ∷ (item ++ (crlf ++ rest))) all
      ∙ ap (λ n. (n, crlf ++ (item ++ (crlf ++ rest)))) len)
    ∙ read_payload-item item rest

-- Enough elements, whatever stands behind them.
read_elements-Bulks :
    {items : List (List ℕ)} {bytes : List ℕ}
    → Bulks items bytes
    → (rest : List ℕ) → read_elements (length items) (bytes ++ rest) ≡ (items, some rest)
unfolding read_elements
read_elements-Bulks no_more rest = refl
read_elements-Bulks (more {item = item} {bytes = bytes} {items = items} {rest = bytes'} b bs) rest =
    let e = read_element-Bulk b (bytes' ++ rest) in
    let ih = read_elements-Bulks bs rest in
    rw (append_assoc bytes bytes' rest, e, read_elements, ih)

-- Too few of them, and then nothing: the loop stops with those that it has.
read_elements-short :
    {items : List (List ℕ)} {bytes : List ℕ}
    → Bulks items bytes
    → (missing : ℕ) → read_elements (length items + suc missing) bytes ≡ (items, none)
unfolding read_elements read_element
read_elements-short no_more missing =
    let e : length {A = List ℕ} [] + suc missing ≡ suc missing = omega arith in rw e
read_elements-short (more {item = item} {bytes = bytes} {items = items} {rest = bytes'} b bs)
      missing =
    let e : suc (length items) + suc missing ≡ suc (length items + suc missing) = omega arith in
    let e' = read_element-Bulk b bytes' in
    let ih = read_elements-short bs missing in rw (e, e', read_elements, ih)

read_array-suc :
    (n : ℕ) (rest : List ℕ) → read_array (suc n, crlf ++ rest) ≡ read_elements (suc n) rest
unfolding read_array skip_crlf
read_array-suc n rest = let e : (suc n == 0) ≡ false = ground arith in rw (e, read_array)

module _ {items : List (List ℕ)} {bytes : List ℕ} (bs : Bulks items bytes) (digits : List ℕ)
    (all : AllDigits digits) where
  parse-header :
      (n : ℕ) (rest : List ℕ)
      → value 0 digits ≡ suc n
      → parse (b'*' ∷ (digits ++ (crlf ++ rest))) ≡ read_elements (suc n) rest
  unfolding parse
  parse-header n rest e =
      ap read_array (read_number-digits 0 digits (10 ∷ rest) all ∙ ap (λ m. (m, crlf ++ rest)) e)
      ∙ read_array-suc n rest

  -- `ParseRESP` on a whole command, an array header with its number of elements and then that many
  -- bulk strings, at least one, gives those elements and leaves whatever bytes stand behind the
  -- command.
  pub parse-command :
      (rest : List ℕ)
      → value 0 digits ≡ length items
      → 0 < length items
      → parse (b'*' ∷ (digits ++ (crlf ++ (bytes ++ rest)))) ≡ (items, some rest)
  parse-command rest e some_item =
      let e' : length items ≡ suc (length items - 1) = omega (arith, some_item) in
      parse-header (length items - 1) (bytes ++ rest) (e ∙ e')
      ∙ ap (λ n. read_elements n (bytes ++ rest)) (sym e')
      ∙ read_elements-Bulks bs rest

  -- `ParseRESP` on a command whose buffer ends behind some of the bulk strings that its header
  -- promises returns those that are there and consumes nothing.
  pub parse-incomplete :
      (missing : ℕ)
      → value 0 digits ≡ length items + suc missing
      → parse (b'*' ∷ (digits ++ (crlf ++ bytes))) ≡ (items, none)
  parse-incomplete missing e =
      let e' : length items + suc missing ≡ suc (length items + missing) = omega arith in
      parse-header (length items + missing) bytes (e ∙ e')
      ∙ ap (λ n. read_elements n bytes) (sym e')
      ∙ read_elements-short bs missing
