-- ===== src/Net/Resp/Commands.antt =====
-- `ParseRESP` on a buffer: commands leave it one by one.
use storage_engine.Base.{
  ℕ, suc, ◌+◌, ◌-◌, ◌^◌, ◌<◌, ◌≡◌, refl, sym, ap, ◌∙◌, List, ◌∷◌, ◌++◌, some, length, length-append,
  drop, drop-append, subst, arith,
}
use mathlib.Core.List.{append_assoc}
use storage_engine.Net.IoBuf.{IoBuf, read_view}
use storage_engine.Net.IoBuf.Layout.{IsValid}
use storage_engine.Net.IoBuf.Queue.{Contains, consume-Contains}
use storage_engine.Net.Resp.{parse, parse_resp, finish}
use storage_engine.Net.Resp.Parse.{AllDigits, value, crlf, Bulks, parse-command, parse-incomplete}

-- The bytes of a command: its header with these digits, and then its elements.
abbrev pub command : List ℕ → List ℕ → List ℕ
command digits bytes = b'*' ∷ (digits ++ (crlf ++ bytes))

command-append :
    (digits bytes rest : List ℕ) → command digits bytes ++ rest ≡ command digits (bytes ++ rest)
command-append digits bytes rest = simp append_assoc

-- A result of `parse` that is at the end of a command.
finished :
    (b : IoBuf) (items : List (List ℕ)) (front rest : List ℕ)
    → IsValid b
    → read_view b ≡ front ++ rest
    → parse (read_view b) ≡ (items, some rest)
    → ((parse_resp b).0 ≡ items) × Contains rest ((parse_resp b).1)
unfolding parse_resp finish
finished b items front rest v view e =
    let size = ap length view ∙ length-append front rest in
    let n : ℕ = length (read_view b) - length rest in
    let (ok, left) = consume-Contains b n v (omega arith) in
    let there : drop n (read_view b) ≡ rest =
      ap (drop n) view ∙ drop-append front rest n (omega (arith, size)) in
    subst (λ r. ((finish b r).0 ≡ items) × Contains rest ((finish b r).1)) (sym e)
      (refl, (ok, left ∙ there))

-- `ParseRESP` on a valid buffer that holds a whole command of at least one element and any bytes
-- behind it gives the command's elements, and leaves a valid buffer that holds just those bytes.
pub parse_resp-command :
    {items : List (List ℕ)} {bytes : List ℕ}
    → Bulks items bytes
    → (digits : List ℕ) → AllDigits digits
    → (rest : List ℕ) (b : IoBuf) → IsValid b
    → value 0 digits ≡ length items
    → 0 < length items
    → read_view b ≡ command digits bytes ++ rest
    → ((parse_resp b).0 ≡ items) × Contains rest ((parse_resp b).1)
parse_resp-command {items} {bytes} bs digits all rest b v e some_item view =
    finished b items (command digits bytes) rest v view (
      ap parse (view ∙ command-append digits bytes rest)
      ∙ parse-command bs digits all rest e some_item)

-- `ParseRESP` on a buffer that holds the beginning of a command whose header says a number below
-- 2 ^ 63, up to the end of some of its elements, returns these elements as if they were a command, and leaves the buffer as it is.
pub parse_resp-incomplete :
    {items : List (List ℕ)} {bytes : List ℕ}
    → Bulks items bytes
    → (digits : List ℕ) → AllDigits digits
    → value 0 digits < 2 ^ 63
    → (missing : ℕ) (b : IoBuf) → value 0 digits ≡ length items + suc missing
    → read_view b ≡ command digits bytes
    → parse_resp b ≡ (items, b)
unfolding parse_resp finish
parse_resp-incomplete {items} {bytes} bs digits all small missing b e view =
    ap (finish b) (ap parse view ∙ parse-incomplete bs digits all missing e)
