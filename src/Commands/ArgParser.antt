-- ===== src/Commands/ArgParser.antt =====
-- `CmdArgParser` of src/command_layer/cmd_arg_parser.hpp. Arguments are lists of bytes. `Next` of
-- several types is modelled at the two sorts of arguments that the commands ask for, strings and
-- `int64_t`.
pub mod Position
use storage_engine.Base.{
  ℕ, zero, suc, ◌+◌, ◌-◌, ◌*◌, ◌%◌, ◌^◌, Bool, true, false, ◌&&◌, not, List, [], ◌∷◌, Option, none,
  some, ltb, leb, ◌==◌, if◌then◌else◌, length, drop,
}
use storage_engine.Base.Int.{ℤ, pos, negsuc}

-- `error` says whether `error_` is `HAS_ERROR`.
pub record ArgParser : Type 0 where
  pub args : List (List ℕ)
  pub cur_i : ℕ
  pub error : Bool

abbrev pub make : List (List ℕ) → ArgParser
make args = record { args = args; cur_i = 0; error = false }

-- `SafeSV`: an empty string past the end.
unfoldable pub safe_sv : ℕ → List (List ℕ) → List ℕ
safe_sv i [] = []
safe_sv zero (x ∷ xs) = x
safe_sv (suc i) (x ∷ xs) = safe_sv i xs

unfoldable pub report : ArgParser → ArgParser
report a = record a { error = true; cur_i = length a.args }

abbrev pub peek : ArgParser → List ℕ
peek a = safe_sv a.cur_i a.args

abbrev pub has_next : ArgParser → Bool
has_next a = ltb a.cur_i (length a.args) && not a.error

abbrev pub has_error : ArgParser → Bool
has_error a = a.error

abbrev pub has_at_least : ℕ → ArgParser → Bool
has_at_least i a = not a.error && leb i (length a.args - a.cur_i)

abbrev pub tail : ArgParser → List (List ℕ)
tail a = drop a.cur_i a.args

-- `std::tolower` on ASCII letters.
abbrev pub to_lower : ℕ → ℕ
to_lower c = if leb b'A' c && leb c b'Z' then c + 32 else c

-- `EqualsIgnoreCaseStd` of net/util/Strings.hpp.
unfoldable pub equals_ignore_case : List ℕ → List ℕ → Bool
equals_ignore_case [] [] = true
equals_ignore_case [] (d ∷ ds) = false
equals_ignore_case (c ∷ cs) [] = false
equals_ignore_case (c ∷ cs) (d ∷ ds) = (to_lower c == to_lower d) && equals_ignore_case cs ds

-- The digits that `std::from_chars` reads: their number, and what stands behind them.
unfoldable pub scan_digits : ℕ → List ℕ → ℕ × List ℕ
scan_digits num [] = (num, [])
scan_digits num (c ∷ cs) =
    let more = scan_digits (num * 10 + (c - b'0')) cs in
    if leb b'0' c && leb c b'9' then more else (num, c ∷ cs)

-- Some digits, all of the rest of the argument, within the bound.
unfoldable pub whole_number : ℕ → List ℕ → Option ℕ
unfolding scan_digits
whole_number bound [] = none
whole_number bound (c ∷ cs) =
    let (num, rest) = scan_digits 0 (c ∷ cs) in
    elim rest [ [] ↦ if leb num bound then some num else none | d ∷ ds ↦ none ]

-- `std::from_chars` for `int64_t`, where it reads the whole argument.
unfoldable pub from_chars : List ℕ → Option ℤ
unfolding whole_number
from_chars [] = none
from_chars (c ∷ cs) =
    if c == b'-'
    then elim (whole_number (2 ^ 63) cs) [
      | some zero ↦ some (pos 0)
      | some (suc n) ↦ some (negsuc n)
      | none ↦ none
    ]
    else elim (whole_number (2 ^ 63 - 1) (c ∷ cs)) [ some n ↦ some (pos n) | none ↦ none ]

-- `Num`.
unfoldable pub num : ℕ → ArgParser → ℤ × ArgParser
num idx a = elim (from_chars (safe_sv idx a.args)) [ some n ↦ (n, a) | none ↦ (pos 0, report a) ]

-- `Next<std::string_view>`.
unfoldable pub next : ArgParser → List ℕ × ArgParser
next a =
    if leb (length a.args) a.cur_i
    then ([], report a)
    else (safe_sv a.cur_i a.args, record a { cur_i = a.cur_i + 1 })

-- `Next<int64_t>`: the index moves on before the conversion, which may report.
unfoldable pub next_num : ArgParser → ℤ × ArgParser
unfolding num
next_num a =
    if leb (length a.args) a.cur_i
    then (pos 0, report a)
    else num a.cur_i (record a { cur_i = a.cur_i + 1 })

-- `Next<std::string_view, std::string_view>`.
unfoldable pub next_two : ArgParser → (List ℕ × List ℕ) × ArgParser
next_two a =
    if leb (length a.args) (a.cur_i + 1)
    then (([], []), report a)
    else ((safe_sv a.cur_i a.args, safe_sv (a.cur_i + 1) a.args), record a { cur_i = a.cur_i + 2 })

-- `NextOrDefault<std::string_view>`.
unfoldable pub next_or_default : List ℕ → ArgParser → List ℕ × ArgParser
next_or_default default a = if has_next a then next a else (default, a)

-- `MapImpl`: the value of the first tag that the argument equals.
unfoldable pub map_impl {ℓ} : {A : Type ℓ} → List ℕ → List (List ℕ × A) → Option A
map_impl arg [] = none
map_impl arg ((tag, value) ∷ cases) =
    let rest = map_impl arg cases in if equals_ignore_case arg tag then some value else rest

-- `MapNext`; `default` is the value that the type's constructor gives.
unfoldable pub map_next {ℓ} : {A : Type ℓ} → A → List (List ℕ × A) → ArgParser → A × ArgParser
map_next default cases a =
    let a' = record a { cur_i = a.cur_i + 1 } in
    if leb (length a.args) a.cur_i
    then (default, report a)
    else elim (map_impl (safe_sv a.cur_i a.args) cases) [
      | some value ↦ (value, a')
      | none ↦ (default, report a')
    ]

unfoldable pub try_map_next {ℓ} :
    {A : Type ℓ} → List (List ℕ × A) → ArgParser → Option A × ArgParser
try_map_next cases a =
    if leb (length a.args) a.cur_i
    then (none, a)
    else elim (map_impl (safe_sv a.cur_i a.args) cases) [
      | some value ↦ (some value, record a { cur_i = a.cur_i + 1 })
      | none ↦ (none, a)
    ]

unfoldable pub check : List ℕ → ArgParser → Bool × ArgParser
check tag a =
    if leb (length a.args) a.cur_i
    then (false, a)
    else if equals_ignore_case (safe_sv a.cur_i a.args) tag
    then (true, record a { cur_i = a.cur_i + 1 })
    else (false, a)

-- `Skip`, whose sum is one of two `size_t`.
unfoldable pub skip : ℕ → ArgParser → ArgParser
skip n a =
    let sum = (a.cur_i + n) % 2 ^ 64 in
    if ltb (length a.args) sum then report a else record a { cur_i = sum }
