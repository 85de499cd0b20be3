-- ===== src/Commands/ArgParser/Position.antt =====
-- Where an argument parser stands, after any sequence of calls.
use storage_engine.Base.{
  ℕ, ◌+◌, ◌^◌, ◌≤◌, ◌<◌, ◌≡◌, refl, Bool, true, false, List, if◌then◌else◌, length,
}
use storage_engine.Commands.ArgParser.{
  ArgParser, report, next, next_num, next_two, next_or_default, map_next, try_map_next, check, skip,
}

-- One call that may change the parser; a `Skip` is one whose sum with the index fits in 64 bits.
pub data Call : ArgParser → ArgParser → Type 1 where
  reports : (a : ArgParser) → Call a (report a)
  takes : (a : ArgParser) → Call a ((next a).1)
  takes_num : (a : ArgParser) → Call a ((next_num a).1)
  takes_two : (a : ArgParser) → Call a ((next_two a).1)
  takes_or_default : (a : ArgParser) (default : List ℕ) → Call a ((next_or_default default a).1)
  maps :
      (a : ArgParser) {A : Type 0} (default : A) (cases : List (List ℕ × A))
      → Call a ((map_next default cases a).1)
  tries :
      (a : ArgParser) {A : Type 0} (cases : List (List ℕ × A)) → Call a ((try_map_next cases a).1)
  checks : (a : ArgParser) (tag : List ℕ) → Call a ((check tag a).1)
  skips : (a : ArgParser) (n : ℕ) → a.cur_i + n < 2 ^ 64 → Call a (skip n a)

-- The index is in range, and at the end once an error was reported.
pub record IsWithin (a : ArgParser) : Type 0 where
  pub in_range : a.cur_i ≤ length a.args
  pub stopped : a.error ≡ true → a.cur_i ≡ length a.args

-- From `a` to `b` the arguments stay, the index does not go back, and an error is not forgotten.
pub record Advances (a b : ArgParser) : Type 0 where
  pub same_args : b.args ≡ a.args
  pub forward : a.cur_i ≤ b.cur_i
  pub sticky : a.error ≡ true → b.error ≡ true
  pub within : IsWithin b

abbrev Moves : ArgParser → ArgParser → Type 0
Moves a b = IsWithin a → Advances a b

if-Moves :
    (a : ArgParser) (c : Bool) (x y : ArgParser)
    → (c ≡ true → Moves a x)
    → (c ≡ false → Moves a y)
    → Moves a (if c then x else y)
if-Moves a true x y mx my = mx refl
if-Moves a false x y mx my = my refl
