-- ===== src/Examples/Options.antt =====
-- Arguments of SET.
use storage_engine.Base.{ℕ, ◌≡◌, refl, List, [], ◌∷◌, some, none, arith}
use storage_engine.Commands.ArgParser.{ArgParser, make, safe_sv, equals_ignore_case}
use storage_engine.Commands.SetParams.{parse_set_params, parsed, set_expire_after_ms}
use storage_engine.Commands.SetParams.Options.{
  IsAllEx, parse_set_params-stuck, parse_set_params-IsAllEx,
}

abbrev key_and_value : List (List ℕ)
key_and_value = (b'k' ∷ []) ∷ (b'v' ∷ []) ∷ (b'e' ∷ b'x' ∷ []) ∷ []

-- `EX 10`, behind the key and the value.
abbrev with_time : ArgParser
with_time = make ((b'E' ∷ b'X' ∷ []) ∷ (b'1' ∷ b'0' ∷ []) ∷ [])

parse_set_params-stuck_example : parse_set_params 1000 with_time ≡ none
unfolding safe_sv equals_ignore_case
parse_set_params-stuck_example =
    parse_set_params-stuck 1000 with_time 1 refl (omega arith) (omega arith) refl

abbrev just_ex : ArgParser
just_ex = make ((b'e' ∷ b'X' ∷ []) ∷ [])

just_ex-IsAllEx : IsAllEx 1 just_ex
unfolding safe_sv equals_ignore_case
just_ex-IsAllEx = record {
  no_error = refl;
  left = refl;
  all = λ i _ lt. let e : i ≡ 0 = omega (arith, lt) in rw e refl;
}

parse_set_params-IsAllEx_example :
    parse_set_params 2 just_ex
    ≡ some (parsed (record { flags = set_expire_after_ms; expire_after_ms = 0 }))
parse_set_params-IsAllEx_example =
    parse_set_params-IsAllEx 1 2 just_ex just_ex-IsAllEx (omega arith)
