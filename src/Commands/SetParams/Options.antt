-- ===== src/Commands/SetParams/Options.antt =====
-- Which options `ParseSetParams` gets through.
use storage_engine.Base.{
  ℕ, zero, suc, ◌+◌, ◌≤◌, ◌<◌, ◌≡◌, ◌≢◌, bit_or, refl, ap, ◌∙◌, Bool, true, false, [], ◌∷◌, none,
  some, ltb, leb, ◌==◌, if◌then◌else◌, length, Bool-cases, inl, inr, arith,
}
use storage_engine.Commands.ArgParser.{ArgParser, check, safe_sv, equals_ignore_case}
use storage_engine.Commands.SetParams.{
  SetParams, parsed, params_loop, parse_set_params, set_expire_after_ms, set_always,
}

-- Argument `i` is `EX`, in any case.
abbrev pub is_ex : ArgParser → ℕ → Bool
is_ex a i = equals_ignore_case (safe_sv i a.args) (b'E' ∷ b'X' ∷ [])

abbrev step : ArgParser → ArgParser
step a = record a { cur_i = a.cur_i + 1 }

-- One round, where there is a next argument.
loop-ex :
    (fuel : ℕ) (a : ArgParser) (sparams : SetParams)
    → a.cur_i < length a.args
    → a.error ≡ false
    → is_ex a a.cur_i ≡ true
    → params_loop (suc fuel) a sparams
      ≡ params_loop fuel
          (step a)
          (record sparams { flags = bit_or sparams.flags set_expire_after_ms })
unfolding params_loop check
loop-ex fuel a sparams lt no_error ex =
    let more : ltb a.cur_i (length a.args) ≡ true = ground arith in
    let room : leb (length a.args) a.cur_i ≡ false = ground arith in
    rw (room, params_loop, ex, more, no_error)

loop-other :
    (fuel : ℕ) (a : ArgParser) (sparams : SetParams)
    → a.cur_i < length a.args
    → a.error ≡ false
    → is_ex a a.cur_i ≡ false
    → params_loop (suc fuel) a sparams ≡ params_loop fuel a sparams
unfolding params_loop check
loop-other fuel a sparams lt no_error other =
    let more : ltb a.cur_i (length a.args) ≡ true = ground arith in
    let room : leb (length a.args) a.cur_i ≡ false = ground arith in
    rw (room, params_loop, other, more, no_error)

loop-stuck :
    (fuel : ℕ) (a : ArgParser) (sparams : SetParams) (j : ℕ)
    → a.error ≡ false
    → a.cur_i ≤ j
    → j < length a.args
    → is_ex a j ≡ false
    → params_loop fuel a sparams ≡ none
unfolding params_loop
loop-stuck zero a sparams j no_error le lt other = refl
loop-stuck (suc fuel) a sparams j no_error le lt other = elim (Bool-cases (is_ex a a.cur_i)) [
  | inl ex ↦
      let ne : a.cur_i ≢ j = λ e. absurd (cc (ap (is_ex a) e, ex, other)) in
      loop-ex fuel a sparams (omega (arith, le, lt)) no_error ex
      ∙ loop-stuck fuel (step a) _ j no_error (omega (arith, le, ne)) lt other
  | inr here ↦
      loop-other fuel a sparams (omega (arith, le, lt)) no_error here
      ∙ loop-stuck fuel a sparams j no_error le lt other
]

-- If any of the arguments that are left is not `EX`, and no error was reported, `ParseSetParams`
-- never returns: no number of rounds leaves its loop.
pub parse_set_params-stuck :
    (fuel : ℕ) (a : ArgParser) (j : ℕ)
    → a.error ≡ false
    → a.cur_i ≤ j
    → j < length a.args
    → is_ex a j ≡ false
    → parse_set_params fuel a ≡ none
unfolding parse_set_params
parse_set_params-stuck fuel a j = loop-stuck fuel a _ j

-- What is left of the arguments, `n` of them, is `EX` throughout.
pub record IsAllEx (n : ℕ) (a : ArgParser) : Type 0 where
  pub no_error : a.error ≡ false
  pub left : a.cur_i + n ≡ length a.args
  pub all : (i : ℕ) → a.cur_i ≤ i → i < length a.args → is_ex a i ≡ true

step-IsAllEx : (n : ℕ) (a : ArgParser) → IsAllEx (suc n) a → IsAllEx n (step a)
step-IsAllEx n a h = record {
  no_error = h.no_error;
  left = omega (arith, h.left);
  all = λ i le lt. h.all i (omega (arith, le)) lt;
}

loop-end :
    (fuel : ℕ) (a : ArgParser) (sparams : SetParams)
    → IsAllEx 0 a
    → params_loop (suc fuel) a sparams ≡ some (parsed sparams)
unfolding params_loop
loop-end fuel a sparams h =
    let no_more : ltb a.cur_i (length a.args) ≡ false = ground (arith, h.left) in
    rw (no_more, params_loop)

abbrev expiring : SetParams
expiring = record { flags = set_expire_after_ms; expire_after_ms = 0 }

loop-IsAllEx :
    (n fuel : ℕ) (a : ArgParser)
    → IsAllEx n a
    → n < fuel
    → params_loop fuel a expiring ≡ some (parsed expiring)
loop-IsAllEx n zero a h lt = absurd (omega (arith, lt))
loop-IsAllEx zero (suc fuel) a h lt = loop-end fuel a expiring h
loop-IsAllEx (suc n) (suc fuel) a h lt =
    let room : a.cur_i < length a.args = omega (arith, h.left) in
    loop-ex fuel a expiring room h.no_error (h.all a.cur_i (omega arith) room)
    ∙ loop-IsAllEx n fuel (step a) (step-IsAllEx n a h) (omega (arith, lt))

-- If the `n` arguments that are left are all `EX`, and no error was reported, `ParseSetParams` returns within `n + 1` rounds:
-- the flag for an expiry is set if there is any, and the time of the expiry is 0.
pub parse_set_params-IsAllEx :
    (n fuel : ℕ) (a : ArgParser)
    → IsAllEx n a
    → n < fuel
    → parse_set_params fuel a
      ≡ some (
          parsed (record {
            flags = if n == 0 then set_always else set_expire_after_ms;
            expire_after_ms = 0;
          }))
unfolding parse_set_params
parse_set_params-IsAllEx n zero a h lt = absurd (omega (arith, lt))
parse_set_params-IsAllEx zero (suc fuel) a h lt = loop-end fuel a _ h
parse_set_params-IsAllEx (suc n) (suc fuel) a h lt =
    let room : a.cur_i < length a.args = omega (arith, h.left) in
    let some_left : (suc n == 0) ≡ false = ground arith in
    rw some_left (
      loop-ex fuel a (record { flags = set_always; expire_after_ms = 0 }) room h.no_error
        (h.all a.cur_i (omega arith) room)
      ∙ loop-IsAllEx n fuel (step a) (step-IsAllEx n a h) (omega (arith, lt)))
