-- ===== src/Commands/SetParams.antt =====
-- `ParseSetParams` and `SetParams` of src/command_layer/string_family.cpp.
pub mod Options
use storage_engine.Base.{
  ℕ, zero, suc, ◌+◌, ◌<◌, ◌≤◌, ◌≡◌, bit_or, Bool, true, false, List, [], ◌∷◌, Option, none, some,
  if◌then◌else◌, length,
}
use storage_engine.Commands.ArgParser.{ArgParser, has_next, has_error, check}

pub record SetParams : Type 0 where
  pub flags : ℕ
  pub expire_after_ms : ℕ

-- `SET_ALWAYS`, `SET_KEEP_EXPIRE` and `SET_EXPIRE_AFTER_MS`.
abbrev pub set_always : ℕ
set_always = 0

abbrev pub set_keep_expire : ℕ
set_keep_expire = 4

abbrev pub set_expire_after_ms : ℕ
set_expire_after_ms = 16

-- `std::variant<SetParams, ErrorReply, NegativeExpire>`; the function never gives the third.
pub data ParsedParams : Type 0 where
  parsed : SetParams → ParsedParams
  error_reply : ParsedParams

-- The loop; `none` where `fuel` rounds do not leave it.
unfoldable pub params_loop : ℕ → ArgParser → SetParams → Option ParsedParams
params_loop zero a sparams = none
params_loop (suc fuel) a sparams =
    let checked = check (b'E' ∷ b'X' ∷ []) a in
    let set =
      params_loop fuel (checked.1)
        (record sparams { flags = bit_or sparams.flags set_expire_after_ms }) in
    let other = params_loop fuel (checked.1) sparams in
    if has_next a
    then if checked.0 then if has_error (checked.1) then some error_reply else set else other
    else some (parsed sparams)

unfoldable pub parse_set_params : ℕ → ArgParser → Option ParsedParams
unfolding params_loop
parse_set_params fuel a = params_loop fuel a (record { flags = set_always; expire_after_ms = 0 })
