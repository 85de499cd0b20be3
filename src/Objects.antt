-- ===== src/Objects.antt =====
-- `CompactObj`, `CompactKey` and `CompactValue` of src/sharding/DashTable/compact_obj.hpp and
-- compact_obj.cpp: a key or a value as a tagged union.
pub mod Expiry
pub mod Store
use storage_engine.Base.{
  ℕ, ◌+◌, Bool, true, false, ◌&&◌, List, [], ◌∷◌, Option, none, some, ◌==◌, if◌then◌else◌,
}
use storage_engine.Base.Int.{ℤ, pos, negsuc}
use storage_engine.Base.Equality.{eq_bytes, eq_int}
use storage_engine.Net.Reply

-- The members of the union have a field each, but for `str_` and `ttl_str_.str_`, which stand at
-- the same place.
pub record CompactObj : Type 0 where
  pub is_key : Bool
  pub tag : ℕ
  pub str : List ℕ
  pub exp_ms : ℕ
  pub ival : ℤ

abbrev pub int_tag : ℕ
int_tag = 17

abbrev pub str_tag : ℕ
str_tag = 18

abbrev pub ttl_str_tag : ℕ
ttl_str_tag = 24

-- `CompactObj(is_key)`.
abbrev pub empty : Bool → CompactObj
empty is_key = record { is_key = is_key; tag = 0; str = []; exp_ms = 0; ival = pos 0 }

-- `Reset`; a string that was destroyed is not read again.
unfoldable pub reset : CompactObj → CompactObj
reset o = record o { tag = 0 }

unfoldable pub set_string : List ℕ → CompactObj → CompactObj
set_string s o = record o { str = s; tag = str_tag }

unfoldable pub set_int : ℤ → CompactObj → CompactObj
set_int n o = record o { ival = n; tag = int_tag }

-- `SetTtlStr`, which leaves the tag.
unfoldable pub set_ttl_str : List ℕ → ℕ → CompactObj → CompactObj
set_ttl_str s ms o = record o { str = s; exp_ms = ms }

-- `CompactKey(str)` and `CompactValue(str)`.
unfoldable pub from_string : List ℕ → Bool → CompactObj
unfolding set_string
from_string s is_key = set_string s (empty is_key)

-- A switch over the tag.
unfoldable pub by_tag {ℓ} : {A : Type ℓ} → ℕ → A → A → A → A → A → A
by_tag tag zero_case int_case str_case ttl_case default =
    if tag == 0
    then zero_case
    else if tag == int_tag
    then int_case
    else if tag == str_tag
    then str_case
    else if tag == ttl_str_tag
    then ttl_case
    else default

-- `operator=` from `o`; `none` where the program stops with a fatal message.
unfoldable pub assign : CompactObj → CompactObj → Option CompactObj
unfolding by_tag set_string set_int set_ttl_str
assign this o =
    by_tag o.tag (some this) (some (set_int o.ival this)) (some (set_string o.str this))
      (some (set_ttl_str o.str o.exp_ms this)) none

-- `CompactObj(CompactObj&&)`.
unfoldable pub move_construct : CompactObj → Option CompactObj
unfolding assign
move_construct o = assign (empty o.is_key) o

-- `std::to_string` of an `int64_t`.
unfoldable pub int_to_string : ℤ → List ℕ
int_to_string (pos n) = Reply.to_string n
int_to_string (negsuc n) = b'-' ∷ Reply.to_string (n + 1)

-- `ToString` and `GetSlice`; `none` where the program stops with a fatal message.
unfoldable pub to_string : CompactObj → Option (List ℕ)
unfolding by_tag int_to_string
to_string o = by_tag o.tag none (some (int_to_string o.ival)) (some o.str) (some o.str) none

-- `operator==` of two objects.
unfoldable pub equals : CompactObj → CompactObj → Option Bool
unfolding by_tag
equals a b =
    if a.tag == b.tag
    then by_tag a.tag (some true) (some (eq_int b.ival a.ival)) (some (eq_bytes b.str a.str))
        (some (eq_bytes b.str a.str && (b.exp_ms == a.exp_ms))) none
    else some false

-- `CompactKey`'s comparison with a string, which does not look at the tag.
unfoldable pub equals_view : CompactObj → List ℕ → Bool
equals_view o s = eq_bytes o.str s

-- `HashCode`, over the library's hash functions.
unfoldable pub hash_code : (ℤ → ℕ) → (List ℕ → ℕ) → CompactObj → Option ℕ
unfolding by_tag
hash_code hash_int hash_str o =
    by_tag o.tag none (some (hash_int o.ival)) (some (hash_str o.str)) (some (hash_str o.str)) none

unfoldable pub has_expire : CompactObj → Bool
has_expire o = o.tag == ttl_str_tag

-- `SetExpireTime`. A key without an expiry has its string assigned to itself by a move, and
-- `self_move` is what the library makes of that string.
unfoldable pub set_expire_time : (List ℕ → List ℕ) → ℕ → CompactObj → CompactObj
set_expire_time self_move ms o =
    if o.tag == ttl_str_tag
    then record o { exp_ms = ms }
    else record o { str = self_move o.str; exp_ms = ms; tag = ttl_str_tag }

unfoldable pub clear_expire_time : CompactObj → Bool × CompactObj
unfolding set_string
clear_expire_time o = if o.tag == ttl_str_tag then (true, set_string o.str o) else (false, o)

unfoldable pub get_expire_time : CompactObj → ℕ
get_expire_time o = if o.tag == ttl_str_tag then o.exp_ms else 0
