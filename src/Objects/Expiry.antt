-- ===== src/Objects/Expiry.antt =====
-- The expiry time of a key, and what becomes of it when the key moves.
use storage_engine.Base.{ℕ, ◌≡◌, ◌⊎◌, refl, true, false, List, none, some, if◌then◌else◌, inl, inr}
use storage_engine.Base.Int.{ℤ}
use storage_engine.Objects.{
  CompactObj, str_tag, ttl_str_tag, set_expire_time, get_expire_time, clear_expire_time, has_expire,
  to_string, move_construct, assign, by_tag, set_string, set_ttl_str, hash_code, empty,
}

-- A key is a string, with an expiry or without.
abbrev pub IsKey : CompactObj → Type 0
IsKey o = (o.tag ≡ str_tag) ⊎ (o.tag ≡ ttl_str_tag)

-- The outcome of giving a key an expiry: it can be read; the text is that of before, if the key had
-- an expiry already, and else what the library makes of a string that is moved to itself; and it
-- stays so when the expiry is cleared.
pub record Expires (self_move : List ℕ → List ℕ) (ms : ℕ) (o o' : CompactObj) : Type 0 where
  pub expires : has_expire o' ≡ true
  pub time : get_expire_time o' ≡ ms
  pub text : to_string o' ≡ (if has_expire o then to_string o else some (self_move o.str))
  pub cleared : has_expire ((clear_expire_time o').1) ≡ false
  pub cleared_text : to_string ((clear_expire_time o').1) ≡ to_string o'

-- `SetExpireTime` on a key, whatever the library makes of a string that is moved to itself: the key
-- then has that expiry; its text is that of before if it had an expiry already, and else the string
-- of before moved to itself; and `ClearExpireTime` takes the expiry away and leaves that text.
pub set_expire_time-Expires :
    (self_move : List ℕ → List ℕ) (ms : ℕ) (o : CompactObj)
    → IsKey o
    → Expires self_move ms o (set_expire_time self_move ms o)
unfolding set_expire_time get_expire_time clear_expire_time has_expire to_string by_tag set_string
set_expire_time-Expires self_move ms o (inl is_str) = record {
  expires = rw is_str refl;
  time = rw is_str refl;
  text = rw is_str refl;
  cleared = rw is_str refl;
  cleared_text = rw is_str refl;
}
set_expire_time-Expires self_move ms o (inr is_ttl) = record {
  expires = rw is_ttl refl;
  time = rw is_ttl refl;
  text = rw is_ttl refl;
  cleared = rw is_ttl refl;
  cleared_text = rw is_ttl refl;
}

-- The outcome of moving a key to a new place: it has no expiry there; and if it had one, it has
-- neither a text nor a hash any more, so that the program stops where it asks for them.
pub record Arrives (hash_int : ℤ → ℕ) (hash_str : List ℕ → ℕ) (o o' : CompactObj) : Type 0 where
  pub no_expiry : has_expire o' ≡ false
  pub text : to_string o' ≡ (if has_expire o then none else to_string o)
  pub hash :
      hash_code hash_int hash_str o'
      ≡ (if has_expire o then none else hash_code hash_int hash_str o)

-- The constructor that moves a key: it succeeds, the new key never has an expiry, and it has the
-- text and the hash of the old one if that had no expiry, and neither of them if it had one.
pub move_construct-Arrives :
    (hash_int : ℤ → ℕ) (hash_str : List ℕ → ℕ) (o : CompactObj)
    → IsKey o
    → (o' : CompactObj) × (move_construct o ≡ some o') × Arrives hash_int hash_str o o'
unfolding move_construct assign by_tag set_string set_ttl_str has_expire to_string hash_code
move_construct-Arrives hash_int hash_str o (inl is_str) = (
  set_string o.str (empty o.is_key),
  rw is_str refl,
  record { no_expiry = refl; text = rw is_str refl; hash = rw is_str refl },
)
move_construct-Arrives hash_int hash_str o (inr is_ttl) = (
  set_ttl_str o.str o.exp_ms (empty o.is_key),
  rw is_ttl refl,
  record { no_expiry = refl; text = rw is_ttl refl; hash = rw is_ttl refl },
)
