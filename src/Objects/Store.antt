-- ===== src/Objects/Store.antt =====
-- The keys and values of a database: `CompactKey` and `CompactValue` as what the slice and the commands
-- call, with `PrimeTablePolicy` of src/sharding/DashTable/table_policy.hpp.
use storage_engine.Base.{
  ℕ, ◌≡◌, refl, sym, ap, ◌∙◌, true, false, List, [], Option, none, some, ◌==◌, Bool-cases, inl, inr,
  arith,
}
use storage_engine.Base.Int.{ℤ}
use storage_engine.Base.Equality.{eq_bytes, eq_bytes_sound}
use storage_engine.Objects
use storage_engine.Objects.{
  CompactObj, by_tag, set_string, from_string, to_string, equals_view, hash_code, set_expire_time,
  clear_expire_time, empty,
}
use storage_engine.Objects.Expiry.{IsKey}
use storage_engine.Slice.Defs.{ObjectOps}
use storage_engine.Slice.Keys.{IsTextual}
use storage_engine.Commands.Values.{KeepsTexts}

abbrev pub Key : Type 0
Key = (o : CompactObj) × IsKey o

-- What a result is where the program does not stop.
abbrev pub result {ℓ} : {A : Type ℓ} → A → Option A → A
result a none = a
result a (some x) = x

pub set_expire_time-IsKey :
    (self_move : List ℕ → List ℕ) (ms : ℕ) (o : CompactObj) → IsKey (set_expire_time self_move ms o)
unfolding set_expire_time
set_expire_time-IsKey self_move ms o = elim (Bool-cases (o.tag == 24)) [
  | inl e ↦ inr (ground (arith, e))
  | inr e ↦ inr (ground (arith, e))
]

pub clear_expire_time-IsKey : (o : CompactObj) → IsKey o → IsKey ((clear_expire_time o).1)
unfolding clear_expire_time set_string
clear_expire_time-IsKey o (inl is_str) = inl (rw is_str refl)
clear_expire_time-IsKey o (inr is_ttl) = inl (rw is_ttl refl)

pub from_string-IsKey : (w : List ℕ) → IsKey (from_string w true)
unfolding from_string set_string
from_string-IsKey w = inl refl

module _ (hash_int : ℤ → ℕ) (hash_str : List ℕ → ℕ) (self_move : List ℕ → List ℕ) where
  -- A key has a hash, and a value that was set has a text; the other results stand for a stop.
  abbrev pub object_ops : ObjectOps Key CompactObj
  object_ops = record {
    key_of_view = λ w. (from_string w true, from_string-IsKey w);
    equals_view = λ k w. equals_view (k.0) w;
    hash_key = λ k. result 0 (hash_code hash_int hash_str (k.0));
    hash_view = hash_str;
    has_expire = λ k. Objects.has_expire (k.0);
    get_expire_time = λ k. Objects.get_expire_time (k.0);
    set_expire_time =
        λ ms k. (set_expire_time self_move ms (k.0), set_expire_time-IsKey self_move ms (k.0));
    clear_expire_time = λ k. ((clear_expire_time (k.0)).1, clear_expire_time-IsKey (k.0) (k.1));
    empty_value = empty false;
    value_of_view = λ w. from_string w false;
    set_string = set_string;
    to_string = λ v. result [] (to_string v);
    obj_type = λ _. 0;
  }

  hash_key-str : (k : Key) → object_ops.hash_key k ≡ hash_str ((k.0).str)
  unfolding hash_code by_tag
  hash_key-str (o, inl is_str) = rw is_str refl
  hash_key-str (o, inr is_ttl) = rw is_ttl refl

  clear_expire_time-str : (k : Key) → ((clear_expire_time (k.0)).1).str ≡ (k.0).str
  unfolding clear_expire_time set_string
  clear_expire_time-str (o, inl is_str) = rw is_str refl
  clear_expire_time-str (o, inr is_ttl) = rw is_ttl refl

  pub object_ops-IsTextual : IsTextual object_ops
  unfolding equals_view
  object_ops-IsTextual = record {
    one_name =
        λ k w w' e e'. sym (eq_bytes_sound ((k.0).str) w e) ∙ eq_bytes_sound ((k.0).str) w' e';
    hash = λ k w e. hash_key-str k ∙ ap hash_str (eq_bytes_sound ((k.0).str) w e);
  }

  -- `ClearExpireTime` keeps the text and the hash of every key, and a value gives back what was set.
  pub object_ops-KeepsTexts : KeepsTexts object_ops
  unfolding equals_view to_string by_tag set_string
  object_ops-KeepsTexts = record {
    clear_text = λ k w. ap (λ s. eq_bytes s w) (clear_expire_time-str k);
    clear_hash = λ k.
        hash_key-str (object_ops.clear_expire_time k)
        ∙ ap hash_str (clear_expire_time-str k)
        ∙ sym (hash_key-str k);
    stored = λ w v. refl;
  }
