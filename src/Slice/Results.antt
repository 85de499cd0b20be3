-- ===== src/Slice/Results.antt =====
-- `OpStatus` and `OpResult` of src/sharding/op_status.hpp.
use storage_engine.Base.{Bool, true, false, if◌then◌else◌}

pub data OpStatus : Type 0 where
  ok key_notfound wrong_type skipped : OpStatus

-- `operator==(OpStatus)`.
unfoldable pub is_status : OpStatus → OpStatus → Bool
is_status ok ok = true
is_status ok _ = false
is_status key_notfound key_notfound = true
is_status key_notfound _ = false
is_status wrong_type wrong_type = true
is_status wrong_type _ = false
is_status skipped skipped = true
is_status skipped _ = false

-- A status with a value, which is there whatever the status is.
pub record OpResult {ℓ} (A : Type ℓ) : Type ℓ where
  pub st : OpStatus
  pub v : A

module _ {ℓ} {A : Type ℓ} where
  unfoldable pub is_ok : OpResult A → Bool
  unfolding is_status
  is_ok r = is_status r.st ok

  -- The constructor from a value.
  abbrev pub of_value : A → OpResult A
  of_value v = record { st = ok; v = v }

  -- The constructor from a status, with the value that `v_{}` gives.
  abbrev pub of_status : A → OpStatus → OpResult A
  of_status d st = record { st = st; v = d }

  unfoldable pub value_or : A → OpResult A → A
  unfolding is_ok
  value_or d r = if is_ok r then r.v else d
