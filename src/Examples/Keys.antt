-- ===== src/Examples/Keys.antt =====
-- Keys with and without an expiry.
use storage_engine.Base.{◌≡◌, refl, inl, inr, true, [], ◌∷◌, some, length}
use storage_engine.Objects.{CompactObj, from_string, set_string, set_expire_time, move_construct}
use storage_engine.Objects.Expiry.{
  IsKey, Expires, set_expire_time-Expires, Arrives, move_construct-Arrives,
}

abbrev plain : CompactObj
plain = from_string (b'k' ∷ []) true

plain-IsKey : IsKey plain
unfolding from_string set_string
plain-IsKey = inl refl

set_expire_time-Expires_example :
    Expires (λ _. []) 5000 plain (set_expire_time (λ _. []) 5000 plain)
set_expire_time-Expires_example = set_expire_time-Expires (λ _. []) 5000 plain plain-IsKey

abbrev expiring : CompactObj
expiring = set_expire_time (λ s. s) 5000 plain

expiring-IsKey : IsKey expiring
unfolding set_expire_time from_string set_string
expiring-IsKey = inr refl

move_construct-Arrives_example :
    (o' : CompactObj) × (move_construct expiring ≡ some o')
    × Arrives (λ _. 0) (λ s. length s) expiring o'
move_construct-Arrives_example =
    move_construct-Arrives (λ _. 0) (λ s. length s) expiring expiring-IsKey
