-- ===== src/Examples/Commands.antt =====
-- A command of the protocol, for the examples on buffers.
use storage_engine.Base.{ℕ, refl, List, [], ◌∷◌, ◌++◌}
use storage_engine.Net.Resp.Parse.{value, crlf, bulk, Bulks, no_more, more}

abbrev pub get : List ℕ
get = b'G' ∷ b'E' ∷ b'T' ∷ []

abbrev pub get_bytes : List ℕ
get_bytes = b'$' ∷ ((b'3' ∷ []) ++ (crlf ++ (get ++ crlf)))

pub get-Bulks : Bulks (get ∷ []) (get_bytes ++ [])
unfolding value
get-Bulks = more (bulk get (b'3' ∷ []) (refl, tt) refl) no_more
