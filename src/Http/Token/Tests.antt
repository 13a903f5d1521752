-- ===== src/Http/Token/Tests.antt =====
-- The lines of a small request.
use wsd.Prelude.{ℕ, List, [], ◌∷◌}

abbrev name : List ℕ
name = b'H' ∷ b'-' ∷ []

abbrev value : List ℕ
value = 0x20 ∷ b'x' ∷ []
