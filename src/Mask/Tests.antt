-- ===== src/Mask/Tests.antt =====
-- Masking of three bytes.
use wsd.Prelude.{ℕ, List, [], ◌∷◌}

abbrev sample : List ℕ
sample = 1 ∷ 255 ∷ 0 ∷ []

abbrev key : ℕ
key = 0xcafebabe
