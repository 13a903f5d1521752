-- ===== src/Wscat/Frame/Tests.antt =====
-- Frames of wscat at concrete inputs.
use wsd.Prelude.{ℕ, List, [], ◌∷◌}

-- The first byte of a text frame, 126, and one of the two bytes of the length.
abbrev half : List ℕ
half = 0x81 ∷ 126 ∷ 1 ∷ []
