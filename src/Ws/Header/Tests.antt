-- ===== src/Ws/Header/Tests.antt =====
-- The length of a frame on concrete buffers.
use wsd.Prelude.{ℕ, List, [], ◌∷◌, ◌++◌}
use wsd.Ws.Header.Laws.{ext_bytes}

abbrev sample : List ℕ
sample = ext_bytes 300 ++ (7 ∷ [])
