-- ===== src/Memory.antt =====
-- Byte arrays (`char data[]`, and what a `char *` points into) as functions from the index.
pub mod Laws
use wsd.Prelude.{ℕ, zero, suc, ◌+◌, ◌==◌, ◌≡◌, if◌then◌else◌, List, [], ◌∷◌}

abbrev pub Memory : Type 0
Memory = ℕ → ℕ

-- `m[i] = v`
abbrev pub store : Memory → ℕ → ℕ → Memory
store m i v j = if j == i then v else m j

-- The bytes of `vs` stored from index `i` on.
unfoldable pub store_list : Memory → ℕ → List ℕ → Memory
store_list m i [] = m
store_list m i (v ∷ vs) = store_list (store m i v) (i + 1) vs

-- The `n` bytes from index `i` on.
unfoldable pub window : Memory → ℕ → ℕ → List ℕ
window m i zero = []
window m i (suc n) = m i ∷ window m (i + 1) n
