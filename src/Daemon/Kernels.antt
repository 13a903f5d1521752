-- ===== src/Daemon/Kernels.antt =====
-- A kernel that can be run: its new descriptor is greater than all that are in use.
use wsd.Prelude.{ℕ, suc, ◌+◌, ◌<◌, ◌≡◌, true, false, Bool-cases, inl, inr, List, [], ◌∷◌, arith}
use wsd.Child.{has}
use wsd.Daemon.{Kernel}

abbrev above : List ℕ → ℕ
above [] = 5
above (fd ∷ fds) = suc (fd + above fds)

lt-above : (fd : ℕ) (fds : List ℕ) → has fd fds ≡ true → fd < above fds
unfolding has
lt-above fd [] h = absurd (ground (arith, h))
lt-above fd (x ∷ xs) h = ground (arith, lt-above fd xs)

pub above-new : (fds : List ℕ) → has (above fds) fds ≡ false
above-new fds = elim (Bool-cases (has (above fds) fds)) [
  | inr new ↦ new
  | inl used ↦ absurd (omega (arith, lt-above (above fds) fds used))
]

abbrev pub counting : Kernel
counting = record { new_fd = above; is_new = above-new }
