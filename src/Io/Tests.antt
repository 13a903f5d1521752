-- ===== src/Io/Tests.antt =====
-- Two bytes are read, and one of two written.
use wsd.Prelude.{ℕ, ◌≡◌, ap, true, List, [], ◌∷◌, length}
use wsd.Skb.Contents.{contents}
use wsd.Types.{Timespec, Sk}
use wsd.Io.{Hosts}
use wsd.Fixtures.{loaded, contents-loaded, socket}

abbrev hi : List ℕ
hi = b'h' ∷ b'i' ∷ []

abbrev idle : Sk
idle = socket 5 (loaded hi) (loaded [])

hi-length : length (contents (loaded hi)) ≡ 2
hi-length = ap length (contents-loaded hi)

abbrev leaving : Sk
leaving = record idle { close_on_write = true }

abbrev noon : Timespec
noon = record { tv_sec = 43200; tv_nsec = 0 }

abbrev hosts : Hosts
hosts = record { num = 1; fhostname_num = 2 }
