-- ===== src/Recv/Tests.antt =====
-- A backend whose first name is not known.
use wsd.Prelude.{false, ◌+◌, ◌%◌, ℕ, suc, zero, ◌<◌, ◌≡◌, refl, none, some, [], arith}
use wsd.Types.{ok}
use wsd.Io.{Hosts}
use wsd.Child.{World, Opening, no_name, connected, with_backend}
use wsd.Recv.{open_backend}
use wsd.Recv.Backend.{open_backend_finds}

abbrev answers : ℕ → Opening
answers zero = no_name
answers (suc n) = connected 9

abbrev pub two_hosts : Hosts
two_hosts = record { num = 0; fhostname_num = 2 }

abbrev alone : World
alone = record {
  sk_list = [];
  work_list = [];
  sk_hash = [];
  pp2sk = none;
  hosts = two_hosts;
  dangling = false;
}

open_backend_finds_example :
    open_backend 2 answers ok two_hosts alone
    ≡ some (ok, record two_hosts { num = 1 }, with_backend 9 alone)
open_backend_finds_example =
    open_backend_finds 1 2 9 answers ok two_hosts alone refl (omega arith) skipped refl
      (omega arith)
  where
    skipped : (i : ℕ) → i < 1 → answers ((0 + i) % 2) ≡ no_name
    skipped zero lt = refl
    skipped (suc i) lt = absurd (omega arith)
