-- ===== src/Timeout/Tests.antt =====
-- A socket that was last read at 1 s, looked at two seconds later.
use wsd.Prelude.{◌≡◌, ◌≢◌, refl, true, false, none, [], arith}
use wsd.Types.{Timespec, Sk}
use wsd.Timeout.{has_timed_out, minus_one, Times, check_timeouts}
use wsd.Timeout.Laws.{IsTime, check_timeouts-total}
use wsd.Fixtures.{loaded, loaded-IsValid, socket}

abbrev one : Timespec
one = record { tv_sec = 1; tv_nsec = 900000000 }

abbrev later : Timespec
later = record { tv_sec = 3; tv_nsec = 0 }

abbrev one-IsTime : IsTime one
one-IsTime = record { secs = omega arith; nanos = omega arith }

abbrev later-IsTime : IsTime later
later-IsTime = record { secs = omega arith; nanos = omega arith }

passed : has_timed_out one later 1000 ≡ true
unfolding has_timed_out
passed = refl

abbrev sk : Sk
sk = record (socket 5 (loaded []) (loaded [])) { ts_last_io = one; upgraded = true }

abbrev fresh : Sk
fresh = record sk { upgraded = false }

abbrev times : Times
times = record { idle_timeout = minus_one; ping_interval = 1000; closing_handshake_timeout = 5000 }

check_timeouts-total_example : check_timeouts times later sk ≢ none
check_timeouts-total_example =
    check_timeouts-total times later sk refl (loaded-IsValid [] (omega arith)) (omega arith)
      (omega arith)
