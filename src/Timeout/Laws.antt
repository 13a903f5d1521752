-- ===== src/Timeout/Laws.antt =====
-- When a timeout has passed, and that checking the timeouts does not end the process.
use wsd.Prelude.{
  ℕ, ◌+◌, ◌*◌, ◌^◌, ◌≤◌, ◌<◌, ◌≡◌, ◌≢◌, true, false, ltb, ltb→le, Option, none, some, Bool-cases,
  inl, inr, arith,
}
use wsd.Skb.Contents.{IsValid, room, write-IsValid}
use wsd.Types.{Timespec, Sk}
use wsd.Ws.Header.{ws_ping_frame}
use wsd.Ws.Control.{ws_ping, start_closing_handshake}
use wsd.Ws.Control.Bytes.{close_frame, length-close_frame, encode_ping_pong_frame_lem}
use wsd.Ws.Control.Closing.{start_closing_handshake_lem}
use wsd.Io.{Life, kept, closed}
use wsd.Timeout.{
  has_timed_out, check_timeout, check_closing_handshake_timeout, Times, is_idle, on_idle,
  ping_if_due, close_or_ping, check_timeouts,
}

-- A time of the clock, with seconds below 2 ^ 40, in nanoseconds.
pub record IsTime (t : Timespec) : Type 0 where
  pub secs : t.tv_sec < 2 ^ 40
  pub nanos : t.tv_nsec < 1000000000

abbrev pub in_nanos : Timespec → ℕ
in_nanos t = t.tv_sec * 1000000000 + t.tv_nsec

-- Of two clock times in order: if the timeout is taken as passed, more time than it has passed.
pub has_timed_out-late :
    (instant now : Timespec) (timeout : ℕ)
    → IsTime instant
    → IsTime now
    → timeout < 2 ^ 31
    → in_nanos instant ≤ in_nanos now
    → has_timed_out instant now timeout ≡ true
    → in_nanos instant + timeout * 1000000 < in_nanos now
unfolding has_timed_out
has_timed_out-late instant now timeout t u small h e = ground arith

-- Of two clock times: from one millisecond after the timeout on it is taken as passed.
pub has_timed_out-due :
    (instant now : Timespec) (timeout : ℕ)
    → IsTime instant
    → IsTime now
    → timeout < 2 ^ 31
    → in_nanos instant + timeout * 1000000 + 1000000 ≤ in_nanos now
    → has_timed_out instant now timeout ≡ true
unfolding has_timed_out
has_timed_out-due instant now timeout t u small h = ground arith

check_timeout-open :
    (sk : Sk) (now : Timespec) (t : ℕ) → check_timeout sk now t ≡ true → sk.closing ≡ false
unfolding check_timeout
check_timeout-open sk now t h = ground arith

is_idle-open :
    (times : Times) (now : Timespec) (sk : Sk) → is_idle times now sk ≡ true → sk.closing ≡ false
unfolding is_idle
is_idle-open times now sk h = ground (arith, check_timeout-open sk now times.idle_timeout)

ws_ping-sends : (sk : Sk) → IsValid sk.sendbuf → sk.closing ≡ false → ws_ping sk false ≢ none
unfolding ws_ping
ws_ping-sends sk v c =
    ground (arith, encode_ping_pong_frame_lem sk.sendbuf ws_ping_frame false v (omega arith))

ping_if_due-total :
    (times : Times) (now : Timespec) (sk : Sk)
    → sk.upgraded ≡ true
    → IsValid sk.sendbuf
    → ping_if_due times now sk ≢ none
unfolding ping_if_due
ping_if_due-total times now sk up v =
    ground (arith, check_timeout-open sk now times.ping_interval, ws_ping-sends sk v)

close_or_ping-total :
    (times : Times) (now : Timespec) (sk : Sk)
    → sk.upgraded ≡ true
    → IsValid sk.sendbuf
    → 0 < times.closing_handshake_timeout
    → times.closing_handshake_timeout < 2 ^ 31
    → close_or_ping times now sk ≢ none
unfolding close_or_ping check_closing_handshake_timeout
close_or_ping-total times now sk up v pos small =
    ground (arith, ping_if_due-total times now sk up v)

-- What is left of a socket whose idle time has been checked.
abbrev Checked : Option Life → Type 0
Checked none = ⊥
Checked (some (closed sk)) = Unit
Checked (some (kept sk)) = (sk.upgraded ≡ true) × IsValid sk.sendbuf

on_idle-Checked :
    (times : Times) (now : Timespec) (sk : Sk)
    → sk.upgraded ≡ true
    → IsValid sk.sendbuf
    → Checked (on_idle times now sk)
unfolding on_idle start_closing_handshake
on_idle-Checked times now sk up v = elim (Bool-cases (is_idle times now sk)) [
  | inr quiet ↦ rw quiet (up, v)
  | inl idle ↦
      let c = is_idle-open times now sk idle in
      rw (idle, up, on_idle)
        (rw (start_closing_handshake_lem sk 1000 false v) (
          rw c (elim (Bool-cases (ltb (room sk.sendbuf) 4)) [
            | inl full ↦ rw full tt
            | inr free ↦ rw free (
              up,
              write-IsValid (close_frame 1000 false) v
                  (omega (arith, ltb→le (room sk.sendbuf) 4 free, length-close_frame 1000 false)),
            )
          ])))
]

-- For a socket that has been upgraded, with a valid send buffer and a positive closing timeout, the
-- check of the timeouts never ends the process: neither ping nor the closing handshake is started
-- while the closing handshake is under way.
pub check_timeouts-total :
    (times : Times) (now : Timespec) (sk : Sk)
    → sk.upgraded ≡ true
    → IsValid sk.sendbuf
    → 0 < times.closing_handshake_timeout
    → times.closing_handshake_timeout < 2 ^ 31
    → check_timeouts times now sk ≢ none
unfolding check_timeouts
check_timeouts-total times now sk up v pos small =
    go (on_idle times now sk) (on_idle-Checked times now sk up v)
  where
    go :
        (r : Option Life)
        → Checked r
        → elim r [
          | none ↦ none
          | some (closed sk') ↦ some (closed sk')
          | some (kept sk') ↦ close_or_ping times now sk'
        ]
          ≢ none
    go none c = absurd c
    go (some (closed sk')) c = λ e. ground arith
    go (some (kept sk')) c = close_or_ping-total times now sk' c.0 c.1 pos small
