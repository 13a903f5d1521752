-- ===== src/Timeout.antt =====
-- Timeouts: check_timeout and has_timed_out of src/common.c, check_timeouts and
-- check_closing_handshake_timeout of src/wschild.c. A timeout in milliseconds is an `int`, written as
-- the word of 32 bits that holds it.
pub mod Laws
mod Tests
use wsd.Prelude.{
  ℕ, ◌+◌, ◌-◌, ◌*◌, ◌/◌, ◌%◌, ◌^◌, Bool, true, false, ◌&&◌, ◌||◌, not, ltb, leb, ◌==◌,
  if◌then◌else◌, Option, none, some,
}
use wsd.Types.{Rv, ok, fail, Timespec, Sk}
use wsd.Io.{Life, kept, closed}
use wsd.Ws.Control.{ws_ping, start_closing_handshake}

-- The milliseconds as an `unsigned long`, from signed differences; `/ 1000000` rounds to zero.
abbrev pub diff_in_millis : Timespec → Timespec → ℕ
diff_in_millis instant now =
    let secs = (now.tv_sec + 2 ^ 64 - instant.tv_sec) % 2 ^ 64 * 1000 % 2 ^ 64 in
    if leb instant.tv_nsec now.tv_nsec
    then (secs + (now.tv_nsec - instant.tv_nsec) / 1000000) % 2 ^ 64
    else (secs + 2 ^ 64 - (instant.tv_nsec - now.tv_nsec) / 1000000) % 2 ^ 64

-- -1
abbrev pub minus_one : ℕ
minus_one = 2 ^ 32 - 1

-- `0 < n`
abbrev pub is_positive : ℕ → Bool
is_positive n = ltb 0 n && ltb n (2 ^ 31)

-- An `int` as an `unsigned long`, as which it is compared.
abbrev pub widen : ℕ → ℕ
widen n = if ltb n (2 ^ 31) then n else n + (2 ^ 64 - 2 ^ 32)

unfoldable pub has_timed_out : Timespec → Timespec → ℕ → Bool
has_timed_out instant now timeout = ltb (widen timeout) (diff_in_millis instant now)

unfoldable pub check_timeout : Sk → Timespec → ℕ → Bool
check_timeout sk now timeout =
    if timeout == minus_one
    then false
    else if sk.closing || sk.close || sk.close_on_write
    then false
    else if sk.ts_last_io.tv_sec == 0 && sk.ts_last_io.tv_nsec == 0
    then false
    else has_timed_out sk.ts_last_io now timeout

-- `none` is the failed `A(0 < timeout)`.
unfoldable pub check_closing_handshake_timeout : Sk → Timespec → ℕ → Option Bool
check_closing_handshake_timeout sk now timeout =
    if not (is_positive timeout)
    then none
    else if not sk.closing
    then some false
    else some (has_timed_out sk.ts_closing_handshake_start now timeout)

-- What wsd_config_t says about time.
pub record Times : Type 0 where
  pub idle_timeout : ℕ
  pub ping_interval : ℕ
  pub closing_handshake_timeout : ℕ

abbrev pub ws_1000 : ℕ
ws_1000 = 1000

unfoldable pub is_idle : Times → Timespec → Sk → Bool
is_idle times now sk =
    not (times.idle_timeout == minus_one) && check_timeout sk now times.idle_timeout

-- The first part. Before the websocket handshake the functions of `sk->proto` are null. For
-- the backend's socket `start_closing_handshake` stays null and `ping` does nothing.
unfoldable pub on_idle : Times → Timespec → Sk → Option Life
on_idle times now sk =
    if not (is_idle times now sk)
    then some (kept sk)
    else if not sk.upgraded
    then some (closed sk)
    else elim (start_closing_handshake sk ws_1000 false) [
      | none ↦ none
      | some (fail e, sk') ↦ some (closed sk')
      | some (ok, sk') ↦ some (kept (record sk' { ts_closing_handshake_start = now }))
    ]

-- The last part; what ping returns is ignored. `none` is also the call of a null function.
unfoldable pub ping_if_due : Times → Timespec → Sk → Option Life
ping_if_due times now sk =
    if not (check_timeout sk now times.ping_interval)
    then some (kept sk)
    else if not sk.upgraded
    then none
    else elim (ws_ping sk false) [ none ↦ none | some (rv, sk') ↦ some (kept sk') ]

unfoldable pub close_or_ping : Times → Timespec → Sk → Option Life
close_or_ping times now sk =
    elim (check_closing_handshake_timeout sk now times.closing_handshake_timeout) [
      | none ↦ none
      | some true ↦ some (closed sk)
      | some false ↦ ping_if_due times now sk
    ]

-- `check_timeouts` of a client's socket.
unfoldable pub check_timeouts : Times → Timespec → Sk → Option Life
check_timeouts times now sk = elim (on_idle times now sk) [
  | none ↦ none
  | some (closed sk') ↦ some (closed sk')
  | some (kept sk') ↦ close_or_ping times now sk'
]

-- The same of the backend's socket, whose `ping` is pp2_nop.
unfoldable pub check_backend_timeouts : Times → Timespec → Sk → Option Life
check_backend_timeouts times now sk = elim (on_idle times now sk) [
  | none ↦ none
  | some (closed sk') ↦ some (closed sk')
  | some (kept sk') ↦
      elim (check_closing_handshake_timeout sk' now times.closing_handshake_timeout) [
        | none ↦ none
        | some true ↦ some (closed sk')
        | some false ↦ some (kept sk')
      ]
]
