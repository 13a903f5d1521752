-- ===== src/Io.antt =====
-- Socket I/O and the dispatch of epoll events, src/common.c. What read(2) and write(2) return is an
-- argument: `none` for -1, and the bytes or their number. `errno` is known as the answer to the test
-- of check_errno.
pub mod Laws
mod Tests
use wsd.Prelude.{
  ℕ, ◌+◌, ◌%◌, Bool, true, false, ◌&&◌, ◌||◌, not, ltb, leb, ◌==◌, if◌then◌else◌, Option, none,
  some, List, [], ◌∷◌,
}
use wsd.Skb.{Skb, rdsz, wrsz, write, rd_forward, compact}
use wsd.Types.{Errno, checkerrno, eagain, einput, Rv, ok, fail, Timespec, Sk}
use wsd.Sock.{turn_off_epollin, turn_off_epollout, with_sendbuf, with_recvbuf}

unfoldable pub sk_read : Option (List ℕ) → Sk → Rv × Sk
sk_read r sk = if wrsz sk.recvbuf == 0 then (fail eagain, turn_off_epollin sk) else elim r [
  | none ↦ (fail checkerrno, sk)
  | some [] ↦ (fail checkerrno, sk)
  | some (c ∷ cs) ↦ (ok, with_recvbuf sk (write sk.recvbuf (c ∷ cs)))
]

unfoldable pub sk_write : Option ℕ → Sk → Rv × Sk
sk_write r sk = if rdsz sk.sendbuf == 0 then (fail eagain, turn_off_epollout sk) else elim r [
  | none ↦ (fail checkerrno, sk)
  | some len ↦ (ok, with_sendbuf sk (compact (rd_forward sk.sendbuf len)))
]

-- A socket that is kept, or one that `sk->ops->close` has been called on.
pub data Life : Type 0 where
  kept closed : Sk → Life

-- `ts_last_io_set`
abbrev pub ts_last_io_set : Sk → Timespec → Sk
ts_last_io_set sk now = record sk { ts_last_io = now }

-- `0 > rv && wsd_errno != WSD_EAGAIN`
abbrev pub is_fatal : Rv → Bool
is_fatal ok = false
is_fatal (fail eagain) = false
is_fatal (fail e) = true

-- `0 > rv && wsd_errno != WSD_EAGAIN && wsd_errno != WSD_EINPUT`
abbrev pub is_fatal_recv : Rv → Bool
is_fatal_recv (fail einput) = false
is_fatal_recv rv = is_fatal rv

unfoldable pub on_write : (Sk → Rv × Sk) → Timespec → Sk → Rv × Life
on_write write now sk =
    let (rv, sk1) = write sk in
    let sk' = ts_last_io_set sk1 now in
    if is_fatal rv
    then (rv, closed sk')
    else if sk'.close_on_write && rdsz sk'.sendbuf == 0
    then (rv, closed sk')
    else if sk'.close
    then (rv, closed sk')
    else (rv, kept sk')

-- `num`, the host that is tried, and `wsd_cfg->fhostname_num`.
pub record Hosts : Type 0 where
  pub num : ℕ
  pub fhostname_num : ℕ

unfoldable pub next_host : Hosts → Hosts
next_host h =
    if leb h.fhostname_num (h.num + 1) then record h { num = 0 } else record h { num = h.num + 1 }

-- `check_errno() == 0`, with its effect: `retry` says whether errno is ECONNREFUSED, EAGAIN,
-- ENETUNREACH or ETIMEDOUT.
unfoldable pub check_errno : Bool → Hosts → Bool × Hosts
check_errno retry h = if retry then (true, next_host h) else (false, h)

abbrev is_checkerrno : Rv → Bool
is_checkerrno (fail checkerrno) = true
is_checkerrno _ = false

-- After a failed read: another host is tried, or the socket is closed. `retries` is a `uint8_t`.
unfoldable pub failed_read : Bool → Rv → Hosts → Sk → Rv × Life × Hosts
failed_read retry rv h sk =
    if not (is_checkerrno rv)
    then (rv, closed sk, h)
    else (let (again, h') = check_errno retry h in
        let sk' = record sk { retries = (sk.retries + 1) % 256 } in
        if not again
        then (rv, closed sk, h')
        else if ltb sk'.retries h'.fhostname_num
        then (ok, kept sk', h')
        else (rv, closed sk', h'))

-- `post_read` on a socket that was read.
unfoldable pub after_read : (Sk → Rv × Sk) → Hosts → Sk → Rv × Life × Hosts
after_read post_read h sk =
    let (rv, sk') = post_read sk in
    if is_fatal_recv rv
    then (rv, closed sk', h)
    else if sk'.close
    then (rv, closed sk', h)
    else (rv, kept sk', h)

-- `none` is a failed assertion.
unfoldable pub on_read :
    (Sk → Rv × Sk) → (Sk → Rv × Sk) → Bool → Timespec → Hosts → Sk → Option (Rv × Life × Hosts)
on_read read post_read retry now h sk =
    if sk.close_on_write || sk.close
    then none
    else (let (rv, sk1) = read sk in
        let sk' = ts_last_io_set sk1 now in
        some (if is_fatal rv then failed_read retry rv h sk' else after_read post_read h sk'))

-- What epoll reports for a socket: EPOLLIN or EPOLLPRI, EPOLLOUT, and one of EPOLLERR, EPOLLHUP and
-- EPOLLRDHUP.
pub record Ready : Type 0 where
  pub input : Bool
  pub output : Bool
  pub hangup : Bool

-- `on_epoll_event`, with on_read and on_write on the socket; only the first of the tests that holds
-- counts. The result of a close alone is 0.
unfoldable pub on_epoll_event :
    (Hosts → Sk → Option (Rv × Life × Hosts))
    → (Sk → Rv × Life)
    → Ready
    → Hosts
    → Sk
    → Option (Rv × Life × Hosts)
on_epoll_event read write evt h sk =
    if evt.input
    then read h sk
    else if evt.output
    then (let (rv, life) = write sk in some (rv, life, h))
    else if evt.hangup
    then some (ok, closed sk, h)
    else some (ok, kept sk, h)
