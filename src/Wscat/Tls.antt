-- ===== src/Wscat/Tls.antt =====
-- TLS in wscat, src/wscat.c: wssk_tls_handshake_read, wssk_tls_handshake_write, wssk_tls_handshake,
-- wssk_tls_read and wssk_tls_write. What SSL_do_handshake, SSL_read and SSL_write return, and what
-- SSL_get_error says about it, is an argument.
mod Tests
use wsd.Prelude.{ℕ, ◌+◌, Bool, true, false, ◌==◌, if◌then◌else◌, Option, none, some, List}
use wsd.Skb.{Skb, rdsz, wrsz, write, rd_forward, compact}
use wsd.Types.{Errno, checkerrno, eagain, Rv, ok, fail, Sk}
use wsd.Sock.{
  turn_on_epollin, turn_on_epollout, turn_off_epollin, turn_off_epollout, with_sendbuf,
  with_recvbuf,
}
use wsd.Wscat.Request.{RequestConfig, create_http_req}

-- A call of the library: done, with what it yields, or the error of SSL_get_error.
pub data Ssl (A : Type 0) : Type 0 where
  done : A → Ssl A
  want_read want_write zero_return other : Ssl A

-- The socket, and whether `sk->ops->read` and `write` are those of the handshake.
pub record Tls : Type 0 where
  pub sk : Sk
  pub handshaking : Bool

-- `false` is -1 with wsd_errno as it was. `done` starts the HTTP request.
unfoldable pub wssk_tls_handshake : RequestConfig → Ssl Unit → Tls → Bool × Tls
wssk_tls_handshake cfg (done _) t = (
  true,
  record {
    sk = turn_on_epollin (turn_on_epollout (create_http_req cfg t.sk));
    handshaking = false;
  },
)
wssk_tls_handshake cfg want_read t = (true, record t { sk = turn_on_epollin t.sk })
wssk_tls_handshake cfg want_write t = (true, record t { sk = turn_on_epollout t.sk })
wssk_tls_handshake cfg zero_return t = (false, t)
wssk_tls_handshake cfg other t = (false, t)

abbrev pub wssk_tls_handshake_read : RequestConfig → Ssl Unit → Tls → Bool × Tls
wssk_tls_handshake_read cfg ssl t =
    wssk_tls_handshake cfg ssl (record t { sk = turn_off_epollin t.sk })

abbrev pub wssk_tls_handshake_write : RequestConfig → Ssl Unit → Tls → Bool × Tls
wssk_tls_handshake_write cfg ssl t =
    wssk_tls_handshake cfg ssl (record t { sk = turn_off_epollout t.sk })

-- SSL_read with room in the buffer: the bytes, at least one.
unfoldable pub tls_received : Ssl (List ℕ) → Tls → Rv × Tls
tls_received (done bytes) t = (ok, record t { sk = with_recvbuf t.sk (write t.sk.recvbuf bytes) })
tls_received want_read t = (ok, t)
tls_received want_write t = (ok, record { sk = turn_on_epollout t.sk; handshaking = true })
tls_received zero_return t = (fail checkerrno, t)
tls_received other t = (fail checkerrno, t)

unfoldable pub wssk_tls_read : Ssl (List ℕ) → Tls → Rv × Tls
wssk_tls_read ssl t =
    if wrsz t.sk.recvbuf == 0
    then (fail eagain, record t { sk = turn_off_epollin t.sk })
    else tls_received ssl t

-- SSL_write with bytes in the buffer: the number it took, at least one.
unfoldable pub tls_sent : Ssl ℕ → Tls → Rv × Tls
tls_sent (done n) t =
    (ok, record t { sk = with_sendbuf t.sk (compact (rd_forward t.sk.sendbuf n)) })
tls_sent want_write t = (ok, t)
tls_sent want_read t = (ok, record { sk = turn_on_epollin t.sk; handshaking = true })
tls_sent zero_return t = (fail checkerrno, t)
tls_sent other t = (fail checkerrno, t)

unfoldable pub wssk_tls_write : Ssl ℕ → Tls → Rv × Tls
wssk_tls_write ssl t =
    if rdsz t.sk.sendbuf == 0
    then (fail eagain, record t { sk = turn_off_epollout t.sk })
    else tls_sent ssl t
