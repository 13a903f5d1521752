-- ===== src/Sock.antt =====
-- The event mask of a socket, turn_on_events and turn_off_events of src/common.c, and its start, sk_init. What epoll_ctl
-- does is asserted to succeed, and the mask in `sk` is the one that epoll holds.
use wsd.Prelude.{ℕ, Bool, true, false, if◌then◌else◌}
use wsd.Types.{Sk, Timespec}
use wsd.Skb.{Skb}

abbrev pub turn_on_epollout : Sk → Sk
turn_on_epollout sk = record sk { events = record (sk.events) { epollout = true } }

abbrev pub turn_off_epollout : Sk → Sk
turn_off_epollout sk = record sk { events = record (sk.events) { epollout = false } }

abbrev pub turn_on_epollin : Sk → Sk
turn_on_epollin sk = record sk { events = record (sk.events) { epollin = true } }

abbrev pub turn_off_epollin : Sk → Sk
turn_off_epollin sk = record sk { events = record (sk.events) { epollin = false } }

abbrev pub with_sendbuf : Sk → Skb → Sk
with_sendbuf sk b = record sk { sendbuf = b }

abbrev pub with_recvbuf : Sk → Skb → Sk
with_recvbuf sk b = record sk { recvbuf = b }

-- `if (test) f(sk);`
abbrev pub when : Bool → (Sk → Sk) → Sk → Sk
when true f sk = f sk
when false f sk = sk

-- `if (!(other->events & EPOLLIN)) turn_on_events(sk, EPOLLIN)`, with `armed` the other's bit
abbrev pub rearm : Bool → Sk → Sk
rearm armed sk = record sk {
  events = record (sk.events) { epollin = if armed then sk.events.epollin else true };
}

abbrev pub blank_skb : Skb
blank_skb = record { rdpos = 0; wrpos = 0; bytes = λ _. 0 }

abbrev pub no_time : Timespec
no_time = record { tv_sec = 0; tv_nsec = 0 }

-- `sk_init` on a socket of zeros: buffers of zeros, and the events that it starts with.
unfoldable pub sk_init : ℕ → ℕ → Sk
sk_init fd hash = record {
  fd = fd;
  hash = hash;
  events = record { epollin = true; epollpri = true; epollrdhup = true; epollout = false };
  sendbuf = blank_skb;
  recvbuf = blank_skb;
  retries = 0;
  close_on_write = false;
  close = false;
  closing = false;
  upgraded = false;
  ts_last_io = no_time;
  ts_closing_handshake_start = no_time;
  src_addr = record { sin_addr = 0; sin_port = 0 };
  dst_addr = record { sin_addr = 0; sin_port = 0 };
}
