-- ===== src/Fixtures.antt =====
-- Buffers, sockets and servers that the tests of the other modules run the code on.
use wsd.Prelude.{ℕ, ◌-◌, ◌≤◌, ◌≡◌, true, false, List, [], ◌∷◌, length, arith}
use wsd.Memory.{store_list}
use wsd.Memory.Laws.{window-store_list}
use wsd.Skb.{Skb, capacity}
use wsd.Skb.Contents.{IsValid, contents}
use wsd.Types.{Sk, Pair}
use wsd.Server.{Server}

-- A buffer with these bytes in it and nothing read.
abbrev pub loaded : List ℕ → Skb
loaded bs = record { rdpos = 0; wrpos = length bs; bytes = store_list (λ _. 0) 0 bs }

-- A buffer with room for `n` more bytes.
abbrev pub nearly_full : ℕ → Skb
nearly_full n = record { rdpos = 0; wrpos = capacity - n; bytes = λ _. 0 }

pub contents-loaded : (bs : List ℕ) → contents (loaded bs) ≡ bs
contents-loaded bs =
    let e : length bs - 0 ≡ length bs = omega arith in rw e (window-store_list bs (λ _. 0) 0)

pub loaded-IsValid : (bs : List ℕ) → length bs ≤ capacity → IsValid (loaded bs)
loaded-IsValid bs h = omega arith

pub nearly_full-IsValid : (n : ℕ) → IsValid (nearly_full n)
nearly_full-IsValid n = omega arith

abbrev pub socket : ℕ → Skb → Skb → Sk
socket hash sendbuf recvbuf = record {
  fd = 7;
  hash = hash;
  events = record { epollin = true; epollpri = false; epollrdhup = true; epollout = false };
  sendbuf = sendbuf;
  recvbuf = recvbuf;
  retries = 0;
  close_on_write = false;
  close = false;
  closing = false;
  upgraded = false;
  ts_last_io = record { tv_sec = 0; tv_nsec = 0 };
  ts_closing_handshake_start = record { tv_sec = 0; tv_nsec = 0 };
  src_addr = record { sin_addr = 0x0100007f; sin_port = 0x5000 };
  dst_addr = record { sin_addr = 0x0200007f; sin_port = 0x901f };
}

-- The client has sent these bytes, and the backend's buffers are empty.
abbrev pub from_client : List ℕ → Pair
from_client bs = record {
  client = socket 5 (loaded []) (loaded bs);
  pp2sk = socket 0 (loaded []) (loaded []);
}

-- The backend has sent these bytes, and one client is there.
abbrev pub from_backend : List ℕ → Server
from_backend bs = record {
  pp2sk = socket 0 (loaded []) (loaded bs);
  table = λ _. socket 5 (loaded []) (loaded []) ∷ [];
}
