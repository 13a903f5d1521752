-- ===== src/Types.antt =====
-- The data types of src/types.h: error codes, chunks, frames, sockets and the configuration.
use wsd.Prelude.{ℕ, Bool, Option, List}
use wsd.Skb.{Skb}

-- WSD_CHECKERRNO to WSD_EAI
pub data Errno : Type 0 where
  checkerrno eagain ebadreq eeos echar einput enomem enum eof eai : Errno

-- An `int` result: 0, or -1 with what `wsd_errno` holds then.
pub data Rv : Type 0 where
  ok : Rv
  fail : Errno → Rv

-- `chunk_t`: the bytes of memory from `p` on, as far as they are known, and the length. `NULL` is
-- the chunk with neither.
pub record Chunk : Type 0 where
  pub text : List ℕ
  pub len : ℕ

-- `wsframe_t`
pub record Frame : Type 0 where
  pub byte1 : ℕ
  pub byte2 : ℕ
  pub payload_len : ℕ
  pub masking_key : ℕ

-- `struct sockaddr_in`, as its bytes in memory: the address is a 4-byte and the port a 2-byte object.
pub record SockAddr : Type 0 where
  pub sin_addr : ℕ
  pub sin_port : ℕ

-- The epoll bits that the program sets: EPOLLIN, EPOLLPRI, EPOLLRDHUP and EPOLLOUT.
pub record Events : Type 0 where
  pub epollin : Bool
  pub epollpri : Bool
  pub epollrdhup : Bool
  pub epollout : Bool

pub record Timespec : Type 0 where
  pub tv_sec : ℕ
  pub tv_nsec : ℕ

-- `struct sk` without its links and TLS. Of its function tables there is `upgraded`: whether they
-- hold the functions of the websocket protocol, which ws_decode_handshake sets.
pub record Sk : Type 0 where
  pub fd : ℕ
  pub hash : ℕ
  pub events : Events
  pub sendbuf : Skb
  pub recvbuf : Skb
  pub retries : ℕ
  pub close_on_write : Bool
  pub close : Bool
  pub closing : Bool
  pub upgraded : Bool
  pub ts_last_io : Timespec
  pub ts_closing_handshake_start : Timespec
  pub src_addr : SockAddr
  pub dst_addr : SockAddr

-- A client's socket and the socket to the backend (`pp2sk`), which frames go between.
pub record Pair : Type 0 where
  pub client : Sk
  pub pp2sk : Sk

-- `none` is the end of the process by a failed `A`, `AN` or `AZ`.
abbrev pub Outcome : Type 0
Outcome = Option (Rv × Pair)

-- The same for a function of one socket.
abbrev pub SkOutcome : Type 0
SkOutcome = Option (Rv × Sk)
