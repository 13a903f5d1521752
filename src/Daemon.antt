-- ===== src/Daemon.antt =====
-- The daemon as a whole: what `sk->ops->recv` calls for each socket in try_recv, check_timeouts_for_each
-- and on_iteration of src/wschild.c, and event_loop of src/common.c with on_epoll_event.
pub mod Sockets
pub mod Loop
pub mod Keeps
pub mod Invariant
pub mod Shutdown
pub mod Kernels
pub mod Forward
mod Tests
use wsd.Prelude.{
  ℕ, Bool, true, false, ◌&&◌, not, ◌≡◌, ◌==◌, if◌then◌else◌, Option, none, some, List, [], ◌∷◌,
}
use wsd.Prelude.Options.{◌>>=◌}
use wsd.Types.{Rv, ok, fail, Timespec, Sk, SockAddr}
use wsd.Io.{
  Hosts, Life, kept, closed, sk_read, sk_write, on_read, on_write, is_fatal, Ready, on_epoll_event,
}
use wsd.Hashtable.{Table, hash_min}
use wsd.Http.Recv.{http_recv}
use wsd.Upgrade.{ws_decode_handshake}
use wsd.Server.{Server}
use wsd.Timeout.{check_timeouts, check_backend_timeouts}
use wsd.Start.{Config, times}
use wsd.Child.{
  World, has, fds, Accepted, Opening, connected, sk_accept, sk_close, pp2_close, post_read,
  is_pp2sk, try_recv,
}
use wsd.Recv.{open_backend, ws_recv, pp2_recv}
use Sockets.{find_fd, store, nodes, in_bucket, store_table}

-- The numbers that socket and accept4 give out: none that is in use.
pub record Kernel : Type 0 where
  pub new_fd : List ℕ → ℕ
  pub is_new : (used : List ℕ) → has (new_fd used) used ≡ false

-- A connection that begins gets the new number.
abbrev pub with_fd : ℕ → Opening → Opening
with_fd fd (connected _) = connected fd
with_fd fd o = o

-- What is outside of the program while one socket is received from: where the tokenizer's cursor was
-- left, and what comes of connecting to each host.
pub record Env : Type 0 where
  pub prev : Option (List ℕ)
  pub answer : ℕ → Opening

-- The table by hash over the sockets of the world, and what pp2_recv left of it.
abbrev pub table_of : World → Table
table_of w i = in_bucket i (nodes w.sk_list w.sk_hash)

abbrev pub put_back : List Sk → World → World
put_back news w = record w { sk_list = store news w.sk_list }

-- The result, whether the socket is to be closed once it is written, and the world. `none` is a failed
-- assertion, a null pointer, or a socket that is not there.
abbrev pub Received : Type 0
Received = Option (Rv × Bool × World)

abbrev pub recv_pp2 : Sk → World → Received
recv_pp2 sk w = do
  (rv, s) ← pp2_recv (record { pp2sk = sk; table = table_of w })
  let w' = record w { sk_list = store_table s.table w.sk_list }
  some (rv, s.pp2sk.close_on_write, put_back (s.pp2sk ∷ []) w')

-- ws_recv with the backend's socket `fd`.
abbrev pub exchange : Sk → ℕ → World → Received
exchange sk fd w = do
  backend ← find_fd fd w.sk_list
  (rv, p) ← ws_recv (record { client = sk; pp2sk = backend })
  some (rv, p.client.close_on_write, put_back (p.client ∷ p.pp2sk ∷ []) w)

module _ (kernel : Kernel) (accept_value : List ℕ → List ℕ) (cfg : Config) where
  -- sk_open for one host after the other
  abbrev pub opened : Env → World → Option (Rv × Hosts × World)
  opened env w =
      open_backend w.hosts.fhostname_num
        (λ num. with_fd (kernel.new_fd (fds w.sk_list)) (env.answer num)) ok w.hosts w

  -- `0 > rv` ends ws_recv; otherwise it goes on with the backend that is there now.
  abbrev pub after_opening : Sk → Rv × Hosts × World → Received
  after_opening sk (fail e, h, w) = some (fail e, sk.close_on_write, record w { hosts = h })
  after_opening sk (ok, h, w) = do fd ← w.pp2sk; exchange sk fd (record w { hosts = h })

  abbrev pub recv_ws : Env → Sk → World → Received
  recv_ws env sk w = elim w.pp2sk [
    | some fd ↦ exchange sk fd w
    | none ↦ opened env w >>= after_opening sk
  ]

  abbrev pub recv_http : Env → Sk → World → Received
  recv_http env sk w = do
    (rv, sk') ← http_recv (ws_decode_handshake accept_value cfg.sec_ws_proto) env.prev sk
    some (rv, sk'.close_on_write, put_back (sk' ∷ []) w)

  abbrev pub recv_of : Env → ℕ → World → Sk → Received
  recv_of env fd w sk =
      if is_pp2sk fd w
      then recv_pp2 sk w
      else if sk.upgraded
      then recv_ws env sk w
      else recv_http env sk w

  -- `pos->ops->recv(pos)`
  unfoldable pub recv : (ℕ → Env) → ℕ → World → Received
  recv env fd w = do sk ← find_fd fd w.sk_list; recv_of (env fd) fd w sk
