-- ===== src/Child.antt =====
-- The sockets of the daemon, their lists and their life: sk_accept, sk_close, post_read, try_recv and
-- hash of src/wschild.c, pp2_close of src/pp2.c and sk_open of src/ws_wsd.c.
pub mod Fds
pub mod Invariant
pub mod Reach
pub mod Hash
mod Tests
use wsd.Prelude.{
  ℕ, ◌+◌, ◌-◌, ◌*◌, ◌%◌, ◌^◌, Bool, true, false, ◌||◌, ◌==◌, if◌then◌else◌, Option, none, some,
  List, [], ◌∷◌, ◌++◌, not,
}
use wsd.Types.{
  Errno, einput, eagain, checkerrno, enomem, eai, enum, ebadreq, Rv, ok, fail, Sk, SockAddr,
}
use wsd.Sock.{sk_init}
use wsd.Io.{Hosts}

-- The descriptors of the sockets in `sk_list`, in its order, and of those in `work_list`; those that
-- stand in the table by hash; and that of `pp2sk`, if it is not NULL; and the host in use. A descriptor stands for
-- the object of its socket, which is freed when the socket is closed. `dangling` says that the node of
-- a freed object is still in the work list.
pub record World : Type 0 where
  pub sk_list : List Sk
  pub work_list : List ℕ
  pub sk_hash : List ℕ
  pub pp2sk : Option ℕ
  pub hosts : Hosts
  pub dangling : Bool

unfoldable pub has : ℕ → List ℕ → Bool
has fd [] = false
has fd (x ∷ xs) = x == fd || has fd xs

abbrev pub fds : List Sk → List ℕ
fds [] = []
fds (sk ∷ sks) = sk.fd ∷ fds sks

-- `list_del` of one node
unfoldable pub list_del : ℕ → List ℕ → List ℕ
list_del fd [] = []
list_del fd (x ∷ xs) = if x == fd then xs else x ∷ list_del fd xs

unfoldable pub sk_del : ℕ → List Sk → List Sk
sk_del fd [] = []
sk_del fd (sk ∷ sks) = if sk.fd == fd then sks else sk ∷ sk_del fd sks

-- The loop of sk_close over the work list, which goes on behind a node that it deletes.
unfoldable pub forget : ℕ → List ℕ → List ℕ
forget fd [] = []
forget fd (x ∷ xs) = let rest = forget fd xs in if x == fd then rest else x ∷ rest

-- What comes of accept4, getsockname, the allocations and epoll: a descriptor with the addresses of
-- both ends, or a failure of one of them.
pub record Accepted : Type 0 where
  pub fd : ℕ
  pub src_addr : SockAddr
  pub dst_addr : SockAddr

-- `hash`, with `tv_nsec` of the clock: the shift binds closer than the mask.
unfoldable pub hash : SockAddr → ℕ → ℕ
hash saddr tv_nsec = (saddr.sin_addr * 2 ^ 16 + saddr.sin_port) * 2 ^ 16 % 2 ^ 64 + tv_nsec % 2 ^ 16

abbrev pub client : Accepted → ℕ → Sk
client a tv_nsec = record (sk_init a.fd (hash a.src_addr tv_nsec)) {
  src_addr = a.src_addr;
  dst_addr = a.dst_addr;
}

unfoldable pub sk_accept : Option Accepted → ℕ → World → Rv × World
sk_accept none tv_nsec w = (fail checkerrno, w)
sk_accept (some a) tv_nsec w =
    (ok, record w { sk_list = w.sk_list ++ (client a tv_nsec ∷ []); sk_hash = a.fd ∷ w.sk_hash })

unfoldable pub sk_close : ℕ → World → World
sk_close fd w = record w {
  sk_list = sk_del fd w.sk_list;
  sk_hash = list_del fd w.sk_hash;
  work_list = forget fd w.work_list;
}

-- The work list is left as it is: a node that is in it stays there, in an object that is freed.
unfoldable pub pp2_close : ℕ → World → World
pp2_close fd w = record w {
  sk_list = sk_del fd w.sk_list;
  pp2sk = none;
  dangling = w.dangling || has fd w.work_list;
}

unfoldable pub post_read : ℕ → World → World
post_read fd w = if has fd w.work_list then w else record w { work_list = w.work_list ++ (fd ∷ []) }

-- What comes of the calls that sk_open makes, in their order.
pub data Opening : Type 0 where
  no_memory no_socket no_name no_inet no_connection no_buffers : Opening
  connected : ℕ → Opening

-- -1 as an `unsigned long`
abbrev pub no_hash : ℕ
no_hash = 2 ^ 64 - 1

-- The backend's socket at the end of the list.
abbrev pub with_backend : ℕ → World → World
with_backend fd w = record w { sk_list = w.sk_list ++ (sk_init fd no_hash ∷ []); pp2sk = some fd }

abbrev pub try_open : Opening → World → Rv × World
try_open no_memory w = (fail enomem, w)
try_open no_socket w = (fail checkerrno, w)
try_open no_name w = (fail eai, w)
try_open no_inet w = (fail enum, w)
try_open no_connection w = (fail ebadreq, w)
try_open no_buffers w = (fail enomem, w)
try_open (connected fd) w = (ok, with_backend fd w)

-- `none` is the failed `AZ(pp2sk)`.
unfoldable pub sk_open : Opening → World → Option (Rv × World)
sk_open o w = elim w.pp2sk [ some fd ↦ none | none ↦ some (try_open o w) ]

-- `sk->ops->close(sk)`, which is pp2_close for the backend's socket and sk_close for a client's.
abbrev pub is_pp2sk : ℕ → World → Bool
is_pp2sk fd w = elim w.pp2sk [ none ↦ false | some pp2 ↦ pp2 == fd ]

unfoldable pub ops_close : ℕ → World → World
ops_close fd w = if is_pp2sk fd w then pp2_close fd w else sk_close fd w

abbrev pub list_del_work : ℕ → World → World
list_del_work fd w = record w { work_list = list_del fd w.work_list }

-- What try_recv does behind `pos->ops->recv(pos)`; `close_on_write` is the socket's.
unfoldable pub after_recv : Rv → Bool → ℕ → World → World
after_recv ok close_on_write fd w = list_del_work fd w
after_recv (fail einput) close_on_write fd w = list_del_work fd w
after_recv (fail eagain) close_on_write fd w = w
after_recv (fail e) close_on_write fd w =
    let w' = list_del_work fd w in if close_on_write then w' else ops_close fd w'

-- The loop of try_recv over the work list as it is at the start: each round takes off its own node at
-- most, and what `recv` does adds none. `recv` also says whether the socket is `close_on_write` now, and
-- `none` is a failed assertion in it.
unfoldable pub recv_each : (ℕ → World → Option (Rv × Bool × World)) → List ℕ → World → Option World
recv_each recv [] w = some w
recv_each recv (fd ∷ rest) w = elim (recv fd w) [
  | none ↦ none
  | some (rv, close_on_write, w') ↦ recv_each recv rest (after_recv rv close_on_write fd w')
]

abbrev pub try_recv : (ℕ → World → Option (Rv × Bool × World)) → World → Option World
try_recv recv w = recv_each recv w.work_list w
