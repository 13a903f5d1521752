-- ===== src/Daemon/Loop.antt =====
-- on_iteration and check_timeouts_for_each of src/wschild.c, and event_loop of src/common.c with the
-- daemon's functions: what happens in one round, in which order.
use wsd.Prelude.{
  ℕ, Bool, true, false, ltb, ◌&&◌, not, if◌then◌else◌, Option, none, some, List, [], ◌∷◌,
}
use wsd.Prelude.Options.{◌>>=◌}
use wsd.Types.{Rv, ok, fail, Timespec, Sk, SockAddr}
use wsd.Io.{
  Life, kept, closed, sk_read, sk_write, on_read, on_write, is_fatal, Ready, on_epoll_event,
}
use wsd.Hashtable.{hash_size, hash_min}
use wsd.Timeout.{check_timeouts, check_backend_timeouts}
use wsd.Start.{Config, times, first_host}
use wsd.Child.{
  World, fds, hash, Accepted, sk_accept, sk_close, pp2_close, post_read, is_pp2sk, try_recv,
}
use wsd.Daemon.Sockets.{find_fd}
use wsd.Daemon.{Kernel, Env, put_back, recv}

-- `sk->ops->close(sk)` outside of try_recv. sk_close walks the work list: where the node of a freed
-- object is in it, that reads freed memory, and `none` is this use of it.
unfoldable pub close : ℕ → World → Option World
close fd w =
    if is_pp2sk fd w
    then some (pp2_close fd w)
    else (if w.dangling then none else some (sk_close fd w))

-- The socket as it is left, or its end.
unfoldable pub put_life : ℕ → Life → World → Option World
unfolding close
put_life fd (kept sk) w = some (put_back (sk ∷ []) w)
put_life fd (closed sk) w = close fd w

unfoldable pub check_one : Config → Timespec → ℕ → World → Option World
check_one cfg now fd w = do
  sk ← find_fd fd w.sk_list
  life ←
      if is_pp2sk fd w
      then check_backend_timeouts (times cfg) now sk
      else check_timeouts (times cfg) now sk
  put_life fd life w

-- The loop over `sk_list` as it is at the start: each round takes off its own socket at most.
unfoldable pub check_timeouts_for_each : Config → Timespec → List ℕ → World → Option World
check_timeouts_for_each cfg now [] w = some w
check_timeouts_for_each cfg now (fd ∷ rest) w = do
  w' ← check_one cfg now fd w
  check_timeouts_for_each cfg now rest w'

-- An event on the listening socket, with the addresses of the two ends, if accept4 succeeds, and
-- `tv_nsec` of the clock; or one of a socket, with what read and write then return, and whether errno
-- is one to try again on.
pub record Poll : Type 0 where
  pub fd : ℕ
  pub ready : Ready
  pub input : Option (List ℕ)
  pub output : Option ℕ
  pub retry : Bool

pub data Event : Type 0 where
  accepts : Option (SockAddr × SockAddr) → ℕ → Event
  polled : Poll → Event

abbrev pub arrival : ℕ → Option (SockAddr × SockAddr) → Option Accepted
arrival fd none = none
arrival fd (some (src, dst)) = some (record { fd = fd; src_addr = src; dst_addr = dst })

-- `AZ(sk->ops->accept(sk->fd))`
abbrev pub asserted : Rv × World → Option World
asserted (ok, w) = some w
asserted (fail e, w) = none

-- Whether on_read comes to post_read, which puts the socket into the work list.
abbrev pub comes_to_post_read : Poll → Sk → Bool
comes_to_post_read p sk = p.ready.input && not (is_fatal (sk_read p.input sk).0)

abbrev pub after_poll : Poll → Sk → World → World
after_poll p sk w = if comes_to_post_read p sk then post_read p.fd w else w

-- post_read links the socket behind the last one in the work list, which must not be a freed object.
abbrev pub links_to_freed : Poll → Sk → World → Bool
links_to_freed p sk w = w.dangling && comes_to_post_read p sk

unfoldable pub on_poll : Timespec → Poll → World → Option World
on_poll now p w = do
  sk ← find_fd p.fd w.sk_list
  (rv, life, h) ←
      on_epoll_event (on_read (sk_read p.input) (λ s. (ok, s)) p.retry now)
        (on_write (sk_write p.output) now) p.ready w.hosts sk
  if links_to_freed p sk w
      then none
      else put_life p.fd life (record (after_poll p sk w) { hosts = h })

-- Whether hash_add of sk_accept stores inside of `sk_hash`.
abbrev pub stores_inside : ℕ → Option (SockAddr × SockAddr) → Bool
stores_inside tv_nsec none = true
stores_inside tv_nsec (some (src, dst)) = ltb (hash_min (hash src tv_nsec)) hash_size

-- `none` is also a client whose hash has no bucket, which is linked outside of the table.
unfoldable pub on_event : Kernel → Timespec → Event → World → Option World
unfolding on_poll
on_event kernel now (accepts peers tv_nsec) w =
    if stores_inside tv_nsec peers
    then asserted (sk_accept (arrival (kernel.new_fd (fds w.sk_list)) peers) tv_nsec w)
    else none
on_event kernel now (polled p) w = on_poll now p w

unfoldable pub on_events : Kernel → Timespec → List Event → World → Option World
on_events kernel now [] w = some w
on_events kernel now (e ∷ es) w = on_event kernel now e w >>= on_events kernel now es

-- One round of event_loop: the time, what is outside of each `recv`, and the events of epoll_wait, of
-- which an interrupted call brings none.
pub record Round : Type 0 where
  pub now : Timespec
  pub env : ℕ → Env
  pub events : List Event

abbrev pub initial_world : Config → World
initial_world cfg = record {
  sk_list = [];
  work_list = [];
  sk_hash = [];
  pp2sk = none;
  hosts = first_host cfg;
  dangling = false;
}

module _ (kernel : Kernel) (accept_value : List ℕ → List ℕ) (cfg : Config) where
  -- try_recv walks the work list.
  unfoldable pub on_iteration : Round → World → Option World
  on_iteration r w = do
    w' ← if w.dangling then none else try_recv (recv kernel accept_value cfg r.env) w
    check_timeouts_for_each cfg r.now (fds w'.sk_list) w'

  -- The rounds until `done`.
  unfoldable pub event_loop : List Round → World → Option World
  event_loop [] w = some w
  event_loop (r ∷ rs) w = do
    w1 ← on_iteration r w
    w2 ← on_events kernel r.now r.events w1
    event_loop rs w2

-- The loop of wschild_main behind event_loop, over `sk_list` as it is then.
unfoldable pub close_each : List ℕ → World → Option World
close_each [] w = some w
close_each (fd ∷ rest) w = close fd w >>= close_each rest

-- From the lists on, once the listening socket is there.
unfoldable pub wschild_main : Kernel → (List ℕ → List ℕ) → Config → List Round → Option World
wschild_main kernel accept_value cfg rounds = do
  w ← event_loop kernel accept_value cfg rounds (initial_world cfg)
  close_each (fds w.sk_list) w
