-- ===== src/Child/Reach.antt =====
-- Every run of the daemon keeps its lists in order; and what happens when the backend's socket is
-- closed while it waits in the work list.
use mathlib.Core.Path.{subst}
use wsd.Prelude.{
  ℕ, ◌≡◌, ◌≢◌, refl, sym, ap, ◌∙◌, Bool, true, false, ◌==◌, ◌||◌, ==_iff, Bool-cases, inl, inr,
  Option, some, if◌then◌else◌, none, List, [], ◌∷◌, arith,
}
use wsd.Types.{
  Rv, ok, fail, checkerrno, eagain, ebadreq, eeos, echar, einput, enomem, enum, eof, eai,
}
use wsd.Io.{Hosts}
use wsd.Child.{
  World, has, Accepted, sk_accept, sk_close, pp2_close, post_read, connected, Opening, no_memory,
  no_socket, no_name, no_inet, no_connection, no_buffers, try_open, sk_open, is_pp2sk, ops_close,
  list_del_work, after_recv, recv_each, try_recv,
}
use wsd.Child.Fds.{
  distinct, has-append, distinct-append, has-list_del_same, has-list_del, distinct-list_del,
  fds-sk_del, forget-same,
}
use wsd.Child.Invariant.{
  Inv, Sound, open_fds, sk_accept-Inv, sk_close-Inv, pp2_close-Inv, with_backend-Inv,
}

pub post_read-Inv : (w : World) (fd : ℕ) → Inv w → has fd (open_fds w) ≡ true → Inv (post_read fd w)
unfolding post_read
post_read-Inv w fd i open_ = elim (Bool-cases (has fd w.work_list)) [
  | inl there ↦ rw there i
  | inr away ↦ rw away (record {
    open_once = i.open_once;
    work_once = distinct-append fd w.work_list i.work_once away;
    hash_once = i.hash_once;
    work_open = λ d x h. added d x (sym (has-append x fd w.work_list) ∙ h);
    freed_node = λ d.
        let (x, there) = i.freed_node d in (x, ground (arith, has-append x fd w.work_list, there));
    hash_open = i.hash_open;
    pp2_open = i.pp2_open;
    pp2_apart = i.pp2_apart;
  })
]
  where
    added :
        w.dangling ≡ false
        → (x : ℕ) → (has x w.work_list || fd == x) ≡ true
        → has x (open_fds w) ≡ true
    added d x h = elim (Bool-cases (fd == x)) [
      | inl same ↦ ap (λ t. has t (open_fds w)) (sym ((==_iff fd x).0 same)) ∙ open_
      | inr other ↦ i.work_open d x (ground (arith, h, other))
    ]

list_del_work-Inv : (w : World) (fd : ℕ) → Sound w → Inv (list_del_work fd w)
list_del_work-Inv w fd (i, sound) = record {
  open_once = i.open_once;
  work_once = distinct-list_del fd w.work_list i.work_once;
  hash_once = i.hash_once;
  work_open = λ d x h. i.work_open d x (has-list_del x fd w.work_list h);
  freed_node = λ d. absurd (ground (arith, d, sound));
  hash_open = i.hash_open;
  pp2_open = i.pp2_open;
  pp2_apart = i.pp2_apart;
}

pub its_fd :
    (o : Option ℕ) (fd : ℕ) → elim o [ none ↦ false | some pp2 ↦ pp2 == fd ] ≡ true → o ≡ some fd
its_fd none fd h = absurd (ground (arith, h))
its_fd (some pp2) fd h = ap some ((==_iff pp2 fd).0 h)

pub not_its :
    (o : Option ℕ) (fd : ℕ) → elim o [ none ↦ false | some pp2 ↦ pp2 == fd ] ≡ false → o ≢ some fd
not_its none fd h e = absurd (ground (arith, e))
not_its (some pp2) fd h e = absurd (ground (arith, h, e))

-- A socket that is not in the work list is closed.
pub ops_close-Sound :
    (w : World) (fd : ℕ) → Sound w → has fd w.work_list ≡ false → Sound (ops_close fd w)
unfolding ops_close pp2_close sk_close
ops_close-Sound w fd (i, sound) idle = elim (Bool-cases (is_pp2sk fd w)) [
  | inl backend ↦
      rw backend (pp2_close-Inv w fd i (its_fd w.pp2sk fd backend), ground (arith, sound, idle))
  | inr client ↦ rw client (sk_close-Inv w fd (i, sound) (not_its w.pp2sk fd client), sound)
]

list_del_work-Sound : (w : World) (fd : ℕ) → Sound w → Sound (list_del_work fd w)
list_del_work-Sound w fd s = (list_del_work-Inv w fd s, s.1)

fatal-Sound :
    (w : World) (fd : ℕ) (b : Bool)
    → Sound w
    → Sound (if b then list_del_work fd w else ops_close fd (list_del_work fd w))
fatal-Sound w fd true s = list_del_work-Sound w fd s
fatal-Sound w fd false s =
    ops_close-Sound (list_del_work fd w) fd (list_del_work-Sound w fd s)
      (has-list_del_same fd w.work_list s.0.work_once)

pub after_recv-Sound :
    (rv : Rv) (b : Bool) (w : World) (fd : ℕ) → Sound w → Sound (after_recv rv b fd w)
unfolding after_recv
after_recv-Sound ok b w fd s = list_del_work-Sound w fd s
after_recv-Sound (fail einput) b w fd s = list_del_work-Sound w fd s
after_recv-Sound (fail eagain) b w fd s = s
after_recv-Sound (fail checkerrno) b w fd s = fatal-Sound w fd b s
after_recv-Sound (fail ebadreq) b w fd s = fatal-Sound w fd b s
after_recv-Sound (fail eeos) b w fd s = fatal-Sound w fd b s
after_recv-Sound (fail echar) b w fd s = fatal-Sound w fd b s
after_recv-Sound (fail enomem) b w fd s = fatal-Sound w fd b s
after_recv-Sound (fail enum) b w fd s = fatal-Sound w fd b s
after_recv-Sound (fail eof) b w fd s = fatal-Sound w fd b s
after_recv-Sound (fail eai) b w fd s = fatal-Sound w fd b s

try_open-Inv :
    (w : World) (o : Opening)
    → Inv w
    → ((fd : ℕ) → o ≡ connected fd → has fd (open_fds w) ≡ false)
    → Inv (try_open o w).1
try_open-Inv w no_memory i fresh = i
try_open-Inv w no_socket i fresh = i
try_open-Inv w no_name i fresh = i
try_open-Inv w no_inet i fresh = i
try_open-Inv w no_connection i fresh = i
try_open-Inv w no_buffers i fresh = i
try_open-Inv w (connected fd) i fresh = with_backend-Inv w fd i (fresh fd refl)

abbrev world_of : World → Option (Rv × World) → World
world_of w none = w
world_of w (some (rv, w')) = w'

pub sk_open-Inv :
    (w w' : World) (o : Opening) (rv : Rv)
    → Inv w
    → ((fd : ℕ) → o ≡ connected fd → has fd (open_fds w) ≡ false)
    → sk_open o w ≡ some (rv, w')
    → Inv w'
unfolding sk_open
sk_open-Inv w w' o rv i fresh e = go w.pp2sk e
  where
    go :
        (p : Option ℕ)
        → elim p [ some fd ↦ none | none ↦ some (try_open o w) ] ≡ some (rv, w')
        → Inv w'
    go none eq = subst Inv (ap (world_of w) eq) (try_open-Inv w o i fresh)
    go (some fd) eq = absurd (ground (arith, eq))

recv_each-Sound :
    (recv : ℕ → World → Option (Rv × Bool × World))
    → ((fd : ℕ) (v v' : World) (rv : Rv) (b : Bool)
        → Sound v
        → recv fd v ≡ some (rv, b, v')
        → Sound v')
    → (xs : List ℕ) (w w' : World) → Sound w
    → recv_each recv xs w ≡ some w'
    → Sound w'
unfolding recv_each
recv_each-Sound recv keeps [] w w' i e =
    subst Sound (ap (λ o. elim o [ none ↦ w | some v ↦ v ]) e) i
recv_each-Sound recv keeps (fd ∷ xs) w w' i e =
    go (λ v j f. recv_each-Sound recv keeps xs v w' j f) (recv fd w) refl e
  where
    go :
        ((v : World) → Sound v → recv_each recv xs v ≡ some w' → Sound w')
        → (r : Option (Rv × Bool × World)) → recv fd w ≡ r
        → elim r [ none ↦ none | some (rv, b, v) ↦ recv_each recv xs (after_recv rv b fd v) ]
          ≡ some w'
        → Sound w'
    go later none was eq = absurd (ground (arith, eq))
    go later (some (rv, b, v)) was eq =
        later (after_recv rv b fd v) (after_recv-Sound rv b v fd (keeps fd w v rv b i was)) eq

-- Where `recv` keeps the lists in order, try_recv does, with every socket that it closes on the way.
pub try_recv-Sound :
    (recv : ℕ → World → Option (Rv × Bool × World)) (w w' : World)
    → ((fd : ℕ) (v v' : World) (rv : Rv) (b : Bool)
        → Sound v
        → recv fd v ≡ some (rv, b, v')
        → Sound v')
    → Sound w
    → try_recv recv w ≡ some w'
    → Sound w'
try_recv-Sound recv w w' keeps i e = recv_each-Sound recv keeps w.work_list w w' i e

-- One step of the daemon.
pub data Step (w : World) : World → Type 0 where
  accepted :
      (a : Accepted) (tv_nsec : ℕ)
      → has a.fd (open_fds w) ≡ false
      → Step w (sk_accept (some a) tv_nsec w).1
  opened :
      (o : Opening) (rv : Rv) (w' : World)
      → ((fd : ℕ) → o ≡ connected fd → has fd (open_fds w) ≡ false)
      → sk_open o w ≡ some (rv, w')
      → Step w w'
  was_read : (fd : ℕ) → has fd (open_fds w) ≡ true → Step w (post_read fd w)
  received :
      (rv : Rv) (close_on_write : Bool) (fd : ℕ)
      → w.dangling ≡ false
      → Step w (after_recv rv close_on_write fd w)
  client_closed : (fd : ℕ) → w.dangling ≡ false → w.pp2sk ≢ some fd → Step w (sk_close fd w)
  backend_closed : (fd : ℕ) → w.pp2sk ≡ some fd → Step w (pp2_close fd w)

-- From the start, where only the listening socket is there, which is in no list.
pub data Reachable : World → Type 0 where
  start :
      (h : Hosts)
      → Reachable (record {
        sk_list = [];
        work_list = [];
        sk_hash = [];
        pp2sk = none;
        hosts = h;
        dangling = false;
      })
  step : {w w' : World} → Reachable w → Step w w' → Reachable w'

Step-Inv : {w w' : World} → Inv w → Step w w' → Inv w'
Step-Inv {w} i (accepted a tv_nsec fresh) = sk_accept-Inv w a tv_nsec i fresh
Step-Inv {w} i (opened o rv w' fresh e) = sk_open-Inv w w' o rv i fresh e
Step-Inv {w} i (was_read fd open_) = post_read-Inv w fd i open_
Step-Inv {w} i (received rv b fd sound) = (after_recv-Sound rv b w fd (i, sound)).0
Step-Inv {w} i (client_closed fd sound other) = sk_close-Inv w fd (i, sound) other
Step-Inv {w} i (backend_closed fd e) = pp2_close-Inv w fd i e

-- In every state that the daemon reaches, if the kernel gives new sockets descriptors that are not in
-- use: no descriptor is in a list twice, all sockets in the table are open, and so is that of the
-- backend, which is not in the table; and so are those in the work list, if the backend's socket was
-- not closed while it was in that list.
pub Reachable-Inv : {w : World} → Reachable w → Inv w
unfolding distinct has
Reachable-Inv (start h) = record {
  open_once = refl;
  work_once = refl;
  hash_once = refl;
  work_open = λ d fd h. h;
  freed_node = λ d. absurd (ground (arith, d));
  hash_open = λ fd h. h;
  pp2_open = λ fd e. absurd (ground (arith, e));
  pp2_apart = λ fd e. refl;
}
Reachable-Inv (step r s) = Step-Inv (Reachable-Inv r) s

-- When the backend's socket is closed while it is in the work list, in a state with the invariant of the
-- lists, its freed object stays in that list, though it is no longer open.
pub pp2_close_dangles :
    (w : World) (fd : ℕ)
    → Inv w
    → w.pp2sk ≡ some fd
    → has fd w.work_list ≡ true
    → (has fd (pp2_close fd w).work_list ≡ true) × (has fd (open_fds (pp2_close fd w)) ≡ false)
unfolding pp2_close
pp2_close_dangles w fd i e waiting =
    (waiting, ap (has fd) (fds-sk_del fd w.sk_list) ∙ has-list_del_same fd (open_fds w) i.open_once)

-- A client's socket that is closed is in no list any more.
pub sk_close-gone :
    (w : World) (fd : ℕ)
    → Inv w
    → (has fd (open_fds (sk_close fd w)) ≡ false)
      × (has fd (sk_close fd w).work_list ≡ false)
      × (has fd (sk_close fd w).sk_hash ≡ false)
unfolding sk_close
sk_close-gone w fd i = (
  ap (has fd) (fds-sk_del fd w.sk_list) ∙ has-list_del_same fd (open_fds w) i.open_once,
  forget-same fd w.work_list,
  has-list_del_same fd w.sk_hash i.hash_once,
)
