-- ===== src/Daemon/Keeps.antt =====
-- What receiving on a socket keeps of the daemon's lists.
use wsd.Prelude.{
  ℕ, zero, suc, ◌≡◌, refl, sym, ap, ◌∙◌, Bool, true, false, if◌then◌else◌, Option, none, some, List,
  [], ◌∷◌, arith,
}
use mathlib.Core.Path.{subst}
use wsd.Prelude.Options.{◌>>=◌, >>=-eq-some}
use wsd.Types.{Rv, ok, fail, eai, Sk}
use wsd.Io.{Hosts, next_host}
use wsd.Http.Recv.{http_recv}
use wsd.Upgrade.{ws_decode_handshake}
use wsd.Start.{Config}
use wsd.Child.{
  World, has, fds, Opening, no_memory, no_socket, no_name, no_inet, no_connection, no_buffers,
  connected, try_open, is_pp2sk,
}
use wsd.Child.Invariant.{Inv, Sound, open_fds, with_backend-Inv}
use wsd.Child.Fds.{distinct}
use wsd.Recv.{open_backend, ws_recv, pp2_recv}
use wsd.Recv.Backend.{tried}
use wsd.Daemon.Sockets.{find_fd, store, store_table, fds-store, fds-store_table}
use wsd.Daemon.{
  Kernel, Env, with_fd, table_of, put_back, recv_pp2, exchange, opened, after_opening, recv_ws,
  recv_http, recv,
}

-- Only the descriptors count.
pub same_fds-Inv :
    (w : World) (sks : List Sk) (h : Hosts)
    → fds sks ≡ open_fds w
    → Inv w
    → Inv (record w { sk_list = sks; hosts = h })
same_fds-Inv w sks h e i = record {
  open_once = ap distinct e ∙ i.open_once;
  work_once = i.work_once;
  hash_once = i.hash_once;
  freed_node = i.freed_node;
  work_open = λ d x there. ap (has x) e ∙ i.work_open d x there;
  hash_open = λ x there. ap (has x) e ∙ i.hash_open x there;
  pp2_open = λ x its. ap (has x) e ∙ i.pp2_open x its;
  pp2_apart = i.pp2_apart;
}

pub put_back-Inv : (news : List Sk) (w : World) → Inv w → Inv (put_back news w)
put_back-Inv news w i = same_fds-Inv w (store news w.sk_list) w.hosts (fds-store news w.sk_list) i

-- The new world of a result.
abbrev third : {A B : Type 0} → World → Option (A × B × World) → World
third w none = w
third w (some (a, b, w')) = w'

with_fd-new : (o : Opening) (new fd : ℕ) → with_fd new o ≡ connected fd → new ≡ fd
with_fd-new no_memory new fd e = absurd (ground (arith, e))
with_fd-new no_socket new fd e = absurd (ground (arith, e))
with_fd-new no_name new fd e = absurd (ground (arith, e))
with_fd-new no_inet new fd e = absurd (ground (arith, e))
with_fd-new no_connection new fd e = absurd (ground (arith, e))
with_fd-new no_buffers new fd e = absurd (ground (arith, e))
with_fd-new (connected c) new fd e = ground (arith, e)

same_fds-Sound :
    (w : World) (sks : List Sk) (h : Hosts)
    → fds sks ≡ open_fds w
    → Sound w
    → Sound (record w { sk_list = sks; hosts = h })
same_fds-Sound w sks h e (i, sound) = (same_fds-Inv w sks h e i, sound)

put_back-Sound : (news : List Sk) (w : World) → Sound w → Sound (put_back news w)
put_back-Sound news w (i, sound) = (put_back-Inv news w i, sound)

-- What of open_backend comes after one try.
abbrev tries_on : ℕ → (ℕ → Opening) → Hosts → Rv × World → Option (Rv × Hosts × World)
tries_on n answer h (fail eai, w) = open_backend n answer (fail eai) (next_host h) w
tries_on n answer h (rv, w) = some (rv, h, w)

open_backend-Sound :
    (n : ℕ) (answer : ℕ → Opening) (rv rv' : Rv) (h h' : Hosts) (w w' : World)
    → Sound w
    → w.pp2sk ≡ none
    → ((num fd : ℕ) → answer num ≡ connected fd → has fd (open_fds w) ≡ false)
    → open_backend n answer rv h w ≡ some (rv', h', w')
    → Sound w'
unfolding open_backend
open_backend-Sound zero answer rv rv' h h' w w' i away new e = subst Sound (ap (third w) e) i
open_backend-Sound (suc n) answer rv rv' h h' w w' i away new e =
    go (answer h.num) refl
      (λ q. open_backend-Sound n answer (fail eai) rv' (next_host h) h' w w' i away new q)
      (sym (rw (tried (answer h.num) w away, open_backend) refl) ∙ e)
  where
    go :
        (o : Opening)
        → answer h.num ≡ o
        → (open_backend n answer (fail eai) (next_host h) w ≡ some (rv', h', w') → Sound w')
        → tries_on n answer h (try_open o w) ≡ some (rv', h', w')
        → Sound w'
    go no_memory was later eq = subst Sound (ap (third w) eq) i
    go no_socket was later eq = subst Sound (ap (third w) eq) i
    go no_name was later eq = later eq
    go no_inet was later eq = subst Sound (ap (third w) eq) i
    go no_connection was later eq = subst Sound (ap (third w) eq) i
    go no_buffers was later eq = subst Sound (ap (third w) eq) i
    go (connected fd) was later eq =
        subst Sound (ap (third w) eq) (with_backend-Inv w fd i.0 (new h.num fd was), i.1)

-- What a call of `recv` is to keep.
abbrev pub Keeps : World → Option (Rv × Bool × World) → Type 0
Keeps w r = (rv : Rv) (b : Bool) (w' : World) → r ≡ some (rv, b, w') → Sound w'

returned : (w v : World) (rv : Rv) (b : Bool) → Sound v → Keeps w (some (rv, b, v))
returned w v rv b i rv' b' w' e = subst Sound (ap (third w) e) i

recv_pp2-Keeps : (sk : Sk) (w : World) → Sound w → Keeps w (recv_pp2 sk w)
recv_pp2-Keeps sk w i rv b w' e =
    let (r, done, eq) = >>=-eq-some (pp2_recv (record { pp2sk = sk; table = table_of w })) _ e in
    let s = r.1 in
    let sks = store_table s.table w.sk_list in
    let j = same_fds-Sound w sks w.hosts (fds-store_table s.table w.sk_list) i in
    returned w (put_back (s.pp2sk ∷ []) (record w { sk_list = sks })) r.0 s.pp2sk.close_on_write
      (put_back-Sound (s.pp2sk ∷ []) (record w { sk_list = sks }) j) rv b w' eq

exchange-Keeps : (sk : Sk) (fd : ℕ) (w : World) → Sound w → Keeps w (exchange sk fd w)
exchange-Keeps sk fd w i rv b w' e =
    let (backend, found, eq) = >>=-eq-some (find_fd fd w.sk_list) _ e in
    let (r, done, eq') = >>=-eq-some (ws_recv (record { client = sk; pp2sk = backend })) _ eq in
    let p = r.1 in
    returned w (put_back (p.client ∷ p.pp2sk ∷ []) w) r.0 p.client.close_on_write
      (put_back-Sound (p.client ∷ p.pp2sk ∷ []) w i) rv b w' eq'

module _ (kernel : Kernel) (accept_value : List ℕ → List ℕ) (cfg : Config) where
  opened-Sound :
      (env : Env) (w : World) (rv : Rv) (h : Hosts) (w' : World)
      → Sound w
      → w.pp2sk ≡ none
      → opened kernel accept_value cfg env w ≡ some (rv, h, w')
      → Sound w'
  opened-Sound env w rv h w' i away e =
      open_backend-Sound w.hosts.fhostname_num
        (λ num. with_fd (kernel.new_fd (fds w.sk_list)) (env.answer num)) ok rv w.hosts h w w' i
        away
        (λ num fd its.
          ap (λ t. has t (open_fds w))
            (sym (with_fd-new (env.answer num) (kernel.new_fd (fds w.sk_list)) fd its))
          ∙ kernel.is_new (fds w.sk_list))
        e

  after_opening-Keeps :
      (sk : Sk) (w : World) (r : Rv × Hosts × World)
      → Sound r.2
      → Keeps w (after_opening kernel accept_value cfg sk r)
  after_opening-Keeps sk w (fail f, h, v) i rv b w' e =
      returned w (record v { hosts = h }) (fail f) sk.close_on_write
        (same_fds-Sound v v.sk_list h refl i) rv b w' e
  after_opening-Keeps sk w (ok, h, v) i rv b w' e =
      let (fd, its, eq) = >>=-eq-some v.pp2sk _ e in
      exchange-Keeps sk fd (record v { hosts = h }) (same_fds-Sound v v.sk_list h refl i) rv b w' eq

  recv_ws-Keeps :
      (env : Env) (sk : Sk) (w : World)
      → Sound w
      → Keeps w (recv_ws kernel accept_value cfg env sk w)
  recv_ws-Keeps env sk w i = go w.pp2sk refl
    where
      go :
          (o : Option ℕ)
          → w.pp2sk ≡ o
          → Keeps w (elim o [
            | some fd ↦ exchange sk fd w
            | none ↦
                opened kernel accept_value cfg env w >>= after_opening kernel accept_value cfg sk
          ])
      go (some fd) its rv b w' e = exchange-Keeps sk fd w i rv b w' e
      go none away rv b w' e =
          let (r, done, eq) = >>=-eq-some (opened kernel accept_value cfg env w) _ e in
          after_opening-Keeps sk w r (opened-Sound env w r.0 r.1 r.2 i away done) rv b w' eq

  recv_http-Keeps :
      (env : Env) (sk : Sk) (w : World)
      → Sound w
      → Keeps w (recv_http kernel accept_value cfg env sk w)
  recv_http-Keeps env sk w i rv b w' e =
      let (r, done, eq) =
        >>=-eq-some (http_recv (ws_decode_handshake accept_value cfg.sec_ws_proto) env.prev sk) _
          e in
      returned w (put_back (r.1 ∷ []) w) r.0 r.1.close_on_write (put_back-Sound (r.1 ∷ []) w i) rv b
        w' eq

  recv_of-Keeps :
      (env : Env) (fd : ℕ) (sk : Sk) (w : World) (backend upgraded : Bool)
      → Sound w
      → Keeps w (
          if backend
          then recv_pp2 sk w
          else if upgraded
          then recv_ws kernel accept_value cfg env sk w
          else recv_http kernel accept_value cfg env sk w)
  recv_of-Keeps env fd sk w true b i = recv_pp2-Keeps sk w i
  recv_of-Keeps env fd sk w false true i = recv_ws-Keeps env sk w i
  recv_of-Keeps env fd sk w false false i = recv_http-Keeps env sk w i

  -- Whatever a call of `sk->ops->recv` does, the lists stay in order.
  pub recv-Sound :
      (env : ℕ → Env) (fd : ℕ) (w w' : World) (rv : Rv) (b : Bool)
      → Sound w
      → recv kernel accept_value cfg env fd w ≡ some (rv, b, w')
      → Sound w'
  unfolding recv
  recv-Sound env fd w w' rv b i e =
      let (sk, found, eq) = >>=-eq-some (find_fd fd w.sk_list) _ e in
      recv_of-Keeps (env fd) fd sk w (is_pp2sk fd w) sk.upgraded i rv b w' eq
