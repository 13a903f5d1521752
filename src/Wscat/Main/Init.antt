-- ===== src/Wscat/Main/Init.antt =====
-- wssk_init of src/wscat.c, and main of it up to event_loop.
use wsd.Prelude.{ℕ, Bool, true, false, not, ◌&&◌, if◌then◌else◌, Option, none, some, List}
use wsd.Prelude.Options.{◌>>=◌}
use wsd.Types.{Sk}
use wsd.Sock.{sk_init, turn_on_epollout}
use wsd.Wscat.State.{Cat, with_wssk}
use wsd.Wscat.Request.{RequestConfig, create_http_req}
use wsd.Wscat.Tls.{Ssl, Tls, wssk_tls_handshake}
use wsd.Wscat.Main.{
  Progress, goes_on, exits, CatArgs, initial_args, cat_options, read_uri, CatConfig, cat_config,
  initial_cat,
}

-- What comes of the calls: the descriptor that socket gives, whether getaddrinfo does not return a
-- negative number, whether the first address is of AF_INET, and whether wssk_tls_init succeeds. What
-- connect returns for the addresses decides nothing: behind the loop `rv` is that of getaddrinfo.
pub record Network : Type 0 where
  pub socket_fd : Option ℕ
  pub resolved : Bool
  pub is_inet : Bool
  pub tls_set_up : Bool

-- The socket, on which `recv` is wssk_http_recv; `none` is -1.
unfoldable pub wssk_init : Network → Bool → Option Sk
wssk_init net tls = do
  fd ← net.socket_fd
  if not net.resolved
      then none
      else if not net.is_inet
      then none
      else if tls && not net.tls_set_up
      then none
      else some (sk_init fd 0)

-- Behind wssk_init: the handshake of TLS, whose result is not looked at, or the request.
unfoldable pub send_first : RequestConfig → Ssl Unit → Sk → Tls
send_first cfg ssl sk =
    if cfg.tls
    then (wssk_tls_handshake cfg ssl (record { sk = sk; handshaking = true })).1
    else record { sk = turn_on_epollout (create_http_req cfg sk); handshaking = false }

-- With what event_loop begins. `handshaking` is whether the socket reads and writes by the functions of
-- the handshake.
pub record Begun : Type 0 where
  pub cfg : CatConfig
  pub cat : Cat
  pub handshaking : Bool

abbrev pub begin_with : CatConfig → CatArgs → Tls → Begun
begin_with cfg a t = record {
  cfg = cfg;
  cat = with_wssk (initial_cat a) t.sk;
  handshaking = t.handshaking;
}

unfoldable pub with_config : Network → Ssl Unit → CatArgs → CatConfig → Progress Begun
with_config net ssl a cfg = elim (wssk_init net cfg.request.tls) [
  | none ↦ exits 1
  | some sk ↦ goes_on (begin_with cfg a (send_first cfg.request ssl sk))
]

abbrev pub with_args : Network → Ssl Unit → Option (List ℕ) → CatArgs → Progress Begun
with_args net ssl arg a = elim (read_uri arg) [
  | exits status ↦ exits status
  | goes_on t ↦ with_config net ssl a (cat_config a t)
]

-- main, for the options and the argument behind them.
unfoldable pub cat_main : Network → Ssl Unit → List (ℕ × List ℕ) → Option (List ℕ) → Progress Begun
cat_main net ssl os arg = elim (cat_options os initial_args) [
  | exits status ↦ exits status
  | goes_on a ↦ with_args net ssl arg a
]
