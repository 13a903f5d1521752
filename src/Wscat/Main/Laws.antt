-- ===== src/Wscat/Main/Laws.antt =====
-- With what event_loop of wscat begins, for a URI.
use wsd.Prelude.{
  ℕ, ◌≡◌, ◌≤◌, refl, ap, ◌∙◌, Bool, true, false, if◌then◌else◌, Bool-cases, inl, inr, Option, none,
  some, List, [], ◌∷◌, length, arith,
}
use wsd.Prelude.Text.{literal}
use wsd.Memory.{window}
use wsd.Skb.{capacity, strncpy}
use wsd.Skb.Contents.{IsValid, contents}
use wsd.Types.{Sk}
use wsd.Sock.{sk_init, blank_skb}
use wsd.Uri.{Uri}
use wsd.Uri.Laws.{IsUri, print_uri, read_port, parse_uri-print}
use wsd.Wscat.Request.{RequestConfig, create_http_req}
use wsd.Wscat.Request.Laws.{request_text, create_http_req_lem}
use wsd.Wscat.Tls.{Ssl, done, wssk_tls_handshake}
use wsd.Wscat.Main.{
  goes_on, exits, CatArgs, initial_args, cat_options, Target, is_word, target_of, check_scheme,
  blank_uri, read_uri, given, default_to, default_port, cat_config,
}
use wsd.Wscat.Main.Init.{
  Network, wssk_init, send_first, Begun, begin_with, with_config, with_args, cat_main,
}

abbrev pub scheme_name : Bool → List ℕ
scheme_name tls = if tls then literal "wss" else literal "ws"

-- The port of a URI, or that of the scheme.
abbrev pub port_or : Bool → List ℕ → List ℕ
port_or tls [] = if tls then literal "443" else literal "80"
port_or tls (c ∷ cs) = c ∷ cs

-- A network on which the connection can begin.
pub record Serves (net : Network) : Type 0 where
  pub fd : ℕ
  pub has_socket : net.socket_fd ≡ some fd
  pub is_resolved : net.resolved ≡ true
  pub has_inet : net.is_inet ≡ true
  pub has_tls : net.tls_set_up ≡ true

check_scheme-named :
    (tls : Bool) (u : Uri)
    → is_word (scheme_name tls) u.scheme ≡ true
    → check_scheme u ≡ goes_on (target_of tls u)
unfolding check_scheme
check_scheme-named true u e = rw e
check_scheme-named false u e = ground (arith, e)

kept_port : (port : List ℕ) → read_port port [] ≡ port
kept_port [] = refl
kept_port (c ∷ cs) = refl

read_uri-print :
    (tls : Bool) (u : Uri) (f : Option (List ℕ))
    → IsUri u
    → is_word (scheme_name tls) u.scheme ≡ true
    → read_uri (some (print_uri u f)) ≡ goes_on (target_of tls u)
unfolding read_uri
read_uri-print tls u f h e =
    rw
      (
        parse_uri-print u blank_uri f h
            ∙ ap (λ port. some (record u { port = port })) (kept_port u.port),
        read_uri,
      )
      (check_scheme-named tls u e)

wssk_init-Serves :
    (net : Network) (tls : Bool) (s : Serves net) → wssk_init net tls ≡ some (sk_init s.fd 0)
unfolding wssk_init
wssk_init-Serves net tls s =
    rw (s.has_socket, s.is_resolved, s.has_inet) (ground (arith, s.has_tls))

fport-eq :
    (a : CatArgs) (tls : Bool) (u : Uri)
    → (cat_config a (target_of tls u)).fport ≡ port_or tls u.port
unfolding cat_config
fport-eq a tls u = go u.port
  where
    go : (port : List ℕ) → default_to (default_port tls) (given port) ≡ port_or tls port
    go [] = refl
    go (c ∷ cs) = refl

send_first-eq :
    (cfg : RequestConfig) (sk : Sk)
    → ((send_first cfg (done tt) sk).sk.sendbuf ≡ (create_http_req cfg sk).sendbuf)
      × ((send_first cfg (done tt) sk).sk.events.epollout ≡ true)
      × ((send_first cfg (done tt) sk).handshaking ≡ false)
unfolding send_first wssk_tls_handshake
send_first-eq cfg sk = elim (Bool-cases cfg.tls) [
  | inl e ↦ (rw e refl, rw e refl, rw e refl)
  | inr e ↦ (rw e refl, rw e refl, rw e refl)
]

request_sent :
    (cfg : RequestConfig) (fd : ℕ)
    → length (request_text cfg) ≤ capacity
    → contents (create_http_req cfg (sk_init fd 0)).sendbuf ≡ request_text cfg
unfolding sk_init strncpy window
request_sent cfg fd fits =
    let valid : IsValid blank_skb = record { order = omega arith; fits = omega arith } in
    (create_http_req_lem cfg (sk_init fd 0) valid fits).0

begun :
    (net : Network) (ssl : Ssl Unit) (os : List (ℕ × List ℕ)) (arg : Option (List ℕ)) (a : CatArgs)
    (t : Target) (sk : Sk)
    → cat_options os initial_args ≡ goes_on a
    → read_uri arg ≡ goes_on t
    → wssk_init net t.tls_arg ≡ some sk
    → cat_main net ssl os arg
      ≡ goes_on (begin_with (cat_config a t) a (send_first (cat_config a t).request ssl sk))
unfolding cat_main with_config cat_config
begun net ssl os arg a t sk read aimed made =
    let cfg = cat_config a t in
    ap (λ r. elim r [ exits status ↦ exits status | goes_on a ↦ with_args net ssl arg a ]) read
    ∙ ap
        (λ r. elim r [
          | exits status ↦ exits status
          | goes_on t ↦ with_config net ssl a (cat_config a t)
        ])
        aimed
    ∙ ap
        (λ r. elim r [
          | none ↦ exits 1
          | some sk ↦ goes_on (begin_with cfg a (send_first cfg.request ssl sk))
        ])
        made

-- For a text `scheme://host[:port]path[#fragment]` whose parts are in the form of IsUri, with a scheme
-- that is "ws" or "wss" in any case, for options that are read to their end, and on a network where the
-- calls of wssk_init succeed and, with "wss", the handshake is done at once: where the request fits into
-- the send buffer, main comes to event_loop. Then the send buffer holds just the request, epoll waits
-- for a chance to write it, and the configuration has the host and the path of the URI, TLS just with
-- "wss", and the port of the URI, or 443 with "wss" and 80 with "ws" where it has none.
pub cat_main-print :
    (net : Network) (os : List (ℕ × List ℕ)) (a : CatArgs) (tls : Bool) (u : Uri)
    (f : Option (List ℕ))
    → Serves net
    → cat_options os initial_args ≡ goes_on a
    → IsUri u
    → is_word (scheme_name tls) u.scheme ≡ true
    → length (request_text (cat_config a (target_of tls u)).request) ≤ capacity
    → (b : Begun) × (sk : Sk) × (cat_main net (done tt) os (some (print_uri u f)) ≡ goes_on b)
      × (b.cat.wssk ≡ some sk)
      × (contents sk.sendbuf ≡ request_text b.cfg.request)
      × (sk.events.epollout ≡ true)
      × (b.handshaking ≡ false)
      × (b.cfg.request.fhostname ≡ u.host)
      × (b.cfg.request.request_target ≡ u.path)
      × (b.cfg.request.tls ≡ tls)
      × (b.cfg.fport ≡ port_or tls u.port)
unfolding cat_config
cat_main-print net os a tls u f s read h named fits =
    let cfg = cat_config a (target_of tls u) in
    let t = send_first cfg.request (done tt) (sk_init s.fd 0) in
    let (sent, waits, over) = send_first-eq cfg.request (sk_init s.fd 0) in
    (
      begin_with cfg a t,
      t.sk,
      begun net (done tt) os (some (print_uri u f)) a (target_of tls u) (sk_init s.fd 0) read
          (read_uri-print tls u f h named) (wssk_init-Serves net tls s),
      refl,
      ap contents sent ∙ request_sent cfg.request s.fd fits,
      waits,
      over,
      refl,
      refl,
      refl,
      fport-eq a tls u,
    )
