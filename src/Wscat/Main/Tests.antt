-- ===== src/Wscat/Main/Tests.antt =====
-- Starts of wscat.
use wsd.Prelude.{ℕ, ◌≡◌, refl, true, false, none, some, List, [], ◌∷◌, arith}
use wsd.Prelude.Text.{literal}
use wsd.Skb.{strncpy}
use wsd.Skb.Contents.{contents}
use wsd.Types.{Sk}
use wsd.Start.{atoi}
use wsd.Http.Parser.{has_prefix}
use wsd.Uri.{Uri, span, parse_path, parse_host, parse_uri}
use wsd.Uri.Laws.{IsUri, print_uri}
use wsd.Wscat.Request.Laws.{request_text}
use wsd.Wscat.Tls.{done}
use wsd.Wscat.Main.{
  goes_on, exits, CatArgs, initial_args, cat_option, cat_options, check_scheme, read_uri,
  cat_config,
}
use wsd.Wscat.Main.Init.{Network, Begun, cat_main}
use wsd.Wscat.Main.Laws.{Serves, port_or, cat_main-print}

-- `-j -p 3`
abbrev options : List (ℕ × List ℕ)
options = (b'j', []) ∷ (b'p', literal "3") ∷ []

abbrev chosen : CatArgs
chosen = record initial_args { is_json_arg = true; ping_interval_arg = 3 }

chosen-read : cat_options options initial_args ≡ goes_on chosen
unfolding cat_options cat_option atoi
chosen-read = refl

abbrev uri : Uri
uri = record { scheme = literal "WSS"; host = literal "h"; port = []; path = literal "/p" }

uri-IsUri : IsUri uri
uri-IsUri = record {
  scheme_ne = refl;
  scheme_ok = (refl, (refl, (refl, tt)));
  host_ne = refl;
  host_ok = (refl, tt);
  port_ok = tt;
  path_ok = record { first = refl; second = refl; passes = (refl, (refl, tt)) };
}

abbrev online : Network
online = record { socket_fd = some 3; resolved = true; is_inet = true; tls_set_up = true }

online-Serves : Serves online
online-Serves = record {
  fd = 3;
  has_socket = refl;
  is_resolved = refl;
  has_inet = refl;
  has_tls = refl;
}

cat_main-print_example :
    (b : Begun) × (sk : Sk) × (cat_main online (done tt) options (some (print_uri uri none))
      ≡ goes_on b)
    × (b.cat.wssk ≡ some sk)
    × (contents sk.sendbuf ≡ request_text b.cfg.request)
    × (sk.events.epollout ≡ true)
    × (b.handshaking ≡ false)
    × (b.cfg.request.fhostname ≡ uri.host)
    × (b.cfg.request.request_target ≡ uri.path)
    × (b.cfg.request.tls ≡ true)
    × (b.cfg.fport ≡ port_or true uri.port)
unfolding has_prefix strncpy cat_config
cat_main-print_example =
    cat_main-print online options chosen true uri none online-Serves chosen-read uri-IsUri refl
      (omega arith)

-- A scheme that wscat does not speak.
unknown_scheme : read_uri (some (literal "http://h/")) ≡ exits 1
unfolding read_uri check_scheme parse_uri span has_prefix parse_host parse_path
unknown_scheme = refl
