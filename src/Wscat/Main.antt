-- ===== src/Wscat/Main.antt =====
-- The start of wscat, main of src/wscat.c: its options, the URI and the configuration that it makes of
-- them. getopt_long is called before: its results, an option's letter and the argument, are a list, and
-- a long option is the letter that the table of them gives. Built with OpenSSL.
pub mod Init
pub mod Laws
mod Tests
use wsd.Prelude.{
  ℕ, ◌+◌, ◌*◌, ◌%◌, ◌^◌, Bool, true, false, ◌&&◌, ltb, ◌==◌, if◌then◌else◌, Option, none, some,
  List, [], ◌∷◌, length,
}
use wsd.Prelude.Text.{literal}
use wsd.Timeout.{minus_one}
use wsd.Sock.{blank_skb}
use wsd.Start.{atoi}
use wsd.Http.Parser.{has_prefix}
use wsd.Uri.{Uri, parse_uri}
use wsd.Wscat.State.{Cat}
use wsd.Wscat.Request.{RequestConfig}

-- The program goes on, or ends with a status.
pub data Progress (A : Type 0) : Type 0 where
  goes_on : A → Progress A
  exits : ℕ → Progress A

-- The variables that the options fill in; an `int` is the word of 32 bits that holds it.
pub record CatArgs : Type 0 where
  pub is_json_arg : Bool
  pub no_handshake_arg : Bool
  pub repeat_last_num_arg : ℕ
  pub idle_timeout_arg : ℕ
  pub ping_interval_arg : ℕ
  pub verbose_arg : ℕ
  pub user_agent_arg : List ℕ
  pub sec_ws_proto_arg : Option (List ℕ)
  pub sec_ws_ver_arg : List ℕ
  pub sec_ws_key_arg : List ℕ
  pub no_check_cert_arg : Bool

-- What they hold before the loop.
abbrev pub initial_args : CatArgs
initial_args = record {
  is_json_arg = false;
  no_handshake_arg = false;
  repeat_last_num_arg = minus_one;
  idle_timeout_arg = minus_one;
  ping_interval_arg = minus_one;
  verbose_arg = 0;
  user_agent_arg = literal "wscat";
  sec_ws_proto_arg = none;
  sec_ws_ver_arg = literal "13";
  sec_ws_key_arg = literal "B9Pc1t39Tqoj+fidr/bzeg==";
  no_check_cert_arg = false;
}

-- The switch of the loop; `?`, which getopt_long returns for an option that it does not know, is in
-- none of the cases.
unfoldable pub cat_option : ℕ × List ℕ → CatArgs → Progress CatArgs
unfolding atoi
cat_option (opt, optarg) a =
    if opt == b'A'
    then goes_on (record a { user_agent_arg = optarg })
    else if opt == b'i'
    then goes_on (record a { idle_timeout_arg = atoi optarg })
    else if opt == b'p'
    then goes_on (record a { ping_interval_arg = atoi optarg })
    else if opt == b'v'
    then goes_on (record a { verbose_arg = a.verbose_arg + 1 })
    else if opt == b'V'
    then goes_on (record a { sec_ws_ver_arg = optarg })
    else if opt == b'K'
    then goes_on (record a { sec_ws_key_arg = optarg })
    else if opt == b'P'
    then goes_on (record a { sec_ws_proto_arg = some optarg })
    else if opt == b'j'
    then goes_on (record a { is_json_arg = true })
    else if opt == b'N'
    then goes_on (record a { no_handshake_arg = true })
    else if opt == b'R'
    then goes_on (record a { repeat_last_num_arg = atoi optarg })
    else if opt == b'x'
    then goes_on (record a { no_check_cert_arg = true })
    else if opt == b'h'
    then exits 0
    else exits 1

unfoldable pub cat_options : List (ℕ × List ℕ) → CatArgs → Progress CatArgs
cat_options [] a = goes_on a
cat_options (o ∷ os) a = elim (cat_option o a) [
  | exits status ↦ exits status
  | goes_on a' ↦ cat_options os a'
]

-- Where to connect to, and what to ask for; a pointer that is NULL is `none`.
pub record Target : Type 0 where
  pub tls_arg : Bool
  pub fwd_hostname_arg : Option (List ℕ)
  pub fwd_port_arg : Option (List ℕ)
  pub request_target_arg : List ℕ

-- `n == chk.len && 0 == strncasecmp(word, chk.p, n)`
abbrev pub is_word : List ℕ → List ℕ → Bool
is_word word s = length s == length word && has_prefix word s

-- `if (uri.port.len)`
abbrev pub given : List ℕ → Option (List ℕ)
given [] = none
given (c ∷ cs) = some (c ∷ cs)

abbrev pub target_of : Bool → Uri → Target
target_of tls uri = record {
  tls_arg = tls;
  fwd_hostname_arg = some uri.host;
  fwd_port_arg = given uri.port;
  request_target_arg = uri.path;
}

unfoldable pub check_scheme : Uri → Progress Target
check_scheme uri =
    if is_word (literal "wss") uri.scheme
    then goes_on (target_of true uri)
    else if is_word (literal "ws") uri.scheme
    then goes_on (target_of false uri)
    else exits 1

abbrev pub blank_uri : Uri
blank_uri = record { scheme = []; host = []; port = []; path = [] }

-- `argv[optind]`, if there is one.
unfoldable pub read_uri : Option (List ℕ) → Progress Target
unfolding check_scheme
read_uri none = goes_on (record {
  tls_arg = false;
  fwd_hostname_arg = none;
  fwd_port_arg = none;
  request_target_arg = literal "/";
})
read_uri (some arg) = elim (parse_uri arg blank_uri) [
  | none ↦ exits 1
  | some uri ↦ check_scheme uri
]

abbrev pub default_to : List ℕ → Option (List ℕ) → List ℕ
default_to d none = d
default_to d (some s) = s

-- What of `wsd_config_t` is wscat's and no other part of the model has. `verbose` is a byte.
pub record CatConfig : Type 0 where
  pub request : RequestConfig
  pub fport : List ℕ
  pub verbose : ℕ
  pub no_check_cert : Bool

abbrev pub default_port : Bool → List ℕ
default_port tls = if tls then literal "443" else literal "80"

unfoldable pub cat_config : CatArgs → Target → CatConfig
cat_config a t = record {
  request = record {
    request_target = t.request_target_arg;
    fhostname = default_to (literal "localhost") t.fwd_hostname_arg;
    sec_ws_proto = a.sec_ws_proto_arg;
    sec_ws_key = a.sec_ws_key_arg;
    sec_ws_ver = a.sec_ws_ver_arg;
    user_agent = a.user_agent_arg;
    tls = t.tls_arg;
  };
  fport = default_to (default_port t.tls_arg) t.fwd_port_arg;
  verbose = a.verbose_arg % 256;
  no_check_cert = a.no_check_cert_arg;
}

-- `if (0 < repeat_last_num_arg) repeat_last_num = repeat_last_num_arg;`
abbrev pub repeats_of : ℕ → ℕ
repeats_of n = if ltb 0 n && ltb n (2 ^ 31) then n else minus_one

-- The globals in front of wssk_init.
unfoldable pub initial_cat : CatArgs → Cat
initial_cat a = record {
  wssk = none;
  fdin = none;
  done = false;
  is_json = a.is_json_arg;
  no_handshake = a.no_handshake_arg;
  repeat_last_num = repeats_of a.repeat_last_num_arg;
  repeat_last_armed = false;
  last_input = blank_skb;
  idle_timeout = a.idle_timeout_arg;
  ping_interval = a.ping_interval_arg * 1000 % 2 ^ 32;
  output = [];
}
