-- ===== src/Start.antt =====
-- The start of the daemon, main of src/wsd.c: its options and the configuration that it makes of them.
-- getopt is called before: its results, an option's letter and the argument, are a list.
pub mod Launch
pub mod Laws
pub mod Order
mod Tests
use wsd.Prelude.{
  ℕ, ◌+◌, ◌-◌, ◌*◌, ◌%◌, ◌^◌, Bool, true, false, ◌&&◌, ◌||◌, leb, ltb, ◌==◌, if◌then◌else◌, Option,
  none, some, List, [], ◌∷◌, ◌++◌, length,
}
use wsd.Prelude.Text.{literal}
use wsd.Timeout.{minus_one, Times}
use wsd.Io.{Hosts}

-- `isspace` and `isdigit`
abbrev is_space : ℕ → Bool
is_space c = c == 32 || leb 9 c && leb c 13

abbrev is_digit : ℕ → Bool
is_digit c = leb b'0' c && leb c b'9'

unfoldable digits_value : ℕ → List ℕ → ℕ
digits_value acc [] = acc
digits_value acc (c ∷ cs) =
    let rest = digits_value (acc * 10 + (c - b'0')) cs in if is_digit c then rest else acc

abbrev signed : List ℕ → ℕ
signed [] = 0
signed (c ∷ cs) =
    if c == b'-'
    then (2 ^ 32 - digits_value 0 cs % 2 ^ 32) % 2 ^ 32
    else if c == b'+'
    then digits_value 0 cs % 2 ^ 32
    else digits_value 0 (c ∷ cs) % 2 ^ 32

-- `atoi` of the C library, as the word of 32 bits that holds the `int`; a number that is no `int` is
-- cut off, which the library leaves open.
unfoldable pub atoi : List ℕ → ℕ
unfolding digits_value
atoi [] = 0
atoi (c ∷ cs) = let rest = atoi cs in if is_space c then rest else signed (c ∷ cs)

-- The variables that the options fill in. `n_arg`, `i_arg` and `o_arg` are words of 32 bits; `p_arg` is
-- the file for the process id, `proto_arg` is `P_arg`. A pointer that is NULL is `none`.
pub record Args : Type 0 where
  pub o_arg : ℕ
  pub d_arg : Bool
  pub i_arg : ℕ
  pub v_arg : ℕ
  pub n_arg : ℕ
  pub f_arg : List ℕ
  pub u_arg : Option (List ℕ)
  pub p_arg : Option (List ℕ)
  pub proto_arg : Option (List ℕ)
  pub h_arg : List (List ℕ)

-- What they hold before the loop.
abbrev pub initial : Args
initial = record {
  o_arg = 6084;
  d_arg = false;
  i_arg = minus_one;
  v_arg = 0;
  n_arg = minus_one;
  f_arg = literal "6085";
  u_arg = none;
  p_arg = none;
  proto_arg = none;
  h_arg = [];
}

-- The program goes on, or ends with a status.
pub data Outcome : Type 0 where
  proceed : Args → Outcome
  exits : ℕ → Outcome

abbrev pub default_max_hostnames : ℕ
default_max_hostnames = 16

-- The switch of the loop. For an option that it does not know getopt returns `?`, as for `-?` itself.
unfoldable pub read_option : ℕ × List ℕ → Args → Outcome
unfolding atoi
read_option (opt, optarg) a =
    if opt == b'h'
    then (if leb default_max_hostnames (length a.h_arg)
        then exits 1
        else proceed (record a { h_arg = a.h_arg ++ (optarg ∷ []) }))
    else if opt == b'u'
    then proceed (record a { u_arg = some optarg })
    else if opt == b'p'
    then proceed (record a { p_arg = some optarg })
    else if opt == b'P'
    then proceed (record a { proto_arg = some optarg })
    else if opt == b'o'
    then proceed (record a { o_arg = atoi optarg })
    else if opt == b'n'
    then proceed (record a { n_arg = atoi optarg })
    else if opt == b'f'
    then proceed (record a { f_arg = optarg })
    else if opt == b'd'
    then proceed (record a { d_arg = true })
    else if opt == b'v'
    then proceed (record a { v_arg = a.v_arg + 1 })
    else if opt == b'i'
    then proceed (record a { i_arg = atoi optarg })
    else if opt == b'?'
    then exits 0
    else exits 1

unfoldable pub read_options : List (ℕ × List ℕ) → Args → Outcome
read_options [] a = proceed a
read_options (o ∷ os) a = elim (read_option o a) [
  | exits status ↦ exits status
  | proceed a' ↦ read_options os a'
]

-- What of `wsd_config_t` is the daemon's. `fhostname_num` and `verbose` are bytes.
pub record Config : Type 0 where
  pub uid : ℕ
  pub lport : ℕ
  pub fport : List ℕ
  pub fhostname : List (List ℕ)
  pub fhostname_num : ℕ
  pub pidfilename : Option (List ℕ)
  pub verbose : ℕ
  pub no_fork : Bool
  pub idle_timeout : ℕ
  pub ping_interval : ℕ
  pub closing_handshake_timeout : ℕ
  pub sec_ws_proto : Option (List ℕ)

-- `if (0 == h_arg_num) h_arg[h_arg_num++] = DEFAULT_FORWARD_HOST;`
abbrev pub hosts_of : List (List ℕ) → List (List ℕ)
hosts_of [] = literal "127.0.0.1" ∷ []
hosts_of (h ∷ hs) = h ∷ hs

-- `if (0 > i_arg) i_arg = DEFAULT_IDLE_TIMEOUT;`
abbrev pub idle_of : ℕ → ℕ
idle_of i_arg = if leb (2 ^ 31) i_arg then minus_one else i_arg

-- `uid` is that of the user to run as.
unfoldable pub configure : Args → ℕ → Config
configure a uid = record {
  uid = uid;
  lport = a.o_arg;
  fport = a.f_arg;
  fhostname = hosts_of a.h_arg;
  fhostname_num = length (hosts_of a.h_arg) % 256;
  pidfilename = a.p_arg;
  verbose = a.v_arg % 256;
  no_fork = a.d_arg;
  idle_timeout = idle_of a.i_arg;
  ping_interval = a.n_arg * 1000 % 2 ^ 32;
  closing_handshake_timeout = 8000;
  sec_ws_proto = a.proto_arg;
}

-- What the timeouts and the round of hosts take from it.
abbrev pub times : Config → Times
times cfg = record {
  idle_timeout = cfg.idle_timeout;
  ping_interval = cfg.ping_interval;
  closing_handshake_timeout = cfg.closing_handshake_timeout;
}

abbrev pub first_host : Config → Hosts
first_host cfg = record { num = 0; fhostname_num = cfg.fhostname_num }
