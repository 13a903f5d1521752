-- ===== src/Wscat/Handshake/Tests.antt =====
-- The daemon, which has just accepted a client, and the request of wscat for a page of it.
use wsd.Prelude.{
  ap, ◌≤◌, not, Bool-cases, inl, inr, All, ℕ, ◌≡◌, refl, true, false, none, some, List, [], ◌∷◌,
  length, replicate, arith,
}
use wsd.Prelude.Text.{literal}
use wsd.Memory.{window}
use wsd.Skb.{capacity, strncpy}
use wsd.Types.{ok, Sk}
use wsd.Skb.Contents.{contents}
use wsd.Upgrade.Laws.{length-whole_reply}
use wsd.Wscat.State.{Cat}
use wsd.Wscat.Main.{initial_args, initial_cat}
use wsd.Start.{Config, initial, configure}
use wsd.Child.{World, connected, try_recv}
use wsd.Daemon.{Env, recv}
use wsd.Daemon.Sockets.{find_fd}
use wsd.Daemon.Kernels.{counting}
use wsd.Http.Validate.{is_blank}
use wsd.Http.Validate.Laws.{NotBlank}
use wsd.Http.Token.{is_rfc7230_field_value}
use wsd.Wscat.Request.{RequestConfig, wssk_http_recv}
use wsd.Wscat.Request.Laws.{request_text}
use wsd.Wscat.Request.Fields.{all_pass, passing}
use wsd.Wscat.Request.Found.{IsRequest}
use wsd.Wscat.Request.Upgraded.{CanUpgrade, proto-len}
use wsd.Wscat.Handshake.{Asks, Answered, try_recv_upgrades, both_ready}
use wsd.Fixtures.{loaded, loaded-IsValid, contents-loaded, socket}

abbrev request : RequestConfig
request = record {
  request_target = literal "/p";
  fhostname = literal "h";
  sec_ws_proto = some (literal "chat");
  sec_ws_key = literal "B9Pc1t39Tqoj+fidr/bzeg==";
  sec_ws_ver = literal "13";
  user_agent = literal "wscat";
  tls = false;
}

request-IsRequest : IsRequest request
request-IsRequest = record {
  target = literal "p";
  is_target = refl;
  target_passes = (refl, tt);
  no_space = (refl, tt);
  target_fits = omega arith;
  is_host = record { passes = (refl, tt); fits = omega arith };
  is_key = record {
    passes = passing is_rfc7230_field_value (literal "B9Pc1t39Tqoj+fidr/bzeg==") refl;
    fits = omega arith;
  };
  is_ver = record { passes = (refl, (refl, tt)); fits = omega arith };
  is_agent = record {
    passes = passing is_rfc7230_field_value (literal "wscat") refl;
    fits = omega arith;
  };
  is_proto = (
    record { passes = passing is_rfc7230_field_value (literal "chat") refl; fits = omega arith },
    refl,
  );
}

no_blank : (s : List ℕ) → all_pass (λ c. not (is_blank c)) s ≡ true → All NotBlank s
no_blank [] e = tt
no_blank (c ∷ cs) e = elim (Bool-cases (is_blank c)) [
  | inl blank ↦ absurd (ground (arith, blank, e))
  | inr other ↦ (other, no_blank cs (rw other at e))
]

abbrev guest : Sk
guest = socket 5 (loaded []) (loaded (request_text request))

guest-CanUpgrade : CanUpgrade request guest
unfolding strncpy
guest-CanUpgrade = record {
  is_request = request-IsRequest;
  version = refl;
  key_blanks = no_blank (literal "B9Pc1t39Tqoj+fidr/bzeg==") refl;
  key_long = omega arith;
  key_short = omega arith;
  recv_valid = loaded-IsValid (request_text request) (omega arith);
  send_valid = loaded-IsValid [] (omega arith);
  arrived = contents-loaded (request_text request);
  has_room = omega arith;
}

abbrev daemon : World
daemon = record {
  sk_list = guest ∷ [];
  work_list = 7 ∷ [];
  sk_hash = 7 ∷ [];
  dangling = false;
  pp2sk = none;
  hosts = record { num = 0; fhostname_num = 1 };
}

guest-Asks : Asks daemon guest request
unfolding find_fd
guest-Asks = record {
  client_there = refl;
  no_backend = refl;
  not_upgraded = refl;
  can = guest-CanUpgrade;
  alone = refl;
}

abbrev digest : List ℕ → List ℕ
digest text = replicate 28 b'A'

digest-size : (text : List ℕ) → length (digest text) ≡ 28
digest-size text = refl

abbrev cfg : Config
cfg = configure initial 7

abbrev outside : ℕ → Env
outside fd = record { prev = none; answer = λ num. connected 9 }

no_proto : cfg.sec_ws_proto ≡ none
unfolding configure
no_proto = refl

try_recv_upgrades_example :
    (w' : World) × (try_recv (recv counting digest cfg outside) daemon ≡ some w')
    × Answered digest daemon w' guest request
try_recv_upgrades_example =
    try_recv_upgrades counting digest digest-size cfg no_proto outside daemon guest request
      guest-Asks

abbrev answered :
    (w' : World) × (try_recv (recv counting digest cfg outside) daemon ≡ some w')
    × Answered digest daemon w' guest request
answered =
    try_recv_upgrades counting digest digest-size cfg no_proto outside daemon guest request
      guest-Asks

-- What the client's send buffer then holds.
abbrev reply : List ℕ
reply = contents answered.2.client'.sendbuf

reply_fits : length reply ≤ capacity
unfolding strncpy window
reply_fits =
    let q = answered.2 in
    omega (
      arith,
      ap length q.sent,
      length-whole_reply digest digest-size (loaded []) q.req (loaded-IsValid [] (omega arith)),
      proto-len request.sec_ws_proto q.req.sec_ws_proto q.found.proto,
    )

abbrev wssk : Sk
wssk = socket 0 (loaded []) (loaded reply)

abbrev cat : Cat
cat = initial_cat initial_args

both_ready_example :
    (cat' : Cat) × (wssk' : Sk) × (wssk_http_recv none cat wssk ≡ (ok, cat'))
    × (cat'.wssk ≡ some wssk')
    × (wssk'.upgraded ≡ true)
    × (answered.2.client'.upgraded ≡ true)
    × (contents wssk'.recvbuf ≡ [])
    × (contents answered.2.client'.recvbuf ≡ [])
unfolding window
both_ready_example =
    both_ready counting digest digest-size cfg no_proto outside daemon guest request guest-Asks
      answered.0 answered.2.client' none cat wssk answered.1 answered.2.client_found refl
      (loaded-IsValid reply reply_fits) (contents-loaded reply)
