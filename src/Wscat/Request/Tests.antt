-- ===== src/Wscat/Request/Tests.antt =====
-- wscat's request for the default arguments, wsd's answer to it, and a frame that comes with it.
use wsd.Prelude.{ℕ, ◌≡◌, refl, Bool, true, false, none, some, List, [], ◌∷◌, ◌++◌}
use wsd.Prelude.Text.{literal, crlf}
use wsd.Memory.{window, store_list}
use wsd.Skb.{strncpy, put_strn, wrsz, put, write}
use wsd.Pp2.{same_bytes}
use wsd.Http.Parser.{
  parse_request_line, scan, has_prefix, http_field_value_tok, parse_header_field, parse_target,
}
use wsd.Http.Validate.{any_value, is_valid_req_line, strncmp_eq, trim, trim_left, trim_right}
use wsd.Wscat.Request.{put_pieces, put_piece}
use wsd.Skb.Contents.{contents}
use wsd.Types.{Sk}
use wsd.Uri.{span}
use wsd.Http.Token.{http_header_tok, start_line_tok, field_tok, finish}
use wsd.Http.Recv.{Verdict, accepted, refused, bad, check_request, header_fields}
use wsd.Wscat.State.{Cat}
use wsd.Wscat.Events.Laws.{frames_of}
use wsd.Wscat.Request.{RequestConfig, create_http_req}
use wsd.Fixtures.{loaded, socket}

abbrev config : RequestConfig
config = record {
  request_target = literal "/";
  fhostname = literal "localhost";
  sec_ws_proto = some (literal "chat");
  sec_ws_key = literal "B9Pc1t39Tqoj+fidr/bzeg==";
  sec_ws_ver = literal "13";
  user_agent = literal "wscat";
  tls = false;
}

abbrev wssk : Sk
wssk = socket 0 (loaded []) (loaded [])

abbrev sent : List ℕ
sent = contents (create_http_req config wssk).sendbuf

abbrev is_accepted : Verdict → Bool
is_accepted (accepted req) = true
is_accepted refused = false
is_accepted bad = false

wsd_accepts : is_accepted (check_request none sent) ≡ true
unfolding check_request http_header_tok start_line_tok finish span window create_http_req put_pieces
    put_piece put_strn wrsz put write strncpy store_list parse_request_line scan has_prefix
    http_field_value_tok parse_header_field parse_target header_fields field_tok any_value
    is_valid_req_line strncmp_eq trim trim_left trim_right same_bytes
wsd_accepts = refl

abbrev answer : List ℕ
answer = literal "HTTP/1.1 101 Switching Protocols" ++ (crlf ++ crlf)

abbrev cat : Cat
cat = record {
  wssk = some wssk;
  fdin = none;
  done = false;
  is_json = false;
  no_handshake = false;
  repeat_last_num = 0;
  repeat_last_armed = false;
  last_input = loaded [];
  idle_timeout = 1000;
  ping_interval = 1000;
  output = [];
}

abbrev answered : Sk
answered = socket 0 (loaded []) (loaded (answer ++ frames_of ((b'h' ∷ b'i' ∷ []) ∷ [])))
