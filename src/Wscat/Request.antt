-- ===== src/Wscat/Request.antt =====
-- The upgrade request of wscat and what it reads as the answer, src/wscat.c: create_http_req,
-- skb_put_http_req and wssk_http_recv.
pub mod Laws
pub mod Fields
pub mod Found
pub mod Accepted
pub mod Upgraded
pub mod Reply
mod Tests
use wsd.Prelude.{
  ℕ, zero, suc, Bool, true, false, not, if◌then◌else◌, ◌==◌, Option, none, some, List, [], ◌∷◌,
  ◌++◌, length,
}
use wsd.Prelude.Text.{literal, crlf}
use wsd.Skb.{Skb, put, put_strn, reset}
use wsd.Skb.Contents.{contents}
use wsd.Types.{Chunk, Rv, ok, fail, einput, ebadreq, Sk}
use wsd.Sock.{with_sendbuf, with_recvbuf, sk_init}
use wsd.Http.Token.{TokResult, http_header_tok}
use wsd.Http.Parser.{Req}
use wsd.Http.Recv.{has_rnrn_termination, blank_req, no_chunk, visible}
use wsd.Upgrade.{ws_proto, ws_ver}
use wsd.Wscat.State.{Cat, with_wssk}

-- What one call puts: a chunk by skb_put_strn, or one byte by skb_put, which checks no room.
pub data Piece : Type 0 where
  chunk : Chunk → Piece
  byte : ℕ → Piece

-- The result of skb_put_strn is ignored.
unfoldable pub put_piece : Skb → Piece → Skb
put_piece b (chunk c) = elim (put_strn b c.text c.len) [ none ↦ b | some b' ↦ b' ]
put_piece b (byte c) = put 1 c b

-- One call behind the other.
unfoldable pub put_pieces : Skb → List Piece → Skb
put_pieces b [] = b
put_pieces b (p ∷ ps) = put_pieces (put_piece b p) ps

-- A text of the source, and the chunk of a text whose length is its own.
abbrev pub chunk_of : List ℕ → Chunk
chunk_of s = record { text = s; len = length s }

abbrev pub text : List ℕ → Piece
text s = chunk (chunk_of s)

abbrev pub line : List ℕ → Piece
line s = text (s ++ crlf)

-- `if (req->sec_ws_proto.len)`
abbrev pub proto_pieces : Chunk → List Piece → List Piece
proto_pieces proto rest =
    if proto.len == 0 then rest else text ws_proto ∷ chunk proto ∷ text crlf ∷ rest

abbrev pub origin_prefix : Bool → List ℕ
origin_prefix tls = if tls then literal "Origin: https://" else literal "Origin: http://"

-- The calls of skb_put_http_req in their order.
abbrev pub request_tail : Req → List Piece
request_tail req =
    line (literal "Pragma: no-cache")
    ∷ line (literal "Cache-Control: no-cache")
    ∷ text (literal "Sec-WebSocket-Key: ")
    ∷ chunk req.sec_ws_key
    ∷ text crlf
    ∷ text ws_ver
    ∷ chunk req.sec_ws_ver
    ∷ text crlf
    ∷ text (literal "User-Agent: ")
    ∷ chunk req.user_agent
    ∷ text (crlf ++ crlf)
    ∷ []

abbrev pub request_pieces : Bool → Req → List Piece
request_pieces tls req =
    chunk req.method
    ∷ byte b' '
    ∷ chunk req.req_target
    ∷ byte b' '
    ∷ chunk req.http_ver
    ∷ text crlf
    ∷ line (literal "Upgrade: websocket")
    ∷ line (literal "Connection: Upgrade")
    ∷ text (literal "Host: ")
    ∷ chunk req.host
    ∷ text crlf
    ∷ text (origin_prefix tls)
    ∷ chunk req.origin
    ∷ text crlf
    ∷ proto_pieces req.sec_ws_proto (request_tail req)

abbrev pub skb_put_http_req : Bool → Skb → Req → Skb
skb_put_http_req tls buf req = put_pieces buf (request_pieces tls req)

-- What `wsd_cfg` says about the request; the texts end at their NUL. `sec_ws_proto` is `none` for NULL.
pub record RequestConfig : Type 0 where
  pub request_target : List ℕ
  pub fhostname : List ℕ
  pub sec_ws_proto : Option (List ℕ)
  pub sec_ws_key : List ℕ
  pub sec_ws_ver : List ℕ
  pub user_agent : List ℕ
  pub tls : Bool

abbrev pub proto_chunk : Option (List ℕ) → Chunk
proto_chunk none = no_chunk
proto_chunk (some s) = chunk_of s

abbrev pub http_req : RequestConfig → Req
http_req cfg = record blank_req {
  method = chunk_of (literal "GET");
  req_target = chunk_of cfg.request_target;
  http_ver = chunk_of (literal "HTTP/1.1");
  host = chunk_of cfg.fhostname;
  origin = chunk_of cfg.fhostname;
  sec_ws_proto = proto_chunk cfg.sec_ws_proto;
  sec_ws_key = chunk_of cfg.sec_ws_key;
  sec_ws_ver = chunk_of cfg.sec_ws_ver;
  user_agent = chunk_of cfg.user_agent;
}

unfoldable pub create_http_req : RequestConfig → Sk → Sk
create_http_req cfg sk = with_sendbuf sk (skb_put_http_req cfg.tls sk.sendbuf (http_req cfg))

-- From the tokenizer on: a token that is there is followed by the loop over the fields, whose result
-- no code reads. The websocket functions take over and the input is opened.
abbrev pub ready : Cat → Sk → Rv × Cat
ready cat sk = (
  ok,
  record cat {
    wssk = some (record (with_recvbuf sk (reset sk.recvbuf)) { upgraded = true });
    fdin = some (sk_init 0 0);
  },
)

-- `prev` is the tokenizer's cursor from an earlier text.
unfoldable pub wssk_http_recv : Option (List ℕ) → Cat → Sk → Rv × Cat
wssk_http_recv prev cat sk =
    if not (has_rnrn_termination (contents sk.recvbuf))
    then (fail einput, with_wssk cat sk)
    else elim (http_header_tok (some (visible sk.recvbuf)) prev).rv [
      | some e ↦ (fail ebadreq, with_wssk cat (with_recvbuf sk (reset sk.recvbuf)))
      | none ↦ ready cat sk
    ]
