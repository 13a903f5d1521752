-- ===== src/Http/Recv.antt =====
-- http_recv of src/http.c and has_rnrn_termination of src/common.c: what is made of the bytes that a
-- client sends before the upgrade. The handshake that `sk->proto->decode_handshake` points to is a
-- parameter.
pub mod Laws
mod Tests
use wsd.Prelude.{
  ℕ, zero, suc, ◌-◌, Bool, true, false, ◌&&◌, ◌||◌, not, leb, ◌==◌, if◌then◌else◌, Option, none,
  some, List, [], ◌∷◌, length,
}
use wsd.Memory.{window}
use wsd.Skb.{Skb, capacity, rdsz, put_strn, reset}
use wsd.Skb.Contents.{contents}
use wsd.Types.{Chunk, Rv, ok, fail, einput, ebadreq, Sk, SkOutcome}
use wsd.Sock.{turn_on_epollout, turn_off_epollin, with_sendbuf, with_recvbuf}
use wsd.Uri.{starts, rest_of}
use wsd.Http.Token.{TokResult, http_header_tok}
use wsd.Http.Parser.{Req, parse_request_line, parse_header_field}
use wsd.Http.Validate.{
  positive, is_valid_req_line, is_valid_host_header_field, is_valid_upgrade_header_field,
  is_valid_connection_header_field,
}

-- `HTTP_400`, its NUL left out
abbrev pub http_400 : List ℕ
http_400 =
    b'H' ∷ b'T' ∷ b'T' ∷ b'P' ∷ b'/' ∷ b'1' ∷ b'.' ∷ b'1' ∷ 0x20 ∷ b'4' ∷ b'0' ∷ b'0' ∷ 0x20 ∷ b'B'
    ∷ b'a' ∷ b'd' ∷ 0x20 ∷ b'R' ∷ b'e' ∷ b'q' ∷ b'u' ∷ b'e' ∷ b's' ∷ b't' ∷ 0x0d ∷ 0x0a ∷ b'C'
    ∷ b'o' ∷ b'n' ∷ b't' ∷ b'e' ∷ b'n' ∷ b't' ∷ b'-' ∷ b'L' ∷ b'e' ∷ b'n' ∷ b'g' ∷ b't' ∷ b'h'
    ∷ b':' ∷ 0x20 ∷ b'0' ∷ 0x0d ∷ 0x0a ∷ 0x0d ∷ 0x0a ∷ []

-- CR LF CR LF somewhere in the bytes
unfoldable pub has_rnrn_termination : List ℕ → Bool
has_rnrn_termination [] = false
has_rnrn_termination (c ∷ cs) =
    (c == 0x0d
      && leb 3 (length cs)
      && starts 0x0a cs
      && starts 0x0d (rest_of cs)
      && starts 0x0a (rest_of (rest_of cs)))
    || has_rnrn_termination cs

abbrev pub no_chunk : Chunk
no_chunk = record { text = []; len = 0 }

-- `memset(&hreq, 0, ...)`
abbrev pub blank_req : Req
blank_req = record {
  method = no_chunk;
  req_target = no_chunk;
  http_ver = no_chunk;
  host = no_chunk;
  origin = no_chunk;
  user_agent = no_chunk;
  conn = no_chunk;
  conn2 = no_chunk;
  upgrade = no_chunk;
  sec_ws_key = no_chunk;
  sec_ws_ver = no_chunk;
  sec_ws_ext = no_chunk;
  sec_ws_proto = no_chunk;
  is_uri_abs = false;
}

-- The token of a call that returned a positive length.
abbrev pub field_of : TokResult → Option Chunk
field_of t = elim t.rv [ none ↦ positive (some t.result) | some e ↦ none ]

-- `while (0 < http_header_tok(NULL, &tok)) parse_header_field(&tok, &hreq)` on `n` rounds. A token
-- takes at least its CRLF off the text, so the text's length is rounds enough.
unfoldable pub header_fields : ℕ → Option (List ℕ) → Req → Req
header_fields zero prev req = req
header_fields (suc n) prev req =
    let t = http_header_tok none prev in
    elim (field_of t) [
      | none ↦ req
      | some tok ↦ header_fields n t.prev (parse_header_field tok req).1
    ]

-- How the request fares: `refused` goes to `error` without an answer, and `bad` with HTTP 400.
pub data Verdict : Type 0 where
  accepted : Req → Verdict
  refused bad : Verdict

abbrev pub check_fields : Req → Verdict
check_fields req =
    if not (is_valid_host_header_field req)
    then bad
    else if not (is_valid_upgrade_header_field req)
    then bad
    else if not (is_valid_connection_header_field req)
    then bad
    else accepted req

abbrev pub check_line : Option (List ℕ) → ℕ → Rv × Req → Verdict
check_line prev n (fail e, req) = bad
check_line prev n (ok, req) = elim (is_valid_req_line req) [
  | none ↦ bad
  | some req' ↦ check_fields (header_fields n prev req')
]

-- `prev` is the tokenizer's cursor from an earlier request.
unfoldable pub check_request : Option (List ℕ) → List ℕ → Verdict
check_request prev text =
    let t = http_header_tok (some text) prev in
    elim t.rv [
      | some e ↦ refused
      | none ↦ check_line t.prev (length text) (parse_request_line t.result blank_req)
    ]

-- From `error` on.
abbrev pub on_error : Sk → Rv × Sk
on_error sk =
    let sk' = with_recvbuf sk (reset sk.recvbuf) in
    (fail ebadreq, if sk'.close_on_write then turn_on_epollout (turn_off_epollin sk') else sk')

abbrev pub answered : Sk → Option Skb → Sk
answered sk none = sk
answered sk (some b) = record sk { sendbuf = b; close_on_write = true }

-- HTTP 400 is sent where there is room, and the socket is closed behind it.
abbrev pub answer_400 : Sk → Sk
answer_400 sk = answered sk (put_strn sk.sendbuf http_400 (length http_400))

-- What the tokenizer can see: the array from the read position to its end.
abbrev pub visible : Skb → List ℕ
visible b = window b.bytes b.rdpos (capacity - b.rdpos)

module _ (decode_handshake : Sk → Req → SkOutcome) where
  abbrev pub conclude : Sk → Verdict → SkOutcome
  conclude sk refused = some (on_error sk)
  conclude sk bad = some (on_error (answer_400 sk))
  conclude sk (accepted req) = decode_handshake (with_recvbuf sk (reset sk.recvbuf)) req

  -- `none` is the failed `AN(skb_rdsz(...))`.
  unfoldable pub http_recv : Option (List ℕ) → Sk → SkOutcome
  http_recv prev sk =
      if rdsz sk.recvbuf == 0
      then none
      else if not (has_rnrn_termination (contents sk.recvbuf))
      then some (fail einput, sk)
      else conclude sk (check_request prev (visible sk.recvbuf))
