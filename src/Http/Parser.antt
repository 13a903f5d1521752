-- ===== src/Http/Parser.antt =====
-- parse_request_line, parse_header_field and http_field_value_tok of src/parser.c, which fill in
-- the request `http_req_t` of src/types.h.
pub mod Laws
mod Tests
use wsd.Prelude.{
  ℕ, zero, suc, ◌+◌, ◌-◌, Bool, true, false, ◌&&◌, ◌||◌, not, leb, ◌==◌, if◌then◌else◌, Option,
  none, some, List, [], ◌∷◌, length, take,
}
use wsd.Prelude.Words.{sub32}
use wsd.Types.{Chunk, Rv, ok, fail, Errno, einput, echar}
use wsd.Uri.{span, is_empty, starts, rest_of}
use wsd.Pp2.{same_bytes}
use wsd.Http.Word

-- `http_req_t`
pub record Req : Type 0 where
  pub method : Chunk
  pub req_target : Chunk
  pub http_ver : Chunk
  pub host : Chunk
  pub origin : Chunk
  pub user_agent : Chunk
  pub conn : Chunk
  pub conn2 : Chunk
  pub upgrade : Chunk
  pub sec_ws_key : Chunk
  pub sec_ws_ver : Chunk
  pub sec_ws_ext : Chunk
  pub sec_ws_proto : Chunk
  pub is_uri_abs : Bool

-- What a loop `while (i++ < len) if (stop(*cur++)) break;` leaves: the bytes that it read, the one
-- that stopped it included, the text from `cur` on, and `len - i`; `none` if nothing stopped it,
-- when `i` is `len + 1`.
pub record Scan : Type 0 where
  pub read : List ℕ
  pub rest : List ℕ
  pub left : Option ℕ

unfoldable pub scan : (ℕ → Bool) → ℕ → List ℕ → Scan
scan stop zero cs = record { read = []; rest = cs; left = none }
scan stop (suc n) [] = record { read = []; rest = []; left = none }
scan stop (suc n) (c ∷ cs) =
    let s = scan stop n cs in
    if stop c
    then record { read = c ∷ []; rest = cs; left = some n }
    else record s { read = c ∷ s.read }

-- `*(cur - 1)`
abbrev pub last : List ℕ → ℕ
last [] = 0
last (c ∷ []) = c
last (c ∷ d ∷ cs) = last (d ∷ cs)

-- `isupper` in the C locale
abbrev pub is_upper : ℕ → Bool
is_upper c = leb b'A' c && leb c b'Z'

abbrev pub left_of : Option ℕ → ℕ
left_of none = 0
left_of (some n) = n

-- `HTTP_version` as it lies in memory: HTTP/1.1
abbrev pub http_version : List ℕ
http_version = b'H' ∷ b'T' ∷ b'T' ∷ b'P' ∷ b'/' ∷ b'1' ∷ b'.' ∷ b'1' ∷ []

-- `8 != (tok->len - i)` fails with nothing left, too: then `tok->len - i` is -1.
abbrev pub eight_left : Option ℕ → Bool
eight_left none = false
eight_left (some n) = n == 8

-- `i == len` behind the second loop; `i` is at least the number of bytes that both loops read.
abbrev i_after : ℕ → Option ℕ → ℕ
i_after len none = len + 1
i_after len (some n) = len - n

-- From the request target on. `http_ver.p` is set to the start of the target, as in the source.
unfoldable pub parse_target : Chunk → Req → Option ℕ → List ℕ → Rv × Req
parse_target tok req left start =
    let s = scan (λ c. c == 0x20) (left_of left) start in
    let len = length s.read in
    if len == 0 || i_after tok.len s.left == len
    then (fail echar, req)
    else (let req' = record req { req_target = record { text = start; len = len - 1 } } in
        if not (eight_left s.left) || not (same_bytes (take 8 s.rest) http_version)
        then (fail echar, req')
        else (ok, record req' { http_ver = record { text = start; len = 8 } }))

-- A NULL token is one of length 0.
unfoldable pub parse_request_line : Chunk → Req → Rv × Req
parse_request_line tok req =
    if tok.len == 0
    then (fail einput, req)
    else (let s = scan (λ c. not (is_upper c)) tok.len tok.text in
        let len = length s.read in
        if len == 0 || not (last s.read == 0x20)
        then (fail echar, req)
        else parse_target tok (record req { method = record { text = tok.text; len = len - 1 } })
            s.left s.rest)

-- `tolower` in the C locale
abbrev pub lower : ℕ → ℕ
lower c = if is_upper c then c + 32 else c

-- `strncasecmp(s, word, strlen(word)) == 0`
unfoldable pub has_prefix : List ℕ → List ℕ → Bool
has_prefix [] s = true
has_prefix (w ∷ ws) [] = false
has_prefix (w ∷ ws) (c ∷ cs) = lower c == lower w && has_prefix ws cs

-- `ASSIGN`: what is behind the first colon of the text, wherever that is; the length wraps.
abbrev pub value_of : Chunk → Chunk
value_of tok =
    let (name, rest) = span (λ c. not (c == b':')) tok.text in
    record { text = rest_of rest; len = sub32 tok.len (length name + 1) }

-- The first field goes to `conn`, and all later ones to `conn2`.
abbrev assign_conn : Req → Chunk → Req
assign_conn req v = if req.conn.len == 0 then record req { conn = v } else record req { conn2 = v }

-- 1 is `true`, a field that is known.
unfoldable pub parse_header_field : Chunk → Req → Bool × Req
parse_header_field tok req =
    let v = value_of tok in
    if has_prefix Word.host tok.text
    then (true, record req { host = v })
    else if has_prefix Word.upgrade tok.text
    then (true, record req { upgrade = v })
    else if has_prefix Word.connection tok.text
    then (true, assign_conn req v)
    else if has_prefix Word.key tok.text
    then (true, record req { sec_ws_key = v })
    else if has_prefix Word.version tok.text
    then (true, record req { sec_ws_ver = v })
    else if has_prefix Word.protocol tok.text
    then (true, record req { sec_ws_proto = v })
    else if has_prefix Word.extensions tok.text
    then (true, record req { sec_ws_ext = v })
    else if has_prefix Word.origin tok.text
    then (true, record req { origin = v })
    else if has_prefix Word.user_agent tok.text
    then (true, record req { user_agent = v })
    else (false, req)

-- What a call of http_field_value_tok leaves: the token, or `none` for -1, and the chunk that `cur`
-- points to, which it has cut.
pub record ValueTok : Type 0 where
  pub result : Option Chunk
  pub cur : Chunk

-- The call on the chunk that `s` points to, or `prev` where `s` is NULL: both callers go on with the
-- chunk that they began with, so that `prev` always is that chunk.
unfoldable pub http_field_value_tok : Chunk → ValueTok
http_field_value_tok cur =
    if cur.len == 0
    then record { result = none; cur = cur }
    else (let s = scan (λ c. c == b',') cur.len cur.text in
        elim s.left [
          | none ↦ record {
            result = some (record { text = cur.text; len = cur.len });
            cur = record { text = s.rest; len = 0 };
          }
          | some n ↦ record {
            result = some (record { text = cur.text; len = length s.read - 1 });
            cur = record { text = s.rest; len = n };
          }
        ])
