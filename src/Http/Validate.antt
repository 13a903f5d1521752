-- ===== src/Http/Validate.antt =====
-- trim of src/common.c and the checks of src/http.c on a parsed request, up to http_recv.
pub mod Laws
mod Tests
use wsd.Prelude.{
  ℕ, zero, suc, ◌+◌, ◌-◌, Bool, true, false, ◌&&◌, ◌||◌, not, ltb, ◌==◌, if◌then◌else◌, Option,
  none, some, List, [], ◌∷◌, length, take, drop,
}
use wsd.Skb.{Skb, rdsz, put_strn, reset}
use wsd.Memory.{window}
use wsd.Types.{Chunk, Rv, ok, fail, Errno, einput, ebadreq, Sk}
use wsd.Sock.{turn_on_epollout, turn_off_epollin, with_sendbuf, with_recvbuf}
use wsd.Uri.{is_empty}
use wsd.Http.Word
use wsd.Http.Token.{http_header_tok, TokResult}
use wsd.Http.Parser.{
  Req, has_prefix, lower, parse_request_line, parse_header_field, ValueTok, http_field_value_tok,
}

-- `*(p + i)`; behind the end of the text, a byte that is no blank
abbrev pub nth : ℕ → List ℕ → ℕ
nth i [] = 0
nth zero (c ∷ cs) = c
nth (suc i) (c ∷ cs) = nth i cs

abbrev pub is_blank : ℕ → Bool
is_blank c = c == 0x20 || c == 0x09

abbrev pub rest_text : List ℕ → List ℕ
rest_text [] = []
rest_text (c ∷ cs) = cs

-- The first loop: as in the source both `p` and `i` move.
unfoldable pub trim_left : ℕ → ℕ → List ℕ → Chunk
trim_left i zero text = record { text = text; len = 0 }
trim_left i (suc n) text =
    let rest = trim_left (i + 1) n (rest_text text) in
    if is_blank (nth i text) then rest else record { text = text; len = suc n }

-- The second loop: the length that is left.
unfoldable pub trim_right : ℕ → List ℕ → ℕ
trim_right zero text = 0
trim_right (suc n) text =
    let rest = trim_right n text in if is_blank (nth n text) then rest else suc n

unfoldable pub trim : Chunk → Chunk
trim chk =
    let c = trim_left 0 chk.len chk.text in record { text = c.text; len = trim_right c.len c.text }

-- `strncmp(p, word, n) == 0`, where both end with a NUL at their end
unfoldable pub strncmp_eq : ℕ → List ℕ → List ℕ → Bool
strncmp_eq zero xs ys = true
strncmp_eq (suc n) [] [] = true
strncmp_eq (suc n) [] (y ∷ ys) = false
strncmp_eq (suc n) (x ∷ xs) [] = false
strncmp_eq (suc n) (x ∷ xs) (y ∷ ys) = x == y && strncmp_eq n xs ys

abbrev pub method_get : List ℕ
method_get = b'G' ∷ b'E' ∷ b'T' ∷ []

abbrev pub uri_any : List ℕ
uri_any = b'*' ∷ []

abbrev pub uri_absolute : List ℕ
uri_absolute = b'h' ∷ b't' ∷ b't' ∷ b'p' ∷ b':' ∷ b'/' ∷ b'/' ∷ []

-- The request with `is_uri_abs`, or `none` for 0.
unfoldable pub is_valid_req_line : Req → Option Req
is_valid_req_line hreq =
    if hreq.method.len == 3 && not (strncmp_eq hreq.method.len hreq.method.text method_get)
    then none
    else if strncmp_eq hreq.req_target.len hreq.req_target.text uri_any
    then none
    else if has_prefix uri_absolute hreq.req_target.text
    then some (record hreq { is_uri_abs = true })
    else some hreq

abbrev pub is_valid_host_header_field : Req → Bool
is_valid_host_header_field hreq = not (hreq.host.len == 0)

-- `0 < http_field_value_tok(cur, &result)`: the token if it is there and not empty
abbrev pub positive : Option Chunk → Option Chunk
positive none = none
positive (some c) = if c.len == 0 then none else some c

-- `while (0 < http_field_value_tok(...)) if (found(&result)) return 1; return 0;` on `n` rounds.
-- Each call takes at least one byte off the chunk, so its length and one more are rounds enough; `none`
-- is a loop that has not come to its end in them. The chunk is the request's own and stays cut there; no
-- code reads it after the checks.
unfoldable pub any_value : List ℕ → ℕ → Chunk → Option Bool
any_value word zero cur = none
any_value word (suc n) cur =
    let t = http_field_value_tok cur in
    let rest = any_value word n t.cur in
    elim (positive t.result) [
      | none ↦ some false
      | some c ↦ if has_prefix word (trim c).text then some true else rest
    ]

abbrev is_found : Option Bool → Bool
is_found none = false
is_found (some b) = b

abbrev websocket : List ℕ
websocket = b'w' ∷ b'e' ∷ b'b' ∷ b's' ∷ b'o' ∷ b'c' ∷ b'k' ∷ b'e' ∷ b't' ∷ []

abbrev pub is_valid_upgrade_header_field : Req → Bool
is_valid_upgrade_header_field hreq =
    is_found (any_value websocket (suc hreq.upgrade.len) hreq.upgrade)

abbrev pub tokenise_connection : Chunk → Bool
tokenise_connection s = is_found (any_value Word.upgrade (suc s.len) s)

abbrev pub is_valid_connection_header_field : Req → Bool
is_valid_connection_header_field hreq =
    tokenise_connection hreq.conn || tokenise_connection hreq.conn2
