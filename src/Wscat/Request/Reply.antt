-- ===== src/Wscat/Request/Reply.antt =====
-- What wscat makes of the reply of the daemon.
use wsd.Prelude.{
  ℕ, ◌-◌, true, ◌≡◌, refl, sym, ap, ◌∙◌, Option, none, some, List, [], ◌++◌, append_assoc,
}
use wsd.Prelude.Text.{literal, crlf}
use wsd.Memory.{window}
use wsd.Skb.{capacity}
use wsd.Skb.Contents.{IsValid, contents}
use wsd.Types.{Sk}
use wsd.Http.Token.{is_rfc7230_start_line, http_header_tok}
use wsd.Http.Token.Laws.{http_header_tok-line}
use wsd.Http.Parser.{Req}
use wsd.Http.Recv.{has_rnrn_termination, visible}
use wsd.Http.Recv.Laws.{visible-eq}
use wsd.Http.Fields.{rnrn-append, rnrn_first}
use wsd.Upgrade.{ws_proto}
use wsd.Upgrade.Reply.{accept_part, version_part, reply, whole_reply}
use wsd.Wscat.State.{Cat}
use wsd.Wscat.Request.{ready, wssk_http_recv}
use wsd.Wscat.Request.Fields.{passing}

status_line_tok :
    (value proto behind : List ℕ) (prev : Option (List ℕ))
    → (http_header_tok (some (reply value proto ++ behind)) prev).rv ≡ none
status_line_tok value proto behind prev =
    let line = literal "HTTP/1.1 101 Switching Protocols" in
    ap (λ t. t.rv) (http_header_tok-line line _ prev (passing is_rfc7230_start_line line refl))

reply-ends : (value proto : List ℕ) → has_rnrn_termination (reply value proto) ≡ true
reply-ends value proto =
    let front = accept_part value ++ version_part in
    let text = ws_proto ++ proto in
    ap has_rnrn_termination (
      ap (λ t. t ++ crlf) (sym (append_assoc front text crlf))
      ∙ append_assoc (front ++ text) crlf crlf)
    ∙ rnrn-append (front ++ text) (crlf ++ crlf) (rnrn_first [])

-- The reply of the daemon to any request, in full and in a valid buffer, makes wscat ready.
pub wssk_http_recv-whole_reply :
    (accept_value : List ℕ → List ℕ) (req : Req) (prev : Option (List ℕ)) (cat : Cat) (sk : Sk)
    → IsValid sk.recvbuf
    → contents sk.recvbuf ≡ whole_reply accept_value req
    → wssk_http_recv prev cat sk ≡ ready cat sk
unfolding wssk_http_recv
wssk_http_recv-whole_reply accept_value req prev cat sk v e =
    let text = whole_reply accept_value req in
    let behind = window sk.recvbuf.bytes sk.recvbuf.wrpos (capacity - sk.recvbuf.wrpos) in
    let ended : has_rnrn_termination (contents sk.recvbuf) ≡ true =
      ap has_rnrn_termination e ∙ reply-ends _ _ in
    let tok : (http_header_tok (some (visible sk.recvbuf)) prev).rv ≡ none =
      ap (λ t. (http_header_tok (some t) prev).rv)
        (visible-eq sk.recvbuf v ∙ ap (λ t. t ++ behind) e)
      ∙ status_line_tok _ _ behind prev in
    rw ended (rw (tok, wssk_http_recv) refl)
