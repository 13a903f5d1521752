-- ===== src/Http/Recv/Tests.antt =====
-- A request that is not whole, and one whose request line is bad.
use wsd.Prelude.{◌-◌, ◌≡◌, refl, true, false, none, some, [], ◌∷◌, ◌++◌, arith}
use wsd.Memory.{window, store_list}
use wsd.Skb.{Skb, capacity}
use wsd.Skb.Contents.{contents}
use wsd.Types.{ok, fail, ebadreq, Sk, SkOutcome}
use wsd.Uri.{span}
use wsd.Http.Token.{http_header_tok, start_line_tok, finish}
use wsd.Http.Parser.{Req, scan, parse_request_line}
use wsd.Http.Recv.{http_400, has_rnrn_termination, check_request, http_recv}
use wsd.Http.Recv.Laws.{http_recv_bad}
use wsd.Fixtures.{loaded, loaded-IsValid, socket}

abbrev no_handshake : Sk → Req → SkOutcome
no_handshake sk req = some (ok, sk)

abbrev part : Sk
part = socket 5 (loaded []) (loaded (b'G' ∷ b'E' ∷ []))

-- `G`, and two CRLF, at the end of the array
abbrev at_end : Skb
at_end = record {
  rdpos = capacity - 5;
  wrpos = capacity;
  bytes = store_list (λ _. 0) (capacity - 5) (b'G' ∷ 0x0d ∷ 0x0a ∷ 0x0d ∷ 0x0a ∷ []);
}

abbrev bad_line : Sk
bad_line = socket 5 (loaded []) at_end

http_recv_bad_example :
    (sk' : Sk) × (http_recv no_handshake none bad_line ≡ some (fail ebadreq, sk'))
    × (contents sk'.sendbuf ≡ contents bad_line.sendbuf ++ http_400)
    × (sk'.close_on_write ≡ true)
    × (sk'.events.epollin ≡ false)
    × (sk'.events.epollout ≡ true)
    × (contents sk'.recvbuf ≡ [])
unfolding has_rnrn_termination window store_list check_request http_header_tok start_line_tok span
    finish parse_request_line scan
http_recv_bad_example =
    http_recv_bad no_handshake none bad_line (record { order = omega arith; fits = omega arith })
      (omega arith) refl refl (loaded-IsValid [] (omega arith)) (omega arith)
