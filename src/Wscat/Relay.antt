-- ===== src/Wscat/Relay.antt =====
-- wscat and wsd together: what is typed reaches the backend, and what the backend sends is printed.
use wsd.Prelude.{
  ℕ, ◌+◌, ◌≤◌, ◌≡◌, refl, sym, ap, ◌∙◌, Bool, true, List, [], ◌++◌, append-nil, take, All, Option,
  some, none, arith,
}
use wsd.Prelude.Words.{IsByte}
use wsd.Skb.{Skb}
use wsd.Skb.Contents.{IsValid, contents, room}
use wsd.Types.{Rv, ok, Frame, Sk, Pair}
use wsd.Pp2.{pp2_header_len}
use wsd.Pp2.Encode.{pp2_frame}
use wsd.Ws.Data.{ws_decode_frame, ws_encode_frame}
use wsd.Ws.Data.Spec.{client_frame, server_frame}
use wsd.Ws.Data.Forward.{IsData, decode_forwards}
use wsd.Ws.Data.Deliver.{Passes, fin_text, header_size, payload_of, ws_encode_frame_lem}
use wsd.Wscat.Frame.{data_key, payload_size, encode_data_frame, decode_frame}
use wsd.Wscat.Frame.Encode.{payload, size, encode_data_frame_lem}
use wsd.Wscat.Frame.Decode.{decode_prints}

-- What stands in the first of the buffers of a result.
abbrev first_contents : Option (Rv × (Skb × Skb)) → List ℕ
first_contents none = []
first_contents (some (rv, (dst, src))) = contents dst

abbrev client_sent : Option (Rv × Pair) → List ℕ
client_sent none = []
client_sent (some (rv, q)) = contents q.client.sendbuf

text_IsData : IsData fin_text
text_IsData = record { no_rsv = refl; data_opcode = refl }

-- wscat encodes the first bytes of its input into an empty, valid send buffer that has room for the
-- frame. If what it sends arrives as a client's receive buffer in wsd, all buffers are valid and that to
-- the backend has room, then the same bytes go to the backend behind a proxy header with the client's
-- addresses and hash, and nothing is left to read.
pub input_reaches_backend :
    (dst src dst' src' : Skb) (maxlen : ℕ) (p : Pair)
    → (v : IsValid dst) → (w : IsValid src)
    → header_size (payload_size src maxlen) + 4 + payload_size src maxlen ≤ room dst
    → contents dst ≡ []
    → All IsByte (take (payload_size src maxlen) (contents src))
    → encode_data_frame dst src maxlen ≡ some (ok, (dst', src'))
    → contents p.client.recvbuf ≡ contents dst'
    → IsValid p.client.recvbuf
    → IsValid p.pp2sk.sendbuf
    → payload_size src maxlen + pp2_header_len ≤ room p.pp2sk.sendbuf
    → (q : Pair) × (ws_decode_frame p ≡ some (ok, q))
      × (contents q.pp2sk.sendbuf
          ≡ contents p.pp2sk.sendbuf
            ++ pp2_frame p.client (take (payload_size src maxlen) (contents src)))
      × (contents q.client.recvbuf ≡ [])
input_reaches_backend dst src dst' src' maxlen p v w r empty bytes sent arrived recv_valid
      back_valid free =
    let text = payload dst src maxlen v w in
    let (d, s, e, out, rest, dv, sv) = encode_data_frame_lem dst src maxlen v w r in
    let frame : contents p.client.recvbuf ≡ client_frame fin_text data_key text ++ [] =
      arrived
      ∙ ap first_contents (sym sent ∙ e)
      ∙ out
      ∙ ap (λ t. t ++ client_frame fin_text data_key text) empty
      ∙ sym (append-nil (client_frame fin_text data_key text)) in
    let (q, done, forwarded, left, qv, qw) =
      decode_forwards fin_text data_key text [] p text_IsData
        (record {
          valid = recv_valid;
          backend_valid = back_valid;
          key_fits = omega arith;
          bytes = bytes;
          frame = frame;
        })
        (omega (arith, free, size dst src maxlen v w)) in
    (q, done, forwarded, left)

-- wsd encodes a payload from the backend into the empty, valid send buffer of a client, which has room
-- for the frame. If what it sends arrives as wscat's valid receive buffer, wscat prints just that
-- payload, and nothing is left to read.
pub backend_reaches_output :
    (wsf : Frame) (p q : Pair) (no_handshake : Bool) (sk : Sk)
    → Passes wsf p
    → header_size wsf.payload_len + wsf.payload_len ≤ room p.client.sendbuf
    → contents p.client.sendbuf ≡ []
    → ws_encode_frame wsf p ≡ some (ok, q)
    → contents sk.recvbuf ≡ contents q.client.sendbuf
    → IsValid sk.recvbuf
    → (sk' : Sk) × (decode_frame true no_handshake sk ≡ some (ok, (sk', payload_of wsf p)))
      × (contents sk'.recvbuf ≡ [])
backend_reaches_output wsf p q no_handshake sk f r empty sent arrived v =
    let text = payload_of wsf p in
    let (q', e, out, rest, woken, kept, qv, qw) = ws_encode_frame_lem wsf p f r in
    let frame : contents sk.recvbuf ≡ server_frame fin_text text ++ [] =
      arrived
      ∙ ap client_sent (sym sent ∙ e)
      ∙ out
      ∙ ap (λ t. t ++ server_frame fin_text text) empty
      ∙ sym (append-nil (server_frame fin_text text)) in
    let (sk', done, left, w, same) =
      decode_prints no_handshake sk fin_text text [] v text_IsData frame in
    (sk', done, left)
