-- ===== src/Wscat/Request/Laws.antt =====
-- What create_http_req puts in the send buffer, and what becomes of frames behind the answer.
use wsd.Prelude.{
  ℕ, ◌≤◌, ◌≡◌, refl, ap, ◌∙◌, true, le→ltb, Option, none, some, List, [], ◌∷◌, ◌++◌, length,
  length-append, arith,
}
use wsd.Prelude.Words.{le_bytes}
use wsd.Skb.{Skb, wrsz, write, put, put_strn, reset, strncpy}
use wsd.Skb.Contents.{IsValid, contents, room, wrsz-eq, length-strncpy, contents-reset}
use wsd.Types.{ok, Sk}
use wsd.Sock.{with_recvbuf}
use wsd.Http.Token.{http_header_tok}
use wsd.Http.Recv.{has_rnrn_termination, visible}
use wsd.Skb.Append.{Appends, Appends-nothing, Appends-room, write-Appends, Appends-Appends}
use wsd.Wscat.State.{Cat}
use wsd.Wscat.Events.Laws.{frames_of}
use wsd.Wscat.Request.{
  Piece, chunk, byte, put_piece, put_pieces, request_pieces, RequestConfig, http_req,
  create_http_req, ready, wssk_http_recv,
}

-- The bytes of one piece, and of several.
abbrev pub piece_text : Piece → List ℕ
piece_text (chunk c) = strncpy c.text c.len
piece_text (byte c) = le_bytes 1 c

abbrev pub pieces_text : List Piece → List ℕ
pieces_text [] = []
pieces_text (p ∷ ps) = piece_text p ++ pieces_text ps

stored :
    (b : Skb) (s : List ℕ) (n : ℕ)
    → IsValid b
    → n ≤ room b
    → put_strn b s n ≡ some (write b (strncpy s n))
unfolding put_strn
stored b s n v r = rw (le→ltb (wrsz b) n (omega (arith, wrsz-eq v, r)))

put_piece-Appends :
    (b : Skb) (p : Piece)
    → IsValid b
    → length (piece_text p) ≤ room b
    → Appends b (piece_text p) (put_piece b p)
unfolding put_piece put
put_piece-Appends b (chunk c) v r =
    let size = length-strncpy c.text c.len in
    rw (stored b c.text c.len v (omega (arith, r, size)), put_piece)
      (write-Appends (strncpy c.text c.len) v r)
put_piece-Appends b (byte c) v r = write-Appends (le_bytes 1 c) v r

-- Where there is room for all of them, they follow each other.
pub put_pieces-Appends :
    (b : Skb) (ps : List Piece)
    → IsValid b
    → length (pieces_text ps) ≤ room b
    → Appends b (pieces_text ps) (put_pieces b ps)
unfolding put_pieces
put_pieces-Appends b [] v r = Appends-nothing v
put_pieces-Appends b (p ∷ ps) v r =
    let size = length-append (piece_text p) (pieces_text ps) in
    let first = put_piece-Appends b p v (omega (arith, r, size)) in
    Appends-Appends first (
      put_pieces-Appends (put_piece b p) ps first.valid
        (omega (arith, r, size, Appends-room v first)))

-- The request as it is sent for a configuration.
abbrev pub request_text : RequestConfig → List ℕ
request_text cfg = pieces_text (request_pieces cfg.tls (http_req cfg))

-- A valid send buffer with room for the whole request has it appended, each of its parts in its place.
pub create_http_req_lem :
    (cfg : RequestConfig) (sk : Sk)
    → IsValid sk.sendbuf
    → length (request_text cfg) ≤ room sk.sendbuf
    → (contents (create_http_req cfg sk).sendbuf ≡ contents sk.sendbuf ++ request_text cfg)
      × IsValid (create_http_req cfg sk).sendbuf
unfolding create_http_req
create_http_req_lem cfg sk v r =
    let a = put_pieces-Appends sk.sendbuf (request_pieces cfg.tls (http_req cfg)) v r in
    (a.text, a.valid)

-- Frames that the server sends right behind its answer, so that both have arrived when the answer is
-- read, are lost: the websocket functions start with an empty buffer, and nothing has been printed.
pub answer_drops_frames :
    (prev : Option (List ℕ)) (cat : Cat) (sk : Sk) (answer : List ℕ) (ps : List (List ℕ))
    → contents sk.recvbuf ≡ answer ++ frames_of ps
    → has_rnrn_termination (answer ++ frames_of ps) ≡ true
    → (http_header_tok (some (visible sk.recvbuf)) prev).rv ≡ none
    → (sk' : Sk) × (cat' : Cat) × (wssk_http_recv prev cat sk ≡ (ok, cat'))
      × (cat'.wssk ≡ some sk')
      × (contents sk'.recvbuf ≡ [])
      × (cat'.output ≡ cat.output)
unfolding wssk_http_recv
answer_drops_frames prev cat sk answer ps e whole tok =
    let ended : has_rnrn_termination (contents sk.recvbuf) ≡ true =
      ap has_rnrn_termination e ∙ whole in
    let sk' = record (with_recvbuf sk (reset sk.recvbuf)) { upgraded = true } in
    (
      sk',
      (ready cat sk).1,
      rw ended (rw (tok, wssk_http_recv) refl),
      refl,
      contents-reset sk.recvbuf,
      refl,
    )
