-- ===== src/Ws/Data/Dispatch.antt =====
-- Control frames that arrive from a client, and a header that arrives in two pieces.
use wsd.Prelude.{
  ℕ, ◌^◌, ◌≤◌, ◌<◌, ◌≡◌, refl, ap, ◌∙◌, true, false, le→ltb, lt→ltb, List, [], ◌∷◌, ◌++◌, length,
  some, none, arith,
}
use wsd.Prelude.Words.{of_le, be_bytes, bswap}
use wsd.Skb.{rdsz, get, rd_forward, compact, write}
use wsd.Skb.Contents.{
  IsValid, contents, room, rdsz-eq, contents-write, contents-compact, get_front, contents-front,
  front-IsValid,
}
use wsd.Types.{ok, fail, einput, Pair, Sk}
use wsd.Sock.{turn_on_epollout, with_recvbuf}
use wsd.Ws.Header.{
  opcode, rsv_bits, decode_payload_len, ws_ping_frame, ws_pong_frame, ws_close_frame,
}
use wsd.Ws.Control.{ws_pong, finish_closing_handshake}
use wsd.Ws.Control.Bytes.{control_head, close_frame-plain}
use wsd.Ws.Control.Closing.{pong_aborts, ws_pong_lem, finish_answers}
use wsd.Ws.Data.{ws_decode_frame, dispatch_payload, on_client}
use wsd.Ws.Data.Whole.{staged, unmasked, decode-dispatch, unmasked-IsValid, contents-unmasked}
use wsd.Ws.Data.Forward.{Arrived}

module _ (byte1 key : ℕ) (payload rest : List ℕ) (p : Pair) (bits : rsv_bits byte1 ≡ false)
    (a : Arrived byte1 key payload rest p) where
  abbrev clear : Pair
  clear = unmasked p key payload

  abbrev sk : Sk
  sk = clear.client

  decoded : ws_decode_frame p ≡ dispatch_payload (staged byte1 key payload) clear
  decoded = decode-dispatch p byte1 key payload rest a.valid a.key_fits bits a.frame

  clear_contents : contents sk.recvbuf ≡ payload ++ rest
  clear_contents =
      contents-unmasked p byte1 key payload rest a.valid a.key_fits bits a.frame a.bytes

  clear_valid : IsValid sk.recvbuf
  clear_valid = unmasked-IsValid p byte1 key payload rest a.valid a.key_fits bits a.frame a.bytes

  dispatch-ping :
      opcode byte1 ≡ ws_ping_frame
      → dispatch_payload (staged byte1 key payload) clear
        ≡ on_client clear (ws_pong (with_recvbuf sk (compact sk.recvbuf)) false)
  unfolding dispatch_payload
  dispatch-ping e = rw e

  dispatch-close :
      opcode byte1 ≡ ws_close_frame
      → dispatch_payload (staged byte1 key payload) clear
        ≡ on_client clear (finish_closing_handshake sk false (length payload))
  unfolding dispatch_payload
  dispatch-close e = rw e

  -- A whole ping without RSV bits that arrives while the closing handshake is under way ends the process.
  pub decode_ping_aborts :
      opcode byte1 ≡ ws_ping_frame → p.client.closing ≡ true → ws_decode_frame p ≡ none
  decode_ping_aborts op c =
      decoded
      ∙ dispatch-ping op
      ∙ ap (on_client clear) (pong_aborts (with_recvbuf sk (compact sk.recvbuf)) false c).0

  -- Where no closing handshake is under way and the valid send buffer has room for two bytes, a whole
  -- ping without RSV bits is answered by an empty pong frame, and the socket is woken to write. The
  -- ping's payload stays in the buffer, in front of what follows the frame.
  pub decode_ping :
      opcode byte1 ≡ ws_ping_frame
      → p.client.closing ≡ false
      → IsValid p.client.sendbuf
      → 2 ≤ room p.client.sendbuf
      → (q : Pair) × (ws_decode_frame p ≡ some (ok, q))
        × (contents q.client.sendbuf
            ≡ contents p.client.sendbuf ++ control_head ws_pong_frame false 0)
        × (q.client.events.epollout ≡ true)
        × (contents q.client.recvbuf ≡ payload ++ rest)
        × (q.pp2sk ≡ p.pp2sk)
  decode_ping op c v r =
      let sk' = with_recvbuf sk (compact sk.recvbuf) in
      let pong : ws_pong sk' false
          ≡ some (
            ok,
            turn_on_epollout (record sk' {
              sendbuf = write p.client.sendbuf (control_head ws_pong_frame false 0);
            }),
          ) =
        ws_pong_lem sk' false v c ∙ rw (le→ltb (room p.client.sendbuf) 2 r) in
      (
        record clear {
          client = turn_on_epollout (record sk' {
            sendbuf = write p.client.sendbuf (control_head ws_pong_frame false 0);
          });
        },
        decoded ∙ dispatch-ping op ∙ ap (on_client clear) pong,
        contents-write (control_head ws_pong_frame false 0) v r,
        refl,
        contents-compact clear_valid ∙ clear_contents,
        refl,
      )

  -- Where no closing handshake is under way, a whole close frame without RSV bits that carries a
  -- status above 0 is answered with an unmasked close frame of the same status, if the valid send buffer
  -- has room for its four bytes; the socket is closed when that is written, and what follows the frame is
  -- dropped.
  pub decode_close :
      (status : ℕ) (reason : List ℕ)
      → opcode byte1 ≡ ws_close_frame
      → p.client.closing ≡ false
      → IsValid p.client.sendbuf
      → 4 ≤ room p.client.sendbuf
      → 0 < status
      → status < 2 ^ 16
      → payload ≡ be_bytes 2 status ++ reason
      → (q : Pair) × (ws_decode_frame p ≡ some (ok, q))
        × (contents q.client.sendbuf ≡ contents p.client.sendbuf ++ (0x88 ∷ 2 ∷ be_bytes 2 status))
        × (q.client.closing ≡ true)
        × (q.client.close_on_write ≡ true)
        × (contents q.client.recvbuf ≡ [])
        × (q.pp2sk ≡ p.pp2sk)
  decode_close status reason op c v r there fits e =
      let long : 2 ≤ length payload = omega (arith, ap length e) in
      let starts : contents sk.recvbuf ≡ be_bytes 2 status ++ (reason ++ rest) =
        clear_contents ∙ ap (λ t. t ++ rest) e in
      let (sk', done, sent, closing_set, to_close, empty) =
        finish_answers sk false (length payload) status (reason ++ rest) v clear_valid c long fits
          starts r in
      (
        record clear { client = sk' },
        decoded ∙ dispatch-close op ∙ ap (on_client clear) done,
        sent ∙ ap (λ t. contents p.client.sendbuf ++ t) (close_frame-plain status there),
        closing_set,
        to_close,
        empty,
        refl,
      )

-- In a valid buffer, with a 16-bit length and no RSV bit, where two or three bytes of the masking key have arrived: the call wants
-- more input, but what it has read of the header is gone, so that the rest is read as a frame.
pub decode_loses_short_header :
    (byte1 : ℕ) (len : ℕ) (some_key : List ℕ) (p : Pair)
    → IsValid p.client.recvbuf
    → rsv_bits byte1 ≡ false
    → contents p.client.recvbuf ≡ byte1 ∷ 254 ∷ (be_bytes 2 len ++ some_key)
    → 2 ≤ length some_key
    → length some_key ≤ 3
    → (q : Pair) × (ws_decode_frame p ≡ some (fail einput, q))
      × (contents q.client.recvbuf ≡ some_key)
unfolding ws_decode_frame decode_payload_len
decode_loses_short_header byte1 len key p v bits e lo hi =
    let b = p.client.recvbuf in
    let b1 = rd_forward b 1 in
    let b2 = rd_forward b1 1 in
    let b3 = rd_forward b2 2 in
    let v1 = front-IsValid v (byte1 ∷ []) (254 ∷ (be_bytes 2 len ++ key)) e in
    let e1 = contents-front v (byte1 ∷ []) (254 ∷ (be_bytes 2 len ++ key)) e in
    let v2 = front-IsValid v1 (254 ∷ []) (be_bytes 2 len ++ key) e1 in
    let e2 = contents-front v1 (254 ∷ []) (be_bytes 2 len ++ key) e1 in
    let v3 = front-IsValid v2 (be_bytes 2 len) key e2 in
    let e3 = contents-front v2 (be_bytes 2 len) key e2 in
    let g1 : get 1 b ≡ (byte1, b1) =
      get_front v (byte1 ∷ []) (254 ∷ (be_bytes 2 len ++ key)) e
      ∙ ap (λ c. (c, b1)) (omega arith) in
    let g2 : get 1 b1 ≡ (254, b2) = get_front v1 (254 ∷ []) (be_bytes 2 len ++ key) e1 in
    (
      record p { client = with_recvbuf p.client b3 },
      rw (
        le→ltb (rdsz b) 6 (omega (arith, rdsz-eq v, ap length e)),
        g1,
        g2,
        bits,
        le→ltb (rdsz b2) 2 (omega (arith, rdsz-eq v2, ap length e2)),
        get_front v2 (be_bytes 2 len) key e2,
        le→ltb (bswap 2 (of_le (be_bytes 2 len))) 0 (omega arith),
        lt→ltb (rdsz b3) 4 (omega (arith, rdsz-eq v3, ap length e3, hi)),
      ),
      e3,
    )
