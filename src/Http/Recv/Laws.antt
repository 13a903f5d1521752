-- ===== src/Http/Recv/Laws.antt =====
-- What http_recv answers.
use wsd.Prelude.{
  ℕ, ◌≤◌, ◌<◌, ◌≡◌, ◌+◌, ◌-◌, ◌∙◌, refl, ap, true, false, ◌==◌, le→ltb, Option, some, List, [],
  ◌++◌, length, arith,
}
use wsd.Memory.{window}
use wsd.Memory.Laws.{window-append}
use wsd.Skb.{Skb, capacity, rdsz, wrsz, write, put_strn, reset, strncpy}
use wsd.Skb.Contents.{IsValid, contents, room, wrsz-eq, rdsz-eq, contents-write, contents-reset}
use wsd.Sock.{with_recvbuf, turn_on_epollout, turn_off_epollin}
use wsd.Types.{fail, einput, ebadreq, Sk, SkOutcome}
use wsd.Http.Parser.{Req}
use wsd.Http.Recv.{
  http_400, has_rnrn_termination, accepted, bad, conclude, check_request, on_error, answered,
  visible, http_recv,
}

-- The array from the read position on: the contents, and what stands behind them.
pub visible-eq :
    (b : Skb) → IsValid b → visible b ≡ contents b ++ window b.bytes b.wrpos (capacity - b.wrpos)
visible-eq b v =
    let size : capacity - b.rdpos ≡ (b.wrpos - b.rdpos) + (capacity - b.wrpos) = omega arith in
    let here : b.rdpos + (b.wrpos - b.rdpos) ≡ b.wrpos = omega arith in
    ap (window b.bytes b.rdpos) size
    ∙ window-append b.bytes b.rdpos (b.wrpos - b.rdpos) (capacity - b.wrpos)
    ∙ ap (λ i. contents b ++ window b.bytes i (capacity - b.wrpos)) here

module _ (decode_handshake : Sk → Req → SkOutcome) (prev : Option (List ℕ)) (sk : Sk)
    (v : IsValid sk.recvbuf) where
  not_empty : 0 < length (contents sk.recvbuf) → (rdsz sk.recvbuf == 0) ≡ false
  not_empty h = ground (arith, rdsz-eq v)

  put_all :
      IsValid sk.sendbuf
      → length http_400 ≤ room sk.sendbuf
      → put_strn sk.sendbuf http_400 (length http_400) ≡ some (write sk.sendbuf http_400)
  unfolding put_strn strncpy
  put_all w r = rw (le→ltb (wrsz sk.sendbuf) 47 (omega (arith, wrsz-eq w, r)))

  -- A request that is not whole yet, in a valid buffer that is not empty, is waited for: nothing changes.
  pub http_recv_waits :
      0 < length (contents sk.recvbuf)
      → has_rnrn_termination (contents sk.recvbuf) ≡ false
      → http_recv decode_handshake prev sk ≡ some (fail einput, sk)
  unfolding http_recv
  http_recv_waits some_bytes open_ = ground (arith, rdsz-eq v)

  -- A whole request that is accepted is handed on, with what has been received dropped.
  pub http_recv-accepted :
      (req : Req)
      → 0 < length (contents sk.recvbuf)
      → has_rnrn_termination (contents sk.recvbuf) ≡ true
      → check_request prev (visible sk.recvbuf) ≡ accepted req
      → http_recv decode_handshake prev sk
        ≡ decode_handshake (with_recvbuf sk (reset sk.recvbuf)) req
  unfolding http_recv
  http_recv-accepted req some_bytes whole e =
      rw (not_empty some_bytes, whole) (ap (conclude decode_handshake sk) e)

  -- A whole request that is found bad is answered with HTTP 400, if the valid send buffer has room for
  -- it: the socket is to be closed when that is written, reading is off, writing is on, and what has
  -- been received is dropped.
  pub http_recv_bad :
      0 < length (contents sk.recvbuf)
      → has_rnrn_termination (contents sk.recvbuf) ≡ true
      → check_request prev (visible sk.recvbuf) ≡ bad
      → IsValid sk.sendbuf
      → length http_400 ≤ room sk.sendbuf
      → (sk' : Sk) × (http_recv decode_handshake prev sk ≡ some (fail ebadreq, sk'))
        × (contents sk'.sendbuf ≡ contents sk.sendbuf ++ http_400)
        × (sk'.close_on_write ≡ true)
        × (sk'.events.epollin ≡ false)
        × (sk'.events.epollout ≡ true)
        × (contents sk'.recvbuf ≡ [])
  unfolding http_recv
  http_recv_bad some_bytes whole e w r =
      let stored : put_strn sk.sendbuf http_400 (length http_400)
          ≡ some (write sk.sendbuf http_400) =
        put_all w r in
      (
        record (turn_on_epollout (turn_off_epollin sk)) {
          sendbuf = write sk.sendbuf http_400;
          recvbuf = reset sk.recvbuf;
          close_on_write = true;
        },
        rw (not_empty some_bytes, whole, e) (ap (λ o. some (on_error (answered sk o))) stored),
        contents-write http_400 w r,
        refl,
        refl,
        refl,
        contents-reset sk.recvbuf,
      )
