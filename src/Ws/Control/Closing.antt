-- ===== src/Ws/Control/Closing.antt =====
-- The closing handshake as a state machine of one socket, and the statuses that are sent.
use wsd.Prelude.{
  le→ltb, ℕ, ◌+◌, ◌/◌, ◌%◌, ◌^◌, ◌≤◌, ◌<◌, ◌≡◌, ◌≢◌, refl, sym, ap, ◌∙◌, Bool, true, false, ltb,
  if◌then◌else◌, List, [], ◌∷◌, ◌++◌, none, some, arith,
}
use wsd.Prelude.Words.{be_bytes, le_bytes, of_be, bswap}
use wsd.Skb.{Skb, write, get, reset}
use wsd.Skb.Contents.{IsValid, contents, room, wrsz-eq, contents-write, contents-reset, get_front}
use wsd.Types.{ok, fail, enomem, Sk}
use wsd.Mask.{mask}
use wsd.Mask.Laws.{mask-mask}
use wsd.Ws.Header.Laws.{bswap2-be_bytes}
use wsd.Ws.Control.{
  encode_close_frame, control_key, frame_len, status_len, ws_ping, ws_pong, start_closing_handshake,
  finish_closing_handshake,
}
use wsd.Sock.{turn_on_epollout}
use wsd.Ws.Header.{ws_pong_frame}
use wsd.Ws.Control.Bytes.{
  control_head, status_bytes, close_frame, encode_close_frame_lem, encode_ping_pong_frame_lem,
  close_frame-masked, length-close_frame, status_len-le, frame_len-ge,
}

-- The two bytes of status under the mask, and what the peer reads from them without it.
abbrev high : ℕ → ℕ
high status = mask (bswap 2 status / 4 % 256) 0 control_key

abbrev low : ℕ → ℕ
low status = mask (bswap 2 status % 256) 1 control_key

read_masked :
    (status : ℕ)
    → of_be (mask (high status) 0 control_key ∷ mask (low status) 1 control_key ∷ [])
      ≡ of_be (bswap 2 status / 4 % 256 ∷ bswap 2 status % 256 ∷ [])
read_masked status = λ i. of_be (
    mask-mask (bswap 2 status / 4 % 256) 0 control_key (omega arith) i
    ∷ mask-mask (bswap 2 status % 256) 1 control_key (omega arith) i
    ∷ [])

other_number :
    (status : ℕ)
    → 1000 ≤ status
    → status ≤ 4999
    → of_be (mask (high status) 0 control_key ∷ mask (low status) 1 control_key ∷ []) ≢ status
other_number status lo hi e = absurd (omega (arith, sym (read_masked status) ∙ e))

-- For every status from 1000 to 4999 and a valid buffer with room for eight bytes, encode_close_frame
-- with a mask appends the two bytes of the head, the key and two bytes of payload; and what the peer
-- reads when it takes the mask off these two, in network order, is another number than the status.
pub masked_status_lost :
    (dst : Skb) (status : ℕ)
    → IsValid dst
    → 8 ≤ room dst
    → 1000 ≤ status
    → status ≤ 4999
    → (dst' : Skb) × (x : ℕ) × (y : ℕ) × (encode_close_frame dst status true ≡ some (ok, dst'))
      × (contents dst' ≡ contents dst ++ (0x88 ∷ 130 ∷ (le_bytes 4 control_key ++ (x ∷ y ∷ []))))
      × (of_be (mask x 0 control_key ∷ mask y 1 control_key ∷ []) ≢ status)
masked_status_lost dst status v r lo hi = (
  write dst (close_frame status true),
  high status,
  low status,
  encode_close_frame_lem dst status true v
      ∙ rw (
          le→ltb (room dst) (frame_len true + status_len status)
            (omega (arith, r, status_len-le status))),
  contents-write (close_frame status true) v
        (omega (arith, length-close_frame status true, r, status_len-le status))
      ∙ ap (λ t. contents dst ++ t) (close_frame-masked status (omega (arith, lo))),
  other_number status lo hi,
)

-- Without a mask the status is sent in network order.
pub unmasked_status_kept :
    (status : ℕ) → status < 2 ^ 16 → of_be (status_bytes status false) ≡ status
unmasked_status_kept status h = omega (arith, h)

-- Starting, with a valid send buffer: the process ends if the handshake has begun already; without room nothing is sent and
-- nothing changes; else the close frame is appended, and the socket is closing and woken to write.
pub start_closing_handshake_lem :
    (sk : Sk) (status : ℕ) (m : Bool)
    → IsValid sk.sendbuf
    → start_closing_handshake sk status m ≡ (
        if sk.closing
        then none
        else if ltb (room sk.sendbuf) (frame_len m + status_len status)
        then some (fail enomem, sk)
        else some (
          ok,
          turn_on_epollout
              (record sk { sendbuf = write sk.sendbuf (close_frame status m); closing = true }),
        ))
unfolding start_closing_handshake
start_closing_handshake_lem sk status m v =
    ground (arith, encode_close_frame_lem sk.sendbuf status m v)

-- A close frame that comes while the socket is closing ends the handshake: the socket is to be
-- closed, nothing more is sent, and nothing behind the frame is processed.
pub finish_closing :
    (sk : Sk) (m : Bool) (len : ℕ)
    → sk.closing ≡ true
    → (sk' : Sk) × (finish_closing_handshake sk m len ≡ some (ok, sk'))
      × (sk'.close ≡ true)
      × (sk'.closing ≡ false)
      × (contents sk'.recvbuf ≡ [])
      × (sk'.sendbuf ≡ sk.sendbuf)
unfolding finish_closing_handshake
finish_closing sk m len c = (
  record sk { recvbuf = reset sk.recvbuf; closing = false; close = true },
  ground arith,
  refl,
  refl,
  contents-reset sk.recvbuf,
  refl,
)

module _ (sk : Sk) (m : Bool) (len status : ℕ) (rest : List ℕ) (v : IsValid sk.sendbuf)
    (w : IsValid sk.recvbuf) (open_ : sk.closing ≡ false) (long : 2 ≤ len) (fits : status < 2 ^ 16)
    (e : contents sk.recvbuf ≡ be_bytes 2 status ++ rest)
    (r : frame_len m + 2 ≤ room sk.sendbuf) where
  status_read : bswap 2 (get 2 sk.recvbuf).0 ≡ status
  status_read =
      ap (λ t. bswap 2 t.0) (get_front w (be_bytes 2 status) rest e) ∙ bswap2-be_bytes status fits

  abbrev answered : Sk
  answered = record sk {
    sendbuf = write sk.sendbuf (close_frame status m);
    recvbuf = reset sk.recvbuf;
    close_on_write = true;
    closing = true;
  }

  -- A close frame that opens the handshake and carries a status is answered with that status, if
  -- there is room: the socket is then closing, and to be closed when the answer is written. What is
  -- behind the frame is dropped.
  pub finish_answers :
      (sk' : Sk) × (finish_closing_handshake sk m len ≡ some (ok, sk'))
      × (contents sk'.sendbuf ≡ contents sk.sendbuf ++ close_frame status m)
      × (sk'.closing ≡ true)
      × (sk'.close_on_write ≡ true)
      × (contents sk'.recvbuf ≡ [])
  unfolding finish_closing_handshake
  finish_answers = (
    answered,
    ground (
      arith,
      status_read,
      wrsz-eq v,
      encode_close_frame_lem sk.sendbuf status m v,
      status_len-le status,
      frame_len-ge m,
    ),
    contents-write (close_frame status m) v
        (omega (arith, length-close_frame status m, r, status_len-le status)),
    refl,
    refl,
    contents-reset sk.recvbuf,
  )

-- A ping or a pong that is due while the closing handshake is under way ends the process.
pub pong_aborts :
    (sk : Sk) (m : Bool) → sk.closing ≡ true → (ws_pong sk m ≡ none) × (ws_ping sk m ≡ none)
unfolding ws_pong ws_ping
pong_aborts sk m c = (rw c, rw c)

-- Where no closing handshake is under way and the send buffer is valid, the pong frame is appended
-- and the socket is woken to write; without room for it ENOMEM is returned and nothing changes.
pub ws_pong_lem :
    (sk : Sk) (m : Bool)
    → IsValid sk.sendbuf
    → sk.closing ≡ false
    → ws_pong sk m ≡ (
        if ltb (room sk.sendbuf) (frame_len m)
        then some (fail enomem, sk)
        else some (
          ok,
          turn_on_epollout
              (record sk { sendbuf = write sk.sendbuf (control_head ws_pong_frame m 0) }),
        ))
unfolding ws_pong
ws_pong_lem sk m v c =
    ground (arith, encode_ping_pong_frame_lem sk.sendbuf ws_pong_frame m v (omega arith))
