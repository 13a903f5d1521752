-- ===== src/Ws/Data/Deliver.antt =====
-- ws_encode_frame: what the client is sent, and the size that ws_calculate_frame_length leaves out.
use wsd.Prelude.{
  ℕ, ◌+◌, ◌-◌, ◌≤◌, ◌<◌, ◌≡◌, refl, sym, ap, ◌∙◌, Bool, true, false, ltb, leb, le→ltb,
  if◌then◌else◌, List, [], ◌∷◌, ◌++◌, length, length-append, length-take, take, drop, some, arith,
}
use wsd.Memory.{window}
use wsd.Memory.Laws.{take-window}
use wsd.Skb.{Skb, capacity, wrsz, write, put, rd_forward, compact, move}
use wsd.Skb.Contents.{
  IsValid, contents, room, wrsz-eq, write-IsValid, contents-write, wrpos-write, rd_forward-IsValid,
  contents-rd_forward, compact-IsValid, contents-compact, length-contents,
}
use wsd.Skb.Moves.{move-eq, map_from_id, write-write}
use wsd.Types.{ok, Frame, Pair}
use wsd.Sock.{rearm, turn_on_epollout, with_sendbuf, with_recvbuf}
use wsd.Ws.Header.{calculate_frame_length, set_payload_len, set_fin_bit, set_opcode, ws_text_frame}
use wsd.Ws.Header.Laws.{len_bytes, set_payload_len_lem, put_byte}
use wsd.Ws.Data.{ws_encode_frame}
use wsd.Ws.Data.Spec.{server_frame}

-- The first byte of every data frame that wsd sends: FIN, and the opcode of a text frame.
abbrev pub fin_text : ℕ
fin_text = 0x81

-- What ws_calculate_frame_length adds for the header of a frame with this payload length.
abbrev pub claimed : ℕ → ℕ
claimed len = if ltb len 126 then 1 else if leb len 65535 then 2 else 9

-- What the header takes without a mask: the first byte and those of the length.
abbrev pub header_size : ℕ → ℕ
header_size len = if ltb len 126 then 2 else if leb len 65535 then 4 else 10

pub calculate_frame_length_lem :
    (len : ℕ) → len ≤ capacity → calculate_frame_length len ≡ some (claimed len + len)
unfolding calculate_frame_length
calculate_frame_length_lem len h = ground arith

pub length-len_bytes : (m : Bool) (len : ℕ) → 1 + length (len_bytes m len) ≡ header_size len
length-len_bytes m len = ground arith

-- The size that the guard of the encoders tests is too small: by one byte for a short payload or a
-- very long one, and by two for a payload of 126 to 65535 bytes.
pub claimed_too_small :
    (len : ℕ)
    → header_size len ≡ claimed len + (if ltb len 126 then 1 else if leb len 65535 then 2 else 1)
claimed_too_small len = ground arith

header_size-le : (len : ℕ) → header_size len ≤ 10
header_size-le len = ground arith

abbrev pub payload_of : Frame → Pair → List ℕ
payload_of wsf p = take wsf.payload_len (contents p.pp2sk.recvbuf)

-- A frame from the backend passes the guard: its payload is there, and the client's buffer has the
-- room that the guard asks for and room for a header.
pub record Passes (wsf : Frame) (p : Pair) : Type 0 where
  pub client_valid : IsValid p.client.sendbuf
  pub pp2sk_valid : IsValid p.pp2sk.recvbuf
  pub blank : wsf.byte1 ≡ 0
  pub whole : wsf.payload_len ≤ length (contents p.pp2sk.recvbuf)
  pub guarded : claimed wsf.payload_len + wsf.payload_len ≤ room p.client.sendbuf
  pub header_room : header_size wsf.payload_len ≤ room p.client.sendbuf

-- The pair after the frame has been written.
abbrev pub delivered : Frame → Pair → Pair
delivered wsf p = record {
  client = rearm p.pp2sk.events.epollin (
      turn_on_epollout (
        with_sendbuf p.client (write p.client.sendbuf (server_frame fin_text (payload_of wsf p)))));
  pp2sk = with_recvbuf p.pp2sk (compact (rd_forward p.pp2sk.recvbuf wsf.payload_len));
}

module _ (wsf : Frame) (p : Pair) (f : Passes wsf p) where
  abbrev n : ℕ
  n = wsf.payload_len

  abbrev send : Skb
  send = p.client.sendbuf

  abbrev recv : Skb
  recv = p.pp2sk.recvbuf

  small : n ≤ capacity
  small = omega (arith, f.whole, length-contents recv, f.pp2sk_valid.fits)

  pub size : length (payload_of wsf p) ≡ n
  size = omega (arith, length-take n (contents recv), f.whole)

  one : IsValid (write send (fin_text ∷ []))
  one =
      write-IsValid (fin_text ∷ []) f.client_valid
        (omega (arith, f.header_room, length-len_bytes false n))

  one_wrpos : (write send (fin_text ∷ [])).wrpos ≡ send.wrpos + 1
  one_wrpos =
      wrpos-write (fin_text ∷ []) f.client_valid
        (omega (arith, f.header_room, length-len_bytes false n))

  headed :
      set_payload_len (put 1 fin_text send) n 0 ≡ some (write send (fin_text ∷ len_bytes false n))
  headed =
      ap (λ b. set_payload_len b n 0) (put_byte fin_text send (omega arith))
      ∙ set_payload_len_lem false n one (omega (arith, small))
          (omega (arith, f.header_room, length-len_bytes false n, one_wrpos))
      ∙ ap some (
          write-write send (fin_text ∷ []) (len_bytes false n)
            (omega (arith, f.header_room, length-len_bytes false n, f.client_valid.fits))
            (omega arith))

  moved :
      move (λ _ c. c) 0 n (write send (fin_text ∷ len_bytes false n)) recv
      ≡ (write send (server_frame fin_text (payload_of wsf p)), rd_forward recv n)
  moved =
      let head = fin_text ∷ len_bytes false n in
      let fits : length head ≤ room send = omega (arith, f.header_room, length-len_bytes false n) in
      let from : window recv.bytes recv.rdpos n ≡ payload_of wsf p = sym (
        take-window recv.bytes recv.rdpos n (recv.wrpos - recv.rdpos)
          (omega (arith, f.whole, length-contents recv))) in
      move-eq (λ _ c. c) n 0 (write send head) recv
        (omega (arith, wrpos-write head f.client_valid fits, f.client_valid.fits, fits, small))
        (omega (arith, f.whole, length-contents recv, f.pp2sk_valid.fits))
      ∙ ap (λ cs. (write (write send head) cs, rd_forward recv n))
          (map_from_id 0 (window recv.bytes recv.rdpos n) ∙ from)
      ∙ ap (λ b. (b, rd_forward recv n))
          (write-write send head (payload_of wsf p)
              (omega (arith, fits, size, small, f.client_valid.fits))
              (length-append head (payload_of wsf p))
            ∙ ap (λ k. write send (fin_text ∷ (len_bytes false k ++ payload_of wsf p))) (sym size))

  pub ws_encode_frame-eq : ws_encode_frame wsf p ≡ some (ok, delivered wsf p)
  unfolding ws_encode_frame
  ws_encode_frame-eq =
      let first : set_opcode (set_fin_bit wsf.byte1) ws_text_frame ≡ fin_text =
        ap (λ b. set_opcode (set_fin_bit b) ws_text_frame) f.blank in
      let test =
        le→ltb (wrsz send) (claimed n + n) (omega (arith, wrsz-eq f.client_valid, f.guarded)) in
      rw (calculate_frame_length_lem n small, ws_encode_frame)
        (rw test (rw (first, headed, ws_encode_frame) (rw moved)))

  frame_size : length (server_frame fin_text (payload_of wsf p)) ≡ header_size n + n
  frame_size = omega (
    arith,
    size,
    length-append (len_bytes false (length (payload_of wsf p))) (payload_of wsf p),
    length-len_bytes false (length (payload_of wsf p)),
    ap header_size size,
  )

  pub contents-delivered :
      header_size wsf.payload_len + wsf.payload_len ≤ room p.client.sendbuf
      → contents (delivered wsf p).client.sendbuf
        ≡ contents p.client.sendbuf ++ server_frame fin_text (payload_of wsf p)
  contents-delivered r =
      contents-write (server_frame fin_text (payload_of wsf p)) f.client_valid
        (omega (arith, r, frame_size))

  pub rest-delivered :
      contents (delivered wsf p).pp2sk.recvbuf ≡ drop wsf.payload_len (contents p.pp2sk.recvbuf)
  rest-delivered =
      contents-compact (rd_forward-IsValid n f.pp2sk_valid f.whole)
      ∙ contents-rd_forward n f.pp2sk_valid f.whole

  -- Where the payload is there, the buffers are valid and the client's has room for the whole frame, ws_encode_frame appends to it the text
  -- frame with the payload, unmasked, asks epoll for a chance to write, takes the payload off the
  -- backend's buffer, leaves the backend's events as they are, and keeps both buffers valid.
  pub ws_encode_frame_lem :
      header_size wsf.payload_len + wsf.payload_len ≤ room p.client.sendbuf
      → (q : Pair) × (ws_encode_frame wsf p ≡ some (ok, q))
        × (contents q.client.sendbuf
            ≡ contents p.client.sendbuf ++ server_frame fin_text (payload_of wsf p))
        × (contents q.pp2sk.recvbuf ≡ drop wsf.payload_len (contents p.pp2sk.recvbuf))
        × (q.client.events.epollout ≡ true)
        × (q.pp2sk.events ≡ p.pp2sk.events)
        × IsValid q.client.sendbuf
        × IsValid q.pp2sk.recvbuf
  ws_encode_frame_lem r =
      let frame = server_frame fin_text (payload_of wsf p) in
      let read = rd_forward-IsValid n f.pp2sk_valid f.whole in
      (
        delivered wsf p,
        ws_encode_frame-eq,
        contents-delivered r,
        rest-delivered,
        refl,
        refl,
        write-IsValid frame f.client_valid (omega (arith, r, frame_size)),
        compact-IsValid read,
      )

  -- The guard lets frames through, from valid buffers, for which there is no room: then the write position ends up behind
  -- the end of the array, and the last bytes have been stored outside of it.
  pub ws_encode_frame_overflows :
      room p.client.sendbuf < header_size wsf.payload_len + wsf.payload_len
      → (q : Pair) × (ws_encode_frame wsf p ≡ some (ok, q)) × (capacity < q.client.sendbuf.wrpos)
  unfolding write
  ws_encode_frame_overflows r = (
    delivered wsf p,
    ws_encode_frame-eq,
    omega (arith, r, frame_size, small, f.client_valid.fits, header_size-le n),
  )
