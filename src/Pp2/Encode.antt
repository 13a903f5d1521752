-- ===== src/Pp2/Encode.antt =====
-- What pp2_encode_frame sends to the backend, and what it leaves in the client's buffer.
use wsd.Prelude.{
  ℕ, ◌+◌, ◌%◌, ◌^◌, ◌≤◌, ◌<◌, ◌≡◌, refl, ap, ◌∙◌, false, ltb, le→ltb, lt→ltb, List, ◌++◌, length,
  length-append, length-take, take, drop, arith,
}
use wsd.Skb.{capacity, wrsz, write, rd_forward, compact, move}
use wsd.Skb.Contents.{
  IsValid, contents, room, wrsz-eq, write-IsValid, contents-write, wrpos-write, rd_forward-IsValid,
  contents-rd_forward, compact-IsValid, contents-compact, length-contents,
}
use wsd.Skb.Moves.{move_lem, map_from_id, write-write}
use wsd.Types.{ok, fail, eagain, Frame, Sk, Pair}
use wsd.Sock.{with_sendbuf, with_recvbuf}
use wsd.Pp2.{pp2_header_len, encode_header, encode_frame}
use wsd.Pp2.Header.{header, length-header, encode_header_lem}

-- The proxy frame that carries `payload` for the client `sk`.
abbrev pub pp2_frame : Sk → List ℕ → List ℕ
pp2_frame sk payload = header sk.src_addr sk.dst_addr sk.hash (length payload) ++ payload

-- A frame's payload is in the client's buffer, and the backend's buffer has room for it and a header.
pub record Fits (wsf : Frame) (p : Pair) : Type 0 where
  pub client_valid : IsValid p.client.recvbuf
  pub pp2sk_valid : IsValid p.pp2sk.sendbuf
  pub whole : wsf.payload_len ≤ length (contents p.client.recvbuf)
  pub has_room : wsf.payload_len + pp2_header_len ≤ room p.pp2sk.sendbuf

abbrev pub payload_of : Frame → Pair → List ℕ
payload_of wsf p = take wsf.payload_len (contents p.client.recvbuf)

pub encode_frame-eq :
    (wsf : Frame) (p : Pair)
    → Fits wsf p
    → encode_frame wsf p ≡ (
      ok,
      record {
        client = with_recvbuf p.client (compact (rd_forward p.client.recvbuf wsf.payload_len));
        pp2sk =
            with_sendbuf p.pp2sk (write p.pp2sk.sendbuf (pp2_frame p.client (payload_of wsf p)));
      },
    )
unfolding encode_frame
encode_frame-eq wsf p f =
    let n = wsf.payload_len in
    let recv = p.client.recvbuf in
    let send = p.pp2sk.sendbuf in
    let sk = p.client in
    let small : n ≤ capacity = omega (arith, f.whole, length-contents recv, f.client_valid.fits) in
    let n32 : n % 2 ^ 32 ≡ n = omega (arith, small) in
    let n64 : (n + 46) % 2 ^ 64 ≡ n + 46 = omega (arith, small) in
    let size : length (payload_of wsf p) ≡ n =
      omega (arith, length-take n (contents recv), f.whole) in
    let h = header sk.src_addr sk.dst_addr sk.hash n in
    let headed : encode_header send sk.src_addr sk.dst_addr sk.hash n ≡ write send h =
      encode_header_lem send (omega (arith, f.has_room)) sk.src_addr sk.dst_addr sk.hash n
      ∙ ap (λ k. write send (header sk.src_addr sk.dst_addr sk.hash k)) n32 in
    let both : length (h ++ payload_of wsf p) ≡ 46 + n = omega (
      arith,
      length-append h (payload_of wsf p),
      length-header sk.src_addr sk.dst_addr sk.hash n,
      size,
    ) in
    let hl = length-header sk.src_addr sk.dst_addr sk.hash n in
    let fits : length h ≤ room send = omega (arith, hl, f.has_room) in
    let moved : move (λ _ c. c) 0 n (write send h) recv
        ≡ (write (write send h) (payload_of wsf p), rd_forward recv n) =
      move_lem (λ _ c. c) n 0 (write-IsValid h f.pp2sk_valid fits) f.client_valid
        (omega (arith, wrpos-write h f.pp2sk_valid fits, hl, f.has_room)) f.whole
      ∙ ap (λ cs. (write (write send h) cs, rd_forward recv n))
          (map_from_id 0 (payload_of wsf p)) in
    let joined : write (write send h) (payload_of wsf p) ≡ write send (h ++ payload_of wsf p) =
      write-write send h (payload_of wsf p) (omega (arith, hl, size, f.has_room))
        (length-append h (payload_of wsf p)) in
    let test : ltb (wrsz send) ((n + 46) % 2 ^ 64) ≡ false =
      le→ltb (wrsz send) ((n + 46) % 2 ^ 64)
        (omega (arith, n64, wrsz-eq f.pp2sk_valid, f.has_room)) in
    rw (size, test, n32, headed, moved, joined)

-- A frame whose payload is in the client's valid buffer and that fits in the backend's goes out whole: the backend's buffer gains the proxy frame that carries the
-- payload, the client's buffer loses the payload, and both stay valid.
pub encode_frame_lem :
    (wsf : Frame) (p : Pair)
    → Fits wsf p
    → let (rv, p') = encode_frame wsf p in
      (rv ≡ ok)
      × (contents p'.pp2sk.sendbuf
          ≡ contents p.pp2sk.sendbuf ++ pp2_frame p.client (payload_of wsf p))
      × (contents p'.client.recvbuf ≡ drop wsf.payload_len (contents p.client.recvbuf))
      × IsValid p'.pp2sk.sendbuf
      × IsValid p'.client.recvbuf
encode_frame_lem wsf p f =
    let n = wsf.payload_len in
    let frame = pp2_frame p.client (payload_of wsf p) in
    let size : length frame ≤ room p.pp2sk.sendbuf = omega (
      arith,
      f.has_room,
      f.whole,
      length-append
          (header p.client.src_addr p.client.dst_addr p.client.hash (length (payload_of wsf p)))
          (payload_of wsf p),
      length-header p.client.src_addr p.client.dst_addr p.client.hash (length (payload_of wsf p)),
      length-take n (contents p.client.recvbuf),
    ) in
    let read = rd_forward-IsValid n f.client_valid f.whole in
    rw (encode_frame-eq wsf p f) (
      refl,
      contents-write frame f.pp2sk_valid size,
      contents-compact read ∙ contents-rd_forward n f.client_valid f.whole,
      write-IsValid frame f.pp2sk_valid size,
      compact-IsValid read,
    )

-- A frame of at most the capacity that does not fit in the backend's valid buffer is not taken:
-- EAGAIN, and nothing changes.
pub encode_frame-full :
    (wsf : Frame) (p : Pair)
    → IsValid p.pp2sk.sendbuf
    → wsf.payload_len ≤ capacity
    → room p.pp2sk.sendbuf < wsf.payload_len + pp2_header_len
    → encode_frame wsf p ≡ (fail eagain, p)
unfolding encode_frame
encode_frame-full wsf p v small full =
    let n64 : (wsf.payload_len + 46) % 2 ^ 64 ≡ wsf.payload_len + 46 = omega (arith, small) in
    rw (
      lt→ltb (wrsz p.pp2sk.sendbuf) ((wsf.payload_len + 46) % 2 ^ 64)
        (omega (arith, n64, wrsz-eq v, full)))
