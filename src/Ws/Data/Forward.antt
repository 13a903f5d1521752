-- ===== src/Ws/Data/Forward.antt =====
-- A client's data frame reaches the backend, and what happens when it cannot.
use wsd.Prelude.{
  ℕ, ◌+◌, ◌^◌, ◌≤◌, ◌<◌, ◌≡◌, refl, ap, ◌∙◌, true, false, ◌==◌, ◌||◌, List, ◌++◌, length, take,
  drop, take_left, drop_left, length-append, All, some, arith,
}
use wsd.Prelude.Words.{IsByte}
use wsd.Skb.Contents.{
  IsValid, contents, room, rd_forward-IsValid, contents-rd_forward, compact-IsValid,
  contents-compact,
}
use wsd.Skb.{Skb, compact, rd_forward, write}
use wsd.Skb.Append.{Appends, write-Appends}
use wsd.Pp2.Header.{header, length-header}
use wsd.Types.{ok, fail, eagain, Pair}
use wsd.Sock.{with_sendbuf, with_recvbuf}
use wsd.Pp2
use wsd.Pp2.{pp2_header_len}
use wsd.Pp2.Encode.{
  payload_of, pp2_frame, Fits, encode_frame_lem, encode_frame-eq, encode_frame-full,
}
use wsd.Ws.Header.{opcode, rsv_bits, ws_text_frame, ws_binary_frame, ws_frag_frame}
use wsd.Ws.Data.{ws_decode_frame, dispatch_payload}
use wsd.Ws.Data.Spec.{client_frame}
use wsd.Ws.Data.Whole.{
  staged, unmasked, decode-dispatch, unmasked-IsValid, contents-unmasked, small,
}

-- The first byte of a data frame: no RSV bit, and a text, binary or continuation opcode.
pub record IsData (byte1 : ℕ) : Type 0 where
  pub no_rsv : rsv_bits byte1 ≡ false
  pub data_opcode :
      (opcode byte1 == ws_text_frame
        || opcode byte1 == ws_binary_frame
        || opcode byte1 == ws_frag_frame)
      ≡ true

-- A whole masked frame with payload `payload` stands first in the client's buffer.
pub record Arrived (byte1 key : ℕ) (payload rest : List ℕ) (p : Pair) : Type 0 where
  pub valid : IsValid p.client.recvbuf
  pub backend_valid : IsValid p.pp2sk.sendbuf
  pub key_fits : key < 2 ^ 32
  pub bytes : All IsByte payload
  pub frame : contents p.client.recvbuf ≡ client_frame byte1 key payload ++ rest

dispatch-data :
    (byte1 key : ℕ) (payload : List ℕ) (p : Pair)
    → IsData byte1
    → dispatch_payload (staged byte1 key payload) p
      ≡ some (Pp2.encode_frame (staged byte1 key payload) p)
unfolding dispatch_payload
dispatch-data byte1 key payload p d = rw d.data_opcode

module _ (byte1 key : ℕ) (payload rest : List ℕ) (p : Pair) (d : IsData byte1)
    (a : Arrived byte1 key payload rest p) where
  abbrev clear : Pair
  clear = unmasked p key payload

  decoded : ws_decode_frame p ≡ some (Pp2.encode_frame (staged byte1 key payload) clear)
  decoded =
      decode-dispatch p byte1 key payload rest a.valid a.key_fits d.no_rsv a.frame
      ∙ dispatch-data byte1 key payload clear d

  clear_contents : contents clear.client.recvbuf ≡ payload ++ rest
  clear_contents =
      contents-unmasked p byte1 key payload rest a.valid a.key_fits d.no_rsv a.frame a.bytes

  clear_valid : IsValid clear.client.recvbuf
  clear_valid =
      unmasked-IsValid p byte1 key payload rest a.valid a.key_fits d.no_rsv a.frame a.bytes

  forward-Fits :
      length payload + pp2_header_len ≤ room p.pp2sk.sendbuf → Fits (staged byte1 key payload) clear
  forward-Fits r = record {
    client_valid = clear_valid;
    pp2sk_valid = a.backend_valid;
    whole = omega (arith, ap length clear_contents, length-append payload rest);
    has_room = r;
  }

  payload_taken : payload_of (staged byte1 key payload) clear ≡ payload
  payload_taken = ap (take (length payload)) clear_contents ∙ take_left payload rest

  -- Nothing but the two buffers changes.
  pub decode_forwards-kept :
      length payload + pp2_header_len ≤ room p.pp2sk.sendbuf
      → (b : Skb) × (c : Skb) × (ws_decode_frame p
          ≡ some (ok, record { client = with_recvbuf p.client b; pp2sk = with_sendbuf p.pp2sk c }))
        × (contents b ≡ rest)
        × IsValid b
        × Appends p.pp2sk.sendbuf (pp2_frame p.client payload) c
  decode_forwards-kept r =
      let n = length payload in
      let recv = clear.client.recvbuf in
      let there : n ≤ length (contents recv) =
        omega (arith, ap length clear_contents, length-append payload rest) in
      let sk = p.client in
      let size = length-append (header sk.src_addr sk.dst_addr sk.hash n) payload in
      let head = length-header sk.src_addr sk.dst_addr sk.hash n in
      (
        compact (rd_forward recv n),
        write p.pp2sk.sendbuf (pp2_frame p.client payload),
        decoded
            ∙ ap some (encode_frame-eq (staged byte1 key payload) clear (forward-Fits r))
            ∙ ap
                (λ t. some (
                  ok,
                  record {
                    client = with_recvbuf p.client (compact (rd_forward recv n));
                    pp2sk = with_sendbuf p.pp2sk (write p.pp2sk.sendbuf (pp2_frame p.client t));
                  },
                ))
                payload_taken,
        contents-compact (rd_forward-IsValid n clear_valid there)
            ∙ contents-rd_forward n clear_valid there
            ∙ ap (drop n) clear_contents
            ∙ drop_left payload rest,
        compact-IsValid (rd_forward-IsValid n clear_valid there),
        write-Appends (pp2_frame p.client payload) a.backend_valid (omega (arith, r, size, head)),
      )

  -- Where a whole data frame has arrived in valid buffers and the backend's buffer has room for the
  -- payload and a proxy header, ws_decode_frame takes the frame off the client's buffer, appends to the backend's buffer the proxy frame that
  -- carries the unmasked payload with the client's addresses and hash, and keeps both valid.
  pub decode_forwards :
      length payload + pp2_header_len ≤ room p.pp2sk.sendbuf
      → (q : Pair) × (ws_decode_frame p ≡ some (ok, q))
        × (contents q.pp2sk.sendbuf ≡ contents p.pp2sk.sendbuf ++ pp2_frame p.client payload)
        × (contents q.client.recvbuf ≡ rest)
        × IsValid q.pp2sk.sendbuf
        × IsValid q.client.recvbuf
  decode_forwards r =
      let n = length payload in
      let fits = forward-Fits r in
      let sent = encode_frame_lem (staged byte1 key payload) clear fits in
      let out = Pp2.encode_frame (staged byte1 key payload) clear in
      let taken : take n (contents clear.client.recvbuf) ≡ payload =
        ap (take n) clear_contents ∙ take_left payload rest in
      (
        out.1,
        decoded ∙ ap (λ r. some (r, out.1)) sent.0,
        sent.1 ∙ ap (λ t. contents p.pp2sk.sendbuf ++ pp2_frame p.client t) taken,
        sent.2 ∙ ap (drop n) clear_contents ∙ drop_left payload rest,
        sent.3,
        sent.4,
      )

  -- Where a whole data frame has arrived and the backend's buffer has not that room, the frame is not sent, but its header is gone from the client's buffer all
  -- the same: the next call reads the payload as a frame.
  pub decode_loses_header :
      room p.pp2sk.sendbuf < length payload + pp2_header_len
      → (q : Pair) × (ws_decode_frame p ≡ some (fail eagain, q))
        × (contents q.client.recvbuf ≡ payload ++ rest)
        × (q.pp2sk ≡ p.pp2sk)
  decode_loses_header full = (
    clear,
    decoded
        ∙ ap some (
            encode_frame-full (staged byte1 key payload) clear a.backend_valid
              (small p byte1 key payload rest a.valid a.key_fits d.no_rsv a.frame) full),
    clear_contents,
    refl,
  )
