-- ===== src/Wscat/Frame/Decode.antt =====
-- What wscat makes of the frames that a server sends.
use wsd.Prelude.{
  ℕ, ◌+◌, ◌≤◌, ◌<◌, ◌≡◌, refl, ap, ◌∙◌, Bool, true, false, le→ltb, List, [], ◌∷◌, ◌++◌,
  append_assoc, length, some, arith,
}
use wsd.Skb.{Skb, capacity, rdsz, get, rd_forward, rd_reset, compact}
use wsd.Skb.Contents.{
  IsValid, contents, rdsz-eq, length-contents, get_front, contents-front, front-IsValid, front-le,
  window_front, compact-IsValid, contents-compact,
}
use wsd.Types.{ok, fail, ebadreq, Sk}
use wsd.Sock.{with_recvbuf}
use wsd.Ws.Header.{rsv_bits, mask_bit, decode_payload_len, no_len}
use wsd.Ws.Header.Laws.{short_len, ext_bytes, decode_payload_len_lem}
use wsd.Ws.Data.Spec.{server_frame}
use wsd.Ws.Data.Forward.{IsData}
use wsd.Wscat.Frame.{decode_frame, dispatch, check_length}

short_len-lt : (len : ℕ) → short_len len < 128
short_len-lt len = ground arith

-- The second byte of a frame without a mask.
abbrev pub unmasked_len : ℕ → ℕ
unmasked_len len = 0 + short_len len

no_mask_bit : (len : ℕ) → mask_bit (unmasked_len len) ≡ false
no_mask_bit len = ground (arith, short_len-lt len)

-- A header without a mask for a payload of `n` bytes, and behind its second byte `tail`.
module _ (flushed no_handshake : Bool) (sk : Sk) (byte1 n : ℕ) (tail : List ℕ)
    (v : IsValid sk.recvbuf) (bits : rsv_bits byte1 ≡ false)
    (e : contents sk.recvbuf ≡ byte1 ∷ unmasked_len n ∷ tail) where
  abbrev b1 : Skb
  b1 = rd_forward sk.recvbuf 1

  abbrev pub b2 : Skb
  b2 = rd_forward b1 1

  read_byte1 : get 1 sk.recvbuf ≡ (byte1, b1)
  read_byte1 = get_front v (byte1 ∷ []) (unmasked_len n ∷ tail) e ∙ ap (λ c. (c, b1)) (omega arith)

  v1 : IsValid b1
  v1 = front-IsValid v (byte1 ∷ []) (unmasked_len n ∷ tail) e

  e1 : contents b1 ≡ unmasked_len n ∷ tail
  e1 = contents-front v (byte1 ∷ []) (unmasked_len n ∷ tail) e

  read_byte2 : get 1 b1 ≡ (unmasked_len n, b2)
  read_byte2 = get_front v1 (unmasked_len n ∷ []) tail e1 ∙ ap (λ c. (c, b2)) (omega arith)

  pub v2 : IsValid b2
  v2 = front-IsValid v1 (unmasked_len n ∷ []) tail e1

  pub e2 : contents b2 ≡ tail
  e2 = contents-front v1 (unmasked_len n ∷ []) tail e1

  pub decode-length :
      decode_frame flushed no_handshake sk
      ≡ check_length flushed no_handshake sk byte1 (decode_payload_len b2 (unmasked_len n))
  unfolding decode_frame
  decode-length = rw (
    le→ltb (rdsz sk.recvbuf) 2 (omega (arith, rdsz-eq v, ap length e)),
    read_byte1,
    read_byte2,
    bits,
    no_mask_bit n,
  )

-- Whether or not there is a closing handshake: a whole data frame without a mask that stands first in
-- the valid receive buffer has its payload printed, and what follows it stays to be read.
pub decode_prints :
    (no_handshake : Bool) (sk : Sk) (byte1 : ℕ) (payload rest : List ℕ)
    → IsValid sk.recvbuf
    → IsData byte1
    → contents sk.recvbuf ≡ server_frame byte1 payload ++ rest
    → (sk' : Sk) × (decode_frame true no_handshake sk ≡ some (ok, (sk', payload)))
      × (contents sk'.recvbuf ≡ rest)
      × IsValid sk'.recvbuf
      × (sk'.sendbuf ≡ sk.sendbuf)
unfolding dispatch
decode_prints no_handshake sk byte1 payload rest v d e =
    let n = length payload in
    let tail = ext_bytes n ++ (payload ++ rest) in
    let split : contents sk.recvbuf ≡ byte1 ∷ unmasked_len n ∷ tail =
      e ∙ ap (λ r. byte1 ∷ unmasked_len n ∷ r) (append_assoc (ext_bytes n) payload rest) in
    let w2 = v2 true no_handshake sk byte1 n tail v d.no_rsv split in
    let f2 = e2 true no_handshake sk byte1 n tail v d.no_rsv split in
    let b3 =
      rd_forward (b2 true no_handshake sk byte1 n tail v d.no_rsv split) (length (ext_bytes n)) in
    let w3 : IsValid b3 = front-IsValid w2 (ext_bytes n) (payload ++ rest) f2 in
    let f3 : contents b3 ≡ payload ++ rest = contents-front w2 (ext_bytes n) (payload ++ rest) f2 in
    let there = front-le w3 payload rest f3 in
    let small : n ≤ capacity = omega (arith, there, length-contents b3, w3.fits) in
    (
      with_recvbuf sk (compact (rd_forward b3 n)),
      decode-length true no_handshake sk byte1 n tail v d.no_rsv split
          ∙ ap (check_length true no_handshake sk byte1)
              (decode_payload_len_lem false n (payload ++ rest) w2 (omega (arith, small)) f2)
          ∙ rw (
            le→ltb n 0 (omega arith),
            le→ltb capacity n small,
            le→ltb (rdsz b3) n (omega (arith, rdsz-eq w3, there)),
            d.data_opcode,
            window_front w3 payload rest f3,
          ),
      contents-compact (front-IsValid w3 payload rest f3) ∙ contents-front w3 payload rest f3,
      compact-IsValid (front-IsValid w3 payload rest f3),
      refl,
    )

not_all_read :
    (b : Skb) (n : ℕ)
    → 125 < n
    → rdsz b < length (ext_bytes n)
    → decode_payload_len b (unmasked_len n) ≡ (no_len, b)
unfolding decode_payload_len
not_all_read b n long h = ground arith

-- Where a header announces an extended length and only a part of it has arrived in the valid buffer,
-- the call fails as for a bad request, instead of waiting for more input: the frame would be too long.
pub decode_refuses_half_header :
    (flushed no_handshake : Bool) (sk : Sk) (byte1 n : ℕ) (part : List ℕ)
    → IsValid sk.recvbuf
    → rsv_bits byte1 ≡ false
    → 125 < n
    → contents sk.recvbuf ≡ byte1 ∷ unmasked_len n ∷ part
    → length part < length (ext_bytes n)
    → decode_frame flushed no_handshake sk ≡ some (fail ebadreq, (sk, []))
unfolding rd_reset rd_forward
decode_refuses_half_header flushed no_handshake sk byte1 n part v bits long e short =
    let b = b2 flushed no_handshake sk byte1 n part v bits e in
    let w = v2 flushed no_handshake sk byte1 n part v bits e in
    let f = e2 flushed no_handshake sk byte1 n part v bits e in
    decode-length flushed no_handshake sk byte1 n part v bits e
    ∙ ap (check_length flushed no_handshake sk byte1)
        (not_all_read b n long (omega (arith, rdsz-eq w, ap length f, short)))
