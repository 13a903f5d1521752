-- ===== src/Ws/Data/Whole.antt =====
-- The header of a whole client frame, read piece by piece.
use wsd.Prelude.{
  ℕ, ◌+◌, ◌-◌, ◌%◌, ◌^◌, ◌≤◌, ◌<◌, ◌≡◌, refl, ap, ◌∙◌, true, false, le→ltb, lt→ltb, List, [], ◌∷◌,
  ◌++◌, append_assoc, length, length-append, All, some, arith,
}
use wsd.Prelude.Words.{le_bytes, of_le, of_le-le_bytes, IsByte}
use wsd.Skb.{Skb, capacity, rdsz, get, rd_forward, rd_reset}
use wsd.Skb.Contents.{
  IsValid, contents, rdsz-eq, length-contents, get_front, contents-front, front-IsValid, front-le,
}
use wsd.Types.{Frame, Pair, fail, einput}
use wsd.Sock.{with_recvbuf}
use wsd.Ws.Header.{rsv_bits, mask_bit, decode_payload_len}
use wsd.Ws.Header.Laws.{short_len, ext_bytes, len_bytes, decode_payload_len_lem}
use wsd.Ws.Data.{ws_decode_frame, dispatch_payload}
use wsd.Ws.Data.Spec.{masked, length-masked, client_frame}
use wsd.Ws.Data.Decode.{cleared, cleared-IsValid, contents-cleared}

short_len-lt : (len : ℕ) → short_len len < 128
short_len-lt len = ground arith

-- The second byte of a masked frame.
abbrev pub masked_len : ℕ → ℕ
masked_len len = 128 + short_len len

has_mask_bit : (len : ℕ) → mask_bit (masked_len len) ≡ true
has_mask_bit len = ground (arith, short_len-lt len)

-- The buffer behind the header and the masking key.
abbrev pub behind_len : Skb → ℕ → Skb
behind_len b len = rd_forward (rd_forward (rd_forward b 1) 1) (length (ext_bytes len))

abbrev pub behind_key : Skb → ℕ → Skb
behind_key b len = rd_forward (behind_len b len) 4

one_byte : (c : ℕ) → of_le (c ∷ []) ≡ c
one_byte c = omega arith

-- A header for a payload of `n` bytes, the key, and behind it `body`, whole or not.
module _ (b : Skb) (byte1 key n : ℕ) (body : List ℕ) (v : IsValid b) (n_fits : n < 2 ^ 63)
    (key_fits : key < 2 ^ 32)
    (e : contents b ≡ byte1 ∷ (len_bytes true n ++ (le_bytes 4 key ++ body))) where
  abbrev keyed : List ℕ
  keyed = le_bytes 4 key ++ body

  pub read_byte1 : get 1 b ≡ (byte1, rd_forward b 1)
  read_byte1 =
      get_front v (byte1 ∷ []) (masked_len n ∷ (ext_bytes n ++ keyed)) e
      ∙ ap (λ c. (c, rd_forward b 1)) (one_byte byte1)

  v1 : IsValid (rd_forward b 1)
  v1 = front-IsValid v (byte1 ∷ []) (masked_len n ∷ (ext_bytes n ++ keyed)) e

  e1 : contents (rd_forward b 1) ≡ masked_len n ∷ (ext_bytes n ++ keyed)
  e1 = contents-front v (byte1 ∷ []) (masked_len n ∷ (ext_bytes n ++ keyed)) e

  pub read_byte2 : get 1 (rd_forward b 1) ≡ (masked_len n, rd_forward (rd_forward b 1) 1)
  read_byte2 =
      get_front v1 (masked_len n ∷ []) (ext_bytes n ++ keyed) e1
      ∙ ap (λ c. (c, rd_forward (rd_forward b 1) 1)) (one_byte (masked_len n))

  v2 : IsValid (rd_forward (rd_forward b 1) 1)
  v2 = front-IsValid v1 (masked_len n ∷ []) (ext_bytes n ++ keyed) e1

  e2 : contents (rd_forward (rd_forward b 1) 1) ≡ ext_bytes n ++ keyed
  e2 = contents-front v1 (masked_len n ∷ []) (ext_bytes n ++ keyed) e1

  v3 : IsValid (behind_len b n)
  v3 = front-IsValid v2 (ext_bytes n) keyed e2

  e3 : contents (behind_len b n) ≡ keyed
  e3 = contents-front v2 (ext_bytes n) keyed e2

  pub key_there : 4 ≤ rdsz (behind_len b n)
  key_there = omega (arith, rdsz-eq v3, front-le v3 (le_bytes 4 key) body e3)

  pub read_key : get 4 (behind_len b n) ≡ (key, behind_key b n)
  read_key =
      get_front v3 (le_bytes 4 key) body e3
      ∙ ap (λ c. (c, behind_key b n)) (of_le-le_bytes 4 key key_fits)

  pub v4 : IsValid (behind_key b n)
  v4 = front-IsValid v3 (le_bytes 4 key) body e3

  pub e4 : contents (behind_key b n) ≡ body
  e4 = contents-front v3 (le_bytes 4 key) body e3

  pub body_size : rdsz (behind_key b n) ≡ length body
  body_size = rdsz-eq v4 ∙ ap length e4

  pub read_len :
      decode_payload_len (rd_forward (rd_forward b 1) 1) (masked_len n) ≡ (n, behind_len b n)
  read_len = decode_payload_len_lem true n keyed v2 n_fits e2

  pub six_there : 6 ≤ rdsz b
  six_there = omega (arith, rdsz-eq v, ap length e, length-append (ext_bytes n) keyed)

  pub loop_bound :
      n ≤ length body → ((behind_key b n).rdpos + n) % 2 ^ 32 - (behind_key b n).rdpos ≡ n
  loop_bound h = omega (arith, v4.fits, v4.order, h, ap length e4, length-contents (behind_key b n))

-- The frame as it is staged for dispatch_payload.
abbrev pub staged : ℕ → ℕ → List ℕ → Frame
staged byte1 key payload = record {
  byte1 = byte1;
  byte2 = masked_len (length payload);
  payload_len = length payload;
  masking_key = key;
}

-- The pair as dispatch_payload finds it: the payload in clear at the read position.
abbrev pub unmasked : Pair → ℕ → List ℕ → Pair
unmasked p key payload = record p {
  client =
      with_recvbuf p.client
        (cleared (behind_key p.client.recvbuf (length payload)) (length payload) key);
}

module _ (p : Pair) (byte1 key : ℕ) (payload rest : List ℕ) (v : IsValid p.client.recvbuf)
    (key_fits : key < 2 ^ 32) (bits : rsv_bits byte1 ≡ false)
    (e : contents p.client.recvbuf ≡ client_frame byte1 key payload ++ rest) where
  abbrev n : ℕ
  n = length payload

  abbrev b : Skb
  b = p.client.recvbuf

  abbrev body : List ℕ
  body = masked key payload ++ rest

  split : contents b ≡ byte1 ∷ (len_bytes true n ++ (le_bytes 4 key ++ body))
  split =
      e
      ∙ ap (λ r. byte1 ∷ masked_len n ∷ r)
          (append_assoc (ext_bytes n) (le_bytes 4 key ++ masked key payload) rest
            ∙ ap (λ r. ext_bytes n ++ r) (append_assoc (le_bytes 4 key) (masked key payload) rest))

  in_body : n ≤ length body
  in_body = omega (arith, length-append (masked key payload) rest, length-masked key payload)

  pub small : n ≤ capacity
  small = omega (
    arith,
    v.fits,
    length-contents b,
    ap length split,
    in_body,
    length-append (ext_bytes n) (le_bytes 4 key ++ body),
  )

  n_fits : n < 2 ^ 63
  n_fits = omega (arith, small)

  pub decode-dispatch :
      ws_decode_frame p ≡ dispatch_payload (staged byte1 key payload) (unmasked p key payload)
  unfolding ws_decode_frame
  decode-dispatch = rw (
    le→ltb (rdsz b) 6 (six_there b byte1 key n body v n_fits key_fits split),
    read_byte1 b byte1 key n body v n_fits key_fits split,
    read_byte2 b byte1 key n body v n_fits key_fits split,
    bits,
    has_mask_bit n,
    read_len b byte1 key n body v n_fits key_fits split,
    le→ltb n 0 (omega arith),
    le→ltb (rdsz (behind_len b n)) 4 (key_there b byte1 key n body v n_fits key_fits split),
    read_key b byte1 key n body v n_fits key_fits split,
    le→ltb (rdsz (behind_key b n)) n
        (omega (arith, body_size b byte1 key n body v n_fits key_fits split, in_body)),
    loop_bound b byte1 key n body v n_fits key_fits split in_body,
  )

  pub unmasked-IsValid : All IsByte payload → IsValid (unmasked p key payload).client.recvbuf
  unmasked-IsValid bytes =
      cleared-IsValid (behind_key b n) key payload rest
        (v4 b byte1 key n body v n_fits key_fits split) bytes
        (e4 b byte1 key n body v n_fits key_fits split)

  pub contents-unmasked :
      All IsByte payload → contents (unmasked p key payload).client.recvbuf ≡ payload ++ rest
  contents-unmasked bytes =
      contents-cleared (behind_key b n) key payload rest
        (v4 b byte1 key n body v n_fits key_fits split) bytes
        (e4 b byte1 key n body v n_fits key_fits split)

rewound : (b : Skb) (n : ℕ) → rd_reset (behind_key b n) b.rdpos ≡ b
unfolding rd_reset rd_forward
rewound b n = refl

-- Where a masked header without RSV bits and its key are there, in a valid buffer, and the payload is
-- not all there, the call wants more input and nothing has changed.
pub decode_waits :
    (p : Pair) (byte1 key n : ℕ) (body : List ℕ)
    → IsValid p.client.recvbuf
    → n < 2 ^ 63
    → key < 2 ^ 32
    → rsv_bits byte1 ≡ false
    → contents p.client.recvbuf ≡ byte1 ∷ (len_bytes true n ++ (le_bytes 4 key ++ body))
    → length body < n
    → ws_decode_frame p ≡ some (fail einput, p)
unfolding ws_decode_frame
decode_waits p byte1 key n body v n_fits key_fits bits e short =
    let b = p.client.recvbuf in
    rw
      (
        le→ltb (rdsz b) 6 (six_there b byte1 key n body v n_fits key_fits e),
        read_byte1 b byte1 key n body v n_fits key_fits e,
        read_byte2 b byte1 key n body v n_fits key_fits e,
        bits,
        has_mask_bit n,
        read_len b byte1 key n body v n_fits key_fits e,
        le→ltb n 0 (omega arith),
        le→ltb (rdsz (behind_len b n)) 4 (key_there b byte1 key n body v n_fits key_fits e),
        read_key b byte1 key n body v n_fits key_fits e,
        lt→ltb (rdsz (behind_key b n)) n
            (omega (arith, body_size b byte1 key n body v n_fits key_fits e, short)),
      )
      (ap (λ c. some (fail einput, record p { client = with_recvbuf p.client c })) (rewound b n))
