-- ===== src/Wscat/Frame/Encode.antt =====
-- What wscat sends for a piece of input, and the size that its guard leaves out.
use wsd.Prelude.{
  ℕ, ◌+◌, ◌≤◌, ◌≡◌, sym, ap, ◌∙◌, true, le→ltb, min, List, [], ◌∷◌, ◌++◌, append_assoc, length,
  length-append, length-take, take, drop, some, arith,
}
use wsd.Prelude.Words.{le_bytes}
use wsd.Mask.{mask}
use wsd.Skb.{Skb, capacity, wrsz, write, put, rd_forward, compact, move}
use wsd.Skb.Contents.{
  IsValid, contents, room, wrsz-eq, rdsz-eq, write-IsValid, contents-write, wrpos-write,
  rd_forward-IsValid, contents-rd_forward, compact-IsValid, contents-compact, length-contents,
}
use wsd.Skb.Moves.{move_lem, write-write}
use wsd.Types.{ok}
use wsd.Ws.Header.{set_payload_len}
use wsd.Ws.Header.Laws.{len_bytes, set_payload_len_lem, put_byte}
use wsd.Ws.Data.Deliver.{
  fin_text, claimed, header_size, calculate_frame_length_lem, length-len_bytes,
}
use wsd.Ws.Data.Spec.{client_frame, masked, length-masked}
use wsd.Wscat.Frame.{data_key, payload_size, put_frame, encode_data_frame}

pub length-client_frame :
    (key : ℕ) (payload : List ℕ)
    → length (client_frame fin_text key payload) ≡ header_size (length payload) + 4 + length payload
length-client_frame key payload = omega (
  arith,
  length-len_bytes true (length payload),
  length-append (len_bytes true (length payload)) (le_bytes 4 key ++ masked key payload),
  length-append (le_bytes 4 key) (masked key payload),
  length-masked key payload,
)

pub payload_size-eq :
    {src : Skb} (maxlen : ℕ)
    → IsValid src
    → payload_size src maxlen ≡ min maxlen (length (contents src))
unfolding payload_size
payload_size-eq maxlen v = ground (arith, rdsz-eq v)

claimed-le : (n : ℕ) → claimed n ≤ header_size n
claimed-le n = ground arith

module _ (dst src : Skb) (maxlen : ℕ) (v : IsValid dst) (w : IsValid src) where
  abbrev pub n : ℕ
  n = payload_size src maxlen

  abbrev pub payload : List ℕ
  payload = take n (contents src)

  pub n-le : n ≤ length (contents src)
  n-le = omega (arith, payload_size-eq maxlen w)

  pub size : length payload ≡ n
  size = omega (arith, length-take n (contents src), n-le)

  module _ (r : header_size n + 4 + n ≤ room dst) where
    small : n ≤ capacity
    small = omega (arith, n-le, length-contents src, w.fits)

    one_room : 1 + length (len_bytes true n) + 4 + n ≤ room dst
    one_room = omega (arith, r, length-len_bytes true n)

    one : IsValid (write dst (fin_text ∷ []))
    one = write-IsValid (fin_text ∷ []) v (omega (arith, one_room))

    headed :
        set_payload_len (put 1 fin_text dst) n 128 ≡ some (write dst (fin_text ∷ len_bytes true n))
    headed =
        ap (λ b. set_payload_len b n 128) (put_byte fin_text dst (omega arith))
        ∙ set_payload_len_lem true n one (omega (arith, small))
            (omega (arith, one_room, wrpos-write (fin_text ∷ []) v (omega (arith, one_room))))
        ∙ ap some (
            write-write dst (fin_text ∷ []) (len_bytes true n) (omega (arith, one_room, v.fits))
              (omega arith))

    keyed :
        put 4 data_key (write dst (fin_text ∷ len_bytes true n))
        ≡ write dst (fin_text ∷ (len_bytes true n ++ le_bytes 4 data_key))
    unfolding put
    keyed =
        let size = length-append (len_bytes true n) (le_bytes 4 data_key) in
        write-write dst (fin_text ∷ len_bytes true n) (le_bytes 4 data_key)
          (omega (arith, one_room, v.fits)) (omega (arith, size))

    moved :
        move
          (λ i c. mask c i data_key)
          0
          n
          (write dst (fin_text ∷ (len_bytes true n ++ le_bytes 4 data_key)))
          src
        ≡ (write dst (client_frame fin_text data_key payload), rd_forward src n)
    moved =
        let head = fin_text ∷ (len_bytes true n ++ le_bytes 4 data_key) in
        let body = masked data_key payload in
        let head_size = length-append (len_bytes true n) (le_bytes 4 data_key) in
        let fits : length head ≤ room dst = omega (arith, one_room, head_size) in
        let ready = write-IsValid head v fits in
        move_lem (λ i c. mask c i data_key) n 0 ready w
          (omega (arith, one_room, head_size, wrpos-write head v fits)) n-le
        ∙ ap (λ b. (b, rd_forward src n))
            (write-write dst head body
                (omega (arith, one_room, head_size, length-masked data_key payload, size, v.fits))
                (length-append head body)
              ∙ ap (λ t. write dst (fin_text ∷ t))
                  (append_assoc (len_bytes true n) (le_bytes 4 data_key) body)
              ∙ ap (λ k. write dst (fin_text ∷ (len_bytes true k ++ (le_bytes 4 data_key ++ body))))
                  (sym size))

    pub encode_data_frame-eq :
        encode_data_frame dst src maxlen
        ≡ some
            (ok, (write dst (client_frame fin_text data_key payload), compact (rd_forward src n)))
    unfolding encode_data_frame
    encode_data_frame-eq =
        let guard = le→ltb (wrsz dst) (claimed n + n) (omega (arith, wrsz-eq v, r, claimed-le n)) in
        rw (calculate_frame_length_lem n small, encode_data_frame)
          (rw guard (rw (headed, put_frame) (rw keyed (rw moved))))

    -- Where the buffers are valid and `dst` has room for the whole frame, the first bytes of the
    -- input, at most `maxlen`, are appended as a masked text frame and taken off `src`; both buffers
    -- stay valid.
    pub encode_data_frame_lem :
        (dst' src' : Skb) × (encode_data_frame dst src maxlen ≡ some (ok, (dst', src')))
        × (contents dst' ≡ contents dst ++ client_frame fin_text data_key payload)
        × (contents src' ≡ drop n (contents src))
        × IsValid dst'
        × IsValid src'
    encode_data_frame_lem =
        let frame = client_frame fin_text data_key payload in
        let fits : length frame ≤ room dst =
          omega (arith, r, length-client_frame data_key payload, size, ap header_size size) in
        let read = rd_forward-IsValid n w n-le in
        (
          write dst frame,
          compact (rd_forward src n),
          encode_data_frame-eq,
          contents-write frame v fits,
          contents-compact read ∙ contents-rd_forward n w n-le,
          write-IsValid frame v fits,
          compact-IsValid read,
        )
