-- ===== src/Ws/Data.antt =====
-- Data frames between a client and the backend, src/ws.c: ws_encode_frame, ws_decode_frame and
-- dispatch_payload. The function pointers that they call are those which ws_decode_handshake and
-- sk_open of src/ws_wsd.c store: pp2_encode_frame, ws_pong and ws_start_closing_handshake.
pub mod Spec
pub mod Decode
pub mod Whole
pub mod Forward
pub mod Deliver
pub mod Dispatch
use wsd.Prelude.{
  ℕ, ◌+◌, ◌-◌, ◌%◌, ◌^◌, ◌≡◌, Bool, true, false, ◌||◌, not, ltb, ◌==◌, if◌then◌else◌, Option, none,
  some,
}
use wsd.Prelude.Words.{add32}
use wsd.Skb.{Skb, rdsz, wrsz, put, get, rd_reset, compact, move}
use wsd.Types.{Errno, eagain, einput, ebadreq, Rv, ok, fail, Frame, Sk, Pair, Outcome, SkOutcome}
use wsd.Sock.{rearm, turn_on_epollout, with_sendbuf, with_recvbuf}
use wsd.Mask.{unmask_range}
use wsd.Pp2
use wsd.Ws.Header.{
  set_fin_bit, set_opcode, ws_frag_frame, ws_text_frame, ws_binary_frame, ws_close_frame,
  ws_ping_frame, ws_pong_frame, rsv_bits, mask_bit, opcode, calculate_frame_length, set_payload_len,
  decode_payload_len,
}
use wsd.Ws.Control.{ws_masked_frame_len, ws_pong, start_closing_handshake, finish_closing_handshake}

-- WS_1011
abbrev pub ws_1011 : ℕ
ws_1011 = 1011

-- The payload at the read position of the backend's buffer goes to the client as one text frame. The
-- last test is on the backend's events, and what it turns on is the client's, as in the source.
-- `none` is a failed assertion: of a length that is not positive, or of ws_set_payload_len.
unfoldable pub ws_encode_frame : Frame → Pair → Outcome
ws_encode_frame wsf p = elim (calculate_frame_length wsf.payload_len) [
  | none ↦ none
  | some n ↦
      if ltb (wrsz p.client.sendbuf) n
      then some (fail eagain, p)
      else (let byte1 = set_opcode (set_fin_bit wsf.byte1) ws_text_frame in
          elim (set_payload_len (put 1 byte1 p.client.sendbuf) wsf.payload_len 0) [
            | none ↦ none
            | some b ↦
                let (dst, src) = move (λ _ c. c) 0 wsf.payload_len b p.pp2sk.recvbuf in
                some (
                  ok,
                  record {
                    client =
                        rearm p.pp2sk.events.epollin (turn_on_epollout (with_sendbuf p.client dst));
                    pp2sk = with_recvbuf p.pp2sk (compact src);
                  },
                )
          ])
]

-- What a function of the client's socket alone does to the pair.
abbrev pub on_client : Pair → SkOutcome → Outcome
on_client p none = none
on_client p (some (rv, sk)) = some (rv, record p { client = sk })

abbrev compacted : Sk → Sk
compacted sk = with_recvbuf sk (compact sk.recvbuf)

unfoldable pub dispatch_payload : Frame → Pair → Outcome
dispatch_payload wsf p =
    let op = opcode wsf.byte1 in
    let sk = p.client in
    if op == ws_text_frame || op == ws_binary_frame || op == ws_frag_frame
    then some (Pp2.encode_frame wsf p)
    else if op == ws_close_frame
    then on_client p (finish_closing_handshake sk false wsf.payload_len)
    else if op == ws_ping_frame
    then on_client p (ws_pong (compacted sk) false)
    else if op == ws_pong_frame
    then some (ok, record p { client = compacted sk })
    else on_client p (start_closing_handshake sk ws_1011 false)

-- The masking key is read and the payload unmasked where it lies.
abbrev decode_payload : ℕ → Frame → Skb → Pair → Outcome
decode_payload old_rdpos wsf buf p =
    let (key, b) = get 4 buf in
    if ltb (rdsz b) wsf.payload_len
    then some (fail einput, record p { client = with_recvbuf p.client (rd_reset b old_rdpos) })
    else (let end = (b.rdpos + wsf.payload_len) % 2 ^ 32 in
        let clear = unmask_range (end - b.rdpos) b.rdpos 0 key b.bytes in
        dispatch_payload (record wsf { masking_key = key })
          (record p { client = with_recvbuf p.client (record b { bytes = clear }) }))

-- From the length on. `0 > wsf.payload_len` compares an `unsigned long`. Where the key is not there
-- yet, the read position stays behind the length.
abbrev decode_length : ℕ → ℕ → ℕ → Skb → Pair → Outcome
decode_length old_rdpos byte1 byte2 buf p =
    let (len, b) = decode_payload_len buf byte2 in
    let wsf : Frame = record { byte1 = byte1; byte2 = byte2; payload_len = len; masking_key = 0 } in
    if ltb len 0
    then some (fail einput, record p { client = with_recvbuf p.client (rd_reset b old_rdpos) })
    else if ltb (rdsz b) 4
    then some (fail einput, record p { client = with_recvbuf p.client b })
    else decode_payload old_rdpos wsf b p

unfoldable pub ws_decode_frame : Pair → Outcome
ws_decode_frame p =
    let buf = p.client.recvbuf in
    if ltb (rdsz buf) ws_masked_frame_len
    then some (fail einput, p)
    else (let (byte1, b1) = get 1 buf in
        let (byte2, b2) = get 1 b1 in
        if rsv_bits byte1 || not (mask_bit byte2)
        then some (fail ebadreq, record p { client = with_recvbuf p.client b2 })
        else decode_length buf.rdpos byte1 byte2 b2 p)
