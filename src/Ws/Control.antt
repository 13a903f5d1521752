-- ===== src/Ws/Control.antt =====
-- Control frames and the closing handshake of src/ws.c: encode_ping_pong_frame, encode_close_frame,
-- ws_ping, ws_pong, ws_start_closing_handshake, ws_finish_closing_handshake.
pub mod Bytes
pub mod Closing
mod Tests
use wsd.Prelude.{
  ℕ, ◌+◌, ◌/◌, ◌%◌, ◌^◌, ◌≡◌, Bool, true, false, ◌&&◌, ltb, leb, ◌==◌, if◌then◌else◌, Option, none,
  some,
}
use wsd.Prelude.Words.{bswap}
use wsd.Skb.{Skb, rdsz, wrsz, put, get, reset}
use wsd.Types.{Errno, enomem, Rv, ok, fail, Frame, Sk, SkOutcome}
use wsd.Sock.{turn_on_epollout, with_sendbuf, with_recvbuf}
use wsd.Mask.{mask}
use wsd.Ws.Header.{
  set_fin_bit, set_opcode, set_mask_bit, ws_close_frame, ws_ping_frame, ws_pong_frame,
  set_payload_len,
}

-- WS_FRAME_STATUS_LEN, WS_MASKED_FRAME_LEN, WS_UNMASKED_FRAME_LEN
abbrev pub ws_frame_status_len : ℕ
ws_frame_status_len = 2

abbrev pub ws_masked_frame_len : ℕ
ws_masked_frame_len = 6

abbrev pub ws_unmasked_frame_len : ℕ
ws_unmasked_frame_len = 2

-- The key of every masked control frame.
abbrev pub control_key : ℕ
control_key = 0xcafebabe

abbrev pub frame_len : Bool → ℕ
frame_len do_mask = if do_mask then ws_masked_frame_len else ws_unmasked_frame_len

-- `wsframe_t` as it is staged, from all zeros.
abbrev pub staged : ℕ → Bool → ℕ → Frame
staged op do_mask len = record {
  byte1 = set_opcode (set_fin_bit 0) op;
  byte2 = if do_mask then set_mask_bit 0 else 0;
  payload_len = len;
  masking_key = if do_mask then control_key else 0;
}

-- The first byte, the length and the key; `none` is the failed `AZ(ws_set_payload_len(...))`.
unfoldable pub put_head : Skb → Frame → Bool → Option Skb
put_head dst wsf do_mask = elim (set_payload_len (put 1 wsf.byte1 dst) wsf.payload_len wsf.byte2) [
  | none ↦ none
  | some b ↦ some (if do_mask then put 4 wsf.masking_key b else b)
]

unfoldable pub encode_ping_pong_frame : Skb → ℕ → Bool → Option (Rv × Skb)
encode_ping_pong_frame dst op do_mask =
    if ltb (wrsz dst) (frame_len do_mask)
    then some (fail enomem, dst)
    else elim (put_head dst (staged op do_mask 0) do_mask) [ none ↦ none | some b ↦ some (ok, b) ]

-- The status in network order; under a mask byte by byte. `(char)(k >> 2)` is as in the source.
unfoldable pub put_status : ℕ → Bool → Skb → Skb
put_status status do_mask b =
    let k = bswap 2 status in
    if do_mask
    then put 1 (mask (k % 256) 1 control_key) (put 1 (mask (k / 2 ^ 2 % 256) 0 control_key) b)
    else put 2 k b

-- Two bytes of status if there is one.
abbrev pub status_len : ℕ → ℕ
status_len status = if ltb 0 status then 2 else 0

unfoldable pub encode_close_frame : Skb → ℕ → Bool → Option (Rv × Skb)
encode_close_frame dst status do_mask =
    if ltb (wrsz dst) (frame_len do_mask + status_len status)
    then some (fail enomem, dst)
    else elim (put_head dst (staged ws_close_frame do_mask (status_len status)) do_mask) [
      | none ↦ none
      | some b ↦ some (ok, if ltb 0 status then put_status status do_mask b else b)
    ]

-- `if (0 == rv)` then the socket is woken up to write.
abbrev wake : Rv → Sk → Sk
wake ok sk = turn_on_epollout sk
wake (fail _) sk = sk

abbrev ping_pong : ℕ → Sk → Bool → SkOutcome
ping_pong op sk do_mask =
    if sk.closing then none else elim (encode_ping_pong_frame sk.sendbuf op do_mask) [
      | none ↦ none
      | some (rv, b) ↦ some (rv, wake rv (with_sendbuf sk b))
    ]

-- `AZ(sk->closing)` ends the process.
unfoldable pub ws_ping : Sk → Bool → SkOutcome
ws_ping = ping_pong ws_ping_frame

unfoldable pub ws_pong : Sk → Bool → SkOutcome
ws_pong = ping_pong ws_pong_frame

abbrev started : Rv → Sk → Sk
started ok sk = turn_on_epollout (record sk { closing = true })
started (fail _) sk = sk

unfoldable pub start_closing_handshake : Sk → ℕ → Bool → SkOutcome
start_closing_handshake sk status do_mask =
    if sk.closing then none else elim (encode_close_frame sk.sendbuf status do_mask) [
      | none ↦ none
      | some (rv, b) ↦ some (rv, started rv (with_sendbuf sk b))
    ]

abbrev replied : Rv → Sk → Sk
replied ok sk = record sk { close_on_write = true; closing = true }
replied (fail _) sk = sk

-- The peer's status, if the frame has one and there is room to send it back.
abbrev peer_status : Sk → ℕ → ℕ
peer_status sk len =
    if leb ws_frame_status_len len && leb ws_frame_status_len (wrsz sk.sendbuf)
    then bswap 2 (get 2 sk.recvbuf).0
    else 0

unfoldable pub finish_closing_handshake : Sk → Bool → ℕ → SkOutcome
finish_closing_handshake sk do_mask len =
    if sk.closing
    then some (ok, record sk { recvbuf = reset sk.recvbuf; closing = false; close = true })
    else elim (encode_close_frame sk.sendbuf (peer_status sk len) do_mask) [
      | none ↦ none
      | some (rv, b) ↦
          some (rv, record (replied rv (with_sendbuf sk b)) { recvbuf = reset sk.recvbuf })
    ]
