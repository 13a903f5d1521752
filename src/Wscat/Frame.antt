-- ===== src/Wscat/Frame.antt =====
-- The frames of wscat: wssk_ws_encode_data_frame and wssk_ws_decode_frame of src/wscat.c, and skb_print
-- of src/common.c, whose output is a result.
pub mod Encode
pub mod Decode
mod Tests
use wsd.Prelude.{
  ℕ, ◌+◌, Bool, true, false, ◌||◌, not, ltb, ◌==◌, if◌then◌else◌, Option, none, some, List, [],
}
use wsd.Memory.{window}
use wsd.Mask.{mask}
use wsd.Skb.{Skb, capacity, rdsz, wrsz, put, get, rd_forward, rd_reset, reset, compact, move}
use wsd.Types.{Errno, eagain, einput, ebadreq, enum, Rv, ok, fail, Frame, Sk, SkOutcome}
use wsd.Sock.{with_recvbuf}
use wsd.Ws.Header.{
  set_fin_bit, set_opcode, set_mask_bit, ws_frag_frame, ws_text_frame, ws_binary_frame,
  ws_close_frame, ws_ping_frame, ws_pong_frame, rsv_bits, mask_bit, opcode, calculate_frame_length,
  set_payload_len, decode_payload_len,
}
use wsd.Ws.Control.{ws_unmasked_frame_len, ws_pong, finish_closing_handshake}

-- The key of every data frame.
abbrev pub data_key : ℕ
data_key = 0xdeadbeef

-- `skb_rdsz(src) < maxlen ? skb_rdsz(src) : maxlen`
unfoldable pub payload_size : Skb → ℕ → ℕ
payload_size src maxlen = if ltb (rdsz src) maxlen then rdsz src else maxlen

-- The frame behind its guard, and both buffers; `none` is the failed `AZ(ws_set_payload_len(...))`.
abbrev pub put_frame : Skb → Skb → ℕ → Option (Rv × (Skb × Skb))
put_frame dst src len =
    elim (set_payload_len (put 1 (set_opcode (set_fin_bit 0) ws_text_frame) dst) len
      (set_mask_bit 0)) [
        | none ↦ none
        | some b ↦
            let (dst', src') = move (λ i c. mask c i data_key) 0 len (put 4 data_key b) src in
            some (ok, (dst', compact src'))
      ]

-- Up to `maxlen` bytes, an `unsigned int`, go from `src` to `dst` as one masked text frame.
unfoldable pub encode_data_frame : Skb → Skb → ℕ → Option (Rv × (Skb × Skb))
encode_data_frame dst src maxlen =
    let len = payload_size src maxlen in
    elim (calculate_frame_length len) [
      | none ↦ some (fail enum, (dst, src))
      | some n ↦ if ltb (wrsz dst) n then some (fail eagain, (dst, src)) else put_frame dst src len
    ]

-- What has been printed, with the result.
abbrev pub Printed : Type 0
Printed = Option (Rv × (Sk × List ℕ))

-- A function that prints nothing.
abbrev pub silent : SkOutcome → Printed
silent none = none
silent (some (rv, sk)) = some (rv, (sk, []))

-- `AZ(skb_print(stdout, ...))` and the compaction behind it; `flushed` is whether fflush succeeds.
abbrev pub print_payload : Bool → Sk → ℕ → Printed
print_payload flushed sk len =
    if flushed
    then some (
      ok,
      (
        with_recvbuf sk (compact (rd_forward sk.recvbuf len)),
        window sk.recvbuf.bytes sk.recvbuf.rdpos len,
      ),
    )
    else none

abbrev pub compacted : Sk → Sk
compacted sk = with_recvbuf sk (compact sk.recvbuf)

-- The switch on the opcode; the payload is at the read position.
unfoldable pub dispatch : Bool → Bool → Sk → ℕ → ℕ → Printed
dispatch flushed no_handshake sk byte1 len =
    let op = opcode byte1 in
    if op == ws_text_frame || op == ws_binary_frame || op == ws_frag_frame
    then print_payload flushed sk len
    else if op == ws_close_frame
    then (if no_handshake
        then some (ok, (with_recvbuf sk (reset sk.recvbuf), []))
        else silent (finish_closing_handshake sk true len))
    else if op == ws_ping_frame
    then silent (ws_pong (compacted sk) true)
    else if op == ws_pong_frame
    then some (ok, (compacted sk, []))
    else some (fail ebadreq, (sk, []))

-- From the payload length on. `0 > wsf.payload_len` compares an `unsigned long`.
abbrev pub check_length : Bool → Bool → Sk → ℕ → ℕ × Skb → Printed
check_length flushed no_handshake sk byte1 (len, b) =
    let back = with_recvbuf sk (rd_reset b sk.recvbuf.rdpos) in
    if ltb len 0
    then some (fail einput, (back, []))
    else if ltb capacity len
    then some (fail ebadreq, (back, []))
    else if ltb (rdsz b) len
    then some (fail einput, (back, []))
    else dispatch flushed no_handshake (with_recvbuf sk b) byte1 len

unfoldable pub decode_frame : Bool → Bool → Sk → Printed
decode_frame flushed no_handshake sk =
    if ltb (rdsz sk.recvbuf) ws_unmasked_frame_len
    then some (fail einput, (sk, []))
    else (let (byte1, b1) = get 1 sk.recvbuf in
        let (byte2, b2) = get 1 b1 in
        if rsv_bits byte1 || mask_bit byte2
        then some (fail ebadreq, (with_recvbuf sk b2, []))
        else check_length flushed no_handshake sk byte1 (decode_payload_len b2 byte2))
