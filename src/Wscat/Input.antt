-- ===== src/Wscat/Input.antt =====
-- The input of wscat, src/wscat.c: balanced_span, stdin_decode_frame, wssk_ws_encode_frame, stdin_recv.
pub mod Span
pub mod Laws
mod Tests
use wsd.Prelude.{
  ℕ, zero, suc, ◌+◌, ◌-◌, ◌%◌, ◌^◌, Bool, true, false, ◌&&◌, ◌||◌, not, ltb, ◌==◌, if◌then◌else◌,
  Option, none, some,
}
use wsd.Prelude.Words.{add32}
use wsd.Memory.{Memory}
use wsd.Skb.{Skb, rdsz, reset, copy}
use wsd.Types.{Errno, einput, Rv, ok, fail, Sk}
use wsd.Sock.{turn_on_epollout, turn_on_epollin, turn_off_epollin, when, with_sendbuf, with_recvbuf}
use wsd.Timeout.{minus_one, is_positive}
use wsd.Wscat.Frame.{encode_data_frame}
use wsd.Wscat.State.{Cat, CatOutcome, with_wssk}

-- `num` behind the byte `c`, an `int`, here the word of 32 bits that holds it.
abbrev pub next_num : ℕ → ℕ → ℕ → ℕ → ℕ
next_num begin end c num =
    if c == begin
    then (if num == minus_one then 1 else add32 num 1)
    else if c == end
    then (num + minus_one) % 2 ^ 32
    else num

-- Whether the loop returns at the byte `c`.
abbrev pub is_over : ℕ → ℕ → ℕ → ℕ → Bool
is_over begin end c num = not (c == begin) && (c == end && next_num begin end c num == 0)

-- The loop on `n` positions from `pos` on; `i` is `pos - buf->rdpos`.
unfoldable pub span_from : ℕ → ℕ → Memory → ℕ → ℕ → ℕ → ℕ → Option ℕ
span_from begin end m zero pos num i = none
span_from begin end m (suc n) pos num i =
    let rest = span_from begin end m n (pos + 1) (next_num begin end (m pos) num) (i + 1) in
    if is_over begin end (m pos) num then some (i + 1) else rest

-- `none` is -1; the number of rounds is that of `while (pos < buf->wrpos)`.
unfoldable pub balanced_span : Skb → ℕ → ℕ → Option ℕ
balanced_span buf begin end =
    span_from begin end buf.bytes (buf.wrpos - buf.rdpos) buf.rdpos minus_one 0

-- `{` and `}`
abbrev pub brace_open : ℕ
brace_open = b'{'

abbrev pub brace_close : ℕ
brace_close = b'}'

-- The length of the next piece of input: a whole JSON object, or up to 32 bytes.
abbrev pub piece : Bool → Skb → Option ℕ
piece true buf = balanced_span buf brace_open brace_close
piece false buf = some (if ltb 32 (rdsz buf) then 32 else rdsz buf)

-- The piece is kept for a repetition.
abbrev pub keep_input : Cat → Skb → ℕ → Cat
keep_input cat buf len =
    if is_positive cat.repeat_last_num
    then record cat { last_input = copy (reset cat.last_input) buf len }
    else cat

-- `wssk_ws_encode_frame(sk, wsf)`, which the pointer in `wssk->proto` leads to.
unfoldable pub wssk_ws_encode_frame : Cat → Sk → ℕ → Option (Rv × (Cat × Sk))
wssk_ws_encode_frame cat sk payload_len = elim cat.wssk [
  | none ↦ none
  | some wssk ↦ elim (encode_data_frame wssk.sendbuf sk.recvbuf (payload_len % 2 ^ 32)) [
    | none ↦ none
    | some (rv, (dst, src)) ↦
        some (rv, (with_wssk cat (with_sendbuf wssk dst), with_recvbuf sk src))
  ]
]

unfoldable pub stdin_decode_frame : Cat → Sk → Option (Rv × (Cat × Sk))
stdin_decode_frame cat sk =
    if rdsz sk.recvbuf == 0
    then some (fail einput, (cat, sk))
    else elim (piece cat.is_json sk.recvbuf) [
      | none ↦ some (fail einput, (cat, sk))
      | some len ↦ wssk_ws_encode_frame (keep_input cat sk.recvbuf len) sk len
    ]

-- `while (0 == (rv = sk->proto->decode_frame(sk))) frames++;` on `n` rounds, with whether there were
-- frames. Each frame takes at least one byte off the input.
unfoldable pub decode_frames : ℕ → Bool → Cat → Sk → Option (Bool × (Cat × Sk))
decode_frames zero frames cat sk = some (frames, (cat, sk))
decode_frames (suc n) frames cat sk = elim (stdin_decode_frame cat sk) [
  | none ↦ none
  | some (fail e, (cat', sk')) ↦ some (frames, (cat', sk'))
  | some (ok, (cat', sk')) ↦ decode_frames n true cat' sk'
]

abbrev pub wake_wssk : Cat → Cat
wake_wssk cat = elim cat.wssk [ none ↦ cat | some wssk ↦ with_wssk cat (turn_on_epollout wssk) ]

-- What becomes of the events behind the loop.
abbrev pub wake_reader : Bool → Sk → Sk
wake_reader frames sk =
    when (frames && (not sk.events.epollin && sk.close_on_write)) turn_on_epollin sk

abbrev pub stop_reading : Sk → Sk
stop_reading sk = when (sk.close || sk.close_on_write) turn_off_epollin sk

abbrev pub rearm_stdin : Bool → Sk → Sk
rearm_stdin frames sk =
    let sk' = stop_reading (wake_reader frames sk) in when sk'.close_on_write turn_on_epollout sk'

-- `false` is -1 for a websocket connection that failed, with wsd_errno as it was.
unfoldable pub stdin_recv : Cat → Sk → Option (Bool × (Cat × Sk))
stdin_recv cat sk = if rdsz sk.recvbuf == 0 then none else elim cat.wssk [
  | none ↦ some (false, (cat, sk))
  | some wssk ↦ elim (decode_frames (suc (rdsz sk.recvbuf)) false cat sk) [
    | none ↦ none
    | some (frames, (cat', sk')) ↦
        some (true, (if frames then wake_wssk cat' else cat', rearm_stdin frames sk'))
  ]
]
