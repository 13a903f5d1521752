-- ===== src/Wscat/Events.antt =====
-- The event handlers of wscat, src/wscat.c: wssk_ws_recv, post_read, on_iteration, try_repeating_last,
-- stdin_close, wssk_close, wssk_ws_start_closing_handshake and wssk_ws_ping. `rounds` bounds the loop of
-- repeat_last, and what that returns is ignored as in the source.
pub mod Laws
mod Tests
use wsd.Prelude.{
  ℕ, zero, suc, ◌+◌, Bool, true, false, ◌&&◌, ◌||◌, not, ltb, ◌==◌, if◌then◌else◌, Option, none,
  some, List, [], ◌++◌,
}
use wsd.Skb.{Skb, rdsz}
use wsd.Types.{Errno, eagain, Rv, ok, fail, Timespec, Sk, SkOutcome}
use wsd.Sock.{turn_on_epollin, turn_on_epollout, turn_off_epollin, when}
use wsd.Ws.Control.{ws_ping, start_closing_handshake}
use wsd.Timeout.{minus_one, is_positive, check_timeout, ws_1000}
use wsd.Wscat.Frame.{decode_frame}
use wsd.Wscat.State.{Cat, CatOutcome, with_wssk}
use wsd.Wscat.Repeat.{repeat_last}

-- The result of a frame loop: the last `rv`, whether there were frames, the socket and the output.
abbrev pub Frames : Type 0
Frames = Option (Rv × (Bool × (Sk × List ℕ)))

-- `while (0 == (rv = sk->proto->decode_frame(sk))) frames++;` on `n` rounds. Each frame takes its
-- header off the buffer at least, so that the bytes in it are rounds enough. `flushed` says whether
-- stdout can be flushed, which is asserted for each payload.
unfoldable pub decode_frames : Bool → Bool → ℕ → Bool → Sk → List ℕ → Frames
decode_frames flushed no_handshake zero frames sk out = some (ok, (frames, (sk, out)))
decode_frames flushed no_handshake (suc n) frames sk out =
    elim (decode_frame flushed no_handshake sk) [
      | none ↦ none
      | some (fail e, (sk', text)) ↦ some (fail e, (frames, (sk', out ++ text)))
      | some (ok, (sk', text)) ↦ decode_frames flushed no_handshake n true sk' (out ++ text)
    ]

-- What becomes of the events behind the loop.
abbrev pub wake_writer : Bool → Sk → Sk
wake_writer frames sk =
    when (frames && (ltb 0 (rdsz sk.sendbuf) && not sk.events.epollout)) turn_on_epollout sk

abbrev pub wake_reader : Bool → Sk → Sk
wake_reader frames sk =
    when (frames && (not sk.events.epollin && not sk.close_on_write)) turn_on_epollin sk

abbrev pub stop_reading : Sk → Sk
stop_reading sk = when (sk.close || sk.close_on_write) turn_off_epollin sk

abbrev pub rearm_wssk : Bool → Sk → Sk
rearm_wssk frames sk = stop_reading (wake_reader frames (wake_writer frames sk))

-- wssk_ws_recv with what it prints; `none` is a failed assertion.
unfoldable pub wssk_ws_recv : Bool → Bool → Sk → Option (Rv × (Sk × List ℕ))
wssk_ws_recv flushed no_handshake sk =
    if rdsz sk.recvbuf == 0
    then none
    else elim (decode_frames flushed no_handshake (suc (rdsz sk.recvbuf)) false sk []) [
      | none ↦ none
      | some (rv, (frames, (sk', out))) ↦ some (rv, (rearm_wssk frames sk', out))
    ]

-- `post_read`, with the function that `sk->ops->recv` points to.
abbrev pub post_read : (Sk → SkOutcome) → Sk → SkOutcome
post_read recv sk = if rdsz sk.recvbuf == 0 then some (ok, sk) else recv sk

-- `if (0 > f(wssk, ...)) done = true;`
abbrev pub or_done : Cat → SkOutcome → Option Cat
or_done cat none = none
or_done cat (some (ok, sk)) = some (with_wssk cat sk)
or_done cat (some (fail e, sk)) = some (record (with_wssk cat sk) { done = true })

unfoldable pub wssk_ws_start_closing_handshake : Cat → Option Cat
wssk_ws_start_closing_handshake cat = elim cat.wssk [
  | none ↦ none
  | some sk ↦ or_done cat (start_closing_handshake sk ws_1000 true)
]

unfoldable pub wssk_ws_ping : Cat → Option Cat
wssk_ws_ping cat = elim cat.wssk [ none ↦ none | some sk ↦ or_done cat (ws_ping sk true) ]

-- `if (!no_handshake) wssk_ws_start_closing_handshake();`
abbrev pub say_goodbye : Cat → Option Cat
say_goodbye cat = if cat.no_handshake then some cat else wssk_ws_start_closing_handshake cat

abbrev pub repeated : ℕ → Cat → Option Cat
repeated rounds cat = elim (repeat_last rounds cat) [ none ↦ none | some (rv, cat') ↦ some cat' ]

-- The close of the socket, and of the input, that the pointers stand for.
unfoldable pub wssk_close : Cat → Cat
wssk_close cat = record cat { wssk = none; done = true }

unfoldable pub stdin_close : ℕ → Cat → Option Cat
stdin_close rounds cat =
    let closing =
      if cat.idle_timeout == minus_one
        && (cat.ping_interval == minus_one && cat.repeat_last_num == minus_one)
      then say_goodbye cat
      else if is_positive cat.repeat_last_num
      then repeated rounds (record cat { repeat_last_armed = true })
      else some cat in
    elim closing [ none ↦ none | some cat' ↦ some (record cat' { fdin = none }) ]

-- try_repeating_last from the second last test on.
abbrev pub disarm : Cat → Option Cat
disarm cat =
    if cat.repeat_last_num == 0
    then (let cat' = record cat { repeat_last_armed = false } in
        if cat'.idle_timeout == minus_one then say_goodbye cat' else some cat')
    else some cat

abbrev pub repeat_on : ℕ → Cat → Sk → Option Cat
repeat_on rounds cat wssk =
    if wssk.closing
    then some cat
    else if is_positive cat.repeat_last_num
    then elim (repeated rounds cat) [ none ↦ none | some cat' ↦ disarm cat' ]
    else disarm cat

unfoldable pub try_repeating_last : ℕ → Cat → Option Cat
try_repeating_last rounds cat =
    if not cat.repeat_last_armed
    then some cat
    else elim cat.wssk [ none ↦ some cat | some wssk ↦ repeat_on rounds cat wssk ]

-- `if (check_timeout(wssk, now, timeout)) act`; a null pointer fails an assertion.
abbrev pub if_due : Timespec → ℕ → (Cat → Option Cat) → Cat → Option Cat
if_due now timeout act cat = elim cat.wssk [
  | none ↦ none
  | some wssk ↦ if check_timeout wssk now timeout then act cat else some cat
]

unfoldable pub on_iteration : ℕ → Timespec → Cat → Option Cat
on_iteration rounds now cat = elim (if_due now cat.ping_interval wssk_ws_ping cat) [
  | none ↦ none
  | some cat1 ↦ elim (if_due now cat1.idle_timeout say_goodbye cat1) [
    | none ↦ none
    | some cat2 ↦ try_repeating_last rounds cat2
  ]
]
