-- ===== src/Recv.antt =====
-- The receive functions behind the upgrade: the frame loops of ws_recv of src/ws_wsd.c and pp2_recv of
-- src/pp2.c, and the search for a backend in ws_recv.
pub mod Laws
pub mod Backend
mod Tests
use wsd.Prelude.{
  ℕ, zero, suc, ◌+◌, Bool, true, false, ◌&&◌, ◌||◌, not, ltb, ◌==◌, if◌then◌else◌, Option, none,
  some,
}
use wsd.Skb.{rdsz}
use wsd.Types.{Errno, eai, Rv, ok, fail, Sk, Pair, Outcome}
use wsd.Sock.{turn_on_epollin, turn_on_epollout, turn_off_epollin, when}
use wsd.Io.{Hosts, next_host}
use wsd.Ws.Data.{ws_decode_frame}
use wsd.Server.{Server, pp2_decode_frame}
use wsd.Child.{World, Opening, sk_open}

-- The hosts are tried in turn while their names cannot be resolved; `answer` says what comes of
-- sk_open for each. `rv` is what the loop starts with, which the source leaves open.
unfoldable pub open_backend : ℕ → (ℕ → Opening) → Rv → Hosts → World → Option (Rv × Hosts × World)
open_backend zero answer rv h w = some (rv, h, w)
open_backend (suc retries) answer rv h w = elim (sk_open (answer h.num) w) [
  | none ↦ none
  | some (fail eai, w') ↦ open_backend retries answer (fail eai) (next_host h) w'
  | some (rv', w') ↦ some (rv', h, w')
]

-- `while (0 == (rv = sk->proto->decode_frame(sk))) frames++;` on `n` rounds. A frame takes its header
-- off the buffer at least, so that the bytes in it are rounds enough.
unfoldable pub decode_frames : ℕ → Bool → Pair → Option (Rv × Bool × Pair)
decode_frames zero frames p = some (ok, frames, p)
decode_frames (suc n) frames p = elim (ws_decode_frame p) [
  | none ↦ none
  | some (fail e, p') ↦ some (fail e, frames, p')
  | some (ok, p') ↦ decode_frames n true p'
]

-- `if (frames) ...`: the backend's socket is woken to write, and the client's to be read.
abbrev pub wake_backend : Bool → Sk → Sk
wake_backend frames sk =
    when (frames && (ltb 0 (rdsz sk.sendbuf) && not sk.events.epollout)) turn_on_epollout sk

abbrev pub wake_client : Bool → Sk → Sk
wake_client frames sk =
    when (frames && (not sk.events.epollin && sk.close_on_write)) turn_on_epollin sk

-- The client's events at the end.
abbrev pub settle : Sk → Sk
settle sk =
    let sk' = when (sk.close || sk.close_on_write) turn_off_epollin sk in
    when (sk'.close_on_write && not sk'.events.epollout) turn_on_epollout sk'

-- ws_recv with a backend; `none` is a failed assertion.
unfoldable pub ws_recv : Pair → Outcome
ws_recv p =
    if rdsz p.client.recvbuf == 0
    then none
    else elim (decode_frames (suc (rdsz p.client.recvbuf)) false p) [
      | none ↦ none
      | some (rv, frames, q) ↦ some (
        rv,
        record {
          client = settle (wake_client frames q.client);
          pp2sk = wake_backend frames q.pp2sk;
        },
      )
    ]

-- The loop of pp2_recv; each frame takes its header off the backend's buffer.
unfoldable pub pp2_frames : ℕ → Bool → Server → Option (Rv × Bool × Server)
pp2_frames zero frames s = some (ok, frames, s)
pp2_frames (suc n) frames s = elim (pp2_decode_frame s) [
  | none ↦ none
  | some (fail e, s') ↦ some (fail e, frames, s')
  | some (ok, s') ↦ pp2_frames n true s'
]

-- `!sk->events & EPOLLIN`: whether no event at all is on.
abbrev pub no_events : Sk → Bool
no_events sk =
    not (sk.events.epollin || (sk.events.epollpri || (sk.events.epollrdhup || sk.events.epollout)))

unfoldable pub pp2_recv : Server → Option (Rv × Server)
pp2_recv s =
    if rdsz s.pp2sk.recvbuf == 0
    then none
    else elim (pp2_frames (suc (rdsz s.pp2sk.recvbuf)) false s) [
      | none ↦ none
      | some (rv, frames, t) ↦
          some (rv, record t { pp2sk = when (frames && no_events t.pp2sk) turn_on_epollin t.pp2sk })
    ]
