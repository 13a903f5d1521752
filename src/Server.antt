-- ===== src/Server.antt =====
-- The daemon's sockets together: the backend's and the table of clients; pp2_decode_frame and
-- pp2_recv of src/pp2.c, which find the client that a frame is for.
pub mod Deliver
mod Tests
use wsd.Prelude.{
  ℕ, zero, suc, ◌+◌, ◌%◌, ◌^◌, Bool, true, false, not, ltb, leb, ◌==◌, if◌then◌else◌, Option, none,
  some,
}
use wsd.Skb.{Skb, rdsz, rd_forward, compact}
use wsd.Types.{Errno, einput, eagain, enum, Rv, ok, fail, Frame, Sk, Pair, Outcome}
use wsd.Sock.{with_recvbuf}
use wsd.Hashtable.{Table, find, update}
use wsd.Pp2.{pp2_header_len, decode_header}
use wsd.Ws.Data.{ws_encode_frame}

pub record Server : Type 0 where
  pub pp2sk : Sk
  pub table : Table

-- `wsframe_t` from zeros, with a payload length
abbrev pub blank_frame : ℕ → Frame
blank_frame len = record { byte1 = 0; byte2 = 0; payload_len = len; masking_key = 0 }

-- The client as the call has left it.
abbrev with_client : Server → ℕ → Outcome → Option (Rv × Server)
with_client s hash none = none
with_client s hash (some (rv, p)) =
    some (rv, record { pp2sk = p.pp2sk; table = update s.table hash p.client })

-- `cln_sk->proto->encode_frame(cln_sk, &wsf)`; the function is null before the client speaks websocket.
abbrev to_client : Server → Skb → ℕ → ℕ → Sk → Option (Rv × Server)
to_client s b hash len cln =
    if not cln.upgraded
    then none
    else with_client s hash (
        ws_encode_frame (blank_frame len) (record { client = cln; pp2sk = with_recvbuf s.pp2sk b }))

abbrev to_found : Server → ℕ → ℕ → Skb → Option Sk → Option (Rv × Server)
to_found s hash len b none =
    some (ok, record s { pp2sk = with_recvbuf s.pp2sk (compact (rd_forward b len)) })
to_found s hash len b (some cln) = to_client s b hash len cln

-- Behind the header: the payload must be there; without a client for it, it is dropped. `none` is also
-- the search in a bucket that the table does not have.
abbrev route : Server → ℕ → ℕ → Skb → Option (Rv × Server)
route s hash len b =
    if ltb (rdsz b) len
    then some (fail eagain, s)
    else elim (find s.table hash) [ none ↦ none | some found ↦ to_found s hash len b found ]

-- Where an error is returned with the read position put back, the state is as before.
unfoldable pub pp2_decode_frame : Server → Option (Rv × Server)
pp2_decode_frame s =
    if leb (rdsz s.pp2sk.recvbuf) pp2_header_len
    then some (fail einput, s)
    else elim (decode_header s.pp2sk.recvbuf) [
      | none ↦ some (fail enum, s)
      | some (hash, len, b) ↦ route s hash len b
    ]
