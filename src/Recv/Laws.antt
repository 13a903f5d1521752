-- ===== src/Recv/Laws.antt =====
-- ws_recv takes all frames that have arrived to the backend, in their order.
use wsd.Prelude.{
  ℕ, zero, suc, ◌+◌, ◌^◌, ◌≤◌, ◌<◌, ◌≡◌, refl, sym, ap, ◌∙◌, Bool, true, false, ◌==◌, ◌&&◌, ◌||◌,
  not, ltb, lt→ltb, some, List, [], ◌∷◌, ◌++◌, length, length-append, All, arith,
}
use wsd.Prelude.Words.{IsByte}
use wsd.Skb.{Skb, rdsz}
use wsd.Skb.Contents.{IsValid, contents, room, rdsz-eq}
use wsd.Skb.Append.{Appends, Appends-nothing, Appends-room, Appends-Appends}
use wsd.Types.{fail, einput, Sk, Pair}
use wsd.Sock.{turn_on_epollin, turn_on_epollout, turn_off_epollin, when, with_sendbuf, with_recvbuf}
use wsd.Pp2.{pp2_header_len}
use wsd.Pp2.Header.{header, length-header}
use wsd.Pp2.Encode.{pp2_frame}
use wsd.Ws.Data.{ws_decode_frame}
use wsd.Ws.Data.Spec.{client_frame}
use wsd.Ws.Data.Forward.{IsData, Arrived, decode_forwards-kept}
use wsd.Recv.{decode_frames, wake_backend, wake_client, settle, ws_recv}

-- A data frame as a client may send it.
pub record Message : Type 0 where
  pub byte1 : ℕ
  pub key : ℕ
  pub payload : List ℕ

pub record IsMessage (m : Message) : Type 0 where
  pub is_data : IsData m.byte1
  pub key_fits : m.key < 2 ^ 32
  pub bytes : All IsByte m.payload

-- The messages as the client sends them, and as the backend is sent them.
abbrev pub as_sent : List Message → List ℕ
as_sent [] = []
as_sent (m ∷ ms) = client_frame m.byte1 m.key m.payload ++ as_sent ms

abbrev pub as_proxied : Sk → List Message → List ℕ
as_proxied sk [] = []
as_proxied sk (m ∷ ms) = pp2_frame sk m.payload ++ as_proxied sk ms

-- The pair with other bytes in the two buffers between which frames go.
abbrev pub moved : Pair → Skb → Skb → Pair
moved p b c = record { client = with_recvbuf p.client b; pp2sk = with_sendbuf p.pp2sk c }

length-pp2_frame : (sk : Sk) (s : List ℕ) → length (pp2_frame sk s) ≡ length s + pp2_header_len
length-pp2_frame sk s = omega (
  arith,
  length-append (header sk.src_addr sk.dst_addr sk.hash (length s)) s,
  length-header sk.src_addr sk.dst_addr sk.hash (length s),
)

empty_waits :
    (p : Pair)
    → IsValid p.client.recvbuf
    → contents p.client.recvbuf ≡ []
    → ws_decode_frame p ≡ some (fail einput, p)
unfolding ws_decode_frame
empty_waits p v e = rw (lt→ltb (rdsz p.client.recvbuf) 6 (omega (arith, rdsz-eq v, ap length e)))

as_sent-ge : (ms : List Message) → length ms ≤ length (as_sent ms)
as_sent-ge [] = omega arith
as_sent-ge (m ∷ ms) =
    omega (arith, as_sent-ge ms, length-append (client_frame m.byte1 m.key m.payload) (as_sent ms))

abbrev any : List Message → Bool
any [] = false
any (m ∷ ms) = true

-- The loop, with rounds for all messages and the call that finds no more.
all_forwarded :
    (ms : List Message) (n : ℕ) (seen : Bool) (p : Pair)
    → IsValid p.client.recvbuf
    → IsValid p.pp2sk.sendbuf
    → All IsMessage ms
    → contents p.client.recvbuf ≡ as_sent ms
    → length (as_proxied p.client ms) ≤ room p.pp2sk.sendbuf
    → length ms < n
    → (b : Skb) × (c : Skb) × (decode_frames n seen p
        ≡ some (fail einput, seen || any ms, moved p b c))
      × (contents b ≡ [])
      × Appends p.pp2sk.sendbuf (as_proxied p.client ms) c
unfolding decode_frames
all_forwarded ms zero seen p v w all e r h = absurd (omega (arith, h))
all_forwarded [] (suc n) seen p v w all e r h = (
  p.client.recvbuf,
  p.pp2sk.sendbuf,
  rw (empty_waits p v e, decode_frames) (ap (λ s. some (fail einput, s, p)) (or_false seen)),
  e,
  Appends-nothing w,
)
  where
    or_false : (b : Bool) → b ≡ (b || false)
    or_false true = refl
    or_false false = refl
all_forwarded (m ∷ ms) (suc n) seen p v w all e r h =
    let sizes = length-append (pp2_frame p.client m.payload) (as_proxied p.client ms) in
    let one = length-pp2_frame p.client m.payload in
    let arrived : Arrived m.byte1 m.key m.payload (as_sent ms) p = record {
      valid = v;
      backend_valid = w;
      key_fits = all.0.key_fits;
      bytes = all.0.bytes;
      frame = e;
    } in
    let (b1, c1, done, rest, v1, put) =
      decode_forwards-kept m.byte1 m.key m.payload (as_sent ms) p all.0.is_data arrived
        (omega (arith, r, sizes, one)) in
    let (b, c, loop, none_left, put_all) =
      all_forwarded ms n true (moved p b1 c1) v1 put.valid all.1 rest
        (omega (arith, r, sizes, Appends-room w put)) (omega (arith, h)) in
    (
      b,
      c,
      rw (done, decode_frames) (loop ∙ ap (λ s. some (fail einput, s, moved p b c)) (or_true seen)),
      none_left,
      Appends-Appends put put_all,
    )
  where
    or_true : (b : Bool) → true ≡ (b || true)
    or_true true = refl
    or_true false = refl

on_after :
    (b : Bool) (sk : Sk)
    → sk.events.epollout ≡ b
    → (when (not b) turn_on_epollout sk).events.epollout ≡ true
on_after true sk e = e
on_after false sk e = refl

woken : (sk : Sk) → 0 < rdsz sk.sendbuf → (wake_backend true sk).events.epollout ≡ true
woken sk h =
    ap (λ t. (when (t && not sk.events.epollout) turn_on_epollout sk).events.epollout)
      (lt→ltb 0 (rdsz sk.sendbuf) h)
    ∙ on_after sk.events.epollout sk refl

when-sendbuf :
    (b : Bool) (f : Sk → Sk) (sk : Sk)
    → (f sk).sendbuf ≡ sk.sendbuf
    → (when b f sk).sendbuf ≡ sk.sendbuf
when-sendbuf true f sk e = e
when-sendbuf false f sk e = refl

when-fd : (b : Bool) (f : Sk → Sk) (sk : Sk) → (f sk).fd ≡ sk.fd → (when b f sk).fd ≡ sk.fd
when-fd true f sk e = e
when-fd false f sk e = refl

and_false : (b : Bool) → (b && false) ≡ false
and_false true = refl
and_false false = refl

-- A client that is not to be closed keeps its events: the test for waking it asks for the opposite.
kept_events :
    (sk : Sk) → sk.close ≡ false → sk.close_on_write ≡ false → settle (wake_client true sk) ≡ sk
kept_events sk stays open_ =
    let off = λ (s : Sk). when (s.close || s.close_on_write) turn_off_epollin s in
    let asleep : wake_client true sk ≡ sk =
      ap (λ t. when (not sk.events.epollin && t) turn_on_epollin sk) open_
      ∙ ap (λ t. when t turn_on_epollin sk) (and_false (not sk.events.epollin)) in
    let same : off sk ≡ sk =
      ap (λ t. when (t || sk.close_on_write) turn_off_epollin sk) stays
      ∙ ap (λ t. when t turn_off_epollin sk) open_ in
    ap settle asleep
    ∙ ap (λ (s : Sk). when (s.close_on_write && not s.events.epollout) turn_on_epollout s) same
    ∙ ap (λ t. when (t && not sk.events.epollout) turn_on_epollout sk) open_

-- Where the client's valid receive buffer holds any number of whole data frames, at least one, and
-- nothing else, and the backend's valid send buffer has room for them with their proxy headers: one
-- call puts them all there in their order, leaves nothing to read, waits for more, and has epoll wait
-- for a chance to write to the backend. The client is not to be closed, and nothing but its receive
-- buffer changes, its events neither.
pub ws_recv_forwards_all :
    (m : Message) (ms : List Message) (p : Pair)
    → IsValid p.client.recvbuf
    → IsValid p.pp2sk.sendbuf
    → All IsMessage (m ∷ ms)
    → contents p.client.recvbuf ≡ as_sent (m ∷ ms)
    → length (as_proxied p.client (m ∷ ms)) ≤ room p.pp2sk.sendbuf
    → p.client.close ≡ false
    → p.client.close_on_write ≡ false
    → (q : Pair) × (ws_recv p ≡ some (fail einput, q))
      × (contents q.pp2sk.sendbuf ≡ contents p.pp2sk.sendbuf ++ as_proxied p.client (m ∷ ms))
      × (contents q.client.recvbuf ≡ [])
      × (q.pp2sk.events.epollout ≡ true)
      × (q.client ≡ with_recvbuf p.client q.client.recvbuf)
      × (q.pp2sk.fd ≡ p.pp2sk.fd)
unfolding ws_recv
ws_recv_forwards_all m ms p v w all e r stays open_ =
    let size : rdsz p.client.recvbuf ≡ length (as_sent (m ∷ ms)) = rdsz-eq v ∙ ap length e in
    let at_least = as_sent-ge (m ∷ ms) in
    let not_empty : (rdsz p.client.recvbuf == 0) ≡ false = ground (arith, size, at_least) in
    let (b, c, loop, none_left, put) =
      all_forwarded (m ∷ ms) (suc (rdsz p.client.recvbuf)) false p v w all e r
        (omega (arith, size, at_least)) in
    let q = moved p b c in
    (
      record { client = settle (wake_client true q.client); pp2sk = wake_backend true q.pp2sk },
      rw not_empty (rw (loop, ws_recv)),
      ap contents (
            when-sendbuf (ltb 0 (rdsz c) && not p.pp2sk.events.epollout) turn_on_epollout q.pp2sk
              refl)
          ∙ put.text,
      ap (λ s. contents s.recvbuf) (kept_events q.client stays open_) ∙ none_left,
      woken q.pp2sk (
          omega (
            arith,
            rdsz-eq put.valid,
            ap length put.text,
            length-append (contents p.pp2sk.sendbuf) (as_proxied p.client (m ∷ ms)),
            length-append (pp2_frame p.client m.payload) (as_proxied p.client ms),
            length-pp2_frame p.client m.payload,
          )),
      kept_events q.client stays open_
          ∙ sym (ap (λ s. with_recvbuf p.client s.recvbuf) (kept_events q.client stays open_)),
      when-fd (ltb 0 (rdsz c) && not p.pp2sk.events.epollout) turn_on_epollout q.pp2sk refl,
    )
