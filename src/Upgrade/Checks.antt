-- ===== src/Upgrade/Checks.antt =====
-- ws_decode_handshake on every kind of request, and the answers.
use wsd.Prelude.{
  Bool, ℕ, ◌≤◌, ◌<◌, ◌≡◌, refl, ap, ◌∙◌, true, false, le→ltb, ◌==◌, Option, none, some, List, [],
  ◌++◌, arith, length,
}
use wsd.Skb.{Skb, capacity, rdsz, wrsz, write, put_strn, compact, strncpy}
use wsd.Skb.Contents.{
  IsValid, contents, room, wrsz-eq, rdsz-eq, contents-write, contents-reset, contents-compact,
}
use wsd.Types.{Chunk, ok, fail, ebadreq, Sk}
use wsd.Sock.{turn_on_epollout, with_sendbuf, with_recvbuf}
use wsd.Http.Parser.{Req}
use wsd.Http.Validate.{trim, strncmp_eq}
use wsd.Http.Recv.{answered, on_error}
use wsd.Upgrade.{
  http_400_ver, is_valid_ver, is_valid_proto, is_valid, refuse, conclude, switch_to_ws,
  ws_decode_handshake,
}
use wsd.Skb.Append.{Appends-room}
use wsd.Upgrade.Reply.{key, proto, whole_reply}
use wsd.Upgrade.Laws.{prepare_handshake-PutAll, length-whole_reply}

-- A field of which no character is left passes for the version 13, and for every protocol.
pub empty_field_passes :
    (field : Chunk) (protocol : List ℕ)
    → (trim field).len ≡ 0
    → (is_valid_ver field ≡ true) × (is_valid_proto protocol field ≡ true)
unfolding strncmp_eq
empty_field_passes field protocol e = (rw e, rw e)

-- A text with room for it is put as an answer.
pub answer :
    (b : Skb) (text : List ℕ)
    → IsValid b
    → strncpy text (length text) ≡ text
    → length text ≤ room b
    → put_strn b text (length text) ≡ some (write b text)
unfolding put_strn
answer b text v e r = rw (le→ltb (wrsz b) (length text) (omega (arith, wrsz-eq v, r)), e)

-- The socket after a request has been answered with an error.
pub record Refused (sk : Sk) (text : List ℕ) (sk' : Sk) : Type 0 where
  pub sent : contents sk'.sendbuf ≡ contents sk.sendbuf ++ text
  pub to_close : sk'.close_on_write ≡ true
  pub not_read : sk'.events.epollin ≡ false
  pub to_write : sk'.events.epollout ≡ true
  pub dropped : contents sk'.recvbuf ≡ []
  pub not_upgraded : sk'.upgraded ≡ sk.upgraded

-- An answer without a NUL for which the valid send buffer has room.
refused_lem :
    (sk : Sk) (text : List ℕ)
    → IsValid sk.sendbuf
    → strncpy text (length text) ≡ text
    → length text ≤ room sk.sendbuf
    → (sk' : Sk) × (refuse sk text ≡ some (fail ebadreq, sk')) × Refused sk text sk'
refused_lem sk text v e r = (
  (on_error (answered sk (some (write sk.sendbuf text)))).1,
  ap (λ o. some (on_error (answered sk o))) (answer sk.sendbuf text v e r),
  record {
    sent = contents-write text v r;
    to_close = refl;
    not_read = refl;
    to_write = refl;
    dropped = contents-reset sk.recvbuf;
    not_upgraded = refl;
  },
)

-- When nothing is left to read and there is room to write, the websocket functions take over.
switch_to_ws-eq :
    (sk : Sk)
    → rdsz sk.recvbuf ≡ 0
    → 0 < wrsz sk.sendbuf
    → switch_to_ws sk
      ≡ some
          (ok, turn_on_epollout (with_recvbuf (record sk { upgraded = true }) (compact sk.recvbuf)))
switch_to_ws-eq sk e h = ground (arith, e, h)

no_room : (sk : Sk) → wrsz sk.sendbuf ≡ 0 → switch_to_ws sk ≡ none
no_room sk e = ground (arith, e)

conclude-true :
    (sk : Sk) (r : Bool × Skb)
    → r.0 ≡ true
    → conclude sk (some r) ≡ switch_to_ws (with_sendbuf sk r.1)
conclude-true sk (true, b) e = refl
conclude-true sk (false, b) e = absurd cc

module _ (accept_value : List ℕ → List ℕ)
    (base64_size : (text : List ℕ) → length (accept_value text) ≡ 28)
    (sec_ws_proto : Option (List ℕ)) (sk : Sk) (req : Req) (v : IsValid sk.sendbuf) where
  blocked : 0 < room sk.sendbuf → (wrsz sk.sendbuf == 0) ≡ false
  blocked h = ground (arith, wrsz-eq v)

  -- A request whose version or protocol does not match is answered with HTTP 400 and the version 13,
  -- if the valid send buffer has room for that.
  pub ws_decode_handshake_refuses :
      is_valid sec_ws_proto req ≡ false
      → length http_400_ver ≤ room sk.sendbuf
      → (sk' : Sk) × (ws_decode_handshake accept_value sec_ws_proto sk req
          ≡ some (fail ebadreq, sk'))
        × Refused sk http_400_ver sk'
  unfolding ws_decode_handshake strncpy
  ws_decode_handshake_refuses bad r =
      let (sk', e, facts) = refused_lem sk http_400_ver v refl r in (sk', rw bad e, facts)

  -- A request with the right version and protocol, where the trimmed key has at most 27 characters,
  -- every accept value 28, nothing is unread behind the request, and the reply fits into the valid send
  -- buffer with at least one byte to spare: the reply is appended there, the socket waits for a chance to
  -- write, and the functions of the websocket protocol take over; the descriptor stays.
  pub ws_decode_handshake_accepts :
      is_valid sec_ws_proto req ≡ true
      → contents sk.recvbuf ≡ []
      → IsValid sk.recvbuf
      → (key req).len ≤ 27
      → (proto req).len ≤ capacity
      → length (whole_reply accept_value req) < room sk.sendbuf
      → (sk' : Sk) × (ws_decode_handshake accept_value sec_ws_proto sk req ≡ some (ok, sk'))
        × (contents sk'.sendbuf ≡ contents sk.sendbuf ++ whole_reply accept_value req)
        × (sk'.upgraded ≡ true)
        × (sk'.events.epollout ≡ true)
        × (contents sk'.recvbuf ≡ [])
        × (sk'.fd ≡ sk.fd)
  unfolding ws_decode_handshake
  ws_decode_handshake_accepts good empty w short_key small r =
      let (res, done, all) =
        prepare_handshake-PutAll accept_value base64_size sk.sendbuf req v short_key small in
      let (put, a) = all.whole (omega (arith, r)) in
      let room_now = Appends-room v a in
      (
        turn_on_epollout (
            with_recvbuf (record (with_sendbuf sk res.1) { upgraded = true }) (compact sk.recvbuf)),
        rw (good, blocked (omega (arith, r)), done)
            (conclude-true sk res put
              ∙ switch_to_ws-eq (with_sendbuf sk res.1) (omega (arith, rdsz-eq w, ap length empty))
                  (omega (arith, wrsz-eq a.valid, room_now, r))),
        a.text,
        refl,
        refl,
        contents-compact w ∙ empty,
        refl,
      )

  -- Where the reply to a request with the right version and protocol takes exactly the room in the valid
  -- send buffer, the process ends: some room is asserted once the reply is there. The trimmed key has at
  -- most 27 characters, every accept value 28.
  pub ws_decode_handshake_full_aborts :
      is_valid sec_ws_proto req ≡ true
      → (key req).len ≤ 27
      → (proto req).len ≤ capacity
      → length (whole_reply accept_value req) ≡ room sk.sendbuf
      → ws_decode_handshake accept_value sec_ws_proto sk req ≡ none
  unfolding ws_decode_handshake
  ws_decode_handshake_full_aborts good short_key small r =
      let (res, done, all) =
        prepare_handshake-PutAll accept_value base64_size sk.sendbuf req v short_key small in
      let (put, a) = all.whole (omega (arith, r)) in
      let some_room : 0 < room sk.sendbuf =
        omega (arith, r, length-whole_reply accept_value base64_size sk.sendbuf req v) in
      let full : wrsz res.1 ≡ 0 = omega (arith, wrsz-eq a.valid, Appends-room v a, r) in
      rw (good, blocked some_room, done)
        (conclude-true sk res put ∙ no_room (with_sendbuf sk res.1) full)
