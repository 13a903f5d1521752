-- ===== src/Upgrade/Laws.antt =====
-- prepare_handshake puts the whole reply or nothing.
use wsd.Prelude.{
  append-nil, ℕ, ◌+◌, ◌≤◌, ◌<◌, ◌≡◌, ◌≢◌, refl, sym, ◌∙◌, Bool, true, false, ltb, ltb→lt, ltb→le,
  le→ltb, Bool-cases, inl, inr, some, List, [], ◌++◌, arith, length, length-append,
}
use wsd.Prelude.Words.{add32}
use wsd.Prelude.Text.{crlf}
use wsd.Skb.{Skb, capacity, wrsz, write, strncpy}
use wsd.Skb.Contents.{IsValid, contents, room, wrsz-eq, length-strncpy}
use wsd.Types.{Chunk}
use wsd.Http.Parser.{Req}
use wsd.Upgrade.{
  http_101, ws_guid, ws_ver, ws_proto, fld_sec_ws_ver_val, put_str, c_string, restored, put_end,
  put_protocol, put_version, generate_accept_val, put_accept_val, prepare_handshake,
}
use wsd.Skb.Append.{Appends, Appends-nothing, Appends-room, Appends-write, Appends-Appends}
use wsd.Upgrade.Reply.{
  put_str-Appends, Appends-put_str, contents-restored, accept_part, version_part, protocol_part,
  whole_reply, key, proto, value,
}

-- The whole text is appended to `b` if there is room for it, and otherwise nothing of it.
pub record PutAll (b : Skb) (s : List ℕ) (r : Bool × Skb) : Type 0 where
  pub whole : length s ≤ room b → (r.0 ≡ true) × Appends b s r.1
  pub nothing : room b < length s → (r.0 ≡ false) × Appends b [] r.1

-- `put_str` and `write` one behind the other.
pub part-Appends :
    {b : Skb} (s t u : List ℕ)
    → IsValid b
    → length s + length t + length u ≤ room b
    → Appends b ((s ++ t) ++ u) (write (write (put_str b s) t) u)
part-Appends {b} s t u v h =
    let first = put_str-Appends s v (omega arith) in
    let second = Appends-write t first (omega (arith, Appends-room v first)) in
    Appends-write u second (omega (arith, Appends-room v second, length-append s t))

version-Appends :
    {b : Skb}
    → IsValid b
    → 27 ≤ room b
    → Appends b version_part (write (put_str (put_str b ws_ver) fld_sec_ws_ver_val) crlf)
version-Appends {b} v h =
    let first = put_str-Appends ws_ver v (omega arith) in
    let second = Appends-put_str fld_sec_ws_ver_val first (omega (arith, Appends-room v first)) in
    Appends-write crlf second (omega (arith, Appends-room v second))

module _ {b b' : Skb} {s : List ℕ} (v : IsValid b) (a : Appends b s b') where
  restored-Appends : Appends b [] (restored b.wrpos b').1
  restored-Appends = record {
    valid = omega (arith, Appends-room v a, a.start, v.order, v.fits);
    start = a.start;
    text = contents-restored v a ∙ sym (append-nil (contents b));
  }

  -- What has been put so far is taken back, since the rest of `t` does not fit.
  PutAll-restored : (t : List ℕ) → length s + room b' < length t → PutAll b t (restored b.wrpos b')
  PutAll-restored t h = record {
    whole = λ fits. absurd (omega (arith, fits, h, Appends-room v a));
    nothing = λ _. (refl, restored-Appends);
  }

  PutAll-done : PutAll b s (true, b')
  PutAll-done = record {
    whole = λ _. (refl, a);
    nothing = λ short. absurd (omega (arith, short, Appends-room v a));
  }

put_end-PutAll :
    {b b' : Skb} {s : List ℕ}
    → IsValid b
    → Appends b s b'
    → PutAll b (s ++ crlf) (put_end b.wrpos b')
put_end-PutAll {b} {b'} {s} v a = elim (Bool-cases (ltb (wrsz b') 2)) [
  | inl short ↦ rw short (
      PutAll-restored v a (s ++ crlf)
        (omega (arith, length-append s crlf, ltb→lt (wrsz b') 2 short, wrsz-eq a.valid)))
  | inr fits ↦ rw fits (
      PutAll-done v
        (Appends-write crlf a (omega (arith, ltb→le (wrsz b') 2 fits, wrsz-eq a.valid))))
]

length-protocol_part : (s : List ℕ) → length (protocol_part s) ≡ 26 + length s
length-protocol_part s = omega (arith, length-append (ws_proto ++ s) crlf, length-append ws_proto s)

length-accept_part : (s : List ℕ) → length (accept_part s) ≡ 99 + length s
length-accept_part s = omega (arith, length-append (http_101 ++ s) crlf, length-append http_101 s)

-- What is still to come behind `s`.
length-tail : (s t u : List ℕ) → length ((s ++ t) ++ u) ≡ length s + length t + length u
length-tail s t u = omega (arith, length-append (s ++ t) u, length-append s t)

module _ (proto : Chunk) (small : proto.len ≤ capacity) where
  abbrev pub echoed : List ℕ
  echoed = strncpy proto.text proto.len

  put_protocol-PutAll :
      {b b' : Skb} {s : List ℕ}
      → IsValid b
      → Appends b s b'
      → PutAll b ((s ++ protocol_part echoed) ++ crlf) (put_protocol b.wrpos b' proto)
  put_protocol-PutAll {b} {b'} {s} v a =
      let n = add32 26 proto.len in
      let size = length-strncpy proto.text proto.len in
      elim (Bool-cases (ltb (wrsz b') n)) [
        | inl short ↦ rw short (
            PutAll-restored v a ((s ++ protocol_part echoed) ++ crlf) (
              omega (
                arith,
                ltb→lt (wrsz b') n short,
                wrsz-eq a.valid,
                length-tail s (protocol_part echoed) crlf,
                length-protocol_part echoed,
                size,
              )))
        | inr fits ↦ rw fits (
            put_end-PutAll v (
              Appends-Appends a (
                part-Appends ws_proto echoed crlf a.valid
                  (omega (arith, ltb→le (wrsz b') n fits, wrsz-eq a.valid, size)))))
      ]

  put_version-PutAll :
      {b b' : Skb} {s : List ℕ}
      → IsValid b
      → Appends b s b'
      → PutAll b
          (((s ++ version_part) ++ protocol_part echoed) ++ crlf)
          (put_version b.wrpos b' proto)
  put_version-PutAll {b} {b'} {s} v a = elim (Bool-cases (ltb (wrsz b') 27)) [
    | inl short ↦ rw short (
        PutAll-restored v a (((s ++ version_part) ++ protocol_part echoed) ++ crlf) (
          omega (
            arith,
            ltb→lt (wrsz b') 27 short,
            wrsz-eq a.valid,
            length-tail (s ++ version_part) (protocol_part echoed) crlf,
            length-append s version_part,
          )))
    | inr fits ↦ rw fits (
        put_protocol-PutAll v (
          Appends-Appends a
            (version-Appends a.valid (omega (arith, ltb→le (wrsz b') 27 fits, wrsz-eq a.valid)))))
  ]

module _ (accept_value : List ℕ → List ℕ)
    (base64_size : (text : List ℕ) → length (accept_value text) ≡ 28) (b : Skb) (req : Req)
    (v : IsValid b) where
  pub length-whole_reply : length (whole_reply accept_value req) ≡ 182 + (proto req).len
  length-whole_reply =
      let echo = strncpy (proto req).text (proto req).len in
      omega (
        arith,
        length-tail (accept_part (value accept_value req) ++ version_part) (protocol_part echo)
            crlf,
        length-append (accept_part (value accept_value req)) version_part,
        length-accept_part (value accept_value req),
        length-protocol_part echo,
        length-strncpy (proto req).text (proto req).len,
        base64_size (c_string (strncpy (key req).text (key req).len ++ ws_guid)),
      )

  pub accepted :
      (b' : Skb)
      → (key req).len ≤ 27
      → generate_accept_val accept_value b' req.sec_ws_key
        ≡ some (write (write b' (value accept_value req)) crlf)
  unfolding generate_accept_val
  accepted b' h = rw (le→ltb 64 ((key req).len + 36 + 1) (omega arith))

  put_accept_val-PutAll :
      (key req).len ≤ 27
      → (proto req).len ≤ capacity
      → 97 ≤ room b
      → (r : Bool × Skb) × (put_accept_val accept_value b.wrpos (put_str b http_101) req ≡ some r)
        × PutAll b (whole_reply accept_value req) r
  put_accept_val-PutAll h small line =
      let a = put_str-Appends http_101 v line in
      let b' = put_str b http_101 in
      elim (Bool-cases (ltb (wrsz b') 30)) [
        | inl short ↦ (
          restored b.wrpos b',
          rw short,
          PutAll-restored v a (whole_reply accept_value req)
              (omega (arith, ltb→lt (wrsz b') 30 short, wrsz-eq a.valid, length-whole_reply)),
        )
        | inr fits ↦ (
          put_version b.wrpos (write (write b' (value accept_value req)) crlf) (proto req),
          rw (fits, accepted b' h),
          put_version-PutAll (proto req) small v (
              part-Appends http_101 (value accept_value req) crlf v (
                omega (
                  arith,
                  ltb→le (wrsz b') 30 fits,
                  wrsz-eq a.valid,
                  Appends-room v a,
                  base64_size (c_string (strncpy (key req).text (key req).len ++ ws_guid)),
                ))),
        )
      ]

  pub prepare_handshake-PutAll :
      (key req).len ≤ 27
      → (proto req).len ≤ capacity
      → (r : Bool × Skb) × (prepare_handshake accept_value b req ≡ some r)
        × PutAll b (whole_reply accept_value req) r
  unfolding prepare_handshake
  prepare_handshake-PutAll h small = elim (Bool-cases (ltb (wrsz b) 97)) [
    | inl short ↦ (
      (false, b),
      rw short,
      record {
        whole = λ room_enough.
            absurd
              (omega (arith, room_enough, length-whole_reply, ltb→lt (wrsz b) 97 short, wrsz-eq v));
        nothing = λ _. (refl, Appends-nothing v);
      },
    )
    | inr fits ↦
        rw fits (put_accept_val-PutAll h small (omega (arith, ltb→le (wrsz b) 97 fits, wrsz-eq v)))
  ]

  -- Where every accept value has 28 characters, the trimmed key at most 27 and the trimmed protocol no
  -- more than a buffer, and the room is not just that of the status line and the fields up to the accept
  -- value, 97 bytes, behind which strcpy stores a NUL: the process goes on, and the reply (status line,
  -- accept value, version and the line for the protocol that was asked for, which is empty if none was)
  -- is appended to the valid buffer as a whole if it has room for it. Otherwise -1 is returned and the
  -- buffer holds what it held.
  pub prepare_handshake_lem :
      (key req).len ≤ 27
      → (proto req).len ≤ capacity
      → room b ≢ 97
      → (r : Bool × Skb) × (prepare_handshake accept_value b req ≡ some r)
        × PutAll b (whole_reply accept_value req) r
  prepare_handshake_lem h small inside = prepare_handshake-PutAll h small
