-- ===== src/Upgrade/Reply.antt =====
-- Texts appended one behind the other to a buffer, and the reply that prepare_handshake composes.
use wsd.Prelude.{
  ℕ, ◌+◌, ◌-◌, ◌≤◌, ◌≡◌, refl, sym, ap, ◌∙◌, List, [], ◌∷◌, ◌++◌, arith, length, length-append,
  take, take_left, All, ◌≢◌,
}
use wsd.Prelude.Words.{add32}
use wsd.Prelude.Text.{crlf}
use wsd.Memory.Laws.{store_list-append, window-store_list_end, window-store_list_below, take-window}
use wsd.Skb.{Skb, strncpy}
use wsd.Skb.Contents.{IsValid, contents, room, length-contents}
use wsd.Types.{Chunk}
use wsd.Http.Parser.{Req}
use wsd.Http.Validate.{trim}
use wsd.Skb.Append.{Appends, Appends-Appends}
use wsd.Upgrade.{
  http_101, ws_guid, ws_ver, ws_proto, fld_sec_ws_ver_val, put_str, c_string, restored,
}

-- strcpy puts a NUL behind the text; the next text goes over it.
pub put_str-Appends :
    {b : Skb} (s : List ℕ) → IsValid b → length s ≤ room b → Appends b s (put_str b s)
unfolding put_str
put_str-Appends {b} s v h = record {
  valid = omega arith;
  start = refl;
  text =
      let e : add32 b.wrpos (length s) - b.rdpos ≡ b.wrpos - b.rdpos + length s = omega arith in
      let stored = store_list-append s (0 ∷ []) b.bytes b.wrpos in
      rw (e, stored)
        (window-store_list_below _ (b.wrpos + length s) b.rdpos (b.wrpos - b.rdpos + length s)
            (0 ∷ []) (omega arith)
          ∙ window-store_list_end b.bytes b.rdpos (b.wrpos - b.rdpos) b.wrpos s (omega arith));
}

pub Appends-put_str :
    {b b' : Skb} {s : List ℕ} (t : List ℕ)
    → Appends b s b'
    → length t ≤ room b'
    → Appends b (s ++ t) (put_str b' t)
Appends-put_str t a h = Appends-Appends a (put_str-Appends t a.valid h)

-- Putting the write position back takes off all that has been appended.
pub contents-restored :
    {b b' : Skb} {s : List ℕ}
    → IsValid b
    → Appends b s b'
    → contents (restored b.wrpos b').1 ≡ contents b
contents-restored {b} {b'} {s} v a =
    let sizes = length-append (contents b) s in
    let n : b.wrpos - b'.rdpos ≡ length (contents b) = omega (arith, length-contents b, a.start) in
    rw n (
      sym (
        take-window b'.bytes b'.rdpos (length (contents b)) (b'.wrpos - b'.rdpos)
          (omega (arith, sizes, ap length a.text, length-contents b')))
      ∙ ap (take (length (contents b))) a.text
      ∙ take_left (contents b) s)

-- No NUL stands in the text.
abbrev pub NoNul : List ℕ → Type 0
NoNul = All (λ c. c ≢ 0)

pub c_string-all : (s : List ℕ) → NoNul s → c_string s ≡ s
unfolding c_string
c_string-all [] h = refl
c_string-all (c ∷ s) h = ground (arith, c_string-all s h.1)

pub NoNul-append : (s t : List ℕ) → NoNul s → NoNul t → NoNul (s ++ t)
NoNul-append [] t h g = g
NoNul-append (c ∷ s) t h g = (h.0, NoNul-append s t h.1 g)

-- The parts of the reply, with the value of Sec-WebSocket-Accept and the requested protocol.
abbrev pub accept_part : List ℕ → List ℕ
accept_part value = (http_101 ++ value) ++ crlf

abbrev pub version_part : List ℕ
version_part = (ws_ver ++ fld_sec_ws_ver_val) ++ crlf

abbrev pub protocol_part : List ℕ → List ℕ
protocol_part proto = (ws_proto ++ proto) ++ crlf

abbrev pub reply : List ℕ → List ℕ → List ℕ
reply value proto = ((accept_part value ++ version_part) ++ protocol_part proto) ++ crlf

-- The fields of a request that the reply is made from.
abbrev pub key : Req → Chunk
key req = trim req.sec_ws_key

abbrev pub proto : Req → Chunk
proto req = trim req.sec_ws_proto

-- The value that is sent, from the key as strncpy copies it and the GUID up to a NUL.
abbrev pub value : (List ℕ → List ℕ) → Req → List ℕ
value accept_value req = accept_value (c_string (strncpy (key req).text (key req).len ++ ws_guid))

abbrev pub whole_reply : (List ℕ → List ℕ) → Req → List ℕ
whole_reply accept_value req =
    reply (value accept_value req) (strncpy (proto req).text (proto req).len)
