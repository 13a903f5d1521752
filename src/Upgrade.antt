-- ===== src/Upgrade.antt =====
-- The answer to an upgrade request, src/ws_wsd.c: ws_decode_handshake, is_valid_ver, is_valid_proto,
-- prepare_handshake and generate_accept_val. The value of Sec-WebSocket-Accept is computed by OpenSSL,
-- so it is a parameter: the 28 characters of the base64 form of the SHA-1 digest of a text.
pub mod Reply
pub mod Laws
pub mod Checks
mod Tests
use wsd.Prelude.{
  ℕ, ◌+◌, Bool, true, false, ◌&&◌, ◌||◌, not, ltb, leb, ◌==◌, if◌then◌else◌, Option, none, some,
  List, [], ◌∷◌, ◌++◌, length,
}
use wsd.Prelude.Words.{add32}
use wsd.Prelude.Text.{literal, crlf}
use wsd.Memory.{store_list}
use wsd.Skb.{Skb, rdsz, wrsz, put_strn, reset, compact, strncpy, write}
use wsd.Types.{Chunk, Rv, ok, fail, ebadreq, Sk, SkOutcome}
use wsd.Sock.{turn_on_epollout, turn_off_epollin, with_sendbuf, with_recvbuf}
use wsd.Http.Parser.{Req}
use wsd.Http.Validate.{trim, strncmp_eq}
use wsd.Http.Recv.{answered, on_error}

-- HTTP_101, and the HTTP_400 of this file
abbrev pub http_101 : List ℕ
http_101 =
    literal "HTTP/1.1 101 Switching Protocols"
    ++ (crlf
        ++ (literal "Upgrade: websocket"
            ++ (crlf
                ++ (literal "Connection: Upgrade" ++ (crlf ++ literal "Sec-WebSocket-Accept: ")))))

abbrev pub http_400_ver : List ℕ
http_400_ver =
    literal "HTTP/1.1 400 Bad Request"
    ++ (crlf
        ++ (literal "Sec-WebSocket-Version: 13"
            ++ (crlf ++ (literal "Content-Length: 0" ++ (crlf ++ crlf)))))

-- HTTP_500
abbrev pub http_500 : List ℕ
http_500 =
    literal "HTTP/1.1 500 Internal Server Error"
    ++ (crlf ++ (literal "Content-Length: 0" ++ (crlf ++ crlf)))

-- WS_GUID, WS_VER, WS_PROTO, FLD_SEC_WS_VER_VAL
abbrev pub ws_guid : List ℕ
ws_guid = literal "258EAFA5-E914-47DA-95CA-C5AB0DC85B11"

abbrev pub ws_ver : List ℕ
ws_ver = literal "Sec-WebSocket-Version: "

abbrev pub ws_proto : List ℕ
ws_proto = literal "Sec-WebSocket-Protocol: "

abbrev pub fld_sec_ws_ver_val : List ℕ
fld_sec_ws_ver_val = literal "13"

-- WS_ACCEPT_KEY_LEN and SCRATCH_SIZE
abbrev pub ws_accept_key_len : ℕ
ws_accept_key_len = 28

abbrev pub scratch_size : ℕ
scratch_size = 64

-- The field is trimmed in the request, as are those that the other functions read.
abbrev pub is_valid_ver : Chunk → Bool
is_valid_ver sec_ws_ver = let c = trim sec_ws_ver in strncmp_eq c.len c.text fld_sec_ws_ver_val

abbrev pub is_valid_proto : List ℕ → Chunk → Bool
is_valid_proto proto sec_ws_proto = let c = trim sec_ws_proto in strncmp_eq c.len c.text proto

-- `strcpy(&b->data[b->wrpos], s); b->wrpos += strlen(s)`: a NUL is stored behind the text. Where the
-- text fills the room, which HTTP_101 alone can, that is behind the array, where the model sees nothing.
unfoldable pub put_str : Skb → List ℕ → Skb
put_str b s = record b {
  bytes = store_list b.bytes b.wrpos (s ++ (0 ∷ []));
  wrpos = add32 b.wrpos (length s);
}

-- `strlen`: the text up to its first NUL
unfoldable pub c_string : List ℕ → List ℕ
c_string [] = []
c_string (c ∷ cs) = let rest = c_string cs in if c == 0 then [] else c ∷ rest

-- `goto error` of prepare_handshake
abbrev pub restored : ℕ → Skb → Bool × Skb
restored old_wrpos b = (false, record b { wrpos = old_wrpos })

-- From "terminating response" on.
abbrev pub put_end : ℕ → Skb → Bool × Skb
put_end old_wrpos b = if ltb (wrsz b) 2 then restored old_wrpos b else (true, write b crlf)

-- From the requested protocol on, which is echoed back.
abbrev pub put_protocol : ℕ → Skb → Chunk → Bool × Skb
put_protocol old_wrpos b proto =
    if ltb (wrsz b) (add32 (length ws_proto + 2) proto.len)
    then restored old_wrpos b
    else put_end old_wrpos (write (write (put_str b ws_proto) (strncpy proto.text proto.len)) crlf)

abbrev pub put_version : ℕ → Skb → Chunk → Bool × Skb
put_version old_wrpos b proto =
    if ltb (wrsz b) (length ws_ver + length fld_sec_ws_ver_val + 2)
    then restored old_wrpos b
    else put_protocol old_wrpos (write (put_str (put_str b ws_ver) fld_sec_ws_ver_val) crlf) proto

-- The functions of the websocket protocol take over. `none` is a failed `AZ` or `AN`.
abbrev pub switch_to_ws : Sk → SkOutcome
switch_to_ws sk =
    if not (rdsz sk.recvbuf == 0) || wrsz sk.sendbuf == 0
    then none
    else some
        (ok, turn_on_epollout (with_recvbuf (record sk { upgraded = true }) (compact sk.recvbuf)))

-- An answer is put where there is room, then the request is dropped as by http_recv.
abbrev pub refuse : Sk → List ℕ → SkOutcome
refuse sk answer = some (on_error (answered sk (put_strn sk.sendbuf answer (length answer))))

abbrev pub conclude : Sk → Option (Bool × Skb) → SkOutcome
conclude sk none = none
conclude sk (some (true, b)) = switch_to_ws (with_sendbuf sk b)
conclude sk (some (false, b)) = refuse (with_sendbuf sk b) http_500

abbrev pub is_valid : Option (List ℕ) → Req → Bool
is_valid none req = is_valid_ver req.sec_ws_ver
is_valid (some proto) req = is_valid_ver req.sec_ws_ver && is_valid_proto proto req.sec_ws_proto

module _ (accept_value : List ℕ → List ℕ) where
  -- `none` is a store behind the end of `scratch`: the key, WS_GUID and its NUL do not fit.
  unfoldable pub generate_accept_val : Skb → Chunk → Option Skb
  generate_accept_val b sec_ws_key =
      let key = trim sec_ws_key in
      if ltb scratch_size (key.len + length ws_guid + 1)
      then none
      else some
          (write (write b (accept_value (c_string (strncpy key.text key.len ++ ws_guid)))) crlf)

  abbrev pub put_accept_val : ℕ → Skb → Req → Option (Bool × Skb)
  put_accept_val old_wrpos b req =
      if ltb (wrsz b) (ws_accept_key_len + 2)
      then some (restored old_wrpos b)
      else (elim (generate_accept_val b req.sec_ws_key) [
        | none ↦ none
        | some b' ↦ some (put_version old_wrpos b' (trim req.sec_ws_proto))
      ])

  -- `true` is the return value 0, and `false` -1. Every text has been put where it belongs, or the
  -- write position is put back.
  unfoldable pub prepare_handshake : Skb → Req → Option (Bool × Skb)
  prepare_handshake b req =
      if ltb (wrsz b) (length http_101)
      then some (false, b)
      else put_accept_val b.wrpos (put_str b http_101) req

  -- `sec_ws_proto` is the protocol of the configuration, if there is one.
  unfoldable pub ws_decode_handshake : Option (List ℕ) → Sk → Req → SkOutcome
  ws_decode_handshake sec_ws_proto sk req =
      if not (is_valid sec_ws_proto req)
      then refuse sk http_400_ver
      else if wrsz sk.sendbuf == 0
      then none
      else conclude sk (prepare_handshake sk.sendbuf req)
