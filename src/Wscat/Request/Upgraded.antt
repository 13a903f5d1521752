-- ===== src/Wscat/Request/Upgraded.antt =====
-- From the request of wscat to the answer of the daemon.
use wsd.Prelude.{
  ℕ, suc, ◌+◌, ◌≡◌, ◌-◌, ◌≤◌, ◌<◌, refl, sym, ap, ◌∙◌, true, Option, none, some, List, [], ◌∷◌,
  ◌++◌, append-nil, length, All, arith,
}
use mathlib.Core.Path.{subst}
use wsd.Prelude.Text.{literal}
use wsd.Memory.{window}
use wsd.Skb.{capacity, strncpy, reset}
use wsd.Skb.Contents.{IsValid, contents, room, contents-reset, reset-IsValid}
use wsd.Types.{Chunk, ok, Sk, SkOutcome}
use wsd.Sock.{with_recvbuf}
use wsd.Http.Parser.{Req}
use wsd.Http.Validate.{trim, trim_left, trim_right, strncmp_eq}
use wsd.Http.Validate.Laws.{NotBlank, trim-one_blank, trim-len}
use wsd.Http.Recv.{accepted, check_request, has_rnrn_termination, http_recv}
use wsd.Http.Recv.Laws.{visible-eq, http_recv-accepted}
use wsd.Upgrade.{ws_guid, c_string, is_valid_ver, ws_decode_handshake}
use wsd.Upgrade.Reply.{NoNul, value, whole_reply}
use wsd.Upgrade.Laws.{length-whole_reply}
use wsd.Upgrade.Checks.{ws_decode_handshake_accepts}
use wsd.Wscat.Request.{RequestConfig}
use wsd.Wscat.Request.Laws.{request_text}
use wsd.Wscat.Request.Fields.{not_nul}
use wsd.Wscat.Request.Found.{Spells, IsRequest, ProtoFound, Found}
use wsd.Wscat.Request.Accepted.{check_request-request_text}

-- A chunk is its text and its length.
chunk-eq :
    (c : Chunk) (s : List ℕ) (m : Spells c s) → c ≡ record { text = s ++ m.behind; len = length s }
chunk-eq c s m =
    ap (λ t. record c { text = t }) m.text
    ∙ ap (λ n. record { text = s ++ m.behind; len = n }) m.len

valid_ver : (c : Chunk) → Spells c (0x20 ∷ literal "13") → is_valid_ver c ≡ true
unfolding trim trim_left trim_right strncmp_eq
valid_ver c m = ap is_valid_ver (chunk-eq c (0x20 ∷ literal "13") m)

rnrn-some : (s : List ℕ) → has_rnrn_termination s ≡ true → 0 < length s
unfolding has_rnrn_termination
rnrn-some [] h = absurd (ground (arith, h))
rnrn-some (c ∷ s) h = omega arith

-- The length of the protocol with its blank, if there is one.
abbrev pub proto_size : Option (List ℕ) → ℕ
proto_size none = 0
proto_size (some s) = suc (length s)

pub proto-len : (p : Option (List ℕ)) (c : Chunk) → ProtoFound p c → (trim c).len ≤ proto_size p
proto-len none c f = omega (arith, trim-len c, f)
proto-len (some s) c f = omega (arith, trim-len c, f.len)

strncpy-part : (s behind : List ℕ) → NoNul s → strncpy (s ++ behind) (length s) ≡ s
unfolding strncpy
strncpy-part [] behind h = refl
strncpy-part (c ∷ s) behind h = ground (arith, strncpy-part s behind h.1)

c_string-part : (s t : List ℕ) → NoNul s → c_string (s ++ t) ≡ s ++ c_string t
unfolding c_string
c_string-part [] t h = refl
c_string-part (c ∷ s) t h = ground (arith, c_string-part s t h.1)

guid_whole : c_string ws_guid ≡ ws_guid
unfolding c_string
guid_whole = refl

-- The key that the accept value is made of is that of wscat.
key-value :
    (accept_value : List ℕ → List ℕ) (req : Req) (k : List ℕ)
    → Spells req.sec_ws_key (0x20 ∷ k)
    → All NotBlank k
    → 2 ≤ length k
    → NoNul k
    → value accept_value req ≡ accept_value (k ++ ws_guid)
key-value accept_value req k m h l n =
    let trimmed : trim req.sec_ws_key ≡ record { text = k ++ m.behind; len = length k } =
      ap trim (chunk-eq req.sec_ws_key (0x20 ∷ k) m) ∙ trim-one_blank k m.behind h l in
    ap accept_value (
      ap (λ (c : Chunk). c_string (strncpy c.text c.len ++ ws_guid)) trimmed
      ∙ ap (λ t. c_string (t ++ ws_guid)) (strncpy-part k m.behind n)
      ∙ c_string-part k ws_guid n
      ∙ ap (λ t. k ++ t) guid_whole)

-- What a new client sends as its request, in full and in valid buffers, is such that the daemon can
-- answer it: the version is 13, the key has 2 to 26 characters and no blank, and there is room.
pub record CanUpgrade (cfg : RequestConfig) (sk : Sk) : Type 0 where
  pub is_request : IsRequest cfg
  pub version : cfg.sec_ws_ver ≡ literal "13"
  pub key_blanks : All NotBlank cfg.sec_ws_key
  pub key_long : 2 ≤ length cfg.sec_ws_key
  pub key_short : length cfg.sec_ws_key ≤ 26
  pub recv_valid : IsValid sk.recvbuf
  pub send_valid : IsValid sk.sendbuf
  pub arrived : contents sk.recvbuf ≡ request_text cfg
  pub has_room : 182 + proto_size cfg.sec_ws_proto < room sk.sendbuf

module _ (accept_value : List ℕ → List ℕ)
    (base64_size : (text : List ℕ) → length (accept_value text) ≡ 28) (cfg : RequestConfig)
    (prev : Option (List ℕ)) (sk : Sk) (u : CanUpgrade cfg sk) where
  abbrev handshake : Sk → Req → SkOutcome
  handshake = ws_decode_handshake accept_value none

  abbrev behind : List ℕ
  behind = window sk.recvbuf.bytes sk.recvbuf.wrpos (capacity - sk.recvbuf.wrpos)

  abbrev emptied : Sk
  emptied = with_recvbuf sk (reset sk.recvbuf)

  handed_on :
      (req : Req)
      → check_request prev (request_text cfg ++ behind) ≡ accepted req
      → http_recv handshake prev sk ≡ handshake emptied req
  handed_on req e =
      let (req', f, e', ends) = check_request-request_text cfg prev [] u.is_request in
      let ended : has_rnrn_termination (contents sk.recvbuf) ≡ true =
        ap has_rnrn_termination (u.arrived ∙ sym (append-nil (request_text cfg))) ∙ ends in
      http_recv-accepted handshake prev sk u.recv_valid req (rnrn-some (contents sk.recvbuf) ended)
        ended
        (ap (check_request prev)
            (visible-eq sk.recvbuf u.recv_valid ∙ ap (λ t. t ++ behind) u.arrived)
          ∙ e)

  -- Where a client of the daemon has sent just the request of wscat, and the daemon expects no
  -- protocol: http_recv answers it. There is a request with the values that wscat has put there, the
  -- reply to it is in the send buffer, with the accept value for wscat's key, the socket waits for a
  -- chance to write it, and the functions of the websocket protocol take over. The accept value has 28
  -- characters for every text. The descriptor stays.
  pub request_upgrades :
      (req : Req) × (sk' : Sk) × Found cfg req
      × (http_recv handshake prev sk ≡ some (ok, sk'))
      × (contents sk'.sendbuf ≡ contents sk.sendbuf ++ whole_reply accept_value req)
      × (value accept_value req ≡ accept_value (cfg.sec_ws_key ++ ws_guid))
      × (sk'.upgraded ≡ true)
      × (sk'.events.epollout ≡ true)
      × (contents sk'.recvbuf ≡ [])
      × (sk'.fd ≡ sk.fd)
  request_upgrades =
      let (req, f, e, ends) = check_request-request_text cfg prev behind u.is_request in
      let short = proto-len cfg.sec_ws_proto req.sec_ws_proto f.proto in
      let version : Spells req.sec_ws_ver (0x20 ∷ literal "13") =
        subst (λ v. Spells req.sec_ws_ver (0x20 ∷ v)) u.version f.ver in
      let size = length-whole_reply accept_value base64_size sk.sendbuf req u.send_valid in
      let (sk', done, sent, upgraded, waits, empty, same_fd) =
        ws_decode_handshake_accepts accept_value base64_size none emptied req u.send_valid
          (valid_ver req.sec_ws_ver version) (contents-reset sk.recvbuf) (reset-IsValid sk.recvbuf)
          (omega (arith, trim-len req.sec_ws_key, f.key.len, u.key_short))
          (omega (arith, short, u.has_room)) (omega (arith, size, short, u.has_room)) in
      (
        req,
        sk',
        f,
        handed_on req e ∙ done,
        sent,
        key-value accept_value req cfg.sec_ws_key f.key u.key_blanks u.key_long
            (not_nul cfg.sec_ws_key u.is_request.is_key.passes),
        upgraded,
        waits,
        empty,
        same_fd,
      )
