-- ===== src/Upgrade/Tests.antt =====
-- The handshake of RFC 6455 and its variants, with a digest of 28 bytes that is not the real one.
use wsd.Prelude.{ℕ, ◌≡◌, refl, Bool, some, List, [], length, replicate, arith}
use wsd.Prelude.Text.{literal}
use wsd.Types.{Chunk, Sk}
use wsd.Http.Parser.{Req}
use wsd.Http.Validate.{trim, trim_left, trim_right}
use wsd.Http.Recv.{blank_req}
use wsd.Upgrade.{prepare_handshake}
use wsd.Upgrade.Reply.{whole_reply}
use wsd.Upgrade.Laws.{PutAll, prepare_handshake_lem}
use wsd.Fixtures.{loaded, loaded-IsValid, nearly_full, socket}

abbrev digest : List ℕ → List ℕ
digest text = replicate 28 b'A'

digest-size : (text : List ℕ) → length (digest text) ≡ 28
digest-size text = refl

abbrev field : List ℕ → Chunk
field s = record { text = s; len = length s }

abbrev request : List ℕ → Req
request sec_ws_key = record blank_req {
  sec_ws_key = field sec_ws_key;
  sec_ws_ver = field (literal " 13");
  sec_ws_proto = field (literal "chat");
}

abbrev sample : Req
sample = request (literal "dGhlIHNhbXBsZSBub25jZQ==")

abbrev client : Sk
client = socket 5 (loaded []) (loaded [])

-- The send buffer has room for `n` bytes.
abbrev crowded : ℕ → Sk
crowded n = socket 5 (nearly_full n) (loaded [])

prepare_handshake_lem_example :
    (r : Bool × _) × (prepare_handshake digest (loaded []) sample ≡ some r)
    × PutAll (loaded []) (whole_reply digest sample) r
unfolding trim trim_left trim_right
prepare_handshake_lem_example =
    prepare_handshake_lem digest digest-size (loaded []) sample (loaded-IsValid [] (omega arith))
      (omega arith) (omega arith) (λ e. absurd (omega (arith, e)))
