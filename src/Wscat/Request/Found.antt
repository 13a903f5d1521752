-- ===== src/Wscat/Request/Found.antt =====
-- What the request of wscat has to be made of for the daemon, and what is found in it.
use wsd.Prelude.{ℕ, ◌+◌, ◌≡◌, ◌≤◌, refl, Option, none, some, List, ◌∷◌, ◌++◌, length, All, arith}
use wsd.Prelude.Text.{literal}
use wsd.Prelude.Words.{sub32}
use wsd.Skb.{capacity}
use wsd.Types.{Chunk}
use wsd.Uri.Laws.{Passes}
use wsd.Http.Token.{is_rfc7230_start_line}
use wsd.Http.Parser.{Req}
use wsd.Http.Parser.Laws.{NotSpace}
use wsd.Wscat.Request.{RequestConfig}
use wsd.Wscat.Request.Fields.{IsValue, IsProto}

-- The first `len` bytes of the chunk are `s`.
pub record Spells (c : Chunk) (s : List ℕ) : Type 0 where
  pub behind : List ℕ
  pub text : c.text ≡ s ++ behind
  pub len : c.len ≡ length s

-- The value of a field, with its blank.
pub spelled :
    (n : ℕ) (s rest : List ℕ)
    → n ≤ 64
    → length s ≤ capacity
    → Spells
        (record { text = 0x20 ∷ (s ++ rest); len = sub32 (n + 1 + length (0x20 ∷ s)) (n + 1) })
        (0x20 ∷ s)
spelled n s rest small fits = record {
  behind = rest;
  text = refl;
  len = omega (arith, fits, small);
}

-- A configuration whose request is made of characters that the daemon knows, with a target that begins
-- with a slash and has no blank in it.
pub record IsRequest (cfg : RequestConfig) : Type 0 where
  pub target : List ℕ
  pub is_target : cfg.request_target ≡ b'/' ∷ target
  pub target_passes : All (Passes is_rfc7230_start_line) target
  pub no_space : All NotSpace target
  pub target_fits : length target ≤ capacity
  pub is_host : IsValue cfg.fhostname
  pub is_key : IsValue cfg.sec_ws_key
  pub is_ver : IsValue cfg.sec_ws_ver
  pub is_agent : IsValue cfg.user_agent
  pub is_proto : IsProto cfg.sec_ws_proto

abbrev pub ProtoFound : Option (List ℕ) → Chunk → Type 0
ProtoFound none c = c.len ≡ 0
ProtoFound (some s) c = Spells c (0x20 ∷ s)

-- What the daemon finds in the request, the blanks in front of the values included.
pub record Found (cfg : RequestConfig) (req : Req) : Type 0 where
  pub method : Spells req.method (literal "GET")
  pub target : Spells req.req_target cfg.request_target
  pub host : Spells req.host (0x20 ∷ cfg.fhostname)
  pub key : Spells req.sec_ws_key (0x20 ∷ cfg.sec_ws_key)
  pub ver : Spells req.sec_ws_ver (0x20 ∷ cfg.sec_ws_ver)
  pub proto : ProtoFound cfg.sec_ws_proto req.sec_ws_proto
