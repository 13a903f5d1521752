-- ===== src/Wscat/Request/Fields.antt =====
-- The request of wscat as a request line and header fields.
use wsd.Prelude.{
  ℕ, ◌≡◌, ◌≢◌, ◌≤◌, refl, ap, ◌∙◌, Bool, true, false, Bool-cases, inl, inr, ◌&&◌, ◌==◌,
  if◌then◌else◌, Option, none, some, List, [], ◌∷◌, ◌++◌, append_assoc, length, All, arith,
}
use wsd.Prelude.Text.{literal}
use wsd.Skb.{capacity, strncpy}
use wsd.Skb.Contents.{strncpy-all}
use wsd.Uri.Laws.{Passes}
use wsd.Http.Token.{is_rfc7230_header_field, is_rfc7230_field_value}
use wsd.Http.Token.Laws.{crlf}
use wsd.Http.Fields.{fields_text, get_line, IsField}
use wsd.Wscat.Request.{Piece, RequestConfig, request_pieces, http_req}
use wsd.Wscat.Request.Laws.{piece_text, pieces_text}

abbrev pub field : List ℕ → List ℕ → List ℕ × List ℕ
field name value = (name, 0x20 ∷ value)

abbrev pub origin_value : Bool → List ℕ → List ℕ
origin_value tls host = (if tls then literal "https://" else literal "http://") ++ host

-- The header fields in their order, each with the blank in front of its value.
abbrev pub proto_fields : Option (List ℕ) → List (List ℕ × List ℕ) → List (List ℕ × List ℕ)
proto_fields none fs = fs
proto_fields (some proto) fs = field (literal "Sec-WebSocket-Protocol") proto ∷ fs

abbrev pub later_fields : List ℕ → List ℕ → List ℕ → List (List ℕ × List ℕ)
later_fields key ver agent =
    field (literal "Pragma") (literal "no-cache")
    ∷ field (literal "Cache-Control") (literal "no-cache")
    ∷ field (literal "Sec-WebSocket-Key") key
    ∷ field (literal "Sec-WebSocket-Version") ver
    ∷ field (literal "User-Agent") agent
    ∷ []

abbrev pub request_fields : RequestConfig → List (List ℕ × List ℕ)
request_fields cfg =
    field (literal "Upgrade") (literal "websocket")
    ∷ field (literal "Connection") (literal "Upgrade")
    ∷ field (literal "Host") cfg.fhostname
    ∷ field (literal "Origin") (origin_value cfg.tls cfg.fhostname)
    ∷ proto_fields cfg.sec_ws_proto (later_fields cfg.sec_ws_key cfg.sec_ws_ver cfg.user_agent)

-- The pieces with a text behind them.
abbrev pub onto : List Piece → List ℕ → List ℕ
onto [] rest = rest
onto (p ∷ ps) rest = piece_text p ++ onto ps rest

pub pieces_text-append : (ps : List Piece) (rest : List ℕ) → pieces_text ps ++ rest ≡ onto ps rest
pieces_text-append [] rest = refl
pieces_text-append (p ∷ ps) rest =
    append_assoc (piece_text p) (pieces_text ps) rest
    ∙ ap (λ r. piece_text p ++ r) (pieces_text-append ps rest)

pub not_nul : (s : List ℕ) → All (Passes is_rfc7230_field_value) s → All (λ c. c ≢ 0) s
not_nul [] h = tt
not_nul (c ∷ cs) h = (ground (arith, h.0), not_nul cs h.1)

-- A text that a header field can have as its value, and that fits into a buffer.
pub record IsValue (s : List ℕ) : Type 0 where
  pub passes : All (Passes is_rfc7230_field_value) s
  pub fits : length s ≤ capacity

whole : (s : List ℕ) → IsValue s → strncpy s (length s) ≡ s
whole s v = strncpy-all s (not_nul s v.passes)

abbrev pub IsProto : Option (List ℕ) → Type 0
IsProto none = Unit
IsProto (some s) = IsValue s × ((length s == 0) ≡ false)

abbrev pub config :
    List ℕ → List ℕ → Option (List ℕ) → List ℕ → List ℕ → List ℕ → Bool → RequestConfig
config target host proto key ver agent tls = record {
  request_target = b'/' ∷ target;
  fhostname = host;
  sec_ws_proto = proto;
  sec_ws_key = key;
  sec_ws_ver = ver;
  user_agent = agent;
  tls = tls;
}

pub as_fields :
    (target host key ver agent : List ℕ) (proto : Option (List ℕ)) (tls : Bool) (rest : List ℕ)
    → strncpy target (length target) ≡ target
    → IsValue host
    → IsValue key
    → IsValue ver
    → IsValue agent
    → IsProto proto
    → let cfg = config target host proto key ver agent tls in
      onto (request_pieces tls (http_req cfg)) rest
      ≡ get_line target (crlf (fields_text (request_fields cfg) rest))
unfolding strncpy
as_fields target host key ver agent none true rest t h k v a p =
    rw (t, whole host h, whole key k, whole ver v, whole agent a) refl
as_fields target host key ver agent none false rest t h k v a p =
    rw (t, whole host h, whole key k, whole ver v, whole agent a) refl
as_fields target host key ver agent (some s) true rest t h k v a p =
    rw (t, whole host h, p.1, whole s p.0, whole key k, whole ver v, whole agent a) refl
as_fields target host key ver agent (some s) false rest t h k v a p =
    rw (t, whole host h, p.1, whole s p.0, whole key k, whole ver v, whole agent a) refl

abbrev pub all_pass : (ℕ → Bool) → List ℕ → Bool
all_pass go [] = true
all_pass go (c ∷ cs) = go c && all_pass go cs

pub passing : (go : ℕ → Bool) (s : List ℕ) → all_pass go s ≡ true → All (Passes go) s
passing go [] e = tt
passing go (c ∷ cs) e = elim (Bool-cases (go c)) [
  | inl g ↦ (g, passing go cs (rw g at e))
  | inr g ↦ absurd (ground (arith, g, e))
]

is_field :
    (name value : List ℕ)
    → all_pass is_rfc7230_header_field name ≡ true
    → All (Passes is_rfc7230_field_value) value
    → IsField (field name value)
is_field name value e h = (passing is_rfc7230_header_field name e, (refl, h))

is_known :
    (name value : List ℕ)
    → all_pass is_rfc7230_header_field name ≡ true
    → all_pass is_rfc7230_field_value value ≡ true
    → IsField (field name value)
is_known name value e h = is_field name value e (passing is_rfc7230_field_value value h)

origin_passes :
    (tls : Bool) (host : List ℕ)
    → All (Passes is_rfc7230_field_value) host
    → All (Passes is_rfc7230_field_value) (origin_value tls host)
origin_passes true host h = (refl, (refl, (refl, (refl, (refl, (refl, (refl, (refl, h))))))))
origin_passes false host h = (refl, (refl, (refl, (refl, (refl, (refl, (refl, h)))))))

proto_fields-IsField :
    (proto : Option (List ℕ)) (fs : List (List ℕ × List ℕ))
    → IsProto proto
    → All IsField fs
    → All IsField (proto_fields proto fs)
proto_fields-IsField none fs p h = h
proto_fields-IsField (some s) fs p h =
    (is_field (literal "Sec-WebSocket-Protocol") s refl p.0.passes, h)

later-IsField :
    (key ver agent : List ℕ)
    → IsValue key
    → IsValue ver
    → IsValue agent
    → All IsField (later_fields key ver agent)
later-IsField key ver agent k v a = (
  is_known (literal "Pragma") (literal "no-cache") refl refl,
  (
    is_known (literal "Cache-Control") (literal "no-cache") refl refl,
    (
      is_field (literal "Sec-WebSocket-Key") key refl k.passes,
      (
        is_field (literal "Sec-WebSocket-Version") ver refl v.passes,
        (is_field (literal "User-Agent") agent refl a.passes, tt),
      ),
    ),
  ),
)

pub fields-IsField :
    (target host key ver agent : List ℕ) (proto : Option (List ℕ)) (tls : Bool)
    → IsValue host
    → IsValue key
    → IsValue ver
    → IsValue agent
    → IsProto proto
    → All IsField (request_fields (config target host proto key ver agent tls))
fields-IsField target host key ver agent proto tls h k v a p =
    let origin_ok = origin_passes tls host h.passes in
    (
      is_known (literal "Upgrade") (literal "websocket") refl refl,
      (
        is_known (literal "Connection") (literal "Upgrade") refl refl,
        (
          is_field (literal "Host") host refl h.passes,
          (
            is_field (literal "Origin") (origin_value tls host) refl origin_ok,
            proto_fields-IsField proto _ p (later-IsField key ver agent k v a),
          ),
        ),
      ),
    )
