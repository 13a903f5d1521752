-- ===== src/Wscat/Request/Accepted.antt =====
-- What the daemon makes of the request of wscat.
use wsd.Prelude.{
  ℕ, ◌≡◌, ◌≢◌, ◌≤◌, refl, sym, ap, ◌∙◌, Bool, true, not, if◌then◌else◌, Option, none, some, List,
  [], ◌∷◌, ◌++◌, length, All, arith,
}
use mathlib.Core.Path.{subst}
use wsd.Skb.{capacity, strncpy}
use wsd.Skb.Contents.{strncpy-all}
use wsd.Uri.{span}
use wsd.Uri.Laws.{Passes}
use wsd.Http.Token.{is_rfc7230_start_line}
use wsd.Http.Token.Laws.{crlf}
use wsd.Http.Parser.{Req, scan, has_prefix, http_field_value_tok, parse_header_field}
use wsd.Http.Parser.Laws.{NotSpace}
use wsd.Http.Validate.{
  any_value, trim, trim_left, trim_right, is_valid_host_header_field, is_valid_upgrade_header_field,
  is_valid_connection_header_field,
}
use wsd.Http.Recv.{accepted, bad, check_fields, check_request, has_rnrn_termination}
use wsd.Http.Fields.{fields_text, get_line, filled, line_req, check_request-fields, rnrn-get_line}
use wsd.Wscat.Request.{RequestConfig, request_pieces, http_req}
use wsd.Wscat.Request.Laws.{request_text}
use wsd.Wscat.Request.Fields.{
  IsValue, IsProto, config, request_fields, pieces_text-append, as_fields, fields-IsField,
}
use wsd.Wscat.Request.Found.{spelled, IsRequest, Found}

check_fields-accepted :
    (req : Req)
    → is_valid_host_header_field req ≡ true
    → is_valid_upgrade_header_field req ≡ true
    → is_valid_connection_header_field req ≡ true
    → check_fields req ≡ accepted req
check_fields-accepted req h u c =
    ap
      (λ t.
        if not t
        then bad
        else if not (is_valid_upgrade_header_field req)
        then bad
        else if not (is_valid_connection_header_field req)
        then bad
        else accepted req)
      h
    ∙ ap
        (λ t.
          if not t
          then bad
          else if not (is_valid_connection_header_field req)
          then bad
          else accepted req)
        u
    ∙ ap (λ t. if not t then bad else accepted req) c

-- What is found in the request.
abbrev found : List ℕ → List ℕ → Option (List ℕ) → List ℕ → List ℕ → List ℕ → Bool → List ℕ → Req
found target host proto key ver agent tls rest =
    let fs = request_fields (config target host proto key ver agent tls) in
    filled fs rest (line_req target (crlf (fields_text fs rest)))

module _ (target host key ver agent : List ℕ) (tls : Bool) (rest : List ℕ) where
  upgrade_ok :
      (proto : Option (List ℕ))
      → is_valid_upgrade_header_field (found target host proto key ver agent tls rest) ≡ true
  unfolding parse_header_field has_prefix any_value http_field_value_tok scan trim trim_left
      trim_right span
  upgrade_ok none = refl
  upgrade_ok (some s) = refl

  connection_ok :
      (proto : Option (List ℕ))
      → is_valid_connection_header_field (found target host proto key ver agent tls rest) ≡ true
  unfolding parse_header_field has_prefix any_value http_field_value_tok scan trim trim_left
      trim_right span
  connection_ok none = refl
  connection_ok (some s) = refl

  host_ok :
      (proto : Option (List ℕ))
      → length host ≤ capacity
      → is_valid_host_header_field (found target host proto key ver agent tls rest) ≡ true
  unfolding parse_header_field has_prefix span
  host_ok none h = ground arith
  host_ok (some s) h = ground arith

module _ (target host key ver agent : List ℕ) (tls : Bool) (rest : List ℕ)
    (small : length target ≤ capacity) (h : IsValue host) (k : IsValue key) (v : IsValue ver)
    (a : IsValue agent) where
  found-Found :
      (proto : Option (List ℕ))
      → IsProto proto
      → Found
          (config target host proto key ver agent tls)
          (found target host proto key ver agent tls rest)
  unfolding parse_header_field has_prefix span
  found-Found none p = record {
    method = record { behind = _; text = refl; len = refl };
    target = record { behind = _; text = refl; len = refl };
    host = spelled 4 host _ (omega arith) h.fits;
    key = spelled 17 key _ (omega arith) k.fits;
    ver = spelled 21 ver _ (omega arith) v.fits;
    proto = refl;
  }
  found-Found (some s) p = record {
    method = record { behind = _; text = refl; len = refl };
    target = record { behind = _; text = refl; len = refl };
    host = spelled 4 host _ (omega arith) h.fits;
    key = spelled 17 key _ (omega arith) k.fits;
    ver = spelled 21 ver _ (omega arith) v.fits;
    proto = spelled 22 s _ (omega arith) p.0.fits;
  }

  text-eq :
      (proto : Option (List ℕ))
      → strncpy target (length target) ≡ target
      → IsProto proto
      → let cfg = config target host proto key ver agent tls in
        request_text cfg ++ rest ≡ get_line target (crlf (fields_text (request_fields cfg) rest))
  text-eq proto t p =
      let cfg = config target host proto key ver agent tls in
      pieces_text-append (request_pieces tls (http_req cfg)) rest
      ∙ as_fields target host key ver agent proto tls rest t h k v a p

  is_accepted :
      (proto : Option (List ℕ)) (prev : Option (List ℕ))
      → strncpy target (length target) ≡ target
      → All (Passes is_rfc7230_start_line) target
      → All NotSpace target
      → IsProto proto
      → let cfg = config target host proto key ver agent tls in
        (check_request prev (request_text cfg ++ rest)
          ≡ accepted (found target host proto key ver agent tls rest))
        × (has_rnrn_termination (request_text cfg ++ rest) ≡ true)
  is_accepted proto prev t passes no_space p =
      let fs = request_fields (config target host proto key ver agent tls) in
      let req = found target host proto key ver agent tls rest in
      (
        ap (check_request prev) (text-eq proto t p)
            ∙ check_request-fields prev target fs rest passes no_space
                (fields-IsField target host key ver agent proto tls h k v a p)
            ∙ check_fields-accepted req (host_ok target host key ver agent tls rest proto h.fits)
                (upgrade_ok target host key ver agent tls rest proto)
                (connection_ok target host key ver agent tls rest proto),
        ap has_rnrn_termination (text-eq proto t p) ∙ rnrn-get_line target fs rest (omega arith),
      )

not_nul : (s : List ℕ) → All (Passes is_rfc7230_start_line) s → All (λ c. c ≢ 0) s
not_nul [] h = tt
not_nul (c ∷ cs) h = (ground (arith, h.0), not_nul cs h.1)

-- The daemon accepts the request of such a configuration, whatever stands behind it in memory and
-- wherever the tokenizer was, finds the values that wscat has put there, and sees the end of it.
pub check_request-request_text :
    (cfg : RequestConfig) (prev : Option (List ℕ)) (rest : List ℕ)
    → IsRequest cfg
    → (req : Req) × Found cfg req
      × (check_request prev (request_text cfg ++ rest) ≡ accepted req)
      × (has_rnrn_termination (request_text cfg ++ rest) ≡ true)
check_request-request_text cfg prev rest q =
    let same : config q.target cfg.fhostname cfg.sec_ws_proto cfg.sec_ws_key cfg.sec_ws_ver
          cfg.user_agent cfg.tls
        ≡ cfg =
      ap (λ t. record cfg { request_target = t }) (sym q.is_target) in
    let accepts =
      is_accepted q.target cfg.fhostname cfg.sec_ws_key cfg.sec_ws_ver cfg.user_agent cfg.tls rest
        q.target_fits q.is_host q.is_key q.is_ver q.is_agent cfg.sec_ws_proto prev
        (strncpy-all q.target (not_nul q.target q.target_passes)) q.target_passes q.no_space
        q.is_proto in
    subst
      (λ c.
        (req : Req) × Found c req
        × (check_request prev (request_text c ++ rest) ≡ accepted req)
        × (has_rnrn_termination (request_text c ++ rest) ≡ true))
      same
      (
        found q.target cfg.fhostname cfg.sec_ws_proto cfg.sec_ws_key cfg.sec_ws_ver cfg.user_agent
            cfg.tls rest,
        found-Found q.target cfg.fhostname cfg.sec_ws_key cfg.sec_ws_ver cfg.user_agent cfg.tls rest
            q.target_fits q.is_host q.is_key q.is_ver q.is_agent cfg.sec_ws_proto q.is_proto,
        accepts.0,
        accepts.1,
      )
