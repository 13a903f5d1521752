-- ===== src/Http/Fields.antt =====
-- The loop of http_recv over whole header fields, and the texts of them.
use wsd.Prelude.{
  ℕ, zero, suc, ◌+◌, ◌≡◌, ◌<◌, refl, sym, ap, ◌∙◌, true, false, ◌==◌, Option, none, some, List, [],
  ◌∷◌, ◌++◌, length, length-append, append_assoc, All, arith,
}
use wsd.Types.{Chunk}
use wsd.Uri.Laws.{Passes}
use wsd.Http.Token.{
  is_rfc7230_start_line, is_rfc7230_header_field, is_rfc7230_field_value, TokResult,
  http_header_tok,
}
use wsd.Http.Token.Laws.{
  crlf, token, http_header_tok-line, http_header_tok-field, http_header_tok-no_colon,
}
use wsd.Http.Parser.{Req, has_prefix, http_version, parse_header_field, parse_request_line}
use wsd.Http.Parser.Laws.{NotSpace, target_text, parse_request_line_lem}
use wsd.Http.Validate.{method_get, strncmp_eq, is_valid_req_line}
use wsd.Http.Recv.{
  Verdict, refused, blank_req, header_fields, field_of, check_fields, check_line, check_request,
  has_rnrn_termination,
}

-- Name and value of each, and the empty line; `rest` is what stands behind in memory.
abbrev pub fields_text : List (List ℕ × List ℕ) → List ℕ → List ℕ
fields_text [] rest = crlf rest
fields_text ((name, value) ∷ fs) rest = name ++ (b':' ∷ (value ++ crlf (fields_text fs rest)))

-- The token of the first of them.
abbrev pub field_chunk : List ℕ → List ℕ → List ℕ → Chunk
field_chunk name value rest = record {
  text = name ++ (b':' ∷ (value ++ crlf rest));
  len = length name + 1 + length value;
}

-- Each field handed to parse_header_field.
abbrev pub filled : List (List ℕ × List ℕ) → List ℕ → Req → Req
filled [] rest req = req
filled ((name, value) ∷ fs) rest req =
    filled fs rest (parse_header_field (field_chunk name value (fields_text fs rest)) req).1

abbrev pub IsField : List ℕ × List ℕ → Type 0
IsField (name, value) =
    All (Passes is_rfc7230_header_field) name × All (Passes is_rfc7230_field_value) value

-- The body of the loop, behind the call of the tokenizer.
abbrev body : ℕ → Req → TokResult → Req
body n req t = elim (field_of t) [
  | none ↦ req
  | some tok ↦ header_fields n t.prev (parse_header_field tok req).1
]

round :
    (name value rest : List ℕ) (n : ℕ) (req : Req)
    → body n req
        (token (name ++ (b':' ∷ (value ++ crlf rest))) (length name + 1 + length value) rest)
      ≡ header_fields n (some rest) (parse_header_field (field_chunk name value rest) req).1
round name value rest n req =
    let nz : (length name + 1 + length value == 0) ≡ false = ground arith in rw (nz, body) refl

-- The loop comes to the empty line and to nothing behind it, if it has a round for each field and one
-- more.
pub header_fields-all :
    (fs : List (List ℕ × List ℕ)) (n : ℕ) (rest : List ℕ) (req : Req)
    → All IsField fs
    → length fs < n
    → header_fields n (some (fields_text fs rest)) req ≡ filled fs rest req
unfolding header_fields
header_fields-all fs zero rest req h l = absurd (ground (arith, l))
header_fields-all [] (suc n) rest req h l = ap (body n req) (http_header_tok-no_colon [] rest tt)
header_fields-all ((name, value) ∷ fs) (suc n) rest req (h, hs) l =
    let more = fields_text fs rest in
    ap (body n req) (http_header_tok-field name value more h.0 h.1)
    ∙ round name value more n req
    ∙ header_fields-all fs n rest (parse_header_field (field_chunk name value more) req).1 hs
        (omega (arith, l))

length-fields_text :
    (fs : List (List ℕ × List ℕ)) (rest : List ℕ) → length fs < length (fields_text fs rest)
length-fields_text [] rest = omega arith
length-fields_text ((name, value) ∷ fs) rest =
    let more = crlf (fields_text fs rest) in
    omega (
      arith,
      length-fields_text fs rest,
      length-append name (b':' ∷ (value ++ more)),
      length-append value more,
    )

-- A request line with the method GET, whose target begins with a slash.
abbrev pub get_line : List ℕ → List ℕ → List ℕ
get_line target rest = method_get ++ (0x20 ∷ target_text (b'/' ∷ target) rest)

-- What is known of the request behind its line.
abbrev pub line_req : List ℕ → List ℕ → Req
line_req target rest = record blank_req {
  method = record { text = get_line target rest; len = 3 };
  req_target = record { text = target_text (b'/' ∷ target) rest; len = length (b'/' ∷ target) };
  http_ver = record { text = target_text (b'/' ∷ target) rest; len = 8 };
}

abbrev version_tail : List ℕ
version_tail = 0x20 ∷ http_version

tail_passes :
    (target : List ℕ)
    → All (Passes is_rfc7230_start_line) target
    → All (Passes is_rfc7230_start_line) (target ++ version_tail)
tail_passes [] h = (refl, (refl, (refl, (refl, (refl, (refl, (refl, (refl, (refl, tt)))))))))
tail_passes (c ∷ cs) h = (h.0, tail_passes cs h.1)

line_tok :
    (prev : Option (List ℕ)) (target more : List ℕ)
    → All (Passes is_rfc7230_start_line) target
    → http_header_tok (some (get_line target (crlf more))) prev
      ≡ token (get_line target (crlf more)) (3 + suc (length (b'/' ∷ target) + suc 8)) more
line_tok prev target more h =
    let line = method_get ++ (0x20 ∷ b'/' ∷ (target ++ version_tail)) in
    let e : line ++ crlf more ≡ get_line target (crlf more) =
      ap (λ r. method_get ++ (0x20 ∷ b'/' ∷ r)) (append_assoc target version_tail (crlf more)) in
    let size : length line ≡ 3 + suc (length (b'/' ∷ target) + suc 8) =
      omega (arith, length-append target version_tail) in
    sym (ap (λ text. http_header_tok (some text) prev) e)
    ∙ http_header_tok-line line more prev
        (refl, (refl, (refl, (refl, (refl, tail_passes target h)))))
    ∙ ap (λ text. token text (length line) more) e
    ∙ ap (λ n. token (get_line target (crlf more)) n more) size

abbrev begun : ℕ → TokResult → Verdict
begun n t = elim t.rv [
  | some e ↦ refused
  | none ↦ check_line t.prev n (parse_request_line t.result blank_req)
]

-- A request with such a line and whole fields comes to the checks on the fields.
pub check_request-fields :
    (prev : Option (List ℕ)) (target : List ℕ) (fs : List (List ℕ × List ℕ)) (rest : List ℕ)
    → All (Passes is_rfc7230_start_line) target
    → All NotSpace target
    → All IsField fs
    → check_request prev (get_line target (crlf (fields_text fs rest)))
      ≡ check_fields (filled fs rest (line_req target (crlf (fields_text fs rest))))
unfolding check_request is_valid_req_line strncmp_eq has_prefix
check_request-fields prev target fs rest h k w =
    let more = fields_text fs rest in
    let text = get_line target (crlf more) in
    let req = line_req target (crlf more) in
    let rounds : length fs < length text =
      omega (arith, length-fields_text fs rest, length-append target (version_tail ++ crlf more)) in
    ap (begun (length text)) (line_tok prev target more h)
    ∙ ap (check_line (some more) (length text)) (
        parse_request_line_lem method_get (b'/' ∷ target) (crlf more) blank_req
          (refl, (refl, (refl, tt))) (refl, k))
    ∙ ap check_fields (header_fields-all fs (length text) rest req w rounds)

pub rnrn-append :
    (xs s : List ℕ) → has_rnrn_termination s ≡ true → has_rnrn_termination (xs ++ s) ≡ true
unfolding has_rnrn_termination
rnrn-append [] s h = h
rnrn-append (c ∷ xs) s h = ground (arith, rnrn-append xs s h)

pub rnrn_first : (rest : List ℕ) → has_rnrn_termination (crlf (crlf rest)) ≡ true
unfolding has_rnrn_termination
rnrn_first rest = ground arith

field_end :
    (name value more : List ℕ) → name ++ (b':' ∷ (value ++ more)) ≡ (name ++ (b':' ∷ value)) ++ more
field_end name value more = sym (append_assoc name (b':' ∷ value) more)

fields_text-ends :
    (name value : List ℕ) (fs : List (List ℕ × List ℕ)) (rest : List ℕ)
    → has_rnrn_termination (fields_text ((name, value) ∷ fs) rest) ≡ true
fields_text-ends name value [] rest =
    ap has_rnrn_termination (field_end name value (crlf (crlf rest)))
    ∙ rnrn-append (name ++ (b':' ∷ value)) (crlf (crlf rest)) (rnrn_first rest)
fields_text-ends name value ((name', value') ∷ fs) rest =
    let later = fields_text-ends name' value' fs rest in
    let more = fields_text ((name', value') ∷ fs) rest in
    ap has_rnrn_termination (field_end name value (crlf more))
    ∙ rnrn-append (name ++ (b':' ∷ value)) (crlf more) (rnrn-append (crlf []) more later)

-- A request with at least one field ends as http_recv wants it to.
pub rnrn-get_line :
    (target : List ℕ) (fs : List (List ℕ × List ℕ)) (rest : List ℕ)
    → 0 < length fs
    → has_rnrn_termination (get_line target (crlf (fields_text fs rest))) ≡ true
rnrn-get_line target [] rest l = absurd (ground (arith, l))
rnrn-get_line target ((name, value) ∷ fs) rest l =
    let line = method_get ++ (0x20 ∷ b'/' ∷ (target ++ version_tail)) in
    let more = crlf (fields_text ((name, value) ∷ fs) rest) in
    ap has_rnrn_termination
      (sym (ap (λ r. method_get ++ (0x20 ∷ b'/' ∷ r)) (append_assoc target version_tail more)))
    ∙ rnrn-append line more (
        rnrn-append (crlf []) (fields_text ((name, value) ∷ fs) rest)
          (fields_text-ends name value fs rest))
