-- ===== src/Http/Token/Laws.antt =====
-- What http_header_tok finds in the lines of a request.
use wsd.Prelude.{ℕ, ◌+◌, ◌≡◌, refl, Option, none, some, List, ◌∷◌, ◌++◌, length, All}
use wsd.Uri.Laws.{Passes, span-stop}
use wsd.Http.Token.{
  TokResult, is_rfc7230_start_line, is_rfc7230_header_field, is_rfc7230_field_value, finish,
  start_line_tok, field_tok, http_header_tok,
}

-- The first `n` bytes of a text, and the cursor behind them.
abbrev pub token : List ℕ → ℕ → List ℕ → TokResult
token text n rest = record { prev = some rest; result = record { text = text; len = n }; rv = none }

abbrev pub crlf : List ℕ → List ℕ
crlf rest = 0x0d ∷ 0x0a ∷ rest

-- New input that starts with a line of characters of the start line's class, ended by CRLF: the
-- token is that line, and the cursor stands behind the CRLF, whatever it was before.
pub http_header_tok-line :
    (line rest : List ℕ) (prev : Option (List ℕ))
    → All (Passes is_rfc7230_start_line) line
    → http_header_tok (some (line ++ crlf rest)) prev ≡ token (line ++ crlf rest) (length line) rest
unfolding http_header_tok start_line_tok finish
http_header_tok-line line rest prev h =
    rw (span-stop is_rfc7230_start_line line 0x0d (0x0a ∷ rest) h refl)

-- A header field at the cursor, of characters of the classes of names and values and ended by CRLF:
-- the token is the name, the colon and the value, and the cursor stands behind the CRLF.
pub http_header_tok-field :
    (name value rest : List ℕ)
    → All (Passes is_rfc7230_header_field) name
    → All (Passes is_rfc7230_field_value) value
    → http_header_tok none (some (name ++ (b':' ∷ (value ++ crlf rest))))
      ≡ token (name ++ (b':' ∷ (value ++ crlf rest))) (length name + 1 + length value) rest
unfolding http_header_tok field_tok finish
http_header_tok-field name value rest h k = rw (
  span-stop is_rfc7230_header_field name b':' (value ++ crlf rest) h refl,
  span-stop is_rfc7230_field_value value 0x0d (0x0a ∷ rest) k refl,
)

-- A name at the cursor that CRLF ends without a colon is a token as well, and for the empty line
-- behind the header fields its length is 0, at which the caller's loop ends.
pub http_header_tok-no_colon :
    (name rest : List ℕ)
    → All (Passes is_rfc7230_header_field) name
    → http_header_tok none (some (name ++ crlf rest)) ≡ token (name ++ crlf rest) (length name) rest
unfolding http_header_tok field_tok finish
http_header_tok-no_colon name rest h =
    rw (span-stop is_rfc7230_header_field name 0x0d (0x0a ∷ rest) h refl)
