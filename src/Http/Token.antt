-- ===== src/Http/Token.antt =====
-- http_header_tok and the character classes of src/parser.c. A text is the bytes of memory from a
-- pointer on; behind its end the model sees a byte of no class, where the code reads on. The
-- callers make sure that a CRLF is there, at which every loop stops.
pub mod Laws
mod Tests
use wsd.Prelude.{
  ℕ, ◌+◌, Bool, true, false, ◌&&◌, ◌||◌, not, leb, ◌==◌, if◌then◌else◌, Option, none, some, List,
  [], ◌∷◌, ◌++◌, length,
}
use wsd.Types.{Chunk, Errno, einput, echar}
use wsd.Uri.{span, rest_of, starts}

-- `lo <= c && c <= hi`
abbrev between : ℕ → ℕ → ℕ → Bool
between lo hi c = leb lo c && leb c hi

abbrev pub is_alnum : ℕ → Bool
is_alnum c = between b'A' b'Z' c || between b'a' b'z' c || between b'0' b'9' c

abbrev pub is_rfc7230_start_line : ℕ → Bool
is_rfc7230_start_line c =
    is_alnum c
    || c == 0x20
    || c == b'/'
    || c == b'.'
    || c == b'?'
    || c == b'-'
    || c == b':'
    || c == b'*'

abbrev pub is_rfc7230_field_value : ℕ → Bool
is_rfc7230_field_value c =
    is_rfc7230_start_line c
    || c == 0x09
    || c == b'='
    || c == b'_'
    || c == b';'
    || c == b','
    || c == 0x28
    || c == 0x29
    || c == b'+'

abbrev pub is_rfc7230_header_field : ℕ → Bool
is_rfc7230_header_field c = is_alnum c || c == b'-'

-- The static cursor `prev` after the call, the chunk `result`, and the return value: the length, or
-- -1 with the error.
pub record TokResult : Type 0 where
  pub prev : Option (List ℕ)
  pub result : Chunk
  pub rv : Option Errno

-- From `finish` on: `start` is the text of the token, `passed` what the loops have passed over, and
-- `rest` the text from the byte on that stopped them.
unfoldable pub finish : Option (List ℕ) → List ℕ → ℕ → List ℕ → TokResult
finish prev start passed rest =
    if starts 0x0d rest && starts 0x0a (rest_of rest)
    then record {
      prev = some (rest_of (rest_of rest));
      result = record { text = start; len = passed };
      rv = none;
    }
    else record { prev = prev; result = record { text = []; len = 0 }; rv = some echar }

-- `is_rfc7230_start_line`, on new input
unfoldable pub start_line_tok : List ℕ → TokResult
start_line_tok cur =
    let (line, rest) = span is_rfc7230_start_line cur in finish none cur (length line) rest

-- A field name, and if a colon stops it, a value.
unfoldable pub field_tok : List ℕ → TokResult
field_tok cur =
    let (name, rest) = span is_rfc7230_header_field cur in
    if not (starts b':' rest)
    then finish (some cur) cur (length name) rest
    else (let (value, rest') = span is_rfc7230_field_value (rest_of rest) in
        finish (some cur) cur (length name + 1 + length value) rest')

-- `s` is `some` text, or NULL to go on at `prev`.
unfoldable pub http_header_tok : Option (List ℕ) → Option (List ℕ) → TokResult
http_header_tok (some s) prev = start_line_tok s
http_header_tok none (some cur) = field_tok cur
http_header_tok none none = record {
  prev = none;
  result = record { text = []; len = 0 };
  rv = some einput;
}
