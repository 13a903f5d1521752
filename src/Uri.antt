-- ===== src/Uri.antt =====
-- parse_uri of src/uri.c. The argument is the C string without its NUL, so that the end of the list
-- is the test `*c == '\0'`; a chunk is the bytes that it spans.
pub mod Laws
mod Tests
use wsd.Prelude.{
  ℕ, Bool, true, false, not, ◌&&◌, ◌==◌, if◌then◌else◌, Option, none, some, List, [], ◌∷◌,
}

-- `uri_t`
pub record Uri : Type 0 where
  pub scheme : List ℕ
  pub host : List ℕ
  pub port : List ℕ
  pub path : List ℕ

-- `while (*c != '\0' && go(*c)) c++`: what the loop passes over, and what is left.
unfoldable pub span : (ℕ → Bool) → List ℕ → List ℕ × List ℕ
span go [] = ([], [])
span go (c ∷ cs) = let (xs, ys) = span go cs in if go c then (c ∷ xs, ys) else ([], c ∷ cs)

abbrev pub in_scheme : ℕ → Bool
in_scheme c = not (c == b':')

abbrev pub in_host : ℕ → Bool
in_host c = not (c == b':') && not (c == b'/')

abbrev pub in_port : ℕ → Bool
in_port c = not (c == b'/')

abbrev pub in_path : ℕ → Bool
in_path c = not (c == b'#')

abbrev pub is_empty : List ℕ → Bool
is_empty [] = true
is_empty (c ∷ cs) = false

abbrev pub slash : List ℕ
slash = b'/' ∷ []

-- `*begin == c`
abbrev pub starts : ℕ → List ℕ → Bool
starts x [] = false
starts x (c ∷ cs) = c == x

abbrev pub rest_of : List ℕ → List ℕ
rest_of [] = []
rest_of (c ∷ cs) = cs

-- From `if (*c != '/')` on.
unfoldable pub parse_path : Uri → List ℕ → Option Uri
parse_path uri s =
    if not (starts b'/' s)
    then none
    else if is_empty (span in_path s).0
    then some (record uri { path = slash })
    else if starts b'/' (rest_of s)
    then none
    else some (record uri { path = (span in_path s).0 })

-- From the colon of the port on.
unfoldable pub parse_port : Uri → List ℕ → Option Uri
parse_port uri s =
    let (port, r) = span in_port s in
    let uri' = record uri { port = port } in
    if is_empty port
    then none
    else if is_empty r
    then some (record uri' { path = slash })
    else parse_path uri' r

-- Behind the two slashes.
unfoldable pub parse_host : Uri → List ℕ → Option Uri
parse_host uri s =
    let (host, r) = span in_host s in
    let uri' = record uri { host = host } in
    if is_empty host
    then none
    else if is_empty r
    then some (record uri' { path = slash })
    else if starts b':' r
    then parse_port uri' (rest_of r)
    else parse_path uri' r

unfoldable pub parse_uri : List ℕ → Uri → Option Uri
parse_uri s uri =
    let (scheme, r) = span in_scheme s in
    if is_empty r
    then none
    else if is_empty scheme
    then none
    else if not (starts b'/' (rest_of r))
    then none
    else if not (starts b'/' (rest_of (rest_of r)))
    then none
    else parse_host (record uri { scheme = scheme }) (rest_of (rest_of (rest_of r)))
