-- ===== src/Uri/Laws.antt =====
-- Which texts parse_uri takes, and what it finds in them.
use wsd.Prelude.{
  ℕ, ◌≡◌, refl, ap, inl, inr, Bool, true, false, ◌==◌, Bool-cases, Option, none, some, List, [],
  ◌∷◌, ◌++◌, append-nil, All, arith,
}
use wsd.Uri.{
  Uri, span, in_scheme, in_host, in_port, in_path, is_empty, starts, rest_of, parse_path,
  parse_port, parse_host, parse_uri,
}

abbrev pub Passes : (ℕ → Bool) → ℕ → Type 0
Passes go c = go c ≡ true

-- The loop stops at the first byte that it does not pass over.
pub span-stop :
    (go : ℕ → Bool) (xs : List ℕ) (y : ℕ) (ys : List ℕ)
    → All (Passes go) xs
    → go y ≡ false
    → span go (xs ++ (y ∷ ys)) ≡ (xs, y ∷ ys)
unfolding span
span-stop go [] y ys h e = rw e
span-stop go (x ∷ xs) y ys h e = rw (span-stop go xs y ys h.1 e, h.0)

pub span-all : (go : ℕ → Bool) (xs : List ℕ) → All (Passes go) xs → span go xs ≡ (xs, [])
unfolding span
span-all go [] h = refl
span-all go (x ∷ xs) h = rw (span-all go xs h.1, h.0)

span-append : (go : ℕ → Bool) (xs : List ℕ) → (span go xs).0 ++ (span go xs).1 ≡ xs
unfolding span
span-append go [] = refl
span-append go (x ∷ xs) = elim (Bool-cases (go x)) [
  | inl e ↦ rw e (ap (λ r. x ∷ r) (span-append go xs))
  | inr e ↦ rw e
]

-- A path as parse_uri takes it: one slash, and no mark of a fragment.
pub record IsPath (path : List ℕ) : Type 0 where
  pub first : starts b'/' path ≡ true
  pub second : starts b'/' (rest_of path) ≡ false
  pub passes : All (Passes in_path) path

pub record IsUri (u : Uri) : Type 0 where
  pub scheme_ne : is_empty u.scheme ≡ false
  pub scheme_ok : All (Passes in_scheme) u.scheme
  pub host_ne : is_empty u.host ≡ false
  pub host_ok : All (Passes in_host) u.host
  pub port_ok : All (Passes in_port) u.port
  pub path_ok : IsPath u.path

-- What follows the path: nothing, or a fragment.
abbrev pub fragment : Option (List ℕ) → List ℕ
fragment none = []
fragment (some f) = b'#' ∷ f

abbrev pub port_text : List ℕ → List ℕ
port_text [] = []
port_text (c ∷ cs) = b':' ∷ c ∷ cs

abbrev pub print_uri : Uri → Option (List ℕ) → List ℕ
print_uri u f =
    u.scheme ++ (b':' ∷ b'/' ∷ b'/' ∷ (u.host ++ (port_text u.port ++ (u.path ++ fragment f))))

path-fragment :
    (path : List ℕ) (f : Option (List ℕ))
    → IsPath path
    → span in_path (path ++ fragment f) ≡ (path, fragment f)
path-fragment path none h = rw (append-nil path) (span-all in_path path h.passes)
path-fragment path (some f) h = span-stop in_path path b'#' f h.passes refl

second_kept :
    (c : ℕ) (cs : List ℕ) (f : Option (List ℕ))
    → starts b'/' cs ≡ false
    → starts b'/' (cs ++ fragment f) ≡ false
second_kept c [] none h = refl
second_kept c [] (some f) h = refl
second_kept c (d ∷ cs) f h = h

parse_path-print :
    (u : Uri) (path : List ℕ) (f : Option (List ℕ))
    → IsPath path
    → parse_path u (path ++ fragment f) ≡ some (record u { path = path })
unfolding parse_path
parse_path-print u [] f h = absurd (ground (arith, h.first))
parse_path-print u (c ∷ cs) f h =
    rw (path-fragment (c ∷ cs) f h, h.first, second_kept c cs f h.second) refl

-- What parse_path reads of the chunks that `u` and the fragment stand in.
parse_port-print :
    (u : Uri) (port path : List ℕ) (f : Option (List ℕ))
    → is_empty port ≡ false
    → All (Passes in_port) port
    → IsPath path
    → parse_port u (port ++ (path ++ fragment f)) ≡ some (record u { port = port; path = path })
unfolding parse_port
parse_port-print u port [] f ne ok h = absurd (ground (arith, h.first))
parse_port-print u port (c ∷ cs) f ne ok h =
    let slash_stops : in_port c ≡ false = ground (arith, h.first) in
    rw (span-stop in_port port c (cs ++ fragment f) ok slash_stops, ne)
      (parse_path-print (record u { port = port }) (c ∷ cs) f h)

-- The URI that is read when the port of `u` is empty keeps what the caller had stored there.
abbrev pub read_port : List ℕ → List ℕ → List ℕ
read_port [] old = old
read_port (c ∷ cs) old = c ∷ cs

parse_host-print :
    (u : Uri) (host port path : List ℕ) (f : Option (List ℕ))
    → is_empty host ≡ false
    → All (Passes in_host) host
    → All (Passes in_port) port
    → IsPath path
    → parse_host u (host ++ (port_text port ++ (path ++ fragment f)))
      ≡ some (record u { host = host; port = read_port port u.port; path = path })
unfolding parse_host
parse_host-print u host [] [] f ne ok pok h = absurd (ground (arith, h.first))
parse_host-print u host [] (c ∷ cs) f ne ok pok h =
    let stops : in_host c ≡ false = ground (arith, h.first) in
    let not_colon : (c == b':') ≡ false = ground (arith, h.first) in
    rw (span-stop in_host host c (cs ++ fragment f) ok stops, ne, not_colon)
      (parse_path-print (record u { host = host }) (c ∷ cs) f h)
parse_host-print u host (p ∷ ps) path f ne ok pok h =
    rw (span-stop in_host host b':' ((p ∷ ps) ++ (path ++ fragment f)) ok refl, ne)
      (parse_port-print (record u { host = host }) (p ∷ ps) path f refl pok h)

-- A text `scheme://host[:port]path[#fragment]` whose parts are in the form of IsUri is accepted
-- whatever `uri` held before. The parts are found; the fragment is dropped; without a port the
-- field `port` of `uri` stays what it was.
pub parse_uri-print :
    (u old : Uri) (f : Option (List ℕ))
    → IsUri u
    → parse_uri (print_uri u f) old ≡ some (record u { port = read_port u.port old.port })
unfolding parse_uri
parse_uri-print u old f h =
    rw
      (
        span-stop in_scheme u.scheme b':'
            (b'/' ∷ b'/' ∷ (u.host ++ (port_text u.port ++ (u.path ++ fragment f)))) h.scheme_ok
            refl,
        h.scheme_ne,
      )
      (parse_host-print (record old { scheme = u.scheme }) u.host u.port u.path f h.host_ne
        h.host_ok h.port_ok h.path_ok)

span-starts : (s : List ℕ) → starts b'/' s ≡ true → starts b'/' (span in_path s).0 ≡ true
unfolding span
span-starts [] h = h
span-starts (c ∷ cs) h = ground (arith, h)

-- `v` is `u` with a port and a path filled in.
abbrev Filled : Uri → Uri → Type 0
Filled u v = v.scheme ≡ u.scheme × v.host ≡ u.host × starts b'/' v.path ≡ true

parse_path-Filled : (u v : Uri) (s : List ℕ) → parse_path u s ≡ some v → Filled u v
unfolding parse_path
parse_path-Filled u v s h = ground (arith, span-starts s)

parse_port-Filled : (u v : Uri) (s : List ℕ) → parse_port u s ≡ some v → Filled u v
unfolding parse_port
parse_port-Filled u v s h =
    ground (arith, parse_path-Filled (record u { port = (span in_port s).0 }) v (span in_port s).1)

parse_host-Filled :
    (u v : Uri) (s : List ℕ)
    → parse_host u s ≡ some v
    → v.scheme ≡ u.scheme × is_empty v.host ≡ false × starts b'/' v.path ≡ true
unfolding parse_host
parse_host-Filled u v s h =
    let u' : Uri = record u { host = (span in_host s).0 } in
    ground (
      arith,
      parse_port-Filled u' v (rest_of (span in_host s).1),
      parse_path-Filled u' v (span in_host s).1,
    )

-- An accepted text has a scheme and a host, neither of them empty, and a path that starts with a
-- slash.
pub parse_uri_sound :
    (s : List ℕ) (old u : Uri)
    → parse_uri s old ≡ some u
    → is_empty u.scheme ≡ false × is_empty u.host ≡ false × starts b'/' u.path ≡ true
unfolding parse_uri
parse_uri_sound s old u h = ground (
  arith,
  parse_host-Filled (record old { scheme = (span in_scheme s).0 }) u
      (rest_of (rest_of (rest_of (span in_scheme s).1))),
)
