-- ===== src/Http/Parser/Laws.antt =====
-- What the parsers accept and what they find.
use wsd.Prelude.{
  ℕ, suc, ◌+◌, ◌-◌, ◌^◌, ◌≤◌, ◌<◌, ◌≡◌, refl, ap, ◌∙◌, Bool, true, false, not, ◌==◌, some, List, [],
  ◌∷◌, ◌++◌, length, length-append, All, arith,
}
use wsd.Prelude.Words.{sub32}
use wsd.Types.{Chunk, ok}
use wsd.Http.Word
use wsd.Uri.Laws.{Passes, span-stop}
use wsd.Pp2.{same_bytes}
use wsd.Http.Parser.{
  Req, scan, last, is_upper, http_version, parse_target, parse_request_line, has_prefix, value_of,
  parse_header_field, http_field_value_tok,
}

-- The loop goes up to the first byte that stops it, if that is among the `n` bytes.
pub scan-stop :
    (stop : ℕ → Bool) (xs : List ℕ) (y : ℕ) (ys : List ℕ) (k : ℕ)
    → All (λ c. stop c ≡ false) xs
    → stop y ≡ true
    → scan stop (length xs + suc k) (xs ++ (y ∷ ys))
      ≡ record { read = xs ++ (y ∷ []); rest = ys; left = some k }
unfolding scan
scan-stop stop [] y ys k h e = let a : 0 + suc k ≡ suc k = omega arith in rw (a, e)
scan-stop stop (x ∷ xs) y ys k h e =
    let a : suc (length xs) + suc k ≡ suc (length xs + suc k) = omega arith in
    rw (a, scan-stop stop xs y ys k h.1 e, h.0)

last-snoc : (xs : List ℕ) (y : ℕ) → last (xs ++ (y ∷ [])) ≡ y
last-snoc [] y = refl
last-snoc (x ∷ []) y = refl
last-snoc (x ∷ z ∷ xs) y = last-snoc (z ∷ xs) y

same_bytes_refl : (xs : List ℕ) → same_bytes xs xs ≡ true
unfolding same_bytes
same_bytes_refl [] = refl
same_bytes_refl (x ∷ xs) = ground (arith, same_bytes_refl xs)

-- A target with no space, a space and the version, with nothing behind them in the token.
abbrev pub target_text : List ℕ → List ℕ → List ℕ
target_text target rest = target ++ (0x20 ∷ (http_version ++ rest))

abbrev pub NotSpace : ℕ → Type 0
NotSpace c = (c == 0x20) ≡ false

parse_target_lem :
    (tok : Chunk) (req : Req) (target rest : List ℕ)
    → All NotSpace target
    → length target + 9 < tok.len
    → parse_target tok req (some (length target + suc 8)) (target_text target rest) ≡ (
      ok,
      record req {
        req_target = record { text = target_text target rest; len = length target };
        http_ver = record { text = target_text target rest; len = 8 };
      },
    )
unfolding parse_target
parse_target_lem tok req target rest h small =
    let size : length (target ++ (0x20 ∷ [])) ≡ length target + 1 =
      length-append target (0x20 ∷ []) in
    let ne : (length target + 1 == 0) ≡ false = ground arith in
    let ni : (tok.len - 8 == length target + 1) ≡ false = ground arith in
    let m : length target + 1 - 1 ≡ length target = omega arith in
    rw (
      scan-stop (λ c. c == 0x20) target 0x20 (http_version ++ rest) 8 h refl,
      size,
      ne,
      ni,
      same_bytes_refl http_version,
      m,
    )

not_upper : (xs : List ℕ) → All (Passes is_upper) xs → All (λ c. not (is_upper c) ≡ false) xs
not_upper [] h = tt
not_upper (x ∷ xs) h = (ap not h.0, not_upper xs h.1)

-- A request line of capital letters, a space, a target without spaces, a space and HTTP/1.1 is
-- accepted; the method and the target are found. The field `http_ver` is the 8 bytes from the start
-- of the target on.
pub parse_request_line_lem :
    (method target rest : List ℕ) (req : Req)
    → All (Passes is_upper) method
    → All NotSpace target
    → let text = method ++ (0x20 ∷ target_text target rest) in
      parse_request_line
        (record { text = text; len = length method + suc (length target + suc 8) })
        req
      ≡ (
        ok,
        record req {
          method = record { text = text; len = length method };
          req_target = record { text = target_text target rest; len = length target };
          http_ver = record { text = target_text target rest; len = 8 };
        },
      )
unfolding parse_request_line
parse_request_line_lem method target rest req h k =
    let text = method ++ (0x20 ∷ target_text target rest) in
    let n = length method + suc (length target + 9) in
    let nz : (n == 0) ≡ false = ground arith in
    let size : length (method ++ (0x20 ∷ [])) ≡ length method + 1 =
      length-append method (0x20 ∷ []) in
    let ne : (length method + 1 == 0) ≡ false = ground arith in
    let m : length method + 1 - 1 ≡ length method = omega arith in
    rw
      (
        nz,
        scan-stop (λ c. not (is_upper c)) method 0x20 (target_text target rest) (length target + 9)
            (not_upper method h) refl,
        size,
        ne,
        last-snoc method 0x20,
        m,
      )
      (parse_target_lem (record { text = text; len = n })
        (record req { method = record { text = text; len = length method } }) target rest k
        (omega arith))

abbrev pub NoColon : ℕ → Type 0
NoColon c = (c == b':') ≡ false

value_of-eq :
    (name value : List ℕ) (len : ℕ)
    → All NoColon name
    → value_of (record { text = name ++ (b':' ∷ value); len = len })
      ≡ record { text = value; len = sub32 len (length name + 1) }
value_of-eq name value len h =
    rw (span-stop (λ c. not (c == b':')) name b':' value (no_stop name h) refl)
  where
    no_stop : (xs : List ℕ) → All NoColon xs → All (Passes (λ c. not (c == b':'))) xs
    no_stop [] h = tt
    no_stop (x ∷ xs) h = (ap not h.0, no_stop xs h.1)

-- A field whose name begins with `Upgrade`, in either case, is taken for the Upgrade field whatever
-- follows in the name.
pub parse_header_field-prefix :
    (suffix value : List ℕ) (len : ℕ) (req : Req)
    → All NoColon suffix
    → parse_header_field
        (record { text = Word.upgrade ++ (suffix ++ (b':' ∷ value)); len = len })
        req
      ≡ (
        true,
        record req { upgrade = record { text = value; len = sub32 len (length suffix + 8) } },
      )
unfolding parse_header_field has_prefix
parse_header_field-prefix suffix value len req h =
    let e : length suffix + 7 + 1 ≡ length suffix + 8 = omega arith in
    ap (λ v. (true, record req { upgrade = v }))
      (value_of-eq (Word.upgrade ++ suffix) value len
          (refl, (refl, (refl, (refl, (refl, (refl, (refl, h)))))))
        ∙ ap (λ n. record { text = value; len = sub32 len n }) (omega arith))

-- A Host field without a colon in its token, the first `len` bytes, gets the text behind the next
-- colon in memory and a length that has wrapped: it is larger than 2 ^ 31. `more` is what stands
-- between `Host` and that colon.
pub parse_header_field-NoColon :
    (more value : List ℕ) (len : ℕ) (req : Req)
    → All NoColon more
    → len ≤ length more + 4
    → length more < 2 ^ 30
    → (req' : Req) × (parse_header_field
          (record { text = Word.host ++ (more ++ (b':' ∷ value)); len = len })
          req
        ≡ (true, req'))
      × (req'.host.text ≡ value)
      × (2 ^ 31 < req'.host.len)
unfolding parse_header_field has_prefix
parse_header_field-NoColon more value len req h in_token small = (
  record req { host = record { text = value; len = sub32 len (length (Word.host ++ more) + 1) } },
  ap (λ v. (true, record req { host = v }))
      (value_of-eq (Word.host ++ more) value len (refl, (refl, (refl, (refl, h))))),
  refl,
  omega (arith, in_token, small),
)

-- With a comma among the bytes of the chunk the token is what stands before it, and the chunk is cut
-- to what stands behind it.
pub http_field_value_tok-comma :
    (xs ys : List ℕ) (k : ℕ)
    → All (λ c. (c == b',') ≡ false) xs
    → http_field_value_tok (record { text = xs ++ (b',' ∷ ys); len = length xs + suc k }) ≡ record {
      result = some (record { text = xs ++ (b',' ∷ ys); len = length xs });
      cur = record { text = ys; len = k };
    }
unfolding http_field_value_tok
http_field_value_tok-comma xs ys k h =
    let nz : (length xs + suc k == 0) ≡ false = ground arith in
    let m : length (xs ++ (b',' ∷ [])) - 1 ≡ length xs =
      omega (arith, length-append xs (b',' ∷ [])) in
    let comma = scan-stop (λ c. c == b',') xs b',' ys k h refl in rw (nz, comma) (rw (comma, m))
