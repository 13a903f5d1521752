-- ===== src/Http/Validate/Laws.antt =====
-- What trim does, and which request lines and field values are taken.
use wsd.Prelude.{
  true, ℕ, zero, suc, ◌+◌, ◌<◌, ◌≡◌, ◌≢◌, ◌⊎◌, refl, Bool, false, ◌==◌, Bool-cases, inl, inr,
  Option, none, some, List, [], ◌∷◌, ◌++◌, length, All, ◌≤◌, arith,
}
use wsd.Types.{Chunk}
use wsd.Http.Parser.{has_prefix, Req, scan, http_field_value_tok}
use wsd.Http.Validate.{
  is_blank, nth, rest_text, trim_left, trim_right, trim, strncmp_eq, uri_any, is_valid_req_line,
  positive, any_value,
}

-- Of a value behind two blanks, and with no blank as its first byte, trim takes only one away: the
-- text that is left begins with a blank.
pub trim-two_blanks :
    (c : ℕ) (rest : List ℕ) (n : ℕ)
    → is_blank c ≡ false
    → (trim (record { text = 0x20 ∷ 0x20 ∷ c ∷ rest; len = n + 3 })).text ≡ 0x20 ∷ c ∷ rest
unfolding trim trim_left
trim-two_blanks c rest n h = let e : n + 3 ≡ suc (suc (suc n)) = omega arith in rw (e, h)

abbrev pub NotBlank : ℕ → Type 0
NotBlank c = is_blank c ≡ false

nth-NotBlank :
    (s behind : List ℕ) (i : ℕ)
    → All NotBlank s
    → i < length s
    → is_blank (nth i (s ++ behind)) ≡ false
nth-NotBlank [] behind i h l = absurd (ground (arith, l))
nth-NotBlank (c ∷ cs) behind zero h l = h.0
nth-NotBlank (c ∷ cs) behind (suc i) h l = nth-NotBlank cs behind i h.1 (omega (arith, l))

-- Of a value without a blank, of two characters at least, trim takes away the one in front of it.
pub trim-one_blank :
    (s behind : List ℕ)
    → All NotBlank s
    → 2 ≤ length s
    → trim (record { text = 0x20 ∷ (s ++ behind); len = suc (length s) })
      ≡ record { text = s ++ behind; len = length s }
unfolding trim trim_left trim_right
trim-one_blank [] behind h l = absurd (ground (arith, l))
trim-one_blank (c ∷ []) behind h l = absurd (ground (arith, l))
trim-one_blank (c ∷ d ∷ cs) behind h l =
    rw (h.1.0, nth-NotBlank (d ∷ cs) behind (length cs) h.1 (omega arith)) refl

trim_left-len : (i n : ℕ) (s : List ℕ) → (trim_left i n s).len ≤ n
unfolding trim_left
trim_left-len i zero s = omega arith
trim_left-len i (suc n) s = ground (arith, trim_left-len (i + 1) n (rest_text s))

trim_right-len : (n : ℕ) (s : List ℕ) → trim_right n s ≤ n
unfolding trim_right
trim_right-len zero s = omega arith
trim_right-len (suc n) s = ground (arith, trim_right-len n s)

-- Trimming makes nothing longer.
pub trim-len : (c : Chunk) → (trim c).len ≤ c.len
unfolding trim
trim-len c =
    let t = trim_left 0 c.len c.text in
    omega (arith, trim_left-len 0 c.len c.text, trim_right-len t.len t.text)

-- A method that is not of three letters is taken, whatever it is, with a request target other than
-- `*`.
pub is_valid_req_line-method :
    (req : Req)
    → req.method.len ≢ 3
    → strncmp_eq req.req_target.len req.req_target.text uri_any ≡ false
    → is_valid_req_line req ≢ none
unfolding is_valid_req_line
is_valid_req_line-method req ne h = ground arith

scan-left : (stop : ℕ → Bool) (n : ℕ) (cs : List ℕ) {m : ℕ} → (scan stop n cs).left ≡ some m → m < n
unfolding scan
scan-left stop zero cs {m} h = ground arith
scan-left stop (suc n) [] {m} h = ground arith
scan-left stop (suc n) (c ∷ cs) {m} h = ground (arith, scan-left stop n cs {m = m})

Option-cases : {A : Type 0} (o : Option A) → (o ≡ none) ⊎ ((a : A) × (o ≡ some a))
Option-cases none = inl refl
Option-cases (some a) = inr (a, refl)

-- A call that returns a token cuts the chunk.
cut :
    (c : Chunk)
    → positive (http_field_value_tok c).result ≢ none
    → (http_field_value_tok c).cur.len < c.len
unfolding http_field_value_tok
cut c h = elim (Bool-cases (c.len == 0)) [
  | inl empty ↦ absurd (h (rw (empty, http_field_value_tok)))
  | inr there ↦ elim (Option-cases (scan (λ c. c == b',') c.len c.text).left) [
    | inl e ↦ rw there (rw e (ground arith))
    | inr (m, e) ↦ rw there (rw e (scan-left (λ c. c == b',') c.len c.text e))
  ]
]

-- The loop over the values of a field, for any word, comes to its end within a number of rounds above
-- the length of the chunk, and then has found the word or not.
pub any_value-rounds :
    (word : List ℕ) (n : ℕ) (c : Chunk) → c.len < n → (b : Bool) × (any_value word n c ≡ some b)
unfolding any_value
any_value-rounds word zero c h = absurd (omega arith)
any_value-rounds word (suc n) c h =
    let t = http_field_value_tok c in
    elim (Option-cases (positive t.result)) [
      | inl none_left ↦ (false, rw (none_left, any_value) refl)
      | inr (a, there) ↦
          let shorter : t.cur.len < n = omega (arith, cut c (λ no. ground arith), h) in
          let (b, rest) = any_value-rounds word n t.cur shorter in
          elim (Bool-cases (has_prefix word (trim a).text)) [
            | inl same ↦ (true, rw (there, any_value) (rw same refl))
            | inr other ↦ (b, rw (there, any_value) (rw other rest))
          ]
    ]
