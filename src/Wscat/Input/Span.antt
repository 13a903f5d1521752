-- ===== src/Wscat/Input/Span.antt =====
-- balanced_span finds the first JSON object.
use wsd.Prelude.{
  ℕ, zero, suc, ◌+◌, ◌-◌, ◌%◌, ◌^◌, ◌<◌, ◌≡◌, ◌≢◌, refl, sym, ap, ◌∙◌, if◌then◌else◌, Option, none,
  some, List, [], ◌∷◌, ◌++◌, append_assoc, append-nil, length, length-append, All, arith,
}
use wsd.Prelude.Words.{add32}
use wsd.Memory.{Memory, window}
use wsd.Skb.{Skb}
use wsd.Skb.Contents.{IsValid, contents, length-contents}
use wsd.Timeout.{minus_one}
use wsd.Wscat.Input.{next_num, is_over, span_from, balanced_span}

-- A byte that is neither of the two.
abbrev pub IsPlain : ℕ → ℕ → ℕ → Type 0
IsPlain begin end c = (c ≢ begin) × (c ≢ end)

-- Text in which every `begin` has its `end`.
pub data Balanced (begin end : ℕ) : List ℕ → Type 0 where
  empty : Balanced begin end []
  plain :
      {c : ℕ} {cs : List ℕ}
      → IsPlain begin end c
      → Balanced begin end cs
      → Balanced begin end (c ∷ cs)
  nested :
      {xs ys : List ℕ}
      → Balanced begin end xs
      → Balanced begin end ys
      → Balanced begin end (begin ∷ (xs ++ (end ∷ ys)))

-- The loop on the list of the bytes that it meets.
unfoldable scan : ℕ → ℕ → List ℕ → ℕ → ℕ → Option ℕ
scan begin end [] num i = none
scan begin end (c ∷ cs) num i =
    let rest = scan begin end cs (next_num begin end c num) (i + 1) in
    if is_over begin end c num then some (i + 1) else rest

span-scan :
    (begin end : ℕ) (m : Memory) (n pos num i : ℕ)
    → span_from begin end m n pos num i ≡ scan begin end (window m pos n) num i
unfolding span_from scan window
span-scan begin end m zero pos num i = refl
span-scan begin end m (suc n) pos num i =
    rw (span-scan begin end m n (pos + 1) (next_num begin end (m pos) num) (i + 1))

module _ (begin end : ℕ) (other : begin ≢ end) where
  scan-plain :
      (c : ℕ) (cs : List ℕ) (num i : ℕ)
      → IsPlain begin end c
      → scan begin end (c ∷ cs) num i ≡ scan begin end cs num (i + 1)
  unfolding scan
  scan-plain c cs num i h = ground (arith, h.0, h.1)

  scan-begin :
      (cs : List ℕ) (num i : ℕ)
      → num < 2 ^ 31
      → scan begin end (begin ∷ cs) num i ≡ scan begin end cs (num + 1) (i + 1)
  unfolding scan
  scan-begin cs num i h = let e : add32 num 1 ≡ num + 1 = omega arith in ground (arith, e)

  scan-first :
      (cs : List ℕ) (i : ℕ) → scan begin end (begin ∷ cs) minus_one i ≡ scan begin end cs 1 (i + 1)
  unfolding scan
  scan-first cs i = ground arith

  scan-end :
      (cs : List ℕ) (num i : ℕ)
      → 1 < num
      → num < 2 ^ 31
      → scan begin end (end ∷ cs) num i ≡ scan begin end cs (num - 1) (i + 1)
  unfolding scan
  scan-end cs num i lo hi =
      let e : (num + minus_one) % 2 ^ 32 ≡ num - 1 = omega arith in ground (arith, e, other)

  scan-last : (cs : List ℕ) (i : ℕ) → scan begin end (end ∷ cs) 1 i ≡ some (i + 1)
  unfolding scan
  scan-last cs i = ground (arith, other)

  -- Without an opening bracket before it, a closing one leads to -2, and an opening one back to -1.
  scan-below :
      (cs : List ℕ) (i : ℕ)
      → scan begin end (end ∷ cs) minus_one i ≡ scan begin end cs (2 ^ 32 - 2) (i + 1)
  unfolding scan
  scan-below cs i = ground (arith, other)

  scan-above :
      (cs : List ℕ) (i : ℕ)
      → scan begin end (begin ∷ cs) (2 ^ 32 - 2) i ≡ scan begin end cs minus_one (i + 1)
  unfolding scan
  scan-above cs i = ground arith

  scan-stray :
      (cs : List ℕ) (i : ℕ)
      → scan begin end (end ∷ begin ∷ cs) minus_one i ≡ scan begin end cs minus_one (i + 1 + 1)
  scan-stray cs i = scan-below (begin ∷ cs) i ∙ scan-above cs (i + 1)

  -- Balanced text is passed over.
  scan-Balanced :
      {xs : List ℕ}
      → Balanced begin end xs
      → (rest : List ℕ) (num i : ℕ) → 0 < num
      → num + length xs < 2 ^ 31
      → scan begin end (xs ++ rest) num i ≡ scan begin end rest num (i + length xs)
  scan-Balanced empty rest num i lo hi = let e : i + 0 ≡ i = omega arith in rw e
  scan-Balanced (plain {c} {cs} p b) rest num i lo hi =
      let e : i + 1 + length cs ≡ i + suc (length cs) = omega arith in
      scan-plain c (cs ++ rest) num i p
      ∙ scan-Balanced b rest num (i + 1) lo (omega (arith, hi))
      ∙ ap (scan begin end rest num) e
  scan-Balanced (nested {xs} {ys} b d) rest num i lo hi =
      let size = length-append xs (end ∷ ys) in
      let back : num + 1 - 1 ≡ num = omega arith in
      let e : i + 1 + length xs + 1 + length ys ≡ i + suc (length (xs ++ (end ∷ ys))) =
        omega (arith, size) in
      scan-begin ((xs ++ (end ∷ ys)) ++ rest) num i (omega (arith, hi))
      ∙ ap (λ t. scan begin end t (num + 1) (i + 1)) (append_assoc xs (end ∷ ys) rest)
      ∙ scan-Balanced b (end ∷ (ys ++ rest)) (num + 1) (i + 1) (omega arith)
          (omega (arith, hi, size))
      ∙ scan-end (ys ++ rest) (num + 1) (i + 1 + length xs) (omega (arith, lo))
          (omega (arith, hi, size))
      ∙ ap (λ k. scan begin end (ys ++ rest) k (i + 1 + length xs + 1)) back
      ∙ scan-Balanced d rest num (i + 1 + length xs + 1) lo (omega (arith, hi, size))
      ∙ ap (scan begin end rest num) e

  scan-all_plain :
      (xs rest : List ℕ) (num i : ℕ)
      → All (IsPlain begin end) xs
      → scan begin end (xs ++ rest) num i ≡ scan begin end rest num (i + length xs)
  scan-all_plain [] rest num i h = let e : i + 0 ≡ i = omega arith in rw e
  scan-all_plain (c ∷ xs) rest num i h =
      let e : i + 1 + length xs ≡ i + suc (length xs) = omega arith in
      scan-plain c (xs ++ rest) num i h.0
      ∙ scan-all_plain xs rest num (i + 1) h.1
      ∙ ap (scan begin end rest num) e

  span-contents : (b : Skb) → balanced_span b begin end ≡ scan begin end (contents b) minus_one 0
  unfolding balanced_span
  span-contents b = span-scan begin end b.bytes (b.wrpos - b.rdpos) b.rdpos minus_one 0

  -- Where the unread bytes of a valid buffer are some that are neither of two different brackets,
  -- an opening one, balanced text and a closing one, and anything behind that, the span is that up to
  -- and with this closing bracket.
  pub balanced_span_lem :
      (b : Skb) (pre xs rest : List ℕ)
      → IsValid b
      → All (IsPlain begin end) pre
      → Balanced begin end xs
      → contents b ≡ pre ++ (begin ∷ (xs ++ (end ∷ rest)))
      → balanced_span b begin end ≡ some (length pre + length xs + 2)
  balanced_span_lem b pre xs rest v h d e =
      let i = length pre in
      let small : length xs + 1 < 2 ^ 31 = omega (
        arith,
        length-contents b,
        v.fits,
        ap length e,
        length-append pre (begin ∷ (xs ++ (end ∷ rest))),
        length-append xs (end ∷ rest),
      ) in
      span-contents b
      ∙ ap (λ t. scan begin end t minus_one 0) e
      ∙ scan-all_plain pre (begin ∷ (xs ++ (end ∷ rest))) minus_one 0 h
      ∙ scan-first (xs ++ (end ∷ rest)) (0 + i)
      ∙ scan-Balanced d (end ∷ rest) 1 (0 + i + 1) (omega arith) (omega (arith, small))
      ∙ scan-last rest (0 + i + 1 + length xs)
      ∙ ap some (omega arith)

  -- Where the closing bracket is still to come, there is no span yet.
  pub balanced_span_waits :
      (b : Skb) (pre xs : List ℕ)
      → IsValid b
      → All (IsPlain begin end) pre
      → Balanced begin end xs
      → contents b ≡ pre ++ (begin ∷ xs)
      → balanced_span b begin end ≡ none
  unfolding scan
  balanced_span_waits b pre xs v h d e =
      let small : length xs + 1 < 2 ^ 31 =
        omega (arith, length-contents b, v.fits, ap length e, length-append pre (begin ∷ xs)) in
      span-contents b
      ∙ ap (λ t. scan begin end t minus_one 0)
          (e ∙ ap (λ t. pre ++ (begin ∷ t)) (sym (append-nil xs)))
      ∙ scan-all_plain pre (begin ∷ (xs ++ [])) minus_one 0 h
      ∙ scan-first (xs ++ []) (0 + length pre)
      ∙ scan-Balanced d [] 1 (0 + length pre + 1) (omega arith) (omega (arith, small))

  -- Where a buffer holds a closing bracket in front of a pair of brackets with no brackets between them,
  -- the opening one is not counted as the first, and no span is found.
  pub stray_end_hides_object :
      (b : Skb) (xs : List ℕ)
      → All (IsPlain begin end) xs
      → contents b ≡ end ∷ begin ∷ (xs ++ (end ∷ []))
      → balanced_span b begin end ≡ none
  unfolding scan
  stray_end_hides_object b xs h e =
      span-contents b
      ∙ ap (λ t. scan begin end t minus_one 0) e
      ∙ scan-stray (xs ++ (end ∷ [])) 0
      ∙ scan-all_plain xs (end ∷ []) minus_one 2 h
      ∙ scan-below [] (2 + length xs)
