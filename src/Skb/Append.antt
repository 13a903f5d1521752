-- ===== src/Skb/Append.antt =====
-- Texts appended one behind the other to a buffer.
use wsd.Prelude.{
  ℕ, ◌+◌, ◌≤◌, ◌≡◌, refl, sym, ap, ◌∙◌, List, [], ◌++◌, append-nil, append_assoc, arith, length,
  length-append,
}
use wsd.Skb.{Skb, write}
use wsd.Skb.Contents.{IsValid, contents, room, length-contents, write-IsValid, contents-write}

-- `b'` is the valid buffer `b` with the bytes `s` behind what it held.
pub record Appends (b : Skb) (s : List ℕ) (b' : Skb) : Type 0 where
  pub valid : IsValid b'
  pub start : b'.rdpos ≡ b.rdpos
  pub text : contents b' ≡ contents b ++ s

pub Appends-nothing : {b : Skb} → IsValid b → Appends b [] b
Appends-nothing {b} v = record { valid = v; start = refl; text = sym (append-nil (contents b)) }

-- The room that is left.
pub Appends-room :
    {b b' : Skb} {s : List ℕ} → IsValid b → Appends b s b' → room b ≡ room b' + length s
Appends-room {b} {b'} {s} v a = omega (
  arith,
  length-contents b,
  length-contents b',
  ap length a.text,
  length-append (contents b) s,
  a.start,
  a.valid.order,
  a.valid.fits,
  v.order,
)

pub write-Appends : {b : Skb} (s : List ℕ) → IsValid b → length s ≤ room b → Appends b s (write b s)
unfolding write
write-Appends s v h = record {
  valid = write-IsValid s v h;
  start = refl;
  text = contents-write s v h;
}

pub Appends-Appends :
    {b b' b'' : Skb} {s t : List ℕ} → Appends b s b' → Appends b' t b'' → Appends b (s ++ t) b''
Appends-Appends {b} {b'} {b''} {s} {t} a c = record {
  valid = c.valid;
  start = c.start ∙ a.start;
  text = c.text ∙ ap (λ r. r ++ t) a.text ∙ append_assoc (contents b) s t;
}

-- One more text.
pub Appends-write :
    {b b' : Skb} {s : List ℕ} (t : List ℕ)
    → Appends b s b'
    → length t ≤ room b'
    → Appends b (s ++ t) (write b' t)
Appends-write t a h = Appends-Appends a (write-Appends t a.valid h)
