-- ===== src/Ws/Data/Decode.antt =====
-- ws_decode_frame on a whole frame: the header is read, the payload unmasked in place, and what
-- follows in the buffer is untouched.
use mathlib.Core.Path.{ap₂}
use wsd.Prelude.{
  ℕ, ◌+◌, ◌-◌, ◌≡◌, sym, ap, ◌∙◌, List, [], ◌++◌, append-nil, length, length-append, All, arith,
}
use wsd.Prelude.Words.{IsByte}
use wsd.Memory.{window}
use wsd.Memory.Laws.{window-append, window_congr}
use wsd.Skb.{Skb}
use wsd.Skb.Contents.{IsValid, contents, length-contents, window_front, window_behind}
use wsd.Mask.{unmask_range}
use wsd.Mask.Laws.{map_from-mask, window-unmask_range, unmask_range-above}
use wsd.Ws.Data.Spec.{masked, length-masked}

-- The buffer after the loop that unmasks `n` bytes.
abbrev pub cleared : Skb → ℕ → ℕ → Skb
cleared b n key = record b { bytes = unmask_range n b.rdpos 0 key b.bytes }

module _ (b : Skb) (key : ℕ) (payload rest : List ℕ) (v : IsValid b) (bytes : All IsByte payload)
    (e : contents b ≡ masked key payload ++ rest) where
  sizes : b.wrpos - b.rdpos ≡ length payload + length rest
  sizes = omega (
    arith,
    length-contents b,
    ap length e,
    length-append (masked key payload) rest,
    length-masked key payload,
  )

  clear_payload :
      window (unmask_range (length payload) b.rdpos 0 key b.bytes) b.rdpos (length payload)
      ≡ payload
  clear_payload =
      window-unmask_range (length payload) b.rdpos 0 key b.bytes (omega (arith, sizes, v.fits))
        (omega (arith, sizes, v.fits))
      ∙ ap (masked key) (
          ap (window b.bytes b.rdpos) (sym (length-masked key payload))
          ∙ window_front v (masked key payload) rest e)
      ∙ map_from-mask key 0 payload bytes

  kept_rest :
      window
        (unmask_range (length payload) b.rdpos 0 key b.bytes)
        (b.rdpos + length payload)
        (length rest)
      ≡ rest
  kept_rest =
      window_congr _ b.bytes (b.rdpos + length payload) (b.rdpos + length payload) (length rest)
        (λ k lt.
          unmask_range-above (length payload) b.rdpos 0 key b.bytes (b.rdpos + length payload + k)
            (omega (arith, sizes, v.fits)) (omega arith))
      ∙ ap (λ n. window b.bytes (b.rdpos + n) (length rest)) (sym (length-masked key payload))
      ∙ window_behind (masked key payload) rest [] v
          (e ∙ ap (λ r. masked key payload ++ r) (sym (append-nil rest)))

  pub cleared-IsValid : IsValid (cleared b (length payload) key)
  cleared-IsValid = omega arith

  pub contents-cleared : contents (cleared b (length payload) key) ≡ payload ++ rest
  contents-cleared =
      ap (window (unmask_range (length payload) b.rdpos 0 key b.bytes) b.rdpos) sizes
      ∙ window-append _ b.rdpos (length payload) (length rest)
      ∙ ap₂ ◌++◌ clear_payload kept_rest
