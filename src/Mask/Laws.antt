-- ===== src/Mask/Laws.antt =====
-- Masking a byte twice with one key gives the byte back; the loop unmasks a range in place.
use Prim.Native.Nat.{bit_xor}
use mathlib.Core.Path.{ap₂}
use wsd.Prelude.{
  ℕ, zero, suc, ◌+◌, ◌%◌, ◌<◌, ◌≤◌, ◌≡◌, refl, ap, ◌∙◌, Bool, true, ◌&&◌, List, [], ◌∷◌, arith,
  ==_iff, ltb→lt, ◌==◌, ltb, All, every_byte, every_byte_at, ◌^◌,
}
use wsd.Prelude.Words.{IsByte, add32}
use wsd.Memory.{Memory, store, window}
use wsd.Memory.Laws.{window_congr}
use wsd.Skb.Moves.{map_from}
use wsd.Mask.{key_byte, mask, unmask_range}

and_left : (a b : Bool) → (a && b) ≡ true → a ≡ true
and_left a b h = ground arith

and_right : (a b : Bool) → (a && b) ≡ true → b ≡ true
and_right a b h = ground arith

-- The test of one pair of bytes.
abbrev returns : ℕ → ℕ → Bool
returns m c = bit_xor (bit_xor c m) m == c && ltb (bit_xor c m) 256

every_pair : every_byte (λ m. every_byte (returns m) 256) 256 ≡ true
unfolding every_byte
every_pair = refl

pub key_byte-IsByte : (key j : ℕ) → IsByte (key_byte key j)
key_byte-IsByte key j = ground arith

xor_byte : (c m : ℕ) → c < 256 → m < 256 → returns m c ≡ true
xor_byte c m h k =
    every_byte_at (returns m) (every_byte_at (λ m. every_byte (returns m) 256) every_pair m k) c h

pub mask-mask : (c i key : ℕ) → IsByte c → mask (mask c i key) i key ≡ c
unfolding mask
mask-mask c i key h =
    (==_iff _ c).0
      (and_left _ _ (xor_byte c (key_byte key (i % 4)) h (key_byte-IsByte key (i % 4))))

pub mask-IsByte : (c i key : ℕ) → IsByte c → IsByte (mask c i key)
unfolding mask
mask-IsByte c i key h =
    let r = and_right _ _ (xor_byte c (key_byte key (i % 4)) h (key_byte-IsByte key (i % 4))) in
    ltb→lt _ 256 r

-- Masking a run of bytes twice, from the same index, gives the bytes back.
pub map_from-mask :
    (key i : ℕ) (cs : List ℕ)
    → All IsByte cs
    → map_from (λ j c. mask c j key) i (map_from (λ j c. mask c j key) i cs) ≡ cs
map_from-mask key i [] h = refl
map_from-mask key i (c ∷ cs) h = ap₂ ◌∷◌ (mask-mask c i key h.0) (map_from-mask key (i + 1) cs h.1)

-- The loop touches its range only.
pub unmask_range-below :
    (n i j key : ℕ) (m : Memory) (k : ℕ) → i + n ≤ 2 ^ 31 → k < i → unmask_range n i j key m k ≡ m k
unfolding unmask_range
unmask_range-below zero i j key m k h lt = refl
unmask_range-below (suc n) i j key m k h lt =
    unmask_range-below n (add32 i 1) (add32 j 1) key _ k (omega arith) (omega arith) ∙ ground arith

pub unmask_range-above :
    (n i j key : ℕ) (m : Memory) (k : ℕ)
    → i + n ≤ 2 ^ 31
    → i + n ≤ k
    → unmask_range n i j key m k ≡ m k
unfolding unmask_range
unmask_range-above zero i j key m k h lt = refl
unmask_range-above (suc n) i j key m k h lt =
    unmask_range-above n (add32 i 1) (add32 j 1) key _ k (omega arith) (omega arith) ∙ ground arith

-- The loop over `n` bytes, as long as neither index passes 2 ^ 31, masks each byte of its range by
-- the byte's index in the payload.
pub window-unmask_range :
    (n i j key : ℕ) (m : Memory)
    → i + n ≤ 2 ^ 31
    → j + n ≤ 2 ^ 31
    → window (unmask_range n i j key m) i n ≡ map_from (λ j c. mask c j key) j (window m i n)
unfolding unmask_range window
window-unmask_range zero i j key m h g = refl
window-unmask_range (suc n) i j key m h g =
    let a : add32 i 1 ≡ i + 1 = omega arith in
    let b : add32 j 1 ≡ j + 1 = omega arith in
    let m' = store m i (mask (m i) j key) in
    let step : unmask_range (suc n) i j key m ≡ unmask_range n (i + 1) (j + 1) key m' =
      λ t. unmask_range n (a t) (b t) key m' in
    let first : unmask_range n (i + 1) (j + 1) key m' i ≡ mask (m i) j key =
      unmask_range-below n (i + 1) (j + 1) key m' i (omega arith) (omega arith) ∙ ground arith in
    let same : window m' (i + 1) n ≡ window m (i + 1) n =
      window_congr m' m (i + 1) (i + 1) n (λ k lt. ground arith) in
    ap (λ r. r i ∷ window r (i + 1) n) step
    ∙ ap₂ ◌∷◌ first (
        window-unmask_range n (i + 1) (j + 1) key m' (omega arith) (omega arith)
        ∙ ap (map_from (λ j c. mask c j key) (j + 1)) same)
