-- ===== src/Skb/Contents.antt =====
-- A buffer as the queue of the bytes between its two positions.
use wsd.Prelude.{
  ℕ, zero, suc, ◌+◌, ◌-◌, ◌≤◌, ◌≡◌, refl, sym, ap, List, [], ◌∷◌, ◌++◌, arith, length, take,
  take_left, drop_left, length-append, ◌∙◌, drop, replicate, All, ◌≢◌,
}
use wsd.Prelude.Words.{add32, sub32, of_le}
use wsd.Memory.{Memory, window}
use wsd.Memory.Laws.{
  length-window, take-window, drop-window, window-store_list, window-store_list_end,
}
use wsd.Skb.{Skb, capacity, rdsz, wrsz, write, get, rd_forward, compact, reset, strncpy}

-- The positions are in order and inside the array.
pub record IsValid (b : Skb) : Type 0 where
  pub order : b.rdpos ≤ b.wrpos
  pub fits : b.wrpos ≤ capacity

-- The bytes written and not yet read.
abbrev pub contents : Skb → List ℕ
contents b = window b.bytes b.rdpos (b.wrpos - b.rdpos)

-- The bytes that the array has room for behind the write position.
abbrev pub room : Skb → ℕ
room b = capacity - b.wrpos

pub length-contents : (b : Skb) → length (contents b) ≡ b.wrpos - b.rdpos
length-contents b = length-window b.bytes b.rdpos (b.wrpos - b.rdpos)

pub rdsz-eq : {b : Skb} → IsValid b → rdsz b ≡ length (contents b)
unfolding rdsz
rdsz-eq {b} v = omega (arith, length-contents b, v.order, v.fits)

pub wrsz-eq : {b : Skb} → IsValid b → wrsz b ≡ room b
unfolding wrsz
wrsz-eq v = omega arith

pub write-IsValid : {b : Skb} (vs : List ℕ) → IsValid b → length vs ≤ room b → IsValid (write b vs)
unfolding write
write-IsValid vs v h = omega arith

pub wrpos-write :
    {b : Skb} (vs : List ℕ)
    → IsValid b
    → length vs ≤ room b
    → (write b vs).wrpos ≡ b.wrpos + length vs
unfolding write
wrpos-write vs v h = omega arith

-- Storing bytes in a valid buffer with room for them appends them to its contents.
pub contents-write :
    {b : Skb} (vs : List ℕ)
    → IsValid b
    → length vs ≤ room b
    → contents (write b vs) ≡ contents b ++ vs
unfolding write
contents-write {b} vs v h =
    let e : add32 b.wrpos (length vs) - b.rdpos ≡ b.wrpos - b.rdpos + length vs = omega arith in
    rw e (window-store_list_end b.bytes b.rdpos (b.wrpos - b.rdpos) b.wrpos vs (omega arith))

pub rd_forward-IsValid :
    {b : Skb} (n : ℕ) → IsValid b → n ≤ length (contents b) → IsValid (rd_forward b n)
unfolding rd_forward
rd_forward-IsValid {b} n v h = omega (arith, length-contents b)

pub contents-rd_forward :
    {b : Skb} (n : ℕ)
    → IsValid b
    → n ≤ length (contents b)
    → contents (rd_forward b n) ≡ drop n (contents b)
unfolding rd_forward
contents-rd_forward {b} n v h =
    let lt : n ≤ b.wrpos - b.rdpos = omega (arith, length-contents b) in
    let a : add32 b.rdpos n ≡ b.rdpos + n = omega arith in
    let e : b.wrpos - (b.rdpos + n) ≡ b.wrpos - b.rdpos - n = omega arith in
    rw a (rw e (sym (drop-window b.bytes b.rdpos n (b.wrpos - b.rdpos) lt)))

-- Reading takes the value off the front.
pub get_value :
    (b : Skb) (n : ℕ) → n ≤ length (contents b) → (get n b).0 ≡ of_le (take n (contents b))
unfolding get
get_value b n h =
    rw (take-window b.bytes b.rdpos n (b.wrpos - b.rdpos) (omega (arith, length-contents b)))

pub get_rest : (b : Skb) (n : ℕ) → (get n b).1 ≡ rd_forward b n
unfolding get
get_rest b n = refl

-- The same for a buffer that is known to begin with the bytes `vs`.
module _ {b : Skb} (v : IsValid b) (vs rest : List ℕ) (e : contents b ≡ vs ++ rest) where
  pub front-le : length vs ≤ length (contents b)
  front-le = omega (arith, ap length e, length-append vs rest)

  -- The bytes as the code sees them through a pointer to the read position.
  pub window_front : window b.bytes b.rdpos (length vs) ≡ vs
  window_front =
      sym (
        take-window b.bytes b.rdpos (length vs) (b.wrpos - b.rdpos)
          (omega (arith, front-le, length-contents b)))
      ∙ ap (take (length vs)) e
      ∙ take_left vs rest

  pub get_front : get (length vs) b ≡ (of_le vs, rd_forward b (length vs))
  unfolding get
  get_front = ap (λ t. (of_le t, rd_forward b (length vs))) window_front

  pub contents-front : contents (rd_forward b (length vs)) ≡ rest
  contents-front =
      contents-rd_forward (length vs) v front-le ∙ ap (drop (length vs)) e ∙ drop_left vs rest

  pub front-IsValid : IsValid (rd_forward b (length vs))
  front-IsValid = rd_forward-IsValid (length vs) v front-le

-- The bytes behind a known prefix.
pub window_behind :
    {b : Skb} (us vs rest : List ℕ)
    → IsValid b
    → contents b ≡ us ++ (vs ++ rest)
    → window b.bytes (b.rdpos + length us) (length vs) ≡ vs
unfolding rd_forward
window_behind {b} us vs rest v e =
    let le = front-le v us (vs ++ rest) e in
    let moved : add32 b.rdpos (length us) ≡ b.rdpos + length us =
      omega (arith, le, length-contents b, v.fits) in
    rw moved at (
      window_front (front-IsValid v us (vs ++ rest) e) vs rest (contents-front v us (vs ++ rest) e))

first_of_window : (m : Memory) (i c : ℕ) → window m i 1 ≡ c ∷ [] → m i ≡ c
unfolding window
first_of_window m i c e = cc

pub byte_behind :
    {b : Skb} (us : List ℕ) (c : ℕ) (rest : List ℕ)
    → IsValid b
    → contents b ≡ us ++ (c ∷ rest)
    → b.bytes (b.rdpos + length us) ≡ c
byte_behind {b} us c rest v e = first_of_window b.bytes _ c (window_behind us (c ∷ []) rest v e)

pub rd_forward-zero : {b : Skb} → IsValid b → rd_forward b 0 ≡ b
unfolding rd_forward
rd_forward-zero {b} v = ap (λ p. record b { rdpos = p }) (omega arith)

pub contents-reset : (b : Skb) → contents (reset b) ≡ []
unfolding reset window
contents-reset b = refl

pub reset-IsValid : (b : Skb) → IsValid (reset b)
unfolding reset
reset-IsValid b = omega arith

pub compact-IsValid : {b : Skb} → IsValid b → IsValid (compact b)
unfolding compact
compact-IsValid v = omega arith

-- Compaction of a valid buffer keeps its contents.
pub contents-compact : {b : Skb} → IsValid b → contents (compact b) ≡ contents b
unfolding compact rdsz
contents-compact {b} v =
    let e : sub32 b.wrpos b.rdpos ≡ b.wrpos - b.rdpos = omega arith in
    let z : b.wrpos - b.rdpos - 0 ≡ b.wrpos - b.rdpos = omega arith in
    rw (e, z)
      (rw (length-window b.bytes b.rdpos (b.wrpos - b.rdpos)) at
        (window-store_list (window b.bytes b.rdpos (b.wrpos - b.rdpos)) b.bytes 0))

pub room-compact : {b : Skb} → IsValid b → room (compact b) ≡ capacity - length (contents b)
unfolding compact
room-compact {b} v = omega (arith, length-contents b)

pub length-replicate {ℓ} : {A : Type ℓ} (n : ℕ) (a : A) → length (replicate n a) ≡ n
length-replicate zero a = refl
length-replicate (suc n) a = ap suc (length-replicate n a)

pub length-strncpy : (s : List ℕ) (n : ℕ) → length (strncpy s n) ≡ n
unfolding strncpy
length-strncpy s zero = refl
length-strncpy [] (suc n) = ap suc (length-replicate n 0)
length-strncpy (c ∷ s) (suc n) = ground (arith, length-strncpy s n, length-replicate {A = ℕ} n 0)

-- A text with no NUL is copied as it is.
pub strncpy-all : (s : List ℕ) → All (λ c. c ≢ 0) s → strncpy s (length s) ≡ s
unfolding strncpy
strncpy-all [] h = refl
strncpy-all (c ∷ s) h = ground (arith, strncpy-all s h.1)
