-- ===== src/Memory/Laws.antt =====
-- Reading back what was stored, and cutting windows.
use wsd.Prelude.{
  ℕ, zero, suc, ◌+◌, ◌-◌, ◌≤◌, ◌<◌, ◌≡◌, refl, ap, ◌∙◌, List, [], ◌∷◌, ◌++◌, arith, length, take,
  drop,
}
use mathlib.Core.Path.{ap₂}
use wsd.Memory.{Memory, store, store_list, window}

pub length-window : (m : Memory) (i n : ℕ) → length (window m i n) ≡ n
unfolding window
length-window m i zero = refl
length-window m i (suc n) = ap suc (length-window m (i + 1) n)

pub window-append :
    (m : Memory) (i n k : ℕ) → window m i (n + k) ≡ window m i n ++ window m (i + n) k
unfolding window
window-append m i zero k =
    let a : zero + k ≡ k = omega arith in let b : i + 0 ≡ i = omega arith in rw (a, b)
window-append m i (suc n) k =
    let a : suc n + k ≡ suc (n + k) = omega arith in
    let b : i + suc n ≡ i + 1 + n = omega arith in
    rw (a, b) (ap (λ r. m i ∷ r) (window-append m (i + 1) n k))

-- Memories that agree on a range have the same bytes there.
pub window_congr :
    (m m' : Memory) (i j n : ℕ)
    → ((k : ℕ) → k < n → m (i + k) ≡ m' (j + k))
    → window m i n ≡ window m' j n
unfolding window
window_congr m m' i j zero h = refl
window_congr m m' i j (suc n) h =
    ap₂ ◌∷◌ (first (h 0 (omega arith)))
      (window_congr m m' (i + 1) (j + 1) n (λ k lt. later k (h (suc k) (omega arith))))
  where
    first : m (i + 0) ≡ m' (j + 0) → m i ≡ m' j
    first e = let a : i + 0 ≡ i = omega arith in let b : j + 0 ≡ j = omega arith in rw (a, b) at e

    later : (k : ℕ) → m (i + suc k) ≡ m' (j + suc k) → m (i + 1 + k) ≡ m' (j + 1 + k)
    later k e =
        let a : i + suc k ≡ i + 1 + k = omega arith in
        let b : j + suc k ≡ j + 1 + k = omega arith in rw (a, b) at e

store_list-below : (vs : List ℕ) (m : Memory) (i j : ℕ) → j < i → store_list m i vs j ≡ m j
unfolding store_list
store_list-below [] m i j h = refl
store_list-below (v ∷ vs) m i j h =
    ground (arith, store_list-below vs (store m i v) (i + 1) j (omega arith))

-- What lies below the first stored byte is untouched.
pub window-store_list_below :
    (m : Memory) (i j n : ℕ) (vs : List ℕ)
    → j + n ≤ i
    → window (store_list m i vs) j n ≡ window m j n
window-store_list_below m i j n vs h =
    window_congr (store_list m i vs) m j j n (λ k lt. store_list-below vs m i (j + k) (omega arith))

-- The stored bytes read back.
pub window-store_list :
    (vs : List ℕ) (m : Memory) (i : ℕ) → window (store_list m i vs) i (length vs) ≡ vs
unfolding window store_list
window-store_list [] m i = refl
window-store_list (v ∷ vs) m i =
    ap₂ ◌∷◌ (ground (arith, store_list-below vs (store m i v) (i + 1) i (omega arith)))
      (window-store_list vs (store m i v) (i + 1))

pub store_list-append :
    (vs ws : List ℕ) (m : Memory) (i : ℕ)
    → store_list m i (vs ++ ws) ≡ store_list (store_list m i vs) (i + length vs) ws
unfolding store_list
store_list-append [] ws m i = let e : i + 0 ≡ i = omega arith in rw e
store_list-append (v ∷ vs) ws m i =
    let e : i + suc (length vs) ≡ i + 1 + length vs = omega arith in
    rw e (store_list-append vs ws (store m i v) (i + 1))

-- Storing behind a window extends it by the stored bytes.
pub window-store_list_end :
    (m : Memory) (i n j : ℕ) (vs : List ℕ)
    → j ≡ i + n
    → window (store_list m j vs) i (n + length vs) ≡ window m i n ++ vs
window-store_list_end m i n j vs e = rw e (
    window-append _ i n (length vs)
    ∙ ap₂ ◌++◌ (window-store_list_below m (i + n) i n vs (omega arith))
        (window-store_list vs m (i + n)))

pub take-window : (m : Memory) (i n k : ℕ) → n ≤ k → take n (window m i k) ≡ window m i n
unfolding window
take-window m i zero k h = refl
take-window m i (suc n) zero h = absurd (omega arith)
take-window m i (suc n) (suc k) h = ap (λ r. m i ∷ r) (take-window m (i + 1) n k (omega arith))

pub drop-window :
    (m : Memory) (i n k : ℕ) → n ≤ k → drop n (window m i k) ≡ window m (i + n) (k - n)
unfolding window
drop-window m i zero k h =
    let a : i + 0 ≡ i = omega arith in let b : k - 0 ≡ k = omega arith in rw (a, b)
drop-window m i (suc n) zero h = absurd (omega arith)
drop-window m i (suc n) (suc k) h =
    let a : i + suc n ≡ i + 1 + n = omega arith in
    let b : suc k - suc n ≡ k - n = omega arith in
    rw (a, b) (drop-window m (i + 1) n k (omega arith))
