-- ===== src/Child/Fds.antt =====
-- Lists of descriptors: which are in them, and that they are in them once.
use wsd.Prelude.{
  ℕ, ◌≡◌, ◌≢◌, refl, ap, Bool, true, false, ◌==◌, ◌||◌, ◌&&◌, not, Bool-cases, inl, inr, List, [],
  ◌∷◌, ◌++◌, arith,
}
use wsd.Types.{Sk}
use wsd.Child.{has, fds, list_del, sk_del, forget}

unfoldable pub distinct : List ℕ → Bool
distinct [] = true
distinct (x ∷ xs) = not (has x xs) && distinct xs

pub has-append : (x y : ℕ) (xs : List ℕ) → has x (xs ++ (y ∷ [])) ≡ (has x xs || y == x)
unfolding has
has-append x y [] = ground arith
has-append x y (z ∷ xs) = ground (arith, has-append x y xs)

pub distinct-append :
    (y : ℕ) (xs : List ℕ) → distinct xs ≡ true → has y xs ≡ false → distinct (xs ++ (y ∷ [])) ≡ true
unfolding distinct has
distinct-append y [] d h = refl
distinct-append y (x ∷ xs) d h = ground (arith, distinct-append y xs, has-append x y xs)

pub has-list_del_other : (x y : ℕ) (xs : List ℕ) → x ≢ y → has x (list_del y xs) ≡ has x xs
unfolding has list_del
has-list_del_other x y [] n = refl
has-list_del_other x y (z ∷ xs) n = ground (arith, has-list_del_other x y xs)

pub has-list_del_same : (x : ℕ) (xs : List ℕ) → distinct xs ≡ true → has x (list_del x xs) ≡ false
unfolding has list_del distinct
has-list_del_same x [] d = refl
has-list_del_same x (z ∷ xs) d = ground (arith, has-list_del_same x xs)

pub has-list_del : (x y : ℕ) (xs : List ℕ) → has x (list_del y xs) ≡ true → has x xs ≡ true
unfolding has list_del
has-list_del x y [] h = h
has-list_del x y (z ∷ xs) h = ground (arith, has-list_del x y xs)

pub distinct-list_del : (y : ℕ) (xs : List ℕ) → distinct xs ≡ true → distinct (list_del y xs) ≡ true
unfolding distinct list_del
distinct-list_del y [] d = refl
distinct-list_del y (z ∷ xs) d = ground (arith, distinct-list_del y xs, has-list_del z y xs)

pub forget-same : (x : ℕ) (xs : List ℕ) → has x (forget x xs) ≡ false
unfolding has forget
forget-same x [] = refl
forget-same x (z ∷ xs) = ground (arith, forget-same x xs)

pub has-forget : (x y : ℕ) (xs : List ℕ) → has x (forget y xs) ≡ true → has x xs ≡ true
unfolding has forget
has-forget x y [] h = h
has-forget x y (z ∷ xs) h = ground (arith, has-forget x y xs)

pub distinct-forget : (y : ℕ) (xs : List ℕ) → distinct xs ≡ true → distinct (forget y xs) ≡ true
unfolding distinct forget
distinct-forget y [] d = refl
distinct-forget y (z ∷ xs) d = ground (arith, distinct-forget y xs, has-forget z y xs)

pub fds-sk_del : (y : ℕ) (sks : List Sk) → fds (sk_del y sks) ≡ list_del y (fds sks)
unfolding sk_del list_del
fds-sk_del y [] = refl
fds-sk_del y (sk ∷ sks) = elim (Bool-cases (sk.fd == y)) [
  | inl same ↦ rw same
  | inr other ↦ rw other (ap (λ t. sk.fd ∷ t) (fds-sk_del y sks))
]

pub fds-append : (sks : List Sk) (sk : Sk) → fds (sks ++ (sk ∷ [])) ≡ fds sks ++ (sk.fd ∷ [])
fds-append [] sk = refl
fds-append (s ∷ sks) sk = ap (λ t. s.fd ∷ t) (fds-append sks sk)
