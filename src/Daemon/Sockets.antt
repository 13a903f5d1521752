-- ===== src/Daemon/Sockets.antt =====
-- The sockets of a world by their descriptors: look up, and put back what a function has done to them.
use wsd.Prelude.{
  ℕ, ◌≡◌, refl, ap, ◌∙◌, true, ◌==◌, if◌then◌else◌, Bool-cases, ==_iff, inl, inr, Option, none,
  some, List, [], ◌∷◌, arith,
}
use wsd.Types.{Sk}
use wsd.Hashtable.{Table, hash_min}
use wsd.Child.{fds, has}

unfoldable pub find_fd : ℕ → List Sk → Option Sk
find_fd fd [] = none
find_fd fd (sk ∷ sks) = if sk.fd == fd then some sk else find_fd fd sks

abbrev pub newer : Sk → Option Sk → Sk
newer sk none = sk
newer sk (some sk') = sk'

-- Each socket as it is in `news`, if it is there. No function of the program changes a descriptor.
unfoldable pub store : List Sk → List Sk → List Sk
store news [] = []
store news (sk ∷ sks) = newer sk (find_fd sk.fd news) ∷ store news sks

-- The sockets of the nodes in the table, and those of one bucket.
unfoldable pub nodes : List Sk → List ℕ → List Sk
nodes sks [] = []
nodes sks (fd ∷ rest) = elim (find_fd fd sks) [
  | none ↦ nodes sks rest
  | some sk ↦ sk ∷ nodes sks rest
]

unfoldable pub in_bucket : ℕ → List Sk → List Sk
in_bucket i [] = []
in_bucket i (sk ∷ sks) =
    let rest = in_bucket i sks in if i == hash_min sk.hash then sk ∷ rest else rest

-- Each socket as it is in the table, if it is there.
unfoldable pub store_table : Table → List Sk → List Sk
store_table t [] = []
store_table t (sk ∷ sks) = newer sk (find_fd sk.fd (t (hash_min sk.hash))) ∷ store_table t sks

pub find_fd-fd : (fd : ℕ) (sks : List Sk) (sk : Sk) → find_fd fd sks ≡ some sk → sk.fd ≡ fd
unfolding find_fd
find_fd-fd fd [] sk e = absurd (ground (arith, e))
find_fd-fd fd (x ∷ xs) sk e = elim (Bool-cases (x.fd == fd)) [
  | inl same ↦ ground (arith, same, e)
  | inr other ↦ find_fd-fd fd xs sk (rw other at e)
]

newer-fd :
    (sk : Sk) (r : Option Sk)
    → ((sk' : Sk) → r ≡ some sk' → sk'.fd ≡ sk.fd)
    → (newer sk r).fd ≡ sk.fd
newer-fd sk none h = refl
newer-fd sk (some sk') h = h sk' refl

pub fds-store : (news sks : List Sk) → fds (store news sks) ≡ fds sks
unfolding store
fds-store news [] = refl
fds-store news (sk ∷ sks) =
    ap (λ t. t ∷ fds (store news sks))
      (newer-fd sk (find_fd sk.fd news) (λ sk' e. find_fd-fd sk.fd news sk' e))
    ∙ ap (λ t. sk.fd ∷ t) (fds-store news sks)

pub fds-store_table : (t : Table) (sks : List Sk) → fds (store_table t sks) ≡ fds sks
unfolding store_table
fds-store_table t [] = refl
fds-store_table t (sk ∷ sks) =
    let found = find_fd sk.fd (t (hash_min sk.hash)) in
    ap (λ f. f ∷ fds (store_table t sks))
      (newer-fd sk found (λ sk' e. find_fd-fd sk.fd (t (hash_min sk.hash)) sk' e))
    ∙ ap (λ f. sk.fd ∷ f) (fds-store_table t sks)

pub find_fd-has :
    (fd : ℕ) (sks : List Sk) (sk : Sk) → find_fd fd sks ≡ some sk → has fd (fds sks) ≡ true
unfolding find_fd has
find_fd-has fd [] sk e = absurd (ground (arith, e))
find_fd-has fd (x ∷ xs) sk e = elim (Bool-cases (x.fd == fd)) [
  | inl same ↦ rw same refl
  | inr other ↦ ground (arith, other, find_fd-has fd xs sk (rw other at e))
]

abbrev pub updated : Option Sk → Option Sk → Option Sk
updated none r = none
updated (some sk) r = some (newer sk r)

-- What is found after a store.
pub find_fd-store :
    (x : ℕ) (news sks : List Sk)
    → find_fd x (store news sks) ≡ updated (find_fd x sks) (find_fd x news)
unfolding find_fd store
find_fd-store x news [] = refl
find_fd-store x news (sk ∷ sks) =
    let e : (newer sk (find_fd sk.fd news)).fd ≡ sk.fd =
      newer-fd sk (find_fd sk.fd news) (λ sk' q. find_fd-fd sk.fd news sk' q) in
    elim (Bool-cases (sk.fd == x)) [
      | inl same ↦
          let f : sk.fd ≡ x = (==_iff sk.fd x).0 same in
          let g = ap (λ t. t == x) e ∙ same in
          rw (g, same) (ap (λ t. some (newer sk (find_fd t news))) f)
      | inr other ↦ let g = ap (λ t. t == x) e ∙ other in rw (g, other) (find_fd-store x news sks)
    ]
