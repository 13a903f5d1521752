-- ===== src/Hashtable/Laws.antt =====
-- Finding what was added, and the index that the table is accessed at.
use wsd.Prelude.{
  lt→ltb, ap, ◌∙◌, Bool, true, false, if◌then◌else◌, Option, none, ℕ, ◌^◌, ◌<◌, ◌≡◌, ◌≢◌, ◌↔◌, refl,
  some, List, [], ◌∷◌, arith,
}
use wsd.Types.{Sk}
use wsd.Hashtable.{
  has_bucket, added, Table, hash_size, hash_min, hash_add, find_in, find, replace, update,
}

-- A bucket that the table has.
pub has_bucket_lem : (hash : ℕ) → hash < 2 ^ 60 → has_bucket hash ≡ true
unfolding hash_min
has_bucket_lem hash h = lt→ltb (hash_min hash) hash_size (omega arith)

-- A socket that is added is found by its hash.
find_in-added : (t : Table) (sk : Sk) → find_in sk.hash (added t sk (hash_min sk.hash)) ≡ some sk
unfolding find_in
find_in-added t sk = ground arith

pub find-hash_add :
    (t : Table) (sk : Sk)
    → sk.hash < 2 ^ 60
    → (hash_add t sk ≡ some (added t sk)) × (find (added t sk) sk.hash ≡ some (some sk))
unfolding find hash_add
find-hash_add t sk low =
    let inside = has_bucket_lem sk.hash low in
    (rw inside refl, rw inside (ap some (find_in-added t sk)))

-- The table has 16 buckets, and the index is the top byte of the hash: it lies inside the table
-- just for the hashes below 2 ^ 60.
pub hash_min_in_bounds : (key : ℕ) → (hash_min key < hash_size) ↔ (key < 2 ^ 60)
unfolding hash_min
hash_min_in_bounds key = ((λ h. omega arith), (λ h. omega arith))

-- What is found has the hash that was looked for.
pub find_in-hash :
    (hash : ℕ) (sks : List Sk) {sk : Sk} → find_in hash sks ≡ some sk → sk.hash ≡ hash
unfolding find_in
find_in-hash hash [] e = cc
find_in-hash hash (x ∷ sks) {sk} e = ground (arith, find_in-hash hash sks {sk = sk})

-- What a bucket that is there holds.
found :
    (b : Bool) {o : Option Sk} {sk : Sk}
    → (if b then some o else none) ≡ some (some sk)
    → (b ≡ true) × (o ≡ some sk)
found true e = (refl, ground (arith, e))
found false e = absurd (ground (arith, e))

pub find-hash : (t : Table) (hash : ℕ) {sk : Sk} → find t hash ≡ some (some sk) → sk.hash ≡ hash
unfolding find
find-hash t hash e = find_in-hash hash (t (hash_min hash)) (found (has_bucket hash) e).1

find_in-replace :
    (hash : ℕ) (new : Sk) (sks : List Sk) {sk : Sk}
    → new.hash ≡ hash
    → find_in hash sks ≡ some sk
    → find_in hash (replace hash new sks) ≡ some new
unfolding find_in replace
find_in-replace hash new [] h e = cc
find_in-replace hash new (x ∷ sks) {sk} h e =
    ground (arith, find_in-replace hash new sks {sk = sk} h)

find_in-replace_ne :
    (hash other : ℕ) (new : Sk) (sks : List Sk)
    → new.hash ≡ hash
    → hash ≢ other
    → find_in other (replace hash new sks) ≡ find_in other sks
unfolding find_in replace
find_in-replace_ne hash other new [] h ne = refl
find_in-replace_ne hash other new (x ∷ sks) h ne =
    ground (arith, find_in-replace_ne hash other new sks h ne)

its_bucket :
    (t : Table) (hash : ℕ) (new : Sk)
    → find_in hash (update t hash new (hash_min hash))
      ≡ find_in hash (replace hash new (t (hash_min hash)))
unfolding update
its_bucket t hash new = ground arith

other_bucket :
    (t : Table) (hash other : ℕ) (new : Sk)
    → new.hash ≡ hash
    → hash ≢ other
    → find_in other (update t hash new (hash_min other)) ≡ find_in other (t (hash_min other))
unfolding update
other_bucket t hash other new h ne =
    ground (arith, find_in-replace_ne hash other new (t (hash_min other)) h ne)

-- After an update of a socket that is in the table, by one with the same hash, it is found as it has
-- become.
pub find-update :
    (t : Table) (hash : ℕ) (new : Sk) {sk : Sk}
    → new.hash ≡ hash
    → find t hash ≡ some (some sk)
    → find (update t hash new) hash ≡ some (some new)
unfolding find update
find-update t hash new {sk} h e =
    let (inside, there) = found (has_bucket hash) e in
    let its = find_in-replace hash new (t (hash_min hash)) {sk = sk} h there in
    rw inside (ap some (its_bucket t hash new ∙ its))

-- An update by a socket with the same hash leaves what is found under any other hash as it was.
pub find-update_ne :
    (t : Table) (hash other : ℕ) (new : Sk)
    → new.hash ≡ hash
    → hash ≢ other
    → find (update t hash new) other ≡ find t other
unfolding find
find-update_ne t hash other new h ne =
    ap (λ o. if has_bucket other then some o else none) (other_bucket t hash other new h ne)
