-- ===== src/Hashtable.antt =====
-- The table of client sockets by connection hash, src/hashtable.h with the lists of src/list.h that
-- it uses: `DEFINE_HASHTABLE(sk_hash, 4)` and its operations. A bucket is the list of its nodes,
-- first node first; a socket stands in the table by value. hash_min does not keep to the buckets: an
-- access of a bucket that the table does not have is outside of the array, and gives `none`.
pub mod Laws
mod Tests
use wsd.Prelude.{
  ltb, ℕ, ◌/◌, ◌^◌, Bool, true, false, ◌==◌, if◌then◌else◌, Option, none, some, List, [], ◌∷◌,
}
use wsd.Types.{Sk}

-- What the buckets hold, of which there are `hash_size`.
abbrev pub Table : Type 0
Table = ℕ → List Sk

-- `1 << 4`, and HASH_BITS, which is half the size
abbrev pub hash_size : ℕ
hash_size = 16

abbrev pub hash_bits : ℕ
hash_bits = hash_size / 2

-- `hash_min(key, HASH_BITS)` of an `unsigned long`: `key >> (64 - HASH_BITS)`
unfoldable pub hash_min : ℕ → ℕ
hash_min key = key / 2 ^ 56

-- Whether the bucket of a hash is one of the table's.
abbrev pub has_bucket : ℕ → Bool
has_bucket hash = ltb (hash_min hash) hash_size

-- `hash_add`: in front of its bucket
abbrev pub added : Table → Sk → Table
added t sk i = if i == hash_min sk.hash then sk ∷ t i else t i

unfoldable pub hash_add : Table → Sk → Option Table
hash_add t sk = if has_bucket sk.hash then some (added t sk) else none

-- The loop of pp2_decode_frame over `hash_for_each_possible`, which stops at an equal hash.
unfoldable pub find_in : ℕ → List Sk → Option Sk
find_in hash [] = none
find_in hash (sk ∷ sks) = if sk.hash == hash then some sk else find_in hash sks

unfoldable pub find : Table → ℕ → Option (Option Sk)
find t hash = if has_bucket hash then some (find_in hash (t (hash_min hash))) else none

-- `hash_del` of the node of the socket with this descriptor, which goes by the links of the node alone
unfoldable pub remove : ℕ → List Sk → List Sk
remove fd [] = []
remove fd (sk ∷ sks) = if sk.fd == fd then sks else sk ∷ remove fd sks

unfoldable pub hash_del : Table → Sk → Table
hash_del t sk i = if i == hash_min sk.hash then remove sk.fd (t i) else t i

-- What a function does to the socket that `find` found, at its place.
unfoldable pub replace : ℕ → Sk → List Sk → List Sk
replace hash new [] = []
replace hash new (sk ∷ sks) = if sk.hash == hash then new ∷ sks else sk ∷ replace hash new sks

unfoldable pub update : Table → ℕ → Sk → Table
update t hash new i = if i == hash_min hash then replace hash new (t i) else t i
