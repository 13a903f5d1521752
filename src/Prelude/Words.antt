-- ===== src/Prelude/Words.antt =====
-- Machine words as native numbers, and their bytes in memory. The host is little-endian (x86-64,
-- where `char` is one byte, `int` four and `long` eight).
use Prim.Native.Nat.{ℕ, zero, suc, ◌+◌, ◌-◌, ◌*◌, ◌/◌, ◌%◌, ◌^◌, ◌<◌}
use mathlib.Core.Path.{◌≡◌, refl, ap, ap₂}
use mathlib.Core.List.{List, [], ◌∷◌, reverse}
use native.Mathlib.Omega.{arith}
use wsd.Prelude.Lists.{length, All}

-- `unsigned int` addition and subtraction wrap.
abbrev pub add32 : ℕ → ℕ → ℕ
add32 a b = (a + b) % 2 ^ 32

abbrev pub sub32 : ℕ → ℕ → ℕ
sub32 a b = (a + 2 ^ 32 - b) % 2 ^ 32

abbrev pub IsByte : ℕ → Type 0
IsByte b = b < 256

-- The bytes of an `n`-byte object of value `v`, lowest address first.
abbrev pub le_bytes : ℕ → ℕ → List ℕ
le_bytes zero v = []
le_bytes (suc n) v = v % 256 ∷ le_bytes n (v / 256)

-- The value of an object from its bytes.
abbrev pub of_le : List ℕ → ℕ
of_le [] = 0
of_le (b ∷ bs) = b + 256 * of_le bs

-- The bytes of a number in network order.
abbrev pub be_bytes : ℕ → ℕ → List ℕ
be_bytes n v = reverse (le_bytes n v)

-- The number that bytes in network order stand for.
abbrev pub of_be : List ℕ → ℕ
of_be bs = of_le (reverse bs)

-- `htobe16`, `be16toh`, `htobe64`, `be64toh`: the bytes of an `n`-byte value in opposite order.
abbrev pub bswap : ℕ → ℕ → ℕ
bswap n v = of_le (reverse (le_bytes n v))

pub length-le_bytes : (n v : ℕ) → length (le_bytes n v) ≡ n
length-le_bytes zero v = refl
length-le_bytes (suc n) v = ap suc (length-le_bytes n (v / 256))

pub All-le_bytes : (n v : ℕ) → All IsByte (le_bytes n v)
All-le_bytes zero v = tt
All-le_bytes (suc n) v = (omega arith, All-le_bytes n (v / 256))

-- Storing the value that bytes stand for stores those bytes.
pub le_bytes-of_le : (bs : List ℕ) → All IsByte bs → le_bytes (length bs) (of_le bs) ≡ bs
le_bytes-of_le [] h = refl
le_bytes-of_le (b ∷ bs) h =
    let high : (b + 256 * of_le bs) / 256 ≡ of_le bs = omega (arith, h.0) in
    let low : (b + 256 * of_le bs) % 256 ≡ b = omega (arith, h.0) in
    ap₂ ◌∷◌ low (rw high (le_bytes-of_le bs h.1))

-- A value that fits survives a trip through memory.
pub of_le-le_bytes : (n v : ℕ) → v < 256 ^ n → of_le (le_bytes n v) ≡ v
of_le-le_bytes zero v h = omega arith
of_le-le_bytes (suc n) v h = omega (arith, of_le-le_bytes n (v / 256) (grind arith))
