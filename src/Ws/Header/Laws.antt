-- ===== src/Ws/Header/Laws.antt =====
-- What the header functions store and read, byte by byte, as RFC 6455 section 5.2 lays it out.
use Prim.Native.Nat.{bit_or}
use wsd.Prelude.{
  ℕ, suc, ◌+◌, ◌-◌, ◌%◌, ◌^◌, ◌≤◌, ◌<◌, ◌≡◌, refl, ap, ◌∙◌, inl, inr, Bool, true, false, Bool-cases,
  ltb, leb, ◌==◌, ==_iff, every_byte, every_byte_at, if◌then◌else◌, List, [], ◌∷◌, ◌++◌, length,
  some, arith,
}
use wsd.Prelude.Words.{le_bytes, be_bytes, of_le, of_be, bswap, le_bytes-of_le, of_le-le_bytes}
use wsd.Skb.{Skb, wrsz, write, put, rd_forward}
use wsd.Skb.Contents.{
  IsValid, contents, room, rdsz-eq, wrsz-eq, write-IsValid, wrpos-write, get_front, front-le,
  rd_forward-zero,
}
use wsd.Skb.Moves.{write-write}
use wsd.Ws.Header.{set_payload_bits, payload_bits, set_payload_len, decode_payload_len}

-- The mask bit of the second byte.
abbrev pub mask_flag : Bool → ℕ
mask_flag true = 128
mask_flag false = 0

-- The seven bits of length in the second byte, and the extended length behind it.
abbrev pub short_len : ℕ → ℕ
short_len len = if ltb len 126 then len else if leb len 65535 then 126 else 127

abbrev pub ext_bytes : ℕ → List ℕ
ext_bytes len = if ltb len 126 then [] else if leb len 65535 then be_bytes 2 len else be_bytes 8 len

-- The second byte of a header and the extended length.
abbrev pub len_bytes : Bool → ℕ → List ℕ
len_bytes m len = (mask_flag m + short_len len) ∷ ext_bytes len

le_bytes-bswap2 : (v : ℕ) → le_bytes 2 (bswap 2 v) ≡ be_bytes 2 v
le_bytes-bswap2 v = le_bytes-of_le (be_bytes 2 v) (omega arith)

le_bytes-bswap8 : (v : ℕ) → le_bytes 8 (bswap 8 v) ≡ be_bytes 8 v
le_bytes-bswap8 v = le_bytes-of_le (be_bytes 8 v) (omega arith)

or_table :
    (m : Bool) → every_byte (λ k. bit_or (mask_flag m) (k % 128) == mask_flag m + k) 126 ≡ true
unfolding every_byte
or_table true = refl
or_table false = refl

set_payload_bits_lem :
    (m : Bool) (k : ℕ) → k < 126 → set_payload_bits (mask_flag m) k ≡ mask_flag m + k
set_payload_bits_lem m k h =
    (==_iff _ _).0
      (every_byte_at (λ k. bit_or (mask_flag m) (k % 128) == mask_flag m + k) (or_table m) k h)

set_126 : (m : Bool) → set_payload_bits (mask_flag m) 126 ≡ mask_flag m + 126
set_126 true = refl
set_126 false = refl

set_127 : (m : Bool) → set_payload_bits (mask_flag m) 127 ≡ mask_flag m + 127
set_127 true = refl
set_127 false = refl

small_byte : (x : ℕ) → x < 256 → le_bytes 1 x ≡ x ∷ []
small_byte x h = let e : x % 256 ≡ x = omega arith in rw e

pub put_byte : (x : ℕ) (b : Skb) → x < 256 → put 1 x b ≡ write b (x ∷ [])
unfolding put
put_byte x b h = rw (small_byte x h)

mask_flag-le : (m : Bool) → mask_flag m ≤ 128
mask_flag-le true = omega arith
mask_flag-le false = omega arith

pub put_swapped2 : (v : ℕ) (b : Skb) → put 2 (bswap 2 v) b ≡ write b (be_bytes 2 v)
unfolding put
put_swapped2 v b = ap (write b) (le_bytes-bswap2 v)

put_swapped8 : (v : ℕ) (b : Skb) → put 8 (bswap 8 v) b ≡ write b (be_bytes 8 v)
unfolding put
put_swapped8 v b = ap (write b) (le_bytes-bswap8 v)

wrsz-write :
    {b : Skb} (vs : List ℕ)
    → IsValid b
    → length vs ≤ room b
    → wrsz (write b vs) ≡ room b - length vs
wrsz-write {b} vs v h = omega (arith, wrsz-eq (write-IsValid vs v h), wrpos-write vs v h)

-- The two forms with an extended length: one byte, and then the length in network order.
module _ {b : Skb} (v : IsValid b) (m : Bool) (k : ℕ) (small : k < 128) where
  first_byte :
      set_payload_bits (mask_flag m) k ≡ mask_flag m + k
      → put 1 (set_payload_bits (mask_flag m) k) b ≡ write b ((mask_flag m + k) ∷ [])
  first_byte e =
      ap (λ x. put 1 x b) e ∙ put_byte (mask_flag m + k) b (omega (arith, mask_flag-le m))

  join :
      (ws : List ℕ)
      → suc (length ws) ≤ room b
      → write (write b ((mask_flag m + k) ∷ [])) ws ≡ write b ((mask_flag m + k) ∷ ws)
  join ws h = write-write b ((mask_flag m + k) ∷ []) ws (omega (arith, v.fits)) (omega arith)

-- In a valid buffer with room for it, a length below 2 ^ 63 is stored as RFC 6455 has it: one byte
-- up to 125, and behind it 2 or 8 bytes in network order, with the mask flag in the first.
pub set_payload_len_lem :
    (m : Bool) (len : ℕ) {b : Skb}
    → IsValid b
    → len < 2 ^ 63
    → length (len_bytes m len) ≤ room b
    → set_payload_len b len (mask_flag m) ≡ some (write b (len_bytes m len))
unfolding set_payload_len
set_payload_len_lem m len {b} v h r = elim (Bool-cases (ltb len 126)) [
  | inl small ↦ ground (arith, wrsz-eq v, first_byte v m len, set_payload_bits_lem m len)
  | inr large ↦ elim (Bool-cases (leb len 65535)) [
    | inl medium ↦ ground (
      arith,
      wrsz-eq v,
      first_byte v m 126 (omega arith) (set_126 m),
      wrsz-write ((mask_flag m + 126) ∷ []) v,
      put_swapped2 len (write b ((mask_flag m + 126) ∷ [])),
      join v m 126 (omega arith) (be_bytes 2 len),
    )
    | inr huge ↦ ground (
      arith,
      wrsz-eq v,
      first_byte v m 127 (omega arith) (set_127 m),
      wrsz-write ((mask_flag m + 127) ∷ []) v,
      put_swapped8 len (write b ((mask_flag m + 127) ∷ [])),
      join v m 127 (omega arith) (be_bytes 8 len),
    )
  ]
]

pub bswap2-be_bytes : (len : ℕ) → len < 2 ^ 16 → bswap 2 (of_le (be_bytes 2 len)) ≡ len
bswap2-be_bytes len h =
    ap of_be (le_bytes-of_le (be_bytes 2 len) (omega arith)) ∙ of_le-le_bytes 2 len h

bswap8-be_bytes : (len : ℕ) → len < 2 ^ 64 → bswap 8 (of_le (be_bytes 8 len)) ≡ len
bswap8-be_bytes len h =
    ap of_be (le_bytes-of_le (be_bytes 8 len) (omega arith)) ∙ of_le-le_bytes 8 len h

pub payload_bits_flag : (m : Bool) (k : ℕ) → k < 128 → payload_bits (mask_flag m + k) ≡ k
payload_bits_flag true k h = omega arith
payload_bits_flag false k h = omega arith

-- From a valid buffer that begins with the extended length of a length below 2 ^ 63 as
-- set_payload_len stores it, and the second byte of the header, that length is read back, and the
-- extended length is taken off the buffer.
pub decode_payload_len_lem :
    (m : Bool) (len : ℕ) {b : Skb} (rest : List ℕ)
    → IsValid b
    → len < 2 ^ 63
    → contents b ≡ ext_bytes len ++ rest
    → decode_payload_len b (mask_flag m + short_len len)
      ≡ (len, rd_forward b (length (ext_bytes len)))
unfolding decode_payload_len
decode_payload_len_lem m len {b} rest v h e = elim (Bool-cases (ltb len 126)) [
  | inl small ↦ ground (arith, rd_forward-zero v, payload_bits_flag m len)
  | inr large ↦ elim (Bool-cases (leb len 65535)) [
    | inl medium ↦
        let e2 : contents b ≡ be_bytes 2 len ++ rest = ground arith in
        ground (
          arith,
          get_front v (be_bytes 2 len) rest e2,
          bswap2-be_bytes len,
          front-le v (be_bytes 2 len) rest e2,
          rdsz-eq v,
          payload_bits_flag m 126,
        )
    | inr huge ↦
        let e8 : contents b ≡ be_bytes 8 len ++ rest = ground arith in
        ground (
          arith,
          get_front v (be_bytes 8 len) rest e8,
          bswap8-be_bytes len,
          front-le v (be_bytes 8 len) rest e8,
          rdsz-eq v,
          payload_bits_flag m 127,
        )
  ]
]
