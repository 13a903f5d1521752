-- ===== src/Mask.antt =====
-- `mask` of src/common.c (`unmask` is another name for it).
pub mod Laws
mod Tests
use Prim.Native.Nat.{bit_xor}
use wsd.Prelude.{ℕ, ◌+◌, ◌/◌, ◌%◌, ◌^◌, ◌==◌, if◌then◌else◌, zero, suc}
use wsd.Prelude.Words.{add32}
use wsd.Memory.{Memory, store}

-- `(key & 0xff << 8 * j) >> 8 * j`
abbrev pub key_byte : ℕ → ℕ → ℕ
key_byte key j =
    if j == 0
    then key % 2 ^ 8
    else if j == 1
    then key / 2 ^ 8 % 2 ^ 8
    else if j == 2
    then key / 2 ^ 16 % 2 ^ 8
    else key / 2 ^ 24 % 2 ^ 8

unfoldable pub mask : ℕ → ℕ → ℕ → ℕ
mask c i key = bit_xor c (key_byte key (i % 4))

-- `for (i, j; i < end; i++, j++) data[i] = unmask(data[i], j, key)`, with `n` rounds left
unfoldable pub unmask_range : ℕ → ℕ → ℕ → ℕ → Memory → Memory
unmask_range zero i j key m = m
unmask_range (suc n) i j key m =
    unmask_range n (add32 i 1) (add32 j 1) key (store m i (mask (m i) j key))
