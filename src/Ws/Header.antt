-- ===== src/Ws/Header.antt =====
-- Frame headers: the bit macros of src/ws.h and the payload length functions of src/ws.c. A test of
-- one bit is written by division; a byte is a number below 256.
pub mod Laws
mod Tests
use Prim.Native.Nat.{bit_or}
use wsd.Prelude.{
  ℕ, ◌+◌, ◌-◌, ◌/◌, ◌%◌, ◌^◌, Bool, true, false, ◌||◌, not, ltb, leb, ◌==◌, if◌then◌else◌, Option,
  none, some, ◌≡◌,
}
use wsd.Prelude.Words.{bswap}
use wsd.Skb.{Skb, rdsz, wrsz, put, get}

abbrev pub ws_frag_frame : ℕ
ws_frag_frame = 0x0

abbrev pub ws_text_frame : ℕ
ws_text_frame = 0x1

abbrev pub ws_binary_frame : ℕ
ws_binary_frame = 0x2

abbrev pub ws_close_frame : ℕ
ws_close_frame = 0x8

abbrev pub ws_ping_frame : ℕ
ws_ping_frame = 0x9

abbrev pub ws_pong_frame : ℕ
ws_pong_frame = 0xa

-- `byte |= 0x80`
abbrev pub set_fin_bit : ℕ → ℕ
set_fin_bit byte = bit_or byte 0x80

-- `byte |= (0xf & val)`
abbrev pub set_opcode : ℕ → ℕ → ℕ
set_opcode byte val = bit_or byte (val % 16)

abbrev pub set_mask_bit : ℕ → ℕ
set_mask_bit byte = bit_or byte 0x80

-- `byte |= (0x7f & val)`
abbrev pub set_payload_bits : ℕ → ℕ → ℕ
set_payload_bits byte val = bit_or byte (val % 128)

-- `RSV1_BIT(byte) != 0 || RSV2_BIT(byte) != 0 || RSV3_BIT(byte) != 0`
abbrev pub rsv_bits : ℕ → Bool
rsv_bits byte = byte / 64 % 2 == 1 || byte / 32 % 2 == 1 || byte / 16 % 2 == 1

abbrev pub opcode : ℕ → ℕ
opcode byte = byte % 16

abbrev pub mask_bit : ℕ → Bool
mask_bit byte = byte / 128 % 2 == 1

abbrev pub payload_bits : ℕ → ℕ
payload_bits byte = byte % 128

-- A sum as `unsigned long`, returned as `long`: `none` if it is not positive.
abbrev positive_long : ℕ → Option ℕ
positive_long n =
    if n % 2 ^ 64 == 0 then none else if ltb (n % 2 ^ 64) (2 ^ 63) then some (n % 2 ^ 64) else none

-- `none` stands for every result that is not positive, as the callers test it.
unfoldable pub calculate_frame_length : ℕ → Option ℕ
calculate_frame_length len =
    if ltb len 126
    then positive_long (1 + len)
    else if leb len 65535
    then positive_long (2 + len)
    else if ltb len (2 ^ 63)
    then positive_long (9 + len)
    else none

-- `none` is -1; each caller ends the process then, so the buffer does not matter.
unfoldable pub set_payload_len : Skb → ℕ → ℕ → Option Skb
set_payload_len b len byte2 =
    if ltb (wrsz b) 1
    then none
    else if ltb len 126
    then some (put 1 (set_payload_bits byte2 len) b)
    else if leb len 65535
    then (let b' = put 1 (set_payload_bits byte2 126) b in
        if ltb (wrsz b') 2 then none else some (put 2 (bswap 2 len) b'))
    else if ltb len (2 ^ 63)
    then (let b' = put 1 (set_payload_bits byte2 127) b in
        if ltb (wrsz b') 8 then none else some (put 8 (bswap 8 len) b'))
    else none

-- -1 as an `unsigned long`, which the caller's test `0 > wsf.payload_len` cannot see
abbrev pub no_len : ℕ
no_len = 2 ^ 64 - 1

unfoldable pub decode_payload_len : Skb → ℕ → ℕ × Skb
decode_payload_len buf byte2 =
    if ltb (payload_bits byte2) 126
    then (payload_bits byte2, buf)
    else if payload_bits byte2 == 126
    then (if ltb (rdsz buf) 2
        then (no_len, buf)
        else let (k, buf') = get 2 buf in (bswap 2 k, buf'))
    else if ltb (rdsz buf) 8
    then (no_len, buf)
    else let (k, buf') = get 8 buf in (bswap 8 k, buf')
