-- ===== src/Pp2.antt =====
-- Proxy protocol 2 towards the backend, src/pp2.c: the header codec and pp2_encode_frame.
pub mod Header
pub mod Decode
pub mod Encode
mod Tests
use wsd.Prelude.{
  ℕ, zero, suc, ◌+◌, ◌-◌, ◌/◌, ◌%◌, ◌^◌, ◌≡◌, Bool, true, false, ◌&&◌, ◌||◌, not, ltb, leb, ◌==◌,
  if◌then◌else◌, List, [], ◌∷◌, ◌++◌, Option, none, some,
}
use wsd.Prelude.Words.{add32, bswap, le_bytes, of_le}
use wsd.Memory.{window}
use wsd.Skb.{Skb, rdsz, wrsz, write, put, rd_forward, compact, move}
use wsd.Types.{Errno, eagain, Rv, ok, fail, SockAddr, Frame, Sk, Pair, Outcome}
use wsd.Sock.{with_sendbuf, with_recvbuf}

abbrev pub pp2_sig : List ℕ
pp2_sig = 0x0d ∷ 0x0a ∷ 0x0d ∷ 0x0a ∷ 0x00 ∷ 0x0d ∷ 0x0a ∷ 0x51 ∷ 0x55 ∷ 0x49 ∷ 0x54 ∷ 0x0a ∷ []

abbrev pub pp2_sig_ver_cmd_fam : List ℕ
pp2_sig_ver_cmd_fam = pp2_sig ++ (0x21 ∷ 0x11 ∷ [])

abbrev pub pp2_type_connhash : ℕ
pp2_type_connhash = 0xE0

abbrev pub pp2_type_payloadlen : ℕ
pp2_type_payloadlen = 0xE1

-- PP2_ADDR_TLVS_LEN and PP2_HEADER_LEN
abbrev pub pp2_addr_tlvs_len : ℕ
pp2_addr_tlvs_len = 30

abbrev pub pp2_header_len : ℕ
pp2_header_len = 46

-- A `struct pp2_tlv` stored at the write position, with its value.
unfoldable pub put_connhash : Skb → ℕ → Skb
put_connhash dst hash = write dst (pp2_type_connhash ∷ 0 ∷ 8 ∷ le_bytes 8 hash)

unfoldable pub put_payloadlen : Skb → ℕ → Skb
put_payloadlen dst len = write dst (pp2_type_payloadlen ∷ 0 ∷ 4 ∷ le_bytes 4 len)

-- `memcmp(a, b, n) == 0` for two runs of bytes
unfoldable pub same_bytes : List ℕ → List ℕ → Bool
same_bytes [] [] = true
same_bytes (x ∷ xs) (y ∷ ys) = x == y && same_bytes xs ys
same_bytes _ _ = false

-- The value and the buffer behind the TLV; `none` is -1, with the buffer as it was.
unfoldable pub get_connhash : Skb → Option (ℕ × Skb)
get_connhash src =
    if not (same_bytes (window src.bytes src.rdpos 3) (pp2_type_connhash ∷ 0 ∷ 8 ∷ []))
    then none
    else some (of_le (window src.bytes (src.rdpos + 3) 8), rd_forward src 11)

unfoldable pub get_payloadlen : Skb → Option (ℕ × Skb)
get_payloadlen src =
    if not (same_bytes (window src.bytes src.rdpos 3) (pp2_type_payloadlen ∷ 0 ∷ 4 ∷ []))
    then none
    else some (of_le (window src.bytes (src.rdpos + 3) 4), rd_forward src 7)

-- PP2_VER_BITS, PP2_CMD_BITS of the 13th byte and PP2_FAM_BITS, PP2_PROTO_BITS of the 14th
abbrev pub ver_cmd_fam_ok : ℕ → ℕ → Bool
ver_cmd_fam_ok ver_cmd fam =
    ver_cmd / 16 % 16 == 0x2 && ver_cmd % 16 == 0x1 && fam / 16 % 16 == 0x1 && fam % 16 == 0x1

-- The connection hash is read as a `long` and the length as an `int`: a negative value is an error.
unfoldable pub tlvs : Skb → Option (ℕ × ℕ × Skb)
tlvs b = elim (get_connhash b) [
  | none ↦ none
  | some (hash, b1) ↦ if leb (2 ^ 63) hash then none else elim (get_payloadlen b1) [
    | none ↦ none
    | some (len, b2) ↦ if leb (2 ^ 31) len then none else some (hash, len, b2)
  ]
]

-- pp2_decode_frame from the signature to the payload length; `none` is its `goto error`.
unfoldable pub decode_header : Skb → Option (ℕ × ℕ × Skb)
decode_header b =
    if not (same_bytes (window b.bytes b.rdpos 12) pp2_sig)
    then none
    else if not (ver_cmd_fam_ok (b.bytes (b.rdpos + 12)) (b.bytes (b.rdpos + 13)))
    then none
    else tlvs (rd_forward (rd_forward b 16) 12)

unfoldable pub encode_header : Skb → SockAddr → SockAddr → ℕ → ℕ → Skb
encode_header buf src dst hash payload_len =
    let b = write buf pp2_sig_ver_cmd_fam in
    let b = put 2 (bswap 2 pp2_addr_tlvs_len) b in
    let b = put 4 src.sin_addr b in
    let b = put 4 dst.sin_addr b in
    let b = put 2 src.sin_port b in
    let b = put 2 dst.sin_port b in
    let b = put_connhash b hash in put_payloadlen b (payload_len % 2 ^ 32)

-- The frame's payload, at the read position of the client's buffer, goes to the backend's.
unfoldable pub encode_frame : Frame → Pair → Rv × Pair
encode_frame wsf p =
    if ltb (wrsz p.pp2sk.sendbuf) ((wsf.payload_len + pp2_header_len) % 2 ^ 64)
    then (fail eagain, p)
    else (let sk = p.client in
        let headed =
          encode_header p.pp2sk.sendbuf sk.src_addr sk.dst_addr sk.hash wsf.payload_len in
        let (dst, src) = move (λ _ c. c) 0 (wsf.payload_len % 2 ^ 32) headed sk.recvbuf in
        (ok, record { client = with_recvbuf sk (compact src); pp2sk = with_sendbuf p.pp2sk dst }))
