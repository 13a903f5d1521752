-- ===== src/Pp2/Decode.antt =====
-- pp2_decode_frame's header part reads back what pp2_encode_header writes.
use wsd.Prelude.{
  ℕ, ◌+◌, ◌^◌, ◌≤◌, ◌<◌, ◌≡◌, ap, ◌∙◌, leb, if◌then◌else◌, List, [], ◌∷◌, ◌++◌, Option, none, some,
  arith,
}
use wsd.Skb.{Skb, capacity, rd_forward}
use wsd.Skb.Contents.{
  IsValid, contents, window_front, byte_behind, contents-front, front-IsValid, front-le,
  length-contents,
}
use wsd.Skb.Moves.{rd_forward-rd_forward}
use wsd.Types.{SockAddr}
use wsd.Pp2.{pp2_sig, same_bytes, tlvs, decode_header}
use wsd.Pp2.Header.{
  addr_bytes, connhash_bytes, payloadlen_bytes, header, get_connhash_lem, get_payloadlen_lem,
}

-- What the checks on the two TLVs let through.
abbrev pub checked : ℕ → ℕ → Skb → Option (ℕ × ℕ × Skb)
checked hash len b =
    if leb (2 ^ 63) hash then none else if leb (2 ^ 31) len then none else some (hash, len, b)

tlvs_lem :
    {b : Skb} (hash len : ℕ) (rest : List ℕ)
    → IsValid b
    → hash < 2 ^ 64
    → len < 2 ^ 32
    → contents b ≡ connhash_bytes hash ++ (payloadlen_bytes len ++ rest)
    → tlvs b ≡ checked hash len (rd_forward (rd_forward b 11) 7)
unfolding tlvs
tlvs_lem {b} hash len rest v h l e =
    let v3 : IsValid (rd_forward b 11) =
      front-IsValid v (connhash_bytes hash) (payloadlen_bytes len ++ rest) e in
    let e3 : contents (rd_forward b 11) ≡ payloadlen_bytes len ++ rest =
      contents-front v (connhash_bytes hash) (payloadlen_bytes len ++ rest) e in
    ground (
      arith,
      get_connhash_lem v (payloadlen_bytes len ++ rest) hash h e,
      get_payloadlen_lem v3 rest len l e3,
    )

-- On a valid buffer that begins with the bytes of a header, with a hash of 64 bits and a length of
-- 32, the decoder returns its hash and payload length and the buffer behind
-- it, but refuses a hash with the top bit set and a length with the top bit set.
pub decode_header_lem :
    {b : Skb} (src dst : SockAddr) (hash len : ℕ) (rest : List ℕ)
    → IsValid b
    → hash < 2 ^ 64
    → len < 2 ^ 32
    → contents b ≡ header src dst hash len ++ rest
    → decode_header b ≡ checked hash len (rd_forward b 46)
unfolding decode_header same_bytes header
decode_header_lem {b} src dst hash len rest v h l e =
    let fixed = pp2_sig ++ (0x21 ∷ 0x11 ∷ 0 ∷ 30 ∷ []) in
    let tail = connhash_bytes hash ++ (payloadlen_bytes len ++ rest) in
    let v1 = front-IsValid v fixed (addr_bytes src dst ++ tail) e in
    let e1 = contents-front v fixed (addr_bytes src dst ++ tail) e in
    let v2 = front-IsValid v1 (addr_bytes src dst) tail e1 in
    let e2 = contents-front v1 (addr_bytes src dst) tail e1 in
    let all = front-le v (header src dst hash len) rest e in
    let bound : b.rdpos + 46 ≤ capacity = omega (arith, all, length-contents b, v.fits) in
    let joined : rd_forward (rd_forward (rd_forward (rd_forward b 16) 12) 11) 7 ≡ rd_forward b 46 =
      ap (λ c. rd_forward (rd_forward c 11) 7)
        (rd_forward-rd_forward b 16 12 (omega (arith, bound)))
      ∙ ap (λ c. rd_forward c 7) (rd_forward-rd_forward b 28 11 (omega (arith, bound)))
      ∙ rd_forward-rd_forward b 39 7 (omega (arith, bound)) in
    rw
      (
        window_front v pp2_sig (0x21 ∷ 0x11 ∷ 0 ∷ 30 ∷ (addr_bytes src dst ++ tail)) e,
        byte_behind pp2_sig 0x21 (0x11 ∷ 0 ∷ 30 ∷ (addr_bytes src dst ++ tail)) v e,
        byte_behind (pp2_sig ++ (0x21 ∷ [])) 0x11 (0 ∷ 30 ∷ (addr_bytes src dst ++ tail)) v e,
      )
      (tlvs_lem hash len rest v2 h l e2 ∙ ap (checked hash len) joined)
