-- ===== src/Pp2/Header.antt =====
-- The 46 bytes of a proxy header as the encoder writes them, and their decoding.
use wsd.Prelude.{
  ℕ, ◌+◌, ◌%◌, ◌^◌, ◌≤◌, ◌<◌, ◌≡◌, refl, ap, List, [], ◌∷◌, ◌++◌, some, length, arith,
}
use wsd.Prelude.Words.{le_bytes, of_le-le_bytes}
use wsd.Skb.{Skb, capacity, write, put, rd_forward}
use wsd.Skb.Contents.{IsValid, contents, window_front, window_behind}
use wsd.Skb.Moves.{write-write}
use wsd.Types.{SockAddr}
use wsd.Pp2.{
  pp2_sig, pp2_sig_ver_cmd_fam, pp2_type_connhash, pp2_type_payloadlen, put_connhash,
  put_payloadlen, same_bytes, get_connhash, get_payloadlen, encode_header,
}

abbrev pub addr_bytes : SockAddr → SockAddr → List ℕ
addr_bytes src dst =
    le_bytes 4 src.sin_addr
    ++ (le_bytes 4 dst.sin_addr ++ (le_bytes 2 src.sin_port ++ le_bytes 2 dst.sin_port))

abbrev pub connhash_bytes : ℕ → List ℕ
connhash_bytes hash = pp2_type_connhash ∷ 0 ∷ 8 ∷ le_bytes 8 hash

abbrev pub payloadlen_bytes : ℕ → List ℕ
payloadlen_bytes len = pp2_type_payloadlen ∷ 0 ∷ 4 ∷ le_bytes 4 len

-- The header as the proxy protocol has it: signature, version, family, length, the addresses and
-- the two TLVs of this program.
unfoldable pub header : SockAddr → SockAddr → ℕ → ℕ → List ℕ
header src dst hash len =
    pp2_sig
    ++ ((0x21 ∷ 0x11 ∷ 0 ∷ 30 ∷ [])
        ++ (addr_bytes src dst ++ (connhash_bytes hash ++ payloadlen_bytes len)))

pub length-header : (src dst : SockAddr) (hash len : ℕ) → length (header src dst hash len) ≡ 46
unfolding header
length-header src dst hash len = refl

module _ (buf : Skb) (fits : buf.wrpos + 46 ≤ capacity) (src dst : SockAddr) (hash len : ℕ) where
  -- With room for 46 bytes the encoder stores exactly the header.
  pub encode_header_lem :
      encode_header buf src dst hash len ≡ write buf (header src dst hash (len % 2 ^ 32))
  unfolding encode_header header put put_connhash put_payloadlen
  encode_header_lem =
      let a1 = pp2_sig_ver_cmd_fam in
      let a2 = a1 ++ (0 ∷ 30 ∷ []) in
      let a3 = a2 ++ le_bytes 4 src.sin_addr in
      let a4 = a3 ++ le_bytes 4 dst.sin_addr in
      let a5 = a4 ++ le_bytes 2 src.sin_port in
      let a6 = a5 ++ le_bytes 2 dst.sin_port in
      let a7 = a6 ++ connhash_bytes hash in
      rw (
        write-write buf a1 (0 ∷ 30 ∷ []) (omega (arith, fits)) refl,
        write-write buf a2 (le_bytes 4 src.sin_addr) (omega (arith, fits)) refl,
        write-write buf a3 (le_bytes 4 dst.sin_addr) (omega (arith, fits)) refl,
        write-write buf a4 (le_bytes 2 src.sin_port) (omega (arith, fits)) refl,
        write-write buf a5 (le_bytes 2 dst.sin_port) (omega (arith, fits)) refl,
        write-write buf a6 (connhash_bytes hash) (omega (arith, fits)) refl,
        write-write buf a7 (payloadlen_bytes (len % 2 ^ 32)) (omega (arith, fits)) refl,
      )

module _ {b : Skb} (v : IsValid b) (rest : List ℕ) where
  pub get_connhash_lem :
      (hash : ℕ)
      → hash < 2 ^ 64
      → contents b ≡ connhash_bytes hash ++ rest
      → get_connhash b ≡ some (hash, rd_forward b 11)
  unfolding get_connhash
  get_connhash_lem hash h e =
      rw
        (
          window_front v (pp2_type_connhash ∷ 0 ∷ 8 ∷ []) (le_bytes 8 hash ++ rest) e,
          window_behind (pp2_type_connhash ∷ 0 ∷ 8 ∷ []) (le_bytes 8 hash) rest v e,
        )
        (unfold same_bytes in ap (λ t. some (t, rd_forward b 11)) (of_le-le_bytes 8 hash h))

  pub get_payloadlen_lem :
      (len : ℕ)
      → len < 2 ^ 32
      → contents b ≡ payloadlen_bytes len ++ rest
      → get_payloadlen b ≡ some (len, rd_forward b 7)
  unfolding get_payloadlen
  get_payloadlen_lem len h e =
      rw
        (
          window_front v (pp2_type_payloadlen ∷ 0 ∷ 4 ∷ []) (le_bytes 4 len ++ rest) e,
          window_behind (pp2_type_payloadlen ∷ 0 ∷ 4 ∷ []) (le_bytes 4 len) rest v e,
        )
        (unfold same_bytes in ap (λ t. some (t, rd_forward b 7)) (of_le-le_bytes 4 len h))
