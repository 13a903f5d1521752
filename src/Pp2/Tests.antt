-- ===== src/Pp2/Tests.antt =====
-- The proxy codec on a concrete header and concrete buffers.
use wsd.Prelude.{ℕ, ◌≡◌, List, [], ◌∷◌, ◌++◌, length-append, some, arith}
use wsd.Skb.{rd_forward}
use wsd.Skb.Contents.{IsValid}
use wsd.Types.{SockAddr, Frame, Pair}
use wsd.Pp2.{decode_header}
use wsd.Pp2.Header.{header, length-header}
use wsd.Pp2.Decode.{decode_header_lem}
use wsd.Fixtures.{loaded, contents-loaded, loaded-IsValid, nearly_full, socket}

abbrev local : SockAddr
local = record { sin_addr = 0x0100007f; sin_port = 0x5000 }

abbrev sample : List ℕ
sample = header local local 5 2 ++ (b'h' ∷ b'i' ∷ [])

sample-IsValid : IsValid (loaded sample)
sample-IsValid = loaded-IsValid sample (
    omega (
      arith,
      length-append (header local local 5 2) (b'h' ∷ b'i' ∷ []),
      length-header local local 5 2,
    ))

decode_header_lem_example :
    decode_header (loaded sample) ≡ some (5, 2, rd_forward (loaded sample) 46)
decode_header_lem_example =
    decode_header_lem local local 5 2 (b'h' ∷ b'i' ∷ []) sample-IsValid (omega arith) (omega arith)
      (contents-loaded sample)

abbrev hi : List ℕ
hi = b'h' ∷ b'i' ∷ []

abbrev text_frame : Frame
text_frame = record { byte1 = 0x81; byte2 = 0x82; payload_len = 2; masking_key = 0 }

abbrev full_pair : Pair
full_pair = record {
  client = socket 5 (loaded []) (loaded hi);
  pp2sk = socket 0 (nearly_full 47) (loaded []);
}
