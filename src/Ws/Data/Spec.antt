-- ===== src/Ws/Data/Spec.antt =====
-- Websocket frames as RFC 6455 section 5.2 lays them out.
use wsd.Prelude.{ℕ, ◌≡◌, true, false, List, ◌∷◌, ◌++◌, length}
use wsd.Prelude.Words.{le_bytes}
use wsd.Mask.{mask}
use wsd.Skb.Moves.{map_from, length-map_from}
use wsd.Ws.Header.Laws.{len_bytes}

-- The payload under the masking key.
abbrev pub masked : ℕ → List ℕ → List ℕ
masked key payload = map_from (λ j c. mask c j key) 0 payload

pub length-masked : (key : ℕ) (payload : List ℕ) → length (masked key payload) ≡ length payload
length-masked key payload = length-map_from (λ j c. mask c j key) 0 payload

-- What a client sends: always masked. The first byte holds the FIN bit and the opcode.
abbrev pub client_frame : ℕ → ℕ → List ℕ → List ℕ
client_frame byte1 key payload =
    byte1 ∷ (len_bytes true (length payload) ++ (le_bytes 4 key ++ masked key payload))

-- What a server sends: never masked.
abbrev pub server_frame : ℕ → List ℕ → List ℕ
server_frame byte1 payload = byte1 ∷ (len_bytes false (length payload) ++ payload)
