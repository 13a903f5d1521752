-- ===== src/Ws/Control/Tests.antt =====
-- The closing handshake and the pong on concrete sockets.
use wsd.Prelude.{ℕ, ◌≡◌, ◌≢◌, true, some, List, [], ◌∷◌, ◌++◌, arith}
use wsd.Prelude.Words.{le_bytes, of_be}
use wsd.Mask.{mask}
use wsd.Skb.{Skb}
use wsd.Skb.Contents.{contents}
use wsd.Types.{ok, Sk}
use wsd.Ws.Control.{control_key, encode_close_frame}
use wsd.Ws.Control.Closing.{masked_status_lost}
use wsd.Fixtures.{loaded, loaded-IsValid, nearly_full, socket}

masked_status_lost_example :
    (dst' : Skb) × (x : ℕ) × (y : ℕ) × (encode_close_frame (loaded []) 1000 true ≡ some (ok, dst'))
    × (contents dst'
        ≡ contents (loaded []) ++ (0x88 ∷ 130 ∷ (le_bytes 4 control_key ++ (x ∷ y ∷ []))))
    × (of_be (mask x 0 control_key ∷ mask y 1 control_key ∷ []) ≢ 1000)
masked_status_lost_example =
    masked_status_lost (loaded []) 1000 (loaded-IsValid [] (omega arith)) (omega arith)
      (omega arith) (omega arith)

abbrev idle : Sk
idle = socket 5 (loaded []) (loaded [])

abbrev closing_sk : Sk
closing_sk = record idle { closing = true }

-- The status 1000 of a close frame, and a byte of its reason.
abbrev bye : List ℕ
bye = 3 ∷ 232 ∷ b'x' ∷ []

abbrev asked : Sk
asked = socket 5 (loaded []) (loaded bye)

abbrev crowded : Sk
crowded = socket 5 (nearly_full 1) (loaded [])
