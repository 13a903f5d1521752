-- ===== src/Wscat/State.antt =====
-- What wscat keeps: the globals of src/wscat.c, of the event loop and of its configuration.
use wsd.Prelude.{ℕ, Bool, Option, some, List}
use wsd.Skb.{Skb}
use wsd.Types.{Rv, Sk}

-- `wssk` and `fdin` are `none` where the pointer is null. `repeat_last_num` is an `int`, written as the
-- word of 32 bits that holds it. What has been printed to stdout is `output`.
pub record Cat : Type 0 where
  pub wssk : Option Sk
  pub fdin : Option Sk
  pub done : Bool
  pub is_json : Bool
  pub no_handshake : Bool
  pub repeat_last_num : ℕ
  pub repeat_last_armed : Bool
  pub last_input : Skb
  pub idle_timeout : ℕ
  pub ping_interval : ℕ
  pub output : List ℕ

abbrev pub with_wssk : Cat → Sk → Cat
with_wssk cat sk = record cat { wssk = some sk }

-- `none` is the end of the process: a failed assertion, or a null pointer that is followed.
abbrev pub CatOutcome : Type 0
CatOutcome = Option (Rv × Cat)
