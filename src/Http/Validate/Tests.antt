-- ===== src/Http/Validate/Tests.antt =====
-- Trimming, a method that is not GET, and the rounds of a loop.
use wsd.Prelude.{◌≡◌, Bool, some, [], ◌∷◌, arith}
use wsd.Types.{Chunk}
use wsd.Http.Word
use wsd.Http.Parser.{Req}
use wsd.Http.Validate.{any_value}
use wsd.Http.Validate.Laws.{any_value-rounds}
use wsd.Http.Recv.{blank_req}

abbrev post : Req
post = record blank_req {
  method = record { text = b'P' ∷ b'O' ∷ b'S' ∷ b'T' ∷ []; len = 4 };
  req_target = record { text = b'/' ∷ []; len = 1 };
}

abbrev values : Chunk
values = record { text = b'a' ∷ b',' ∷ b'b' ∷ []; len = 3 }

any_value-rounds_example : (b : Bool) × (any_value Word.upgrade 4 values ≡ some b)
any_value-rounds_example = any_value-rounds Word.upgrade 4 values (omega arith)
