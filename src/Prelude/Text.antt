-- ===== src/Prelude/Text.antt =====
-- String literals as the bytes that the compiler puts in memory, without the NUL at their end.
use Prim.Native.Char.{code}
use Prim.Native.String.{String}
use wsd.Prelude.{ℕ, List, [], ◌∷◌}

abbrev pub literal : String → List ℕ
literal String.[] = []
literal (String.◌∷◌ c s) = code c ∷ literal s

abbrev pub crlf : List ℕ
crlf = 0x0d ∷ 0x0a ∷ []
