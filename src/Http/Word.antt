-- ===== src/Http/Word.antt =====
-- The names of the header fields that parse_header_field of src/parser.c looks for, as bytes.
use wsd.Prelude.{ℕ, List, [], ◌∷◌}

abbrev pub host : List ℕ
host = b'H' ∷ b'o' ∷ b's' ∷ b't' ∷ []

abbrev pub upgrade : List ℕ
upgrade = b'U' ∷ b'p' ∷ b'g' ∷ b'r' ∷ b'a' ∷ b'd' ∷ b'e' ∷ []

abbrev pub connection : List ℕ
connection = b'C' ∷ b'o' ∷ b'n' ∷ b'n' ∷ b'e' ∷ b'c' ∷ b't' ∷ b'i' ∷ b'o' ∷ b'n' ∷ []

abbrev pub origin : List ℕ
origin = b'O' ∷ b'r' ∷ b'i' ∷ b'g' ∷ b'i' ∷ b'n' ∷ []

abbrev pub user_agent : List ℕ
user_agent = b'U' ∷ b's' ∷ b'e' ∷ b'r' ∷ b'-' ∷ b'A' ∷ b'g' ∷ b'e' ∷ b'n' ∷ b't' ∷ []

abbrev pub sec_ws : List ℕ → List ℕ
sec_ws what =
    b'S' ∷ b'e' ∷ b'c' ∷ b'-' ∷ b'W' ∷ b'e' ∷ b'b' ∷ b'S' ∷ b'o' ∷ b'c' ∷ b'k' ∷ b'e' ∷ b't' ∷ b'-'
    ∷ what

abbrev pub key : List ℕ
key = sec_ws (b'K' ∷ b'e' ∷ b'y' ∷ [])

abbrev pub version : List ℕ
version = sec_ws (b'V' ∷ b'e' ∷ b'r' ∷ b's' ∷ b'i' ∷ b'o' ∷ b'n' ∷ [])

abbrev pub protocol : List ℕ
protocol = sec_ws (b'P' ∷ b'r' ∷ b'o' ∷ b't' ∷ b'o' ∷ b'c' ∷ b'o' ∷ b'l' ∷ [])

abbrev pub extensions : List ℕ
extensions = sec_ws (b'E' ∷ b'x' ∷ b't' ∷ b'e' ∷ b'n' ∷ b's' ∷ b'i' ∷ b'o' ∷ b'n' ∷ b's' ∷ [])
