-- ===== src/Http/Parser/Tests.antt =====
-- A request line.
use wsd.Prelude.{ℕ, ◌≡◌, refl, List, [], ◌∷◌, ◌++◌}
use wsd.Types.{ok}
use wsd.Http.Parser.{parse_request_line}
use wsd.Http.Parser.Laws.{target_text, parse_request_line_lem}
use wsd.Http.Recv.{blank_req}

abbrev get : List ℕ
get = b'G' ∷ b'E' ∷ b'T' ∷ []

abbrev root : List ℕ
root = b'/' ∷ []

abbrev line : List ℕ
line = get ++ (0x20 ∷ target_text root [])

parse_request_line_lem_example : parse_request_line (record { text = line; len = 14 }) blank_req ≡ (
  ok,
  record blank_req {
    method = record { text = line; len = 3 };
    req_target = record { text = target_text root []; len = 1 };
    http_ver = record { text = target_text root []; len = 8 };
  },
)
parse_request_line_lem_example =
    parse_request_line_lem get root [] blank_req (refl, (refl, (refl, tt))) (refl, tt)
