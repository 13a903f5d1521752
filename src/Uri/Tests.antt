-- ===== src/Uri/Tests.antt =====
-- parse_uri on concrete texts.
use wsd.Prelude.{◌≡◌, refl, true, false, none, some, [], ◌∷◌}
use wsd.Uri.{Uri, span, parse_path, parse_host, parse_uri, is_empty, starts}
use wsd.Uri.Laws.{IsUri, print_uri, parse_uri-print, parse_uri_sound}

abbrev blank : Uri
blank = record { scheme = []; host = []; port = []; path = [] }

-- ws://h:80/a
abbrev sample : Uri
sample = record {
  scheme = b'w' ∷ b's' ∷ [];
  host = b'h' ∷ [];
  port = b'8' ∷ b'0' ∷ [];
  path = b'/' ∷ b'a' ∷ [];
}

abbrev sample-IsUri : IsUri sample
sample-IsUri = record {
  scheme_ne = refl;
  scheme_ok = (refl, (refl, tt));
  host_ne = refl;
  host_ok = (refl, tt);
  port_ok = (refl, (refl, tt));
  path_ok = record { first = refl; second = refl; passes = (refl, (refl, tt)) };
}

parse_uri-print_example : parse_uri (print_uri sample (some (b'f' ∷ []))) blank ≡ some sample
parse_uri-print_example = parse_uri-print sample blank (some (b'f' ∷ [])) sample-IsUri

parse_uri_sound_example :
    is_empty sample.scheme ≡ false × is_empty sample.host ≡ false × starts b'/' sample.path ≡ true
parse_uri_sound_example =
    parse_uri_sound (print_uri sample none) blank sample
      (parse_uri-print sample blank none sample-IsUri)

-- Two slashes at the start of the path are refused.
two_slashes_refused : parse_uri (b'w' ∷ b':' ∷ b'/' ∷ b'/' ∷ b'h' ∷ b'/' ∷ b'/' ∷ []) blank ≡ none
unfolding parse_uri span parse_host parse_path
two_slashes_refused = refl
