-- ===== src/Url/Tests.antt =====
-- `http://h:81/a` and back.
use latypus.Common.{◌≡◌, refl, [], ◌∷◌, arith}
use latypus.Url.{http_text, parse_url, to_string}
use latypus.Url.Roundtrip.{url_of, parse_url-to_string}

parse_url-to_string_example :
    parse_url (to_string (url_of http_text (b'h' ∷ []) 81 (b'a' ∷ [])))
    ≡ url_of http_text (b'h' ∷ []) 81 (b'a' ∷ [])
parse_url-to_string_example =
    parse_url-to_string http_text (b'h' ∷ []) 81 (b'a' ∷ []) (refl, (refl, (refl, (refl, tt))))
      (refl, tt) (refl, tt) (omega arith)
