-- ===== src/Url.antt =====
-- src/url.cc: the parts of a url.
pub mod Roundtrip
mod Tests
use latypus.Common.{
  ℕ, ◌+◌, ◌-◌, ◌*◌, Bool, true, false, ◌&&◌, ◌||◌, Option, none, some, List, [], ◌∷◌, ◌++◌, ◌==◌,
  leb, drop, if◌then◌else◌,
}
use latypus.HttpMessage.{same_string}
use latypus.HttpMessage.Decimal.{decimal}

pub record Url : Type 0 where
  pub scheme : List ℕ
  pub host : List ℕ
  pub port : ℕ
  pub path : List ℕ
  pub valid : Bool

abbrev pub is_separator : List ℕ → Bool
is_separator (c ∷ (d ∷ (e ∷ _))) = (c == b':') && (d == b'/') && (e == b'/')
is_separator _ = false

abbrev pub before : ℕ → Option (List ℕ × List ℕ) → Option (List ℕ × List ℕ)
before c none = none
before c (some (a, b)) = some (c ∷ a, b)

-- `find("://")`: what is before it and what is behind it.
unfoldable pub find_separator : List ℕ → Option (List ℕ × List ℕ)
find_separator [] = none
find_separator (c ∷ cs) =
    let rest = find_separator cs in
    if is_separator (c ∷ cs) then some ([], drop 2 cs) else before c rest

-- `find('/')`: what is before it, and the rest from it on.
unfoldable pub find_slash : List ℕ → Option (List ℕ × List ℕ)
find_slash [] = none
find_slash (c ∷ cs) =
    let rest = find_slash cs in if c == b'/' then some ([], c ∷ cs) else before c rest

-- `find_last_of(':')`: what is before it and what is behind it.
unfoldable pub find_last_colon : List ℕ → Option (List ℕ × List ℕ)
find_last_colon [] = none
find_last_colon (c ∷ cs) = elim (find_last_colon cs) [
  | some (a, b) ↦ some (c ∷ a, b)
  | none ↦ if c == b':' then some ([], cs) else none
]

abbrev pub is_digit : ℕ → Bool
is_digit c = leb b'0' c && leb c b'9'

-- `atoi` on a text that starts with neither a space nor a sign.
unfoldable pub atoi : ℕ → List ℕ → ℕ
atoi n [] = n
atoi n (c ∷ cs) = let more = atoi (10 * n + (c - b'0')) cs in if is_digit c then more else n

abbrev pub http_text : List ℕ
http_text = b'h' ∷ b't' ∷ b't' ∷ b'p' ∷ []

abbrev pub https_text : List ℕ
https_text = b'h' ∷ b't' ∷ b't' ∷ b'p' ∷ b's' ∷ []

unfoldable pub default_port : List ℕ → ℕ
default_port scheme =
    if same_string scheme http_text then 80 else if same_string scheme https_text then 443 else 0

abbrev empty_url : Url
empty_url = record { scheme = []; host = []; port = 0; path = []; valid = false }

unfoldable pub split_host : List ℕ → List ℕ → List ℕ → Url
split_host scheme host_port path = elim (find_last_colon host_port) [
  | none ↦ record {
    scheme = scheme;
    host = host_port;
    port = default_port scheme;
    path = path;
    valid = true;
  }
  | some (host, port) ↦ record {
    scheme = scheme;
    host = host;
    port = atoi 0 port;
    path = path;
    valid = true;
  }
]

-- `url::url`
unfoldable pub parse_url : List ℕ → Url
parse_url url_string = elim (find_separator url_string) [
  | none ↦ empty_url
  | some (scheme, host_port_path) ↦ elim (find_slash host_port_path) [
    | none ↦ record empty_url { scheme = scheme }
    | some (host_port, path) ↦ split_host scheme host_port path
  ]
]

abbrev pub is_default : Url → Bool
is_default u =
    (same_string u.scheme http_text && (u.port == 80))
    || (same_string u.scheme https_text && (u.port == 443))

abbrev pub port_text : Url → List ℕ
port_text u = if is_default u then [] else b':' ∷ decimal u.port

unfoldable pub to_string : Url → List ℕ
to_string u =
    if u.valid then u.scheme ++ (b':' ∷ b'/' ∷ b'/' ∷ ((u.host ++ port_text u) ++ u.path)) else []
