-- ===== src/Config/Mime.antt =====
-- src/config.cc: the type of a file by its extension.
use latypus.Common.{
  ℕ, suc, ◌+◌, ◌≡◌, refl, ap, ◌∙◌, Option, none, some, List, [], ◌∷◌, ◌==◌, ltb, if◌then◌else◌,
  drop,
}
use latypus.Common.Maps.{find}
use latypus.HttpMessage.{same_string}
use latypus.Config.{Config}
use latypus.Config.Vhosts.{default_text}

-- `find_last_of`, where `npos` is `none`.
unfoldable pub find_last_of : ℕ → List ℕ → Option ℕ
find_last_of c [] = none
find_last_of c (x ∷ xs) = elim (find_last_of c xs) [
  | some i ↦ some (suc i)
  | none ↦ if x == c then some 0 else none
]

abbrev octet_stream : List ℕ
octet_stream =
    b'a' ∷ b'p' ∷ b'p' ∷ b'l' ∷ b'i' ∷ b'c' ∷ b'a' ∷ b't' ∷ b'i' ∷ b'o' ∷ b'n' ∷ b'/' ∷ b'o' ∷ b'c'
    ∷ b't' ∷ b'e' ∷ b't' ∷ b'-' ∷ b's' ∷ b't' ∷ b'r' ∷ b'e' ∷ b'a' ∷ b'm' ∷ []

-- `last_dot > last_slash && last_dot != npos`; `npos` is above every position.
unfoldable pub has_extension : Option ℕ → Option ℕ → Option ℕ
has_extension none last_slash = none
has_extension (some last_dot) none = none
has_extension (some last_dot) (some last_slash) =
    if ltb last_slash last_dot then some last_dot else none

abbrev or_type : Option (List ℕ) → List ℕ → List ℕ
or_type none type = type
or_type (some t) type = t

-- The extension, and the type.
abbrev typed : Config → List ℕ → Option ℕ → List ℕ × List ℕ
typed c path none = ([], or_type (find same_string c.mime_types default_text) octet_stream)
typed c path (some last_dot) = (
  drop (last_dot + 1) path,
  or_type (find same_string c.mime_types (drop (last_dot + 1) path))
      (or_type (find same_string c.mime_types default_text) octet_stream),
)

unfoldable pub lookup_mime_type : Config → List ℕ → List ℕ × List ℕ
unfolding find_last_of has_extension
lookup_mime_type c path =
    typed c path (has_extension (find_last_of b'.' path) (find_last_of b'/' path))

no_slash : (last_dot : Option ℕ) → has_extension last_dot none ≡ none
unfolding has_extension
no_slash none = refl
no_slash (some last_dot) = refl

-- A path without a slash has no extension, whatever dots are in it.
pub lookup_mime_type_plain :
    (c : Config) (path : List ℕ)
    → find_last_of b'/' path ≡ none
    → lookup_mime_type c path
      ≡ ([], or_type (find same_string c.mime_types default_text) octet_stream)
unfolding lookup_mime_type
lookup_mime_type_plain c path h =
    let last_dot = find_last_of b'.' path in
    ap (typed c path) (ap (has_extension last_dot) h ∙ no_slash last_dot)
