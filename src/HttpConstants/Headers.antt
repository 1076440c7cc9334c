-- ===== src/HttpConstants/Headers.antt =====
-- src/http_constants.cc and src/http_constants.h: the header fields and their types.
use latypus.Common.{ℕ, List, [], ◌∷◌}

pub data HeaderType : Type 0 where
  no_type request response general entity : HeaderType

-- `kHTTPHeaderTable`, up to its last entry
unfoldable pub header_table : List (List ℕ × HeaderType)
header_table =
    ((b'H' ∷ b'o' ∷ b's' ∷ b't' ∷ []), request)
    ∷ ((b'U' ∷ b's' ∷ b'e' ∷ b'r' ∷ b'-' ∷ b'A' ∷ b'g' ∷ b'e' ∷ b'n' ∷ b't' ∷ []), request)
    ∷ ((b'A' ∷ b'c' ∷ b'c' ∷ b'e' ∷ b'p' ∷ b't' ∷ []), request)
    ∷ (
      (b'A' ∷ b'c' ∷ b'c' ∷ b'e' ∷ b'p' ∷ b't' ∷ b'-' ∷ b'L' ∷ b'a' ∷ b'n' ∷ b'g' ∷ b'u' ∷ b'a'
          ∷ b'g' ∷ b'e' ∷ []),
      request,
    )
    ∷ (
      (b'A' ∷ b'c' ∷ b'c' ∷ b'e' ∷ b'p' ∷ b't' ∷ b'-' ∷ b'E' ∷ b'n' ∷ b'c' ∷ b'o' ∷ b'd' ∷ b'i'
          ∷ b'n' ∷ b'g' ∷ []),
      request,
    )
    ∷ (
      (b'A' ∷ b'c' ∷ b'c' ∷ b'e' ∷ b'p' ∷ b't' ∷ b'-' ∷ b'C' ∷ b'h' ∷ b'a' ∷ b'r' ∷ b's' ∷ b'e'
          ∷ b't' ∷ []),
      request,
    )
    ∷ (
      (b'A' ∷ b'u' ∷ b't' ∷ b'h' ∷ b'o' ∷ b'r' ∷ b'i' ∷ b'z' ∷ b'a' ∷ b't' ∷ b'i' ∷ b'o' ∷ b'n'
          ∷ []),
      request,
    )
    ∷ ((b'C' ∷ b'o' ∷ b'o' ∷ b'k' ∷ b'i' ∷ b'e' ∷ []), request)
    ∷ ((b'E' ∷ b'x' ∷ b'p' ∷ b'e' ∷ b'c' ∷ b't' ∷ []), request)
    ∷ ((b'F' ∷ b'r' ∷ b'o' ∷ b'm' ∷ []), request)
    ∷ ((b'I' ∷ b'f' ∷ b'-' ∷ b'M' ∷ b'a' ∷ b't' ∷ b'c' ∷ b'h' ∷ []), request)
    ∷ (
      (b'I' ∷ b'f' ∷ b'-' ∷ b'M' ∷ b'o' ∷ b'd' ∷ b'i' ∷ b'f' ∷ b'i' ∷ b'e' ∷ b'd' ∷ b'-' ∷ b'S'
          ∷ b'i' ∷ b'n' ∷ b'c' ∷ b'e' ∷ []),
      request,
    )
    ∷ (
      (b'I' ∷ b'f' ∷ b'-' ∷ b'N' ∷ b'o' ∷ b'n' ∷ b'e' ∷ b'-' ∷ b'M' ∷ b'a' ∷ b't' ∷ b'c' ∷ b'h'
          ∷ []),
      request,
    )
    ∷ ((b'I' ∷ b'f' ∷ b'-' ∷ b'R' ∷ b'a' ∷ b'n' ∷ b'g' ∷ b'e' ∷ []), request)
    ∷ (
      (b'I' ∷ b'f' ∷ b'-' ∷ b'U' ∷ b'n' ∷ b'm' ∷ b'o' ∷ b'd' ∷ b'i' ∷ b'f' ∷ b'i' ∷ b'e' ∷ b'd'
          ∷ b'-' ∷ b'S' ∷ b'i' ∷ b'n' ∷ b'c' ∷ b'e' ∷ []),
      request,
    )
    ∷ (
      (b'M' ∷ b'a' ∷ b'x' ∷ b'-' ∷ b'F' ∷ b'o' ∷ b'r' ∷ b'w' ∷ b'a' ∷ b'r' ∷ b'd' ∷ b's' ∷ []),
      request,
    )
    ∷ (
      (b'P' ∷ b'r' ∷ b'o' ∷ b'x' ∷ b'y' ∷ b'-' ∷ b'A' ∷ b'u' ∷ b't' ∷ b'h' ∷ b'o' ∷ b'r' ∷ b'i'
          ∷ b'z' ∷ b'a' ∷ b't' ∷ b'i' ∷ b'o' ∷ b'n' ∷ []),
      request,
    )
    ∷ ((b'R' ∷ b'a' ∷ b'n' ∷ b'g' ∷ b'e' ∷ []), request)
    ∷ ((b'R' ∷ b'e' ∷ b'f' ∷ b'e' ∷ b'r' ∷ b'e' ∷ b'r' ∷ []), request)
    ∷ ((b'T' ∷ b'E' ∷ []), request)
    ∷ ((b'D' ∷ b'e' ∷ b'p' ∷ b't' ∷ b'h' ∷ []), request)
    ∷ ((b'D' ∷ b'e' ∷ b's' ∷ b't' ∷ b'i' ∷ b'n' ∷ b'a' ∷ b't' ∷ b'i' ∷ b'o' ∷ b'n' ∷ []), request)
    ∷ ((b'I' ∷ b'f' ∷ []), request)
    ∷ ((b'L' ∷ b'o' ∷ b'c' ∷ b'k' ∷ b'-' ∷ b'T' ∷ b'o' ∷ b'k' ∷ b'e' ∷ b'n' ∷ []), request)
    ∷ ((b'O' ∷ b'v' ∷ b'e' ∷ b'r' ∷ b'w' ∷ b'r' ∷ b'i' ∷ b't' ∷ b'e' ∷ []), request)
    ∷ ((b'T' ∷ b'i' ∷ b'm' ∷ b'e' ∷ b'o' ∷ b'u' ∷ b't' ∷ []), request)
    ∷ ((b'S' ∷ b'e' ∷ b'r' ∷ b'v' ∷ b'e' ∷ b'r' ∷ []), response)
    ∷ ((b'S' ∷ b'e' ∷ b't' ∷ b'C' ∷ b'o' ∷ b'o' ∷ b'k' ∷ b'i' ∷ b'e' ∷ []), response)
    ∷ (
      (b'A' ∷ b'c' ∷ b'c' ∷ b'e' ∷ b'p' ∷ b't' ∷ b'-' ∷ b'R' ∷ b'a' ∷ b'n' ∷ b'g' ∷ b'e' ∷ b's'
          ∷ []),
      response,
    )
    ∷ (
      (b'W' ∷ b'W' ∷ b'W' ∷ b'-' ∷ b'A' ∷ b'u' ∷ b't' ∷ b'h' ∷ b'e' ∷ b'n' ∷ b't' ∷ b'i' ∷ b'c'
          ∷ b'a' ∷ b't' ∷ b'e' ∷ []),
      response,
    )
    ∷ ((b'A' ∷ b'g' ∷ b'e' ∷ []), response)
    ∷ ((b'E' ∷ b'T' ∷ b'a' ∷ b'g' ∷ []), response)
    ∷ ((b'L' ∷ b'o' ∷ b'c' ∷ b'a' ∷ b't' ∷ b'i' ∷ b'o' ∷ b'n' ∷ []), response)
    ∷ (
      (b'P' ∷ b'r' ∷ b'o' ∷ b'x' ∷ b'y' ∷ b'-' ∷ b'A' ∷ b'u' ∷ b't' ∷ b'h' ∷ b'e' ∷ b'n' ∷ b't'
          ∷ b'i' ∷ b'c' ∷ b'a' ∷ b't' ∷ b'e' ∷ []),
      response,
    )
    ∷ ((b'R' ∷ b'e' ∷ b't' ∷ b'r' ∷ b'y' ∷ b'-' ∷ b'A' ∷ b'f' ∷ b't' ∷ b'e' ∷ b'r' ∷ []), response)
    ∷ ((b'T' ∷ b'r' ∷ b'a' ∷ b'i' ∷ b'l' ∷ b'e' ∷ b'r' ∷ b's' ∷ []), response)
    ∷ ((b'C' ∷ b'o' ∷ b'n' ∷ b'n' ∷ b'e' ∷ b'c' ∷ b't' ∷ b'i' ∷ b'o' ∷ b'n' ∷ []), general)
    ∷ (
      (b'C' ∷ b'a' ∷ b'c' ∷ b'h' ∷ b'e' ∷ b'-' ∷ b'C' ∷ b'o' ∷ b'n' ∷ b't' ∷ b'r' ∷ b'o' ∷ b'l'
          ∷ []),
      general,
    )
    ∷ ((b'D' ∷ b'a' ∷ b't' ∷ b'e' ∷ []), general)
    ∷ (
      (b'T' ∷ b'r' ∷ b'a' ∷ b'n' ∷ b's' ∷ b'f' ∷ b'e' ∷ b'r' ∷ b'-' ∷ b'E' ∷ b'n' ∷ b'c' ∷ b'o'
          ∷ b'd' ∷ b'i' ∷ b'n' ∷ b'g' ∷ []),
      general,
    )
    ∷ ((b'U' ∷ b'p' ∷ b'g' ∷ b'r' ∷ b'a' ∷ b'd' ∷ b'e' ∷ []), general)
    ∷ ((b'V' ∷ b'a' ∷ b'r' ∷ b'y' ∷ []), general)
    ∷ ((b'V' ∷ b'i' ∷ b'a' ∷ []), general)
    ∷ ((b'W' ∷ b'a' ∷ b'r' ∷ b'n' ∷ b'i' ∷ b'n' ∷ b'g' ∷ []), general)
    ∷ ((b'D' ∷ b'A' ∷ b'V' ∷ []), general)
    ∷ ((b'A' ∷ b'l' ∷ b'l' ∷ b'o' ∷ b'w' ∷ []), entity)
    ∷ (
      (b'C' ∷ b'o' ∷ b'n' ∷ b't' ∷ b'e' ∷ b'n' ∷ b't' ∷ b'-' ∷ b'E' ∷ b'n' ∷ b'c' ∷ b'o' ∷ b'd'
          ∷ b'i' ∷ b'n' ∷ b'g' ∷ []),
      entity,
    )
    ∷ (
      (b'C' ∷ b'o' ∷ b'n' ∷ b't' ∷ b'e' ∷ b'n' ∷ b't' ∷ b'-' ∷ b'L' ∷ b'a' ∷ b'n' ∷ b'g' ∷ b'u'
          ∷ b'a' ∷ b'g' ∷ b'e' ∷ []),
      entity,
    )
    ∷ (
      (b'C' ∷ b'o' ∷ b'n' ∷ b't' ∷ b'e' ∷ b'n' ∷ b't' ∷ b'-' ∷ b'L' ∷ b'e' ∷ b'n' ∷ b'g' ∷ b't'
          ∷ b'h' ∷ []),
      entity,
    )
    ∷ (
      (b'C' ∷ b'o' ∷ b'n' ∷ b't' ∷ b'e' ∷ b'n' ∷ b't' ∷ b'-' ∷ b'L' ∷ b'o' ∷ b'c' ∷ b'a' ∷ b't'
          ∷ b'i' ∷ b'o' ∷ b'n' ∷ []),
      entity,
    )
    ∷ ((b'C' ∷ b'o' ∷ b'n' ∷ b't' ∷ b'e' ∷ b'n' ∷ b't' ∷ b'-' ∷ b'M' ∷ b'D' ∷ b'5' ∷ []), entity)
    ∷ (
      (b'C' ∷ b'o' ∷ b'n' ∷ b't' ∷ b'e' ∷ b'n' ∷ b't' ∷ b'-' ∷ b'R' ∷ b'a' ∷ b'n' ∷ b'g' ∷ b'e'
          ∷ []),
      entity,
    )
    ∷ (
      (b'C' ∷ b'o' ∷ b'n' ∷ b't' ∷ b'e' ∷ b'n' ∷ b't' ∷ b'-' ∷ b'T' ∷ b'y' ∷ b'p' ∷ b'e' ∷ []),
      entity,
    )
    ∷ ((b'E' ∷ b'x' ∷ b'p' ∷ b'i' ∷ b'r' ∷ b'e' ∷ b's' ∷ []), entity)
    ∷ (
      (b'L' ∷ b'a' ∷ b's' ∷ b't' ∷ b'-' ∷ b'M' ∷ b'o' ∷ b'd' ∷ b'i' ∷ b'f' ∷ b'i' ∷ b'e' ∷ b'd'
          ∷ []),
      entity,
    )
    ∷ ((b'P' ∷ b'r' ∷ b'a' ∷ b'g' ∷ b'm' ∷ b'a' ∷ []), entity)
    ∷ []
