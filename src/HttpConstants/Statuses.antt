-- ===== src/HttpConstants/Statuses.antt =====
-- src/http_constants.cc and src/http_constants.h: the status codes and their texts.
use latypus.Common.{ℕ, List, [], ◌∷◌}

-- `kHTTPStatusTable`, up to its last entry
unfoldable pub status_table : List (ℕ × List ℕ)
status_table =
    (0, (b'N' ∷ b'o' ∷ b' ' ∷ b'S' ∷ b't' ∷ b'a' ∷ b't' ∷ b'u' ∷ b's' ∷ []))
    ∷ (100, (b'C' ∷ b'o' ∷ b'n' ∷ b't' ∷ b'i' ∷ b'n' ∷ b'u' ∷ b'e' ∷ []))
    ∷ (
      101,
      (b'S' ∷ b'w' ∷ b'i' ∷ b't' ∷ b'c' ∷ b'h' ∷ b'i' ∷ b'n' ∷ b'g' ∷ b' ' ∷ b'P' ∷ b'r' ∷ b'o'
          ∷ b't' ∷ b'o' ∷ b'c' ∷ b'o' ∷ b'l' ∷ b's' ∷ []),
    )
    ∷ (200, (b'O' ∷ b'K' ∷ []))
    ∷ (201, (b'C' ∷ b'r' ∷ b'e' ∷ b'a' ∷ b't' ∷ b'e' ∷ b'd' ∷ []))
    ∷ (202, (b'A' ∷ b'c' ∷ b'c' ∷ b'e' ∷ b'p' ∷ b't' ∷ b'e' ∷ b'd' ∷ []))
    ∷ (
      203,
      (b'N' ∷ b'o' ∷ b'n' ∷ b'-' ∷ b'A' ∷ b'u' ∷ b't' ∷ b'h' ∷ b'o' ∷ b'r' ∷ b'i' ∷ b't' ∷ b'a'
          ∷ b't' ∷ b'i' ∷ b'v' ∷ b'e' ∷ b' ' ∷ b'I' ∷ b'n' ∷ b'f' ∷ b'o' ∷ b'r' ∷ b'm' ∷ b'a' ∷ b't'
          ∷ b'i' ∷ b'o' ∷ b'n' ∷ []),
    )
    ∷ (204, (b'N' ∷ b'o' ∷ b' ' ∷ b'C' ∷ b'o' ∷ b'n' ∷ b't' ∷ b'e' ∷ b'n' ∷ b't' ∷ []))
    ∷ (
      205,
      (b'R' ∷ b'e' ∷ b's' ∷ b'e' ∷ b't' ∷ b' ' ∷ b'C' ∷ b'o' ∷ b'n' ∷ b't' ∷ b'e' ∷ b'n' ∷ b't'
          ∷ []),
    )
    ∷ (
      206,
      (b'P' ∷ b'a' ∷ b'r' ∷ b't' ∷ b'i' ∷ b'a' ∷ b'l' ∷ b' ' ∷ b'C' ∷ b'o' ∷ b'n' ∷ b't' ∷ b'e'
          ∷ b'n' ∷ b't' ∷ []),
    )
    ∷ (
      207,
      (b'M' ∷ b'u' ∷ b'l' ∷ b't' ∷ b'i' ∷ b' ' ∷ b'S' ∷ b't' ∷ b'a' ∷ b't' ∷ b'u' ∷ b's' ∷ b' '
          ∷ b'R' ∷ b'e' ∷ b's' ∷ b'p' ∷ b'o' ∷ b'n' ∷ b's' ∷ b'e' ∷ []),
    )
    ∷ (
      300,
      (b'M' ∷ b'u' ∷ b'l' ∷ b't' ∷ b'i' ∷ b'p' ∷ b'l' ∷ b'e' ∷ b' ' ∷ b'C' ∷ b'h' ∷ b'o' ∷ b'i'
          ∷ b'c' ∷ b'e' ∷ b's' ∷ []),
    )
    ∷ (
      301,
      (b'M' ∷ b'o' ∷ b'v' ∷ b'e' ∷ b'd' ∷ b' ' ∷ b'P' ∷ b'e' ∷ b'r' ∷ b'm' ∷ b'a' ∷ b'n' ∷ b'e'
          ∷ b'n' ∷ b't' ∷ b'l' ∷ b'y' ∷ []),
    )
    ∷ (302, (b'F' ∷ b'o' ∷ b'u' ∷ b'n' ∷ b'd' ∷ []))
    ∷ (303, (b'S' ∷ b'e' ∷ b'e' ∷ b' ' ∷ b'O' ∷ b't' ∷ b'h' ∷ b'e' ∷ b'r' ∷ []))
    ∷ (
      304,
      (b'N' ∷ b'o' ∷ b't' ∷ b' ' ∷ b'M' ∷ b'o' ∷ b'd' ∷ b'i' ∷ b'f' ∷ b'i' ∷ b'e' ∷ b'd' ∷ []),
    )
    ∷ (305, (b'U' ∷ b's' ∷ b'e' ∷ b' ' ∷ b'P' ∷ b'r' ∷ b'o' ∷ b'x' ∷ b'y' ∷ []))
    ∷ (
      307,
      (b'T' ∷ b'e' ∷ b'm' ∷ b'p' ∷ b'o' ∷ b'r' ∷ b'a' ∷ b'r' ∷ b'y' ∷ b' ' ∷ b'R' ∷ b'e' ∷ b'd'
          ∷ b'i' ∷ b'r' ∷ b'e' ∷ b'c' ∷ b't' ∷ []),
    )
    ∷ (400, (b'B' ∷ b'a' ∷ b'd' ∷ b' ' ∷ b'R' ∷ b'e' ∷ b'q' ∷ b'u' ∷ b'e' ∷ b's' ∷ b't' ∷ []))
    ∷ (
      401,
      (b'U' ∷ b'n' ∷ b'a' ∷ b'u' ∷ b't' ∷ b'h' ∷ b'o' ∷ b'r' ∷ b'i' ∷ b'z' ∷ b'e' ∷ b'd' ∷ []),
    )
    ∷ (
      402,
      (b'P' ∷ b'a' ∷ b'y' ∷ b'm' ∷ b'e' ∷ b'n' ∷ b't' ∷ b' ' ∷ b'R' ∷ b'e' ∷ b'q' ∷ b'u' ∷ b'i'
          ∷ b'r' ∷ b'e' ∷ b'd' ∷ []),
    )
    ∷ (403, (b'F' ∷ b'o' ∷ b'r' ∷ b'b' ∷ b'i' ∷ b'd' ∷ b'd' ∷ b'e' ∷ b'n' ∷ []))
    ∷ (404, (b'N' ∷ b'o' ∷ b't' ∷ b' ' ∷ b'F' ∷ b'o' ∷ b'u' ∷ b'n' ∷ b'd' ∷ []))
    ∷ (
      405,
      (b'M' ∷ b'e' ∷ b't' ∷ b'h' ∷ b'o' ∷ b'd' ∷ b' ' ∷ b'N' ∷ b'o' ∷ b't' ∷ b' ' ∷ b'A' ∷ b'l'
          ∷ b'l' ∷ b'o' ∷ b'w' ∷ b'e' ∷ b'd' ∷ []),
    )
    ∷ (
      406,
      (b'N' ∷ b'o' ∷ b't' ∷ b' ' ∷ b'A' ∷ b'c' ∷ b'c' ∷ b'e' ∷ b'p' ∷ b't' ∷ b'a' ∷ b'b' ∷ b'l'
          ∷ b'e' ∷ []),
    )
    ∷ (
      407,
      (b'P' ∷ b'r' ∷ b'o' ∷ b'x' ∷ b'y' ∷ b' ' ∷ b'A' ∷ b'u' ∷ b't' ∷ b'h' ∷ b'e' ∷ b'n' ∷ b't'
          ∷ b'i' ∷ b'c' ∷ b'a' ∷ b't' ∷ b'i' ∷ b'o' ∷ b'n' ∷ b' ' ∷ b'R' ∷ b'e' ∷ b'q' ∷ b'u' ∷ b'i'
          ∷ b'r' ∷ b'e' ∷ b'd' ∷ []),
    )
    ∷ (
      408,
      (b'R' ∷ b'e' ∷ b'q' ∷ b'u' ∷ b'e' ∷ b's' ∷ b't' ∷ b' ' ∷ b'T' ∷ b'i' ∷ b'm' ∷ b'e' ∷ b'-'
          ∷ b'o' ∷ b'u' ∷ b't' ∷ []),
    )
    ∷ (409, (b'C' ∷ b'o' ∷ b'n' ∷ b'f' ∷ b'l' ∷ b'i' ∷ b'c' ∷ b't' ∷ []))
    ∷ (410, (b'G' ∷ b'o' ∷ b'n' ∷ b'e' ∷ []))
    ∷ (
      411,
      (b'L' ∷ b'e' ∷ b'n' ∷ b'g' ∷ b't' ∷ b'h' ∷ b' ' ∷ b'R' ∷ b'e' ∷ b'q' ∷ b'u' ∷ b'i' ∷ b'r'
          ∷ b'e' ∷ b'd' ∷ []),
    )
    ∷ (
      412,
      (b'P' ∷ b'r' ∷ b'e' ∷ b'c' ∷ b'o' ∷ b'n' ∷ b'd' ∷ b'i' ∷ b't' ∷ b'i' ∷ b'o' ∷ b'n' ∷ b'F'
          ∷ b'a' ∷ b'i' ∷ b'l' ∷ b'e' ∷ b'd' ∷ []),
    )
    ∷ (
      413,
      (b'R' ∷ b'e' ∷ b'q' ∷ b'u' ∷ b'e' ∷ b's' ∷ b't' ∷ b' ' ∷ b'E' ∷ b'n' ∷ b't' ∷ b'i' ∷ b't'
          ∷ b'y' ∷ b' ' ∷ b'T' ∷ b'o' ∷ b'o' ∷ b' ' ∷ b'L' ∷ b'a' ∷ b'r' ∷ b'g' ∷ b'e' ∷ []),
    )
    ∷ (
      414,
      (b'R' ∷ b'e' ∷ b'q' ∷ b'u' ∷ b'e' ∷ b's' ∷ b't' ∷ b'-' ∷ b'U' ∷ b'R' ∷ b'I' ∷ b' ' ∷ b'T'
          ∷ b'o' ∷ b'o' ∷ b' ' ∷ b'L' ∷ b'a' ∷ b'r' ∷ b'g' ∷ b'e' ∷ []),
    )
    ∷ (
      415,
      (b'U' ∷ b'n' ∷ b's' ∷ b'u' ∷ b'p' ∷ b'p' ∷ b'o' ∷ b'r' ∷ b't' ∷ b'e' ∷ b'd' ∷ b' ' ∷ b'M'
          ∷ b'e' ∷ b'd' ∷ b'i' ∷ b'a' ∷ b' ' ∷ b'T' ∷ b'y' ∷ b'p' ∷ b'e' ∷ []),
    )
    ∷ (
      416,
      (b'R' ∷ b'e' ∷ b'q' ∷ b'u' ∷ b'e' ∷ b's' ∷ b't' ∷ b'e' ∷ b'd' ∷ b' ' ∷ b'r' ∷ b'a' ∷ b'n'
          ∷ b'g' ∷ b'e' ∷ b' ' ∷ b'n' ∷ b'o' ∷ b't' ∷ b' ' ∷ b's' ∷ b'a' ∷ b't' ∷ b'i' ∷ b's' ∷ b'f'
          ∷ b'i' ∷ b'a' ∷ b'b' ∷ b'l' ∷ b'e' ∷ []),
    )
    ∷ (
      417,
      (b'E' ∷ b'x' ∷ b'p' ∷ b'e' ∷ b'c' ∷ b't' ∷ b'a' ∷ b't' ∷ b'i' ∷ b'o' ∷ b'n' ∷ b' ' ∷ b'F'
          ∷ b'a' ∷ b'i' ∷ b'l' ∷ b'e' ∷ b'd' ∷ []),
    )
    ∷ (
      422,
      (b'U' ∷ b'n' ∷ b'p' ∷ b'r' ∷ b'o' ∷ b'c' ∷ b'e' ∷ b's' ∷ b's' ∷ b'a' ∷ b'b' ∷ b'l' ∷ b'e'
          ∷ b' ' ∷ b'E' ∷ b'n' ∷ b't' ∷ b'i' ∷ b't' ∷ b'y' ∷ []),
    )
    ∷ (423, (b'L' ∷ b'o' ∷ b'c' ∷ b'k' ∷ b'e' ∷ b'd' ∷ []))
    ∷ (
      424,
      (b'F' ∷ b'a' ∷ b'i' ∷ b'l' ∷ b'e' ∷ b'd' ∷ b' ' ∷ b'D' ∷ b'e' ∷ b'p' ∷ b'e' ∷ b'n' ∷ b'd'
          ∷ b'e' ∷ b'n' ∷ b'c' ∷ b'y' ∷ []),
    )
    ∷ (
      500,
      (b'I' ∷ b'n' ∷ b't' ∷ b'e' ∷ b'r' ∷ b'n' ∷ b'a' ∷ b'l' ∷ b' ' ∷ b'S' ∷ b'e' ∷ b'r' ∷ b'v'
          ∷ b'e' ∷ b'r' ∷ b' ' ∷ b'E' ∷ b'r' ∷ b'r' ∷ b'o' ∷ b'r' ∷ []),
    )
    ∷ (
      501,
      (b'N' ∷ b'o' ∷ b't' ∷ b' ' ∷ b'I' ∷ b'm' ∷ b'p' ∷ b'l' ∷ b'e' ∷ b'm' ∷ b'e' ∷ b'n' ∷ b't'
          ∷ b'e' ∷ b'd' ∷ []),
    )
    ∷ (502, (b'B' ∷ b'a' ∷ b'd' ∷ b' ' ∷ b'G' ∷ b'a' ∷ b't' ∷ b'e' ∷ b'w' ∷ b'a' ∷ b'y' ∷ []))
    ∷ (
      503,
      (b'S' ∷ b'e' ∷ b'r' ∷ b'v' ∷ b'i' ∷ b'c' ∷ b'e' ∷ b' ' ∷ b'U' ∷ b'n' ∷ b'a' ∷ b'v' ∷ b'a'
          ∷ b'i' ∷ b'l' ∷ b'a' ∷ b'b' ∷ b'l' ∷ b'e' ∷ []),
    )
    ∷ (
      504,
      (b'G' ∷ b'a' ∷ b't' ∷ b'e' ∷ b'w' ∷ b'a' ∷ b'y' ∷ b' ' ∷ b'T' ∷ b'i' ∷ b'm' ∷ b'e' ∷ b'-'
          ∷ b'o' ∷ b'u' ∷ b't' ∷ []),
    )
    ∷ (
      505,
      (b'H' ∷ b'T' ∷ b'T' ∷ b'P' ∷ b' ' ∷ b'V' ∷ b'e' ∷ b'r' ∷ b's' ∷ b'i' ∷ b'o' ∷ b'n' ∷ b' '
          ∷ b'n' ∷ b'o' ∷ b't' ∷ b' ' ∷ b's' ∷ b'u' ∷ b'p' ∷ b'p' ∷ b'o' ∷ b'r' ∷ b't' ∷ b'e' ∷ b'd'
          ∷ []),
    )
    ∷ (
      507,
      (b'I' ∷ b'n' ∷ b's' ∷ b'u' ∷ b'f' ∷ b'f' ∷ b'i' ∷ b'c' ∷ b'i' ∷ b'e' ∷ b'n' ∷ b't' ∷ b' '
          ∷ b'S' ∷ b't' ∷ b'o' ∷ b'r' ∷ b'a' ∷ b'g' ∷ b'e' ∷ []),
    )
    ∷ []
